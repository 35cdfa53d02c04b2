-- ===== src/Factory/Handle/Fresh.antt =====
-- A new source in `init` of spa/plugins/fits/source.c: its cube, and what the checks of row blocks give.
use mathlib.Core.Path.{subst}
use native.Mathlib.Nat.{mul-le-mul_left, mul-le-mul_right}
use pipewireao_spa_plugin_fi.Base.{
  ℕ, zero, suc, ◌*◌, ◌/◌, ◌%◌, ◌^◌, ◌≤◌, ◌<◌, ◌≡◌, refl, inl, inr, true, false, none, some, arith,
  u32_max, u64_max, nsec_per_sec,
}
use pipewireao_spa_plugin_fi.Errno.{Result, ok, err, Errno}
use pipewireao_spa_plugin_fi.Rate.{Fraction, IsRate}
use pipewireao_spa_plugin_fi.BlockRate.{block_rate}
use pipewireao_spa_plugin_fi.BlockRate.Reduced.{IsBlockRate, block_rate-IsBlockRate}
use pipewireao_spa_plugin_fi.RowCadence
use pipewireao_spa_plugin_fi.RowCadence.Pts.{IsReadout}
use pipewireao_spa_plugin_fi.Cube
use pipewireao_spa_plugin_fi.Cube.Open.{IsMeasured}
use pipewireao_spa_plugin_fi.Source.{Impl, is_row}
use pipewireao_spa_plugin_fi.Source.Playback.Rows.{IsRowSource}
use pipewireao_spa_plugin_fi.Source.Node.{IsNode}
use pipewireao_spa_plugin_fi.Factory.Options.{Options}
use pipewireao_spa_plugin_fi.Factory.Handle.{
  Resources, no_resources, World, unwind, new_source, row_source_ok,
}
use native.Mathlib.Nat.{mod-eq-sub-div-mul, div-mul-le_self}
use pipewireao_spa_plugin_fi.Factory.Handle.Made.{IsAddressable, blocks}

divided : (height rows : ℕ) → height % rows ≡ 0 → height / rows * rows ≡ height
divided height rows h = omega (arith, mod-eq-sub-div-mul height rows, div-mul-le_self height rows)

factor-pos : (b r h : ℕ) → 0 < h → b * r ≡ h → 0 < b
factor-pos zero r h pos e = omega arith
factor-pos (suc b) r h pos e = omega arith

factor-le : (b r h : ℕ) → 0 < r → b * r ≡ h → b ≤ h
factor-le b r h pos e = omega (arith, mul-le-mul_left b pos)

-- What a cube that was opened for a new handle is, and that the handle holds nothing else.
pub record IsOpen (c : Cube.Cube) (held : Resources) : Type 0 where
  pub measured : IsMeasured c.info
  pub cube :
      (held.cube.fits ≡ some c.fits) × (held.cube.mapping ≡ c.mapping) × (held.cube.fd ≡ c.fd)
  pub frames : held.frames ≡ false
  pub untimed : (held.timer_fd ≡ none) × (held.in_loop ≡ false)

pub unwind-no_resources :
    (held : Resources)
    → (held.timer_fd ≡ none) × (held.in_loop ≡ false)
    → unwind held ≡ no_resources
unfolding unwind Cube.close
unwind-no_resources held (fd, loop) = rw (fd, loop) refl

module _ {Metas : Type 0} where
  pub new_source-IsNode : (o : Options) (c : Cube.Cube) → IsNode {Metas = Metas} (new_source o c)
  unfolding new_source
  new_source-IsNode o c = record {
    pool_ok = (
      record { few = omega arith; hint_inside = inr (refl, refl); own_id = λ i s e. cc },
      λ i s e h. cc,
      refl,
    );
    formatted = λ ne. absurd (ne refl);
    playing = λ on. cc;
  }

  pub row-checks :
      (world : World) (o : Options) (self : Impl Metas)
      → row_source_ok world o self ≡ true
      → (self.row_block_rows < self.cube_info.height)
        × (self.cube_info.height % self.row_block_rows ≡ 0)
  unfolding row_source_ok
  row-checks world o self h = (ground arith, ground arith)

  module _ (self : Impl Metas) (row : is_row self ≡ true) (m : IsMeasured self.cube_info)
      (a : IsAddressable self.cube_info) (pos : 0 < self.row_block_rows)
      (less : self.row_block_rows < self.cube_info.height)
      (divides : self.cube_info.height % self.row_block_rows ≡ 0) where
    whole_blocks : blocks self * self.row_block_rows ≡ self.cube_info.height
    whole_blocks = divided self.cube_info.height self.row_block_rows divides

    blocks-pos : 0 < blocks self
    blocks-pos =
        factor-pos (blocks self) self.row_block_rows self.cube_info.height m.height_range.0
          whole_blocks

    blocks-word : blocks self ≤ u32_max
    blocks-word = omega (
      arith,
      factor-le (blocks self) self.row_block_rows self.cube_info.height pos whole_blocks,
      m.height_range.1,
    )

    pub row_source : IsRowSource self (blocks self)
    row_source = record {
      rows = row;
      measured = m;
      divided = whole_blocks;
      counted =
          omega (arith, mul-le-mul_right self.cube_info.width (below less), m.elements, a.pixels);
    }
      where
        below : {x y : ℕ} → x < y → x ≤ y
        below h = omega arith

    pub start-IsReadout :
        IsRate self.rate
        → 0 < self.simulated_readout_time_ns
        → self.simulated_readout_time_ns ≤ u64_max
        → self.simulated_readout_time_ns * self.rate.num ≤ nsec_per_sec * self.rate.denom
        → (now : ℕ) → now < 2 ^ 64
        → IsReadout (RowCadence.start self.rate self.simulated_readout_time_ns (blocks self) now)
    unfolding RowCadence.start
    start-IsReadout rate some_ word fits now h = record {
      rate_ok = rate;
      epoch_word = h;
      readout_pos = some_;
      readout_word = omega arith;
      readout_fits = fits;
      blocks_pos = blocks-pos;
      blocks_word = blocks-word;
    }

    pub rate-made :
        (r : Fraction)
        → IsRate self.rate
        → block_rate self.rate (blocks self) ≡ ok r
        → IsBlockRate self.rate (blocks self) r
    rate-made r rate e =
        elim (block_rate-IsBlockRate self.rate (blocks self) rate blocks-pos blocks-word) [
          | inl (f, why) ↦ absurd (ok-err e f)
          | inr (r', f, v) ↦ subst (IsBlockRate self.rate (blocks self)) (ok-ok f e) v
        ]
      where
        ok-err : {x : Result Fraction} {r : Fraction} {y : Errno} → x ≡ ok r → x ≡ err y → ⊥
        ok-err e f = cc

        ok-ok : {x : Result Fraction} {r s : Fraction} → x ≡ ok r → x ≡ ok s → r ≡ s
        ok-ok e f = cc
