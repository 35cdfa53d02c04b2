-- ===== src/Source/Playback/Shown.antt =====
-- What the passes of a playing row source publish: rows of the frames that were prepared.
use pipewireao_spa_plugin_fi.Base.{
  take, drop, u32, u32_max, arith, ◌+◌, ◌*◌, ◌≤◌, ◌==◌, ◌&&◌, ◌||◌, List, ℕ, ◌<◌, ◌≡◌, refl, sym,
  ap, ◌∙◌, inl, inr, Bool, true, false, Option, none, some, u64_max,
}
use mathlib.Core.Path.{subst, ap₂}
use pipewireao_spa_plugin_fi.Errno.{ok}
use pipewireao_spa_plugin_fi.RowCadence
use pipewireao_spa_plugin_fi.RowCadence.Latest.{IsDueBlock, due-IsDueBlock}
use pipewireao_spa_plugin_fi.RowCadence.Ready.{IsReady, abandon-IsReady}
use pipewireao_spa_plugin_fi.ImageFrame
use pipewireao_spa_plugin_fi.Source.{Impl, output_size, output_stride}
use pipewireao_spa_plugin_fi.Source.Playback.{
  status_have_data, has_data, abandon_frame, row_bytes, process_row_block,
}
use pipewireao_spa_plugin_fi.Source.Playback.Rows.{
  IsSlice, row_bytes-IsSlice, block_bytes, frame_bytes, first_row-exact, size-exact, stride-exact,
}
use pipewireao_spa_plugin_fi.Source.Playback.Publication.{
  IsFilled, IsPublished, selected, process_row_block-IsPublished,
}
use pipewireao_spa_plugin_fi.Source.Playback.Readout.{
  IsReadout, due-open, selected-IsReady, process_row_block-IsStep, step-IsReadout,
}

module _ {Metas Records : Type 0} (api : ImageFrame.MetaApi Metas Records) where
  -- The buffer of a row block with these bytes and marks.
  abbrev Stored :
      Impl Metas
      → ImageFrame.Data
      → ImageFrame.Buffer Metas
      → RowCadence.RowBlock
      → Bool
      → List ℕ
      → Bool
      → ℕ
      → ℕ
      → ℕ
      → Type 0
  Stored self data_ written b broken bytes last first_row size stride =
      IsFilled data_ bytes
        (record {
          flags = record {
            discont = (b.block == 0) && ((b.sequence == 0) || broken);
            corrupted = false;
            marker = last;
            header = false;
            gap = false;
            delta_unit = false;
            unknown = 0;
          };
          offset = first_row;
          pts = b.pts;
          dts_offset = 0;
          seq = b.sequence;
        })
        (record {
          offset = 0;
          size = size;
          stride = stride;
          flags = record { corrupted = false; empty = false; unknown = 0 };
        })
        written

  -- What the host finds after a pass that publishes.
  pub record IsShown (self : Impl Metas) (now : ℕ) (after : Impl Metas) : Type 0 where
    pub published : IsPublished api self now after
    pub due :
        IsDueBlock
          (selected api self now).row_cadence
          now
          self.cube_info.samples
          self.loops
          published.block
    pub slice :
        IsSlice self self.row_cadence.blocks_per_frame published.row_out.frames published.block
          (row_bytes self published.row_out.frames published.block)
    pub filled :
        Stored self published.row_out.data_ published.row_out.written published.block
          (selected api self now).discontinuity
          (take (block_bytes self) (
            drop
              (published.block.sample * frame_bytes self + published.block.block * block_bytes self)
              published.row_out.frames))
          (published.block.block + 1 == self.row_cadence.blocks_per_frame)
          (published.block.block * self.row_block_rows)
          (block_bytes self)
          (u32 (self.cube_info.width * 2))

  last-exact :
      (self : Impl Metas) (b : RowCadence.RowBlock)
      → self.row_cadence.blocks_per_frame ≤ u32_max
      → b.block < self.row_cadence.blocks_per_frame
      → u32 (b.block + 1) ≡ b.block + 1
  last-exact self b word inside = omega (arith, word)

  stored :
      (self : Impl Metas) (data_ : ImageFrame.Data) (written : ImageFrame.Buffer Metas)
      (b : RowCadence.RowBlock) (broken : Bool) {bytes bytes' : List ℕ} {last last' : Bool}
      {first first' size size' stride stride' : ℕ}
      → bytes ≡ bytes'
      → last ≡ last'
      → first ≡ first'
      → size ≡ size'
      → stride ≡ stride'
      → Stored self data_ written b broken bytes last first size stride
      → Stored self data_ written b broken bytes' last' first' size' stride'
  stored self data_ written b broken e1 e2 e3 e4 e5 s = rw⁻¹ (e1, e2, e3, e4, e5) s

  shown :
      (self : Impl Metas) (now : ℕ) (after : Impl Metas)
      → IsReadout self
      → now < u64_max
      → IsPublished api self now after
      → IsShown self now after
  unfolding row_bytes output_size output_stride
  shown self now after v room p =
      let (ready, blocks) = selected-IsReady api self now room v in
      let c = (selected api self now).row_cadence in
      let due =
        due-block c now self.cube_info.samples self.loops p.block ready
          v.source.measured.samples_pos p.due in
      let slice : IsSlice self self.row_cadence.blocks_per_frame p.row_out.frames p.block
          (row_bytes self p.row_out.frames p.block) =
        row_bytes-IsSlice self self.row_cadence.blocks_per_frame p.row_out.frames p.block v.source
          (subst (λ n. p.block.block < n) blocks due.in_frame) due.stored in
      record {
        published = p;
        due = due;
        slice = slice;
        filled =
            stored self p.row_out.data_ p.row_out.written p.block
              (selected api self now).discontinuity slice.copied
              (ap₂ (λ m n. m == n)
                (last-exact self p.block v.ready.scheduled.readout.blocks_word
                  (subst (λ n. p.block.block < n) blocks due.in_frame))
                blocks)
              (first_row-exact self self.row_cadence.blocks_per_frame v.source p.block.block
                (subst (λ n. p.block.block < n) blocks due.in_frame))
              (size-exact self self.row_cadence.blocks_per_frame v.source)
              (stride-exact self self.row_cadence.blocks_per_frame v.source) p.row_out.filled;
      }
    where
      due-block :
          (c : RowCadence.RowCadence) (now count : ℕ) (loop : Bool) (b : RowCadence.RowBlock)
          → IsReady count loop c
          → 0 < count
          → RowCadence.due c now count loop ≡ some b
          → IsDueBlock c now count loop b
      due-block c now count loop b r pos e =
          elim (due-IsDueBlock c now count loop r.scheduled pos
            (r.stored (due-open c now count loop b e))) [
              | inl (none_, _) ↦ absurd (nothing-some (sym none_ ∙ e))
              | inr (b', e', _, d) ↦
                  subst (IsDueBlock c now count loop) (some-injective (sym e' ∙ e)) d
            ]
        where
          nothing-some : ◌≡◌ {A = Option RowCadence.RowBlock} none (some b) → ⊥
          nothing-some h = cc

          some-injective : {x y : RowCadence.RowBlock} → some x ≡ some y → x ≡ y
          some-injective h = cc

  -- The passes of a row source from its start on, and what may come between two of them: the timer that finds an
  -- output unread abandons a frame, and other calls leave the configuration and the schedule alone.
  pub data Passes (s : Impl Metas) : Impl Metas → Type 0 where
    at_start : Passes s s
    and_pass :
        (t : Impl Metas) (now : ℕ)
        → now < u64_max
        → Passes s t
        → Passes s (process_row_block api t now).1
    and_abandon :
        (t : Impl Metas) (now : ℕ) → now < u64_max → Passes s t → Passes s (abandon_frame t now)
    and_other :
        (t u : Impl Metas)
        → u.config ≡ t.config
        → u.row_cadence ≡ t.row_cadence
        → Passes s t
        → Passes s u

  abandon-IsReadout :
      (t : Impl Metas) (now : ℕ) → now < u64_max → IsReadout t → IsReadout (abandon_frame t now)
  unfolding abandon_frame
  abandon-IsReadout t now room v =
      let off = abandon-IsReady t.row_cadence now t.cube_info.samples t.loops v.ready room in
      step-IsReadout api t (abandon_frame t now) v
        (record { same = refl; blocks = off.1; next = off.0 })

  Passes-IsReadout : (s t : Impl Metas) → IsReadout s → Passes s t → IsReadout t
  Passes-IsReadout s _ v at_start = v
  Passes-IsReadout s _ v (and_pass t now room p) =
      let w = Passes-IsReadout s t v p in
      step-IsReadout api t _ w (process_row_block-IsStep api t now room w)
  Passes-IsReadout s _ v (and_abandon t now room p) =
      abandon-IsReadout t now room (Passes-IsReadout s t v p)
  Passes-IsReadout s _ v (and_other t u config cadence p) =
      let w = Passes-IsReadout s t v p in
      step-IsReadout api t u w (record {
        same = config;
        blocks = ap (λ c. c.blocks_per_frame) cadence;
        next = subst (IsReady t.cube_info.samples t.loops) (sym cadence) w.ready;
      })

  -- From a row source with a schedule of blocks that divide its frames on, after any number of passes, abandoned
  -- frames and other calls that leave the configuration and the schedule alone, and while the clock is below
  -- its last value: a pass over an output that the host has read, and that answers HAVE_DATA, publishes a block
  -- that is due, with a frame of the cube; the Header says its deadline, its number and its first row, the
  -- memory of the buffer starts with the rows of that block, which lie inside its frame and the prepared
  -- frames, and the chunk says their size and stride.
  pub process_row_block-IsShown :
      (s t : Impl Metas) (now : ℕ)
      → IsReadout s
      → Passes s t
      → now < u64_max
      → has_data t.io ≡ false
      → (process_row_block api t now).0 ≡ ok status_have_data
      → IsShown t now (process_row_block api t now).1
  process_row_block-IsShown s t now v passes room read answer =
      elim (process_row_block-IsPublished api t now answer) [
        | inl (unread, _) ↦ absurd (clash unread read)
        | inr (_, p) ↦ shown t now _ (Passes-IsReadout s t v passes) room p
      ]
    where
      clash : {b : Bool} → b ≡ true → b ≡ false → ⊥
      clash h k = cc
