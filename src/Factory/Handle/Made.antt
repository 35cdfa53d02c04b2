-- ===== src/Factory/Handle/Made.antt =====
-- `init` of spa/plugins/fits/source.c: what a handle that was made is, and what a failure leaves.
use native.Mathlib.Nat.{mul-le-mul}
use pipewireao_spa_plugin_fi.Base.{
  ℕ, ◌*◌, ◌/◌, ◌^◌, ◌≤◌, ◌<◌, ◌≡◌, refl, sym, ap, ◌∙◌, inl, inr, true, false, Option, none, some,
  List, length, arith, Bool-cases, i32_max,
}
use pipewireao_spa_plugin_fi.Errno.{Result, ok, err, Errno, einval, eoverflow, Result-cases}
use pipewireao_spa_plugin_fi.Rate.{Fraction, IsRate}
use pipewireao_spa_plugin_fi.BlockRate.{block_rate}
use pipewireao_spa_plugin_fi.BlockRate.Reduced.{IsBlockRate}
use pipewireao_spa_plugin_fi.RowCadence
use pipewireao_spa_plugin_fi.RowCadence.Pts.{IsReadout}
use pipewireao_spa_plugin_fi.Cube
use pipewireao_spa_plugin_fi.Cube.Open.{IsMeasured, IsFileOf}
use pipewireao_spa_plugin_fi.Source.{Impl, is_row}
use pipewireao_spa_plugin_fi.Source.Prepare.{
  preload_from, preload, preload_row_frames, preload_row_frames-memory, FillsPlane, HasPlane,
  preload_row_frames-HasPlane,
}
use pipewireao_spa_plugin_fi.Source.Playback.Rows.{IsRowSource}
use pipewireao_spa_plugin_fi.Source.Node.{IsNode}
use pipewireao_spa_plugin_fi.Factory.Options.{Options, read_options, configure_props}
use pipewireao_spa_plugin_fi.Factory.Reports.{IsOptions}
use pipewireao_spa_plugin_fi.Factory.Handle.{
  Resources, no_resources, World, Handle, too_large, unwind, row_source_ok, with_rate, prepare_rows,
  prepare,
}

-- The sizes that a host can address.
pub record IsAddressable (i : Cube.Info) : Type 0 where
  pub plane : i.plane_size ≤ i32_max
  pub pixels : 2 * i.plane_elements ≤ i32_max
  pub row : i.width * i.element_size ≤ i32_max

pub too_large-IsAddressable : (i : Cube.Info) → IsMeasured i → too_large i ≡ false → IsAddressable i
unfolding too_large
too_large-IsAddressable i v h = record {
  plane = ground arith;
  pixels = ground arith;
  row = ground (arith, mul-le-mul v.width_range.1 v.element_size_range.1);
}

module _ {Metas : Type 0} where
  abbrev pub blocks : Impl Metas → ℕ
  blocks self = self.cube_info.height / self.row_block_rows

  -- A source of row blocks: the blocks divide the frame, come at the exact rate of the blocks, can be scheduled
  -- whenever the source starts, and there are prepared frames.
  pub record IsRowMade (self : Impl Metas) (held : Resources) : Type 0 where
    pub row_source : IsRowSource self (blocks self)
    pub rate : IsBlockRate self.rate (blocks self) self.output_rate
    pub readout :
        (now : ℕ)
        → now < 2 ^ 64
        → IsReadout (RowCadence.start self.rate self.simulated_readout_time_ns (blocks self) now)
    pub prepared : (frames : List ℕ) × (self.preloaded_frames ≡ some frames)
    pub closed : (self.cube ≡ none) × (held.cube ≡ Cube.nothing_held) × (held.frames ≡ true)

  -- Each plane of the cube that was opened stands at its place in the prepared frames, as it was read.
  pub record HasPlanes (world : World) (self : Impl Metas) : Type 0 where
    pub cube : Cube.Cube
    pub file : IsFileOf world.system cube.fits
    pub info : cube.info ≡ self.cube_info
    pub frames : List ℕ
    pub prepared : self.preloaded_frames ≡ some frames
    pub planes :
        (s : ℕ)
        → s < self.cube_info.samples
        → HasPlane (some cube) self.cube_info.plane_elements frames s

  pub record IsFrameMade (self : Impl Metas) (held : Resources) : Type 0 where
    pub rate : self.output_rate ≡ self.rate
    pub unprepared : (self.preloaded_frames ≡ none) × (held.frames ≡ false)
    pub opened :
        (c : Cube.Cube) × (self.cube ≡ some c)
        × (c.info ≡ self.cube_info)
        × (held.cube.fits ≡ some c.fits)
        × (held.cube.mapping ≡ c.mapping)
        × (held.cube.fd ≡ c.fd)

  -- A handle that was made: its source has the options that were read, an image that its host can address,
  -- and is ready for the calls of a host.
  pub record IsMade (world : World) (h : Handle Metas) (held : Resources) : Type 0 where
    pub options : IsOptions world.host h.options
    pub read : read_options world.host world.find ≡ ok h.options
    pub props : h.props ≡ configure_props h.options h.impl.cube_info
    pub measured : IsMeasured h.impl.cube_info
    pub addressable : IsAddressable h.impl.cube_info
    pub rate : IsRate h.impl.rate
    pub node : IsNode h.impl
    pub stopped : h.impl.started ≡ false
    pub frames : is_row h.impl ≡ false → IsFrameMade h.impl held
    pub rows : is_row h.impl ≡ true → IsRowMade h.impl held
    pub planes : is_row h.impl ≡ true → HasPlanes world h.impl
    pub timed :
        h.impl.timerfd_readiness ≡ true
        → ((fd : ℕ) × (held.timer_fd ≡ some fd)) × (held.in_loop ≡ true)
    pub untimed : h.impl.timerfd_readiness ≡ false → (held.timer_fd ≡ none) × (held.in_loop ≡ false)

  -- The end of `init`.
  pub data Made (world : World) (r : Result (Handle Metas) × Resources) : Type 0 where
    made : (h : Handle Metas) → r.0 ≡ ok h → IsMade world h r.1 → Made world r
    failed : (e : Errno) → r.0 ≡ err e → r.1 ≡ no_resources → Made world r

  preload-result :
      (self : Impl Metas) (memory : List ℕ) (u : Unit {0})
      → (preload self memory).0 ≡ ok u
      → (frames : List ℕ) × ((preload self memory).1
          ≡ record self { preloaded_frames = some frames })
  unfolding preload
  preload-result self memory u e =
      elim (Result-cases
        (preload_from self.cube self.cube_info.plane_elements self.cube_info.samples 0 memory)) [
          | inl (frames, g) ↦ (frames, rw (g, preload) refl)
          | inr (x, g) ↦ absurd (refuted x g)
        ]
    where
      refuted :
          (x : Errno)
          → preload_from self.cube self.cube_info.plane_elements self.cube_info.samples 0 memory
            ≡ err x
          → ⊥
      refuted x g = ground arith

  preload_row_frames-result :
      (self : Impl Metas) (allocate : ℕ → Option (List ℕ)) (u : Unit {0})
      → (preload_row_frames self allocate).0 ≡ ok u
      → (frames : List ℕ) × ((preload_row_frames self allocate).1
          ≡ record self { preloaded_frames = some frames })
  preload_row_frames-result self allocate u e =
      let (memory, given, same) = preload_row_frames-memory self allocate e in
      let (frames, g) = preload-result self memory u (ap (λ r. r.0) (sym same) ∙ e) in
      (frames, ap (λ r. r.1) same ∙ g)

  -- What the preparation of a new source comes to.
  pub data Prepared (world : World) (o : Options) (self : Impl Metas) (held : Resources)
      (r : Result (Impl Metas) × Resources) : Type 0 where
    whole :
        too_large self.cube_info ≡ false
        → is_row self ≡ false
        → r ≡ (ok self, held)
        → Prepared world o self held r
    in_rows :
        (rate : Fraction) (frames : List ℕ)
        → too_large self.cube_info ≡ false
        → is_row self ≡ true
        → row_source_ok world o self ≡ true
        → block_rate self.rate (blocks self) ≡ ok rate
        → ((s : ℕ)
            → s < self.cube_info.samples
            → HasPlane self.cube self.cube_info.plane_elements frames s)
        → r ≡ (
          ok (record (with_rate self rate) { preloaded_frames = some frames; cube = none }),
          record held { cube = Cube.close held.cube; frames = true },
        )
        → Prepared world o self held r
    refused : (e : Errno) → r ≡ (err e, unwind held) → Prepared world o self held r

  module _ (world : World) (o : Options) (self : Impl Metas) (held : Resources)
      (sized : (n : ℕ) (memory : List ℕ) → world.allocate n ≡ some memory → length memory ≡ n)
      (fills : FillsPlane self.cube self.cube_info.plane_elements) where
    prepare_rows-Prepared :
        too_large self.cube_info ≡ false
        → is_row self ≡ true
        → Prepared world o self held (prepare_rows world o self held)
    unfolding prepare_rows
    prepare_rows-Prepared small row = elim (Bool-cases (row_source_ok world o self)) [
      | inr bad ↦ refused einval (rw (bad, prepare_rows) refl)
      | inl good ↦ elim (Result-cases (block_rate self.rate (blocks self))) [
        | inr (x, e) ↦ refused x (rw (good, e, prepare_rows) refl)
        | inl (rate, e) ↦
            elim (Result-cases (preload_row_frames (with_rate self rate) world.allocate).0) [
              | inr (x, f) ↦ refused x (rw (good, e, f, prepare_rows) refl)
              | inl (u, f) ↦
                  let (frames, g) =
                    preload_row_frames-result (with_rate self rate) world.allocate u f in
                  in_rows rate frames small row good e
                    (preload_row_frames-HasPlane (with_rate self rate) world.allocate frames sized
                      fills f (ap (λ s. s.preloaded_frames) g))
                    (rw (good, e, f, prepare_rows)
                      (ap
                        (λ s. (
                          ok (record s { cube = none }),
                          record held { cube = Cube.close held.cube; frames = true },
                        ))
                        g))
            ]
      ]
    ]

    pub prepare-Prepared : Prepared world o self held (prepare world o self held)
    unfolding prepare
    prepare-Prepared = elim (Bool-cases (too_large self.cube_info)) [
      | inl big ↦ refused eoverflow (rw (big, prepare) refl)
      | inr small ↦ elim (Bool-cases (is_row self)) [
        | inr off ↦ whole small off (rw (small, off, prepare) refl)
        | inl on ↦ rw (small, on, prepare) (prepare_rows-Prepared small on)
      ]
    ]
