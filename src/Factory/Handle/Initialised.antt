-- ===== src/Factory/Handle/Initialised.antt =====
-- `init` of spa/plugins/fits/source.c gives a handle that is ready for its host, or an error and nothing
-- held.
use pipewireao_spa_plugin_fi.Base.{
  length, ℕ, ◌<◌, ◌≡◌, refl, sym, ap, ◌∙◌, inl, inr, Bool, true, false, none, some, List, arith,
}
use pipewireao_spa_plugin_fi.Errno.{Result, ok, err, Errno, Result-cases}
use pipewireao_spa_plugin_fi.Rate.{Fraction, IsRate}
use pipewireao_spa_plugin_fi.BlockRate.{block_rate}
use pipewireao_spa_plugin_fi.Cube
use pipewireao_spa_plugin_fi.Source.Prepare.{HasPlane}
use pipewireao_spa_plugin_fi.Factory.Handle.Planes.{ReadsWhole, ReadsWhole-FillsPlane}
use pipewireao_spa_plugin_fi.Cube.Open.{IsMeasured, IsFileOf, Opened, opened, open_cube-Opened}
use pipewireao_spa_plugin_fi.Source.{
  Impl, OutputMode, frame_mode, row_block_mode, is_row, is_row_block,
}
use pipewireao_spa_plugin_fi.Source.Node.{IsNode}
use pipewireao_spa_plugin_fi.Factory.Options.{Options, read_options, configure_props}
use pipewireao_spa_plugin_fi.Factory.Reports.{IsAtou32, IsOptions}
use pipewireao_spa_plugin_fi.Factory.Vouched.{read_options-IsOptions}
use pipewireao_spa_plugin_fi.Factory.Handle.{
  Resources, no_resources, World, cube_options, too_large, unwind, new_source, row_source_ok,
  with_rate, open_timer, finish_handle, make_handle, init,
}
use pipewireao_spa_plugin_fi.Factory.Handle.Made.{
  IsAddressable, too_large-IsAddressable, blocks, IsRowMade, HasPlanes, IsFrameMade, IsMade, Made,
  made, failed, whole, in_rows, refused, prepare-Prepared,
}
use pipewireao_spa_plugin_fi.Factory.Handle.Fresh.{
  IsOpen, unwind-no_resources, new_source-IsNode, row-checks, row_source, start-IsReadout,
  rate-made,
}

-- What becomes of the timer of a new source.
data Timed (readiness : Bool) (held : Resources) (r : Result (Unit {0}) × Resources) : Type 0 where
  no_timer : readiness ≡ false → r ≡ (ok tt, held) → Timed readiness held r
  timer :
      (fd : ℕ)
      → readiness ≡ true
      → r ≡ (ok tt, record held { timer_fd = some fd; in_loop = true })
      → Timed readiness held r
  no_service : (e : Errno) → r ≡ (err e, unwind held) → Timed readiness held r

open_timer-Timed :
    (world : World) (readiness : Bool) (held : Resources)
    → Timed readiness held (open_timer world readiness held)
unfolding open_timer
open_timer-Timed world false held = no_timer refl refl
open_timer-Timed world true held = elim (Result-cases world.timerfd_create) [
  | inr (x, e) ↦ no_service x (rw (e, open_timer) refl)
  | inl (fd, e) ↦ elim (Result-cases world.add_source) [
    | inr (x, f) ↦ no_service x (rw (e, f, open_timer) refl)
    | inl (u, f) ↦ timer fd refl (rw (e, f, open_timer) refl)
  ]
]

abbrev closed_cube : Resources → Resources
closed_cube held = record held { cube = Cube.close held.cube; frames = true }

true-false : {b : Bool} → b ≡ true → b ≡ false → ⊥
true-false e f = cc

module _ {Metas : Type 0} (world : World) (o : Options) where
  -- A new source before it has its timer.
  record IsPrepared (self : Impl Metas) (held : Resources) : Type 0 where
    readiness : self.timerfd_readiness ≡ o.timerfd_readiness
    measured : IsMeasured self.cube_info
    addressable : IsAddressable self.cube_info
    rate : IsRate self.rate
    node : IsNode self
    stopped : self.started ≡ false
    frames : is_row self ≡ false → IsFrameMade self held
    rows : is_row self ≡ true → IsRowMade self held
    planes : is_row self ≡ true → HasPlanes world self
    untimed : (held.timer_fd ≡ none) × (held.in_loop ≡ false)

  module _ (v : IsOptions world.host o) (c : Cube.Cube) (held : Resources) (w : IsOpen c held) where
    abbrev fresh : Impl Metas
    fresh = new_source o c

    whole-IsPrepared : too_large c.info ≡ false → is_row fresh ≡ false → IsPrepared fresh held
    unfolding new_source
    whole-IsPrepared small off = record {
      readiness = refl;
      measured = w.measured;
      addressable = too_large-IsAddressable c.info w.measured small;
      rate = v.rate;
      node = new_source-IsNode o c;
      stopped = refl;
      frames = λ e. record {
        rate = refl;
        unprepared = (refl, w.frames);
        opened = (c, refl, refl, w.cube.0, w.cube.1, w.cube.2);
      };
      rows = λ on. absurd (true-false on off);
      planes = λ on. absurd (true-false on off);
      untimed = w.untimed;
    }

    -- A new source whose frames are prepared and whose cube is closed.
    abbrev in_blocks : Fraction → List ℕ → Impl Metas
    in_blocks rate frames = record (with_rate fresh rate) {
      preloaded_frames = some frames;
      cube = none;
    }

    rows-IsPrepared :
        (rate : Fraction) (frames : List ℕ)
        → too_large c.info ≡ false
        → is_row fresh ≡ true
        → row_source_ok world o fresh ≡ true
        → block_rate o.rate (blocks fresh) ≡ ok rate
        → IsFileOf world.system c.fits
        → ((s : ℕ) → s < c.info.samples → HasPlane (some c) c.info.plane_elements frames s)
        → IsPrepared (in_blocks rate frames) (closed_cube held)
    unfolding new_source Cube.close
    rows-IsPrepared rate frames small on good e file stored =
        let a = too_large-IsAddressable c.info w.measured small in
        let (less, divides) = row-checks world o fresh good in
        let pos : 0 < o.row_block_rows = omega (arith, v.rows.0) in
        let (some_, fits) = v.row_readout (mode o.output_mode on) in
        let self = in_blocks rate frames in
        let n : IsNode fresh = new_source-IsNode o c in
        record {
          readiness = refl;
          measured = w.measured;
          addressable = a;
          rate = v.rate;
          node = record { pool_ok = n.pool_ok; formatted = n.formatted; playing = n.playing };
          stopped = refl;
          frames = λ off. absurd (true-false on off);
          rows = λ e'. record {
            row_source = row_source self on w.measured a pos less divides;
            rate = rate-made fresh on w.measured a pos less divides rate v.rate e;
            readout =
                start-IsReadout self on w.measured a pos less divides v.rate some_ v.readout_word
                  fits;
            prepared = (frames, refl);
            closed = (refl, refl, refl);
          };
          planes = λ e'. record {
            cube = c;
            file = file;
            info = refl;
            frames = frames;
            prepared = refl;
            planes = stored;
          };
          untimed = w.untimed;
        }
      where
        mode : (m : OutputMode) → is_row_block m ≡ true → m ≡ row_block_mode
        mode frame_mode e = cc
        mode row_block_mode e = refl

  module _ (v : IsOptions world.host o) (read : read_options world.host world.find ≡ ok o) where
    -- What was prepared is kept when the timer is there.
    with-timer :
        (self : Impl Metas) (held after : Resources)
        → IsPrepared self held
        → (after.cube ≡ held.cube) × (after.frames ≡ held.frames)
        → (self.timerfd_readiness ≡ true
            → ((fd : ℕ) × (after.timer_fd ≡ some fd)) × (after.in_loop ≡ true))
        → (self.timerfd_readiness ≡ false → (after.timer_fd ≡ none) × (after.in_loop ≡ false))
        → IsMade world
            (record { impl = self; options = o; props = configure_props o self.cube_info })
            after
    with-timer self held after p (cube, frames) timed untimed = record {
      options = v;
      read = read;
      props = refl;
      measured = p.measured;
      addressable = p.addressable;
      rate = p.rate;
      node = p.node;
      stopped = p.stopped;
      frames = λ off.
          let w = p.frames off in
          record {
            rate = w.rate;
            unprepared = (w.unprepared.0, frames ∙ w.unprepared.1);
            opened =
                let (c, is, info, fits, mapping, fd) = w.opened in
                (
                  c,
                  is,
                  info,
                  ap (λ h. h.fits) cube ∙ fits,
                  ap (λ h. h.mapping) cube ∙ mapping,
                  ap (λ h. h.fd) cube ∙ fd,
                );
          };
      rows = λ on.
          let w = p.rows on in
          record {
            row_source = w.row_source;
            rate = w.rate;
            readout = w.readout;
            prepared = w.prepared;
            closed = (w.closed.0, cube ∙ w.closed.1, frames ∙ w.closed.2);
          };
      planes = p.planes;
      timed = timed;
      untimed = untimed;
    }

    finish_handle-Made :
        (self : Impl Metas) (held : Resources)
        → IsPrepared self held
        → Made world (finish_handle world o self held)
    unfolding finish_handle
    finish_handle-Made self held p = elim (open_timer-Timed world o.timerfd_readiness held) [
      | no_service x e ↦
          rw (ap (λ r. r.0) e, ap (λ r. r.1) e, finish_handle)
            (failed x refl (unwind-no_resources held p.untimed))
      | no_timer off e ↦
          rw (ap (λ r. r.0) e, ap (λ r. r.1) e, finish_handle)
            (made _ refl (
              with-timer self held held p (refl, refl)
                (λ on. absurd (true-false (sym p.readiness ∙ on) off)) (λ off'. p.untimed)))
      | timer fd on e ↦
          rw (ap (λ r. r.0) e, ap (λ r. r.1) e, finish_handle)
            (made _ refl (
              with-timer self held (record held { timer_fd = some fd; in_loop = true }) p
                (refl, refl) (λ on'. ((fd, refl), refl))
                (λ off. absurd (true-false on (sym p.readiness ∙ off)))))
    ]

    make_handle-Made :
        (c : Cube.Cube) (held : Resources)
        → IsOpen c held
        → ((n : ℕ) (memory : List ℕ) → world.allocate n ≡ some memory → length memory ≡ n)
        → IsFileOf world.system c.fits
        → ReadsWhole c.fits
        → Made {Metas = Metas} world (make_handle world o c held)
    unfolding make_handle new_source
    make_handle-Made c held w sized file whole_reads =
        elim (prepare-Prepared {Metas = Metas} world o (new_source o c) held sized
          (ReadsWhole-FillsPlane c w.measured whole_reads)) [
            | refused x e ↦
                rw (ap (λ r. r.0) e, ap (λ r. r.1) e, make_handle)
                  (failed x refl (unwind-no_resources held w.untimed))
            | whole small off e ↦
                rw (ap (λ r. r.0) e, ap (λ r. r.1) e, make_handle)
                  (finish_handle-Made (new_source o c) held (whole-IsPrepared v c held w small off))
            | in_rows rate frames small on good e' stored e ↦
                rw (ap (λ r. r.0) e, ap (λ r. r.1) e, make_handle)
                  (finish_handle-Made _ (closed_cube held)
                    (rows-IsPrepared v c held w rate frames small on good e' file stored))
          ]

-- `init` ends in one of two ways. A handle that it makes has options that were checked, an image whose
-- planes and rows its host can address, and a stopped source between two calls; in frame mode the cube is
-- open, in row mode it is closed again, each plane stands at its place in the prepared frames as it was
-- read, the blocks divide the frame and come at the exact rate of the blocks, and every start gives a
-- schedule; and just a source with a timer holds a descriptor, which is in the loop. Each failure gives an
-- error and leaves nothing held. The host must have an spa_atou32 that reads just 32-bit numbers and those
-- that are printed in decimal; memory must come in the size that is asked for, and a read of CFITSIO must
-- fill what it was asked for.
pub init-Made :
    {Metas : Type 0} (world : World)
    → IsAtou32 world.host.atou32
    → ((n : ℕ) (memory : List ℕ) → world.allocate n ≡ some memory → length memory ≡ n)
    → ((fits : Cube.FitsFile) → IsFileOf world.system fits → ReadsWhole fits)
    → Made {Metas = Metas} world (init world)
unfolding init
init-Made world atou sized whole_reads = elim (Result-cases (read_options world.host world.find)) [
  | inr (x, e) ↦ rw (e, init) (failed x refl refl)
  | inl (o, e) ↦ elim (open_cube-Opened world.system (cube_options o)) [
    | Opened.failed x f nothing ↦
        rw (e, f, init) (failed x refl (ap (λ h. record no_resources { cube = h }) nothing))
    | opened c f m file _ fits (mapping, fd) ↦
        rw (e, f, init)
          (make_handle-Made world o (read_options-IsOptions world.host atou world.find o e) e c _
            (record {
              measured = m;
              cube = (fits, mapping, fd);
              frames = refl;
              untimed = (refl, refl);
            })
            sized file (whole_reads c.fits file))
  ]
]
