-- ===== src/Factory/Handle.antt =====
-- The life of a handle in spa/plugins/fits/source.c: `init` from the opening of the cube on, the removal
-- of its timer and `clear`.
pub mod Planes
pub mod Made
pub mod Fresh
pub mod Initialised
pub mod Playing
pub mod Cleared
use pipewireao_spa_plugin_fi.Base.{
  ℕ, zero, ◌*◌, ◌/◌, ◌%◌, Bool, true, false, not, ◌&&◌, ◌||◌, Option, none, some, List, [], ltb,
  leb, ◌==◌, if◌then◌else◌, length, u32, u64, i32_max,
}
use pipewireao_spa_plugin_fi.Errno.{Result, ok, err, Errno, einval, eoverflow}
use pipewireao_spa_plugin_fi.Rate.{Fraction}
use pipewireao_spa_plugin_fi.Text.{same_text}
use pipewireao_spa_plugin_fi.BlockRate.{block_rate}
use pipewireao_spa_plugin_fi.Cadence
use pipewireao_spa_plugin_fi.RowCadence
use pipewireao_spa_plugin_fi.Cube
use pipewireao_spa_plugin_fi.Pool
use pipewireao_spa_plugin_fi.Source.{Impl, Env, output_none, is_row, is_row_block}
use pipewireao_spa_plugin_fi.Source.Control.{stop_source}
use pipewireao_spa_plugin_fi.Source.Prepare.{preload_row_frames}
use pipewireao_spa_plugin_fi.Factory.{Key, Host}
use pipewireao_spa_plugin_fi.Factory.Options.{Options, is_empty, read_options, configure_props}

-- What a handle holds outside its own memory: what its cube owns, the prepared frames, the descriptor of
-- its timer, and the place of the timer in the data loop.
pub record Resources : Type 0 where
  pub cube : Cube.Held
  pub frames : Bool
  pub timer_fd : Option ℕ
  pub in_loop : Bool

abbrev pub no_resources : Resources
no_resources = record { cube = Cube.nothing_held; frames = false; timer_fd = none; in_loop = false }

-- What `init` finds outside. `row_block_schema` is `SPA_NDARRAY_SCHEMA_RAW_PIXEL_ROW_BLOCK`.
pub record World : Type 0 where
  pub host : Host
  pub find : Key → Option (List ℕ)
  pub row_block_schema : List ℕ
  pub system : Cube.System
  pub allocate : ℕ → Option (List ℕ)
  pub timerfd_create : Result ℕ
  pub add_source : Result (Unit {0})

-- A handle that `init` has made: the source, and the properties that it reports.
pub record Handle (Metas : Type 0) : Type 0 where
  pub impl : Impl Metas
  pub options : Options
  pub props : List (Key × List ℕ)

unfoldable pub cube_options : Options → Cube.Options
cube_options o = record {
  path_given = not (is_empty o.path);
  hdu = o.hdu;
  sample_rank = o.sample_rank;
  io_mode = o.io_mode;
  prefault = o.prefault;
}

abbrev zero_rate : Fraction
zero_rate = record { num = 0; denom = 0 }

-- What a host addresses with `int32_t`: the bytes of a plane, of its 16-bit pixels, and of a row.
unfoldable pub too_large : Cube.Info → Bool
too_large info =
    ltb i32_max info.plane_size
    || (ltb (i32_max / 2) info.plane_elements || ltb i32_max (u64 (info.width * info.element_size)))

-- The label `error`: the cube is closed and the frames are freed.
unfoldable pub unwind : Resources → Resources
unwind held = record held { cube = Cube.close held.cube; frames = false }

-- The timer of a source that owns one.
unfoldable pub open_timer : World → Bool → Resources → Result (Unit {0}) × Resources
open_timer world timerfd_readiness held =
    if not timerfd_readiness then (ok tt, held) else elim world.timerfd_create [
      | err e ↦ (err e, unwind held)
      | ok fd ↦ elim world.add_source [
        | err e ↦ (err e, unwind held)
        | ok _ ↦ (ok tt, record held { timer_fd = some fd; in_loop = true })
      ]
    ]

module _ {Metas : Type 0} where
  -- The memory of a handle, zero but for what `init` has set when the cube is open.
  unfoldable pub new_source : Options → Cube.Cube → Impl Metas
  new_source o cube = record {
    config = record {
      layout = o.layout;
      schema = o.schema;
      cube_info = cube.info;
      rate = o.rate;
      output_rate = o.rate;
      simulated_readout_time_ns = o.simulated_readout_time_ns;
      row_block_rows = o.row_block_rows;
      output_mode = o.output_mode;
      loops = o.loops;
      timerfd_readiness = o.timerfd_readiness;
    };
    output = output_none;
    io = none;
    pool = record { slots = []; scan_hint = 0 };
    have_format = false;
    cube = some cube;
    cadence = record {
      rate = zero_rate;
      epoch = 0;
      next_sequence = 0;
      next_pts = 0;
      ended = false;
    };
    row_cadence = record {
      frame_rate = zero_rate;
      readout_time_ns = 0;
      epoch = 0;
      next_sequence = 0;
      next_pts = 0;
      blocks_per_frame = 0;
      next_block = 0;
      ended = false;
    };
    preloaded_frames = none;
    discontinuity = false;
    started = false;
    row_cycle_pending = false;
    row_cycle_buffer_id = some 0;
    completion_pending = false;
    completion_buffer_id = 0;
    completed = false;
    timer = none;
  }

  -- What a source of row blocks needs of the image and the options.
  unfoldable pub row_source_ok : World → Options → Impl Metas → Bool
  row_source_ok world o self =
      (self.cube_info.sample_rank == 2)
      && (not (is_empty o.profile)
          && (same_text self.schema world.row_block_schema
              && (ltb self.row_block_rows self.cube_info.height
                  && (self.cube_info.height % self.row_block_rows == 0))))

  abbrev pub with_rate : Impl Metas → Fraction → Impl Metas
  with_rate self r = record self { config = record self.config { output_rate = r } }

  -- The preparation of a source of row blocks, after which its cube is closed.
  unfoldable pub prepare_rows :
      World → Options → Impl Metas → Resources → Result (Impl Metas) × Resources
  prepare_rows world o self held =
      if not (row_source_ok world o self)
      then (err einval, unwind held)
      else elim (block_rate self.rate (self.cube_info.height / self.row_block_rows)) [
        | err e ↦ (err e, unwind held)
        | ok r ↦
            let (res, self') = preload_row_frames (with_rate self r) world.allocate in
            elim res [
              | err e ↦ (err e, unwind held)
              | ok _ ↦ (
                ok (record self' { cube = none }),
                record held { cube = Cube.close held.cube; frames = true },
              )
            ]
      ]

  unfoldable pub prepare :
      World → Options → Impl Metas → Resources → Result (Impl Metas) × Resources
  prepare world o self held =
      if too_large self.cube_info
      then (err eoverflow, unwind held)
      else if is_row self
      then prepare_rows world o self held
      else (ok self, held)

  unfoldable pub finish_handle :
      World → Options → Impl Metas → Resources → Result (Handle Metas) × Resources
  finish_handle world o self held =
      let (timed, held') = open_timer world o.timerfd_readiness held in
      elim timed [
        | err e ↦ (err e, held')
        | ok _ ↦ (
          ok (record { impl = self; options = o; props = configure_props o self.cube_info }),
          held',
        )
      ]

  unfoldable pub make_handle :
      World → Options → Cube.Cube → Resources → Result (Handle Metas) × Resources
  make_handle world o cube held =
      let (res, held') = prepare world o (new_source o cube) held in
      elim res [ err e ↦ (err e, held') | ok self ↦ finish_handle world o self held' ]

  -- `init`, with what the handle holds afterwards.
  unfoldable pub init : World → Result (Handle Metas) × Resources
  init world = elim (read_options world.host world.find) [
    | err e ↦ (err e, no_resources)
    | ok o ↦
        let (res, held) = Cube.open_cube world.system (cube_options o) in
        elim res [
          | err e ↦ (err e, record no_resources { cube = held })
          | ok cube ↦ make_handle world o cube (record no_resources { cube = held })
        ]
  ]

-- What a host answers while a handle is cleared: `removed` is the answer of `spa_loop_locked`, which
-- fails or gives what `remove_timer_source` has returned.
pub record Closing : Type 0 where
  pub env : Env
  pub removed : Result (Unit {0})
  pub closed : Result (Unit {0})

-- The first error of two steps that are both made.
abbrev pub first_error : Result (Unit {0}) → Result (Unit {0}) → Result (Unit {0})
first_error (err e) next = err e
first_error (ok _) next = next

-- `remove_timer_source` under `spa_loop_locked`: only a removal that succeeds takes the timer out of the loop.
unfoldable pub remove_timer : Closing → Resources → Result (Unit {0}) × Resources
remove_timer closing held = if not held.in_loop then (ok tt, held) else elim closing.removed [
  | err e ↦ (err e, held)
  | ok _ ↦ (ok tt, record held { in_loop = false })
]

-- The descriptor of the timer is given up also when closing it fails.
unfoldable pub close_timer : Closing → Resources → Result (Unit {0}) × Resources
close_timer closing held = elim held.timer_fd [
  | none ↦ (ok tt, held)
  | some fd ↦ (closing.closed, record held { timer_fd = none })
]

module _ {Metas : Type 0} where
  abbrev pub release_buffers : Impl Metas → Result (Unit {0}) × Impl Metas
  release_buffers self = if length self.pool.slots == 0 then (ok tt, self) else (
    (Pool.release self.started self.pool).0,
    record self { pool = (Pool.release self.started self.pool).1 },
  )

  -- `clear`
  unfoldable pub clear :
      Closing → Impl Metas → Resources → Result (Unit {0}) × Impl Metas × Resources
  clear closing self held =
      let (stopped, self1) = stop_source closing.env self in
      let (released, self2) = release_buffers self1 in
      let (removed, held1) = remove_timer closing held in
      let (closed, held2) = close_timer closing held1 in
      (
        first_error stopped (first_error released (first_error removed closed)),
        record self2 { cube = none; preloaded_frames = none },
        record held2 { cube = Cube.close held2.cube; frames = false },
      )
