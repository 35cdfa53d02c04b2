-- ===== src/Source.antt =====
-- The state of one source, `struct impl` of spa/plugins/fits/source.c, and its timer.
pub mod Playback
pub mod Control
pub mod Port
pub mod Node
pub mod Prepare
pub mod Parameters
pub mod Info
mod Examples
use pipewireao_spa_plugin_fi.Base.{
  ℕ, ◌+◌, ◌-◌, ◌*◌, ◌/◌, ◌%◌, Bool, true, false, not, ◌&&◌, ◌||◌, Option, none, some, List, ltb,
  leb, ◌==◌, if◌then◌else◌, u32, u64, u128, u64_max, nsec_per_sec,
}
use pipewireao_spa_plugin_fi.Errno.{Result, ok, err, Errno, einval}
use pipewireao_spa_plugin_fi.Rate.{Fraction}
use pipewireao_spa_plugin_fi.Cadence
use pipewireao_spa_plugin_fi.RowCadence
use pipewireao_spa_plugin_fi.Cube
use pipewireao_spa_plugin_fi.ImageFrame
use pipewireao_spa_plugin_fi.Pool

-- `enum output_kind`
pub data OutputKind : Type 0 where
  output_none output_ndarray output_gray16 : OutputKind

-- `enum output_mode`
pub data OutputMode : Type 0 where
  frame_mode row_block_mode : OutputMode

abbrev pub is_row_block : OutputMode → Bool
is_row_block frame_mode = false
is_row_block row_block_mode = true

abbrev pub is_ndarray : OutputKind → Bool
is_ndarray output_ndarray = true
is_ndarray _ = false

-- `enum spa_ndarray_layout`
pub data Layout : Type 0 where
  row_major column_major : Layout
  other_layout : ℕ → Layout

-- What the factory fixes for the life of a source; `schema` is the text as bytes.
pub record Config : Type 0 where
  pub layout : Layout
  pub schema : List ℕ
  pub cube_info : Cube.Info
  pub rate : Fraction
  pub output_rate : Fraction
  pub simulated_readout_time_ns : ℕ
  pub row_block_rows : ℕ
  pub output_mode : OutputMode
  pub loops : Bool
  pub timerfd_readiness : Bool

-- What the timer file descriptor is set to: `none` when it is disarmed.
pub record Deadline : Type 0 where
  pub seconds : ℕ
  pub nanoseconds : ℕ

-- `struct impl`, as far as playback changes it.
pub record Impl (Metas : Type 0) : Type 0 where
  pub config : Config
  pub open config use *
  pub output : OutputKind
  pub io : Option Pool.Io
  pub pool : Pool.Pool Metas
  pub have_format : Bool
  pub cube : Option Cube.Cube
  pub cadence : Cadence.Cadence
  pub row_cadence : RowCadence.RowCadence
  -- the bytes of the 16-bit pixels, little end first
  pub preloaded_frames : Option (List ℕ)
  pub discontinuity : Bool
  pub started : Bool
  pub row_cycle_pending : Bool
  pub row_cycle_buffer_id : Option ℕ
  pub completion_pending : Bool
  pub completion_buffer_id : ℕ
  pub completed : Bool
  pub timer : Option Deadline

-- What a call finds outside: the clock, one reading for each that the call may make, and whether
-- the timer can be set.
pub record Env : Type 0 where
  pub clock : Result ℕ
  pub clock_after : Result ℕ
  pub timer_result : Result (Unit {0})

-- `set_release_timer`. A zero `it_value` disarms a timerfd.
unfoldable pub deadline : ℕ → Option Deadline
deadline release =
    if (release == u64_max) || (release == 0)
    then none
    else some (record { seconds = release / nsec_per_sec; nanoseconds = release % nsec_per_sec })

module _ {Metas : Type 0} where
  abbrev pub is_row : Impl Metas → Bool
  is_row self = is_row_block self.output_mode

  -- `output_size`
  unfoldable pub output_size : Impl Metas → ℕ
  output_size self =
      if is_row self
      then u64 (u64 (self.row_block_rows * self.cube_info.width) * 2)
      else if is_ndarray self.output
      then self.cube_info.plane_size
      else u64 (self.cube_info.plane_elements * 2)

  -- `output_stride`
  unfoldable pub output_stride : Impl Metas → ℕ
  output_stride self = u32 (
      self.cube_info.width
      * (if is_row self
          then 2
          else if is_ndarray self.output
          then self.cube_info.element_size
          else 2))

  unfoldable pub set_release_timer : Env → Impl Metas → ℕ → Result (Unit {0}) × Impl Metas
  set_release_timer env self release = elim env.timer_result [
    | err e ↦ (err e, self)
    | ok _ ↦ (ok tt, record self { timer = deadline release })
  ]

  -- `next_release`
  unfoldable pub next_release : Impl Metas → ℕ → ℕ
  next_release self now =
      let interval : ℕ = u128 (nsec_per_sec * self.rate.denom) / self.rate.num in
      let delay : ℕ =
        if interval == 0 then 1 else if ltb u64_max interval then u64_max else interval in
      if self.completion_pending
      then if ltb (u64_max - delay) now then u64_max else now + delay
      else if is_row self
      then self.row_cadence.next_pts
      else Cadence.release_after self.cadence now
