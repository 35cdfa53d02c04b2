-- ===== src/Source/Control.antt =====
-- `timer_ready`, `stop_source` and `node_send_command` of spa/plugins/fits/source.c.
pub mod Start
pub mod Cycle
use pipewireao_spa_plugin_fi.Base.{
  ℕ, ◌/◌, Bool, true, false, not, ◌&&◌, ◌||◌, Option, none, some, ltb, leb, ◌==◌, if◌then◌else◌,
  length, u64_max,
}
use pipewireao_spa_plugin_fi.Errno.{Result, ok, err, Errno, eio, enotsup}
use pipewireao_spa_plugin_fi.Cadence
use pipewireao_spa_plugin_fi.RowCadence
use pipewireao_spa_plugin_fi.ImageFrame
use pipewireao_spa_plugin_fi.Pool
use pipewireao_spa_plugin_fi.Source.{Impl, Env, is_row, set_release_timer, next_release}
use pipewireao_spa_plugin_fi.Source.Playback.{
  Reply, status_ok, status_have_data, has_data, abandon_frame, process_source,
}

-- What the data loop reports of the timer.
pub record TimerEvent : Type 0 where
  pub failed : Bool  -- `SPA_IO_ERR` or `SPA_IO_HUP`
  pub input : Bool  -- `SPA_IO_IN`
  pub read_result : Result (Unit {0})

-- `SPA_NODE_COMMAND_*`
pub data Command : Type 0 where
  start_command pause_command suspend_command : Command
  other_command : ℕ → Command

abbrev pub has_io : Option Pool.Io → Bool
has_io none = false
has_io (some io) = true

module _ {Metas : Type 0} where
  -- `(void) set_release_timer(…)`
  unfoldable pub try_timer : Env → Impl Metas → ℕ → Impl Metas
  try_timer env self release = (set_release_timer env self release).1

  -- `stop_source`
  unfoldable pub stop_source : Env → Impl Metas → Result (Unit {0}) × Impl Metas
  stop_source env self =
      if not self.started
      then (ok tt, self)
      else let self' : Impl Metas = record self {
        started = false;
        completion_pending = false;
        row_cycle_pending = false;
      } in
        if self.timerfd_readiness then set_release_timer env self' u64_max else (ok tt, self')

  -- `SPA_NODE_COMMAND_Start` with the clock read: the new schedule.
  unfoldable pub begin : Impl Metas → ℕ → Impl Metas
  begin self now =
      let self' : Impl Metas = record self {
        completed = false;
        completion_pending = false;
        row_cycle_pending = false;
        started = true;
      } in
      if is_row self
      then record self' {
        row_cadence =
            RowCadence.start self.rate self.simulated_readout_time_ns
              (self.cube_info.height / self.row_block_rows) now;
      }
      else record self' { cadence = Cadence.start self.rate now }

  unfoldable pub first_release : Impl Metas → ℕ
  first_release self = if is_row self then self.row_cadence.next_pts else self.cadence.next_pts

  unfoldable pub arm : Env → Impl Metas → Result (Unit {0}) × Impl Metas
  arm env self =
      if not self.timerfd_readiness
      then (ok tt, self)
      else let (res, self') = set_release_timer env self (first_release self) in
        elim res [ err e ↦ (err e, record self' { started = false }) | ok _ ↦ (ok tt, self') ]

  unfoldable pub is_ready : Impl Metas → Bool
  is_ready self = self.have_format && (not (length self.pool.slots == 0) && has_io self.io)

  unfoldable pub start_source : Env → Impl Metas → Result (Unit {0}) × Impl Metas
  start_source env self =
      if not (is_ready self)
      then (err eio, self)
      else if self.started
      then (ok tt, self)
      else elim env.clock [ err e ↦ (err e, self) | ok now ↦ arm env (begin self now) ]

  -- `node_send_command`
  unfoldable pub send_command : Env → Impl Metas → Command → Result (Unit {0}) × Impl Metas
  send_command env self start_command = start_source env self
  send_command env self pause_command = stop_source env self
  send_command env self suspend_command = stop_source env self
  send_command env self (other_command n) = (err enotsup, self)

module _ {Metas Records : Type 0} (api : ImageFrame.MetaApi Metas Records)
    (ready : Reply → Impl Metas → Impl Metas) where
  -- A pending output: the timed release is given up, and a later one is armed.
  unfoldable pub overrun : Env → Impl Metas → Impl Metas
  overrun env self =
      let self' : Impl Metas = record self { discontinuity = true } in
      elim env.clock [
        | err e ↦ self'
        | ok now ↦
            let self'' : Impl Metas =
              if is_row self && leb self.row_cadence.next_pts now
              then abandon_frame self' now
              else self' in
            try_timer env self'' (next_release self'' now)
      ]

  -- The end of `timer_ready`: no timer while a row cycle is pending.
  unfoldable pub rearm : Env → Impl Metas → Impl Metas
  rearm env self =
      if is_row self && self.row_cycle_pending
      then try_timer env self u64_max
      else elim env.clock_after [
        | err e ↦ self
        | ok now ↦ try_timer env self (next_release self now)
      ]

  abbrev pub current_id : Option Pool.Io → Option ℕ
  current_id none = none
  current_id (some io) = io.buffer_id

  -- A publication: a row cycle is pending before the host hears of it. `ready` stands for the host, which
  -- may drive the graph, and so this node, before it returns.
  unfoldable pub announce : Impl Metas → Impl Metas
  announce self = ready status_have_data (
      if is_row self
      then record self { row_cycle_pending = true; row_cycle_buffer_id = current_id self.io }
      else self)

  unfoldable pub release : Env → Impl Metas → Impl Metas
  release env self =
      let (res, self') = process_source api env self true in
      elim res [
        | err e ↦ try_timer env self' u64_max
        | ok reply ↦ elim reply [
          | status_ok ↦ rearm env self'
          | status_have_data ↦ rearm env (announce self')
        ]
      ]

  -- `timer_ready`
  unfoldable pub timer_ready : Env → TimerEvent → Impl Metas → Impl Metas
  timer_ready env event self =
      if event.failed || not event.input then self else elim event.read_result [
        | err e ↦ self
        | ok _ ↦
            if not self.started
            then self
            else if is_row self && self.row_cycle_pending
            then try_timer env self u64_max
            else if has_data self.io
            then overrun env self
            else release env self
      ]
