-- ===== src/Source/Control/Start.antt =====
-- `node_send_command` of spa/plugins/fits/source.c: what Start and Pause leave, on every branch.
use pipewireao_spa_plugin_fi.Pool
use pipewireao_spa_plugin_fi.Base.{
  ℕ, ◌/◌, ◌≡◌, ◌≢◌, ◌⊎◌, refl, Option, some, length, sym, inl, inr, true, false, none, arith,
  Bool-cases,
}
use mathlib.Core.Path.{subst}
use pipewireao_spa_plugin_fi.Errno.{Result, ok, err, Errno, eio, Result-cases}
use pipewireao_spa_plugin_fi.Cadence
use pipewireao_spa_plugin_fi.RowCadence
use pipewireao_spa_plugin_fi.Source.{Impl, Env, is_row, deadline, set_release_timer}
use pipewireao_spa_plugin_fi.Source.Control.{
  has_io, is_ready, begin, first_release, arm, start_source, stop_source,
}

has_io-cases : (io : Option Pool.Io) → (has_io io ≡ true) → (i : Pool.Io) × (io ≡ some i)
has_io-cases none h = cc
has_io-cases (some i) h = (i, refl)

has_io-none : (io : Option Pool.Io) → has_io io ≡ false → io ≡ none
has_io-none none h = refl
has_io-none (some i) h = cc

module _ {Metas : Type 0} where
  -- The state that a successful Start leaves: a new schedule from the time of the call, and the timer on
  -- its first release.
  pub record IsBegun (self : Impl Metas) (now : ℕ) (after : Impl Metas) : Type 0 where
    pub running : after.started ≡ true
    pub fresh :
        (after.completed ≡ false)
        × (after.completion_pending ≡ false)
        × (after.row_cycle_pending ≡ false)
    pub frames : is_row self ≡ false → after.cadence ≡ Cadence.start self.rate now
    pub rows :
        is_row self ≡ true
        → after.row_cadence
          ≡ RowCadence.start self.rate self.simulated_readout_time_ns
              (self.cube_info.height / self.row_block_rows)
              now
    pub armed_frame :
        self.timerfd_readiness ≡ true
        → is_row self ≡ false
        → after.timer ≡ deadline after.cadence.next_pts
    pub armed_row :
        self.timerfd_readiness ≡ true
        → is_row self ≡ true
        → after.timer ≡ deadline after.row_cadence.next_pts
    pub untimed : self.timerfd_readiness ≡ false → after.timer ≡ self.timer

  -- What a Start needs: a format, buffers and an io area.
  abbrev pub IsReady : Impl Metas → Type 0
  IsReady self =
      (self.have_format ≡ true)
      × (length self.pool.slots ≢ 0)
      × ((io : Pool.Io) × (self.io ≡ some io))

  abbrev pub IsUnready : Impl Metas → Type 0
  IsUnready self = (self.have_format ≡ false) ⊎ (length self.pool.slots ≡ 0) ⊎ (self.io ≡ none)

  is_ready-IsReady : (self : Impl Metas) → is_ready self ≡ true → IsReady self
  unfolding is_ready
  is_ready-IsReady self h = (ground arith, ground arith, has_io-cases self.io (ground arith))

  is_ready-IsUnready : (self : Impl Metas) → is_ready self ≡ false → IsUnready self
  unfolding is_ready
  is_ready-IsUnready self h = ground (arith, has_io-none self.io)

  pub data Started (env : Env) (self : Impl Metas) (r : Result (Unit {0}) × Impl Metas)
      : Type 0 where
    unready : IsUnready self → r ≡ (err eio, self) → Started env self r
    running_already : IsReady self → self.started ≡ true → r ≡ (ok tt, self) → Started env self r
    no_clock :
        (e : Errno)
        → IsReady self
        → self.started ≡ false
        → env.clock ≡ err e
        → r ≡ (err e, self)
        → Started env self r
    no_timer :
        (e : Errno)
        → IsReady self
        → self.started ≡ false
        → self.timerfd_readiness ≡ true
        → env.timer_result ≡ err e
        → r.0 ≡ err e
        → r.1.started ≡ false
        → Started env self r
    begun :
        (now : ℕ)
        → IsReady self
        → self.started ≡ false
        → env.clock ≡ ok now
        → r.0 ≡ ok tt
        → IsBegun self now r.1
        → Started env self r

  arm-Started :
      (env : Env) (self : Impl Metas) (now : ℕ)
      → (arm env (begin self now)).0 ≡ ok tt
      → IsBegun self now (arm env (begin self now)).1
  unfolding arm begin first_release set_release_timer
  arm-Started env self now e = record {
    running = ground arith;
    fresh = (ground arith, ground arith, ground arith);
    frames = λ h. ground arith;
    rows = λ h. ground arith;
    armed_frame = λ h row. ground arith;
    armed_row = λ h row. ground arith;
    untimed = λ h. ground arith;
  }

  arm-failed :
      (env : Env) (self : Impl Metas) (e : Errno)
      → (arm env self).0 ≡ err e
      → (self.timerfd_readiness ≡ true)
        × (env.timer_result ≡ err e)
        × ((arm env self).1.started ≡ false)
  unfolding arm first_release set_release_timer
  arm-failed env self e h = ground arith

  arm-failed-begin :
      (env : Env) (self : Impl Metas) (now : ℕ) (e : Errno)
      → (arm env (begin self now)).0 ≡ err e
      → (self.timerfd_readiness ≡ true)
        × (env.timer_result ≡ err e)
        × ((arm env (begin self now)).1.started ≡ false)
  unfolding begin
  arm-failed-begin env self now e h = ground (arith, arm-failed env (begin self now) e h)

  module _ (env : Env) (self : Impl Metas) where
    start-unready : is_ready self ≡ false → start_source env self ≡ (err eio, self)
    unfolding start_source
    start-unready h = ground arith

    module _ (ready : is_ready self ≡ true) where
      start-running : self.started ≡ true → start_source env self ≡ (ok tt, self)
      unfolding start_source
      start-running on = ground arith

      start-no_clock :
          (e : Errno)
          → self.started ≡ false
          → env.clock ≡ err e
          → start_source env self ≡ (err e, self)
      unfolding start_source
      start-no_clock e off h = ground arith

      start-clock :
          (now : ℕ)
          → self.started ≡ false
          → env.clock ≡ ok now
          → start_source env self ≡ arm env (begin self now)
      unfolding start_source
      start-clock now off h = ground arith

  -- Start of a source, on every branch: it is refused without a format, buffers or an io area; it changes
  -- nothing on a running source or without a clock; when the timer cannot be set the source is stopped
  -- again; and otherwise the source runs on a new schedule from the time of the call, no longer complete
  -- and with nothing pending, and a timer that the source owns is on the first release.
  pub start_source-Started :
      (env : Env) (self : Impl Metas) → Started env self (start_source env self)
  start_source-Started env self = elim (Bool-cases (is_ready self)) [
    | inr e ↦ unready (is_ready-IsUnready self e) (start-unready env self e)
    | inl e ↦ elim (Bool-cases self.started) [
      | inl on ↦ running_already (is_ready-IsReady self e) on (start-running env self e on)
      | inr off ↦ elim (Result-cases env.clock) [
        | inr (x, c) ↦
            no_clock x (is_ready-IsReady self e) off c (start-no_clock env self e x off c)
        | inl (now, c) ↦
            subst (Started env self) (sym (start-clock env self e now off c))
              (elim (Result-cases (arm env (begin self now)).0) [
                | inl (tt, h) ↦
                    begun now (is_ready-IsReady self e) off c h (arm-Started env self now h)
                | inr (x, h) ↦
                    let (timed, failed, stopped) = arm-failed-begin env self now x h in
                    no_timer x (is_ready-IsReady self e) off timed failed h stopped
              ])
      ]
    ]
  ]

  -- After Pause or Suspend the source is stopped with nothing pending, also when its timer could not be
  -- disarmed; a source that ran and whose timer could be set has no release left; a stopped source is
  -- left as it is.
  pub stop_source-stopped :
      (env : Env) (self : Impl Metas)
      → let (r, after) = stop_source env self in
        (after.started ≡ false)
        × (self.started ≡ false → (r ≡ ok tt) × (after ≡ self))
        × (self.started ≡ true
            → (after.completion_pending ≡ false)
              × (after.row_cycle_pending ≡ false)
              × (after.completed ≡ self.completed)
              × (after.pool ≡ self.pool)
              × (self.timerfd_readiness ≡ true → r ≡ ok tt → after.timer ≡ none))
  unfolding stop_source set_release_timer deadline
  stop_source-stopped env self = (
    ground arith,
    λ off. (ground arith, ground arith),
    λ on. (ground arith, ground arith, ground arith, ground arith, λ t e. ground arith),
  )
