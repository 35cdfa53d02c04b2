-- ===== src/Source/Node.antt =====
-- The calls that a host makes on a source, in any order, and what holds between any two of them:
-- `fits_source_node` and `timer_ready` of spa/plugins/fits/source.c.
use pipewireao_spa_plugin_fi.Base.{
  ℕ, ◌≡◌, ◌≢◌, refl, sym, ap, ◌∙◌, ◌⊎◌, inl, inr, Bool, true, false, Option, some, List, [], length,
  arith, u64_max,
}
use mathlib.Core.Path.{subst}
use pipewireao_spa_plugin_fi.Errno.{ok, Result-cases}
use pipewireao_spa_plugin_fi.ImageFrame
use pipewireao_spa_plugin_fi.Pool
use pipewireao_spa_plugin_fi.Source.{Impl, Env, set_release_timer}
use pipewireao_spa_plugin_fi.Source.Playback.{
  Reply, status_ok, status_have_data, abandon_frame, process_source, node_process,
}
use pipewireao_spa_plugin_fi.Source.Playback.Invariant.{PoolOk, process_source-PoolOk}
use pipewireao_spa_plugin_fi.Source.Playback.Completion.{process_source-format}
use pipewireao_spa_plugin_fi.Source.Control.{
  TimerEvent, Command, start_command, pause_command, suspend_command, other_command, try_timer,
  stop_source, begin, first_release, arm, is_ready, start_source, send_command, overrun, rearm,
  announce, release, timer_ready,
}
use pipewireao_spa_plugin_fi.Source.Port.{PortId, Param, set_param, use_buffers, set_io}
use pipewireao_spa_plugin_fi.Source.Port.Buffers.{use_buffers-Assigned}

module _ {Metas : Type 0} where
  -- Between two calls no buffer is with the producer, there are buffers only for a format, and the
  -- source plays only with buffers.
  pub record IsNode (self : Impl Metas) : Type 0 where
    pub pool_ok : PoolOk (Pool.n_buffers self.pool) self.pool
    pub formatted : Pool.n_buffers self.pool ≢ 0 → self.have_format ≡ true
    pub playing : self.started ≡ true → Pool.n_buffers self.pool ≢ 0

  -- Enough for a call that leaves the buffers and the format alone.
  kept-IsNode :
      (self after : Impl Metas)
      → IsNode self
      → after.pool ≡ self.pool
      → after.have_format ≡ self.have_format
      → (after.started ≡ true → Pool.n_buffers self.pool ≢ 0)
      → IsNode after
  kept-IsNode self after v pool format playing = record {
    pool_ok = subst (λ p. PoolOk (Pool.n_buffers p) p) (sym pool) v.pool_ok;
    formatted = λ ne. format ∙ v.formatted (subst (λ p. Pool.n_buffers p ≢ 0) pool ne);
    playing = λ on. subst (λ p. Pool.n_buffers p ≢ 0) (sym pool) (playing on);
  }

  start-kept :
      (env : Env) (self : Impl Metas)
      → ((start_source env self).1.pool ≡ self.pool)
        × ((start_source env self).1.have_format ≡ self.have_format)
        × ((start_source env self).1.started ≡ true
            → (self.started ≡ true) ⊎ (Pool.n_buffers self.pool ≢ 0))
  unfolding start_source is_ready arm begin first_release set_release_timer
  start-kept env self = (ground arith, ground arith, λ h. ground arith)

  stop-kept :
      (env : Env) (self : Impl Metas)
      → ((stop_source env self).1.pool ≡ self.pool)
        × ((stop_source env self).1.have_format ≡ self.have_format)
        × ((stop_source env self).1.started ≡ false)
  unfolding stop_source set_release_timer
  stop-kept env self = (ground arith, ground arith, ground arith)

  send_command-IsNode :
      (env : Env) (self : Impl Metas) (c : Command)
      → IsNode self
      → IsNode (send_command env self c).1
  unfolding send_command
  send_command-IsNode env self start_command v =
      let (pool, format, on) = start-kept env self in
      kept-IsNode self _ v pool format (λ h. ground (arith, on h, v.playing))
  send_command-IsNode env self pause_command v =
      let (pool, format, off) = stop-kept env self in kept-IsNode self _ v pool format (λ on. cc)
  send_command-IsNode env self suspend_command v =
      let (pool, format, off) = stop-kept env self in kept-IsNode self _ v pool format (λ on. cc)
  send_command-IsNode env self (other_command n) v = v

  set_param-kept :
      (self : Impl Metas) (port : PortId) (is_format test_only : Bool) (param : Option Param)
      → ((set_param self port is_format test_only param).1.pool ≡ self.pool)
        × ((set_param self port is_format test_only param).1.started ≡ self.started)
        × (((set_param self port is_format test_only param).1.have_format ≡ self.have_format)
            ⊎ (Pool.n_buffers self.pool ≡ 0))
  unfolding set_param
  set_param-kept self port is_format test_only param = (ground arith, ground arith, ground arith)

  set_param-IsNode :
      (self : Impl Metas) (port : PortId) (is_format test_only : Bool) (param : Option Param)
      → IsNode self
      → IsNode (set_param self port is_format test_only param).1
  unfolding set_param
  set_param-IsNode self port is_format test_only param v =
      let (pool, started, format) = set_param-kept self port is_format test_only param in
      elim format [
        | inl same ↦ kept-IsNode self _ v pool same (λ on. v.playing (sym started ∙ on))
        | inr none_ ↦ record {
          pool_ok = subst (λ p. PoolOk (Pool.n_buffers p) p) (sym pool) v.pool_ok;
          formatted = λ ne. absurd (ne (ap Pool.n_buffers pool ∙ none_));
          playing = λ on. absurd (v.playing (sym started ∙ on) none_);
        }
      ]

  set_io-IsNode :
      (self : Impl Metas) (port : PortId) (is_buffers : Bool) (io : Option Pool.Io) (fits : Bool)
      → IsNode self
      → IsNode (set_io self port is_buffers io fits).1
  unfolding set_io
  set_io-IsNode self port is_buffers io fits v =
      kept-IsNode self _ v (ground arith) (ground arith) (λ on. v.playing (ground arith))

  use_buffers-cases :
      (self : Impl Metas) (port : PortId) (bs : List (Option (ImageFrame.Buffer Metas)))
      → ((use_buffers self port bs).1 ≡ self)
        ⊎ (((use_buffers self port bs).1.pool ≡ record { slots = []; scan_hint = 0 })
            × ((use_buffers self port bs).1.started ≡ false))
        ⊎ (((use_buffers self port bs).0 ≡ ok tt) × (length bs ≢ 0))
  unfolding use_buffers Pool.release
  use_buffers-cases self port bs = ground arith

  emptied :
      (self : Impl Metas)
      → self.pool ≡ record { slots = []; scan_hint = 0 }
      → self.started ≡ false
      → IsNode self
  emptied self e off = record {
    pool_ok =
        subst (λ p. PoolOk (Pool.n_buffers p) p) (sym e)
          (
            record { few = omega arith; hint_inside = inr (refl, refl); own_id = λ i s h. cc },
            λ i s h. cc,
            refl,
          );
    formatted = λ ne. absurd (ne (ap Pool.n_buffers e));
    playing = λ on. cc;
  }

  use_buffers-IsNode :
      (self : Impl Metas) (port : PortId) (bs : List (Option (ImageFrame.Buffer Metas)))
      → IsNode self
      → IsNode (use_buffers self port bs).1
  unfolding use_buffers
  use_buffers-IsNode self port bs v = elim (use_buffers-cases self port bs) [
    | inl same ↦ subst IsNode (sym same) v
    | inr (inl (empty, off)) ↦ emptied _ empty off
    | inr (inr (done, some_)) ↦
        let after = (use_buffers self port bs).1 in
        let w = use_buffers-Assigned self port bs after (ap (λ r. (r, after)) done) some_ in
        record {
          pool_ok = (w.pool_ok, λ i s e h. cc (w.all_free i s e), refl);
          formatted = λ ne. w.negotiated.1;
          playing = λ on. cc (w.stopped.1);
        }
  ]

  processed-IsNode :
      {Records : Type 0} (api : ImageFrame.MetaApi Metas Records) (env : Env) (self : Impl Metas)
      (timer_release : Bool)
      → IsNode self
      → IsNode (process_source api env self timer_release).1
  processed-IsNode api env self timer_release v =
      let pool =
        process_source-PoolOk api (Pool.n_buffers self.pool) env self timer_release v.pool_ok in
      let (format, on) = process_source-format api env self timer_release in
      record {
        pool_ok = (pool.0, pool.1, refl);
        formatted = λ ne. format ∙ v.formatted (λ e. ne (pool.2 ∙ e));
        playing = λ h e. v.playing (on h) (sym pool.2 ∙ e);
      }

module _ {Metas Records : Type 0} (api : ImageFrame.MetaApi Metas Records) where
  -- What a host may do with a source, one call after the other. During `timer_ready` the host may react to
  -- a publication with further calls before it returns.
  pub data Calls : Impl Metas → Impl Metas → Type 0 where
    none_yet : (s : Impl Metas) → Calls s s
    and_set_param :
        (s t : Impl Metas) (port : PortId) (is_format test_only : Bool) (param : Option Param)
        → Calls s t
        → Calls s (set_param t port is_format test_only param).1
    and_use_buffers :
        (s t : Impl Metas) (port : PortId) (bs : List (Option (ImageFrame.Buffer Metas)))
        → Calls s t
        → Calls s (use_buffers t port bs).1
    and_set_io :
        (s t : Impl Metas) (port : PortId) (is_buffers : Bool) (io : Option Pool.Io) (fits : Bool)
        → Calls s t
        → Calls s (set_io t port is_buffers io fits).1
    and_command :
        (s t : Impl Metas) (env : Env) (c : Command) → Calls s t → Calls s (send_command env t c).1
    and_process : (s t : Impl Metas) (env : Env) → Calls s t → Calls s (node_process api env t).1
    -- the host writes to its io area
    and_io : (s t : Impl Metas) (io : Pool.Io) → Calls s t → Calls s (record t { io = some io })
    and_timer :
        (s t : Impl Metas) (env : Env) (event : TimerEvent)
        (ready : Reply → Impl Metas → Impl Metas)
        → ((reply : Reply) (u : Impl Metas) → Calls u (ready reply u))
        → Calls s t
        → Calls s (timer_ready api ready env event t)

  try_timer-IsNode :
      (env : Env) (self : Impl Metas) (at : ℕ) → IsNode self → IsNode (try_timer env self at)
  unfolding try_timer set_release_timer
  try_timer-IsNode env self at v =
      kept-IsNode self _ v (ground arith) (ground arith) (λ on. v.playing (ground arith))

  overrun-IsNode :
      (ready : Reply → Impl Metas → Impl Metas) (env : Env) (self : Impl Metas)
      → IsNode self
      → IsNode (overrun api ready env self)
  unfolding overrun try_timer set_release_timer abandon_frame
  overrun-IsNode ready env self v =
      kept-IsNode self _ v (ground arith) (ground arith) (λ on. v.playing (ground arith))

  rearm-IsNode :
      (ready : Reply → Impl Metas → Impl Metas) (env : Env) (self : Impl Metas)
      → IsNode self
      → IsNode (rearm api ready env self)
  unfolding rearm try_timer set_release_timer
  rearm-IsNode ready env self v =
      kept-IsNode self _ v (ground arith) (ground arith) (λ on. v.playing (ground arith))

  module _ (ready : Reply → Impl Metas → Impl Metas)
      (reacts : (r : Reply) (u : Impl Metas) → IsNode u → IsNode (ready r u)) where
    announce-IsNode : (self : Impl Metas) → IsNode self → IsNode (announce api ready self)
    unfolding announce
    announce-IsNode self v =
        reacts status_have_data _
          (kept-IsNode self _ v (ground arith) (ground arith) (λ on. v.playing (ground arith)))

    release-IsNode :
        (env : Env) (self : Impl Metas) → IsNode self → IsNode (release api ready env self)
    unfolding release
    release-IsNode env self v =
        let w = processed-IsNode api env self true v in
        elim (Result-cases (process_source api env self true).0) [
          | inr (x, e) ↦
              rw (e, release) (try_timer-IsNode env (process_source api env self true).1 u64_max w)
          | inl (status_ok, e) ↦
              rw (e, release) (rearm-IsNode ready env (process_source api env self true).1 w)
          | inl (status_have_data, e) ↦
              rw (e, release)
                (rearm-IsNode ready env _ (announce-IsNode (process_source api env self true).1 w))
        ]

    timer_ready-IsNode :
        (env : Env) (event : TimerEvent) (self : Impl Metas)
        → IsNode self
        → IsNode (timer_ready api ready env event self)
    unfolding timer_ready
    timer_ready-IsNode env event self v =
        let released = release-IsNode env self v in
        let late = overrun-IsNode ready env self v in
        let waiting = try_timer-IsNode env self u64_max v in ground arith

  -- Whatever calls a host makes, in any order and with any results of the clock, the timer and the file, no
  -- buffer is with the producer between them, the pool stays well formed, there are buffers only for a
  -- format, and the source plays only with buffers.
  pub Calls-IsNode : (s t : Impl Metas) → Calls s t → IsNode s → IsNode t
  unfolding node_process
  Calls-IsNode _ _ (none_yet s) v = v
  Calls-IsNode _ _ (and_set_param s u port is_format test_only param c) v =
      set_param-IsNode u port is_format test_only param (Calls-IsNode s u c v)
  Calls-IsNode _ _ (and_use_buffers s u port bs c) v =
      use_buffers-IsNode u port bs (Calls-IsNode s u c v)
  Calls-IsNode _ _ (and_set_io s u port is_buffers io fits c) v =
      set_io-IsNode u port is_buffers io fits (Calls-IsNode s u c v)
  Calls-IsNode _ _ (and_command s u env k c) v = send_command-IsNode env u k (Calls-IsNode s u c v)
  Calls-IsNode _ _ (and_process s u env c) v =
      processed-IsNode api env u false (Calls-IsNode s u c v)
  Calls-IsNode _ _ (and_io s u io c) v =
      kept-IsNode u _ (Calls-IsNode s u c v) refl refl (Calls-IsNode s u c v).playing
  Calls-IsNode _ _ (and_timer s u env event ready reacts c) v =
      timer_ready-IsNode ready (λ r w. Calls-IsNode w (ready r w) (reacts r w)) env event u
        (Calls-IsNode s u c v)
