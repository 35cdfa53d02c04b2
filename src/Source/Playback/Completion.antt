-- ===== src/Source/Playback/Completion.antt =====
-- When `fits.completed` becomes true, and what else a pass leaves alone.
use pipewireao_spa_plugin_fi.Base.{
  ℕ, ◌≡◌, refl, sym, ap, ◌∙◌, inl, inr, Bool, true, false, not, ◌&&◌, ◌||◌, Option, none, some,
  arith, Option-cases, Bool-cases, get_elem?, ==_iff,
}
use mathlib.Core.Path.{ap₂}
use pipewireao_spa_plugin_fi.Errno.{Result, ok, Result-cases}
use pipewireao_spa_plugin_fi.Cadence
use pipewireao_spa_plugin_fi.RowCadence
use pipewireao_spa_plugin_fi.ImageFrame
use pipewireao_spa_plugin_fi.Pool
use pipewireao_spa_plugin_fi.Pool.Ownership.{Recycled, nothing, refused, returned, recycle-Recycled}
use pipewireao_spa_plugin_fi.Source.{Impl, Env, is_row, set_release_timer}
use pipewireao_spa_plugin_fi.Source.Playback.{
  status_ok, has_data, is_id, deliver, drop_buffer, abandon_frame, await_completion, publish_row,
  fill_row, take_row, process_row_block, publish_plane, fill_plane, take_plane, process_plane,
  finish_cycle, complete, process_recycled, process_source,
}

module _ {Metas Records : Type 0} (api : ImageFrame.MetaApi Metas Records) where
  -- What a pass that completes nothing leaves alone.
  abbrev Kept : Impl Metas → Impl Metas → Type 0
  Kept self after = (after.completed ≡ self.completed) × (after.have_format ≡ self.have_format)

  take_row-Kept :
      (self : Impl Metas) (now : ℕ) (b : RowCadence.RowBlock)
      → Kept self (take_row api self now b).1
  unfolding take_row fill_row publish_row drop_buffer deliver await_completion abandon_frame
  take_row-Kept self now b = ground arith

  take_plane-Kept : (self : Impl Metas) (p : Cadence.Plane) → Kept self (take_plane api self p).1
  unfolding take_plane fill_plane publish_plane drop_buffer deliver await_completion
  take_plane-Kept self p = ground arith

  process_row_block-Kept :
      (self : Impl Metas) (now : ℕ) → Kept self (process_row_block api self now).1
  unfolding process_row_block
  process_row_block-Kept self now = elim (Bool-cases (has_data self.io)) [
    | inl e ↦ rw (e, process_row_block) (refl, refl)
    | inr e ↦
        let selected =
          RowCadence.select_latest self.row_cadence now self.cube_info.samples self.loops in
        let self' : Impl Metas = record self {
          row_cadence = selected.0;
          discontinuity = selected.1 || self.discontinuity;
        } in
        elim (Option-cases (RowCadence.due selected.0 now self.cube_info.samples self.loops)) [
          | inl f ↦ rw (e, f, process_row_block) (refl, refl)
          | inr (b, f) ↦ rw (e, f, process_row_block) (take_row-Kept self' now b)
        ]
  ]

  process_plane-Kept : (self : Impl Metas) (now : ℕ) → Kept self (process_plane api self now).1
  unfolding process_plane
  process_plane-Kept self now =
      let r = Cadence.due self.cadence now self.cube_info.samples self.loops in
      elim (Option-cases r.1) [
        | inl f ↦ rw (f, process_plane) (refl, refl)
        | inr (p, f) ↦ elim (Bool-cases (has_data self.io)) [
          | inl e ↦ rw (f, e, process_plane) (refl, refl)
          | inr e ↦ rw (f, e, process_plane) (take_plane-Kept (record self { cadence = r.0 }) p)
        ]
      ]

  finish_cycle-Kept :
      (env : Env) (self : Impl Metas) (own : Bool) → Kept self (finish_cycle api env self own).1
  unfolding finish_cycle set_release_timer
  finish_cycle-Kept env self own = ground arith

  process_recycled-Kept :
      (env : Env) (self : Impl Metas) (timer_release back : Bool) (id : Option ℕ)
      → (back && (self.completion_pending && is_id id self.completion_buffer_id)) ≡ false
      → Kept self (process_recycled api env self timer_release back id).1
  unfolding process_recycled
  process_recycled-Kept env self timer_release back id e =
      elim (Bool-cases (self.timerfd_readiness && (is_row self && not timer_release))) [
        | inl f ↦ rw (e, f, process_recycled) (finish_cycle-Kept env self _)
        | inr f ↦ elim (Result-cases env.clock) [
          | inr (x, g) ↦ rw (e, f, g, process_recycled) (refl, refl)
          | inl (now, g) ↦ elim (Bool-cases (is_row self)) [
            | inl row ↦ rw (e, f, g, row, process_recycled) (process_row_block-Kept self now)
            | inr row ↦ rw (e, f, g, row, process_recycled) (process_plane-Kept self now)
          ]
        ]
      ]

  process_recycled-format :
      (env : Env) (self : Impl Metas) (timer_release back : Bool) (id : Option ℕ)
      → (process_recycled api env self timer_release back id).1.have_format ≡ self.have_format
  unfolding process_recycled complete
  process_recycled-format env self timer_release back id =
      elim (Bool-cases (back && (self.completion_pending && is_id id self.completion_buffer_id))) [
        | inl e ↦ rw (e, process_recycled) refl
        | inr e ↦ (process_recycled-Kept env self timer_release back id e).1
      ]

  -- A pass touches neither the format, nor does it start playback.
  pub process_source-off :
      (env : Env) (self : Impl Metas) (timer_release : Bool)
      → self.started ≡ false
      → process_source api env self timer_release ≡ (ok status_ok, self)
  unfolding process_source
  process_source-off env self timer_release e = ground arith

  pub process_source-format :
      (env : Env) (self : Impl Metas) (timer_release : Bool)
      → ((process_source api env self timer_release).1.have_format ≡ self.have_format)
        × ((process_source api env self timer_release).1.started ≡ true → self.started ≡ true)
  unfolding process_source
  process_source-format env self timer_release = elim (Bool-cases self.started) [
    | inr e ↦ (
      rw (e, process_source) refl,
      λ h. cc (ap (λ r. r.1.started) (process_source-off env self timer_release e)),
    )
    | inl e ↦ (
      elim (Option-cases self.io) [
        | inl f ↦ rw (e, f, process_source) refl
        | inr (io, f) ↦
            let rest = (Pool.recycle (some io) self.pool).1 in
            elim (Result-cases (Pool.recycle (some io) self.pool).0) [
              | inr (x, g) ↦ rw (e, f, g, process_source) refl
              | inl (back, g) ↦
                  rw (e, f, g, process_source)
                    (process_recycled-format env (record self { io = rest.0; pool = rest.1 })
                      timer_release back io.buffer_id)
            ]
      ],
      λ _. e,
    )
  ]

  pub data Outcome (self : Impl Metas) (after : Impl Metas) : Type 0 where
    -- playback is not complete any more than before
    going_on : after.completed ≡ self.completed → Outcome self after
    -- the host handed back the final buffer, which was out: playback is complete and stopped
    finished :
        (io : Pool.Io) (slot : Pool.Slot Metas)
        → self.started ≡ true
        → self.completion_pending ≡ true
        → self.io ≡ some io
        → Pool.is_have_data io.status ≡ false
        → io.buffer_id ≡ some self.completion_buffer_id
        → get_elem? self.pool.slots self.completion_buffer_id ≡ some slot
        → slot.state ≡ Pool.published
        → after.completed ≡ true
        → after.started ≡ false
        → after.completion_pending ≡ false
        → after.row_cycle_pending ≡ false
        → after.io ≡ some (record io { buffer_id = none })
        → after.pool ≡ Pool.mark self.pool self.completion_buffer_id slot Pool.available
        → Outcome self after

  is_id-true : (id : Option ℕ) (n : ℕ) → is_id id n ≡ true → id ≡ some n
  is_id-true none n e = cc
  is_id-true (some i) n e = ap some ((==_iff i n).0 e)

  -- A buffer that `recycle_buffer` takes back.
  record WasOut (io : Pool.Io) (p : Pool.Pool Metas) (n : ℕ) : Type 0 where
    slot : Pool.Slot Metas
    read : Pool.is_have_data io.status ≡ false
    found : get_elem? p.slots n ≡ some slot
    out : slot.state ≡ Pool.published
    result :
        Pool.recycle (some io) p
        ≡ (ok true, (some (record io { buffer_id = none }), Pool.mark p n slot Pool.available))

  Recycled-WasOut :
      (io : Pool.Io) (p : Pool.Pool Metas) (n : ℕ)
      (r : Result Bool × (Option Pool.Io × Pool.Pool Metas))
      → Pool.recycle (some io) p ≡ r
      → Recycled (some io) p r
      → r.0 ≡ ok true
      → io.buffer_id ≡ some n
      → WasOut io p n
  Recycled-WasOut io p n r q (nothing _ e) h named = absurd cc
  Recycled-WasOut io p n r q (refused i id a b c d e) h named = absurd cc
  Recycled-WasOut io p n r q (returned i id s a b c d e g) h named =
      let same : io ≡ i = cc in
      let at : n ≡ id = cc in
      record {
        slot = s;
        read = ap (λ x. Pool.is_have_data x.status) same ∙ c;
        found = ap (get_elem? p.slots) at ∙ d;
        out = e;
        result =
            q
            ∙ g
            ∙ ap₂
                (λ x m. (
                  ok true,
                  (
                    some (record { status = x.status; buffer_id = none }),
                    Pool.mark p m s Pool.available,
                  ),
                ))
                (sym same) (sym at);
      }

  completes :
      (env : Env) (self : Impl Metas) (timer_release back : Bool) (io : Pool.Io)
      → self.started ≡ true
      → self.io ≡ some io
      → (Pool.recycle (some io) self.pool).0 ≡ ok back
      → (back && (self.completion_pending && is_id io.buffer_id self.completion_buffer_id)) ≡ true
      → Outcome self (process_source api env self timer_release).1
  unfolding process_source process_recycled complete
  completes env self timer_release back io e f g h =
      let same : is_id io.buffer_id self.completion_buffer_id ≡ true = ground arith in
      let named = is_id-true io.buffer_id self.completion_buffer_id same in
      let pending : self.completion_pending ≡ true = ground arith in
      let w =
        Recycled-WasOut io self.pool self.completion_buffer_id (Pool.recycle (some io) self.pool)
          refl (recycle-Recycled (some io) self.pool) (g ∙ ap ok (ground arith)) named in
      let taken : (Pool.recycle (some io) self.pool).0 ≡ ok true = ap (λ r. r.0) w.result in
      finished io w.slot e pending f w.read named w.found w.out
        (rw (e, f, taken, pending, same, process_source, process_recycled, complete) refl)
        (rw (e, f, taken, pending, same, process_source, process_recycled, complete) refl)
        (rw (e, f, taken, pending, same, process_source, process_recycled, complete) refl)
        (rw (e, f, taken, pending, same, process_source, process_recycled, complete) refl)
        (rw (e, f, taken, pending, same, process_source, process_recycled, complete)
          (ap (λ r. r.1.0) w.result))
        (rw (e, f, taken, pending, same, process_source, process_recycled, complete)
          (ap (λ r. r.1.1) w.result))

  -- A pass completes playback only when the host hands back, through its io area, the final buffer of a
  -- running source, and that buffer was with the host: then the buffer is free again, the source is
  -- stopped and nothing is pending. Every other pass leaves the completion mark as it is.
  pub process_source-Outcome :
      (env : Env) (self : Impl Metas) (timer_release : Bool)
      → Outcome self (process_source api env self timer_release).1
  unfolding process_source
  process_source-Outcome env self timer_release = elim (Bool-cases self.started) [
    | inr e ↦ going_on (rw (e, process_source) refl)
    | inl e ↦ elim (Option-cases self.io) [
      | inl f ↦ going_on (rw (e, f, process_source) refl)
      | inr (io, f) ↦
          let rest = (Pool.recycle (some io) self.pool).1 in
          elim (Result-cases (Pool.recycle (some io) self.pool).0) [
            | inr (x, g) ↦ going_on (rw (e, f, g, process_source) refl)
            | inl (back, g) ↦
                elim (Bool-cases (
                  back
                  && (self.completion_pending && is_id io.buffer_id self.completion_buffer_id))) [
                    | inr h ↦ going_on (
                        rw (e, f, g, process_source)
                          (process_recycled-Kept env (record self { io = rest.0; pool = rest.1 })
                            timer_release back io.buffer_id h).0)
                    | inl h ↦ completes env self timer_release back io e f g h
                  ]
          ]
    ]
  ]
