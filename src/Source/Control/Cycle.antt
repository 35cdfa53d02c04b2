-- ===== src/Source/Control/Cycle.antt =====
-- The row cycle of a source with a timer of its own, in `process_source` and `timer_ready` of
-- spa/plugins/fits/source.c: one block is out at a time, and only its return lets the timer go on.
use pipewireao_spa_plugin_fi.Base.{
  ℕ, ◌≡◌, refl, sym, ap, ◌∙◌, ◌⊎◌, inl, inr, Bool, true, false, Option, none, some, arith,
  Bool-cases, Option-cases, ==_iff,
}
use pipewireao_spa_plugin_fi.Errno.{Result, ok, Result-cases}
use pipewireao_spa_plugin_fi.ImageFrame
use pipewireao_spa_plugin_fi.Pool
use pipewireao_spa_plugin_fi.Pool.Ownership.{Recycled, nothing, refused, returned, recycle-Recycled}
use pipewireao_spa_plugin_fi.Source.{Impl, Env, is_row, set_release_timer, deadline}
use pipewireao_spa_plugin_fi.Source.Playback.{
  Reply, same_id, is_id, finish_cycle, complete, process_recycled, process_source,
}
use pipewireao_spa_plugin_fi.Source.Control.{TimerEvent, try_timer, timer_ready}

module _ {Metas Records : Type 0} (api : ImageFrame.MetaApi Metas Records) where
  -- What a pass that the host drives may change of the cycle.
  record Waits (self after : Impl Metas) (pool : Pool.Pool Metas) (back : Bool) (id : Option ℕ)
      : Type 0 where
    pub schedule : after.row_cadence ≡ self.row_cadence
    pub buffers : after.pool ≡ pool
    pub ends :
        self.row_cycle_pending ≡ true
        → after.row_cycle_pending ≡ false
        → (back ≡ true)
          × ((same_id id self.row_cycle_buffer_id ≡ true)
              ⊎ ((self.completion_pending ≡ true) × (is_id id self.completion_buffer_id ≡ true)))

  process_recycled-Waits :
      (env : Env) (self : Impl Metas) (back : Bool) (id : Option ℕ)
      → self.timerfd_readiness ≡ true
      → is_row self ≡ true
      → Waits self (process_recycled api env self false back id).1 self.pool back id
  unfolding process_recycled finish_cycle set_release_timer complete
  process_recycled-Waits env self back id timed row = record {
    schedule = ground arith;
    buffers = ground arith;
    ends = λ on off. ground arith;
  }

  -- A buffer that `recycle_buffer` took back has a name.
  returned-named :
      (io : Pool.Io) (p : Pool.Pool Metas) (r : Result Bool × (Option Pool.Io × Pool.Pool Metas))
      → Recycled (some io) p r
      → r.0 ≡ ok true
      → (id : ℕ) × (io.buffer_id ≡ some id)
  returned-named io p r (nothing _ e) h = cc
  returned-named io p r (refused i id _ _ _ _ e) h = cc
  returned-named io p r (returned i id s same named _ _ _ _) h =
      let eq : io ≡ i = cc in (id, ap (λ x. x.buffer_id) eq ∙ named)

  same_id-some : (i : ℕ) (o : Option ℕ) → same_id (some i) o ≡ true → o ≡ some i
  same_id-some i none e = cc
  same_id-some i (some j) e = ap some (sym ((==_iff i j).0 e))

  -- How a row cycle ends: the host handed back the block that is out, or the final buffer.
  abbrev pub IsReturn : Impl Metas → Pool.Io → ℕ → Type 0
  IsReturn self io id =
      (self.io ≡ some io)
      × (io.buffer_id ≡ some id)
      × ((Pool.recycle (some io) self.pool).0 ≡ ok true)
      × ((self.row_cycle_buffer_id ≡ some id)
          ⊎ ((self.completion_pending ≡ true) × (self.completion_buffer_id ≡ id)))

  named-back :
      (io : Pool.Io) (id : ℕ) (self : Impl Metas)
      → io.buffer_id ≡ some id
      → (same_id io.buffer_id self.row_cycle_buffer_id ≡ true)
        ⊎ ((self.completion_pending ≡ true) × (is_id io.buffer_id self.completion_buffer_id ≡ true))
      → (self.row_cycle_buffer_id ≡ some id)
        ⊎ ((self.completion_pending ≡ true) × (self.completion_buffer_id ≡ id))
  named-back io id self named (inl h) = inl (
      same_id-some id self.row_cycle_buffer_id
        (ap (λ x. same_id x self.row_cycle_buffer_id) (sym named) ∙ h))
  named-back io id self named (inr (p, h)) = inr (
    p,
    sym (
        (==_iff id self.completion_buffer_id).0
          (ap (λ x. is_id x self.completion_buffer_id) (sym named) ∙ h)),
  )

  on_and_off : {b : Bool} → b ≡ false → b ≡ true → ⊥
  on_and_off e h = cc

  process_source-recycled :
      (env : Env) (self : Impl Metas) (io : Pool.Io) (back : Bool)
      → self.started ≡ true
      → self.io ≡ some io
      → (Pool.recycle (some io) self.pool).0 ≡ ok back
      → process_source api env self false
        ≡ process_recycled api env
            (record self {
              io = (Pool.recycle (some io) self.pool).1.0;
              pool = (Pool.recycle (some io) self.pool).1.1;
            })
            false
            back
            io.buffer_id
  unfolding process_source
  process_source-recycled env self io back e f g = ground arith

  module _ (env : Env) (self : Impl Metas) (timed : self.timerfd_readiness ≡ true)
      (row : is_row self ≡ true) where
    process_source-schedule : (process_source api env self false).1.row_cadence ≡ self.row_cadence
    unfolding process_source
    process_source-schedule = elim (Bool-cases self.started) [
      | inr e ↦ rw (e, process_source) refl
      | inl e ↦ elim (Option-cases self.io) [
        | inl f ↦ rw (e, f, process_source) refl
        | inr (io, f) ↦
            let rest = (Pool.recycle (some io) self.pool).1 in
            elim (Result-cases (Pool.recycle (some io) self.pool).0) [
              | inr (x, g) ↦ rw (e, f, g, process_source) refl
              | inl (back, g) ↦
                  rw (e, f, g, process_source)
                    (process_recycled-Waits env (record self { io = rest.0; pool = rest.1 }) back
                      io.buffer_id timed row).schedule
            ]
      ]
    ]

    process_source-ends :
        self.row_cycle_pending ≡ true
        → (process_source api env self false).1.row_cycle_pending ≡ false
        → (io : Pool.Io) × (id : ℕ) × IsReturn self io id
    unfolding process_source
    process_source-ends on off =
        let unchanged : ((process_source api env self false).1.row_cycle_pending
              ≡ self.row_cycle_pending)
            → ⊥ =
          λ same. on_and_off (sym same ∙ off) on in
        elim (Bool-cases self.started) [
          | inr e ↦ absurd (unchanged (rw (e, process_source) refl))
          | inl e ↦ elim (Option-cases self.io) [
            | inl f ↦ absurd (unchanged (rw (e, f, process_source) refl))
            | inr (io, f) ↦
                let rest = (Pool.recycle (some io) self.pool).1 in
                elim (Result-cases (Pool.recycle (some io) self.pool).0) [
                  | inr (x, g) ↦ absurd (unchanged (rw (e, f, g, process_source) refl))
                  | inl (back, g) ↦
                      let self' : Impl Metas = record self { io = rest.0; pool = rest.1 } in
                      let through : (process_source api env self false).1.row_cycle_pending
                          ≡ (process_recycled api env self' false back
                              io.buffer_id).1.row_cycle_pending =
                        ap (λ r. r.1.row_cycle_pending)
                          (process_source-recycled env self io back e f g) in
                      let (is_back, why) =
                        (process_recycled-Waits env self' back io.buffer_id timed row).ends on
                          (sym through ∙ off) in
                      let done = g ∙ ap ok is_back in
                      let (id, named) =
                        returned-named io self.pool _ (recycle-Recycled (some io) self.pool) done in
                      (io, id, (f, named, done, named-back io id self named why))
                ]
          ]
        ]

  timer_ready-waits :
      (ready : Reply → Impl Metas → Impl Metas) (env : Env) (event : TimerEvent) (self : Impl Metas)
      → is_row self ≡ true
      → self.row_cycle_pending ≡ true
      → (timer_ready api ready env event self ≡ self)
        ⊎ (timer_ready api ready env event self ≡ record self { timer = none })
  unfolding timer_ready try_timer set_release_timer deadline
  timer_ready-waits ready env event self row on = ground arith

  -- In a timed row source, a pass that the host drives hands out no block: the row schedule stands still.
  -- A pending row cycle ends only when the host hands back, through its io area, the block that is out
  -- (or the final buffer); until then a timer event changes nothing, or only disarms the timer.
  pub row_cycle-waits :
      (ready : Reply → Impl Metas → Impl Metas) (env : Env) (event : TimerEvent) (self : Impl Metas)
      → self.timerfd_readiness ≡ true
      → is_row self ≡ true
      → ((process_source api env self false).1.row_cadence ≡ self.row_cadence)
        × (self.row_cycle_pending ≡ true
            → (((process_source api env self false).1.row_cycle_pending ≡ true)
                ⊎ ((io : Pool.Io) × (id : ℕ) × IsReturn self io id))
              × ((timer_ready api ready env event self ≡ self)
                  ⊎ (timer_ready api ready env event self ≡ record self { timer = none })))
  row_cycle-waits ready env event self timed row = (
    process_source-schedule env self timed row,
    λ on. (
      elim (Bool-cases (process_source api env self false).1.row_cycle_pending) [
        | inl still ↦ inl still
        | inr off ↦ inr (process_source-ends env self timed row on off)
      ],
      timer_ready-waits ready env event self row on,
    ),
  )
