-- ===== src/Source/Playback/Refinement.antt =====
-- A pass of `process_source` of spa/plugins/fits/source.c is a pass of the abstract protocol on who holds the
-- buffers.
use mathlib.Core.Option
use mathlib.Core.Path.{subst, subst₂}
use pipewireao_spa_plugin_fi.Base.{
  ℕ, ◌≡◌, refl, sym, ap, ◌∙◌, ◌⊎◌, inl, inr, Bool, true, false, not, ◌&&◌, Option, none, some, set,
  get_elem?, get_elem?-lt, get_elem?-set_self, Bool-cases, Option-cases, arith,
}
use pipewireao_spa_plugin_fi.Errno.{Errno, ok, err, Result-cases}
use pipewireao_spa_plugin_fi.Cadence
use pipewireao_spa_plugin_fi.RowCadence
use pipewireao_spa_plugin_fi.ImageFrame
use pipewireao_spa_plugin_fi.Pool
use pipewireao_spa_plugin_fi.Pool.Take.{IsPool, Taken, take-Taken}
use pipewireao_spa_plugin_fi.Pool.Ownership.{
  IsQuiet, nothing, refused, returned, recycle-Recycled, recycle-keeps,
}
use pipewireao_spa_plugin_fi.Source.{Impl, Env, is_row}
use pipewireao_spa_plugin_fi.Source.Playback.{
  has_data, abandon_frame, take_row, process_row_block, take_plane, process_plane, complete, is_id,
  process_recycled, process_source,
}
use pipewireao_spa_plugin_fi.Source.Playback.Invariant.{finish_cycle-pool}
use pipewireao_spa_plugin_fi.Source.Playback.Ended.{Ended, fill_row-Ends, fill_plane-Ends}
use pipewireao_spa_plugin_fi.Source.Playback.Publication.{selected}
use pipewireao_spa_plugin_fi.Source.Playback.PlanePublication.{scheduled}
use pipewireao_spa_plugin_fi.Source.Playback.Owners.{
  Turn, stays, moves, owners, IsLeft, IsAnnounced, IsPass, set-owner, set-others, Ended-Turn,
}

module _ {Metas Records : Type 0} (api : ImageFrame.MetaApi Metas Records) where
  -- What the producer may do with the buffers on its own.
  abbrev Out : Pool.Pool Metas → Impl Metas → Type 0
  Out p after =
      Turn Pool.available Pool.published (IsAnnounced after) (owners p) (owners after.pool)

  module _ (self : Impl Metas) (v : IsPool self.pool) where
    module _ (r : ℕ) (s : Pool.Slot Metas) (t : Taken self.pool r s (Pool.take self.pool)) where
      abbrev index : ℕ
      index = Pool.slot_index self.pool r

      abbrev taken : Pool.Slot Metas
      taken = record s { state = Pool.producer }

      taken-slots : (Pool.take self.pool).1.slots ≡ set self.pool.slots index taken
      unfolding Pool.mark
      taken-slots = ap (λ x. x.1.slots) t.result

      taken-at : get_elem? (set self.pool.slots index taken) index ≡ some taken
      taken-at =
          get_elem?-set_self self.pool.slots index taken
            (get_elem?-lt self.pool.slots index t.found)

      taken-found : get_elem? (Pool.take self.pool).1.slots index ≡ some taken
      taken-found = ap (λ l. get_elem? l index) taken-slots ∙ taken-at

      -- However the pass ends, it has given a free buffer to the host or none.
      Ended-Out :
          (after : Impl Metas)
          → Ended (Pool.take self.pool).1.slots self.io index s.id after
          → Out self.pool after
      Ended-Out after e =
          Ended-Turn self.pool index s taken self.io after t.found t.free taken-at (
            subst₂ (λ l id. Ended l self.io index id after) taken-slots (v.own_id index s t.found)
              e)

    take_row-Out : (now : ℕ) (b : RowCadence.RowBlock) → Out self.pool (take_row api self now b).1
    unfolding take_row abandon_frame
    take_row-Out now b = elim (take-Taken self.pool v) [
      | inl (e, busy) ↦ rw (ap (λ r. r.0) e, take_row) (stays (λ j. refl))
      | inr (r, s, t) ↦
          rw (ap (λ x. x.0) t.result, taken-found r s t, take_row)
            (Ended-Out r s t _ (
              fill_row-Ends api (record self { pool = (Pool.take self.pool).1 })
                (Pool.slot_index self.pool r) (taken r s t) now b))
    ]

    take_plane-Out : (p : Cadence.Plane) → Out self.pool (take_plane api self p).1
    unfolding take_plane
    take_plane-Out p = elim (take-Taken self.pool v) [
      | inl (e, busy) ↦ rw (ap (λ r. r.0) e, take_plane) (stays (λ j. refl))
      | inr (r, s, t) ↦
          rw (ap (λ x. x.0) t.result, taken-found r s t, take_plane)
            (Ended-Out r s t _ (
              fill_plane-Ends api (record self { pool = (Pool.take self.pool).1 })
                (Pool.slot_index self.pool r) (taken r s t) p))
    ]

  process_row_block-Out :
      (self : Impl Metas) (now : ℕ)
      → IsPool self.pool
      → Out self.pool (process_row_block api self now).1
  unfolding process_row_block
  process_row_block-Out self now v = elim (Bool-cases (has_data self.io)) [
    | inl e ↦ rw (e, process_row_block) (stays (λ j. refl))
    | inr e ↦
        let moved = selected api self now in
        elim (Option-cases
          (RowCadence.due moved.row_cadence now self.cube_info.samples self.loops)) [
            | inl f ↦ rw (e, f, process_row_block) (stays (λ j. refl))
            | inr (b, f) ↦ rw (e, f, process_row_block) (take_row-Out moved v now b)
          ]
  ]

  process_plane-Out :
      (self : Impl Metas) (now : ℕ)
      → IsPool self.pool
      → Out self.pool (process_plane api self now).1
  unfolding process_plane
  process_plane-Out self now v =
      let moved = scheduled api self now in
      elim (Option-cases (Cadence.due self.cadence now self.cube_info.samples self.loops).1) [
        | inl f ↦ rw (f, process_plane) (stays (λ j. refl))
        | inr (p, f) ↦ elim (Bool-cases (has_data self.io)) [
          | inl e ↦ rw (f, e, process_plane) (stays (λ j. refl))
          | inr e ↦ rw (f, e, process_plane) (take_plane-Out moved v p)
        ]
      ]

  process_recycled-Out :
      (env : Env) (self : Impl Metas) (timer_release back : Bool) (id : Option ℕ)
      → IsPool self.pool
      → Out self.pool (process_recycled api env self timer_release back id).1
  unfolding process_recycled complete
  process_recycled-Out env self timer_release back id v =
      elim (Bool-cases (back && (self.completion_pending && is_id id self.completion_buffer_id))) [
        | inl e ↦ rw (e, process_recycled) (stays (λ j. refl))
        | inr e ↦ elim (Bool-cases (self.timerfd_readiness && (is_row self && not timer_release))) [
          | inl f ↦
              rw (e, f, process_recycled)
                (stays (λ j. ap (λ q. owners q j) (finish_cycle-pool api env self _)))
          | inr f ↦ elim (Result-cases env.clock) [
            | inr (x, g) ↦ rw (e, f, g, process_recycled) (stays (λ j. refl))
            | inl (now, g) ↦ elim (Bool-cases (is_row self)) [
              | inl row ↦ rw (e, f, g, row, process_recycled) (process_row_block-Out self now v)
              | inr row ↦ rw (e, f, g, row, process_recycled) (process_plane-Out self now v)
            ]
          ]
        ]
      ]

  recycle-Turn :
      (self : Impl Metas) (io : Pool.Io)
      → self.io ≡ some io
      → Turn Pool.published Pool.available
          (IsLeft self)
          (owners self.pool)
          (owners (Pool.recycle (some io) self.pool).1.1)
  unfolding owners Pool.mark
  recycle-Turn self io f = elim (recycle-Recycled (some io) self.pool) [
    | nothing _ e ↦ rw e (stays (λ j. refl))
    | refused _ _ _ _ _ _ e ↦ rw e (stays (λ j. refl))
    | returned i id s g named unread found was e ↦ rw e (
        moves id (i, f ∙ g, named, unread) (ap (Option.map (λ u. u.state)) found ∙ ap some was)
          (set-owner self.pool.slots id (record s { state = Pool.available }) s found)
          (set-others self.pool.slots id (record s { state = Pool.available }) s found))
  ]

  -- A pass that starts with `recycle_buffer`, and a refused one.
  module _ (env : Env) (self : Impl Metas) (timer_release : Bool) (io : Pool.Io)
      (e : self.started ≡ true) (f : self.io ≡ some io) where
    abbrev recycled : Impl Metas
    recycled = record self {
      io = (Pool.recycle (some io) self.pool).1.0;
      pool = (Pool.recycle (some io) self.pool).1.1;
    }

    process_source-recycled :
        (again : Bool)
        → (Pool.recycle (some io) self.pool).0 ≡ ok again
        → process_source api env self timer_release
          ≡ process_recycled api env recycled timer_release again io.buffer_id
    unfolding process_source
    process_source-recycled again g = ground arith

    process_source-refused :
        (x : Errno)
        → (Pool.recycle (some io) self.pool).0 ≡ err x
        → process_source api env self timer_release ≡ (err x, recycled)
    unfolding process_source
    process_source-refused x g = ground arith

    recycled-IsPass :
        IsPool self.pool
        → IsQuiet self.pool
        → IsPass self (process_source api env self timer_release).1
    recycled-IsPass v q =
        let passes : (after : Impl Metas) → Out recycled.pool after → IsPass self after =
          λ after out. record {
            between = owners recycled.pool;
            back = recycle-Turn self io f;
            out = out;
          } in
        elim (Result-cases (Pool.recycle (some io) self.pool).0) [
          | inr (x, g) ↦
              subst (λ r. IsPass self r.1) (sym (process_source-refused x g))
                (passes recycled (stays (λ j. refl)))
          | inl (again, g) ↦
              subst (λ r. IsPass self r.1) (sym (process_source-recycled again g))
                (passes _ (
                  process_recycled-Out env recycled timer_release again io.buffer_id
                    (recycle-keeps (some io) self.pool v q).0))
        ]

  process_source-idle :
      (env : Env) (self : Impl Metas) (timer_release : Bool)
      → (self.started ≡ false) ⊎ (self.io ≡ none)
      → (process_source api env self timer_release).1 ≡ self
  unfolding process_source
  process_source-idle env self timer_release h = ground arith

  -- Every pass of `process_source` over a pool that is well formed and without a buffer at the producer is a pass
  -- of the abstract protocol: at most the published buffer that the host has left in the io area becomes free,
  -- and then at most one free buffer goes to the host, the one that the io area announces; no other buffer
  -- changes hands.
  pub process_source-IsPass :
      (env : Env) (self : Impl Metas) (timer_release : Bool)
      → IsPool self.pool
      → IsQuiet self.pool
      → IsPass self (process_source api env self timer_release).1
  process_source-IsPass env self timer_release v q =
      let idle : (self.started ≡ false) ⊎ (self.io ≡ none)
          → IsPass self (process_source api env self timer_release).1 =
        λ h. subst (IsPass self) (sym (process_source-idle env self timer_release h)) (record {
          between = owners self.pool;
          back = stays (λ j. refl);
          out = stays (λ j. refl);
        }) in
      elim (Bool-cases self.started) [
        | inr e ↦ idle (inl e)
        | inl e ↦ elim (Option-cases self.io) [
          | inl f ↦ idle (inr f)
          | inr (io, f) ↦ recycled-IsPass env self timer_release io e f v q
        ]
      ]
