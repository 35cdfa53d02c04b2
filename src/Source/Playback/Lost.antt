-- ===== src/Source/Playback/Lost.antt =====
-- A finite source whose last plane is dropped by `process_source`: what becomes of `fits.completed`.
use pipewireao_spa_plugin_fi.Base.{
  ℕ, ◌≡◌, refl, ap, ◌∙◌, inl, inr, Bool, true, false, Option, some, arith, Option-cases, Bool-cases,
}
use pipewireao_spa_plugin_fi.Errno.{ok, Result-cases}
use pipewireao_spa_plugin_fi.Cadence
use pipewireao_spa_plugin_fi.Cadence.Due.{due-closed}
use pipewireao_spa_plugin_fi.ImageFrame
use pipewireao_spa_plugin_fi.Pool
use pipewireao_spa_plugin_fi.Pool.Ownership.{recycle-unread}
use pipewireao_spa_plugin_fi.Source.{Impl, Env, is_row}
use pipewireao_spa_plugin_fi.Source.Playback.{process_plane, process_recycled, process_source}

module _ {Metas Records : Type 0} (api : ImageFrame.MetaApi Metas Records) where
  -- The schedule of whole planes is over and no final buffer is awaited.
  abbrev IsLost : Impl Metas → Type 0
  IsLost self =
      (is_row self ≡ false) × (self.cadence.ended ≡ true) × (self.completion_pending ≡ false)

  process_plane-lost :
      (self : Impl Metas) (now : ℕ) (done : Bool)
      → IsLost self
      → self.completed ≡ done
      → IsLost (process_plane api self now).1 × ((process_plane api self now).1.completed ≡ done)
  unfolding process_plane
  process_plane-lost self now done v d =
      let closed = due-closed self.cadence now self.cube_info.samples self.loops (inl v.1) in
      let none_due = ap (λ r. r.1) closed in
      let still = ap (λ r. r.0.ended) closed in
      rw (none_due, process_plane) ((v.0, still ∙ v.1, v.2), d)

  process_recycled-lost :
      (env : Env) (self : Impl Metas) (timer_release back : Bool) (id : Option ℕ) (done : Bool)
      → IsLost self
      → self.completed ≡ done
      → IsLost (process_recycled api env self timer_release back id).1
        × ((process_recycled api env self timer_release back id).1.completed ≡ done)
  unfolding process_recycled
  process_recycled-lost env self timer_release back id done v d = elim (Result-cases env.clock) [
    | inl (now, g) ↦ let plane = process_plane-lost self now done v d in ground (arith, plane)
    | inr (x, g) ↦ ground arith
  ]

  process_source-lost :
      (env : Env) (self : Impl Metas) (timer_release : Bool) (done : Bool)
      → IsLost self
      → self.completed ≡ done
      → IsLost (process_source api env self timer_release).1
        × ((process_source api env self timer_release).1.completed ≡ done)
  unfolding process_source
  process_source-lost env self timer_release done v d = elim (Bool-cases self.started) [
    | inr e ↦ rw (e, process_source) (v, d)
    | inl e ↦ elim (Option-cases self.io) [
      | inl f ↦ rw (e, f, process_source) (v, d)
      | inr (io, f) ↦
          let rest = (Pool.recycle (some io) self.pool).1 in
          elim (Result-cases (Pool.recycle (some io) self.pool).0) [
            | inr (x, g) ↦ rw (e, f, g, process_source) (v, d)
            | inl (back, g) ↦
                rw (e, f, g, process_source)
                  (process_recycled-lost env (record self { io = rest.0; pool = rest.1 })
                    timer_release back io.buffer_id done v d)
          ]
    ]
  ]

  -- What may follow: passes of the source, and whatever the host writes to its io area between them.
  pub data Later (self : Impl Metas) : Impl Metas → Type 0 where
    here : Later self self
    passed :
        (s : Impl Metas) (env : Env) (timer_release : Bool)
        → Later self s
        → Later self (process_source api env s timer_release).1
    written :
        (s : Impl Metas) (io : Option Pool.Io) → Later self s → Later self (record s { io = io })

  later-lost :
      (self s : Impl Metas) → IsLost self → Later self s → IsLost s × (s.completed ≡ self.completed)
  later-lost self s v here = (v, refl)
  later-lost self s v (passed t env r l) =
      let (w, e) = later-lost self t v l in process_source-lost env t r self.completed w e
  later-lost self s v (written t io l) = later-lost self t v l

  module _ (self : Impl Metas) (io : Pool.Io) (now : ℕ) (c : Cadence.Cadence) (p : Cadence.Plane)
      (full : Pool.is_have_data io.status ≡ true)
      (due : Cadence.due self.cadence now self.cube_info.samples self.loops ≡ (c, some p)) where
    dropped :
        self.io ≡ some io
        → is_row self ≡ false
        → self.completion_pending ≡ false
        → c.ended ≡ true
        → IsLost (process_plane api self now).1
          × ((process_plane api self now).1.completed ≡ self.completed)
    unfolding process_plane
    dropped known frames idle over =
        let some_due = ap (λ r. r.1) due in let at_end = ap (λ r. r.0.ended) due in ground (arith)

    pending :
        (env : Env) (timer_release : Bool) (id : Option ℕ)
        → env.clock ≡ ok now
        → self.io ≡ some io
        → is_row self ≡ false
        → self.completion_pending ≡ false
        → c.ended ≡ true
        → IsLost (process_recycled api env self timer_release false id).1
          × ((process_recycled api env self timer_release false id).1.completed ≡ self.completed)
    unfolding process_recycled
    pending env timer_release id clock known frames idle over =
        let plane = dropped known frames idle over in ground (arith, plane)

  -- If the last plane of a finite source of whole frames becomes due while the host has not read the
  -- output before it, the source never completes: after that pass, whatever the host writes to its io
  -- area and however often it drives the source, the completion mark stays as it was.
  pub pending-lost :
      (env : Env) (self : Impl Metas) (timer_release : Bool) (io : Pool.Io) (now : ℕ)
      (c : Cadence.Cadence) (p : Cadence.Plane) (s : Impl Metas)
      → self.started ≡ true
      → is_row self ≡ false
      → self.completion_pending ≡ false
      → self.io ≡ some io
      → Pool.is_have_data io.status ≡ true
      → env.clock ≡ ok now
      → Cadence.due self.cadence now self.cube_info.samples self.loops ≡ (c, some p)
      → c.ended ≡ true
      → Later (process_source api env self timer_release).1 s
      → s.completed ≡ self.completed
  unfolding process_source
  pending-lost env self timer_release io now c p s on frames idle known full clock d over l =
      let unread = recycle-unread io self.pool full in
      let none_back = ap (λ r. r.0) unread in
      let io_kept = ap (λ r. r.1.0) unread in
      let rest = (Pool.recycle (some io) self.pool).1 in
      let self' : Impl Metas = record self { io = rest.0; pool = rest.1 } in
      let (lost, same) =
        pending self' io now c p full d env timer_release io.buffer_id clock io_kept frames idle
          over in
      let now_lost : IsLost (process_source api env self timer_release).1 =
        rw (on, known, none_back, process_source) lost in
      let unchanged : (process_source api env self timer_release).1.completed ≡ self.completed =
        rw (on, known, none_back, process_source) same in
      let (_, kept) = later-lost (process_source api env self timer_release).1 s now_lost l in
      kept ∙ unchanged
