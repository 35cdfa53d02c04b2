-- ===== src/Source/Playback/Invariant.antt =====
-- The buffers through one pass of the graph: whatever happens, none is left with the producer.
use pipewireao_spa_plugin_fi.Base.{
  ℕ, ◌≡◌, refl, sym, ◌∙◌, ◌⊎◌, inl, inr, Bool, true, false, not, ◌&&◌, ◌||◌, Option, none, some,
  get_elem?, arith, Option-cases, Bool-cases, length-set,
}
use mathlib.Core.Path.{subst}
use pipewireao_spa_plugin_fi.Errno.{Result-cases}
use pipewireao_spa_plugin_fi.Cadence
use pipewireao_spa_plugin_fi.RowCadence
use pipewireao_spa_plugin_fi.Cube
use pipewireao_spa_plugin_fi.ImageFrame
use pipewireao_spa_plugin_fi.Pool
use pipewireao_spa_plugin_fi.Pool.Take.{IsPool, take-n_buffers}
use pipewireao_spa_plugin_fi.Pool.Ownership.{IsQuiet, recycle-keeps, recycle-n_buffers}
use pipewireao_spa_plugin_fi.Pool.Held.{IsHeld, settled, give_back-settled, take-IsHeld, take-none}
use pipewireao_spa_plugin_fi.Source.{Impl, Env, is_row, set_release_timer}
use pipewireao_spa_plugin_fi.Source.Playback.{
  fill, has_data, deliver, drop_buffer, abandon_frame, await_completion, row_bytes, row_frame,
  plane_frame, publish_row, fill_row, take_row, process_row_block, publish_plane, fill_plane,
  take_plane, process_plane, plane_format, is_some, finish_cycle, complete, is_id, process_recycled,
  process_source,
}

module _ {Metas : Type 0} where
  -- The pool has `n` buffers, is well formed, and every buffer is free or with the host.
  abbrev pub PoolOk : ℕ → Pool.Pool Metas → Type 0
  PoolOk n p = IsPool p × IsQuiet p × (Pool.n_buffers p ≡ n)

  drop_buffer-PoolOk :
      (n : ℕ) (self : Impl Metas) (i : ℕ) (slot : Pool.Slot Metas)
      (b : Option (ImageFrame.Buffer Metas))
      → IsHeld self.pool i
      → Pool.n_buffers self.pool ≡ n
      → get_elem? self.pool.slots i ≡ some slot
      → PoolOk n (drop_buffer self i slot b).pool
  unfolding drop_buffer Pool.give_back
  drop_buffer-PoolOk n self i slot b h size found =
      let (valid, quiet) = give_back-settled self.pool i slot b h.pool_ok h.quiet_but found in
      (
        valid,
        quiet,
        length-set self.pool.slots i (record slot { buffer = b; state = Pool.available }) ∙ size,
      )

  deliver-PoolOk :
      (n : ℕ) (self : Impl Metas) (i : ℕ) (slot : Pool.Slot Metas) (b : ImageFrame.Buffer Metas)
      → IsHeld self.pool i
      → Pool.n_buffers self.pool ≡ n
      → get_elem? self.pool.slots i ≡ some slot
      → PoolOk n (deliver self i slot b).pool
  unfolding deliver
  deliver-PoolOk n self i slot b h size found =
      let out : Pool.Slot Metas = record slot { buffer = some b; state = Pool.published } in
      let (valid, quiet) =
        settled self.pool i self.pool.scan_hint slot out h.pool_ok h.quiet_but found refl (λ e. cc)
          h.hint in
      (valid, quiet, length-set self.pool.slots i out ∙ size)

  await_completion-pool :
      (ended : Bool) (self : Impl Metas) (id : ℕ)
      → (await_completion ended self id).pool ≡ self.pool
  unfolding await_completion
  await_completion-pool true self id = refl
  await_completion-pool false self id = refl

module _ {Metas Records : Type 0} (api : ImageFrame.MetaApi Metas Records) where
  module _ (n : ℕ) (self : Impl Metas) (now i : ℕ) (slot : Pool.Slot Metas) (h : IsHeld self.pool i)
      (size : Pool.n_buffers self.pool ≡ n) (found : get_elem? self.pool.slots i ≡ some slot) where
    publish_row-PoolOk :
        (b : RowCadence.RowBlock) (buffer : ImageFrame.Buffer Metas)
        → PoolOk n (publish_row api self now b i slot buffer).1.pool
    unfolding abandon_frame publish_row
    publish_row-PoolOk b buffer =
        elim (Result-cases (
          ImageFrame.write api (some buffer) (some (row_frame api self b))
            ImageFrame.require_header)) [
              | inl (buffer', e) ↦
                  rw (e, publish_row)
                    (subst (PoolOk n) (sym (await_completion-pool _ _ slot.id))
                      (deliver-PoolOk n _ i slot buffer' h size found))
              | inr (x, e) ↦
                  rw (e, publish_row) (drop_buffer-PoolOk n self i slot (some buffer) h size found)
            ]

    fill_row-PoolOk : (b : RowCadence.RowBlock) → PoolOk n (fill_row api self now b i slot).1.pool
    unfolding fill_row
    fill_row-PoolOk b =
        let dropped = drop_buffer-PoolOk n self i slot slot.buffer h size found in
        elim (Option-cases slot.buffer) [
          | inl e ↦ rw (e, fill_row) dropped
          | inr (buffer, e) ↦ elim (Option-cases (get_elem? buffer.datas 0)) [
            | inl f ↦ rw (e, f, fill_row) dropped
            | inr (d, f) ↦ elim (Option-cases self.preloaded_frames) [
              | inl g ↦ rw (e, f, g, fill_row) dropped
              | inr (frames, g) ↦
                  rw (e, f, g, fill_row)
                    (publish_row-PoolOk b (fill buffer d (row_bytes self frames b)))
            ]
          ]
        ]

    publish_plane-PoolOk :
        (p : Cadence.Plane) (buffer : ImageFrame.Buffer Metas)
        → PoolOk n (publish_plane api self p i slot buffer).1.pool
    unfolding publish_plane
    publish_plane-PoolOk p buffer =
        elim (Result-cases (
          ImageFrame.write api (some buffer) (some (plane_frame api self p))
            ImageFrame.require_header)) [
              | inl (buffer', e) ↦
                  rw (e, publish_plane)
                    (subst (PoolOk n) (sym (await_completion-pool _ _ slot.id))
                      (deliver-PoolOk n self i slot buffer' h size found))
              | inr (x, e) ↦
                  rw (e, publish_plane)
                    (drop_buffer-PoolOk n self i slot (some buffer) h size found)
            ]

    fill_plane-PoolOk : (p : Cadence.Plane) → PoolOk n (fill_plane api self p i slot).1.pool
    unfolding fill_plane
    fill_plane-PoolOk p =
        let dropped = drop_buffer-PoolOk n self i slot slot.buffer h size found in
        elim (Option-cases slot.buffer) [
          | inl e ↦ rw (e, fill_plane) dropped
          | inr (buffer, e) ↦ elim (Option-cases (get_elem? buffer.datas 0)) [
            | inl f ↦ rw (e, f, fill_plane) dropped
            | inr (d, f) ↦
                elim (Result-cases (
                  Cube.read_plane self.cube p.sample (plane_format self) (is_some d.memory)
                    d.maxsize)) [
                      | inl (bytes, g) ↦
                          rw (e, f, g, fill_plane) (publish_plane-PoolOk p (fill buffer d bytes))
                      | inr (x, g) ↦ rw (e, f, g, fill_plane) dropped
                    ]
          ]
        ]

  module _ (n : ℕ) (self : Impl Metas) (v : PoolOk n self.pool) where
    taken-cases :
        (index : Option ℕ) (pool : Pool.Pool Metas)
        → Pool.take self.pool ≡ (index, pool)
        → ((index ≡ none) × (pool ≡ self.pool)) ⊎ ((i : ℕ) × (index ≡ some i) × IsHeld pool i)
    taken-cases none pool e = inl (refl, take-none self.pool pool v.0 e)
    taken-cases (some i) pool e = inr (i, refl, take-IsHeld self.pool i pool v.0 v.1 e)

    take_row-PoolOk :
        (now : ℕ) (b : RowCadence.RowBlock) → PoolOk n (take_row api self now b).1.pool
    unfolding take_row abandon_frame
    take_row-PoolOk now b =
        elim (taken-cases (Pool.take self.pool).0 (Pool.take self.pool).1 refl) [
          | inl (e, _) ↦ rw (e, take_row) v
          | inr (i, e, h) ↦
              rw (e, h.held.1, take_row)
                (fill_row-PoolOk n (record self { pool = (Pool.take self.pool).1 }) now i h.held.0 h
                  (take-n_buffers self.pool ∙ v.2) h.held.1 b)
        ]

    take_plane-PoolOk : (p : Cadence.Plane) → PoolOk n (take_plane api self p).1.pool
    unfolding take_plane
    take_plane-PoolOk p = elim (taken-cases (Pool.take self.pool).0 (Pool.take self.pool).1 refl) [
      | inl (e, _) ↦ rw (e, take_plane) v
      | inr (i, e, h) ↦
          rw (e, h.held.1, take_plane)
            (fill_plane-PoolOk n (record self { pool = (Pool.take self.pool).1 }) 0 i h.held.0 h
              (take-n_buffers self.pool ∙ v.2) h.held.1 p)
    ]

  process_row_block-PoolOk :
      (n : ℕ) (self : Impl Metas) (now : ℕ)
      → PoolOk n self.pool
      → PoolOk n (process_row_block api self now).1.pool
  unfolding process_row_block
  process_row_block-PoolOk n self now v = elim (Bool-cases (has_data self.io)) [
    | inl e ↦ rw (e, process_row_block) v
    | inr e ↦
        let selected =
          RowCadence.select_latest self.row_cadence now self.cube_info.samples self.loops in
        let self' : Impl Metas = record self {
          row_cadence = selected.0;
          discontinuity = selected.1 || self.discontinuity;
        } in
        elim (Option-cases (RowCadence.due selected.0 now self.cube_info.samples self.loops)) [
          | inl f ↦ rw (e, f, process_row_block) v
          | inr (b, f) ↦ rw (e, f, process_row_block) (take_row-PoolOk n self' v now b)
        ]
  ]

  process_plane-PoolOk :
      (n : ℕ) (self : Impl Metas) (now : ℕ)
      → PoolOk n self.pool
      → PoolOk n (process_plane api self now).1.pool
  unfolding process_plane
  process_plane-PoolOk n self now v =
      let r = Cadence.due self.cadence now self.cube_info.samples self.loops in
      elim (Option-cases r.1) [
        | inl f ↦ rw (f, process_plane) v
        | inr (p, f) ↦ elim (Bool-cases (has_data self.io)) [
          | inl e ↦ rw (f, e, process_plane) v
          | inr e ↦
              rw (f, e, process_plane) (take_plane-PoolOk n (record self { cadence = r.0 }) v p)
        ]
      ]

  pub finish_cycle-pool :
      (env : Env) (self : Impl Metas) (own : Bool)
      → (finish_cycle api env self own).1.pool ≡ self.pool
  unfolding finish_cycle set_release_timer
  finish_cycle-pool env self own = ground arith

  process_recycled-PoolOk :
      (n : ℕ) (env : Env) (self : Impl Metas) (timer_release back : Bool) (id : Option ℕ)
      → PoolOk n self.pool
      → PoolOk n (process_recycled api env self timer_release back id).1.pool
  unfolding process_recycled complete
  process_recycled-PoolOk n env self timer_release back id v =
      elim (Bool-cases (back && (self.completion_pending && is_id id self.completion_buffer_id))) [
        | inl e ↦ rw (e, process_recycled) v
        | inr e ↦ elim (Bool-cases (self.timerfd_readiness && (is_row self && not timer_release))) [
          | inl f ↦
              rw (e, f, process_recycled) (subst (PoolOk n) (sym (finish_cycle-pool env self _)) v)
          | inr f ↦ elim (Result-cases env.clock) [
            | inr (x, g) ↦ rw (e, f, g, process_recycled) v
            | inl (now, g) ↦ elim (Bool-cases (is_row self)) [
              | inl row ↦
                  rw (e, f, g, row, process_recycled) (process_row_block-PoolOk n self now v)
              | inr row ↦ rw (e, f, g, row, process_recycled) (process_plane-PoolOk n self now v)
            ]
          ]
        ]
      ]

  -- Every pass of `process_source`, with or without an error, keeps the number of the buffers and leaves the pool well formed and no
  -- buffer with the producer, if it found it so: each is free or published.
  pub process_source-PoolOk :
      (n : ℕ) (env : Env) (self : Impl Metas) (timer_release : Bool)
      → PoolOk n self.pool
      → PoolOk n (process_source api env self timer_release).1.pool
  unfolding process_source
  process_source-PoolOk n env self timer_release v = elim (Bool-cases self.started) [
    | inr e ↦ rw (e, process_source) v
    | inl e ↦ elim (Option-cases self.io) [
      | inl f ↦ rw (e, f, process_source) v
      | inr (io, f) ↦
          let (valid, quiet) = recycle-keeps (some io) self.pool v.0 v.1 in
          let kept : PoolOk n (Pool.recycle (some io) self.pool).1.1 =
            (valid, quiet, recycle-n_buffers (some io) self.pool ∙ v.2) in
          let rest = (Pool.recycle (some io) self.pool).1 in
          elim (Result-cases (Pool.recycle (some io) self.pool).0) [
            | inr (x, g) ↦ rw (e, f, g, process_source) kept
            | inl (back, g) ↦
                rw (e, f, g, process_source)
                  (process_recycled-PoolOk n env (record self { io = rest.0; pool = rest.1 })
                    timer_release back io.buffer_id kept)
          ]
    ]
  ]
