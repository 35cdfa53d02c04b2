-- ===== src/Factory/Handle/Cleared.antt =====
-- `clear` of spa/plugins/fits/source.c: what is left of a handle.
use pipewireao_spa_plugin_fi.Base.{◌≡◌, refl, ◌⊎◌, inl, inr, true, false, none, arith, Bool-cases}
use pipewireao_spa_plugin_fi.Errno.{Result, ok, err, Errno, Result-cases}
use pipewireao_spa_plugin_fi.Cube
use pipewireao_spa_plugin_fi.Pool
use pipewireao_spa_plugin_fi.Source.{Impl, Env, set_release_timer}
use pipewireao_spa_plugin_fi.Source.Control.{stop_source}
use pipewireao_spa_plugin_fi.Factory.Handle.{
  Resources, Closing, remove_timer, close_timer, release_buffers, clear,
}

module _ {Metas : Type 0} where
  -- What `clear` leaves of a handle: nothing is held but, if its removal failed, the place in the loop.
  pub record IsCleared (closing : Closing) (self : Impl Metas) (held : Resources)
      (r : Result (Unit {0}) × Impl Metas × Resources) : Type 0 where
    pub released : (r.2.cube ≡ Cube.nothing_held) × (r.2.frames ≡ false) × (r.2.timer_fd ≡ none)
    pub unregistered :
        (r.2.in_loop ≡ false)
        ⊎ ((held.in_loop ≡ true) × (r.2.in_loop ≡ true) × ((e : Errno) × (closing.removed ≡ err e)))
    pub stopped :
        (r.1.started ≡ false)
        × (Pool.n_buffers r.1.pool ≡ 0)
        × (r.1.cube ≡ none)
        × (r.1.preloaded_frames ≡ none)
    pub succeeded :
        r.0 ≡ ok tt
        → ((stop_source closing.env self).0 ≡ ok tt)
          × (r.2.in_loop ≡ false)
          × ((held.timer_fd ≡ none) ⊎ (closing.closed ≡ ok tt))
    pub first :
        (e : Errno)
        → r.0 ≡ err e
        → ((stop_source closing.env self).0 ≡ err e)
          ⊎ (((stop_source closing.env self).0 ≡ ok tt)
              × ((closing.removed ≡ err e) ⊎ ((r.2.in_loop ≡ false) × (closing.closed ≡ err e))))

  stop-started : (env : Env) (self : Impl Metas) → (stop_source env self).1.started ≡ false
  unfolding stop_source set_release_timer
  stop-started env self = ground arith

  -- A stopped source gives its buffers back.
  release-empty :
      (self : Impl Metas)
      → self.started ≡ false
      → ((release_buffers self).0 ≡ ok tt)
        × (Pool.n_buffers (release_buffers self).1.pool ≡ 0)
        × ((release_buffers self).1.started ≡ false)
  unfolding Pool.release
  release-empty self off = (ground arith, ground arith, ground arith)

  -- Clearing a handle stops the source and gives back its buffers, the cube, the frames and the timer,
  -- whichever of the steps fail; only a timer that could not be removed stays in the loop. The result is
  -- the first error, and there is none only if each step that was needed succeeded.
  pub clear-IsCleared :
      (closing : Closing) (self : Impl Metas) (held : Resources)
      → IsCleared closing self held (clear closing self held)
  unfolding clear remove_timer close_timer Cube.close
  clear-IsCleared closing self held =
      let (released, empty, off) =
        release-empty (stop_source closing.env self).1 (stop-started closing.env self) in
      record {
        released = (ground arith, ground arith, ground arith);
        unregistered = elim (Bool-cases held.in_loop) [
          | inr out ↦ inl (ground arith)
          | inl on ↦ elim (Result-cases closing.removed) [
            | inl (u, e) ↦ inl (ground arith)
            | inr (x, e) ↦ inr (on, ground arith, (x, e))
          ]
        ];
        stopped = (off, empty, refl, refl);
        succeeded = λ e. (ground arith, ground arith, ground arith);
        first = λ e h. ground arith;
      }
