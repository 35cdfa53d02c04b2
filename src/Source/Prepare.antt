-- ===== src/Source/Prepare.antt =====
-- `preload_row_frames` of spa/plugins/fits/source.c: all planes as 16-bit pixels, one after the other.
mod Examples
use pipewireao_spa_plugin_fi.Base.{
  ℕ, zero, suc, ◌+◌, ◌*◌, ◌/◌, ◌≤◌, ◌<◌, ◌≡◌, refl, sym, ap, ◌∙◌, ◌⊎◌, inl, inr, true, Option, none,
  some, List, ltb, if◌then◌else◌, length, take, drop, arith, u64_max, store_at, length-store_at,
  slice-store_at, slice-store_before, Option-cases, dec_lt,
}
use mathlib.Core.Path.{subst}
use native.Mathlib.Nat.{mul-le-mul_right}
use pipewireao_spa_plugin_fi.Errno.{Result, ok, err, eoverflow, enomem, Result-cases, Errno}
use pipewireao_spa_plugin_fi.Cube
use pipewireao_spa_plugin_fi.Source.{Impl}

-- The loop with `k` planes left from `sample` on. `element` counts the elements of a plane.
unfoldable pub preload_from : Option Cube.Cube → ℕ → ℕ → ℕ → List ℕ → Result (List ℕ)
preload_from cube elements zero sample frames = ok frames
preload_from cube elements (suc k) sample frames =
    elim (Cube.read_plane cube sample Cube.output_gray16 true (elements * 2)) [
      | err e ↦ err e
      | ok bytes ↦
          preload_from cube elements k (sample + 1) (store_at (sample * elements * 2) bytes frames)
    ]

module _ {Metas : Type 0} where
  -- What the calls leave in `preloaded_frames`.
  unfoldable pub preload : Impl Metas → List ℕ → Result (Unit {0}) × Impl Metas
  preload self memory =
      elim (preload_from self.cube self.cube_info.plane_elements self.cube_info.samples 0 memory) [
        | err e ↦ (err e, record self { preloaded_frames = none })
        | ok frames ↦ (ok tt, record self { preloaded_frames = some frames })
      ]

  -- `preload_row_frames`; `allocate` is `malloc`, with whatever the new memory holds.
  unfoldable pub preload_row_frames :
      Impl Metas → (ℕ → Option (List ℕ)) → Result (Unit {0}) × Impl Metas
  preload_row_frames self allocate =
      let frame_size : ℕ = self.cube_info.plane_elements * 2 in
      if ltb (u64_max / 2) self.cube_info.plane_elements
      then (err eoverflow, self)
      else if ltb (u64_max / frame_size) self.cube_info.samples
      then (err eoverflow, self)
      else elim (allocate (self.cube_info.samples * frame_size)) [
        | none ↦ (err enomem, record self { preloaded_frames = none })
        | some memory ↦ preload self memory
      ]

next-le : (a b : ℕ) → a < b → a + 1 ≤ b
next-le a b h = omega arith

ok-eq : {x y : List ℕ} → ◌≡◌ {A = Result (List ℕ)} (ok x) (ok y) → x ≡ y
ok-eq e = cc

err-ok : {x : Errno} {y : List ℕ} → ◌≡◌ {A = Result (List ℕ)} (err x) (ok y) → ⊥
err-ok e = cc

module _ (cube : Option Cube.Cube) (elements : ℕ) where
  -- Reading a plane fills exactly its part of the memory.
  abbrev pub FillsPlane : Type 0
  FillsPlane =
      (s : ℕ) (bytes : List ℕ)
      → Cube.read_plane cube s Cube.output_gray16 true (elements * 2) ≡ ok bytes
      → length bytes ≡ elements * 2

  -- Plane `s` stands at its place in `frames`.
  abbrev pub HasPlane : List ℕ → ℕ → Type 0
  HasPlane frames s =
      (bytes : List ℕ) × (Cube.read_plane cube s Cube.output_gray16 true (elements * 2) ≡ ok bytes)
      × (take (elements * 2) (drop (s * elements * 2) frames) ≡ bytes)

  module _ (fills : FillsPlane) where
    module _ (k sample : ℕ) (memory : List ℕ) where
      preload_from-failed :
          (x : Errno)
          → Cube.read_plane cube sample Cube.output_gray16 true (elements * 2) ≡ err x
          → preload_from cube elements (suc k) sample memory ≡ err x
      unfolding preload_from
      preload_from-failed x f = rw (f, preload_from) refl

      preload_from-next :
          (bytes : List ℕ)
          → Cube.read_plane cube sample Cube.output_gray16 true (elements * 2) ≡ ok bytes
          → preload_from cube elements (suc k) sample memory
            ≡ preload_from cube elements k
                (sample + 1)
                (store_at (sample * elements * 2) bytes memory)
      unfolding preload_from
      preload_from-next bytes f = rw (f, preload_from) refl

    module _ (sample : ℕ) (memory bytes : List ℕ)
        (f : Cube.read_plane cube sample Cube.output_gray16 true (elements * 2) ≡ ok bytes)
        (fits : sample * elements * 2 + length bytes ≤ length memory)
        (before : (s : ℕ) → s < sample → HasPlane memory s) where
      stored-HasPlane :
          (s : ℕ) → s < sample + 1 → HasPlane (store_at (sample * elements * 2) bytes memory) s
      stored-HasPlane s h = elim (dec_lt s sample) [
        | yes lt ↦
            let (b, r, old) = before s lt in
            (
              b,
              r,
              slice-store_before (sample * elements * 2) bytes memory fits (s * elements * 2)
                    (elements * 2) (omega (arith, mul-le-mul_right elements (next-le s sample lt)))
                  ∙ old,
            )
        | no ge ↦
            let same : sample ≡ s = omega arith in
            subst (HasPlane (store_at (sample * elements * 2) bytes memory)) same (
              bytes,
              f,
              ap
                    (λ n. take n (
                      drop (sample * elements * 2) (store_at (sample * elements * 2) bytes memory)))
                    (sym (fills sample bytes f))
                  ∙ slice-store_at (sample * elements * 2) bytes memory fits,
            )
      ]

    preload_from-HasPlane :
        (k sample : ℕ) (memory frames : List ℕ)
        → (sample + k) * elements * 2 ≤ length memory
        → preload_from cube elements k sample memory ≡ ok frames
        → ((s : ℕ) → s < sample → HasPlane memory s)
        → (s : ℕ) → s < sample + k
        → HasPlane frames s
    unfolding preload_from
    preload_from-HasPlane zero sample memory frames room e before s h =
        subst (λ m. HasPlane m s) (ok-eq e) (before s (omega arith))
    preload_from-HasPlane (suc k) sample memory frames room e before s h =
        elim (Result-cases (Cube.read_plane cube sample Cube.output_gray16 true (elements * 2))) [
          | inr (x, f) ↦ absurd (err-ok (sym (preload_from-failed k sample memory x f) ∙ e))
          | inl (bytes, f) ↦
              let fits : sample * elements * 2 + length bytes ≤ length memory =
                omega (arith, room, fills sample bytes f) in
              let memory' = store_at (sample * elements * 2) bytes memory in
              preload_from-HasPlane k (sample + 1) memory' frames
                (omega (arith, room, length-store_at (sample * elements * 2) bytes memory fits))
                (sym (preload_from-next k sample memory bytes f) ∙ e)
                (stored-HasPlane sample memory bytes f fits before) s (omega arith)
        ]

module _ {Metas : Type 0} where
  preload-frames :
      (self : Impl Metas) (memory frames : List ℕ)
      → (preload self memory).0 ≡ ok tt
      → (preload self memory).1.preloaded_frames ≡ some frames
      → preload_from self.cube self.cube_info.plane_elements self.cube_info.samples 0 memory
        ≡ ok frames
  unfolding preload
  preload-frames self memory frames e g = ground arith

  preload_row_frames-refused :
      (self : Impl Metas) (allocate : ℕ → Option (List ℕ))
      → allocate (self.cube_info.samples * (self.cube_info.plane_elements * 2)) ≡ none
      → (preload_row_frames self allocate).0 ≡ ok tt
      → ⊥
  unfolding preload_row_frames
  preload_row_frames-refused self allocate none_ e = ground arith

  pub preload_row_frames-memory :
      (self : Impl Metas) (allocate : ℕ → Option (List ℕ))
      → (preload_row_frames self allocate).0 ≡ ok tt
      → (memory : List ℕ) × (allocate (self.cube_info.samples * (self.cube_info.plane_elements * 2))
          ≡ some memory)
        × (preload_row_frames self allocate ≡ preload self memory)
  unfolding preload_row_frames
  preload_row_frames-memory self allocate e =
      elim (Option-cases
        (allocate (self.cube_info.samples * (self.cube_info.plane_elements * 2)))) [
          | inl none_ ↦ absurd (preload_row_frames-refused self allocate none_ e)
          | inr (memory, given) ↦ (memory, given, ground arith)
        ]

  -- If memory comes in the size that is asked for and a read fills exactly its plane, then after a
  -- preparation that succeeds each plane of the cube stands at its place in the prepared frames, as it
  -- was read.
  pub preload_row_frames-HasPlane :
      (self : Impl Metas) (allocate : ℕ → Option (List ℕ)) (frames : List ℕ)
      → ((n : ℕ) (memory : List ℕ) → allocate n ≡ some memory → length memory ≡ n)
      → FillsPlane self.cube self.cube_info.plane_elements
      → (preload_row_frames self allocate).0 ≡ ok tt
      → (preload_row_frames self allocate).1.preloaded_frames ≡ some frames
      → (s : ℕ) → s < self.cube_info.samples
      → HasPlane self.cube self.cube_info.plane_elements frames s
  preload_row_frames-HasPlane self allocate frames sized fills e g s h =
      let (memory, given, same) = preload_row_frames-memory self allocate e in
      preload_from-HasPlane self.cube self.cube_info.plane_elements fills self.cube_info.samples 0
        memory frames (omega (arith, sized _ memory given))
        (preload-frames self memory frames (ap (λ r. r.0) (sym same) ∙ e)
          (ap (λ r. r.1.preloaded_frames) (sym same) ∙ g))
        (λ t lt. absurd (omega arith)) s (omega arith)
