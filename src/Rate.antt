-- ===== src/Rate.antt =====
-- `struct spa_fraction` as the source uses it, and the rate arithmetic of source.c: the start of a
-- frame as an offset from the epoch, and the frame that is due after an elapsed time.
use pipewireao_spa_plugin_fi.Base.{
  ℕ, ◌+◌, ◌*◌, ◌/◌, ◌^◌, ◌≤◌, ◌<◌, ◌≡◌, ap, arith, u128, nsec_per_sec, u32_max,
}
use native.Mathlib.Nat.{zero-div, mul-le-mul_left, mul_assoc, div-lt_iff_lt-mul, le-div_iff_mul-le}
use pipewireao_spa_plugin_fi.Base.Division.{
  start-le_of_due, le-start_of_not_due, start_step_le, start_step_ge, start_mono,
}

pub record Fraction : Type 0 where
  pub num : ℕ
  pub denom : ℕ

-- `(__uint128_t)sequence * SPA_NSEC_PER_SEC * denom / num`
unfoldable pub frame_offset : Fraction → ℕ → ℕ
frame_offset r sequence = u128 (u128 (sequence * nsec_per_sec) * r.denom) / r.num

-- `elapsed * num / ((__uint128_t)SPA_NSEC_PER_SEC * denom)`
unfoldable pub due_frame : Fraction → ℕ → ℕ
due_frame r elapsed = u128 (elapsed * r.num) / u128 (nsec_per_sec * r.denom)

-- What `parse_rate` accepts: a positive fraction of at most one frame each nanosecond.
pub record IsRate (r : Fraction) : Type 0 where
  pub num_pos : 0 < r.num
  pub num_word : r.num ≤ u32_max
  pub denom_pos : 0 < r.denom
  pub denom_word : r.denom ≤ u32_max
  pub period_pos : r.num ≤ nsec_per_sec * r.denom

u128-exact : (x : ℕ) → x < 2 ^ 128 → u128 x ≡ x
u128-exact x h = omega arith

-- A 64-bit factor, a second and a 32-bit factor stay below 2 ^ 128.
product-lt : (s d : ℕ) → s < 2 ^ 64 → d ≤ u32_max → s * nsec_per_sec * d < 2 ^ 128
product-lt s d h k = omega (arith, mul-le-mul_left (s * nsec_per_sec) k)

module _ (r : Fraction) (v : IsRate r) where
  pub period-pos : 0 < nsec_per_sec * r.denom
  period-pos = omega (arith, v.denom_pos)

  -- The 128-bit products of the code never wrap on 64-bit sequences and times.
  pub frame_offset-exact :
      (s : ℕ) → s < 2 ^ 64 → frame_offset r s ≡ s * (nsec_per_sec * r.denom) / r.num
  unfolding frame_offset
  frame_offset-exact s h =
      rw
        (
          u128-exact (s * nsec_per_sec) (omega arith),
          u128-exact (s * nsec_per_sec * r.denom) (product-lt s r.denom h v.denom_word),
        )
        (ap (λ x. x / r.num) (mul_assoc s nsec_per_sec r.denom))

  pub frame_offset-zero : frame_offset r 0 ≡ 0
  frame_offset-zero = omega (arith, frame_offset-exact 0 (omega arith), zero-div r.num)

  pub due_frame-exact : (e : ℕ) → e < 2 ^ 64 → due_frame r e ≡ e * r.num / (nsec_per_sec * r.denom)
  unfolding due_frame
  due_frame-exact e h = rw (
    u128-exact (e * r.num) (omega (arith, mul-le-mul_left e v.num_word)),
    u128-exact (nsec_per_sec * r.denom) (omega (arith, v.denom_word)),
  )

  pub due_frame-le : (e : ℕ) → e < 2 ^ 64 → due_frame r e ≤ e
  due_frame-le e h = rw (due_frame-exact e h) (
      omega (
        arith,
        (div-lt_iff_lt-mul {k = nsec_per_sec * r.denom} {x = e * r.num} {y = e + 1} period-pos).1
            (omega (arith, mul-le-mul_left e v.period_pos, v.denom_pos)),
      ))

  -- Frames start at least a nanosecond apart.
  pub le-frame_offset : (s : ℕ) → s < 2 ^ 64 → s ≤ frame_offset r s
  le-frame_offset s h = rw (frame_offset-exact s h) (
      (le-div_iff_mul-le {k = r.num} {x = s} {y = s * (nsec_per_sec * r.denom)} v.num_pos).1
        (mul-le-mul_left s v.period_pos))

  -- A frame that is due has started.
  pub frame_offset-le_of_due : (s e : ℕ) → e < 2 ^ 64 → s ≤ due_frame r e → frame_offset r s ≤ e
  frame_offset-le_of_due s e h k = rw (frame_offset-exact s (omega (arith, due_frame-le e h))) (
      start-le_of_due (nsec_per_sec * r.denom) r.num period-pos v.num_pos s e
        (rw (due_frame-exact e h) at k))

  -- A frame that is not due starts no earlier than now.
  pub le-frame_offset_of_not_due :
      (s e : ℕ) → e < 2 ^ 64 → s < 2 ^ 64 → due_frame r e < s → e ≤ frame_offset r s
  le-frame_offset_of_not_due s e h hs k = rw (frame_offset-exact s hs) (
      le-start_of_not_due (nsec_per_sec * r.denom) r.num period-pos v.num_pos s e
        (rw (due_frame-exact e h) at k))

  pub frame_offset_step_le :
      (s : ℕ) → s + 1 < 2 ^ 64 → frame_offset r (s + 1) ≤ frame_offset r s + nsec_per_sec * r.denom
  frame_offset_step_le s h =
      rw (frame_offset-exact s (omega arith), frame_offset-exact (s + 1) h)
        (start_step_le (nsec_per_sec * r.denom) r.num period-pos v.num_pos s)

  -- A time that fits in one period fits between the starts of two frames.
  pub frame_offset_step_ge :
      (s t : ℕ)
      → s + 1 < 2 ^ 64
      → t * r.num ≤ nsec_per_sec * r.denom
      → frame_offset r s + t ≤ frame_offset r (s + 1)
  frame_offset_step_ge s t h k =
      rw (frame_offset-exact s (omega arith), frame_offset-exact (s + 1) h)
        (start_step_ge (nsec_per_sec * r.denom) r.num period-pos v.num_pos s t k)

  pub frame_offset_mono : (s t : ℕ) → s ≤ t → t < 2 ^ 64 → frame_offset r s ≤ frame_offset r t
  frame_offset_mono s t h k =
      rw (frame_offset-exact s (omega arith), frame_offset-exact t k)
        (start_mono (nsec_per_sec * r.denom) r.num period-pos v.num_pos s t h)
