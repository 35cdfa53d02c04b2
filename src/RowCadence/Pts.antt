-- ===== src/RowCadence/Pts.antt =====
-- The deadlines of row blocks: `row_frame_start` and `row_block_pts`.
use native.Mathlib.Nat.{
  mul-le-mul_right, mul-add-div, div-eq_of_lt, le-div_iff_mul-le, div-lt_iff_lt-mul,
  div-mul-le_self,
}
use pipewireao_spa_plugin_fi.Base.{
  ℕ, ◌+◌, ◌-◌, ◌*◌, ◌/◌, ◌^◌, ◌≤◌, ◌<◌, ◌≡◌, ap, ◌⊎◌, inl, inr, min, arith, u32, u128, u32_max,
  u64_max, nsec_per_sec,
}
use pipewireao_spa_plugin_fi.Rate.{IsRate, frame_offset, frame_offset_step_ge, frame_offset_mono}
use pipewireao_spa_plugin_fi.RowCadence.{
  RowCadence, saturated_time_add, frame_start, completion, block_pts,
}

-- What the factory and `row_cadence_start` establish: the readout fits in a frame period.
pub record IsReadout (c : RowCadence) : Type 0 where
  pub rate_ok : IsRate c.frame_rate
  pub epoch_word : c.epoch < 2 ^ 64
  pub readout_pos : 0 < c.readout_time_ns
  pub readout_word : c.readout_time_ns < 2 ^ 64
  pub readout_fits : c.readout_time_ns * c.frame_rate.num ≤ nsec_per_sec * c.frame_rate.denom
  pub blocks_pos : 0 < c.blocks_per_frame
  pub blocks_word : c.blocks_per_frame ≤ u32_max

pub saturated_time_add-min :
    (base offset : ℕ) → base < 2 ^ 64 → saturated_time_add base offset ≡ min (base + offset) u64_max
unfolding saturated_time_add
saturated_time_add-min base offset h = ground arith

pub u32-exact : (x : ℕ) → x ≤ u32_max → u32 x ≡ x
u32-exact x h = omega arith

u128-exact : (x : ℕ) → x < 2 ^ 128 → u128 x ≡ x
u128-exact x h = omega arith

div_mono : (k : ℕ) → 0 < k → (x y : ℕ) → x ≤ y → x / k ≤ y / k
div_mono k pos x y h =
    (le-div_iff_mul-le {k = k} {x = x / k} {y = y} pos).1 (omega (arith, div-mul-le_self x k))

-- The start of a frame with no wrap and no saturation.
abbrev pub ideal_start : RowCadence → ℕ → ℕ
ideal_start c s = c.epoch + frame_offset c.frame_rate s

-- Rounded up: `(block + 1) * readout / blocks`.
abbrev pub ideal_completion : RowCadence → ℕ → ℕ
ideal_completion c b = ((b + 1) * c.readout_time_ns + c.blocks_per_frame - 1) / c.blocks_per_frame

module _ (c : RowCadence) (v : IsReadout c) where
  pub frame_start-min : (s : ℕ) → frame_start c s ≡ min (ideal_start c s) u64_max
  unfolding frame_start
  frame_start-min s = saturated_time_add-min c.epoch _ v.epoch_word

  pub completion-exact : (b : ℕ) → b < c.blocks_per_frame → completion c b ≡ ideal_completion c b
  unfolding completion
  completion-exact b h =
      let product =
        mul-le-mul_right {m = b + 1} {n = u32_max} c.readout_time_ns
          (omega (arith, v.blocks_word)) in
      rw (
        u32-exact (b + 1) (omega (arith, v.blocks_word)),
        u128-exact ((b + 1) * c.readout_time_ns) (omega (arith, product, v.readout_word)),
        u128-exact ((b + 1) * c.readout_time_ns + c.blocks_per_frame - 1)
            (omega (arith, product, v.readout_word, v.blocks_word)),
      )

  pub completion-pos : (b : ℕ) → 0 < ideal_completion c b
  completion-pos b =
      (le-div_iff_mul-le {k = c.blocks_per_frame} {x = 1}
          {y = (b + 1) * c.readout_time_ns + c.blocks_per_frame - 1} v.blocks_pos).1
        (omega (arith, v.readout_pos))

  pub completion-le : (b : ℕ) → b < c.blocks_per_frame → ideal_completion c b ≤ c.readout_time_ns
  completion-le b h = omega (
    arith,
    (div-lt_iff_lt-mul {k = c.blocks_per_frame}
          {x = (b + 1) * c.readout_time_ns + c.blocks_per_frame - 1} {y = c.readout_time_ns + 1}
          v.blocks_pos).1
        (omega (
          arith,
          v.blocks_pos,
          mul-le-mul_right {m = b + 1} {n = c.blocks_per_frame} c.readout_time_ns (omega arith),
        )),
  )

  pub completion_mono : (a b : ℕ) → a ≤ b → ideal_completion c a ≤ ideal_completion c b
  completion_mono a b h =
      div_mono c.blocks_per_frame v.blocks_pos _ _
        (omega (arith, mul-le-mul_right {m = a + 1} {n = b + 1} c.readout_time_ns (omega arith)))

  last_numerator :
      (c.blocks_per_frame - 1 + 1) * c.readout_time_ns + c.blocks_per_frame - 1
      ≡ c.blocks_per_frame * c.readout_time_ns + (c.blocks_per_frame - 1)
  last_numerator =
      let whole : c.blocks_per_frame - 1 + 1 ≡ c.blocks_per_frame = omega (arith, v.blocks_pos) in
      rw whole (omega (arith, v.blocks_pos))

  pub completion_last : ideal_completion c (c.blocks_per_frame - 1) ≡ c.readout_time_ns
  completion_last = omega (
    arith,
    ap (λ x. x / c.blocks_per_frame) last_numerator,
    mul-add-div v.blocks_pos c.readout_time_ns (c.blocks_per_frame - 1),
    div-eq_of_lt {n = c.blocks_per_frame - 1} {m = c.blocks_per_frame}
        (omega (arith, v.blocks_pos)),
  )

  pub block_pts-min :
      (s b : ℕ)
      → b < c.blocks_per_frame
      → block_pts c s b ≡ min (ideal_start c s + ideal_completion c b) u64_max
  unfolding block_pts
  block_pts-min s b h = rw (completion-exact b h) (
      omega (
        arith,
        saturated_time_add-min (frame_start c s) (ideal_completion c b)
            (omega (arith, frame_start-min s)),
        frame_start-min s,
      ))

  -- Every block of a frame is due before the next frame starts, and after the frame started.
  pub block_within :
      (s b : ℕ)
      → b < c.blocks_per_frame
      → s + 1 < 2 ^ 64
      → (ideal_start c s < ideal_start c s + ideal_completion c b)
        × (ideal_start c s + ideal_completion c b ≤ ideal_start c (s + 1))
  block_within s b h k = (
    omega (arith, completion-pos b),
    omega (
      arith,
      completion-le b h,
      frame_offset_step_ge c.frame_rate v.rate_ok s c.readout_time_ns k v.readout_fits,
    ),
  )

-- Block `b` of frame `s` is read out before block `d` of frame `t`.
abbrev pub Before : ℕ → ℕ → ℕ → ℕ → Type 0
Before s b t d = (s < t) ⊎ ((s ≡ t) × (b < d))

-- If the readout time fits in one frame period, the deadlines follow the order of readout, across
-- frames too: a block that is read out before another is not due after it.
pub block_pts_mono :
    (c : RowCadence) (s b t d : ℕ)
    → IsReadout c
    → b < c.blocks_per_frame
    → d < c.blocks_per_frame
    → t < 2 ^ 64
    → Before s b t d
    → block_pts c s b ≤ block_pts c t d
block_pts_mono c s b t d v hb hd ht (inl h) = omega (
  arith,
  block_pts-min c v s b hb,
  block_pts-min c v t d hd,
  block_within c v s b hb (omega arith),
  frame_offset_mono c.frame_rate v.rate_ok (s + 1) t (omega arith) ht,
)
block_pts_mono c s b t d v hb hd ht (inr (e, h)) = rw e (
    omega (
      arith,
      block_pts-min c v t b hb,
      block_pts-min c v t d hd,
      completion_mono c v b d (omega arith),
    ))

-- Up to saturation at the end of the clock, each block of a frame is due after the frame starts and
-- within the readout time, and the final block exactly when the readout time is over.
pub block_pts_bounds :
    (c : RowCadence) (s b : ℕ)
    → IsReadout c
    → b < c.blocks_per_frame
    → frame_start c s + c.readout_time_ns ≤ u64_max
    → (frame_start c s < block_pts c s b)
      × (block_pts c s b ≤ frame_start c s + c.readout_time_ns)
      × (block_pts c s (c.blocks_per_frame - 1) ≡ frame_start c s + c.readout_time_ns)
block_pts_bounds c s b v h room = omega (
  arith,
  frame_start-min c v s,
  block_pts-min c v s b h,
  block_pts-min c v s (c.blocks_per_frame - 1) (omega (arith, v.blocks_pos)),
  completion-le c v b h,
  completion-pos c v b,
  completion_last c v,
  v.readout_pos,
)
