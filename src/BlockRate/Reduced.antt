-- ===== src/BlockRate/Reduced.antt =====
-- `block_rate`: the rate of blocks is the exact product, in lowest terms.
use pipewireao_spa_plugin_fi.Base.{
  ℕ, ◌*◌, ◌/◌, ◌≤◌, ◌<◌, ◌≡◌, ◌≢◌, sym, ap, ◌∙◌, ◌⊎◌, inl, inr, arith, u64, u32_max, ℕ_discrete,
}
use Prim.Native.Nat.{◌∣◌}
use mathlib.Core.Path.{subst}
use native.Mathlib.Nat.{
  div-mul_cancel, mul-dvd-mul_right, dvd_of_mul-dvd-mul_right, eq-one_of_dvd-one, pos_of_dvd_of_pos,
  mul-le-mul,
}
use pipewireao_spa_plugin_fi.Errno.{ok, err, eoverflow}
use pipewireao_spa_plugin_fi.Rate.{Fraction, IsRate}
use pipewireao_spa_plugin_fi.BlockRate.{greatest_common_divisor, block_rate}
use pipewireao_spa_plugin_fi.BlockRate.Divisor.{IsGreatest, greatest_common_divisor-IsGreatest}

-- The rate of `blocks` blocks a frame.
pub record IsBlockRate (frame_rate : Fraction) (blocks : ℕ) (rate : Fraction) : Type 0 where
  pub num_range : (0 < rate.num) × (rate.num ≤ u32_max)
  pub denom_range : (0 < rate.denom) × (rate.denom ≤ u32_max)
  pub exact : rate.num * frame_rate.denom ≡ frame_rate.num * blocks * rate.denom
  pub lowest : (k : ℕ) → k ∣ rate.num → k ∣ rate.denom → k ≡ 1

swap : (a b g : ℕ) → a * (b * g) ≡ a * g * b
swap a b g = omega arith

module _ (left right g : ℕ) (v : IsGreatest left right g) (pos : 0 < right) where
  g_pos : 0 < g
  g_pos = pos_of_dvd_of_pos v.divides_right pos

  same_ratio : left / g * right ≡ left * (right / g)
  same_ratio =
      let whole = div-mul_cancel g v.divides_left in
      let part = div-mul_cancel g v.divides_right in
      ap (λ x. left / g * x) (sym part)
      ∙ swap (left / g) (right / g) g
      ∙ ap (λ x. x * (right / g)) whole

  coprime : (k : ℕ) → k ∣ left / g → k ∣ right / g → k ≡ 1
  coprime k p q =
      let in_left : k * g ∣ left =
        subst (λ x. k * g ∣ x) (div-mul_cancel g v.divides_left) (mul-dvd-mul_right k p g) in
      let in_right : k * g ∣ right =
        subst (λ x. k * g ∣ x) (div-mul_cancel g v.divides_right) (mul-dvd-mul_right k q g) in
      let in_g : k * g ∣ 1 * g =
        subst (λ x. k * g ∣ x) (omega arith) (v.greatest (k * g) in_left in_right) in
      eq-one_of_dvd-one (dvd_of_mul-dvd-mul_right k g_pos in_g)

  div-pos : (n : ℕ) → g ∣ n → 0 < n → 0 < n / g
  div-pos n d h = elim (ℕ_discrete (n / g) 0) [
    | yes e ↦ absurd (omega (arith, div-mul_cancel g d, ap (λ x. x * g) e))
    | no ne ↦ omega arith
  ]

  div-le : (n : ℕ) → n / g ≤ n
  div-le n = omega arith

module _ (frame_rate : Fraction) (blocks : ℕ) where
  abbrev numerator : ℕ
  numerator = u64 (frame_rate.num * blocks)

  abbrev divisor : ℕ
  divisor = greatest_common_divisor numerator frame_rate.denom

  block_rate-cases :
      ((block_rate frame_rate blocks ≡ err eoverflow)
        × ((numerator / divisor ≡ 0)
            ⊎ (u32_max < numerator / divisor)
            ⊎ (frame_rate.denom / divisor ≡ 0)
            ⊎ (u32_max < frame_rate.denom / divisor)))
      ⊎ ((block_rate frame_rate blocks
            ≡ ok (record { num = numerator / divisor; denom = frame_rate.denom / divisor }))
          × (numerator / divisor ≢ 0)
          × (numerator / divisor ≤ u32_max)
          × (frame_rate.denom / divisor ≢ 0)
          × (frame_rate.denom / divisor ≤ u32_max))
  unfolding block_rate
  block_rate-cases = ground arith

  module _ (v : IsRate frame_rate) (some_ : 0 < blocks) (few : blocks ≤ u32_max) where
    numerator-exact : numerator ≡ frame_rate.num * blocks
    numerator-exact = omega (arith, mul-le-mul v.num_word few)

    numerator-pos : 0 < numerator
    numerator-pos = omega (arith, numerator-exact, mul-le-mul v.num_pos some_)

    too_large :
        u32_max < numerator / divisor
        → u32_max
          < frame_rate.num
            * blocks
            / greatest_common_divisor (frame_rate.num * blocks) frame_rate.denom
    too_large h =
        subst (λ x. u32_max < x / greatest_common_divisor x frame_rate.denom) numerator-exact h

    -- `block_rate` gives the exact rate of the blocks in lowest terms, with a numerator and a denominator that fit
    -- in their words; it fails only if the numerator of the rate in lowest terms does not fit.
    pub block_rate-IsBlockRate :
        ((block_rate frame_rate blocks ≡ err eoverflow)
          × (u32_max
              < frame_rate.num
                * blocks
                / greatest_common_divisor (frame_rate.num * blocks) frame_rate.denom))
        ⊎ ((r : Fraction) × (block_rate frame_rate blocks ≡ ok r) × IsBlockRate frame_rate blocks r)
    block_rate-IsBlockRate =
        let w = greatest_common_divisor-IsGreatest numerator frame_rate.denom in
        let pos_n =
          div-pos numerator frame_rate.denom divisor w v.denom_pos numerator w.divides_left
            numerator-pos in
        let pos_d =
          div-pos numerator frame_rate.denom divisor w v.denom_pos frame_rate.denom w.divides_right
            v.denom_pos in
        elim block_rate-cases [
          | inl (e, why) ↦ inl (
            e,
            too_large (
                omega (
                  arith,
                  div-le numerator frame_rate.denom divisor w v.denom_pos frame_rate.denom,
                  v.denom_word,
                )),
          )
          | inr (e, ne, le, ne', le') ↦ inr (
            _,
            e,
            record {
              num_range = (omega arith, le);
              denom_range = (omega arith, le');
              exact =
                  same_ratio numerator frame_rate.denom divisor w v.denom_pos
                  ∙ ap (λ x. x * (frame_rate.denom / divisor)) numerator-exact;
              lowest = coprime numerator frame_rate.denom divisor w v.denom_pos;
            },
          )
        ]
