-- ===== src/BlockRate/Divisor.antt =====
-- `greatest_common_divisor`: the loop ends with the greatest common divisor.
use pipewireao_spa_plugin_fi.Base.{
  ℕ, zero, suc, ◌+◌, ◌%◌, ◌≤◌, ◌<◌, ◌≡◌, ◌≢◌, sym, arith, ℕ_discrete,
}
use Prim.Native.Nat.{◌∣◌}
use mathlib.Core.Path.{subst}
use native.Mathlib.Nat.{dvd_refl, dvd-zero, dvd-mod_iff, mod-lt}
use pipewireao_spa_plugin_fi.BlockRate.{divisor_from, greatest_common_divisor}

-- `g` divides both numbers, and every number that does divides `g`.
pub record IsGreatest (left right g : ℕ) : Type 0 where
  pub divides_left : g ∣ left
  pub divides_right : g ∣ right
  pub greatest : (k : ℕ) → k ∣ left → k ∣ right → k ∣ g

module _ (k left right : ℕ) where
  divisor_from-done : right ≡ 0 → divisor_from (suc k) left right ≡ left
  unfolding divisor_from
  divisor_from-done e = ground arith

  divisor_from-next :
      right ≢ 0 → divisor_from (suc k) left right ≡ divisor_from k right (left % right)
  unfolding divisor_from
  divisor_from-next ne = ground arith

divisor_from-IsGreatest :
    (k left right : ℕ) → right < k → IsGreatest left right (divisor_from k left right)
divisor_from-IsGreatest zero left right h = absurd (omega arith)
divisor_from-IsGreatest (suc k) left right h = elim (ℕ_discrete right 0) [
  | yes e ↦ rw (divisor_from-done k left right e) (record {
    divides_left = dvd_refl left;
    divides_right = subst (λ x. left ∣ x) (sym e) (dvd-zero left);
    greatest = λ d p q. p;
  })
  | no ne ↦
      let v =
        divisor_from-IsGreatest k right (left % right)
          (omega (arith, mod-lt left {m = right} (omega arith))) in
      rw (divisor_from-next k left right ne) (record {
        divides_left = (dvd-mod_iff _ v.divides_left).0 v.divides_right;
        divides_right = v.divides_left;
        greatest = λ d p q. v.greatest d q ((dvd-mod_iff d q).1 p);
      })
]

-- The loop of `greatest_common_divisor`, round by round, up to the round that finds `right` to be zero.
pub data Loops : ℕ → ℕ → ℕ → ℕ → Type 0 where
  ended : (left : ℕ) → Loops 0 left 0 left
  again :
      (n left right g : ℕ) → right ≢ 0 → Loops n right (left % right) g → Loops (suc n) left right g

divisor_from-Loops :
    (k left right : ℕ)
    → right < k
    → (n : ℕ) × (n ≤ right) × Loops n left right (divisor_from k left right)
divisor_from-Loops zero left right h = absurd (omega arith)
divisor_from-Loops (suc k) left right h = elim (ℕ_discrete right 0) [
  | yes e ↦
      rw (divisor_from-done k left right e)
        (0, omega arith, subst (λ r. Loops 0 left r left) (sym e) (ended left))
  | no ne ↦
      let smaller = mod-lt left {m = right} (omega arith) in
      let (n, few, loops) = divisor_from-Loops k right (left % right) (omega (arith, smaller)) in
      rw (divisor_from-next k left right ne)
        (suc n, omega (arith, smaller, few), again n left right _ ne loops)
]

pub greatest_common_divisor-IsGreatest :
    (left right : ℕ) → IsGreatest left right (greatest_common_divisor left right)
unfolding greatest_common_divisor
greatest_common_divisor-IsGreatest left right =
    divisor_from-IsGreatest (right + 1) left right (omega arith)

-- The loop of `greatest_common_divisor` ends after at most `right` rounds, and its result divides both numbers and is
-- divided by every common divisor.
pub greatest_common_divisor-ends :
    (left right : ℕ)
    → ((n : ℕ) × (n ≤ right) × Loops n left right (greatest_common_divisor left right))
      × IsGreatest left right (greatest_common_divisor left right)
unfolding greatest_common_divisor
greatest_common_divisor-ends left right = (
  divisor_from-Loops (right + 1) left right (omega arith),
  greatest_common_divisor-IsGreatest left right,
)
