-- ===== src/Base/Division.antt =====
-- Facts on products and quotients that the schedules need: a frame of number s starts s * D / n
-- nanoseconds after the epoch, and s is due after e nanoseconds if s ≤ e * n / D.
use Prim.Native.Nat.{ℕ, ◌+◌, ◌*◌, ◌/◌, ◌≤◌, ◌<◌}
use native.Mathlib.Nat.{
  le-div_iff_mul-le, div-lt_iff_lt-mul, div-mul-le_self, lt-div-mul-add, mul-le-mul_right,
  mul-le-mul_left,
}
use native.Mathlib.Omega.{arith}

module _ (D n : ℕ) (hD : 0 < D) (hn : 0 < n) where
  pub start-le_of_due : (s e : ℕ) → s ≤ e * n / D → s * D / n ≤ e
  start-le_of_due s e h =
      -- s * D ≤ e * n, so the quotient by n stays below e + 1
      omega (
        arith,
        (div-lt_iff_lt-mul {k = n} {x = s * D} {y = e + 1} hn).1
            (omega (arith, (le-div_iff_mul-le {k = D} {x = s} {y = e * n} hD).0 h)),
      )

  pub le-start_of_not_due : (s e : ℕ) → e * n / D < s → e ≤ s * D / n
  le-start_of_not_due s e h =
      (le-div_iff_mul-le {k = n} {x = e} {y = s * D} hn).1
        (omega (arith, (div-lt_iff_lt-mul {k = D} {x = e * n} {y = s} hD).0 h))

  pub start_step_le : (s : ℕ) → (s + 1) * D / n ≤ s * D / n + D
  start_step_le s = omega (
    arith,
    (div-lt_iff_lt-mul {k = n} {x = (s + 1) * D} {y = s * D / n + D + 1} hn).1
        (omega (arith, lt-div-mul-add {a = s * D} hn, mul-le-mul_left {m = 1} {n = n} D hn)),
  )

  pub start_step_ge : (s r : ℕ) → r * n ≤ D → s * D / n + r ≤ (s + 1) * D / n
  start_step_ge s r h =
      (le-div_iff_mul-le {k = n} {x = s * D / n + r} {y = (s + 1) * D} hn).1
        (omega (arith, div-mul-le_self (s * D) n))

  pub start_mono : (s t : ℕ) → s ≤ t → s * D / n ≤ t * D / n
  start_mono s t h =
      (le-div_iff_mul-le {k = n} {x = s * D / n} {y = t * D} hn).1
        (omega (arith, div-mul-le_self (s * D) n, mul-le-mul_right D h))
