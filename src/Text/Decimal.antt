-- ===== src/Text/Decimal.antt =====
-- Decimal numbers: what is printed is read back, with whatever text follows that is no digit.
use pipewireao_spa_plugin_fi.Base.{
  ℕ, zero, suc, ◌+◌, ◌*◌, ◌/◌, ◌%◌, ◌^◌, ◌≤◌, ◌<◌, ◌≡◌, refl, sym, ◌∙◌, ap, Bool, true, false, some,
  List, [], ◌∷◌, ◌++◌, arith, inl, inr, Option-cases, u64_max, u32_max, ◌≢◌, ℕ_discrete,
}
use pipewireao_spa_plugin_fi.Text.{
  is_digit, all_digits, scan_digits, scan_number, skip_space, scan_sign, stored, scan_unsigned,
  digit, print_from, print,
}

-- A text that starts with a digit.
abbrev pub StartsWithDigit : List ℕ → Type 0
StartsWithDigit [] = ⊥
StartsWithDigit (c ∷ s) = is_digit c ≡ true

digit-is_digit : (n : ℕ) → is_digit (digit (n % 10)) ≡ true
digit-is_digit n = ground arith

scan_digits-digit :
    (m n : ℕ) (text : List ℕ)
    → scan_digits m (digit (n % 10) ∷ text) ≡ scan_digits (m * 10 + n % 10) text
unfolding scan_digits
scan_digits-digit m n text = ground arith

-- A text that no digit starts ends a number.
abbrev pub EndsNumber : List ℕ → Type 0
EndsNumber [] = Unit
EndsNumber (c ∷ s) = is_digit c ≡ false

scan_digits-end : (n : ℕ) (text : List ℕ) → EndsNumber text → scan_digits n text ≡ (n, text)
unfolding scan_digits
scan_digits-end n [] h = refl
scan_digits-end n (c ∷ s) h = ground arith

power_step : (k n : ℕ) → n < 10 ^ suc k → n / 10 < 10 ^ k
power_step k n h = omega arith

module _ (text : List ℕ) where
  print_from-zero : (k n : ℕ) → n / 10 ≡ 0 → print_from (suc k) n text ≡ digit (n % 10) ∷ text
  unfolding print_from
  print_from-zero k n h = ground arith

  print_from-suc :
      (k n : ℕ)
      → n / 10 ≢ 0
      → print_from (suc k) n text ≡ print_from k (n / 10) (digit (n % 10) ∷ text)
  unfolding print_from
  print_from-suc k n h = ground arith

-- Reading what was printed gives the number back, and then reads on.
scan_digits-print_from :
    (k n : ℕ) (text : List ℕ)
    → 0 < k
    → n < 10 ^ k
    → scan_digits 0 (print_from k n text) ≡ scan_digits n text
scan_digits-print_from zero n text pos h = absurd (omega arith)
scan_digits-print_from (suc k) n text pos h = elim (ℕ_discrete (n / 10) 0) [
  | yes e ↦
      ap (scan_digits 0) (print_from-zero text k n e)
      ∙ scan_digits-digit 0 n text
      ∙ ap (λ m. scan_digits m text) (omega (arith, e))
  | no ne ↦
      ap (scan_digits 0) (print_from-suc text k n ne)
      ∙ scan_digits-print_from k (n / 10) (digit (n % 10) ∷ text) (more k h ne) (power_step k n h)
      ∙ scan_digits-digit (n / 10) n text
      ∙ ap (λ m. scan_digits m text) (omega arith)
]
  where
    more : (k : ℕ) → n < 10 ^ suc k → n / 10 ≢ 0 → 0 < k
    more zero h ne = absurd (ne (omega arith))
    more (suc k) h ne = omega arith

-- The first digit of what is printed.
FirstDigit : List ℕ → Type 0
FirstDigit text = (m : ℕ) × (rest : List ℕ) × (text ≡ digit (m % 10) ∷ rest)

print_from-FirstDigit :
    (k n m : ℕ) (text : List ℕ) → FirstDigit (print_from k n (digit (m % 10) ∷ text))
unfolding FirstDigit
print_from-FirstDigit zero n m text = (m, text, unfold print_from in refl)
print_from-FirstDigit (suc k) n m text = elim (ℕ_discrete (n / 10) 0) [
  | yes e ↦ (n, digit (m % 10) ∷ text, print_from-zero (digit (m % 10) ∷ text) k n e)
  | no ne ↦
      let (d, rest, same) = print_from-FirstDigit k (n / 10) n (digit (m % 10) ∷ text) in
      (d, rest, print_from-suc (digit (m % 10) ∷ text) k n ne ∙ same)
]

print-FirstDigit : (n : ℕ) (text : List ℕ) → FirstDigit (print_from 20 n text)
unfolding FirstDigit
print-FirstDigit n text = elim (ℕ_discrete (n / 10) 0) [
  | yes e ↦ (n, text, print_from-zero text 19 n e)
  | no ne ↦
      let (d, rest, same) = print_from-FirstDigit 19 (n / 10) n text in
      (d, rest, print_from-suc text 19 n ne ∙ same)
]

-- Printing in front of a text is printing and then the text.
print_from-append :
    (k n : ℕ) (text rest : List ℕ) → print_from k n text ++ rest ≡ print_from k n (text ++ rest)
unfolding print_from
print_from-append zero n text rest = refl
print_from-append (suc k) n text rest =
    ground (arith, print_from-append k (n / 10) (digit (n % 10) ∷ text) rest)

print-append : (n : ℕ) (rest : List ℕ) → print n ++ rest ≡ print_from 20 n rest
unfolding print
print-append n rest = print_from-append 20 n [] rest

all_digits-digit :
    (m : ℕ) (text : List ℕ) → all_digits text ≡ true → all_digits (digit (m % 10) ∷ text) ≡ true
unfolding all_digits
all_digits-digit m text h = ground (arith, digit-is_digit m)

all_digits-print_from :
    (k n : ℕ) (text : List ℕ) → all_digits text ≡ true → all_digits (print_from k n text) ≡ true
unfolding print_from
all_digits-print_from zero n text h = h
all_digits-print_from (suc k) n text h = ground (
  arith,
  all_digits-digit n text h,
  all_digits-print_from k (n / 10) (digit (n % 10) ∷ text) (all_digits-digit n text h),
)

pub all_digits-print : (n : ℕ) → all_digits (print n) ≡ true
unfolding print all_digits
all_digits-print n = all_digits-print_from 20 n [] refl

-- What is printed has a first character.
pub print-cons : (n : ℕ) → (c : ℕ) × (rest : List ℕ) × (print n ≡ c ∷ rest)
unfolding print FirstDigit
print-cons n = let (m, rest, e) = print-FirstDigit n [] in (digit (m % 10), rest, e)

pub scan_digits-print : (n : ℕ) → n ≤ u64_max → scan_digits 0 (print n) ≡ (n, [])
unfolding print
scan_digits-print n h =
    scan_digits-print_from 20 n [] (omega arith) (omega arith) ∙ scan_digits-end n [] tt

scan_number-digit :
    (m : ℕ) (tail : List ℕ)
    → scan_number (digit (m % 10) ∷ tail) ≡ some (scan_digits 0 (digit (m % 10) ∷ tail))
unfolding scan_number
scan_number-digit m tail = rw (digit-is_digit m) refl

scan_number-print :
    (n : ℕ) (rest : List ℕ)
    → n ≤ u64_max
    → EndsNumber rest
    → scan_number (print_from 20 n rest) ≡ some (n, rest)
unfolding FirstDigit
scan_number-print n rest h ends =
    let (m, tail, e) = print-FirstDigit n rest in
    ap scan_number e
    ∙ scan_number-digit m tail
    ∙ ap (λ t. some (scan_digits 0 t)) (sym e)
    ∙ ap some
        (scan_digits-print_from 20 n rest (omega arith) (omega arith) ∙ scan_digits-end n rest ends)

-- A text that starts with a digit has no white space and no sign to skip.
scan_sign-digit :
    (m : ℕ) (tail : List ℕ)
    → scan_sign (skip_space (digit (m % 10) ∷ tail)) ≡ (false, digit (m % 10) ∷ tail)
unfolding scan_sign skip_space
scan_sign-digit m tail = ground arith

scan_sign-print :
    (n : ℕ) (rest : List ℕ)
    → scan_sign (skip_space (print_from 20 n rest)) ≡ (false, print_from 20 n rest)
unfolding FirstDigit
scan_sign-print n rest =
    let (m, tail, e) = print-FirstDigit n rest in
    ap (λ t. scan_sign (skip_space t)) e ∙ scan_sign-digit m tail ∙ ap (λ t. (false, t)) (sym e)

stored-fits :
    (unrepresentable : Bool → ℕ → ℕ) (n : ℕ) → n ≤ u32_max → stored unrepresentable false n ≡ n
unfolding stored
stored-fits unrepresentable n h = ground arith

scan_unsigned-plain :
    (unrepresentable : Bool → ℕ → ℕ) (text rest : List ℕ) (n : ℕ)
    → n ≤ u32_max
    → scan_sign (skip_space text) ≡ (false, text)
    → scan_number text ≡ some (n, rest)
    → scan_unsigned unrepresentable text ≡ some (n, rest)
unfolding scan_unsigned
scan_unsigned-plain unrepresentable text rest n h e f =
    rw (ap (λ s. s.1) e, f, ap (λ s. s.0) e, scan_unsigned)
      (ap (λ m. some (m, rest)) (stored-fits unrepresentable n h))

-- `%u` reads back what `%u` has printed, up to a text that no digit starts.
pub scan_unsigned-print :
    (unrepresentable : Bool → ℕ → ℕ) (n : ℕ) (rest : List ℕ)
    → n ≤ u32_max
    → EndsNumber rest
    → scan_unsigned unrepresentable (print n ++ rest) ≡ some (n, rest)
scan_unsigned-print unrepresentable n rest h ends =
    ap (scan_unsigned unrepresentable) (print-append n rest)
    ∙ scan_unsigned-plain unrepresentable (print_from 20 n rest) rest n h (scan_sign-print n rest)
        (scan_number-print n rest (omega arith) ends)

stored-word :
    (unrepresentable : Bool → ℕ → ℕ) (minus : Bool) (n : ℕ)
    → stored unrepresentable minus n ≤ u32_max
unfolding stored
stored-word unrepresentable minus n = ground arith

-- `%u` stores an `unsigned int`.
pub scan_unsigned-word :
    (unrepresentable : Bool → ℕ → ℕ) (text rest : List ℕ) (n : ℕ)
    → scan_unsigned unrepresentable text ≡ some (n, rest)
    → n ≤ u32_max
unfolding scan_unsigned
scan_unsigned-word unrepresentable text rest n e =
    elim (Option-cases (scan_number (scan_sign (skip_space text)).1)) [
      | inl f ↦ ground arith
      | inr ((m, rest'), f) ↦
          ground (arith, stored-word unrepresentable (scan_sign (skip_space text)).0 m)
    ]

pub scan_unsigned-print_alone :
    (unrepresentable : Bool → ℕ → ℕ) (n : ℕ)
    → n ≤ u32_max
    → scan_unsigned unrepresentable (print n) ≡ some (n, [])
unfolding print
scan_unsigned-print_alone unrepresentable n h =
    scan_unsigned-plain unrepresentable (print_from 20 n []) [] n h (scan_sign-print n [])
      (scan_number-print n [] (omega arith) tt)
