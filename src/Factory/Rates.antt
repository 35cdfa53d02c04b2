-- ===== src/Factory/Rates.antt =====
-- `parse_rate` and `parse_u64` of spa/plugins/fits/source.c, and the texts that `init` prints for them.
use pipewireao_spa_plugin_fi.Base.{
  ℕ, ◌≤◌, ◌≡◌, refl, ap, ◌∙◌, inl, inr, Bool, true, Option, none, some, List, [], ◌∷◌, ◌++◌, arith,
  u64_max, u32_max, Option-cases,
}
use pipewireao_spa_plugin_fi.Errno.{ok}
use pipewireao_spa_plugin_fi.Rate.{Fraction, IsRate}
use pipewireao_spa_plugin_fi.Text.{all_digits, scan_digits, scan_unsigned, print}
use pipewireao_spa_plugin_fi.Text.Decimal.{
  all_digits-print, print-cons, scan_digits-print, scan_unsigned-print, scan_unsigned-print_alone,
  scan_unsigned-word,
}
use pipewireao_spa_plugin_fi.Factory.{
  scan_fraction, scan_whole, check_rate, parse_rate, parse_u64, after_slash, at_end,
}

-- A number that was printed is read back.
parse_u64-digits :
    (text : List ℕ) (n : ℕ) (fallback : ℕ)
    → (c : ℕ) × (rest : List ℕ) × (text ≡ c ∷ rest)
    → all_digits text ≡ true
    → scan_digits 0 text ≡ (n, [])
    → n ≤ u64_max
    → parse_u64 (some text) fallback ≡ ok n
unfolding parse_u64
parse_u64-digits [] n fallback (c, rest, e) digits value h = cc
parse_u64-digits (c ∷ s) n fallback first digits value h = ground (arith, ap (λ r. r.0) value)

pub parse_u64-print : (n fallback : ℕ) → n ≤ u64_max → parse_u64 (some (print n)) fallback ≡ ok n
parse_u64-print n fallback h =
    parse_u64-digits (print n) n fallback (print-cons n) (all_digits-print n)
      (scan_digits-print n h) h

check_rate-IsRate :
    (n d : ℕ) (r : Fraction) → n ≤ u32_max → d ≤ u32_max → check_rate (n, d) ≡ ok r → IsRate r
unfolding check_rate
check_rate-IsRate n d r hn hd e = record {
  num_pos = ground arith;
  num_word = ground arith;
  denom_pos = ground arith;
  denom_word = ground arith;
  period_pos = ground arith;
}

check_rate-ok : (r : Fraction) → IsRate r → check_rate (r.num, r.denom) ≡ ok r
unfolding check_rate
check_rate-ok r v = ground (arith, v.num_pos, v.denom_pos, v.denom_word, v.period_pos)

module _ (unrepresentable : Bool → ℕ → ℕ) where
  at_end-word :
      (text : List ℕ) (n : ℕ) → at_end (scan_unsigned unrepresentable text) ≡ some n → n ≤ u32_max
  unfolding at_end
  at_end-word text n e = elim (Option-cases (scan_unsigned unrepresentable text)) [
    | inl f ↦ ground arith
    | inr ((m, rest), f) ↦ ground (arith, scan_unsigned-word unrepresentable text rest m f)
  ]

  -- Both numbers of a rate are `unsigned int`.
  AreWords : ℕ × ℕ → Type 0
  AreWords (n, d) = (n ≤ u32_max) × (d ≤ u32_max)

  after_slash-AreWords :
      (n : ℕ) (rest : List ℕ) (p : ℕ × ℕ)
      → n ≤ u32_max
      → after_slash unrepresentable n rest ≡ some p
      → AreWords p
  unfolding AreWords after_slash
  after_slash-AreWords n [] (m, d) h e = ground arith
  after_slash-AreWords n (c ∷ s) (m, d) h e =
      elim (Option-cases (at_end (scan_unsigned unrepresentable s))) [
        | inl f ↦ ground arith
        | inr (d', f) ↦ ground (arith, at_end-word s d' f)
      ]

  scan_fraction-AreWords :
      (text : List ℕ) (p : ℕ × ℕ) → scan_fraction unrepresentable text ≡ some p → AreWords p
  unfolding scan_fraction
  scan_fraction-AreWords text p e = elim (Option-cases (scan_unsigned unrepresentable text)) [
    | inl f ↦ ground arith
    | inr ((n, rest), f) ↦
        after_slash-AreWords n rest p (scan_unsigned-word unrepresentable text rest n f)
          (ground arith)
  ]

  scan_whole-AreWords :
      (text : List ℕ) (p : ℕ × ℕ) → scan_whole unrepresentable text ≡ some p → AreWords p
  unfolding scan_whole AreWords
  scan_whole-AreWords text (m, d) e =
      elim (Option-cases (at_end (scan_unsigned unrepresentable text))) [
        | inl f ↦ ground arith
        | inr (n, f) ↦ ground (arith, at_end-word text n f)
      ]

  -- A rate that the factory accepts has a numerator and a denominator that are positive words, and a
  -- period of at least a nanosecond, whatever the text is.
  pub parse_rate-IsRate :
      (text : Option (List ℕ)) (r : Fraction) → parse_rate unrepresentable text ≡ ok r → IsRate r
  unfolding parse_rate AreWords
  parse_rate-IsRate none r e = cc
  parse_rate-IsRate (some text) r e = elim (Option-cases (scan_fraction unrepresentable text)) [
    | inr ((n, d), f) ↦
        let (hn, hd) = scan_fraction-AreWords text (n, d) f in
        check_rate-IsRate n d r hn hd (rw (f, parse_rate) at e)
    | inl f ↦ elim (Option-cases (scan_whole unrepresentable text)) [
      | inr ((n, d), g) ↦
          let (hn, hd) = scan_whole-AreWords text (n, d) g in
          check_rate-IsRate n d r hn hd (rw (f, g, parse_rate) at e)
      | inl g ↦ ground arith
    ]
  ]

  after_slash-print :
      (n d : ℕ) → d ≤ u32_max → after_slash unrepresentable n (b'/' ∷ print d) ≡ some (n, d)
  unfolding after_slash at_end
  after_slash-print n d h = rw (scan_unsigned-print_alone unrepresentable d h, at_end) refl

  scan_fraction-first :
      (text rest : List ℕ) (n : ℕ)
      → scan_unsigned unrepresentable text ≡ some (n, rest)
      → scan_fraction unrepresentable text ≡ after_slash unrepresentable n rest
  unfolding scan_fraction
  scan_fraction-first text rest n e = rw (e, scan_fraction) refl

  scan_fraction-print :
      (n d : ℕ)
      → n ≤ u32_max
      → d ≤ u32_max
      → scan_fraction unrepresentable (print n ++ b'/' ∷ print d) ≡ some (n, d)
  scan_fraction-print n d hn hd =
      scan_fraction-first (print n ++ b'/' ∷ print d) (b'/' ∷ print d) n
        (scan_unsigned-print unrepresentable n (b'/' ∷ print d) hn refl)
      ∙ after_slash-print n d hd

  -- The text that a source reports for its rate is read back as the same rate.
  pub parse_rate-print :
      (r : Fraction)
      → IsRate r
      → parse_rate unrepresentable (some (print r.num ++ b'/' ∷ print r.denom)) ≡ ok r
  unfolding parse_rate
  parse_rate-print r v =
      rw (scan_fraction-print r.num r.denom v.num_word v.denom_word, parse_rate) (check_rate-ok r v)
