-- ===== src/Base/Store.antt =====
-- A copy into the middle of a memory area, and what it leaves where.
use Prim.Native.Nat.{ℕ, zero, suc, ◌+◌, ◌≤◌}
use mathlib.Core.Path.{◌≡◌, refl, ap, ◌∙◌}
use mathlib.Core.List.{List, [], ◌∷◌, ◌++◌}
use native.Mathlib.Omega.{arith}
use pipewireao_spa_plugin_fi.Base.Sequence.{length, take, drop, length-take, length-drop}

module _ {ℓ} {A : Type ℓ} where
  -- `bytes` stored at `offset`
  unfoldable pub store_at : ℕ → List A → List A → List A
  store_at offset bytes memory =
      take offset memory ++ (bytes ++ drop (offset + length bytes) memory)

  take-append : (b r : List A) → take (length b) (b ++ r) ≡ b
  take-append [] r = refl
  take-append (x ∷ b) r = ap (λ t. x ∷ t) (take-append b r)

  drop-prefix : (n : ℕ) (xs r : List A) → n ≤ length xs → drop n (take n xs ++ r) ≡ r
  drop-prefix zero xs r h = refl
  drop-prefix (suc n) [] r h = absurd (omega arith)
  drop-prefix (suc n) (x ∷ xs) r h = drop-prefix n xs r (omega arith)

  take-prefix :
      (n m : ℕ) (xs r : List A) → n ≤ m → m ≤ length xs → take n (take m xs ++ r) ≡ take n xs
  take-prefix zero m xs r h k = refl
  take-prefix (suc n) zero xs r h k = absurd (omega arith)
  take-prefix (suc n) (suc m) [] r h k = absurd (omega arith)
  take-prefix (suc n) (suc m) (x ∷ xs) r h k =
      ap (λ t. x ∷ t) (take-prefix n m xs r (omega arith) (omega arith))

  slice-prefix :
      (o n m : ℕ) (xs r : List A)
      → o + n ≤ m
      → m ≤ length xs
      → take n (drop o (take m xs ++ r)) ≡ take n (drop o xs)
  slice-prefix zero n m xs r h k = take-prefix n m xs r (omega arith) k
  slice-prefix (suc o) n zero xs r h k = absurd (omega arith)
  slice-prefix (suc o) n (suc m) [] r h k = absurd (omega arith)
  slice-prefix (suc o) n (suc m) (x ∷ xs) r h k =
      slice-prefix o n m xs r (omega arith) (omega arith)

  length-append : (xs ys : List A) → length (xs ++ ys) ≡ length xs + length ys
  length-append [] ys = omega arith
  length-append (x ∷ xs) ys = omega (arith, length-append xs ys)

  module _ (o : ℕ) (b xs : List A) (fits : o + length b ≤ length xs) where
    pub length-store_at : length (store_at o b xs) ≡ length xs
    unfolding store_at
    length-store_at = omega (
      arith,
      length-append (take o xs) (b ++ drop (o + length b) xs),
      length-append b (drop (o + length b) xs),
      length-take o xs,
      length-drop (o + length b) xs,
      fits,
    )

    -- the stored bytes are read back
    pub slice-store_at : take (length b) (drop o (store_at o b xs)) ≡ b
    unfolding store_at
    slice-store_at =
        ap (take (length b)) (drop-prefix o xs (b ++ drop (o + length b) xs) (omega (arith, fits)))
        ∙ take-append b (drop (o + length b) xs)

    -- what lies before them stays
    pub slice-store_before :
        (k n : ℕ) → k + n ≤ o → take n (drop k (store_at o b xs)) ≡ take n (drop k xs)
    unfolding store_at
    slice-store_before k n h =
        slice-prefix k n o xs (b ++ drop (o + length b) xs) h (omega (arith, fits))
