-- ===== src/Source/Parameters/Enumeration.antt =====
-- The enumerations of parameters in spa/plugins/fits/source.c: which results a host gets.
use pipewireao_spa_plugin_fi.Base.{
  ℕ, zero, suc, ◌+◌, ◌≤◌, ◌<◌, ◌^◌, ◌≡◌, refl, sym, ap, ◌∙◌, inl, inr, Option, none, some, List, [],
  ◌∷◌, u32, length, take, drop, get_elem?, get_elem?-lt, length-le-of_none, arith, Option-cases,
}
use pipewireao_spa_plugin_fi.Errno.{Result, ok}
use pipewireao_spa_plugin_fi.Source.Parameters.{Pod, Builder, Item, enumerate}

module _ {ℓ} {A : Type ℓ} where
  drop-past : (xs : List A) (i : ℕ) → length xs ≤ i → drop i xs ≡ []
  drop-past [] zero h = refl
  drop-past [] (suc i) h = refl
  drop-past (x ∷ xs) zero h = elim h [ ]
  drop-past (x ∷ xs) (suc i) h = drop-past xs i (omega arith)

  take-nil : (n : ℕ) → take {A = A} n [] ≡ []
  take-nil zero = refl
  take-nil (suc n) = refl

  drop-at :
      (xs : List A) (i : ℕ) {a : A} → get_elem? xs i ≡ some a → drop i xs ≡ a ∷ drop (suc i) xs
  drop-at [] i h = cc
  drop-at (x ∷ xs) zero h = cc
  drop-at (x ∷ xs) (suc i) h = drop-at xs i h

-- The pods that a filter lets through, each as it leaves it and with its index.
unfoldable pub selected : (Pod → Option Pod) → ℕ → List Pod → List Item
selected filter i [] = []
selected filter i (pod ∷ pods) =
    let rest = selected filter (suc i) pods in
    elim (filter pod) [ none ↦ rest | some filtered ↦ (i, filtered) ∷ rest ]

module _ (filter : Pod → Option Pod) (i : ℕ) (pods : List Pod) (pod : Pod)
    (at : get_elem? pods i ≡ some pod) where
  selected-skip :
      filter pod ≡ none
      → selected filter i (drop i pods) ≡ selected filter (suc i) (drop (suc i) pods)
  unfolding selected
  selected-skip f = ap (selected filter i) (drop-at pods i at) ∙ rw (f, selected) refl

  selected-emit :
      (filtered : Pod)
      → filter pod ≡ some filtered
      → selected filter i (drop i pods)
        ≡ (i, filtered) ∷ selected filter (suc i) (drop (suc i) pods)
  unfolding selected
  selected-emit filtered f = ap (selected filter i) (drop-at pods i at) ∙ rw (f, selected) refl

module _ (build : ℕ → Result (Option Pod)) (builder : Builder) (pods : List Pod)
    (describes : (i : ℕ) → build i ≡ ok (get_elem? pods i)) where
  module _ (k i num : ℕ) where
    enumerate-end :
        get_elem? pods i ≡ none → enumerate build builder (suc k) i (suc num) ≡ (ok tt, [])
    unfolding enumerate
    enumerate-end h = rw (describes i, h, enumerate) refl

    enumerate-skip :
        (pod : Pod)
        → get_elem? pods i ≡ some pod
        → builder.filter pod ≡ none
        → enumerate build builder (suc k) i (suc num)
          ≡ enumerate build builder k (u32 (i + 1)) (suc num)
    unfolding enumerate
    enumerate-skip pod h f = rw (describes i, h, f, enumerate) refl

    enumerate-emit :
        (pod filtered : Pod)
        → get_elem? pods i ≡ some pod
        → builder.filter pod ≡ some filtered
        → enumerate build builder (suc k) i (suc num) ≡ (
          (enumerate build builder k (u32 (i + 1)) num).0,
          (i, filtered) ∷ (enumerate build builder k (u32 (i + 1)) num).1,
        )
    unfolding enumerate
    enumerate-emit pod filtered h f = rw (describes i, h, f, enumerate) refl

  wrap-none : (i : ℕ) → i < length pods → length pods < 2 ^ 32 → u32 (i + 1) ≡ suc i
  wrap-none i h few = omega arith

  module _ (few : length pods < 2 ^ 32) where
    -- With a round for each pod that is left, and one to find the end, the loop finds them all.
    pub enumerate-selected :
        (k i num : ℕ)
        → length pods < i + k
        → enumerate build builder k i num
          ≡ (ok tt, take num (selected builder.filter i (drop i pods)))
    unfolding selected enumerate
    enumerate-selected zero i num h =
        ap (λ items. (ok tt, items))
          (sym (take-nil num)
            ∙ ap (λ ps. take num (selected builder.filter i ps))
                (sym (drop-past pods i (omega arith))))
    enumerate-selected (suc k) i zero h = refl
    enumerate-selected (suc k) i (suc num) h = elim (Option-cases (get_elem? pods i)) [
      | inl e ↦
          enumerate-end k i num e
          ∙ ap (λ ps. (ok tt, take (suc num) (selected builder.filter i ps)))
              (sym (drop-past pods i (length-le-of_none pods i e)))
      | inr (pod, e) ↦
          let next = wrap-none i (get_elem?-lt pods i e) few in
          elim (Option-cases (builder.filter pod)) [
            | inl f ↦
                enumerate-skip k i num pod e f
                ∙ ap (λ j. enumerate build builder k j (suc num)) next
                ∙ enumerate-selected k (suc i) (suc num) (omega arith)
                ∙ ap (λ items. (ok tt, take (suc num) items))
                    (sym (selected-skip builder.filter i pods pod e f))
            | inr (filtered, f) ↦
                enumerate-emit k i num pod filtered e f
                ∙ ap
                    (λ j. (
                      (enumerate build builder k j num).0,
                      (i, filtered) ∷ (enumerate build builder k j num).1,
                    ))
                    next
                ∙ ap (λ r. (r.0, (i, filtered) ∷ r.1))
                    (enumerate-selected k (suc i) num (omega arith))
                ∙ ap (λ items. (ok tt, take (suc num) items))
                    (sym (selected-emit builder.filter i pods pod e filtered f))
          ]
    ]
