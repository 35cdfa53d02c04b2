-- ===== src/Pool/Held.antt =====
-- The pool while the producer holds one buffer, between `take_buffer` and the end of a pass.
use pipewireao_spa_plugin_fi.Base.{
  ℕ, ◌≤◌, ◌<◌, ◌≡◌, ◌≢◌, refl, sym, ap, ◌∙◌, inl, inr, Option, none, some, arith, get_elem?, set,
  get_elem?-lt, get_elem?-set_self, length-set, get_elem?-set_cases,
}
use mathlib.Core.Path.{subst₂}
use pipewireao_spa_plugin_fi.ImageFrame.{Buffer}
use pipewireao_spa_plugin_fi.Pool.{
  available, producer, Slot, Pool, n_buffers, hint_after, mark, slot_index, take, give_back,
}
use pipewireao_spa_plugin_fi.Pool.Take.{IsPool, take-Taken}
use pipewireao_spa_plugin_fi.Pool.Ownership.{IsQuiet, mark-IsPool}

none-some :
    {Metas : Type 0} {p q : Pool Metas} {i : ℕ}
    → ◌≡◌ {A = Option ℕ × Pool Metas} (none, p) (some i, q)
    → ⊥
none-some e = cc

some-none :
    {Metas : Type 0} {p q : Pool Metas} {i : ℕ}
    → ◌≡◌ {A = Option ℕ × Pool Metas} (some i, p) (none, q)
    → ⊥
some-none e = cc

some-eq :
    {Metas : Type 0} {p q : Pool Metas} {i j : ℕ}
    → ◌≡◌ {A = Option ℕ × Pool Metas} (some i, p) (some j, q)
    → (i ≡ j) × (p ≡ q)
some-eq e = (cc, cc)

module _ {Metas : Type 0} where
  -- Only the buffer at `i` may be with the producer.
  abbrev pub IsQuietBut : Pool Metas → ℕ → Type 0
  IsQuietBut p i =
      (j : ℕ) (s : Slot Metas) → i ≢ j → get_elem? p.slots j ≡ some s → s.state ≢ producer

  -- The buffer that was taken is given away again, to the host or to the pool.
  pub settled :
      (p : Pool Metas) (i hint : ℕ) (s s' : Slot Metas)
      → IsPool p
      → IsQuietBut p i
      → get_elem? p.slots i ≡ some s
      → s'.id ≡ s.id
      → s'.state ≢ producer
      → hint < n_buffers p
      → let p' : Pool Metas = record { slots = set p.slots i s'; scan_hint = hint } in
        IsPool p' × IsQuiet p'
  settled p i hint s s' v q found same ne lt =
      let at = get_elem?-lt p.slots i found in
      (
        record {
          few = omega (arith, length-set p.slots i s', v.few);
          hint_inside = inl (omega (arith, length-set p.slots i s'));
          own_id = λ j t e. elim (get_elem?-set_cases p.slots i j s' at e) [
            | inl (here, eq) ↦ ap (λ x. x.id) eq ∙ same ∙ v.own_id i s found ∙ here
            | inr (_, old) ↦ v.own_id j t old
          ];
        },
        λ j t e. elim (get_elem?-set_cases p.slots i j s' at e) [
          | inl (_, eq) ↦ λ h. ne (sym (ap (λ x. x.state) eq) ∙ h)
          | inr (off, old) ↦ q j t off old
        ],
      )

  pub hint_after-lt :
      (p : Pool Metas) (i : ℕ) → n_buffers p ≤ 64 → i < n_buffers p → hint_after p i < n_buffers p
  unfolding hint_after
  hint_after-lt p i few h = ground arith

  -- `return_buffer`, with what was stored in the buffer meanwhile.
  pub give_back-settled :
      (p : Pool Metas) (i : ℕ) (s : Slot Metas) (b : Option (Buffer Metas))
      → IsPool p
      → IsQuietBut p i
      → get_elem? p.slots i ≡ some s
      → IsPool (give_back p i (record s { buffer = b }))
        × IsQuiet (give_back p i (record s { buffer = b }))
  unfolding give_back
  give_back-settled p i s b v q found =
      settled p i (hint_after p s.id) s (record s { buffer = b; state = available }) v q found refl
        (λ h. cc)
        (hint_after-lt p s.id v.few
          (omega (arith, v.own_id i s found, get_elem?-lt p.slots i found)))

  -- The pool while the producer holds the buffer at `i`.
  pub record IsHeld (p : Pool Metas) (i : ℕ) : Type 0 where
    pub pool_ok : IsPool p
    pub quiet_but : IsQuietBut p i
    pub hint : p.scan_hint < n_buffers p
    pub held : (s : Slot Metas) × (get_elem? p.slots i ≡ some s)

  mark-IsHeld :
      (p : Pool Metas) (i : ℕ) (s : Slot Metas)
      → IsPool p
      → IsQuiet p
      → get_elem? p.slots i ≡ some s
      → IsHeld (mark p i s producer) i
  unfolding mark
  mark-IsHeld p i s v q found =
      let at = get_elem?-lt p.slots i found in
      let s' : Slot Metas = record s { state = producer } in
      record {
        pool_ok = mark-IsPool p i s producer v found;
        quiet_but = λ j t ne e. elim (get_elem?-set_cases p.slots i j s' at e) [
          | inl (here, _) ↦ absurd (ne here)
          | inr (_, old) ↦ q j t old
        ];
        hint = omega (arith, length-set p.slots i s', hint_after-lt p i v.few at);
        held = (s', get_elem?-set_self p.slots i s' at);
      }

  -- After `take_buffer` only the buffer that it handed out is with the producer.
  pub take-IsHeld :
      (p : Pool Metas) (i : ℕ) (p' : Pool Metas)
      → IsPool p
      → IsQuiet p
      → take p ≡ (some i, p')
      → IsHeld p' i
  take-IsHeld p i p' v q e = elim (take-Taken p v) [
    | inl (none_, _) ↦ absurd (none-some (sym none_ ∙ e))
    | inr (r, s, t) ↦
        let (index, pool) = some-eq (sym t.result ∙ e) in
        subst₂ IsHeld pool index (mark-IsHeld p (slot_index p r) s v q t.found)
  ]

  -- A failed `take_buffer` changes nothing.
  pub take-none : (p p' : Pool Metas) → IsPool p → take p ≡ (none, p') → p' ≡ p
  take-none p p' v e = elim (take-Taken p v) [
    | inl (same, _) ↦ ap (λ r. r.1) (sym e ∙ same)
    | inr (r, s, t) ↦ absurd (some-none (sym t.result ∙ e))
  ]
