-- ===== src/Pool/Ownership.antt =====
-- Who holds the buffers: `recycle_buffer` keeps the pool well formed and quiet.
use pipewireao_spa_plugin_fi.Base.{
  ℕ, ◌≤◌, ◌<◌, ◌≡◌, ◌≢◌, refl, sym, ap, ◌∙◌, ◌⊎◌, inl, inr, Bool, true, false, Option, none, some,
  arith, get_elem?, set, get_elem?-lt, Option-cases, length-set, get_elem?-set_cases,
  length-le-of_none, Bool-cases,
}
use pipewireao_spa_plugin_fi.Errno.{Result, ok, err, eproto}
use pipewireao_spa_plugin_fi.Pool.{
  BufferState, available, producer, published, Slot, Pool, Io, n_buffers, hint_after, mark, recycle,
  is_have_data,
}
use pipewireao_spa_plugin_fi.Pool.Take.{IsPool}

published_or_not : (b : BufferState) → (b ≡ published) ⊎ (b ≢ published)
published_or_not available = inr (λ e. cc)
published_or_not producer = inr (λ e. cc)
published_or_not published = inl refl

module _ {Metas : Type 0} where
  -- A slot stored again at its own index, with the search going on behind it.
  pub replaced-IsPool :
      (p : Pool Metas) (id : ℕ) (s s' : Slot Metas)
      → IsPool p
      → get_elem? p.slots id ≡ some s
      → s'.id ≡ s.id
      → IsPool (record { slots = set p.slots id s'; scan_hint = hint_after p id })
  unfolding hint_after
  replaced-IsPool p id s s' v found same =
      let at = get_elem?-lt p.slots id found in
      record {
        few = omega (arith, length-set p.slots id s', v.few);
        hint_inside = ground (arith, length-set p.slots id s', v.few);
        own_id = λ i t e. elim (get_elem?-set_cases p.slots id i s' at e) [
          | inl (here, eq) ↦ ap (λ x. x.id) eq ∙ same ∙ v.own_id id s found ∙ here
          | inr (_, old) ↦ v.own_id i t old
        ];
      }

  pub mark-IsPool :
      (p : Pool Metas) (id : ℕ) (s : Slot Metas) (state : BufferState)
      → IsPool p
      → get_elem? p.slots id ≡ some s
      → IsPool (mark p id s state)
  unfolding mark
  mark-IsPool p id s state v found =
      replaced-IsPool p id s (record s { state = state }) v found refl

  -- No buffer is left with the producer.
  abbrev pub IsQuiet : Pool Metas → Type 0
  IsQuiet p = (i : ℕ) (s : Slot Metas) → get_elem? p.slots i ≡ some s → s.state ≢ producer

  pub replaced-IsQuiet :
      (p : Pool Metas) (id hint : ℕ) (s' : Slot Metas)
      → IsQuiet p
      → id < n_buffers p
      → s'.state ≢ producer
      → IsQuiet (record { slots = set p.slots id s'; scan_hint = hint })
  replaced-IsQuiet p id hint s' q lt ne i t e = elim (get_elem?-set_cases p.slots id i s' lt e) [
    | inl (_, eq) ↦ λ h. ne (sym (ap (λ x. x.state) eq) ∙ h)
    | inr (_, old) ↦ q i t old
  ]

  -- The two ways in which `recycle_buffer` refuses a buffer that the host hands back.
  abbrev pub IsForeign : Pool Metas → ℕ → Type 0
  IsForeign p id =
      (n_buffers p ≤ id)
      ⊎ ((s : Slot Metas) × (get_elem? p.slots id ≡ some s) × (s.state ≢ published))

  -- The results of `recycle_buffer`.
  pub data Recycled (io : Option Io) (p : Pool Metas) (r : Result Bool × (Option Io × Pool Metas))
      : Type 0 where
    nothing :
        (io ≡ none)
          ⊎ ((i : Io) × (io ≡ some i) × ((is_have_data i.status ≡ true) ⊎ (i.buffer_id ≡ none)))
        → r ≡ (ok false, (io, p))
        → Recycled io p r
    refused :
        (i : Io) (id : ℕ)
        → io ≡ some i
        → i.buffer_id ≡ some id
        → is_have_data i.status ≡ false
        → IsForeign p id
        → r ≡ (err eproto, (io, p))
        → Recycled io p r
    returned :
        (i : Io) (id : ℕ) (s : Slot Metas)
        → io ≡ some i
        → i.buffer_id ≡ some id
        → is_have_data i.status ≡ false
        → get_elem? p.slots id ≡ some s
        → s.state ≡ published
        → r ≡ (ok true, (some (record i { buffer_id = none }), mark p id s available))
        → Recycled io p r

  module _ (i : Io) (p : Pool Metas) where
    pub recycle-unread : is_have_data i.status ≡ true → recycle (some i) p ≡ (ok false, (some i, p))
    unfolding recycle
    recycle-unread h = ground arith

    recycle-unnamed :
        is_have_data i.status ≡ false
        → i.buffer_id ≡ none
        → recycle (some i) p ≡ (ok false, (some i, p))
    unfolding recycle
    recycle-unnamed h e = ground arith

    recycle-outside :
        (id : ℕ)
        → is_have_data i.status ≡ false
        → i.buffer_id ≡ some id
        → get_elem? p.slots id ≡ none
        → recycle (some i) p ≡ (err eproto, (some i, p))
    unfolding recycle
    recycle-outside id h e missing = ground arith

    module _ (id : ℕ) (s : Slot Metas) (h : is_have_data i.status ≡ false) where
      recycle-unpublished :
          i.buffer_id ≡ some id
          → get_elem? p.slots id ≡ some s
          → s.state ≢ published
          → recycle (some i) p ≡ (err eproto, (some i, p))
      unfolding recycle
      recycle-unpublished e found w = ground arith

      recycle-returned :
          i.buffer_id ≡ some id
          → get_elem? p.slots id ≡ some s
          → s.state ≡ published
          → recycle (some i) p
            ≡ (ok true, (some (record i { buffer_id = none }), mark p id s available))
      unfolding recycle
      recycle-returned e found w = ground arith

  -- `recycle_buffer` takes a buffer back exactly if the host has read the output and names a
  -- published buffer; it refuses any other name, and changes nothing in all other cases.
  pub recycle-Recycled : (io : Option Io) (p : Pool Metas) → Recycled io p (recycle io p)
  recycle-Recycled none p = nothing (inl refl) (unfold recycle in refl)
  recycle-Recycled (some i) p = elim (Bool-cases (is_have_data i.status)) [
    | inl h ↦ nothing (inr (i, refl, inl h)) (recycle-unread i p h)
    | inr h ↦ elim (Option-cases i.buffer_id) [
      | inl e ↦ nothing (inr (i, refl, inr e)) (recycle-unnamed i p h e)
      | inr (id, e) ↦ elim (Option-cases (get_elem? p.slots id)) [
        | inl missing ↦
            refused i id refl e h (inl (length-le-of_none p.slots id missing))
              (recycle-outside i p id h e missing)
        | inr (s, found) ↦ elim (published_or_not s.state) [
          | inl w ↦ returned i id s refl e h found w (recycle-returned i p id s h e found w)
          | inr w ↦
              refused i id refl e h (inr (s, found, w)) (recycle-unpublished i p id s h e found w)
        ]
      ]
    ]
  ]

  -- Recycling keeps the pool well formed, and leaves no buffer with the producer that was not there.
  pub recycle-keeps :
      (io : Option Io) (p : Pool Metas)
      → IsPool p
      → IsQuiet p
      → IsPool (recycle io p).1.1 × IsQuiet (recycle io p).1.1
  unfolding mark
  recycle-keeps io p v q = elim (recycle-Recycled io p) [
    | nothing _ e ↦ rw e (v, q)
    | refused _ _ _ _ _ _ e ↦ rw e (v, q)
    | returned i id s _ _ _ found _ e ↦ rw e (
      mark-IsPool p id s available v found,
      replaced-IsQuiet p id (hint_after p id) (record s { state = available }) q
          (get_elem?-lt p.slots id found) (λ h. cc),
    )
  ]

  pub recycle-n_buffers :
      (io : Option Io) (p : Pool Metas) → n_buffers (recycle io p).1.1 ≡ n_buffers p
  unfolding mark
  recycle-n_buffers io p = elim (recycle-Recycled io p) [
    | nothing _ e ↦ ap (λ r. n_buffers r.1.1) e
    | refused _ _ _ _ _ _ e ↦ ap (λ r. n_buffers r.1.1) e
    | returned i id s _ _ _ found _ e ↦
        ap (λ r. n_buffers r.1.1) e ∙ length-set p.slots id (record s { state = available })
  ]
