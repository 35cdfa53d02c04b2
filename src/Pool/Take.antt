-- ===== src/Pool/Take.antt =====
-- `take_buffer`: it finds a free buffer whenever there is one, and the first one behind the scan hint.
use pipewireao_spa_plugin_fi.Base.{
  ℕ, zero, suc, ◌+◌, ◌-◌, ◌≤◌, ◌<◌, ◌≡◌, ◌≢◌, refl, ap, ◌⊎◌, inl, inr, false, Option, none, some,
  arith, leb, get_elem?, if◌then◌else◌, u32, dec_lt, get_elem?-exists, ℕ_discrete, Bool-cases,
  Option-cases, length-set,
}
use mathlib.Core.Path.{subst}
use pipewireao_spa_plugin_fi.Pool.{
  BufferState, available, producer, published, is_available, Slot, Pool, n_buffers, mark,
  slot_index, take_from, take,
}

free_or_busy : (b : BufferState) → (b ≡ available) ⊎ (is_available b ≡ false)
free_or_busy available = inl refl
free_or_busy producer = inr refl
free_or_busy published = inr refl

module _ {Metas : Type 0} where
  -- `MAX_BUFFERS` slots at most, each with its own index as its id, and the hint inside the array.
  pub record IsPool (p : Pool Metas) : Type 0 where
    pub few : n_buffers p ≤ 64
    pub hint_inside : (p.scan_hint < n_buffers p) ⊎ ((p.scan_hint ≡ 0) × (n_buffers p ≡ 0))
    pub own_id : (i : ℕ) (s : Slot Metas) → get_elem? p.slots i ≡ some s → s.id ≡ i

  -- The slot at index `i` cannot be taken.
  abbrev pub IsBusy : Pool Metas → ℕ → Type 0
  IsBusy p i = (s : Slot Metas) → get_elem? p.slots i ≡ some s → s.state ≢ available

  -- The slots looked at before round `i` cannot be taken.
  abbrev pub BusyBefore : Pool Metas → ℕ → Type 0
  BusyBefore p i = (j : ℕ) → j < i → IsBusy p (slot_index p j)

  -- `take_buffer` hands out the slot that the search reaches in round `i`, and marks it.
  pub record Taken (p : Pool Metas) (i : ℕ) (s : Slot Metas) (r : Option ℕ × Pool Metas)
      : Type 0 where
    pub inside : i < n_buffers p
    pub found : get_elem? p.slots (slot_index p i) ≡ some s
    pub free : s.state ≡ available
    pub first : BusyBefore p i
    pub result : r ≡ (some (slot_index p i), mark p (slot_index p i) s producer)

  module _ (p : Pool Metas) (k i : ℕ) (s : Slot Metas)
      (found : get_elem? p.slots (slot_index p i) ≡ some s) where
    take_from-free :
        s.state ≡ available
        → take_from (suc k) i p ≡ (some (slot_index p i), mark p (slot_index p i) s producer)
    unfolding take_from
    take_from-free free = ground arith

    take_from-busy : is_available s.state ≡ false → take_from (suc k) i p ≡ take_from k (i + 1) p
    unfolding take_from
    take_from-busy held = ground arith

  pub take_from-n_buffers : (k i : ℕ) (p : Pool Metas) → n_buffers (take_from k i p).1 ≡ n_buffers p
  unfolding take_from mark
  take_from-n_buffers zero i p = refl
  take_from-n_buffers (suc k) i p = elim (Option-cases (get_elem? p.slots (slot_index p i))) [
    | inl e ↦ rw (e, take_from) refl
    | inr (s, e) ↦ elim (Bool-cases (is_available s.state)) [
      | inl f ↦
          rw (e, f, take_from) (length-set p.slots (slot_index p i) (record s { state = producer }))
      | inr f ↦ rw (e, f, take_from) (take_from-n_buffers k (i + 1) p)
    ]
  ]

  pub take-n_buffers : (p : Pool Metas) → n_buffers (take p).1 ≡ n_buffers p
  unfolding take
  take-n_buffers p = take_from-n_buffers (n_buffers p) 0 p

  busy-step :
      (p : Pool Metas) (i : ℕ) (s : Slot Metas)
      → get_elem? p.slots (slot_index p i) ≡ some s
      → is_available s.state ≡ false
      → BusyBefore p i
      → BusyBefore p (i + 1)
  busy-step p i s found held busy j h t at free = elim (ℕ_discrete j i) [
    | yes e ↦ ground (arith, ap (slot_index p) e)
    | no ne ↦ busy j (omega arith) t at free
  ]

  module _ (p : Pool Metas) (v : IsPool p) where
    word : (i : ℕ) → i < n_buffers p → u32 (p.scan_hint + i) ≡ p.scan_hint + i
    word i h = omega (arith, v.few, v.hint_inside)

    pub slot_index-exact :
        (i : ℕ)
        → i < n_buffers p
        → slot_index p i ≡ (
            if leb (n_buffers p) (p.scan_hint + i)
            then p.scan_hint + i - n_buffers p
            else p.scan_hint + i)
    unfolding slot_index
    slot_index-exact i h = rw (word i h)

    pub slot_index-lt : (i : ℕ) → i < n_buffers p → slot_index p i < n_buffers p
    slot_index-lt i h = rw (slot_index-exact i h) (ground (arith, v.hint_inside))

    -- Every index is looked at in some round.
    pub slot_index-onto :
        (id : ℕ) → id < n_buffers p → (i : ℕ) × (i < n_buffers p) × (slot_index p i ≡ id)
    slot_index-onto id h = elim (dec_lt id p.scan_hint) [
      | yes k ↦ (
        id + n_buffers p - p.scan_hint,
        omega (arith, v.hint_inside),
        rw (slot_index-exact (id + n_buffers p - p.scan_hint) (omega (arith, v.hint_inside)))
            (ground (arith, v.hint_inside)),
      )
      | no k ↦ (
        id - p.scan_hint,
        omega arith,
        rw (slot_index-exact (id - p.scan_hint) (omega arith)) (ground arith),
      )
    ]

    take_from-Taken :
        (k i : ℕ)
        → k + i ≡ n_buffers p
        → BusyBefore p i
        → ((take_from k i p ≡ (none, p)) × BusyBefore p (n_buffers p))
          ⊎ ((j : ℕ) × (s : Slot Metas) × Taken p j s (take_from k i p))
    take_from-Taken zero i e busy =
        inl (unfold take_from in refl, subst (BusyBefore p) (omega arith) busy)
    take_from-Taken (suc k) i e busy =
        let (s, found) =
          get_elem?-exists p.slots (slot_index p i) (slot_index-lt i (omega arith)) in
        elim (free_or_busy s.state) [
          | inl free ↦ inr (
            i,
            s,
            record {
              inside = omega arith;
              found = found;
              free = free;
              first = busy;
              result = take_from-free p k i s found free;
            },
          )
          | inr held ↦
              rw (take_from-busy p k i s found held)
                (take_from-Taken k (i + 1) (omega arith) (busy-step p i s found held busy))
        ]

    -- `take_buffer` fails only if every buffer is in use, and then changes nothing; otherwise it hands out
    -- the first free buffer from the scan hint on, round the end of the array, and marks it as held by
    -- the producer.
    pub take-Taken :
        ((take p ≡ (none, p)) × ((id : ℕ) → id < n_buffers p → IsBusy p id))
        ⊎ ((i : ℕ) × (s : Slot Metas) × Taken p i s (take p))
    unfolding take
    take-Taken = elim (take_from-Taken (n_buffers p) 0 (omega arith) (λ j h. elim h [ ])) [
      | inl (e, busy) ↦
          inl (e, λ id h. let (i, lt, eq) = slot_index-onto id h in subst (IsBusy p) eq (busy i lt))
      | inr t ↦ inr t
    ]
