-- ===== src/Pool/Search.antt =====
-- `take_buffer` by the places of the array that its search comes to.
use pipewireao_spa_plugin_fi.Base.{
  ℕ, ◌+◌, ◌<◌, ◌≡◌, ap, ◌⊎◌, inl, inr, Option, none, some, arith, get_elem?, set,
}
use mathlib.Core.Path.{subst}
use pipewireao_spa_plugin_fi.Pool.{
  available, producer, Slot, Pool, n_buffers, mark, hint_after, slot_index, take,
}
use pipewireao_spa_plugin_fi.Pool.Take.{IsPool, IsBusy, take-Taken, slot_index-exact, slot_index-lt}

module _ {Metas : Type 0} where
  -- Round `i` of a search that starts at the scan hint and goes on round the end comes to the place `k`.
  pub record IsPlace (p : Pool Metas) (i k : ℕ) : Type 0 where
    pub in_array : k < n_buffers p
    pub reached : (k ≡ p.scan_hint + i) ⊎ (k + n_buffers p ≡ p.scan_hint + i)

  -- The first free slot of the search was handed out and marked, and the next search starts behind it.
  pub record FirstFree (p : Pool Metas) (k : ℕ) (s : Slot Metas) (r : Option ℕ × Pool Metas)
      : Type 0 where
    pub round : ℕ
    pub few : round < n_buffers p
    pub place : IsPlace p round k
    pub found : get_elem? p.slots k ≡ some s
    pub free : s.state ≡ available
    pub first : (j l : ℕ) → j < round → IsPlace p j l → IsBusy p l
    pub handed : r.0 ≡ some k
    pub marked : r.1.slots ≡ set p.slots k (record s { state = producer })
    pub behind :
        ((k + 1 < n_buffers p) × (r.1.scan_hint ≡ k + 1))
        ⊎ ((k + 1 ≡ n_buffers p) × (r.1.scan_hint ≡ 0))

  module _ (p : Pool Metas) (v : IsPool p) where
    slot_index-IsPlace : (i : ℕ) → i < n_buffers p → IsPlace p i (slot_index p i)
    slot_index-IsPlace i h = record {
      in_array = slot_index-lt p v i h;
      reached = ground (arith, slot_index-exact p v i h);
    }

    IsPlace-slot_index : (i k : ℕ) → i < n_buffers p → IsPlace p i k → slot_index p i ≡ k
    IsPlace-slot_index i k h w =
        ground (arith, slot_index-exact p v i h, w.in_array, w.reached, v.hint_inside)

    behind-place :
        (k : ℕ)
        → k < n_buffers p
        → ((k + 1 < n_buffers p) × (hint_after p k ≡ k + 1))
          ⊎ ((k + 1 ≡ n_buffers p) × (hint_after p k ≡ 0))
    unfolding hint_after
    behind-place k h = ground (arith, v.few)

    -- `take_buffer` fails only if every buffer is in use, and then changes nothing; otherwise it hands out
    -- the first free buffer from the scan hint on, round the end of the array, marks it as held by the
    -- producer, and lets the next search start behind it.
    pub take-FirstFree :
        ((take p ≡ (none, p)) × ((id : ℕ) → id < n_buffers p → IsBusy p id))
        ⊎ ((k : ℕ) × (s : Slot Metas) × FirstFree p k s (take p))
    unfolding mark
    take-FirstFree = elim (take-Taken p v) [
      | inl busy ↦ inl busy
      | inr (i, s, t) ↦
          let at = slot_index-IsPlace i t.inside in
          inr (
            slot_index p i,
            s,
            record {
              round = i;
              few = t.inside;
              place = at;
              found = t.found;
              free = t.free;
              first = λ j l lt w.
                  subst (IsBusy p) (IsPlace-slot_index j l (omega (arith, t.inside)) w)
                    (t.first j lt);
              handed = ap (λ r. r.0) t.result;
              marked = ap (λ r. r.1.slots) t.result;
              behind = rw t.result (behind-place (slot_index p i) at.in_array);
            },
          )
    ]
