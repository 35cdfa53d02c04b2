-- ===== src/Pool/Examples.antt =====
-- A pool of two buffers, the second of them with the host.
use pipewireao_spa_plugin_fi.Base.{
  ℕ, zero, suc, ◌≡◌, ◌<◌, refl, inl, ◌⊎◌, true, Option, none, some, [], ◌∷◌, get_elem?, arith,
}
use pipewireao_spa_plugin_fi.Errno.{ok, err, eproto}
use pipewireao_spa_plugin_fi.Pool.{
  BufferState, available, published, Slot, Pool, need_data, Io, n_buffers, hint_after, mark,
  slot_index, take_from, take, recycle,
}
use pipewireao_spa_plugin_fi.Pool.Take.{IsPool, IsBusy}
use pipewireao_spa_plugin_fi.Pool.Search.{FirstFree, take-FirstFree}
use pipewireao_spa_plugin_fi.Pool.Ownership.{IsQuiet, Recycled, recycle-Recycled, recycle-keeps}

abbrev slot : ℕ → BufferState → Slot (Unit {0})
slot id state = record { buffer = none; id = id; state = state }

abbrev one_out : Pool (Unit {0})
one_out = record { slots = slot 0 available ∷ slot 1 published ∷ []; scan_hint = 1 }

own : (i : ℕ) (s : Slot (Unit {0})) → get_elem? one_out.slots i ≡ some s → s.id ≡ i
own zero s e = cc
own (suc zero) s e = cc
own (suc (suc i)) s e = cc

quiet : IsQuiet one_out
quiet zero s e h = cc
quiet (suc zero) s e h = cc
quiet (suc (suc i)) s e h = cc

one_out-IsPool : IsPool one_out
one_out-IsPool = record { few = omega arith; hint_inside = inl (omega arith); own_id = own }

abbrev handed_back : Option Io
handed_back = some (record { status = need_data; buffer_id = some 1 })

take_first : (take one_out).0 ≡ some 0
unfolding take take_from slot_index mark
take_first = refl

recycle_second : recycle handed_back one_out ≡ (
  ok true,
  (
    some (record { status = need_data; buffer_id = none }),
    record { slots = slot 0 available ∷ slot 1 available ∷ []; scan_hint = 0 },
  ),
)
unfolding recycle mark hint_after
recycle_second = refl

recycle_free :
    (recycle (some (record { status = need_data; buffer_id = some 0 })) one_out).0 ≡ err eproto
unfolding recycle
recycle_free = refl

take-FirstFree_example :
    ((take one_out ≡ (none, one_out)) × ((id : ℕ) → id < n_buffers one_out → IsBusy one_out id))
    ⊎ ((k : ℕ) × (s : Slot (Unit {0})) × FirstFree one_out k s (take one_out))
take-FirstFree_example = take-FirstFree one_out one_out-IsPool

recycle-Recycled_example : Recycled handed_back one_out (recycle handed_back one_out)
recycle-Recycled_example = recycle-Recycled handed_back one_out

recycle-keeps_example :
    IsPool (recycle handed_back one_out).1.1 × IsQuiet (recycle handed_back one_out).1.1
recycle-keeps_example = recycle-keeps handed_back one_out one_out-IsPool quiet
