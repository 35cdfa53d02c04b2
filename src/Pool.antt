-- ===== src/Pool.antt =====
-- The output buffers of `struct port` in spa/plugins/fits/source.c: who holds each, and the search for
-- a free one.
pub mod Take
pub mod Search
pub mod Ownership
pub mod Held
mod Examples
use pipewireao_spa_plugin_fi.Base.{
  ℕ, zero, suc, ◌+◌, ◌-◌, Bool, true, false, Option, none, some, List, [], ltb, leb, ◌==◌, length,
  get_elem?, set, if◌then◌else◌, u32,
}
use pipewireao_spa_plugin_fi.Errno.{Result, ok, err, eproto, ebusy}
use pipewireao_spa_plugin_fi.ImageFrame

-- `enum buffer_state`
pub data BufferState : Type 0 where
  available producer published : BufferState

abbrev pub is_available : BufferState → Bool
is_available available = true
is_available _ = false

abbrev pub is_published : BufferState → Bool
is_published published = true
is_published _ = false

-- `struct buffer`
pub record Slot (Metas : Type 0) : Type 0 where
  pub buffer : Option (ImageFrame.Buffer Metas)
  pub id : ℕ
  pub state : BufferState

-- The first `n_buffers` entries of `port.buffers`, and `port.scan_hint`; `n_buffers` is the length.
pub record Pool (Metas : Type 0) : Type 0 where
  pub slots : List (Slot Metas)
  pub scan_hint : ℕ

-- The values of `spa_io_buffers.status` that the source tells apart.
pub data Status : Type 0 where
  have_data need_data : Status
  other : ℕ → Status

abbrev pub is_have_data : Status → Bool
is_have_data have_data = true
is_have_data _ = false

-- `struct spa_io_buffers`, shared with the host; `none` is `SPA_ID_INVALID`.
pub record Io : Type 0 where
  pub status : Status
  pub buffer_id : Option ℕ

module _ {Metas : Type 0} where
  abbrev pub n_buffers : Pool Metas → ℕ
  n_buffers p = length p.slots

  -- The hint after slot `id`, round the end of the array.
  unfoldable pub hint_after : Pool Metas → ℕ → ℕ
  hint_after p id = if u32 (id + 1) == n_buffers p then 0 else u32 (id + 1)

  -- One slot in a new state, with the search going on behind it.
  unfoldable pub mark : Pool Metas → ℕ → Slot Metas → BufferState → Pool Metas
  mark p id slot state = record {
    slots = set p.slots id (record slot { state = state });
    scan_hint = hint_after p id;
  }

  -- The slot that the search looks at in round `i`.
  unfoldable pub slot_index : Pool Metas → ℕ → ℕ
  slot_index p i =
      let id : ℕ = u32 (p.scan_hint + i) in if leb (n_buffers p) id then id - n_buffers p else id

  -- The loop of `take_buffer` with `k` rounds left. An index outside the array would be undefined
  -- behaviour; a valid pool has none.
  unfoldable pub take_from : ℕ → ℕ → Pool Metas → Option ℕ × Pool Metas
  take_from zero i p = (none, p)
  take_from (suc k) i p =
      let rest = take_from k (i + 1) p in
      elim (get_elem? p.slots (slot_index p i)) [
        | none ↦ (none, p)
        | some slot ↦
            if is_available slot.state
            then (some (slot_index p i), mark p (slot_index p i) slot producer)
            else rest
      ]

  -- `take_buffer`: the index of the buffer that is handed out.
  unfoldable pub take : Pool Metas → Option ℕ × Pool Metas
  take p = take_from (n_buffers p) 0 p

  -- `return_buffer`
  unfoldable pub give_back : Pool Metas → ℕ → Slot Metas → Pool Metas
  give_back p index slot = record {
    slots = set p.slots index (record slot { state = available });
    scan_hint = hint_after p slot.id;
  }

  -- `recycle_buffer`: `true` for the return value 1.
  unfoldable pub recycle : Option Io → Pool Metas → Result Bool × (Option Io × Pool Metas)
  recycle none p = (ok false, (none, p))
  recycle (some io) p =
      if is_have_data io.status then (ok false, (some io, p)) else elim io.buffer_id [
        | none ↦ (ok false, (some io, p))
        | some id ↦ elim (get_elem? p.slots id) [
          | none ↦ (err eproto, (some io, p))
          | some slot ↦
              if is_published slot.state
              then (ok true, (some (record io { buffer_id = none }), mark p id slot available))
              else (err eproto, (some io, p))
        ]
      ]

  -- `release_buffers`
  unfoldable pub release : Bool → Pool Metas → Result (Unit {0}) × Pool Metas
  release started p =
      if started then (err ebusy, p) else (ok tt, record { slots = []; scan_hint = 0 })
