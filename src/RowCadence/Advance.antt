-- ===== src/RowCadence/Advance.antt =====
-- `row_cadence_advance` by the blocks of all frames, counted through.
use pipewireao_spa_plugin_fi.Base.{
  ℕ, ◌+◌, ◌*◌, ◌^◌, ◌≤◌, ◌<◌, ◌≡◌, refl, ◌⊎◌, inl, inr, Bool, true, false, arith, u64_max,
}
use pipewireao_spa_plugin_fi.RowCadence.{RowCadence, block_pts, at_frame, finish, advance}
use pipewireao_spa_plugin_fi.RowCadence.Steps.{
  IsRowScheduled, next_row, next_frame, stop, advance-Advanced, SameTiming,
}
use pipewireao_spa_plugin_fi.RowCadence.Latest.{IsStored}

-- The number of the next block when the blocks of all frames are counted through.
abbrev pub block_number : RowCadence → ℕ
block_number c = c.next_sequence * c.blocks_per_frame + c.next_block

-- Either the block that follows in this count comes next, at its own deadline and in a frame of the sequence, or
-- the final block of the last frame was the end.
pub data Next (c : RowCadence) (count : ℕ) (loop : Bool) (c' : RowCadence) : Type 0 where
  goes_on :
      c'.ended ≡ false
      → SameTiming c c'
      → block_number c' ≡ block_number c + 1
      → c'.next_block < c'.blocks_per_frame
      → c'.next_pts ≡ block_pts c c'.next_sequence c'.next_block
      → IsStored count loop c'.next_sequence
      → Next c count loop c'
  ends :
      c'.ended ≡ true
      → SameTiming c c'
      → c'.next_pts ≡ u64_max
      → c.next_block + 1 ≡ c.blocks_per_frame
      → ((t : ℕ) → c.next_sequence < t → t < 2 ^ 64 → (loop ≡ false) × (count ≤ t))
      → Next c count loop c'

module _ (c : RowCadence) (count : ℕ) (loop : Bool) (v : IsRowScheduled c) (open_ : c.ended ≡ false)
    (stored : IsStored count loop c.next_sequence) where
  first_of_next :
      c.next_block + 1 ≡ c.blocks_per_frame
      → (c.next_sequence + 1) * c.blocks_per_frame + 0 ≡ block_number c + 1
  first_of_next full = omega (arith, full)

  none_left :
      ((loop ≡ false) × (count ≤ c.next_sequence + 1)) ⊎ (c.next_sequence ≡ u64_max)
      → (t : ℕ) → c.next_sequence < t
      → t < 2 ^ 64
      → (loop ≡ false) × (count ≤ t)
  none_left (inl (e, h)) t lo w = (e, omega arith)
  none_left (inr top) t lo w = absurd (omega arith)

  -- In an open schedule whose next frame is one of the sequence, `row_cadence_advance` goes on to the block that
  -- follows when the blocks of all frames are counted through, with its deadline and in a frame of the
  -- sequence; it ends the schedule only after the final block of a frame that no other one follows.
  pub advance-Next : Next c count loop (advance c count loop)
  unfolding at_frame finish
  advance-Next = elim (advance-Advanced c count loop v open_) [
    | next_row h e ↦ rw e (
        goes_on open_
          (record { same_rate = refl; same_readout = refl; same_epoch = refl; same_blocks = refl })
          (omega arith) h refl stored)
    | next_frame full more _ e ↦ rw e (
        goes_on open_
          (record { same_rate = refl; same_readout = refl; same_epoch = refl; same_blocks = refl })
          (first_of_next full) (v.readout.blocks_pos) refl more)
    | stop full over e ↦ rw e (
        ends refl
          (record { same_rate = refl; same_readout = refl; same_epoch = refl; same_blocks = refl })
          refl full (none_left over))
  ]
