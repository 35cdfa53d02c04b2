-- ===== src/RowCadence.antt =====
-- `struct row_cadence` of spa/plugins/fits/source.c: the schedule of row blocks inside each frame.
pub mod Pts
pub mod Steps
pub mod Abandon
pub mod Latest
pub mod Ready
pub mod Advance
mod Examples
use pipewireao_spa_plugin_fi.Base.{
  ℕ, ◌+◌, ◌-◌, ◌*◌, ◌/◌, ◌%◌, Bool, true, false, not, ◌&&◌, ◌||◌, Option, none, some, ltb, leb,
  ◌==◌, if◌then◌else◌, u32, u64, u128, sub64, u64_max,
}
use pipewireao_spa_plugin_fi.Rate.{Fraction, frame_offset, due_frame}

pub record RowCadence : Type 0 where
  pub frame_rate : Fraction
  pub readout_time_ns : ℕ  -- uint64_t
  pub epoch : ℕ  -- uint64_t
  pub next_sequence : ℕ  -- uint64_t
  pub next_pts : ℕ  -- uint64_t
  pub blocks_per_frame : ℕ  -- uint32_t
  pub next_block : ℕ  -- uint32_t
  pub ended : Bool

unfoldable pub saturated_time_add : ℕ → ℕ → ℕ
saturated_time_add base offset =
    if ltb (u64_max - base) offset then u64_max else u64 (base + u64 offset)

unfoldable pub frame_start : RowCadence → ℕ → ℕ
frame_start c sequence = saturated_time_add c.epoch (frame_offset c.frame_rate sequence)

-- The time from the start of a frame to the end of a block of it, rounded up.
unfoldable pub completion : RowCadence → ℕ → ℕ
completion c block =
    let numerator : ℕ = u128 (u32 (block + 1) * c.readout_time_ns) in
    u128 (numerator + c.blocks_per_frame - 1) / c.blocks_per_frame

unfoldable pub block_pts : RowCadence → ℕ → ℕ → ℕ
block_pts c sequence block = saturated_time_add (frame_start c sequence) (completion c block)

unfoldable pub start : Fraction → ℕ → ℕ → ℕ → RowCadence
start frame_rate readout_time_ns blocks_per_frame now =
    let c : RowCadence = record {
      frame_rate = frame_rate;
      readout_time_ns = readout_time_ns;
      epoch = now;
      next_sequence = 0;
      next_pts = 0;
      blocks_per_frame = blocks_per_frame;
      next_block = 0;
      ended = false;
    } in
    record c { next_pts = block_pts c 0 0 }

unfoldable pub finish : RowCadence → RowCadence
finish c = record c { ended = true; next_pts = u64_max }

-- The state at the first block of a frame.
unfoldable pub at_frame : RowCadence → ℕ → RowCadence
at_frame c sequence = record c {
  next_sequence = sequence;
  next_block = 0;
  next_pts = block_pts c sequence 0;
}

unfoldable pub advance : RowCadence → ℕ → Bool → RowCadence
advance c sample_count loop =
    let block : ℕ = u32 (c.next_block + 1) in
    if ltb block c.blocks_per_frame
    then record c { next_block = block; next_pts = block_pts c c.next_sequence block }
    else if (c.next_sequence == u64_max)
        || (not loop && leb sample_count (u64 (c.next_sequence + 1)))
    then finish (record c { next_block = block })
    else at_frame c (c.next_sequence + 1)

-- The frame of the camera at `now`, saturated; frame 0 before the epoch.
unfoldable pub camera_frame : RowCadence → ℕ → ℕ
camera_frame c now =
    let elapsed : ℕ = if ltb c.epoch now then sub64 now c.epoch else 0 in
    let due : ℕ = due_frame c.frame_rate elapsed in if ltb u64_max due then u64_max else due

-- The first frame that `row_cadence_abandon` can resume with.
unfoldable pub candidate : RowCadence → ℕ → ℕ
candidate c now =
    let later : ℕ = u64 (c.next_sequence + 1) in
    let first : ℕ = if ltb later (camera_frame c now) then camera_frame c now else later in
    if not (first == u64_max) && leb (block_pts c first 0) now then first + 1 else first

unfoldable pub abandon : RowCadence → ℕ → ℕ → Bool → RowCadence
abandon c now sample_count loop =
    if c.ended
    then c
    else if c.next_sequence == u64_max
    then finish c
    else if (candidate c now == u64_max) || (not loop && leb sample_count (candidate c now))
    then finish c
    else record c {
      next_sequence = candidate c now;
      next_block = 0;
      next_pts = block_pts c (candidate c now) 0;
    }

-- The frame that `row_cadence_select_latest` aims at.
unfoldable pub latest_frame : RowCadence → ℕ → ℕ → Bool → ℕ
latest_frame c now sample_count loop =
    if not loop && leb sample_count (camera_frame c now)
    then sub64 sample_count 1
    else camera_frame c now

unfoldable pub select_latest : RowCadence → ℕ → ℕ → Bool → RowCadence × Bool
select_latest c now sample_count loop =
    if c.ended || (not (c.next_block == 0) || leb now c.epoch)
    then (c, false)
    else if leb (latest_frame c now sample_count loop) c.next_sequence
    then (c, false)
    else (
      record c {
        next_sequence = latest_frame c now sample_count loop;
        next_pts = block_pts c (latest_frame c now sample_count loop) 0;
      },
      true,
    )

-- The out-parameters of `row_cadence_due`.
pub record RowBlock : Type 0 where
  pub sequence : ℕ
  pub sample : ℕ
  pub block : ℕ
  pub pts : ℕ

unfoldable pub due : RowCadence → ℕ → ℕ → Bool → Option RowBlock
due c now sample_count loop =
    if c.ended || ltb now c.next_pts
    then none
    else some (record {
      sequence = c.next_sequence;
      sample = if loop then c.next_sequence % sample_count else c.next_sequence;
      block = c.next_block;
      pts = c.next_pts;
    })
