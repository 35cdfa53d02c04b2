-- ===== src/Cadence.antt =====
-- `struct cadence` of spa/plugins/fits/source.c: the schedule of complete frames.
pub mod Schedule
pub mod Due
pub mod Playback
mod Examples
use pipewireao_spa_plugin_fi.Base.{
  ℕ, ◌+◌, ◌-◌, ◌%◌, Bool, true, false, not, ◌&&◌, ◌||◌, Option, none, some, ltb, leb, ◌==◌,
  if◌then◌else◌, u64, sub64, u64_max,
}
use pipewireao_spa_plugin_fi.Rate.{Fraction, frame_offset, due_frame}

pub record Cadence : Type 0 where
  pub rate : Fraction
  pub epoch : ℕ  -- uint64_t
  pub next_sequence : ℕ  -- uint64_t
  pub next_pts : ℕ  -- uint64_t
  pub ended : Bool

unfoldable pub sequence_pts : Cadence → ℕ → ℕ
sequence_pts c sequence = u64 (c.epoch + u64 (frame_offset c.rate sequence))

unfoldable pub start : Fraction → ℕ → Cadence
start rate now = record {
  rate = rate;
  epoch = now;
  next_sequence = 0;
  next_pts = now;
  ended = false;
}

-- The out-parameters of `cadence_due`.
pub record Plane : Type 0 where
  pub sequence : ℕ
  pub sample : ℕ
  pub pts : ℕ
  pub discontinuity : Bool

-- The plane that `cadence_due` hands out for the number that it selected.
unfoldable pub plane_at : Cadence → ℕ → Bool → ℕ → Plane
plane_at c sample_count loop selected = record {
  sequence = selected;
  sample = if loop then selected % sample_count else selected;
  pts = sequence_pts c selected;
  discontinuity = (selected == 0) || ltb c.next_sequence selected;
}

-- The tail of `cadence_due`: the schedule moves past the selected number.
unfoldable pub pass : Cadence → ℕ → Bool → ℕ → Cadence
pass c sample_count loop selected =
    let next : Cadence = record c { next_sequence = u64 (selected + 1) } in
    if not loop && leb sample_count (u64 (selected + 1))
    then record next { ended = true; next_pts = u64_max }
    else record next { next_pts = sequence_pts next (u64 (selected + 1)) }

unfoldable pub select : Cadence → ℕ → Bool → ℕ → Cadence × Option Plane
select c sample_count loop selected =
    (pass c sample_count loop selected, some (plane_at c sample_count loop selected))

-- The newest sequence whose time has come, and at least the next one.
unfoldable pub newest : Cadence → ℕ → ℕ
newest c now =
    let due_sequence : ℕ = u64 (due_frame c.rate (sub64 now c.epoch)) in
    if ltb due_sequence c.next_sequence then c.next_sequence else due_sequence

-- `cadence_due`: `none` for the return value 0.
unfoldable pub due : Cadence → ℕ → ℕ → Bool → Cadence × Option Plane
due c now sample_count loop =
    if c.ended || ltb now c.next_pts
    then (c, none)
    else if not loop && leb sample_count (newest c now)
    then if leb sample_count c.next_sequence
      then (record c { ended = true }, none)
      else select c sample_count loop (sample_count - 1)
    else select c sample_count loop (newest c now)

unfoldable pub release_after : Cadence → ℕ → ℕ
release_after c now =
    let sequence : ℕ = u64 (u64 (due_frame c.rate (sub64 now c.epoch)) + 1) in
    if c.ended
    then u64_max
    else if ltb now c.next_pts
    then c.next_pts
    else sequence_pts c (if ltb sequence c.next_sequence then c.next_sequence else sequence)
