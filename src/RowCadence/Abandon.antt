-- ===== src/RowCadence/Abandon.antt =====
-- `row_cadence_abandon`: which frame the readout goes on with after a frame is given up.
use pipewireao_spa_plugin_fi.Base.{
  ℕ, ◌+◌, ◌-◌, ◌^◌, ◌≤◌, ◌<◌, ◌≡◌, ap, ◌⊎◌, inl, inr, max, Bool, true, false, not, ◌&&◌, arith, u64,
  u64_max, dec_lt, ltb, leb, ◌==◌, if◌then◌else◌, Bool-cases, sub64, ℕ_discrete,
}
use pipewireao_spa_plugin_fi.Rate.{
  due_frame, due_frame-le, frame_offset-le_of_due, le-frame_offset_of_not_due,
}
use pipewireao_spa_plugin_fi.RowCadence.{
  RowCadence, block_pts, finish, at_frame, camera_frame, candidate, abandon,
}
use pipewireao_spa_plugin_fi.RowCadence.Pts.{IsReadout, block_pts-min, completion-pos, block_within}
use pipewireao_spa_plugin_fi.RowCadence.Steps.{
  IsRowScheduled, at_frame-IsRowScheduled, finish-IsRowScheduled,
}

-- `now` on the time line of the camera: nothing has elapsed before the epoch.
abbrev pub elapsed : RowCadence → ℕ → ℕ
elapsed c now = now - c.epoch

module _ (c : RowCadence) (now : ℕ) (v : IsReadout c) (word : now < 2 ^ 64) where
  elapsed-exact : (if ltb c.epoch now then sub64 now c.epoch else 0) ≡ elapsed c now
  elapsed-exact = ground (arith, v.epoch_word)

  pub camera_frame-exact : camera_frame c now ≡ due_frame c.frame_rate (elapsed c now)
  unfolding camera_frame
  camera_frame-exact =
      rw elapsed-exact
        (ground (arith, due_frame-le c.frame_rate v.rate_ok (elapsed c now) (omega arith)))

  -- The first block of a frame that the camera has not begun is due after now.
  pub future_frame :
      (s : ℕ) → s < 2 ^ 64 → camera_frame c now < s → now < u64_max → now < block_pts c s 0
  future_frame s h k room = omega (
    arith,
    camera_frame-exact,
    le-frame_offset_of_not_due c.frame_rate v.rate_ok s (elapsed c now) (omega arith) h
        (omega (arith, camera_frame-exact)),
    completion-pos c v 0,
    block_pts-min c v s 0 v.blocks_pos,
  )

  -- A frame before the camera's is over: its first block is due by now.
  pub past_frame : (s : ℕ) → s < camera_frame c now → block_pts c s 0 ≤ now
  past_frame s h =
      let le = due_frame-le c.frame_rate v.rate_ok (elapsed c now) (omega arith) in
      omega (
        arith,
        camera_frame-exact,
        frame_offset-le_of_due c.frame_rate v.rate_ok (s + 1) (elapsed c now) (omega arith)
            (omega (arith, camera_frame-exact)),
        block_within c v s 0 v.blocks_pos (omega (arith, camera_frame-exact)),
        block_pts-min c v s 0 v.blocks_pos,
      )

  pub camera_frame-le : camera_frame c now ≤ now
  camera_frame-le =
      omega (
        arith,
        camera_frame-exact,
        due_frame-le c.frame_rate v.rate_ok (elapsed c now) (omega arith),
      )

-- `s` is the first frame after `lo` whose first block is not due yet.
pub record IsResume (c : RowCadence) (now lo s : ℕ) : Type 0 where
  pub after : lo < s
  pub word : s < u64_max
  pub future : now < block_pts c s 0
  pub earliest : (t : ℕ) → lo < t → t < 2 ^ 64 → now < block_pts c t 0 → s ≤ t

module _ (c : RowCadence) (now : ℕ) (v : IsReadout c) (room : now < u64_max)
    (open_ : c.next_sequence < u64_max) where
  first : ℕ
  first = max (c.next_sequence + 1) (camera_frame c now)

  first-word : first < 2 ^ 64
  unfolding first
  first-word = omega (arith, camera_frame-le c now v (omega arith))

  first-max :
      (if ltb (u64 (c.next_sequence + 1)) (camera_frame c now)
        then camera_frame c now
        else u64 (c.next_sequence + 1))
      ≡ max (c.next_sequence + 1) (camera_frame c now)
  first-max = ground arith

  candidate-first :
      candidate c now
      ≡ (if not (first == u64_max) && leb (block_pts c first 0) now then first + 1 else first)
  unfolding candidate first
  candidate-first = rw first-max

  candidate-word : candidate c now ≤ u64_max
  candidate-word = rw candidate-first (ground (arith, first-word))

  -- Frames between the interrupted one and the first candidate are over.
  first-earliest : (t : ℕ) → c.next_sequence < t → now < block_pts c t 0 → first ≤ t
  unfolding first
  first-earliest t h k = elim (dec_lt t (camera_frame c now)) [
    | yes p ↦ absurd (omega (arith, past_frame c now v (omega arith) t p))
    | no p ↦ omega arith
  ]

  candidate-skips : first < u64_max → block_pts c first 0 ≤ now → candidate c now ≡ first + 1
  candidate-skips h k = rw candidate-first (ground arith)

  candidate-stays : now < block_pts c first 0 → candidate c now ≡ first
  candidate-stays k = rw candidate-first (ground arith)

  candidate-top : u64_max ≤ first → candidate c now ≡ first
  candidate-top k = rw candidate-first (ground (arith, first-word))

  first-after : c.next_sequence < first
  unfolding first
  first-after = omega arith

  first-beyond : camera_frame c now < first + 1
  unfolding first
  first-beyond = omega arith

  first-skipped :
      block_pts c first 0 ≤ now
      → (t : ℕ) → c.next_sequence < t
      → now < block_pts c t 0
      → first + 1 ≤ t
  first-skipped over t lo fut = elim (ℕ_discrete first t) [
    | yes e ↦ absurd (omega (arith, ap (λ s. block_pts c s 0) e))
    | no ne ↦ omega (arith, first-earliest t lo fut)
  ]

  -- The candidate leaves out no frame that can still be read.
  candidate-le : (t : ℕ) → c.next_sequence < t → now < block_pts c t 0 → candidate c now ≤ t
  candidate-le t lo fut = elim (dec_lt now (block_pts c first 0)) [
    | yes k ↦ omega (arith, candidate-stays k, first-earliest t lo fut)
    | no k ↦ elim (dec_lt first u64_max) [
      | yes below ↦
          omega (arith, candidate-skips below (omega arith), first-skipped (omega arith) t lo fut)
      | no top ↦ omega (arith, candidate-top (omega arith), first-earliest t lo fut)
    ]
  ]

  candidate-IsResume : candidate c now < u64_max → IsResume c now c.next_sequence (candidate c now)
  candidate-IsResume h = elim (dec_lt first u64_max) [
    | no top ↦ absurd (omega (arith, candidate-top (omega arith)))
    | yes below ↦ elim (dec_lt now (block_pts c first 0)) [
      | yes k ↦ rw (candidate-stays k) (record {
        after = first-after;
        word = below;
        future = k;
        earliest = λ t lo _ fut. first-earliest t lo fut;
      })
      | no k ↦
          let over : block_pts c first 0 ≤ now = omega arith in
          rw (candidate-skips below over) (record {
            after = omega (arith, first-after);
            word = omega (arith, candidate-skips below over);
            future = future_frame c now v (omega arith) (first + 1) (omega arith) first-beyond room;
            earliest = λ t lo w fut. first-skipped over t lo fut;
          })
    ]
  ]

-- The result of `row_cadence_abandon` in an open schedule.
pub data Abandoned (c : RowCadence) (now count : ℕ) (loop : Bool) (c' : RowCadence) : Type 0 where
  resumed :
      (s : ℕ)
      → IsResume c now c.next_sequence s
      → (loop ≡ true) ⊎ (s < count)
      → c' ≡ record c { next_sequence = s; next_block = 0; next_pts = block_pts c s 0 }
      → Abandoned c now count loop c'
  over :
      ((t : ℕ)
        → c.next_sequence < t
        → t < u64_max
        → now < block_pts c t 0
        → (loop ≡ false) × (count ≤ t))
      → c' ≡ finish c
      → Abandoned c now count loop c'

module _ (c : RowCadence) (now count : ℕ) (loop : Bool) where
  pub abandon-ended : c.ended ≡ true → abandon c now count loop ≡ c
  unfolding abandon
  abandon-ended e = ground arith

  abandon-last : c.ended ≡ false → c.next_sequence ≡ u64_max → abandon c now count loop ≡ finish c
  unfolding abandon
  abandon-last e h = ground arith

  module _ (open_ : c.ended ≡ false) (below : c.next_sequence < u64_max) where
    abandon-top : candidate c now ≡ u64_max → abandon c now count loop ≡ finish c
    unfolding abandon
    abandon-top h = ground arith

    abandon-over : loop ≡ false → count ≤ candidate c now → abandon c now count loop ≡ finish c
    unfolding abandon
    abandon-over e h = ground arith

    abandon-resumes :
        candidate c now < u64_max
        → (loop ≡ true) ⊎ (candidate c now < count)
        → abandon c now count loop ≡ record c {
          next_sequence = candidate c now;
          next_block = 0;
          next_pts = block_pts c (candidate c now) 0;
        }
    unfolding abandon
    abandon-resumes h left = ground arith

left_or_over :
    (loop : Bool) (s count : ℕ) → ((loop ≡ true) ⊎ (s < count)) ⊎ ((loop ≡ false) × (count ≤ s))
left_or_over loop s count = elim (Bool-cases loop) [
  | inl e ↦ inl (inl e)
  | inr e ↦ elim (dec_lt s count) [ yes h ↦ inl (inr h) | no h ↦ inr (e, omega arith) ]
]

-- Abandoning a frame resumes with the first block of the first later frame whose deadline is still to
-- come, so no passed deadline is waited for and no frame that can still be read is dropped; only if the
-- sequence has no such frame left, the schedule ends.
pub abandon-Abandoned :
    (c : RowCadence) (now count : ℕ) (loop : Bool)
    → IsRowScheduled c
    → c.ended ≡ false
    → now < u64_max
    → Abandoned c now count loop (abandon c now count loop)
abandon-Abandoned c now count loop v open_ room = elim (dec_lt c.next_sequence u64_max) [
  | no top ↦
      over (λ t lo w _. absurd (omega arith))
        (abandon-last c now count loop open_ (omega (arith, v.sequence_word)))
  | yes below ↦ elim (dec_lt (candidate c now) u64_max) [
    | no top ↦
        over
          (λ t lo w fut. absurd (omega (arith, candidate-le c now v.readout room below t lo fut)))
          (abandon-top c now count loop open_ below
            (omega (arith, candidate-word c now v.readout room below)))
    | yes small ↦ elim (left_or_over loop (candidate c now) count) [
      | inl left ↦
          resumed (candidate c now) (candidate-IsResume c now v.readout room below small) left
            (abandon-resumes c now count loop open_ below small left)
      | inr (fin, gone) ↦
          over
            (λ t lo w fut. (fin, omega (arith, candidate-le c now v.readout room below t lo fut)))
            (abandon-over c now count loop open_ below fin gone)
    ]
  ]
]

-- Abandoning keeps the state true to its schedule, also after the end.
pub abandon-IsRowScheduled :
    (c : RowCadence) (now count : ℕ) (loop : Bool)
    → IsRowScheduled c
    → now < u64_max
    → IsRowScheduled (abandon c now count loop)
abandon-IsRowScheduled c now count loop v room = elim (Bool-cases c.ended) [
  | inl e ↦ rw (abandon-ended c now count loop e) v
  | inr e ↦ elim (abandon-Abandoned c now count loop v e room) [
    | resumed s w left eq ↦
        rw eq (unfold at_frame in at_frame-IsRowScheduled c s v e (omega (arith, w.word)))
    | over none_left eq ↦ rw eq (finish-IsRowScheduled c v)
  ]
]
