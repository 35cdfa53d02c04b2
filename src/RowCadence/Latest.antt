-- ===== src/RowCadence/Latest.antt =====
-- `row_cadence_select_latest` and `row_cadence_due`: obsolete frames are skipped before a frame begins.
use pipewireao_spa_plugin_fi.Base.{
  ℕ, ◌-◌, ◌%◌, ◌^◌, ◌≤◌, ◌<◌, ◌≡◌, ◌≢◌, refl, ◌⊎◌, inl, inr, Bool, true, false, none, some, arith,
  dec_lt, Bool-cases, ℕ_discrete, if◌then◌else◌,
}
use native.Mathlib.Nat.{mod-lt, le_refl}
use pipewireao_spa_plugin_fi.Rate.{frame_offset-le_of_due, le-frame_offset_of_not_due}
use pipewireao_spa_plugin_fi.RowCadence.{
  RowCadence, RowBlock, frame_start, block_pts, at_frame, camera_frame, latest_frame, select_latest,
  due,
}
use pipewireao_spa_plugin_fi.RowCadence.Pts.{IsReadout, frame_start-min}
use pipewireao_spa_plugin_fi.RowCadence.Steps.{IsRowScheduled, at_frame-IsRowScheduled}
use pipewireao_spa_plugin_fi.RowCadence.Abandon.{camera_frame-exact, camera_frame-le, elapsed}

clash : {b : Bool} → b ≡ false → b ≡ true → ⊥
clash h k = cc

-- A frame that the sequence has.
abbrev pub IsStored : ℕ → Bool → ℕ → Type 0
IsStored count loop s = (loop ≡ true) ⊎ (s < count)

-- No frame after `s` that the sequence has began before now.
abbrev pub IsNewest : RowCadence → ℕ → ℕ → Bool → ℕ → Type 0
IsNewest c now count loop s =
    (t : ℕ) → s < t → t < 2 ^ 64 → IsStored count loop t → now ≤ frame_start c t

module _ (c : RowCadence) (now count : ℕ) (loop : Bool) (v : IsReadout c) (word : now < 2 ^ 64)
    (pos : 0 < count) (small : count < 2 ^ 64) where
  camera-begun : c.epoch < now → (s : ℕ) → s ≤ camera_frame c now → frame_start c s ≤ now
  camera-begun past s h = omega (
    arith,
    camera_frame-exact c now v word,
    frame_start-min c v s,
    frame_offset-le_of_due c.frame_rate v.rate_ok s (elapsed c now) (omega arith)
        (omega (arith, camera_frame-exact c now v word)),
  )

  not-begun : (t : ℕ) → camera_frame c now < t → t < 2 ^ 64 → now ≤ frame_start c t
  not-begun t h w = omega (
    arith,
    camera_frame-exact c now v word,
    frame_start-min c v t,
    le-frame_offset_of_not_due c.frame_rate v.rate_ok t (elapsed c now) (omega arith) w
        (omega (arith, camera_frame-exact c now v word)),
  )

  latest-le : latest_frame c now count loop ≤ camera_frame c now
  unfolding latest_frame
  latest-le = ground arith

  latest-loops : loop ≡ true → latest_frame c now count loop ≡ camera_frame c now
  unfolding latest_frame
  latest-loops e = ground arith

  latest-inside : camera_frame c now < count → latest_frame c now count loop ≡ camera_frame c now
  unfolding latest_frame
  latest-inside h = ground arith

  latest-final :
      loop ≡ false → count ≤ camera_frame c now → latest_frame c now count loop ≡ count - 1
  unfolding latest_frame
  latest-final e h = ground arith

  latest-IsStored : IsStored count loop (latest_frame c now count loop)
  latest-IsStored = elim (Bool-cases loop) [
    | inl e ↦ inl e
    | inr e ↦ elim (dec_lt (camera_frame c now) count) [
      | yes h ↦ inr (omega (arith, latest-inside h))
      | no h ↦ inr (omega (arith, latest-final e (omega arith)))
    ]
  ]

  -- A stored frame after the latest one has not begun.
  latest-IsNewest : (s : ℕ) → latest_frame c now count loop ≤ s → IsNewest c now count loop s
  latest-IsNewest s h t lo w st = elim (dec_lt (camera_frame c now) t) [
    | yes k ↦ not-begun t k w
    | no k ↦ elim (Bool-cases loop) [
      | inl e ↦ absurd (omega (arith, latest-loops e))
      | inr e ↦ elim (dec_lt (camera_frame c now) count) [
        | yes m ↦ absurd (omega (arith, latest-inside m))
        | no m ↦ elim st [
          | inl e' ↦ absurd (clash e e')
          | inr lt ↦ absurd (omega (arith, latest-final e (omega arith)))
        ]
      ]
    ]
  ]

-- The two results of `row_cadence_select_latest`.
pub data Selected (c : RowCadence) (now count : ℕ) (loop : Bool) (r : RowCadence × Bool)
    : Type 0 where
  kept :
      r ≡ (c, false)
      → (c.ended ≡ true) ⊎ (c.next_block ≢ 0) ⊎ IsNewest c now count loop c.next_sequence
      → Selected c now count loop r
  moved :
      (s : ℕ)
      → r ≡ (at_frame c s, true)
      → c.ended ≡ false
      → c.next_block ≡ 0
      → c.next_sequence < s
      → s < 2 ^ 64
      → IsStored count loop s
      → frame_start c s ≤ now
      → IsNewest c now count loop s
      → Selected c now count loop r

module _ (c : RowCadence) (now count : ℕ) (loop : Bool) where
  select_latest-busy :
      (c.ended ≡ true) ⊎ (c.next_block ≢ 0) ⊎ (now ≤ c.epoch)
      → select_latest c now count loop ≡ (c, false)
  unfolding select_latest
  select_latest-busy h = ground arith

  select_latest-stays :
      latest_frame c now count loop ≤ c.next_sequence → select_latest c now count loop ≡ (c, false)
  unfolding select_latest
  select_latest-stays h = ground arith

  select_latest-moves :
      c.ended ≡ false
      → c.next_block ≡ 0
      → c.epoch < now
      → c.next_sequence < latest_frame c now count loop
      → select_latest c now count loop ≡ (at_frame c (latest_frame c now count loop), true)
  unfolding select_latest at_frame
  select_latest-moves e z past h = ground arith

-- Only between two frames the readout jumps: to the last frame of the sequence that has begun, if it
-- is a later one than the next. Otherwise nothing changes: the readout is inside a frame or has ended, or no later
-- frame of the sequence has begun.
pub select_latest-Selected :
    (c : RowCadence) (now count : ℕ) (loop : Bool)
    → IsReadout c
    → now < 2 ^ 64
    → 0 < count
    → count < 2 ^ 64
    → Selected c now count loop (select_latest c now count loop)
select_latest-Selected c now count loop v word pos small = elim (Bool-cases c.ended) [
  | inl e ↦ kept (select_latest-busy c now count loop (inl e)) (inl e)
  | inr open_ ↦ elim (ℕ_discrete c.next_block 0) [
    | no b ↦ kept (select_latest-busy c now count loop (inr (inl b))) (inr (inl b))
    | yes z ↦ elim (dec_lt c.epoch now) [
      | no p ↦
          kept (select_latest-busy c now count loop (inr (inr (omega arith))))
            (inr (inr (λ t lo w st. omega (arith, frame_start-min c v t))))
      | yes past ↦ elim (dec_lt c.next_sequence (latest_frame c now count loop)) [
        | no p ↦ kept (select_latest-stays c now count loop (omega arith)) (
            inr (
              inr
                (latest-IsNewest c now count loop v word pos small c.next_sequence (omega arith))))
        | yes p ↦
            moved (latest_frame c now count loop)
              (select_latest-moves c now count loop open_ z past p) open_ z p
              (omega
                (arith, latest-le c now count loop v word pos small, camera_frame-le c now v word))
              (latest-IsStored c now count loop v word pos small)
              (camera-begun c now count loop v word pos small past _
                (latest-le c now count loop v word pos small))
              (latest-IsNewest c now count loop v word pos small _ (le_refl _))
      ]
    ]
  ]
]

-- Selecting keeps the state true to its schedule.
pub select_latest-IsRowScheduled :
    (c : RowCadence) (now count : ℕ) (loop : Bool)
    → IsRowScheduled c
    → now < 2 ^ 64
    → 0 < count
    → count < 2 ^ 64
    → IsRowScheduled (select_latest c now count loop).0
select_latest-IsRowScheduled c now count loop v word pos small =
    elim (select_latest-Selected c now count loop v.readout word pos small) [
      | kept e _ ↦ rw e v
      | moved s e open_ z lo w st begun newest ↦ rw e (at_frame-IsRowScheduled c s v open_ w)
    ]

-- What `row_cadence_due` hands out: the next block of the schedule, at its deadline.
pub record IsDueBlock (c : RowCadence) (now count : ℕ) (loop : Bool) (b : RowBlock) : Type 0 where
  pub sequence : b.sequence ≡ c.next_sequence
  pub block : b.block ≡ c.next_block
  pub in_frame : b.block < c.blocks_per_frame
  pub deadline : b.pts ≡ block_pts c b.sequence b.block
  pub reached : b.pts ≤ now
  pub stored : b.sample < count
  pub wrapped : loop ≡ true → b.sample ≡ b.sequence % count
  pub linear : loop ≡ false → b.sample ≡ b.sequence

due-none :
    (c : RowCadence) (now count : ℕ) (loop : Bool)
    → (c.ended ≡ true) ⊎ (now < c.next_pts)
    → due c now count loop ≡ none
unfolding due
due-none c now count loop h = ground arith

due-some :
    (c : RowCadence) (now count : ℕ) (loop : Bool)
    → c.ended ≡ false
    → c.next_pts ≤ now
    → due c now count loop
      ≡ some (record {
        sequence = c.next_sequence;
        sample = if loop then c.next_sequence % count else c.next_sequence;
        block = c.next_block;
        pts = c.next_pts;
      })
unfolding due
due-some c now count loop e h = ground arith

-- In a schedule whose next frame is one of the sequence, `row_cadence_due` hands out the next block with its deadline and a
-- sample of the cube exactly when that deadline has come and the schedule has not ended; the state is
-- left alone, so the same block stays due until the schedule moves.
pub due-IsDueBlock :
    (c : RowCadence) (now count : ℕ) (loop : Bool)
    → IsRowScheduled c
    → 0 < count
    → IsStored count loop c.next_sequence
    → ((due c now count loop ≡ none) × ((c.ended ≡ true) ⊎ (now < c.next_pts)))
      ⊎ ((b : RowBlock) × (due c now count loop ≡ some b)
          × (c.ended ≡ false)
          × IsDueBlock c now count loop b)
due-IsDueBlock c now count loop v pos st = elim (Bool-cases c.ended) [
  | inl e ↦ inl (due-none c now count loop (inl e), inl e)
  | inr e ↦ elim (dec_lt now c.next_pts) [
    | yes h ↦ inl (due-none c now count loop (inr h), inr h)
    | no h ↦ inr (
      _,
      due-some c now count loop e (omega arith),
      e,
      record {
        sequence = refl;
        block = refl;
        in_frame = (v.next_release e).0;
        deadline = (v.next_release e).1;
        reached = omega arith;
        stored = ground (arith, mod-lt c.next_sequence pos);
        wrapped = ground arith;
        linear = ground arith;
      },
    )
  ]
]
