-- ===== src/RowCadence/Steps.antt =====
-- The state of `struct row_cadence` under start and advance: the schedule moves block by block.
use pipewireao_spa_plugin_fi.Base.{
  ℕ, zero, suc, ◌+◌, ◌^◌, ◌≤◌, ◌<◌, ◌≡◌, refl, ap, ◌∙◌, ◌⊎◌, inl, inr, Bool, true, false, arith,
  u32, u64_max, dec_lt, Bool-cases, lt→ltb,
}
use mathlib.Core.Path.{ap₂}
use pipewireao_spa_plugin_fi.Rate.{Fraction}
use pipewireao_spa_plugin_fi.RowCadence.{
  RowCadence, block_pts, frame_start, completion, start, finish, at_frame, advance,
}
use pipewireao_spa_plugin_fi.RowCadence.Pts.{IsReadout}

-- The state describes a block that is still to be read out, or the end.
pub record IsRowScheduled (c : RowCadence) : Type 0 where
  pub readout : IsReadout c
  pub sequence_word : c.next_sequence < 2 ^ 64
  pub next_release :
      c.ended ≡ false
      → (c.next_block < c.blocks_per_frame)
        × (c.next_pts ≡ block_pts c c.next_sequence c.next_block)
  pub no_release : c.ended ≡ true → c.next_pts ≡ u64_max

-- `IsReadout` reads only what a step leaves alone.
IsReadout-cong :
    {c : RowCadence} {s p b : ℕ} {e : Bool}
    → IsReadout c
    → IsReadout (record c { next_sequence = s; next_pts = p; next_block = b; ended = e })
IsReadout-cong v = record {
  rate_ok = v.rate_ok;
  epoch_word = v.epoch_word;
  readout_pos = v.readout_pos;
  readout_word = v.readout_word;
  readout_fits = v.readout_fits;
  blocks_pos = v.blocks_pos;
  blocks_word = v.blocks_word;
}

ne_both : {b : Bool} → b ≡ false → b ≡ true → ⊥
ne_both h k = cc

pub start-IsRowScheduled :
    (r : Fraction) (readout blocks now : ℕ)
    → IsReadout (start r readout blocks now)
    → IsRowScheduled (start r readout blocks now)
unfolding start block_pts frame_start completion
start-IsRowScheduled r readout blocks now v = record {
  readout = v;
  sequence_word = omega arith;
  next_release = λ _. (v.blocks_pos, refl);
  no_release = λ e. cc;
}

pub finish-IsRowScheduled : (c : RowCadence) → IsRowScheduled c → IsRowScheduled (finish c)
unfolding finish
finish-IsRowScheduled c v = record {
  readout = IsReadout-cong v.readout;
  sequence_word = v.sequence_word;
  next_release = λ e. cc;
  no_release = λ _. refl;
}

pub at_frame-IsRowScheduled :
    (c : RowCadence) (s : ℕ)
    → IsRowScheduled c
    → c.ended ≡ false
    → s < 2 ^ 64
    → IsRowScheduled (at_frame c s)
unfolding at_frame block_pts frame_start completion
at_frame-IsRowScheduled c s v open_ h = record {
  readout = IsReadout-cong v.readout;
  sequence_word = h;
  next_release = λ _. (v.readout.blocks_pos, refl);
  no_release = λ e. absurd (ne_both open_ e);
}

-- One call of `row_cadence_advance` in an open schedule.
pub data Advanced (c : RowCadence) (count : ℕ) (loop : Bool) (c' : RowCadence) : Type 0 where
  next_row :
      c.next_block + 1 < c.blocks_per_frame
      → c' ≡ record c {
        next_block = c.next_block + 1;
        next_pts = block_pts c c.next_sequence (c.next_block + 1);
      }
      → Advanced c count loop c'
  next_frame :
      c.next_block + 1 ≡ c.blocks_per_frame
      → (loop ≡ true) ⊎ (c.next_sequence + 1 < count)
      → c.next_sequence < u64_max
      → c' ≡ at_frame c (c.next_sequence + 1)
      → Advanced c count loop c'
  stop :
      c.next_block + 1 ≡ c.blocks_per_frame
      → ((loop ≡ false) × (count ≤ c.next_sequence + 1)) ⊎ (c.next_sequence ≡ u64_max)
      → c' ≡ finish (record c { next_block = c.next_block + 1 })
      → Advanced c count loop c'

module _ (c : RowCadence) (count : ℕ) (loop : Bool) (v : IsRowScheduled c)
    (open_ : c.ended ≡ false) where
  block-exact : u32 (c.next_block + 1) ≡ c.next_block + 1
  block-exact = omega (arith, (v.next_release open_).0, v.readout.blocks_word)

  advance_row :
      c.next_block + 1 < c.blocks_per_frame
      → advance c count loop ≡ record c {
        next_block = c.next_block + 1;
        next_pts = block_pts c c.next_sequence (c.next_block + 1);
      }
  unfolding advance
  advance_row h = rw (block-exact, lt→ltb (c.next_block + 1) c.blocks_per_frame h)

  advance_frame :
      c.next_block + 1 ≡ c.blocks_per_frame
      → (loop ≡ true) ⊎ (c.next_sequence + 1 < count)
      → c.next_sequence < u64_max
      → advance c count loop ≡ at_frame c (c.next_sequence + 1)
  unfolding advance
  advance_frame h more word = ground (arith, block-exact)

  advance_stop :
      c.next_block + 1 ≡ c.blocks_per_frame
      → ((loop ≡ false) × (count ≤ c.next_sequence + 1)) ⊎ (c.next_sequence ≡ u64_max)
      → advance c count loop ≡ finish (record c { next_block = c.next_block + 1 })
  unfolding advance
  advance_stop h over = ground (arith, block-exact, v.sequence_word)

  more_or_over :
      ((loop ≡ true) ⊎ (c.next_sequence + 1 < count))
      ⊎ ((loop ≡ false) × (count ≤ c.next_sequence + 1))
  more_or_over = elim (Bool-cases loop) [
    | inl e ↦ inl (inl e)
    | inr e ↦ elim (dec_lt (c.next_sequence + 1) count) [
      | yes h ↦ inl (inr h)
      | no h ↦ inr (e, omega arith)
    ]
  ]

  -- `row_cadence_advance` on every branch: the next block of the frame; after the final block the
  -- next frame, if the sequence goes on; and otherwise the end.
  pub advance-Advanced : Advanced c count loop (advance c count loop)
  advance-Advanced = elim (dec_lt (c.next_block + 1) c.blocks_per_frame) [
    | yes h ↦ next_row h (advance_row h)
    | no h ↦
        let full : c.next_block + 1 ≡ c.blocks_per_frame =
          omega (arith, (v.next_release open_).0) in
        elim (dec_lt c.next_sequence u64_max) [
          | yes w ↦ elim more_or_over [
            | inl more ↦ next_frame full more w (advance_frame full more w)
            | inr over ↦ stop full (inl over) (advance_stop full (inl over))
          ]
          | no w ↦
              let top : c.next_sequence ≡ u64_max = omega (arith, v.sequence_word) in
              stop full (inr top) (advance_stop full (inr top))
        ]
  ]

row-IsRowScheduled :
    (c : RowCadence) (b : ℕ)
    → IsRowScheduled c
    → c.ended ≡ false
    → b < c.blocks_per_frame
    → IsRowScheduled (record c { next_block = b; next_pts = block_pts c c.next_sequence b })
unfolding block_pts frame_start completion
row-IsRowScheduled c b v open_ h = record {
  readout = IsReadout-cong v.readout;
  sequence_word = v.sequence_word;
  next_release = λ _. (h, refl);
  no_release = λ e. absurd (ne_both open_ e);
}

stop-IsRowScheduled :
    (c : RowCadence) (b : ℕ)
    → IsRowScheduled c
    → IsRowScheduled (finish (record c { next_block = b }))
unfolding finish
stop-IsRowScheduled c b v = record {
  readout = IsReadout-cong v.readout;
  sequence_word = v.sequence_word;
  next_release = λ e. cc;
  no_release = λ _. refl;
}

-- `row_cadence_advance` keeps the state true to its schedule.
pub advance-IsRowScheduled :
    (c : RowCadence) (count : ℕ) (loop : Bool)
    → IsRowScheduled c
    → c.ended ≡ false
    → IsRowScheduled (advance c count loop)
advance-IsRowScheduled c count loop v open_ = elim (advance-Advanced c count loop v open_) [
  | next_row h e ↦ rw e (row-IsRowScheduled c (c.next_block + 1) v open_ h)
  | next_frame h more w e ↦
      rw e (at_frame-IsRowScheduled c (c.next_sequence + 1) v open_ (omega arith))
  | stop h over e ↦ rw e (stop-IsRowScheduled c (c.next_block + 1) v)
]

-- `n` calls of `row_cadence_advance`.
abbrev pub advance_times : ℕ → RowCadence → ℕ → Bool → RowCadence
advance_times zero c count loop = c
advance_times (suc n) c count loop = advance (advance_times n c count loop) count loop

-- What no step changes: the timing that the deadlines are computed from.
pub record SameTiming (c d : RowCadence) : Type 0 where
  pub same_rate : d.frame_rate ≡ c.frame_rate
  pub same_readout : d.readout_time_ns ≡ c.readout_time_ns
  pub same_epoch : d.epoch ≡ c.epoch
  pub same_blocks : d.blocks_per_frame ≡ c.blocks_per_frame

pub block_pts_cong :
    (c d : RowCadence) (s b : ℕ) → SameTiming c d → block_pts d s b ≡ block_pts c s b
unfolding block_pts frame_start completion
block_pts_cong c d s b t = rw (t.same_rate, t.same_readout, t.same_epoch, t.same_blocks)

-- Where `row_cadence` stands inside a frame, with its deadline.
pub record IsAtBlock (start : RowCadence) (s b : ℕ) (c : RowCadence) : Type 0 where
  pub sequence : c.next_sequence ≡ s
  pub block : c.next_block ≡ b
  pub deadline : c.next_pts ≡ block_pts start s b
  pub running : c.ended ≡ false
  pub timing : SameTiming start c
  pub scheduled : IsRowScheduled c

next_row-IsAtBlock :
    (c d : RowCadence) (n count : ℕ) (loop : Bool)
    → suc n < c.blocks_per_frame
    → IsAtBlock c c.next_sequence n d
    → IsAtBlock c c.next_sequence (suc n) (advance d count loop)
next_row-IsAtBlock c d n count loop h w =
    let more : d.next_block + 1 < d.blocks_per_frame =
      omega (arith, w.block, w.timing.same_blocks) in
    let row = advance_row d count loop w.scheduled w.running more in
    record {
      sequence = ap (λ r. r.next_sequence) row ∙ w.sequence;
      block = ap (λ r. r.next_block) row ∙ omega (arith, w.block);
      deadline =
          ap (λ r. r.next_pts) row
          ∙ block_pts_cong c d d.next_sequence (d.next_block + 1) w.timing
          ∙ ap₂ (block_pts c) w.sequence (omega (arith, w.block));
      running = ap (λ r. r.ended) row ∙ w.running;
      timing = rw row (record {
        same_rate = w.timing.same_rate;
        same_readout = w.timing.same_readout;
        same_epoch = w.timing.same_epoch;
        same_blocks = w.timing.same_blocks;
      });
      scheduled = advance-IsRowScheduled d count loop w.scheduled w.running;
    }

-- From the first block of a frame on, `n` calls of `row_cadence_advance` reach block `n` of the
-- same frame, with its deadline, as long as the frame has such a block: no block is left out and none
-- comes twice.
pub advance_times-IsAtBlock :
    (n : ℕ) (c : RowCadence) (count : ℕ) (loop : Bool)
    → IsRowScheduled c
    → c.ended ≡ false
    → c.next_block ≡ 0
    → n < c.blocks_per_frame
    → IsAtBlock c c.next_sequence n (advance_times n c count loop)
advance_times-IsAtBlock zero c count loop v open_ z h = record {
  sequence = refl;
  block = z;
  deadline = (v.next_release open_).1 ∙ ap (block_pts c c.next_sequence) z;
  running = open_;
  timing = record { same_rate = refl; same_readout = refl; same_epoch = refl; same_blocks = refl };
  scheduled = v;
}
advance_times-IsAtBlock (suc n) c count loop v open_ z h =
    next_row-IsAtBlock c (advance_times n c count loop) n count loop h
      (advance_times-IsAtBlock n c count loop v open_ z (omega arith))
