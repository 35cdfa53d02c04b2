-- ===== src/Cadence/Playback.antt =====
-- Repeated probes of one frame cadence, and the deadline for the next one.
use pipewireao_spa_plugin_fi.Base.{
  ℕ, ◌+◌, ◌-◌, ◌*◌, ◌^◌, ◌≤◌, ◌<◌, ◌≡◌, refl, sym, ◌⊎◌, inl, inr, Bool, true, false, none, some,
  List, [], ◌∷◌, arith, u64_max, dec_lt, Option-cases, Bool-cases, nsec_per_sec, max,
}
use mathlib.Core.Path.{subst}
use native.Mathlib.Nat.{le_refl}
use pipewireao_spa_plugin_fi.Rate.{
  Fraction, IsRate, due_frame, due_frame-le, frame_offset-le_of_due, le-frame_offset_of_not_due,
  frame_offset_mono, frame_offset-zero,
}
use pipewireao_spa_plugin_fi.Cadence.{Cadence, Plane, start, due, select, release_after}
use pipewireao_spa_plugin_fi.Cadence.Schedule.{
  IsScheduled, HasHeadroom, release, sequence_pts-exact, elapsed-exact, release-next-word,
}
use pipewireao_spa_plugin_fi.Cadence.Due.{due-Released, due_cases, due-closed, closed_or_reached}

-- A started cadence describes its schedule: plane 0 is due at once.
pub start-IsScheduled :
    (r : Fraction) (now : ℕ) → IsRate r → now < 2 ^ 64 → IsScheduled (start r now)
unfolding start
start-IsScheduled r now v h = record {
  rate_ok = v;
  epoch_word = h;
  sequence_word = omega arith;
  next_release = λ _. omega (arith, frame_offset-zero r v);
}

-- A probe that releases nothing changes at most the end mark.
pub due-none :
    (c : Cadence) (now count : ℕ) (loop : Bool) (c' : Cadence)
    → IsScheduled c
    → HasHeadroom c now
    → due c now count loop ≡ (c', none)
    → IsScheduled c'
      × (c'.next_sequence ≡ c.next_sequence)
      × (c'.rate ≡ c.rate)
      × ((c'.ended ≡ c.ended) ⊎ ((loop ≡ false) × (count ≤ c.next_sequence) × (c'.ended ≡ true)))
unfolding select
due-none c now count loop c' v room e = elim (closed_or_reached c now) [
  | inl h ↦ ground (arith, due-closed c now count loop h)
  | inr (open_, reached) ↦ ground (arith, due_cases c now count loop v room open_ reached)
]

-- The planes that a host sees which probes at the given times.
pub play : Cadence → ℕ → Bool → List ℕ → List Plane
play c count loop [] = []
play c count loop (now ∷ ts) =
    let (c', o) = due c now count loop in
    elim o [ none ↦ play c' count loop ts | some p ↦ p ∷ play c' count loop ts ]

abbrev pub HaveHeadroom : Fraction → List ℕ → Type 0
HaveHeadroom r [] = Unit {0}
HaveHeadroom r (now ∷ ts) = (now + nsec_per_sec * r.denom < 2 ^ 64) × HaveHeadroom r ts

-- Numbers rise from `lo` on, and every sample is in the cube.
abbrev pub IsPlayback : ℕ → ℕ → List Plane → Type 0
IsPlayback count lo [] = Unit {0}
IsPlayback count lo (p ∷ ps) =
    (lo ≤ p.sequence) × (p.sample < count) × IsPlayback count (p.sequence + 1) ps

-- Whenever a host probes, in whatever order, no plane is released twice and none goes back: the
-- sequence numbers rise strictly from the schedule's next one on, and each sample exists.
pub play-IsPlayback :
    (c : Cadence) (count : ℕ) (loop : Bool) (ts : List ℕ)
    → IsScheduled c
    → HaveHeadroom c.rate ts
    → 0 < count
    → IsPlayback count c.next_sequence (play c count loop ts)
unfolding play
play-IsPlayback c count loop [] v room pos = tt
play-IsPlayback c count loop (now ∷ ts) v (room, rooms) pos =
    elim (Option-cases (due c now count loop).1) [
      | inl e ↦
          let (v', same, rate, _) =
            due-none c now count loop (due c now count loop).0 v room
              (λ i. ((due c now count loop).0, e i)) in
          rw (e, play)
            (subst (λ n. IsPlayback count n (play (due c now count loop).0 count loop ts)) same
              (play-IsPlayback (due c now count loop).0 count loop ts v'
                (subst (λ r. HaveHeadroom r ts) (sym rate) rooms) pos))
      | inr (p, e) ↦
          let q =
            due-Released c now count loop p (due c now count loop).0 v room pos
              (λ i. ((due c now count loop).0, e i)) in
          rw (e, play)
            (
              q.fresh,
              q.stored,
              subst (λ n. IsPlayback count n (play (due c now count loop).0 count loop ts))
                  q.advanced
                  (play-IsPlayback (due c now count loop).0 count loop ts q.scheduled
                    (subst (λ r. HaveHeadroom r ts) (sym q.same_epoch.1) rooms) pos),
            )
    ]

-- The deadline `r` is the release of a plane that is still to come, is not past, and no plane that is
-- still to come is released between now and `r`.
abbrev pub IsDeadline : Cadence → ℕ → ℕ → Type 0
IsDeadline c now r =
    (s : ℕ) × (c.next_sequence ≤ s)
    × (r ≡ release c s)
    × (now ≤ r)
    × ((t : ℕ) → t < 2 ^ 64 → c.next_sequence ≤ t → now < release c t → r ≤ release c t)

module _ (c : Cadence) (now : ℕ) (v : IsScheduled c) (room : HasHeadroom c now) where
  pending-IsDeadline : c.ended ≡ false → now < c.next_pts → IsDeadline c now c.next_pts
  pending-IsDeadline open_ h = (
    c.next_sequence,
    le_refl _,
    (v.next_release open_).0,
    omega arith,
    λ t k lo _. omega (
      arith,
      (v.next_release open_).0,
      frame_offset_mono c.rate v.rate_ok c.next_sequence t lo k,
    ),
  )

  following-IsDeadline :
      (s d : ℕ)
      → c.epoch ≤ now
      → d ≡ due_frame c.rate (now - c.epoch)
      → s < 2 ^ 64
      → s ≡ max c.next_sequence (d + 1)
      → IsDeadline c now (release c s)
  following-IsDeadline s d past hd word e =
      let le = due_frame-le c.rate v.rate_ok (now - c.epoch) (omega arith) in
      (
        s,
        omega arith,
        refl,
        omega (
          arith,
          le-frame_offset_of_not_due c.rate v.rate_ok s (now - c.epoch) (omega arith) word
              (omega arith),
        ),
        λ t k lo after. elim (dec_lt d t) [
          | yes p ↦ omega (arith, frame_offset_mono c.rate v.rate_ok s t (omega arith) k)
          | no p ↦ absurd (
              omega (
                arith,
                frame_offset-le_of_due c.rate v.rate_ok t (now - c.epoch) (omega arith)
                    (omega arith),
              ))
        ],
      )

max-left : (a b : ℕ) → b ≤ a → max a b ≡ a
max-left a b h = omega arith

max-right : (a b : ℕ) → a ≤ b → max a b ≡ b
max-right a b h = omega arith

release_after-pending :
    (c : Cadence) (now : ℕ) → c.ended ≡ false → now < c.next_pts → release_after c now ≡ c.next_pts
unfolding release_after
release_after-pending c now e h = ground arith

module _ (c : Cadence) (now : ℕ) (v : IsScheduled c) (room : HasHeadroom c now)
    (open_ : c.ended ≡ false) (reached : c.next_pts ≤ now) where
  reached-past : c.epoch ≤ now
  reached-past = omega (arith, (v.next_release open_).0)

  due_word : due_frame c.rate (now - c.epoch) ≤ now - c.epoch
  due_word = due_frame-le c.rate v.rate_ok (now - c.epoch) (omega arith)

  -- The number that `release_after` computes: the first one that is not due.
  following : ℕ
  following = max c.next_sequence (due_frame c.rate (now - c.epoch) + 1)

  following-release : release c following < 2 ^ 64
  unfolding following
  following-release = elim (dec_lt (due_frame c.rate (now - c.epoch)) c.next_sequence) [
    | yes h ↦
        rw (max-left c.next_sequence (due_frame c.rate (now - c.epoch) + 1) (omega arith))
          (omega (arith, (v.next_release open_).0, (v.next_release open_).1))
    | no h ↦ rw (max-right c.next_sequence (due_frame c.rate (now - c.epoch) + 1) (omega arith)) (
        release-next-word c now v room (due_frame c.rate (now - c.epoch))
          (omega (arith, due_word, reached-past))
          (omega (
            arith,
            reached-past,
            frame_offset-le_of_due c.rate v.rate_ok (due_frame c.rate (now - c.epoch))
                (now - c.epoch) (omega arith) (le_refl _),
          )))
  ]

  release_after-following : release_after c now ≡ release c following
  unfolding release_after following
  release_after-following = ground (
    arith,
    elapsed-exact c now v room open_ reached,
    due_word,
    sequence_pts-exact c following following-release,
  )

-- Before the end, the deadline that `release_after` gives under a schedule that describes its state is the release of
-- a number that is not before the next one; it is not past, and no such number is released between now and
-- it. (The function is not told how many planes there are, so the number may lie behind the last plane of a
-- finite sequence that is late.) After the end there is none (`UINT64_MAX`).
pub release_after-IsDeadline :
    (c : Cadence) (now : ℕ)
    → IsScheduled c
    → HasHeadroom c now
    → ((c.ended ≡ true) × (release_after c now ≡ u64_max))
      ⊎ ((c.ended ≡ false) × IsDeadline c now (release_after c now))
release_after-IsDeadline c now v room = elim (Bool-cases c.ended) [
  | inl e ↦ inl (e, unfold release_after in ground arith)
  | inr e ↦ inr (
    e,
    elim (dec_lt now c.next_pts) [
      | yes h ↦ rw (release_after-pending c now e h) (pending-IsDeadline c now v room e h)
      | no h ↦ rw (release_after-following c now v room e (omega arith)) (
          following-IsDeadline c now v room (following c now v room e (omega arith))
            (due_frame c.rate (now - c.epoch)) (reached-past c now v room e (omega arith)) refl
            (unfold following in
              omega (arith, due_word c now v room e (omega arith), v.sequence_word))
            (unfold following in refl))
    ],
  )
]
