-- ===== src/Cadence/Schedule.antt =====
-- When the state of `struct cadence` describes its schedule, and what follows for the newest plane.
use pipewireao_spa_plugin_fi.Base.{
  ℕ, ◌+◌, ◌-◌, ◌*◌, ◌^◌, ◌≤◌, ◌<◌, ◌≡◌, max, false, arith, inl, inr, ◌⊎◌, sub64, nsec_per_sec,
}
use native.Mathlib.Nat.{le_refl}
use pipewireao_spa_plugin_fi.Rate.{
  IsRate, frame_offset, due_frame, due_frame-le, frame_offset-le_of_due, le-frame_offset_of_not_due,
  frame_offset_step_le, le-frame_offset,
}
use pipewireao_spa_plugin_fi.Cadence.{Cadence, sequence_pts, newest}

-- The release time of a plane, with no wrap.
abbrev pub release : Cadence → ℕ → ℕ
release c sequence = c.epoch + frame_offset c.rate sequence

max-cases : (a b : ℕ) → (max a b ≡ a) ⊎ (max a b ≡ b)
max-cases a b = omega arith

pub record IsScheduled (c : Cadence) : Type 0 where
  pub rate_ok : IsRate c.rate
  pub epoch_word : c.epoch < 2 ^ 64
  pub sequence_word : c.next_sequence < 2 ^ 64
  pub next_release :
      c.ended ≡ false → (c.next_pts ≡ release c c.next_sequence) × (c.next_pts < 2 ^ 64)

-- The clock is at least one period away from its wrap, which is 584 years after boot.
abbrev pub HasHeadroom : Cadence → ℕ → Type 0
HasHeadroom c now = now + nsec_per_sec * c.rate.denom < 2 ^ 64

pub sequence_pts-exact :
    (c : Cadence) (s : ℕ) → release c s < 2 ^ 64 → sequence_pts c s ≡ release c s
unfolding sequence_pts
sequence_pts-exact c s h = omega arith

module _ (c : Cadence) (now : ℕ) (v : IsScheduled c) (room : HasHeadroom c now) where
  module _ (open_ : c.ended ≡ false) (reached : c.next_pts ≤ now) where
    pub elapsed-exact : sub64 now c.epoch ≡ now - c.epoch
    elapsed-exact = omega (arith, (v.next_release open_).0)

    elapsed-word : now - c.epoch < 2 ^ 64
    elapsed-word = omega arith

    due : ℕ
    due = due_frame c.rate (now - c.epoch)

    due-le : due ≤ now - c.epoch
    unfolding due
    due-le = due_frame-le c.rate v.rate_ok (now - c.epoch) elapsed-word

    newest-max : newest c now ≡ max c.next_sequence due
    unfolding newest due
    newest-max = rw elapsed-exact (ground (arith, due-le))

    due-started : c.epoch + frame_offset c.rate due ≤ now
    unfolding due
    due-started = omega (
      arith,
      (v.next_release open_).0,
      frame_offset-le_of_due c.rate v.rate_ok due (now - c.epoch) elapsed-word (le_refl _),
    )

    next-started : release c c.next_sequence ≤ now
    next-started = omega (arith, (v.next_release open_).0)

    pub newest-started : release c (newest c now) ≤ now
    newest-started = rw newest-max (elim (max-cases c.next_sequence due) [
      | inl e ↦ rw e next-started
      | inr e ↦ rw e due-started
    ])

    pub newest-ge : c.next_sequence ≤ newest c now
    newest-ge = omega (arith, newest-max)

    pub newest-le : newest c now ≤ now
    newest-le = omega (
      arith,
      newest-max,
      due-le,
      next-started,
      le-frame_offset c.rate v.rate_ok c.next_sequence v.sequence_word,
    )

    -- No plane after the newest one has started before now.
    pub newest-latest : now ≤ release c (newest c now + 1)
    unfolding due
    newest-latest = omega (
      arith,
      le-frame_offset_of_not_due c.rate v.rate_ok (newest c now + 1) (now - c.epoch) elapsed-word
          (omega (arith, newest-le)) (omega (arith, newest-max)),
    )

  -- A plane that has started leaves room for the next one's release.
  pub release-next-word : (s : ℕ) → s + 1 < 2 ^ 64 → release c s ≤ now → release c (s + 1) < 2 ^ 64
  release-next-word s k h = omega (arith, frame_offset_step_le c.rate v.rate_ok s k)
