-- ===== src/Cadence/Due.antt =====
-- `cadence_due`: which plane it releases, and the schedule that it leaves.
use pipewireao_spa_plugin_fi.Base.{
  ℕ, ◌+◌, ◌-◌, ◌%◌, ◌^◌, ◌≤◌, ◌<◌, ◌≡◌, refl, sym, ◌∙◌, ◌⊎◌, inl, inr, ◌↔◌, Bool, true, false, none,
  some, arith, u64, dec_lt, Bool-cases,
}
use mathlib.Core.Path.{subst₂}
use native.Mathlib.Nat.{mod-lt}
use pipewireao_spa_plugin_fi.Rate.{frame_offset_mono}
use pipewireao_spa_plugin_fi.Cadence.{Cadence, Plane, newest, plane_at, pass, select, due}
use pipewireao_spa_plugin_fi.Cadence.Schedule.{
  IsScheduled, HasHeadroom, release, sequence_pts-exact, newest-started, newest-ge, newest-le,
  newest-latest, release-next-word,
}

-- What one release is, for the plane `p` taken from the schedule `c`, which becomes `c'`.
pub record Released (c : Cadence) (now count : ℕ) (loop : Bool) (p : Plane) (c' : Cadence)
    : Type 0 where
  pub on_time : p.pts ≡ release c p.sequence
  pub started : p.pts ≤ now
  pub fresh : c.next_sequence ≤ p.sequence
  pub marked : (p.discontinuity ≡ true) ↔ ((p.sequence ≡ 0) ⊎ (c.next_sequence < p.sequence))
  pub stored : p.sample < count
  pub wrapped : loop ≡ true → p.sample ≡ p.sequence % count
  pub linear : loop ≡ false → p.sample ≡ p.sequence
  pub advanced : c'.next_sequence ≡ p.sequence + 1
  pub same_epoch : (c'.epoch ≡ c.epoch) × (c'.rate ≡ c.rate)
  pub last : (c'.ended ≡ true) ↔ ((loop ≡ false) × (p.sequence + 1 ≡ count))
  pub newest_plane :
      (now ≤ release c (p.sequence + 1)) ⊎ ((loop ≡ false) × (p.sequence + 1 ≡ count))
  pub scheduled : IsScheduled c'

-- A number that may be released now.
pub record IsReleasable (c : Cadence) (now count : ℕ) (loop : Bool) (s : ℕ) : Type 0 where
  pub fresh : c.next_sequence ≤ s
  pub started : release c s ≤ now
  pub word : s + 1 < 2 ^ 64
  pub present : loop ≡ false → s < count
  pub latest : (now ≤ release c (s + 1)) ⊎ ((loop ≡ false) × (s + 1 ≡ count))

word-exact : (x : ℕ) → x < 2 ^ 64 → u64 x ≡ x
word-exact x h = omega arith

module _ (c : Cadence) (now count : ℕ) (loop : Bool) (s : ℕ) where
  pass-IsScheduled :
      IsScheduled c
      → HasHeadroom c now
      → IsReleasable c now count loop s
      → IsScheduled (pass c count loop s)
  unfolding pass
  pass-IsScheduled v room w = ground (
    arith,
    word-exact (s + 1) w.word,
    sequence_pts-exact (record c { next_sequence = s + 1 }) (s + 1)
        (release-next-word c now v room s w.word w.started),
    release-next-word c now v room s w.word w.started,
  )

  plane_at-Released :
      IsScheduled c
      → HasHeadroom c now
      → c.ended ≡ false
      → 0 < count
      → IsReleasable c now count loop s
      → Released c now count loop (plane_at c count loop s) (pass c count loop s)
  unfolding plane_at pass
  plane_at-Released v room open_ pos w = record {
    on_time = sequence_pts-exact c s (omega (arith, w.started));
    started = omega (arith, sequence_pts-exact c s (omega (arith, w.started)), w.started);
    fresh = w.fresh;
    marked = ground (arith, w.fresh);
    stored = ground (arith, mod-lt s pos, w.present);
    wrapped = ground arith;
    linear = ground arith;
    advanced = ground (arith, word-exact (s + 1) w.word);
    same_epoch = ground arith;
    last = ground (arith, word-exact (s + 1) w.word, w.present);
    newest_plane = w.latest;
    scheduled = pass-IsScheduled v room w;
  }

newest-IsReleasable :
    (c : Cadence) (now count : ℕ) (loop : Bool)
    → IsScheduled c
    → HasHeadroom c now
    → c.ended ≡ false
    → c.next_pts ≤ now
    → (loop ≡ false → newest c now < count)
    → IsReleasable c now count loop (newest c now)
newest-IsReleasable c now count loop v room open_ reached h = record {
  fresh = newest-ge c now v room open_ reached;
  started = newest-started c now v room open_ reached;
  word = omega (arith, newest-le c now v room open_ reached);
  present = h;
  latest = inl (newest-latest c now v room open_ reached);
}

final-IsReleasable :
    (c : Cadence) (now count : ℕ)
    → IsScheduled c
    → HasHeadroom c now
    → c.ended ≡ false
    → c.next_pts ≤ now
    → count ≤ newest c now
    → c.next_sequence < count
    → IsReleasable c now count false (count - 1)
final-IsReleasable c now count v room open_ reached past left =
    let lo = newest-le c now v room open_ reached in
    let st = newest-started c now v room open_ reached in
    record {
      fresh = omega arith;
      started = omega (
        arith,
        frame_offset_mono c.rate v.rate_ok (count - 1) (newest c now) (omega arith) (omega arith),
      );
      word = omega arith;
      present = λ _. omega arith;
      latest = inr (refl, omega arith);
    }

-- `cadence_due` on every branch of an open schedule that has come to its next plane.
pub due_cases :
    (c : Cadence) (now count : ℕ) (loop : Bool)
    → IsScheduled c
    → HasHeadroom c now
    → c.ended ≡ false
    → c.next_pts ≤ now
    → ((loop ≡ false)
        × (count ≤ c.next_sequence)
        × (due c now count loop ≡ (record c { ended = true }, none)))
      ⊎ ((t : ℕ) × IsReleasable c now count loop t × (due c now count loop ≡ select c count loop t))
unfolding due
due_cases c now count true v room open_ reached = inr (
  newest c now,
  newest-IsReleasable c now count true v room open_ reached (λ e. cc),
  ground arith,
)
due_cases c now count false v room open_ reached = elim (dec_lt (newest c now) count) [
  | yes p ↦ inr (
    newest c now,
    newest-IsReleasable c now count false v room open_ reached (λ _. p),
    ground arith,
  )
  | no p ↦ elim (dec_lt c.next_sequence count) [
    | yes q ↦ inr (
      count - 1,
      final-IsReleasable c now count v room open_ reached (omega arith) q,
      ground arith,
    )
    | no q ↦ inl (refl, omega arith, ground arith)
  ]
]

pub due-closed :
    (c : Cadence) (now count : ℕ) (loop : Bool)
    → (c.ended ≡ true) ⊎ (now < c.next_pts)
    → due c now count loop ≡ (c, none)
unfolding due
due-closed c now count loop h = ground arith

pub closed_or_reached :
    (c : Cadence) (now : ℕ)
    → ((c.ended ≡ true) ⊎ (now < c.next_pts)) ⊎ ((c.ended ≡ false) × (c.next_pts ≤ now))
closed_or_reached c now = elim (Bool-cases c.ended) [
  | inl e ↦ inl (inl e)
  | inr e ↦ elim (dec_lt now c.next_pts) [ yes h ↦ inl (inr h) | no h ↦ inr (e, omega arith) ]
]

select-eq :
    (c : Cadence) (count : ℕ) (loop : Bool) (s : ℕ) {c' : Cadence} {p : Plane}
    → select c count loop s ≡ (c', some p)
    → (pass c count loop s ≡ c') × (plane_at c count loop s ≡ p)
unfolding select
select-eq c count loop s e = (cc, cc)

-- A plane that `cadence_due` hands out under a schedule that describes its state, with the clock
-- away from its wrap and a cube that is not empty, is the newest one: it has its exact release time, which has come; it is
-- no earlier than the next plane, and marked as a discontinuity exactly if it is the first or planes were skipped; its sample exists; nothing after it
-- has started before now, unless it is the final plane of a finite sequence; the schedule ends exactly at that plane, moves past it otherwise, and keeps
-- describing its state.
pub due-Released :
    (c : Cadence) (now count : ℕ) (loop : Bool) (p : Plane) (c' : Cadence)
    → IsScheduled c
    → HasHeadroom c now
    → 0 < count
    → due c now count loop ≡ (c', some p)
    → Released c now count loop p c'
due-Released c now count loop p c' v room pos e = elim (closed_or_reached c now) [
  | inl h ↦ cc (due-closed c now count loop h)
  | inr (open_, reached) ↦ elim (due_cases c now count loop v room open_ reached) [
    | inl (_, _, h) ↦ cc
    | inr (s, w, h) ↦
        let (state, plane) = select-eq c count loop s (sym h ∙ e) in
        subst₂ (Released c now count loop) plane state
          (plane_at-Released c now count loop s v room open_ pos w)
  ]
]
