-- ===== src/Cadence/Examples.antt =====
-- A schedule of 30 frames a second that starts at 1000 ns.
use pipewireao_spa_plugin_fi.Base.{◌≡◌, refl, ◌⊎◌, true, false, none, some, [], ◌∷◌, arith, u64_max}
use pipewireao_spa_plugin_fi.Rate.{Fraction, IsRate, frame_offset, due_frame}
use pipewireao_spa_plugin_fi.Cadence.{
  Cadence, Plane, sequence_pts, start, plane_at, pass, select, newest, due, release_after,
}
use pipewireao_spa_plugin_fi.Cadence.Schedule.{IsScheduled}
use pipewireao_spa_plugin_fi.Cadence.Due.{Released, due-Released}
use pipewireao_spa_plugin_fi.Cadence.Playback.{
  start-IsScheduled, play, IsPlayback, play-IsPlayback, IsDeadline, release_after-IsDeadline,
}

abbrev rate_30 : Fraction
rate_30 = record { num = 30; denom = 1 }

rate_30-IsRate : IsRate rate_30
rate_30-IsRate = record {
  num_pos = omega arith;
  num_word = omega arith;
  denom_pos = omega arith;
  denom_word = omega arith;
  period_pos = omega arith;
}

abbrev started : Cadence
started = record { rate = rate_30; epoch = 1000; next_sequence = 0; next_pts = 1000; ended = false }

started-IsScheduled : IsScheduled started
unfolding start
started-IsScheduled = start-IsScheduled rate_30 1000 rate_30-IsRate (omega arith)

abbrev second_plane : Plane
second_plane = record { sequence = 1; sample = 1; pts = 33334333; discontinuity = true }

abbrev after_second : Cadence
after_second = record started { next_sequence = 2; next_pts = 66667666 }

due_second : due started 50000000 3 false ≡ (after_second, some second_plane)
unfolding due select newest plane_at pass sequence_pts frame_offset due_frame
due_second = refl

due_early : due started 999 3 false ≡ (started, none)
unfolding due select newest plane_at pass sequence_pts frame_offset due_frame
due_early = refl

due_last : (due started 500000000 3 false).0.ended ≡ true
unfolding due select newest plane_at pass sequence_pts frame_offset due_frame
due_last = refl

release_next : release_after started 40000000 ≡ 66667666
unfolding release_after sequence_pts frame_offset due_frame
release_next = refl

due-Released_example : Released started 50000000 3 false second_plane after_second
due-Released_example =
    due-Released started 50000000 3 false second_plane after_second started-IsScheduled
      (omega arith) (omega arith) due_second

play-IsPlayback_example :
    IsPlayback 3 0 (play started 3 true (50000000 ∷ 40000000 ∷ 200000000 ∷ []))
play-IsPlayback_example =
    play-IsPlayback started 3 true (50000000 ∷ 40000000 ∷ 200000000 ∷ []) started-IsScheduled
      (omega arith, (omega arith, (omega arith, tt))) (omega arith)

release_after-IsDeadline_example :
    ((started.ended ≡ true) × (release_after started 40000000 ≡ u64_max))
    ⊎ ((started.ended ≡ false) × IsDeadline started 40000000 (release_after started 40000000))
release_after-IsDeadline_example =
    release_after-IsDeadline started 40000000 started-IsScheduled (omega arith)
