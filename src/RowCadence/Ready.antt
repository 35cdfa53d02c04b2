-- ===== src/RowCadence/Ready.antt =====
-- A schedule whose next frame is one of the sequence stays one through every step.
use pipewireao_spa_plugin_fi.Base.{
  ℕ, ◌<◌, ◌^◌, ◌≡◌, inl, inr, Bool, false, refl, Bool-cases, u64_max,
}
use pipewireao_spa_plugin_fi.RowCadence.{
  RowCadence, select_latest, advance, abandon, finish, at_frame,
}
use pipewireao_spa_plugin_fi.RowCadence.Steps.{
  IsRowScheduled, next_row, next_frame, stop, advance-Advanced, advance-IsRowScheduled,
}
use pipewireao_spa_plugin_fi.RowCadence.Abandon.{
  resumed, over, abandon-Abandoned, abandon-IsRowScheduled, abandon-ended,
}
use pipewireao_spa_plugin_fi.RowCadence.Latest.{
  IsStored, kept, moved, select_latest-Selected, select_latest-IsRowScheduled,
}

-- The state is true to its schedule, and the frame that comes next is one of the sequence.
pub record IsReady (count : ℕ) (loop : Bool) (c : RowCadence) : Type 0 where
  pub scheduled : IsRowScheduled c
  pub stored : c.ended ≡ false → IsStored count loop c.next_sequence

module _ (c : RowCadence) (now count : ℕ) (loop : Bool) (v : IsReady count loop c) where
  pub select_latest-IsReady :
      now < 2 ^ 64
      → 0 < count
      → count < 2 ^ 64
      → IsReady count loop (select_latest c now count loop).0
        × ((select_latest c now count loop).0.blocks_per_frame ≡ c.blocks_per_frame)
  unfolding at_frame
  select_latest-IsReady word pos small =
      let still = select_latest-IsRowScheduled c now count loop v.scheduled word pos small in
      elim (select_latest-Selected c now count loop v.scheduled.readout word pos small) [
        | kept e _ ↦ rw e (v, refl)
        | moved s e _ _ _ _ st _ _ ↦
            (record { scheduled = still; stored = rw e (λ _. st) }, rw e refl)
      ]

  pub advance-IsReady :
      c.ended ≡ false
      → IsReady count loop (advance c count loop)
        × ((advance c count loop).blocks_per_frame ≡ c.blocks_per_frame)
  unfolding at_frame finish
  advance-IsReady open_ =
      let still = advance-IsRowScheduled c count loop v.scheduled open_ in
      elim (advance-Advanced c count loop v.scheduled open_) [
        | next_row _ e ↦
            (record { scheduled = still; stored = rw e (λ _. v.stored open_) }, rw e refl)
        | next_frame _ more _ e ↦
            (record { scheduled = still; stored = rw e (λ _. more) }, rw e refl)
        | stop _ _ e ↦ (record { scheduled = still; stored = rw e (λ h. cc) }, rw e refl)
      ]

  pub abandon-IsReady :
      now < u64_max
      → IsReady count loop (abandon c now count loop)
        × ((abandon c now count loop).blocks_per_frame ≡ c.blocks_per_frame)
  unfolding at_frame finish
  abandon-IsReady room =
      let still = abandon-IsRowScheduled c now count loop v.scheduled room in
      elim (Bool-cases c.ended) [
        | inl e ↦ rw (abandon-ended c now count loop e) (v, refl)
        | inr e ↦ elim (abandon-Abandoned c now count loop v.scheduled e room) [
          | resumed s _ left eq ↦
              (record { scheduled = still; stored = rw eq (λ _. left) }, rw eq refl)
          | over _ eq ↦ (record { scheduled = still; stored = rw eq (λ h. cc) }, rw eq refl)
        ]
      ]
