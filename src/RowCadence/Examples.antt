-- ===== src/RowCadence/Examples.antt =====
-- A readout of 20 ms in four blocks, 30 frames a second, from 1000 ns on.
use pipewireao_spa_plugin_fi.Base.{◌≡◌, ◌≤◌, ◌<◌, ◌+◌, ◌-◌, refl, inr, inl, true, false, arith}
use pipewireao_spa_plugin_fi.Rate.{Fraction, frame_offset, due_frame}
use pipewireao_spa_plugin_fi.RowCadence.{
  RowCadence, saturated_time_add, frame_start, completion, block_pts, start, finish, at_frame,
  advance, camera_frame, candidate, abandon, select_latest,
}
use pipewireao_spa_plugin_fi.RowCadence.Pts.{IsReadout, block_pts_mono, block_pts_bounds}
use pipewireao_spa_plugin_fi.RowCadence.Advance.{Next, advance-Next}
use pipewireao_spa_plugin_fi.RowCadence.Steps.{
  IsRowScheduled, start-IsRowScheduled, IsAtBlock, advance_times, advance_times-IsAtBlock,
}
use pipewireao_spa_plugin_fi.RowCadence.Abandon.{Abandoned, abandon-Abandoned}
use pipewireao_spa_plugin_fi.RowCadence.Latest.{Selected, select_latest-Selected}

abbrev rate_30 : Fraction
rate_30 = record { num = 30; denom = 1 }

abbrev begun : RowCadence
begun = record {
  frame_rate = rate_30;
  readout_time_ns = 20000000;
  epoch = 1000;
  next_sequence = 0;
  next_pts = 5001000;
  blocks_per_frame = 4;
  next_block = 0;
  ended = false;
}

begun_is_start : start rate_30 20000000 4 1000 ≡ begun
unfolding start block_pts frame_start completion saturated_time_add frame_offset
begun_is_start = refl

begun-IsReadout : IsReadout begun
begun-IsReadout = record {
  rate_ok = record {
    num_pos = omega arith;
    num_word = omega arith;
    denom_pos = omega arith;
    denom_word = omega arith;
    period_pos = omega arith;
  };
  epoch_word = omega arith;
  readout_pos = omega arith;
  readout_word = omega arith;
  readout_fits = omega arith;
  blocks_pos = omega arith;
  blocks_word = omega arith;
}

begun-IsRowScheduled : IsRowScheduled begun
unfolding start block_pts frame_start completion saturated_time_add frame_offset
begun-IsRowScheduled = start-IsRowScheduled rate_30 20000000 4 1000 begun-IsReadout

final_block : block_pts begun 2 3 ≡ 86667666
unfolding block_pts frame_start completion saturated_time_add frame_offset
final_block = refl

abandoned_sequence : (abandon begun 50000000 5 false).next_sequence ≡ 2
unfolding abandon candidate camera_frame at_frame block_pts frame_start completion
    saturated_time_add frame_offset due_frame finish
abandoned_sequence = refl

abandon-Abandoned_example : Abandoned begun 50000000 5 false (abandon begun 50000000 5 false)
abandon-Abandoned_example =
    abandon-Abandoned begun 50000000 5 false begun-IsRowScheduled refl (omega arith)

block_pts_mono_example : block_pts begun 2 3 ≤ block_pts begun 3 0
block_pts_mono_example =
    block_pts_mono begun 2 3 3 0 begun-IsReadout (omega arith) (omega arith) (omega arith)
      (inl (omega arith))

block_pts_bounds_example :
    (frame_start begun 2 < block_pts begun 2 1)
    × (block_pts begun 2 1 ≤ frame_start begun 2 + begun.readout_time_ns)
    × (block_pts begun 2 (begun.blocks_per_frame - 1) ≡ frame_start begun 2 + begun.readout_time_ns)
unfolding frame_start saturated_time_add frame_offset
block_pts_bounds_example = block_pts_bounds begun 2 1 begun-IsReadout (omega arith) (omega arith)

select_latest-Selected_example :
    Selected begun 80000000 5 true (select_latest begun 80000000 5 true)
select_latest-Selected_example =
    select_latest-Selected begun 80000000 5 true begun-IsReadout (omega arith) (omega arith)
      (omega arith)

advance_times-IsAtBlock_example : IsAtBlock begun 0 3 (advance_times 3 begun 5 false)
advance_times-IsAtBlock_example =
    advance_times-IsAtBlock 3 begun 5 false begun-IsRowScheduled refl refl (omega arith)

advance-Next_example : Next begun 5 false (advance begun 5 false)
advance-Next_example = advance-Next begun 5 false begun-IsRowScheduled refl (inr (omega arith))
