-- ===== src/Source/Playback/Examples.antt =====
-- A row and a plane that passes publish.
use pipewireao_spa_plugin_fi.Base.{◌≡◌, refl, ◌⊎◌, inr, arith, true, false, none, some, [], ◌∷◌}
use pipewireao_spa_plugin_fi.Errno.{ok}
use pipewireao_spa_plugin_fi.Rate.{due_frame, frame_offset}
use pipewireao_spa_plugin_fi.Cadence
use pipewireao_spa_plugin_fi.Cube
use pipewireao_spa_plugin_fi.RowCadence
use pipewireao_spa_plugin_fi.ImageFrame
use pipewireao_spa_plugin_fi.Pool
use pipewireao_spa_plugin_fi.Source.{Impl, output_size}
use pipewireao_spa_plugin_fi.Source.Examples.{
  api, buffer, fresh, measured, pixels, rate_30, waiting,
}
use pipewireao_spa_plugin_fi.Source.Playback.{
  status_have_data, has_data, fill, row_frame, row_flags, publish_row, fill_row, take_row,
  process_row_block, process_plane, take_plane, fill_plane, publish_plane, plane_frame,
}
use pipewireao_spa_plugin_fi.Source.Playback.Publication.{
  IsPublished, process_row_block-IsPublished,
}
use pipewireao_spa_plugin_fi.RowCadence.Pts
use pipewireao_spa_plugin_fi.RowCadence.Steps.{start-IsRowScheduled}
use pipewireao_spa_plugin_fi.Source.Playback.Readout.{IsReadout}
use pipewireao_spa_plugin_fi.Source.Playback.Shown.{IsShown, at_start, process_row_block-IsShown}
use pipewireao_spa_plugin_fi.Source.Playback.PlanePublication.{
  scheduled, IsPlanePublished, process_plane-IsPublished,
}

abbrev reading : Impl (Unit {0})
reading = record waiting {
  io = some (record { status = Pool.need_data; buffer_id = none });
  pool = record {
    slots =
        record { buffer = some buffer; id = 0; state = Pool.published }
        ∷ record { buffer = some buffer; id = 1; state = Pool.available }
        ∷ [];
    scan_hint = 0;
  };
  row_cadence = record {
    frame_rate = rate_30;
    readout_time_ns = 20000000;
    epoch = 1000;
    next_sequence = 0;
    next_pts = 6667667;
    blocks_per_frame = 3;
    next_block = 0;
    ended = false;
  };
  preloaded_frames = some pixels;
}

row_published : (process_row_block api reading 7000000).0 ≡ ok status_have_data
unfolding process_row_block RowCadence.select_latest RowCadence.latest_frame RowCadence.camera_frame
    RowCadence.due due_frame take_row Pool.take Pool.take_from Pool.slot_index Pool.mark fill_row
    publish_row fill row_frame row_flags ImageFrame.write ImageFrame.accepts ImageFrame.is_valid_pts
    ImageFrame.publish output_size
row_published = refl

process_row_block-IsPublished_example :
    ((has_data reading.io ≡ true) × ((process_row_block api reading 7000000).1 ≡ reading))
    ⊎ ((has_data reading.io ≡ false)
        × IsPublished api reading 7000000 (process_row_block api reading 7000000).1)
process_row_block-IsPublished_example =
    process_row_block-IsPublished api reading 7000000 row_published

-- A source of one whole plane that starts at 1000.
abbrev plane_cube : Cube.Cube
plane_cube = record {
  fits = record {
    select_hdu = λ hdu. some true;
    dimensions = some 2;
    axes = some (4, 3, 1);
    equivalent_type = some Cube.ushort_img;
    read_image = λ type first n. some pixels;
  };
  mapping = none;
  fd = none;
  native_datatype = Cube.tushort;
  info = fresh.cube_info;
}

abbrev showing : Impl (Unit {0})
showing = record fresh {
  io = some (record { status = Pool.need_data; buffer_id = none });
  pool = reading.pool;
  cube = some plane_cube;
  cadence = record {
    rate = rate_30;
    epoch = 1000;
    next_sequence = 0;
    next_pts = 1000;
    ended = false;
  };
}

plane_published : (process_plane api showing 2000).0 ≡ ok status_have_data
unfolding process_plane Cadence.due Cadence.newest Cadence.select Cadence.plane_at Cadence.pass
    Cadence.sequence_pts frame_offset due_frame take_plane Pool.take Pool.take_from Pool.slot_index
    Pool.mark fill_plane Cube.read_plane Cube.required_size publish_plane fill plane_frame
    ImageFrame.write ImageFrame.accepts ImageFrame.is_valid_pts ImageFrame.publish output_size
plane_published = refl

process_plane-IsPublished_example :
    (p : Cadence.Plane) × ((Cadence.due showing.cadence 2000 showing.cube_info.samples
        showing.loops).1
      ≡ some p)
    × (((has_data showing.io ≡ true)
          × ((process_plane api showing 2000).1
              ≡ record (scheduled api showing 2000) { discontinuity = true }))
        ⊎ ((has_data showing.io ≡ false)
            × IsPlanePublished api showing p 2000 (process_plane api showing 2000).1))
process_plane-IsPublished_example = process_plane-IsPublished api showing 2000 plane_published

reading_schedule : Pts.IsReadout reading.row_cadence
reading_schedule = record {
  rate_ok = record {
    num_pos = omega arith;
    num_word = omega arith;
    denom_pos = omega arith;
    denom_word = omega arith;
    period_pos = omega arith;
  };
  epoch_word = omega arith;
  readout_pos = omega arith;
  readout_word = omega arith;
  readout_fits = omega arith;
  blocks_pos = omega arith;
  blocks_word = omega arith;
}

reading-IsReadout : IsReadout reading
unfolding RowCadence.start RowCadence.block_pts RowCadence.frame_start RowCadence.completion
    RowCadence.saturated_time_add frame_offset
reading-IsReadout = record {
  source = record { rows = refl; measured = measured; divided = refl; counted = omega arith };
  ready = record {
    scheduled = start-IsRowScheduled rate_30 20000000 3 1000 reading_schedule;
    stored = λ e. inr (omega arith);
  };
}

process_row_block-IsShown_example :
    IsShown api reading 7000000 (process_row_block api reading 7000000).1
process_row_block-IsShown_example =
    process_row_block-IsShown api reading reading 7000000 reading-IsReadout at_start (omega arith)
      refl row_published
