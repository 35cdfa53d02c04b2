-- ===== src/Source/Examples.antt =====
-- A source of one 4 by 3 plane of 16 bits at 30 frames a second: in whole frames, and in blocks of one row.
use pipewireao_spa_plugin_fi.Base.{
  ℕ, ◌≡◌, refl, inr, ◌⊎◌, true, false, Option, none, some, List, [], ◌∷◌, arith, u64_max,
}
use pipewireao_spa_plugin_fi.Errno.{ok}
use pipewireao_spa_plugin_fi.Rate.{Fraction, frame_offset, due_frame}
use pipewireao_spa_plugin_fi.Cadence
use pipewireao_spa_plugin_fi.RowCadence
use pipewireao_spa_plugin_fi.Cube
use pipewireao_spa_plugin_fi.ImageFrame
use pipewireao_spa_plugin_fi.Pool
use pipewireao_spa_plugin_fi.Source.{
  Config, Impl, Env, frame_mode, row_block_mode, output_gray16, row_major, output_size,
}
use pipewireao_spa_plugin_fi.Source.Playback.{Reply, process_source, node_process, row_bytes}
use pipewireao_spa_plugin_fi.Source.Playback.Owners.{IsPass}
use pipewireao_spa_plugin_fi.Source.Playback.Refinement.{process_source-IsPass}
use pipewireao_spa_plugin_fi.Source.Playback.Invariant.{PoolOk, process_source-PoolOk}
use pipewireao_spa_plugin_fi.Source.Playback.Completion.{Outcome, process_source-Outcome}
use pipewireao_spa_plugin_fi.RowCadence.{RowBlock}
use pipewireao_spa_plugin_fi.Source.Playback.Rows.{IsRowSource, IsSlice, row_bytes-IsSlice}
use pipewireao_spa_plugin_fi.Cube.Open.{IsMeasured}
use pipewireao_spa_plugin_fi.Source.Playback.Lost.{here, passed, pending-lost}
use pipewireao_spa_plugin_fi.Source.Control.{
  TimerEvent, start_command, send_command, start_source, stop_source, timer_ready,
}
use pipewireao_spa_plugin_fi.Source.Control.Start.{
  Started, start_source-Started, stop_source-stopped,
}
use pipewireao_spa_plugin_fi.Source.Control.Cycle.{IsReturn, row_cycle-waits}
use pipewireao_spa_plugin_fi.Source.Port.{
  PortId, use_buffers, set_io, is_usable, all_usable, assign,
}
use pipewireao_spa_plugin_fi.Source.Port.Buffers.{Assigned, use_buffers-Assigned}
use pipewireao_spa_plugin_fi.Source.Node.{
  IsNode, Calls, none_yet, and_set_io, and_use_buffers, and_command, and_process, Calls-IsNode,
}

abbrev pub api : ImageFrame.MetaApi (Unit {0}) (Unit {0})
api = record {
  layout_validate = λ m. true;
  records_validate = λ r. true;
  records_copy = λ m r. some m;
  no_records = tt;
}

abbrev pub rate_30 : Fraction
rate_30 = record { num = 30; denom = 1 }

abbrev config : Config
config = record {
  layout = row_major;
  schema = [];
  cube_info = record {
    sample_rank = 2;
    width = 4;
    height = 3;
    samples = 1;
    element_type = Cube.u16_le;
    element_size = 2;
    plane_elements = 12;
    plane_size = 24;
  };
  rate = rate_30;
  output_rate = rate_30;
  simulated_readout_time_ns = 0;
  row_block_rows = 0;
  output_mode = frame_mode;
  loops = false;
  timerfd_readiness = false;
}

abbrev no_cadence : Cadence.Cadence
no_cadence = record { rate = rate_30; epoch = 0; next_sequence = 0; next_pts = 0; ended = false }

abbrev no_row_cadence : RowCadence.RowCadence
no_row_cadence = record {
  frame_rate = rate_30;
  readout_time_ns = 0;
  epoch = 0;
  next_sequence = 0;
  next_pts = 0;
  blocks_per_frame = 0;
  next_block = 0;
  ended = false;
}

-- A source that the factory has just made, with a format.
abbrev pub fresh : Impl (Unit {0})
fresh = record {
  config = config;
  output = output_gray16;
  io = none;
  pool = record { slots = []; scan_hint = 0 };
  have_format = true;
  cube = none;
  cadence = no_cadence;
  row_cadence = no_row_cadence;
  preloaded_frames = none;
  discontinuity = false;
  started = false;
  row_cycle_pending = false;
  row_cycle_buffer_id = none;
  completion_pending = false;
  completion_buffer_id = 0;
  completed = false;
  timer = none;
}

abbrev env : Env
env = record { clock = ok 1000; clock_after = ok 2000; timer_result = ok tt }

abbrev area : ImageFrame.Data
area = record {
  kind = ImageFrame.mem_ptr;
  memory = some [];
  maxsize = 24;
  chunk = some (record {
    offset = 0;
    size = 0;
    stride = 0;
    flags = record { corrupted = false; empty = false; unknown = 0 };
  });
}

abbrev pub buffer : ImageFrame.Buffer (Unit {0})
buffer = record {
  datas = area ∷ [];
  header = some (record {
    flags = record {
      discont = false;
      corrupted = false;
      marker = false;
      header = false;
      gap = false;
      delta_unit = false;
      unknown = 0;
    };
    offset = 0;
    pts = 0;
    dts_offset = 0;
    seq = 0;
  });
  metas = tt;
}

abbrev buffers : List (Option (ImageFrame.Buffer (Unit {0})))
buffers = some buffer ∷ some buffer ∷ []

abbrev port : PortId
port = record { is_output = true; port_id = 0 }

abbrev io_area : Pool.Status → Option ℕ → Pool.Io
io_area status id = record { status = status; buffer_id = id }

fresh-IsNode : IsNode fresh
fresh-IsNode = record {
  pool_ok = (
    record { few = omega arith; hint_inside = inr (refl, refl); own_id = λ i s e. cc },
    λ i s e h. cc,
    refl,
  );
  formatted = λ ne. refl;
  playing = λ on. cc;
}

buffers_taken : use_buffers fresh port buffers ≡ (ok tt, assign fresh buffers)
unfolding use_buffers all_usable is_usable output_size
buffers_taken = refl

use_buffers-Assigned_example : Assigned fresh buffers (assign fresh buffers)
use_buffers-Assigned_example =
    use_buffers-Assigned fresh port buffers (assign fresh buffers) buffers_taken (λ e. cc)

-- The host gives buffers and an io area, starts the source and drives it once.
abbrev with_buffers : Impl (Unit {0})
with_buffers = (use_buffers fresh port buffers).1

abbrev with_io : Impl (Unit {0})
with_io = (set_io with_buffers port true (some (io_area Pool.need_data none)) true).1

abbrev playing : Impl (Unit {0})
playing = (send_command env with_io start_command).1

abbrev driven : Impl (Unit {0})
driven = (node_process api env playing).1

until_playing : Calls api fresh playing
until_playing = and_command fresh with_io env start_command (
    and_set_io fresh with_buffers port true (some (io_area Pool.need_data none)) true
      (and_use_buffers fresh fresh port buffers (none_yet fresh)))

Calls-IsNode_example : IsNode driven
Calls-IsNode_example =
    Calls-IsNode api fresh driven (and_process fresh playing env until_playing) fresh-IsNode

playing-IsNode : IsNode playing
playing-IsNode = Calls-IsNode api fresh playing until_playing fresh-IsNode

process_source-PoolOk_example :
    PoolOk (Pool.n_buffers playing.pool) (process_source api env playing false).1.pool
process_source-PoolOk_example =
    process_source-PoolOk api (Pool.n_buffers playing.pool) env playing false playing-IsNode.pool_ok

process_source-IsPass_example : IsPass playing (process_source api env playing false).1
process_source-IsPass_example =
    process_source-IsPass api env playing false playing-IsNode.pool_ok.0 playing-IsNode.pool_ok.1

process_source-Outcome_example : Outcome api playing (process_source api env playing false).1
process_source-Outcome_example = process_source-Outcome api env playing false

start_source-Started_example : Started env with_io (start_source env with_io)
start_source-Started_example = start_source-Started env with_io

stop_source-stopped_example :
    ((stop_source env playing).1.started ≡ false)
    × (playing.started ≡ false
        → ((stop_source env playing).0 ≡ ok tt) × ((stop_source env playing).1 ≡ playing))
    × (playing.started ≡ true
        → ((stop_source env playing).1.completion_pending ≡ false)
          × ((stop_source env playing).1.row_cycle_pending ≡ false)
          × ((stop_source env playing).1.completed ≡ playing.completed)
          × ((stop_source env playing).1.pool ≡ playing.pool)
          × (playing.timerfd_readiness ≡ true
              → (stop_source env playing).0 ≡ ok tt
              → (stop_source env playing).1.timer ≡ none))
stop_source-stopped_example = stop_source-stopped env playing

-- A started source whose only plane is due while the host has not read the output before it.
abbrev unread : Pool.Io
unread = io_area Pool.have_data (some 0)

abbrev behind : Impl (Unit {0})
behind = record fresh {
  started = true;
  io = some unread;
  cadence = record {
    rate = rate_30;
    epoch = 1000;
    next_sequence = 0;
    next_pts = 1000;
    ended = false;
  };
}

abbrev over : Cadence.Cadence
over = record { rate = rate_30; epoch = 1000; next_sequence = 1; next_pts = u64_max; ended = true }

abbrev only_plane : Cadence.Plane
only_plane = record { sequence = 0; sample = 0; pts = 1000; discontinuity = true }

only_plane-due : Cadence.due behind.cadence 1000 1 false ≡ (over, some only_plane)
unfolding Cadence.due Cadence.select Cadence.newest Cadence.plane_at Cadence.pass
    Cadence.sequence_pts frame_offset due_frame
only_plane-due = refl

abbrev dropped : Impl (Unit {0})
dropped = (process_source api env behind false).1

pending-lost_example : (process_source api env dropped false).1.completed ≡ false
pending-lost_example =
    pending-lost api env behind false unread 1000 over only_plane
      (process_source api env dropped false).1 refl refl refl refl refl refl only_plane-due refl
      (passed dropped env false here)

abbrev row_config : Config
row_config = record config {
  simulated_readout_time_ns = 20000000;
  row_block_rows = 1;
  output_mode = row_block_mode;
  timerfd_readiness = true;
}

abbrev pub waiting : Impl (Unit {0})
waiting = record fresh {
  config = row_config;
  started = true;
  row_cycle_pending = true;
  row_cycle_buffer_id = some 1;
}

abbrev quiet_host : Reply → Impl (Unit {0}) → Impl (Unit {0})
quiet_host reply s = s

abbrev expired : TimerEvent
expired = record { failed = false; input = true; read_result = ok tt }

row_cycle-waits_example :
    ((process_source api env waiting false).1.row_cadence ≡ waiting.row_cadence)
    × (waiting.row_cycle_pending ≡ true
        → (((process_source api env waiting false).1.row_cycle_pending ≡ true)
            ⊎ ((io : Pool.Io) × (id : ℕ) × IsReturn api waiting io id))
          × ((timer_ready api quiet_host env expired waiting ≡ waiting)
              ⊎ (timer_ready api quiet_host env expired waiting ≡ record waiting { timer = none })))
row_cycle-waits_example = row_cycle-waits api quiet_host env expired waiting refl refl

pub measured : IsMeasured waiting.cube_info
measured = record {
  rank = inr refl;
  width_range = (omega arith, omega arith);
  height_range = (omega arith, omega arith);
  vector = λ e. absurd (omega arith);
  samples_pos = omega arith;
  element_size_range = (omega arith, omega arith);
  elements = refl;
  size = refl;
  size_fits = omega arith;
  cube_fits = omega arith;
}

row_source : IsRowSource waiting 3
row_source = record { rows = refl; measured = measured; divided = refl; counted = omega arith }

abbrev pub pixels : List ℕ
pixels =
    0 ∷ 0 ∷ 1 ∷ 0 ∷ 2 ∷ 0 ∷ 3 ∷ 0 ∷ 4 ∷ 0 ∷ 5 ∷ 0 ∷ 6 ∷ 0 ∷ 7 ∷ 0 ∷ 8 ∷ 0 ∷ 9 ∷ 0 ∷ 10 ∷ 0 ∷ 11 ∷ 0
    ∷ []

abbrev second_row : RowBlock
second_row = record { sequence = 0; sample = 0; block = 1; pts = 1000 }

row_bytes-IsSlice_example :
    IsSlice waiting 3 pixels second_row (row_bytes waiting pixels second_row)
row_bytes-IsSlice_example =
    row_bytes-IsSlice waiting 3 pixels second_row row_source (omega arith) (omega arith)
