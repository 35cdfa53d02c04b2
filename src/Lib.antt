-- ===== src/Lib.antt =====
-- A model of the FITS source plugin for PipeWire AO (spa/plugins/fits, spa/plugins/image-frame.h): a
-- SPA node that plays the planes of a FITS image, vector or cube as whole frames or as simulated
-- camera rows, at a fixed rate. All definitions are translated from the C code and can be evaluated.
--
-- A host negotiates a format and buffers on the output port, gives the node an io area, and starts it.
-- Then either the host drives the node (node_process) or a timer of the node does (timer_ready). Each
-- pass takes back the buffer that the host has read, asks a schedule what is due, takes a free buffer,
-- fills it from the cube or from prepared frames, and publishes it. The state of a source is the
-- record Impl of Source, and each operation is a function from it to a result and the new state.
--
--   * Base, with Base/Tests, Base/Word, Base/Sequence and Base/Division: numbers, tests, machine words
--     (u32, u64, u128 write out the wrap-around), lists, copies into the middle of a memory area
--     (Base/Store). Errno: error codes and results; `-EINVAL` is `err einval`.
--   * Rate: struct spa_fraction, the start of a frame at a rate and the number of frames that have
--     begun.
--   * Cadence: struct cadence, cadence_start, cadence_due, sequence_pts, release_after of
--     spa/plugins/fits/source.c. Cadence/Schedule, Cadence/Due and Cadence/Playback hold the proofs.
--   * RowCadence: struct row_cadence and row_cadence_start, _advance, _abandon, _select_latest, _due,
--     row_frame_start, row_block_pts of spa/plugins/fits/source.c, with RowCadence/Pts,
--     RowCadence/Steps, RowCadence/Abandon, RowCadence/Latest, RowCadence/Ready and RowCadence/Advance.
--   * Pool: the buffers of struct port, recycle_buffer, take_buffer, return_buffer, release_buffers of
--     spa/plugins/fits/source.c, with Pool/Take, Pool/Search, Pool/Ownership and Pool/Held. The state of
--     each buffer says who holds it: nobody, the producer inside a pass, or the host.
--   * ImageFrame: pwao_image_frame_write of spa/plugins/image-frame.h, with ImageFrame/Write.
--   * Cube: spa/plugins/fits/cube.c and cube.h, with Cube/Forms, Cube/Described, Cube/Open and
--     Cube/Read. An open CFITSIO file is a record of its answers.
--   * BlockRate: greatest_common_divisor and block_rate of spa/plugins/fits/source.c, with
--     BlockRate/Divisor and BlockRate/Reduced.
--   * Source: struct impl, output_size, output_stride, set_release_timer, next_release of
--     spa/plugins/fits/source.c. Source/Playback: process_row_block, process_source, node_process, with
--     Source/Playback/Invariant, Source/Playback/Completion, Source/Playback/Lost, Source/Playback/Rows,
--     Source/Playback/Publication and Source/Playback/PlanePublication; Source/Playback/Owners states
--     who holds the buffers without regard to how the pool stores them, Source/Playback/Ended how a pass
--     that has taken a buffer ends, and Source/Playback/Refinement that the passes follow it;
--     Source/Playback/Readout follows the schedule of row blocks through the passes, and
--     Source/Playback/Shown says what they publish. Source/Control: timer_ready, stop_source,
--     node_send_command, with Source/Control/Start and Source/Control/Cycle. Source/Port:
--     port_set_param, port_use_buffers, port_set_io, with Source/Port/Buffers. Source/Node: the calls of
--     a host in any order. Source/Prepare: preload_row_frames.
--   * Source/Info: emit_node_info, emit_port_info, node_add_listener, node_set_callbacks, and what
--     port_set_param and init tell of the node and the port; the hook lists of SPA are a record of
--     functions. Source/Info/Heard says what each listener knows, by the calls in Source/Info/Log.
--   * Source/Parameters: build_node_param, node_enum_params, build_port_param, port_enum_params,
--     node_set_param, node_set_io, node_add_port, node_remove_port. Source/Parameters/Enumeration and
--     Source/Parameters/Offered say which results a host gets, Source/Parameters/Formats and
--     Source/Parameters/Negotiation which formats the port takes.
--   * Text: texts of C as lists of codes, and strtoumax, sscanf and snprintf for decimal numbers, with
--     Text/Decimal.
--   * Factory: copy_text, parse_u32, parse_u64, parse_bool, parse_rate of spa/plugins/fits/source.c,
--     with Factory/Rates. Factory/Options: the options that init reads and configure_props, with
--     Factory/Vouched (what the checks give), Factory/Reports, Factory/Checks and Factory/RoundTrip (the
--     properties of a source make the same options again). Factory/Handle: init from the opening of the
--     cube on, remove_timer_source and clear, with Factory/Handle/Planes, Factory/Handle/Made,
--     Factory/Handle/Fresh, Factory/Handle/Initialised, Factory/Handle/Cleared and
--     Factory/Handle/Playing (a source of row blocks once it is started).
--   * Cadence/Examples, RowCadence/Examples, BlockRate/Examples, Pool/Examples, ImageFrame/Examples,
--     Cube/Examples, Factory/Examples, Source/Examples, Source/Parameters/Examples,
--     Source/Info/Examples, Source/Playback/Examples and Source/Prepare/Examples: runs on concrete data.
--
-- The loop of take_buffer makes as many rounds as there are buffers; the loops of the enumerations
-- have three rounds, and no parameter has more than two pods; a number of 64 bits has at most 20
-- digits; the loop of greatest_common_divisor has fuel for one round more than its right number, which
-- is smaller in each round. The memory of a buffer is a list of bytes; a write replaces its start. The
-- host shares only the io area with the source, and writes to it between two calls. Readings of the
-- clock are arguments of the operations (Env), one for each that a call may make.
--
-- Parameters stand for code outside the repository: the answers of CFITSIO and of the system calls
-- (FitsFile, System, Env, World, Closing), spa_atou32 and what %u stores for a number that does not
-- fit (Host), the lookup of a property, the builder and the filter of pods (Builder), the functions of
-- SPA on metadata records (MetaApi), its hook lists (HookApi), the parsers of format parameters, and
-- the reaction of the host to a publication by the timer. Theorems on the schedules assume what the
-- factory checks: a rate with a period of at least a nanosecond (IsRate), a readout within one frame
-- period (IsReadout), and for whole frames a clock that is one period away from its wrap. The theorems
-- on prepared frames assume that memory comes in the size that is asked for and that a read of CFITSIO
-- fills what it was asked for (FillsPlane, ReadsWhole).
--
-- Not modelled: the encoding of parameters as SPA PODs, the enumeration of the factory of the plugin
-- and of its interface, log messages and error texts, and prefaulting. The texts that init prints fit
-- in their arrays, so none of them is cut.

pub mod Base
pub mod BlockRate
pub mod Cadence
pub mod Cube
pub mod Errno
pub mod Factory
pub mod ImageFrame
pub mod Pool
pub mod Rate
pub mod RowCadence
pub mod Source
pub mod Text
