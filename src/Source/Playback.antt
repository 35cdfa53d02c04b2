-- ===== src/Source/Playback.antt =====
-- `process_row_block`, `process_source` and `node_process` of spa/plugins/fits/source.c: one pass of
-- the graph over the source.
pub mod Invariant
pub mod Lost
pub mod Rows
pub mod Publication
pub mod PlanePublication
pub mod Ended
pub mod Owners
pub mod Refinement
pub mod Readout
pub mod Shown
mod Examples
pub mod Completion
use pipewireao_spa_plugin_fi.Base.{
  ℕ, ◌+◌, ◌*◌, Bool, true, false, not, ◌&&◌, ◌||◌, Option, none, some, List, [], ◌∷◌, ◌++◌, ◌==◌,
  if◌then◌else◌, length, get_elem?, set, take, drop, u32, u64,
}
use pipewireao_spa_plugin_fi.Errno.{Result, ok, err, Errno, eproto, eio}
use pipewireao_spa_plugin_fi.Cadence
use pipewireao_spa_plugin_fi.RowCadence
use pipewireao_spa_plugin_fi.Cube
use pipewireao_spa_plugin_fi.ImageFrame
use pipewireao_spa_plugin_fi.Pool
use pipewireao_spa_plugin_fi.Source.{
  Impl, Env, is_row, is_ndarray, output_size, output_stride, set_release_timer, next_release,
}

-- The statuses that a pass returns.
pub data Reply : Type 0 where
  status_ok status_have_data : Reply

abbrev no_header_flags : ImageFrame.HeaderFlags
no_header_flags = record {
  discont = false;
  corrupted = false;
  marker = false;
  header = false;
  gap = false;
  delta_unit = false;
  unknown = 0;
}

abbrev no_chunk_flags : ImageFrame.ChunkFlags
no_chunk_flags = record { corrupted = false; empty = false; unknown = 0 }

-- A copy to the start of a memory area.
abbrev pub overwrite : List ℕ → Option (List ℕ) → Option (List ℕ)
overwrite bytes none = none
overwrite bytes (some memory) = some (bytes ++ drop (length bytes) memory)

abbrev pub has_data : Option Pool.Io → Bool
has_data none = false
has_data (some io) = Pool.is_have_data io.status

abbrev pub is_id : Option ℕ → ℕ → Bool
is_id none id = false
is_id (some i) id = i == id

abbrev pub same_id : Option ℕ → Option ℕ → Bool
same_id none none = true
same_id none (some j) = false
same_id (some i) none = false
same_id (some i) (some j) = i == j

abbrev pub is_some {ℓ} : {A : Type ℓ} → Option A → Bool
is_some none = false
is_some (some a) = true

module _ {Metas : Type 0} where
  abbrev pub plane_format : Impl Metas → Cube.OutputFormat
  plane_format self = if is_ndarray self.output then Cube.output_native else Cube.output_gray16

  -- The buffer with bytes stored in its first data area.
  unfoldable pub fill : ImageFrame.Buffer Metas → ImageFrame.Data → List ℕ → ImageFrame.Buffer Metas
  fill buffer data_ bytes = record buffer {
    datas = set buffer.datas 0 (record data_ { memory = overwrite bytes data_.memory });
  }

  -- What a publication tells the host, the pool and the next block.
  unfoldable pub deliver : Impl Metas → ℕ → Pool.Slot Metas → ImageFrame.Buffer Metas → Impl Metas
  deliver self index slot buffer = record self {
    io = some (record { status = Pool.have_data; buffer_id = some slot.id });
    pool = record self.pool {
      slots =
          set self.pool.slots index (record slot { buffer = some buffer; state = Pool.published });
    };
    discontinuity = false;
  }

  -- A buffer that goes back to the pool unpublished, with what was stored in it.
  unfoldable pub drop_buffer :
      Impl Metas → ℕ → Pool.Slot Metas → Option (ImageFrame.Buffer Metas) → Impl Metas
  drop_buffer self index slot buffer = record self {
    pool = Pool.give_back self.pool index (record slot { buffer = buffer });
  }

  unfoldable pub abandon_frame : Impl Metas → ℕ → Impl Metas
  abandon_frame self now = record self {
    row_cadence = RowCadence.abandon self.row_cadence now self.cube_info.samples self.loops;
    discontinuity = true;
  }

  -- `completion_pending` with the final buffer.
  unfoldable pub await_completion : Bool → Impl Metas → ℕ → Impl Metas
  await_completion ended self id =
      if ended then record self { completion_pending = true; completion_buffer_id = id } else self

  -- The bytes of one row block of the prepared frames.
  unfoldable pub row_bytes : Impl Metas → List ℕ → RowCadence.RowBlock → List ℕ
  row_bytes self frames b =
      let first_row : ℕ = u32 (b.block * self.row_block_rows) in
      let element : ℕ =
        u64 (
          u64 (b.sample * self.cube_info.plane_elements)
          + u64 (first_row * self.cube_info.width)) in
      take (u32 (output_size self)) (drop (2 * element) frames)

  unfoldable pub row_flags : Impl Metas → RowCadence.RowBlock → ImageFrame.HeaderFlags
  row_flags self b = record no_header_flags {
    marker = u32 (b.block + 1) == self.row_cadence.blocks_per_frame;
    discont = (b.block == 0) && ((b.sequence == 0) || self.discontinuity);
  }

module _ {Metas Records : Type 0} (api : ImageFrame.MetaApi Metas Records) where
  -- The publication of a row block, and of a plane.
  unfoldable pub row_frame : Impl Metas → RowCadence.RowBlock → ImageFrame.ImageFrame Records
  row_frame self b = record {
    data_index = 0;
    header_flags = row_flags self b;
    chunk_flags = no_chunk_flags;
    offset = 0;
    size = u32 (output_size self);
    stride = output_stride self;
    header_offset = u32 (b.block * self.row_block_rows);
    sequence = b.sequence;
    pts = b.pts;
    records = api.no_records;
  }

  unfoldable pub plane_frame : Impl Metas → Cadence.Plane → ImageFrame.ImageFrame Records
  plane_frame self p = record {
    data_index = 0;
    header_flags = record no_header_flags { discont = p.discontinuity || self.discontinuity };
    chunk_flags = no_chunk_flags;
    offset = 0;
    size = u32 (output_size self);
    stride = output_stride self;
    header_offset = 0;
    sequence = p.sequence;
    pts = p.pts;
    records = api.no_records;
  }

  -- The end of `process_row_block`, with the block copied into `buffer`.
  unfoldable pub publish_row :
      Impl Metas
      → ℕ
      → RowCadence.RowBlock
      → ℕ
      → Pool.Slot Metas
      → ImageFrame.Buffer Metas
      → Result Reply × Impl Metas
  publish_row self now b index slot buffer =
      elim (ImageFrame.write api (some buffer) (some (row_frame self b))
        ImageFrame.require_header) [
          | err e ↦ (err e, abandon_frame (drop_buffer self index slot (some buffer)) now)
          | ok buffer' ↦
              let c : RowCadence.RowCadence =
                RowCadence.advance self.row_cadence self.cube_info.samples self.loops in
              (
                ok status_have_data,
                await_completion c.ended
                    (deliver (record self { row_cadence = c }) index slot buffer') slot.id,
              )
        ]

  -- A taken buffer without data, or without prepared frames, goes back.
  unfoldable pub fill_row :
      Impl Metas → ℕ → RowCadence.RowBlock → ℕ → Pool.Slot Metas → Result Reply × Impl Metas
  fill_row self now b index slot = elim slot.buffer [
    | none ↦ (err eproto, drop_buffer self index slot slot.buffer)
    | some buffer ↦ elim (get_elem? buffer.datas 0) [
      | none ↦ (err eproto, drop_buffer self index slot slot.buffer)
      | some data_ ↦ elim self.preloaded_frames [
        | none ↦ (err eproto, drop_buffer self index slot slot.buffer)
        | some frames ↦
            publish_row self now b index slot (fill buffer data_ (row_bytes self frames b))
      ]
    ]
  ]

  -- `take_buffer` and what follows, with the block that is due.
  unfoldable pub take_row : Impl Metas → ℕ → RowCadence.RowBlock → Result Reply × Impl Metas
  take_row self now b =
      let (index, pool) = Pool.take self.pool in
      elim index [
        | none ↦ (ok status_ok, abandon_frame self now)
        | some i ↦ elim (get_elem? pool.slots i) [
          | none ↦ (ok status_ok, abandon_frame self now)
          | some slot ↦ fill_row (record self { pool = pool }) now b i slot
        ]
      ]

  -- `process_row_block`
  unfoldable pub process_row_block : Impl Metas → ℕ → Result Reply × Impl Metas
  process_row_block self now =
      if has_data self.io
      then (ok status_have_data, self)
      else let (c, skipped) =
          RowCadence.select_latest self.row_cadence now self.cube_info.samples self.loops in
        let self' : Impl Metas = record self {
          row_cadence = c;
          discontinuity = skipped || self.discontinuity;
        } in
        elim (RowCadence.due c now self.cube_info.samples self.loops) [
          | none ↦ (ok status_ok, self')
          | some b ↦ take_row self' now b
        ]

  -- The publication of a plane that was read into `buffer`.
  unfoldable pub publish_plane :
      Impl Metas
      → Cadence.Plane
      → ℕ
      → Pool.Slot Metas
      → ImageFrame.Buffer Metas
      → Result Reply × Impl Metas
  publish_plane self p index slot buffer =
      elim (ImageFrame.write api (some buffer) (some (plane_frame self p))
        ImageFrame.require_header) [
          | err e ↦ (err e, drop_buffer self index slot (some buffer))
          | ok buffer' ↦ (
            ok status_have_data,
            await_completion (not self.loops && self.cadence.ended)
                (deliver self index slot buffer') slot.id,
          )
        ]

  unfoldable pub fill_plane :
      Impl Metas → Cadence.Plane → ℕ → Pool.Slot Metas → Result Reply × Impl Metas
  fill_plane self p index slot = elim slot.buffer [
    | none ↦ (err eproto, drop_buffer self index slot slot.buffer)
    | some buffer ↦ elim (get_elem? buffer.datas 0) [
      | none ↦ (err eproto, drop_buffer self index slot slot.buffer)
      | some data_ ↦
          elim (Cube.read_plane self.cube p.sample (plane_format self) (is_some data_.memory)
            data_.maxsize) [
              | err e ↦ (err e, drop_buffer self index slot slot.buffer)
              | ok bytes ↦ publish_plane self p index slot (fill buffer data_ bytes)
            ]
    ]
  ]

  unfoldable pub take_plane : Impl Metas → Cadence.Plane → Result Reply × Impl Metas
  take_plane self p =
      let (index, pool) = Pool.take self.pool in
      elim index [
        | none ↦ (ok status_ok, record self { discontinuity = true })
        | some i ↦ elim (get_elem? pool.slots i) [
          | none ↦ (ok status_ok, record self { discontinuity = true })
          | some slot ↦ fill_plane (record self { pool = pool }) p i slot
        ]
      ]

  -- The frame mode of `process_source`, once the clock is read.
  unfoldable pub process_plane : Impl Metas → ℕ → Result Reply × Impl Metas
  process_plane self now =
      let (c, plane) = Cadence.due self.cadence now self.cube_info.samples self.loops in
      let self' : Impl Metas = record self { cadence = c } in
      elim plane [
        | none ↦ (ok status_ok, self')
        | some p ↦
            if has_data self.io
            then (ok status_have_data, record self' { discontinuity = true })
            else take_plane self' p
      ]

  -- The timed row mode after a process pass: only the return of its own loan lets the timer go on.
  unfoldable pub finish_cycle : Env → Impl Metas → Bool → Result Reply × Impl Metas
  finish_cycle env self own =
      let reply : Result Reply = ok (if has_data self.io then status_have_data else status_ok) in
      if not own
      then (reply, self)
      else let self' : Impl Metas = record self { row_cycle_pending = false } in
        elim env.clock [
          | err e ↦ (err e, self')
          | ok now ↦
              let (res, self'') = set_release_timer env self' (next_release self' now) in
              elim res [ err e ↦ (err e, self'') | ok _ ↦ (reply, self'') ]
        ]

  -- The final buffer is back: playback is complete.
  unfoldable pub complete : Impl Metas → Impl Metas
  complete self = record self {
    completion_pending = false;
    row_cycle_pending = false;
    completed = true;
    started = false;
  }

  -- `process_source` after `recycle_buffer`; `back` is its result, `id` the recycled buffer.
  unfoldable pub process_recycled :
      Env → Impl Metas → Bool → Bool → Option ℕ → Result Reply × Impl Metas
  process_recycled env self timer_release back id =
      if back && (self.completion_pending && is_id id self.completion_buffer_id)
      then (ok status_ok, complete self)
      else if self.timerfd_readiness && (is_row self && not timer_release)
      then finish_cycle env self
          (self.row_cycle_pending && (back && same_id id self.row_cycle_buffer_id))
      else elim env.clock [
        | err e ↦ (err e, self)
        | ok now ↦ if is_row self then process_row_block self now else process_plane self now
      ]

  -- `process_source`
  unfoldable pub process_source : Env → Impl Metas → Bool → Result Reply × Impl Metas
  process_source env self timer_release =
      if not self.started then (ok status_ok, self) else elim self.io [
        | none ↦ (err eio, self)
        | some io ↦
            let (res, rest) = Pool.recycle (some io) self.pool in
            let self' : Impl Metas = record self { io = rest.0; pool = rest.1 } in
            elim res [
              | err e ↦ (err e, self')
              | ok back ↦ process_recycled env self' timer_release back io.buffer_id
            ]
      ]

  -- `node_process`
  unfoldable pub node_process : Env → Impl Metas → Result Reply × Impl Metas
  node_process env self = process_source env self false
