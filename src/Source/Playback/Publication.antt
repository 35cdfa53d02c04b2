-- ===== src/Source/Playback/Publication.antt =====
-- What a pass of `process_row_block` that publishes leaves for the host.
use mathlib.Core.Option
use pipewireao_spa_plugin_fi.Base.{
  Option, none, ◌++◌, drop, length, set, sym, ◌==◌, ◌&&◌, ◌*◌, ◌+◌, u32, ℕ, ◌≡◌, refl, ap, ◌∙◌, ◌⊎◌,
  inl, inr, Bool, true, false, ◌||◌, some, List, get_elem?, get_elem?-set_self, get_elem?-lt, arith,
  Option-cases, Bool-cases,
}
use pipewireao_spa_plugin_fi.Errno.{Result, ok, err, Errno, Result-cases}
use pipewireao_spa_plugin_fi.RowCadence
use pipewireao_spa_plugin_fi.ImageFrame
use pipewireao_spa_plugin_fi.ImageFrame.Write.{write-Published}
use pipewireao_spa_plugin_fi.Pool
use pipewireao_spa_plugin_fi.Source.{Impl, output_size, output_stride}
use pipewireao_spa_plugin_fi.Source.Playback.{
  overwrite, row_flags, Reply, status_ok, status_have_data, fill, has_data, deliver,
  await_completion, row_bytes, row_frame, publish_row, fill_row, take_row, process_row_block,
}

pub err-ok : {x : Errno} {y : Reply} → ◌≡◌ {A = Result Reply} (err x) (ok y) → ⊥
err-ok e = cc

-- A buffer that was written once: its Header, and the bytes and the chunk of its first data area.
pub record IsFilled {Metas : Type 0} (data_ : ImageFrame.Data) (bytes : List ℕ)
    (header : ImageFrame.Header) (chunk : ImageFrame.Chunk) (written : ImageFrame.Buffer Metas)
    : Type 0 where
  pub stamped : written.header ≡ some header
  pub stored :
      get_elem? written.datas 0
      ≡ some (record data_ {
        memory = Option.map (λ m. bytes ++ drop (length bytes) m) data_.memory;
        chunk = some chunk;
      })

overwrite-map :
    (bytes : List ℕ) (memory : Option (List ℕ))
    → overwrite bytes memory ≡ Option.map (λ m. bytes ++ drop (length bytes) m) memory
overwrite-map bytes none = refl
overwrite-map bytes (some m) = refl

module _ {Metas Records : Type 0} (api : ImageFrame.MetaApi Metas Records) where
  -- What a write leaves in a buffer whose first data area was filled.
  pub fill-IsFilled :
      (buffer : ImageFrame.Buffer Metas) (data_ : ImageFrame.Data) (bytes : List ℕ)
      (frame : ImageFrame.ImageFrame Records) (requirements : ImageFrame.Requirements)
      (written : ImageFrame.Buffer Metas)
      → get_elem? buffer.datas 0 ≡ some data_
      → frame.data_index ≡ 0
      → ImageFrame.write api (some (fill buffer data_ bytes)) (some frame) requirements ≡ ok written
      → IsFilled data_ bytes
          (record {
            flags = frame.header_flags;
            offset = frame.header_offset;
            pts = frame.pts;
            dts_offset = 0;
            seq = frame.sequence;
          })
          (record {
            offset = frame.offset;
            size = frame.size;
            stride = frame.stride;
            flags = frame.chunk_flags;
          })
          written
  unfolding fill
  fill-IsFilled buffer data_ bytes frame requirements written found first e =
      let (_, p) = write-Published api (fill buffer data_ bytes) frame requirements written e in
      let filled : ImageFrame.Data = record data_ { memory = overwrite bytes data_.memory } in
      let at : get_elem? (set buffer.datas 0 filled) 0 ≡ some filled =
        get_elem?-set_self buffer.datas 0 filled (get_elem?-lt buffer.datas 0 found) in
      let (d, is_d, out, _, _) = p.chunk in
      let chunk : ImageFrame.Chunk = record {
        offset = frame.offset;
        size = frame.size;
        stride = frame.stride;
        flags = frame.chunk_flags;
      } in
      let same : d ≡ filled =
        some-eq (sym is_d ∙ ap (get_elem? (set buffer.datas 0 filled)) first ∙ at) in
      record {
        stamped = p.header.1;
        stored =
            ap (get_elem? written.datas) (sym first)
            ∙ out
            ∙ ap {A = ImageFrame.Data} {B = Option ImageFrame.Data}
                (λ x. some (record x { chunk = some chunk })) same
            ∙ ap {A = Option (List ℕ)} {B = Option ImageFrame.Data}
                (λ m. some (record data_ { memory = m; chunk = some chunk }))
                (overwrite-map bytes data_.memory);
      }
    where
      some-eq : {x y : ImageFrame.Data} → ◌≡◌ {A = Option ImageFrame.Data} (some x) (some y) → x ≡ y
      some-eq h = cc

  -- The block is with the host: in a buffer of the pool that holds the rows, written by one publication,
  -- and the io area names it.
  pub record IsRowOut (self : Impl Metas) (b : RowCadence.RowBlock) (index : ℕ)
      (slot : Pool.Slot Metas) (after : Impl Metas) : Type 0 where
    pub buffer : ImageFrame.Buffer Metas
    pub data_ : ImageFrame.Data
    pub frames : List ℕ
    pub written : ImageFrame.Buffer Metas
    pub held : slot.buffer ≡ some buffer
    pub data_found : get_elem? buffer.datas 0 ≡ some data_
    pub prepared : self.preloaded_frames ≡ some frames
    pub write_ok :
        ImageFrame.write api
          (some (fill buffer data_ (row_bytes self frames b)))
          (some (row_frame api self b))
          ImageFrame.require_header
        ≡ ok written
    pub filled :
        IsFilled data_
          (row_bytes self frames b)
          (record {
            flags = record {
              discont = (b.block == 0) && ((b.sequence == 0) || self.discontinuity);
              corrupted = false;
              marker = u32 (b.block + 1) == self.row_cadence.blocks_per_frame;
              header = false;
              gap = false;
              delta_unit = false;
              unknown = 0;
            };
            offset = u32 (b.block * self.row_block_rows);
            pts = b.pts;
            dts_offset = 0;
            seq = b.sequence;
          })
          (record {
            offset = 0;
            size = u32 (output_size self);
            stride = output_stride self;
            flags = record { corrupted = false; empty = false; unknown = 0 };
          })
          written
    pub announced : after.io ≡ some (record { status = Pool.have_data; buffer_id = some slot.id })
    pub out :
        get_elem? after.pool.slots index
        ≡ some (record slot { buffer = some written; state = Pool.published })
    pub continuous : after.discontinuity ≡ false

  pub await_completion-io :
      (ended : Bool) (self : Impl Metas) (id : ℕ)
      → ((await_completion ended self id).io ≡ self.io)
        × ((await_completion ended self id).pool ≡ self.pool)
        × ((await_completion ended self id).discontinuity ≡ self.discontinuity)
  unfolding await_completion
  await_completion-io true self id = (refl, refl, refl)
  await_completion-io false self id = (refl, refl, refl)

  module _ (self : Impl Metas) (now : ℕ) (b : RowCadence.RowBlock) (i : ℕ) (slot : Pool.Slot Metas)
      (found : get_elem? self.pool.slots i ≡ some slot) where
    fill_row-IsRowOut :
        (fill_row api self now b i slot).0 ≡ ok status_have_data
        → IsRowOut self b i slot (fill_row api self now b i slot).1
    unfolding fill_row publish_row deliver
    fill_row-IsRowOut e = elim (Option-cases slot.buffer) [
      | inl f ↦ absurd (err-ok (rw (f, fill_row) at e))
      | inr (buffer, f) ↦ elim (Option-cases (get_elem? buffer.datas 0)) [
        | inl g ↦ absurd (err-ok (rw (f, g, fill_row) at e))
        | inr (d, g) ↦ elim (Option-cases self.preloaded_frames) [
          | inl h ↦ absurd (err-ok (rw (f, g, h, fill_row) at e))
          | inr (frames, h) ↦
              elim (Result-cases (
                ImageFrame.write api (some (fill buffer d (row_bytes self frames b)))
                  (some (row_frame api self b)) ImageFrame.require_header)) [
                    | inr (x, k) ↦ absurd (err-ok (rw (f, g, h, fill_row, k, publish_row) at e))
                    | inl (written, k) ↦ record {
                      buffer = buffer;
                      data_ = d;
                      frames = frames;
                      written = written;
                      held = f;
                      data_found = g;
                      prepared = h;
                      write_ok = k;
                      filled =
                          unfold row_frame row_flags in
                          fill-IsFilled buffer d (row_bytes self frames b) (row_frame api self b)
                            ImageFrame.require_header written g refl k;
                      announced =
                          rw (f, g, h, fill_row, k, publish_row)
                            (await_completion-io _ _ slot.id).0;
                      out =
                          rw (f, g, h, fill_row, k, publish_row)
                            (ap (λ p. get_elem? p.slots i) (await_completion-io _ _ slot.id).1
                              ∙ get_elem?-set_self self.pool.slots i
                                  (record slot { buffer = some written; state = Pool.published })
                                  (get_elem?-lt self.pool.slots i found));
                      continuous =
                          rw (f, g, h, fill_row, k, publish_row)
                            (await_completion-io _ _ slot.id).2;
                    }
                  ]
        ]
      ]
    ]

  -- The state once the readout has skipped obsolete frames, and once a buffer is taken.
  abbrev pub selected : Impl Metas → ℕ → Impl Metas
  selected self now =
      let (c, skipped) =
        RowCadence.select_latest self.row_cadence now self.cube_info.samples self.loops in
      record self { row_cadence = c; discontinuity = skipped || self.discontinuity }

  abbrev pub holding : Impl Metas → Impl Metas
  holding self = record self { pool = (Pool.take self.pool).1 }

  pub idle-data : ◌≡◌ {A = Result Reply} (ok status_ok) (ok status_have_data) → ⊥
  idle-data e = cc

  -- A pass that publishes: the block that is due, in the buffer that was taken.
  pub record IsPublished (self : Impl Metas) (now : ℕ) (after : Impl Metas) : Type 0 where
    pub block : RowCadence.RowBlock
    pub due :
        RowCadence.due (selected self now).row_cadence now self.cube_info.samples self.loops
        ≡ some block
    pub index : ℕ
    pub slot : Pool.Slot Metas
    pub taken : (Pool.take self.pool).0 ≡ some index
    pub found : get_elem? (Pool.take self.pool).1.slots index ≡ some slot
    pub row_out : IsRowOut (holding (selected self now)) block index slot after

  module _ (self : Impl Metas) (now : ℕ) (b : RowCadence.RowBlock) where
    take_row-IsRowOut :
        (take_row api self now b).0 ≡ ok status_have_data
        → (i : ℕ) × (slot : Pool.Slot Metas) × ((Pool.take self.pool).0 ≡ some i)
          × (get_elem? (Pool.take self.pool).1.slots i ≡ some slot)
          × IsRowOut (holding self) b i slot (take_row api self now b).1
    unfolding take_row
    take_row-IsRowOut e = elim (Option-cases (Pool.take self.pool).0) [
      | inl f ↦ absurd (idle-data (rw (f, take_row) at e))
      | inr (i, f) ↦ elim (Option-cases (get_elem? (Pool.take self.pool).1.slots i)) [
        | inl g ↦ absurd (idle-data (rw (f, g, take_row) at e))
        | inr (slot, g) ↦ (
          i,
          slot,
          f,
          g,
          rw (f, g, take_row)
              (fill_row-IsRowOut (holding self) now b i slot g (rw (f, g, take_row) at e)),
        )
      ]
    ]

  -- A pass of `process_row_block` that answers HAVE_DATA either finds an output that the host has not read,
  -- and changes nothing, or publishes the block that is due once obsolete frames are skipped: in the free
  -- buffer that was taken the memory starts with the rows of that block, its Header has the time, the
  -- number, the first row and the marks of the block, its chunk the size and the stride of the output, the
  -- buffer is with the host, and the io area names it.
  pub process_row_block-IsPublished :
      (self : Impl Metas) (now : ℕ)
      → (process_row_block api self now).0 ≡ ok status_have_data
      → ((has_data self.io ≡ true) × ((process_row_block api self now).1 ≡ self))
        ⊎ ((has_data self.io ≡ false) × IsPublished self now (process_row_block api self now).1)
  unfolding process_row_block
  process_row_block-IsPublished self now e = elim (Bool-cases (has_data self.io)) [
    | inl f ↦ inl (f, ground arith)
    | inr f ↦
        elim (Option-cases
          (RowCadence.due (selected self now).row_cadence now self.cube_info.samples self.loops)) [
            | inl g ↦ absurd (idle-data (rw (f, g, process_row_block) at e))
            | inr (b, g) ↦
                let (i, slot, taken, found, out) =
                  take_row-IsRowOut (selected self now) now b (rw (f, g, process_row_block) at e) in
                inr (
                  f,
                  record {
                    block = b;
                    due = g;
                    index = i;
                    slot = slot;
                    taken = taken;
                    found = found;
                    row_out = rw (f, g, process_row_block) out;
                  },
                )
          ]
  ]
