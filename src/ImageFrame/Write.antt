-- ===== src/ImageFrame/Write.antt =====
-- `pwao_image_frame_write`: what a publication stores, and when it is refused.
use pipewireao_spa_plugin_fi.Base.{
  ℕ, ◌+◌, ◌^◌, ◌≤◌, ◌<◌, ◌≡◌, ◌≢◌, ap, ◌∙◌, ◌⊎◌, inl, inr, true, false, none, some, arith,
  get_elem?, set, get_elem?-set_self, get_elem?-set_ne, get_elem?-lt, Bool-cases, Option-cases,
}
use pipewireao_spa_plugin_fi.Errno.{ok}
use pipewireao_spa_plugin_fi.ImageFrame.{
  Requirements, Header, Chunk, Data, Buffer, MetaApi, ImageFrame, is_valid_pts, time_invalid,
  publish_chunk, publish_header, accepts, publish, write,
}

module _ {Metas Records : Type 0} (api : MetaApi Metas Records) where
  -- What the checks of `pwao_image_frame_write` want of its arguments.
  pub record IsPublishable (buffer : Buffer Metas) (frame : ImageFrame Records)
      (requirements : Requirements) : Type 0 where
    pub known :
        (requirements.unknown ≡ 0)
        × (frame.header_flags.unknown ≡ 0)
        × (frame.chunk_flags.unknown ≡ 0)
    pub timed : (frame.pts < 2 ^ 63) ⊎ (frame.pts ≡ time_invalid)
    pub layout : api.layout_validate buffer.metas ≡ true
    pub records : api.records_validate frame.records ≡ true

  -- What one publication leaves in the buffer.
  pub record Published (buffer : Buffer Metas) (frame : ImageFrame Records) (buffer' : Buffer Metas)
      : Type 0 where
    pub header :
        (buffer.header ≢ none)
        × (buffer'.header
            ≡ some (record {
              flags = frame.header_flags;
              offset = frame.header_offset;
              pts = frame.pts;
              dts_offset = 0;
              seq = frame.sequence;
            }))
    pub chunk :
        (d : Data) × (get_elem? buffer.datas frame.data_index ≡ some d)
        × (get_elem? buffer'.datas frame.data_index
            ≡ some (record d {
              chunk = some (record {
                offset = frame.offset;
                size = frame.size;
                stride = frame.stride;
                flags = frame.chunk_flags;
              });
            }))
        × (d.chunk ≢ none)
        × (frame.offset + frame.size ≤ d.maxsize)
    pub others :
        (i : ℕ) → frame.data_index ≢ i → get_elem? buffer'.datas i ≡ get_elem? buffer.datas i
    pub copied : api.records_copy buffer.metas frame.records ≡ some buffer'.metas

  publish-eq :
      (buffer : Buffer Metas) (frame : ImageFrame Records) (d : Data) (buffer' : Buffer Metas)
      → publish api buffer frame d ≡ ok buffer'
      → (d.chunk ≢ none)
        × (frame.offset + frame.size ≤ d.maxsize)
        × (api.records_validate frame.records ≡ true)
        × (buffer.header ≢ none)
        × (buffer'.datas ≡ set buffer.datas frame.data_index (publish_chunk d frame))
        × (buffer'.header ≡ some (publish_header frame))
        × (api.records_copy buffer.metas frame.records ≡ some buffer'.metas)
  unfolding publish
  publish-eq buffer frame d buffer' e = ground arith

  accepts-eq :
      (buffer : Buffer Metas) (frame : ImageFrame Records) (requirements : Requirements)
      → accepts api buffer frame requirements ≡ true
      → ((requirements.unknown ≡ 0)
          × (frame.header_flags.unknown ≡ 0)
          × (frame.chunk_flags.unknown ≡ 0))
        × ((frame.pts < 2 ^ 63) ⊎ (frame.pts ≡ time_invalid))
        × (api.layout_validate buffer.metas ≡ true)
  unfolding accepts is_valid_pts
  accepts-eq buffer frame requirements e = ground arith

  refused :
      (buffer : Buffer Metas) (frame : ImageFrame Records) (requirements : Requirements)
      (buffer' : Buffer Metas)
      → accepts api buffer frame requirements ≡ false
      → write api (some buffer) (some frame) requirements ≢ ok buffer'
  unfolding write
  refused buffer frame requirements buffer' h e = ground arith

  no_area :
      (buffer : Buffer Metas) (frame : ImageFrame Records) (requirements : Requirements)
      (buffer' : Buffer Metas)
      → get_elem? buffer.datas frame.data_index ≡ none
      → write api (some buffer) (some frame) requirements ≢ ok buffer'
  unfolding write
  no_area buffer frame requirements buffer' h e = ground arith

  written :
      (buffer : Buffer Metas) (frame : ImageFrame Records) (requirements : Requirements) (d : Data)
      (buffer' : Buffer Metas)
      → accepts api buffer frame requirements ≡ true
      → get_elem? buffer.datas frame.data_index ≡ some d
      → write api (some buffer) (some frame) requirements ≡ ok buffer'
      → publish api buffer frame d ≡ ok buffer'
  unfolding write
  written buffer frame requirements d buffer' h k e = ground arith

  published :
      (buffer : Buffer Metas) (frame : ImageFrame Records) (requirements : Requirements) (d : Data)
      (buffer' : Buffer Metas)
      → accepts api buffer frame requirements ≡ true
      → get_elem? buffer.datas frame.data_index ≡ some d
      → (d.chunk ≢ none)
        × (frame.offset + frame.size ≤ d.maxsize)
        × (api.records_validate frame.records ≡ true)
        × (buffer.header ≢ none)
        × (buffer'.datas ≡ set buffer.datas frame.data_index (publish_chunk d frame))
        × (buffer'.header ≡ some (publish_header frame))
        × (api.records_copy buffer.metas frame.records ≡ some buffer'.metas)
      → IsPublishable buffer frame requirements × Published buffer frame buffer'
  unfolding publish_header publish_chunk
  published buffer frame requirements d buffer' h found
        (chunk, fits, valid, header, datas, header', metas) =
      let ok_args = accepts-eq buffer frame requirements h in
      let at = get_elem?-lt buffer.datas frame.data_index found in
      (
        record { known = ok_args.0; timed = ok_args.1; layout = ok_args.2; records = valid },
        record {
          header = (header, header');
          chunk = (
            d,
            found,
            ap (λ l. get_elem? l frame.data_index) datas
                ∙ get_elem?-set_self buffer.datas frame.data_index (publish_chunk d frame) at,
            chunk,
            fits,
          );
          others = λ i ne.
              ap (λ l. get_elem? l i) datas
              ∙ get_elem?-set_ne buffer.datas frame.data_index i (publish_chunk d frame) ne;
          copied = metas;
        },
      )

  -- Valid arguments, a chunk that fits, a Header slot and records that can be copied are all that a
  -- write needs: then it succeeds.
  pub write-ok :
      (buffer : Buffer Metas) (frame : ImageFrame Records) (requirements : Requirements) (d : Data)
      (c : Chunk) (h : Header) (m : Metas)
      → IsPublishable buffer frame requirements
      → get_elem? buffer.datas frame.data_index ≡ some d
      → d.chunk ≡ some c
      → frame.offset + frame.size ≤ d.maxsize
      → buffer.header ≡ some h
      → api.records_copy buffer.metas frame.records ≡ some m
      → write api (some buffer) (some frame) requirements
        ≡ ok (record {
          datas = set buffer.datas frame.data_index (publish_chunk d frame);
          header = some (publish_header frame);
          metas = m;
        })
  unfolding write accepts is_valid_pts publish
  write-ok buffer frame requirements d c h m v found chunk fits header copy =
      ground (arith, v.known, v.timed, v.layout, v.records)

  -- A write that succeeds was given valid arguments; it stores the offset, size, stride and flags of the frame in
  -- the chunk of the one data area, and its flags, offset, time and number in the Header, inside the area, and
  -- leaves the other areas alone.
  pub write-Published :
      (buffer : Buffer Metas) (frame : ImageFrame Records) (requirements : Requirements)
      (buffer' : Buffer Metas)
      → write api (some buffer) (some frame) requirements ≡ ok buffer'
      → IsPublishable buffer frame requirements × Published buffer frame buffer'
  unfolding write
  write-Published buffer frame requirements buffer' e =
      elim (Bool-cases (accepts api buffer frame requirements)) [
        | inr no_ ↦ absurd (refused buffer frame requirements buffer' no_ e)
        | inl yes_ ↦ elim (Option-cases (get_elem? buffer.datas frame.data_index)) [
          | inl missing ↦ absurd (no_area buffer frame requirements buffer' missing e)
          | inr (d, found) ↦ published buffer frame requirements d buffer' yes_ found (
              publish-eq buffer frame d buffer'
                (written buffer frame requirements d buffer' yes_ found e))
        ]
      ]
