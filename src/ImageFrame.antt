-- ===== src/ImageFrame.antt =====
-- spa/plugins/image-frame.h: publishing one frame into an output buffer.
pub mod Write
mod Examples
use pipewireao_spa_plugin_fi.Base.{
  ℕ, ◌+◌, ◌^◌, Bool, true, false, not, ◌&&◌, ◌||◌, Option, none, some, List, ltb, leb, ◌==◌,
  get_elem?, set, if◌then◌else◌,
}
use pipewireao_spa_plugin_fi.Errno.{Result, ok, err, einval, enospc, enotsup}

-- A flag word as its named bits; `unknown` is the number that the other bits make.
pub record HeaderFlags : Type 0 where
  pub discont : Bool
  pub corrupted : Bool
  pub marker : Bool
  pub header : Bool
  pub gap : Bool
  pub delta_unit : Bool
  pub unknown : ℕ

pub record ChunkFlags : Type 0 where
  pub corrupted : Bool
  pub empty : Bool
  pub unknown : ℕ

-- `enum pwao_image_frame_requirement`
pub record Requirements : Type 0 where
  pub header : Bool
  pub unknown : ℕ

abbrev pub require_header : Requirements
require_header = record { header = true; unknown = 0 }

-- `struct spa_meta_header`. An int64_t is its bit pattern: negative from 2 ^ 63 on.
pub record Header : Type 0 where
  pub flags : HeaderFlags
  pub offset : ℕ
  pub pts : ℕ
  pub dts_offset : ℕ
  pub seq : ℕ

-- `struct spa_chunk`
pub record Chunk : Type 0 where
  pub offset : ℕ
  pub size : ℕ
  pub stride : ℕ
  pub flags : ChunkFlags

pub data DataType : Type 0 where
  mem_ptr mem_fd : DataType
  other : ℕ → DataType

-- `struct spa_data`, with the bytes that it points to: `none` for a null pointer.
pub record Data : Type 0 where
  pub kind : DataType
  pub memory : Option (List ℕ)
  pub maxsize : ℕ
  pub chunk : Option Chunk

-- `struct spa_buffer`: no `datas` is the empty list. The Header slot that `spa_buffer_find_meta_data`
-- finds stands beside the other metadata, which only SPA's own functions read.
pub record Buffer (Metas : Type 0) : Type 0 where
  pub datas : List Data
  pub header : Option Header
  pub metas : Metas

-- The metadata records of SPA, which this repository only calls.
pub record MetaApi (Metas Records : Type 0) : Type 0 where
  pub layout_validate : Metas → Bool
  pub records_validate : Records → Bool
  pub records_copy : Metas → Records → Option Metas
  -- no records, and none required
  pub no_records : Records

-- `struct pwao_image_frame`
pub record ImageFrame (Records : Type 0) : Type 0 where
  pub data_index : ℕ
  pub header_flags : HeaderFlags
  pub chunk_flags : ChunkFlags
  pub offset : ℕ
  pub size : ℕ
  pub stride : ℕ
  pub header_offset : ℕ
  pub sequence : ℕ
  pub pts : ℕ
  pub records : Records

-- `SPA_TIME_INVALID`, the least int64_t.
abbrev pub time_invalid : ℕ
time_invalid = 2 ^ 63

unfoldable pub is_valid_pts : ℕ → Bool
is_valid_pts pts = ltb pts (2 ^ 63) || (pts == time_invalid)

-- What `pwao_image_frame_write` stores once nothing can fail any more.
unfoldable pub publish_chunk : {Records : Type 0} → Data → ImageFrame Records → Data
publish_chunk data_ frame = record data_ {
  chunk = some (record {
    offset = frame.offset;
    size = frame.size;
    stride = frame.stride;
    flags = frame.chunk_flags;
  });
}

unfoldable pub publish_header : {Records : Type 0} → ImageFrame Records → Header
publish_header frame = record {
  flags = frame.header_flags;
  offset = frame.header_offset;
  pts = frame.pts;
  dts_offset = 0;
  seq = frame.sequence;
}

module _ {Metas Records : Type 0} (api : MetaApi Metas Records) where
  -- The checks of the arguments, in one condition.
  unfoldable pub accepts : Buffer Metas → ImageFrame Records → Requirements → Bool
  accepts buffer frame requirements =
      (requirements.unknown == 0)
      && ((frame.header_flags.unknown == 0)
          && ((frame.chunk_flags.unknown == 0)
              && (is_valid_pts frame.pts && api.layout_validate buffer.metas)))

  -- The checks that follow once `data` is known, and the writes.
  unfoldable pub publish : Buffer Metas → ImageFrame Records → Data → Result (Buffer Metas)
  publish buffer frame data_ = elim data_.chunk [
    | none ↦ err enospc
    | some chunk ↦
        if ltb data_.maxsize (frame.offset + frame.size)
        then err enospc
        else if not (api.records_validate frame.records)
        then err einval
        else elim buffer.header [
          | none ↦ err enotsup
          | some header ↦ elim (api.records_copy buffer.metas frame.records) [
            | none ↦ err enospc
            | some metas ↦ ok (record {
              datas = set buffer.datas frame.data_index (publish_chunk data_ frame);
              header = some (publish_header frame);
              metas = metas;
            })
          ]
        ]
  ]

  -- `pwao_image_frame_write`: the written buffer, or an error that leaves it as it was.
  unfoldable pub write :
      Option (Buffer Metas) → Option (ImageFrame Records) → Requirements → Result (Buffer Metas)
  write none frame requirements = err einval
  write (some buffer) none requirements = err einval
  write (some buffer) (some frame) requirements =
      if accepts buffer frame requirements
      then elim (get_elem? buffer.datas frame.data_index) [
        | none ↦ err einval
        | some data_ ↦ publish buffer frame data_
      ]
      else err einval
