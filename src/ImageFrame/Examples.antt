-- ===== src/ImageFrame/Examples.antt =====
-- A frame of 24 bytes in a buffer of one data area.
use pipewireao_spa_plugin_fi.Base.{◌≡◌, refl, inl, true, false, some, [], ◌∷◌, set, arith}
use pipewireao_spa_plugin_fi.Errno.{ok, err, enospc}
use pipewireao_spa_plugin_fi.ImageFrame.{
  HeaderFlags, ChunkFlags, require_header, Header, Chunk, mem_ptr, Data, Buffer, MetaApi,
  ImageFrame, is_valid_pts, publish_chunk, publish_header, accepts, publish, write,
}
use pipewireao_spa_plugin_fi.ImageFrame.Write.{IsPublishable, Published, write-ok, write-Published}

-- Metadata without records, so that every copy succeeds.
abbrev api : MetaApi (Unit {0}) (Unit {0})
api = record {
  layout_validate = λ m. true;
  records_validate = λ r. true;
  records_copy = λ m r. some m;
  no_records = tt;
}

abbrev header_flags : HeaderFlags
header_flags = record {
  discont = true;
  corrupted = false;
  marker = false;
  header = false;
  gap = false;
  delta_unit = false;
  unknown = 0;
}

abbrev chunk_flags : ChunkFlags
chunk_flags = record { corrupted = false; empty = false; unknown = 0 }

abbrev chunk : Chunk
chunk = record { offset = 0; size = 0; stride = 0; flags = chunk_flags }

abbrev area : Data
area = record { kind = mem_ptr; memory = some (1 ∷ 2 ∷ []); maxsize = 64; chunk = some chunk }

abbrev header : Header
header = record { flags = header_flags; offset = 0; pts = 0; dts_offset = 0; seq = 0 }

abbrev buffer : Buffer (Unit {0})
buffer = record { datas = area ∷ []; header = some header; metas = tt }

abbrev frame : ImageFrame (Unit {0})
frame = record {
  data_index = 0;
  header_flags = header_flags;
  chunk_flags = chunk_flags;
  offset = 0;
  size = 24;
  stride = 8;
  header_offset = 3;
  sequence = 5;
  pts = 1000;
  records = tt;
}

too_large : write api (some buffer) (some (record frame { size = 65 })) require_header ≡ err enospc
unfolding write accepts is_valid_pts publish
too_large = refl

frame-IsPublishable : IsPublishable api buffer frame require_header
frame-IsPublishable = record {
  known = (refl, refl, refl);
  timed = inl (omega arith);
  layout = refl;
  records = refl;
}

abbrev written : Buffer (Unit {0})
written = record {
  datas = set buffer.datas 0 (publish_chunk area frame);
  header = some (publish_header frame);
  metas = tt;
}

frame-written : write api (some buffer) (some frame) require_header ≡ ok written
unfolding write accepts is_valid_pts publish
frame-written = refl

write-ok_example : write api (some buffer) (some frame) require_header ≡ ok written
write-ok_example =
    write-ok api buffer frame require_header area chunk header tt frame-IsPublishable refl refl
      (omega arith) refl refl

write-Published_example :
    IsPublishable api buffer frame require_header × Published api buffer frame written
write-Published_example = write-Published api buffer frame require_header written frame-written
