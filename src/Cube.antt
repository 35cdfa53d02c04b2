-- ===== src/Cube.antt =====
-- spa/plugins/fits/cube.h and cube.c: one FITS image, vector or cube behind CFITSIO.
pub mod Forms
pub mod Described
pub mod Open
pub mod Read
mod Examples
use pipewireao_spa_plugin_fi.Base.{
  ℕ, ◌+◌, ◌-◌, ◌*◌, ◌/◌, ◌<◌, Bool, true, false, not, ◌&&◌, ◌||◌, Option, none, some, List, ltb,
  leb, ◌==◌, if◌then◌else◌, u64, u64_max, i32_max, u32_max, longlong_max, dec_lt,
}
use pipewireao_spa_plugin_fi.Errno.{
  Result, ok, err, ◌>>=◌, ◌>>◌, guard, Errno, einval, enospc, enotsup, eoverflow, enomem, erange,
  ebadmsg, efbig, system,
}

-- `enum spa_element_type`, as far as the source uses it.
pub data ElementType : Type 0 where
  u8 i8 i16_le u16_le i32_le u32_le i64_le u64_le f32_le f64_le : ElementType

-- CFITSIO's names of element types, in images and in memory.
pub data ImageType : Type 0 where
  byte_img sbyte_img short_img ushort_img long_img ulong_img longlong_img ulonglong_img : ImageType
  float_img double_img : ImageType
  other_img : ℕ → ImageType

pub data Datatype : Type 0 where
  tbyte tsbyte tshort tushort tint tuint tlonglong tulonglong tfloat tdouble : Datatype

-- `image_type`: the SPA type, the CFITSIO type and the size of one element.
unfoldable pub image_type : ImageType → Result (ElementType × Datatype × ℕ)
image_type byte_img = ok (u8, tbyte, 1)
image_type sbyte_img = ok (i8, tsbyte, 1)
image_type short_img = ok (i16_le, tshort, 2)
image_type ushort_img = ok (u16_le, tushort, 2)
image_type long_img = ok (i32_le, tint, 4)
image_type ulong_img = ok (u32_le, tuint, 4)
image_type longlong_img = ok (i64_le, tlonglong, 8)
image_type ulonglong_img = ok (u64_le, tulonglong, 8)
image_type float_img = ok (f32_le, tfloat, 4)
image_type double_img = ok (f64_le, tdouble, 8)
image_type (other_img n) = err enotsup

pub data IoMode : Type 0 where
  file mmap : IoMode
  other_mode : ℕ → IoMode

pub data OutputFormat : Type 0 where
  output_native output_gray16 : OutputFormat
  other_format : ℕ → OutputFormat

-- `struct fits_cube_options`; `path_given` is `path != NULL && path[0] != '\0'`.
pub record Options : Type 0 where
  pub path_given : Bool
  pub hdu : ℕ
  pub sample_rank : ℕ
  pub io_mode : IoMode
  pub prefault : Bool

-- `struct fits_cube_info`
pub record Info : Type 0 where
  pub sample_rank : ℕ
  pub width : ℕ
  pub height : ℕ
  pub samples : ℕ
  pub element_type : ElementType
  pub element_size : ℕ
  pub plane_elements : ℕ
  pub plane_size : ℕ

-- A `LONGLONG` axis length as far as the code looks at it: 0 if it is not positive.
abbrev pub Axis : Type 0
Axis = ℕ

-- An open CFITSIO file: its answers to the queries, `none` where CFITSIO reports a status. The length
-- of an axis that the image does not have stays at the 1 that the caller put there.
pub record FitsFile : Type 0 where
  pub select_hdu : ℕ → Option Bool  -- is the HDU an image?
  pub dimensions : Option ℕ
  pub axes : Option (Axis × Axis × Axis)
  pub equivalent_type : Option ImageType
  pub read_image : Datatype → ℕ → ℕ → Option (List ℕ)

-- `struct fits_cube` of a successful open; the mapping is its size.
pub record Cube : Type 0 where
  pub fits : FitsFile
  pub mapping : Option ℕ
  pub fd : Option ℕ
  pub native_datatype : Datatype
  pub info : Info

-- `fits_cube_read_plane`: the bytes that CFITSIO writes to the start of the destination.
unfoldable pub required_size : Cube → OutputFormat → Result (Datatype × ℕ)
required_size c output_native = ok (c.native_datatype, c.info.plane_size)
required_size c output_gray16 =
    if ltb (u64_max / 2) c.info.plane_elements
    then err eoverflow
    else ok (tushort, c.info.plane_elements * 2)
required_size c (other_format n) = err einval

abbrev status_result : Option (List ℕ) → Result (List ℕ)
status_result none = err erange
status_result (some bytes) = ok bytes

unfoldable pub read_plane : Option Cube → ℕ → OutputFormat → Bool → ℕ → Result (List ℕ)
read_plane none sample output destination destination_size = err einval
read_plane (some c) sample output destination destination_size = do
  guard (destination && ltb sample c.info.samples) einval
  (datatype, required) ← required_size c output
  guard (leb required destination_size) enospc
  status_result
      (c.fits.read_image datatype (u64 (sample * c.info.plane_elements + 1)) c.info.plane_elements)

-- The axis that separates the samples: the one behind the axes of a sample.
abbrev pub sample_axis : ℕ → Axis × Axis × Axis → Axis
sample_axis rank (a, b, c) = if rank == 1 then b else c

-- A positive axis of at most `UINT32_MAX` elements.
unfoldable pub element_axis : Axis → Result ℕ
element_axis n = if (n == 0) || ltb u32_max n then err eoverflow else ok n

-- The number of samples along an axis that is there.
unfoldable pub samples_axis : Axis → Result ℕ
samples_axis n = if n == 0 then err eoverflow else ok n

abbrev pub or_status {ℓ} : {A : Type ℓ} → Option A → Result A
or_status none = err ebadmsg
or_status (some a) = ok a

-- The sizes of the image, computed by `fits_cube_open` once its axes are accepted.
unfoldable pub measure : ℕ → ℕ → ℕ → ℕ → ElementType × Datatype × ℕ → Result (Datatype × Info)
measure rank width height samples (element_type, datatype, element_size) =
    let plane_elements : ℕ = u64 (width * height) in
    do
      guard
          (not (
            ltb u64_max plane_elements
            || (ltb (u64_max / element_size) plane_elements || ltb longlong_max plane_elements)))
          eoverflow
      guard (not (ltb (longlong_max / samples) plane_elements)) eoverflow
      ok (
        datatype,
        record {
          sample_rank = rank;
          width = width;
          height = height;
          samples = samples;
          element_type = element_type;
          element_size = element_size;
          plane_elements = plane_elements;
          plane_size = u64 (plane_elements * element_size);
        },
      )

-- The queries of `fits_cube_open` on the open file.
unfoldable pub query : FitsFile → Options → Result (ℕ × (Axis × Axis × Axis) × ImageType)
query fits options = do
  image ← or_status (fits.select_hdu options.hdu)
  guard image einval
  dimensions ← or_status fits.dimensions
  axes ← or_status fits.axes
  equivalent_type ← or_status fits.equivalent_type
  ok (dimensions, axes, equivalent_type)

-- Its checks of the answers.
unfoldable pub describe : Options → ℕ × (Axis × Axis × Axis) × ImageType → Result (Datatype × Info)
describe options (dimensions, axes, equivalent_type) = do
  guard ((dimensions == options.sample_rank) || (dimensions == options.sample_rank + 1)) einval
  width ← element_axis axes.0
  height ← if options.sample_rank == 2 then element_axis axes.1 else ok 1
  samples ←
      if ltb options.sample_rank dimensions
      then samples_axis (sample_axis options.sample_rank axes)
      else ok 1
  types ← image_type equivalent_type
  measure options.sample_rank width height samples types

unfoldable pub inspect : FitsFile → Options → Result (Datatype × Info)
inspect fits options = do answers ← query fits options; describe options answers

-- The checks of the options.
unfoldable pub is_valid_mode : IoMode → Bool
is_valid_mode file = true
is_valid_mode mmap = true
is_valid_mode (other_mode n) = false

unfoldable pub valid_options : Options → Bool
valid_options o =
    o.path_given
    && (not (o.hdu == 0)
        && (leb o.hdu i32_max
            && (((o.sample_rank == 1) || (o.sample_rank == 2)) && is_valid_mode o.io_mode)))

-- What the system answers while a cube is opened.
pub record System : Type 0 where
  pub calloc_errno : Option Errno  -- `none` if the allocation succeeds
  pub open_file : Result ℕ
  pub file_size : Result (Option ℕ)  -- `none` if `st_size <= 0`
  pub map : Option Errno  -- `none` if the mapping succeeds
  pub open_memfile : Option FitsFile
  pub open_diskfile : Option FitsFile

-- The resources of a cube under construction.
pub record Held : Type 0 where
  pub fits : Option FitsFile
  pub mapping : Option ℕ
  pub fd : Option ℕ

abbrev pub nothing_held : Held
nothing_held = record { fits = none; mapping = none; fd = none }

-- `map_file`. (Prefaulting reads the mapping and stores nothing.)
unfoldable pub map_file : System → Held → Result (Unit {0}) × Held
map_file sys held = elim sys.open_file [
  | err e ↦ (err e, held)
  | ok fd ↦
      let held1 : Held = record held { fd = some fd } in
      elim sys.file_size [
        | err e ↦ (err e, held1)
        | ok none ↦ (err efbig, held1)
        | ok (some size) ↦ if ltb u64_max size then (err efbig, held1) else elim sys.map [
          | some e ↦ (err e, held1)
          | none ↦ (ok tt, record held1 { mapping = some size })
        ]
      ]
]

abbrev opened : Option FitsFile → Held → Result FitsFile × Held
opened none held = (err ebadmsg, held)
opened (some fits) held = (ok fits, record held { fits = some fits })

-- `open_fits`
unfoldable pub open_fits : System → IoMode → Held → Result FitsFile × Held
open_fits sys file held = opened sys.open_diskfile held
open_fits sys (other_mode n) held = opened sys.open_diskfile held
open_fits sys mmap held =
    let (res, held') = map_file sys held in
    elim res [ err e ↦ (err e, held') | ok _ ↦ opened sys.open_memfile held' ]

-- `fits_cube_close` gives back what is held.
unfoldable pub close : Held → Held
close held = record { fits = none; mapping = none; fd = none }

-- The end of `fits_cube_open` on an open file: the cube, or the error path through `close`.
unfoldable pub finish_open : Options → FitsFile → Held → Result Cube × Held
finish_open options fits held = elim (inspect fits options) [
  | err e ↦ (err e, close held)
  | ok (datatype, info) ↦ (
    ok (record {
      fits = fits;
      mapping = held.mapping;
      fd = held.fd;
      native_datatype = datatype;
      info = info;
    }),
    held,
  )
]

-- `fits_cube_open`, with what is held afterwards.
unfoldable pub open_cube : System → Options → Result Cube × Held
open_cube sys options =
    if not (valid_options options) then (err einval, nothing_held) else elim sys.calloc_errno [
      | some e ↦ (err e, nothing_held)
      | none ↦
          let (res, held) = open_fits sys options.io_mode nothing_held in
          elim res [ err e ↦ (err e, close held) | ok fits ↦ finish_open options fits held ]
    ]
