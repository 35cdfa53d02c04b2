-- ===== src/Source/Port.antt =====
-- The port of a source in spa/plugins/fits/source.c: `validate_ndarray_format`,
-- `validate_video_format`, `port_set_param`, `port_use_buffers`, `port_set_io` and `port_reuse_buffer`.
pub mod Buffers
use pipewireao_spa_plugin_fi.Base.{
  ℕ, zero, suc, ◌+◌, Bool, true, false, not, ◌&&◌, ◌||◌, Option, none, some, List, [], ◌∷◌, ltb,
  leb, ◌==◌, if◌then◌else◌, length, get_elem?,
}
use pipewireao_spa_plugin_fi.Errno.{Result, ok, err, ◌>>◌, guard, einval, ebusy, enoent, enotsup}
use pipewireao_spa_plugin_fi.Rate.{Fraction}
use pipewireao_spa_plugin_fi.Text.{same_text}
use pipewireao_spa_plugin_fi.Cube.{
  ElementType, u8, i8, i16_le, u16_le, i32_le, u32_le, i64_le, u64_le, f32_le, f64_le,
}
use pipewireao_spa_plugin_fi.ImageFrame
use pipewireao_spa_plugin_fi.Pool
use pipewireao_spa_plugin_fi.Source.{
  Impl, Layout, row_major, column_major, other_layout, OutputKind, output_none, output_ndarray,
  output_gray16, is_row, output_size,
}

abbrev pub min_buffers : ℕ
min_buffers = 2

abbrev pub max_buffers : ℕ
max_buffers = 64

-- A number for each element type, to compare them by.
abbrev pub element_code : ElementType → ℕ
element_code u8 = 0
element_code i8 = 1
element_code i16_le = 2
element_code u16_le = 3
element_code i32_le = 4
element_code u32_le = 5
element_code i64_le = 6
element_code u64_le = 7
element_code f32_le = 8
element_code f64_le = 9

abbrev pub layout_code : Layout → ℕ
layout_code row_major = 0
layout_code column_major = 1
layout_code (other_layout n) = 2 + n

abbrev is_row_major : Layout → Bool
is_row_major l = layout_code l == 0

abbrev pub same_rate : Fraction → Fraction → Bool
same_rate r s = (r.num == s.num) && (r.denom == s.denom)

-- The two formats that a format parameter can be read as; reading it is SPA's.
-- `struct spa_ndarray_info`, with the two entries of `shape` that are compared, and the schema string.
pub record NdarrayFormat : Type 0 where
  pub element_type : ElementType
  pub layout : Layout
  pub rate : Fraction
  pub n_dimensions : ℕ
  pub shape_0 : ℕ
  pub shape_1 : ℕ
  pub schema : Option (List ℕ)

-- `struct spa_video_info_raw`; `gray16_le` is the test of its `format`.
pub record VideoFormat : Type 0 where
  pub gray16_le : Bool
  pub width : ℕ
  pub height : ℕ
  pub framerate : Fraction

-- A format parameter as each of the two parsers reads it: `none` when the parser fails.
pub record Param : Type 0 where
  pub ndarray : Option NdarrayFormat
  pub video : Option VideoFormat

-- The port that a call is about.
pub record PortId : Type 0 where
  pub is_output : Bool
  pub port_id : ℕ

abbrev pub is_port : PortId → Bool
is_port port = port.is_output && (port.port_id == 0)

abbrev pub is_schema : List ℕ → Option (List ℕ) → Bool
is_schema schema none = false
is_schema schema (some text) = same_text text schema

abbrev pub is_memory : ImageFrame.DataType → Bool
is_memory ImageFrame.mem_ptr = true
is_memory ImageFrame.mem_fd = true
is_memory (ImageFrame.other n) = false

abbrev pub given {ℓ} : {A : Type ℓ} → Option A → Bool
given none = false
given (some a) = true

abbrev pub is_usable_data : ℕ → Option ImageFrame.Data → Bool
is_usable_data required none = false
is_usable_data required (some d) =
    given d.memory && (is_memory d.kind && (not (ltb d.maxsize required) && given d.chunk))

module _ {Metas : Type 0} where
  -- The format that the port offers as an ndarray.
  unfoldable pub offer : Impl Metas → NdarrayFormat
  offer self =
      let rank : ℕ = self.cube_info.sample_rank in
      let rows : Bool = is_row_major self.layout in
      if is_row self
      then record {
        element_type = u16_le;
        layout = row_major;
        rate = self.output_rate;
        n_dimensions = 2;
        shape_0 = self.row_block_rows;
        shape_1 = self.cube_info.width;
        schema = some self.schema;
      }
      else record {
        element_type = self.cube_info.element_type;
        layout = self.layout;
        rate = self.output_rate;
        n_dimensions = rank;
        shape_0 = if (rank == 2) && rows then self.cube_info.height else self.cube_info.width;
        shape_1 = if rows then self.cube_info.width else self.cube_info.height;
        schema = some self.schema;
      }

  -- `validate_ndarray_format`
  unfoldable pub validate_ndarray : Impl Metas → Option NdarrayFormat → Bool
  validate_ndarray self none = false
  validate_ndarray self (some f) =
      let element_type : ElementType =
        if is_row self then u16_le else self.cube_info.element_type in
      let layout : Layout = if is_row self then row_major else self.layout in
      let n_dimensions : ℕ = if is_row self then 2 else self.cube_info.sample_rank in
      let shape_0 : ℕ =
        if is_row self
        then self.row_block_rows
        else if (n_dimensions == 2) && is_row_major layout
        then self.cube_info.height
        else self.cube_info.width in
      let shape_1 : ℕ =
        if is_row self
        then self.cube_info.width
        else if is_row_major layout
        then self.cube_info.width
        else self.cube_info.height in
      (element_code f.element_type == element_code element_type)
      && ((layout_code f.layout == layout_code layout)
          && (same_rate f.rate self.output_rate
              && ((f.n_dimensions == n_dimensions)
                  && ((f.shape_0 == shape_0)
                      && ((not (n_dimensions == 2) || (f.shape_1 == shape_1))
                          && is_schema self.schema f.schema)))))

  -- `validate_video_format`
  unfoldable pub validate_video : Impl Metas → Option VideoFormat → Bool
  validate_video self none = false
  validate_video self (some f) =
      not (is_row self)
      && ((self.cube_info.sample_rank == 2)
          && (f.gray16_le
              && ((f.width == self.cube_info.width)
                  && ((f.height == self.cube_info.height) && same_rate f.framerate self.rate))))

  -- The kind of output that a format asks for.
  unfoldable pub negotiate : Impl Metas → Param → Option OutputKind
  negotiate self param =
      if validate_ndarray self param.ndarray
      then some output_ndarray
      else if validate_video self param.video
      then some output_gray16
      else none

  -- `port_set_param`: `is_format` for `SPA_PARAM_Format`, and no parameter for a null pointer.
  unfoldable pub set_param :
      Impl Metas → PortId → Bool → Bool → Option Param → Result (Unit {0}) × Impl Metas
  set_param self port is_format test_only param =
      if not (is_port port)
      then (err einval, self)
      else if not is_format
      then (err enoent, self)
      else if self.started || not (length self.pool.slots == 0)
      then (err ebusy, self)
      else elim param [
        | none ↦ (
          ok tt,
          if test_only then self else record self { have_format = false; output = output_none },
        )
        | some p ↦ elim (negotiate self p) [
          | none ↦ (err einval, self)
          | some kind ↦
              (ok tt, if test_only then self else record self { output = kind; have_format = true })
        ]
      ]

  -- What `port_use_buffers` checks of one buffer.
  unfoldable pub is_usable : ℕ → Option (ImageFrame.Buffer Metas) → Bool
  is_usable required none = false
  is_usable required (some b) = is_usable_data required (get_elem? b.datas 0) && given b.header

  unfoldable pub all_usable : ℕ → List (Option (ImageFrame.Buffer Metas)) → Bool
  all_usable required [] = true
  all_usable required (b ∷ bs) = is_usable required b && all_usable required bs

  -- The slots of a new set of buffers, numbered from `i`.
  unfoldable pub slots_from : ℕ → List (Option (ImageFrame.Buffer Metas)) → List (Pool.Slot Metas)
  slots_from i [] = []
  slots_from i (b ∷ bs) =
      record { buffer = b; id = i; state = Pool.available } ∷ slots_from (i + 1) bs

  unfoldable pub assign : Impl Metas → List (Option (ImageFrame.Buffer Metas)) → Impl Metas
  assign self buffers = record self {
    pool = record { slots = slots_from 0 buffers; scan_hint = 0 };
  }

  -- `port_use_buffers`; the array of the host has `n_buffers` entries. (A null array of some buffers is
  -- refused like a buffer that cannot be used.)
  unfoldable pub use_buffers :
      Impl Metas → PortId → List (Option (ImageFrame.Buffer Metas)) → Result (Unit {0}) × Impl Metas
  use_buffers self port buffers =
      let n : ℕ = length buffers in
      if not (is_port port)
      then (err einval, self)
      else if self.started
      then (err ebusy, self)
      else if n == 0
      then if length self.pool.slots == 0 then (ok tt, self) else (
        (Pool.release self.started self.pool).0,
        record self { pool = (Pool.release self.started self.pool).1 },
      )
      else if not self.have_format
          || (not (length self.pool.slots == 0) || (ltb n min_buffers || ltb max_buffers n))
      then (err einval, self)
      else if all_usable (output_size self) buffers
      then (ok tt, assign self buffers)
      else (err einval, self)

  -- `port_set_io`: `is_buffers` for `SPA_IO_Buffers`, and `fits` for a size that is large enough.
  unfoldable pub set_io :
      Impl Metas → PortId → Bool → Option Pool.Io → Bool → Result (Unit {0}) × Impl Metas
  set_io self port is_buffers io fits =
      if not (is_port port)
      then (err einval, self)
      else if not is_buffers
      then (err enoent, self)
      else if given io && not fits
      then (err einval, self)
      else (ok tt, record self { io = io })

  -- `port_reuse_buffer`
  unfoldable pub reuse_buffer : Impl Metas → ℕ → Result (Unit {0}) × Impl Metas
  reuse_buffer self buffer_id = (err enotsup, self)
