-- ===== src/Source/Playback/Rows.antt =====
-- The part of the prepared frames that `process_row_block` copies for one block of rows.
use pipewireao_spa_plugin_fi.Base.{
  ℕ, ◌+◌, ◌*◌, ◌≤◌, ◌<◌, ◌≡◌, refl, ap, true, List, take, drop, arith, u32, u64, u32_max,
}
use mathlib.Core.Path.{ap₂}
use native.Mathlib.Nat.{mul-le-mul_right}
use pipewireao_spa_plugin_fi.RowCadence.{RowBlock}
use pipewireao_spa_plugin_fi.Cube.Open.{IsMeasured}
use pipewireao_spa_plugin_fi.Source.{Impl, is_row, output_size, output_stride}
use pipewireao_spa_plugin_fi.Source.Playback.{row_bytes}

next-le : (a b : ℕ) → a < b → a + 1 ≤ b
next-le a b h = omega arith

module _ {Metas : Type 0} where
  -- The bytes of a frame of 16-bit pixels, and of one block of its rows.
  abbrev pub frame_bytes : Impl Metas → ℕ
  frame_bytes self = 2 * self.cube_info.plane_elements

  abbrev pub block_bytes : Impl Metas → ℕ
  block_bytes self = 2 * (self.row_block_rows * self.cube_info.width)

  -- What the factory checks of a row source with `blocks` blocks a frame, and a block whose bytes a chunk
  -- can count.
  pub record IsRowSource (self : Impl Metas) (blocks : ℕ) : Type 0 where
    pub rows : is_row self ≡ true
    pub measured : IsMeasured self.cube_info
    pub divided : blocks * self.row_block_rows ≡ self.cube_info.height
    pub counted : block_bytes self ≤ u32_max

  module _ (self : Impl Metas) (blocks : ℕ) (v : IsRowSource self blocks) (block : ℕ)
      (inside : block < blocks) where
    -- the rows up to the end of the block
    rows-le : (block + 1) * self.row_block_rows ≤ self.cube_info.height
    rows-le =
        omega
          (arith, v.divided, (mul-le-mul_right self.row_block_rows (next-le block blocks inside)))

    pub first_row-exact : u32 (block * self.row_block_rows) ≡ block * self.row_block_rows
    first_row-exact = omega (arith, rows-le, v.measured.height_range)

    elements-le :
        (block + 1) * self.row_block_rows * self.cube_info.width ≤ self.cube_info.plane_elements
    elements-le = omega (arith, v.measured.elements, mul-le-mul_right self.cube_info.width rows-le)

    in_frame : block * block_bytes self + block_bytes self ≤ frame_bytes self
    in_frame = omega (arith, elements-le)

    last_block : block + 1 ≡ blocks → block * block_bytes self + block_bytes self ≡ frame_bytes self
    last_block e = omega (
      arith,
      v.measured.elements,
      ap (λ x. x * self.row_block_rows * self.cube_info.width) e,
      ap (λ x. x * self.cube_info.width) v.divided,
    )

    module _ (sample : ℕ) (stored : sample < self.cube_info.samples) where
      frames-le :
          (sample + 1) * self.cube_info.plane_elements
          ≤ self.cube_info.samples * self.cube_info.plane_elements
      frames-le =
          mul-le-mul_right self.cube_info.plane_elements
            (next-le sample self.cube_info.samples stored)

      element-exact :
          u64 (
            u64 (sample * self.cube_info.plane_elements)
            + u64 (u32 (block * self.row_block_rows) * self.cube_info.width))
          ≡ sample * self.cube_info.plane_elements
            + block * self.row_block_rows * self.cube_info.width
      element-exact =
          rw first_row-exact (omega (arith, frames-le, elements-le, v.measured.cube_fits))

      in_frames :
          sample * frame_bytes self + frame_bytes self ≤ self.cube_info.samples * frame_bytes self
      in_frames = omega (arith, frames-le)

  pub size-exact :
      (self : Impl Metas) (blocks : ℕ)
      → IsRowSource self blocks
      → u32 (output_size self) ≡ block_bytes self
  unfolding output_size
  size-exact self blocks v = rw (v.rows, output_size) (omega (arith, v.counted))

  pub stride-exact :
      (self : Impl Metas) (blocks : ℕ)
      → IsRowSource self blocks
      → output_stride self ≡ u32 (self.cube_info.width * 2)
  unfolding output_stride
  stride-exact self blocks v = rw (v.rows, output_stride) refl

  -- The bytes that a block copies.
  pub record IsSlice (self : Impl Metas) (blocks : ℕ) (frames : List ℕ) (b : RowBlock)
      (bytes : List ℕ) : Type 0 where
    pub copied :
        bytes
        ≡ take
            (block_bytes self)
            (drop (b.sample * frame_bytes self + b.block * block_bytes self) frames)
    pub inside : b.block * block_bytes self + block_bytes self ≤ frame_bytes self
    pub stored :
        b.sample * frame_bytes self + frame_bytes self ≤ self.cube_info.samples * frame_bytes self
    pub whole :
        b.block + 1 ≡ blocks → b.block * block_bytes self + block_bytes self ≡ frame_bytes self

  -- In a row source whose blocks divide the frame, a block copies its own rows of its own frame: one block
  -- begins where the one before it ends, the last one ends with the frame, and no index wraps or leaves
  -- the prepared frames.
  pub row_bytes-IsSlice :
      (self : Impl Metas) (blocks : ℕ) (frames : List ℕ) (b : RowBlock)
      → IsRowSource self blocks
      → b.block < blocks
      → b.sample < self.cube_info.samples
      → IsSlice self blocks frames b (row_bytes self frames b)
  unfolding row_bytes
  row_bytes-IsSlice self blocks frames b v inside stored = record {
    copied =
        ap₂ (λ n d. take n (drop d frames)) (size-exact self blocks v)
          (omega (arith, element-exact self blocks v b.block inside b.sample stored));
    inside = in_frame self blocks v b.block inside;
    stored = in_frames self blocks v b.block inside b.sample stored;
    whole = last_block self blocks v b.block inside;
  }
