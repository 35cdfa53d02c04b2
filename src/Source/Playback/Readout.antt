-- ===== src/Source/Playback/Readout.antt =====
-- The rows that a playing row source publishes, pass by pass: `process_row_block` of spa/plugins/fits/source.c with
-- the schedule of its blocks.
use pipewireao_spa_plugin_fi.Base.{
  ℕ, ◌<◌, ◌≤◌, ◌^◌, ◌≡◌, refl, sym, inl, inr, Bool, true, false, some, get_elem?, arith,
  Option-cases, Bool-cases, u64_max,
}
use mathlib.Core.Path.{subst}
use pipewireao_spa_plugin_fi.Errno.{Result-cases}
use pipewireao_spa_plugin_fi.RowCadence
use pipewireao_spa_plugin_fi.RowCadence.Ready.{
  IsReady, select_latest-IsReady, advance-IsReady, abandon-IsReady,
}
use native.Mathlib.Nat.{mul-le-mul_right}
use pipewireao_spa_plugin_fi.Cube
use pipewireao_spa_plugin_fi.Cube.Open.{IsMeasured}
use pipewireao_spa_plugin_fi.ImageFrame
use pipewireao_spa_plugin_fi.Pool
use pipewireao_spa_plugin_fi.Source.{Impl, Config}
use pipewireao_spa_plugin_fi.Source.Playback.{
  has_data, fill, deliver, drop_buffer, abandon_frame, await_completion, row_bytes, row_frame,
  publish_row, fill_row, take_row, process_row_block,
}
use pipewireao_spa_plugin_fi.Source.Playback.Rows.{IsRowSource}
use pipewireao_spa_plugin_fi.Source.Playback.Publication.{selected}

pub due-open :
    (c : RowCadence.RowCadence) (now count : ℕ) (loop : Bool) (b : RowCadence.RowBlock)
    → RowCadence.due c now count loop ≡ some b
    → c.ended ≡ false
unfolding RowCadence.due
due-open c now count loop b e = ground arith

samples-word : (i : Cube.Info) → IsMeasured i → i.samples < 2 ^ 64
samples-word i m = omega (arith, m.cube_fits, mul-le-mul_right i.samples (elements-pos i m))
  where
    elements-pos : (i : Cube.Info) → IsMeasured i → 1 ≤ i.plane_elements
    elements-pos i m = omega (
      arith,
      m.elements,
      m.width_range,
      m.height_range,
      mul-le-mul_right i.height (m.width_range.0),
    )

module _ {Metas : Type 0} where
  -- A source in row mode with a schedule whose next block lies in its cube.
  pub record IsReadout (self : Impl Metas) : Type 0 where
    pub source : IsRowSource self self.row_cadence.blocks_per_frame
    pub ready : IsReady self.cube_info.samples self.loops self.row_cadence

  -- Enough for a step that leaves the configuration and the blocks of a frame alone.
  pub record IsStep (k : Config) (n : ℕ) (after : Impl Metas) : Type 0 where
    pub same : after.config ≡ k
    pub blocks : after.row_cadence.blocks_per_frame ≡ n
    pub next : IsReady k.cube_info.samples k.loops after.row_cadence

  await_completion-IsStep :
      (k : Config) (n : ℕ) (ended : Bool) (after : Impl Metas) (id : ℕ)
      → IsStep k n after
      → IsStep k n (await_completion ended after id)
  unfolding await_completion
  await_completion-IsStep k n true after id s = record {
    same = s.same;
    blocks = s.blocks;
    next = s.next;
  }
  await_completion-IsStep k n false after id s = s

module _ {Metas Records : Type 0} (api : ImageFrame.MetaApi Metas Records) where
  module _ (self : Impl Metas) (now : ℕ) (room : now < u64_max)
      (v : IsReady self.cube_info.samples self.loops self.row_cadence) where
    abbrev Steps : Impl Metas → Type 0
    Steps = IsStep self.config self.row_cadence.blocks_per_frame

    publish_row-IsStep :
        (b : RowCadence.RowBlock) (i : ℕ) (slot : Pool.Slot Metas)
        (buffer : ImageFrame.Buffer Metas)
        → self.row_cadence.ended ≡ false
        → Steps (publish_row api self now b i slot buffer).1
    unfolding publish_row drop_buffer abandon_frame deliver
    publish_row-IsStep b i slot buffer open_ =
        let on = advance-IsReady self.row_cadence now self.cube_info.samples self.loops v open_ in
        let off = abandon-IsReady self.row_cadence now self.cube_info.samples self.loops v room in
        elim (Result-cases (
          ImageFrame.write api (some buffer) (some (row_frame api self b))
            ImageFrame.require_header)) [
              | inl (buffer', e) ↦
                  rw (e, publish_row)
                    (await_completion-IsStep self.config self.row_cadence.blocks_per_frame _ _
                      slot.id (record { same = refl; blocks = on.1; next = on.0 }))
              | inr (x, e) ↦
                  rw (e, publish_row) (record { same = refl; blocks = off.1; next = off.0 })
            ]

    fill_row-IsStep :
        (b : RowCadence.RowBlock) (i : ℕ) (slot : Pool.Slot Metas)
        → self.row_cadence.ended ≡ false
        → Steps (fill_row api self now b i slot).1
    unfolding fill_row drop_buffer
    fill_row-IsStep b i slot open_ =
        let kept : (p : Pool.Pool Metas) → Steps (record self { pool = p }) =
          λ p. record { same = refl; blocks = refl; next = v } in
        elim (Option-cases slot.buffer) [
          | inl e ↦ rw (e, fill_row) (kept _)
          | inr (buffer, e) ↦ elim (Option-cases (get_elem? buffer.datas 0)) [
            | inl f ↦ rw (e, f, fill_row) (kept _)
            | inr (d, f) ↦ elim (Option-cases self.preloaded_frames) [
              | inl g ↦ rw (e, f, g, fill_row) (record { same = refl; blocks = refl; next = v })
              | inr (frames, g) ↦
                  rw (e, f, g, fill_row)
                    (publish_row-IsStep b i slot (fill buffer d (row_bytes self frames b)) open_)
            ]
          ]
        ]

  module _ (self : Impl Metas) (now : ℕ) (room : now < u64_max)
      (v : IsReady self.cube_info.samples self.loops self.row_cadence) where
    take_row-IsStep :
        (b : RowCadence.RowBlock)
        → self.row_cadence.ended ≡ false
        → IsStep self.config self.row_cadence.blocks_per_frame (take_row api self now b).1
    unfolding take_row abandon_frame
    take_row-IsStep b open_ =
        let off = abandon-IsReady self.row_cadence now self.cube_info.samples self.loops v room in
        let none_free : IsStep self.config self.row_cadence.blocks_per_frame
            (abandon_frame self now) =
          record { same = refl; blocks = off.1; next = off.0 } in
        elim (Option-cases (Pool.take self.pool).0) [
          | inl e ↦ rw (e, take_row) none_free
          | inr (i, e) ↦ elim (Option-cases (get_elem? (Pool.take self.pool).1.slots i)) [
            | inl f ↦ rw (e, f, take_row) none_free
            | inr (slot, f) ↦
                rw (e, f, take_row)
                  (fill_row-IsStep (record self { pool = (Pool.take self.pool).1 }) now room v b i
                    slot open_)
          ]
        ]

  module _ (self : Impl Metas) (now : ℕ) (room : now < u64_max) (v : IsReadout self) where
    pub selected-IsReady :
        IsReady self.cube_info.samples self.loops (selected api self now).row_cadence
        × ((selected api self now).row_cadence.blocks_per_frame ≡ self.row_cadence.blocks_per_frame)
    selected-IsReady =
        select_latest-IsReady self.row_cadence now self.cube_info.samples self.loops v.ready
          (omega (arith, room)) v.source.measured.samples_pos
          (samples-word self.cube_info v.source.measured)

    pub process_row_block-IsStep :
        IsStep self.config self.row_cadence.blocks_per_frame (process_row_block api self now).1
    unfolding process_row_block
    process_row_block-IsStep = elim (Bool-cases (has_data self.io)) [
      | inl e ↦ rw (e, process_row_block) (record { same = refl; blocks = refl; next = v.ready })
      | inr e ↦
          let (ready, blocks) = selected-IsReady in
          let moved = selected api self now in
          elim (Option-cases
            (RowCadence.due moved.row_cadence now self.cube_info.samples self.loops)) [
              | inl f ↦
                  rw (e, f, process_row_block)
                    (record { same = refl; blocks = blocks; next = ready })
              | inr (b, f) ↦
                  rw (e, f, process_row_block)
                    (subst (λ n. IsStep self.config n (take_row api moved now b).1) blocks
                      (take_row-IsStep moved now room ready b
                        (due-open moved.row_cadence now self.cube_info.samples self.loops b f)))
            ]
    ]

  pub step-IsReadout :
      (self after : Impl Metas)
      → IsReadout self
      → IsStep self.config self.row_cadence.blocks_per_frame after
      → IsReadout after
  step-IsReadout self after v s =
      let source =
        subst (λ k. IsRowSource (record self { config = k }) self.row_cadence.blocks_per_frame)
          (sym s.same) v.source in
      record {
        source = subst (IsRowSource after) (sym s.blocks) (record {
          rows = source.rows;
          measured = source.measured;
          divided = source.divided;
          counted = source.counted;
        });
        ready =
            subst (λ k. IsReady k.cube_info.samples k.loops after.row_cadence) (sym s.same) s.next;
      }
