-- ===== src/Source/Playback/Ended.antt =====
-- The two ends of a pass of spa/plugins/fits/source.c that has taken a buffer: it goes back to the pool, or to
-- the host.
use pipewireao_spa_plugin_fi.Base.{
  ℕ, ◌≡◌, refl, ap, inl, inr, some, List, set, get_elem?, Option, Option-cases,
}
use pipewireao_spa_plugin_fi.Errno.{Result-cases}
use pipewireao_spa_plugin_fi.Cadence
use pipewireao_spa_plugin_fi.RowCadence
use pipewireao_spa_plugin_fi.Cube
use pipewireao_spa_plugin_fi.ImageFrame
use pipewireao_spa_plugin_fi.Pool
use pipewireao_spa_plugin_fi.Source.{Impl}
use pipewireao_spa_plugin_fi.Source.Playback.{
  fill, deliver, drop_buffer, abandon_frame, row_bytes, row_frame, publish_row, fill_row,
  plane_format, is_some, plane_frame, publish_plane, fill_plane,
}
use pipewireao_spa_plugin_fi.Source.Playback.Publication.{await_completion-io}

module _ {Metas : Type 0} where
  -- The slot at `i` of `slots`, of the buffer `id`, is stored again: free and with the io area as it was, or
  -- published and announced.
  pub data Ended (slots : List (Pool.Slot Metas)) (io : Option Pool.Io) (i id : ℕ)
      (after : Impl Metas) : Type 0 where
    dropped :
        (s : Pool.Slot Metas)
        → s.state ≡ Pool.available
        → after.io ≡ io
        → after.pool.slots ≡ set slots i s
        → Ended slots io i id after
    delivered :
        (s : Pool.Slot Metas)
        → s.state ≡ Pool.published
        → after.io ≡ some (record { status = Pool.have_data; buffer_id = some id })
        → after.pool.slots ≡ set slots i s
        → Ended slots io i id after

module _ {Metas Records : Type 0} (api : ImageFrame.MetaApi Metas Records) (self : Impl Metas)
    (i : ℕ) (slot : Pool.Slot Metas) where
  abbrev Ends : Impl Metas → Type 0
  Ends = Ended self.pool.slots self.io i slot.id

  publish_row-Ends :
      (now : ℕ) (b : RowCadence.RowBlock) (buffer : ImageFrame.Buffer Metas)
      → Ends (publish_row api self now b i slot buffer).1
  unfolding publish_row drop_buffer deliver abandon_frame Pool.give_back
  publish_row-Ends now b buffer =
      elim (Result-cases (
        ImageFrame.write api (some buffer) (some (row_frame api self b))
          ImageFrame.require_header)) [
            | inl (buffer', e) ↦
                rw (e, publish_row)
                  (delivered _ refl (await_completion-io api _ _ slot.id).0
                    (ap (λ p. p.slots) (await_completion-io api _ _ slot.id).1))
            | inr (x, e) ↦ rw (e, publish_row) (dropped _ refl refl refl)
          ]

  pub fill_row-Ends : (now : ℕ) (b : RowCadence.RowBlock) → Ends (fill_row api self now b i slot).1
  unfolding fill_row drop_buffer Pool.give_back
  fill_row-Ends now b = elim (Option-cases slot.buffer) [
    | inl e ↦ rw (e, fill_row) (dropped _ refl refl refl)
    | inr (buffer, e) ↦ elim (Option-cases (get_elem? buffer.datas 0)) [
      | inl f ↦ rw (e, f, fill_row) (dropped _ refl refl refl)
      | inr (d, f) ↦ elim (Option-cases self.preloaded_frames) [
        | inl g ↦ rw (e, f, g, fill_row) (dropped _ refl refl refl)
        | inr (frames, g) ↦
            rw (e, f, g, fill_row)
              (publish_row-Ends now b (fill buffer d (row_bytes self frames b)))
      ]
    ]
  ]

  publish_plane-Ends :
      (p : Cadence.Plane) (buffer : ImageFrame.Buffer Metas)
      → Ends (publish_plane api self p i slot buffer).1
  unfolding publish_plane drop_buffer deliver Pool.give_back
  publish_plane-Ends p buffer =
      elim (Result-cases (
        ImageFrame.write api (some buffer) (some (plane_frame api self p))
          ImageFrame.require_header)) [
            | inl (buffer', e) ↦
                rw (e, publish_plane)
                  (delivered _ refl (await_completion-io api _ _ slot.id).0
                    (ap (λ q. q.slots) (await_completion-io api _ _ slot.id).1))
            | inr (x, e) ↦ rw (e, publish_plane) (dropped _ refl refl refl)
          ]

  pub fill_plane-Ends : (p : Cadence.Plane) → Ends (fill_plane api self p i slot).1
  unfolding fill_plane drop_buffer Pool.give_back
  fill_plane-Ends p = elim (Option-cases slot.buffer) [
    | inl e ↦ rw (e, fill_plane) (dropped _ refl refl refl)
    | inr (buffer, e) ↦ elim (Option-cases (get_elem? buffer.datas 0)) [
      | inl f ↦ rw (e, f, fill_plane) (dropped _ refl refl refl)
      | inr (d, f) ↦
          elim (Result-cases
            (Cube.read_plane self.cube p.sample (plane_format self) (is_some d.memory) d.maxsize)) [
              | inl (bytes, g) ↦
                  rw (e, f, g, fill_plane) (publish_plane-Ends p (fill buffer d bytes))
              | inr (x, g) ↦ rw (e, f, g, fill_plane) (dropped _ refl refl refl)
            ]
    ]
  ]
