-- ===== src/Source/Playback/PlanePublication.antt =====
-- What a pass of `process_source` in frame mode that publishes leaves for the host.
use pipewireao_spa_plugin_fi.Base.{
  ◌||◌, u32, ℕ, ◌≡◌, refl, ap, ◌∙◌, ◌⊎◌, inl, inr, true, false, some, List, get_elem?,
  get_elem?-set_self, get_elem?-lt, Option-cases, Bool-cases,
}
use pipewireao_spa_plugin_fi.Errno.{ok, Result-cases}
use pipewireao_spa_plugin_fi.Cadence
use pipewireao_spa_plugin_fi.Cube
use pipewireao_spa_plugin_fi.ImageFrame
use pipewireao_spa_plugin_fi.Pool
use pipewireao_spa_plugin_fi.Source.{Impl, output_size, output_stride}
use pipewireao_spa_plugin_fi.Source.Playback.{
  status_have_data, fill, has_data, deliver, plane_format, is_some, plane_frame, publish_plane,
  fill_plane, take_plane, process_plane,
}
use pipewireao_spa_plugin_fi.Source.Playback.Publication.{
  IsFilled, fill-IsFilled, err-ok, idle-data, await_completion-io, holding,
}

module _ {Metas Records : Type 0} (api : ImageFrame.MetaApi Metas Records) where
  -- The plane is with the host: the bytes that were read of it stand in a buffer of the pool, written by one
  -- publication, and the io area names the buffer.
  pub record IsPlaneOut (self : Impl Metas) (p : Cadence.Plane) (index : ℕ) (slot : Pool.Slot Metas)
      (after : Impl Metas) : Type 0 where
    pub buffer : ImageFrame.Buffer Metas
    pub data_ : ImageFrame.Data
    pub bytes : List ℕ
    pub written : ImageFrame.Buffer Metas
    pub held : slot.buffer ≡ some buffer
    pub data_found : get_elem? buffer.datas 0 ≡ some data_
    pub read :
        Cube.read_plane self.cube p.sample (plane_format self) (is_some data_.memory) data_.maxsize
        ≡ ok bytes
    pub write_ok :
        ImageFrame.write api
          (some (fill buffer data_ bytes))
          (some (plane_frame api self p))
          ImageFrame.require_header
        ≡ ok written
    pub filled :
        IsFilled data_ bytes
          (record {
            flags = record {
              discont = p.discontinuity || self.discontinuity;
              corrupted = false;
              marker = false;
              header = false;
              gap = false;
              delta_unit = false;
              unknown = 0;
            };
            offset = 0;
            pts = p.pts;
            dts_offset = 0;
            seq = p.sequence;
          })
          (record {
            offset = 0;
            size = u32 (output_size self);
            stride = output_stride self;
            flags = record { corrupted = false; empty = false; unknown = 0 };
          })
          written
    pub announced : after.io ≡ some (record { status = Pool.have_data; buffer_id = some slot.id })
    pub out :
        get_elem? after.pool.slots index
        ≡ some (record slot { buffer = some written; state = Pool.published })
    pub continuous : after.discontinuity ≡ false

  module _ (self : Impl Metas) (p : Cadence.Plane) (i : ℕ) (slot : Pool.Slot Metas)
      (found : get_elem? self.pool.slots i ≡ some slot) where
    -- The steps to a publication, one after the other; each can only fail in an error.
    fill_plane-IsPlaneOut :
        (fill_plane api self p i slot).0 ≡ ok status_have_data
        → IsPlaneOut self p i slot (fill_plane api self p i slot).1
    unfolding fill_plane publish_plane deliver
    fill_plane-IsPlaneOut e = elim (Option-cases slot.buffer) [
      | inl f ↦ absurd (err-ok (rw (f, fill_plane) at e))
      | inr (buffer, f) ↦ elim (Option-cases (get_elem? buffer.datas 0)) [
        | inl g ↦ absurd (err-ok (rw (f, g, fill_plane) at e))
        | inr (d, g) ↦
            elim (Result-cases (
              Cube.read_plane self.cube p.sample (plane_format self) (is_some d.memory)
                d.maxsize)) [
                  | inr (x, h) ↦ absurd (err-ok (rw (f, g, h, fill_plane) at e))
                  | inl (bytes, h) ↦
                      elim (Result-cases (
                        ImageFrame.write api (some (fill buffer d bytes))
                          (some (plane_frame api self p)) ImageFrame.require_header)) [
                            | inr (x, k) ↦
                                absurd (err-ok (rw (f, g, h, fill_plane, k, publish_plane) at e))
                            | inl (written, k) ↦ record {
                              buffer = buffer;
                              data_ = d;
                              bytes = bytes;
                              written = written;
                              held = f;
                              data_found = g;
                              read = h;
                              write_ok = k;
                              filled =
                                  unfold plane_frame in
                                  fill-IsFilled api buffer d bytes (plane_frame api self p)
                                    ImageFrame.require_header written g refl k;
                              announced =
                                  rw (f, g, h, fill_plane, k, publish_plane)
                                    (await_completion-io api _ _ slot.id).0;
                              out =
                                  rw (f, g, h, fill_plane, k, publish_plane)
                                    (ap (λ q. get_elem? q.slots i)
                                        (await_completion-io api _ _ slot.id).1
                                      ∙ get_elem?-set_self self.pool.slots i
                                          (record slot {
                                            buffer = some written;
                                            state = Pool.published;
                                          })
                                          (get_elem?-lt self.pool.slots i found));
                              continuous =
                                  rw (f, g, h, fill_plane, k, publish_plane)
                                    (await_completion-io api _ _ slot.id).2;
                            }
                          ]
                ]
      ]
    ]

  -- The state with the schedule moved on.
  abbrev pub scheduled : Impl Metas → ℕ → Impl Metas
  scheduled self now = record self {
    cadence = (Cadence.due self.cadence now self.cube_info.samples self.loops).0;
  }

  -- A pass that publishes: the plane that is due, in the buffer that was taken.
  pub record IsPlanePublished (self : Impl Metas) (p : Cadence.Plane) (now : ℕ) (after : Impl Metas)
      : Type 0 where
    pub index : ℕ
    pub slot : Pool.Slot Metas
    pub taken : (Pool.take self.pool).0 ≡ some index
    pub found : get_elem? (Pool.take self.pool).1.slots index ≡ some slot
    pub plane_out : IsPlaneOut (holding api (scheduled self now)) p index slot after

  module _ (self : Impl Metas) (p : Cadence.Plane) where
    take_plane-IsPlaneOut :
        (take_plane api self p).0 ≡ ok status_have_data
        → (i : ℕ) × (slot : Pool.Slot Metas) × ((Pool.take self.pool).0 ≡ some i)
          × (get_elem? (Pool.take self.pool).1.slots i ≡ some slot)
          × IsPlaneOut (holding api self) p i slot (take_plane api self p).1
    unfolding take_plane
    take_plane-IsPlaneOut e = elim (Option-cases (Pool.take self.pool).0) [
      | inl f ↦ absurd (idle-data api (rw (f, take_plane) at e))
      | inr (i, f) ↦ elim (Option-cases (get_elem? (Pool.take self.pool).1.slots i)) [
        | inl g ↦ absurd (idle-data api (rw (f, g, take_plane) at e))
        | inr (slot, g) ↦ (
          i,
          slot,
          f,
          g,
          rw (f, g, take_plane)
              (fill_plane-IsPlaneOut (holding api self) p i slot g (rw (f, g, take_plane) at e)),
        )
      ]
    ]

  -- A pass in frame mode that answers HAVE_DATA has a plane that is due. Either the host has not read the
  -- output before, and the plane is dropped with the next one marked as a discontinuity; or the plane is
  -- published: in the free buffer that was taken the memory starts with the bytes that were read of it, its
  -- Header has the time, the number and the mark of the plane, its chunk the size and the stride of the
  -- output, the buffer is with the host, and the io area names it.
  pub process_plane-IsPublished :
      (self : Impl Metas) (now : ℕ)
      → (process_plane api self now).0 ≡ ok status_have_data
      → (p : Cadence.Plane) × ((Cadence.due self.cadence now self.cube_info.samples self.loops).1
          ≡ some p)
        × (((has_data self.io ≡ true)
              × ((process_plane api self now).1
                  ≡ record (scheduled self now) { discontinuity = true }))
            ⊎ ((has_data self.io ≡ false)
                × IsPlanePublished self p now (process_plane api self now).1))
  unfolding process_plane
  process_plane-IsPublished self now e =
      elim (Option-cases (Cadence.due self.cadence now self.cube_info.samples self.loops).1) [
        | inl f ↦ absurd (idle-data api (rw (f, process_plane) at e))
        | inr (p, f) ↦ (
          p,
          f,
          elim (Bool-cases (has_data self.io)) [
            | inl g ↦ inl (g, rw (f, g, process_plane) refl)
            | inr g ↦
                let (i, slot, taken, found, out) =
                  take_plane-IsPlaneOut (scheduled self now) p (rw (f, g, process_plane) at e) in
                inr (
                  g,
                  record {
                    index = i;
                    slot = slot;
                    taken = taken;
                    found = found;
                    plane_out = rw (f, g, process_plane) out;
                  },
                )
          ],
        )
      ]
