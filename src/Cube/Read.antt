-- ===== src/Cube/Read.antt =====
-- `fits_cube_read_plane`: the part of the image that is read, and where it goes.
use native.Mathlib.Nat.{mul-le-mul_right}
use pipewireao_spa_plugin_fi.Base.{
  ℕ, ◌+◌, ◌*◌, ◌≤◌, ◌<◌, ◌≡◌, inl, inr, Bool, true, ◌&&◌, some, List, ltb, leb, u64, arith,
  Option-cases, leb→le,
}
use pipewireao_spa_plugin_fi.Errno.{
  ok, guard, einval, enospc, Ensures, Ensures-bind, Ensures-ok, guard-true,
}
use pipewireao_spa_plugin_fi.Cube.{
  Datatype, OutputFormat, output_native, output_gray16, other_format, tushort, Info, Cube,
  required_size, read_plane, status_result,
}
use pipewireao_spa_plugin_fi.Cube.Open.{IsMeasured}

-- The bytes of one plane in an output format.
abbrev pub format_size : Info → OutputFormat → ℕ
format_size i output_native = i.plane_size
format_size i output_gray16 = i.plane_elements * 2
format_size i (other_format n) = 0

-- A read of plane `sample`: elements `sample * plane_elements + 1` up to the end of that plane, as
-- CFITSIO numbers them, all of them inside the cube.
pub record ReadsPlane (c : Cube) (sample : ℕ) (f : OutputFormat) (size : ℕ) (bytes : List ℕ)
    : Type 0 where
  pub stored : sample < c.info.samples
  pub fits_in : format_size c.info f ≤ size
  pub datatype : Datatype
  pub read :
      c.fits.read_image datatype (sample * c.info.plane_elements + 1) c.info.plane_elements
      ≡ some bytes
  pub inside :
      sample * c.info.plane_elements + c.info.plane_elements
      ≤ c.info.plane_elements * c.info.samples
  pub converted :
      (f ≡ output_gray16 → datatype ≡ tushort) × (f ≡ output_native → datatype ≡ c.native_datatype)

required-format :
    (c : Cube) (f : OutputFormat) {d : Datatype} {n : ℕ}
    → required_size c f ≡ ok (d, n)
    → (n ≡ format_size c.info f)
      × (f ≡ output_gray16 → d ≡ tushort)
      × (f ≡ output_native → d ≡ c.native_datatype)
unfolding required_size
required-format c output_native e = (cc, λ h. cc, λ _. cc)
required-format c output_gray16 e = ground arith
required-format c (other_format n) e = cc

first-exact :
    (i : Info) (s : ℕ)
    → IsMeasured i
    → s < i.samples
    → (u64 (s * i.plane_elements + 1) ≡ s * i.plane_elements + 1)
      × (s * i.plane_elements + i.plane_elements ≤ i.plane_elements * i.samples)
first-exact i s v h =
    let bound = mul-le-mul_right {m = s + 1} {n = i.samples} i.plane_elements (omega arith) in
    (omega (arith, v.cube_fits, bound), omega (arith, bound))

taken :
    (c : Cube) (sample : ℕ) (f : OutputFormat) (size : ℕ) (r : Datatype × ℕ) (destination : Bool)
    → (destination && ltb sample c.info.samples) ≡ true
    → required_size c f ≡ ok r
    → leb r.1 size ≡ true
    → IsMeasured c.info
    → Ensures (ReadsPlane c sample f size) (
        status_result
          (c.fits.read_image r.0 (u64 (sample * c.info.plane_elements + 1)) c.info.plane_elements))
taken c sample f size (d, n) destination st req room v =
    let stored : sample < c.info.samples = ground arith in
    let (first, inside) = first-exact c.info sample v stored in
    let (need, gray, same) = required-format c f req in
    elim (Option-cases
      (c.fits.read_image d (u64 (sample * c.info.plane_elements + 1)) c.info.plane_elements)) [
        | inl e ↦ rw e tt
        | inr (bytes, e) ↦ rw e (record {
          stored = stored;
          fits_in = omega (arith, leb→le n size room, need);
          datatype = d;
          read = rw first at e;
          inside = inside;
          converted = (gray, same);
        })
      ]

reads :
    (c : Cube) (sample : ℕ) (f : OutputFormat) (destination : Bool) (size : ℕ)
    → IsMeasured c.info
    → Ensures (ReadsPlane c sample f size) (read_plane (some c) sample f destination size)
unfolding read_plane
reads c sample f destination size v =
    Ensures-bind P (guard (destination && ltb sample c.info.samples) einval) _ λ _ stored.
      Ensures-bind P (required_size c f) _ λ r req.
        Ensures-bind P (guard (leb r.1 size) enospc) _ λ _ room.
          taken c sample f size r destination (guard-true _ einval stored) req
            (guard-true _ enospc room) v
  where
    P : List ℕ → Type 0
    P = ReadsPlane c sample f size

-- A read that succeeds on an open cube gets exactly the elements of the one plane, in the type of the output
-- format; the plane is in the cube, its number does not wrap, and the destination has room for it.
pub read_plane-ReadsPlane :
    (c : Cube) (sample : ℕ) (f : OutputFormat) (destination : Bool) (size : ℕ) {bytes : List ℕ}
    → IsMeasured c.info
    → read_plane (some c) sample f destination size ≡ ok bytes
    → ReadsPlane c sample f size bytes
read_plane-ReadsPlane c sample f destination size v e =
    Ensures-ok (ReadsPlane c sample f size) _ e (reads c sample f destination size v)
