-- ===== src/Cube/Open.antt =====
-- `fits_cube_open`: the sizes that a successful open vouches for, and the resources of a failed one.
use mathlib.Core.Path.{subst}
use pipewireao_spa_plugin_fi.Base.{
  ◌≡◌, refl, sym, ◌⊎◌, inl, inr, true, none, some, arith, Bool-cases, Option-cases,
}
use pipewireao_spa_plugin_fi.Errno.{Result, ok, err, Errno, einval, Ensures-ok, Result-cases}
use pipewireao_spa_plugin_fi.Cube.{
  IoMode, Options, FitsFile, Cube, inspect, valid_options, System, Held, nothing_held, map_file,
  open_fits, close, finish_open, open_cube,
}
pub use pipewireao_spa_plugin_fi.Cube.Described.{IsMeasured}
use pipewireao_spa_plugin_fi.Cube.Described.{IsImage, IsInspected, inspect-IsInspected}

-- A file that CFITSIO has opened, on the disk or in memory.
abbrev pub IsFileOf : System → FitsFile → Type 0
IsFileOf sys fits = (sys.open_diskfile ≡ some fits) ⊎ (sys.open_memfile ≡ some fits)

-- The end of an open: either a cube whose sizes are vouched for and which owns all that is held, or
-- an error with nothing held.
pub data Opened (sys : System) (o : Options) (r : Result Cube × Held) : Type 0 where
  opened :
      (c : Cube)
      → r.0 ≡ ok c
      → IsMeasured c.info
      → IsFileOf sys c.fits
      → IsImage c.fits o (c.native_datatype, c.info)
      → r.1.fits ≡ some c.fits
      → (r.1.mapping ≡ c.mapping) × (r.1.fd ≡ c.fd)
      → Opened sys o r
  failed : (e : Errno) → r.0 ≡ err e → r.1 ≡ nothing_held → Opened sys o r

finish_open-Opened :
    (sys : System) (o : Options) (fits : FitsFile) (held : Held)
    → IsFileOf sys fits
    → valid_options o ≡ true
    → held.fits ≡ some fits
    → Opened sys o (finish_open o fits held)
unfolding IsInspected finish_open
finish_open-Opened sys o fits held file v has = elim (Result-cases (inspect fits o)) [
  | inl ((d, i), e) ↦
      let (sizes, image) =
        Ensures-ok (IsInspected fits o) (inspect fits o) e (inspect-IsInspected fits o v) in
      rw (e, finish_open) (opened _ refl sizes file image has (refl, refl))
  | inr (x, e) ↦ rw (e, finish_open) (failed x refl (unfold close in refl))
]

open_fits-holds :
    (sys : System) (m : IoMode) (held : Held) (fits : FitsFile)
    → (open_fits sys m held).0 ≡ ok fits
    → (open_fits sys m held).1.fits ≡ some fits
unfolding open_fits map_file
open_fits-holds sys m held fits e = ground arith

open_fits-IsFileOf :
    (sys : System) (m : IoMode) (held : Held) (fits : FitsFile)
    → (open_fits sys m held).0 ≡ ok fits
    → IsFileOf sys fits
unfolding open_fits map_file
open_fits-IsFileOf sys m held fits e = ground arith

open_cube-finish :
    (sys : System) (o : Options) (fits : FitsFile)
    → valid_options o ≡ true
    → sys.calloc_errno ≡ none
    → (open_fits sys o.io_mode nothing_held).0 ≡ ok fits
    → open_cube sys o ≡ finish_open o fits (open_fits sys o.io_mode nothing_held).1
unfolding open_cube
open_cube-finish sys o fits v e f = ground arith

-- `fits_cube_open` succeeds only if the HDU that is asked for is an image with the axes of a sample, and at most one
-- more; the sizes of the cube are those axes, and its types those of the image. They fit: positive axes of at most `UINT32_MAX`, a
-- plane whose bytes a `size_t` counts, and a cube whose elements CFITSIO can number, all of them equal to
-- the products that they stand for. The cube owns the file, the mapping and the descriptor. On every error
-- nothing stays open.
pub open_cube-Opened : (sys : System) (o : Options) → Opened sys o (open_cube sys o)
unfolding open_cube close
open_cube-Opened sys o = elim (Bool-cases (valid_options o)) [
  | inr v ↦ rw (v, open_cube) (failed einval refl refl)
  | inl v ↦ elim (Option-cases sys.calloc_errno) [
    | inr (x, e) ↦ rw (v, e, open_cube) (failed x refl refl)
    | inl e ↦ elim (Result-cases (open_fits sys o.io_mode nothing_held).0) [
      | inr (x, f) ↦ rw (v, e, f, open_cube) (failed x refl refl)
      | inl (fits, f) ↦
          let held = open_fits-holds sys o.io_mode nothing_held fits f in
          let file = open_fits-IsFileOf sys o.io_mode nothing_held fits f in
          subst (Opened sys o) (sym (open_cube-finish sys o fits v e f))
            (finish_open-Opened sys o fits _ file v held)
    ]
  ]
]
