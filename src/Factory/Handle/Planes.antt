-- ===== src/Factory/Handle/Planes.antt =====
-- What CFITSIO documents of a read, for the planes that `preload_row_frames` of spa/plugins/fits/source.c prepares.
use pipewireao_spa_plugin_fi.Base.{ℕ, true, ◌+◌, ◌*◌, ◌≡◌, refl, some, List, length}
use mathlib.Core.Path.{subst}
use pipewireao_spa_plugin_fi.Cube
use pipewireao_spa_plugin_fi.Cube.Open.{IsMeasured}
use pipewireao_spa_plugin_fi.Cube.Read.{read_plane-ReadsPlane}
use pipewireao_spa_plugin_fi.Source.Prepare.{FillsPlane}

-- A read of so many 16-bit pixels that succeeds gives their bytes.
abbrev pub ReadsWhole : Cube.FitsFile → Type 0
ReadsWhole fits =
    (first n : ℕ) (bytes : List ℕ)
    → fits.read_image Cube.tushort first n ≡ some bytes
    → length bytes ≡ n * 2

pub ReadsWhole-FillsPlane :
    (c : Cube.Cube)
    → IsMeasured c.info
    → ReadsWhole c.fits
    → FillsPlane (some c) c.info.plane_elements
ReadsWhole-FillsPlane c v whole s bytes e =
    let r = read_plane-ReadsPlane c s Cube.output_gray16 true (c.info.plane_elements * 2) v e in
    whole (s * c.info.plane_elements + 1) c.info.plane_elements bytes (
      subst
        (λ d.
          c.fits.read_image d (s * c.info.plane_elements + 1) c.info.plane_elements ≡ some bytes)
        (r.converted.0 refl) r.read)
