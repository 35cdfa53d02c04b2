-- ===== src/Cube/Examples.antt =====
-- A cube of five 4 by 3 images of unsigned 16-bit pixels.
use pipewireao_spa_plugin_fi.Base.{
  ℕ, zero, suc, ◌*◌, ◌≡◌, refl, inr, true, false, none, some, List, [], ◌∷◌, arith,
}
use pipewireao_spa_plugin_fi.Errno.{ok, err, eoverflow}
use pipewireao_spa_plugin_fi.Cube.{
  u16_le, ushort_img, tushort, mmap, output_gray16, Options, Info, FitsFile, Cube, required_size,
  read_plane, element_axis, samples_axis, measure, query, describe, inspect, is_valid_mode,
  valid_options, image_type, System, map_file, open_fits, finish_open, open_cube, close,
}
use pipewireao_spa_plugin_fi.Cube.Open.{IsMeasured, Opened, open_cube-Opened}
use pipewireao_spa_plugin_fi.Cube.Read.{ReadsPlane, read_plane-ReadsPlane}

abbrev bytes : ℕ → ℕ → List ℕ
bytes zero b = []
bytes (suc n) b = b ∷ bytes n b

-- A file that gives the number of the first element as the value of each byte.
abbrev fits_file : FitsFile
fits_file = record {
  select_hdu = λ n. some true;
  dimensions = some 3;
  axes = some (4, 3, 5);
  equivalent_type = some ushort_img;
  read_image = λ datatype first n. some (bytes (2 * n) first);
}

abbrev info : Info
info = record {
  sample_rank = 2;
  width = 4;
  height = 3;
  samples = 5;
  element_type = u16_le;
  element_size = 2;
  plane_elements = 12;
  plane_size = 24;
}

abbrev options : Options
options = record { path_given = true; hdu = 1; sample_rank = 2; io_mode = mmap; prefault = false }

abbrev sys : System
sys = record {
  calloc_errno = none;
  open_file = ok 7;
  file_size = ok (some 5760);
  map = none;
  open_memfile = some fits_file;
  open_diskfile = some fits_file;
}

abbrev cube : Cube
cube = record {
  fits = fits_file;
  mapping = some 5760;
  fd = some 7;
  native_datatype = tushort;
  info = info;
}

opens : (open_cube sys options).0 ≡ ok cube
unfolding open_cube valid_options is_valid_mode open_fits map_file finish_open inspect query
    describe element_axis samples_axis image_type measure close
opens = refl

-- A mapping of a file whose axis is too long is given back.
refuses :
    open_cube
      (record sys { open_memfile = some (record fits_file { axes = some (5000000000, 3, 5) }) })
      options
    ≡ (err eoverflow, record { fits = none; mapping = none; fd = none })
unfolding open_cube valid_options is_valid_mode open_fits map_file finish_open inspect query
    describe element_axis samples_axis image_type measure close
refuses = refl

info-IsMeasured : IsMeasured info
info-IsMeasured = record {
  rank = inr refl;
  width_range = (omega arith, omega arith);
  height_range = (omega arith, omega arith);
  vector = λ e. absurd (omega arith);
  samples_pos = omega arith;
  element_size_range = (omega arith, omega arith);
  elements = refl;
  size = refl;
  size_fits = omega arith;
  cube_fits = omega arith;
}

reads_third : read_plane (some cube) 2 output_gray16 true 24 ≡ ok (bytes 24 25)
unfolding read_plane required_size
reads_third = refl

open_cube-Opened_example : Opened sys options (open_cube sys options)
open_cube-Opened_example = open_cube-Opened sys options

read_plane-ReadsPlane_example : ReadsPlane cube 2 output_gray16 24 (bytes 24 25)
read_plane-ReadsPlane_example =
    read_plane-ReadsPlane cube 2 output_gray16 true 24 info-IsMeasured reads_third
