-- ===== src/Source/Prepare/Examples.antt =====
-- The preparation of a cube of one 4 by 3 plane.
use pipewireao_spa_plugin_fi.Base.{
  ℕ, zero, suc, ◌*◌, ◌≡◌, refl, ap, ◌∙◌, true, Option, none, some, List, [], ◌∷◌, length, arith,
  store_at,
}
use pipewireao_spa_plugin_fi.Cube
use pipewireao_spa_plugin_fi.Cube.Read.{read_plane-ReadsPlane}
use pipewireao_spa_plugin_fi.Source.{Impl}
use pipewireao_spa_plugin_fi.Source.Examples.{waiting, measured}
use pipewireao_spa_plugin_fi.Source.Prepare.{
  preload_from, preload, preload_row_frames, FillsPlane, HasPlane, preload_row_frames-HasPlane,
}

abbrev bytes_of : ℕ → ℕ → List ℕ
bytes_of b zero = []
bytes_of b (suc n) = b ∷ bytes_of b n

length-bytes_of : (b n : ℕ) → length (bytes_of b n) ≡ n
length-bytes_of b zero = refl
length-bytes_of b (suc n) = ap suc (length-bytes_of b n)

abbrev one_plane : Cube.Cube
one_plane = record {
  fits = record {
    select_hdu = λ n. some true;
    dimensions = some 2;
    axes = some (4, 3, 1);
    equivalent_type = some Cube.ushort_img;
    read_image = λ datatype first n. some (bytes_of 7 (n * 2));
  };
  mapping = none;
  fd = none;
  native_datatype = Cube.tushort;
  info = waiting.cube_info;
}

abbrev closed : Impl (Unit {0})
closed = record waiting { cube = some one_plane }

abbrev allocate : ℕ → Option (List ℕ)
allocate n = some (bytes_of 0 n)

same : {a b : List ℕ} → some a ≡ some b → b ≡ a
same e = cc

sized : (n : ℕ) (memory : List ℕ) → allocate n ≡ some memory → length memory ≡ n
sized n memory e = ap length (same e) ∙ length-bytes_of 0 n

fills : FillsPlane (some one_plane) 12
fills s bytes e =
    let w = read_plane-ReadsPlane one_plane s Cube.output_gray16 true 24 measured e in
    ap length (same w.read) ∙ length-bytes_of 7 24

preload_row_frames-HasPlane_example : HasPlane (some one_plane) 12 (bytes_of 7 24) 0
unfolding preload_row_frames preload preload_from store_at Cube.read_plane Cube.required_size
preload_row_frames-HasPlane_example =
    preload_row_frames-HasPlane closed allocate (bytes_of 7 24) sized fills refl refl 0
      (omega arith)
