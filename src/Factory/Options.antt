-- ===== src/Factory/Options.antt =====
-- The options of a source that `init` of spa/plugins/fits/source.c reads from the properties of the host,
-- and `configure_props`, which reports them again.
use pipewireao_spa_plugin_fi.Base.{
  ℕ, ◌*◌, Bool, true, false, not, ◌&&◌, ◌||◌, Option, none, some, List, [], ◌∷◌, ◌++◌, ltb, ◌==◌,
  if◌then◌else◌, u128, nsec_per_sec,
}
use pipewireao_spa_plugin_fi.Errno.{Result, ok, err, ◌>>=◌, ◌>>◌, guard, einval, enotsup}
use pipewireao_spa_plugin_fi.Rate.{Fraction}
use pipewireao_spa_plugin_fi.Text.{codes, same_text, print}
use pipewireao_spa_plugin_fi.Cube
use pipewireao_spa_plugin_fi.Source.{
  Layout, row_major, column_major, other_layout, OutputMode, frame_mode, row_block_mode,
  is_row_block,
}
use pipewireao_spa_plugin_fi.Source.Port.{given}
use pipewireao_spa_plugin_fi.Factory.{
  Key, node_name_key, path_key, schema_key, profile_key, rate_key, output_mode_key,
  row_block_rows_key, readout_key, hdu_key, sample_rank_key, layout_key, io_mode_key, prefault_key,
  loop_key, readiness_key, device_api_key, media_class_key, description_key, driver_key, clock_key,
  conversion_key, Host, text_size, path_max, copy_text, parse_u32, parse_u64, parse_bool,
  parse_rate,
}

-- What `init` reads. An empty profile is none.
pub record Options : Type 0 where
  pub node_name : List ℕ
  pub path : List ℕ
  pub schema : List ℕ
  pub profile : List ℕ
  pub rate : Fraction
  pub output_mode : OutputMode
  pub row_block_rows : ℕ
  pub simulated_readout_time_ns : ℕ
  pub hdu : ℕ
  pub sample_rank : ℕ
  pub layout : Layout
  pub io_mode : Cube.IoMode
  pub prefault : Bool
  pub loops : Bool
  pub timerfd_readiness : Bool

abbrev pub is_empty : List ℕ → Bool
is_empty [] = true
is_empty (c ∷ s) = false

abbrev pub is_mmap : Cube.IoMode → Bool
is_mmap Cube.mmap = true
is_mmap _ = false

abbrev pub or_text : List ℕ → Option (List ℕ) → Option (List ℕ)
or_text fallback none = some fallback
or_text fallback (some text) = some text

-- An optional text that `memset` has left empty.
abbrev pub copy_optional : ℕ → Option (List ℕ) → Result (List ℕ)
copy_optional size none = ok []
copy_optional size (some text) = copy_text size (some text)

unfoldable pub read_output_mode : Option (List ℕ) → Result OutputMode
read_output_mode none = ok frame_mode
read_output_mode (some text) =
    if same_text text (codes "frame")
    then ok frame_mode
    else if same_text text (codes "row-block")
    then ok row_block_mode
    else err einval

-- The last checks of the row options. The 128-bit products of 64-bit and 32-bit numbers do not wrap.
unfoldable pub row_options_ok : OutputMode → Fraction → Option (List ℕ) → Option (List ℕ) → ℕ → Bool
row_options_ok frame_mode rate rows readout readout_time = not (given rows || given readout)
row_options_ok row_block_mode rate rows readout readout_time =
    not (
      (readout_time == 0)
      || ltb (u128 (nsec_per_sec * rate.denom)) (u128 (readout_time * rate.num)))

unfoldable pub read_layout : ℕ → OutputMode → Option (List ℕ) → Result Layout
read_layout rank mode none =
    ok (if (rank == 1) || is_row_block mode then row_major else column_major)
read_layout rank mode (some text) =
    if same_text text (codes "row-major")
    then ok row_major
    else if same_text text (codes "column-major") && ((rank == 2) && not (is_row_block mode))
    then ok column_major
    else err einval

unfoldable pub read_io_mode : Option (List ℕ) → Result Cube.IoMode
read_io_mode none = ok Cube.file
read_io_mode (some text) =
    if same_text text (codes "file")
    then ok Cube.file
    else if same_text text (codes "mmap")
    then ok Cube.mmap
    else err einval

unfoldable pub read_readiness : Option (List ℕ) → Result Bool
read_readiness none = ok false
read_readiness (some text) =
    if same_text text (codes "poll")
    then ok false
    else if same_text text (codes "timerfd")
    then ok true
    else err einval

-- `init` up to the opening of the cube. `find` is `spa_dict_lookup` on the properties of the host, without
-- which nothing is found.
unfoldable pub read_options : Host → (Key → Option (List ℕ)) → Result Options
read_options host find = do
  node_name ← copy_text text_size (or_text (codes "fits_source") (find node_name_key))
  path ← copy_text path_max (find path_key)
  schema ← copy_text text_size (find schema_key)
  profile ← copy_optional text_size (find profile_key)
  rate ← parse_rate host.unrepresentable (find rate_key)
  output_mode ← read_output_mode (find output_mode_key)
  row_block_rows ← parse_u32 host.atou32 (find row_block_rows_key) 1
  guard (not (row_block_rows == 0)) einval
  readout ← parse_u64 (find readout_key) 0
  guard (row_options_ok output_mode rate (find row_block_rows_key) (find readout_key) readout)
      einval
  hdu ← parse_u32 host.atou32 (find hdu_key) 1
  guard (not (hdu == 0)) einval
  sample_rank ← parse_u32 host.atou32 (find sample_rank_key) 2
  guard ((sample_rank == 1) || (sample_rank == 2)) einval
  layout ← read_layout sample_rank output_mode (find layout_key)
  io_mode ← read_io_mode (find io_mode_key)
  prefault ← parse_bool (find prefault_key) false
  guard (not (prefault && not (is_mmap io_mode))) einval
  loops ← parse_bool (find loop_key) true
  timerfd_readiness ← read_readiness (find readiness_key)
  guard (not (timerfd_readiness && not host.has_data_loop)) enotsup
  ok (record {
    node_name = node_name;
    path = path;
    schema = schema;
    profile = profile;
    rate = rate;
    output_mode = output_mode;
    row_block_rows = row_block_rows;
    simulated_readout_time_ns = readout;
    hdu = hdu;
    sample_rank = sample_rank;
    layout = layout;
    io_mode = io_mode;
    prefault = prefault;
    loops = loops;
    timerfd_readiness = timerfd_readiness;
  })

-- `spa_dict_lookup` on a list of items: the value of the first one with the key.
abbrev pub key_code : Key → ℕ
key_code node_name_key = 0
key_code path_key = 1
key_code schema_key = 2
key_code profile_key = 3
key_code rate_key = 4
key_code output_mode_key = 5
key_code row_block_rows_key = 6
key_code readout_key = 7
key_code hdu_key = 8
key_code sample_rank_key = 9
key_code layout_key = 10
key_code io_mode_key = 11
key_code prefault_key = 12
key_code loop_key = 13
key_code readiness_key = 14
key_code device_api_key = 15
key_code media_class_key = 16
key_code description_key = 17
key_code driver_key = 18
key_code clock_key = 19
key_code conversion_key = 20

unfoldable pub item_of : List (Key × List ℕ) → Key → Option (List ℕ)
item_of [] key = none
item_of ((k, value) ∷ items) key =
    if key_code k == key_code key then some value else item_of items key

abbrev pub bool_text : Bool → List ℕ
bool_text b = if b then codes "true" else codes "false"

abbrev pub layout_text : Layout → List ℕ
layout_text row_major = codes "row-major"
layout_text column_major = codes "column-major"
layout_text (other_layout n) = codes "column-major"

abbrev pub io_mode_text : Cube.IoMode → List ℕ
io_mode_text Cube.file = codes "file"
io_mode_text Cube.mmap = codes "mmap"
io_mode_text (Cube.other_mode n) = codes "mmap"

abbrev pub readiness_text : Bool → List ℕ
readiness_text timerfd = if timerfd then codes "timerfd" else codes "poll"

abbrev pub output_mode_text : OutputMode → List ℕ
output_mode_text frame_mode = codes "frame"
output_mode_text row_block_mode = codes "row-block"

abbrev pub rate_text : Fraction → List ℕ
rate_text r = print r.num ++ b'/' ∷ print r.denom

-- The texts of an image or a vector sequence, of `what` it has so many.
abbrev sizes_text : Cube.Info → List ℕ
sizes_text info = print info.width ++ codes "x" ++ print info.height

abbrev count_text : Cube.Info → List ℕ → List ℕ
count_text info what = codes " (" ++ print info.samples ++ what

unfoldable pub description : Options → Cube.Info → List ℕ
description o info =
    if info.sample_rank == 1
    then codes "FITS vector sequence " ++ print info.width ++ count_text info (codes " samples)")
    else if is_row_block o.output_mode
    then codes "Simulated FITS camera readout "
      ++ sizes_text info
      ++ count_text info (codes " frames)")
    else codes "FITS image cube " ++ sizes_text info ++ count_text info (codes " frames)")

-- The last items of `configure_props`, and those from the profile on.
unfoldable pub row_items : Options → List (Key × List ℕ)
row_items o =
    if is_row_block o.output_mode
    then (row_block_rows_key, print o.row_block_rows)
      ∷ (readout_key, print o.simulated_readout_time_ns)
      ∷ []
    else []

unfoldable pub mode_items : Options → List (Key × List ℕ)
mode_items o =
    (io_mode_key, io_mode_text o.io_mode)
    ∷ (prefault_key, bool_text o.prefault)
    ∷ (loop_key, bool_text o.loops)
    ∷ (readiness_key, readiness_text o.timerfd_readiness)
    ∷ (output_mode_key, output_mode_text o.output_mode)
    ∷ row_items o

-- `configure_props`, with the texts that `init` prints. None of them is cut: a number has 20 digits at most.
unfoldable pub configure_props : Options → Cube.Info → List (Key × List ℕ)
configure_props o info =
    (device_api_key, codes "fits")
    ∷ (media_class_key, if info.sample_rank == 2 then codes "Video/Source" else codes "Data/Source")
    ∷ (node_name_key, o.node_name)
    ∷ (description_key, description o info)
    ∷ (driver_key, codes "true")
    ∷ (clock_key, codes "monotonic")
    ∷ (conversion_key, codes "unavailable")
    ∷ (path_key, o.path)
    ∷ (hdu_key, print o.hdu)
    ∷ (sample_rank_key, print o.sample_rank)
    ∷ (layout_key, layout_text o.layout)
    ∷ (rate_key, rate_text o.rate)
    ∷ (schema_key, o.schema)
    ∷ (if is_empty o.profile then mode_items o else (profile_key, o.profile) ∷ mode_items o)
