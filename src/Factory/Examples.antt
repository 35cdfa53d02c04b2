-- ===== src/Factory/Examples.antt =====
-- A host that makes a source of row blocks from a FITS cube of 4 by 3 pixels, and clears it again.
use pipewireao_spa_plugin_fi.Base.{
  length, ap, inl, inr, store_at, ℕ, zero, suc, ◌*◌, ◌≡◌, refl, Bool, true, false, not, ◌&&◌,
  Option, none, some, List, [], ◌∷◌, ◌++◌, ltb, if◌then◌else◌, arith, u32_max,
}
use pipewireao_spa_plugin_fi.Errno.{Result, ok, err, eio}
use pipewireao_spa_plugin_fi.Rate.{IsRate}
use pipewireao_spa_plugin_fi.Text.{
  codes, all_digits, scan_digits, print, scan_unsigned, scan_sign, skip_space, scan_number, stored,
}
use pipewireao_spa_plugin_fi.Text.Decimal.{all_digits-print, scan_digits-print}
use mathlib.Core.Path.{subst}
use pipewireao_spa_plugin_fi.Cube
use pipewireao_spa_plugin_fi.Cube.Open.{IsFileOf}
use pipewireao_spa_plugin_fi.Factory.Handle.Planes.{ReadsWhole}
use pipewireao_spa_plugin_fi.Source.{row_block_mode, row_major}
use pipewireao_spa_plugin_fi.Factory.{
  Key, path_key, schema_key, profile_key, rate_key, output_mode_key, readout_key, readiness_key,
  Host, copy_text, parse_u32, parse_u64, parse_bool, parse_rate, scan_fraction, after_slash, at_end,
  check_rate,
}
use pipewireao_spa_plugin_fi.Factory.Options.{
  Options, read_options, read_output_mode, row_options_ok, read_layout, read_io_mode,
  read_readiness, item_of, configure_props,
}
use pipewireao_spa_plugin_fi.Factory.Rates.{parse_rate-print}
use pipewireao_spa_plugin_fi.Factory.Reports.{IsAtou32, IsOptions}
use pipewireao_spa_plugin_fi.Factory.Vouched.{read_options-IsOptions}
use pipewireao_spa_plugin_fi.Factory.RoundTrip.{read_options-configure_props}
use pipewireao_spa_plugin_fi.Factory.Handle.{
  World, Handle, Resources, Closing, init, clear, cube_options, make_handle, new_source, prepare,
  prepare_rows, too_large, row_source_ok, open_timer, finish_handle,
}
use pipewireao_spa_plugin_fi.BlockRate.{block_rate, greatest_common_divisor, divisor_from}
use pipewireao_spa_plugin_fi.Source.Prepare.{preload_row_frames, preload, preload_from}
use pipewireao_spa_plugin_fi.Factory.Handle.Made.{Made}
use pipewireao_spa_plugin_fi.Factory.Handle.Initialised.{init-Made}
use pipewireao_spa_plugin_fi.Factory.Handle.Cleared.{IsCleared, clear-IsCleared}

-- A number in decimal of 32 bits.
atou32 : List ℕ → Option ℕ
atou32 text =
    if all_digits text && not (ltb u32_max (scan_digits 0 text).0)
    then some (scan_digits 0 text).0
    else none

atou32-IsAtou32 : IsAtou32 atou32
unfolding atou32
atou32-IsAtou32 = record {
  word = λ text n e. ground arith;
  reads = λ n h. rw (all_digits-print n, scan_digits-print n (omega arith)) (ground arith);
}

abbrev host : Host
host = record { atou32 = atou32; unrepresentable = λ minus n. 0; has_data_loop = true }

abbrev items : List (Key × List ℕ)
items =
    (path_key, codes "/cube.fits")
    ∷ (schema_key, codes "rows")
    ∷ (profile_key, codes "camera")
    ∷ (rate_key, codes "30/1")
    ∷ (output_mode_key, codes "row-block")
    ∷ (readout_key, codes "1000")
    ∷ (readiness_key, codes "timerfd")
    ∷ []

abbrev zeros : ℕ → List ℕ
zeros zero = []
zeros (suc n) = 0 ∷ zeros n

abbrev fits : Cube.FitsFile
fits = record {
  select_hdu = λ hdu. some true;
  dimensions = some 2;
  axes = some (4, 3, 1);
  equivalent_type = some Cube.ushort_img;
  read_image = λ type first n. some (zeros (n * 2));
}

abbrev system : Cube.System
system = record {
  calloc_errno = none;
  open_file = err eio;
  file_size = err eio;
  map = none;
  open_memfile = none;
  open_diskfile = some fits;
}

abbrev world : World
world = record {
  host = host;
  find = item_of items;
  row_block_schema = codes "rows";
  system = system;
  allocate = λ n. some (zeros n);
  timerfd_create = ok 5;
  add_source = ok tt;
}

abbrev options : Options
options = record {
  node_name = codes "fits_source";
  path = codes "/cube.fits";
  schema = codes "rows";
  profile = codes "camera";
  rate = record { num = 30; denom = 1 };
  output_mode = row_block_mode;
  row_block_rows = 1;
  simulated_readout_time_ns = 1000;
  hdu = 1;
  sample_rank = 2;
  layout = row_major;
  io_mode = Cube.file;
  prefault = false;
  loops = true;
  timerfd_readiness = true;
}

options_read : read_options host (item_of items) ≡ ok options
unfolding atou32 read_options copy_text parse_rate parse_u32 parse_u64 parse_bool scan_fraction
    scan_unsigned scan_sign skip_space scan_number scan_digits stored after_slash at_end check_rate
    all_digits read_output_mode row_options_ok read_layout read_io_mode read_readiness item_of
options_read = refl

rate-IsRate : IsRate options.rate
rate-IsRate = record {
  num_pos = omega arith;
  num_word = omega arith;
  denom_pos = omega arith;
  denom_word = omega arith;
  period_pos = omega arith;
}

parse_rate-print_example :
    parse_rate host.unrepresentable
      (some (print options.rate.num ++ b'/' ∷ print options.rate.denom))
    ≡ ok options.rate
parse_rate-print_example = parse_rate-print host.unrepresentable options.rate rate-IsRate

read_options-IsOptions_example : IsOptions host options
read_options-IsOptions_example =
    read_options-IsOptions host atou32-IsAtou32 (item_of items) options options_read

abbrev info : Cube.Info
info = record {
  sample_rank = 2;
  width = 4;
  height = 3;
  samples = 1;
  element_type = Cube.u16_le;
  element_size = 2;
  plane_elements = 12;
  plane_size = 24;
}

read_options-configure_props_example :
    read_options host (item_of (configure_props options info)) ≡ ok options
read_options-configure_props_example =
    read_options-configure_props host (item_of items) options info atou32-IsAtou32 options_read

length-zeros : (n : ℕ) → length (zeros n) ≡ n
length-zeros zero = refl
length-zeros (suc n) = ap suc (length-zeros n)

some-eq {ℓ} : {A : Type ℓ} {a b : A} → ◌≡◌ {A = Option A} (some a) (some b) → a ≡ b
some-eq e = cc

fits-ReadsWhole : ReadsWhole fits
fits-ReadsWhole first n bytes e = subst (λ m. length m ≡ n * 2) (some-eq e) (length-zeros (n * 2))

reads_whole : (file : Cube.FitsFile) → IsFileOf system file → ReadsWhole file
reads_whole file (inl e) = subst ReadsWhole (some-eq e) fits-ReadsWhole
reads_whole file (inr e) = cc

init-Made_example : Made {Metas = Unit {0}} world (init world)
init-Made_example =
    init-Made world atou32-IsAtou32
      (λ n memory e. subst (λ m. length m ≡ n) (some-eq e) (length-zeros n)) reads_whole

-- The example makes a handle.
made : Result (Handle (Unit {0})) → Bool
made (ok h) = true
made (err e) = false

init_succeeds : made (init world).0 ≡ true
unfolding made init atou32 read_options copy_text parse_rate parse_u32 parse_u64 parse_bool
    scan_fraction scan_unsigned scan_sign skip_space scan_number scan_digits stored after_slash
    at_end check_rate all_digits read_output_mode row_options_ok read_layout read_io_mode
    read_readiness item_of Cube.open_cube Cube.valid_options Cube.is_valid_mode Cube.open_fits
    Cube.finish_open Cube.inspect Cube.query Cube.describe Cube.element_axis Cube.samples_axis
    Cube.image_type Cube.measure Cube.read_plane Cube.required_size cube_options make_handle
    new_source prepare prepare_rows too_large row_source_ok block_rate greatest_common_divisor
    divisor_from preload_row_frames preload preload_from store_at open_timer finish_handle
init_succeeds = refl

abbrev cube : Cube.Cube
cube = record {
  fits = fits;
  mapping = none;
  fd = none;
  native_datatype = Cube.tushort;
  info = info;
}

abbrev held : Resources
held = record {
  cube = record { fits = some fits; mapping = none; fd = none };
  frames = false;
  timer_fd = some 5;
  in_loop = true;
}

-- The timer leaves the loop, but its descriptor cannot be closed.
abbrev closing : Closing
closing = record {
  env = record { clock = ok 0; clock_after = ok 0; timer_result = ok tt };
  removed = ok tt;
  closed = err eio;
}

clear-IsCleared_example :
    IsCleared {Metas = Unit {0}} closing
      (new_source options cube)
      held
      (clear closing (new_source options cube) held)
clear-IsCleared_example = clear-IsCleared closing (new_source options cube) held
