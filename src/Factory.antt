-- ===== src/Factory.antt =====
-- The factory of spa/plugins/fits/source.c, first part: how the properties that a host passes to `init`
-- are read (`copy_text`, `parse_u32`, `parse_u64`, `parse_bool`, `parse_rate` and the checks of `init` up
-- to the opening of the cube).
pub mod Rates
pub mod Options
pub mod Reports
pub mod Checks
pub mod Vouched
pub mod RoundTrip
pub mod Handle
mod Examples
use pipewireao_spa_plugin_fi.Base.{
  ℕ, ◌+◌, ◌*◌, Bool, true, false, not, ◌&&◌, ◌||◌, Option, none, some, List, [], ◌∷◌, ltb, leb,
  ◌==◌, if◌then◌else◌, length, u64_max, u128, nsec_per_sec,
}
use mathlib.Core.Option
use pipewireao_spa_plugin_fi.Errno.{Result, ok, err, einval}
use pipewireao_spa_plugin_fi.Rate.{Fraction}
use pipewireao_spa_plugin_fi.Text.{codes, same_text, all_digits, scan_digits, scan_unsigned}
use pipewireao_spa_plugin_fi.Cube
use pipewireao_spa_plugin_fi.Source.{
  Layout, row_major, column_major, OutputMode, frame_mode, row_block_mode,
}

-- The keys of the properties of a source.
pub data Key : Type 0 where
  node_name_key path_key schema_key profile_key rate_key output_mode_key row_block_rows_key : Key
  readout_key hdu_key sample_rank_key layout_key io_mode_key prefault_key loop_key : Key
  readiness_key device_api_key media_class_key description_key driver_key clock_key : Key
  conversion_key : Key

-- What `init` finds outside: SPA's `spa_atou32` in base 10, what `%u` stores for a number that does not
-- fit, and whether the host has both a data loop and a data system.
pub record Host : Type 0 where
  pub atou32 : List ℕ → Option ℕ
  pub unrepresentable : Bool → ℕ → ℕ
  pub has_data_loop : Bool

-- `TEXT_SIZE`, and `PATH_MAX` of Linux.
abbrev pub text_size : ℕ
text_size = 512

abbrev pub path_max : ℕ
path_max = 4096

-- A null pointer is `none`.
unfoldable pub copy_text : ℕ → Option (List ℕ) → Result (List ℕ)
copy_text size none = err einval
copy_text size (some []) = err einval
copy_text size (some (c ∷ s)) = if leb size (length (c ∷ s)) then err einval else ok (c ∷ s)

abbrev or_einval {ℓ} : {A : Type ℓ} → Option A → Result A
or_einval none = err einval
or_einval (some a) = ok a

unfoldable pub parse_u32 : (List ℕ → Option ℕ) → Option (List ℕ) → ℕ → Result ℕ
parse_u32 atou32 none fallback = ok fallback
parse_u32 atou32 (some text) fallback = or_einval (atou32 text)

-- `strtoumax` fails with `ERANGE` above 64 bits; on digits alone it skips nothing and reads all of them.
unfoldable pub parse_u64 : Option (List ℕ) → ℕ → Result ℕ
parse_u64 none fallback = ok fallback
parse_u64 (some []) fallback = err einval
parse_u64 (some (c ∷ s)) fallback =
    let parsed : ℕ = (scan_digits 0 (c ∷ s)).0 in
    if not (all_digits (c ∷ s))
    then err einval
    else if ltb u64_max parsed
    then err einval
    else ok parsed

unfoldable pub parse_bool : Option (List ℕ) → Bool → Result Bool
parse_bool none fallback = ok fallback
parse_bool (some text) fallback =
    if same_text text (codes "true") || same_text text (codes "1")
    then ok true
    else if same_text text (codes "false") || same_text text (codes "0")
    then ok false
    else err einval

-- A number that `%c` finds nothing behind.
unfoldable pub at_end : Option (ℕ × List ℕ) → Option ℕ
at_end none = none
at_end (some (n, [])) = some n
at_end (some (n, c ∷ s)) = none

-- The scan `"%u/%u%c"` where it assigns exactly the two numbers.
unfoldable pub after_slash : (Bool → ℕ → ℕ) → ℕ → List ℕ → Option (ℕ × ℕ)
after_slash unrepresentable numerator [] = none
after_slash unrepresentable numerator (c ∷ s) =
    if c == b'/'
    then Option.map (λ denominator. (numerator, denominator))
        (at_end (scan_unsigned unrepresentable s))
    else none

unfoldable pub scan_fraction : (Bool → ℕ → ℕ) → List ℕ → Option (ℕ × ℕ)
scan_fraction unrepresentable text = elim (scan_unsigned unrepresentable text) [
  | none ↦ none
  | some (numerator, rest) ↦ after_slash unrepresentable numerator rest
]

-- The scan `"%u%c"` where it assigns exactly the number.
unfoldable pub scan_whole : (Bool → ℕ → ℕ) → List ℕ → Option (ℕ × ℕ)
scan_whole unrepresentable text =
    Option.map (λ numerator. (numerator, 1)) (at_end (scan_unsigned unrepresentable text))

unfoldable pub check_rate : ℕ × ℕ → Result Fraction
check_rate (numerator, denominator) =
    if (numerator == 0) || ((denominator == 0) || ltb (u128 (nsec_per_sec * denominator)) numerator)
    then err einval
    else ok (record { num = numerator; denom = denominator })

unfoldable pub parse_rate : (Bool → ℕ → ℕ) → Option (List ℕ) → Result Fraction
parse_rate unrepresentable none = err einval
parse_rate unrepresentable (some text) = elim (scan_fraction unrepresentable text) [
  | some parsed ↦ check_rate parsed
  | none ↦ elim (scan_whole unrepresentable text) [
    | some parsed ↦ check_rate parsed
    | none ↦ err einval
  ]
]
