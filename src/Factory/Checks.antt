-- ===== src/Factory/Checks.antt =====
-- Each check of `init` of spa/plugins/fits/source.c, on a property that a source reports.
use native.Mathlib.Nat.{mul-le-mul}
use pipewireao_spa_plugin_fi.Base.{
  ℕ, ◌*◌, ◌≤◌, ◌<◌, ◌≡◌, refl, sym, ap, ◌⊎◌, inl, inr, Bool, true, false, none, some, List, [], ◌∷◌,
  if◌then◌else◌, arith, u64_max, u32_max, nsec_per_sec,
}
use pipewireao_spa_plugin_fi.Errno.{ok}
use pipewireao_spa_plugin_fi.Rate.{Fraction, IsRate}
use pipewireao_spa_plugin_fi.Text.{print}
use pipewireao_spa_plugin_fi.Cube
use pipewireao_spa_plugin_fi.Source.{
  Layout, row_major, column_major, OutputMode, frame_mode, row_block_mode, is_row_block,
}
use pipewireao_spa_plugin_fi.Factory.{Host, text_size, parse_u32, parse_u64, parse_bool}
use pipewireao_spa_plugin_fi.Factory.Rates.{parse_u64-print}
use pipewireao_spa_plugin_fi.Factory.Options.{
  is_empty, copy_optional, read_output_mode, row_options_ok, read_layout, read_io_mode,
  read_readiness, bool_text, layout_text, io_mode_text, readiness_text, output_mode_text,
}
use pipewireao_spa_plugin_fi.Factory.Reports.{Fits, Fits-copy_text, IsAtou32}

pub profile-copied :
    (t : List ℕ)
    → (t ≡ []) ⊎ Fits text_size t
    → copy_optional text_size (if is_empty t then none else some t) ≡ ok t
profile-copied [] h = refl
profile-copied (c ∷ s) (inl e) = cc
profile-copied (c ∷ s) (inr e) = Fits-copy_text text_size (c ∷ s) e

pub mode-read : (m : OutputMode) → read_output_mode (some (output_mode_text m)) ≡ ok m
unfolding read_output_mode
mode-read frame_mode = refl
mode-read row_block_mode = refl

pub io_mode-read :
    (m : Cube.IoMode)
    → (m ≡ Cube.file) ⊎ (m ≡ Cube.mmap)
    → read_io_mode (some (io_mode_text m)) ≡ ok m
unfolding read_io_mode
io_mode-read m (inl e) = rw e refl
io_mode-read m (inr e) = rw e refl

pub layout-read :
    (rank : ℕ) (mode : OutputMode) (l : Layout)
    → (l ≡ row_major) ⊎ ((l ≡ column_major) × (rank ≡ 2) × (mode ≡ frame_mode))
    → read_layout rank mode (some (layout_text l)) ≡ ok l
unfolding read_layout
layout-read rank mode l (inl e) = rw e refl
layout-read rank mode l (inr (e, two, frame)) = rw (e, two, frame) refl

pub readiness-read : (b : Bool) → read_readiness (some (readiness_text b)) ≡ ok b
unfolding read_readiness
readiness-read true = refl
readiness-read false = refl

pub bool-read : (b fallback : Bool) → parse_bool (some (bool_text b)) fallback ≡ ok b
unfolding parse_bool
bool-read true fallback = refl
bool-read false fallback = refl

module _ (host : Host) (atou : IsAtou32 host.atou32) where
  pub u32-read :
      (n fallback : ℕ) → n ≤ u32_max → parse_u32 host.atou32 (some (print n)) fallback ≡ ok n
  unfolding parse_u32
  u32-read n fallback h = rw (atou.reads n h, parse_u32) refl

  pub rows-read :
      (m : OutputMode) (n : ℕ)
      → n ≤ u32_max
      → (m ≡ frame_mode → n ≡ 1)
      → parse_u32 host.atou32 (if is_row_block m then some (print n) else none) 1 ≡ ok n
  unfolding parse_u32
  rows-read frame_mode n h one = sym (ap ok (one refl))
  rows-read row_block_mode n h one = u32-read n 1 h

pub readout-read :
    (m : OutputMode) (n : ℕ)
    → n ≤ u64_max
    → (m ≡ frame_mode → n ≡ 0)
    → parse_u64 (if is_row_block m then some (print n) else none) 0 ≡ ok n
unfolding parse_u64
readout-read frame_mode n h none_ = sym (ap ok (none_ refl))
readout-read row_block_mode n h none_ = parse_u64-print n 0 h

pub row_options-checked :
    (m : OutputMode) (rate : Fraction) (rows readout : List ℕ) (n : ℕ)
    → n ≤ u64_max
    → IsRate rate
    → (m ≡ row_block_mode → (0 < n) × (n * rate.num ≤ nsec_per_sec * rate.denom))
    → row_options_ok m rate
        (if is_row_block m then some rows else none)
        (if is_row_block m then some readout else none)
        n
      ≡ true
unfolding row_options_ok
row_options-checked frame_mode rate rows readout n word v h = refl
row_options-checked row_block_mode rate rows readout n word v h =
    ground (arith, h refl, v.num_word, v.denom_word, mul-le-mul word v.num_word)
