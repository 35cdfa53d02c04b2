-- ===== src/Factory/Reports.antt =====
-- What the factory vouches for of the options it reads, and where a source reports each of them:
-- `configure_props` and `init` of spa/plugins/fits/source.c.
use pipewireao_spa_plugin_fi.Base.{
  length, ℕ, ◌*◌, ◌≤◌, ◌<◌, ◌≡◌, ◌≢◌, refl, ◌∙◌, ◌⊎◌, Bool, true, false, Option, none, some, List,
  [], ◌∷◌, ◌==◌, if◌then◌else◌, arith, u64_max, u32_max, nsec_per_sec,
}
use pipewireao_spa_plugin_fi.Errno.{ok}
use pipewireao_spa_plugin_fi.Rate.{IsRate}
use pipewireao_spa_plugin_fi.Text.{print}
use pipewireao_spa_plugin_fi.Cube
use pipewireao_spa_plugin_fi.Source.{
  row_major, column_major, frame_mode, row_block_mode, is_row_block,
}
use pipewireao_spa_plugin_fi.Factory.{
  Key, node_name_key, path_key, schema_key, profile_key, rate_key, output_mode_key,
  row_block_rows_key, readout_key, hdu_key, sample_rank_key, layout_key, io_mode_key, prefault_key,
  loop_key, readiness_key, Host, text_size, path_max, copy_text,
}
use pipewireao_spa_plugin_fi.Factory.Options.{
  Options, is_empty, key_code, item_of, bool_text, layout_text, io_mode_text, readiness_text,
  output_mode_text, rate_text, row_items, mode_items, configure_props,
}

==_refl : (n : ℕ) → (n == n) ≡ true
==_refl n = ground arith

-- What SPA documents of `spa_atou32`: it reads an `unsigned int`, and any that is printed in decimal.
pub record IsAtou32 (atou32 : List ℕ → Option ℕ) : Type 0 where
  pub word : (text : List ℕ) (n : ℕ) → atou32 text ≡ some n → n ≤ u32_max
  pub reads : (n : ℕ) → n ≤ u32_max → atou32 (print n) ≡ some n

-- A text that an array of `size` bytes takes, with its end: it is not empty.
abbrev pub Fits : ℕ → List ℕ → Type 0
Fits size s = (s ≢ []) × (length s < size)

pub Fits-copy_text : (size : ℕ) (s : List ℕ) → Fits size s → copy_text size (some s) ≡ ok s
unfolding copy_text
Fits-copy_text size [] h = absurd (h.0 refl)
Fits-copy_text size (c ∷ s) h = ground (arith, h.1)

-- What the checks of the factory vouch for.
pub record IsOptions (host : Host) (o : Options) : Type 0 where
  pub node_name : Fits text_size o.node_name
  pub path : Fits path_max o.path
  pub schema : Fits text_size o.schema
  pub profile : (o.profile ≡ []) ⊎ Fits text_size o.profile
  pub rate : IsRate o.rate
  pub rows : (o.row_block_rows ≢ 0) × (o.row_block_rows ≤ u32_max)
  pub readout_word : o.simulated_readout_time_ns ≤ u64_max
  pub frame_rows :
      o.output_mode ≡ frame_mode → (o.row_block_rows ≡ 1) × (o.simulated_readout_time_ns ≡ 0)
  pub row_readout :
      o.output_mode ≡ row_block_mode
      → (0 < o.simulated_readout_time_ns)
        × (o.simulated_readout_time_ns * o.rate.num ≤ nsec_per_sec * o.rate.denom)
  pub hdu : (o.hdu ≢ 0) × (o.hdu ≤ u32_max)
  pub rank : (o.sample_rank ≡ 1) ⊎ (o.sample_rank ≡ 2)
  pub layout :
      (o.layout ≡ row_major)
      ⊎ ((o.layout ≡ column_major) × (o.sample_rank ≡ 2) × (o.output_mode ≡ frame_mode))
  pub io_mode : (o.io_mode ≡ Cube.file) ⊎ (o.io_mode ≡ Cube.mmap)
  pub prefault : o.prefault ≡ true → o.io_mode ≡ Cube.mmap
  pub timerfd : o.timerfd_readiness ≡ true → host.has_data_loop ≡ true

-- The properties of `o` under their keys.
pub record Reports (o : Options) (find : Key → Option (List ℕ)) : Type 0 where
  pub node_name : find node_name_key ≡ some o.node_name
  pub path : find path_key ≡ some o.path
  pub schema : find schema_key ≡ some o.schema
  pub profile : find profile_key ≡ (if is_empty o.profile then none else some o.profile)
  pub rate : find rate_key ≡ some (rate_text o.rate)
  pub output_mode : find output_mode_key ≡ some (output_mode_text o.output_mode)
  pub rows :
      find row_block_rows_key
      ≡ (if is_row_block o.output_mode then some (print o.row_block_rows) else none)
  pub readout :
      find readout_key
      ≡ (if is_row_block o.output_mode then some (print o.simulated_readout_time_ns) else none)
  pub hdu : find hdu_key ≡ some (print o.hdu)
  pub sample_rank : find sample_rank_key ≡ some (print o.sample_rank)
  pub layout : find layout_key ≡ some (layout_text o.layout)
  pub io_mode : find io_mode_key ≡ some (io_mode_text o.io_mode)
  pub prefault : find prefault_key ≡ some (bool_text o.prefault)
  pub loops : find loop_key ≡ some (bool_text o.loops)
  pub readiness : find readiness_key ≡ some (readiness_text o.timerfd_readiness)

-- Both the properties with a profile and those without have the modes.
item-optional :
    (b : Bool) (items : List (Key × List ℕ)) (k : Key) (value : List ℕ) (key : Key)
    → (key_code k == key_code key) ≡ false
    → item_of (if b then items else (k, value) ∷ items) key ≡ item_of items key
unfolding item_of
item-optional true items k value key h = refl
item-optional false items k value key h = rw (h, item_of) refl

item-itself :
    (b : Bool) (items : List (Key × List ℕ)) (k : Key) (value : List ℕ)
    → item_of items k ≡ none
    → item_of (if b then items else (k, value) ∷ items) k ≡ (if b then none else some value)
unfolding item_of
item-itself true items k value h = h
item-itself false items k value h = rw (==_refl (key_code k), item_of) refl

row_items-item :
    (o : Options) (b : Bool)
    → is_row_block o.output_mode ≡ b
    → (item_of (row_items o) profile_key ≡ none)
      × (item_of (row_items o) row_block_rows_key
          ≡ (if b then some (print o.row_block_rows) else none))
      × (item_of (row_items o) readout_key
          ≡ (if b then some (print o.simulated_readout_time_ns) else none))
unfolding row_items item_of
row_items-item o true e = rw (e, row_items) (refl, refl, refl)
row_items-item o false e = rw (e, row_items) (refl, refl, refl)

module _ (o : Options) (info : Cube.Info) where
  mode_item :
      (key : Key)
      → (key_code profile_key == key_code key) ≡ false
      → item_of
          (if is_empty o.profile then mode_items o else (profile_key, o.profile) ∷ mode_items o)
          key
        ≡ item_of (mode_items o) key
  mode_item = item-optional (is_empty o.profile) (mode_items o) profile_key o.profile

  -- A lookup in the properties that a source reports finds each option.
  pub configure_props-Reports : Reports o (item_of (configure_props o info))
  unfolding configure_props mode_items item_of
  configure_props-Reports =
      let (no_profile, rows, readout) = row_items-item o (is_row_block o.output_mode) refl in
      record {
        node_name = refl;
        path = refl;
        schema = refl;
        profile = item-itself (is_empty o.profile) (mode_items o) profile_key o.profile no_profile;
        rate = refl;
        output_mode = mode_item output_mode_key refl;
        rows = mode_item row_block_rows_key refl ∙ rows;
        readout = mode_item readout_key refl ∙ readout;
        hdu = refl;
        sample_rank = refl;
        layout = refl;
        io_mode = mode_item io_mode_key refl;
        prefault = mode_item prefault_key refl;
        loops = mode_item loop_key refl;
        readiness = mode_item readiness_key refl;
      }
