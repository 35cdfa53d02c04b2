-- ===== src/Factory/Vouched.antt =====
-- What `init` of spa/plugins/fits/source.c vouches for of the options that it reads.
use native.Mathlib.Nat.{mul-le-mul}
use pipewireao_spa_plugin_fi.Base.{
  ℕ, ◌*◌, ◌≤◌, ◌<◌, ◌≡◌, ◌≢◌, refl, ◌⊎◌, inl, inr, Bool, true, false, not, ◌&&◌, ◌||◌, Option, none,
  some, List, [], ◌∷◌, ◌==◌, arith, u64_max, u32_max, nsec_per_sec, Option-cases,
}
use pipewireao_spa_plugin_fi.Errno.{
  ok, guard, einval, enotsup, Ensures, Ensures-bind, Ensures-ok, guard-true,
}
use pipewireao_spa_plugin_fi.Rate.{Fraction, IsRate}
use pipewireao_spa_plugin_fi.Text.{codes}
use pipewireao_spa_plugin_fi.Cube
use pipewireao_spa_plugin_fi.Source.{
  Layout, row_major, column_major, OutputMode, frame_mode, row_block_mode,
}
use pipewireao_spa_plugin_fi.Factory.{
  Key, node_name_key, path_key, schema_key, profile_key, rate_key, output_mode_key,
  row_block_rows_key, readout_key, hdu_key, sample_rank_key, layout_key, io_mode_key, prefault_key,
  loop_key, readiness_key, Host, text_size, path_max, copy_text, parse_u32, parse_u64, parse_bool,
  parse_rate,
}
use pipewireao_spa_plugin_fi.Factory.Rates.{parse_rate-IsRate}
use pipewireao_spa_plugin_fi.Factory.Options.{
  Options, is_mmap, or_text, copy_optional, read_output_mode, row_options_ok, read_layout,
  read_io_mode, read_readiness, read_options,
}
use mathlib.Core.Path.{subst}
use pipewireao_spa_plugin_fi.Factory.Reports.{Fits, IsAtou32, IsOptions}

copy_text-Fits :
    (size : ℕ) (t : Option (List ℕ)) {s : List ℕ} → copy_text size t ≡ ok s → Fits size s
unfolding copy_text
copy_text-Fits size none h = cc
copy_text-Fits size (some []) h = cc
copy_text-Fits size (some (c ∷ t)) {s} h =
    let same : c ∷ t ≡ s = ground arith in subst (Fits size) same (λ e. cc, ground arith)

profile-ok :
    (t : Option (List ℕ)) {s : List ℕ}
    → copy_optional text_size t ≡ ok s
    → (s ≡ []) ⊎ Fits text_size s
profile-ok none h = inl cc
profile-ok (some t) h = inr (copy_text-Fits text_size (some t) h)

parse_u32-word :
    (host : Host) (atou : IsAtou32 host.atou32) (t : Option (List ℕ)) (fallback : ℕ) {n : ℕ}
    → fallback ≤ u32_max
    → parse_u32 host.atou32 t fallback ≡ ok n
    → n ≤ u32_max
unfolding parse_u32
parse_u32-word host atou none fallback small h = ground arith
parse_u32-word host atou (some t) fallback small h = elim (Option-cases (host.atou32 t)) [
  | inl e ↦ ground arith
  | inr (m, e) ↦ ground (arith, atou.word t m e)
]

parse_u64-word : (t : Option (List ℕ)) {n : ℕ} → parse_u64 t 0 ≡ ok n → n ≤ u64_max
unfolding parse_u64
parse_u64-word none h = ground arith
parse_u64-word (some []) h = ground arith
parse_u64-word (some (c ∷ s)) h = ground arith

-- In frame mode the row options have their defaults.
frame-defaults :
    (host : Host) (mode : OutputMode) (rate : Fraction) (rows readout : Option (List ℕ)) {n m : ℕ}
    → parse_u32 host.atou32 rows 1 ≡ ok n
    → parse_u64 readout 0 ≡ ok m
    → row_options_ok mode rate rows readout m ≡ true
    → mode ≡ frame_mode
    → (n ≡ 1) × (m ≡ 0)
unfolding parse_u32 parse_u64 row_options_ok
frame-defaults host frame_mode rate none none e f h m = (ground arith, ground arith)
frame-defaults host frame_mode rate none (some t) e f h m = cc
frame-defaults host frame_mode rate (some t) readout e f h m = cc
frame-defaults host row_block_mode rate rows readout e f h m = cc

row-readout :
    (mode : OutputMode) (rate : Fraction) (rows readout : Option (List ℕ)) {m : ℕ}
    → m ≤ u64_max
    → IsRate rate
    → row_options_ok mode rate rows readout m ≡ true
    → mode ≡ row_block_mode
    → (0 < m) × (m * rate.num ≤ nsec_per_sec * rate.denom)
unfolding row_options_ok
row-readout frame_mode rate rows readout word v h m = cc
row-readout row_block_mode rate rows readout word v h m =
    ground (arith, v.num_word, v.denom_word, mul-le-mul word v.num_word)

layout-ok :
    (rank : ℕ) (mode : OutputMode) (t : Option (List ℕ)) {l : Layout}
    → (rank ≡ 1) ⊎ (rank ≡ 2)
    → read_layout rank mode t ≡ ok l
    → (l ≡ row_major) ⊎ ((l ≡ column_major) × (rank ≡ 2) × (mode ≡ frame_mode))
unfolding read_layout
layout-ok rank frame_mode none r h = ground arith
layout-ok rank row_block_mode none r h = ground arith
layout-ok rank frame_mode (some t) r h = ground arith
layout-ok rank row_block_mode (some t) r h = ground arith

io_mode-ok :
    (t : Option (List ℕ)) {m : Cube.IoMode}
    → read_io_mode t ≡ ok m
    → (m ≡ Cube.file) ⊎ (m ≡ Cube.mmap)
unfolding read_io_mode
io_mode-ok none h = inl cc
io_mode-ok (some t) h = ground arith

prefault-mmap :
    (m : Cube.IoMode) (b : Bool) → not (b && not (is_mmap m)) ≡ true → b ≡ true → m ≡ Cube.mmap
prefault-mmap Cube.file b h e = ground arith
prefault-mmap Cube.mmap b h e = refl
prefault-mmap (Cube.other_mode n) b h e = ground arith

nonzero : (n : ℕ) → not (n == 0) ≡ true → n ≢ 0
nonzero n h = ground arith

rank-of : (n : ℕ) → ((n == 1) || (n == 2)) ≡ true → (n ≡ 1) ⊎ (n ≡ 2)
rank-of n h = ground arith

loop-needed : (b has : Bool) → not (b && not has) ≡ true → b ≡ true → has ≡ true
loop-needed b has h e = ground arith

module _ (host : Host) (atou : IsAtou32 host.atou32) (find : Key → Option (List ℕ)) where
  Ensures-IsOptions : Ensures (IsOptions host) (read_options host find)
  unfolding read_options
  Ensures-IsOptions =
      let P = IsOptions host in
      Ensures-bind P (copy_text text_size (or_text (codes "fits_source") (find node_name_key))) _
        λ node_name e1. Ensures-bind P (copy_text path_max (find path_key)) _ λ path e2.
          Ensures-bind P (copy_text text_size (find schema_key)) _ λ schema e3.
            Ensures-bind P (copy_optional text_size (find profile_key)) _ λ profile e4.
              Ensures-bind P (parse_rate host.unrepresentable (find rate_key)) _ λ rate e5.
                Ensures-bind P (read_output_mode (find output_mode_key)) _ λ mode e6.
                  Ensures-bind P (parse_u32 host.atou32 (find row_block_rows_key) 1) _ λ rows e7.
                    Ensures-bind P (guard (not (rows == 0)) einval) _ λ _ e8.
                      Ensures-bind P (parse_u64 (find readout_key) 0) _ λ readout e9.
                        Ensures-bind P
                          (guard
                            (row_options_ok mode rate (find row_block_rows_key) (find readout_key)
                              readout)
                            einval)
                          _
                          λ _ e10.
                            Ensures-bind P (parse_u32 host.atou32 (find hdu_key) 1) _ λ hdu e11.
                              Ensures-bind P (guard (not (hdu == 0)) einval) _ λ _ e12.
                                Ensures-bind P (parse_u32 host.atou32 (find sample_rank_key) 2) _
                                  λ rank e13.
                                    Ensures-bind P (guard ((rank == 1) || (rank == 2)) einval) _
                                      λ _ e14.
                                        Ensures-bind P (read_layout rank mode (find layout_key)) _
                                          λ layout e15.
                                            Ensures-bind P (read_io_mode (find io_mode_key)) _
                                              λ io_mode e16.
                                                Ensures-bind P
                                                  (parse_bool (find prefault_key) false) _
                                                  λ prefault e17.
                                                    Ensures-bind P
                                                      (guard
                                                        (not (prefault && not (is_mmap io_mode)))
                                                        einval)
                                                      _
                                                      λ _ e18.
                                                        Ensures-bind P
                                                          (parse_bool (find loop_key) true) _
                                                          λ loops e19.
                                                            Ensures-bind P
                                                            (read_readiness (find readiness_key)) _
                                                            λ timerfd e20.
                                                            Ensures-bind P
                                                            (guard
                                                            (not
                                                            (timerfd && not host.has_data_loop))
                                                            enotsup)
                                                            _
                                                            λ _ e21.
                                                            let row_ok =
                                                            guard-true
                                                            (row_options_ok mode rate
                                                            (find row_block_rows_key)
                                                            (find readout_key) readout)
                                                            einval e10 in
                                                            let is_rate =
                                                            parse_rate-IsRate host.unrepresentable _
                                                            _ e5 in
                                                            let readout_word =
                                                            parse_u64-word _ e9 in
                                                            let is_rank = rank-of _ (
                                                            guard-true ((rank == 1) || (rank == 2))
                                                            einval e14) in
                                                            let v : IsOptions host (record {
                                                            node_name = node_name;
                                                            path = path;
                                                            schema = schema;
                                                            profile = profile;
                                                            rate = rate;
                                                            output_mode = mode;
                                                            row_block_rows = rows;
                                                            simulated_readout_time_ns = readout;
                                                            hdu = hdu;
                                                            sample_rank = rank;
                                                            layout = layout;
                                                            io_mode = io_mode;
                                                            prefault = prefault;
                                                            loops = loops;
                                                            timerfd_readiness = timerfd;
                                                            }) =
                                                            record {
                                                            node_name =
                                                            copy_text-Fits text_size _ e1;
                                                            path = copy_text-Fits path_max _ e2;
                                                            schema = copy_text-Fits text_size _ e3;
                                                            profile = profile-ok _ e4;
                                                            rate = is_rate;
                                                            rows = (
                                                            nonzero _ (
                                                            guard-true (not (rows == 0)) einval e8),
                                                            parse_u32-word host atou _ 1
                                                            (omega arith) e7,
                                                            );
                                                            readout_word = readout_word;
                                                            frame_rows =
                                                            frame-defaults host _ _ _ _ e7 e9
                                                            row_ok;
                                                            row_readout =
                                                            row-readout _ _ _ _ readout_word is_rate
                                                            row_ok;
                                                            hdu = (
                                                            nonzero _ (
                                                            guard-true (not (hdu == 0)) einval e12),
                                                            parse_u32-word host atou _ 1
                                                            (omega arith) e11,
                                                            );
                                                            rank = is_rank;
                                                            layout = layout-ok _ _ _ is_rank e15;
                                                            io_mode = io_mode-ok _ e16;
                                                            prefault = prefault-mmap _ _ (
                                                            guard-true
                                                            (not
                                                            (prefault && not (is_mmap io_mode)))
                                                            einval e18);
                                                            timerfd = loop-needed _ _ (
                                                            guard-true
                                                            (not
                                                            (timerfd && not host.has_data_loop))
                                                            enotsup e21);
                                                            } in
                                                            v

  -- The options that the factory reads have texts that fit, a rate that its cadences can count, at least one
  -- row a block, a readout time exactly in row mode that fits in a frame, a rank of one or two,
  -- column-major data only for whole images, prefaulting only for a mapped file, and a timer only with a
  -- host that can serve it. The host must have an spa_atou32 that reads just 32-bit numbers and those that
  -- are printed in decimal.
  pub read_options-IsOptions : (o : Options) → read_options host find ≡ ok o → IsOptions host o
  read_options-IsOptions o e =
      Ensures-ok (IsOptions host) (read_options host find) e Ensures-IsOptions
