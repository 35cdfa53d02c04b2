-- ===== src/Factory/RoundTrip.antt =====
-- The properties that a source reports, given to the factory again, make the same options:
-- `configure_props` and `init` of spa/plugins/fits/source.c.
use pipewireao_spa_plugin_fi.Base.{
  ℕ, ◌≤◌, ◌≡◌, ◌≢◌, refl, ap, ◌∙◌, Bool, true, false, not, ◌&&◌, ◌||◌, Option, none, some, List,
  ◌==◌, if◌then◌else◌, arith, u32_max,
}
use pipewireao_spa_plugin_fi.Errno.{ok}
use pipewireao_spa_plugin_fi.Text.{codes, print}
use pipewireao_spa_plugin_fi.Cube
use pipewireao_spa_plugin_fi.Source.{is_row_block}
use pipewireao_spa_plugin_fi.Factory.{
  Key, row_block_rows_key, readout_key, Host, text_size, path_max, copy_text, parse_u32, parse_u64,
  parse_bool, parse_rate,
}
use pipewireao_spa_plugin_fi.Factory.Rates.{parse_rate-print}
use pipewireao_spa_plugin_fi.Factory.Options.{
  Options, is_mmap, or_text, copy_optional, read_output_mode, row_options_ok, read_layout,
  read_io_mode, read_readiness, read_options, item_of, configure_props,
}
use pipewireao_spa_plugin_fi.Factory.Reports.{Fits-copy_text, IsAtou32, IsOptions, Reports}
use pipewireao_spa_plugin_fi.Errno.{bind-step, guard-step}
use pipewireao_spa_plugin_fi.Factory.Vouched.{read_options-IsOptions}
use pipewireao_spa_plugin_fi.Factory.Reports.{configure_props-Reports}
use pipewireao_spa_plugin_fi.Factory.Checks.{
  profile-copied, mode-read, io_mode-read, layout-read, readiness-read, bool-read, readout-read,
  row_options-checked, u32-read, rows-read,
}

nonzero : (n : ℕ) → n ≢ 0 → not (n == 0) ≡ true
nonzero n h = ground arith

module _ (host : Host) (atou : IsAtou32 host.atou32) where
  module _ (o : Options) (v : IsOptions host o) where
    module _ (find : Key → Option (List ℕ)) (r : Reports o find) where
      row_options-reported :
          row_options_ok o.output_mode o.rate
            (find row_block_rows_key)
            (find readout_key)
            o.simulated_readout_time_ns
          ≡ true
      row_options-reported =
          ap
            (λ t.
              row_options_ok o.output_mode o.rate t (find readout_key) o.simulated_readout_time_ns)
            r.rows
          ∙ ap
              (λ t.
                row_options_ok o.output_mode o.rate
                  (if is_row_block o.output_mode then some (print o.row_block_rows) else none) t
                  o.simulated_readout_time_ns)
              r.readout
          ∙ row_options-checked o.output_mode o.rate (print o.row_block_rows)
              (print o.simulated_readout_time_ns) o.simulated_readout_time_ns v.readout_word v.rate
              v.row_readout

      rank-ok : ((o.sample_rank == 1) || (o.sample_rank == 2)) ≡ true
      rank-ok = ground (arith, v.rank)

      rank-word : o.sample_rank ≤ u32_max
      rank-word = ground (arith, v.rank)

      prefault-ok :
          (b : Bool)
          → (b ≡ true → o.io_mode ≡ Cube.mmap)
          → not (b && not (is_mmap o.io_mode)) ≡ true
      prefault-ok true h = rw (h refl) refl
      prefault-ok false h = refl

      loop-ok :
          (b : Bool)
          → (b ≡ true → host.has_data_loop ≡ true)
          → not (b && not host.has_data_loop) ≡ true
      loop-ok true h = rw (h refl) refl
      loop-ok false h = refl

      -- The texts, the rate and the row options of what is reported, each with its check.
      read_options-Reports : read_options host find ≡ ok o
      unfolding read_options
      read_options-Reports =
          bind-step _
            (ap (λ t. copy_text text_size (or_text (codes "fits_source") t)) r.node_name
              ∙ Fits-copy_text text_size o.node_name v.node_name)
            (bind-step _ (ap (copy_text path_max) r.path ∙ Fits-copy_text path_max o.path v.path) (
              bind-step _
                (ap (copy_text text_size) r.schema ∙ Fits-copy_text text_size o.schema v.schema)
                (bind-step _
                  (ap (copy_optional text_size) r.profile ∙ profile-copied o.profile v.profile)
                  (bind-step _
                    (ap (parse_rate host.unrepresentable) r.rate
                      ∙ parse_rate-print host.unrepresentable o.rate v.rate)
                    (bind-step _ (ap read_output_mode r.output_mode ∙ mode-read o.output_mode) (
                      bind-step _
                        (ap (λ t. parse_u32 host.atou32 t 1) r.rows
                          ∙ rows-read host atou o.output_mode o.row_block_rows v.rows.1
                              (λ e. (v.frame_rows e).0))
                        (guard-step _ _ (nonzero o.row_block_rows v.rows.0) (
                          bind-step _
                            (ap (λ t. parse_u64 t 0) r.readout
                              ∙ readout-read o.output_mode o.simulated_readout_time_ns
                                  v.readout_word (λ e. (v.frame_rows e).1))
                            (guard-step _ _ row_options-reported (
                              bind-step _
                                (ap (λ t. parse_u32 host.atou32 t 1) r.hdu
                                  ∙ u32-read host atou o.hdu 1 v.hdu.1)
                                (guard-step _ _ (nonzero o.hdu v.hdu.0) (
                                  bind-step _
                                    (ap (λ t. parse_u32 host.atou32 t 2) r.sample_rank
                                      ∙ u32-read host atou o.sample_rank 2 rank-word)
                                    (guard-step _ _ rank-ok (
                                      bind-step _
                                        (ap (read_layout o.sample_rank o.output_mode) r.layout
                                          ∙ layout-read o.sample_rank o.output_mode o.layout
                                              v.layout)
                                        (bind-step _
                                          (ap read_io_mode r.io_mode
                                            ∙ io_mode-read o.io_mode v.io_mode)
                                          (bind-step _
                                            (ap (λ t. parse_bool t false) r.prefault
                                              ∙ bool-read o.prefault false)
                                            (guard-step _ _ (prefault-ok o.prefault v.prefault) (
                                              bind-step _
                                                (ap (λ t. parse_bool t true) r.loops
                                                  ∙ bool-read o.loops true)
                                                (bind-step _
                                                  (ap read_readiness r.readiness
                                                    ∙ readiness-read o.timerfd_readiness)
                                                  (guard-step _ _
                                                    (loop-ok o.timerfd_readiness v.timerfd)
                                                    refl))))))))))))))))))))

-- The properties that a source reports can be given to the factory again: it reads from them the options
-- that the source was made with.
pub read_options-configure_props :
    (host : Host) (find : Key → Option (List ℕ)) (o : Options) (info : Cube.Info)
    → IsAtou32 host.atou32
    → read_options host find ≡ ok o
    → read_options host (item_of (configure_props o info)) ≡ ok o
read_options-configure_props host find o info atou e =
    read_options-Reports host atou o (read_options-IsOptions host atou find o e) _
      (configure_props-Reports o info)
