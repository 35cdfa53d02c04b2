-- ===== src/Factory/Handle/Playing.antt =====
-- A source of row blocks that `init` of spa/plugins/fits/source.c has made, once it is started.
use mathlib.Core.Path.{subst}
use pipewireao_spa_plugin_fi.Base.{ℕ, ◌/◌, ◌<◌, ◌^◌, ◌≡◌, sym, inr}
use pipewireao_spa_plugin_fi.RowCadence
use pipewireao_spa_plugin_fi.RowCadence.Pts
use pipewireao_spa_plugin_fi.RowCadence.Steps.{start-IsRowScheduled}
use pipewireao_spa_plugin_fi.Source.{Impl}
use pipewireao_spa_plugin_fi.Source.Control.{begin}
use pipewireao_spa_plugin_fi.Source.Playback.Rows.{IsRowSource}
use pipewireao_spa_plugin_fi.Source.Playback.Readout.{IsReadout}
use pipewireao_spa_plugin_fi.Factory.Handle.{Resources}
use pipewireao_spa_plugin_fi.Factory.Handle.Made.{IsRowMade, blocks}

module _ {Metas : Type 0} where
  -- Whenever such a source starts, also after other calls that leave its configuration alone, it is a source with a
  -- schedule whose next block lies in its cube.
  pub begin-IsReadout :
      (made self : Impl Metas) (held : Resources) (now : ℕ)
      → IsRowMade made held
      → self.config ≡ made.config
      → now < 2 ^ 64
      → IsReadout (begin self now)
  unfolding begin RowCadence.start
  begin-IsReadout made self held now v same word =
      let source =
        subst
          (λ k. IsRowSource (record made { config = k }) (k.cube_info.height / k.row_block_rows))
          (sym same) v.row_source in
      let readout =
        subst
          (λ k. Pts.IsReadout (
            RowCadence.start k.rate k.simulated_readout_time_ns
              (k.cube_info.height / k.row_block_rows) now))
          (sym same) (v.readout now word) in
      let scheduled =
        start-IsRowScheduled self.rate self.simulated_readout_time_ns (blocks self) now readout in
      rw (source.rows, begin)
        (record {
          source = record {
            rows = source.rows;
            measured = source.measured;
            divided = source.divided;
            counted = source.counted;
          };
          ready = record { scheduled = scheduled; stored = λ _. inr source.measured.samples_pos };
        })
