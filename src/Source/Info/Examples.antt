-- ===== src/Source/Info/Examples.antt =====
-- Two listeners of a source of whole frames, one of them from before a format is set.
use mathlib.Core.Option
use pipewireao_spa_plugin_fi.Base.{ℕ, ◌≡◌, refl, true, false, none, some, List, [], ◌∷◌, ◌++◌}
use pipewireao_spa_plugin_fi.Text.{codes}
use pipewireao_spa_plugin_fi.Cube
use pipewireao_spa_plugin_fi.Source.{frame_mode, row_major}
use pipewireao_spa_plugin_fi.Source.Examples.{fresh, rate_30}
use pipewireao_spa_plugin_fi.Source.Port.{
  PortId, VideoFormat, validate_ndarray, validate_video, negotiate, set_param,
}
use pipewireao_spa_plugin_fi.Factory.Options.{Options}
use pipewireao_spa_plugin_fi.Source.Info.{
  HookApi, Info, tell, emit_node_info, emit_port_info, add_listener, flip_serial, announce_format,
  port_set_param, init_info,
}
use pipewireao_spa_plugin_fi.Source.Info.Log.{heard_port}
use pipewireao_spa_plugin_fi.Source.Info.Heard.{
  IsHookApi, IsHeard, made, and_listener, and_format, Told-IsHeard, port_params,
}

-- Hook lists as lists of listeners.
abbrev hooks : HookApi (List ℕ)
hooks = record {
  empty = [];
  isolate = λ h l. (l ∷ [], h);
  join = λ h save. save ++ h;
  told = λ h. h;
}

hooks-IsHookApi : IsHookApi hooks
hooks-IsHookApi = record {
  told-empty = refl;
  told-isolate = λ h l. refl;
  told-saved = λ h l. refl;
  told-join = λ h save. refl;
}

abbrev options : Options
options = record {
  node_name = codes "fits_source";
  path = codes "/cube.fits";
  schema = codes "rows";
  profile = codes "camera";
  rate = rate_30;
  output_mode = frame_mode;
  row_block_rows = 0;
  simulated_readout_time_ns = 0;
  hdu = 1;
  sample_rank = 2;
  layout = row_major;
  io_mode = Cube.file;
  prefault = false;
  loops = false;
  timerfd_readiness = false;
}

abbrev gray16 : VideoFormat
gray16 = record { gray16_le = true; width = 4; height = 3; framerate = rate_30 }

abbrev port : PortId
port = record { is_output = true; port_id = 0 }

abbrev at_first : Info (List ℕ) (Unit {0})
at_first = init_info hooks options fresh.cube_info

abbrev with_format : Info (List ℕ) (Unit {0})
with_format =
    (port_set_param hooks fresh (add_listener hooks at_first 5) port true false
      (some (record { ndarray = none; video = some gray16 }))).1.1

abbrev with_both : Info (List ℕ) (Unit {0})
with_both = add_listener hooks with_format 7

-- The first listener is told of the format that is taken.
format_heard : Option.map (λ p. p.params) (heard_port 5 with_format.log) ≡ some (port_params true)
unfolding init_info add_listener port_set_param announce_format flip_serial emit_node_info
    emit_port_info tell heard_port set_param negotiate validate_ndarray validate_video
format_heard = refl

Told-IsHeard_example : IsHeard hooks with_both
Told-IsHeard_example =
    Told-IsHeard hooks (Unit {0}) hooks-IsHookApi options fresh.cube_info with_both (
      and_listener with_format 7 (
        and_format fresh (add_listener hooks at_first 5) port true false _
          (and_listener at_first 5 made)))
