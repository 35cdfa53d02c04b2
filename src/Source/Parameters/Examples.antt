-- ===== src/Source/Parameters/Examples.antt =====
-- A host that asks a source of whole frames for its formats and sets the second of them.
use pipewireao_spa_plugin_fi.Base.{
  ℕ, ◌≡◌, refl, true, false, none, some, [], ◌∷◌, arith, take, drop, get_elem?,
}
use pipewireao_spa_plugin_fi.Errno.{Result, ok}
use pipewireao_spa_plugin_fi.Pool
use pipewireao_spa_plugin_fi.Source.{Impl}
use pipewireao_spa_plugin_fi.Source.Examples.{fresh}
use pipewireao_spa_plugin_fi.Source.Port.{
  PortId, Param, set_param, negotiate, validate_ndarray, validate_video,
}
use pipewireao_spa_plugin_fi.Source.Parameters.{
  enum_format_id, format_id, Pod, video_format, Builder, offer_video, port_enum_params,
}
use pipewireao_spa_plugin_fi.Source.Parameters.Enumeration.{selected}
use pipewireao_spa_plugin_fi.Source.Parameters.Offered.{port_offered, port_enum_params-offered}
use pipewireao_spa_plugin_fi.Source.Parameters.Formats.{as_param}
use pipewireao_spa_plugin_fi.Source.Parameters.Negotiation.{
  Says, offered-reported, accepted-offered,
}

abbrev port : PortId
port = record { is_output = true; port_id = 0 }

-- The filter lets just the video formats through.
abbrev builder : Builder
builder = record {
  room = λ pod. true;
  filter = λ pod. elim pod [ video_format f ↦ some (video_format f) | _ ↦ none ];
}

port_enum_params-offered_example :
    port_enum_params fresh builder port enum_format_id 0 1
    ≡ (ok tt, take 1 (selected builder.filter 0 (drop 0 (port_offered fresh enum_format_id))))
port_enum_params-offered_example =
    port_enum_params-offered builder (λ pod. refl) fresh port enum_format_id 0 1 refl refl
      (omega arith)

-- The video format is the second one, and comes with its index.
video_found :
    take 1 (selected builder.filter 0 (drop 0 (port_offered fresh enum_format_id)))
    ≡ (1, video_format (offer_video fresh)) ∷ []
unfolding selected port_offered
video_found = refl

video_second :
    get_elem? (port_offered fresh enum_format_id) 1 ≡ some (video_format (offer_video fresh))
unfolding port_offered
video_second = refl

abbrev chosen : Param
chosen = as_param (video_format (offer_video fresh))

abbrev after : Result (Unit {0}) × Impl (Unit {0})
after = set_param fresh port true false (some chosen)

offered-reported_example :
    (after.0 ≡ ok tt) × (port_offered after.1 format_id ≡ video_format (offer_video fresh) ∷ [])
offered-reported_example = offered-reported fresh port refl refl refl 1 _ video_second

set_succeeds : after.0 ≡ ok tt
unfolding set_param negotiate as_param validate_ndarray validate_video offer_video
set_succeeds = refl

accepted-offered_example :
    (i : ℕ) × (pod : Pod) × (get_elem? (port_offered fresh enum_format_id) i ≡ some pod)
    × (port_offered after.1 format_id ≡ pod ∷ [])
    × Says chosen pod
    × (fresh.started ≡ false)
    × (Pool.n_buffers fresh.pool ≡ 0)
accepted-offered_example = accepted-offered fresh port chosen set_succeeds
