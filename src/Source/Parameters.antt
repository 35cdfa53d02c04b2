-- ===== src/Source/Parameters.antt =====
-- The parameters of the node and of its port in spa/plugins/fits/source.c: `build_node_param`,
-- `node_enum_params`, `build_port_param`, `port_enum_params`, `node_set_param`, `node_set_io`,
-- `node_add_port` and `node_remove_port`.
pub mod Enumeration
pub mod Offered
pub mod Formats
pub mod Negotiation
mod Examples
use pipewireao_spa_plugin_fi.Base.{
  ℕ, zero, suc, ◌+◌, Bool, true, false, not, ◌&&◌, ◌||◌, Option, none, some, List, [], ◌∷◌, ◌++◌,
  ltb, ◌==◌, if◌then◌else◌, u32,
}
use pipewireao_spa_plugin_fi.Errno.{Result, ok, err, Errno, einval, enoent, enospc, enotsup}
use pipewireao_spa_plugin_fi.Source.{Impl, is_row, is_ndarray, output_size, output_stride}
use pipewireao_spa_plugin_fi.Source.Port.{
  PortId, is_port, NdarrayFormat, VideoFormat, offer, min_buffers, max_buffers,
}

-- `SPA_PARAM_*`
pub data ParamId : Type 0 where
  prop_info_id props_id io_id enum_format_id format_id buffers_id meta_id : ParamId
  other_id : ℕ → ParamId

-- What the parameters say, before SPA encodes it.
pub data Pod : Type 0 where
  ndarray_format : NdarrayFormat → Pod
  video_format : VideoFormat → Pod
  -- the smallest and the largest number of buffers, their size and their stride
  buffers : ℕ → ℕ → ℕ → ℕ → Pod
  header_meta io_buffers io_position completed_info : Pod
  completed_prop : Bool → Pod

-- SPA's side of an enumeration: the pods that the builder has room for, and a pod that is filtered.
pub record Builder : Type 0 where
  pub room : Pod → Bool
  pub filter : Pod → Option Pod

-- `*param == NULL ? -ENOSPC : 1`; the value 0 is no pod.
abbrev pub built : Builder → Pod → Result (Option Pod)
built builder pod = if builder.room pod then ok (some pod) else err enospc

-- One result: its index and its pod.
abbrev pub Item : Type 0
Item = ℕ × Pod

-- The loops of the two enumerations with `k` rounds left: the results that are emitted from the index `i` on,
-- at most `num` of them.
unfoldable pub enumerate :
    (ℕ → Result (Option Pod)) → Builder → ℕ → ℕ → ℕ → Result (Unit {0}) × List Item
enumerate build builder zero i num = (ok tt, [])
enumerate build builder (suc k) i zero = (ok tt, [])
enumerate build builder (suc k) i (suc num) =
    let skipped = enumerate build builder k (u32 (i + 1)) (suc num) in
    let (res, items) = enumerate build builder k (u32 (i + 1)) num in
    elim (build i) [
      | err e ↦ (err e, [])
      | ok found ↦ elim found [
        | none ↦ (ok tt, [])
        | some pod ↦ elim (builder.filter pod) [
          | none ↦ skipped
          | some filtered ↦ (res, (i, filtered) ∷ items)
        ]
      ]
    ]

-- No parameter has more than two pods, so three rounds are enough.
abbrev pub rounds : ℕ
rounds = 3

abbrev pub only : Builder → ℕ → Pod → Result (Option Pod)
only builder index pod = if index == 0 then built builder pod else ok none

-- A null pointer from the builder ends the enumeration of the node like the end of its pods.
abbrev pub node_pod : Builder → ℕ → Pod → Result (Option Pod)
node_pod builder index pod =
    if ltb 0 index then ok none else if builder.room pod then ok (some pod) else ok none

abbrev pub is_node_param : ParamId → Bool
is_node_param prop_info_id = true
is_node_param props_id = true
is_node_param io_id = true
is_node_param _ = false

module _ {Metas : Type 0} where
  -- What `build_video_format` says.
  unfoldable pub offer_video : Impl Metas → VideoFormat
  offer_video self = record {
    gray16_le = true;
    width = self.cube_info.width;
    height = self.cube_info.height;
    framerate = self.rate;
  }

  unfoldable pub chosen_format : Impl Metas → Pod
  chosen_format self =
      if is_ndarray self.output
      then ndarray_format (offer self)
      else video_format (offer_video self)

  -- `build_port_param`
  unfoldable pub build_port_param : Impl Metas → Builder → ParamId → ℕ → Result (Option Pod)
  build_port_param self builder enum_format_id index =
      if index == 0
      then built builder (ndarray_format (offer self))
      else if (index == 1) && (not (is_row self) && (self.cube_info.sample_rank == 2))
      then built builder (video_format (offer_video self))
      else ok none
  build_port_param self builder format_id index =
      if ltb 0 index || not self.have_format then ok none else built builder (chosen_format self)
  build_port_param self builder buffers_id index =
      if ltb 0 index || not self.have_format
      then ok none
      else built builder (buffers min_buffers max_buffers (output_size self) (output_stride self))
  build_port_param self builder meta_id index = only builder index header_meta
  build_port_param self builder io_id index = only builder index io_buffers
  build_port_param self builder prop_info_id index = err enoent
  build_port_param self builder props_id index = err enoent
  build_port_param self builder (other_id n) index = err enoent

  -- `port_enum_params`
  unfoldable pub port_enum_params :
      Impl Metas → Builder → PortId → ParamId → ℕ → ℕ → Result (Unit {0}) × List Item
  port_enum_params self builder port id start num =
      if not (is_port port)
      then (err einval, [])
      else if num == 0
      then (err einval, [])
      else enumerate (build_port_param self builder id) builder rounds start num

  -- `build_node_param`
  unfoldable pub build_node_param : Impl Metas → Builder → ParamId → ℕ → Result (Option Pod)
  build_node_param self builder prop_info_id index = node_pod builder index completed_info
  build_node_param self builder props_id index =
      node_pod builder index (completed_prop self.completed)
  build_node_param self builder io_id index = node_pod builder index io_position
  build_node_param self builder _ index = ok none

  -- `node_enum_params`
  unfoldable pub node_enum_params :
      Impl Metas → Builder → ParamId → ℕ → ℕ → Result (Unit {0}) × List Item
  node_enum_params self builder id start num =
      if num == 0
      then (err einval, [])
      else if not (is_node_param id)
      then (err enoent, [])
      else enumerate (build_node_param self builder id) builder rounds start num

-- `node_set_param`
unfoldable pub node_set_param : ParamId → Result (Unit {0})
node_set_param id = err enoent

-- `node_set_io`: `is_position` for `SPA_IO_Position`, and the size of the data that is given.
unfoldable pub node_set_io : Bool → Option ℕ → ℕ → Result (Unit {0})
node_set_io is_position data_size position_size =
    if not is_position then err enoent else elim data_size [
      | none ↦ ok tt
      | some size ↦ if ltb size position_size then err enospc else ok tt
    ]

-- `node_add_port` and `node_remove_port`
unfoldable pub node_add_port : PortId → Result (Unit {0})
node_add_port port = err enotsup

unfoldable pub node_remove_port : PortId → Result (Unit {0})
node_remove_port port = err enotsup
