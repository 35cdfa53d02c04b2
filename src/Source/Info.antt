-- ===== src/Source/Info.antt =====
-- What the listeners of a source are told: the info of the node and of its port, `emit_node_info`,
-- `emit_port_info`, `node_add_listener`, `node_set_callbacks`, and the ends of `port_set_param` and `init` of
-- spa/plugins/fits/source.c.
pub mod Log
pub mod Heard
mod Examples
use pipewireao_spa_plugin_fi.Base.{
  ℕ, Bool, true, false, not, ◌&&◌, ◌||◌, Option, none, some, List, [], ◌∷◌, if◌then◌else◌, ◌==◌,
  get_elem?, set,
}
use pipewireao_spa_plugin_fi.Errno.{Result, ok, err}
use pipewireao_spa_plugin_fi.Text.{codes}
use pipewireao_spa_plugin_fi.Cube
use pipewireao_spa_plugin_fi.Source.{Impl}
use pipewireao_spa_plugin_fi.Source.Port.{PortId, Param, set_param}
use pipewireao_spa_plugin_fi.Source.Parameters.{
  ParamId, prop_info_id, props_id, io_id, enum_format_id, format_id, buffers_id, meta_id,
}
use pipewireao_spa_plugin_fi.Factory.{Key}
use pipewireao_spa_plugin_fi.Factory.Options.{Options, configure_props}

-- `change_mask`, as far as the source sets it.
pub record ChangeMask : Type 0 where
  pub flags : Bool
  pub props : Bool
  pub params : Bool

abbrev pub no_change : ChangeMask
no_change = record { flags = false; props = false; params = false }

abbrev pub info_all : ChangeMask
info_all = record { flags = true; props = true; params = true }

abbrev pub is_changed : ChangeMask → Bool
is_changed m = m.flags || (m.props || m.params)

-- `struct spa_param_info`, with the flags that the source sets.
pub record ParamInfo : Type 0 where
  pub id : ParamId
  pub can_read : Bool
  pub can_write : Bool
  pub serial : Bool

abbrev pub param_info : ParamId → Bool → ParamInfo
param_info id writable = record { id = id; can_read = true; can_write = writable; serial = false }

-- `struct spa_node_info` and `struct spa_port_info`, without their masks.
pub record NodeInfo : Type 0 where
  pub max_output_ports : ℕ
  pub rt : Bool
  pub poll_driver : Bool
  pub props : List (Key × List ℕ)
  pub params : List ParamInfo

pub record PortInfo : Type 0 where
  pub live : Bool
  pub port_name : List ℕ
  pub params : List ParamInfo

-- What one listener is called with.
pub data Event : Type 0 where
  node_info : ChangeMask → NodeInfo → Event
  port_info : ChangeMask → PortInfo → Event

-- The hook lists of SPA: `spa_hook_list_isolate` gives the list with just the new listener, and the saved one;
-- an event goes to the listeners that `told` names, in this order.
pub record HookApi (Hooks : Type 0) : Type 0 where
  pub empty : Hooks
  pub isolate : Hooks → ℕ → Hooks × Hooks
  pub join : Hooks → Hooks → Hooks
  pub told : Hooks → List ℕ

-- The part of `struct impl` that is about listeners; `log` holds the calls of the listeners, the last one first.
pub record Info (Hooks Callbacks : Type 0) : Type 0 where
  pub hooks : Hooks
  pub callbacks : Option Callbacks
  pub node_mask : ChangeMask
  pub node : NodeInfo
  pub port_mask : ChangeMask
  pub port : PortInfo
  pub log : List (ℕ × Event)

-- The calls of one event.
unfoldable pub tell : List ℕ → Event → List (ℕ × Event) → List (ℕ × Event)
tell [] event log = log
tell (l ∷ ls) event log = tell ls event ((l, event) ∷ log)

-- The flip of `SPA_PARAM_INFO_SERIAL` in one entry.
unfoldable pub flip_serial : ℕ → List ParamInfo → List ParamInfo
flip_serial i params = elim (get_elem? params i) [
  | none ↦ params
  | some p ↦ set params i (record p { serial = not p.serial })
]

module _ {Hooks Callbacks : Type 0} where
  -- `node_set_callbacks`
  unfoldable pub set_callbacks : Info Hooks Callbacks → Option Callbacks → Info Hooks Callbacks
  set_callbacks self callbacks = record self { callbacks = callbacks }

module _ {Hooks Callbacks : Type 0} (api : HookApi Hooks) where
  -- `emit_node_info`
  unfoldable pub emit_node_info : Info Hooks Callbacks → Bool → Info Hooks Callbacks
  emit_node_info self full =
      let old : ChangeMask = if full then self.node_mask else no_change in
      let mask : ChangeMask = if full then info_all else self.node_mask in
      if is_changed mask
      then record self {
        node_mask = old;
        log = tell (api.told self.hooks) (node_info mask self.node) self.log;
      }
      else record self { node_mask = mask }

  -- `emit_port_info`
  unfoldable pub emit_port_info : Info Hooks Callbacks → Bool → Info Hooks Callbacks
  emit_port_info self full =
      let old : ChangeMask = if full then self.port_mask else no_change in
      let mask : ChangeMask = if full then info_all else self.port_mask in
      if is_changed mask
      then record self {
        port_mask = old;
        log = tell (api.told self.hooks) (port_info mask self.port) self.log;
      }
      else record self { port_mask = mask }

  -- `node_add_listener`
  unfoldable pub add_listener : Info Hooks Callbacks → ℕ → Info Hooks Callbacks
  add_listener self listener =
      let (alone, save) = api.isolate self.hooks listener in
      let self' : Info Hooks Callbacks =
        emit_port_info (emit_node_info (record self { hooks = alone }) true) true in
      record self' { hooks = api.join self'.hooks save }

  -- The end of `port_set_param` with a format that is taken.
  unfoldable pub announce_format : Info Hooks Callbacks → Info Hooks Callbacks
  announce_format self =
      emit_port_info
        (record self {
          port = record self.port { params = flip_serial 2 (flip_serial 1 self.port.params) };
          port_mask = record self.port_mask { params = true };
        })
        false

  -- `port_set_param`, with what it tells the listeners.
  unfoldable pub port_set_param :
      {Metas : Type 0}
      → Impl Metas
      → Info Hooks Callbacks
      → PortId
      → Bool
      → Bool
      → Option Param
      → Result (Unit {0}) × (Impl Metas × Info Hooks Callbacks)
  port_set_param self info port is_format test_only param =
      let (res, after) = set_param self port is_format test_only param in
      elim res [
        | err e ↦ (err e, (after, info))
        | ok _ ↦ elim param [
          | none ↦ (ok tt, (after, info))
          | some p ↦ (ok tt, (after, if test_only then info else announce_format info))
        ]
      ]

  -- The end of `init`: what the listeners will be told.
  unfoldable pub init_info : Options → Cube.Info → Info Hooks Callbacks
  init_info o cube_info = record {
    hooks = api.empty;
    callbacks = none;
    node_mask = no_change;
    node = record {
      max_output_ports = 1;
      rt = true;
      poll_driver = not o.timerfd_readiness;
      props = configure_props o cube_info;
      params =
          param_info prop_info_id false ∷ param_info props_id false ∷ param_info io_id false ∷ [];
    };
    port_mask = no_change;
    port = record {
      live = true;
      port_name = codes "output";
      params =
          param_info enum_format_id false
          ∷ param_info format_id true
          ∷ param_info buffers_id false
          ∷ param_info meta_id false
          ∷ param_info io_id false
          ∷ [];
    };
    log = [];
  }
