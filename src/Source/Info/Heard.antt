-- ===== src/Source/Info/Heard.antt =====
-- Every listener of a source knows its node and its port as they are.
use pipewireao_spa_plugin_fi.Base.{
  ℕ, ◌≡◌, refl, sym, ap, ◌∙◌, ◌⊎◌, inl, inr, Bool, true, false, not, ◌||◌, Option, some, List, [],
  ◌∷◌, ◌++◌, if◌then◌else◌, ◌==◌, Bool-cases, Option-cases, arith,
}
use mathlib.Core.Path.{subst}
use pipewireao_spa_plugin_fi.Errno.{Result-cases}
use pipewireao_spa_plugin_fi.Cube
use pipewireao_spa_plugin_fi.Source.{Impl}
use pipewireao_spa_plugin_fi.Source.Port.{PortId, Param, set_param}
use pipewireao_spa_plugin_fi.Factory.Options.{Options}
use pipewireao_spa_plugin_fi.Source.Parameters.{
  enum_format_id, format_id, buffers_id, meta_id, io_id,
}
use pipewireao_spa_plugin_fi.Source.Info.{
  ParamInfo, param_info, flip_serial, no_change, info_all, node_info, port_info, HookApi, Info,
  tell, emit_node_info, emit_port_info, add_listener, set_callbacks, announce_format,
  port_set_param, init_info,
}
use pipewireao_spa_plugin_fi.Source.Info.Log.{
  heard_node, heard_port, is_in, is_in-concat, first, tell-heard_node, tell-heard_port,
  tell-other_node, tell-other_port,
}

-- What SPA documents of its hook lists.
pub record IsHookApi {Hooks : Type 0} (api : HookApi Hooks) : Type 0 where
  pub told-empty : api.told api.empty ≡ []
  pub told-isolate : (h : Hooks) (l : ℕ) → api.told (api.isolate h l).0 ≡ l ∷ []
  pub told-saved : (h : Hooks) (l : ℕ) → api.told (api.isolate h l).1 ≡ api.told h
  pub told-join : (h save : Hooks) → api.told (api.join h save) ≡ api.told save ++ api.told h

-- The parameters of the port, as they are told with one or the other mark of a format.
abbrev pub port_params : Bool → List ParamInfo
port_params serial =
    param_info enum_format_id false
    ∷ record (param_info format_id true) { serial = serial }
    ∷ record (param_info buffers_id false) { serial = serial }
    ∷ param_info meta_id false
    ∷ param_info io_id false
    ∷ []

module _ {Hooks Callbacks : Type 0} (api : HookApi Hooks) where
  -- No change is waiting to be told, each listener was last told of the node and the port as they are, and the
  -- format and the buffers of the port have the same mark.
  pub record IsHeard (t : Info Hooks Callbacks) : Type 0 where
    pub node_quiet : t.node_mask ≡ no_change
    pub port_quiet : t.port_mask ≡ no_change
    pub marked : (b : Bool) × (t.port.params ≡ port_params b)
    pub node_heard : (l : ℕ) → is_in l (api.told t.hooks) ≡ true → heard_node l t.log ≡ some t.node
    pub port_heard : (l : ℕ) → is_in l (api.told t.hooks) ≡ true → heard_port l t.log ≡ some t.port

  init_info-IsHeard :
      (laws : IsHookApi api) (o : Options) (info : Cube.Info) → IsHeard (init_info api o info)
  unfolding init_info is_in
  init_info-IsHeard laws o info = record {
    node_quiet = refl;
    port_quiet = refl;
    marked = (false, refl);
    node_heard = λ l h. ground (arith, laws.told-empty);
    port_heard = λ l h. ground (arith, laws.told-empty);
  }

  -- The hook list changes, and nobody new is on it: a listener has gone.
  fewer-IsHeard :
      (t : Info Hooks Callbacks) (hooks : Hooks)
      → ((l : ℕ) → is_in l (api.told hooks) ≡ true → is_in l (api.told t.hooks) ≡ true)
      → IsHeard t
      → IsHeard (record t { hooks = hooks })
  fewer-IsHeard t hooks fewer v = record {
    node_quiet = v.node_quiet;
    port_quiet = v.port_quiet;
    marked = v.marked;
    node_heard = λ l h. v.node_heard l (fewer l h);
    port_heard = λ l h. v.port_heard l (fewer l h);
  }

  add_listener-log :
      (t : Info Hooks Callbacks) (l : ℕ)
      → add_listener api t l ≡ (
          let ls = api.told (api.isolate t.hooks l).0 in
          record t {
            hooks = api.join (api.isolate t.hooks l).0 (api.isolate t.hooks l).1;
            log = tell ls (port_info info_all t.port) (tell ls (node_info info_all t.node) t.log);
          })
  unfolding add_listener emit_node_info emit_port_info
  add_listener-log t l = refl

  announce_format-log :
      (t : Info Hooks Callbacks)
      → t.port_mask ≡ no_change
      → announce_format api t ≡ record t {
        port = (announce_format api t).port;
        log =
            tell
              (api.told t.hooks)
              (port_info (record no_change { params = true }) (announce_format api t).port)
              t.log;
      }
  unfolding announce_format emit_port_info
  announce_format-log t quiet = ground arith

  -- Who is on the list with the new listener.
  joined :
      (laws : IsHookApi api) (t : Info Hooks Callbacks) (l m : ℕ)
      → is_in m (api.told (add_listener api t l).hooks) ≡ true
      → ((m == l) ≡ true) ⊎ (is_in m (api.told t.hooks) ≡ true)
  unfolding is_in
  joined laws t l m h =
      let save = (api.isolate t.hooks l).1 in
      let alone = (api.isolate t.hooks l).0 in
      let split : is_in m (api.told save) || is_in m (api.told alone) ≡ true =
        sym (is_in-concat m (api.told save) (api.told alone))
        ∙ ap (is_in m) (sym (laws.told-join alone save))
        ∙ ap (λ u. is_in m (api.told u.hooks)) (sym (add_listener-log t l))
        ∙ h in
      ground (arith, split, laws.told-saved t.hooks l, laws.told-isolate t.hooks l)

  add_listener-IsHeard :
      (laws : IsHookApi api) (t : Info Hooks Callbacks) (l : ℕ)
      → IsHeard t
      → IsHeard (add_listener api t l)
  add_listener-IsHeard laws t l v =
      let log = add_listener-log t l in
      let ls = api.told (api.isolate t.hooks l).0 in
      let node_log = tell ls (node_info info_all t.node) t.log in
      record {
        node_quiet = ap (λ u. u.node_mask) log ∙ v.node_quiet;
        port_quiet = ap (λ u. u.port_mask) log ∙ v.port_quiet;
        marked = (v.marked.0, ap (λ u. u.port.params) log ∙ v.marked.1);
        node_heard = λ m h.
            ap (λ u. heard_node m u.log) log
            ∙ tell-other_node m info_all t.port ls node_log
            ∙ tell-heard_node m info_all t.node ls t.log
            ∙ first m (laws.told-isolate t.hooks l) (known v.node_heard m (joined laws t l m h))
            ∙ ap (λ u. some u.node) (sym log);
        port_heard = λ m h.
            ap (λ u. heard_port m u.log) log
            ∙ tell-heard_port m info_all t.port ls node_log
            ∙ first m (laws.told-isolate t.hooks l) (
                known (λ m' g. tell-other_port m' info_all t.node ls t.log ∙ v.port_heard m' g) m
                  (joined laws t l m h))
            ∙ ap (λ u. some u.port) (sym log);
      }
    where
      known :
          {A : Type 0} {heard : ℕ → Option A} {a : A}
          → ((m : ℕ) → is_in m (api.told t.hooks) ≡ true → heard m ≡ some a)
          → (m : ℕ) → ((m == l) ≡ true) ⊎ (is_in m (api.told t.hooks) ≡ true)
          → ((m == l) ≡ true) ⊎ (heard m ≡ some a)
      known k m (inl e) = inl e
      known k m (inr e) = inr (k m e)

  announce_format-params :
      (t : Info Hooks Callbacks)
      → (announce_format api t).port.params ≡ flip_serial 2 (flip_serial 1 t.port.params)
  unfolding announce_format emit_port_info
  announce_format-params t = ground arith

  -- A format that is taken turns the mark over.
  pub announce_format-turned :
      (t : Info Hooks Callbacks) (b : Bool)
      → t.port.params ≡ port_params b
      → (announce_format api t).port.params ≡ port_params (not b)
  unfolding flip_serial
  announce_format-turned t b e =
      announce_format-params t ∙ ap (λ ps. flip_serial 2 (flip_serial 1 ps)) e

  announce_format-marked :
      (t : Info Hooks Callbacks)
      → (b : Bool) × (t.port.params ≡ port_params b)
      → (b : Bool) × ((announce_format api t).port.params ≡ port_params b)
  announce_format-marked t (b, e) = (not b, announce_format-turned t b e)

  announce_format-IsHeard : (t : Info Hooks Callbacks) → IsHeard t → IsHeard (announce_format api t)
  announce_format-IsHeard t v = subst IsHeard (sym (announce_format-log t v.port_quiet)) (record {
    node_quiet = v.node_quiet;
    port_quiet = v.port_quiet;
    marked = announce_format-marked t v.marked;
    node_heard = λ m h. tell-other_node m _ _ _ _ ∙ v.node_heard m h;
    port_heard = λ m h.
        tell-heard_port m _ _ _ _
        ∙ ap (λ b. if b then some (announce_format api t).port else heard_port m t.log) h;
  })

  port_set_param-IsHeard :
      {Metas : Type 0} (self : Impl Metas) (t : Info Hooks Callbacks) (port : PortId)
      (is_format test_only : Bool) (param : Option Param)
      → IsHeard t
      → IsHeard (port_set_param api self t port is_format test_only param).1.1
  unfolding port_set_param
  port_set_param-IsHeard self t port is_format test_only param v =
      elim (Result-cases (set_param self port is_format test_only param).0) [
        | inr (x, e) ↦ rw (e, port_set_param) v
        | inl (_, e) ↦ elim (Option-cases param) [
          | inl f ↦ rw (e, f, port_set_param) v
          | inr (p, f) ↦ elim (Bool-cases test_only) [
            | inl g ↦ rw (e, f, g, port_set_param) v
            | inr g ↦ rw (e, f, g, port_set_param) (announce_format-IsHeard t v)
          ]
        ]
      ]

  -- The calls of a host that matter to the listeners, one after the other: between them the source may change by
  -- calls that tell nobody anything, and a listener may go.
  pub data Told (Metas : Type 0) (t0 : Info Hooks Callbacks) : Info Hooks Callbacks → Type 0 where
    made : Told Metas t0 t0
    and_listener :
        (t : Info Hooks Callbacks) (l : ℕ) → Told Metas t0 t → Told Metas t0 (add_listener api t l)
    and_callbacks :
        (t : Info Hooks Callbacks) (c : Option Callbacks)
        → Told Metas t0 t
        → Told Metas t0 (set_callbacks t c)
    and_format :
        (self : Impl Metas) (t : Info Hooks Callbacks) (port : PortId) (is_format test_only : Bool)
        (param : Option Param)
        → Told Metas t0 t
        → Told Metas t0 (port_set_param api self t port is_format test_only param).1.1
    and_gone :
        (t : Info Hooks Callbacks) (hooks : Hooks)
        → ((l : ℕ) → is_in l (api.told hooks) ≡ true → is_in l (api.told t.hooks) ≡ true)
        → Told Metas t0 t
        → Told Metas t0 (record t { hooks = hooks })

  set_callbacks-IsHeard :
      (t : Info Hooks Callbacks) (c : Option Callbacks) → IsHeard t → IsHeard (set_callbacks t c)
  unfolding set_callbacks
  set_callbacks-IsHeard t c v = record {
    node_quiet = v.node_quiet;
    port_quiet = v.port_quiet;
    marked = v.marked;
    node_heard = v.node_heard;
    port_heard = v.port_heard;
  }

  -- From `init` on, after any number of calls that add or remove listeners, set callbacks or set formats, and if the
  -- hook lists do what SPA documents, each listener on the list was last told of the node and of the port as
  -- they are, no change is left to be told, and the format and the buffers of the port carry the same mark.
  pub Told-IsHeard :
      (Metas : Type 0) (laws : IsHookApi api) (o : Options) (info : Cube.Info)
      (t : Info Hooks Callbacks)
      → Told Metas (init_info api o info) t
      → IsHeard t
  Told-IsHeard Metas laws o info _ made = init_info-IsHeard laws o info
  Told-IsHeard Metas laws o info _ (and_listener t l c) =
      add_listener-IsHeard laws t l (Told-IsHeard Metas laws o info t c)
  Told-IsHeard Metas laws o info _ (and_callbacks t k c) =
      set_callbacks-IsHeard t k (Told-IsHeard Metas laws o info t c)
  Told-IsHeard Metas laws o info _ (and_format self t port is_format test_only param c) =
      port_set_param-IsHeard self t port is_format test_only param
        (Told-IsHeard Metas laws o info t c)
  Told-IsHeard Metas laws o info _ (and_gone t hooks fewer c) =
      fewer-IsHeard t hooks fewer (Told-IsHeard Metas laws o info t c)
