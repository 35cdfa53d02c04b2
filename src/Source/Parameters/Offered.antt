-- ===== src/Source/Parameters/Offered.antt =====
-- What the node and the port of a source offer, and that the enumerations of spa/plugins/fits/source.c give
-- just that.
use pipewireao_spa_plugin_fi.Base.{
  ℕ, zero, suc, ◌≤◌, ◌<◌, ◌≡◌, refl, Bool, true, false, not, ◌&&◌, ◌||◌, none, some, List, [], ◌∷◌,
  ltb, ◌==◌, if◌then◌else◌, length, take, drop, get_elem?, arith,
}
use pipewireao_spa_plugin_fi.Errno.{ok}
use pipewireao_spa_plugin_fi.Source.{Impl, is_row, output_size, output_stride}
use pipewireao_spa_plugin_fi.Source.Port.{PortId, is_port, offer, min_buffers, max_buffers}
use pipewireao_spa_plugin_fi.Source.Parameters.{
  ParamId, prop_info_id, props_id, io_id, enum_format_id, format_id, buffers_id, meta_id, other_id,
  Pod, ndarray_format, video_format, buffers, header_meta, io_buffers, io_position, completed_info,
  completed_prop, Builder, rounds, built, only, node_pod, is_node_param, offer_video, chosen_format,
  build_port_param, port_enum_params, build_node_param, node_enum_params,
}
use pipewireao_spa_plugin_fi.Source.Parameters.Enumeration.{selected, enumerate-selected}

abbrev pub is_port_param : ParamId → Bool
is_port_param prop_info_id = false
is_port_param props_id = false
is_port_param (other_id n) = false
is_port_param _ = true

module _ {Metas : Type 0} (self : Impl Metas) where
  -- The pods that the port has for a parameter, in order.
  unfoldable pub port_offered : ParamId → List Pod
  port_offered enum_format_id =
      ndarray_format (offer self)
      ∷ (if not (is_row self) && (self.cube_info.sample_rank == 2)
          then video_format (offer_video self) ∷ []
          else [])
  port_offered format_id = if self.have_format then chosen_format self ∷ [] else []
  port_offered buffers_id =
      if self.have_format
      then buffers min_buffers max_buffers (output_size self) (output_stride self) ∷ []
      else []
  port_offered meta_id = header_meta ∷ []
  port_offered io_id = io_buffers ∷ []
  port_offered _ = []

  -- The pods that the node has for a parameter.
  unfoldable pub node_offered : ParamId → List Pod
  node_offered prop_info_id = completed_info ∷ []
  node_offered props_id = completed_prop self.completed ∷ []
  node_offered io_id = io_position ∷ []
  node_offered _ = []

positive : (n : ℕ) → 0 < n → (n == 0) ≡ false
positive n h = ground arith

module _ (builder : Builder) (room : (pod : Pod) → builder.room pod ≡ true) where
  built-room : (pod : Pod) → built builder pod ≡ ok (some pod)
  built-room pod = rw (room pod) refl

  only-room : (pod : Pod) (i : ℕ) → only builder i pod ≡ ok (get_elem? (pod ∷ []) i)
  only-room pod zero = built-room pod
  only-room pod (suc i) = ground arith

  node_pod-room : (pod : Pod) (i : ℕ) → node_pod builder i pod ≡ ok (get_elem? (pod ∷ []) i)
  node_pod-room pod zero = rw (room pod) refl
  node_pod-room pod (suc i) = ground arith

  formatted-room :
      (b : Bool) (pod : Pod) (i : ℕ)
      → (if ltb 0 i || not b then ok none else built builder pod)
        ≡ ok (get_elem? (if b then pod ∷ [] else []) i)
  formatted-room true pod zero = built-room pod
  formatted-room true pod (suc i) = ground arith
  formatted-room false pod zero = refl
  formatted-room false pod (suc i) = ground arith

  second-room :
      (b : Bool) (first second : Pod) (i : ℕ)
      → (if i == 0
          then built builder first
          else if (i == 1) && b
          then built builder second
          else ok none)
        ≡ ok (get_elem? (first ∷ (if b then second ∷ [] else [])) i)
  second-room b first second zero = built-room first
  second-room true first second (suc zero) = built-room second
  second-room false first second (suc zero) = refl
  second-room true first second (suc (suc i)) = ground arith
  second-room false first second (suc (suc i)) = ground arith

  module _ {Metas : Type 0} (self : Impl Metas) where
    build_port_param-offered :
        (id : ParamId) (i : ℕ)
        → is_port_param id ≡ true
        → build_port_param self builder id i ≡ ok (get_elem? (port_offered self id) i)
    unfolding build_port_param port_offered
    build_port_param-offered enum_format_id i h = second-room _ _ _ i
    build_port_param-offered format_id i h = formatted-room self.have_format _ i
    build_port_param-offered buffers_id i h = formatted-room self.have_format _ i
    build_port_param-offered meta_id i h = only-room _ i
    build_port_param-offered io_id i h = only-room _ i
    build_port_param-offered prop_info_id i h = cc
    build_port_param-offered props_id i h = cc
    build_port_param-offered (other_id n) i h = cc

    port_offered-few : (id : ParamId) → length (port_offered self id) ≤ 2
    unfolding port_offered
    port_offered-few enum_format_id = ground arith
    port_offered-few format_id = ground arith
    port_offered-few buffers_id = ground arith
    port_offered-few meta_id = omega arith
    port_offered-few io_id = omega arith
    port_offered-few prop_info_id = omega arith
    port_offered-few props_id = omega arith
    port_offered-few (other_id n) = omega arith

    build_node_param-offered :
        (id : ParamId) (i : ℕ)
        → is_node_param id ≡ true
        → build_node_param self builder id i ≡ ok (get_elem? (node_offered self id) i)
    unfolding build_node_param node_offered
    build_node_param-offered prop_info_id i h = node_pod-room _ i
    build_node_param-offered props_id i h = node_pod-room _ i
    build_node_param-offered io_id i h = node_pod-room _ i
    build_node_param-offered enum_format_id i h = cc
    build_node_param-offered format_id i h = cc
    build_node_param-offered buffers_id i h = cc
    build_node_param-offered meta_id i h = cc
    build_node_param-offered (other_id n) i h = cc

    node_offered-few : (id : ParamId) → length (node_offered self id) ≤ 2
    unfolding node_offered
    node_offered-few prop_info_id = omega arith
    node_offered-few props_id = omega arith
    node_offered-few io_id = omega arith
    node_offered-few enum_format_id = omega arith
    node_offered-few format_id = omega arith
    node_offered-few buffers_id = omega arith
    node_offered-few meta_id = omega arith
    node_offered-few (other_id n) = omega arith

    -- If the builder has room, an enumeration of a parameter of the port gives the first `num` of its pods that
    -- the filter lets through from the index `start` on, each with its index: both formats of a source of whole
    -- images, just the ndarray format otherwise, and the format and its buffers once a format is set.
    pub port_enum_params-offered :
        (port : PortId) (id : ParamId) (start num : ℕ)
        → is_port port ≡ true
        → is_port_param id ≡ true
        → 0 < num
        → port_enum_params self builder port id start num
          ≡ (ok tt, take num (selected builder.filter start (drop start (port_offered self id))))
    unfolding port_enum_params
    port_enum_params-offered port id start num at known pos =
        rw (at, positive num pos)
          (enumerate-selected (build_port_param self builder id) builder (port_offered self id)
            (λ i. build_port_param-offered id i known) (omega (arith, port_offered-few id)) rounds
            start num (omega (arith, port_offered-few id)))

    -- Likewise for a parameter of the node: its property, the description of that, and its io area.
    pub node_enum_params-offered :
        (id : ParamId) (start num : ℕ)
        → is_node_param id ≡ true
        → 0 < num
        → node_enum_params self builder id start num
          ≡ (ok tt, take num (selected builder.filter start (drop start (node_offered self id))))
    unfolding node_enum_params
    node_enum_params-offered id start num known pos =
        rw (known, positive num pos)
          (enumerate-selected (build_node_param self builder id) builder (node_offered self id)
            (λ i. build_node_param-offered id i known) (omega (arith, node_offered-few id)) rounds
            start num (omega (arith, node_offered-few id)))
