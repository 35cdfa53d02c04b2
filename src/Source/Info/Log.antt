-- ===== src/Source/Info/Log.antt =====
-- What a listener of spa/plugins/fits/source.c was last called with, and what one more event changes.
use pipewireao_spa_plugin_fi.Base.{
  ℕ, ◌≡◌, refl, ◌⊎◌, Bool, true, false, ◌||◌, Option, none, some, List, [], ◌∷◌, ◌++◌,
  if◌then◌else◌, ◌==◌, arith,
}
use pipewireao_spa_plugin_fi.Source.Info.{
  ChangeMask, NodeInfo, PortInfo, Event, node_info, port_info, tell,
}

-- The info that a listener was called with last.
unfoldable pub heard_node : ℕ → List (ℕ × Event) → Option NodeInfo
heard_node l [] = none
heard_node l ((m, node_info mask info) ∷ log) = if l == m then some info else heard_node l log
heard_node l ((m, port_info mask info) ∷ log) = heard_node l log

unfoldable pub heard_port : ℕ → List (ℕ × Event) → Option PortInfo
heard_port l [] = none
heard_port l ((m, port_info mask info) ∷ log) = if l == m then some info else heard_port l log
heard_port l ((m, node_info mask info) ∷ log) = heard_port l log

unfoldable pub is_in : ℕ → List ℕ → Bool
is_in l [] = false
is_in l (m ∷ ls) = (l == m) || is_in l ls

pub is_in-concat : (l : ℕ) (xs ys : List ℕ) → is_in l (xs ++ ys) ≡ is_in l xs || is_in l ys
unfolding is_in
is_in-concat l [] ys = refl
is_in-concat l (x ∷ xs) ys = ground (arith, is_in-concat l xs ys)

-- Who is told of something, or knew it, knows it.
pub first {ℓ} :
    {A : Type ℓ} {o : Option A} {a : A} {ls : List ℕ} {l : ℕ} (m : ℕ)
    → ls ≡ l ∷ []
    → ((m == l) ≡ true) ⊎ (o ≡ some a)
    → (if is_in m ls then some a else o) ≡ some a
unfolding is_in
first m e h = ground (arith, e)

module _ (l : ℕ) (mask : ChangeMask) where
  pub tell-heard_node :
      (info : NodeInfo) (ls : List ℕ) (log : List (ℕ × Event))
      → heard_node l (tell ls (node_info mask info) log)
        ≡ (if is_in l ls then some info else heard_node l log)
  unfolding tell is_in heard_node
  tell-heard_node info [] log = refl
  tell-heard_node info (m ∷ ls) log =
      ground (arith, tell-heard_node info ls ((m, node_info mask info) ∷ log))

  pub tell-heard_port :
      (info : PortInfo) (ls : List ℕ) (log : List (ℕ × Event))
      → heard_port l (tell ls (port_info mask info) log)
        ≡ (if is_in l ls then some info else heard_port l log)
  unfolding tell is_in heard_port
  tell-heard_port info [] log = refl
  tell-heard_port info (m ∷ ls) log =
      ground (arith, tell-heard_port info ls ((m, port_info mask info) ∷ log))

  pub tell-other_node :
      (info : PortInfo) (ls : List ℕ) (log : List (ℕ × Event))
      → heard_node l (tell ls (port_info mask info) log) ≡ heard_node l log
  unfolding tell heard_node
  tell-other_node info [] log = refl
  tell-other_node info (m ∷ ls) log = tell-other_node info ls ((m, port_info mask info) ∷ log)

  pub tell-other_port :
      (info : NodeInfo) (ls : List ℕ) (log : List (ℕ × Event))
      → heard_port l (tell ls (node_info mask info) log) ≡ heard_port l log
  unfolding tell heard_port
  tell-other_port info [] log = refl
  tell-other_port info (m ∷ ls) log = tell-other_port info ls ((m, node_info mask info) ∷ log)
