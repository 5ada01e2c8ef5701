-- ===== src/PluginHost/Order/Pick.antt =====
-- The search of `resolvePluginOrder` over the candidates.
use generic_ai.Base.{
  ℕ, suc, ◌<◌, String, ◌≡◌, refl, Bool, Option, none, some, List, [], ◌∷◌, ◌&&◌, not, contains,
  every, keep_if, if◌then◌else◌, arith,
}
use generic_ai.PluginHost.Types.{Plugin, id_of, deps_of}
use generic_ai.PluginHost.Order.{Candidate, enumerate, pick, unresolved_plugins}

module _ {R L : Type 0} (resolved : List String) where
  abbrev pub is_ready : Plugin R L → Bool
  is_ready p = not (contains resolved (id_of p)) && every (contains resolved) (deps_of p)

  unfoldable pub first_ready : List (Plugin R L) → Option (Plugin R L)
  first_ready [] = none
  first_ready (p ∷ ps) = if is_ready p then some p else first_ready ps

  abbrev pub plugin_of : Option (Candidate R L) → Option (Plugin R L)
  plugin_of none = none
  plugin_of (some c) = some c.plugin

  pick-some :
      (c : Candidate R L) (i : ℕ) (ps : List (Plugin R L))
      → c.index < i
      → pick resolved (enumerate i ps) (some c) ≡ some c
  unfolding pick enumerate
  pick-some c i [] h = refl
  pick-some c i (p ∷ ps) h = ground (arith, pick-some c (suc i) ps)

  -- The indexed search over the candidates finds the plugin registered first among those that are
  -- not yet resolved and have all their dependencies resolved, and finds none if there is none.
  pub pick-eq-first_ready :
      (i : ℕ) (ps : List (Plugin R L))
      → plugin_of (pick resolved (enumerate i ps) none) ≡ first_ready ps
  unfolding pick enumerate first_ready
  pick-eq-first_ready i [] = refl
  pick-eq-first_ready i (p ∷ ps) = ground (
    arith,
    pick-eq-first_ready (suc i) ps,
    pick-some (record { plugin = p; index = i }) (suc i) ps,
  )

  pub unresolved-enumerate :
      (i : ℕ) (ps : List (Plugin R L))
      → unresolved_plugins resolved (enumerate i ps)
        ≡ keep_if (λ p. not (contains resolved (id_of p))) ps
  unfolding enumerate
  unresolved-enumerate i [] = refl
  unresolved-enumerate i (p ∷ ps) = ground (arith, unresolved-enumerate (suc i) ps)
