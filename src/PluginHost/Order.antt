-- ===== src/PluginHost/Order.antt =====
-- `validatePluginDependencies` and `resolvePluginOrder` of plugin-host/dependency-order.ts.
-- The `while` loop appends one plugin a round, so it recurs on the number that is still missing.
use generic_ai.Base.{
  ℕ, zero, suc, String, Bool, Option, none, some, List, [], ◌∷◌, ◌++◌, contains, every, length, ltb,
  keep_if, not, if◌then◌else◌, get_or,
}
use generic_ai.Base.Exec.{Result, ok, err}
use generic_ai.PluginHost.Types.{
  Plugin, Issue, missing_dependency, cyclic_dependency, id_of, deps_of, ids,
}
use generic_ai.PluginHost.Cycle.{find_cycle}
pub mod Pick
pub mod Plan
pub mod Stuck
pub mod Cyclic

-- `ResolvedPlugin`
pub record Candidate (R L : Type 0) : Type 0 where
  pub plugin : Plugin R L
  pub index : ℕ

-- The inner `for` loop of `validatePluginDependencies`.
unfoldable pub missing_of : List String → String → List String → List Issue
missing_of known id [] = []
missing_of known id (d ∷ ds) =
    let rest = missing_of known id ds in
    if contains known d then rest else missing_dependency id d known ∷ rest

module _ {R L : Type 0} where
  unfoldable pub missing_from : List String → List (Plugin R L) → List Issue
  unfolding missing_of
  missing_from known [] = []
  missing_from known (p ∷ ps) = missing_of known (id_of p) (deps_of p) ++ missing_from known ps

  unfoldable pub validate_dependencies : List (Plugin R L) → List Issue
  unfolding missing_from
  validate_dependencies definitions = missing_from (ids definitions) definitions

  -- `definitions.map((plugin, index) => ({ plugin, index }))`
  unfoldable pub enumerate : ℕ → List (Plugin R L) → List (Candidate R L)
  enumerate i [] = []
  enumerate i (p ∷ ps) = record { plugin = p; index = i } ∷ enumerate (suc i) ps

  abbrev better : Candidate R L → Option (Candidate R L) → Option (Candidate R L)
  better c none = some c
  better c (some next) = if ltb c.index next.index then some c else some next

  -- The body of the `for` loop over the candidates.
  unfoldable pub consider :
      List String → Candidate R L → Option (Candidate R L) → Option (Candidate R L)
  consider resolved c next =
      if contains resolved (id_of c.plugin)
      then next
      else if every (contains resolved) (deps_of c.plugin)
      then better c next
      else next

  unfoldable pub pick :
      List String → List (Candidate R L) → Option (Candidate R L) → Option (Candidate R L)
  unfolding consider
  pick resolved [] next = next
  pick resolved (c ∷ cs) next = pick resolved cs (consider resolved c next)

  abbrev unresolved_plugins : List String → List (Candidate R L) → List (Plugin R L)
  unresolved_plugins resolved [] = []
  unresolved_plugins resolved (c ∷ cs) =
      let rest = unresolved_plugins resolved cs in
      if contains resolved (id_of c.plugin) then rest else c.plugin ∷ rest

  -- `find_cycle` never runs out of fuel: `Cycle.Total.find_cycle_total`.
  unfoldable pub cycle_issue : List String → List (Candidate R L) → Issue
  cycle_issue resolved candidates =
      cyclic_dependency (get_or (find_cycle (unresolved_plugins resolved candidates)) [])

  unfoldable pub resolve_loop :
      ℕ
      → List (Candidate R L)
      → List (Plugin R L)
      → List String
      → Result (List Issue) (List (Plugin R L))
  unfolding pick cycle_issue
  resolve_loop zero candidates ordered resolved = ok ordered
  resolve_loop (suc missing) candidates ordered resolved = elim (pick resolved candidates none) [
    | none ↦ err (cycle_issue resolved candidates ∷ [])
    | some next ↦
        resolve_loop missing candidates (ordered ++ next.plugin ∷ []) (id_of next.plugin ∷ resolved)
  ]

  unfoldable pub resolve_plugin_order : List (Plugin R L) → Result (List Issue) (List (Plugin R L))
  unfolding validate_dependencies enumerate resolve_loop
  resolve_plugin_order definitions = elim (validate_dependencies definitions) [
    | i ∷ is ↦ err (i ∷ is)
    | [] ↦ resolve_loop (length definitions) (enumerate 0 definitions) [] []
  ]
