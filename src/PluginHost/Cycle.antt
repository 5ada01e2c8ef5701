-- ===== src/PluginHost/Cycle.antt =====
-- `findCycle` of plugin-host/dependency-order.ts: a depth-first search with an explicit stack.
-- The recursion takes fuel; Cycle/Total shows that `find_cycle` gives it enough.
use generic_ai.Base.{
  ℕ, zero, suc, String, Bool, true, false, not, Option, none, some, List, [], ◌∷◌, ◌++◌, contains,
  length, if◌then◌else◌, ◌==◌,
}
use generic_ai.Base.Dict.{Dict, lookup, has, set}
use generic_ai.PluginHost.Types.{Plugin, id_of, deps_of, Manifest}
pub mod Sound
pub mod Total

-- The closure's mutable variables.
pub record Search : Type 0 where
  pub visiting : List String
  pub visited : List String
  pub stack : List String

-- What `visit` returns: a cycle, or `undefined`.
pub data Visit : Type 0 where
  cycle : List String → Visit
  no_cycle : Visit
  out_of_fuel : Visit

-- `set.add(x)`
unfoldable pub add : String → List String → List String
add x xs = if contains xs x then xs else x ∷ xs

-- `set.delete(x)`
unfoldable pub discard : String → List String → List String
discard x [] = []
discard x (y ∷ ys) = let rest = discard x ys in if y == x then rest else y ∷ rest

-- `stack.pop()`
unfoldable pub drop_last : List String → List String
drop_last [] = []
drop_last (x ∷ []) = []
drop_last (x ∷ y ∷ ys) = x ∷ drop_last (y ∷ ys)

-- `stack.slice(stack.indexOf(x))`, if there is an index
unfoldable pub slice_from : String → List String → Option (List String)
slice_from x [] = none
slice_from x (y ∷ ys) = if y == x then some (y ∷ ys) else slice_from x ys

abbrev pub closing : String → Option (List String) → List String
closing x none = x ∷ x ∷ []
closing x (some tail) = tail ++ x ∷ []

unfoldable pub enter : String → Search → Search
unfolding add
enter x s = record {
  visiting = add x s.visiting;
  visited = add x s.visited;
  stack = s.stack ++ x ∷ [];
}

-- After the loop over the dependencies.
unfoldable pub leave : String → Visit × Search → Visit × Search
unfolding discard drop_last
leave x (cycle c, s) = (cycle c, s)
leave x (out_of_fuel, s) = (out_of_fuel, s)
leave x (no_cycle, s) =
    (no_cycle, record s { stack = drop_last s.stack; visiting = discard x s.visiting })

abbrev and_then : Visit × Search → (Search → Visit × Search) → Visit × Search
and_then (cycle c, s) rest = (cycle c, s)
and_then (out_of_fuel, s) rest = (out_of_fuel, s)
and_then (no_cycle, s) rest = rest s

abbrev cycle_of : Visit → Option (List String)
cycle_of (cycle c) = some c
cycle_of no_cycle = some []
cycle_of out_of_fuel = none

module _ {R L : Type 0} where
  -- `new Map(definitions.map(…))`
  unfoldable pub plugins_by_id : List (Plugin R L) → Dict (Plugin R L) → Dict (Plugin R L)
  plugins_by_id [] m = m
  plugins_by_id (p ∷ ps) m = plugins_by_id ps (set (id_of p) p m)

  abbrev deps_or_none : Option (Plugin R L) → List String
  deps_or_none none = []
  deps_or_none (some p) = deps_of p

  abbrev pub deps_at : Dict (Plugin R L) → String → List String
  deps_at by_id x = deps_or_none (lookup x by_id)

  -- The `for` loop over the dependencies.
  unfoldable pub visit_all :
      Dict (Plugin R L) → (String → Search → Visit × Search) → List String → Search → Visit × Search
  visit_all by_id visit [] s = (no_cycle, s)
  visit_all by_id visit (d ∷ ds) s = elim (has d by_id) [
    | false ↦ visit_all by_id visit ds s
    | true ↦ and_then (visit d s) (visit_all by_id visit ds)
  ]

  unfoldable pub visit : ℕ → Dict (Plugin R L) → String → Search → Visit × Search
  unfolding slice_from enter leave visit_all
  visit zero by_id x s = (out_of_fuel, s)
  visit (suc fuel) by_id x s = elim (contains s.visiting x) [
    | true ↦ (cycle (closing x (slice_from x s.stack)), s)
    | false ↦ elim (contains s.visited x) [
      | true ↦ (no_cycle, s)
      | false ↦ leave x (visit_all by_id (visit fuel by_id) (deps_at by_id x) (enter x s))
    ]
  ]

  -- The loop over the definitions.
  unfoldable pub search_from : ℕ → Dict (Plugin R L) → List (Plugin R L) → Search → Visit × Search
  unfolding visit
  search_from fuel by_id [] s = (no_cycle, s)
  search_from fuel by_id (p ∷ ps) s =
      and_then (visit fuel by_id (id_of p) s) (search_from fuel by_id ps)

  -- `none` would mean that the fuel ran out.
  unfoldable pub find_cycle : List (Plugin R L) → Option (List String)
  unfolding plugins_by_id search_from
  find_cycle definitions =
      cycle_of
        (search_from (suc (length definitions)) (plugins_by_id definitions []) definitions
          (record { visiting = []; visited = []; stack = [] })).0
