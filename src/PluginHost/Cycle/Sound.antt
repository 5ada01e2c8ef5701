-- ===== src/PluginHost/Cycle/Sound.antt =====
-- A cycle that `findCycle` reports is a closed walk along declared dependencies.
use mathlib.Core.Option.{some-injective}
use generic_ai.Base.{
  length, ℕ, zero, suc, String, ◌≡◌, refl, sym, ◌∙◌, ap, Bool, true, false, some, List, [], ◌∷◌,
  ◌++◌, contains, contains-append, All-map, ◌≢◌, arith, eq_iff, eq_refl, if◌then◌else◌, ◌==◌, inl,
  inr, ◌||◌, Bool-cases, All, subst,
}
use generic_ai.Base.Dict.{Dict, has}
use generic_ai.PluginHost.Walks.{Walk, IsCycle, Walk-snoc, Walk-tail}
use generic_ai.PluginHost.Types.{Plugin, id_of}
use generic_ai.PluginHost.Cycle.{
  Search, Visit, cycle, no_cycle, out_of_fuel, add, discard, drop_last, slice_from, closing, enter,
  leave, and_then, deps_at, visit_all, visit, search_from, find_cycle, plugins_by_id, cycle_of,
}

-- The plugin of the first id depends on the second.
abbrev pub edge_in : {R L : Type 0} → Dict (Plugin R L) → String → String → Bool
edge_in by_id x y = contains (deps_at by_id x) y

module _ (edge : String → String → Bool) where
  closing-IsCycle :
      (x : String) (stack : List String)
      → contains stack x ≡ true
      → Walk edge (stack ++ x ∷ [])
      → IsCycle edge (closing x (slice_from x stack))
  unfolding slice_from
  closing-IsCycle x [] h w = cc
  closing-IsCycle x (y ∷ ys) h w = elim (Bool-cases (y == x)) [
    | inl same ↦
        rw (same, slice_from) (y, ys, ap (λ t. y ∷ (ys ++ t ∷ [])) (sym ((eq_iff y x).0 same)), w)
    | inr other ↦
        rw (other, slice_from) (closing-IsCycle x ys (ground arith) (Walk-tail edge y _ w))
  ]

-- The set `visiting` holds what is on the stack.
abbrev InSync : Search → Type 0
InSync s = (x : String) → contains s.visiting x ≡ contains s.stack x

contains-add : (x y : String) (xs : List String) → contains (add x xs) y ≡ (x == y || contains xs y)
unfolding add
contains-add x y xs = ground (arith, eq_iff x y)

pub contains-discard :
    (x y : String) (xs : List String)
    → contains (discard x xs) y ≡ (if x == y then false else contains xs y)
unfolding discard
contains-discard x y [] = ground arith
contains-discard x y (z ∷ zs) =
    ground (arith, eq_iff z x, eq_iff x y, eq_iff z y, contains-discard x y zs)

drop_last_snoc : (xs : List String) (x : String) → drop_last (xs ++ x ∷ []) ≡ xs
unfolding drop_last
drop_last_snoc [] x = refl
drop_last_snoc (y ∷ []) x = refl
drop_last_snoc (y ∷ z ∷ zs) x = ap (◌∷◌ y) (drop_last_snoc (z ∷ zs) x)

enter-InSync : (x : String) (s : Search) → InSync s → InSync (enter x s)
unfolding enter
enter-InSync x s h y =
    ground (arith, contains-add x y s.visiting, contains-append s.stack (x ∷ []) y, h y)

module _ {R L : Type 0} (by_id : Dict (Plugin R L)) where
  -- A report is a cycle, and a visit that reports nothing restores the stack.
  abbrev Good : List String → Visit × Search → Type 0
  Good stack (cycle c, s) = IsCycle (edge_in by_id) c
  Good stack (no_cycle, s) = (s.stack ≡ stack) × InSync s
  Good stack (out_of_fuel, s) = Unit {0}

  and_then-Good :
      (stack : List String) (r : Visit × Search) (rest : Search → Visit × Search)
      → Good stack r
      → ((s : Search) → s.stack ≡ stack → InSync s → Good stack (rest s))
      → Good stack (and_then r rest)
  and_then-Good stack (cycle c, s) rest g k = g
  and_then-Good stack (no_cycle, s) rest g k = k s g.0 g.1
  and_then-Good stack (out_of_fuel, s) rest g k = tt

  leave-Good :
      (x : String) (stack : List String) (r : Visit × Search)
      → contains stack x ≡ false
      → Good (stack ++ x ∷ []) r
      → Good stack (leave x r)
  unfolding leave
  leave-Good x stack (cycle c, s) new g = g
  leave-Good x stack (no_cycle, s) new g = (
    rw g.0 (drop_last_snoc stack x),
    λ y.
        rw (g.0, drop_last_snoc stack x)
          (ground (
            arith,
            contains-discard x y s.visiting,
            g.1 y,
            ap (λ t. contains t y) g.0,
            contains-append stack (x ∷ []) y,
            eq_iff x y,
          )),
  )
  leave-Good x stack (out_of_fuel, s) new g = tt

  -- What a visit of `x` needs of the state.
  record Ready (x : String) (s : Search) : Type 0 where
    walk : Walk (edge_in by_id) (s.stack ++ x ∷ [])
    sync : InSync s

  visit_all-Good :
      (go : String → Search → Visit × Search) (x : String) (stack ds : List String)
      → ((d : String) (s : Search) → Ready d s → Good s.stack (go d s))
      → All (λ d. contains (deps_at by_id x) d ≡ true) ds
      → Walk (edge_in by_id) (stack ++ x ∷ [])
      → (s : Search) → s.stack ≡ stack ++ x ∷ []
      → InSync s
      → Good (stack ++ x ∷ []) (visit_all by_id go ds s)
  unfolding visit_all
  visit_all-Good go x stack [] keep edges w s e h = (e, h)
  visit_all-Good go x stack (d ∷ ds) keep edges w s e h = elim (Bool-cases (has d by_id)) [
    | inl there ↦
        rw (there, visit_all)
          (and_then-Good (stack ++ x ∷ []) (go d s) (visit_all by_id go ds)
            (subst (λ t. Good t (go d s)) e
              (keep d s (record {
                walk =
                    subst (λ t. Walk (edge_in by_id) (t ++ d ∷ [])) (sym e)
                      (Walk-snoc (edge_in by_id) stack x d w edges.0);
                sync = h;
              })))
            (visit_all-Good go x stack ds keep edges.1 w))
    | inr absent ↦ rw (absent, visit_all) (visit_all-Good go x stack ds keep edges.1 w s e h)
  ]

All-contains : (xs : List String) → All (λ d. contains xs d ≡ true) xs
All-contains [] = tt
All-contains (y ∷ ys) = (
  ground (arith, eq_refl y),
  All-map (λ d. contains ys d ≡ true) (λ d. contains (y ∷ ys) d ≡ true) (λ d h. ground arith) ys
      (All-contains ys),
)

module _ {R L : Type 0} (by_id : Dict (Plugin R L)) where
  visit-Good :
      (fuel : ℕ) (x : String) (s : Search)
      → Ready by_id x s
      → Good by_id s.stack (visit fuel by_id x s)
  unfolding visit
  visit-Good zero x s r = tt
  visit-Good (suc fuel) x s r = elim (Bool-cases (contains s.visiting x)) [
    | inl active ↦
        rw (active, visit)
          (closing-IsCycle (edge_in by_id) x s.stack (sym (r.sync x) ∙ active) r.walk)
    | inr new ↦ elim (Bool-cases (contains s.visited x)) [
      | inl done ↦ rw (new, done, visit) (refl, r.sync)
      | inr fresh ↦
          rw (new, fresh, visit)
            (leave-Good by_id x s.stack _ (sym (r.sync x) ∙ new) (
              visit_all-Good by_id (visit fuel by_id) x s.stack (deps_at by_id x) (visit-Good fuel)
                (All-contains (deps_at by_id x)) r.walk (enter x s) (unfold enter in refl)
                (enter-InSync x s r.sync)))
    ]
  ]

  search_from-Good :
      (fuel : ℕ) (ps : List (Plugin R L)) (s : Search)
      → s.stack ≡ []
      → InSync s
      → Good by_id [] (search_from fuel by_id ps s)
  unfolding search_from
  search_from-Good fuel [] s e h = (e, h)
  search_from-Good fuel (p ∷ ps) s e h =
      and_then-Good by_id [] (visit fuel by_id (id_of p) s) (search_from fuel by_id ps)
        (subst (λ t. Good by_id t (visit fuel by_id (id_of p) s)) e
          (visit-Good fuel (id_of p) s (record {
            walk = subst (λ t. Walk (edge_in by_id) (t ++ id_of p ∷ [])) (sym e) tt;
            sync = h;
          })))
        (search_from-Good fuel ps)

  report-IsCycle :
      (r : Visit × Search) (c : List String)
      → Good by_id [] r
      → cycle_of r.0 ≡ some c
      → c ≢ []
      → IsCycle (edge_in by_id) c
  report-IsCycle (cycle d, s) c g e ne = subst (IsCycle (edge_in by_id)) (some-injective _ _ e) g
  report-IsCycle (no_cycle, s) c g e ne = absurd (ne (sym (some-injective _ _ e)))
  report-IsCycle (out_of_fuel, s) c g e ne = cc

-- A report of `findCycle` that is not empty is a cycle of declared dependencies.
pub find_cycle-IsCycle :
    {R L : Type 0} (definitions : List (Plugin R L)) (c : List String)
    → find_cycle definitions ≡ some c
    → c ≢ []
    → IsCycle (edge_in (plugins_by_id definitions [])) c
unfolding find_cycle
find_cycle-IsCycle definitions c e ne =
    let by_id = plugins_by_id definitions [] in
    let start : Search = record { visiting = []; visited = []; stack = [] } in
    report-IsCycle by_id (search_from (suc (length definitions)) by_id definitions start) c
      (search_from-Good by_id (suc (length definitions)) definitions start refl (λ x. refl)) e ne
