-- ===== src/PluginHost/Order/Cyclic.antt =====
-- `resolvePluginOrder` throws only for a missing dependency or for a dependency cycle.
use generic_ai.Base.{
  ℕ, zero, suc, ◌+◌, ◌<◌, String, ◌≡◌, ◌≢◌, refl, sym, ◌∙◌, Bool, true, false, none, List, [], ◌∷◌,
  ◌++◌, contains, every, arith, All, ap, Bool-cases, ◌⊎◌, ◌↔◌, inl, inr, eq_iff, Distinct, length,
  length-append, Option-cases, subst, get_or,
}
use generic_ai.Base.Dict.{lookup}
use generic_ai.Base.Exec.{Result, ok, err}
use generic_ai.PluginHost.Types.{Plugin, Issue, cyclic_dependency, id_of, deps_of, ids}
use generic_ai.PluginHost.Walks.{Walk, IsCycle, Walk-mono}
use generic_ai.PluginHost.Cycle.{find_cycle, plugins_by_id}
use generic_ai.PluginHost.Cycle.Sound.{find_cycle-IsCycle}
use generic_ai.PluginHost.Cycle.Total.{IsStuck, find_cycle-some, has-plugins_by_id}
use generic_ai.PluginHost.Order.{
  enumerate, resolve_loop, resolve_plugin_order, cycle_issue, validate_dependencies, missing_from,
  missing_of, unresolved_plugins,
}
use generic_ai.PluginHost.Order.Pick.{first_ready, unresolved-enumerate}
use generic_ai.PluginHost.Order.Plan.{Inv, Inv-snoc, pick-cases, first_ready-some}
use generic_ai.PluginHost.Order.Stuck.{
  IsComplete, depends, waiting, depends-waiting, edge_in-depends, lookup-plugins_by_id, every-false,
  every-true, length-le_of_Distinct,
}

append-nil_cases {ℓ} : {A : Type ℓ} (xs ys : List A) → xs ++ ys ≡ [] → (xs ≡ []) × (ys ≡ [])
append-nil_cases [] ys e = (refl, e)
append-nil_cases (x ∷ xs) ys e = cc

missing_of-nil :
    (known : List String) (id : String) (ds : List String)
    → (missing_of known id ds ≡ []) ↔ (every (contains known) ds ≡ true)
unfolding missing_of
missing_of-nil known id [] = (λ e. refl, λ e. refl)
missing_of-nil known id (d ∷ ds) =
    let (to, from) = missing_of-nil known id ds in
    (λ e. ground (arith, to), λ e. ground (arith, from))

Walk-rank :
    (edge : String → String → Bool) (rank : String → ℕ)
    → ((x y : String) → edge x y ≡ true → rank y < rank x)
    → (x : String) (mid : List String) (y : String) → Walk edge (x ∷ (mid ++ y ∷ []))
    → rank y < rank x
Walk-rank edge rank down x [] y w = down x y w.0
Walk-rank edge rank down x (m ∷ mid) y w =
    omega (arith, down x m w.0, Walk-rank edge rank down m mid y w.1)

module _ {R L : Type 0} where
  contains-ids-waiting :
      (resolved : List String) (ps : List (Plugin R L)) (x : String)
      → contains (ids ps) x ≡ true
      → contains resolved x ≡ false
      → contains (ids (waiting resolved ps)) x ≡ true
  contains-ids-waiting resolved [] x h n = cc
  contains-ids-waiting resolved (p ∷ ps) x h n =
      ground (arith, contains-ids-waiting resolved ps x, eq_iff (id_of p) x)

  length-ids : (ps : List (Plugin R L)) → length (ids ps) ≡ length ps
  length-ids [] = refl
  length-ids (p ∷ ps) = ap suc (length-ids ps)

  -- What is left when no plugin is ready.
  record IsBlocked (known resolved : List String) (p : Plugin R L) : Type 0 where
    is_waiting : contains resolved (id_of p) ≡ false
    unmet : every (contains resolved) (deps_of p) ≡ false
    complete : every (contains known) (deps_of p) ≡ true

  waiting-IsBlocked :
      (known resolved : List String) (ps : List (Plugin R L))
      → first_ready resolved ps ≡ none
      → IsComplete known ps
      → All (IsBlocked known resolved) (waiting resolved ps)
  unfolding first_ready
  waiting-IsBlocked known resolved [] e c = tt
  waiting-IsBlocked known resolved (p ∷ ps) e c = elim (Bool-cases (contains resolved (id_of p))) [
    | inl done ↦ rw (done, All) (waiting-IsBlocked known resolved ps (ground arith) c.1)
    | inr unmet_one ↦
        rw (unmet_one, All) (ground arith, waiting-IsBlocked known resolved ps (ground arith) c.1)
  ]

  module _ (defs ordered : List (Plugin R L)) (resolved : List String)
      (none_ready : first_ready resolved defs ≡ none) (complete : IsComplete (ids defs) defs) where
    waiting-IsStuck : IsStuck (plugins_by_id (waiting resolved defs) [])
    unfolding lookup
    waiting-IsStuck x there =
        elim (Option-cases (lookup x (plugins_by_id (waiting resolved defs) []))) [
          | inl e ↦ cc (rw e at there)
          | inr (p, e) ↦
              let (b, _) =
                lookup-plugins_by_id (IsBlocked (ids defs) resolved) x p (waiting resolved defs) []
                  (waiting-IsBlocked (ids defs) resolved defs none_ready complete) (λ e'. cc) e in
              let (d, dep, unmet_one) = every-false (contains resolved) (deps_of p) b.unmet in
              (
                d,
                rw e dep,
                has-plugins_by_id d (waiting resolved defs) []
                    ∙ contains-ids-waiting resolved defs d
                        (every-true (contains (ids defs)) (deps_of p) d b.complete dep) unmet_one,
              )
        ]

    waiting-ne-nil :
        Inv defs ordered resolved
        → Distinct (ids defs)
        → length ordered < length defs
        → waiting resolved defs ≢ []
    waiting-ne-nil v distinct short e = omega (
      arith,
      length-ids defs,
      length-ids ordered,
      length-le_of_Distinct (ids defs) (ids ordered) distinct (λ x m.
          elim (Bool-cases (contains resolved x)) [
            | inl done ↦ sym (v.sync x) ∙ done
            | inr unmet_one ↦ cc (rw e at (contains-ids-waiting resolved defs x m unmet_one))
          ]),
    )

    -- The cycle that is thrown then.
    cycle_issue-IsCycle :
        Inv defs ordered resolved
        → Distinct (ids defs)
        → length ordered < length defs
        → (c : List String) × (cycle_issue resolved (enumerate 0 defs) ≡ cyclic_dependency c)
          × IsCycle (depends defs) c
    unfolding cycle_issue
    cycle_issue-IsCycle v distinct short =
        go (waiting resolved defs) refl waiting-IsStuck (waiting-ne-nil v distinct short)
      where
        go :
            (ps : List (Plugin R L))
            → waiting resolved defs ≡ ps
            → IsStuck (plugins_by_id ps [])
            → ps ≢ []
            → (c : List String) × (cyclic_dependency
                  (get_or (find_cycle (unresolved_plugins resolved (enumerate 0 defs))) [])
                ≡ cyclic_dependency c)
              × IsCycle (depends defs) c
        go [] e stuck ne = absurd (ne refl)
        go (p ∷ ps) e stuck ne =
            let (c, found, some_cycle) = find_cycle-some p ps stuck in
            let (x, mid, shape, walk) = find_cycle-IsCycle (p ∷ ps) c found some_cycle in
            (
              c,
              rw (unresolved-enumerate resolved 0 defs, e, found),
              (
                x,
                mid,
                shape,
                Walk-mono _ (depends defs)
                    (λ a b h.
                      depends-waiting resolved defs a b (
                        subst (λ t. depends t a b ≡ true) (sym e) (edge_in-depends (p ∷ ps) a b h)))
                    c walk,
              ),
            )

  missing_from-nil :
      (known : List String) (ps : List (Plugin R L))
      → (missing_from known ps ≡ []) ↔ IsComplete known ps
  unfolding missing_from
  missing_from-nil known [] = (λ e. tt, λ e. refl)
  missing_from-nil known (p ∷ ps) =
      let (to, from) = missing_from-nil known ps in
      let (one, none_missing) = missing_of-nil known (id_of p) (deps_of p) in
      (
        λ e.
            let (a, b) = append-nil_cases (missing_of known (id_of p) (deps_of p)) _ e in
            (one a, to b),
        λ (a, b). rw (none_missing a) (from b),
      )

  loop_cases :
      (defs : List (Plugin R L)) (n : ℕ) (ordered : List (Plugin R L)) (resolved : List String)
      → IsComplete (ids defs) defs
      → Distinct (ids defs)
      → Inv defs ordered resolved
      → n + length ordered ≡ length defs
      → ((c : List String) × (resolve_loop n (enumerate 0 defs) ordered resolved
            ≡ err (cyclic_dependency c ∷ []))
          × IsCycle (depends defs) c)
        ⊎ ((plan : List (Plugin R L)) × (resolve_loop n (enumerate 0 defs) ordered resolved
              ≡ ok plan))
  unfolding resolve_loop
  loop_cases defs zero ordered resolved complete distinct v size = inr (ordered, refl)
  loop_cases defs (suc n) ordered resolved complete distinct v size =
      elim (pick-cases resolved defs) [
        | inl (picked, none_ready) ↦
            let (c, e, is_cycle) =
              cycle_issue-IsCycle defs ordered resolved none_ready complete v distinct
                (omega arith) in
            inl (c, rw (picked, resolve_loop, e), is_cycle)
        | inr (c, picked, first) ↦
            let (ready, m) = first_ready-some resolved defs c.plugin first in
            rw (picked, resolve_loop)
              (loop_cases defs n (ordered ++ c.plugin ∷ []) (id_of c.plugin ∷ resolved) complete
                distinct (Inv-snoc defs ordered resolved c.plugin v ready m)
                (omega (arith, length-append ordered (c.plugin ∷ []))))
      ]

  -- The outcomes of `resolvePluginOrder`.
  pub data Outcome (defs : List (Plugin R L))
      : Result (List Issue) (List (Plugin R L)) → Type 0 where
    missing : ¬ IsComplete (ids defs) defs → Outcome defs (err (validate_dependencies defs))
    cyclic :
        (c : List String)
        → IsComplete (ids defs) defs
        → IsCycle (depends defs) c
        → Outcome defs (err (cyclic_dependency c ∷ []))
    planned : (plan : List (Plugin R L)) → IsComplete (ids defs) defs → Outcome defs (ok plan)

  loop-Outcome :
      (defs : List (Plugin R L))
      → IsComplete (ids defs) defs
      → Distinct (ids defs)
      → Outcome defs (resolve_loop (length defs) (enumerate 0 defs) [] [])
  loop-Outcome defs complete distinct =
      elim (loop_cases defs (length defs) [] [] complete distinct start (omega arith)) [
        | inl (c, e, is_cycle) ↦ rw e (cyclic c complete is_cycle)
        | inr (plan, e) ↦ rw e (planned plan complete)
      ]
    where
      start : Inv defs [] []
      start = record { sync = λ x. refl; order = tt; distinct = tt; given = tt }

  -- For plugins with distinct ids `resolvePluginOrder` has three outcomes. If some dependency is
  -- not registered, it throws all that `validatePluginDependencies` finds. Else it either throws a
  -- cycle, and this is a closed walk along declared dependencies, or it returns a plan.
  pub resolve-Outcome :
      (defs : List (Plugin R L)) → Distinct (ids defs) → Outcome defs (resolve_plugin_order defs)
  unfolding resolve_plugin_order validate_dependencies
  resolve-Outcome defs distinct = go (missing_from (ids defs) defs) refl
    where
      go :
          (is : List Issue)
          → missing_from (ids defs) defs ≡ is
          → Outcome defs (resolve_plugin_order defs)
      go [] e =
          rw (e, resolve_plugin_order)
            (loop-Outcome defs ((missing_from-nil (ids defs) defs).0 e) distinct)
      go (i ∷ is) e =
          rw (e, resolve_plugin_order)
            (subst (λ t. Outcome defs (err t)) e
              (missing (λ c. cc ((missing_from-nil (ids defs) defs).1 c))))

  -- Plugins with distinct ids, all dependencies registered and no cycle among them always get a plan.
  pub resolve_acyclic :
      (defs : List (Plugin R L)) (rank : String → ℕ)
      → Distinct (ids defs)
      → IsComplete (ids defs) defs
      → ((x y : String) → depends defs x y ≡ true → rank y < rank x)
      → (plan : List (Plugin R L)) × (resolve_plugin_order defs ≡ ok plan)
  resolve_acyclic defs rank distinct complete down =
      go (resolve_plugin_order defs) refl (resolve-Outcome defs distinct)
    where
      go :
          (r : Result (List Issue) (List (Plugin R L)))
          → resolve_plugin_order defs ≡ r
          → Outcome defs r
          → (plan : List (Plugin R L)) × (resolve_plugin_order defs ≡ ok plan)
      go _ e (missing n) = absurd (n complete)
      go _ e (cyclic c _ (x, mid, shape, walk)) =
          absurd (omega (arith, Walk-rank (depends defs) rank down x mid x (rw shape at walk)))
      go _ e (planned plan _) = (plan, e)
