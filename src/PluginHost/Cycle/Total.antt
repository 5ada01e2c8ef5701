-- ===== src/PluginHost/Cycle/Total.antt =====
-- `findCycle` ends: each visit that goes deeper marks one more plugin as visited, so a fuel above the
-- number of plugins is enough. Where every plugin depends on one of the plugins, it reports a cycle.
use generic_ai.Base.{
  ℕ, zero, suc, ◌+◌, ◌<◌, ◌≤◌, String, ◌≡◌, ◌≢◌, refl, ◌∙◌, true, false, Option, none, some, List,
  [], ◌∷◌, contains, arith, eq_iff, eq_refl, inl, inr, not, ◌||◌, Bool-cases, All, keep_if, length,
}
use generic_ai.Base.Dict.{Dict, has, lookup, keys, set, contains-keys, lookup-set}
use generic_ai.PluginHost.Types.{Plugin, id_of, ids}
use generic_ai.PluginHost.Cycle.{
  Search, Visit, cycle, no_cycle, out_of_fuel, add, slice_from, closing, enter, leave, and_then,
  deps_at, visit_all, visit, search_from, find_cycle, plugins_by_id, cycle_of,
}

-- How many of the keys are not visited yet.
abbrev unvisited : List String → List String → ℕ
unvisited visited ks = length (keep_if (λ k. not (contains visited k)) ks)

Grows : Search → Search → Type 0
Grows s t = (k : String) → contains s.visited k ≡ true → contains t.visited k ≡ true

unvisited_mono :
    (v w ks : List String)
    → ((k : String) → contains v k ≡ true → contains w k ≡ true)
    → unvisited w ks ≤ unvisited v ks
unvisited_mono v w [] h = omega arith
unvisited_mono v w (k ∷ ks) h = ground (arith, h k, unvisited_mono v w ks h)

unvisited-add-le : (x : String) (v ks : List String) → unvisited (add x v) ks ≤ unvisited v ks
unfolding add
unvisited-add-le x v ks = unvisited_mono v (add x v) ks (λ k h. ground arith)

unvisited-add :
    (x : String) (v ks : List String)
    → contains v x ≡ false
    → contains ks x ≡ true
    → unvisited (add x v) ks < unvisited v ks
unfolding add
unvisited-add x v [] n h = cc
unvisited-add x v (k ∷ ks) n h =
    ground (arith, eq_iff k x, eq_iff x k, unvisited-add x v ks n, unvisited-add-le x v ks)

unvisited-le : (v ks : List String) → unvisited v ks ≤ length ks
unvisited-le v [] = omega arith
unvisited-le v (k ∷ ks) = ground (arith, unvisited-le v ks)

-- The visit reports a cycle.
data Reports : Visit → Type 0 where
  reports : (c : List String) → c ≢ [] → Reports (cycle c)

and_then-Reports :
    (r : Visit × Search) (rest : Search → Visit × Search)
    → Reports r.0
    → Reports (and_then r rest).0
and_then-Reports (cycle c, s) rest h = h
and_then-Reports (no_cycle, s) rest h = elim h [ ]
and_then-Reports (out_of_fuel, s) rest h = elim h [ ]

leave-Reports : (x : String) (r : Visit × Search) → Reports r.0 → Reports (leave x r).0
unfolding leave
leave-Reports x (cycle c, s) h = h
leave-Reports x (no_cycle, s) h = elim h [ ]
leave-Reports x (out_of_fuel, s) h = elim h [ ]

closing-Reports : (x : String) (o : Option (List String)) → Reports (cycle (closing x o))
closing-Reports x none = reports _ (λ e. cc)
closing-Reports x (some []) = reports _ (λ e. cc)
closing-Reports x (some (y ∷ ys)) = reports _ (λ e. cc)

ends-Option : (r : Visit × Search) → r.0 ≢ out_of_fuel → (c : List String) × (cycle_of r.0 ≡ some c)
ends-Option (cycle c, s) h = (c, refl)
ends-Option (no_cycle, s) h = ([], refl)
ends-Option (out_of_fuel, s) h = absurd (h refl)

report-some :
    (r : Visit × Search) → Reports r.0 → (c : List String) × (cycle_of r.0 ≡ some c) × (c ≢ [])
report-some (cycle c, s) (reports _ ne) = (c, refl, ne)
report-some (no_cycle, s) h = elim h [ ]
report-some (out_of_fuel, s) h = elim h [ ]

module _ {R L : Type 0} (by_id : Dict (Plugin R L)) where
  left : Search → ℕ
  left s = unvisited s.visited (keys by_id)

  left_mono : (s t : Search) → Grows s t → left t ≤ left s
  unfolding left Grows
  left_mono s t g = unvisited_mono s.visited t.visited (keys by_id) g

  left-enter :
      (x : String) (s : Search)
      → contains s.visited x ≡ false
      → has x by_id ≡ true
      → left (enter x s) < left s
  unfolding left enter
  left-enter x s new h = unvisited-add x s.visited (keys by_id) new (contains-keys x by_id ∙ h)

  -- The fuel did not run out, and what was visited stays visited.
  record Ends (s : Search) (r : Visit × Search) : Type 0 where
    ends : r.0 ≢ out_of_fuel
    grows : Grows s r.1

  Ends-trans : (s t : Search) (r : Visit × Search) → Grows s t → Ends t r → Ends s r
  unfolding Grows
  Ends-trans s t r g e = record { ends = e.ends; grows = λ k h. e.grows k (g k h) }

  and_then-Ends :
      (s : Search) (r : Visit × Search) (rest : Search → Visit × Search)
      → Ends s r
      → ((t : Search) → Grows s t → Ends t (rest t))
      → Ends s (and_then r rest)
  and_then-Ends s (cycle c, t) rest e k = e
  and_then-Ends s (no_cycle, t) rest e k = Ends-trans s t (rest t) e.grows (k t e.grows)
  and_then-Ends s (out_of_fuel, t) rest e k = e

  enter-Grows : (x : String) (s : Search) → Grows s (enter x s)
  unfolding Grows enter add
  enter-Grows x s k h = ground arith

  leave-Ends : (x : String) (s : Search) (r : Visit × Search) → Ends s r → Ends s (leave x r)
  unfolding leave Grows
  leave-Ends x s (cycle c, t) e = e
  leave-Ends x s (no_cycle, t) e = record { ends = λ p. cc; grows = e.grows }
  leave-Ends x s (out_of_fuel, t) e = e

  visit_all-Ends :
      (fuel : ℕ) (go : String → Search → Visit × Search)
      → ((x : String) (s : Search) → has x by_id ≡ true → left s < fuel → Ends s (go x s))
      → (ds : List String) (s : Search) → left s < fuel
      → Ends s (visit_all by_id go ds s)
  unfolding visit_all
  visit_all-Ends fuel go k [] s h = record { ends = λ p. cc; grows = unfold Grows in λ k h. h }
  visit_all-Ends fuel go k (d ∷ ds) s h = elim (Bool-cases (has d by_id)) [
    | inl there ↦
        rw (there, visit_all)
          (and_then-Ends s (go d s) (visit_all by_id go ds) (k d s there h)
            (λ t g. visit_all-Ends fuel go k ds t (omega (arith, left_mono s t g))))
    | inr absent ↦ rw (absent, visit_all) (visit_all-Ends fuel go k ds s h)
  ]

  visit-Ends :
      (fuel : ℕ) (x : String) (s : Search)
      → has x by_id ≡ true
      → left s < fuel
      → Ends s (visit fuel by_id x s)
  unfolding visit
  visit-Ends zero x s there h = absurd (omega arith)
  visit-Ends (suc fuel) x s there h = elim (Bool-cases (contains s.visiting x)) [
    | inl active ↦ rw (active, visit) (record { ends = λ p. cc; grows = unfold Grows in λ k h. h })
    | inr new ↦ elim (Bool-cases (contains s.visited x)) [
      | inl done ↦
          rw (new, done, visit) (record { ends = λ p. cc; grows = unfold Grows in λ k h. h })
      | inr fresh ↦
          rw (new, fresh, visit)
            (leave-Ends x s _ (
              Ends-trans s (enter x s) _ (enter-Grows x s) (
                visit_all-Ends fuel (visit fuel by_id) (visit-Ends fuel) (deps_at by_id x)
                  (enter x s) (omega (arith, left-enter x s fresh there)))))
    ]
  ]

  search_from-Ends :
      (fuel : ℕ) (ps : List (Plugin R L)) (s : Search)
      → All (λ p. has (id_of p) by_id ≡ true) ps
      → left s < fuel
      → Ends s (search_from fuel by_id ps s)
  unfolding search_from
  search_from-Ends fuel [] s k h = record { ends = λ p. cc; grows = unfold Grows in λ k h. h }
  search_from-Ends fuel (p ∷ ps) s k h =
      and_then-Ends s (visit fuel by_id (id_of p) s) (search_from fuel by_id ps)
        (visit-Ends fuel (id_of p) s k.0 h)
        (λ t g. search_from-Ends fuel ps t k.1 (omega (arith, left_mono s t g)))

  -- Every plugin of the map has a dependency that is in the map.
  abbrev pub IsStuck : Type 0
  IsStuck =
      (x : String)
      → has x by_id ≡ true
      → (d : String) × (contains (deps_at by_id x) d ≡ true) × (has d by_id ≡ true)

  -- No visit has come to its end: what is visited is still being visited.
  AllActive : Search → Type 0
  AllActive s = (x : String) → contains s.visited x ≡ true → contains s.visiting x ≡ true

  enter-AllActive : (x : String) (s : Search) → AllActive s → AllActive (enter x s)
  unfolding AllActive enter add
  enter-AllActive x s h y = ground (arith, h y, eq_iff x y)

  visit_all-Reports :
      (fuel : ℕ) (go : String → Search → Visit × Search)
      → ((x : String) (s : Search)
          → has x by_id ≡ true
          → AllActive s
          → left s < fuel
          → Reports (go x s).0)
      → (ds : List String) (s : Search) (d : String) → contains ds d ≡ true
      → has d by_id ≡ true
      → AllActive s
      → left s < fuel
      → Reports (visit_all by_id go ds s).0
  unfolding visit_all
  visit_all-Reports fuel go k [] s d m there a h = cc
  visit_all-Reports fuel go k (e ∷ ds) s d m there a h = elim (Bool-cases (has e by_id)) [
    | inl first ↦
        rw (first, visit_all) (and_then-Reports (go e s) (visit_all by_id go ds) (k e s first a h))
    | inr absent ↦
        rw (absent, visit_all)
          (visit_all-Reports fuel go k ds s d (ground (arith, eq_iff e d)) there a h)
  ]

  visit-Reports :
      IsStuck
      → (fuel : ℕ) (x : String) (s : Search) → has x by_id ≡ true
      → AllActive s
      → left s < fuel
      → Reports (visit fuel by_id x s).0
  unfolding visit AllActive
  visit-Reports stuck zero x s there a h = absurd (omega arith)
  visit-Reports stuck (suc fuel) x s there a h = elim (Bool-cases (contains s.visiting x)) [
    | inl active ↦ rw (active, visit) (closing-Reports x (slice_from x s.stack))
    | inr new ↦ elim (Bool-cases (contains s.visited x)) [
      | inl done ↦ cc (a x done)
      | inr fresh ↦
          let (d, dep, known) = stuck x there in
          rw (new, fresh, visit)
            (leave-Reports x _ (
              visit_all-Reports fuel (visit fuel by_id) (visit-Reports stuck fuel) (deps_at by_id x)
                (enter x s) d dep known (enter-AllActive x s a)
                (omega (arith, left-enter x s fresh there))))
    ]
  ]

start : Search
start = record { visiting = []; visited = []; stack = [] }

module _ {R L : Type 0} where
  pub has-plugins_by_id :
      (x : String) (ps : List (Plugin R L)) (m : Dict (Plugin R L))
      → has x (plugins_by_id ps m) ≡ (has x m || contains (ids ps) x)
  unfolding plugins_by_id
  has-plugins_by_id x [] m = ground arith
  has-plugins_by_id x (p ∷ ps) m = ground (
    arith,
    has-plugins_by_id x ps (set (id_of p) p m),
    lookup-set (id_of p) x p m,
    eq_iff (id_of p) x,
  )

  length-keys-set :
      (x : String) (p : Plugin R L) (m : Dict (Plugin R L))
      → length (keys (set x p m)) ≤ suc (length (keys m))
  unfolding set
  length-keys-set x p [] = omega arith
  length-keys-set x p ((y, q) ∷ m) = ground (arith, length-keys-set x p m)

  length-plugins_by_id :
      (ps : List (Plugin R L)) (m : Dict (Plugin R L))
      → length (keys (plugins_by_id ps m)) ≤ length ps + length (keys m)
  unfolding plugins_by_id
  length-plugins_by_id [] m = omega arith
  length-plugins_by_id (p ∷ ps) m =
      omega (arith, length-plugins_by_id ps (set (id_of p) p m), length-keys-set (id_of p) p m)

  left-start : (ps : List (Plugin R L)) → left (plugins_by_id ps []) start < suc (length ps)
  unfolding left start
  left-start ps =
      omega (arith, length-plugins_by_id ps [], unvisited-le [] (keys (plugins_by_id ps [])))

  All-known :
      (ps qs : List (Plugin R L))
      → ((x : String) → contains (ids ps) x ≡ true → contains (ids qs) x ≡ true)
      → All (λ p. has (id_of p) (plugins_by_id qs []) ≡ true) ps
  unfolding lookup
  All-known [] qs k = tt
  All-known (p ∷ ps) qs k = (
    has-plugins_by_id (id_of p) qs [] ∙ k (id_of p) (ground (arith, eq_refl (id_of p))),
    All-known ps qs (λ x h. k x (ground arith)),
  )

  -- The search of `findCycle` always ends, whatever the dependencies are.
  pub find_cycle_total :
      (definitions : List (Plugin R L)) → (c : List String) × (find_cycle definitions ≡ some c)
  unfolding find_cycle start
  find_cycle_total ps =
      ends-Option (search_from (suc (length ps)) (plugins_by_id ps []) ps start)
        (search_from-Ends (plugins_by_id ps []) (suc (length ps)) ps start
          (All-known ps ps (λ x h. h)) (left-start ps)).ends

  -- Where every plugin depends on one of the plugins, it reports a cycle.
  pub find_cycle-some :
      (p : Plugin R L) (ps : List (Plugin R L))
      → IsStuck (plugins_by_id (p ∷ ps) [])
      → (c : List String) × (find_cycle (p ∷ ps) ≡ some c) × (c ≢ [])
  unfolding find_cycle start search_from
  find_cycle-some p ps stuck =
      let by_id = plugins_by_id (p ∷ ps) [] in
      let fuel = suc (length (p ∷ ps)) in
      report-some (search_from fuel by_id (p ∷ ps) start) (
        and_then-Reports (visit fuel by_id (id_of p) start) (search_from fuel by_id ps) (
          visit-Reports by_id stuck fuel (id_of p) start (All-known (p ∷ ps) (p ∷ ps) (λ x h. h)).0
            (unfold AllActive in λ x h. h) (left-start (p ∷ ps))))
