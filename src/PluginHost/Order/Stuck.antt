-- ===== src/PluginHost/Order/Stuck.antt =====
-- When `resolvePluginOrder` throws: on a dependency that is not registered, or on a cycle.
use mathlib.Core.Option.{some-injective}
use generic_ai.Base.{
  ◌<◌, ◌≤◌, String, ◌≡◌, sym, ◌∙◌, Bool, true, false, some, List, [], ◌∷◌, ◌&&◌, not, contains,
  every, keep_if, if◌then◌else◌, arith, All, ◌||◌, ◌==◌, Bool-cases, ◌⊎◌, inl, inr, eq_iff,
  Distinct, length, Option-cases, subst, All-map, eq_refl,
}
use generic_ai.Base.Dict.{Dict, lookup, set, lookup-set}
use generic_ai.PluginHost.Types.{Plugin, id_of, deps_of}
use generic_ai.PluginHost.Cycle.{plugins_by_id, discard}
use generic_ai.PluginHost.Cycle.Sound.{contains-discard, edge_in}

pub every-false :
    (f : String → Bool) (ds : List String)
    → every f ds ≡ false
    → (d : String) × (contains ds d ≡ true) × (f d ≡ false)
every-false f [] e = cc
every-false f (d ∷ ds) e = elim (Bool-cases (f d)) [
  | inl h ↦ let (x, m, n) = every-false f ds (rw h at e) in (x, ground arith, n)
  | inr h ↦ (d, ground (arith, eq_refl d), h)
]

pub every-true :
    (f : String → Bool) (ds : List String) (d : String)
    → every f ds ≡ true
    → contains ds d ≡ true
    → f d ≡ true
every-true f [] d e m = cc
every-true f (x ∷ ds) d e m = elim (Bool-cases (x == d)) [
  | inl h ↦ subst (λ t. f t ≡ true) ((eq_iff x d).0 h) (ground arith)
  | inr h ↦ every-true f ds d (ground arith) (rw h at m)
]

length-discard : (x : String) (ys : List String) → length (discard x ys) ≤ length ys
unfolding discard
length-discard x [] = omega arith
length-discard x (y ∷ ys) = ground (arith, length-discard x ys)

length-discard-lt :
    (x : String) (ys : List String) → contains ys x ≡ true → length (discard x ys) < length ys
unfolding discard
length-discard-lt x [] h = cc
length-discard-lt x (y ∷ ys) h = ground (arith, length-discard x ys, length-discard-lt x ys)

-- Distinct texts of a list are at most as many as its entries.
pub length-le_of_Distinct :
    (xs ys : List String)
    → Distinct xs
    → ((x : String) → contains xs x ≡ true → contains ys x ≡ true)
    → length xs ≤ length ys
length-le_of_Distinct [] ys d h = omega arith
length-le_of_Distinct (x ∷ xs) ys d h = omega (
  arith,
  length-discard-lt x ys (h x (ground (arith, eq_refl x))),
  length-le_of_Distinct xs (discard x ys) d.1
      (λ y m. ground (arith, contains-discard x y ys, h y, eq_iff x y, d.0)),
)

module _ {R L : Type 0} where
  -- A plugin with the id `x` declares a dependency on `y`.
  abbrev pub depends : List (Plugin R L) → String → String → Bool
  depends [] x y = false
  depends (p ∷ ps) x y = (id_of p == x && contains (deps_of p) y) || depends ps x y

  -- A dependency that no plugin of `known` has for its id.
  abbrev pub IsComplete : List String → List (Plugin R L) → Type 0
  IsComplete known ps = All (λ p. every (contains known) (deps_of p) ≡ true) ps

  abbrev pub waiting : List String → List (Plugin R L) → List (Plugin R L)
  waiting resolved = keep_if (λ p. not (contains resolved (id_of p)))

  pub depends-waiting :
      (resolved : List String) (ps : List (Plugin R L)) (x y : String)
      → depends (waiting resolved ps) x y ≡ true
      → depends ps x y ≡ true
  depends-waiting resolved [] x y h = cc
  depends-waiting resolved (p ∷ ps) x y h = ground (arith, depends-waiting resolved ps x y)

  -- What the map returns is one of the plugins.
  pub lookup-plugins_by_id :
      (P : Plugin R L → Type 0) (x : String) (p : Plugin R L) (ps : List (Plugin R L))
      (m : Dict (Plugin R L))
      → All P ps
      → (lookup x m ≡ some p → P p × (id_of p ≡ x))
      → lookup x (plugins_by_id ps m) ≡ some p
      → P p × (id_of p ≡ x)
  unfolding plugins_by_id
  lookup-plugins_by_id P x p [] m h old e = old e
  lookup-plugins_by_id P x p (q ∷ ps) m h old e =
      lookup-plugins_by_id P x p ps (set (id_of q) q m) h.1
        (λ e'. newest (Bool-cases (id_of q == x)) (sym (lookup-set (id_of q) x q m) ∙ e')) e
    where
      newest :
          (id_of q == x ≡ true) ⊎ (id_of q == x ≡ false)
          → (if id_of q == x then some q else lookup x m) ≡ some p
          → P p × (id_of p ≡ x)
      newest (inl same) e' =
          subst (λ t. P t × (id_of t ≡ x)) (some-injective _ _ (rw same at e'))
            (h.0, (eq_iff (id_of q) x).0 same)
      newest (inr other) e' = old (rw other at e')

  All-depends :
      (ps : List (Plugin R L))
      → All (λ p. (y : String) → contains (deps_of p) y ≡ true → depends ps (id_of p) y ≡ true) ps
  All-depends [] = tt
  All-depends (p ∷ ps) = (
    λ y h. ground (arith, eq_refl (id_of p)),
    All-map _ _ (λ q h y e. ground (arith, h y e)) ps (All-depends ps),
  )

  pub edge_in-depends :
      (ps : List (Plugin R L)) (x y : String)
      → edge_in (plugins_by_id ps []) x y ≡ true
      → depends ps x y ≡ true
  unfolding lookup
  edge_in-depends ps x y h = elim (Option-cases (lookup x (plugins_by_id ps []))) [
    | inl e ↦ cc (rw e at h)
    | inr (p, e) ↦
        let (all, same) =
          lookup-plugins_by_id
            (λ q. (z : String) → contains (deps_of q) z ≡ true → depends ps (id_of q) z ≡ true) x p
            ps [] (All-depends ps) (λ e'. cc) e in
        subst (λ t. depends ps t y ≡ true) same (all y (rw e at h))
  ]
