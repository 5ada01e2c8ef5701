-- ===== src/PluginHost/Order/Plan.antt =====
-- What `resolvePluginOrder` returns: the given plugins, each behind all of its dependencies.
use mathlib.Core.List.{Mem, mem-cons_self, mem-cons_of_mem}
use mathlib.Core.Option.{some-injective}
use generic_ai.Base.{
  ℕ, zero, suc, ◌+◌, String, ◌≡◌, refl, sym, ◌∙◌, true, none, some, List, [], ◌∷◌, ◌++◌, contains,
  every, arith, All, All-append, ap, ◌||◌, Bool-cases, ◌⊎◌, inl, inr, eq_iff, Distinct,
  Distinct-snoc, contains-append, length, length-append, Option-cases, subst,
}
use generic_ai.Base.Exec.{ok, ok-injective}
use generic_ai.PluginHost.Types.{Plugin, Issue, id_of, deps_of, ids}
use generic_ai.PluginHost.Order.{
  Candidate, enumerate, pick, resolve_loop, resolve_plugin_order, validate_dependencies,
}
use generic_ai.PluginHost.Order.Pick.{is_ready, first_ready, pick-eq-first_ready}

every_mono :
    (xs ys ds : List String)
    → ((x : String) → contains xs x ≡ true → contains ys x ≡ true)
    → every (contains xs) ds ≡ true
    → every (contains ys) ds ≡ true
every_mono xs ys [] h e = refl
every_mono xs ys (d ∷ ds) h e = ground (arith, h d, every_mono xs ys ds h)

module _ {R L : Type 0} where
  -- Each plugin's dependencies are among `seen` and the plugins before it.
  abbrev pub IsOrdered : List String → List (Plugin R L) → Type 0
  IsOrdered seen [] = Unit
  IsOrdered seen (p ∷ ps) =
      (every (contains seen) (deps_of p) ≡ true) × IsOrdered (id_of p ∷ seen) ps

  pub ids-append : (ps qs : List (Plugin R L)) → ids (ps ++ qs) ≡ ids ps ++ ids qs
  ids-append [] qs = refl
  ids-append (p ∷ ps) qs = ap (◌∷◌ (id_of p)) (ids-append ps qs)

  IsOrdered-snoc :
      (seen : List String) (ps : List (Plugin R L)) (p : Plugin R L) (resolved : List String)
      → ((x : String) → contains resolved x ≡ true → contains seen x || contains (ids ps) x ≡ true)
      → IsOrdered seen ps
      → every (contains resolved) (deps_of p) ≡ true
      → IsOrdered seen (ps ++ p ∷ [])
  IsOrdered-snoc seen [] p resolved k h e =
      (every_mono resolved seen (deps_of p) (λ x c. ground (arith, k x)) e, tt)
  IsOrdered-snoc seen (q ∷ ps) p resolved k h e =
      (h.0, IsOrdered-snoc (id_of q ∷ seen) ps p resolved (λ x c. ground (arith, k x)) h.1 e)

  pub first_ready-some :
      (resolved : List String) (ps : List (Plugin R L)) (p : Plugin R L)
      → first_ready resolved ps ≡ some p
      → (is_ready resolved p ≡ true) × Mem p ps
  unfolding first_ready
  first_ready-some resolved [] p e = cc
  first_ready-some resolved (q ∷ ps) p e = elim (Bool-cases (is_ready resolved q)) [
    | inl r ↦
        subst (λ t. (is_ready resolved t ≡ true) × Mem t (q ∷ ps))
          (some-injective _ _ (ground arith)) (r, mem-cons_self)
    | inr n ↦
        let (ready, m) = first_ready-some resolved ps p (ground arith) in
        (ready, mem-cons_of_mem q m)
  ]

  pub pick-cases :
      (resolved : List String) (ps : List (Plugin R L))
      → ((pick resolved (enumerate 0 ps) none ≡ none) × (first_ready resolved ps ≡ none))
        ⊎ ((c : Candidate R L) × (pick resolved (enumerate 0 ps) none ≡ some c)
            × (first_ready resolved ps ≡ some c.plugin))
  pick-cases resolved ps = elim (Option-cases (pick resolved (enumerate 0 ps) none)) [
    | inl e ↦ inl (e, ground (arith, pick-eq-first_ready resolved 0 ps))
    | inr (c, e) ↦ inr (c, e, ground (arith, pick-eq-first_ready resolved 0 ps))
  ]

  pub record Inv (defs ordered : List (Plugin R L)) (resolved : List String) : Type 0 where
    pub sync : (x : String) → contains resolved x ≡ contains (ids ordered) x
    pub order : IsOrdered [] ordered
    pub distinct : Distinct (ids ordered)
    pub given : All (λ p. Mem p defs) ordered

  pub Inv-snoc :
      (defs ordered : List (Plugin R L)) (resolved : List String) (p : Plugin R L)
      → Inv defs ordered resolved
      → is_ready resolved p ≡ true
      → Mem p defs
      → Inv defs (ordered ++ p ∷ []) (id_of p ∷ resolved)
  Inv-snoc defs ordered resolved p v r m = record {
    sync = λ x. ground (
      arith,
      ap (λ t. contains t x) (ids-append ordered (p ∷ [])),
      contains-append (ids ordered) (id_of p ∷ []) x,
      v.sync x,
      eq_iff (id_of p) x,
    );
    order = IsOrdered-snoc [] ordered p resolved (λ x c. sym (v.sync x) ∙ c) v.order (ground arith);
    distinct =
        rw (ids-append ordered (p ∷ [])) (
          Distinct-snoc (ids ordered) (id_of p) v.distinct (sym (v.sync (id_of p)) ∙ ground arith));
    given = All-append (λ q. Mem q defs) ordered (p ∷ []) v.given (m, tt);
  }

  loop-Inv :
      (defs : List (Plugin R L)) (n : ℕ) (ordered : List (Plugin R L)) (resolved : List String)
      (plan : List (Plugin R L))
      → Inv defs ordered resolved
      → resolve_loop n (enumerate 0 defs) ordered resolved ≡ ok plan
      → ((rs : List String) × Inv defs plan rs) × (length plan ≡ n + length ordered)
  unfolding resolve_loop
  loop-Inv defs zero ordered resolved plan v e =
      subst (λ t. ((rs : List String) × Inv defs t rs) × (length t ≡ 0 + length ordered))
        (ok-injective e) ((resolved, v), omega arith)
  loop-Inv defs (suc n) ordered resolved plan v e = elim (pick-cases resolved defs) [
    | inl (stuck, _) ↦ cc (rw (stuck, resolve_loop) at e)
    | inr (c, picked, first) ↦
        let (ready, m) = first_ready-some resolved defs c.plugin first in
        let (inv, size) =
          loop-Inv defs n (ordered ++ c.plugin ∷ []) (id_of c.plugin ∷ resolved) plan
            (Inv-snoc defs ordered resolved c.plugin v ready m) (rw (picked, resolve_loop) at e) in
        (inv, omega (arith, size, length-append ordered (c.plugin ∷ [])))
  ]

  resolve_from-loop :
      (defs plan : List (Plugin R L)) (is : List Issue)
      → validate_dependencies defs ≡ is
      → resolve_plugin_order defs ≡ ok plan
      → resolve_loop (length defs) (enumerate 0 defs) [] [] ≡ ok plan
  unfolding resolve_plugin_order
  resolve_from-loop defs plan [] v e = rw (v, resolve_plugin_order) at e
  resolve_from-loop defs plan (i ∷ is) v e = cc (rw (v, resolve_plugin_order) at e)

  -- Where `resolvePluginOrder` returns a plan, every plugin of it stands behind all of its
  -- dependencies, and the plan is the given plugins in another order: it is as long as they are,
  -- its ids are pairwise distinct, and each of its plugins is one of the given.
  pub resolve-IsOrdered :
      (defs plan : List (Plugin R L))
      → resolve_plugin_order defs ≡ ok plan
      → IsOrdered [] plan
        × Distinct (ids plan)
        × (length plan ≡ length defs)
        × All (λ p. Mem p defs) plan
  resolve-IsOrdered defs plan e =
      let start : Inv defs [] [] = record {
        sync = λ x. refl;
        order = tt;
        distinct = tt;
        given = tt;
      } in
      let ((_, inv), size) =
        loop-Inv defs (length defs) [] [] plan start (resolve_from-loop defs plan _ refl e) in
      (inv.order, inv.distinct, omega (arith, size), inv.given)
