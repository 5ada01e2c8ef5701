-- ===== src/Delegation/Begun.antt =====
-- What `delegateMany` of packages/core/src/session/delegation.ts has done when it returns its promise:
-- every request has a delegation that fits it.
use generic_ai.Base.{
  ℕ, String, ◌≡◌, inl, inr, refl, sym, ap, subst, ◌∙◌, true, false, some, List, [], ◌∷◌, arith,
  eq_iff, eq_refl, ◌==◌, is_some, if◌then◌else◌,
}
use generic_ai.Base.Dict.{Dict, lookup, has, set, lookup-set}
use generic_ai.Session.Types.{SessionRecord, fields_of}
use generic_ai.Session.{Orchestrator}
use generic_ai.Session.Linked.{links_of, links_at}
use generic_ai.Session.Invariant.{IsValid}
use generic_ai.Session.Created.{
  ChildCreation, created_below, no_parent, parent_ended, id_taken,
  create_child_session-ChildCreation, new_id, id_other,
}
use generic_ai.Session.History.{create_child, call, after}
use generic_ai.Delegation.{Request, Context, DelegationResult, Coordinator, Ends, child_options}
use generic_ai.Delegation.Settling.{has-both}
use generic_ai.Delegation.Keeping.{Keeps, Keeps-refl, Keeps-trans, call-Keeps, after-Keeps}
use generic_ai.Delegation.Many.{Beginning, begin_child, begin_one, begin_all}
use generic_ai.Delegation.Fitting.{
  is_refused, AllFit, none_left, one_fits, Fits-Keeps, GoesOn, IsChild, await-GoesOn,
}

-- The new session names its parent.
born :
    {V : Type 0} (parent id : String) (g q : SessionRecord V) (d : Dict (SessionRecord V))
    → id == parent ≡ false
    → (links_at (set parent g (set id q d)) id).0 ≡ q.parent_session_id
born parent id g q d other =
    let apart : parent == id ≡ false = ground (arith, eq_iff id parent, eq_iff parent id, other) in
    let e = set id q d in
    let at : lookup id (set parent g e) ≡ (if parent == id then some g else lookup id e) =
      lookup-set parent id g e in
    let inner : lookup id e ≡ (if id == id then some q else lookup id d) = lookup-set id id q d in
    ap (λ o. (links_of o).0)
      (at
        ∙ ap (λ b. if b then some g else lookup id e) apart
        ∙ inner
        ∙ ap (λ b. if b then some q else lookup id d) (eq_refl id))

module _ {V : Type 0} (now : ℕ → ℕ) (id_factory : ℕ → String) (parent : String) where
  module _ (begins : Beginning V) where
    begin_child-GoesOn :
        (request : Request V) (records : Dict (DelegationResult V)) (s : Orchestrator V)
        (id : String) (q : SessionRecord V → SessionRecord V)
        (g : SessionRecord V → SessionRecord V)
        → IsValid s.sessions
        → ((r : SessionRecord V) → (q r).id ≡ id)
        → ((r : SessionRecord V) → (q r).parent_session_id ≡ some r.id)
        → (x : Ends V) → Keeps s x.1
        → ChildCreation parent id q g s x
        → let y = begin_child now id_factory parent begins request records x in
          GoesOn parent s y.1.orchestrator request s y
    begin_child-GoesOn request records s id q g v named below x k
          (created_below r view t f l n saved w shown) =
        let same = ap (λ f. f.id) shown ∙ named r in
        let context : Context = record {
          parent_session_id = parent;
          child_session_id = (fields_of view).id;
          root_session_id = (fields_of view).root_session_id;
        } in
        let made = (begins request context).0 in
        let h = after-Keeps now id_factory made t w in
        let there : has id t.sessions ≡ true =
          ap (has id) saved ∙ has-both parent id (g r) (q r) s.sessions in
        let u = after now id_factory made t in
        let child : IsChild parent s u u id = record {
          new = n;
          made = h.there id there;
          there = h.there id there;
          named =
              h.named id there
              ∙ ap (λ d. (links_at d id).0) saved
              ∙ born parent id (g r) (q r) s.sessions
                  (id_other s.sessions parent id n (ap is_some f))
              ∙ below r
              ∙ ap some (v.sound parent r f).keyed;
        } in
        let on =
          await-GoesOn parent request now id_factory s (fields_of view).id records
            (begins request context).1 u h.valid (subst (IsChild parent s u u) (sym same) child) in
        record { keeps = Keeps-trans s t _ k (Keeps-trans t _ _ h on.keeps); fits = on.fits }
    begin_child-GoesOn request records s id q g v named below x k (no_parent missing) = record {
      keeps = k;
      fits = is_refused _ (inl refl);
    }
    begin_child-GoesOn request records s id q g v named below x k (parent_ended r found l) =
        record { keeps = k; fits = is_refused _ (inr (inl refl)) }
    begin_child-GoesOn request records s id q g v named below x k (id_taken t n saved) = record {
      keeps = k;
      fits = is_refused _ (inr (inr (id, refl)));
    }

    begin_one-GoesOn :
        (request : Request V) (c : Coordinator V)
        → IsValid c.orchestrator.sessions
        → let x = begin_one now id_factory parent begins request c in
          GoesOn parent c.orchestrator x.1.orchestrator request c.orchestrator x
    unfolding begin_one call
    begin_one-GoesOn request c v =
        begin_child-GoesOn request c.records c.orchestrator
          (new_id now id_factory (child_options request) c.orchestrator) _ _ v (λ r. refl)
          (λ r. refl) _
          (call-Keeps now id_factory c.orchestrator v (create_child parent (child_options request)))
          (create_child_session-ChildCreation now id_factory parent (child_options request)
            c.orchestrator v)

    pub begin_all-AllFit :
        (requests : List (Request V)) (c : Coordinator V)
        → IsValid c.orchestrator.sessions
        → let x = begin_all now id_factory parent begins requests c in
          IsValid x.1.orchestrator.sessions
          × Keeps c.orchestrator x.1.orchestrator
          × AllFit parent x.1.orchestrator c.orchestrator requests x.0
    unfolding begin_all
    begin_all-AllFit [] c v = (v, Keeps-refl c.orchestrator v, none_left c.orchestrator)
    begin_all-AllFit (request ∷ requests) c v =
        let first = begin_one-GoesOn request c v in
        let x = begin_one now id_factory parent begins request c in
        let (w, k, fs) = begin_all-AllFit requests x.1 first.keeps.valid in
        (
          w,
          Keeps-trans c.orchestrator x.1.orchestrator _ first.keeps k,
          one_fits c.orchestrator x.1.orchestrator request x.0 requests _ first.keeps.there
              (Fits-Keeps parent c.orchestrator x.1.orchestrator request _ _ k x.0 first.fits) fs,
        )
