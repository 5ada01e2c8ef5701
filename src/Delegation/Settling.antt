-- ===== src/Delegation/Settling.antt =====
-- `delegate` of packages/core/src/session/delegation.ts makes a child session, runs the executor and
-- always ends the child.
use generic_ai.Base.{
  ℕ, String, ◌≡◌, refl, ◌∙◌, ap, true, false, some, [], ◌∷◌, arith, eq_iff, eq_refl, contains,
  contains-append, ◌==◌, if◌then◌else◌, is_some, Option-cases, inl, inr,
}
use generic_ai.Base.Dict.{Dict, lookup, has, set, lookup-set}
use generic_ai.Base.Exec.{Result, ok, err}
use generic_ai.Session.Types.{SessionRecord, SessionError, child}
use generic_ai.Session.{Orchestrator, is_live}
use generic_ai.Session.Methods.{started, with_child}
use generic_ai.Session.Forest.{children_of, children_at}
use generic_ai.Session.Invariant.{IsValid}
use generic_ai.Session.Created.{
  ChildCreation, created_below, no_parent, parent_ended, id_taken,
  create_child_session-ChildCreation, new_id, id_other,
}
use generic_ai.Delegation.{
  Request, Context, Thrown, DelegationResult, Coordinator, Executor, Ends, child_options,
  keep_record, run_child, delegate, to_delegation_result,
}
use generic_ai.Delegation.Ended.{Settled, HasEnded, has_ended, settle_outcome-HasEnded, if_refl}

-- An executor that works on the sessions by the orchestrator's methods keeps them valid and removes
-- none.
abbrev pub IsFair : {V : Type 0} → Executor V → Type 0
IsFair {V} executor =
    (request : Request V) (context : Context) (s : Orchestrator V)
    → IsValid s.sessions
    → IsValid (executor request context s).1.sessions
      × ((p : String)
          → has p s.sessions ≡ true
          → has p (executor request context s).1.sessions ≡ true)

pub has-both :
    {A : Type 0} (p k : String) (a b : A) (d : Dict A) → has k (set p a (set k b d)) ≡ true
has-both p k a b d =
    ground
      (arith, ap is_some (lookup-set p k a (set k b d)), ap is_some (lookup-set k k b d), eq_refl k)

-- The executor's run for a child session.
abbrev executed :
    {V : Type 0}
    → Executor V
    → Request V
    → (parent id root_id : String) → Orchestrator V
    → Result Thrown V × Orchestrator V
executed executor request parent id root_id s =
    let context : Context = record {
      parent_session_id = parent;
      child_session_id = id;
      root_session_id = root_id;
    } in
    executor request context s

-- What `delegate` does. The executor is run in the state in which the new child has been created.
pub data Delegated {V : Type 0} (parent : String) (request : Request V) (executor : Executor V)
    (c : Coordinator V) : Result SessionError (DelegationResult V) × Coordinator V → Type 0 where
  refused :
      (e : SessionError) (t : Coordinator V)
      → t.orchestrator.sessions ≡ c.orchestrator.sessions
      → t.records ≡ c.records
      → Delegated parent request executor c (err e, t)
  settled :
      (id root_id : String) (first q r : SessionRecord V) (s : Orchestrator V) (t : Coordinator V)
      → has id c.orchestrator.sessions ≡ false
      → lookup id s.sessions ≡ some first
      → first.parent_session_id ≡ some parent
      → first.root_session_id ≡ root_id
      → is_live first ≡ true
      → contains (children_at s.sessions parent) id ≡ true
      → lookup id (executed executor request parent id root_id s).1.sessions ≡ some q
      → Settled
          (executed executor request parent id root_id s).1.sessions
          (executed executor request parent id root_id s).0
          q
          r
      → r.id ≡ id
      → lookup id t.orchestrator.sessions ≡ some r
      → is_live r ≡ false
      → IsValid t.orchestrator.sessions
      → t.records ≡ set id (to_delegation_result r request) c.records
      → Delegated parent request executor c (ok (to_delegation_result r request), t)

module _ {V : Type 0} (now : ℕ → ℕ) (id_factory : ℕ → String) (parent : String)
    (request : Request V) (executor : Executor V) (fair : IsFair executor) (c : Coordinator V)
    (v : IsValid c.orchestrator.sessions) where
  abbrev id : String
  id = new_id now id_factory (child_options request) c.orchestrator

  abbrev first_record : SessionRecord V → SessionRecord V
  first_record p =
      started child id (some p.id) p.root_session_id (now c.orchestrator.now_calls)
        (child_options request).metadata

  abbrev grown_record : SessionRecord V → SessionRecord V
  grown_record p = with_child p (now c.orchestrator.now_calls) id

  -- The new child and the parent's list, once the child has been created.
  created_links :
      (p : SessionRecord V) (s : Orchestrator V)
      → lookup parent c.orchestrator.sessions ≡ some p
      → has id c.orchestrator.sessions ≡ false
      → s.sessions ≡ set parent (grown_record p) (set id (first_record p) c.orchestrator.sessions)
      → (lookup id s.sessions ≡ some (first_record p))
        × (contains (children_at s.sessions parent) id ≡ true)
  created_links p s found new same =
      let d = c.orchestrator.sessions in
      let e = set id (first_record p) d in
      let other : id == parent ≡ false = id_other d parent id new (ap is_some found) in
      let apart : parent == id ≡ false =
        ground (arith, eq_iff id parent, eq_iff parent id, other) in
      let at : lookup id (set parent (grown_record p) e)
          ≡ (if parent == id then some (grown_record p) else lookup id e) =
        lookup-set parent id (grown_record p) e in
      let inner : lookup id e ≡ (if id == id then some (first_record p) else lookup id d) =
        lookup-set id id (first_record p) d in
      let above : lookup parent (set parent (grown_record p) e)
          ≡ (if parent == parent then some (grown_record p) else lookup parent e) =
        lookup-set parent parent (grown_record p) e in
      (
        ap (lookup id) same
            ∙ at
            ∙ ap (λ b. if b then some (grown_record p) else lookup id e) apart
            ∙ inner
            ∙ if_refl id _ _,
        ap (λ l. contains (children_of l) id) (ap (lookup parent) same ∙ above ∙ if_refl parent _ _)
            ∙ ground (arith, contains-append p.child_session_ids (id ∷ []) id, eq_refl id),
      )

  module _ (p : SessionRecord V) (s : Orchestrator V)
      (found : lookup parent c.orchestrator.sessions ≡ some p)
      (new : has id c.orchestrator.sessions ≡ false)
      (same : s.sessions
        ≡ set parent (grown_record p) (set id (first_record p) c.orchestrator.sessions)) where
    abbrev run : Result Thrown V × Orchestrator V
    run = executed executor request parent id p.root_session_id s

    HasEnded-Delegated :
        (q : SessionRecord V) (x : Ends V)
        → lookup id run.1.sessions ≡ some q
        → HasEnded id (Settled run.1.sessions run.0 q) x
        → Delegated parent request executor c (keep_record request c.records x)
    unfolding to_delegation_result
    HasEnded-Delegated q x there (has_ended view r u w at idle shown how) =
        let (first_there, listed) = created_links p s found new same in
        let named = (w.sound id r at).keyed in
        rw shown (
          settled id p.root_session_id (first_record p) q r s _ new first_there
            (ap some (v.sound parent p found).keyed) refl refl listed there how named at idle w
            (ap (λ k. set k (to_delegation_result r request) c.records) named))

  run_child-Delegated :
      (x : Ends V)
      → ChildCreation parent id first_record grown_record c.orchestrator x
      → Delegated parent request executor c
          (run_child now id_factory parent request executor c.records x)
  run_child-Delegated x (created_below p view s found live new same w shown) =
      let context : Context = record {
        parent_session_id = parent;
        child_session_id = id;
        root_session_id = p.root_session_id;
      } in
      let (w', keeps) = fair request context s w in
      let u = run p s found new same in
      elim (Option-cases (lookup id u.1.sessions)) [
        | inl e ↦ cc (
          keeps id (ap (has id) same ∙ has-both parent id _ _ c.orchestrator.sessions),
          ap is_some e,
        )
        | inr (q, e) ↦ rw shown (
            HasEnded-Delegated p s found new same q _ e
              (settle_outcome-HasEnded now id_factory id u.1 w' q e u.0))
      ]
  run_child-Delegated x (no_parent e) = refused _ _ refl refl
  run_child-Delegated x (parent_ended r e l) = refused _ _ refl refl
  run_child-Delegated x (id_taken s n e) = refused _ _ e refl

  -- On a valid state, with an executor that keeps the sessions valid and removes none, `delegate`
  -- either throws before the executor runs and changes no session, or creates a new active child
  -- below `parent`, runs the executor once in that state with the ids of the child, and returns a
  -- record of the child, which has ended: as the executor has left it, if the executor has ended it;
  -- else as succeeded with the returned value, or as failed with the refusal when a session below is
  -- still active; as cancelled by an `AbortError`, or as failed with what else was thrown. The record
  -- is kept under the child's id and the state stays valid.
  pub delegate-Delegated :
      Delegated parent request executor c (delegate now id_factory parent request executor c)
  unfolding delegate
  delegate-Delegated = run_child-Delegated _ (
      create_child_session-ChildCreation now id_factory parent (child_options request)
        c.orchestrator v)
