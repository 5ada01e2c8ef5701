-- ===== src/Delegation/Executors.antt =====
-- An executor that calls the methods of session/orchestrator.ts, in any order, and then returns or
-- throws, keeps the sessions valid and removes none.
use generic_ai.Base.{
  ℕ, String, ◌≡◌, ◌∙◌, ap, true, some, List, [], ◌∷◌, arith, eq_iff, ◌==◌, is_some, Bool-cases,
  subst, inl, inr,
}
use generic_ai.Base.Dict.{Dict, lookup, has, set, lookup-set}
use generic_ai.Base.Exec.{Result}
use generic_ai.Session.Types.{SessionRecord}
use generic_ai.Session.{Orchestrator}
use generic_ai.Session.Invariant.{IsValid, Ended}
use generic_ai.Session.Ending.{Ending, fail_session-Ending, cancel_session-Ending}
use generic_ai.Session.Completing.{Completion, complete_session-Completion}
use generic_ai.Session.Completing
use generic_ai.Session.Created.{
  RootCreation, created, taken, ChildCreation, created_below, no_parent, parent_ended, id_taken,
  create_root_session-RootCreation, create_child_session-ChildCreation,
}
use generic_ai.Session.History.{
  Call, create_root, create_child, complete, fail, cancel, call, after, after-IsValid, call-Fine,
}
use generic_ai.Delegation.{Request, Context, Thrown, Executor, Ends}
use generic_ai.Delegation.Settling.{IsFair}

has-set :
    {A : Type 0} (p k : String) (a : A) (d : Dict A) → has p d ≡ true → has p (set k a d) ≡ true
has-set p k a d h = ground (arith, ap is_some (lookup-set k p a d))

Ended-has :
    {V : Type 0} (id p : String) (q : SessionRecord V) (reason : String)
    (d e : Dict (SessionRecord V))
    → Ended id q reason d e
    → has p d ≡ true
    → has p e ≡ true
Ended-has id p q reason d e k h = elim (Bool-cases (id == p)) [
  | inl same ↦ ap is_some (subst (λ t. lookup t e ≡ some q) ((eq_iff id p).0 same) k.here)
  | inr other ↦ elim (k.others p other) [
    | inl same ↦ ap is_some same ∙ h
    | inr (below, w) ↦ ap is_some w.after
  ]
]

module _ {V : Type 0} (now : ℕ → ℕ) (id_factory : ℕ → String) (s : Orchestrator V) (p : String)
    (h : has p s.sessions ≡ true) where
  abbrev Has : Ends V → Type 0
  Has x = has p x.1.sessions ≡ true

  RootCreation-Has : {id : String} {q : _} (x : _) → RootCreation {V = V} id q s x → Has x
  RootCreation-Has x (created view t n e w k) = ap (has p) e ∙ has-set p _ _ s.sessions h
  RootCreation-Has x (taken t n e) = ap (has p) e ∙ h

  ChildCreation-Has : {i id : String} {f g : _} (x : _) → ChildCreation {V = V} i id f g s x → Has x
  ChildCreation-Has x (created_below r view t f l n e w k) =
      ap (has p) e ∙ has-set p _ _ _ (has-set p _ _ s.sessions h)
  ChildCreation-Has x (no_parent e) = h
  ChildCreation-Has x (parent_ended r e l) = h
  ChildCreation-Has x (id_taken t n e) = ap (has p) e ∙ h

  Completion-Has : {id : String} {f : _} (x : _) → Completion {V = V} id f s x → Has x
  Completion-Has x (Completing.completes r view t f l n e w k) =
      ap (has p) e ∙ has-set p _ _ s.sessions h
  Completion-Has x (Completing.blocked r y e l k f m) = h
  Completion-Has x (Completing.no_session e) = h
  Completion-Has x (Completing.was_terminal r e l) = h

  Ending-Has : {id : String} {f g : _} (x : _) → Ending {V = V} id f g s x → Has x
  Ending-Has {id} x (Ending.ends r view t f l e k) = Ended-has id p _ _ s.sessions t.sessions e h
  Ending-Has x (Ending.no_session e) = h
  Ending-Has x (Ending.was_terminal r e l) = h

  pub call-Has : IsValid s.sessions → (c : Call V) → Has (call now id_factory c s)
  unfolding call
  call-Has v (create_root options) =
      RootCreation-Has _ (create_root_session-RootCreation now id_factory options s v)
  call-Has v (create_child parent options) =
      ChildCreation-Has _ (create_child_session-ChildCreation now id_factory parent options s v)
  call-Has v (complete id options) =
      Completion-Has _ (complete_session-Completion now id_factory id s options v)
  call-Has v (fail id options) = Ending-Has _ (fail_session-Ending now id_factory id s v options)
  call-Has v (cancel id options) =
      Ending-Has _ (cancel_session-Ending now id_factory id s v options)

after-has :
    {V : Type 0} (now : ℕ → ℕ) (id_factory : ℕ → String) (cs : List (Call V)) (s : Orchestrator V)
    → IsValid s.sessions
    → (p : String) → has p s.sessions ≡ true
    → has p (after now id_factory cs s).sessions ≡ true
unfolding after
after-has now id_factory [] s v p h = h
after-has now id_factory (c ∷ cs) s v p h =
    after-has now id_factory cs (call now id_factory c s).1 ((call-Fine now id_factory s v c).1) p
      (call-Has now id_factory s p h v c)

-- The executor that makes these calls.
abbrev pub calling :
    {V : Type 0}
    → (ℕ → ℕ)
    → (ℕ → String)
    → (Request V → Context → List (Call V) × Result Thrown V)
    → Executor V
calling now id_factory plan request context s =
    let (cs, outcome) = plan request context in (outcome, after now id_factory cs s)

pub calling-IsFair :
    {V : Type 0} (now : ℕ → ℕ) (id_factory : ℕ → String)
    (plan : Request V → Context → List (Call V) × Result Thrown V)
    → IsFair (calling now id_factory plan)
calling-IsFair now id_factory plan request context s v =
    let cs = (plan request context).0 in
    (after-IsValid now id_factory cs s v, after-has now id_factory cs s v)
