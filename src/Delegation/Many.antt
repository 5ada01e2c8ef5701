-- ===== src/Delegation/Many.antt =====
-- packages/core/src/session/delegation.ts: `delegateMany`. An executor runs up to its first await
-- at once; what follows, in whichever order, is a list of steps: a call of the orchestrator by
-- anyone, or that the executor of a request settles.
use generic_ai.Base.{ℕ, zero, suc, String, Option, none, some, List, [], ◌∷◌, or_else}
use generic_ai.Base.Dict.{Dict}
use generic_ai.Base.Exec.{Result, ok, err}
use generic_ai.Session.Types.{SessionError, fields_of}
use generic_ai.Session.{Orchestrator}
use generic_ai.Session.Methods.{create_child_session}
use generic_ai.Session.History.{Call, call, after}
use generic_ai.Delegation.{
  Request, Context, Thrown, DelegationResult, Coordinator, Ends, child_options, keep_record,
  terminalize_success, terminalize_failure, settle_outcome, to_delegation_result,
}

-- One `delegate` of many: it has thrown, waits for the executor of a child, or has returned.
pub data Delegation (V : Type 0) : Type 0 where
  rejected : SessionError → Delegation V
  running : Request V → String → Delegation V
  returned : DelegationResult V → Delegation V

-- `failure` is the first error that `Promise.all` has seen.
pub record Many (V : Type 0) : Type 0 where
  pub coordinator : Coordinator V
  pub delegations : List (Delegation V)
  pub failure : Option SessionError

-- What an executor does before its first await: its calls, and what it throws, if it does.
abbrev pub Beginning : Type 0 → Type 0
Beginning V = Request V → Context → List (Call V) × Option Thrown

pub data Step (V : Type 0) : Type 0 where
  calls : Call V → Step V
  settles : ℕ → Result Thrown V → Step V

module _ {V : Type 0} where
  abbrev pub first_rejected : List (Delegation V) → Option SessionError
  first_rejected [] = none
  first_rejected (rejected e ∷ ds) = some e
  first_rejected (running request id ∷ ds) = first_rejected ds
  first_rejected (returned r ∷ ds) = first_rejected ds

  abbrev pub and_result :
      DelegationResult V → Option (List (DelegationResult V)) → Option (List (DelegationResult V))
  and_result r none = none
  and_result r (some rs) = some (r ∷ rs)

  -- The results in the order of the requests, when all have returned.
  abbrev pub all_results : List (Delegation V) → Option (List (DelegationResult V))
  all_results [] = some []
  all_results (rejected e ∷ ds) = none
  all_results (running request id ∷ ds) = none
  all_results (returned r ∷ ds) = and_result r (all_results ds)

  abbrev pub fulfilled :
      Option (List (DelegationResult V)) → Option (Result SessionError (List (DelegationResult V)))
  fulfilled none = none
  fulfilled (some rs) = some (ok rs)

  -- The promise of `Promise.all`, once it has settled.
  abbrev pub answer_of :
      Option SessionError
      → List (Delegation V)
      → Option (Result SessionError (List (DelegationResult V)))
  answer_of (some e) ds = some (err e)
  answer_of none ds = fulfilled (all_results ds)

  abbrev pub answer : Many V → Option (Result SessionError (List (DelegationResult V)))
  answer m = answer_of m.failure m.delegations

  abbrev pub finished :
      Result SessionError (DelegationResult V) × Coordinator V → Delegation V × Coordinator V
  finished (err e, c) = (rejected e, c)
  finished (ok r, c) = (returned r, c)

module _ {V : Type 0} (now : ℕ → ℕ) (id_factory : ℕ → String) where
  -- `await executor(…)`: an executor that throws at once is caught at once.
  abbrev pub await_executor :
      Request V
      → String
      → Dict (DelegationResult V)
      → Option Thrown
      → Orchestrator V
      → Delegation V × Coordinator V
  await_executor request id records none s =
      (running request id, record { orchestrator = s; records = records })
  await_executor request id records (some thrown) s =
      finished (keep_record request records (terminalize_failure now id_factory id thrown s))

  abbrev pub begin_child :
      String
      → Beginning V
      → Request V
      → Dict (DelegationResult V)
      → Ends V
      → Delegation V × Coordinator V
  begin_child parent begins request records (err e, s) =
      (rejected e, record { orchestrator = s; records = records })
  begin_child parent begins request records (ok view, s) =
      let c = fields_of view in
      let context : Context = record {
        parent_session_id = parent;
        child_session_id = c.id;
        root_session_id = c.root_session_id;
      } in
      let (made, thrown) = begins request context in
      await_executor request c.id records thrown (after now id_factory made s)

  -- `delegate` up to its await.
  unfoldable pub begin_one :
      String → Beginning V → Request V → Coordinator V → Delegation V × Coordinator V
  unfolding create_child_session after terminalize_failure to_delegation_result
  begin_one parent begins request c =
      begin_child parent begins request c.records
        (create_child_session now id_factory parent (child_options request) c.orchestrator)

  unfoldable pub begin_all :
      String → Beginning V → List (Request V) → Coordinator V → List (Delegation V) × Coordinator V
  unfolding begin_one
  begin_all parent begins [] c = ([], c)
  begin_all parent begins (request ∷ requests) c =
      let (d, c1) = begin_one parent begins request c in
      let (ds, c2) = begin_all parent begins requests c1 in (d ∷ ds, c2)

  -- `delegateMany`, up to the return of its promise.
  unfoldable pub delegate_many : String → List (Request V) → Beginning V → Coordinator V → Many V
  unfolding begin_all
  delegate_many parent requests begins c =
      let (ds, c1) = begin_all parent begins requests c in
      record { coordinator = c1; delegations = ds; failure = first_rejected ds }

  -- The rest of `delegate`; an executor settles once.
  unfoldable pub settle_one :
      Result Thrown V → Coordinator V → Delegation V → Delegation V × Coordinator V
  unfolding terminalize_success terminalize_failure to_delegation_result
  settle_one outcome c (rejected e) = (rejected e, c)
  settle_one outcome c (running request id) =
      finished
        (keep_record request c.records (settle_outcome now id_factory id (outcome, c.orchestrator)))
  settle_one outcome c (returned r) = (returned r, c)

  unfoldable pub settle_at :
      ℕ
      → Result Thrown V
      → Coordinator V
      → List (Delegation V)
      → List (Delegation V) × Coordinator V
  unfolding settle_one
  settle_at i outcome c [] = ([], c)
  settle_at zero outcome c (d ∷ ds) = let (e, c1) = settle_one outcome c d in (e ∷ ds, c1)
  settle_at (suc i) outcome c (d ∷ ds) = let (es, c1) = settle_at i outcome c ds in (d ∷ es, c1)

  unfoldable pub step : Step V → Many V → Many V
  unfolding call settle_at
  step (calls k) m = record m {
    coordinator = record m.coordinator {
      orchestrator = (call now id_factory k m.coordinator.orchestrator).1;
    };
  }
  step (settles i outcome) m =
      let (ds, c) = settle_at i outcome m.coordinator m.delegations in
      record { coordinator = c; delegations = ds; failure = or_else m.failure (first_rejected ds) }

  unfoldable pub steps : List (Step V) → Many V → Many V
  unfolding step
  steps [] m = m
  steps (k ∷ ks) m = steps ks (step k m)
