-- ===== src/Delegation.antt =====
-- packages/core/src/session/delegation.ts: a task is delegated to a child session, which has ended
-- when the delegation is over. The executor is a parameter that may call the orchestrator.
pub mod Ended
pub mod Settling
pub mod Executors
pub mod Keeping
pub mod Many
pub mod Fitting
pub mod Begun
pub mod Standing
pub mod Answered
use Prim.Native.String.{◌++◌ as text_append}
use generic_ai.Base.{
  ℕ, String, Bool, true, false, not, Option, none, some, List, [], ◌∷◌, if◌then◌else◌, get_or,
  keep_if, ◌==◌,
}
use generic_ai.Base.Text.{is_empty}
use generic_ai.Base.Dict.{Dict, set, values}
use generic_ai.Base.Exec.{Result, ok, err}
use generic_ai.Session.Types.{
  SessionStatus, SessionRecord, SessionSnapshot, snapshot, SessionErrorSnapshot,
  SessionStartOptions, FailureInput, text, error_object, SessionError, unknown_session,
  already_exists, terminal_parent, already_terminal, not_terminal, active_descendant, out_of_fuel,
  is_active, merge_optional, fields_of,
}
use generic_ai.Session.{Orchestrator}
use generic_ai.Session.Methods.{
  create_root_session, create_child_session, complete_session, fail_session, cancel_session,
  get_session,
}

pub record Request (V : Type 0) : Type 0 where
  pub agent_id : V
  pub task : V
  pub metadata : Option (Dict V)

pub record Context : Type 0 where
  pub parent_session_id : String
  pub child_session_id : String
  pub root_session_id : String

-- What an executor throws: an `AbortError`, another `Error`, or a value with its text.
pub data Thrown : Type 0 where
  abort_error : (message : String) → Thrown
  plain_error : (name message : String) → (stack : Option String) → Thrown
  thrown_value : String → Thrown
  session_error : SessionError → Thrown

pub record DelegationResult (V : Type 0) : Type 0 where
  pub session_id : String
  pub parent_session_id : String
  pub root_session_id : String
  pub agent_id : V
  pub status : SessionStatus
  pub task : V
  pub result : Option V
  pub error : Option SessionErrorSnapshot
  pub cancellation_reason : Option String
  pub started_at : ℕ
  pub ended_at : Option ℕ
  pub metadata : Dict V

pub record Coordinator (V : Type 0) : Type 0 where
  pub orchestrator : Orchestrator V
  pub records : Dict (DelegationResult V)

abbrev pub Executor : Type 0 → Type 0
Executor V = Request V → Context → Orchestrator V → Result Thrown V × Orchestrator V

-- The texts of the orchestrator's errors.
unfoldable pub error_message : SessionError → String
error_message (unknown_session id) = text_append "Unknown session " (text_append id ".")
error_message (already_exists id) = text_append "Session " (text_append id " already exists.")
error_message (terminal_parent id) =
    text_append "Cannot create a child session under terminal session " (text_append id ".")
error_message (already_terminal id) =
    text_append "Session " (text_append id " is already terminal.")
error_message (not_terminal id) = text_append "Session " (text_append id " is not terminal.")
error_message (active_descendant id d) =
    text_append "Cannot complete session " (
      text_append id (text_append " while descendant session " (text_append d " is still active.")))
error_message out_of_fuel = ""

-- `error instanceof Error ? error : String(error)`
unfoldable pub failure_of : Thrown → FailureInput
unfolding error_message
failure_of (abort_error message) = error_object "AbortError" message none
failure_of (plain_error name message stack) = error_object name message stack
failure_of (thrown_value t) = text t
failure_of (session_error e) = error_object "Error" (error_message e) none

abbrev pub abort_reason : String → Option String
abort_reason message = if is_empty message then none else some message

module _ {V : Type 0} where
  unfoldable pub to_delegation_result : SessionRecord V → Request V → DelegationResult V
  to_delegation_result r request = record {
    session_id = r.id;
    parent_session_id = get_or r.parent_session_id r.id;
    root_session_id = r.root_session_id;
    agent_id = request.agent_id;
    status = r.status;
    task = request.task;
    result = r.result;
    error = r.error;
    cancellation_reason = r.cancellation_reason;
    started_at = r.created_at;
    ended_at = r.ended_at;
    metadata = get_or request.metadata [];
  }

  -- The child's metadata: `{ agentId, task, ...metadata }`.
  abbrev pub child_options : Request V → SessionStartOptions V
  child_options request = record {
    id = none;
    metadata = some (
        merge_optional (("agentId", request.agent_id) ∷ ("task", request.task) ∷ [])
          request.metadata);
  }

  -- A snapshot that `getSession` found, when it is terminal.
  abbrev pub terminal_of : Option (SessionSnapshot V) → Option (SessionSnapshot V)
  terminal_of none = none
  terminal_of (some view) = if is_active (fields_of view).status then none else some view

  -- Of which root session?
  abbrev pub is_of : Option String → DelegationResult V → Bool
  is_of none r = true
  is_of (some id) r = r.root_session_id == id

  unfoldable pub list : Option String → Coordinator V → List (DelegationResult V)
  list root_session_id c = keep_if (is_of root_session_id) (values c.records)

abbrev pub Ends : Type 0 → Type 0
Ends V = Result SessionError (SessionSnapshot V) × Orchestrator V

module _ {V : Type 0} where
  abbrev pub unless_found :
      Option (SessionSnapshot V) → Orchestrator V → (Orchestrator V → Ends V) → Ends V
  unless_found (some view) s end = (ok view, s)
  unless_found none s end = end s

  -- What `getSession` answers, and, unless that has ended, the call that ends it.
  abbrev pub unless_ended :
      Result SessionError (Option (SessionSnapshot V)) × Orchestrator V
      → (Orchestrator V → Ends V)
      → Ends V
  unless_ended (err e, s) end = (err e, s)
  unless_ended (ok found, s) end = unless_found (terminal_of found) s end

  -- The end of `delegate`: the record is kept under the child's id.
  abbrev pub keep_record :
      Request V
      → Dict (DelegationResult V)
      → Ends V
      → Result SessionError (DelegationResult V) × Coordinator V
  keep_record request records (err e, s) = (err e, record { orchestrator = s; records = records })
  keep_record request records (ok view, s) =
      let r = to_delegation_result (fields_of view) request in
      (ok r, record { orchestrator = s; records = set r.session_id r records })

module _ {V : Type 0} (now : ℕ → ℕ) (id_factory : ℕ → String) where
  unfoldable pub create_root :
      Option (Dict V) → Coordinator V → Result SessionError (SessionSnapshot V) × Coordinator V
  unfolding create_root_session
  create_root metadata c =
      let (r, s) =
        create_root_session now id_factory (record { id = none; metadata = metadata })
          c.orchestrator in
      (r, record c { orchestrator = s })

  unfoldable pub terminalize_success : String → V → Orchestrator V → Ends V
  unfolding get_session complete_session
  terminalize_success id result s =
      unless_ended (get_session now id_factory id s)
        (complete_session now id_factory id (record { result = some result; metadata = none }))

  -- An abort cancels the child, anything else fails it.
  abbrev pub end_failed : String → Thrown → Orchestrator V → Ends V
  end_failed id (abort_error message) =
      cancel_session now id_factory id (record { reason = abort_reason message; metadata = none })
  end_failed id (plain_error name message stack) =
      fail_session now id_factory id
        (record { error = failure_of (plain_error name message stack); metadata = none })
  end_failed id (thrown_value t) =
      fail_session now id_factory id
        (record { error = failure_of (thrown_value t); metadata = none })
  end_failed id (session_error e) =
      fail_session now id_factory id
        (record { error = failure_of (session_error e); metadata = none })

  unfoldable pub terminalize_failure : String → Thrown → Orchestrator V → Ends V
  unfolding get_session failure_of cancel_session fail_session
  terminalize_failure id thrown s =
      unless_ended (get_session now id_factory id s) (end_failed id thrown)

  -- The `catch` around the executor and `terminalizeSuccess`.
  abbrev pub catch_failure : String → Ends V → Ends V
  catch_failure id (ok view, s) = (ok view, s)
  catch_failure id (err e, s) = terminalize_failure id (session_error e) s

  abbrev pub settle_outcome : String → Result Thrown V × Orchestrator V → Ends V
  settle_outcome id (ok result, s) = catch_failure id (terminalize_success id result s)
  settle_outcome id (err thrown, s) = terminalize_failure id thrown s

  -- `delegate` once the child session is created, or not.
  abbrev pub run_child :
      String
      → Request V
      → Executor V
      → Dict (DelegationResult V)
      → Ends V
      → Result SessionError (DelegationResult V) × Coordinator V
  run_child parent request executor records (err e, s) =
      (err e, record { orchestrator = s; records = records })
  run_child parent request executor records (ok view, s) =
      let c = fields_of view in
      let context : Context = record {
        parent_session_id = parent;
        child_session_id = c.id;
        root_session_id = c.root_session_id;
      } in
      keep_record request records (settle_outcome c.id (executor request context s))

  unfoldable pub delegate :
      String
      → Request V
      → Executor V
      → Coordinator V
      → Result SessionError (DelegationResult V) × Coordinator V
  unfolding create_child_session terminalize_success terminalize_failure to_delegation_result
  delegate parent request executor c =
      run_child parent request executor c.records
        (create_child_session now id_factory parent (child_options request) c.orchestrator)
