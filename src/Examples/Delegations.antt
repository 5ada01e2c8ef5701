-- ===== src/Examples/Delegations.antt =====
-- A delegation whose executor leaves a session active below the child: the child cannot succeed,
-- and fails.
use generic_ai.Base.{ℕ, ◌+◌, String, ◌≡◌, refl, none, some, [], ◌∷◌, Option, List}
use generic_ai.Base.Dict.{lookup, set}
use generic_ai.Base.Exec.{Result, ok, err}
use generic_ai.Session.Types.{SessionStatus, failed, SessionError, SessionStartOptions}
use generic_ai.Session.Methods.{new_orchestrator, create_child_session, create_root_session}
use generic_ai.Session.Invariant.{IsValid}
use generic_ai.Session.History.{Call, create_root, create_child, after, history-IsValid}
use generic_ai.Delegation.{Request, Context, Thrown, Coordinator, DelegationResult, delegate}
use generic_ai.Delegation.Settling.{Delegated, delegate-Delegated}
use generic_ai.Delegation.Executors.{calling, calling-IsFair}
use generic_ai.Delegation.Keeping.{Keeps, after-Keeps}

abbrev clock : ℕ → ℕ
clock n = 100 + n

abbrev ids : ℕ → String
ids n = "generated"

abbrev named : String → SessionStartOptions String
named id = record { id = some id; metadata = none }

abbrev research : Request String
research = record { agent_id = "researcher"; task = "read"; metadata = none }

abbrev leaves_active : Request String → Context → List (Call String) × Result Thrown String
leaves_active request context =
    (create_child context.child_session_id (named "helper") ∷ [], ok "answer")

coordinator : Coordinator String
unfolding after
coordinator = record {
  orchestrator = after clock ids (create_root (named "main") ∷ []) new_orchestrator;
  records = [];
}

coordinator-IsValid : IsValid coordinator.orchestrator.sessions
unfolding coordinator
coordinator-IsValid =
    (history-IsValid clock ids (create_root (named "main") ∷ []) (create_root (named "other"))).0.0

abbrev status_of : Result SessionError (DelegationResult String) → Option SessionStatus
status_of (ok r) = some r.status
status_of (err e) = none

helper_is_ended :
    status_of (delegate clock ids "main" research (calling clock ids leaves_active) coordinator).0
    ≡ some failed
unfolding delegate coordinator create_root_session create_child_session lookup set
helper_is_ended = refl

delegate-Delegated_example :
    Delegated "main" research
      (calling clock ids leaves_active)
      coordinator
      (delegate clock ids "main" research (calling clock ids leaves_active) coordinator)
delegate-Delegated_example =
    delegate-Delegated clock ids "main" research (calling clock ids leaves_active)
      (calling-IsFair clock ids leaves_active) coordinator coordinator-IsValid

abbrev goes_on : List (Call String)
goes_on = create_child "main" (named "helper") ∷ create_root (named "other") ∷ []

after-Keeps_example :
    Keeps coordinator.orchestrator (after clock ids goes_on coordinator.orchestrator)
after-Keeps_example = after-Keeps clock ids goes_on coordinator.orchestrator coordinator-IsValid
