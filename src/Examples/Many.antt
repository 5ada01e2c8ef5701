-- ===== src/Examples/Many.antt =====
-- Three delegations at once: one settles behind a later one, one throws at once.
use generic_ai.Base.{
  ℕ, zero, suc, ◌+◌, ◌<◌, String, ◌≡◌, refl, true, none, some, [], ◌∷◌, Option, List, arith, map,
  ◌==◌, if◌then◌else◌,
}
use generic_ai.Base.Dict.{lookup, set}
use generic_ai.Base.Exec.{Result, ok, err}
use generic_ai.Session.Types.{
  SessionStatus, succeeded, failed, cancelled, SessionError, SessionStartOptions,
}
use generic_ai.Session.Methods.{new_orchestrator, create_child_session, create_root_session}
use generic_ai.Session.Invariant.{IsValid}
use generic_ai.Session.History.{Call, create_root, create_child, call, after, history-IsValid}
use generic_ai.Delegation.{
  Request, Context, Thrown, thrown_value, abort_error, Coordinator, DelegationResult,
}
use generic_ai.Delegation.Many.{Step, calls, settles, answer, delegate_many, steps}
use generic_ai.Delegation.Standing.{closes}
use generic_ai.Delegation.Answered.{Answered, delegate_many-Answered}

abbrev clock : ℕ → ℕ
clock n = 100 + n

abbrev ids : ℕ → String
ids zero = "first"
ids (suc zero) = "second"
ids (suc (suc zero)) = "third"
ids n = "later"

abbrev named : String → SessionStartOptions String
named id = record { id = some id; metadata = none }

abbrev request_of : String → Request String
request_of agent = record { agent_id = agent; task = "read"; metadata = none }

abbrev requests : List (Request String)
requests = request_of "reader" ∷ request_of "hasty" ∷ request_of "writer" ∷ []

abbrev begins : Request String → Context → List (Call String) × Option Thrown
begins request context =
    ([], if request.agent_id == "hasty" then some (thrown_value "no") else none)

abbrev happens : List (Step String)
happens =
    settles 2 (err (abort_error "enough"))
    ∷ calls (create_child "main" (named "helper"))
    ∷ settles 0 (ok "answer")
    ∷ settles 1 (ok "late")
    ∷ []

coordinator : Coordinator String
unfolding after
coordinator = record {
  orchestrator = after clock ids (create_root (named "main") ∷ []) new_orchestrator;
  records = [];
}

coordinator-IsValid : IsValid coordinator.orchestrator.sessions
unfolding coordinator
coordinator-IsValid =
    (history-IsValid clock ids (create_root (named "main") ∷ []) (create_root (named "other"))).0.0

abbrev statuses : Option (Result SessionError (List (DelegationResult String))) → List SessionStatus
statuses none = []
statuses (some (err e)) = []
statuses (some (ok results)) = map (λ r. r.status) results

in_the_order_of_requests :
    statuses (
      answer (steps clock ids happens (delegate_many clock ids "main" requests begins coordinator)))
    ≡ succeeded ∷ failed ∷ cancelled ∷ []
unfolding delegate_many steps coordinator create_root_session create_child_session lookup set call
in_the_order_of_requests = refl

all_settle : (j : ℕ) → j < 3 → closes j happens ≡ true
all_settle zero lt = refl
all_settle (suc zero) lt = refl
all_settle (suc (suc zero)) lt = refl
all_settle (suc (suc (suc j))) lt = absurd (omega arith)

delegate_many-Answered_example :
    Answered "main" coordinator.orchestrator requests
      (steps clock ids happens (delegate_many clock ids "main" requests begins coordinator))
    × IsValid
        (steps clock ids happens (
          delegate_many clock ids "main" requests begins
            coordinator)).coordinator.orchestrator.sessions
delegate_many-Answered_example =
    delegate_many-Answered clock ids "main" begins requests coordinator happens coordinator-IsValid
      all_settle
