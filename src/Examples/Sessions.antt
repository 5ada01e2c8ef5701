-- ===== src/Examples/Sessions.antt =====
-- The session orchestrator on a family of four sessions: tests, and the theorems applied to it.
use generic_ai.Base.{ℕ, ◌+◌, String, ◌≡◌, ◌≢◌, refl, Option, none, some, List, [], ◌∷◌, map, get_or}
use generic_ai.Base.Dict.{lookup, set}
use generic_ai.Base.Exec.{err}
use generic_ai.Session.Types.{
  root, child, SessionStatus, active, succeeded, failed, cancelled, SessionStartOptions,
  SessionCompleteOptions, SessionFailOptions, SessionCancelOptions, text, out_of_fuel,
  active_descendant,
}
use generic_ai.Session.{Orchestrator, build_cascade_reason}
use generic_ai.Session.Methods.{
  new_orchestrator, started, with_child, as_succeeded, create_root_session, create_child_session,
  complete_session, fail_session, cancel_session,
}
use generic_ai.Session.Invariant.{IsValid}
use generic_ai.Session.Linked.{IsLinked}
use generic_ai.Session.Ending.{
  failed_record, cancelled_record, Ending, fail_session-Ending, cancel_session-Ending,
}
use generic_ai.Session.Completing.{Completion, complete_session-Completion}
use generic_ai.Session.Created.{
  RootCreation, ChildCreation, create_root_session-RootCreation, create_child_session-ChildCreation,
}
use generic_ai.Session.History.{
  Call, create_root, create_child, complete, cancel, call, after, history-IsValid,
}

abbrev clock : ℕ → ℕ
clock n = 100 + n

abbrev ids : ℕ → String
ids n = "generated"

abbrev named : String → SessionStartOptions String
named id = record { id = some id; metadata = none }

abbrev plain : SessionCompleteOptions String
plain = record { result = some "done"; metadata = none }

abbrev broken : SessionFailOptions String
broken = record { error = text "boom"; metadata = none }

abbrev stop : SessionCancelOptions String
stop = record { reason = none; metadata = none }

-- "main" has "left" and "right"; "deep" is below "left", and "right" has succeeded.
abbrev family_calls : List (Call String)
family_calls =
    create_root (named "main")
    ∷ create_child "main" (named "left")
    ∷ create_child "main" (named "right")
    ∷ create_child "left" (named "deep")
    ∷ complete "right" plain
    ∷ []

family : Orchestrator String
unfolding after
family = after clock ids family_calls new_orchestrator

abbrev status_of : Orchestrator String → String → Option SessionStatus
status_of s id = elim (lookup id s.sessions) [ none ↦ none | some r ↦ some r.status ]

family_statuses :
    map (status_of family) ("main" ∷ "left" ∷ "deep" ∷ "right" ∷ [])
    ≡ some active ∷ some active ∷ some active ∷ some succeeded ∷ []
unfolding family lookup complete_session create_child_session create_root_session set
family_statuses = refl

-- The cascade of a failure.
failure_statuses :
    map
      (status_of (fail_session clock ids "main" broken family).1)
      ("main" ∷ "left" ∷ "deep" ∷ "right" ∷ [])
    ≡ some failed ∷ some cancelled ∷ some cancelled ∷ some succeeded ∷ []
unfolding family lookup fail_session complete_session create_child_session create_root_session set
failure_statuses = refl

-- A session with an active descendant cannot complete.
completion_blocked :
    (complete_session clock ids "main" plain family).0 ≡ err (active_descendant "main" "left")
unfolding family lookup complete_session create_child_session create_root_session set
completion_blocked = refl

family-IsValid : IsValid family.sessions
unfolding family
family-IsValid = (history-IsValid clock ids family_calls (cancel "main" stop)).0.0

history-IsValid_example :
    (IsValid (after clock ids family_calls new_orchestrator).sessions
      × IsLinked (after clock ids family_calls new_orchestrator).sessions)
    × ((call clock ids (cancel "main" stop) (after clock ids family_calls new_orchestrator)).0
        ≢ err out_of_fuel)
    × IsValid
        (call clock ids
          (cancel "main" stop)
          (after clock ids family_calls new_orchestrator)).1.sessions
    × IsLinked
        (call clock ids
          (cancel "main" stop)
          (after clock ids family_calls new_orchestrator)).1.sessions
history-IsValid_example = history-IsValid clock ids family_calls (cancel "main" stop)

fail_session-Ending_example :
    Ending "main"
      (λ r. failed_record r (clock family.now_calls) broken)
      (λ r. build_cascade_reason r.id failed)
      family
      (fail_session clock ids "main" broken family)
fail_session-Ending_example = fail_session-Ending clock ids "main" family family-IsValid broken

cancel_session-Ending_example :
    Ending "left"
      (λ r. cancelled_record r (clock family.now_calls) stop)
      (λ r. get_or stop.reason (build_cascade_reason r.id cancelled))
      family
      (cancel_session clock ids "left" stop family)
cancel_session-Ending_example = cancel_session-Ending clock ids "left" family family-IsValid stop

complete_session-Completion_example :
    Completion "deep"
      (λ r. as_succeeded r (clock family.now_calls) plain)
      family
      (complete_session clock ids "deep" plain family)
complete_session-Completion_example =
    complete_session-Completion clock ids "deep" family plain family-IsValid

root_is_created :
    RootCreation "other"
      (started root "other" none "other" (clock family.now_calls) none)
      family
      (create_root_session clock ids (named "other") family)
root_is_created = create_root_session-RootCreation clock ids (named "other") family family-IsValid

create_child_session-ChildCreation_example :
    ChildCreation "deep" "leaf"
      (λ r. started child "leaf" (some r.id) r.root_session_id (clock family.now_calls) none)
      (λ r. with_child r (clock family.now_calls) "leaf")
      family
      (create_child_session clock ids "deep" (named "leaf") family)
create_child_session-ChildCreation_example =
    create_child_session-ChildCreation clock ids "deep" (named "leaf") family family-IsValid
