-- ===== src/Examples/Runs.antt =====
-- Run sessions with a child and an observer, and runs of the synchronous mode.
use generic_ai.Base.{ℕ, suc, String, ◌≡◌, refl, Option, none, some, List, [], ◌∷◌, map}
use generic_ai.Base.Exec.{Result, ok, err}
use generic_ai.RunModes.Machine.{
  running, succeeded, result, RunEvent, Seed, Machine, create_machine, RunError, task_error,
  not_running, cancel,
}
use generic_ai.RunModes.States.{states}
use generic_ai.RunModes.Plan.{
  Op, creates_root, creates_child, starts, succeeds, cancels, observes, plan_all, no_plan, Agrees,
}
use generic_ai.RunModes.Refines.{apply_all, apply_all_refines, ended_stays}
use generic_ai.RunModes.Sync.{run_sync}
use generic_ai.RunModes.Quiet.{at_task}
use generic_ai.RunModes.Async.{Settled, pending, run_async}
use generic_ai.RunModes.Awaited.{Awaited, async_seed, run_async-Awaited}
use generic_ai.RunModes.Outcome.{Ran, seed_of, run_sync-Ran}

abbrev id_for : ℕ → String
id_for n = "session"

abbrev clock : ℕ → ℕ
clock n = n

-- Observer 9 throws, the others do not.
abbrev nine_throws : ℕ → RunEvent String String → Option String
nine_throws (suc (suc (suc (suc (suc (suc (suc (suc (suc n))))))))) event = some "nine"
nine_throws n event = none

abbrev all_quiet : ℕ → RunEvent String String → Option String
all_quiet n event = none

abbrev bare : Seed
bare = record { id = none; mode = none }

abbrev family : List (Op String String)
family =
    creates_root bare
    ∷ observes 0 1
    ∷ starts 0
    ∷ creates_child 0 bare
    ∷ observes 1 2
    ∷ starts 1
    ∷ succeeds 1 (result "done")
    ∷ []

-- The own observers hear an event first, then those of the parent.
heard_in_order :
    map (λ h. h.0) (apply_all nine_throws clock id_for family create_machine).heard
    ≡ 1 ∷ 2 ∷ 1 ∷ 2 ∷ 1 ∷ 1 ∷ 1 ∷ []
unfolding apply_all
heard_in_order = refl

-- The state is taken although the observer throws.
taken_in_spite :
    states
      (apply_all nine_throws clock id_for
        (creates_root bare ∷ observes 0 9 ∷ starts 0 ∷ [])
        create_machine).sessions
      0
    ≡ some running
unfolding apply_all states
taken_in_spite = refl

apply_all_refines_example :
    Agrees (apply_all nine_throws clock id_for family create_machine) (plan_all family no_plan)
apply_all_refines_example = apply_all_refines nine_throws clock id_for family

abbrev afterwards : List (Op String String)
afterwards = cancels 1 none ∷ starts 1 ∷ creates_root bare ∷ []

ended_stays_example :
    states
      (apply_all nine_throws clock id_for afterwards
        (apply_all nine_throws clock id_for family create_machine)).sessions
      1
    ≡ some succeeded
unfolding apply_all states
ended_stays_example = ended_stays nine_throws clock id_for family afterwards 1 succeeded refl refl

abbrev Task : Type 0
Task = ℕ → Machine String String → Result (RunError String) String × Machine String String

abbrev answer : Task
answer n m = (ok "answer", m)

-- The task cancels its own session, and fails then.
abbrev gives_up : Task
gives_up n m = (err (task_error "reason"), (cancel all_quiet clock n none m).1)

answered : (run_sync all_quiet clock id_for answer none create_machine).0 ≡ ok "answer"
unfolding run_sync
answered = refl

-- The caller does not see why the task failed.
reason_lost :
    (run_sync all_quiet clock id_for gives_up none create_machine).0 ≡ err (not_running "session")
unfolding run_sync cancel
reason_lost = refl

run_sync-Ran_example :
    (states (at_task all_quiet clock id_for (seed_of none) create_machine).sessions 0
      ≡ some running)
    × Ran 0
        (answer 0 (at_task all_quiet clock id_for (seed_of none) create_machine))
        (run_sync all_quiet clock id_for answer none create_machine)
run_sync-Ran_example = run_sync-Ran all_quiet (λ o e. refl) clock id_for answer none create_machine

never_settles : (run_async all_quiet clock id_for gives_up none none create_machine).0 ≡ ok pending
unfolding run_async cancel
never_settles = refl

run_async-Awaited_example :
    (final : Settled String String × Machine String String) × (run_async all_quiet clock id_for
        gives_up none none create_machine
      ≡ (ok final.0, final.1))
    × (states (at_task all_quiet clock id_for (async_seed none) create_machine).sessions 0
        ≡ some running)
    × Awaited 0 (gives_up 0 (at_task all_quiet clock id_for (async_seed none) create_machine)) final
run_async-Awaited_example =
    run_async-Awaited all_quiet (λ o e. refl) clock id_for gives_up none create_machine
