-- ===== src/RunModes/Awaited.antt =====
-- Whether the promise of a run of the asynchronous mode of packages/core/src/run-modes/run-modes.ts
-- settles, and in which state the run leaves its session.
use generic_ai.Base.{ℕ, ◌≡◌, ◌≢◌, refl, sym, ap, subst, ◌∙◌, inl, inr, String, Option, none, some}
use generic_ai.Base.Exec.{Result, ok, err}
use generic_ai.RunModes.Machine.{
  async, running, succeeded, failed, result, error, RunEvent, Seed, Machine, RunError, start,
  succeed, fail, create_root_session,
}
use generic_ai.RunModes.States.{states}
use generic_ai.RunModes.Quiet.{
  running_or, at_task, created_idle, begun_running, transition_taken, transition_refused,
}
use generic_ai.RunModes.Async.{
  Settled, pending, resolved, rejected, on_value, on_error, complete_session, promised, after_start,
  after_create, run_async,
}

-- How a run ends, by what its task did: `taken` is what the task returned or threw with the machine
-- that it left, `final` the promise with the machine that the run leaves.
pub data Awaited {T X : Type 0} (n : ℕ) (taken : Result (RunError X) T × Machine T X)
    (final : Settled T X × Machine T X) : Type 0 where
  resolves :
      (value : T)
      → taken.0 ≡ ok value
      → states taken.1.sessions n ≡ some running
      → final.0 ≡ resolved value
      → states final.1.sessions n ≡ some succeeded
      → Awaited n taken final
  rejects :
      (e : RunError X)
      → taken.0 ≡ err e
      → states taken.1.sessions n ≡ some running
      → final.0 ≡ rejected e
      → states final.1.sessions n ≡ some failed
      → Awaited n taken final
  hangs :
      states taken.1.sessions n ≢ some running → final ≡ (pending, taken.1) → Awaited n taken final

abbrev pub async_seed : Option String → Seed
async_seed id = record { id = id; mode = some async }

module _ {T X : Type 0} (throws : ℕ → RunEvent T X → Option X)
    (quiet : (o : ℕ) (e : RunEvent T X) → throws o e ≡ none) (now : ℕ → ℕ) (create_id : ℕ → String)
    (task : ℕ → Machine T X → Result (RunError X) T × Machine T X) where
  on_value_ok :
      (value : T) (p : Result (RunError X) (Unit {0}) × Machine T X)
      → p.0 ≡ ok tt
      → on_value throws now create_id task value p ≡ (resolved value, p.1)
  on_value_ok value (ok done, m) e = refl
  on_value_ok value (err x, m) e = cc

  on_error_ok :
      (x : RunError X) (p : Result (RunError X) (Unit {0}) × Machine T X)
      → p.0 ≡ ok tt
      → on_error throws now create_id task x p ≡ (rejected x, p.1)
  on_error_ok x (ok done, m) e = refl
  on_error_ok x (err y, m) e = cc

  complete-Awaited :
      (n : ℕ) (taken : Result (RunError X) T × Machine T X)
      → Awaited n taken (complete_session throws now create_id task n taken)
  unfolding succeed fail
  complete-Awaited n (ok value, m) = elim (running_or (states m.sessions n)) [
    | inl runs ↦
        let (done, ends) =
          transition_taken throws quiet now n running succeeded "session-succeeded" (result value) m
            runs refl in
        let out = on_value_ok value (succeed throws now n (result value) m) done in
        resolves value refl runs (ap (λ r. r.0) out)
          (subst (λ r. states r.1.sessions n ≡ some succeeded) (sym out) ends)
    | inr (other, bars) ↦
        let (x, first) =
          transition_refused throws quiet now n succeeded "session-succeeded" (result value) m
            (λ st e. (bars st e).0) in
        hangs other (ap (on_value throws now create_id task value) first)
  ]
  complete-Awaited n (err e, m) = elim (running_or (states m.sessions n)) [
    | inl runs ↦
        let (done, ends) =
          transition_taken throws quiet now n running failed "session-failed" (error e) m runs
            refl in
        let out = on_error_ok e (fail throws now n (error e) m) done in
        rejects e refl runs (ap (λ r. r.0) out)
          (subst (λ r. states r.1.sessions n ≡ some failed) (sym out) ends)
    | inr (other, bars) ↦
        let (y, second) =
          transition_refused throws quiet now n failed "session-failed" (error e) m
            (λ st at. (bars st at).1) in
        hangs other (ap (on_error throws now create_id task e) second)
  ]

  after_create_ok :
      (n : ℕ) (p : Result (RunError X) (Unit {0}) × Machine T X)
      → p.0 ≡ ok tt
      → after_create throws now create_id task none n p
        ≡ after_start throws now create_id task none n (start throws now n p.1)
  after_create_ok n (ok done, m) e = refl
  after_create_ok n (err x, m) e = cc

  after_start_ok :
      (n : ℕ) (p : Result (RunError X) (Unit {0}) × Machine T X)
      → p.0 ≡ ok tt
      → after_start throws now create_id task none n p
        ≡ promised throws now create_id task
            (complete_session throws now create_id task n (task n p.1))
  after_start_ok n (ok done, m) e = refl
  after_start_ok n (err x, m) e = cc

  -- When no observer throws and the scheduler takes the task, the promise of a run of the
  -- asynchronous mode resolves with what the task returns, and the session has succeeded, or is
  -- rejected with what it throws, and the session has failed, if the task leaves the session
  -- running. If the task has ended the session itself, the promise never settles, whatever the task
  -- returned or threw.
  pub run_async-Awaited :
      (seed_id : Option String) (m : Machine T X)
      → let n = m.next_key in
        let begun = at_task throws now create_id (async_seed seed_id) m in
        (final : Settled T X × Machine T X) × (run_async throws now create_id task none seed_id m
          ≡ (ok final.0, final.1))
        × (states begun.sessions n ≡ some running)
        × Awaited n (task n begun) final
  unfolding run_async
  run_async-Awaited seed_id m =
      let seed = async_seed seed_id in
      let n = m.next_key in
      let fresh = create_root_session throws now create_id seed m in
      let (started, runs) = begun_running throws quiet now create_id seed m in
      let taken = task n (at_task throws now create_id seed m) in
      (
        complete_session throws now create_id task n taken,
        after_create_ok n fresh (created_idle throws quiet now create_id seed m).0
            ∙ after_start_ok n (start throws now n fresh.1) started,
        runs,
        complete-Awaited n taken,
      )
