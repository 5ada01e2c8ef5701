-- ===== src/RunModes/Async.antt =====
-- packages/core/src/run-modes/run-modes.ts: `createAsyncRunMode` and `completeSession`. A task stands
-- for all that happens until it has settled; whether `schedule` throws is a parameter.
use generic_ai.Base.{ℕ, String, Option, none, some}
use generic_ai.Base.Exec.{Result, ok, err}
use generic_ai.RunModes.Machine.{
  async, result, error, RunEvent, Machine, RunError, task_error, create_root_session, start,
  succeed, fail,
}

-- The promise that `run` returns, when nothing is left to happen.
pub data Settled (T X : Type 0) : Type 0 where
  pending : Settled T X
  resolved : T → Settled T X
  rejected : RunError X → Settled T X

module _ {T X : Type 0} (throws : ℕ → RunEvent T X → Option X) (now : ℕ → ℕ)
    (create_id : ℕ → String) (task : ℕ → Machine T X → Result (RunError X) T × Machine T X) where
  -- `session.succeed(result); resolve(result);`: an error of `succeed` is caught by nobody.
  abbrev pub on_value : T → Result (RunError X) (Unit {0}) × Machine T X → Settled T X × Machine T X
  on_value value (ok done, m) = (resolved value, m)
  on_value value (err e, m) = (pending, m)

  abbrev pub on_error :
      RunError X → Result (RunError X) (Unit {0}) × Machine T X → Settled T X × Machine T X
  on_error e (ok done, m) = (rejected e, m)
  on_error e (err other, m) = (pending, m)

  abbrev pub complete_session : ℕ → Result (RunError X) T × Machine T X → Settled T X × Machine T X
  complete_session n (ok value, m) = on_value value (succeed throws now n (result value) m)
  complete_session n (err e, m) = on_error e (fail throws now n (error e) m)

  -- An error of `schedule`: the promise is rejected, also where `fail` throws in its turn.
  abbrev pub not_scheduled :
      X → Result (RunError X) (Unit {0}) × Machine T X → Settled T X × Machine T X
  not_scheduled x (ok done, m) = (rejected (task_error x), m)
  not_scheduled x (err e, m) = (rejected e, m)

  abbrev pub scheduled : Option X → ℕ → Machine T X → Settled T X × Machine T X
  scheduled none n m = complete_session n (task n m)
  scheduled (some x) n m = not_scheduled x (fail throws now n (error (task_error x)) m)

  abbrev pub promised : Settled T X × Machine T X → Result (RunError X) (Settled T X) × Machine T X
  promised (p, m) = (ok p, m)

  abbrev pub after_start :
      Option X
      → ℕ
      → Result (RunError X) (Unit {0}) × Machine T X
      → Result (RunError X) (Settled T X) × Machine T X
  after_start refused n (err e, m) = (err e, m)
  after_start refused n (ok done, m) = promised (scheduled refused n m)

  abbrev pub after_create :
      Option X
      → ℕ
      → Result (RunError X) (Unit {0}) × Machine T X
      → Result (RunError X) (Settled T X) × Machine T X
  after_create refused n (err e, m) = (err e, m)
  after_create refused n (ok done, m) = after_start refused n (start throws now n m)

  -- `run(task, seed)`, with the error that `schedule` throws, if it does.
  unfoldable pub run_async :
      Option X → Option String → Machine T X → Result (RunError X) (Settled T X) × Machine T X
  unfolding create_root_session start succeed fail
  run_async refused seed_id m =
      after_create refused m.next_key
        (create_root_session throws now create_id (record { id = seed_id; mode = some async }) m)
