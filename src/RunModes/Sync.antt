-- ===== src/RunModes/Sync.antt =====
-- packages/core/src/run-modes/run-modes.ts: `createSyncRunMode`. What a task does to the sessions
-- while it runs is part of the task, which is a parameter.
use generic_ai.Base.{ℕ, String, Option, some}
use generic_ai.Base.Exec.{Result, ok, err}
use generic_ai.RunModes.Machine.{
  sync, result, error, RunEvent, Machine, RunError, create_root_session, start, succeed, fail,
}

module _ {T X : Type 0} (throws : ℕ → RunEvent T X → Option X) (now : ℕ → ℕ)
    (create_id : ℕ → String) (task : ℕ → Machine T X → Result (RunError X) T × Machine T X) where
  -- `catch (error) { session.fail(error); throw error; }`
  abbrev pub rethrown :
      RunError X
      → Result (RunError X) (Unit {0}) × Machine T X
      → Result (RunError X) T × Machine T X
  rethrown e (ok done, m) = (err e, m)
  rethrown e (err other, m) = (err other, m)

  -- `session.succeed(result); return result;`, and the `catch` around it.
  abbrev pub returned :
      ℕ → T → Result (RunError X) (Unit {0}) × Machine T X → Result (RunError X) T × Machine T X
  returned n value (ok done, m) = (ok value, m)
  returned n value (err e, m) = rethrown e (fail throws now n (error e) m)

  -- Behind the task.
  abbrev pub settled : ℕ → Result (RunError X) T × Machine T X → Result (RunError X) T × Machine T X
  settled n (ok value, m) = returned n value (succeed throws now n (result value) m)
  settled n (err e, m) = rethrown e (fail throws now n (error e) m)

  abbrev pub after_start :
      ℕ → Result (RunError X) (Unit {0}) × Machine T X → Result (RunError X) T × Machine T X
  after_start n (err e, m) = (err e, m)
  after_start n (ok done, m) = settled n (task n m)

  abbrev pub after_create :
      ℕ → Result (RunError X) (Unit {0}) × Machine T X → Result (RunError X) T × Machine T X
  after_create n (err e, m) = (err e, m)
  after_create n (ok done, m) = after_start n (start throws now n m)

  -- `run(task, seed)`: the new session has the next number.
  unfoldable pub run_sync : Option String → Machine T X → Result (RunError X) T × Machine T X
  unfolding create_root_session start succeed fail
  run_sync seed_id m =
      after_create m.next_key
        (create_root_session throws now create_id (record { id = seed_id; mode = some sync }) m)
