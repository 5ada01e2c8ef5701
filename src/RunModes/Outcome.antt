-- ===== src/RunModes/Outcome.antt =====
-- What a run of the synchronous mode of packages/core/src/run-modes/run-modes.ts returns and throws,
-- and in which state it leaves its session.
use generic_ai.Base.{ℕ, ◌≡◌, ◌≢◌, refl, sym, ap, subst, ◌∙◌, inl, inr, String, Option, none, some}
use generic_ai.Base.Exec.{Result, ok, err}
use generic_ai.RunModes.Machine.{
  sync, running, succeeded, failed, result, error, RunEvent, Seed, Machine, RunError, start,
  succeed, fail, create_root_session,
}
use generic_ai.RunModes.States.{states}
use generic_ai.RunModes.Sync.{run_sync, after_create, after_start, settled, returned, rethrown}
use generic_ai.RunModes.Quiet.{
  running_or, at_task, created_idle, begun_running, transition_taken, transition_refused,
}

abbrev pub seed_of : Option String → Seed
seed_of id = record { id = id; mode = some sync }

-- How a run ends, by what its task did: `taken` is what the task returned or threw with the machine
-- that it left, `final` what the run returns or throws with the machine that it leaves.
pub data Ran {T X : Type 0} (n : ℕ) (taken final : Result (RunError X) T × Machine T X)
    : Type 0 where
  returns :
      (value : T)
      → taken.0 ≡ ok value
      → states taken.1.sessions n ≡ some running
      → final.0 ≡ ok value
      → states final.1.sessions n ≡ some succeeded
      → Ran n taken final
  throws_on :
      (e : RunError X)
      → taken.0 ≡ err e
      → states taken.1.sessions n ≡ some running
      → final.0 ≡ err e
      → states final.1.sessions n ≡ some failed
      → Ran n taken final
  too_late :
      (e : RunError X)
      → states taken.1.sessions n ≢ some running
      → final ≡ (err e, taken.1)
      → Ran n taken final

module _ {T X : Type 0} (throws : ℕ → RunEvent T X → Option X)
    (quiet : (o : ℕ) (e : RunEvent T X) → throws o e ≡ none) (now : ℕ → ℕ) (create_id : ℕ → String)
    (task : ℕ → Machine T X → Result (RunError X) T × Machine T X) where
  returned_ok :
      (n : ℕ) (value : T) (p : Result (RunError X) (Unit {0}) × Machine T X)
      → p.0 ≡ ok tt
      → returned throws now create_id task n value p ≡ (ok value, p.1)
  returned_ok n value (ok done, m) e = refl
  returned_ok n value (err x, m) e = cc

  rethrown_ok :
      (x : RunError X) (p : Result (RunError X) (Unit {0}) × Machine T X)
      → p.0 ≡ ok tt
      → rethrown throws now create_id task x p ≡ (err x, p.1)
  rethrown_ok x (ok done, m) e = refl
  rethrown_ok x (err y, m) e = cc

  settled-Ran :
      (n : ℕ) (taken : Result (RunError X) T × Machine T X)
      → Ran n taken (settled throws now create_id task n taken)
  unfolding succeed fail
  settled-Ran n (ok value, m) = elim (running_or (states m.sessions n)) [
    | inl runs ↦
        let (done, ends) =
          transition_taken throws quiet now n running succeeded "session-succeeded" (result value) m
            runs refl in
        let out = returned_ok n value (succeed throws now n (result value) m) done in
        returns value refl runs (ap (λ r. r.0) out)
          (subst (λ r. states r.1.sessions n ≡ some succeeded) (sym out) ends)
    | inr (other, bars) ↦
        let (x, first) =
          transition_refused throws quiet now n succeeded "session-succeeded" (result value) m
            (λ st e. (bars st e).0) in
        let (y, second) =
          transition_refused throws quiet now n failed "session-failed" (error x) m
            (λ st e. (bars st e).1) in
        too_late y other (
          ap (returned throws now create_id task n value) first
          ∙ ap (rethrown throws now create_id task x) second)
  ]
  settled-Ran n (err e, m) = elim (running_or (states m.sessions n)) [
    | inl runs ↦
        let (done, ends) =
          transition_taken throws quiet now n running failed "session-failed" (error e) m runs
            refl in
        let out = rethrown_ok e (fail throws now n (error e) m) done in
        throws_on e refl runs (ap (λ r. r.0) out)
          (subst (λ r. states r.1.sessions n ≡ some failed) (sym out) ends)
    | inr (other, bars) ↦
        let (y, second) =
          transition_refused throws quiet now n failed "session-failed" (error e) m
            (λ st at. (bars st at).1) in
        too_late y other (ap (rethrown throws now create_id task e) second)
  ]

  after_create_ok :
      (n : ℕ) (p : Result (RunError X) (Unit {0}) × Machine T X)
      → p.0 ≡ ok tt
      → after_create throws now create_id task n p
        ≡ after_start throws now create_id task n (start throws now n p.1)
  after_create_ok n (ok done, m) e = refl
  after_create_ok n (err x, m) e = cc

  after_start_ok :
      (n : ℕ) (p : Result (RunError X) (Unit {0}) × Machine T X)
      → p.0 ≡ ok tt
      → after_start throws now create_id task n p ≡ settled throws now create_id task n (task n p.1)
  after_start_ok n (ok done, m) e = refl
  after_start_ok n (err x, m) e = cc

  -- When no observer throws, a run of the synchronous mode calls its task in a new session that
  -- runs. A run whose task leaves the session running returns what the task returns, and the session
  -- has succeeded, or throws what the task throws, and the session has failed. A run whose task has
  -- ended the session itself throws, whatever the task returned or threw, and changes no session.
  pub run_sync-Ran :
      (seed_id : Option String) (m : Machine T X)
      → let n = m.next_key in
        let begun = at_task throws now create_id (seed_of seed_id) m in
        (states begun.sessions n ≡ some running)
        × Ran n (task n begun) (run_sync throws now create_id task seed_id m)
  unfolding run_sync
  run_sync-Ran seed_id m =
      let fresh = create_root_session throws now create_id (seed_of seed_id) m in
      let (started, runs) = begun_running throws quiet now create_id (seed_of seed_id) m in
      let same =
        after_create_ok m.next_key fresh
          (created_idle throws quiet now create_id (seed_of seed_id) m).0
        ∙ after_start_ok m.next_key (start throws now m.next_key fresh.1) started in
      (
        runs,
        subst
            (λ r.
              Ran m.next_key (task m.next_key (at_task throws now create_id (seed_of seed_id) m)) r)
            (sym same)
            (settled-Ran m.next_key
              (task m.next_key (at_task throws now create_id (seed_of seed_id) m))),
      )
