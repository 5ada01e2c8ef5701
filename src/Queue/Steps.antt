-- ===== src/Queue/Steps.antt =====
-- Every sequence of calls of the queue of packages/plugin-queue-memory/src/index.ts and of
-- callbacks of the event loop, in any order; and the invariant of the queue.
use generic_ai.Base.{ℕ, zero, suc, ◌≡◌, refl, sym, ap, Bool, true, Option, List, [], ◌∷◌}
use generic_ai.Base.Exec.{Result, ok, result_cases, ok-injective}
use generic_ai.Queue.Types.{
  Job, drain_waiter, QueueJob, AbortReason, normalize_priority, normalize_run_at,
}
use generic_ai.Queue.{Queue}
use generic_ai.Queue.Calls.{
  snapshot_of, enqueue, pause, resume, drain, close, clear, on_abort, on_timer, on_immediate,
  on_handler, on_finally, finish_close,
}
use generic_ai.Queue.Invariant.{IsCore, IsAwake}

-- A call, or a callback; a job is meant by its sequence number.
pub data Step (V R X : Type 0) : Type 0 where
  enqueues : QueueJob V → Step V R X
  pauses resumes drains : Step V R X
  closes : (drain : Bool) → Step V R X
  clears : Option X → Step V R X
  aborts : ℕ → AbortReason → Step V R X
  timer_fires immediate_fires : Step V R X
  handler_ends : ℕ → Result X R → Step V R X
  finally_runs close_ends : Step V R X

-- An open `close` has its promise.
abbrev pub IsPromised : {V R X : Type 0} → Queue V R X → Type 0
IsPromised s = s.closing ≡ true → s.close_promise ≡ true

abbrev pub IsValid : {V R X : Type 0} → Queue V R X → Type 0
IsValid s = IsCore s × IsAwake s × IsPromised s

-- The sequence number of a snapshot is the one that was given out.
pub snapshot-sequence :
    {V : Type 0} (job : QueueJob V) (n t : ℕ) (j : Job V)
    → snapshot_of job n t ≡ ok j
    → j.sequence ≡ n
unfolding snapshot_of
snapshot-sequence job n t j =
    result_cases (λ r. r ≡ ok j → j.sequence ≡ n) (normalize_priority job.priority) _ _
      (λ e f h. cc)
      (λ priority f.
        result_cases (λ r. r ≡ ok j → j.sequence ≡ n) (normalize_run_at job.run_at) _ _
          (λ e g h. cc) (λ run_at g h. sym (ap (λ k. k.sequence) (ok-injective h))))

pub nat_cases {ℓ κ} :
    {B : Type ℓ} (P : B → Type κ) (n : ℕ) (z : B) (f : ℕ → B)
    → (n ≡ 0 → P z)
    → ((m : ℕ) → n ≡ suc m → P (f m))
    → P (elim n [ zero ↦ z | suc m ↦ f m ])
nat_cases P zero z f h k = h refl
nat_cases P (suc m) z f h k = k m refl

module _ {V R X : Type 0} (now : ℕ → ℕ) where
  unfoldable pub step : Step V R X → Queue V R X → Queue V R X
  unfolding enqueue pause resume drain close clear on_abort on_timer on_immediate on_handler
      on_finally finish_close
  step (enqueues job) s = (enqueue now job s).1
  step pauses s = pause s
  step resumes s = resume now s
  step drains s = drain now drain_waiter s
  step (closes drain) s = close now drain s
  step (clears reason) s = (clear now reason s).1
  step (aborts n reason) s = on_abort now n reason s
  step timer_fires s = on_timer now s
  step immediate_fires s = on_immediate now s
  step (handler_ends n outcome) s = on_handler now n outcome s
  step finally_runs s = on_finally now s
  step close_ends s = finish_close s

  unfoldable pub steps : List (Step V R X) → Queue V R X → Queue V R X
  unfolding step
  steps [] s = s
  steps (x ∷ xs) s = steps xs (step x s)
