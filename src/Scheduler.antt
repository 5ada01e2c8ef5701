-- ===== src/Scheduler.antt =====
-- packages/core/src/scheduler/manual-scheduler.ts: a queue of tasks that can be cancelled until they
-- run. What a task of type `T` does to the scheduler while it is awaited is the parameter `effect`;
-- it may schedule and cancel tasks, and may throw an `X`.
pub mod Flushing
use generic_ai.Base.{
  ℕ, zero, suc, Bool, true, false, not, List, [], ◌∷◌, ◌++◌, length, keep_if, map, if◌then◌else◌,
  eqb,
}
use generic_ai.Base.Exec.{Result, ok, err}

pub record Entry (T : Type 0) : Type 0 where
  pub handle : ℕ
  pub task : T
  pub cancelled : Bool

-- The queue, the number of the next handle, and the tasks that were started, in order.
pub record Scheduler (T : Type 0) : Type 0 where
  pub queue : List (Entry T)
  pub next_handle : ℕ
  pub started : List T

pub data FlushError (X : Type 0) : Type 0 where
  task_error : X → FlushError X
  out_of_fuel : FlushError X

abbrev pub create_manual_scheduler : {T : Type 0} → Scheduler T
create_manual_scheduler = record { queue = []; next_handle = 0; started = [] }

module _ {T : Type 0} where
  abbrev pub is_live : Entry T → Bool
  is_live e = not e.cancelled

  unfoldable pub pending_count : Scheduler T → ℕ
  pending_count s = length (keep_if is_live s.queue)

  unfoldable pub schedule : T → Scheduler T → ℕ × Scheduler T
  schedule task s = (
    s.next_handle,
    record s {
      queue = s.queue ++ record { handle = s.next_handle; task = task; cancelled = false } ∷ [];
      next_handle = suc s.next_handle;
    },
  )

  abbrev pub cancel_entry : ℕ → Entry T → Entry T
  cancel_entry handle e = if eqb e.handle handle then record e { cancelled = true } else e

  -- `cancel` of a handle; a task that has left the queue is not affected.
  unfoldable pub cancel : ℕ → Scheduler T → Scheduler T
  cancel handle s = record s { queue = map (cancel_entry handle) s.queue }

module _ {T X : Type 0} (effect : T → Scheduler T → Result X (Unit {0}) × Scheduler T) where
  -- `await next.task(); return true;`
  abbrev pub ran : Result X (Unit {0}) × Scheduler T → Result (FlushError X) Bool × Scheduler T
  ran (ok done, s) = (ok true, s)
  ran (err x, s) = (err (task_error x), s)

  -- The loop of `flushNext`; the list is the queue.
  unfoldable pub flush_list :
      List (Entry T) → Scheduler T → Result (FlushError X) Bool × Scheduler T
  flush_list [] s = (ok false, record s { queue = [] })
  flush_list (e ∷ es) s =
      let rest = flush_list es s in
      if e.cancelled
      then rest
      else ran (effect e.task (record s { queue = es; started = s.started ++ e.task ∷ [] }))

  unfoldable pub flush_next : Scheduler T → Result (FlushError X) Bool × Scheduler T
  unfolding flush_list
  flush_next s = flush_list s.queue s

  -- One round of `flushAll`: on while a task has run.
  abbrev pub go_on :
      (Scheduler T → Result (FlushError X) (Unit {0}) × Scheduler T)
      → Result (FlushError X) Bool × Scheduler T
      → Result (FlushError X) (Unit {0}) × Scheduler T
  go_on again (err x, t) = (err x, t)
  go_on again (ok false, t) = (ok tt, t)
  go_on again (ok true, t) = again t

  -- `flushAll`, which need not end when tasks go on scheduling tasks.
  unfoldable pub flush_all : ℕ → Scheduler T → Result (FlushError X) (Unit {0}) × Scheduler T
  unfolding flush_next
  flush_all zero s = (err out_of_fuel, s)
  flush_all (suc fuel) s = go_on (flush_all fuel) (flush_next s)
