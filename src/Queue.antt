-- ===== src/Queue.antt =====
-- packages/plugin-queue-memory/src/index.ts: an in-memory job queue with priorities, a concurrency
-- limit, abort signals, `drain` and `close`. A job's payload is of type `V`, its result of type `R`,
-- a reason of a rejection of type `X`. The k-th call of `now` returns `now k`. A listener of `emit`
-- neither calls the queue nor throws.
pub mod Types
pub mod Calls
pub mod Sorted
pub mod Invariant
pub mod Frame
pub mod Steps
pub mod Kept
pub mod Callbacks
pub mod Valid
pub mod Conservation
pub mod Stranded
pub mod Pumping
use generic_ai.Base.{
  ℕ, zero, suc, ◌+◌, ◌-◌, Bool, true, false, not, ◌&&◌, ◌||◌, Option, none, some, List, [], ◌∷◌,
  ◌++◌, length, if◌then◌else◌, ltb, leb, eqb,
}
use generic_ai.Queue.Types.{
  ℤ, pos, negsuc, Job, Waiter, drain_waiter, close_waiter, Settlement, resolved, rejected,
  Rejection, queue_closed, QueueState, Event, started, paused_event, drained, closed_event, cleared,
  is_before, lt_int,
}

-- The queue, and below `in_flight` what the event loop and the callers hold: jobs whose handler
-- runs, the number of settled jobs whose `finally` is to come, and what was settled and emitted.
pub record Queue (V R X : Type 0) : Type 0 where
  pub concurrency : ℕ
  pub max_pending : Option ℕ
  pub pending : List (Job V)
  pub running : ℕ
  pub sequence : ℕ
  pub paused : Bool
  pub closing : Bool
  pub closed : Bool
  pub timer : Option ℕ
  pub immediate : Bool
  pub idle_waiters : List Waiter
  pub close_promise : Bool
  pub now_calls : ℕ
  pub in_flight : List (Job V)
  pub finishing : ℕ
  pub close_ready : Bool
  pub settled : List (Job V × Settlement R X)
  pub events : List (Event V R X)

-- Is `close` among the waiters?
abbrev pub awaits_close : List Waiter → Bool
awaits_close [] = false
awaits_close (close_waiter ∷ ws) = true
awaits_close (drain_waiter ∷ ws) = awaits_close ws

-- The array method `sort`, which is stable, with the comparison of `insertPending`.
unfoldable pub insert : {V : Type 0} → Job V → List (Job V) → List (Job V)
unfolding is_before
insert j [] = j ∷ []
insert j (k ∷ ks) = if is_before j k then j ∷ k ∷ ks else k ∷ insert j ks

unfoldable pub sort : {V : Type 0} → List (Job V) → List (Job V)
unfolding insert
sort [] = []
sort (j ∷ js) = insert j (sort js)

-- `runAt - now`, where it is positive
abbrev pub delay_until : ℤ → ℕ → ℕ
delay_until (pos a) t = a - t
delay_until (negsuc a) t = 0

-- The rejections of all pending jobs.
abbrev pub reject_all :
    {V R X : Type 0} → Rejection X → List (Job V) → List (Job V × Settlement R X)
reject_all reason [] = []
reject_all reason (j ∷ js) = (j, rejected reason) ∷ reject_all reason js

module _ {V R X : Type 0} where
  abbrev pub state_of : Queue V R X → QueueState
  state_of s = record {
    pending = length s.pending;
    running = s.running;
    paused = s.paused;
    closed = s.closed;
    concurrency = s.concurrency;
  }

  abbrev pub emit : Event V R X → Queue V R X → Queue V R X
  emit e s = record s { events = s.events ++ e ∷ [] }

  abbrev pub tick : Queue V R X → Queue V R X
  tick s = record s { now_calls = suc s.now_calls }

  abbrev pub insert_pending : Job V → Queue V R X → Queue V R X
  insert_pending j s = record s { pending = sort (s.pending ++ j ∷ []) }

  unfoldable pub reject_pending : Rejection X → Queue V R X → Queue V R X
  reject_pending reason s = record s {
    pending = [];
    settled = s.settled ++ reject_all reason s.pending;
  }

  abbrev pub clear_scheduled_work : Queue V R X → Queue V R X
  clear_scheduled_work s = record s { timer = none; immediate = false }

  -- The waiters are resolved; `close` goes on when its own waiter is.
  abbrev pub release_waiters : Queue V R X → Queue V R X
  release_waiters s = record s {
    idle_waiters = [];
    close_ready = s.close_ready || awaits_close s.idle_waiters;
  }

  unfoldable pub flush_idle_waiters : Queue V R X → Queue V R X
  flush_idle_waiters s =
      if ltb 0 (length s.pending) || ltb 0 s.running
      then s
      else emit (drained (state_of s)) (release_waiters s)

  abbrev pub force_release_idle_waiters : Queue V R X → Queue V R X
  force_release_idle_waiters s = emit (drained (state_of s)) (release_waiters s)

module _ {V R X : Type 0} (now : ℕ → ℕ) where
  -- The end of `arm`: a timer or an immediate for the first pending job.
  abbrev pub schedule_for : Job V → Queue V R X → Queue V R X
  schedule_for j s =
      let delay = delay_until j.run_at (now s.now_calls) in
      if ltb 0 delay
      then record (tick s) { timer = some delay }
      else record (tick s) { immediate = true }

  unfoldable pub schedule : List (Job V) → Queue V R X → Queue V R X
  unfolding flush_idle_waiters
  schedule [] s = flush_idle_waiters s
  schedule (j ∷ js) s = schedule_for j s

  unfoldable pub arm : Queue V R X → Queue V R X
  unfolding schedule
  arm s =
      if s.closed || s.paused
      then s
      else if leb s.concurrency s.running
      then s
      else schedule s.pending (clear_scheduled_work s)

  abbrev pub start : Job V → Queue V R X → Queue V R X
  start j s =
      emit (started j (now s.now_calls))
        (record (tick s) { running = suc s.running; in_flight = s.in_flight ++ j ∷ [] })

  -- The end of `pump`, after its loop.
  unfoldable pub finish_pump : Queue V R X → Queue V R X
  unfolding flush_idle_waiters arm
  finish_pump s =
      if eqb (length s.pending) 0 && eqb s.running 0
      then flush_idle_waiters s
      else if ltb s.running s.concurrency && ltb 0 (length s.pending)
      then arm s
      else s

  -- The loop of `pump`; the list is the pending jobs.
  unfoldable pub pump_loop : List (Job V) → Queue V R X → Queue V R X
  unfolding finish_pump arm
  pump_loop [] s = finish_pump s
  pump_loop (j ∷ js) s =
      let rest = pump_loop js (start j (record (tick s) { pending = js })) in
      if ltb s.running s.concurrency
      then if lt_int (pos (now s.now_calls)) j.run_at then arm (tick s) else rest
      else finish_pump s

  unfoldable pub pump : Queue V R X → Queue V R X
  unfolding pump_loop
  pump s = if s.closed || s.paused then s else pump_loop s.pending s
