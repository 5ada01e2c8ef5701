-- ===== src/Queue/Calls.antt =====
-- The methods of `InMemoryQueue` (packages/plugin-queue-memory/src/index.ts), and what the event
-- loop runs of it: the callbacks of the timer and the immediate, the promises of a handler, the
-- abort listener and the end of `close`.
use generic_ai.Base.{
  ℕ, zero, String, suc, ◌-◌, Bool, true, false, not, ◌&&◌, ◌||◌, Option, none, some, List, [], ◌∷◌,
  ◌++◌, length, if◌then◌else◌, leb, eqb, get_or,
}
use generic_ai.Base.Exec.{Result, ok, err}
use generic_ai.Queue.Types.{
  Number, pos, Signal, AbortReason, QueueJob, Job, JobId, given_id, numbered, Waiter, drain_waiter,
  close_waiter, Settlement, resolved, rejected, Rejection, queue_closed, handler_error, given,
  Event, enqueued, completed, failed, paused_event, resumed, closed_event, cleared, TypeError,
  normalize_run_at, normalize_priority, normalize_limit, to_abort_error,
}
use generic_ai.Queue.{
  Queue, state_of, emit, tick, insert_pending, reject_pending, clear_scheduled_work,
  force_release_idle_waiters, arm, pump,
}

-- What `enqueue` answers: a promise for the job, a rejected promise, or a thrown `TypeError`.
pub data EnqueueAnswer : Type 0 where
  accepted rejected_closed rejected_capacity rejected_aborted : EnqueueAnswer
  throws : TypeError → EnqueueAnswer

-- `pending.length >= maxPending`
abbrev pub at_capacity : ℕ → Option ℕ → Bool
at_capacity n none = false
at_capacity n (some m) = leb m n

abbrev pub job_id : Option String → ℕ → JobId
job_id none n = numbered n
job_id (some id) n = given_id id

-- The record of a new job: the first throw is for the priority.
unfoldable pub snapshot_of : {V : Type 0} → QueueJob V → ℕ → ℕ → Result TypeError (Job V)
unfolding normalize_priority normalize_run_at
snapshot_of job sequence enqueued_at = elim (normalize_priority job.priority) [
  | err e ↦ err e
  | ok priority ↦ elim (normalize_run_at job.run_at) [
    | err e ↦ err e
    | ok run_at ↦ ok (record {
      id = job_id job.id sequence;
      name = job.name;
      payload = job.payload;
      priority = priority;
      run_at = run_at;
      enqueued_at = enqueued_at;
      sequence = sequence;
      signal = elim job.signal [ none ↦ false | some signal ↦ true ];
      metadata = job.metadata;
    })
  ]
]

abbrev pub aborted_reason : Option Signal → Option AbortReason
aborted_reason none = none
aborted_reason (some signal) = if signal.aborted then some signal.reason else none

abbrev pub settlement_of : {R X : Type 0} → Result X R → Settlement R X
settlement_of (ok result) = resolved result
settlement_of (err e) = rejected (handler_error e)

module _ {V R X : Type 0} where
  -- new InMemoryQueue(handler, { concurrency, maxPending })
  unfoldable pub new_queue : Option Number → Option Number → Result TypeError (Queue V R X)
  unfolding normalize_limit
  new_queue concurrency max_pending =
      elim (normalize_limit (some (get_or concurrency (Number.finite (pos 1))))) [
        | err e ↦ err e
        | ok none ↦ err TypeError.bad_limit
        | ok (some n) ↦ elim (normalize_limit max_pending) [
          | err e ↦ err e
          | ok m ↦ ok (record {
            concurrency = n;
            max_pending = m;
            pending = [];
            running = 0;
            sequence = 0;
            paused = false;
            closing = false;
            closed = false;
            timer = none;
            immediate = false;
            idle_waiters = [];
            close_promise = false;
            now_calls = 0;
            in_flight = [];
            finishing = 0;
            close_ready = false;
            settled = [];
            events = [];
          })
        ]
      ]

  unfoldable pub pause : Queue V R X → Queue V R X
  pause s =
      if s.paused || s.closed
      then s
      else let t = clear_scheduled_work (record s { paused = true }) in
        emit (paused_event (state_of t)) t

  -- The continuation of `close` when its `drain` is over.
  unfoldable pub finish_close : Queue V R X → Queue V R X
  finish_close s =
      let t =
        clear_scheduled_work (record s {
          closed = true;
          closing = false;
          close_ready = false;
          close_promise = false;
        }) in
      if s.close_ready then emit (closed_event (state_of t)) t else s

-- `reason: unknown = new QueueClosedError()`
abbrev pub clear_reason : {X : Type 0} → Option X → Rejection X
clear_reason none = queue_closed
clear_reason (some x) = given x

-- The entry with a sequence number leaves a list.
unfoldable pub take_out : {V : Type 0} → ℕ → List (Job V) → Option (Job V × List (Job V))
take_out n [] = none
take_out n (j ∷ js) =
    let rest = take_out n js in
    if eqb j.sequence n
    then some (j, js)
    else elim rest [ none ↦ none | some (k, ks) ↦ some (k, j ∷ ks) ]

module _ {V R X : Type 0} (now : ℕ → ℕ) where
  -- `enqueue` once the snapshot is made.
  unfoldable pub add_entry : Option AbortReason → Job V → Queue V R X → EnqueueAnswer × Queue V R X
  unfolding arm to_abort_error
  add_entry (some reason) j s = (
    EnqueueAnswer.rejected_aborted,
    record s { settled = s.settled ++ (j, rejected (to_abort_error reason)) ∷ [] },
  )
  add_entry none j s = (EnqueueAnswer.accepted, arm now (emit (enqueued j) (insert_pending j s)))

  unfoldable pub enqueue : QueueJob V → Queue V R X → EnqueueAnswer × Queue V R X
  unfolding snapshot_of add_entry
  enqueue job s =
      if s.closed || s.closing
      then (EnqueueAnswer.rejected_closed, s)
      else if at_capacity (length s.pending) s.max_pending
      then (EnqueueAnswer.rejected_capacity, s)
      else let t = tick (record s { sequence = suc s.sequence }) in
        elim (snapshot_of job t.sequence (now s.now_calls)) [
          | err e ↦ (EnqueueAnswer.throws e, t)
          | ok j ↦ add_entry (aborted_reason job.signal) j t
        ]

  unfoldable pub resume : Queue V R X → Queue V R X
  unfolding arm
  resume s =
      if not s.paused || s.closed
      then s
      else let t = record s { paused = false } in arm now (emit (resumed (state_of t)) t)

  -- `drain`, called by its user or by `close`.
  unfoldable pub drain : Waiter → Queue V R X → Queue V R X
  unfolding arm
  drain waiter s =
      if eqb (length s.pending) 0 && eqb s.running 0
      then elim waiter [ drain_waiter ↦ s | close_waiter ↦ record s { close_ready = true } ]
      else arm now (record s { idle_waiters = s.idle_waiters ++ waiter ∷ [] })

  -- `close({ drain: false })` after its guards
  unfoldable pub close_now : Queue V R X → Queue V R X
  unfolding reject_pending
  close_now s =
      let t = record (reject_pending queue_closed (record s { closing = true })) {
        paused = false;
        closed = true;
        closing = false;
      } in
      let u = force_release_idle_waiters (clear_scheduled_work t) in
      emit (closed_event (state_of u)) u

  -- `close(options)`; the argument is `options.drain !== false`.
  unfoldable pub close : Bool → Queue V R X → Queue V R X
  unfolding close_now drain arm
  close drains s =
      if s.closed
      then s
      else if s.close_promise
      then s
      else if not drains
      then close_now s
      else record (drain close_waiter (arm now (record s { closing = true; paused = false }))) {
        close_promise = true;
      }

  unfoldable pub clear : Option X → Queue V R X → ℕ × Queue V R X
  unfolding reject_pending arm
  clear reason s =
      let n = length s.pending in
      if eqb n 0
      then (0, s)
      else (n, emit (cleared n) (arm now (reject_pending (clear_reason reason) s)))

  -- The abort listener of the job with this sequence number.
  unfoldable pub on_abort : ℕ → AbortReason → Queue V R X → Queue V R X
  unfolding take_out arm to_abort_error
  on_abort n reason s = elim (take_out n s.pending) [
    | none ↦ s
    | some (j, rest) ↦
        if j.signal
        then arm now (record s {
          pending = rest;
          settled = s.settled ++ (j, rejected (to_abort_error reason)) ∷ [];
        })
        else s
  ]

  -- The callbacks of the timer and of the immediate.
  unfoldable pub on_timer : Queue V R X → Queue V R X
  unfolding pump
  on_timer s = elim s.timer [ none ↦ s | some delay ↦ pump now (record s { timer = none }) ]

  unfoldable pub on_immediate : Queue V R X → Queue V R X
  unfolding pump
  on_immediate s = if s.immediate then pump now (record s { immediate = false }) else s

  abbrev pub outcome_event : Job V → Result X R → Event V R X
  outcome_event j (ok result) = completed j result
  outcome_event j (err e) = failed j e

  -- The handler of a running job has returned or failed.
  unfoldable pub on_handler : ℕ → Result X R → Queue V R X → Queue V R X
  unfolding take_out
  on_handler n outcome s = elim (take_out n s.in_flight) [
    | none ↦ s
    | some (j, rest) ↦ emit (outcome_event j outcome) (record s {
      in_flight = rest;
      finishing = suc s.finishing;
      settled = s.settled ++ (j, settlement_of outcome) ∷ [];
    })
  ]

  -- The `finally` of a settled job.
  unfoldable pub on_finally : Queue V R X → Queue V R X
  unfolding arm
  on_finally s = elim s.finishing [
    | zero ↦ s
    | suc n ↦ arm now (record s { finishing = n; running = s.running - 1 })
  ]
