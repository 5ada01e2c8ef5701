-- ===== src/Queue/Conservation.antt =====
-- No job of the queue of packages/plugin-queue-memory/src/index.ts is lost or settled twice: every
-- numbered job is pending, in flight or settled, once.
use generic_ai.Base.{
  ℕ, suc, ◌+◌, ◌-◌, ◌≡◌, refl, ◌∙◌, ap, Bool, true, false, not, ◌||◌, ◌&&◌, Option, none, some,
  List, [], ◌∷◌, ◌++◌, length, ltb, eqb, arith, Bool-cases, if_cases, option_cases, inl, inr,
}
use generic_ai.Base.Exec.{Result, result_cases}
use generic_ai.Queue.Types.{
  pos, Job, lt_int, is_before, QueueJob, AbortReason, Waiter, drain_waiter, close_waiter,
  Settlement, Rejection, queue_closed, rejected, enqueued, resumed, to_abort_error,
}
use generic_ai.Queue.{
  Queue, insert, sort, tick, emit, state_of, insert_pending, reject_all, reject_pending, arm, start,
  pump_loop, pump,
}
use generic_ai.Queue.Calls.{
  EnqueueAnswer, accepted, rejected_aborted, enqueue, pause, resume, drain, close, close_now, clear,
  on_abort, on_timer, on_immediate, on_handler, on_finally, finish_close, take_out, add_entry,
  snapshot_of, aborted_reason, clear_reason, at_capacity, settlement_of,
}
use generic_ai.Queue.Sorted.{Taken, here, there, take_out-Taken}
use generic_ai.Queue.Frame.{Keeps, arm-Keeps, finish_pump-Keeps}
use generic_ai.Queue.Invariant.{pump_loop-full, pump_loop-early, pump_loop-start}
use generic_ai.Queue.Steps.{
  Step, enqueues, pauses, resumes, drains, closes, clears, aborts, timer_fires, immediate_fires,
  handler_ends, finally_runs, close_ends, step, snapshot-sequence, nat_cases,
}

abbrev pub one_if : Bool → ℕ
one_if true = 1
one_if false = 0

plus_zero : {m k : ℕ} → m ≡ k → m ≡ k + 0
plus_zero e = omega (arith, e)

-- How often a sequence number stands among jobs, and among settled jobs.
abbrev pub count : {V : Type 0} → ℕ → List (Job V) → ℕ
count n [] = 0
count n (j ∷ js) = one_if (eqb j.sequence n) + count n js

abbrev pub count_settled : {V R X : Type 0} → ℕ → List (Job V × Settlement R X) → ℕ
count_settled n [] = 0
count_settled n ((j, r) ∷ js) = one_if (eqb j.sequence n) + count_settled n js

module _ {V : Type 0} (n : ℕ) where
  count-append : (js ks : List (Job V)) → count n (js ++ ks) ≡ count n js + count n ks
  count-append [] ks = omega arith
  count-append (j ∷ js) ks = omega (arith, count-append js ks)

  count-insert :
      (j : Job V) (ks : List (Job V))
      → count n (insert j ks) ≡ one_if (eqb j.sequence n) + count n ks
  unfolding insert
  count-insert j [] = refl
  count-insert j (k ∷ ks) = elim (Bool-cases (is_before j k)) [
    | inl e ↦ rw e refl
    | inr e ↦ rw e (omega (arith, count-insert j ks))
  ]

  count-sort : (js : List (Job V)) → count n (sort js) ≡ count n js
  unfolding sort
  count-sort [] = refl
  count-sort (j ∷ js) = omega (arith, count-insert j (sort js), count-sort js)

  count-Taken :
      (m : ℕ) (js : List (Job V)) (j : Job V) (rest : List (Job V))
      → Taken m js j rest
      → count n js ≡ one_if (eqb j.sequence n) + count n rest
  count-Taken m [] j rest t = elim t [ ]
  count-Taken m (k ∷ js) j rest (here e) = refl
  count-Taken m (k ∷ js) j (k' ∷ rest) (there t) = omega (arith, count-Taken m js j rest t)

count_settled-reject_all :
    {V X : Type 0} (R : Type 0) (n : ℕ) (reason : Rejection X) (js : List (Job V))
    → count_settled n (reject_all {R = R} reason js) ≡ count n js
count_settled-reject_all R n reason [] = refl
count_settled-reject_all R n reason (j ∷ js) = omega (arith, count_settled-reject_all R n reason js)

module _ {V R X : Type 0} (n : ℕ) where
  count_settled-append :
      (js ks : List (Job V × Settlement R X))
      → count_settled n (js ++ ks) ≡ count_settled n js + count_settled n ks
  count_settled-append [] ks = omega arith
  count_settled-append ((j, r) ∷ js) ks = omega (arith, count_settled-append js ks)

  -- How often the number stands in the queue.
  abbrev pub tracked : Queue V R X → ℕ
  tracked s = count n s.pending + count n s.in_flight + count_settled n s.settled

  Keeps-tracked : (s t : Queue V R X) → Keeps s t → tracked t ≡ tracked s
  Keeps-tracked s t k = rw (k.pending, k.in_flight, k.settled) refl

  module _ (now : ℕ → ℕ) where
    arm-tracked : (s : Queue V R X) → tracked (arm now s) ≡ tracked s
    arm-tracked s = Keeps-tracked s (arm now s) (arm-Keeps now s)

    pump_loop-tracked :
        (js : List (Job V)) (s : Queue V R X)
        → s.pending ≡ js
        → tracked (pump_loop now js s) ≡ tracked s
    pump_loop-tracked [] s e = unfold pump_loop in Keeps-tracked s _ (finish_pump-Keeps now s)
    pump_loop-tracked (j ∷ js) s e = elim (Bool-cases (ltb s.running s.concurrency)) [
      | inr f ↦
          ap tracked (pump_loop-full now j js s f) ∙ Keeps-tracked s _ (finish_pump-Keeps now s)
      | inl f ↦ elim (Bool-cases (lt_int (pos (now s.now_calls)) j.run_at)) [
        | inl g ↦ ap tracked (pump_loop-early now j js s f g) ∙ arm-tracked (tick s)
        | inr g ↦
            ap tracked (pump_loop-start now j js s f g)
            ∙ pump_loop-tracked js (start now j (record (tick s) { pending = js })) refl
            ∙ omega (arith, count-append n s.in_flight (j ∷ []), ap (count n) e)
      ]
    ]

    pump-tracked : (s : Queue V R X) → tracked (pump now s) ≡ tracked s
    unfolding pump
    pump-tracked s =
        if_cases (λ t. tracked t ≡ tracked s) (s.closed || s.paused) (λ e. refl)
          (λ e. pump_loop-tracked s.pending s refl)

    drain-tracked : (w : Waiter) (s : Queue V R X) → tracked (drain now w s) ≡ tracked s
    unfolding drain
    drain-tracked drain_waiter s =
        if_cases (λ t. tracked t ≡ tracked s) (eqb (length s.pending) 0 && eqb s.running 0)
          (λ e. refl)
          (λ e. arm-tracked (record s { idle_waiters = s.idle_waiters ++ drain_waiter ∷ [] }))
    drain-tracked close_waiter s =
        if_cases (λ t. tracked t ≡ tracked s) (eqb (length s.pending) 0 && eqb s.running 0)
          (λ e. refl)
          (λ e. arm-tracked (record s { idle_waiters = s.idle_waiters ++ close_waiter ∷ [] }))

    reject_pending-tracked :
        (reason : Rejection X) (s : Queue V R X) → tracked (reject_pending reason s) ≡ tracked s
    unfolding reject_pending
    reject_pending-tracked reason s = omega (
      arith,
      count_settled-append s.settled (reject_all reason s.pending),
      count_settled-reject_all R n reason s.pending,
    )

    -- The number that a step gives to a new job.
    abbrev numbered_by : EnqueueAnswer → Queue V R X → ℕ
    numbered_by accepted s = one_if (eqb (suc s.sequence) n)
    numbered_by rejected_aborted s = one_if (eqb (suc s.sequence) n)
    numbered_by _ s = 0

    abbrev pub added : Step V R X → Queue V R X → ℕ
    added (enqueues job) s = numbered_by (enqueue now job s).0 s
    added _ s = 0

    abbrev Same : Queue V R X → Queue V R X → Type 0
    Same s t = tracked t ≡ tracked s + 0

    abbrev Adds : Queue V R X → EnqueueAnswer × Queue V R X → Type 0
    Adds s x = tracked x.1 ≡ tracked s + numbered_by x.0 s

    add_entry-Adds :
        (reason : Option AbortReason) (j : Job V) (s : Queue V R X)
        → j.sequence ≡ suc s.sequence
        → Adds s (add_entry now reason j (tick (record s { sequence = suc s.sequence })))
    unfolding add_entry
    add_entry-Adds (some reason) j s e = omega (
      arith,
      count_settled-append s.settled ((j, rejected (to_abort_error reason)) ∷ []),
      ap (λ m. one_if (eqb m n)) e,
    )
    add_entry-Adds none j s e = omega (
      arith,
      arm-tracked
          (emit (enqueued j) (insert_pending j (tick (record s { sequence = suc s.sequence })))),
      count-sort n (s.pending ++ j ∷ []),
      count-append n s.pending (j ∷ []),
      ap (λ m. one_if (eqb m n)) e,
    )

    enqueue-Adds : (job : QueueJob V) (s : Queue V R X) → Adds s (enqueue now job s)
    unfolding enqueue
    enqueue-Adds job s =
        if_cases (Adds s) (s.closed || s.closing) (λ e. omega arith)
          (λ e.
            if_cases (Adds s) (at_capacity (length s.pending) s.max_pending) (λ f. omega arith)
              (λ f.
                result_cases (Adds s) (snapshot_of job (suc s.sequence) (now s.now_calls)) _ _
                  (λ x g. omega arith)
                  (λ j g.
                    add_entry-Adds (aborted_reason job.signal) j s
                      (snapshot-sequence job (suc s.sequence) (now s.now_calls) j g))))

    close-tracked : (wait : Bool) (s : Queue V R X) → tracked (close now wait s) ≡ tracked s
    unfolding close close_now
    close-tracked wait s =
        if_cases (λ t. tracked t ≡ tracked s) s.closed (λ e. refl)
          (λ e.
            if_cases (λ t. tracked t ≡ tracked s) s.close_promise (λ f. refl)
              (λ f.
                if_cases (λ t. tracked t ≡ tracked s) (not wait)
                  (λ g. reject_pending-tracked queue_closed (record s { closing = true }))
                  (λ g.
                    drain-tracked close_waiter
                      (arm now (record s { closing = true; paused = false }))
                    ∙ arm-tracked (record s { closing = true; paused = false }))))

    clear-tracked :
        (reason : Option X) (s : Queue V R X) → tracked (clear now reason s).1 ≡ tracked s
    unfolding clear
    clear-tracked reason s =
        if_cases Clears (eqb (length s.pending) 0) (λ e. refl)
          (λ e.
            arm-tracked (reject_pending (clear_reason reason) s)
            ∙ reject_pending-tracked (clear_reason reason) s)
      where
        Clears : ℕ × Queue V R X → Type 0
        Clears x = tracked x.1 ≡ tracked s

    on_abort-tracked :
        (m : ℕ) (reason : AbortReason) (s : Queue V R X)
        → tracked (on_abort now m reason s) ≡ tracked s
    unfolding on_abort
    on_abort-tracked m reason s =
        option_cases (λ t. tracked t ≡ tracked s) (take_out m s.pending) s _ (λ e. refl)
          (λ (j, rest) e.
            if_cases (λ t. tracked t ≡ tracked s) j.signal
              (λ f.
                let more = (j, rejected (to_abort_error reason)) ∷ [] in
                arm-tracked (record s { pending = rest; settled = s.settled ++ more })
                ∙ omega (
                  arith,
                  count-Taken n m s.pending j rest (take_out-Taken m s.pending j rest e),
                  count_settled-append s.settled more,
                ))
              (λ f. refl))

    on_handler-tracked :
        (m : ℕ) (outcome : Result X R) (s : Queue V R X)
        → tracked (on_handler now m outcome s) ≡ tracked s
    unfolding on_handler
    on_handler-tracked m outcome s =
        option_cases (λ t. tracked t ≡ tracked s) (take_out m s.in_flight) s _ (λ e. refl)
          (λ (j, rest) e. omega (
            arith,
            count-Taken n m s.in_flight j rest (take_out-Taken m s.in_flight j rest e),
            count_settled-append s.settled ((j, settlement_of outcome) ∷ []),
          ))

    -- A step tracks no number that it did not give out, drops none and doubles none: every number
    -- stands as often among the pending, the running and the settled jobs as before, but the
    -- number that `enqueue` gives to an accepted or an aborted job stands there once more.
    pub step-tracked :
        (x : Step V R X) (s : Queue V R X) → tracked (step now x s) ≡ tracked s + added x s
    unfolding step pause resume on_timer on_immediate on_finally finish_close
    step-tracked (enqueues job) s = enqueue-Adds job s
    step-tracked pauses s =
        if_cases (Same s) (s.paused || s.closed) (λ e. omega arith) (λ e. omega arith)
    step-tracked resumes s =
        if_cases (Same s) (not s.paused || s.closed) (λ e. omega arith)
          (λ e. plus_zero (
            arm-tracked (
              emit (resumed (state_of (record s { paused = false })))
                (record s { paused = false }))))
    step-tracked drains s = plus_zero (drain-tracked drain_waiter s)
    step-tracked (closes wait) s = plus_zero (close-tracked wait s)
    step-tracked (clears reason) s = plus_zero (clear-tracked reason s)
    step-tracked (aborts m reason) s = plus_zero (on_abort-tracked m reason s)
    step-tracked timer_fires s =
        option_cases (Same s) s.timer s (λ delay. pump now (record s { timer = none }))
          (λ e. omega arith) (λ delay e. plus_zero (pump-tracked (record s { timer = none })))
    step-tracked immediate_fires s =
        if_cases (Same s) s.immediate
          (λ e. plus_zero (pump-tracked (record s { immediate = false }))) (λ e. omega arith)
    step-tracked (handler_ends m outcome) s = plus_zero (on_handler-tracked m outcome s)
    step-tracked finally_runs s =
        nat_cases (Same s) s.finishing s
          (λ m. arm now (record s { finishing = m; running = s.running - 1 })) (λ e. omega arith)
          (λ m e. plus_zero (arm-tracked (record s { finishing = m; running = s.running - 1 })))
    step-tracked close_ends s =
        if_cases (Same s) s.close_ready (λ e. omega arith) (λ e. omega arith)
