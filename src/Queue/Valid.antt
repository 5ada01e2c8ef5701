-- ===== src/Queue/Valid.antt =====
-- Every sequence of calls and callbacks keeps the queue of packages/plugin-queue-memory/src/index.ts
-- valid.
use generic_ai.Base.{
  ℕ, zero, suc, ◌≤◌, ◌≡◌, refl, ◌∙◌, ap, false, ◌||◌, Option, none, some, List, [], ◌∷◌, ◌++◌,
  length, length-append, All-map, All-append, get_or, arith, if_cases, option_cases, subst,
}
use mathlib.Core.Option.{some-injective}
use generic_ai.Base.Exec.{ok, result_cases, ok-injective}
use generic_ai.Queue.Types.{
  Number, finite, not_finite, pos, negsuc, Job, enqueued, QueueJob, AbortReason, normalize_limit,
}
use generic_ai.Queue.{Queue, tick, emit, insert_pending, sort}
use generic_ai.Queue.Calls.{
  new_queue, at_capacity, EnqueueAnswer, aborted_reason, snapshot_of, add_entry, enqueue,
}
use generic_ai.Queue.Sorted.{sort-Sorted, All-sort, length-sort}
use generic_ai.Queue.Invariant.{IsCore, IsWithin}
use generic_ai.Queue.Steps.{
  Step, enqueues, pauses, resumes, drains, closes, clears, aborts, timer_fires, immediate_fires,
  handler_ends, finally_runs, close_ends, IsValid, step, steps, snapshot-sequence,
}
use generic_ai.Queue.Kept.{arm-IsValid, pause-IsValid, resume-IsValid, drain-IsValid, close-IsValid}
use generic_ai.Queue.Callbacks.{
  clear-IsValid, on_timer-IsValid, on_immediate-IsValid, on_finally-IsValid, finish_close-IsValid,
  on_abort-IsValid, on_handler-IsValid,
}

IsWithin-more : (m n : ℕ) (o : Option ℕ) → n ≡ suc m → at_capacity m o ≡ false → IsWithin n o
IsWithin-more m n none h r = tt
IsWithin-more m n (some k) h r = ground arith

module _ {V R X : Type 0} (now : ℕ → ℕ) where
  -- A new job is inserted into the pending jobs of a queue that takes jobs.
  insert-IsCore :
      (j : Job V) (s : Queue V R X)
      → (s.closed || s.closing) ≡ false
      → at_capacity (length s.pending) s.max_pending ≡ false
      → j.sequence ≤ suc s.sequence
      → IsCore s
      → IsCore (record s { sequence = suc s.sequence; pending = sort (s.pending ++ j ∷ []) })
  insert-IsCore j s takes room below (counted, (sorted, numbered, fits), (a, b, c, d)) = (
    counted,
    (
      sort-Sorted (s.pending ++ j ∷ []),
      All-sort (λ k. k.sequence ≤ suc s.sequence) (s.pending ++ j ∷ [])
          (All-append (λ k. k.sequence ≤ suc s.sequence) s.pending (j ∷ [])
            (All-map (λ k. k.sequence ≤ s.sequence) (λ k. k.sequence ≤ suc s.sequence)
              (λ k h. omega arith) s.pending numbered)
            (below, tt)),
      IsWithin-more (length s.pending) (length (sort (s.pending ++ j ∷ []))) s.max_pending
          (length-sort (s.pending ++ j ∷ []) ∙ length-append s.pending (j ∷ []) ∙ omega arith) room,
    ),
    (
      λ h. absurd (ground (arith, h, takes)),
      λ h. let closing = (b h).0 in absurd (ground (arith, closing, takes)),
      c,
      d,
    ),
  )

  -- A number is given out.
  count-IsCore : (s : Queue V R X) → IsCore s → IsCore (record s { sequence = suc s.sequence })
  count-IsCore s (counted, (sorted, numbered, fits), shut) = (
    counted,
    (
      sorted,
      All-map (λ k. k.sequence ≤ s.sequence) (λ k. k.sequence ≤ suc s.sequence) (λ k h. omega arith)
          s.pending numbered,
      fits,
    ),
    shut,
  )

  add_entry-IsValid :
      (reason : Option AbortReason) (j : Job V) (s : Queue V R X)
      → (s.closed || s.closing) ≡ false
      → at_capacity (length s.pending) s.max_pending ≡ false
      → j.sequence ≡ suc s.sequence
      → IsValid s
      → IsValid (add_entry now reason j (tick (record s { sequence = suc s.sequence }))).1
  unfolding add_entry
  add_entry-IsValid (some reason) j s takes room same (core, awake, p) =
      (count-IsCore s core, awake, p)
  add_entry-IsValid none j s takes room same (core, awake, p) =
      arm-IsValid now
        (emit (enqueued j) (insert_pending j (tick (record s { sequence = suc s.sequence }))))
        (insert-IsCore j s takes room (omega (arith, same)) core) p

  abbrev AnswerIsValid : EnqueueAnswer × Queue V R X → Type 0
  AnswerIsValid x = IsValid x.1

  enqueue-IsValid : (job : QueueJob V) (s : Queue V R X) → IsValid s → IsValid (enqueue now job s).1
  unfolding enqueue
  enqueue-IsValid job s (core, awake, p) =
      if_cases AnswerIsValid (s.closed || s.closing) (λ e. (core, awake, p))
        (λ e.
          if_cases AnswerIsValid (at_capacity (length s.pending) s.max_pending)
            (λ f. (core, awake, p))
            (λ f.
              result_cases AnswerIsValid (snapshot_of job (suc s.sequence) (now s.now_calls)) _ _
                (λ x g. (count-IsCore s core, awake, p))
                (λ j g.
                  add_entry-IsValid (aborted_reason job.signal) j s e f
                    (snapshot-sequence job (suc s.sequence) (now s.now_calls) j g)
                    (core, awake, p))))

  step-IsValid : (x : Step V R X) (s : Queue V R X) → IsValid s → IsValid (step now x s)
  unfolding step
  step-IsValid (enqueues job) s h = enqueue-IsValid job s h
  step-IsValid pauses s h = pause-IsValid now s h
  step-IsValid resumes s h = resume-IsValid now s h
  step-IsValid drains s h = drain-IsValid now s h
  step-IsValid (closes wait) s h = close-IsValid now wait s h
  step-IsValid (clears reason) s h = clear-IsValid now reason s h
  step-IsValid (aborts n reason) s h = on_abort-IsValid now n reason s h
  step-IsValid timer_fires s h = on_timer-IsValid now s h
  step-IsValid immediate_fires s h = on_immediate-IsValid now s h
  step-IsValid (handler_ends n outcome) s h = on_handler-IsValid now n outcome s h
  step-IsValid finally_runs s h = on_finally-IsValid now s h
  step-IsValid close_ends s h = finish_close-IsValid now s h

  -- From a valid queue every sequence of calls and callbacks, in any order, leads to a valid queue.
  -- In it the running jobs are counted and at most `concurrency`, the pending jobs are in order
  -- and at most `maxPending`, a closed queue has none, `close` goes on only when the queue is idle,
  -- and whenever an open queue that is not paused could start a pending job, a timer or an
  -- immediate is scheduled, and nobody waits for an idle queue to be idle.
  pub steps-IsValid :
      (xs : List (Step V R X)) (s : Queue V R X) → IsValid s → IsValid (steps now xs s)
  unfolding steps
  steps-IsValid [] s h = h
  steps-IsValid (x ∷ xs) s h = steps-IsValid xs (step now x s) (step-IsValid x s h)

limit_positive : (limit : Option Number) (n : ℕ) → normalize_limit limit ≡ ok (some n) → 1 ≤ n
unfolding normalize_limit
limit_positive none n h = absurd (some-not (ok-injective h))
  where
    some-not : none ≡ some n → ⊥
    some-not e = cc
limit_positive (some not_finite) n h = cc
limit_positive (some (finite (negsuc m))) n h = cc
limit_positive (some (finite (pos zero))) n h = cc
limit_positive (some (finite (pos (suc m)))) n h =
    omega (arith, some-injective _ _ (ok-injective h))

IsWithin-none : (m : Option ℕ) → IsWithin 0 m
IsWithin-none none = tt
IsWithin-none (some k) = omega arith

-- A new queue is valid.
pub new_queue-IsValid :
    {V R X : Type 0} (concurrency max_pending : Option Number) (s : Queue V R X)
    → new_queue concurrency max_pending ≡ ok s
    → IsValid s
unfolding new_queue
new_queue-IsValid {V} {R} {X} concurrency max_pending s =
    result_cases (λ r. r ≡ ok s → IsValid s)
      (normalize_limit (some (get_or concurrency (Number.finite (pos 1))))) _ _ (λ e f h. cc)
      (λ limit f.
        option_cases (λ r. r ≡ ok s → IsValid s) limit _ _ (λ g h. cc)
          (λ n g.
            result_cases (λ r. r ≡ ok s → IsValid s) (normalize_limit max_pending) _ _ (λ e k h. cc)
              (λ m k h. subst IsValid (ok-injective h) (
                (
                  (
                    limit_positive (some (get_or concurrency (Number.finite (pos 1)))) n
                        (f ∙ ap (λ l. ok l) g),
                    omega arith,
                    omega arith,
                  ),
                  (tt, tt, IsWithin-none m),
                  (λ h. cc, λ h. cc, λ h. cc, λ h. refl),
                ),
                λ c p r. (λ h. absurd (omega arith), λ h k. refl),
                λ h. cc,
              ))))
