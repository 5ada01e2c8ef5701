-- ===== src/Queue/Stranded.antt =====
-- A closed queue of packages/plugin-queue-memory/src/index.ts releases nobody who waits for it to
-- be idle: `arm` does nothing any more, so a `drain` called while a job runs never returns.
use generic_ai.Base.{
  ℕ, ◌-◌, ◌≡◌, refl, sym, ◌∙◌, ap, true, false, not, ◌||◌, ◌&&◌, none, List, [], ◌∷◌, ◌++◌, length,
  eqb, arith, if_cases, option_cases, subst,
}
use mathlib.Core.List.{append-nil, append_assoc}
use generic_ai.Queue.Types.{Waiter, drain_waiter, rejected, to_abort_error}
use generic_ai.Queue.{Queue, arm, pump, reject_pending}
use generic_ai.Queue.Calls.{
  EnqueueAnswer, enqueue, pause, resume, drain, close, clear, clear_reason, on_abort, on_timer,
  on_immediate, on_handler, on_finally, finish_close, take_out,
}
use generic_ai.Queue.Steps.{
  Step, enqueues, pauses, resumes, drains, closes, clears, aborts, timer_fires, immediate_fires,
  handler_ends, finally_runs, close_ends, step, steps, nat_cases,
}

module _ {V R X : Type 0} where
  -- The queue is closed, and everyone who waited still does.
  abbrev pub StillWaits : Queue V R X → Queue V R X → Type 0
  StillWaits s t = (ws : List Waiter) × (t.closed ≡ true) × (t.idle_waiters ≡ s.idle_waiters ++ ws)

module _ {V R X : Type 0} (now : ℕ → ℕ) where
  arm_closed : (s : Queue V R X) → s.closed ≡ true → arm now s ≡ s
  unfolding arm
  arm_closed s e =
      if_cases (λ t. t ≡ s) (s.closed || s.paused) (λ f. refl) (λ f. absurd (ground arith))

  pump_closed : (s : Queue V R X) → s.closed ≡ true → pump now s ≡ s
  unfolding pump
  pump_closed s e =
      if_cases (λ t. t ≡ s) (s.closed || s.paused) (λ f. refl) (λ f. absurd (ground arith))

  module _ (s : Queue V R X) (e : s.closed ≡ true) where
    abbrev Stays : Queue V R X → Type 0
    Stays t = StillWaits s t

    stays : (t : Queue V R X) → t.closed ≡ true → t.idle_waiters ≡ s.idle_waiters → Stays t
    stays t c w = ([], c, w ∙ sym (append-nil s.idle_waiters))

    armed : (t : Queue V R X) → t.closed ≡ true → Stays t → Stays (arm now t)
    armed t c h = subst Stays (sym (arm_closed t c)) h

    abbrev AnswerStays : EnqueueAnswer × Queue V R X → Type 0
    AnswerStays x = Stays x.1

    abbrev ClearStays : ℕ × Queue V R X → Type 0
    ClearStays x = Stays x.1

    step-StillWaits : (x : Step V R X) → Stays (step now x s)
    unfolding step enqueue pause resume drain close clear on_abort on_timer on_immediate on_handler
        on_finally finish_close
    step-StillWaits (enqueues job) =
        if_cases AnswerStays (s.closed || s.closing) (λ f. stays s e refl)
          (λ f. absurd (ground arith))
    step-StillWaits pauses =
        if_cases Stays (s.paused || s.closed) (λ f. stays s e refl) (λ f. absurd (ground arith))
    step-StillWaits resumes =
        if_cases Stays (not s.paused || s.closed) (λ f. stays s e refl) (λ f. absurd (ground arith))
    step-StillWaits drains =
        if_cases Stays (eqb (length s.pending) 0 && eqb s.running 0) (λ f. stays s e refl)
          (λ f.
            armed (record s { idle_waiters = s.idle_waiters ++ drain_waiter ∷ [] }) e
              (drain_waiter ∷ [], e, refl))
    step-StillWaits (closes wait) = if_cases Stays s.closed (λ f. stays s e refl) (λ f. cc (e, f))
    step-StillWaits (clears reason) =
        if_cases ClearStays (eqb (length s.pending) 0) (λ f. stays s e refl)
          (λ f.
            unfold reject_pending in
            armed (reject_pending (clear_reason reason) s) e
              (stays (reject_pending (clear_reason reason) s) e refl))
    step-StillWaits (aborts m reason) =
        option_cases Stays (take_out m s.pending) s _ (λ f. stays s e refl)
          (λ (j, rest) f.
            if_cases Stays j.signal
              (λ g.
                let t = record s {
                  pending = rest;
                  settled = s.settled ++ (j, rejected (to_abort_error reason)) ∷ [];
                } in
                armed t e (stays t e refl))
              (λ g. stays s e refl))
    step-StillWaits timer_fires =
        option_cases Stays s.timer s (λ delay. pump now (record s { timer = none }))
          (λ f. stays s e refl)
          (λ delay f.
            subst Stays (sym (pump_closed (record s { timer = none }) e))
              (stays (record s { timer = none }) e refl))
    step-StillWaits immediate_fires =
        if_cases Stays s.immediate
          (λ f.
            subst Stays (sym (pump_closed (record s { immediate = false }) e))
              (stays (record s { immediate = false }) e refl))
          (λ f. stays s e refl)
    step-StillWaits (handler_ends m outcome) =
        option_cases Stays (take_out m s.in_flight) s _ (λ f. stays s e refl)
          (λ (j, rest) f. ([], e, sym (append-nil s.idle_waiters)))
    step-StillWaits finally_runs =
        nat_cases Stays s.finishing s
          (λ m. arm now (record s { finishing = m; running = s.running - 1 })) (λ f. stays s e refl)
          (λ m f.
            let t = record s { finishing = m; running = s.running - 1 } in
            armed t e (stays t e refl))
    step-StillWaits close_ends =
        if_cases Stays s.close_ready (λ f. ([], refl, sym (append-nil s.idle_waiters)))
          (λ f. stays s e refl)

  -- Whatever is called and whichever callbacks run on a closed queue, it stays closed, and whoever
  -- waits for it to be idle waits on.
  pub steps-StillWaits :
      (xs : List (Step V R X)) (s : Queue V R X) → s.closed ≡ true → StillWaits s (steps now xs s)
  unfolding steps
  steps-StillWaits [] s e = ([], e, sym (append-nil s.idle_waiters))
  steps-StillWaits (x ∷ xs) s e =
      let (ws, c, w) = step-StillWaits s e x in
      let (vs, d, v) = steps-StillWaits xs (step now x s) c in
      (ws ++ vs, d, v ∙ ap (λ l. l ++ vs) w ∙ append_assoc s.idle_waiters ws vs)
