-- ===== src/Queue/Invariant.antt =====
-- The invariant of the queue of packages/plugin-queue-memory/src/index.ts, and that `arm` and
-- `pump` keep it and never leave a ready job without a wake-up.
use generic_ai.Base.{
  ℕ, ◌+◌, ◌<◌, ◌≤◌, ◌≡◌, refl, sym, ap, true, false, ◌&&◌, ◌||◌, Option, none, some, List, [], ◌∷◌,
  length, length-append, All, ltb, leb, eqb, ltb→lt, is_some, arith, Bool-cases, subst, inl, inr,
}
use generic_ai.Queue.Types.{pos, Job, lt_int}
use generic_ai.Queue.{
  Queue, awaits_close, tick, clear_scheduled_work, flush_idle_waiters, schedule, arm, start,
  finish_pump, pump_loop, pump, delay_until,
}
use generic_ai.Queue.Sorted.{Sorted}
use generic_ai.Queue.Frame.{arm-Keeps, finish_pump-Keeps}

abbrev pub IsWithin : ℕ → Option ℕ → Type 0
IsWithin n none = Unit
IsWithin n (some m) = n ≤ m

module _ {V R X : Type 0} where
  -- `running` counts the jobs whose handler runs or whose `finally` is to come, up to the limit.
  abbrev pub IsCounted : Queue V R X → Type 0
  IsCounted s =
      (1 ≤ s.concurrency)
      × (s.running ≤ s.concurrency)
      × (s.running ≡ length s.in_flight + s.finishing)

  -- The pending jobs are in order, have numbers given out, and are not too many.
  abbrev pub IsLine : Queue V R X → Type 0
  IsLine s =
      Sorted s.pending
      × All (λ j. j.sequence ≤ s.sequence) s.pending
      × IsWithin (length s.pending) s.max_pending

  -- A closed queue has no pending job, and `close` goes on only when the queue is idle.
  abbrev pub IsShut : Queue V R X → Type 0
  IsShut s =
      (s.closed ≡ true → length s.pending ≡ 0)
      × (s.close_ready ≡ true → (s.closing ≡ true) × (length s.pending ≡ 0) × (s.running ≡ 0))
      × (awaits_close s.idle_waiters ≡ true → s.closing ≡ true)
      × (s.close_ready ≡ true → awaits_close s.idle_waiters ≡ false)

  abbrev pub IsCore : Queue V R X → Type 0
  IsCore s = IsCounted s × IsLine s × IsShut s

  -- If the queue could start a job, a timer or an immediate is scheduled; if it is idle, no one
  -- waits for that.
  abbrev pub IsAwake : Queue V R X → Type 0
  IsAwake s =
      s.closed ≡ false
      → s.paused ≡ false
      → s.running < s.concurrency
      → (0 < length s.pending → (is_some s.timer || s.immediate) ≡ true)
        × (length s.pending ≡ 0 → s.running ≡ 0 → s.idle_waiters ≡ [])

  flush-IsCore : (s : Queue V R X) → IsCore s → IsCore (flush_idle_waiters s)
  unfolding flush_idle_waiters
  flush-IsCore s (counted, line, (a, b, c, d)) =
      elim (Bool-cases (ltb 0 (length s.pending) || ltb 0 s.running)) [
        | inl busy ↦ rw busy (counted, line, (a, b, c, d))
        | inr idle ↦
            let no_job : length s.pending ≡ 0 = ground arith in
            let no_run : s.running ≡ 0 = ground arith in
            rw idle
              (counted, line, (a, λ h. (ground (arith, b, c), no_job, no_run), λ h. cc, λ h. refl))
      ]

  flush-IsAwake : (s : Queue V R X) → length s.pending ≡ 0 → IsAwake (flush_idle_waiters s)
  unfolding flush_idle_waiters
  flush-IsAwake s e = elim (Bool-cases (ltb 0 (length s.pending) || ltb 0 s.running)) [
    | inl busy ↦ rw busy (λ c p r. (λ h. absurd (omega arith), λ h k. absurd (ground arith)))
    | inr idle ↦ rw idle (λ c p r. (λ h. absurd (omega arith), λ h k. refl))
  ]

pub IsWithin-less : (m n : ℕ) (o : Option ℕ) → n ≤ m → IsWithin m o → IsWithin n o
IsWithin-less m n none h w = tt
IsWithin-less m n (some k) h w = omega arith

module _ {V R X : Type 0} (now : ℕ → ℕ) where
  schedule-IsCore : (s : Queue V R X) (js : List (Job V)) → IsCore s → IsCore (schedule now js s)
  unfolding schedule
  schedule-IsCore s [] h = flush-IsCore s h
  schedule-IsCore s (j ∷ js) h =
      elim (Bool-cases (ltb 0 (delay_until j.run_at (now s.now_calls)))) [
        | inl e ↦ rw e h
        | inr e ↦ rw e h
      ]

  pub arm-IsCore : (s : Queue V R X) → IsCore s → IsCore (arm now s)
  unfolding arm
  arm-IsCore s h = elim (Bool-cases (s.closed || s.paused)) [
    | inl e ↦ rw e h
    | inr e ↦ elim (Bool-cases (leb s.concurrency s.running)) [
      | inl f ↦ rw (e, f) h
      | inr f ↦ rw (e, f) (schedule-IsCore (clear_scheduled_work s) s.pending h)
    ]
  ]

  schedule-IsAwake :
      (s : Queue V R X) (js : List (Job V)) → js ≡ s.pending → IsAwake (schedule now js s)
  unfolding schedule
  schedule-IsAwake s [] e = flush-IsAwake s (sym (ap length e))
  schedule-IsAwake s (j ∷ js) e =
      elim (Bool-cases (ltb 0 (delay_until j.run_at (now s.now_calls)))) [
        | inl f ↦ rw f (λ c p r. (λ h. refl, λ h k. absurd (omega (arith, ap length e))))
        | inr f ↦ rw f (λ c p r. (
          λ h. ground (arith, Bool-cases (is_some s.timer)),
          λ h k. absurd (omega (arith, ap length e)),
        ))
      ]

  pub arm-IsAwake : (s : Queue V R X) → IsAwake (arm now s)
  unfolding arm
  arm-IsAwake s = elim (Bool-cases (s.closed || s.paused)) [
    | inl e ↦ rw e (λ c p r. absurd (ground arith))
    | inr e ↦ elim (Bool-cases (leb s.concurrency s.running)) [
      | inl f ↦ rw (e, f) (λ c p r. absurd (ground arith))
      | inr f ↦ rw (e, f) (schedule-IsAwake (clear_scheduled_work s) s.pending refl)
    ]
  ]

  finish_pump-IsCore : (s : Queue V R X) → IsCore s → IsCore (finish_pump now s)
  unfolding finish_pump
  finish_pump-IsCore s h = elim (Bool-cases (eqb (length s.pending) 0 && eqb s.running 0)) [
    | inl e ↦ rw e (flush-IsCore s h)
    | inr e ↦ elim (Bool-cases (ltb s.running s.concurrency && ltb 0 (length s.pending))) [
      | inl f ↦ rw (e, f) (arm-IsCore s h)
      | inr f ↦ rw (e, f) h
    ]
  ]

  finish_pump-IsAwake : (s : Queue V R X) → IsAwake (finish_pump now s)
  unfolding finish_pump
  finish_pump-IsAwake s = elim (Bool-cases (eqb (length s.pending) 0 && eqb s.running 0)) [
    | inl e ↦ rw e (flush-IsAwake s (ground arith))
    | inr e ↦ elim (Bool-cases (ltb s.running s.concurrency && ltb 0 (length s.pending))) [
      | inl f ↦ rw (e, f) (arm-IsAwake s)
      | inr f ↦ rw (e, f) (λ c p r. (λ h. absurd (ground arith), λ h k. absurd (ground arith)))
    ]
  ]

  -- One round of the loop: the first pending job starts.
  start-IsCore :
      (s : Queue V R X) (j : Job V) (js : List (Job V))
      → s.pending ≡ j ∷ js
      → s.running < s.concurrency
      → IsCore s
      → IsCore (start now j (record (tick s) { pending = js }))
  start-IsCore s j js e r ((one, most, count), (sorted, numbered, fits), (a, b, c, d)) =
      let first = subst Sorted e sorted in
      let rest = subst (All (λ k. k.sequence ≤ s.sequence)) e numbered in
      let less : length js ≤ length s.pending = omega (arith, ap length e) in
      (
        (one, omega arith, omega (arith, count, length-append s.in_flight (j ∷ []))),
        (first.1, rest.1, IsWithin-less (length s.pending) (length js) s.max_pending less fits),
        (
          λ h. absurd (omega (arith, a h, ap length e)),
          λ h. absurd (omega (arith, (b h).1, ap length e)),
          c,
          d,
        ),
      )

  -- The three branches of the loop's body.
  module _ (j : Job V) (js : List (Job V)) (s : Queue V R X) where
    pub pump_loop-full :
        ltb s.running s.concurrency ≡ false → pump_loop now (j ∷ js) s ≡ finish_pump now s
    unfolding pump_loop
    pump_loop-full f = rw f refl

    pub pump_loop-early :
        ltb s.running s.concurrency ≡ true
        → lt_int (pos (now s.now_calls)) j.run_at ≡ true
        → pump_loop now (j ∷ js) s ≡ arm now (tick s)
    unfolding pump_loop
    pump_loop-early f g = rw (f, g) refl

    pub pump_loop-start :
        ltb s.running s.concurrency ≡ true
        → lt_int (pos (now s.now_calls)) j.run_at ≡ false
        → pump_loop now (j ∷ js) s
          ≡ pump_loop now js (start now j (record (tick s) { pending = js }))
    unfolding pump_loop
    pump_loop-start f g = rw (f, g) refl

  pump_loop-IsCore :
      (js : List (Job V)) (s : Queue V R X)
      → s.pending ≡ js
      → IsCore s
      → IsCore (pump_loop now js s)
  pump_loop-IsCore [] s e h = unfold pump_loop in finish_pump-IsCore s h
  pump_loop-IsCore (j ∷ js) s e h = elim (Bool-cases (ltb s.running s.concurrency)) [
    | inr f ↦ rw (pump_loop-full j js s f) (finish_pump-IsCore s h)
    | inl f ↦ elim (Bool-cases (lt_int (pos (now s.now_calls)) j.run_at)) [
      | inl g ↦ rw (pump_loop-early j js s f g) (arm-IsCore (tick s) h)
      | inr g ↦ rw (pump_loop-start j js s f g) (
          pump_loop-IsCore js (start now j (record (tick s) { pending = js })) refl
            (start-IsCore s j js e (ltb→lt _ _ f) h))
    ]
  ]

  pump_loop-IsAwake : (js : List (Job V)) (s : Queue V R X) → IsAwake (pump_loop now js s)
  pump_loop-IsAwake [] s = unfold pump_loop in finish_pump-IsAwake s
  pump_loop-IsAwake (j ∷ js) s = elim (Bool-cases (ltb s.running s.concurrency)) [
    | inr f ↦ rw (pump_loop-full j js s f) (finish_pump-IsAwake s)
    | inl f ↦ elim (Bool-cases (lt_int (pos (now s.now_calls)) j.run_at)) [
      | inl g ↦ rw (pump_loop-early j js s f g) (arm-IsAwake (tick s))
      | inr g ↦
          rw (pump_loop-start j js s f g)
            (pump_loop-IsAwake js (start now j (record (tick s) { pending = js })))
    ]
  ]

  pub pump-IsCore : (s : Queue V R X) → IsCore s → IsCore (pump now s)
  unfolding pump
  pump-IsCore s h = elim (Bool-cases (s.closed || s.paused)) [
    | inl e ↦ rw e h
    | inr e ↦ rw e (pump_loop-IsCore s.pending s refl h)
  ]

  pub pump-IsAwake : (s : Queue V R X) → IsAwake (pump now s)
  unfolding pump
  pump-IsAwake s = elim (Bool-cases (s.closed || s.paused)) [
    | inl e ↦ rw e (λ c p r. absurd (ground arith))
    | inr e ↦ rw e (pump_loop-IsAwake s.pending s)
  ]

  pump_loop-promise :
      (js : List (Job V)) (s : Queue V R X)
      → ((pump_loop now js s).closing ≡ s.closing)
        × ((pump_loop now js s).close_promise ≡ s.close_promise)
  pump_loop-promise [] s =
      let k = finish_pump-Keeps now s in unfold pump_loop in (k.closing, k.close_promise)
  pump_loop-promise (j ∷ js) s = elim (Bool-cases (ltb s.running s.concurrency)) [
    | inr f ↦
        let k = finish_pump-Keeps now s in rw (pump_loop-full j js s f) (k.closing, k.close_promise)
    | inl f ↦ elim (Bool-cases (lt_int (pos (now s.now_calls)) j.run_at)) [
      | inl g ↦
          let k = arm-Keeps now (tick s) in
          rw (pump_loop-early j js s f g) (k.closing, k.close_promise)
      | inr g ↦
          rw (pump_loop-start j js s f g)
            (pump_loop-promise js (start now j (record (tick s) { pending = js })))
    ]
  ]

  -- The loop does not touch the closing of the queue.
  pub pump-promise :
      (s : Queue V R X)
      → ((pump now s).closing ≡ s.closing) × ((pump now s).close_promise ≡ s.close_promise)
  unfolding pump
  pump-promise s = elim (Bool-cases (s.closed || s.paused)) [
    | inl e ↦ rw e (refl, refl)
    | inr e ↦ rw e (pump_loop-promise s.pending s)
  ]
