-- ===== src/Queue/Frame.antt =====
-- What `arm` and the end of `pump` of packages/plugin-queue-memory/src/index.ts leave as it is.
use generic_ai.Base.{
  ℕ, ◌≡◌, refl, false, ◌&&◌, ◌||◌, List, [], ◌∷◌, length, ltb, leb, eqb, Bool-cases, inl, inr,
}
use generic_ai.Queue.Types.{Job}
use generic_ai.Queue.{
  Queue, awaits_close, clear_scheduled_work, flush_idle_waiters, schedule, arm, finish_pump,
  delay_until,
}

-- Jobs, limits and the closing of the queue are the same.
pub record Keeps {V R X : Type 0} (s t : Queue V R X) : Type 0 where
  pub pending : t.pending ≡ s.pending
  pub in_flight : t.in_flight ≡ s.in_flight
  pub settled : t.settled ≡ s.settled
  pub running : t.running ≡ s.running
  pub concurrency : t.concurrency ≡ s.concurrency
  pub closing : t.closing ≡ s.closing
  pub closed : t.closed ≡ s.closed
  pub close_promise : t.close_promise ≡ s.close_promise
  pub sequence : t.sequence ≡ s.sequence
  pub no_close_waits : awaits_close s.idle_waiters ≡ false → awaits_close t.idle_waiters ≡ false

pub Keeps-refl : {V R X : Type 0} (s : Queue V R X) → Keeps s s
Keeps-refl s = record {
  pending = refl;
  in_flight = refl;
  settled = refl;
  running = refl;
  concurrency = refl;
  closing = refl;
  closed = refl;
  close_promise = refl;
  sequence = refl;
  no_close_waits = λ h. h;
}

module _ {V R X : Type 0} where
  flush-Keeps : (s : Queue V R X) → Keeps s (flush_idle_waiters s)
  unfolding flush_idle_waiters
  flush-Keeps s = elim (Bool-cases (ltb 0 (length s.pending) || ltb 0 s.running)) [
    | inl busy ↦ rw busy (Keeps-refl s)
    | inr idle ↦ rw idle (record {
      pending = refl;
      in_flight = refl;
      settled = refl;
      running = refl;
      concurrency = refl;
      closing = refl;
      closed = refl;
      close_promise = refl;
      sequence = refl;
      no_close_waits = λ h. refl;
    })
  ]

module _ {V R X : Type 0} (now : ℕ → ℕ) where
  schedule-Keeps : (s : Queue V R X) (js : List (Job V)) → Keeps s (schedule now js s)
  unfolding schedule
  schedule-Keeps s [] = flush-Keeps s
  schedule-Keeps s (j ∷ js) = elim (Bool-cases (ltb 0 (delay_until j.run_at (now s.now_calls)))) [
    | inl e ↦ rw e (record {
      pending = refl;
      in_flight = refl;
      settled = refl;
      running = refl;
      concurrency = refl;
      closing = refl;
      closed = refl;
      close_promise = refl;
      sequence = refl;
      no_close_waits = λ h. h;
    })
    | inr e ↦ rw e (record {
      pending = refl;
      in_flight = refl;
      settled = refl;
      running = refl;
      concurrency = refl;
      closing = refl;
      closed = refl;
      close_promise = refl;
      sequence = refl;
      no_close_waits = λ h. h;
    })
  ]

  pub arm-Keeps : (s : Queue V R X) → Keeps s (arm now s)
  unfolding arm
  arm-Keeps s = elim (Bool-cases (s.closed || s.paused)) [
    | inl e ↦ rw e (Keeps-refl s)
    | inr e ↦ elim (Bool-cases (leb s.concurrency s.running)) [
      | inl f ↦ rw (e, f) (Keeps-refl s)
      | inr f ↦
          let k = schedule-Keeps (clear_scheduled_work s) s.pending in
          rw (e, f)
            (record {
              pending = k.pending;
              in_flight = k.in_flight;
              settled = k.settled;
              running = k.running;
              concurrency = k.concurrency;
              closing = k.closing;
              closed = k.closed;
              close_promise = k.close_promise;
              sequence = k.sequence;
              no_close_waits = k.no_close_waits;
            })
    ]
  ]

  pub finish_pump-Keeps : (s : Queue V R X) → Keeps s (finish_pump now s)
  unfolding finish_pump
  finish_pump-Keeps s = elim (Bool-cases (eqb (length s.pending) 0 && eqb s.running 0)) [
    | inl e ↦ rw e (flush-Keeps s)
    | inr e ↦ elim (Bool-cases (ltb s.running s.concurrency && ltb 0 (length s.pending))) [
      | inl f ↦ rw (e, f) (arm-Keeps s)
      | inr f ↦ rw (e, f) (Keeps-refl s)
    ]
  ]
