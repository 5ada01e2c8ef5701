-- ===== src/Queue/Pumping.antt =====
-- The loop of `pump` in packages/plugin-queue-memory/src/index.ts: which jobs start.
use generic_ai.Base.{
  ℕ, ◌+◌, ◌≡◌, refl, sym, ◌∙◌, ap, true, false, ◌||◌, List, [], ◌∷◌, ◌++◌, length, ltb, arith,
  Bool-cases, inl, inr, subst,
}
use mathlib.Core.List.{append-nil, append_assoc}
use generic_ai.Queue.Types.{pos, Job, lt_int}
use generic_ai.Queue.{Queue, tick, arm, start, finish_pump, pump_loop, pump}
use generic_ai.Queue.Frame.{Keeps, arm-Keeps, finish_pump-Keeps}
use generic_ai.Queue.Invariant.{pump_loop-full, pump_loop-early, pump_loop-start}

module _ {V R X : Type 0} (now : ℕ → ℕ) where
  -- The queue behind the start of its first job, and `left` are the jobs that are still pending.
  abbrev pub begin : Job V → List (Job V) → Queue V R X → Queue V R X
  begin j left s = start now j (record (tick s) { pending = left })

  -- From `s` to `u` the jobs start one after another: each has room, and is due when the clock is
  -- read for it.
  pub data Starts (left : List (Job V)) : List (Job V) → Queue V R X → Queue V R X → Type 0 where
    no_more : (s : Queue V R X) → Starts left [] s s
    one_starts :
        (j : Job V) (js : List (Job V)) (s u : Queue V R X)
        → ltb s.running s.concurrency ≡ true
        → lt_int (pos (now s.now_calls)) j.run_at ≡ false
        → Starts left js (begin j (js ++ left) s) u
        → Starts left (j ∷ js) s u

  -- Why the loop stops at `u` before `left`: there is no job, no room, or the first job is not due
  -- when the clock is read for it.
  pub data Stops (u : Queue V R X) : List (Job V) → Type 0 where
    no_job : Stops u []
    no_room : {left : List (Job V)} → ltb u.running u.concurrency ≡ false → Stops u left
    not_due :
        {j : Job V} {js : List (Job V)}
        → lt_int (pos (now u.now_calls)) j.run_at ≡ true
        → Stops u (j ∷ js)

  -- The first pending jobs have started, in order, and `left` is still pending.
  pub record Pumped (js : List (Job V)) (s t : Queue V R X) : Type 0 where
    pub begun : List (Job V)
    pub left : List (Job V)
    pub split : js ≡ begun ++ left
    pub pending : t.pending ≡ left
    pub in_flight : t.in_flight ≡ s.in_flight ++ begun
    pub running : t.running ≡ s.running + length begun
    pub settled : t.settled ≡ s.settled
    pub reached : Queue V R X
    pub starts : Starts left begun s reached
    pub stops : Stops reached left

module _ {V R X : Type 0} (now : ℕ → ℕ) where
  Keeps-tick : (s t : Queue V R X) → Keeps (tick s) t → Keeps s t
  Keeps-tick s t k = record {
    pending = k.pending;
    in_flight = k.in_flight;
    settled = k.settled;
    running = k.running;
    concurrency = k.concurrency;
    closing = k.closing;
    closed = k.closed;
    close_promise = k.close_promise;
    sequence = k.sequence;
    no_close_waits = k.no_close_waits;
  }

  Keeps-Pumped :
      (js : List (Job V)) (s t : Queue V R X)
      → s.pending ≡ js
      → Keeps s t
      → Stops now s js
      → Pumped now js s t
  Keeps-Pumped js s t e k w = record {
    begun = [];
    left = js;
    split = refl;
    pending = k.pending ∙ e;
    in_flight = k.in_flight ∙ sym (append-nil s.in_flight);
    running = omega (arith, k.running);
    settled = k.settled;
    reached = s;
    starts = no_more s;
    stops = w;
  }

  Pumped-start :
      (j : Job V) (js : List (Job V)) (s t : Queue V R X)
      → ltb s.running s.concurrency ≡ true
      → lt_int (pos (now s.now_calls)) j.run_at ≡ false
      → Pumped now js (begin now j js s) t
      → Pumped now (j ∷ js) s t
  Pumped-start j js s t room due p = record {
    begun = j ∷ p.begun;
    left = p.left;
    split = ap (λ l. j ∷ l) p.split;
    pending = p.pending;
    in_flight = p.in_flight ∙ append_assoc s.in_flight (j ∷ []) p.begun;
    running = omega (arith, p.running);
    settled = p.settled;
    reached = p.reached;
    starts =
        one_starts j p.begun s p.reached room due
          (subst (λ l. Starts now p.left p.begun (begin now j l s) p.reached) p.split p.starts);
    stops = p.stops;
  }

  pump_loop-Pumped :
      (js : List (Job V)) (s : Queue V R X) → s.pending ≡ js → Pumped now js s (pump_loop now js s)
  pump_loop-Pumped [] s e =
      unfold pump_loop in Keeps-Pumped [] s (finish_pump now s) e (finish_pump-Keeps now s) no_job
  pump_loop-Pumped (j ∷ js) s e = elim (Bool-cases (ltb s.running s.concurrency)) [
    | inr f ↦
        let k = finish_pump-Keeps now s in
        rw (pump_loop-full now j js s f)
          (Keeps-Pumped (j ∷ js) s (finish_pump now s) e k (no_room f))
    | inl f ↦ elim (Bool-cases (lt_int (pos (now s.now_calls)) j.run_at)) [
      | inl g ↦
          let k = arm-Keeps now (tick s) in
          rw (pump_loop-early now j js s f g) (
            Keeps-Pumped (j ∷ js) s (arm now (tick s)) e (Keeps-tick s (arm now (tick s)) k)
              (not_due g))
      | inr g ↦ rw (pump_loop-start now j js s f g) (
          Pumped-start j js s _ f g
            (pump_loop-Pumped js (start now j (record (tick s) { pending = js })) refl))
    ]
  ]

  -- On an open queue that is not paused, `pump` starts the longest row of first pending jobs that
  -- are due and have room, in order, and leaves the others pending: each job that starts has room
  -- and is due when the clock is read for it, and the row ends only when no job is pending,
  -- `concurrency` jobs run or the next job is not due when the clock is read for it.
  pub pump-Pumped :
      (s : Queue V R X) → (s.closed || s.paused) ≡ false → Pumped now s.pending s (pump now s)
  unfolding pump
  pump-Pumped s e = rw e (pump_loop-Pumped s.pending s refl)
