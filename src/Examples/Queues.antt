-- ===== src/Examples/Queues.antt =====
-- A queue with one lane: tests, and the theorems applied to it.
use generic_ai.Base.{ℕ, ◌+◌, String, ◌≡◌, refl, true, false, none, some, List, [], ◌∷◌, length}
use generic_ai.Base.Exec.{ok}
use generic_ai.Queue.Types.{finite, pos, QueueJob, Job}
use generic_ai.Queue.{Queue, pump, sort}
use generic_ai.Queue.Calls.{new_queue}
use generic_ai.Queue.Steps.{
  Step, enqueues, drains, closes, immediate_fires, handler_ends, finally_runs, close_ends, step,
  steps, IsValid,
}
use generic_ai.Queue.Valid.{steps-IsValid, new_queue-IsValid}
use generic_ai.Queue.Conservation.{tracked, added, step-tracked}
use generic_ai.Queue.Stranded.{StillWaits, steps-StillWaits}
use generic_ai.Queue.Pumping.{Pumped, pump-Pumped}

abbrev Jobs : Type 0
Jobs = Queue String ℕ String

abbrev Steps : Type 0
Steps = List (Step String ℕ String)

abbrev clock : ℕ → ℕ
clock n = 100 + n

abbrev job : String → ℕ → QueueJob String
job payload priority = record {
  id = none;
  name = none;
  payload = payload;
  priority = some (finite (pos priority));
  run_at = none;
  signal = none;
  metadata = none;
}

abbrev empty : Jobs
empty = record {
  concurrency = 1;
  max_pending = some 3;
  pending = [];
  running = 0;
  sequence = 0;
  paused = false;
  closing = false;
  closed = false;
  timer = none;
  immediate = false;
  idle_waiters = [];
  close_promise = false;
  now_calls = 0;
  in_flight = [];
  finishing = 0;
  close_ready = false;
  settled = [];
  events = [];
}

empty_is_new : new_queue none (some (finite (pos 3))) ≡ ok empty
unfolding new_queue
empty_is_new = refl

abbrev payloads : List (Job String) → List String
payloads [] = []
payloads (j ∷ js) = j.payload ∷ payloads js

abbrev three_jobs : Steps
three_jobs = enqueues (job "low" 1) ∷ enqueues (job "high" 5) ∷ enqueues (job "mid" 3) ∷ []

by_priority : payloads (steps clock three_jobs empty).pending ≡ "high" ∷ "mid" ∷ "low" ∷ []
unfolding steps sort
by_priority = refl

first_started :
    payloads (steps clock (immediate_fires ∷ []) (steps clock three_jobs empty)).in_flight
    ≡ "high" ∷ []
unfolding steps sort
first_started = refl

abbrev whole_run : Steps
whole_run =
    enqueues (job "one" 0)
    ∷ closes true
    ∷ immediate_fires
    ∷ handler_ends 1 (ok 7)
    ∷ finally_runs
    ∷ close_ends
    ∷ []

closes_when_idle : (steps clock whole_run empty).closed ≡ true
unfolding steps sort
closes_when_idle = refl

-- A job runs when the queue is closed at once; the `drain` called then waits for ever.
abbrev stranded : Steps
stranded = enqueues (job "one" 0) ∷ immediate_fires ∷ closes false ∷ drains ∷ []

drain_waits :
    length
      (steps clock
        (handler_ends 1 (ok 7) ∷ finally_runs ∷ [])
        (steps clock stranded empty)).idle_waiters
    ≡ 1
unfolding steps sort
drain_waits = refl

steps-IsValid_example : IsValid (steps clock whole_run empty)
steps-IsValid_example =
    steps-IsValid clock whole_run empty
      (new_queue-IsValid none (some (finite (pos 3))) empty empty_is_new)

step-tracked_example :
    tracked 1 (step clock (enqueues (job "one" 0)) empty)
    ≡ tracked 1 empty + added 1 clock (enqueues (job "one" 0)) empty
step-tracked_example = step-tracked 1 clock (enqueues (job "one" 0)) empty

steps-StillWaits_example :
    StillWaits
      (steps clock stranded empty)
      (steps clock (handler_ends 1 (ok 7) ∷ finally_runs ∷ []) (steps clock stranded empty))
steps-StillWaits_example =
    steps-StillWaits clock (handler_ends 1 (ok 7) ∷ finally_runs ∷ []) (steps clock stranded empty)
      (unfold steps sort in refl)

pump-Pumped_example :
    Pumped clock
      (steps clock three_jobs empty).pending
      (steps clock three_jobs empty)
      (pump clock (steps clock three_jobs empty))
pump-Pumped_example = pump-Pumped clock (steps clock three_jobs empty) (unfold steps sort in refl)
