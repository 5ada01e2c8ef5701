-- ===== src/Examples/Schedulers.antt =====
-- Three tasks, the second of which is cancelled.
use generic_ai.Base.{String, ◌≡◌, refl, true, false, [], ◌∷◌, ◌++◌}
use native.Mathlib.Omega.{arith}
use generic_ai.Base.Exec.{Result, ok}
use generic_ai.Scheduler.{
  Scheduler, create_manual_scheduler, schedule, cancel, flush_next, flush_all, pending_count,
}
use generic_ai.Scheduler.Flushing.{Flushed, flush_next-Flushed, flush_all_runs, live_tasks}

abbrev idle : String → Scheduler String → Result String (Unit {0}) × Scheduler String
idle task s = (ok tt, s)

abbrev three : Scheduler String
three = record {
  queue =
      record { handle = 0; task = "a"; cancelled = false }
      ∷ record { handle = 1; task = "b"; cancelled = true }
      ∷ record { handle = 2; task = "c"; cancelled = false }
      ∷ [];
  next_handle = 3;
  started = [];
}

three_scheduled :
    cancel 1 (schedule "c" (schedule "b" (schedule "a" create_manual_scheduler).1).1).1 ≡ three
unfolding cancel schedule
three_scheduled = refl

two_pending : pending_count three ≡ 2
unfolding pending_count
two_pending = refl

flush_next-Flushed_example : Flushed idle three.queue three (flush_next idle three)
flush_next-Flushed_example = flush_next-Flushed idle three

flush_all_runs_example :
    flush_all idle 4 three
    ≡ (ok tt, record three { queue = []; started = three.started ++ live_tasks three.queue })
flush_all_runs_example = flush_all_runs idle (λ task s. refl) 4 three (omega arith)
