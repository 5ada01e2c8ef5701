-- ===== src/Scheduler/Flushing.antt =====
-- `flushNext` and `flushAll` of packages/core/src/scheduler/manual-scheduler.ts: which tasks run.
use generic_ai.Base.{
  ℕ, zero, suc, ◌<◌, ◌≡◌, refl, sym, ◌∙◌, ap, Bool, true, false, List, [], ◌∷◌, ◌++◌, length,
  length-append, if◌then◌else◌, arith, if_cases, All,
}
use mathlib.Core.List.{append-nil, append_assoc}
use generic_ai.Base.Exec.{Result, ok}
use generic_ai.Scheduler.{
  Entry, Scheduler, FlushError, ran, go_on, flush_list, flush_next, flush_all,
}

-- The tasks that are not cancelled.
abbrev pub live_tasks : {T : Type 0} → List (Entry T) → List T
live_tasks [] = []
live_tasks (e ∷ es) = let rest = live_tasks es in if e.cancelled then rest else e.task ∷ rest

-- What one `flushNext` does: without a live task it empties the queue, else it starts the first
-- live task, with what stands behind it in the queue.
pub data Flushed {T X : Type 0} (effect : T → Scheduler T → Result X (Unit {0}) × Scheduler T)
    (es : List (Entry T)) (s : Scheduler T)
    : Result (FlushError X) Bool × Scheduler T → Type 0 where
  nothing : live_tasks es ≡ [] → Flushed effect es s (ok false, record s { queue = [] })
  first :
      (skipped : List (Entry T)) (e : Entry T) (rest : List (Entry T))
      → es ≡ skipped ++ e ∷ rest
      → All (λ c. c.cancelled ≡ true) skipped
      → e.cancelled ≡ false
      → Flushed effect es s (
          ran effect
            (effect e.task (record s { queue = rest; started = s.started ++ e.task ∷ [] })))

live_tasks-skip :
    {T : Type 0} (skipped : List (Entry T)) (e : Entry T) (rest : List (Entry T))
    → All (λ c. c.cancelled ≡ true) skipped
    → e.cancelled ≡ false
    → live_tasks (skipped ++ e ∷ rest) ≡ e.task ∷ live_tasks rest
live_tasks-skip [] e rest h live = rw live refl
live_tasks-skip (c ∷ cs) e rest h live = rw h.0 (live_tasks-skip cs e rest h.1 live)

module _ {T X : Type 0} (effect : T → Scheduler T → Result X (Unit {0}) × Scheduler T) where
  Flushed-skip :
      (e : Entry T) (es : List (Entry T)) (s : Scheduler T)
      (x : Result (FlushError X) Bool × Scheduler T)
      → e.cancelled ≡ true
      → Flushed effect es s x
      → Flushed effect (e ∷ es) s x
  Flushed-skip e es s x c (nothing h) = nothing (rw c h)
  Flushed-skip e es s x c (first skipped d rest h all live) =
      first (e ∷ skipped) d rest (ap (λ l. e ∷ l) h) (c, all) live

  flush_list-Flushed :
      (es : List (Entry T)) (s : Scheduler T) → Flushed effect es s (flush_list effect es s)
  unfolding flush_list
  flush_list-Flushed [] s = nothing refl
  flush_list-Flushed (e ∷ es) s =
      let rest = flush_list-Flushed es s in
      if_cases (Flushed effect (e ∷ es) s) e.cancelled (λ c. Flushed-skip e es s _ c rest)
        (λ c. first [] e es refl tt c)

  -- `flushNext` starts the first task in the queue that is not cancelled, and drops the cancelled
  -- ones before it; it answers true when the task is over, throws what the task throws, and
  -- answers false on a queue without a live task, which is then empty.
  pub flush_next-Flushed : (s : Scheduler T) → Flushed effect s.queue s (flush_next effect s)
  unfolding flush_next
  flush_next-Flushed s = flush_list-Flushed s.queue s

  -- A task that returns and leaves the scheduler alone.
  abbrev pub IsQuiet : Type 0
  IsQuiet = (task : T) (s : Scheduler T) → effect task s ≡ (ok tt, s)

  module _ (quiet : IsQuiet) where
    abbrev finished : Scheduler T → Result (FlushError X) (Unit {0}) × Scheduler T
    finished s = (ok tt, record s { queue = []; started = s.started ++ live_tasks s.queue })

    started_as : Scheduler T → List T → Result (FlushError X) (Unit {0}) × Scheduler T
    started_as s l = (ok tt, record s { queue = []; started = l })

    Flushed-go_on :
        (fuel : ℕ)
        → ((t : Scheduler T) → length t.queue < fuel → flush_all effect fuel t ≡ finished t)
        → (s : Scheduler T) → length s.queue < suc fuel
        → (x : Result (FlushError X) Bool × Scheduler T) → Flushed effect s.queue s x
        → go_on effect (flush_all effect fuel) x ≡ finished s
    unfolding started_as
    Flushed-go_on fuel again s enough x (nothing h) =
        ap (started_as s) (sym (ap (λ l. s.started ++ l) h ∙ append-nil s.started))
    Flushed-go_on fuel again s enough x (first skipped e rest split all live) =
        let task = e.task in
        let h : live_tasks s.queue ≡ task ∷ live_tasks rest =
          ap live_tasks split ∙ live_tasks-skip skipped e rest all live in
        let l : length rest < length s.queue =
          omega (arith, length-append skipped (e ∷ rest), ap length split) in
        let t = record s { queue = rest; started = s.started ++ task ∷ [] } in
        ap (λ y. go_on effect (flush_all effect fuel) (ran effect y)) (quiet task t)
        ∙ again t (omega (arith, l, enough))
        ∙ ap (started_as s) (
            append_assoc s.started (task ∷ []) (live_tasks rest) ∙ ap (λ l. s.started ++ l) (sym h))

    -- With tasks that leave the scheduler alone, `flushAll` starts every task that is not
    -- cancelled, once and in the order of the queue, and returns with an empty queue; one round
    -- more than the queue is long is fuel enough.
    pub flush_all_runs :
        (fuel : ℕ) (s : Scheduler T)
        → length s.queue < fuel
        → flush_all effect fuel s
          ≡ (ok tt, record s { queue = []; started = s.started ++ live_tasks s.queue })
    unfolding flush_all
    flush_all_runs zero s enough = absurd (omega (arith, enough))
    flush_all_runs (suc fuel) s enough =
        Flushed-go_on fuel (flush_all_runs fuel) s enough (flush_next effect s)
          (flush_next-Flushed s)
