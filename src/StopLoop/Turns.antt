-- ===== src/StopLoop/Turns.antt =====
-- How many turns the loop of packages/core/src/runtime/stop-tool-loop.ts takes, and how it ends.
use generic_ai.Base.{
  ℕ, zero, suc, ◌+◌, ◌≤◌, ◌<◌, String, ◌≡◌, refl, sym, ap, subst, ◌∙◌, true, false, if_cases, arith,
}
use native.Mathlib.Decide.{dec_lt}
use generic_ai.Base.Exec.{Result, ok, err}
use generic_ai.StopLoop.{
  StopState, LoopResult, MaxTurns, unlimited, at_most, whole, infinite, StopError, prompt_error,
  prompt_of, stopped_result, end_of_loop, after_prompt, begin_loop, turns_from, run_stop_tool_loop,
  normalize_max_turns,
}

module _ {X : Type 0} (run_prompt : ℕ → String → StopState → Result X (Unit {0}) × StopState)
    (prompt : String) (max_turns : MaxTurns) (start : StopState) where
  abbrev pub turn_of : ℕ → StopState → Result X (Unit {0}) × StopState
  turn_of t s = run_prompt t (prompt_of prompt max_turns t) s

  -- The state of the tool after some turns.
  unfoldable pub after : ℕ → StopState
  after zero = start
  after (suc t) = (turn_of (suc t) (after t)).1

  -- What turn `suc t` throws or does.
  abbrev pub outcome : ℕ → Result X (Unit {0})
  outcome t = (turn_of (suc t) (after t)).0

  -- The first `t` turns have neither thrown nor stopped.
  abbrev pub Went : ℕ → Type 0
  Went t = (j : ℕ) → j < t → (outcome j ≡ ok tt) × ((after (suc j)).stopped ≡ false)

  -- How a loop of at most `n` turns ends.
  pub data Ends (n : ℕ) (final : Result (StopError X) LoopResult × StopState) : Type 0 where
    stops :
        (t : ℕ)
        → t < n
        → Went t
        → outcome t ≡ ok tt
        → (after (suc t)).stopped ≡ true
        → final ≡ (ok (stopped_result (suc t) (after (suc t))), after (suc t))
        → Ends n final
    throws :
        (t : ℕ) (x : X)
        → t < n
        → Went t
        → outcome t ≡ err x
        → final ≡ (err (prompt_error x), after (suc t))
        → Ends n final
    runs_out : Went n → final ≡ (end_of_loop max_turns, after n) → Ends n final

  Went-suc : (t : ℕ) → Went t → outcome t ≡ ok tt → (after (suc t)).stopped ≡ false → Went (suc t)
  Went-suc t went fine open_still j lt = elim (dec_lt j t) [
    | yes earlier ↦ went j earlier
    | no last ↦
        let same : t ≡ j = omega arith in
        (
          subst (λ i. outcome i ≡ ok tt) same fine,
          subst (λ i. (after (suc i)).stopped ≡ false) same open_still,
        )
  ]

  -- One turn, by what it throws or does.
  turn-Ends :
      (rounds t : ℕ) (p : Result X (Unit {0}) × StopState)
      → Went t
      → turn_of (suc t) (after t) ≡ p
      → (Went (suc t)
          → Ends
              (suc t + rounds)
              (turns_from run_prompt prompt rounds (suc (suc t)) max_turns (after (suc t))))
      → Ends (t + suc rounds) (
          after_prompt run_prompt prompt
            (turns_from run_prompt prompt rounds (suc (suc t)) max_turns)
            (suc t)
            p)
  unfolding after
  turn-Ends rounds t (err x, s) went e next =
      throws t x (omega arith) went (ap (λ r. r.0) e)
        (ap (λ r. (err (prompt_error x), r)) (sym (ap (λ r. r.1) e)))
  turn-Ends rounds t (ok done, s) went e next =
      if_cases (Ends (t + suc rounds)) s.stopped
        (λ stop.
          stops t (omega arith) went (ap (λ r. r.0) e) (ap (λ r. r.1.stopped) e ∙ stop)
            (ap (λ r. (ok (stopped_result (suc t) r), r)) (sym (ap (λ r. r.1) e))))
        (λ go_on.
          let went' = Went-suc t went (ap (λ r. r.0) e) (ap (λ r. r.1.stopped) e ∙ go_on) in
          subst
            (λ r.
              Ends (t + suc rounds)
                (turns_from run_prompt prompt rounds (suc (suc t)) max_turns r.1))
            e
            (subst
              (λ n.
                Ends n
                  (turns_from run_prompt prompt rounds (suc (suc t)) max_turns (after (suc t))))
              (omega arith) (next went')))

  turns_from-Ends :
      (rounds t : ℕ)
      → Went t
      → Ends (t + rounds) (turns_from run_prompt prompt rounds (suc t) max_turns (after t))
  unfolding turns_from
  turns_from-Ends zero t went =
      subst (λ n. Ends n (end_of_loop max_turns, after t)) (omega arith) (runs_out went refl)
  turns_from-Ends (suc rounds) t went =
      turn-Ends rounds t (turn_of (suc t) (after t)) went refl
        (λ went'. turns_from-Ends rounds (suc t) went')

all_turns :
    {X : Type 0} (run_prompt : ℕ → String → StopState → Result X (Unit {0}) × StopState)
    (prompt : String) (max_turns : MaxTurns) (start : StopState) (n : ℕ)
    → Ends run_prompt prompt max_turns start n (turns_from run_prompt prompt n 1 max_turns start)
unfolding after
all_turns run_prompt prompt max_turns start n =
    subst
      (λ k.
        Ends run_prompt prompt max_turns start k (turns_from run_prompt prompt n 1 max_turns start))
      (omega arith)
      (turns_from-Ends run_prompt prompt max_turns start n 0 (λ j lt. absurd (omega (arith, lt))))

-- A limit of `n` turns, `n` at least 1: the loop takes at most `n` turns. It ends with the first
-- turn that calls the stop tool, and returns its number and what the tool was given; or it throws
-- what the first prompt to fail throws; or no turn of all `n` stops, and it returns that. With no
-- limit, the same holds of the turns that the fuel allows.
pub run_stop_tool_loop-Ends :
    {X : Type 0} (run_prompt : ℕ → String → StopState → Result X (Unit {0}) × StopState)
    (prompt : String) (n : ℕ) (start : StopState)
    → 1 ≤ n
    → Ends run_prompt prompt
        (at_most n)
        start
        n
        (run_stop_tool_loop run_prompt prompt 0 (whole n) start)
      × Ends run_prompt prompt unlimited start n
          (run_stop_tool_loop run_prompt prompt n infinite start)
unfolding run_stop_tool_loop normalize_max_turns
run_stop_tool_loop-Ends {X} run_prompt prompt n start pos =
    let limit : normalize_max_turns {X = X} (whole n) ≡ ok (at_most n) = ground arith in
    (
      subst
          (λ r. Ends run_prompt prompt (at_most n) start n (begin_loop run_prompt prompt 0 start r))
          (sym limit) (all_turns run_prompt prompt (at_most n) start n),
      all_turns run_prompt prompt unlimited start n,
    )
