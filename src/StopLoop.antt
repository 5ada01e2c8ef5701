-- ===== src/StopLoop.antt =====
-- packages/core/src/runtime/stop-tool-loop.ts: the loop that prompts an agent until it calls the
-- stop tool. What a prompt does to the state of the tool is the parameter `run_prompt`, which is
-- also told which call it is.
pub mod Turns
use Prim.Native.String
use generic_ai.Base.{
  ℕ, zero, suc, ◌+◌, String, Bool, true, false, Option, none, some, List, [], ◌∷◌, if◌then◌else◌,
  ltb, eqb, get_or,
}
use generic_ai.Base.Text.{trim, is_empty}
use generic_ai.Base.Numbers.{number_text}
use generic_ai.Base.Exec.{Result, ok, err}

pub data StopStatus : Type 0 where
  completed blocked failed : StopStatus

pub record StopState : Type 0 where
  pub stopped : Bool
  pub response : Option String
  pub status : Option StopStatus

pub record LoopResult : Type 0 where
  pub stopped : Bool
  pub output_text : Option String
  pub status : Option StopStatus
  pub turn_count : ℕ

-- The option `maxTurns`: absent, infinite, a natural number, or another number.
pub data TurnOption : Type 0 where
  unset infinite : TurnOption
  whole : ℕ → TurnOption
  other_number : TurnOption

pub data MaxTurns : Type 0 where
  unlimited : MaxTurns
  at_most : ℕ → MaxTurns

pub data StopError (X : Type 0) : Type 0 where
  bad_max_turns empty_response : StopError X
  prompt_error : X → StopError X
  out_of_fuel : StopError X

unfoldable pub normalize_max_turns : {X : Type 0} → TurnOption → Result (StopError X) MaxTurns
normalize_max_turns unset = ok unlimited
normalize_max_turns infinite = ok unlimited
normalize_max_turns (whole n) = if ltb n 1 then err bad_max_turns else ok (at_most n)
normalize_max_turns other_number = err bad_max_turns

unfoldable pub require_response : {X : Type 0} → Option String → Result (StopError X) String
unfolding trim
require_response none = err empty_response
require_response (some value) =
    if is_empty (trim value) then err empty_response else ok (trim value)

-- `execute` of the stop tool.
unfoldable pub execute_stop :
    {X : Type 0}
    → Option String
    → Option StopStatus
    → StopState
    → Result (StopError X) (Unit {0}) × StopState
unfolding require_response
execute_stop response status s = elim (require_response response) [
  | err e ↦ (err e, s)
  | ok text ↦ (
    ok tt,
    record { stopped = true; response = some text; status = some (get_or status completed) },
  )
]

-- `lines.join("\n")`
abbrev join_lines : List String → String
join_lines [] = ""
join_lines (l ∷ []) = l
join_lines (l ∷ k ∷ ls) = String.◌++◌ l (String.◌++◌ "\n" (join_lines (k ∷ ls)))

unfoldable pub wrap_stop_tool_prompt : String → String
wrap_stop_tool_prompt prompt = join_lines (
    "You are running as a Generic AI autonomous agent."
    ∷ "The run is a loop. Work through the task with the available tools, and call stop_and_respond only when you are ready to stop and return a final response."
    ∷ "Plain assistant messages do not stop the run. If you respond without the stop tool, the conversation will be fed back to you for another turn."
    ∷ "" ∷ "User task:" ∷ prompt ∷ [])

abbrev turn_label : ℕ → MaxTurns → String
turn_label turn unlimited =
    String.◌++◌ "This is loop turn "
      (String.◌++◌ (number_text turn) "; no maximum turn limit is configured.")
turn_label turn (at_most n) =
    String.◌++◌ "This is loop turn "
      (String.◌++◌ (number_text turn) (String.◌++◌ " of " (String.◌++◌ (number_text n) ".")))

unfoldable pub continuation_prompt : ℕ → MaxTurns → String
unfolding number_text
continuation_prompt turn max_turns = join_lines (
    String.◌++◌ "Continue the same task. " (turn_label turn max_turns)
    ∷ "Review the conversation so far. If the task is complete, blocked, or failed, call stop_and_respond with the final response."
    ∷ "Do not finish with a plain assistant message; only stop_and_respond stops this run."
    ∷ [])

unfoldable pub prompt_of : String → MaxTurns → ℕ → String
unfolding wrap_stop_tool_prompt continuation_prompt
prompt_of prompt max_turns turn =
    if eqb turn 1 then wrap_stop_tool_prompt prompt else continuation_prompt turn max_turns

abbrev pub stopped_result : ℕ → StopState → LoopResult
stopped_result turn s = record {
  stopped = true;
  output_text = s.response;
  status = s.status;
  turn_count = turn;
}

abbrev pub end_of_loop : {X : Type 0} → MaxTurns → Result (StopError X) LoopResult
end_of_loop unlimited = err out_of_fuel
end_of_loop (at_most n) =
    ok (record { stopped = false; output_text = none; status = none; turn_count = n })

module _ {X : Type 0} (run_prompt : ℕ → String → StopState → Result X (Unit {0}) × StopState)
    (prompt : String) where
  -- Behind the prompt of a turn: on to the next one, unless the tool has been called.
  abbrev pub after_prompt :
      (StopState → Result (StopError X) LoopResult × StopState)
      → ℕ
      → Result X (Unit {0}) × StopState
      → Result (StopError X) LoopResult × StopState
  after_prompt next turn (err x, s) = (err (prompt_error x), s)
  after_prompt next turn (ok done, s) =
      if s.stopped then (ok (stopped_result turn s), s) else next s

  -- The loop, with the rounds that are left.
  unfoldable pub turns_from :
      ℕ → ℕ → MaxTurns → StopState → Result (StopError X) LoopResult × StopState
  unfolding prompt_of
  turns_from zero turn max_turns s = (end_of_loop max_turns, s)
  turns_from (suc rounds) turn max_turns s =
      after_prompt (turns_from rounds (suc turn) max_turns) turn
        (run_prompt turn (prompt_of prompt max_turns turn) s)

  abbrev pub rounds_of : ℕ → MaxTurns → ℕ
  rounds_of fuel unlimited = fuel
  rounds_of fuel (at_most n) = n

  abbrev pub begin_loop :
      ℕ → StopState → Result (StopError X) MaxTurns → Result (StopError X) LoopResult × StopState
  begin_loop fuel s (err e) = (err e, s)
  begin_loop fuel s (ok max_turns) = turns_from (rounds_of fuel max_turns) 1 max_turns s

  -- `fuel` bounds the rounds of a loop that has no limit of its own.
  unfoldable pub run_stop_tool_loop :
      ℕ → TurnOption → StopState → Result (StopError X) LoopResult × StopState
  unfolding turns_from normalize_max_turns
  run_stop_tool_loop fuel option s = begin_loop fuel s (normalize_max_turns option)
