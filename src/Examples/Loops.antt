-- ===== src/Examples/Loops.antt =====
-- Loops that stop in a turn, and one that does not.
use generic_ai.Base.{ℕ, zero, suc, String, ◌≡◌, refl, true, false, none, some, arith}
use generic_ai.Base.Numbers.{number_text}
use generic_ai.Base.Exec.{Result, ok}
use generic_ai.StopLoop.{
  StopState, completed, whole, infinite, unlimited, at_most, execute_stop, continuation_prompt,
  run_stop_tool_loop,
}
use generic_ai.StopLoop.Turns.{Ends, run_stop_tool_loop-Ends}

abbrev not_stopped : StopState
not_stopped = record { stopped = false; response = none; status = none }

-- The agent calls the tool in its second turn.
abbrev second_turn_stops : ℕ → String → StopState → Result String (Unit {0}) × StopState
second_turn_stops (suc (suc zero)) prompt s =
    (ok tt, record { stopped = true; response = some "done"; status = some completed })
second_turn_stops n prompt s = (ok tt, s)

large_number : number_text 40721 ≡ "40721"
unfolding number_text
large_number = refl

second_of_three :
    continuation_prompt 2 (at_most 3)
    ≡ "Continue the same task. This is loop turn 2 of 3.\nReview the conversation so far. If the task is complete, blocked, or failed, call stop_and_respond with the final response.\nDo not finish with a plain assistant message; only stop_and_respond stops this run."
unfolding continuation_prompt
second_of_three = refl

blank_is_refused : (execute_stop {X = String} (some "  ") none not_stopped).1 ≡ not_stopped
unfolding execute_stop
blank_is_refused = refl

stops_in_two :
    (run_stop_tool_loop second_turn_stops "task" 0 (whole 5) not_stopped).0
    ≡ ok (record {
      stopped = true;
      output_text = some "done";
      status = some completed;
      turn_count = 2;
    })
unfolding run_stop_tool_loop
stops_in_two = refl

run_stop_tool_loop-Ends_example :
    Ends second_turn_stops "task"
      (at_most 5)
      not_stopped
      5
      (run_stop_tool_loop second_turn_stops "task" 0 (whole 5) not_stopped)
    × Ends second_turn_stops "task" unlimited not_stopped 5
        (run_stop_tool_loop second_turn_stops "task" 5 infinite not_stopped)
run_stop_tool_loop-Ends_example =
    run_stop_tool_loop-Ends second_turn_stops "task" 5 not_stopped (omega arith)
