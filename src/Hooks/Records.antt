-- ===== src/Hooks/Records.antt =====
-- packages/core/src/harness/lifecycle-hooks.ts: what the executor of hooks keeps and returns. Starting a
-- process, the handlers of this process, the event stream, the clock and the random ids are
-- parameters, by the number of the call.
use Prim.Native.String
use generic_ai.Base.{
  ℕ, suc, String, Bool, true, false, ◌||◌, Option, none, some, List, [], ◌∷◌, ◌++◌, if◌then◌else◌,
  or_else, map,
}
use generic_ai.Base.Text.{is_empty}
use generic_ai.Base.Dict.{Dict}
use generic_ai.Base.Exec.{Result}
use generic_ai.Hooks.{
  LifecycleEvent, Decision, allow, block, rewrite, append_context, observe, null_decision,
  other_text, HookStatus, allowed, blocked, rewritten, appended_context, observed, failed,
  CommandHandler, command_runner, in_process, other_type, Runner, HookContext, HookOutput,
  CommandResult, same_command,
}

-- A record of a decision; its duration is the difference of the two times.
pub record DecisionRecord (J : Type 0) : Type 0 where
  pub id : String
  pub hook_id : String
  pub event : LifecycleEvent
  pub handler_type : String
  pub status : Option HookStatus
  pub decision : Decision
  pub started_at : ℕ
  pub completed_at : ℕ
  pub reason : Option String
  pub prompt : Option String
  pub input : Option J
  pub additional_context : Option String
  pub exit_code : Option ℕ
  pub error : Option String
  pub metadata : Option J

-- What an event about a hook tells: the start of the hook, or a decision.
pub data HookEventData (J : Type 0) : Type 0 where
  start_data : String → LifecycleEvent → String → HookEventData J
  decision_data : DecisionRecord J → HookEventData J

pub record HookEvent (J : Type 0) : Type 0 where
  pub name : String
  pub run_id : String
  pub scope_id : String
  pub root_session_id : String
  pub session_id : String
  pub parent_session_id : Option String
  pub data_of : HookEventData J

-- `command_runs` belongs to the current run; `events` are those handed to the stream.
pub record Executor (J : Type 0) : Type 0 where
  pub decisions : List (DecisionRecord J)
  pub command_runs : List (CommandHandler × Result String (HookOutput J))
  pub events : List (HookEvent J)
  pub clock_reads : ℕ
  pub ids_made : ℕ
  pub commands_run : ℕ
  pub handlers_called : ℕ

pub record RunResult (J : Type 0) : Type 0 where
  pub blocked : Bool
  pub prompt : Option String
  pub input : Option J
  pub additional_context : Option String
  pub decisions : List (DecisionRecord J)

-- What is not under this code.
pub record Platform (J : Type 0) : Type 0 where
  pub now : ℕ → ℕ
  pub random_uuid : ℕ → String
  pub emit_error : ℕ → Option String
  pub spawn : ℕ → CommandHandler → ℕ → HookContext J → Result String CommandResult
  pub parse_json : String → Result String (HookOutput J)
  pub handlers : Dict (ℕ → HookContext J → Result String (Option (HookOutput J)))

abbrev pub new_executor : {J : Type 0} → Executor J
new_executor = record {
  decisions = [];
  command_runs = [];
  events = [];
  clock_reads = 0;
  ids_made = 0;
  commands_run = 0;
  handlers_called = 0;
}

abbrev pub type_name : Runner → String
type_name (command_runner c) = "command"
type_name (in_process ref) = "in-process"
type_name (other_type name) = name

-- The `switch` has no case for another value: the status is then undefined.
abbrev pub status_for_decision : Decision → Option String → Option HookStatus
status_for_decision d (some e) = some failed
status_for_decision block none = some blocked
status_for_decision rewrite none = some rewritten
status_for_decision append_context none = some appended_context
status_for_decision observe none = some observed
status_for_decision allow none = some allowed
status_for_decision null_decision none = none
status_for_decision (other_text t) none = none

abbrev pub is_block : Decision → Bool
is_block block = true
is_block _ = false

-- The last value that is not `undefined`.
abbrev pub last_defined : {A : Type 0} → List (Option A) → Option A
last_defined [] = none
last_defined (o ∷ os) = or_else (last_defined os) o

abbrev pub texts : List (Option String) → List String
texts [] = []
texts (none ∷ os) = texts os
texts (some t ∷ os) = if is_empty t then texts os else t ∷ texts os

-- `values.join("\n")`, and nothing for no values
abbrev pub joined : List String → Option String
joined [] = none
joined (t ∷ []) = some t
joined (t ∷ u ∷ ts) = elim (joined (u ∷ ts)) [
  | none ↦ some t
  | some rest ↦ some (String.◌++◌ t (String.◌++◌ "\n" rest))
]

module _ {J : Type 0} where
  abbrev pub find_run :
      CommandHandler
      → List (CommandHandler × Result String (HookOutput J))
      → Option (Result String (HookOutput J))
  find_run c [] = none
  find_run c ((d, r) ∷ runs) = if same_command c d then some r else find_run c runs

  abbrev pub some_blocks : List (DecisionRecord J) → Bool
  some_blocks [] = false
  some_blocks (r ∷ rs) = is_block r.decision || some_blocks rs

  abbrev pub run_result : List (DecisionRecord J) → RunResult J
  run_result rs = record {
    blocked = some_blocks rs;
    prompt = last_defined (map (λ r. r.prompt) rs);
    input = last_defined (map (λ r. r.input) rs);
    additional_context = joined (texts (map (λ r. r.additional_context) rs));
    decisions = rs;
  }

  abbrev pub tick : Executor J → Executor J
  tick s = record s { clock_reads = suc s.clock_reads }

  abbrev pub push : DecisionRecord J → Executor J → Executor J
  push r s = record s {
    decisions = s.decisions ++ r ∷ [];
    clock_reads = suc s.clock_reads;
    ids_made = suc s.ids_made;
  }
