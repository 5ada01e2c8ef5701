-- ===== src/Hooks/Tool.antt =====
-- packages/core/src/harness/lifecycle-hooks.ts: `wrapToolWithLifecycleHooks`. A tool works on a world
-- of its own; its arguments are JSON values, and its errors their messages.
use Prim.Native.String
use generic_ai.Base.{String, Option, none, some, List, [], ◌∷◌, if◌then◌else◌, get_or}
use generic_ai.Base.Text.{trim, is_empty}
use generic_ai.Base.Exec.{Result, ok, err}
use generic_ai.Hooks.{LifecycleEvent, pre_tool_use, post_tool_use, Config, HookContext}
use generic_ai.Hooks.Records.{DecisionRecord, Executor, RunResult, Platform}
use generic_ai.Hooks.Executor.{run, has_hooks}

-- The reason of the first record that has one.
abbrev pub first_decision_reason : {J : Type 0} → List (DecisionRecord J) → Option String
first_decision_reason [] = none
first_decision_reason (r ∷ rs) = elim r.reason [
  | none ↦ first_decision_reason rs
  | some reason ↦ some reason
]

unfoldable pub get_tool_name : Option String → String
unfolding trim
get_tool_name none = "unknown-tool"
get_tool_name (some name) = if is_empty (trim name) then "unknown-tool" else trim name

module _ {J R W : Type 0} (platform : Platform J) (config : Config)
    (execute : J → W → Result String R × W) (to_json : R → J) (error_json : String → J)
    (name : Option String) (base : HookContext J) (tool_call_id : Option String) where
  abbrev pub context_at : LifecycleEvent → J → Option J → HookContext J
  context_at event input result = record base {
    event = event;
    tool_name = some (get_tool_name name);
    tool_call_id = tool_call_id;
    input = some input;
    result = result;
  }

  abbrev pub block_message : RunResult J → String
  block_message r =
      get_or (first_decision_reason r.decisions)
        (String.◌++◌ "Hook blocked " (String.◌++◌ (get_tool_name name) "."))

  abbrev pub rethrown :
      String → W → Result String (RunResult J) × Executor J → Result String R × Executor J × W
  rethrown e w (ok r, s) = (err e, s, w)
  rethrown e w (err other, s) = (err other, s, w)

  -- The `catch` around the tool.
  unfoldable pub caught : J → String → Executor J → W → Result String R × Executor J × W
  unfolding run
  caught input e s w =
      rethrown e w (run platform config (context_at post_tool_use input (some (error_json e))) s)

  abbrev pub after_post :
      J → R → W → Result String (RunResult J) × Executor J → Result String R × Executor J × W
  after_post input r w (ok post, s) =
      if post.blocked then caught input (block_message post) s w else (ok r, s, w)
  after_post input r w (err e, s) = caught input e s w

  abbrev pub after_execute : J → Executor J → Result String R × W → Result String R × Executor J × W
  after_execute input s (ok r, w) =
      after_post input r w
        (run platform config (context_at post_tool_use input (some (to_json r))) s)
  after_execute input s (err e, w) = caught input e s w

  abbrev pub after_pre :
      J → W → Result String (RunResult J) × Executor J → Result String R × Executor J × W
  after_pre input w (ok pre, s) =
      if pre.blocked
      then (err (block_message pre), s, w)
      else after_execute (get_or pre.input input) s (execute (get_or pre.input input) w)
  after_pre input w (err e, s) = (err e, s, w)

  -- The wrapped `execute`.
  unfoldable pub wrapped_execute : J → Executor J → W → Result String R × Executor J × W
  unfolding run caught get_tool_name
  wrapped_execute input s w =
      after_pre input w (run platform config (context_at pre_tool_use input none) s)

  abbrev pub unwrapped : Executor J → Result String R × W → Result String R × Executor J × W
  unwrapped s (r, w) = (r, s, w)

  -- `execute` of the tool that is returned: without enabled hooks it is that of the tool itself.
  unfoldable pub tool_with_hooks : J → Executor J → W → Result String R × Executor J × W
  unfolding wrapped_execute
  tool_with_hooks input s w =
      if has_hooks platform config then wrapped_execute input s w else unwrapped s (execute input w)
