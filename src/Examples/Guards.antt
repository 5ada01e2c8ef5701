-- ===== src/Examples/Guards.antt =====
-- Hooks that block, observe and fail, and a tool behind them.
use generic_ai.Base.{
  ℕ, suc, String, ◌≡◌, refl, true, false, Bool, Option, none, some, List, [], ◌∷◌, length, eqb,
  if◌then◌else◌,
}
use generic_ai.Base.Dict.{lookup}
use generic_ai.Base.Exec.{Result, ok, err}
use generic_ai.Hooks.{
  LifecycleEvent, user_prompt_submit, pre_tool_use, post_tool_use, Decision, null_decision, block,
  observe, CommandHandler, in_process, command_runner, Runner, Hook, Config, HookContext,
  HookOutput, empty_output,
}
use generic_ai.Hooks.Records.{Executor, new_executor, RunResult, Platform}
use generic_ai.Hooks.Executor.{run}
use generic_ai.Hooks.Tool.{tool_with_hooks}
use generic_ai.Hooks.Guarding.{Guarded, pre_run, post_run, tool_with_hooks-Guarded}

abbrev says :
    Decision → String → ℕ → HookContext String → Result String (Option (HookOutput String))
says d why n context = ok (some (record empty_output { decision = some d; reason = some why }))

abbrev throws : ℕ → HookContext String → Result String (Option (HookOutput String))
throws n context = err "broken"

-- The stream throws at the event with the number `bad`, if any.
abbrev platform_with : Option ℕ → Platform String
platform_with bad = record {
  now = λ n. n;
  random_uuid = λ n. "uuid";
  emit_error = λ n. elim bad [ none ↦ none | some k ↦ if eqb k n then some "closed" else none ];
  spawn = λ n c t context.
      ok (record { stdout = ""; stderr = ""; exit_code = some 2; timed_out = false });
  parse_json = λ text. ok empty_output;
  handlers =
      ("blocker", says block "forbidden")
      ∷ ("watcher", says observe "noted")
      ∷ ("broken", throws)
      ∷ [];
}

abbrev hook_at : LifecycleEvent → Runner → Hook
hook_at event runner = record {
  id = "hook";
  enabled = none;
  events = event ∷ [];
  matcher = none;
  handler = record { runner = runner; timeout_ms = none; failure_mode = none };
  timeout_ms = none;
  failure_mode = none;
}

abbrev config_of : List Hook → Config
config_of hooks = record { default_timeout_ms = none; default_failure_mode = none; hooks = hooks }

abbrev context : LifecycleEvent → HookContext String
context event = record {
  event = event;
  run_id = "run";
  scope_id = "scope";
  root_session_id = none;
  session_id = none;
  parent_session_id = none;
  actor_id = none;
  role_id = none;
  tool_name = none;
  tool_call_id = none;
  action = none;
  resource = none;
  prompt = none;
  input = none;
  result = none;
  rest = "";
}

abbrev is_blocked : Result String (RunResult String) → Option Bool
is_blocked (ok r) = some r.blocked
is_blocked (err e) = none

-- A hook that fails blocks a tool, and lets a prompt pass.
fails_closed :
    is_blocked
      (run
        (platform_with none)
        (config_of (hook_at pre_tool_use (in_process "broken") ∷ []))
        (context pre_tool_use)
        new_executor).0
    ≡ some true
unfolding run lookup
fails_closed = refl

fails_open :
    is_blocked
      (run
        (platform_with none)
        (config_of (hook_at user_prompt_submit (in_process "broken") ∷ []))
        (context user_prompt_submit)
        new_executor).0
    ≡ some false
unfolding run lookup
fails_open = refl

-- The decision to block is lost when the stream does not take the event about it.
block_lost :
    is_blocked
      (run
        (platform_with (some 1))
        (config_of (hook_at user_prompt_submit (in_process "blocker") ∷ []))
        (context user_prompt_submit)
        new_executor).0
    ≡ some false
unfolding run lookup
block_lost = refl

abbrev check_command : CommandHandler
check_command = record { command = "check"; args = none; cwd = none; env = none; shell = none }

-- A command that exits with 2 blocks, but not if its output has the decision null.
abbrev answers_null : Platform String
answers_null = record (platform_with none) {
  spawn = λ n c t context. ok (record {
    stdout = "{\"decision\": null}";
    stderr = "";
    exit_code = some 2;
    timed_out = false;
  });
  parse_json = λ text. ok (record empty_output { decision = some null_decision });
}

null_decision_allows :
    is_blocked
      (run answers_null
        (config_of (hook_at pre_tool_use (command_runner check_command) ∷ []))
        (context pre_tool_use)
        new_executor).0
    ≡ some false
unfolding run lookup
null_decision_allows = refl

one_process_for_two_hooks :
    (run
      (platform_with none)
      (config_of (
        hook_at pre_tool_use (command_runner check_command)
        ∷ hook_at pre_tool_use (command_runner (record check_command { args = some [] }))
        ∷ []))
      (context pre_tool_use)
      new_executor).1.commands_run
    ≡ 1
unfolding run
one_process_for_two_hooks = refl

-- The tool counts its executions.
abbrev count : String → ℕ → Result String String × ℕ
count input w = (ok "done", suc w)

abbrev call_with : List Hook → Result String String × Executor String × ℕ
call_with hooks =
    tool_with_hooks (platform_with none) (config_of hooks) count (λ r. r) (λ e. e) (some "tool")
      (context pre_tool_use) none "input" new_executor 0

blocked_tool : (call_with (hook_at pre_tool_use (in_process "blocker") ∷ [])).2 ≡ 0
unfolding tool_with_hooks lookup
blocked_tool = refl

-- The error gives the reason of a hook that did not block.
reason_of_another :
    (call_with (
      hook_at pre_tool_use (in_process "watcher")
      ∷ hook_at pre_tool_use (in_process "blocker")
      ∷ [])).0
    ≡ err "noted"
unfolding tool_with_hooks lookup
reason_of_another = refl

-- A hook that blocks behind the tool is run a second time.
post_hook_runs_twice :
    length (call_with (hook_at post_tool_use (in_process "blocker") ∷ [])).1.decisions ≡ 2
unfolding tool_with_hooks lookup
post_hook_runs_twice = refl

abbrev two_hooks : Config
two_hooks =
    config_of (
      hook_at pre_tool_use (in_process "watcher") ∷ hook_at pre_tool_use (in_process "broken") ∷ [])

tool_with_hooks-Guarded_example :
    Guarded count "input" 0
      (pre_run
        (platform_with none)
        two_hooks
        count
        (λ r. r)
        (λ e. e)
        (some "tool")
        (context pre_tool_use)
        none
        "input"
        new_executor)
      (post_run
        (platform_with none)
        two_hooks
        count
        (λ r. r)
        (λ e. e)
        (some "tool")
        (context pre_tool_use)
        none)
      (tool_with_hooks
        (platform_with none)
        two_hooks
        count
        (λ r. r)
        (λ e. e)
        (some "tool")
        (context pre_tool_use)
        none
        "input"
        new_executor
        0)
tool_with_hooks-Guarded_example =
    tool_with_hooks-Guarded (platform_with none) two_hooks count (λ r. r) (λ e. e) (some "tool")
      (context pre_tool_use) none "input" new_executor 0
