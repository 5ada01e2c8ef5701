-- ===== src/Hooks.antt =====
-- packages/core/src/harness/lifecycle-hooks.ts and packages/sdk/src/contracts/agent-lifecycle.ts: the
-- declarations of hooks, which of them match an event, and what becomes of their output. `J` is the
-- type of JSON values.
pub mod Records
pub mod Executor
pub mod Tool
pub mod Refusing
pub mod Deciding
pub mod Guarding
use Prim.Native.String
use generic_ai.Base.{
  ℕ, zero, suc, String, Bool, true, false, ◌&&◌, ◌||◌, Option, none, some, List, [], ◌∷◌,
  if◌then◌else◌, get_or, or_else, ◌==◌,
}
use generic_ai.Base.Text.{trim, is_empty}
use generic_ai.Base.Numbers.{number_text}
use generic_ai.Base.Dict.{Dict}
use generic_ai.Base.Exec.{Result, ok, err, and_then}

pub data LifecycleEvent : Type 0 where
  session_start user_prompt_submit pre_tool_use permission_request post_tool_use stop :
      LifecycleEvent

-- The output of a command is not checked: its decision may be `null` or any other text too.
pub data Decision : Type 0 where
  allow block rewrite append_context observe : Decision
  null_decision : Decision
  other_text : String → Decision

-- `decision ?? fallback`
abbrev pub decision_or : Option Decision → Decision → Decision
decision_or none fallback = fallback
decision_or (some null_decision) fallback = fallback
decision_or (some allow) fallback = allow
decision_or (some block) fallback = block
decision_or (some rewrite) fallback = rewrite
decision_or (some append_context) fallback = append_context
decision_or (some observe) fallback = observe
decision_or (some (other_text t)) fallback = other_text t

pub data FailureMode : Type 0 where
  fail_open fail_closed : FailureMode

pub data HookStatus : Type 0 where
  allowed blocked rewritten appended_context observed failed : HookStatus

pub record Matcher : Type 0 where
  pub actor_id : Option String
  pub role_id : Option String
  pub tool_name : Option String
  pub action : Option String
  pub resource_kind : Option String
  pub resource_id : Option String

pub record CommandHandler : Type 0 where
  pub command : String
  pub args : Option (List String)
  pub cwd : Option String
  pub env : Option (Dict String)
  pub shell : Option Bool

-- What runs for a hook: a command, a handler of this process with its id, or a handler of another
-- type, by the type's name.
pub data Runner : Type 0 where
  command_runner : CommandHandler → Runner
  in_process : String → Runner
  other_type : String → Runner

pub record Handler : Type 0 where
  pub runner : Runner
  pub timeout_ms : Option ℕ
  pub failure_mode : Option FailureMode

pub record Hook : Type 0 where
  pub id : String
  pub enabled : Option Bool
  pub events : List LifecycleEvent
  pub matcher : Option Matcher
  pub handler : Handler
  pub timeout_ms : Option ℕ
  pub failure_mode : Option FailureMode

-- The defaults and the hooks of the configuration.
pub record Config : Type 0 where
  pub default_timeout_ms : Option ℕ
  pub default_failure_mode : Option FailureMode
  pub hooks : List Hook

-- `resource` is the kind and the id of the resource; `rest` the fields that nothing here reads.
pub record HookContext (J : Type 0) : Type 0 where
  pub event : LifecycleEvent
  pub run_id : String
  pub scope_id : String
  pub root_session_id : Option String
  pub session_id : Option String
  pub parent_session_id : Option String
  pub actor_id : Option String
  pub role_id : Option String
  pub tool_name : Option String
  pub tool_call_id : Option String
  pub action : Option String
  pub resource : Option (String × Option String)
  pub prompt : Option String
  pub input : Option J
  pub result : Option J
  pub rest : J

pub record HookOutput (J : Type 0) : Type 0 where
  pub decision : Option Decision
  pub reason : Option String
  pub prompt : Option String
  pub input : Option J
  pub additional_context : Option String
  pub exit_code : Option ℕ
  pub metadata : Option J

pub record CommandResult : Type 0 where
  pub stdout : String
  pub stderr : String
  pub exit_code : Option ℕ
  pub timed_out : Bool

abbrev pub empty_output : {J : Type 0} → HookOutput J
empty_output = record {
  decision = none;
  reason = none;
  prompt = none;
  input = none;
  additional_context = none;
  exit_code = none;
  metadata = none;
}

abbrev pub same_event : LifecycleEvent → LifecycleEvent → Bool
same_event session_start session_start = true
same_event user_prompt_submit user_prompt_submit = true
same_event pre_tool_use pre_tool_use = true
same_event permission_request permission_request = true
same_event post_tool_use post_tool_use = true
same_event stop stop = true
same_event _ _ = false

abbrev pub includes_event : List LifecycleEvent → LifecycleEvent → Bool
includes_event [] e = false
includes_event (d ∷ ds) e = same_event d e || includes_event ds e

abbrev same_option : Option String → Option String → Bool
same_option none none = true
same_option (some a) (some b) = a == b
same_option _ _ = false

unfoldable pub matches_optional : Option String → Option String → Bool
matches_optional none actual = true
matches_optional (some expected) none = false
matches_optional (some expected) (some actual) = expected == actual

abbrev kind_of : Option (String × Option String) → Option String
kind_of none = none
kind_of (some (kind, id)) = some kind

abbrev id_of : Option (String × Option String) → Option String
id_of none = none
id_of (some (kind, id)) = id

abbrev default_mode : LifecycleEvent → FailureMode
default_mode pre_tool_use = fail_closed
default_mode permission_request = fail_closed
default_mode _ = fail_open

unfoldable pub timeout_for : Config → Hook → ℕ
timeout_for config hook =
    get_or (or_else hook.timeout_ms (or_else hook.handler.timeout_ms config.default_timeout_ms))
      5000

module _ {J : Type 0} where
  abbrev pub fits_matcher : Option Matcher → HookContext J → Bool
  fits_matcher none c = true
  fits_matcher (some m) c =
      matches_optional m.actor_id c.actor_id
      && matches_optional m.role_id c.role_id
      && matches_optional m.tool_name c.tool_name
      && matches_optional m.action c.action
      && matches_optional m.resource_kind (kind_of c.resource)
      && matches_optional m.resource_id (id_of c.resource)

  unfoldable pub matches_hook : HookContext J → Hook → Bool
  unfolding matches_optional
  matches_hook c hook = includes_event hook.events c.event && fits_matcher hook.matcher c

  unfoldable pub failure_mode_for : Config → Hook → HookContext J → FailureMode
  failure_mode_for config hook c =
      get_or
        (or_else hook.failure_mode (or_else hook.handler.failure_mode config.default_failure_mode))
        (default_mode c.event)

abbrev pub is_enabled : Hook → Bool
is_enabled hook = get_or hook.enabled true

-- `JSON.stringify` of two command lines gives the same key.
abbrev same_texts : List String → List String → Bool
same_texts [] [] = true
same_texts (a ∷ xs) (b ∷ ys) = a == b && same_texts xs ys
same_texts _ _ = false

abbrev same_entries : Dict String → Dict String → Bool
same_entries [] [] = true
same_entries ((k, v) ∷ d) ((j, w) ∷ e) = (k == j && v == w) && same_entries d e
same_entries _ _ = false

abbrev same_bool : Bool → Bool → Bool
same_bool true b = b
same_bool false true = false
same_bool false false = true

unfoldable pub same_command : CommandHandler → CommandHandler → Bool
same_command c d =
    c.command == d.command
    && same_texts (get_or c.args []) (get_or d.args [])
    && same_option c.cwd d.cwd
    && same_entries (get_or c.env []) (get_or d.env [])
    && same_bool (get_or c.shell false) (get_or d.shell false)

module _ {J : Type 0} (parse : String → Result String (HookOutput J)) where
  -- `stderr.trim() || trimmedStdout`
  abbrev complaint : CommandResult → String
  complaint r = if is_empty (trim r.stderr) then trim r.stdout else trim r.stderr

  -- `{ decision: parsed.decision ?? …, ...parsed }`: a field of the output, also `null`, comes last.
  abbrev by_exit_code : ℕ → CommandResult → HookOutput J → Result String (HookOutput J)
  by_exit_code zero r out =
      ok (record out { decision = or_else out.decision (some allow); exit_code = some 0 })
  by_exit_code (suc (suc zero)) r out = ok (record out {
    decision = or_else out.decision (some block);
    reason = or_else out.reason (some "Hook command exited with code 2.");
    exit_code = some 2;
  })
  by_exit_code n r out = err (
      String.◌++◌ "Hook command failed with exit code "
        (String.◌++◌ (number_text n) (String.◌++◌ ": " (complaint r))))

  unfoldable pub normalize_command_result : CommandResult → Result String (HookOutput J)
  unfolding trim number_text
  normalize_command_result r =
      if r.timed_out
      then err "Hook command timed out."
      else and_then (if is_empty (trim r.stdout) then ok empty_output else parse (trim r.stdout))
          (by_exit_code (get_or r.exit_code 1) r)

unfoldable pub append_hook_context : String → Option String → String
unfolding trim
append_hook_context prompt none = prompt
append_hook_context prompt (some text) =
    if is_empty (trim text)
    then prompt
    else String.◌++◌ prompt (String.◌++◌ "\n\nAdditional hook context:\n" text)
