-- ===== src/Events/Taxonomy.antt =====
-- packages/core/src/events/taxonomy.ts: the names of canonical events, their families and
-- `createCanonicalEvent`. The numbers are natural: a sequence that is not positive counts as 0.
use Prim.Native.Char.{code}
use Prim.Native.String
use text.Mathlib.Text.{starts_with}
use generic_ai.Base.{
  ℕ, suc, String, Bool, ◌&&◌, ◌||◌, Option, none, some, List, [], ◌∷◌, ◌++◌, contains,
  if◌then◌else◌, get_or, leb, ltb, eqb,
}
use generic_ai.Base.Dict.{Dict}

pub data Family : Type 0 where
  run session delegation handoff tool terminal policy hook artifact plugin : Family

abbrev pub family_text : Family → String
family_text Family.run = "run"
family_text Family.session = "session"
family_text Family.delegation = "delegation"
family_text Family.handoff = "handoff"
family_text Family.tool = "tool"
family_text Family.terminal = "terminal"
family_text Family.policy = "policy"
family_text Family.hook = "hook"
family_text Family.artifact = "artifact"
family_text Family.plugin = "plugin"

pub data Namespace : Type 0 where
  core plugin : Namespace

abbrev pub namespace_text : Namespace → String
namespace_text Namespace.core = "core"
namespace_text Namespace.plugin = "plugin"

abbrev run_names : List String
run_names = "run.created" ∷ "run.started" ∷ "run.completed" ∷ "run.failed" ∷ "run.cancelled" ∷ []

abbrev session_names : List String
session_names =
    "session.created" ∷ "session.started" ∷ "session.completed" ∷ "session.failed"
    ∷ "session.cancelled" ∷ "session.child.created" ∷ "session.child.started"
    ∷ "session.child.completed" ∷ "session.child.failed" ∷ "session.child.cancelled" ∷ []

abbrev delegation_names : List String
delegation_names =
    "delegation.requested" ∷ "delegation.accepted" ∷ "delegation.rejected" ∷ "delegation.completed"
    ∷ "delegation.failed" ∷ "delegation.cancelled" ∷ []

abbrev handoff_names : List String
handoff_names =
    "handoff.requested" ∷ "handoff.accepted" ∷ "handoff.completed" ∷ "handoff.failed"
    ∷ "handoff.cancelled" ∷ []

abbrev tool_call_names : List String
tool_call_names = "tool.call.started" ∷ "tool.call.completed" ∷ "tool.call.failed" ∷ []

abbrev terminal_command_names : List String
terminal_command_names =
    "terminal.command.started" ∷ "terminal.command.completed" ∷ "terminal.command.failed" ∷ []

abbrev policy_names : List String
policy_names = "policy.decision" ∷ []

abbrev hook_names : List String
hook_names =
    "hook.execution.started" ∷ "hook.execution.completed" ∷ "hook.execution.failed"
    ∷ "hook.decision" ∷ []

abbrev artifact_names : List String
artifact_names = "artifact.created" ∷ []

abbrev core_event_names : List String
core_event_names =
    run_names
    ++ (session_names
        ++ (delegation_names
            ++ (handoff_names
                ++ (tool_call_names
                    ++ (terminal_command_names
                        ++ (policy_names ++ (hook_names ++ artifact_names)))))))

unfoldable pub is_core_event_name : String → Bool
is_core_event_name name = contains core_event_names name

-- `name.split(".").length`
split_count : String → ℕ
split_count String.[] = 1
split_count (String.◌∷◌ c s) = if eqb (code c) b'.' then suc (split_count s) else split_count s

unfoldable pub is_plugin_event_name : String → Bool
unfolding split_count
is_plugin_event_name name = starts_with name "plugin." && leb 3 (split_count name)

unfoldable pub is_event_name : String → Bool
unfolding is_core_event_name is_plugin_event_name
is_event_name name = is_core_event_name name || is_plugin_event_name name

unfoldable pub event_family : String → Option Family
unfolding is_plugin_event_name
event_family name =
    if starts_with name "run."
    then some Family.run
    else if starts_with name "session."
    then some Family.session
    else if starts_with name "delegation."
    then some Family.delegation
    else if starts_with name "handoff."
    then some Family.handoff
    else if starts_with name "tool."
    then some Family.tool
    else if starts_with name "terminal."
    then some Family.terminal
    else if starts_with name "policy."
    then some Family.policy
    else if starts_with name "hook."
    then some Family.hook
    else if starts_with name "artifact."
    then some Family.artifact
    else if is_plugin_event_name name
    then some Family.plugin
    else none

pub record Origin : Type 0 where
  pub namespace : Namespace
  pub plugin_id : Option String
  pub subsystem : Option String

pub record OriginInput : Type 0 where
  pub namespace : Option Namespace
  pub plugin_id : Option String
  pub subsystem : Option String

pub record Context : Type 0 where
  pub scope_id : String
  pub run_id : String
  pub root_session_id : String
  pub session_id : String
  pub parent_session_id : Option String
  pub delegation_id : Option String

pub record Event (V : Type 0) : Type 0 where
  pub event_id : String
  pub sequence : ℕ
  pub occurred_at : String
  pub name : String
  pub context : Context
  pub origin : Origin
  pub payload : Dict V

pub record EventInput (V : Type 0) : Type 0 where
  pub event_id : Option String
  pub sequence : Option ℕ
  pub occurred_at : Option String
  pub name : String
  pub context : Context
  pub origin : Option OriginInput
  pub payload : Option (Dict V)

abbrev origin_of : Option OriginInput → Origin
origin_of none = record { namespace = Namespace.core; plugin_id = none; subsystem = none }
origin_of (some o) = record {
  namespace = get_or o.namespace Namespace.core;
  plugin_id = o.plugin_id;
  subsystem = o.subsystem;
}

-- The input's own sequence, if it is positive, else that of the options, else 0.
abbrev pub sequence_of : Option ℕ → Option ℕ → ℕ
sequence_of none option = get_or option 0
sequence_of (some n) option = if ltb 0 n then n else get_or option 0

-- `fresh_id` and `now` are what the id factory and the clock answer, if they are asked.
unfoldable pub create_event : {V : Type 0} → String → String → Option ℕ → EventInput V → Event V
create_event fresh_id now option input = record {
  event_id = get_or input.event_id fresh_id;
  sequence = sequence_of input.sequence option;
  occurred_at = get_or input.occurred_at now;
  name = input.name;
  context = input.context;
  origin = origin_of input.origin;
  payload = get_or input.payload [];
}

-- The event of a plugin, named after it.
unfoldable pub create_plugin_event :
    {V : Type 0} → String → String → Option ℕ → String → String → EventInput V → Event V
unfolding create_event
create_plugin_event fresh_id now option plugin_id local_name input =
    create_event fresh_id now option (record input {
      name = String.◌++◌ "plugin." (String.◌++◌ plugin_id (String.◌++◌ "." local_name));
      origin = some (record {
        namespace = some Namespace.plugin;
        plugin_id = some plugin_id;
        subsystem = elim input.origin [ none ↦ none | some o ↦ o.subsystem ];
      });
    })
