-- ===== src/Hooks/Executor.antt =====
-- packages/core/src/harness/lifecycle-hooks.ts: the executor of hooks. The hooks of a run are taken one
-- after another; in the program their waits overlap, which can change the order of `decisions` and
-- the readings of the clock.
use Prim.Native.String
use generic_ai.Base.{
  ℕ, suc, String, Bool, not, leb, Option, none, some, List, [], ◌∷◌, ◌++◌, length, get_or, keep_if,
}
use generic_ai.Base.Numbers.{number_text}
use generic_ai.Base.Dict.{lookup}
use generic_ai.Base.Exec.{Result, ok, err, and_then}
use generic_ai.Hooks.{
  Decision, decision_or, allow, block, observe, FailureMode, fail_open, fail_closed, CommandHandler,
  command_runner, in_process, other_type, Runner, Hook, Config, HookContext, HookOutput,
  empty_output, matches_hook, failure_mode_for, timeout_for, is_enabled, same_command,
  normalize_command_result,
}
use generic_ai.Hooks.Records.{
  DecisionRecord, HookEventData, start_data, decision_data, HookEvent, Executor, RunResult,
  Platform, type_name, status_for_decision, find_run, run_result, tick, push,
}

module _ {J : Type 0} (platform : Platform J) (config : Config) where
  abbrev event_of : String → HookContext J → HookEventData J → HookEvent J
  event_of name c d = record {
    name = name;
    run_id = c.run_id;
    scope_id = c.scope_id;
    root_session_id = get_or c.root_session_id "pending-root-session";
    session_id = get_or c.session_id "pending-session";
    parent_session_id = c.parent_session_id;
    data_of = d;
  }

  unfoldable pub emit_hook_event :
      String → HookContext J → HookEventData J → Executor J → Result String (Unit {0}) × Executor J
  emit_hook_event name c d s = (
    elim (platform.emit_error (length s.events)) [ none ↦ ok tt | some e ↦ err e ],
    record s { events = s.events ++ event_of name c d ∷ [] },
  )

  abbrev outcome_of : CommandHandler → Hook → HookContext J → ℕ → Result String (HookOutput J)
  outcome_of c hook context n =
      and_then (platform.spawn n c (timeout_for config hook) context)
        (normalize_command_result platform.parse_json)

  -- Two hooks with the same command line share one run of it.
  unfoldable pub run_command_hook :
      CommandHandler → Hook → HookContext J → Executor J → Result String (HookOutput J) × Executor J
  unfolding same_command timeout_for normalize_command_result
  run_command_hook c hook context s = elim (find_run c s.command_runs) [
    | some r ↦ (r, s)
    | none ↦
        let r = outcome_of c hook context s.commands_run in
        (r, record s { command_runs = (c, r) ∷ s.command_runs; commands_run = suc s.commands_run })
  ]

  unfoldable pub run_in_process_hook :
      String → HookContext J → Executor J → Result String (HookOutput J) × Executor J
  unfolding lookup
  run_in_process_hook ref context s = elim (lookup ref platform.handlers) [
    | none ↦ (
      err (String.◌++◌ "No in-process hook handler is registered for \"" (String.◌++◌ ref "\".")),
      s,
    )
    | some handle ↦ (
      and_then (handle s.handlers_called context) (λ o. ok (get_or o empty_output)),
      record s { handlers_called = suc s.handlers_called },
    )
  ]

  abbrev unsupported_handler_output : String → HookOutput J
  unsupported_handler_output name = record empty_output {
    decision = some observe;
    reason = some (
        String.◌++◌ "Handler type \"" (
          String.◌++◌ name
            "\" is modeled in the SDK but not implemented by the core command executor yet."));
  }

  unfoldable pub run_handler :
      Runner → Hook → HookContext J → Executor J → Result String (HookOutput J) × Executor J
  unfolding run_command_hook run_in_process_hook
  run_handler (command_runner c) hook context s = run_command_hook c hook context s
  run_handler (in_process ref) hook context s = run_in_process_hook ref context s
  run_handler (other_type name) hook context s = (ok (unsupported_handler_output name), s)

  -- The record of a hook that completes in this state.
  abbrev pub decision_record :
      Hook → HookContext J → HookOutput J → Option String → ℕ → Executor J → DecisionRecord J
  decision_record hook context out error started_at s = record {
    id = String.◌++◌ hook.id (
        String.◌++◌ ":" (
          String.◌++◌ (number_text (platform.now s.clock_reads))
            (String.◌++◌ ":" (platform.random_uuid s.ids_made))));
    hook_id = hook.id;
    event = context.event;
    handler_type = type_name hook.handler.runner;
    status = status_for_decision (decision_or out.decision allow) error;
    decision = decision_or out.decision allow;
    started_at = started_at;
    completed_at = platform.now s.clock_reads;
    reason = out.reason;
    prompt = out.prompt;
    input = out.input;
    additional_context = out.additional_context;
    exit_code = out.exit_code;
    error = error;
    metadata = out.metadata;
  }

  abbrev pub decision_of_mode : FailureMode → Decision
  decision_of_mode fail_closed = block
  decision_of_mode fail_open = observe

  abbrev failure_reason : FailureMode → String → String
  failure_reason fail_closed e = String.◌++◌ "Hook failed closed: " e
  failure_reason fail_open e = String.◌++◌ "Hook failed open: " e

  abbrev pub failure_output : FailureMode → String → HookOutput J
  failure_output mode e = record empty_output {
    decision = some (decision_of_mode mode);
    reason = some (failure_reason mode e);
  }

  abbrev pub recorded :
      DecisionRecord J
      → Result String (Unit {0}) × Executor J
      → Result String (DecisionRecord J) × Executor J
  recorded r (ok done, s) = (ok r, s)
  recorded r (err e, s) = (err e, s)

  -- The `catch` of `runOne`.
  unfoldable pub hook_failed :
      Hook → HookContext J → ℕ → String → Executor J → Result String (DecisionRecord J) × Executor J
  unfolding failure_mode_for emit_hook_event
  hook_failed hook context started_at e s =
      let mode = failure_mode_for config hook context in
      let r = decision_record hook context (failure_output mode e) (some e) started_at s in
      recorded r (emit_hook_event "hook.execution.failed" context (decision_data r) (push r s))

  abbrev pub after_completed :
      Hook
      → HookContext J
      → ℕ
      → DecisionRecord J
      → Result String (Unit {0}) × Executor J
      → Result String (DecisionRecord J) × Executor J
  after_completed hook context t r (ok done, s) = (ok r, s)
  after_completed hook context t r (err e, s) = hook_failed hook context t e s

  abbrev pub after_decision :
      Hook
      → HookContext J
      → ℕ
      → DecisionRecord J
      → Result String (Unit {0}) × Executor J
      → Result String (DecisionRecord J) × Executor J
  after_decision hook context t r (ok done, s) =
      after_completed hook context t r
        (emit_hook_event "hook.execution.completed" context (decision_data r) s)
  after_decision hook context t r (err e, s) = hook_failed hook context t e s

  abbrev pub after_handler :
      Hook
      → HookContext J
      → ℕ
      → Result String (HookOutput J) × Executor J
      → Result String (DecisionRecord J) × Executor J
  after_handler hook context t (ok out, s) =
      let r = decision_record hook context out none t s in
      after_decision hook context t r
        (emit_hook_event "hook.decision" context (decision_data r) (push r s))
  after_handler hook context t (err e, s) = hook_failed hook context t e s

  abbrev pub after_started :
      Hook
      → HookContext J
      → ℕ
      → Result String (Unit {0}) × Executor J
      → Result String (DecisionRecord J) × Executor J
  after_started hook context t (ok done, s) =
      after_handler hook context t (run_handler hook.handler.runner hook context s)
  after_started hook context t (err e, s) = (err e, s)

  unfoldable pub run_one :
      Hook → HookContext J → Executor J → Result String (DecisionRecord J) × Executor J
  unfolding emit_hook_event run_handler hook_failed
  run_one hook context s = after_started hook context (platform.now s.clock_reads) (
      emit_hook_event "hook.execution.started" context
        (start_data hook.id context.event (type_name hook.handler.runner)) (tick s))

  -- `Promise.all`: every hook is run, and the first error is that of all.
  abbrev pub add_record :
      Result String (DecisionRecord J)
      → Result String (List (DecisionRecord J))
      → Result String (List (DecisionRecord J))
  add_record (ok r) (ok rs) = ok (r ∷ rs)
  add_record (ok r) (err e) = err e
  add_record (err e) rest = err e

  unfoldable pub run_each :
      List Hook → HookContext J → Executor J → Result String (List (DecisionRecord J)) × Executor J
  unfolding run_one
  run_each [] context s = (ok [], s)
  run_each (hook ∷ hooks) context s =
      let (first, s1) = run_one hook context s in
      let (rest, s2) = run_each hooks context s1 in (add_record first rest, s2)

  abbrev pub matching : HookContext J → List Hook
  matching context = keep_if (matches_hook context) (keep_if is_enabled config.hooks)

  abbrev pub concluded :
      Result String (List (DecisionRecord J)) × Executor J
      → Result String (RunResult J) × Executor J
  concluded (ok rs, s) = (ok (run_result rs), s)
  concluded (err e, s) = (err e, s)

  -- `run(context)`; for no hooks the result is that of no records.
  unfoldable pub run : HookContext J → Executor J → Result String (RunResult J) × Executor J
  unfolding matches_hook run_each
  run context s = concluded (run_each (matching context) context (record s { command_runs = [] }))

  -- `enabled`
  abbrev pub has_hooks : Bool
  has_hooks = not (leb (length (keep_if is_enabled config.hooks)) 0)

  -- `snapshot()`
  abbrev pub snapshot : Executor J → List (DecisionRecord J)
  snapshot s = s.decisions
