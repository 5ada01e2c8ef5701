-- ===== src/Hooks/Deciding.antt =====
-- What a run of the hooks of packages/core/src/harness/lifecycle-hooks.ts comes to, by what each of
-- the hooks that match has come to.
use generic_ai.Base.{ℕ, String, ◌≡◌, Bool, true, false, some, List, [], ◌∷◌, suc, ◌⊎◌, length}
use generic_ai.Base.Exec.{Result, ok, err}
use generic_ai.Hooks.{allow, decision_or, Hook, Config, HookContext, HookOutput, failure_mode_for}
use generic_ai.Hooks.Records.{
  DecisionRecord, start_data, type_name, tick, Executor, RunResult, Platform, is_block, some_blocks,
}
use generic_ai.Hooks.Executor.{emit_hook_event, run_handler, decision_of_mode, run_one}

module _ {J : Type 0} (platform : Platform J) (config : Config) (context : HookContext J) where
  -- The executor when the handler of a hook is called: the start of the hook has been announced.
  abbrev pub announced : Hook → Executor J → Executor J
  announced hook s =
      (emit_hook_event platform config "hook.execution.started" context
        (start_data hook.id context.event (type_name hook.handler.runner)) (tick s)).1

  -- What the handler of a hook gives when the hook is run at `s`, and the executor behind it.
  abbrev pub handled : Hook → Executor J → Result String (HookOutput J) × Executor J
  handled hook s = run_handler platform config hook.handler.runner hook context (announced hook s)

  -- The handler of a hook that is run at `s` has thrown, or the event stream has refused one of the
  -- two events about its decision.
  pub data Failed (hook : Hook) (s : Executor J) : Type 0 where
    handler_threw : (e : String) → (handled hook s).0 ≡ err e → Failed hook s
    decision_refused :
        (e : String)
        → platform.emit_error (length (handled hook s).1.events) ≡ some e
        → Failed hook s
    completion_refused :
        (e : String)
        → platform.emit_error (suc (length (handled hook s).1.events)) ≡ some e
        → Failed hook s

  -- Whether a hook that is run at `s` has blocked: by the output of its handler, or, when it has
  -- failed, by its mode.
  pub data Verdict (b : Bool) (hook : Hook) (s : Executor J) : Type 0 where
    by_handler :
        (out : HookOutput J)
        → (handled hook s).0 ≡ ok out
        → is_block (decision_or out.decision allow) ≡ b
        → Verdict b hook s
    by_failure :
        Failed hook s
        → is_block (decision_of_mode platform config (failure_mode_for config hook context)) ≡ b
        → Verdict b hook s

  -- The hooks are run one after another from `s` on, and none of them has blocked.
  abbrev pub NoneBlocks : List Hook → Executor J → Type 0
  NoneBlocks [] s = Unit
  NoneBlocks (hook ∷ hooks) s =
      Verdict false hook s × NoneBlocks hooks (run_one platform config hook context s).1

  -- One of the hooks that are run from `s` on has blocked.
  abbrev pub SomeBlocks : List Hook → Executor J → Type 0
  SomeBlocks [] s = ⊥
  SomeBlocks (hook ∷ hooks) s =
      Verdict true hook s ⊎ SomeBlocks hooks (run_one platform config hook context s).1

  pub data Decided (hooks : List Hook) (s : Executor J) (x : Result String (RunResult J))
      : Type 0 where
    fails : (e : String) (n : ℕ) → x ≡ err e → platform.emit_error n ≡ some e → Decided hooks s x
    passes :
        (r : RunResult J) → x ≡ ok r → r.blocked ≡ false → NoneBlocks hooks s → Decided hooks s x
    blocks :
        (r : RunResult J) → x ≡ ok r → r.blocked ≡ true → SomeBlocks hooks s → Decided hooks s x

  module _ (hook : Hook) (begun : Executor J) where
    -- The record of the hook, if there is one, says what has become of the hook.
    abbrev IsRight : Result String (DecisionRecord J) × Executor J → Type 0
    IsRight x = (r : DecisionRecord J) → x.0 ≡ ok r → Verdict (is_block r.decision) hook begun

    -- An error of the stream explains that the hook fails.
    abbrev Blames : Result String (Unit {0}) × Executor J → Type 0
    Blames y = (x : String) → y.0 ≡ err x → Failed hook begun

  -- All the records: none blocks and no hook has, or a hook has.
  data Judged (hooks : List Hook) (s : Executor J) (x : Result String (List (DecisionRecord J)))
      : Type 0 where
    broken : (e : String) (n : ℕ) → x ≡ err e → platform.emit_error n ≡ some e → Judged hooks s x
    clear :
        (rs : List (DecisionRecord J))
        → x ≡ ok rs
        → some_blocks rs ≡ false
        → NoneBlocks hooks s
        → Judged hooks s x
    barred :
        (rs : List (DecisionRecord J))
        → x ≡ ok rs
        → some_blocks rs ≡ true
        → SomeBlocks hooks s
        → Judged hooks s x
