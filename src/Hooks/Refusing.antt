-- ===== src/Hooks/Refusing.antt =====
-- A hook of packages/core/src/harness/lifecycle-hooks.ts that gives no record was stopped by the event
-- stream: what its handler throws is caught.
use generic_ai.Base.{
  ℕ, String, ◌≡◌, ap, inl, inr, Option, none, some, sym, ◌∙◌, Option-cases, length,
}
use generic_ai.Base.Exec.{Result, ok, err}
use generic_ai.Hooks.{Hook, Config, HookContext, HookOutput, failure_mode_for}
use generic_ai.Hooks.Records.{
  DecisionRecord, HookEventData, decision_data, start_data, type_name, tick, push, Executor,
  Platform,
}
use generic_ai.Hooks.Executor.{
  emit_hook_event, decision_record, failure_output, recorded, hook_failed, after_completed,
  after_decision, after_handler, after_started, run_one,
}

module _ {J : Type 0} (platform : Platform J) (config : Config) (context : HookContext J) where
  -- An error is one of the event stream.
  abbrev pub Refuses : {A : Type 0} → Result String A → Type 0
  Refuses x = (e : String) → x ≡ err e → (n : ℕ) × (platform.emit_error n ≡ some e)

  emit-Refuses :
      (name : String) (d : HookEventData J) (s : Executor J)
      → Refuses (emit_hook_event platform config name context d s).0
  unfolding emit_hook_event
  emit-Refuses name d s e h = elim (Option-cases (platform.emit_error (length s.events))) [
    | inl silent ↦ cc (h, ap threw silent)
    | inr (y, at) ↦ (length s.events, at ∙ ap some (err-injective (sym (ap threw at) ∙ h)))
  ]
    where
      threw : Option String → Result String (Unit {0})
      threw o = elim o [ none ↦ ok tt | some y ↦ err y ]

      err-injective : {y x : String} → ◌≡◌ {A = Result String (Unit {0})} (err y) (err x) → y ≡ x
      err-injective q = cc

  module _ (hook : Hook) where
    hook_failed-Refuses :
        (t : ℕ) (x : String) (s : Executor J)
        → Refuses (hook_failed platform config hook context t x s).0
    unfolding hook_failed
    hook_failed-Refuses t x s =
        let mode = failure_mode_for config hook context in
        let r =
          decision_record platform config hook context (failure_output platform config mode x)
            (some x) t s in
        recorded-Refuses r
          (emit_hook_event platform config "hook.execution.failed" context (decision_data r)
            (push r s))
          (emit-Refuses "hook.execution.failed" (decision_data r) (push r s))
      where
        recorded-Refuses :
            (r : DecisionRecord J) (y : Result String (Unit {0}) × Executor J)
            → Refuses y.0
            → Refuses (recorded platform config r y).0
        recorded-Refuses r (ok done, s) h e q = cc
        recorded-Refuses r (err y, s) h e q = h e (cc)

    decision-Refuses :
        (t : ℕ) (r : DecisionRecord J) (y : Result String (Unit {0}) × Executor J)
        → Refuses (after_decision platform config hook context t r y).0
    decision-Refuses t r (err x, s) = hook_failed-Refuses t x s
    decision-Refuses t r (ok done, s) = completed-Refuses t r _
      where
        completed-Refuses :
            (t : ℕ) (r : DecisionRecord J) (y : Result String (Unit {0}) × Executor J)
            → Refuses (after_completed platform config hook context t r y).0
        completed-Refuses t r (ok done, s) e q = cc
        completed-Refuses t r (err x, s) e q = hook_failed-Refuses t x s e q

    handler-Refuses :
        (t : ℕ) (y : Result String (HookOutput J) × Executor J)
        → Refuses (after_handler platform config hook context t y).0
    handler-Refuses t (ok out, s) = decision-Refuses t _ _
    handler-Refuses t (err x, s) = hook_failed-Refuses t x s

    started-Refuses :
        (t : ℕ) (y : Result String (Unit {0}) × Executor J)
        → Refuses y.0
        → Refuses (after_started platform config hook context t y).0
    started-Refuses t (ok done, s) h e q = handler-Refuses t _ e q
    started-Refuses t (err x, s) h e q = h e cc

    pub one-Refuses : (s : Executor J) → Refuses (run_one platform config hook context s).0
    unfolding run_one
    one-Refuses s =
        let started = start_data hook.id context.event (type_name hook.handler.runner) in
        started-Refuses (platform.now s.clock_reads)
          (emit_hook_event platform config "hook.execution.started" context started (tick s))
          (emit-Refuses "hook.execution.started" started (tick s))
