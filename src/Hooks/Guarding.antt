-- ===== src/Hooks/Guarding.antt =====
-- What the hooks of packages/core/src/harness/lifecycle-hooks.ts guard: the execution of a tool.
use generic_ai.Base.{
  String, ◌≡◌, refl, ap, sym, ◌∙◌, inl, inr, true, false, not, leb, Option, none, some, List, [],
  ◌∷◌, length, keep_if, get_or, if_cases, Bool-cases, arith,
}
use generic_ai.Base.Exec.{Result, ok, err}
use generic_ai.Hooks.{pre_tool_use, post_tool_use, Hook, is_enabled, Config, HookContext}
use generic_ai.Hooks.Records.{Executor, RunResult, Platform, run_result}
use generic_ai.Hooks.Executor.{run, has_hooks}
use generic_ai.Hooks.Tool.{
  context_at, rethrown, caught, after_post, after_execute, after_pre, unwrapped, wrapped_execute,
  tool_with_hooks,
}

-- How a tool was let through, or not. `pre` is what the run of the hooks before the tool gives.
pub data Guarded {J R W : Type 0} (execute : J → W → Result String R × W) (input : J) (w : W)
    (pre : Result String (RunResult J)) (post : J → R → Executor J → Result String (RunResult J))
    (x : Result String R × Executor J × W) : Type 0 where
  hooks_failed :
      (e : String) → pre ≡ err e → x.0 ≡ err e → x.2 ≡ w → Guarded execute input w pre post x
  stopped :
      (p : RunResult J) (e : String)
      → pre ≡ ok p
      → p.blocked ≡ true
      → x.0 ≡ err e
      → x.2 ≡ w
      → Guarded execute input w pre post x
  failed :
      (p : RunResult J) (e : String)
      → pre ≡ ok p
      → p.blocked ≡ false
      → x.0 ≡ err e
      → x.2 ≡ (execute (get_or p.input input) w).1
      → Guarded execute input w pre post x
  returned :
      (p q : RunResult J) (r : R) (s : Executor J)
      → pre ≡ ok p
      → p.blocked ≡ false
      → (execute (get_or p.input input) w).0 ≡ ok r
      → post (get_or p.input input) r s ≡ ok q
      → q.blocked ≡ false
      → x.0 ≡ ok r
      → x.2 ≡ (execute (get_or p.input input) w).1
      → Guarded execute input w pre post x

module _ {J R W : Type 0} (platform : Platform J) (config : Config)
    (execute : J → W → Result String R × W) (to_json : R → J) (error_json : String → J)
    (name : Option String) (base : HookContext J) (tool_call_id : Option String) where
  -- What the hooks behind the tool give, for the result of the tool.
  abbrev pub post_run : J → R → Executor J → Result String (RunResult J)
  post_run input r s =
      (run platform config
        (context_at platform config execute to_json error_json name base tool_call_id post_tool_use
          input (some (to_json r)))
        s).0

  abbrev pub pre_run : J → Executor J → Result String (RunResult J)
  pre_run input s =
      (run platform config
        (context_at platform config execute to_json error_json name base tool_call_id pre_tool_use
          input none)
        s).0

  rethrown-err :
      (e : String) (w : W) (y : Result String (RunResult J) × Executor J)
      → let x = rethrown platform config execute to_json error_json name base tool_call_id e w y in
        ((other : String) × (x.0 ≡ err other)) × (x.2 ≡ w)
  rethrown-err e w (ok r, s) = ((e, refl), refl)
  rethrown-err e w (err other, s) = ((other, refl), refl)

  module _ (input : J) (w : W) (pre : Result String (RunResult J)) (p : RunResult J)
      (ran : pre ≡ ok p) (free : p.blocked ≡ false) where
    abbrev next : J
    next = get_or p.input input

    abbrev G : Result String R × Executor J × W → Type 0
    G x = Guarded execute input w pre post_run x

    caught-Guarded :
        (e : String) (s : Executor J) (v : W)
        → v ≡ (execute next w).1
        → G (caught platform config execute to_json error_json name base tool_call_id next e s v)
    unfolding caught
    caught-Guarded e s v same =
        let ((other, thrown), kept) = rethrown-err e v _ in
        failed p other ran free thrown (kept ∙ same)

    after_post-Guarded :
        (r : R) (v : W) (s : Executor J) (y : Result String (RunResult J) × Executor J)
        → y.0 ≡ post_run next r s
        → (execute next w).0 ≡ ok r
        → v ≡ (execute next w).1
        → G (
            after_post platform config execute to_json error_json name base tool_call_id next r v y)
    after_post-Guarded r v s (ok q, t) is_post did same =
        if_cases G q.blocked (λ blocks. caught-Guarded _ t v same)
          (λ passes. returned p q r s ran free did (sym is_post) passes refl same)
    after_post-Guarded r v s (err e, t) is_post did same = caught-Guarded e t v same

    after_execute-Guarded :
        (s : Executor J) (z : Result String R × W)
        → z ≡ execute next w
        → G (
            after_execute platform config execute to_json error_json name base tool_call_id next s
              z)
    after_execute-Guarded s (ok r, v) did =
        after_post-Guarded r v s _ refl (sym (ap (λ q. q.0) did)) (ap (λ q. q.1) did)
    after_execute-Guarded s (err e, v) did = caught-Guarded e s v (ap (λ q. q.1) did)

  after_pre-Guarded :
      (input : J) (w : W) (y : Result String (RunResult J) × Executor J)
      → Guarded execute input w y.0 post_run
          (after_pre platform config execute to_json error_json name base tool_call_id input w y)
  after_pre-Guarded input w (ok p, s) =
      if_cases (Guarded execute input w (ok p) post_run) p.blocked
        (λ blocks. stopped p _ refl blocks refl refl)
        (λ passes. after_execute-Guarded input w (ok p) p refl passes s _ refl)
  after_pre-Guarded input w (err e, s) = hooks_failed e refl refl refl

  wrapped-Guarded :
      (input : J) (s : Executor J) (w : W)
      → Guarded execute input w (pre_run input s) post_run (
          wrapped_execute platform config execute to_json error_json name base tool_call_id input s
            w)
  unfolding wrapped_execute
  wrapped-Guarded input s w = after_pre-Guarded input w (
      run platform config
        (context_at platform config execute to_json error_json name base tool_call_id pre_tool_use
          input none)
        s)

  -- Without enabled hooks every run is empty.
  run_without :
      (context : HookContext J) (s : Executor J)
      → has_hooks platform config ≡ false
      → (run platform config context s).0 ≡ ok (run_result [])
  unfolding run
  run_without context s e =
      let empty : keep_if is_enabled config.hooks ≡ [] =
        no_hooks (keep_if is_enabled config.hooks) e in
      rw empty refl
    where
      no_hooks : (hooks : List Hook) → not (leb (length hooks) 0) ≡ false → hooks ≡ []
      no_hooks [] h = refl
      no_hooks (hook ∷ hooks) h = ground arith

  unwrapped-Guarded :
      (input : J) (s : Executor J) (w : W) (z : Result String R × W)
      → has_hooks platform config ≡ false
      → z ≡ execute input w
      → Guarded execute input w
          (pre_run input s)
          post_run
          (unwrapped platform config execute to_json error_json name base tool_call_id s z)
  unwrapped-Guarded input s w (ok r, v) e did =
      returned (run_result []) (run_result []) r s (run_without _ s e) refl
        (sym (ap (λ q. q.0) did)) (run_without _ s e) refl refl (ap (λ q. q.1) did)
  unwrapped-Guarded input s w (err x, v) e did =
      failed (run_result []) x (run_without _ s e) refl refl (ap (λ q. q.1) did)

  -- A tool with hooks is not executed when a run of the hooks fails or blocks before it: its world is
  -- as it was, and the call throws. Otherwise it is executed once, with the input as the hooks have
  -- rewritten it, and its result is returned only if it returned one and the hooks behind it have
  -- run and not blocked.
  pub tool_with_hooks-Guarded :
      (input : J) (s : Executor J) (w : W)
      → Guarded execute input w (pre_run input s) post_run (
          tool_with_hooks platform config execute to_json error_json name base tool_call_id input s
            w)
  unfolding tool_with_hooks
  tool_with_hooks-Guarded input s w = elim (Bool-cases (has_hooks platform config)) [
    | inl some_hooks ↦ rw some_hooks (wrapped-Guarded input s w)
    | inr bare ↦ rw bare (unwrapped-Guarded input s w (execute input w) bare refl)
  ]
