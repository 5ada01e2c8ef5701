-- ===== src/PluginHost/Lifecycle.antt =====
-- plugin-host.ts, `runLifecycle`: in which order the hooks run, and what stops them.
use mathlib.Core.List.{reverse-cons, append_assoc}
use generic_ai.Base.{
  String, ◌≡◌, refl, sym, ◌∙◌, ap, true, List, [], ◌∷◌, ◌++◌, contains, every, reverse, subst, none,
  some, Option-cases, inl, inr,
}
use generic_ai.Base.Exec.{Exec, Result, ok, err, continue, ◌>>◌}
use generic_ai.PluginHost.Types.{Plugin, id_of, deps_of, ids}
use generic_ai.PluginHost.{
  Host, Phase, setup, start, stop, Lifecycle, LifecycleError, hook_of, hook_result, run_hook,
  order_result, hook_error, list, run_hooks, run_lifecycle, resolve_order,
}
use generic_ai.PluginHost.Order.Plan.{IsOrdered, resolve-IsOrdered, ids-append}

module _ {R W X : Type 0} where
  -- Each plugin's dependencies stand behind it, or in `seen`.
  abbrev pub IsReversed : List String → List (Plugin R (Lifecycle W X)) → Type 0
  IsReversed seen [] = Unit
  IsReversed seen (p ∷ ps) =
      (every (contains (ids ps ++ seen)) (deps_of p) ≡ true) × IsReversed seen ps

  IsReversed-snoc :
      (seen : List String) (ps : List (Plugin R (Lifecycle W X))) (p : Plugin R (Lifecycle W X))
      → IsReversed (id_of p ∷ seen) ps
      → every (contains seen) (deps_of p) ≡ true
      → IsReversed seen (ps ++ p ∷ [])
  IsReversed-snoc seen [] p h e = (e, tt)
  IsReversed-snoc seen (q ∷ ps) p h e = (
    subst (λ t. every (contains t) (deps_of q) ≡ true)
        (sym (append_assoc (ids ps) (id_of p ∷ []) seen)
          ∙ ap (λ t. t ++ seen) (sym (ids-append ps (p ∷ []))))
        h.0,
    IsReversed-snoc seen ps p h.1 e,
  )

  IsReversed-reverse :
      (seen : List String) (ps : List (Plugin R (Lifecycle W X)))
      → IsOrdered seen ps
      → IsReversed seen (reverse ps)
  IsReversed-reverse seen [] h = tt
  IsReversed-reverse seen (p ∷ ps) h =
      rw (reverse-cons p ps)
        (IsReversed-snoc seen (reverse ps) p (IsReversed-reverse (id_of p ∷ seen) ps h.1) h.0)

  -- What running the hooks of some plugins comes to: each hook runs on what the one before has left,
  -- a plugin without one is passed over, and an error of a hook is the end.
  pub data Ran (phase : Phase)
      : List (Plugin R (Lifecycle W X))
        → W
        → Result (LifecycleError X) (Unit {0}) × W
        → Type 0 where
    all_ran : (w : W) → Ran phase [] w (ok tt, w)
    no_hook :
        (p : Plugin R (Lifecycle W X)) (ps : List (Plugin R (Lifecycle W X))) (w : W)
        (x : Result (LifecycleError X) (Unit {0}) × W)
        → hook_of phase p ≡ none
        → Ran phase ps w x
        → Ran phase (p ∷ ps) w x
    hook_ran :
        (p : Plugin R (Lifecycle W X)) (ps : List (Plugin R (Lifecycle W X)))
        (hook : Exec W X (Unit {0})) (w v : W) (x : Result (LifecycleError X) (Unit {0}) × W)
        → hook_of phase p ≡ some hook
        → hook w ≡ (ok tt, v)
        → Ran phase ps v x
        → Ran phase (p ∷ ps) w x
    hook_threw :
        (p : Plugin R (Lifecycle W X)) (ps : List (Plugin R (Lifecycle W X)))
        (hook : Exec W X (Unit {0})) (w v : W) (e : X)
        → hook_of phase p ≡ some hook
        → hook w ≡ (err e, v)
        → Ran phase (p ∷ ps) w (err (hook_error e), v)

  hook-Ran :
      (phase : Phase) (p : Plugin R (Lifecycle W X)) (ps : List (Plugin R (Lifecycle W X))) (w : W)
      (hook : Exec W X (Unit {0}))
      → hook_of phase p ≡ some hook
      → ((v : W) → Ran phase ps v (run_hooks phase ps v))
      → (x : Result X (Unit {0}) × W) → hook w ≡ x
      → Ran phase (p ∷ ps) w (continue (hook_result x.0) (λ _. run_hooks phase ps) x.1)
  hook-Ran phase p ps w hook found rest (ok done, v) e = hook_ran p ps hook w v _ found e (rest v)
  hook-Ran phase p ps w hook found rest (err e, v) h = hook_threw p ps hook w v e found h

  run_hooks-Ran :
      (phase : Phase) (ps : List (Plugin R (Lifecycle W X))) (w : W)
      → Ran phase ps w (run_hooks phase ps w)
  unfolding run_hooks
  run_hooks-Ran phase [] w = all_ran w
  run_hooks-Ran phase (p ∷ ps) w = elim (Option-cases (hook_of phase p)) [
    | inl missing ↦ rw missing (no_hook p ps w _ missing (run_hooks-Ran phase ps w))
    | inr (hook, found) ↦
        rw found (hook-Ran phase p ps w hook found (run_hooks-Ran phase ps) (hook w) refl)
  ]

  -- Where the plugins have an order, `setup` and `start` run the hooks in it, each plugin's behind
  -- those of its dependencies; `stop` runs them backwards, each before those of its dependencies.
  -- Each hook runs on what the one before has left, and the first to throw ends the phase with its
  -- error.
  pub run_lifecycle_order :
      (h : Host R (Lifecycle W X)) (plan : List (Plugin R (Lifecycle W X))) (w : W)
      → resolve_order h ≡ ok plan
      → Ran setup plan w (run_lifecycle setup h w)
        × Ran start plan w (run_lifecycle start h w)
        × Ran stop (reverse plan) w (run_lifecycle stop h w)
        × IsOrdered [] plan
        × IsReversed [] (reverse plan)
  unfolding run_lifecycle resolve_order
  run_lifecycle_order h plan w e =
      let (ordered, _, _, _) = resolve-IsOrdered (list h) plan e in
      (
        subst (λ r. Ran setup plan w (order_result setup r w)) (sym e) (run_hooks-Ran setup plan w),
        subst (λ r. Ran start plan w (order_result start r w)) (sym e) (run_hooks-Ran start plan w),
        subst (λ r. Ran stop (reverse plan) w (order_result stop r w)) (sym e)
            (run_hooks-Ran stop (reverse plan) w),
        ordered,
        IsReversed-reverse [] plan ordered,
      )

  continue-append :
      (phase : Phase) (ps qs : List (Plugin R (Lifecycle W X)))
      (r : Result (LifecycleError X) (Unit {0})) (w : W)
      → ((v : W) → run_hooks phase (ps ++ qs) v ≡ (run_hooks phase ps >> run_hooks phase qs) v)
      → continue r (λ _. run_hooks phase (ps ++ qs)) w
        ≡ (continue r (λ _. run_hooks phase ps) >> run_hooks phase qs) w
  continue-append phase ps qs (ok _) w same = same w
  continue-append phase ps qs (err e) w same = refl

  -- Running two rows of plugins is running the first, and the second only if no hook has thrown.
  pub run_hooks-append :
      (phase : Phase) (ps qs : List (Plugin R (Lifecycle W X))) (w : W)
      → run_hooks phase (ps ++ qs) w ≡ (run_hooks phase ps >> run_hooks phase qs) w
  unfolding run_hooks
  run_hooks-append phase [] qs w = refl
  run_hooks-append phase (p ∷ ps) qs w =
      let (r, w') = run_hook (hook_of phase p) w in
      continue-append phase ps qs r w' (run_hooks-append phase ps qs)
