-- ===== src/Queue/Callbacks.antt =====
-- The callbacks of the event loop keep the invariant of the queue of
-- packages/plugin-queue-memory/src/index.ts, and so does `clear`.
use generic_ai.Base.{
  ℕ, suc, ◌-◌, ◌≤◌, ◌≡◌, refl, false, Option, none, List, [], ◌∷◌, ◌++◌, length, eqb, arith,
  Bool-cases, if_cases, option_cases, inl, inr,
}
use generic_ai.Base.Exec.{Result}
use generic_ai.Queue.Types.{Job, AbortReason, Settlement, rejected, to_abort_error}
use generic_ai.Queue.{Queue, reject_pending, arm, pump}
use generic_ai.Queue.Calls.{
  take_out, clear, clear_reason, on_abort, on_timer, on_immediate, on_handler, on_finally,
  finish_close,
}
use generic_ai.Queue.Sorted.{Taken, take_out-Taken, All-delete, Taken-Sorted, length-Taken}
use generic_ai.Queue.Invariant.{IsCore, IsWithin-less}
use generic_ai.Queue.Steps.{IsValid, nat_cases}
use generic_ai.Queue.Kept.{arm-IsValid, pump-IsValid}

module _ {V R X : Type 0} (now : ℕ → ℕ) where
  pub clear-IsValid :
      (reason : Option X) (s : Queue V R X) → IsValid s → IsValid (clear now reason s).1
  unfolding clear reject_pending
  clear-IsValid reason s (core, awake, p) = elim (Bool-cases (eqb (length s.pending) 0)) [
    | inl e ↦ rw e (core, awake, p)
    | inr e ↦
        let (counted, line, (a, b, c, d)) = core in
        rw e (
          arm-IsValid now (reject_pending (clear_reason reason) s)
            (
              counted,
              (tt, tt, IsWithin-less (length s.pending) 0 s.max_pending (omega arith) line.2),
              (λ h. refl, λ h. ((b h).0, refl, (b h).2), c, d),
            )
            p)
  ]

  pub on_timer-IsValid : (s : Queue V R X) → IsValid s → IsValid (on_timer now s)
  unfolding on_timer
  on_timer-IsValid s h =
      option_cases IsValid s.timer s (λ delay. pump now (record s { timer = none })) (λ e. h)
        (λ delay e. pump-IsValid now (record s { timer = none }) h.0 h.2)

  pub on_immediate-IsValid : (s : Queue V R X) → IsValid s → IsValid (on_immediate now s)
  unfolding on_immediate
  on_immediate-IsValid s h =
      if_cases IsValid s.immediate (λ e. pump-IsValid now (record s { immediate = false }) h.0 h.2)
        (λ e. h)

  pub finally-IsValid :
      (n : ℕ) (s : Queue V R X)
      → s.finishing ≡ suc n
      → IsValid s
      → IsValid (arm now (record s { finishing = n; running = s.running - 1 }))
  finally-IsValid n s e (((one, most, count), line, (a, b, c, d)), awake, p) =
      arm-IsValid now (record s { finishing = n; running = s.running - 1 })
        (
          (one, omega arith, omega (arith, e, count)),
          line,
          (a, λ h. let (x, y, z) = b h in (x, y, omega arith), c, d),
        )
        p

  pub on_finally-IsValid : (s : Queue V R X) → IsValid s → IsValid (on_finally now s)
  unfolding on_finally
  on_finally-IsValid s h =
      nat_cases IsValid s.finishing s
        (λ n. arm now (record s { finishing = n; running = s.running - 1 })) (λ e. h)
        (λ n e. finally-IsValid n s e h)

  pub finish_close-IsValid : (s : Queue V R X) → IsValid s → IsValid (finish_close s)
  unfolding finish_close
  finish_close-IsValid s ((counted, line, (a, b, c, d)), awake, p) =
      if_cases IsValid s.close_ready
        (λ e.
          ((counted, line, (λ h. (b e).1, λ h. cc, λ h. cc (h, d e), λ h. cc)), λ h. cc, λ h. cc))
        (λ e. ((counted, line, (a, b, c, d)), awake, p))

  -- A job leaves the pending jobs.
  pub leave-IsCore :
      (n : ℕ) (j : Job V) (rest : List (Job V)) (more : List (Job V × Settlement R X))
      (s : Queue V R X)
      → Taken n s.pending j rest
      → IsCore s
      → IsCore (record s { pending = rest; settled = more })
  leave-IsCore n j rest more s t (counted, (sorted, numbered, fits), (a, b, c, d)) =
      let shorter = length-Taken n s.pending j rest t in
      (
        counted,
        (
          Taken-Sorted n s.pending j rest t sorted,
          (All-delete (λ k. k.sequence ≤ s.sequence) n s.pending j rest t numbered).1,
          IsWithin-less (length s.pending) (length rest) s.max_pending (omega (arith, shorter))
              fits,
        ),
        (
          λ h. absurd (omega (arith, a h, shorter)),
          λ h. absurd (omega (arith, (b h).1, shorter)),
          c,
          d,
        ),
      )

  pub on_abort-IsValid :
      (n : ℕ) (reason : AbortReason) (s : Queue V R X)
      → IsValid s
      → IsValid (on_abort now n reason s)
  unfolding on_abort
  on_abort-IsValid n reason s (core, awake, p) =
      option_cases IsValid (take_out n s.pending) s _ (λ e. (core, awake, p))
        (λ (j, rest) e.
          if_cases IsValid j.signal
            (λ f.
              arm-IsValid now
                (record s {
                  pending = rest;
                  settled = s.settled ++ (j, rejected (to_abort_error reason)) ∷ [];
                })
                (leave-IsCore n j rest (s.settled ++ (j, rejected (to_abort_error reason)) ∷ []) s
                  (take_out-Taken n s.pending j rest e) core)
                p)
            (λ f. (core, awake, p)))

  pub on_handler-IsValid :
      (n : ℕ) (outcome : Result X R) (s : Queue V R X)
      → IsValid s
      → IsValid (on_handler now n outcome s)
  unfolding on_handler
  on_handler-IsValid n outcome s (((one, most, count), line, shut), awake, p) =
      option_cases IsValid (take_out n s.in_flight) s _
        (λ e. (((one, most, count), line, shut), awake, p))
        (λ (j, rest) e.
          let shorter = length-Taken n s.in_flight j rest (take_out-Taken n s.in_flight j rest e) in
          (((one, most, omega (arith, count, shorter)), line, shut), awake, p))
