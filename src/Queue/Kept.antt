-- ===== src/Queue/Kept.antt =====
-- The calls of the queue of packages/plugin-queue-memory/src/index.ts, but `enqueue`, keep the
-- invariant.
use generic_ai.Base.{
  ℕ, ◌≡◌, refl, sym, ◌∙◌, Bool, true, false, not, ◌&&◌, ◌||◌, List, [], ◌∷◌, ◌++◌, length, eqb,
  arith, Bool-cases, if_cases, inl, inr,
}
use generic_ai.Queue.Types.{resumed, Waiter, drain_waiter, close_waiter}
use generic_ai.Queue.{Queue, awaits_close, emit, state_of, arm, pump}
use generic_ai.Queue.Calls.{pause, resume, drain, close, close_now}
use generic_ai.Queue.Frame.{arm-Keeps}
use generic_ai.Queue.Invariant.{
  IsCore, IsWithin-less, arm-IsCore, arm-IsAwake, pump-IsCore, pump-IsAwake, pump-promise,
}
use generic_ai.Queue.Steps.{IsPromised, IsValid}

not_true : (b : Bool) → ¬ (b ≡ true) → b ≡ false
not_true true h = absurd (h refl)
not_true false h = refl

or_false : (a b : Bool) → a ≡ false → b ≡ false → (a || b) ≡ false
or_false a b h k = ground arith

awaits-drain : (ws : List Waiter) → awaits_close (ws ++ drain_waiter ∷ []) ≡ awaits_close ws
awaits-drain [] = refl
awaits-drain (drain_waiter ∷ ws) = awaits-drain ws
awaits-drain (close_waiter ∷ ws) = refl

module _ {V R X : Type 0} (now : ℕ → ℕ) where
  pub arm-IsValid : (s : Queue V R X) → IsCore s → IsPromised s → IsValid (arm now s)
  arm-IsValid s h p =
      let k = arm-Keeps now s in
      (arm-IsCore now s h, arm-IsAwake now s, λ c. k.close_promise ∙ p (sym k.closing ∙ c))

  pub pump-IsValid : (s : Queue V R X) → IsCore s → IsPromised s → IsValid (pump now s)
  pump-IsValid s h p =
      let (closing, promise) = pump-promise now s in
      (pump-IsCore now s h, pump-IsAwake now s, λ c. promise ∙ p (sym closing ∙ c))

  pub pause-IsValid : (s : Queue V R X) → IsValid s → IsValid (pause s)
  unfolding pause
  pause-IsValid s h = elim (Bool-cases (s.paused || s.closed)) [
    | inl e ↦ rw e h
    | inr e ↦ rw e (h.0, λ c p r. cc, h.2)
  ]

  pub resume-IsValid : (s : Queue V R X) → IsValid s → IsValid (resume now s)
  unfolding resume
  resume-IsValid s h = elim (Bool-cases (not s.paused || s.closed)) [
    | inl e ↦ rw e h
    | inr e ↦
        let t = record s { paused = false } in
        rw e (arm-IsValid (emit (resumed (state_of t)) t) h.0 h.2)
  ]

  pub drain-IsValid : (s : Queue V R X) → IsValid s → IsValid (drain now drain_waiter s)
  unfolding drain
  drain-IsValid s (core, awake, p) =
      elim (Bool-cases (eqb (length s.pending) 0 && eqb s.running 0)) [
        | inl e ↦ rw e (core, awake, p)
        | inr e ↦
            let (counted, line, (a, b, c, d)) = core in
            let more = awaits-drain s.idle_waiters in
            rw e (
              arm-IsValid (record s { idle_waiters = s.idle_waiters ++ drain_waiter ∷ [] })
                (counted, line, (a, b, λ h. c (sym more ∙ h), λ h. more ∙ d h)) p)
      ]

  pub close_now-IsValid :
      (s : Queue V R X)
      → s.closed ≡ false
      → s.close_promise ≡ false
      → IsValid s
      → IsValid (close_now now s)
  unfolding close_now
  close_now-IsValid s not_closed none_yet ((counted, line, (a, b, c, d)), awake, p) =
      let not_closing : s.closing ≡ false = not_true s.closing (λ h. cc (p h, none_yet)) in
      let no_close : awaits_close s.idle_waiters ≡ false =
        not_true (awaits_close s.idle_waiters) (λ h. cc (c h, not_closing)) in
      let not_ready : s.close_ready ≡ false =
        not_true s.close_ready (λ h. cc ((b h).0, not_closing)) in
      (
        (
          counted,
          (tt, tt, IsWithin-less (length s.pending) 0 s.max_pending (omega arith) line.2),
          (
            λ h. refl,
            λ h. cc (h, or_false s.close_ready (awaits_close s.idle_waiters) not_ready no_close),
            λ h. cc,
            λ h. refl,
          ),
        ),
        λ h. cc,
        λ h. cc,
      )

  -- `close` waits: the queue is armed, and `close` waits for it to be idle.
  pub close_drain-IsValid :
      (s : Queue V R X)
      → s.close_promise ≡ false
      → IsValid s
      → IsValid
          (record (drain now close_waiter (arm now (record s { closing = true; paused = false }))) {
            close_promise = true;
          })
  unfolding drain
  close_drain-IsValid s none_yet ((counted, line, (a, b, c, d)), awake, p) =
      let r = record s { closing = true; paused = false } in
      let u = arm now r in
      let k = arm-Keeps now r in
      let no_close : awaits_close s.idle_waiters ≡ false =
        not_true (awaits_close s.idle_waiters) (λ h. cc (p (c h), none_yet)) in
      let (counted', line', (a', b', c', d')) =
        arm-IsCore now r (counted, line, (a, λ h. (refl, (b h).1, (b h).2), λ h. refl, d)) in
      elim (Bool-cases (eqb (length u.pending) 0 && eqb u.running 0)) [
        | inl e ↦ rw e (
          (
            counted',
            line',
            (a', λ h. (k.closing, ground arith, ground arith), c', λ h. k.no_close_waits no_close),
          ),
          arm-IsAwake now r,
          λ h. refl,
        )
        | inr e ↦
            let w = record u { idle_waiters = u.idle_waiters ++ close_waiter ∷ [] } in
            rw e (
              arm-IsCore now w (
                counted',
                line',
                (a', b', λ h. k.closing, λ h. let q = b' h in absurd (ground arith)),
              ),
              arm-IsAwake now w,
              λ h. refl,
            )
      ]

  pub close-IsValid : (wait : Bool) (s : Queue V R X) → IsValid s → IsValid (close now wait s)
  unfolding close
  close-IsValid wait s h =
      if_cases IsValid s.closed (λ e. h)
        (λ e.
          if_cases IsValid s.close_promise (λ f. h)
            (λ f.
              if_cases IsValid (not wait) (λ g. close_now-IsValid s e f h)
                (λ g. close_drain-IsValid s f h)))
