-- ===== src/Events/Numbering.antt =====
-- How the stream of packages/core/src/events/stream.ts numbers events, and how long its history is.
use generic_ai.Base.{
  ℕ, zero, suc, ◌+◌, ◌-◌, ◌≤◌, String, ◌≡◌, refl, sym, subst, ◌&&◌, Option, none, some, List, [],
  ◌∷◌, ◌++◌, length, drop, if◌then◌else◌, if_cases, option_cases, ltb, leb, arith, All,
}
use generic_ai.Base.Exec.{Result, ok, err}
use generic_ai.Events.Taxonomy.{Event, EventInput, create_event}
use generic_ai.Events.Stream.{
  Filter, Listener, Task, notifying, replaying, Stream, StreamError, create_stream, limited,
  take_at, matches_filter, notify_from, replay_from, proceed, report, settle, close_subscription,
  close, subscribe, sealed, stored, emit, Call, emits, subscribes, settles, unsubscribes, closes,
  step, run,
}

-- How many of `n` events a history may have.
abbrev pub kept_of : Option ℕ → ℕ → ℕ
kept_of none n = n
kept_of (some limit) n = if ltb limit n then limit else n

module _ {V : Type 0} where
  -- The events are numbered one after the other, from `n` up to but without `m`.
  abbrev pub Consecutive : ℕ → List (Event V) → ℕ → Type 0
  Consecutive n [] m = n ≡ m
  Consecutive n (e ∷ es) m = (e.sequence ≡ n) × Consecutive (suc n) es m

  Consecutive-snoc :
      (n m : ℕ) (es : List (Event V)) (e : Event V)
      → Consecutive n es m
      → e.sequence ≡ m
      → Consecutive n (es ++ e ∷ []) (suc m)
  Consecutive-snoc n m [] e h p = (omega arith, omega arith)
  Consecutive-snoc n m (d ∷ es) e h p = (h.0, Consecutive-snoc (suc n) m es e h.1 p)

  Consecutive-length : (n m : ℕ) (es : List (Event V)) → Consecutive n es m → n + length es ≡ m
  Consecutive-length n m [] h = omega arith
  Consecutive-length n m (e ∷ es) h = omega (arith, Consecutive-length (suc n) m es h.1)

  Consecutive-drop :
      (k n m : ℕ) (es : List (Event V))
      → k ≤ length es
      → Consecutive n es m
      → Consecutive (k + n) (drop k es) m
  Consecutive-drop zero n m es le h = subst (λ i. Consecutive i es m) (omega arith) h
  Consecutive-drop (suc k) n m [] le h = absurd (omega arith)
  Consecutive-drop (suc k) n m (e ∷ es) le h =
      subst (λ i. Consecutive i (drop k es) m) (omega arith)
        (Consecutive-drop k (suc n) m es (omega arith) h.1)

  -- The last numbers before `next`: all from 1 on, or as many as the history may have.
  abbrev pub IsNumbered : Option ℕ → List (Event V) → ℕ → Type 0
  IsNumbered limit history next =
      (1 ≤ next) × Consecutive (next - kept_of limit (next - 1)) history next

  limited-IsNumbered :
      (limit : Option ℕ) (h : List (Event V)) (e : Event V) (next : ℕ)
      → IsNumbered limit h next
      → e.sequence ≡ next
      → IsNumbered limit (limited limit (h ++ e ∷ [])) (suc next)
  limited-IsNumbered none h e next (one, c) p = (
    omega arith,
    subst (λ i. Consecutive i (h ++ e ∷ []) (suc next)) (omega arith)
        (Consecutive-snoc (next - (next - 1)) next h e c p),
  )
  limited-IsNumbered (some limit) h e next (one, c) p = (
    omega arith,
    if_cases (λ l. Consecutive (suc next - kept_of (some limit) (suc next - 1)) l (suc next))
        (ltb limit (length (h ++ e ∷ [])))
        (λ long.
          subst (λ i. Consecutive i (drop (length (h ++ e ∷ []) - limit) (h ++ e ∷ [])) (suc next))
            (ground (arith, size))
            (Consecutive-drop (length (h ++ e ∷ []) - limit) _ (suc next) (h ++ e ∷ [])
              (omega arith) all))
        (λ short. subst (λ i. Consecutive i (h ++ e ∷ []) (suc next)) (ground (arith, size)) all),
  )
    where
      all : Consecutive (next - kept_of (some limit) (next - 1)) (h ++ e ∷ []) (suc next)
      all = Consecutive-snoc (next - kept_of (some limit) (next - 1)) next h e c p

      size : next - kept_of (some limit) (next - 1) + length (h ++ e ∷ []) ≡ suc next
      size = Consecutive-length _ (suc next) (h ++ e ∷ []) all

-- The fields that numbering is about.
abbrev SameNumbers : {V X : Type 0} → Stream V X → Stream V X → Type 0
SameNumbers s t = (t.history ≡ s.history) × (t.next_sequence ≡ s.next_sequence)

module _ {V X : Type 0} where
  notify_from-SameNumbers :
      (e : Event V) (k : ℕ) (ls : List (Listener V)) (s : Stream V X)
      → SameNumbers s (notify_from e k ls s)
  unfolding notify_from
  notify_from-SameNumbers e k [] s = (refl, refl)
  notify_from-SameNumbers e k (l ∷ ls) s =
      if_cases (SameNumbers s) (leb k l.slot && matches_filter e l.filter) (λ h. (refl, refl))
        (λ h. notify_from-SameNumbers e k ls s)

  replay_from-SameNumbers :
      (id : ℕ) (f : Option (Filter V)) (i : ℕ) (es : List (Event V)) (s : Stream V X)
      → SameNumbers s (replay_from id f i es s)
  unfolding replay_from
  replay_from-SameNumbers id f i [] s = (refl, refl)
  replay_from-SameNumbers id f i (e ∷ es) s =
      if_cases (SameNumbers s) (matches_filter e f) (λ h. (refl, refl))
        (λ h. replay_from-SameNumbers id f (suc i) es s)

  proceed-SameNumbers : (t : Task V) (s : Stream V X) → SameNumbers s (proceed t s)
  unfolding proceed
  proceed-SameNumbers (notifying e k id) s = notify_from-SameNumbers e k s.listeners s
  proceed-SameNumbers (replaying id f i e) s = replay_from-SameNumbers id f i (drop i s.history) s

  report-SameNumbers :
      (t : Task V) (o : Result X (Unit {0})) (s : Stream V X) → SameNumbers s (report t o s)
  report-SameNumbers t (ok done) s = (refl, refl)
  report-SameNumbers (notifying e k id) (err x) s = (refl, refl)
  report-SameNumbers (replaying id f i e) (err x) s = (refl, refl)

  settle-SameNumbers :
      (n : ℕ) (o : Result X (Unit {0})) (s : Stream V X) → SameNumbers s (settle n o s)
  unfolding settle
  settle-SameNumbers n o s =
      option_cases (SameNumbers s) (take_at n s.tasks) _ _ (λ h. (refl, refl))
        (λ (task, others) h.
          let r = record s { tasks = others } in
          let (history, next) = proceed-SameNumbers task (report task o r) in
          let (history', next') = report-SameNumbers task o r in (cc, cc))

  subscribe-SameNumbers : (f : Option (Filter V)) (s : Stream V X) → SameNumbers s (subscribe f s).1
  unfolding subscribe
  subscribe-SameNumbers f s =
      if_cases (λ (r : Result StreamError ℕ × Stream V X). SameNumbers s r.1) s.closed
        (λ h. (refl, refl))
        (λ h.
          replay_from-SameNumbers s.next_subscription f 0 s.history
            (record s { next_subscription = suc s.next_subscription }))

same-IsNumbered :
    {V X : Type 0} (limit : Option ℕ) (s t : Stream V X)
    → SameNumbers s t
    → IsNumbered limit s.history s.next_sequence
    → IsNumbered limit t.history t.next_sequence
same-IsNumbered limit s t (history, next) h =
    subst (λ es. IsNumbered limit es t.next_sequence) (sym history)
      (subst (λ n. IsNumbered limit s.history n) (sym next) h)

-- The call leaves the numbering to the stream.
abbrev pub IsPlain : {V X : Type 0} → Call V X → Type 0
IsPlain (emits input) = input.sequence ≡ none
IsPlain (subscribes f) = Unit
IsPlain (settles n o) = Unit
IsPlain (unsubscribes id) = Unit
IsPlain closes = Unit

module _ {V X : Type 0} (limit : Option ℕ) (fresh_id now : ℕ → String) where
  sealed-sequence :
      (input : EventInput V) (s : Stream V X)
      → input.sequence ≡ none
      → (sealed limit fresh_id now input s).sequence ≡ s.next_sequence
  unfolding create_event
  sealed-sequence input s e = ground (arith, e)

  emit-IsNumbered :
      (input : EventInput V) (s : Stream V X)
      → input.sequence ≡ none
      → IsNumbered limit s.history s.next_sequence
      → IsNumbered limit
          (emit limit fresh_id now input s).1.history
          (emit limit fresh_id now input s).1.next_sequence
  unfolding emit
  emit-IsNumbered input s plain h =
      if_cases
        (λ (r : Result StreamError (Event V) × Stream V X).
          IsNumbered limit r.1.history r.1.next_sequence)
        s.closed (λ c. h)
        (λ c.
          let e = sealed limit fresh_id now input s in
          let t = stored limit fresh_id now e s in
          let number = sealed-sequence input s plain in
          same-IsNumbered limit t (notify_from e 0 s.listeners t)
            (notify_from-SameNumbers e 0 s.listeners t)
            (subst (λ n. IsNumbered limit t.history (suc n)) (sym number)
              (limited-IsNumbered limit s.history e s.next_sequence h number)))

  step-IsNumbered :
      (c : Call V X) (s : Stream V X)
      → IsPlain c
      → IsNumbered limit s.history s.next_sequence
      → IsNumbered limit
          (step limit fresh_id now c s).history
          (step limit fresh_id now c s).next_sequence
  unfolding step close_subscription close
  step-IsNumbered (emits input) s plain h = emit-IsNumbered input s plain h
  step-IsNumbered (subscribes f) s plain h =
      same-IsNumbered limit s (subscribe f s).1 (subscribe-SameNumbers f s) h
  step-IsNumbered (settles n o) s plain h =
      same-IsNumbered limit s (settle n o s) (settle-SameNumbers n o s) h
  step-IsNumbered (unsubscribes id) s plain h = h
  step-IsNumbered closes s plain h = h

  run-IsNumbered :
      (cs : List (Call V X)) (s : Stream V X)
      → All IsPlain cs
      → IsNumbered limit s.history s.next_sequence
      → IsNumbered limit
          (run limit fresh_id now cs s).history
          (run limit fresh_id now cs s).next_sequence
  unfolding run
  run-IsNumbered [] s plain h = h
  run-IsNumbered (c ∷ cs) s (p, ps) h =
      run-IsNumbered cs (step limit fresh_id now c s) ps (step-IsNumbered c s p h)

  -- Whatever is called in whichever order, as long as no input of `emit` brings a number of its
  -- own, the history holds the latest events under consecutive numbers up to the last one that was
  -- given out: all from 1 on, or as many as `historyLimit` says.
  pub history-IsNumbered :
      (cs : List (Call V X))
      → All IsPlain cs
      → let s = run limit fresh_id now cs create_stream in
        IsNumbered limit s.history s.next_sequence
  history-IsNumbered cs plain = run-IsNumbered cs create_stream plain (start limit)
    where
      start : (l : Option ℕ) → IsNumbered {V = V} l [] 1
      start none = (omega arith, omega arith)
      start (some n) = (omega arith, ground arith)
