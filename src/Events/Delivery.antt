-- ===== src/Events/Delivery.antt =====
-- The stream of packages/core/src/events/stream.ts without a history limit hands every event to
-- every subscriber whose filter it matches.
use generic_ai.Base.{
  ℕ, suc, ◌≤◌, String, ◌≡◌, refl, subst, inl, inr, true, Option, none, List, [], ◌∷◌, drop,
  take-append, In, In-append_cases, if_cases, option_cases, arith, length-append,
}
use generic_ai.Base.Exec.{Result, ok, err}
use generic_ai.Events.Taxonomy.{Event, EventInput}
use generic_ai.Events.Stream.{
  Filter, Listener, Task, notifying, replaying, Stream, StreamError, create_stream, take_at,
  matches_filter, notify_from, proceed, report, settle, is_other, close_subscription, close,
  subscribe, sealed, stored, emit, Call, emits, subscribes, settles, unsubscribes, closes, step,
  run,
}
use generic_ai.Events.Tasks.{
  Rising, Rising-keep_if, In-keep_if, Pick, Pick-cases, Pick-others, Pick-In, take_at-Pick,
}
use generic_ai.Events.Handing.{
  Handed, IsReplayed, IsTracked, notify-IsCovered, replay-IsTracked, notify-fields,
}

module _ {V X : Type 0} where
  -- A task that has been taken out goes on.
  proceed-IsTracked :
      (t : Task V) (ts : List (Task V)) (s : Stream V X)
      → Pick t ts s.tasks
      → IsTracked (record s { tasks = ts })
      → IsTracked (proceed t s)
  unfolding proceed
  proceed-IsTracked (notifying e k w) ts s pick v = record {
    rising = fields.0;
    covered = notify-IsCovered e k 0 s.next_slot s.listeners s v.rising (λ l il d id match.
        elim (v.covered l il d id match) [
          | inl called ↦ inl (inl called)
          | inr (k', w', it, le) ↦ elim (Pick-cases _ pick it) [
            | inl this ↦ inr (cc, subst (λ n. n ≤ l.slot) (cc) le, il)
            | inr other ↦ inl (inr (k', w', other, le))
          ]
        ]);
    replayed = fields.1;
  }
    where
      fields :
          Rising 0
            (notify_from e k s.listeners s).listeners
            (notify_from e k s.listeners s).next_slot
          × IsReplayed (notify_from e k s.listeners s)
      fields =
          notify-fields e k s.listeners s v.rising
            (λ id f i awaited it. v.replayed id f i awaited (Pick-others _ pick it))
  proceed-IsTracked (replaying id f i e) ts s pick v =
      let (short, handed) = v.replayed id f i e (Pick-In pick) in
      replay-IsTracked id f i (drop i s.history) s refl short handed (record {
        rising = v.rising;
        covered = λ l il d id' match. elim (v.covered l il d id' match) [
          | inl called ↦ inl called
          | inr (k, w, it, le) ↦ elim (Pick-cases _ pick it) [
            | inl this ↦ cc
            | inr other ↦ inr (k, w, other, le)
          ]
        ];
        replayed = λ id' f' j awaited it. v.replayed id' f' j awaited (Pick-others _ pick it);
      })

  settle-IsTracked :
      (n : ℕ) (o : Result X (Unit {0})) (s : Stream V X) → IsTracked s → IsTracked (settle n o s)
  unfolding settle
  settle-IsTracked n o s v =
      option_cases IsTracked (take_at n s.tasks) _ _ (λ none. v)
        (λ (task, others) at.
          proceed-IsTracked task s.tasks (report task o (record s { tasks = others }))
            (reported task o others (take_at-Pick n s.tasks task others at))
            (restored task o others))
    where
      reported :
          (t : Task V) (r : Result X (Unit {0})) (ts : List (Task V))
          → Pick t s.tasks ts
          → Pick t s.tasks (report t r (record s { tasks = ts })).tasks
      reported t (ok done) ts p = p
      reported (notifying e k id) (err x) ts p = p
      reported (replaying id f i e) (err x) ts p = p

      restored :
          (t : Task V) (r : Result X (Unit {0})) (ts : List (Task V))
          → IsTracked (record (report t r (record s { tasks = ts })) { tasks = s.tasks })
      restored t (ok done) ts = record {
        rising = v.rising;
        covered = v.covered;
        replayed = v.replayed;
      }
      restored (notifying e k id) (err x) ts = record {
        rising = v.rising;
        covered = v.covered;
        replayed = v.replayed;
      }
      restored (replaying id f i e) (err x) ts = record {
        rising = v.rising;
        covered = v.covered;
        replayed = v.replayed;
      }

  subscribe-IsTracked :
      (f : Option (Filter V)) (s : Stream V X) → IsTracked s → IsTracked (subscribe f s).1
  unfolding subscribe
  subscribe-IsTracked f s v =
      if_cases (λ (r : Result StreamError ℕ × Stream V X). IsTracked r.1) s.closed (λ c. v)
        (λ c.
          replay-IsTracked s.next_subscription f 0 s.history
            (record s { next_subscription = suc s.next_subscription }) refl (omega arith)
            (λ e nowhere match. absurd nowhere)
            (record { rising = v.rising; covered = v.covered; replayed = v.replayed }))

  close_subscription-IsTracked :
      (id : ℕ) (s : Stream V X) → IsTracked s → IsTracked (close_subscription id s)
  unfolding close_subscription
  close_subscription-IsTracked id s v = record {
    rising = Rising-keep_if (is_other id) 0 s.next_slot s.listeners v.rising;
    covered = λ l il. v.covered l (In-keep_if (is_other id) l s.listeners il);
    replayed = v.replayed;
  }

module _ {V X : Type 0} (fresh_id now : ℕ → String) where
  emit-IsTracked :
      (input : EventInput V) (s : Stream V X)
      → IsTracked s
      → IsTracked (emit none fresh_id now input s).1
  unfolding emit
  emit-IsTracked input s v =
      if_cases (λ (r : Result StreamError (Event V) × Stream V X). IsTracked r.1) s.closed (λ c. v)
        (λ c. record {
          rising = fields.0;
          covered =
              notify-IsCovered event 0 0 s.next_slot s.listeners next v.rising (λ l il d id match.
                elim (In-append_cases d s.history (event ∷ []) id) [
                  | inl old ↦ inl (v.covered l il d old match)
                  | inr (inl new) ↦ inr (new, omega arith, il)
                  | inr (inr nowhere) ↦ absurd nowhere
                ]);
          replayed = fields.1;
        })
    where
      event : Event V
      event = sealed none fresh_id now input s

      next : Stream V X
      next = stored none fresh_id now event s

      kept : IsReplayed next
      kept id f i awaited it =
          let (short, handed) = v.replayed id f i awaited it in
          (
            omega (arith, short, length-append s.history (event ∷ [])),
            λ e ine.
                handed e (subst (λ es. In e es) (take-append i s.history (event ∷ []) short) ine),
          )

      fields :
          Rising 0
            (notify_from event 0 s.listeners next).listeners
            (notify_from event 0 s.listeners next).next_slot
          × IsReplayed (notify_from event 0 s.listeners next)
      fields = notify-fields event 0 s.listeners next v.rising kept

  step-IsTracked :
      (c : Call V X) (s : Stream V X) → IsTracked s → IsTracked (step none fresh_id now c s)
  unfolding step close
  step-IsTracked (emits input) s v = emit-IsTracked input s v
  step-IsTracked (subscribes f) s v = subscribe-IsTracked f s v
  step-IsTracked (settles n o) s v = settle-IsTracked n o s v
  step-IsTracked (unsubscribes id) s v = close_subscription-IsTracked id s v
  step-IsTracked closes s v = record {
    rising = omega arith;
    covered = λ l nowhere. absurd nowhere;
    replayed = v.replayed;
  }

  run-IsTracked :
      (cs : List (Call V X)) (s : Stream V X) → IsTracked s → IsTracked (run none fresh_id now cs s)
  unfolding run
  run-IsTracked [] s v = v
  run-IsTracked (c ∷ cs) s v = run-IsTracked cs (step none fresh_id now c s) (step-IsTracked c s v)

  tracked : (cs : List (Call V X)) → IsTracked (run none fresh_id now cs create_stream)
  tracked cs = run-IsTracked cs create_stream start
    where
      start : IsTracked {V = V} {X = X} create_stream
      start = record {
        rising = omega arith;
        covered = λ l nowhere. absurd nowhere;
        replayed = λ id f i awaited nowhere. absurd nowhere;
      }

  -- In a stream without a history limit, after any sequence of calls and of listeners that settle,
  -- in any order: each live listener has been called with every event of the history that its filter
  -- lets through, or the event is on its way and has not passed the listener yet.
  pub run-Handed :
      (cs : List (Call V X)) (l : Listener V) (e : Event V)
      → let s = run none fresh_id now cs create_stream in
        In l s.listeners
        → In e s.history
        → matches_filter e l.filter ≡ true
        → Handed s.calls s.tasks l e
  run-Handed cs l e il ie match = (tracked cs).covered l il e ie match
