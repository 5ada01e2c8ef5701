-- ===== src/Events/Handing.antt =====
-- What is kept while the stream of packages/core/src/events/stream.ts, without a history limit, runs
-- the loop of `notify` and that of a replay.
use generic_ai.Base.{
  ℕ, suc, ◌≤◌, ◌≡◌, refl, sym, ap, subst, ◌⊎◌, inl, inr, true, false, ◌&&◌, Option, List, [], ◌∷◌,
  length, drop, take, drop-suc, take_all, In, In-append_cases, if_cases, leb, arith,
}
use generic_ai.Events.Taxonomy.{Event}
use generic_ai.Events.Stream.{
  Filter, Listener, Task, notifying, replaying, Stream, matches_filter, notify_from, replay_from,
}
use generic_ai.Events.Tasks.{Rising, Rising-slot, Rising-snoc, passed}

module _ {V : Type 0} where
  -- The event has been handed to the listener, or is on its way and comes to it yet.
  abbrev pub Handed : List (ℕ × Event V) → List (Task V) → Listener V → Event V → Type 0
  Handed calls tasks l e =
      In (l.subscription, e) calls ⊎ ((k : ℕ) × (w : ℕ) × In (notifying e k w) tasks × (k ≤ l.slot))

  Handed-grow :
      (calls : List (ℕ × Event V)) (tasks : List (Task V)) (c : ℕ × Event V) (t : Task V)
      (l : Listener V) (e : Event V)
      → Handed calls tasks l e
      → Handed (c ∷ calls) (t ∷ tasks) l e
  Handed-grow calls tasks c t l e (inl h) = inl (inr h)
  Handed-grow calls tasks c t l e (inr (k, w, i, le)) = inr (k, w, inr i, le)

module _ {V X : Type 0} where
  abbrev pub IsCovered : Stream V X → Type 0
  IsCovered s =
      (l : Listener V)
      → In l s.listeners
      → (e : Event V) → In e s.history
      → matches_filter e l.filter ≡ true
      → Handed s.calls s.tasks l e

  -- What a replay has passed it has handed over.
  abbrev pub IsReplayed : Stream V X → Type 0
  IsReplayed s =
      (id : ℕ) (f : Option (Filter V)) (i : ℕ) (awaited : Event V)
      → In (replaying id f i awaited) s.tasks
      → (i ≤ length s.history)
        × ((e : Event V) → In e (take i s.history) → matches_filter e f ≡ true → In (id, e) s.calls)

  pub record IsTracked (s : Stream V X) : Type 0 where
    pub rising : Rising 0 s.listeners s.next_slot
    pub covered : IsCovered s
    pub replayed : IsReplayed s

  -- The loop of `notify` for a task that is not among the suspended ones any more.
  pub notify-IsCovered :
      (e : Event V) (k n m : ℕ) (ls : List (Listener V)) (s : Stream V X)
      → Rising n ls m
      → ((l : Listener V)
          → In l s.listeners
          → (d : Event V) → In d s.history
          → matches_filter d l.filter ≡ true
          → Handed s.calls s.tasks l d ⊎ ((d ≡ e) × (k ≤ l.slot) × In l ls))
      → IsCovered (notify_from e k ls s)
  unfolding notify_from
  notify-IsCovered e k n m [] s rise h = λ l il d id match. elim (h l il d id match) [
    | inl handed ↦ handed
    | inr (same, le, nowhere) ↦ absurd nowhere
  ]
  notify-IsCovered e k n m (l' ∷ ls) s rise h =
      if_cases IsCovered (leb k l'.slot && matches_filter e l'.filter)
        (λ hit l il d id match. elim (h l il d id match) [
          | inl handed ↦ Handed-grow s.calls s.tasks _ _ l d handed
          | inr (same, le, inl first) ↦ inl (inl (cc))
          | inr (same, le, inr later) ↦ inr (
            suc l'.slot,
            l'.subscription,
            inl (cc),
            Rising-slot (suc l'.slot) m ls l rise.1 later,
          )
        ])
        (λ miss. notify-IsCovered e k (suc l'.slot) m ls s rise.1 (λ l il d id match.
          elim (h l il d id match) [
            | inl handed ↦ inl handed
            | inr (same, le, inl first) ↦ absurd (skipped l d le match same first miss)
            | inr (same, le, inr later) ↦ inr (same, le, later)
          ]))
    where
      skipped :
          (l : Listener V) (d : Event V)
          → k ≤ l.slot
          → matches_filter d l.filter ≡ true
          → d ≡ e
          → l ≡ l'
          → (leb k l'.slot && matches_filter e l'.filter) ≡ false
          → ⊥
      skipped l d le match same first miss = ground (arith, ap (λ (x : Listener V). x.slot) first)

  -- The loop of a replay that has come to index `i`.
  pub replay-IsTracked :
      (id : ℕ) (f : Option (Filter V)) (i : ℕ) (es : List (Event V)) (s : Stream V X)
      → drop i s.history ≡ es
      → i ≤ length s.history
      → ((e : Event V) → In e (take i s.history) → matches_filter e f ≡ true → In (id, e) s.calls)
      → IsTracked s
      → IsTracked (replay_from id f i es s)
  unfolding replay_from
  replay-IsTracked id f i [] s at le seen v = record {
    rising = Rising-snoc 0 s.next_slot s.listeners _ v.rising refl;
    covered = λ l il e ie match. elim (In-append_cases l s.listeners _ il) [
      | inl old ↦ v.covered l old e ie match
      | inr (inl new) ↦ inl (
          rw new (
            seen e (rw (take_all i s.history at) ie) (
              subst (λ g. matches_filter e g ≡ true) (ap (λ (x : Listener V). x.filter) new)
                match)))
      | inr (inr nowhere) ↦ absurd nowhere
    ];
    replayed = v.replayed;
  }
  replay-IsTracked id f i (e ∷ es) s at le seen v =
      if_cases IsTracked (matches_filter e f)
        (λ hit. record {
          rising = v.rising;
          covered =
              λ l il d id' match. Handed-grow s.calls s.tasks _ _ l d (v.covered l il d id' match);
          replayed = λ id' f' j awaited it. elim it [
            | inl this ↦
                let place : suc i ≡ j = cc in
                let filter : f' ≡ f = cc in
                let same : id ≡ id' = cc in
                (
                  subst (λ n. n ≤ length s.history) place (drop-suc i s.history e es at).1,
                  λ d ind match.
                      elim (passed i s.history e es d at
                        (subst (λ n. In d (take n s.history)) (sym place) ind)) [
                          | inl before ↦ inr (
                              subst (λ n. In (n, d) s.calls) same
                                (seen d before
                                  (subst (λ g. matches_filter d g ≡ true) filter match)))
                          | inr now ↦ inl (cc)
                        ],
                )
            | inr other ↦
                let (short, handed) = v.replayed id' f' j awaited other in
                (short, λ d ind match. inr (handed d ind match))
          ];
        })
        (λ miss.
          replay-IsTracked id f (suc i) es s (drop-suc i s.history e es at).0
            (drop-suc i s.history e es at).1
            (λ d ind match. elim (passed i s.history e es d at ind) [
              | inl before ↦ seen d before match
              | inr now ↦ cc
            ])
            v)

  pub notify-fields :
      (e : Event V) (k : ℕ) (ls : List (Listener V)) (s : Stream V X)
      → Rising 0 s.listeners s.next_slot
      → IsReplayed s
      → Rising 0 (notify_from e k ls s).listeners (notify_from e k ls s).next_slot
        × IsReplayed (notify_from e k ls s)
  unfolding notify_from
  notify-fields e k [] s rise seen = (rise, seen)
  notify-fields e k (l ∷ ls) s rise seen =
      if_cases (λ (t : Stream V X). Rising 0 t.listeners t.next_slot × IsReplayed t)
        (leb k l.slot && matches_filter e l.filter)
        (λ hit. (
          rise,
          λ id f i awaited it. elim it [
            | inl this ↦ cc
            | inr other ↦
                let (short, handed) = seen id f i awaited other in
                (short, λ d ind match. inr (handed d ind match))
          ],
        ))
        (λ miss. notify-fields e k ls s rise seen)
