-- ===== src/Events/Tasks.antt =====
-- Lists that the stream of packages/core/src/events/stream.ts goes through: the listeners by their
-- slots, the suspended tasks, and the history by index.
use generic_ai.Base.{
  ℕ, zero, suc, ◌≤◌, ◌≡◌, refl, sym, ap, subst, ◌⊎◌, inl, inr, Bool, true, false, some, List, [],
  ◌∷◌, ◌++◌, drop, take, take-suc, In, In-append_cases, option_cases, arith, keep_if,
}
use generic_ai.Events.Taxonomy.{Event}
use generic_ai.Events.Stream.{Listener, Task, take_at}

module _ {V : Type 0} where
  -- The slots of the listeners grow from `n` on and stay below `m`.
  abbrev pub Rising : ℕ → List (Listener V) → ℕ → Type 0
  Rising n [] m = n ≤ m
  Rising n (l ∷ ls) m = (n ≤ l.slot) × Rising (suc l.slot) ls m

  pub Rising-le : (n m : ℕ) (ls : List (Listener V)) → Rising n ls m → n ≤ m
  Rising-le n m [] h = h
  Rising-le n m (l ∷ ls) h = omega (arith, Rising-le (suc l.slot) m ls h.1)

  pub Rising-weaken : (k n m : ℕ) (ls : List (Listener V)) → k ≤ n → Rising n ls m → Rising k ls m
  Rising-weaken k n m [] le h = omega arith
  Rising-weaken k n m (l ∷ ls) le h = (omega arith, h.1)

  pub Rising-slot :
      (n m : ℕ) (ls : List (Listener V)) (l : Listener V) → Rising n ls m → In l ls → n ≤ l.slot
  Rising-slot n m [] l h i = absurd i
  Rising-slot n m (l' ∷ ls) l h (inl e) = subst (λ s. n ≤ s) (ap (λ x. x.slot) (sym e)) h.0
  Rising-slot n m (l' ∷ ls) l h (inr i) = omega (arith, Rising-slot (suc l'.slot) m ls l h.1 i)

  pub Rising-snoc :
      (n m : ℕ) (ls : List (Listener V)) (l : Listener V)
      → Rising n ls m
      → l.slot ≡ m
      → Rising n (ls ++ l ∷ []) (suc m)
  Rising-snoc n m [] l h e = (omega arith, omega arith)
  Rising-snoc n m (l' ∷ ls) l h e = (h.0, Rising-snoc (suc l'.slot) m ls l h.1 e)

  pub Rising-keep_if :
      (p : Listener V → Bool) (n m : ℕ) (ls : List (Listener V))
      → Rising n ls m
      → Rising n (keep_if p ls) m
  Rising-keep_if p n m [] h = h
  Rising-keep_if p n m (l ∷ ls) h = kept (Rising-keep_if p (suc l.slot) m ls h.1) (p l)
    where
      kept :
          Rising (suc l.slot) (keep_if p ls) m
          → (b : Bool) → Rising n (elim b [ true ↦ l ∷ keep_if p ls | false ↦ keep_if p ls ]) m
      kept rest true = (h.0, rest)
      kept rest false = Rising-weaken n (suc l.slot) m (keep_if p ls) (omega (arith, h.0)) rest

  pub In-keep_if :
      (p : Listener V → Bool) (l : Listener V) (ls : List (Listener V))
      → In l (keep_if p ls)
      → In l ls
  In-keep_if p l [] i = i
  In-keep_if p l (l' ∷ ls) i = kept (In-keep_if p l ls) (p l') i
    where
      kept :
          (In l (keep_if p ls) → In l ls)
          → (b : Bool) → In l (elim b [ true ↦ l' ∷ keep_if p ls | false ↦ keep_if p ls ])
          → In l (l' ∷ ls)
      kept rest true (inl e) = inl e
      kept rest true (inr j) = inr (rest j)
      kept rest false j = inr (rest j)

  -- A task is taken out of the list.
  pub data Pick (t : Task V) : List (Task V) → List (Task V) → Type 0 where
    here : {ts : List (Task V)} → Pick t (t ∷ ts) ts
    there : {x : Task V} {ts os : List (Task V)} → Pick t ts os → Pick t (x ∷ ts) (x ∷ os)

  pub Pick-cases :
      {t : Task V} {ts os : List (Task V)} (x : Task V) → Pick t ts os → In x ts → (x ≡ t) ⊎ In x os
  Pick-cases x here i = i
  Pick-cases x (there p) (inl e) = inr (inl e)
  Pick-cases x (there p) (inr i) = elim (Pick-cases x p i) [ inl e ↦ inl e | inr j ↦ inr (inr j) ]

  pub Pick-others :
      {t : Task V} {ts os : List (Task V)} (x : Task V) → Pick t ts os → In x os → In x ts
  Pick-others x here i = inr i
  Pick-others x (there p) (inl e) = inl e
  Pick-others x (there p) (inr i) = inr (Pick-others x p i)

  pub Pick-In : {t : Task V} {ts os : List (Task V)} → Pick t ts os → In t ts
  Pick-In here = inl refl
  Pick-In (there p) = inr (Pick-In p)

  Pick-same :
      {t t' : Task V} {ts os os' : List (Task V)}
      → t' ≡ t
      → os' ≡ os
      → Pick t' ts os'
      → Pick t ts os
  Pick-same {t} {t'} {ts} {os} {os'} p q k =
      subst (λ x. Pick x ts os) p (subst (λ l. Pick t' ts l) q k)

  pub take_at-Pick :
      (n : ℕ) (ts : List (Task V)) (t : Task V) (os : List (Task V))
      → take_at n ts ≡ some (t, os)
      → Pick t ts os
  take_at-Pick n [] t os = λ e. cc
  take_at-Pick zero (y ∷ ts) t os = λ e. Pick-same (cc) (cc) here
  take_at-Pick (suc n) (y ∷ ts) t os =
      option_cases (λ r. r ≡ some (t, os) → Pick t (y ∷ ts) os) (take_at n ts) _ _ (λ none e. cc)
        (λ (found, others) at e. Pick-same (cc) (cc) (there (take_at-Pick n ts found others at)))

  -- What stands before the index after `i`.
  pub passed :
      (i : ℕ) (h : List (Event V)) (e : Event V) (es : List (Event V)) (d : Event V)
      → drop i h ≡ e ∷ es
      → In d (take (suc i) h)
      → In d (take i h) ⊎ (d ≡ e)
  passed i h e es d at ind =
      elim (In-append_cases d (take i h) (e ∷ [])
        (subst (λ l. In d l) (take-suc i h e es at) ind)) [
          | inl before ↦ inl before
          | inr (inl now) ↦ inr now
          | inr (inr nowhere) ↦ absurd nowhere
        ]
