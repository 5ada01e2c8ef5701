-- ===== src/Messaging/Sorting.antt =====
-- The sorting of messages in packages/plugin-messaging/src/index.ts: the same messages, in order.
use generic_ai.Base.{
  ◌∙◌, ◌≡◌, refl, inl, inr, Bool, true, false, List, [], ◌∷◌, All, In, keep_if, if_cases, arith, ap,
}
use generic_ai.Messaging.{Message, insert, sort_messages, descending}

module _ {J : Type 0} (before : Message J → Message J → Bool) where
  -- Each message may stand before all that follow it.
  abbrev pub Sorted : List (Message J) → Type 0
  Sorted [] = Unit
  Sorted (m ∷ ms) = All (λ n. before m n ≡ true) ms × Sorted ms

  exchange :
      (x m n : Message J) (ns rest : List (Message J))
      → (In x rest → In x (m ∷ ns))
      → In x (n ∷ rest)
      → In x (m ∷ n ∷ ns)
  exchange x m n ns rest f (inl e) = inr (inl e)
  exchange x m n ns rest f (inr i) = elim (f i) [ inl e ↦ inl e | inr j ↦ inr (inr j) ]

  exchange_back :
      (x m n : Message J) (ns rest : List (Message J))
      → (In x (m ∷ ns) → In x rest)
      → In x (m ∷ n ∷ ns)
      → In x (n ∷ rest)
  exchange_back x m n ns rest f (inl e) = inr (f (inl e))
  exchange_back x m n ns rest f (inr (inl e)) = inl e
  exchange_back x m n ns rest f (inr (inr i)) = inr (f (inr i))

  insert-In : (x m : Message J) (ms : List (Message J)) → In x (insert before m ms) → In x (m ∷ ms)
  unfolding insert
  insert-In x m [] = λ h. h
  insert-In x m (n ∷ ns) =
      if_cases (λ (l : List (Message J)). In x l → In x (m ∷ n ∷ ns)) (before m n) (λ first h. h)
        (λ later h. exchange x m n ns _ (insert-In x m ns) h)

  In-insert : (x m : Message J) (ms : List (Message J)) → In x (m ∷ ms) → In x (insert before m ms)
  unfolding insert
  In-insert x m [] = λ h. h
  In-insert x m (n ∷ ns) =
      if_cases (λ (l : List (Message J)). In x (m ∷ n ∷ ns) → In x l) (before m n) (λ first h. h)
        (λ later h. exchange_back x m n ns _ (In-insert x m ns) h)

  pub sort-In : (x : Message J) (ms : List (Message J)) → In x (sort_messages before ms) → In x ms
  unfolding sort_messages
  sort-In x [] h = h
  sort-In x (m ∷ ms) h = elim (insert-In x m (sort_messages before ms) h) [
    | inl e ↦ inl e
    | inr i ↦ inr (sort-In x ms i)
  ]

  pub In-sort : (x : Message J) (ms : List (Message J)) → In x ms → In x (sort_messages before ms)
  unfolding sort_messages
  In-sort x [] h = h
  In-sort x (m ∷ ms) (inl e) = In-insert x m (sort_messages before ms) (inl e)
  In-sort x (m ∷ ms) (inr i) = In-insert x m (sort_messages before ms) (inr (In-sort x ms i))

  module _ (total : (m n : Message J) → before m n ≡ false → before n m ≡ true)
      (trans : (m n k : Message J)
        → before m n ≡ true
        → before n k ≡ true
        → before m k ≡ true) where
    All-insert :
        (x m : Message J) (ms : List (Message J))
        → before x m ≡ true
        → All (λ n. before x n ≡ true) ms
        → All (λ n. before x n ≡ true) (insert before m ms)
    unfolding insert
    All-insert x m [] h hs = (h, tt)
    All-insert x m (n ∷ ns) h hs =
        if_cases (All (λ n. before x n ≡ true)) (before m n) (λ first. (h, hs))
          (λ later. (hs.0, All-insert x m ns h hs.1))

    All-trans :
        (x m : Message J) (ms : List (Message J))
        → before x m ≡ true
        → All (λ n. before m n ≡ true) ms
        → All (λ n. before x n ≡ true) ms
    All-trans x m [] h hs = tt
    All-trans x m (n ∷ ns) h hs = (trans x m n h hs.0, All-trans x m ns h hs.1)

    insert-Sorted :
        (m : Message J) (ms : List (Message J)) → Sorted ms → Sorted (insert before m ms)
    unfolding insert
    insert-Sorted m [] h = (tt, tt)
    insert-Sorted m (n ∷ ns) h =
        if_cases Sorted (before m n) (λ first. ((first, All-trans m n ns first h.0), h))
          (λ later. (All-insert n m ns (total m n later) h.0, insert-Sorted m ns h.1))

    pub sort-Sorted : (ms : List (Message J)) → Sorted (sort_messages before ms)
    unfolding sort_messages
    sort-Sorted [] = tt
    sort-Sorted (m ∷ ms) = insert-Sorted m (sort_messages before ms) (sort-Sorted ms)

module _ {J : Type 0} where
  pub descending_total : (m n : Message J) → descending m n ≡ false → descending n m ≡ true
  descending_total m n e = ground arith

  pub descending_trans :
      (m n k : Message J) → descending m n ≡ true → descending n k ≡ true → descending m k ≡ true
  descending_trans m n k e h = ground arith

  pub In-keep_if :
      (p : Message J → Bool) (x : Message J) (ms : List (Message J))
      → In x ms
      → p x ≡ true
      → In x (keep_if p ms)
  In-keep_if p x [] h e = h
  In-keep_if p x (m ∷ ms) h e = kept p x m ms (λ i. In-keep_if p x ms i e) (p m) refl h e
    where
      kept :
          (p : Message J → Bool) (x m : Message J) (ms : List (Message J))
          → (In x ms → In x (keep_if p ms))
          → (b : Bool) → p m ≡ b
          → In x (m ∷ ms)
          → p x ≡ true
          → In x (elim b [ true ↦ m ∷ keep_if p ms | false ↦ keep_if p ms ])
      kept p x m ms f true at (inl same) e = inl same
      kept p x m ms f true at (inr i) e = inr (f i)
      kept p x m ms f false at (inl same) e = cc (ap p same, e, at)
      kept p x m ms f false at (inr i) e = f i

  pub keep_if-In :
      (p : Message J → Bool) (x : Message J) (ms : List (Message J))
      → In x (keep_if p ms)
      → In x ms × (p x ≡ true)
  keep_if-In p x [] h = absurd h
  keep_if-In p x (m ∷ ms) h = kept_or p x m ms (keep_if-In p x ms) (p m) refl h
    where
      kept_or :
          (p : Message J → Bool) (x m : Message J) (ms : List (Message J))
          → (In x (keep_if p ms) → In x ms × (p x ≡ true))
          → (b : Bool) → p m ≡ b
          → In x (elim b [ true ↦ m ∷ keep_if p ms | false ↦ keep_if p ms ])
          → In x (m ∷ ms) × (p x ≡ true)
      kept_or p x m ms f true e (inl same) = (inl same, ap p same ∙ e)
      kept_or p x m ms f true e (inr i) = (inr (f i).0, (f i).1)
      kept_or p x m ms f false e i = (inr (f i).0, (f i).1)
