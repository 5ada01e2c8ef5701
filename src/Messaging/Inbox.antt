-- ===== src/Messaging/Inbox.antt =====
-- What the inbox of packages/plugin-messaging/src/index.ts shows after any sequence of calls.
use generic_ai.Base.{
  ℕ, suc, String, ◌≡◌, refl, sym, ap, subst, ◌∙◌, inl, inr, Bool, true, Option, none, some, List,
  [], ◌∷◌, length, take, map, keep_if, In, get_or, Bool-cases, if_cases, if◌then◌else◌, eq_iff,
  ◌==◌, arith,
}
use mathlib.Core.Option.{some-injective}
use generic_ai.Base.Exec.{Result, ok, err}
use generic_ai.Messaging.{
  NamespaceStore, Message, SendInput, MessagingError, Messaging, descending, insert, sort_messages,
  in_inbox, is_cleared, value_of, list_all, stamp, send, inbox, mark_read, marked, clear,
  clear_records, after_delete, stored, message_of, id_for, with_id, already_exists, invalid_time,
  store_error,
}
use generic_ai.Messaging.Store.{IsStore}
use generic_ai.Messaging.Sorting.{
  Sorted, sort-In, In-sort, sort-Sorted, descending_total, descending_trans, In-keep_if, keep_if-In,
}

-- A call that changes the messages.
pub data Op (J : Type 0) : Type 0 where
  sends : SendInput J → Op J
  marks : String → Op J
  clears : Option String → Op J

module _ {J : Type 0} where
  take-length : (ms : List (Message J)) → take (length ms) ms ≡ ms
  take-length [] = refl
  take-length (m ∷ ms) = ap (λ l. m ∷ l) (take-length ms)

  length-insert :
      (before : Message J → Message J → Bool) (m : Message J) (ms : List (Message J))
      → length (insert before m ms) ≡ suc (length ms)
  unfolding insert
  length-insert before m [] = refl
  length-insert before m (n ∷ ns) = ground (arith, length-insert before m ns)

  length-sort :
      (before : Message J → Message J → Bool) (ms : List (Message J))
      → length (sort_messages before ms) ≡ length ms
  unfolding sort_messages
  length-sort before [] = refl
  length-sort before (m ∷ ms) =
      length-insert before m (sort_messages before ms) ∙ ap suc (length-sort before ms)

module _ {S J : Type 0} (store : NamespaceStore S (Message J)) (laws : IsStore store)
    (id_factory : ℕ → String) (now : ℕ → Option ℕ) where
  unfoldable pub step : Op J → Messaging S → Messaging S
  unfolding send mark_read clear
  step (sends input) s = (send store id_factory now input s).1
  step (marks id) s = (mark_read store id_factory now id s).1
  step (clears agent) s = (clear store id_factory now agent s).1

  unfoldable pub steps : List (Op J) → Messaging S → Messaging S
  unfolding step
  steps [] s = s
  steps (op ∷ ops) s = steps ops (step op s)

  -- Every message stands under its id, as the store normalizes it.
  abbrev pub IsKeyed : S → Type 0
  IsKeyed s = (n : String) (m : Message J) → laws.content n s ≡ some m → laws.key_of m.id ≡ some n

  set-IsKeyed : (m : Message J) (s t : S) → store.set m.id m s ≡ ok t → IsKeyed s → IsKeyed t
  set-IsKeyed m s t e keyed j q there =
      let (n, named, written) = laws.set-ok m.id m s t e in
      elim (Bool-cases (n == j)) [
        | inl same ↦
            let at : laws.content j t ≡ some m =
              written j ∙ ap (λ b. if b then some m else laws.content j s) same in
            ap (λ (x : Message J). laws.key_of x.id) (some-injective _ _ (sym there ∙ at))
            ∙ named
            ∙ ap some ((eq_iff n j).0 same)
        | inr other ↦
            let at : laws.content j t ≡ laws.content j s =
              written j ∙ ap (λ b. if b then some m else laws.content j s) other in
            keyed j q (sym at ∙ there)
      ]

  delete-IsKeyed :
      (k : String) (s t : S) (b : Bool) → store.delete k s ≡ ok (b, t) → IsKeyed s → IsKeyed t
  delete-IsKeyed k s t b e keyed j q there =
      let (n, named, removed) = laws.delete-ok k s t b e in
      elim (Bool-cases (n == j)) [
        | inl same ↦
            let at : laws.content j t ≡ none =
              removed j ∙ ap (λ b. if b then none else laws.content j s) same in
            cc (there, at)
        | inr other ↦
            let at : laws.content j t ≡ laws.content j s =
              removed j ∙ ap (λ b. if b then none else laws.content j s) other in
            keyed j q (sym at ∙ there)
      ]

  deleted-IsKeyed :
      (rest : S → Result MessagingError (Unit {0}) × S) (k : String) (s : S)
      (x : Result String (Bool × S))
      → store.delete k s ≡ x
      → ((t : S) → IsKeyed t → IsKeyed (rest t).1)
      → IsKeyed s
      → IsKeyed (after_delete store id_factory now rest s x).1
  deleted-IsKeyed rest k s (err e) at h keyed = keyed
  deleted-IsKeyed rest k s (ok (b, t)) at h keyed = h t (delete-IsKeyed k s t b at keyed)

  clear-IsKeyed :
      (agent : Option String) (rs : List (String × Message J)) (s : S)
      → IsKeyed s
      → IsKeyed (clear_records store id_factory now agent rs s).1
  unfolding clear_records
  clear-IsKeyed agent [] s keyed = keyed
  clear-IsKeyed agent ((k, m) ∷ rs) s keyed =
      if_cases (λ (x : Result MessagingError (Unit {0}) × S). IsKeyed x.1) (is_cleared agent m)
        (λ gone.
          deleted-IsKeyed (clear_records store id_factory now agent rs) k s _ refl
            (clear-IsKeyed agent rs) keyed)
        (λ stays. clear-IsKeyed agent rs s keyed)

  stored-IsKeyed :
      (m : Message J) (s : Messaging S) (x : Result String S)
      → store.set m.id m s.store ≡ x
      → IsKeyed s.store
      → IsKeyed (stored store id_factory now m s x).1.store
  stored-IsKeyed m s (err e) at keyed = keyed
  stored-IsKeyed m s (ok t) at keyed = set-IsKeyed m s.store t at keyed

  stamp-IsKeyed :
      (make : ℕ → Message J) (s : Messaging S) (time : Option ℕ)
      → IsKeyed s.store
      → IsKeyed (stamp store id_factory now make s time).1.store
  stamp-IsKeyed make s none keyed = keyed
  stamp-IsKeyed make s (some time) keyed = stored-IsKeyed (make time) _ _ refl keyed

  marked-store :
      (x : Result MessagingError (Message J) × Messaging S)
      → (marked store id_factory now x).1.store ≡ x.1.store
  marked-store (ok m, s) = refl
  marked-store (err e, s) = refl

  found_cases :
      {A : Type 0} (P : A → Type 0) (o : Result String (Option (Message J))) (thrown : String → A)
      (missing : A) (found : Message J → A)
      → ((e : String) → o ≡ err e → P (thrown e))
      → (o ≡ ok none → P missing)
      → ((m : Message J) → o ≡ ok (some m) → P (found m))
      → P (elim o [ err e ↦ thrown e | ok none ↦ missing | ok (some m) ↦ found m ])
  found_cases P (err e) thrown missing found f g h = f e refl
  found_cases P (ok none) thrown missing found f g h = g refl
  found_cases P (ok (some m)) thrown missing found f g h = h m refl

  step-IsKeyed : (op : Op J) (s : Messaging S) → IsKeyed s.store → IsKeyed (step op s).store
  unfolding step send mark_read clear
  step-IsKeyed (sends input) s keyed =
      found_cases (λ (x : Result MessagingError (Message J) × Messaging S). IsKeyed x.1.store)
        (store.get (get_or input.id (id_factory s.ids_made)) s.store) _ _ _ (λ e at. keyed)
        (λ new. stamp-IsKeyed _ _ (now s.clock_reads) keyed) (λ m old. keyed)
  step-IsKeyed (marks id) s keyed =
      found_cases
        (λ (x : Result MessagingError (Option (Message J)) × Messaging S). IsKeyed x.1.store)
        (store.get id s.store) _ _ _ (λ e at. keyed) (λ missing. keyed)
        (λ m found.
          subst IsKeyed (sym (marked-store _)) (stamp-IsKeyed _ s (now s.clock_reads) keyed))
  step-IsKeyed (clears agent) s keyed = clear-IsKeyed agent (store.list s.store) s.store keyed

  steps-IsKeyed :
      (ops : List (Op J)) (s : Messaging S) → IsKeyed s.store → IsKeyed (steps ops s).store
  unfolding steps
  steps-IsKeyed [] s keyed = keyed
  steps-IsKeyed (op ∷ ops) s keyed = steps-IsKeyed ops (step op s) (step-IsKeyed op s keyed)

  values-In :
      (m : Message J) (rs : List (String × Message J))
      → In m (map (value_of store id_factory now) rs)
      → (k : String) × In (k, m) rs
  values-In m [] h = absurd h
  values-In m ((k, n) ∷ rs) (inl e) = (k, inl (ap (λ q. (k, q)) e))
  values-In m ((k, n) ∷ rs) (inr i) = let (j, there) = values-In m rs i in (j, inr there)

  In-values :
      (k : String) (m : Message J) (rs : List (String × Message J))
      → In (k, m) rs
      → In m (map (value_of store id_factory now) rs)
  In-values k m [] h = absurd h
  In-values k m ((j, n) ∷ rs) (inl e) = inl (ap (λ p. p.1) e)
  In-values k m ((j, n) ∷ rs) (inr i) = inr (In-values k m rs i)

  -- What an inbox without a limit promises of the messages in the store.
  pub record Shows (s : Messaging S) (agent : String) (unread_only : Bool)
      (shown : List (Message J)) : Type 0 where
    pub latest_first : Sorted descending shown
    pub sound :
        (m : Message J)
        → In m shown
        → (n : String) × (laws.key_of m.id ≡ some n)
          × (laws.content n s.store ≡ some m)
          × (in_inbox agent unread_only m ≡ true)
    pub complete :
        (n : String) (m : Message J)
        → laws.content n s.store ≡ some m
        → in_inbox agent unread_only m ≡ true
        → In m shown

  sorted-Shows :
      (s : Messaging S) (agent : String) (unread_only : Bool)
      → IsKeyed s.store
      → Shows s agent unread_only (
          sort_messages descending
            (keep_if (in_inbox agent unread_only) (list_all store id_factory now s)))
  sorted-Shows s agent unread_only keyed = record {
    latest_first = sort-Sorted descending descending_total descending_trans _;
    sound = λ m h.
        let (listed, fits) =
          keep_if-In (in_inbox agent unread_only) m _ (sort-In descending m _ h) in
        let (k, there) = values-In m (store.list s.store) listed in
        let found = laws.listed k m s.store there in (k, keyed k m found, found, fits);
    complete = λ n m found fits. In-sort descending m _ (
        In-keep_if (in_inbox agent unread_only) m _
          (In-values n m (store.list s.store) (laws.lists n m s.store found)) fits);
  }

  -- What `send` does: it stores the message under a free key and changes nothing else, or it throws
  -- and leaves the store as it was.
  pub data Sent (input : SendInput J) (s : Messaging S)
      : Result MessagingError (Message J) × Messaging S → Type 0 where
    is_sent :
        (time : ℕ) (n : String) (t : Messaging S)
        → now s.clock_reads ≡ some time
        → (laws.key_of (id_for store id_factory now input s) ≡ some n)
          × (laws.content n s.store ≡ none)
          × ((j : String)
              → laws.content j t.store ≡ (
                  if n == j
                  then some (message_of input (id_for store id_factory now input s) time)
                  else laws.content j s.store))
        → Sent input s (ok (message_of input (id_for store id_factory now input s) time), t)
    is_taken :
        (n : String) (m : Message J) (t : Messaging S)
        → laws.key_of (id_for store id_factory now input s) ≡ some n
        → laws.content n s.store ≡ some m
        → t.store ≡ s.store
        → Sent input s (err (already_exists (id_for store id_factory now input s)), t)
    no_time :
        (t : Messaging S)
        → now s.clock_reads ≡ none
        → t.store ≡ s.store
        → Sent input s (err invalid_time, t)
    cannot_read :
        (e : String) (t : Messaging S)
        → store.get (id_for store id_factory now input s) s.store ≡ err e
        → t.store ≡ s.store
        → Sent input s (err (store_error e), t)
    cannot_write :
        (e : String) (time : ℕ) (t : Messaging S)
        → now s.clock_reads ≡ some time
        → store.set
            (id_for store id_factory now input s)
            (message_of input (id_for store id_factory now input s) time)
            s.store
          ≡ err e
        → t.store ≡ s.store
        → Sent input s (err (store_error e), t)

  stored-Sent :
      (input : SendInput J) (s : Messaging S) (time : ℕ)
      → now s.clock_reads ≡ some time
      → store.get (id_for store id_factory now input s) s.store ≡ ok none
      → (x : Result String S)
      → store.set
          (id_for store id_factory now input s)
          (message_of input (id_for store id_factory now input s) time)
          s.store
        ≡ x
      → Sent input s (
          stored store id_factory now
            (message_of input (id_for store id_factory now input s) time)
            (record (with_id store id_factory now input s) { clock_reads = suc s.clock_reads })
            x)
  stored-Sent input s time at free (err e) w = cannot_write e time _ at w refl
  stored-Sent input s time at free (ok d) w =
      let id = id_for store id_factory now input s in
      let (n, named, written) = laws.set-ok id (message_of input id time) s.store d w in
      let (j, also, empty) = laws.get-ok id s.store none free in
      is_sent time n _ at (
        named,
        subst (λ k. laws.content k s.store ≡ none) (some-injective _ _ (sym also ∙ named))
            (sym empty),
        written,
      )

  stamp-Sent :
      (input : SendInput J) (s : Messaging S)
      → store.get (id_for store id_factory now input s) s.store ≡ ok none
      → (time : Option ℕ) → now s.clock_reads ≡ time
      → Sent input s (
          stamp store id_factory now
            (message_of input (id_for store id_factory now input s))
            (with_id store id_factory now input s)
            time)
  stamp-Sent input s free none at = no_time _ at refl
  stamp-Sent input s free (some time) at = stored-Sent input s time at free _ refl

  send-Sent :
      (input : SendInput J) (s : Messaging S) → Sent input s (send store id_factory now input s)
  unfolding send
  send-Sent input s =
      found_cases (Sent input s) (store.get (id_for store id_factory now input s) s.store) _ _ _
        (λ e at. cannot_read e _ at refl) (λ free. stamp-Sent input s free (now s.clock_reads) refl)
        (λ m found.
          let (n, named, there) =
            laws.get-ok (id_for store id_factory now input s) s.store (some m) found in
          is_taken n m _ named (sym there) refl)

  -- With a store that normalizes keys or refuses them, and behaves as a map on what it takes, and in
  -- which every message stands under its id to begin with: after any messages sent, marked as read
  -- and cleared, an inbox without a limit shows exactly the stored messages to the agent, or the
  -- unread ones of these, the latest first. A message that is sent then is stored under its id, which
  -- was free, and nothing else changes, or `send` throws, because the id is in use, the clock gives
  -- no time or the store throws, and leaves the store as it was.
  pub inbox-Shows :
      (s : Messaging S)
      → IsKeyed s.store
      → (ops : List (Op J)) (agent : String) (unread_only : Bool) (input : SendInput J)
      → let t = steps ops s in
        Shows t agent unread_only (inbox store id_factory now agent unread_only none t)
        × Sent input t (send store id_factory now input t)
  unfolding inbox
  inbox-Shows s keyed ops agent unread_only input =
      let t = steps ops s in
      let ms = keep_if (in_inbox agent unread_only) (list_all store id_factory now t) in
      let whole =
        ap (λ n. take n (sort_messages descending ms)) (sym (length-sort descending ms))
        ∙ take-length (sort_messages descending ms) in
      (
        subst (Shows t agent unread_only) (sym whole)
            (sorted-Shows t agent unread_only (steps-IsKeyed ops s keyed)),
        send-Sent input t,
      )
