-- ===== src/Storage/Writing.antt =====
-- `set`, `get` and `delete` of a namespace in packages/plugin-storage-memory/src/index.ts.
use generic_ai.Base.{
  ℕ, suc, String, Bool, true, false, ◌≡◌, refl, sym, ◌∙◌, ap, Option, none, some, [], arith, eq_iff,
  eq_refl, ◌==◌, ◌&&◌, if◌then◌else◌, is_some, get_or, Bool-cases, Option-cases, if_cases, subst,
  inl, inr,
}
use generic_ai.Base.Dict.{lookup, has, set, lookup-set}
use generic_ai.Base.Exec.{Result, ok}
use generic_ai.Storage.{
  StorageError, StoredRecord, RecordSnapshot, NamespaceState, Storage, normalize_name, next_record,
  records_of, ensured, get_namespace_state, read_record, clone_value, to_snapshot_record, get,
}
use generic_ai.Storage.Methods.{set_value}

next_record-value :
    {V : Type 0} (o : Option (StoredRecord V)) (v : V) (t : ℕ) → (next_record o v t).value ≡ v
next_record-value none v t = refl
next_record-value (some r) v t = refl

-- How often the value was written before.
abbrev pub version_before : {V : Type 0} → Option (StoredRecord V) → ℕ
version_before none = 0
version_before (some r) = r.version

-- When a value was first written, if it is written now at `time`.
abbrev pub first_written : {V : Type 0} → Option (StoredRecord V) → ℕ → ℕ
first_written none time = time
first_written (some r) time = r.created_at

-- The record that should stand behind a write at `time`.
abbrev pub due : {V : Type 0} → Option (StoredRecord V) → V → ℕ → StoredRecord V
due old v time = record {
  value = v;
  version = suc (version_before old);
  created_at = first_written old time;
  updated_at = time;
}

abbrev shown_as : {V : Type 0} → String → V → StoredRecord V → RecordSnapshot V
shown_as k v r = record {
  key = k;
  value = v;
  version = r.version;
  created_at = r.created_at;
  updated_at = r.updated_at;
}

-- A record as it is handed out.
abbrev pub shown : {V : Type 0} → String → StoredRecord V → RecordSnapshot V
shown k r = shown_as k r.value r

next_record-due :
    {V : Type 0} (o : Option (StoredRecord V)) (v : V) (t : ℕ) → next_record o v t ≡ due o v t
next_record-due none v t = refl
next_record-due (some r) v t =
    ap (λ n. record { value = v; version = n; created_at = r.created_at; updated_at = t })
      (omega arith)

second_false : {a b : Bool} → a ≡ true → (a && b) ≡ false → b ≡ false
second_false h k = ground arith

if_false : {A : Type 0} {b : Bool} (x : A) {y : A} → b ≡ false → (if b then x else y) ≡ y
if_false x e = rw e refl

module _ {V : Type 0} where
  -- The record that stands under two normalized names.
  abbrev pub stored : String → String → Storage V → Option (StoredRecord V)
  stored n k s = lookup k (records_of n s)

  records_of-put :
      (n m : String) (rs : NamespaceState V) (s : Storage V)
      → records_of m (record s { namespaces = set n rs s.namespaces })
        ≡ (if n == m then rs else records_of m s)
  records_of-put n m rs s = elim (Bool-cases (n == m)) [
    | inl e ↦ ap (λ o. get_or o []) (lookup-set n m rs s.namespaces) ∙ rw e refl
    | inr e ↦ ap (λ o. get_or o []) (lookup-set n m rs s.namespaces) ∙ rw e refl
  ]

  records_of-none : (n : String) (s : Storage V) → has n s.namespaces ≡ false → records_of n s ≡ []
  records_of-none n s h = elim (Option-cases (lookup n s.namespaces)) [
    | inl f ↦ rw f refl
    | inr (r, f) ↦ cc (h, ap is_some f)
  ]

  pub records_of-ensured :
      (n m : String) (s : Storage V) → records_of m (ensured n s) ≡ records_of m s
  unfolding ensured
  records_of-ensured n m s =
      if_cases (λ t. records_of m t ≡ records_of m s) (has n s.namespaces) (λ h. refl)
        (λ h.
          records_of-put n m [] s
          ∙ if_cases (λ rs. rs ≡ records_of m s) (n == m)
              (λ e.
                subst (λ t. [] ≡ records_of t s) ((eq_iff n m).0 e) (sym (records_of-none n s h)))
              (λ e. refl))

  ensured-clock : (n : String) (s : Storage V) → (ensured n s).now_calls ≡ s.now_calls
  unfolding ensured
  ensured-clock n s =
      if_cases (λ (t : Storage V). t.now_calls ≡ s.now_calls) (has n s.namespaces) (λ h. refl)
        (λ h. refl)

  get_namespace_state-ensured :
      (name n : String) (s : Storage V)
      → normalize_name name ≡ ok n
      → get_namespace_state name s ≡ (ok (records_of n s), ensured n s)
  unfolding get_namespace_state
  get_namespace_state-ensured name n s h =
      rw h (ap (λ rs. (ok rs, ensured n s)) (records_of-ensured n n s))

module _ {V : Type 0} (cloneable : V → Bool) (now : ℕ → ℕ) (namespace key n k : String)
    (s : Storage V) (space : normalize_name namespace ≡ ok n)
    (name : normalize_name key ≡ ok k) where
  -- `get` reads the record under the normalized names, and may only make an empty namespace.
  get-stored :
      (r : StoredRecord V)
      → stored n k s ≡ some r
      → cloneable r.value ≡ true
      → get cloneable namespace key s ≡ (ok (some r.value), ensured n s)
  unfolding get
  get-stored r found copy =
      rw
        (
          read_record,
          get_namespace_state-ensured namespace n s space,
          name,
          found,
          clone_value,
          copy,
        )
        refl

  get-none : stored n k s ≡ none → get cloneable namespace key s ≡ (ok none, ensured n s)
  unfolding get
  get-none found =
      rw (read_record, get_namespace_state-ensured namespace n s space, name, found) refl

module _ {V : Type 0} (now : ℕ → ℕ) (n k : String) (s : Storage V) where
  -- The record that `set` stores.
  abbrev next : V → StoredRecord V
  next v = next_record (stored n k s) v (now s.now_calls)

  -- The state after `set` with a value that can be cloned.
  abbrev pub written : V → Storage V
  written v = record s {
    namespaces = set n (set k (next v) (records_of n s)) (ensured n s).namespaces;
    now_calls = suc s.now_calls;
  }

  -- What `set` returns when the clock is read for the t-th time.
  abbrev answer : V → ℕ → RecordSnapshot V
  answer v t =
      let r = next_record (stored n k s) v (now t) in
      record {
        key = k;
        value = v;
        version = r.version;
        created_at = r.created_at;
        updated_at = r.updated_at;
      }

module _ {V : Type 0} (cloneable : V → Bool) (now : ℕ → ℕ) (namespace key n k : String)
    (s : Storage V) (space : normalize_name namespace ≡ ok n)
    (name : normalize_name key ≡ ok k) where
  set_value-written :
      (v : V)
      → cloneable v ≡ true
      → set_value cloneable now namespace key v s
        ≡ (ok (answer now n k s v s.now_calls), written now n k s v)
  unfolding set_value
  set_value-written v copy =
      rw
        (
          get_namespace_state-ensured namespace n s space,
          name,
          space,
          clone_value,
          copy,
          ensured-clock n s,
          to_snapshot_record,
          next_record-value (stored n k s) v (now s.now_calls),
          copy,
        )
        (ap (λ t. (ok (answer now n k s v t), written now n k s v)) (ensured-clock n s))

  written-stored_same :
      (v : V) (j : String)
      → stored n j (written now n k s v)
        ≡ (if k == j then some (next now n k s v) else stored n j s)
  written-stored_same v j =
      ap (lookup j) (
        ap (λ o. get_or o [])
          (lookup-set n n (set k (next now n k s v) (records_of n s)) (ensured n s).namespaces)
        ∙ rw (eq_refl n) refl)
      ∙ lookup-set k j (next now n k s v) (records_of n s)

  written-stored_other :
      (v : V) (m j : String) → n == m ≡ false → stored m j (written now n k s v) ≡ stored m j s
  written-stored_other v m j e = ap (lookup j) (
      ap (λ o. get_or o [])
        (lookup-set n m (set k (next now n k s v) (records_of n s)) (ensured n s).namespaces)
      ∙ rw e refl
      ∙ records_of-ensured n m s)

  -- Under valid names `set` stores a value that can be cloned, with a version one higher than
  -- before, or as version 1, the time of the first write and the time of this one, and returns
  -- that; `get` then answers the value, and no other record of any namespace has changed.
  pub set_value-get :
      (v : V)
      → cloneable v ≡ true
      → ((set_value cloneable now namespace key v s).1 ≡ written now n k s v)
        × (get cloneable namespace key (written now n k s v)
            ≡ (ok (some v), ensured n (written now n k s v)))
        × (stored n k (written now n k s v) ≡ some (due (stored n k s) v (now s.now_calls)))
        × ((set_value cloneable now namespace key v s).0
            ≡ ok (shown k (due (stored n k s) v (now s.now_calls))))
        × ((m j : String)
            → (n == m && k == j) ≡ false
            → stored m j (written now n k s v) ≡ stored m j s)
  set_value-get v copy =
      let here = written-stored_same v k ∙ rw (eq_refl k) refl in
      (
        ap (λ x. x.1) (set_value-written v copy),
        get-stored cloneable now namespace key n k (written now n k s v) space name
              (next now n k s v) here
              (ap cloneable (next_record-value (stored n k s) v (now s.now_calls)) ∙ copy)
            ∙ ap (λ x. (ok (some x), ensured n (written now n k s v)))
                (next_record-value (stored n k s) v (now s.now_calls)),
        here ∙ ap (λ r. some r) (next_record-due (stored n k s) v (now s.now_calls)),
        ap (λ x. x.0) (set_value-written v copy) ∙ answer-due (stored n k s),
        λ m j other. elim (Bool-cases (n == m)) [
          | inl e ↦
              subst (λ t. stored t j (written now n k s v) ≡ stored t j s) ((eq_iff n m).0 e)
                (written-stored_same v j
                  ∙ if_false (some (next now n k s v)) (second_false e other))
          | inr e ↦ written-stored_other v m j e
        ],
      )
    where
      answer-due :
          (o : Option (StoredRecord V))
          → ◌≡◌ {A = Result StorageError (RecordSnapshot V)}
              (ok (shown_as k v (next_record o v (now s.now_calls))))
              (ok (shown k (due o v (now s.now_calls))))
      answer-due o = ap (λ r. ok (shown_as k v r)) (next_record-due o v (now s.now_calls))
