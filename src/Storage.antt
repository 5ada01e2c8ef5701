-- ===== src/Storage.antt =====
-- packages/plugin-storage-memory/src/index.ts: namespaces of versioned records, with snapshots.
-- `structuredClone` gives an equal value back or throws, and `cloneable` tells which; values are
-- taken as immutable, so that an object shared with a caller cannot be seen. A snapshot's object is a
-- `Dict` in the order of `Object.entries` (Objects). `transaction`, which is about such sharing, is
-- not modelled. The k-th call of `now` returns `now k`.
pub mod Objects
pub mod Methods
pub mod Laws
pub mod Writing
use generic_ai.Base.{
  ℕ, suc, ◌+◌, String, Bool, true, false, Option, none, some, List, [], ◌∷◌, length, if◌then◌else◌,
  is_some, get_or,
}
use generic_ai.Base.Text.{trim, is_empty}
use generic_ai.Base.Dict.{Dict, lookup, has, set, remove, keys}
use generic_ai.Storage.Objects.{object_of}
use generic_ai.Base.Exec.{
  Result, ok, err, Exec, pure, throw, gets, lift, modify, throw_if, both, and_then, ◌>>=◌, ◌>>◌,
}

pub data StorageError : Type 0 where
  invalid_name invalid_transaction non_cloneable_value : StorageError

pub record StoredRecord (V : Type 0) : Type 0 where
  pub value : V
  pub version : ℕ
  pub created_at : ℕ
  pub updated_at : ℕ

pub record RecordSnapshot (V : Type 0) : Type 0 where
  pub key : String
  pub value : V
  pub version : ℕ
  pub created_at : ℕ
  pub updated_at : ℕ

abbrev pub NamespaceState : Type 0 → Type 0
NamespaceState V = Dict (StoredRecord V)

pub record Storage (V : Type 0) : Type 0 where
  pub namespaces : Dict (NamespaceState V)
  pub now_calls : ℕ

abbrev pub Action : Type 0 → Type 0 → Type 0
Action V A = Exec (Storage V) StorageError A

unfoldable pub normalize_name : String → Result StorageError String
normalize_name name = let n = trim name in if is_empty n then err invalid_name else ok n

abbrev pub first_record : {V : Type 0} → V → ℕ → StoredRecord V
first_record value now = record { value = value; version = 1; created_at = now; updated_at = now }

-- The record that `set` stores.
abbrev pub next_record : {V : Type 0} → Option (StoredRecord V) → V → ℕ → StoredRecord V
next_record none value now = first_record value now
next_record (some previous) value now = record {
  value = value;
  version = previous.version + 1;
  created_at = previous.created_at;
  updated_at = now;
}

module _ {V : Type 0} where
  -- The records of a normalized name; a new namespace has none.
  abbrev pub records_of : String → Storage V → NamespaceState V
  records_of n s = get_or (lookup n s.namespaces) []

  -- The namespace is made when it is not there.
  unfoldable pub ensured : String → Storage V → Storage V
  ensured n s = if has n s.namespaces then s else record s { namespaces = set n [] s.namespaces }

  abbrev pub put_records : String → NamespaceState V → Action V (Unit {0})
  put_records n records s = (ok tt, record s { namespaces = set n records s.namespaces })

  unfoldable pub get_namespace_state : String → Action V (NamespaceState V)
  unfolding normalize_name ensured
  get_namespace_state name = do
    n ← lift (normalize_name name)
    modify (ensured n)
    gets (records_of n)

  unfoldable pub read_record : String → String → Action V (Option (StoredRecord V))
  unfolding get_namespace_state
  read_record namespace key = do
    records ← get_namespace_state namespace
    k ← lift (normalize_name key)
    pure (lookup k records)

  unfoldable pub remove_record : String → String → Action V Bool
  unfolding normalize_name
  remove_record namespace key = do
    n ← lift (normalize_name namespace)
    found ← gets (λ s. lookup n s.namespaces)
    remove_from n found
    where
      remove_from : String → Option (NamespaceState V) → Action V Bool
      remove_from n none = pure false
      remove_from n (some records) = do
        k ← lift (normalize_name key)
        put_records n (remove k records)
        pure (has k records)

  unfoldable pub namespaces : Action V (List String)
  namespaces = gets (λ s. keys s.namespaces)

  unfoldable pub has_namespace : String → Action V Bool
  unfolding normalize_name
  has_namespace name = do n ← lift (normalize_name name); gets (λ s. has n s.namespaces)

  unfoldable pub delete_namespace : String → Action V Bool
  unfolding normalize_name
  delete_namespace name = do
    n ← lift (normalize_name name)
    there ← gets (λ s. has n s.namespaces)
    modify (λ s. record s { namespaces = remove n s.namespaces })
    pure there

  unfoldable pub clear_storage : Action V (Unit {0})
  clear_storage = modify (λ s. record s { namespaces = [] })

  unfoldable pub size : String → Action V ℕ
  unfolding get_namespace_state
  size name = do records ← get_namespace_state name; pure (length records)

  unfoldable pub clear_namespace : String → Action V (Unit {0})
  unfolding get_namespace_state
  clear_namespace name = do
    records ← get_namespace_state name
    n ← lift (normalize_name name)
    put_records n []

  unfoldable pub has_key : String → String → Action V Bool
  unfolding read_record
  has_key namespace key = do found ← read_record namespace key; pure (is_some found)

module _ {V : Type 0} (cloneable : V → Bool) where
  unfoldable pub clone_value : V → Result StorageError V
  clone_value v = if cloneable v then ok v else err non_cloneable_value

  unfoldable pub to_snapshot_record :
      String → StoredRecord V → Result StorageError (RecordSnapshot V)
  unfolding clone_value
  to_snapshot_record key r = elim (clone_value r.value) [
    | err e ↦ err e
    | ok value ↦ ok (record {
      key = key;
      value = value;
      version = r.version;
      created_at = r.created_at;
      updated_at = r.updated_at;
    })
  ]

  unfoldable pub get : String → String → Action V (Option V)
  unfolding read_record clone_value
  get namespace key = do found ← read_record namespace key; clone_found found
    where
      clone_found : Option (StoredRecord V) → Action V (Option V)
      clone_found none = pure none
      clone_found (some r) = do value ← lift (clone_value r.value); pure (some value)

  -- The records of a namespace as they are handed out, for `list` and for `snapshotNamespace`.
  unfoldable pub snapshot_records : NamespaceState V → Result StorageError (Dict (RecordSnapshot V))
  unfolding to_snapshot_record
  snapshot_records [] = ok []
  snapshot_records ((key, r) ∷ rs) =
      both (λ one more. (key, one) ∷ more) (to_snapshot_record key r) (snapshot_records rs)

  -- A `Record`, filled by assignments in the order of the map.
  unfoldable pub snapshot_namespace :
      NamespaceState V → Result StorageError (Dict (RecordSnapshot V))
  unfolding snapshot_records object_of
  snapshot_namespace rs = and_then (snapshot_records rs) (λ entries. ok (object_of [] entries))

  unfoldable pub snapshot_each :
      Dict (NamespaceState V) → Result StorageError (Dict (Dict (RecordSnapshot V)))
  unfolding snapshot_namespace
  snapshot_each [] = ok []
  snapshot_each ((name, records) ∷ more) =
      both (λ one others. (name, one) ∷ others) (snapshot_namespace records) (snapshot_each more)

  unfoldable pub snapshot_all :
      Dict (NamespaceState V) → Result StorageError (Dict (Dict (RecordSnapshot V)))
  unfolding snapshot_each
  snapshot_all all = and_then (snapshot_each all) (λ entries. ok (object_of [] entries))

  unfoldable pub snapshot : Action V (Dict (Dict (RecordSnapshot V)))
  unfolding snapshot_all
  snapshot = do all ← gets (λ s. s.namespaces); lift (snapshot_all all)

  abbrev pub stored_of : V → RecordSnapshot V → StoredRecord V
  stored_of value r = record {
    value = value;
    version = r.version;
    created_at = r.created_at;
    updated_at = r.updated_at;
  }

  -- `restoreNamespace`, from the records restored so far
  unfoldable pub restore_from :
      NamespaceState V → Dict (RecordSnapshot V) → Result StorageError (NamespaceState V)
  unfolding normalize_name clone_value
  restore_from records [] = ok records
  restore_from records ((key, r) ∷ rs) = and_then (normalize_name key) (λ k.
      and_then (clone_value r.value) (λ value. restore_from (set k (stored_of value r) records) rs))

  -- The loop of `restore`: the names are taken as they stand in the snapshot.
  unfoldable pub restore_all :
      Dict (NamespaceState V)
      → Dict (Dict (RecordSnapshot V))
      → Result StorageError (Dict (NamespaceState V))
  unfolding restore_from
  restore_all done [] = ok done
  restore_all done ((name, one) ∷ rest) =
      and_then (restore_from [] one) (λ records. restore_all (set name records done) rest)

  unfoldable pub restore : Dict (Dict (RecordSnapshot V)) → Action V (Unit {0})
  unfolding restore_all
  restore saved = do
    restored ← lift (restore_all [] saved)
    modify (λ s. record s { namespaces = restored })
