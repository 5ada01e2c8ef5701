-- ===== src/Storage/Methods.antt =====
-- The operations of packages/plugin-storage-memory/src/index.ts that read the clock or run a
-- caller's function, and the lists of a namespace.
use generic_ai.Base.{ℕ, suc, String, Bool, Option, none, some, List, [], ◌∷◌, map}
use generic_ai.Base.Dict.{Dict, lookup, set, values}
use generic_ai.Base.Exec.{Result, ok, pure, lift, ◌>>=◌, ◌>>◌}
use generic_ai.Storage.Objects.{object_put}
use generic_ai.Storage.{
  StorageError, RecordSnapshot, Storage, Action, normalize_name, next_record, put_records,
  get_namespace_state, clone_value, to_snapshot_record, get, snapshot_records, snapshot_namespace,
  restore_from, restore,
}

module _ {V : Type 0} (cloneable : V → Bool) where
  unfoldable pub list : String → Action V (List (RecordSnapshot V))
  unfolding get_namespace_state snapshot_records
  list name = do
    records ← get_namespace_state name
    copies ← lift (snapshot_records cloneable records)
    pure (values copies)

  unfoldable pub entries : String → Action V (List (String × V))
  unfolding list
  entries name = do records ← list name; pure (map (λ r. (r.key, r.value)) records)

  unfoldable pub key_list : String → Action V (List String)
  unfolding list
  key_list name = do records ← list name; pure (map (λ r. r.key) records)

  unfoldable pub value_list : String → Action V (List V)
  unfolding list
  value_list name = do records ← list name; pure (map (λ r. r.value) records)

  unfoldable pub snapshot_of : String → Action V (Dict (RecordSnapshot V))
  unfolding get_namespace_state snapshot_namespace
  snapshot_of name = do
    records ← get_namespace_state name
    lift (snapshot_namespace cloneable records)

  unfoldable pub restore_namespace : String → Dict (RecordSnapshot V) → Action V (Unit {0})
  unfolding normalize_name restore_from
  restore_namespace name saved = do
    records ← lift (restore_from cloneable [] saved)
    n ← lift (normalize_name name)
    put_records n records

module _ {V : Type 0} (cloneable : V → Bool) (now : ℕ → ℕ) where
  abbrev read_clock : Action V ℕ
  read_clock s = (ok (now s.now_calls), record s { now_calls = suc s.now_calls })

  -- `writeMemoryRecord`
  unfoldable pub set_value : String → String → V → Action V (RecordSnapshot V)
  unfolding get_namespace_state normalize_name clone_value to_snapshot_record
  set_value namespace key value = do
    records ← get_namespace_state namespace
    k ← lift (normalize_name key)
    time ← read_clock
    copy ← lift (clone_value cloneable value)
    n ← lift (normalize_name namespace)
    put_records n (set k (next_record (lookup k records) copy time) records)
    lift (to_snapshot_record cloneable k (next_record (lookup k records) copy time))

  unfoldable pub update : String → String → (Option V → V) → Action V (RecordSnapshot V)
  unfolding get set_value
  update namespace key updater = do
    current ← get cloneable namespace key
    set_value namespace key (updater current)

  -- `seedNamespaces`: one namespace of the initial data, from the records made so far
  unfoldable pub seed_records :
      Dict (RecordSnapshot V) → Dict V → Action V (Dict (RecordSnapshot V))
  unfolding normalize_name clone_value object_put
  seed_records made [] = pure made
  seed_records made ((key, value) ∷ rest) = do
    time ← read_clock
    k ← lift (normalize_name key)
    copy ← lift (clone_value cloneable value)
    seed_records
        (object_put k
          (record { key = k; value = copy; version = 1; created_at = time; updated_at = time })
          made)
        rest

  unfoldable pub seed_namespaces :
      Dict (Dict (RecordSnapshot V)) → Dict (Dict V) → Action V (Dict (Dict (RecordSnapshot V)))
  unfolding seed_records normalize_name object_put
  seed_namespaces made [] = pure made
  seed_namespaces made ((name, entries) ∷ rest) = do
    one ← seed_records [] entries
    n ← lift (normalize_name name)
    seed_namespaces (object_put n one made) rest

  -- new MemoryStorage({ initialData, now })
  unfoldable pub new_storage : Option (Dict (Dict V)) → Result StorageError (Unit {0}) × Storage V
  unfolding seed_namespaces restore
  new_storage none = (ok tt, record { namespaces = []; now_calls = 0 })
  new_storage (some data_) =
      (do saved ← seed_namespaces [] data_; restore cloneable saved)
        (record { namespaces = []; now_calls = 0 })
