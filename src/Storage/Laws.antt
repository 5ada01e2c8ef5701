-- ===== src/Storage/Laws.antt =====
-- What `snapshot` and `restore` of packages/plugin-storage-memory/src/index.ts promise each other.
use generic_ai.Base.{
  String, Bool, true, false, ◌≡◌, refl, sym, ◌∙◌, ap, some, List, [], ◌∷◌, ◌++◌, contains, arith,
  eq_iff, eq_refl, ◌==◌, if◌then◌else◌, is_some, Bool-cases, inl, inr,
}
use mathlib.Core.List.{append-nil, append_assoc}
use generic_ai.Base.Dict.{Dict, lookup, has, set, keys, lookup-set, set_new}
use generic_ai.Base.Exec.{ok}
use generic_ai.Storage.Objects.{is_plain, IsPlain, object_of-plain}
use generic_ai.Storage.{
  StoredRecord, RecordSnapshot, NamespaceState, Storage, normalize_name, clone_value,
  to_snapshot_record, snapshot_records, snapshot_namespace, snapshot_each, snapshot_all, snapshot,
  restore_from, restore_all, restore,
}

-- Names are trimmed and not empty, no array index and not `__proto__`, and stand once; values can
-- be cloned.
abbrev pub IsName : String → Type 0
IsName k = (normalize_name k ≡ ok k) × (is_plain k ≡ true)

still_free :
    {A : Type 0} (k j : String) (v : A) (ks : List String) (done : Dict A)
    → contains ks k ≡ false
    → contains ks j ≡ true
    → has j done ≡ false
    → is_some (if k == j then some v else lookup j done) ≡ false
still_free k j v ks done once m free = elim (Bool-cases (k == j)) [
  | inl e ↦ cc (once, m, (eq_iff k j).0 e)
  | inr e ↦ rw e free
]

module _ {V : Type 0} (cloneable : V → Bool) where
  abbrev pub IsClean : NamespaceState V → Type 0
  IsClean [] = Unit
  IsClean ((k, r) ∷ rs) =
      (IsName k) × (contains (keys rs) k ≡ false) × (cloneable r.value ≡ true) × IsClean rs

  abbrev pub IsCleanAll : Dict (NamespaceState V) → Type 0
  IsCleanAll [] = Unit
  IsCleanAll ((n, rs) ∷ rest) =
      (is_plain n ≡ true) × (contains (keys rest) n ≡ false) × IsClean rs × IsCleanAll rest

  -- What the snapshot of a namespace is.
  abbrev pub saved : NamespaceState V → Dict (RecordSnapshot V)
  saved [] = []
  saved ((k, r) ∷ rs) =
      (
        k,
        record {
          key = k;
          value = r.value;
          version = r.version;
          created_at = r.created_at;
          updated_at = r.updated_at;
        },
      )
      ∷ saved rs

  abbrev pub saved_all : Dict (NamespaceState V) → Dict (Dict (RecordSnapshot V))
  saved_all [] = []
  saved_all ((n, rs) ∷ rest) = (n, saved rs) ∷ saved_all rest

  snapshot_records-saved :
      (rs : NamespaceState V) → IsClean rs → snapshot_records cloneable rs ≡ ok (saved rs)
  unfolding snapshot_records
  snapshot_records-saved [] h = refl
  snapshot_records-saved ((k, r) ∷ rs) (name, new, copy, h) =
      rw (to_snapshot_record, clone_value, copy, snapshot_records-saved rs h) refl

  keys-saved : (rs : NamespaceState V) → keys (saved rs) ≡ keys rs
  keys-saved [] = refl
  keys-saved ((k, r) ∷ rs) = ap (λ l. k ∷ l) (keys-saved rs)

  saved-IsPlain : (rs : NamespaceState V) → IsClean rs → IsPlain (saved rs)
  saved-IsPlain [] h = tt
  saved-IsPlain ((k, r) ∷ rs) (name, new, copy, h) =
      (name.1, ap (λ l. contains l k) (keys-saved rs) ∙ new, saved-IsPlain rs h)

  snapshot_namespace-saved :
      (rs : NamespaceState V) → IsClean rs → snapshot_namespace cloneable rs ≡ ok (saved rs)
  unfolding snapshot_namespace
  snapshot_namespace-saved rs h = rw (snapshot_records-saved rs h) (
      ap (λ d. ok d)
        (object_of-plain (saved rs) [] (saved-IsPlain rs h) (λ k m. unfold lookup in refl)))

  snapshot_each-saved :
      (all : Dict (NamespaceState V))
      → IsCleanAll all
      → snapshot_each cloneable all ≡ ok (saved_all all)
  unfolding snapshot_each
  snapshot_each-saved [] h = refl
  snapshot_each-saved ((n, rs) ∷ rest) (plain, new, clean, h) =
      rw (snapshot_namespace-saved rs clean, snapshot_each-saved rest h) refl

  keys-saved_all : (all : Dict (NamespaceState V)) → keys (saved_all all) ≡ keys all
  keys-saved_all [] = refl
  keys-saved_all ((n, rs) ∷ rest) = ap (λ l. n ∷ l) (keys-saved_all rest)

  saved_all-IsPlain : (all : Dict (NamespaceState V)) → IsCleanAll all → IsPlain (saved_all all)
  saved_all-IsPlain [] h = tt
  saved_all-IsPlain ((n, rs) ∷ rest) (plain, new, clean, h) =
      (plain, ap (λ l. contains l n) (keys-saved_all rest) ∙ new, saved_all-IsPlain rest h)

  snapshot_all-saved :
      (all : Dict (NamespaceState V))
      → IsCleanAll all
      → snapshot_all cloneable all ≡ ok (saved_all all)
  unfolding snapshot_all
  snapshot_all-saved all h = rw (snapshot_each-saved all h) (
      ap (λ d. ok d)
        (object_of-plain (saved_all all) [] (saved_all-IsPlain all h)
          (λ k m. unfold lookup in refl)))

  clone_value-ok : (v : V) → cloneable v ≡ true → clone_value cloneable v ≡ ok v
  unfolding clone_value
  clone_value-ok v h = rw h refl

  -- One record comes back under its name.
  restore_from-cons :
      (done : NamespaceState V) (k : String) (r : StoredRecord V) (rest : Dict (RecordSnapshot V))
      → normalize_name k ≡ ok k
      → cloneable r.value ≡ true
      → restore_from cloneable done (saved ((k, r) ∷ []) ++ rest)
        ≡ restore_from cloneable (set k r done) rest
  unfolding restore_from
  restore_from-cons done k r rest name copy = rw (name, clone_value-ok r.value copy) refl

  restore_from-saved :
      (rs done : NamespaceState V)
      → IsClean rs
      → ((k : String) → contains (keys rs) k ≡ true → has k done ≡ false)
      → restore_from cloneable done (saved rs) ≡ ok (done ++ rs)
  restore_from-saved [] done h new = unfold restore_from in ap (λ l. ok l) (sym (append-nil done))
  restore_from-saved ((k, r) ∷ rs) done (name, once, copy, h) new =
      restore_from-cons done k r (saved rs) name.0 copy
      ∙ restore_from-saved rs (set k r done) h (λ j m.
        ap is_some (lookup-set k j r done)
        ∙ still_free k j r (keys rs) done once m (new j (ground (arith, m))))
      ∙ ap (λ l. ok (l ++ rs)) (set_new k r done (new k (ground (arith, eq_refl k))))
      ∙ ap (λ l. ok l) (append_assoc done ((k, r) ∷ []) rs)

  restore_all-saved :
      (all done : Dict (NamespaceState V))
      → IsCleanAll all
      → ((n : String) → contains (keys all) n ≡ true → has n done ≡ false)
      → restore_all cloneable done (saved_all all) ≡ ok (done ++ all)
  restore_all-saved [] done h new = unfold restore_all in ap (λ l. ok l) (sym (append-nil done))
  restore_all-saved ((n, rs) ∷ rest) done (plain, once, clean, h) new =
      restore_all-cons done n rs (saved_all rest) clean
      ∙ restore_all-saved rest (set n rs done) h (λ j m.
        ap is_some (lookup-set n j rs done)
        ∙ still_free n j rs (keys rest) done once m (new j (ground (arith, m))))
      ∙ ap (λ l. ok (l ++ rest)) (set_new n rs done (new n (ground (arith, eq_refl n))))
      ∙ ap (λ l. ok l) (append_assoc done ((n, rs) ∷ []) rest)
    where
      restore_all-cons :
          (done : Dict (NamespaceState V)) (n : String) (rs : NamespaceState V)
          (more : Dict (Dict (RecordSnapshot V)))
          → IsClean rs
          → restore_all cloneable done ((n, saved rs) ∷ more)
            ≡ restore_all cloneable (set n rs done) more
      restore_all-cons done n rs more clean =
          unfold restore_all in
          rw (restore_from-saved rs [] clean (λ k m. unfold lookup in refl)) refl

  -- A storage is clean when its names are trimmed, not empty, no array indices and not `__proto__`,
  -- and its values can be cloned. The snapshot of a clean storage can be taken and leaves the storage as it is, and restoring it
  -- into any storage brings exactly the saved namespaces back, in their order, with their versions
  -- and times.
  pub restore-snapshot :
      (s t : Storage V)
      → IsCleanAll s.namespaces
      → (saved : Dict (Dict (RecordSnapshot V))) × (snapshot cloneable s ≡ (ok saved, s))
        × (restore cloneable saved t ≡ (ok tt, record t { namespaces = s.namespaces }))
  unfolding snapshot restore
  restore-snapshot s t h = (
    saved_all s.namespaces,
    rw (snapshot_all-saved s.namespaces h) refl,
    rw (restore_all-saved s.namespaces [] h (λ n m. unfold lookup in refl)) refl,
  )
