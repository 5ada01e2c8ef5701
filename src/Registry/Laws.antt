-- ===== src/Registry/Laws.antt =====
-- registries/registry.ts: what the operations keep, and what a lookup returns after each of them.
use generic_ai.Base.{
  suc, String, ◌≡◌, true, false, none, some, List, [], ◌∷◌, arith, if◌then◌else◌, ◌==◌, All,
  Distinct, Bool-cases, ◌⊎◌, inl, inr,
}
use generic_ai.Base.Text.{trim, is_empty, trim_idem}
use generic_ai.Base.Dict.{
  Dict, has, set, remove, keys, lookup-set, lookup-remove, keys-set-Distinct, keys-remove-Distinct,
  length-set,
}
use generic_ai.Base.Exec.{ok, err}
use generic_ai.Registry.{Registry, invalid_key, duplicate_entry, register, get, delete, clear, size}

-- A key as `normalizeKey` leaves it.
abbrev pub IsKey : String → Type 0
IsKey k = (trim k ≡ k) × (is_empty k ≡ false)

pub record IsValid {ℓ} {T : Type ℓ} (r : Registry T) : Type 0 where
  pub distinct : Distinct (keys r.map)
  pub normal : All IsKey (keys r.map)

module _ {ℓ} {T : Type ℓ} where
  set-All :
      (k : String) (v : T) (m : Dict T)
      → IsKey k
      → All IsKey (keys m)
      → All IsKey (keys (set k v m))
  unfolding set
  set-All k v [] h hs = (h, tt)
  set-All k v ((j, w) ∷ m) h hs = ground (arith, set-All k v m h hs.1)

  remove-All : (k : String) (m : Dict T) → All IsKey (keys m) → All IsKey (keys (remove k m))
  unfolding remove
  remove-All k [] hs = tt
  remove-All k ((j, w) ∷ m) hs = ground (arith, remove-All k m hs.1)

  register-IsValid :
      (key : String) (v : T) (r : Registry T) → IsValid r → IsValid (register key v r).1
  unfolding register
  register-IsValid key v r h = ground (
    arith,
    trim_idem key,
    keys-set-Distinct (trim key) v r.map h.distinct,
    set-All (trim key) v r.map,
  )

  delete-IsValid : (key : String) (r : Registry T) → IsValid r → IsValid (delete key r).1
  unfolding delete
  delete-IsValid key r h = ground (
    arith,
    keys-remove-Distinct (trim key) r.map h.distinct,
    remove-All (trim key) r.map h.normal,
  )

-- One call of a registry that may change it.
pub data Call {ℓ} (T : Type ℓ) : Type ℓ where
  registers : String → T → Call T
  deletes : String → Call T
  clears : Call T

module _ {ℓ} {T : Type ℓ} where
  unfoldable pub step : Registry T → Call T → Registry T
  step r (registers key v) = (register key v r).1
  step r (deletes key) = (delete key r).1
  step r clears = clear r

  unfoldable pub after : Registry T → List (Call T) → Registry T
  after r [] = r
  after r (c ∷ cs) = after (step r c) cs

  step-IsValid : (r : Registry T) (c : Call T) → IsValid r → IsValid (step r c)
  unfolding step clear
  step-IsValid r (registers key v) h = register-IsValid key v r h
  step-IsValid r (deletes key) h = delete-IsValid key r h
  step-IsValid r clears h = record { distinct = tt; normal = tt }

  -- However a valid registry is used, failed calls included, its keys stay pairwise distinct,
  -- trimmed and not blank.
  pub after-IsValid : (r : Registry T) (cs : List (Call T)) → IsValid r → IsValid (after r cs)
  unfolding after
  after-IsValid r [] h = h
  after-IsValid r (c ∷ cs) h = after-IsValid (step r c) cs (step-IsValid r c h)

  -- `register` throws `invalid-key` on a blank key and `duplicate-entry` on a key that is there,
  -- changing nothing; else it returns the value, the size grows by one, and then `get` returns the
  -- new value at every spelling of the key and what it returned before at the other keys.
  pub register_cases :
      (key : String) (v : T) (r : Registry T)
      → ((is_empty (trim key) ≡ true)
          × (register key v r
              ≡ (err (record { code = invalid_key; registry_name = r.name; key = key }), r)))
        ⊎ ((has (trim key) r.map ≡ true)
            × (register key v r ≡ (
              err (record { code = duplicate_entry; registry_name = r.name; key = trim key }),
              r,
            )))
        ⊎ (((register key v r).0 ≡ ok v)
            × (size (register key v r).1 ≡ suc (size r))
            × ((j : String)
                → is_empty (trim j) ≡ false
                → get j (register key v r).1
                  ≡ (if trim key == trim j then ok (some v) else get j r)))
  unfolding register get size
  register_cases key v r = elim (Bool-cases (is_empty (trim key))) [
    | inl blank ↦ inl (blank, ground arith)
    | inr fine ↦ elim (Bool-cases (has (trim key) r.map)) [
      | inl there ↦ inr (inl (there, ground arith))
      | inr new ↦ inr (
          inr (
            ground arith,
            ground (arith, length-set (trim key) v r.map),
            λ j hj. ground (arith, lookup-set (trim key) (trim j) v r.map),
          ))
    ]
  ]

  -- `delete` of a key that is not blank returns whether the key was there, and removes exactly it.
  pub get-delete :
      (key j : String) (r : Registry T)
      → is_empty (trim key) ≡ false
      → is_empty (trim j) ≡ false
      → ((delete key r).0 ≡ ok (has (trim key) r.map))
        × (get j (delete key r).1 ≡ (if trim key == trim j then ok none else get j r))
  unfolding delete get
  get-delete key j r hk hj = ground (arith, lookup-remove (trim key) (trim j) r.map)
