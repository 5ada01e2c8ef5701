-- ===== src/Storage/Objects.antt =====
-- Plain objects, as the snapshots of packages/plugin-storage-memory/src/index.ts are: `object[k] = v` and
-- the order of `Object.entries`. Keys that are array indices stand first, by their number, the others
-- in the order in which they came; an assignment to `__proto__` makes no entry.
use Prim.Native.Char.{code}
use generic_ai.Base.{
  ℕ, ◌+◌, ◌-◌, ◌*◌, String, Bool, true, false, not, ◌&&◌, Option, none, some, [], ◌∷◌, ◌++◌,
  if◌then◌else◌, leb, ltb, eqb, is_some, ◌==◌, ◌≡◌, sym, ap, ◌∙◌, contains, arith, eq_iff, eq_refl,
}
use generic_ai.Base.Text.{is_empty}
use mathlib.Core.List.{append-nil, append_assoc}
use generic_ai.Base.Dict.{Dict, has, set, keys, set_new, lookup-set}

abbrev digits_value : ℕ → String → Option ℕ
digits_value n String.[] = some n
digits_value n (String.◌∷◌ c s) =
    let rest = digits_value (10 * n + (code c - 48)) s in
    if leb 48 (code c) && leb (code c) 57 then rest else none

abbrev below_limit : Option ℕ → Option ℕ
below_limit none = none
below_limit (some n) = if ltb n 4294967295 then some n else none

-- The number of a key that is an array index, written without zeros before it.
unfoldable pub index_of : String → Option ℕ
index_of String.[] = none
index_of (String.◌∷◌ c s) =
    if eqb (code c) 48
    then (if is_empty s then some 0 else none)
    else below_limit (digits_value 0 (String.◌∷◌ c s))

-- A key that is neither an array index nor `__proto__`.
unfoldable pub is_plain : String → Bool
unfolding index_of
is_plain k = not (k == "__proto__") && not (is_some (index_of k))

abbrev is_below : Option ℕ → ℕ → Bool
is_below none n = false
is_below (some m) n = ltb m n

module _ {A : Type 0} where
  unfoldable put_index : ℕ → String → A → Dict A → Dict A
  unfolding index_of
  put_index n k a [] = (k, a) ∷ []
  put_index n k a ((j, b) ∷ d) =
      let rest = put_index n k a d in
      if j == k
      then (k, a) ∷ d
      else if is_below (index_of j) n
      then (j, b) ∷ rest
      else (k, a) ∷ (j, b) ∷ d

  abbrev put_other : String → A → Dict A → Option ℕ → Dict A
  put_other k a d none = set k a d
  put_other k a d (some n) = put_index n k a d

  -- `object[k] = a` for an object `a`.
  unfoldable pub object_put : String → A → Dict A → Dict A
  unfolding put_index
  object_put k a d = if k == "__proto__" then d else put_other k a d (index_of k)

  unfoldable pub object_of : Dict A → Dict A → Dict A
  unfolding object_put
  object_of made [] = made
  object_of made ((k, a) ∷ rest) = object_of (object_put k a made) rest

  object_put-plain :
      (k : String) (a : A) (d : Dict A) → is_plain k ≡ true → object_put k a d ≡ set k a d
  unfolding object_put is_plain
  object_put-plain k a d e = ground arith

  -- Plain keys that stand once, each.
  abbrev pub IsPlain : Dict A → Type 0
  IsPlain [] = Unit
  IsPlain ((k, a) ∷ d) = (is_plain k ≡ true) × (contains (keys d) k ≡ false) × IsPlain d

  still_new :
      (k j : String) (a : A) (made d : Dict A)
      → contains (keys d) k ≡ false
      → contains (keys d) j ≡ true
      → has j made ≡ false
      → has j (set k a made) ≡ false
  still_new k j a made d once there new =
      ground (arith, ap is_some (lookup-set k j a made), eq_iff k j)

  -- An object keeps such keys in their order.
  pub object_of-plain :
      (d made : Dict A)
      → IsPlain d
      → ((k : String) → contains (keys d) k ≡ true → has k made ≡ false)
      → object_of made d ≡ made ++ d
  unfolding object_of
  object_of-plain [] made h new = sym (append-nil made)
  object_of-plain ((k, a) ∷ d) made (plain, once, h) new =
      ap (λ m. object_of m d) (object_put-plain k a made plain)
      ∙ object_of-plain d (set k a made) h
          (λ j there. still_new k j a made d once there (new j (ground (arith, there))))
      ∙ ap (λ m. m ++ d) (set_new k a made (new k (ground (arith, eq_refl k))))
      ∙ append_assoc made ((k, a) ∷ []) d
