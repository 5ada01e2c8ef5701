-- ===== src/Base/Dict.antt =====
-- JavaScript's `Map` with text keys, in insertion order: setting a key that is there keeps its place.
use Prim.Native.Nat.{suc}
use Prim.Native.String.{String}
use mathlib.Core.Path.{◌≡◌, refl}
use mathlib.Core.Bool.{Bool, false, ◌||◌}
use mathlib.Core.Option.{Option, none, some}
use mathlib.Core.List.{List, [], ◌∷◌, ◌++◌}
use native.Mathlib.Omega.{arith}
use text.Mathlib.Text.{◌==◌}
use text.Mathlib.TextEquality.{eq_iff}
use generic_ai.Base.Tests.{if◌then◌else◌, is_some}
use generic_ai.Base.Lists.{length, contains, Distinct}

abbrev pub Dict {ℓ} : Type ℓ → Type ℓ
Dict V = List (String × V)

module _ {ℓ} {V : Type ℓ} where
  -- m.get(k)
  unfoldable pub lookup : String → Dict V → Option V
  lookup k [] = none
  lookup k ((j, v) ∷ m) = if j == k then some v else lookup k m

  -- m.has(k)
  abbrev pub has : String → Dict V → Bool
  has k m = is_some (lookup k m)

  -- m.set(k, v)
  unfoldable pub set : String → V → Dict V → Dict V
  set k v [] = (k, v) ∷ []
  set k v ((j, w) ∷ m) = if j == k then (j, v) ∷ m else (j, w) ∷ set k v m

  -- m.delete(k)
  unfoldable pub remove : String → Dict V → Dict V
  remove k [] = []
  remove k ((j, v) ∷ m) = let rest = remove k m in if j == k then rest else (j, v) ∷ rest

  abbrev pub keys : Dict V → List String
  keys [] = []
  keys ((j, v) ∷ m) = j ∷ keys m

  abbrev pub values : Dict V → List V
  values [] = []
  values ((j, v) ∷ m) = v ∷ values m

  pub lookup-set :
      (k j : String) (v : V) (m : Dict V)
      → lookup j (set k v m) ≡ (if k == j then some v else lookup j m)
  unfolding lookup set
  lookup-set k j v [] = refl
  lookup-set k j v ((i, w) ∷ m) =
      ground (arith, eq_iff k j, eq_iff i k, eq_iff i j, lookup-set k j v m)

  pub lookup-remove :
      (k j : String) (m : Dict V) → lookup j (remove k m) ≡ (if k == j then none else lookup j m)
  unfolding lookup remove
  lookup-remove k j [] = ground arith
  lookup-remove k j ((i, w) ∷ m) =
      ground (arith, eq_iff k j, eq_iff i k, eq_iff i j, lookup-remove k j m)

  pub contains-keys : (k : String) (m : Dict V) → contains (keys m) k ≡ has k m
  unfolding lookup
  contains-keys k [] = refl
  contains-keys k ((j, v) ∷ m) = ground (arith, contains-keys k m)

  -- A new key goes to the end.
  pub keys-set :
      (k : String) (v : V) (m : Dict V)
      → keys (set k v m) ≡ (if has k m then keys m else keys m ++ k ∷ [])
  unfolding lookup set
  keys-set k v [] = refl
  keys-set k v ((j, w) ∷ m) = ground (arith, keys-set k v m)

  pub set_new : (k : String) (v : V) (m : Dict V) → has k m ≡ false → set k v m ≡ m ++ (k, v) ∷ []
  unfolding lookup set
  set_new k v [] h = refl
  set_new k v ((j, w) ∷ m) h = ground (arith, set_new k v m)

  pub length-set :
      (k : String) (v : V) (m : Dict V)
      → length (set k v m) ≡ (if has k m then length m else suc (length m))
  unfolding lookup set
  length-set k v [] = refl
  length-set k v ((j, w) ∷ m) = ground (arith, length-set k v m)

  pub contains-keys-set :
      (k j : String) (v : V) (m : Dict V)
      → contains (keys (set k v m)) j ≡ (k == j || contains (keys m) j)
  unfolding set
  contains-keys-set k j v [] = refl
  contains-keys-set k j v ((i, w) ∷ m) =
      ground (arith, eq_iff k j, eq_iff i k, eq_iff i j, contains-keys-set k j v m)

  pub keys-set-Distinct :
      (k : String) (v : V) (m : Dict V) → Distinct (keys m) → Distinct (keys (set k v m))
  unfolding set
  keys-set-Distinct k v [] h = (refl, tt)
  keys-set-Distinct k v ((i, w) ∷ m) h =
      ground (arith, eq_iff i k, eq_iff k i, contains-keys-set k i v m, keys-set-Distinct k v m h.1)

  pub contains-keys-remove :
      (k j : String) (m : Dict V)
      → contains (keys m) j ≡ false
      → contains (keys (remove k m)) j ≡ false
  unfolding remove
  contains-keys-remove k j [] h = refl
  contains-keys-remove k j ((i, w) ∷ m) h = ground (arith, contains-keys-remove k j m)

  pub keys-remove-Distinct :
      (k : String) (m : Dict V) → Distinct (keys m) → Distinct (keys (remove k m))
  unfolding remove
  keys-remove-Distinct k [] h = tt
  keys-remove-Distinct k ((i, w) ∷ m) h =
      ground (arith, contains-keys-remove k i m, keys-remove-Distinct k m h.1)

pub ruleset dict_laws = (lookup-set, lookup-remove)
