-- ===== src/Registry.antt =====
-- packages/core/src/registries/registry.ts: a registry is a `Map` from trimmed, non-blank keys.
-- A value that is `undefined` itself is not modelled.
pub mod Laws
use generic_ai.Base.{ℕ, String, Bool, true, Option, none, some, List, [], length, if◌then◌else◌}
use generic_ai.Base.Text.{trim, is_empty}
use generic_ai.Base.Dict.{Dict, lookup, has, set, remove, keys, values}
use generic_ai.Base.Exec.{
  Result, ok, err, Exec, pure, throw, gets, lift, modify, throw_if, ◌>>=◌, ◌>>◌,
}

pub data RegistryErrorCode : Type 0 where
  invalid_key duplicate_entry missing_entry : RegistryErrorCode

pub record RegistryError : Type 0 where
  pub code : RegistryErrorCode
  pub registry_name : String
  pub key : String

pub record Registry {ℓ} (T : Type ℓ) : Type ℓ where
  pub name : String
  pub map : Dict T

unfoldable pub normalize_key : String → String → Result RegistryError String
normalize_key key name =
    let normalized = trim key in
    if is_empty normalized
    then err (record { code = invalid_key; registry_name = name; key = key })
    else ok normalized

module _ {ℓ} {T : Type ℓ} where
  unfoldable pub create_registry : String → Registry T
  create_registry name = record { name = name; map = [] }

  unfoldable pub size : Registry T → ℕ
  size r = length r.map

  unfoldable pub register : String → T → Exec (Registry T) RegistryError T
  unfolding normalize_key
  register key value = do
    name ← gets (λ r. r.name)
    normalized ← lift (normalize_key key name)
    taken ← gets (λ r. has normalized r.map)
    throw_if taken (record { code = duplicate_entry; registry_name = name; key = normalized })
    modify (λ r. record r { map = set normalized value r.map })
    pure value

  unfoldable pub has_key : String → Registry T → Result RegistryError Bool
  unfolding normalize_key
  has_key key r = elim (normalize_key key r.name) [ ok k ↦ ok (has k r.map) | err e ↦ err e ]

  unfoldable pub get : String → Registry T → Result RegistryError (Option T)
  unfolding normalize_key
  get key r = elim (normalize_key key r.name) [ ok k ↦ ok (lookup k r.map) | err e ↦ err e ]

  abbrev found : String → String → Option T → Result RegistryError T
  found name key none = err (record { code = missing_entry; registry_name = name; key = key })
  found name key (some value) = ok value

  -- `require`
  unfoldable pub require : String → Registry T → Result RegistryError T
  unfolding normalize_key
  require key r = elim (normalize_key key r.name) [
    | ok k ↦ found r.name k (lookup k r.map)
    | err e ↦ err e
  ]

  unfoldable pub delete : String → Exec (Registry T) RegistryError Bool
  unfolding normalize_key
  delete key = do
    name ← gets (λ r. r.name)
    normalized ← lift (normalize_key key name)
    there ← gets (λ r. has normalized r.map)
    modify (λ r. record r { map = remove normalized r.map })
    pure there

  unfoldable pub clear : Registry T → Registry T
  clear r = record r { map = [] }

  unfoldable pub entries : Registry T → List (String × T)
  entries r = r.map

  unfoldable pub key_list : Registry T → List String
  key_list r = keys r.map

  unfoldable pub value_list : Registry T → List T
  value_list r = values r.map
