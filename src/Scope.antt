-- ===== src/Scope.antt =====
-- packages/core/src/scope/index.ts: scopes with their line of ancestors, and values that carry a
-- scope. A new id is the argument `fresh`.
pub mod Line
use generic_ai.Base.{
  ℕ, ◌-◌, String, Bool, not, Option, none, some, List, [], ◌∷◌, ◌++◌, length, is_some, get_or,
  or_else,
}
use generic_ai.Base.Dict.{Dict}

pub record ScopeLike (V : Type 0) : Type 0 where
  pub id : String
  pub root_id : Option String
  pub parent_id : Option String
  pub lineage : Option (List String)
  pub kind : Option String
  pub label : Option String
  pub metadata : Option (Dict V)

pub record Scope (V : Type 0) : Type 0 where
  pub id : String
  pub root_id : String
  pub lineage : List String
  pub parent_id : Option String
  pub kind : Option String
  pub label : Option String
  pub metadata : Option (Dict V)

pub record ScopeInput (V : Type 0) : Type 0 where
  pub id : Option String
  pub kind : Option String
  pub label : Option String
  pub metadata : Option (Dict V)

-- A value that may carry a scope.
pub record Carrier (T V : Type 0) : Type 0 where
  pub value : T
  pub scope : Option (Scope V)

abbrev pub lineage_or : String → Option (List String) → List String
lineage_or id (some (x ∷ xs)) = x ∷ xs
lineage_or id (some []) = id ∷ []
lineage_or id none = id ∷ []

abbrev pub first_of : List String → Option String
first_of [] = none
first_of (x ∷ xs) = some x

module _ {V : Type 0} where
  abbrev pub as_like : Scope V → ScopeLike V
  as_like s = record {
    id = s.id;
    root_id = some s.root_id;
    parent_id = s.parent_id;
    lineage = some s.lineage;
    kind = s.kind;
    label = s.label;
    metadata = s.metadata;
  }

  abbrev pub resolve_scope_id : String → ScopeInput V → String
  resolve_scope_id fresh input = get_or input.id fresh

  unfoldable pub normalize_parent_lineage : ScopeLike V → List String
  normalize_parent_lineage parent = lineage_or parent.id parent.lineage

  unfoldable pub resolve_root_id : ScopeLike V → String
  unfolding normalize_parent_lineage
  resolve_root_id parent =
      get_or (or_else parent.root_id (first_of (normalize_parent_lineage parent))) parent.id

  unfoldable pub create_root_scope : (fresh : String) → ScopeInput V → Scope V
  create_root_scope fresh input =
      let id = resolve_scope_id fresh input in
      record {
        id = id;
        root_id = id;
        lineage = id ∷ [];
        parent_id = none;
        kind = input.kind;
        label = input.label;
        metadata = input.metadata;
      }

  unfoldable pub create_child_scope : (fresh : String) → ScopeLike V → ScopeInput V → Scope V
  unfolding normalize_parent_lineage resolve_root_id
  create_child_scope fresh parent input =
      let id = resolve_scope_id fresh input in
      record {
        id = id;
        root_id = resolve_root_id parent;
        lineage = normalize_parent_lineage parent ++ id ∷ [];
        parent_id = some parent.id;
        kind = or_else input.kind parent.kind;
        label = input.label;
        metadata = input.metadata;
      }

  unfoldable pub create_scope : (fresh : String) → Option (ScopeLike V) → ScopeInput V → Scope V
  unfolding create_root_scope create_child_scope
  create_scope fresh none input = create_root_scope fresh input
  create_scope fresh (some parent) input = create_child_scope fresh parent input

  unfoldable pub is_root_scope : Scope V → Bool
  is_root_scope s = not (is_some s.parent_id)

  unfoldable pub scope_depth : Scope V → ℕ
  scope_depth s = length s.lineage - 1

module _ {T V : Type 0} where
  unfoldable pub with_scope : Carrier T V → Scope V → Carrier T V
  with_scope c s = record c { scope = some s }

  unfoldable pub with_child_scope :
      (fresh : String) → Carrier T V → ScopeLike V → ScopeInput V → Carrier T V
  unfolding with_scope create_child_scope
  with_child_scope fresh c parent input = with_scope c (create_child_scope fresh parent input)

  -- A scope that is there stays.
  unfoldable pub ensure_scope : Carrier T V → Scope V → Carrier T V
  unfolding with_scope
  ensure_scope c s = with_scope c (get_or c.scope s)
