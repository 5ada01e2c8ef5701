-- ===== src/Scope/Line.antt =====
-- The line of ancestors of a scope made by packages/core/src/scope/index.ts.
use generic_ai.Base.{
  suc, ◌+◌, ◌≤◌, String, ◌≡◌, refl, ◌∙◌, ap, Option, none, some, List, [], ◌∷◌, ◌++◌, length,
  length-append, arith,
}
use generic_ai.Scope.{
  Scope, ScopeInput, as_like, first_of, lineage_or, create_scope, normalize_parent_lineage,
  resolve_scope_id, scope_depth,
}

-- The list before its last two entries is forgotten: the last, and the one before it.
abbrev pub last_of : List String → Option String
last_of [] = none
last_of (x ∷ []) = some x
last_of (x ∷ y ∷ xs) = last_of (y ∷ xs)

abbrev pub before_last : List String → Option String
before_last [] = none
before_last (x ∷ []) = none
before_last (x ∷ y ∷ []) = some x
before_last (x ∷ y ∷ z ∷ xs) = before_last (y ∷ z ∷ xs)

-- The line leads from the root to the scope, over its parent.
pub record IsLine {V : Type 0} (s : Scope V) : Type 0 where
  pub starts : first_of s.lineage ≡ some s.root_id
  pub ends : last_of s.lineage ≡ some s.id
  pub through : before_last s.lineage ≡ s.parent_id

last_of-snoc : (xs : List String) (x : String) → last_of (xs ++ x ∷ []) ≡ some x
last_of-snoc [] x = refl
last_of-snoc (y ∷ []) x = refl
last_of-snoc (y ∷ z ∷ xs) x = last_of-snoc (z ∷ xs) x

before_last-snoc : (xs : List String) (x : String) → before_last (xs ++ x ∷ []) ≡ last_of xs
before_last-snoc [] x = refl
before_last-snoc (y ∷ []) x = refl
before_last-snoc (y ∷ z ∷ []) x = refl
before_last-snoc (y ∷ z ∷ w ∷ xs) x = before_last-snoc (z ∷ w ∷ xs) x

first_of-append :
    (xs ys : List String) (x : String) → first_of xs ≡ some x → first_of (xs ++ ys) ≡ some x
first_of-append [] ys x e = cc
first_of-append (y ∷ xs) ys x e = e

-- A list with a first entry is taken as the line.
lineage_or-some :
    (id x : String) (xs : List String) → first_of xs ≡ some x → lineage_or id (some xs) ≡ xs
lineage_or-some id x [] e = cc
lineage_or-some id x (y ∷ xs) e = refl

first_length : (x : String) (xs : List String) → first_of xs ≡ some x → 1 ≤ length xs
first_length x [] e = cc
first_length x (y ∷ xs) e = omega arith

-- One scope below another, level by level: each level has its new id and its input.
abbrev pub descend : {V : Type 0} → Scope V → List (String × ScopeInput V) → Scope V
descend s [] = s
descend s ((fresh, input) ∷ levels) = descend (create_scope fresh (some (as_like s)) input) levels

module _ {V : Type 0} where
  root-IsLine : (fresh : String) (input : ScopeInput V) → IsLine (create_scope fresh none input)
  unfolding create_scope
  root-IsLine fresh input = record { starts = refl; ends = refl; through = refl }

  parent-lineage : (s : Scope V) → IsLine s → normalize_parent_lineage (as_like s) ≡ s.lineage
  unfolding normalize_parent_lineage
  parent-lineage s l = lineage_or-some s.id s.root_id s.lineage l.starts

  child-IsLine :
      (fresh : String) (s : Scope V) (input : ScopeInput V)
      → IsLine s
      → IsLine (create_scope fresh (some (as_like s)) input)
  unfolding create_scope
  child-IsLine fresh s input l =
      let id = resolve_scope_id fresh input in
      let same = ap (λ line. line ++ id ∷ []) (parent-lineage s l) in
      record {
        starts = ap first_of same ∙ first_of-append s.lineage (id ∷ []) s.root_id l.starts;
        ends = ap last_of same ∙ last_of-snoc s.lineage id;
        through = ap before_last same ∙ before_last-snoc s.lineage id ∙ l.ends;
      }

  child_depth :
      (fresh : String) (s : Scope V) (input : ScopeInput V)
      → IsLine s
      → scope_depth (create_scope fresh (some (as_like s)) input) ≡ suc (scope_depth s)
  unfolding create_scope scope_depth
  child_depth fresh s input l =
      let id = resolve_scope_id fresh input in
      omega (
        arith,
        ap (λ line. length (line ++ id ∷ [])) (parent-lineage s l),
        length-append s.lineage (id ∷ []),
        first_length s.root_id s.lineage l.starts,
      )

  descend_lem :
      (levels : List (String × ScopeInput V)) (s : Scope V)
      → IsLine s
      → IsLine (descend s levels)
        × ((descend s levels).root_id ≡ s.root_id)
        × (scope_depth (descend s levels) ≡ length levels + scope_depth s)
  descend_lem [] s l = (l, refl, omega arith)
  descend_lem ((fresh, input) ∷ levels) s l =
      let t = create_scope fresh (some (as_like s)) input in
      let (line, root, depth) = descend_lem levels t (child-IsLine fresh s input l) in
      (
        line,
        root ∙ (unfold create_scope in refl),
        omega (arith, depth, child_depth fresh s input l),
      )

  -- A scope that is made below a root scope over any number of levels has a line that starts at
  -- the root's id, ends at its own and has its parent's before that; it keeps the root's id, and
  -- its depth is the number of levels.
  pub descend-IsLine :
      (fresh : String) (input : ScopeInput V) (levels : List (String × ScopeInput V))
      → let root = create_scope fresh none input in
        IsLine (descend root levels)
        × ((descend root levels).root_id ≡ root.id)
        × (scope_depth (descend root levels) ≡ length levels)
  descend-IsLine fresh input levels =
      let root = create_scope fresh none input in
      let (line, same, depth) = descend_lem levels root (root-IsLine fresh input) in
      (
        line,
        same ∙ (unfold create_scope in refl),
        depth ∙ (unfold create_scope scope_depth in omega arith),
      )
