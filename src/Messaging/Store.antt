-- ===== src/Messaging/Store.antt =====
-- What packages/plugin-messaging/src/index.ts relies on of its store, and that a `Map` does it.
use mathlib.Core.Option.{some-injective}
use generic_ai.Base.{
  String, ◌≡◌, refl, sym, ap, inl, inr, Bool, true, false, ◌∙◌, Option, none, some, [], ◌∷◌,
  if◌then◌else◌, ◌==◌, eq_iff, eq_refl, In, Distinct, arith,
}
use generic_ai.Base.Dict.{
  Dict, lookup, has, set, remove, keys, lookup-set, lookup-remove, contains-keys, keys-set-Distinct,
  keys-remove-Distinct,
}
use generic_ai.Base.Exec.{Result, ok, err}
use generic_ai.Base.Text.{trim, is_empty}
use generic_ai.Messaging.{NamespaceStore}

-- The store normalizes a key or refuses it; under a normalized key there is a value or none.
pub record IsStore {S V : Type 0} (store : NamespaceStore S V) : Type 0 where
  pub key_of : String → Option String
  pub content : String → S → Option V
  pub get-ok :
      (k : String) (s : S) (o : Option V)
      → store.get k s ≡ ok o
      → (n : String) × (key_of k ≡ some n) × (o ≡ content n s)
  pub set-ok :
      (k : String) (v : V) (s t : S)
      → store.set k v s ≡ ok t
      → (n : String) × (key_of k ≡ some n)
        × ((j : String) → content j t ≡ (if n == j then some v else content j s))
  pub delete-ok :
      (k : String) (s t : S) (b : Bool)
      → store.delete k s ≡ ok (b, t)
      → (n : String) × (key_of k ≡ some n)
        × ((j : String) → content j t ≡ (if n == j then none else content j s))
  pub listed : (k : String) (v : V) (s : S) → In (k, v) (store.list s) → content k s ≡ some v
  pub lists : (k : String) (v : V) (s : S) → content k s ≡ some v → In (k, v) (store.list s)

-- A `Map`: a dictionary in which no key stands twice.
abbrev pub MapStore : Type 0 → Type 0
MapStore V = (d : Dict V) × Distinct (keys d)

module _ {V : Type 0} where
  In-lookup :
      (k : String) (v : V) (d : Dict V) → Distinct (keys d) → In (k, v) d → lookup k d ≡ some v
  unfolding lookup
  In-lookup k v [] distinct h = absurd h
  In-lookup k v ((j, w) ∷ d) distinct (inl e) =
      ground (arith, ap (λ p. p.0) e, ap (λ p. p.1) e, eq_refl j, eq_iff j k)
  In-lookup k v ((j, w) ∷ d) distinct (inr i) =
      let found = In-lookup k v d distinct.1 i in
      ground (arith, found, contains-keys j d, eq_iff j k, distinct.0)

  lookup-In : (k : String) (v : V) (d : Dict V) → lookup k d ≡ some v → In (k, v) d
  unfolding lookup
  lookup-In k v [] e = cc
  lookup-In k v ((j, w) ∷ d) e = here_or k v j w d (lookup-In k v d) (j == k) refl e
    where
      here_or :
          (k : String) (v : V) (j : String) (w : V) (d : Dict V)
          → (lookup k d ≡ some v → In (k, v) d)
          → (b : Bool) → j == k ≡ b
          → (if b then some w else lookup k d) ≡ some v
          → In (k, v) ((j, w) ∷ d)
      here_or k v j w d f true at e =
          inl (pair_eq k j v w (sym ((eq_iff j k).0 at)) (some-injective _ _ (sym e)))
        where
          pair_eq : (k j : String) (v w : V) → k ≡ j → v ≡ w → ◌≡◌ {A = String × V} (k, v) (j, w)
          pair_eq k j v w e h = cc
      here_or k v j w d f false at e = inr (f e)

-- A key without the blanks around it; a blank one is refused.
abbrev trimmed_key : String → Option String
trimmed_key k = let n = trim k in if is_empty n then none else some n

-- What is done under a key that is not refused.
abbrev under : {A : Type 0} → Option String → (String → A) → Result String A
under none act = err "A key must not be blank."
under (some n) act = ok (act n)

under-ok :
    {A : Type 0} (o : Option String) (act : String → A) (a : A)
    → under o act ≡ ok a
    → (n : String) × (o ≡ some n) × (a ≡ act n)
under-ok none act a e = cc
under-ok (some n) act a e = (n, refl, cc)

abbrev pub map_store : {V : Type 0} → NamespaceStore (MapStore V) V
map_store = record {
  get = λ k s. under (trimmed_key k) (λ n. lookup n s.0);
  set = λ k v s. under (trimmed_key k) (λ n. (set n v s.0, keys-set-Distinct n v s.0 s.1));
  delete = λ k s.
      under (trimmed_key k) (λ n. (has n s.0, (remove n s.0, keys-remove-Distinct n s.0 s.1)));
  list = λ s. s.0;
}

pub map_store-IsStore : {V : Type 0} → IsStore (map_store {V = V})
map_store-IsStore = record {
  key_of = trimmed_key;
  content = λ k s. lookup k s.0;
  get-ok = λ k s o e. under-ok (trimmed_key k) _ o e;
  set-ok = λ k v s t e.
      let (n, named, made) = under-ok (trimmed_key k) _ t e in
      (n, named, λ j. ap (λ u. lookup j u.0) made ∙ lookup-set n j v s.0);
  delete-ok = λ k s t b e.
      let (n, named, made) = under-ok (trimmed_key k) _ (b, t) e in
      (n, named, λ j. ap (λ u. lookup j u.1.0) made ∙ lookup-remove n j s.0);
  listed = λ k v s h. In-lookup k v s.0 s.1 h;
  lists = λ k v s h. lookup-In k v s.0 h;
}

pub content-empty :
    {V : Type 0} (k : String) → (map_store-IsStore {V = V}).content k ([], tt) ≡ none
unfolding map_store-IsStore lookup
content-empty k = refl
