-- ===== src/PluginHost/Walks.antt =====
-- Closed walks in a graph of texts: what a reported dependency cycle has to be.
use generic_ai.Base.{String, ◌≡◌, Bool, true, List, [], ◌∷◌, ◌++◌}

module _ (edge : String → String → Bool) where
  -- Each text has an edge to the next one.
  abbrev pub Walk : List String → Type 0
  Walk [] = Unit {0}
  Walk (x ∷ []) = Unit {0}
  Walk (x ∷ y ∷ r) = (edge x y ≡ true) × Walk (y ∷ r)

  -- A walk of one step or more that ends where it begins.
  abbrev pub IsCycle : List String → Type 0
  IsCycle c = (x : String) × (mid : List String) × (c ≡ x ∷ (mid ++ x ∷ [])) × Walk c

  pub Walk-snoc :
      (xs : List String) (x y : String)
      → Walk (xs ++ x ∷ [])
      → edge x y ≡ true
      → Walk ((xs ++ x ∷ []) ++ y ∷ [])
  Walk-snoc [] x y w e = (e, tt)
  Walk-snoc (a ∷ []) x y w e = (w.0, (e, tt))
  Walk-snoc (a ∷ b ∷ xs) x y w e = (w.0, Walk-snoc (b ∷ xs) x y w.1 e)

  pub Walk-tail : (x : String) (xs : List String) → Walk (x ∷ xs) → Walk xs
  Walk-tail x [] w = tt
  Walk-tail x (y ∷ r) w = w.1

pub Walk-mono :
    (e f : String → String → Bool)
    → ((x y : String) → e x y ≡ true → f x y ≡ true)
    → (c : List String) → Walk e c
    → Walk f c
Walk-mono e f h [] w = tt
Walk-mono e f h (x ∷ []) w = tt
Walk-mono e f h (x ∷ y ∷ r) w = (h x y w.0, Walk-mono e f h (y ∷ r) w.1)
