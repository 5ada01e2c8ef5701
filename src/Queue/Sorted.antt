-- ===== src/Queue/Sorted.antt =====
-- The order of the pending jobs in packages/plugin-queue-memory/src/index.ts.
use generic_ai.Base.{
  ℕ, suc, ◌≡◌, refl, ◌∙◌, ap, true, false, some, List, [], ◌∷◌, length, All, eqb, arith, Bool-cases,
  Option-cases, subst, inl, inr,
}
use mathlib.Core.Option.{some-injective}
use generic_ai.Queue.Types.{ℤ, pos, negsuc, lt_int, Job, is_before}
use generic_ai.Queue.{insert, sort}
use generic_ai.Queue.Calls.{take_out}

-- No later job stands before an earlier one.
abbrev pub Sorted : {V : Type 0} → List (Job V) → Type 0
Sorted [] = Unit
Sorted (j ∷ js) = All (λ k. is_before k j ≡ false) js × Sorted js

-- Job `j` with the sequence number `n` leaves `js`, and `rest` stays.
pub data Taken {V : Type 0} (n : ℕ) : List (Job V) → Job V → List (Job V) → Type 0 where
  here : {j : Job V} {js : List (Job V)} → j.sequence ≡ n → Taken n (j ∷ js) j js
  there : {j k : Job V} {js rest : List (Job V)} → Taken n js j rest → Taken n (k ∷ js) j (k ∷ rest)

pub take_out-Taken :
    {V : Type 0} (n : ℕ) (js : List (Job V)) (j : Job V) (rest : List (Job V))
    → take_out n js ≡ some (j, rest)
    → Taken n js j rest
unfolding take_out
take_out-Taken n [] j rest e = cc
take_out-Taken n (k ∷ ks) j rest e = elim (Bool-cases (eqb k.sequence n)) [
  | inl h ↦
      subst (λ p. Taken n (k ∷ ks) p.0 p.1) (some-injective _ _ (rw h at e)) (here (ground arith))
  | inr h ↦ elim (Option-cases (take_out n ks)) [
    | inl f ↦ cc (rw (h, f) at e)
    | inr (p, f) ↦
        subst (λ p. Taken n (k ∷ ks) p.0 p.1) (some-injective _ _ (rw (h, f) at e))
          (there (take_out-Taken n ks p.0 p.1 f))
  ]
]

lt_int_trans : (a b c : ℤ) → lt_int a b ≡ false → lt_int b c ≡ false → lt_int a c ≡ false
lt_int_trans (pos a) (pos b) (pos c) h k = ground arith
lt_int_trans (pos a) (pos b) (negsuc c) h k = ground arith
lt_int_trans (pos a) (negsuc b) (pos c) h k = ground arith
lt_int_trans (pos a) (negsuc b) (negsuc c) h k = ground arith
lt_int_trans (negsuc a) (pos b) c h k = ground arith
lt_int_trans (negsuc a) (negsuc b) (pos c) h k = ground arith
lt_int_trans (negsuc a) (negsuc b) (negsuc c) h k = ground arith

lt_int_asym : (a b : ℤ) → lt_int a b ≡ true → lt_int b a ≡ false
lt_int_asym (pos a) (pos b) h = ground arith
lt_int_asym (pos a) (negsuc b) h = ground arith
lt_int_asym (negsuc a) (pos b) h = ground arith
lt_int_asym (negsuc a) (negsuc b) h = ground arith

module _ {V : Type 0} where
  is_before_asym : (j k : Job V) → is_before j k ≡ true → is_before k j ≡ false
  unfolding is_before
  is_before_asym j k h = ground (
    arith,
    lt_int_asym j.run_at k.run_at,
    lt_int_asym k.run_at j.run_at,
    lt_int_asym j.priority k.priority,
    lt_int_asym k.priority j.priority,
  )

  -- Not being before is transitive, as the order is total.
  is_before_trans :
      (i j k : Job V) → is_before i j ≡ false → is_before j k ≡ false → is_before i k ≡ false
  unfolding is_before
  is_before_trans i j k h g = ground (
    arith,
    lt_int_trans i.run_at j.run_at k.run_at,
    lt_int_trans k.run_at j.run_at i.run_at,
    lt_int_trans j.run_at k.run_at i.run_at,
    lt_int_trans j.run_at i.run_at k.run_at,
    lt_int_trans k.run_at i.run_at j.run_at,
    lt_int_trans i.run_at k.run_at j.run_at,
    lt_int_trans i.priority j.priority k.priority,
    lt_int_trans k.priority j.priority i.priority,
    lt_int_trans j.priority k.priority i.priority,
    lt_int_trans j.priority i.priority k.priority,
    lt_int_trans k.priority i.priority j.priority,
    lt_int_trans i.priority k.priority j.priority,
  )

  All-insert :
      (P : Job V → Type 0) (j : Job V) (ks : List (Job V)) → P j → All P ks → All P (insert j ks)
  unfolding insert
  All-insert P j [] p h = (p, tt)
  All-insert P j (k ∷ ks) p h = elim (Bool-cases (is_before j k)) [
    | inl e ↦ rw e (p, h)
    | inr e ↦ rw e (h.0, All-insert P j ks p h.1)
  ]

  pub All-sort : (P : Job V → Type 0) (js : List (Job V)) → All P js → All P (sort js)
  unfolding sort
  All-sort P [] h = tt
  All-sort P (j ∷ js) h = All-insert P j (sort js) h.0 (All-sort P js h.1)

  later-All :
      (j k : Job V) (ks : List (Job V))
      → is_before k j ≡ false
      → All (λ l. is_before l k ≡ false) ks
      → All (λ l. is_before l j ≡ false) ks
  later-All j k [] h a = tt
  later-All j k (l ∷ ls) h a = (is_before_trans l k j a.0 h, later-All j k ls h a.1)

  insert-Sorted : (j : Job V) (ks : List (Job V)) → Sorted ks → Sorted (insert j ks)
  unfolding insert
  insert-Sorted j [] s = (tt, tt)
  insert-Sorted j (k ∷ ks) s = elim (Bool-cases (is_before j k)) [
    | inl e ↦ let after = is_before_asym j k e in rw e ((after, later-All j k ks after s.0), s)
    | inr e ↦ rw e (All-insert (λ l. is_before l k ≡ false) j ks e s.0, insert-Sorted j ks s.1)
  ]

  -- Sorting sorts.
  pub sort-Sorted : (js : List (Job V)) → Sorted (sort js)
  unfolding sort
  sort-Sorted [] = tt
  sort-Sorted (j ∷ js) = insert-Sorted j (sort js) (sort-Sorted js)

  length-insert : (j : Job V) (ks : List (Job V)) → length (insert j ks) ≡ suc (length ks)
  unfolding insert
  length-insert j [] = refl
  length-insert j (k ∷ ks) = ground (arith, length-insert j ks)

  pub length-sort : (js : List (Job V)) → length (sort js) ≡ length js
  unfolding sort
  length-sort [] = refl
  length-sort (j ∷ js) = length-insert j (sort js) ∙ ap (λ n. suc n) (length-sort js)

  pub All-delete :
      (P : Job V → Type 0) (n : ℕ) (js : List (Job V)) (j : Job V) (rest : List (Job V))
      → Taken n js j rest
      → All P js
      → P j × All P rest
  All-delete P n [] j rest t h = elim t [ ]
  All-delete P n (k ∷ js) j rest (here e) h = (h.0, h.1)
  All-delete P n (k ∷ js) j (k' ∷ rest) (there t) h =
      let (p, a) = All-delete P n js j rest t h.1 in (p, (h.0, a))

  pub Taken-Sorted :
      (n : ℕ) (js : List (Job V)) (j : Job V) (rest : List (Job V))
      → Taken n js j rest
      → Sorted js
      → Sorted rest
  Taken-Sorted n [] j rest t s = elim t [ ]
  Taken-Sorted n (k ∷ js) j rest (here e) s = s.1
  Taken-Sorted n (k ∷ js) j (k' ∷ rest) (there t) s = (
    (All-delete (λ l. is_before l k ≡ false) n js j rest t s.0).1,
    Taken-Sorted n js j rest t s.1,
  )

  pub length-Taken :
      (n : ℕ) (js : List (Job V)) (j : Job V) (rest : List (Job V))
      → Taken n js j rest
      → length js ≡ suc (length rest)
  length-Taken n [] j rest t = elim t [ ]
  length-Taken n (k ∷ js) j rest (here e) = refl
  length-Taken n (k ∷ js) j (k' ∷ rest) (there t) = ap (λ m. suc m) (length-Taken n js j rest t)
