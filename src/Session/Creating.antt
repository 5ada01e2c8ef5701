-- ===== src/Session/Creating.antt =====
-- `createRootSession` and `createChildSession` of session/orchestrator.ts on every branch.
use generic_ai.Base.{
  ℕ, suc, ◌<◌, String, ◌≡◌, refl, sym, ◌∙◌, ap, true, false, some, [], ◌∷◌, ◌++◌, length, arith,
  eq_iff, eq_refl, ◌==◌, ◌||◌, ◌⊎◌, inl, inr, contains, contains-append, is_some, if◌then◌else◌,
  Bool-cases, Option-cases, subst,
}
use generic_ai.Base.Dict.{Dict, lookup, has, set, lookup-set, length-set}
use generic_ai.Session.Types.{SessionRecord}
use generic_ai.Session.{is_live}
use generic_ai.Session.Forest.{live_of, children_of, active_at, children_at, IsForest}
use generic_ai.Session.Reading.{IsSound}
use generic_ai.Session.Invariant.{IsValid, AllSound-set}

-- A new session without children.
module _ {V : Type 0} (id : String) (q : SessionRecord V) (d : Dict (SessionRecord V))
    (new : has id d ≡ false) (live : is_live q ≡ true) (childless : q.child_session_ids ≡ [])
    (i : IsSound id q) (v : IsValid d) where
  abbrev rank_with : String → ℕ
  rank_with p = if id == p then length d else v.rank p

  rank-old : (p : String) → has p d ≡ true → rank_with p ≡ v.rank p
  rank-old p h = elim (Bool-cases (id == p)) [
    | inl e ↦ cc (new, subst (λ t. has t d ≡ true) (sym ((eq_iff id p).0 e)) h)
    | inr e ↦ rw e
  ]

  children-new_self : (p : String) → id == p ≡ true → children_at (set id q d) p ≡ []
  children-new_self p e = ap children_of (lookup-set id p q d) ∙ rw e childless

  children-new_other : (p : String) → id == p ≡ false → children_at (set id q d) p ≡ children_at d p
  children-new_other p e = ap children_of (lookup-set id p q d) ∙ rw e refl

  children-new :
      (p c : String)
      → contains (children_at (set id q d) p) c ≡ true
      → (id == p ≡ false) × (contains (children_at d p) c ≡ true)
  children-new p c m = elim (Bool-cases (id == p)) [
    | inl e ↦ cc (m, ap (λ t. contains t c) (children-new_self p e))
    | inr e ↦ (e, sym (ap (λ t. contains t c) (children-new_other p e)) ∙ m)
  ]

  has-new : (p : String) → has p (set id q d) ≡ (id == p || has p d)
  has-new p = ground (arith, ap is_some (lookup-set id p q d))

  length-new : length (set id q d) ≡ suc (length d)
  length-new = ground (arith, length-set id q d)

  live-new : (p : String) → active_at (set id q d) p ≡ (id == p || active_at d p)
  live-new p = ground (arith, ap live_of (lookup-set id p q d), live)

  has_parent : (p c : String) → contains (children_at d p) c ≡ true → has p d ≡ true
  has_parent p c m = elim (Option-cases (lookup p d)) [
    | inl e ↦ cc (m, ap (λ t. contains (children_of t) c) e)
    | inr (r, e) ↦ ap is_some e
  ]

  parent_other : (c : String) → has c d ≡ true → id == c ≡ false
  parent_other c h = elim (Bool-cases (id == c)) [
    | inl e ↦ cc (new, subst (λ t. has t d ≡ true) (sym ((eq_iff id c).0 e)) h)
    | inr e ↦ e
  ]

  new-IsForest : IsForest rank_with (set id q d)
  new-IsForest = record {
    below = λ p c m.
        let (other, listed) = children-new p c m in
        let old_parent = rank-old p (has_parent p c listed) in
        let old_child = rank-old c (v.forest.there p c listed) in
        omega (arith, v.forest.below p c listed, old_parent, old_child);
    there = λ p c m.
        let (other, listed) = children-new p c m in
        ground (arith, has-new c, v.forest.there p c listed);
    bounded = λ p m. elim (Bool-cases (id == p)) [
      | inl e ↦ rw (e, length-new) (omega arith)
      | inr e ↦
          rw (e, length-new) (omega (arith, v.forest.bounded p (sym (has-new p ∙ rw e refl) ∙ m)))
    ];
  }

  -- The new session stands behind every other.
  pub new-IsValid :
      (w : IsValid (set id q d)) × ((p : String) → has p d ≡ true → w.rank p < w.rank id)
  new-IsValid = (
    record {
      rank = rank_with;
      forest = new-IsForest;
      closed = λ p idle c m.
          let (other, listed) = children-new p c m in
          live-new c
          ∙ rw
              (
                parent_other c (v.forest.there p c listed),
                v.closed p (sym (live-new p ∙ rw other refl) ∙ idle) c listed,
              )
              refl;
      sound = AllSound-set id q d i v.sound;
    },
    λ p h. rw (eq_refl id) (omega (arith, rank-old p h, v.forest.bounded p h)),
  )

-- A session takes a new session below it.
module _ {V : Type 0} (parent id : String) (r q : SessionRecord V) (d : Dict (SessionRecord V))
    (found : lookup parent d ≡ some r) (live : is_live q ≡ true)
    (grown : q.child_session_ids ≡ r.child_session_ids ++ id ∷ []) (there : has id d ≡ true)
    (i : IsSound parent q) (v : IsValid d) (below : v.rank parent < v.rank id)
    (was_live : is_live r ≡ true) where
  has-adopt : (p : String) → has p (set parent q d) ≡ has p d
  has-adopt p = elim (Bool-cases (parent == p)) [
    | inl e ↦
        ap is_some (lookup-set parent p q d)
        ∙ rw e (sym (ap is_some (subst (λ t. lookup t d ≡ some r) ((eq_iff parent p).0 e) found)))
    | inr e ↦ ap is_some (lookup-set parent p q d) ∙ rw e refl
  ]

  live-adopt : (p : String) → active_at (set parent q d) p ≡ active_at d p
  live-adopt p = elim (Bool-cases (parent == p)) [
    | inl e ↦
        ap live_of (lookup-set parent p q d)
        ∙ rw e (
            live
            ∙ sym (
                ap live_of (subst (λ t. lookup t d ≡ some r) ((eq_iff parent p).0 e) found)
                ∙ was_live))
    | inr e ↦ ap live_of (lookup-set parent p q d) ∙ rw e refl
  ]

  children-adopt_other :
      (p : String) → parent == p ≡ false → children_at (set parent q d) p ≡ children_at d p
  children-adopt_other p e = ap children_of (lookup-set parent p q d) ∙ rw e refl

  -- A child afterwards was a child before, or is the new one below the parent.
  children-adopt :
      (p c : String)
      → contains (children_at (set parent q d) p) c ≡ true
      → (contains (children_at d p) c ≡ true) ⊎ ((parent ≡ p) × (id ≡ c))
  children-adopt p c m = elim (Bool-cases (parent == p)) [
    | inl e ↦
        let same = (eq_iff parent p).0 e in
        let before = ap children_of (subst (λ t. lookup t d ≡ some r) same found) in
        let after : children_at (set parent q d) p ≡ r.child_session_ids ++ id ∷ [] =
          ap children_of (lookup-set parent p q d) ∙ rw e grown in
        let split = contains-append r.child_session_ids (id ∷ []) c in
        elim (Bool-cases (id == c)) [
          | inl new ↦ inr (same, (eq_iff id c).0 new)
          | inr old ↦
              inl (
                ap (λ t. contains t c) before ∙ ground (arith, split, ap (λ t. contains t c) after))
        ]
    | inr e ↦ inl (sym (ap (λ t. contains t c) (children-adopt_other p e)) ∙ m)
  ]

  length-adopt : length (set parent q d) ≡ length d
  length-adopt = ground (arith, length-set parent q d, ap is_some found)

  adopt-IsForest : IsForest v.rank (set parent q d)
  adopt-IsForest = record {
    below = λ p c m. elim (children-adopt p c m) [
      | inl old ↦ v.forest.below p c old
      | inr (same, new) ↦
          subst (λ t. v.rank t < v.rank c) same (subst (λ t. v.rank parent < v.rank t) new below)
    ];
    there = λ p c m. elim (children-adopt p c m) [
      | inl old ↦ has-adopt c ∙ v.forest.there p c old
      | inr (same, new) ↦ has-adopt c ∙ subst (λ t. has t d ≡ true) new there
    ];
    bounded = λ p m. omega (arith, v.forest.bounded p (sym (has-adopt p) ∙ m), length-adopt);
  }

  pub adopt-IsValid : IsValid (set parent q d)
  adopt-IsValid = record {
    rank = v.rank;
    forest = adopt-IsForest;
    closed = λ p idle c m. elim (children-adopt p c m) [
      | inl old ↦ live-adopt c ∙ v.closed p (sym (live-adopt p) ∙ idle) c old
      | inr (same, new) ↦
          cc
            (idle, live-adopt p, ap live_of (subst (λ t. lookup t d ≡ some r) same found), was_live)
    ];
    sound = AllSound-set parent q d i v.sound;
  }
