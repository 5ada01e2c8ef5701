-- ===== src/Session/Linking.antt =====
-- `createRootSession` and `createChildSession` of session/orchestrator.ts keep the way in which the
-- records refer to each other.
use generic_ai.Base.{
  String, ◌≡◌, sym, ◌∙◌, ap, true, false, none, some, [], ◌∷◌, ◌++◌, arith, eq_iff, ◌==◌, ◌&&◌,
  ◌||◌, inl, inr, contains, contains-append, Bool-cases, Option-cases, is_some, if◌then◌else◌,
  subst,
}
use mathlib.Core.Option.{some-injective}
use generic_ai.Base.Dict.{Dict, lookup, has, set, lookup-set}
use generic_ai.Session.Types.{SessionRecord}
use generic_ai.Session.Forest.{children_of, children_at}
use generic_ai.Session.Invariant.{IsValid}
use generic_ai.Session.Linked.{IsLinked, links_of, links_at}

module _ {V : Type 0} where
  lookup_absent :
      (id p : String) (d : Dict (SessionRecord V))
      → id == p ≡ true
      → has id d ≡ false
      → lookup p d ≡ none
  lookup_absent id p d e new = elim (Option-cases (lookup p d)) [
    | inl absent ↦ absent
    | inr (r, there) ↦ cc (ap is_some there, subst (λ k. has k d ≡ false) ((eq_iff id p).0 e) new)
  ]

  has-child :
      (d : Dict (SessionRecord V))
      → IsValid d
      → (id p c : String) → has id d ≡ false
      → contains (links_at d p).2 c ≡ true
      → (id == p ≡ false) × (id == c ≡ false)
  has-child d v id p c new m = (
    elim (Bool-cases (id == p)) [
      | inr e ↦ e
      | inl e ↦ elim (Option-cases (lookup p d)) [
        | inl none_there ↦ cc (m, ap (λ o. contains (links_of o).2 c) none_there)
        | inr (r, there) ↦
            cc (ap is_some there, subst (λ k. has k d ≡ false) ((eq_iff id p).0 e) new)
      ]
    ],
    elim (Bool-cases (id == c)) [
      | inr e ↦ e
      | inl e ↦
          let listed : contains (children_at d p) c ≡ true = elim (Option-cases (lookup p d)) [
            | inl none_there ↦ cc (m, ap (λ o. contains (links_of o).2 c) none_there)
            | inr (r, there) ↦
                ap (λ o. contains (children_of o) c) there
                ∙ sym (ap (λ o. contains (links_of o).2 c) there)
                ∙ m
          ] in
          cc (v.forest.there p c listed, subst (λ k. has k d ≡ false) ((eq_iff id c).0 e) new)
    ],
  )

  -- A new root session.
  pub root-IsLinked :
      (id : String) (q : SessionRecord V) (d : Dict (SessionRecord V))
      → has id d ≡ false
      → links_of (some q) ≡ (none, some id, [])
      → IsValid d
      → IsLinked d
      → IsLinked (set id q d)
  root-IsLinked id q d new shape v l =
      let e = set id q d in
      let at : (p : String) → lookup p e ≡ (if id == p then some q else lookup p d) =
        λ p. lookup-set id p q d in
      let here : (p : String) → id == p ≡ true → links_at e p ≡ (none, some id, []) =
        λ p h. ap links_of (at p ∙ ap (λ b. if b then some q else lookup p d) h) ∙ shape in
      let there : (p : String) → id == p ≡ false → links_at e p ≡ links_at d p =
        λ p h. ap links_of (at p ∙ ap (λ b. if b then some q else lookup p d) h) in
      record {
        down = λ p c m. elim (Bool-cases (id == p)) [
          | inl h ↦ cc (m, ap (λ t. contains t.2 c) (here p h))
          | inr h ↦
              let old = sym (ap (λ t. contains t.2 c) (there p h)) ∙ m in
              let apart = there c (has-child d v id p c new old).1 in
              let (named, rooted) = l.down p c old in
              (
                ap (λ t. t.0) apart ∙ named,
                ap (λ t. t.1) apart ∙ rooted ∙ sym (ap (λ t. t.1) (there p h)),
              )
        ];
        up = λ p c h. elim (Bool-cases (id == c)) [
          | inl k ↦ cc (h, ap (λ t. t.0) (here c k))
          | inr k ↦
              let old = l.up p c (sym (ap (λ t. t.0) (there c k)) ∙ h) in
              ap (λ t. contains t.2 c) (there p (has-child d v id p c new old).0) ∙ old
        ];
        top = λ p x h k. elim (Bool-cases (id == p)) [
          | inl f ↦ some-injective _ _ (sym h ∙ ap (λ t. t.1) (here p f)) ∙ (eq_iff id p).0 f
          | inr f ↦
              l.top p x (sym (ap (λ t. t.1) (there p f)) ∙ h) (sym (ap (λ t. t.0) (there p f)) ∙ k)
        ];
      }

  -- A new session below a parent, which lists it at the end.
  module _ (parent id : String) (r q g : SessionRecord V) (d : Dict (SessionRecord V))
      (found : lookup parent d ≡ some r) (new : has id d ≡ false) (other : id == parent ≡ false)
      (shape : links_of (some q) ≡ (some parent, some r.root_session_id, []))
      (grown : links_of (some g)
        ≡ (r.parent_session_id, some r.root_session_id, r.child_session_ids ++ id ∷ []))
      (v : IsValid d) (l : IsLinked d) where
    abbrev e : Dict (SessionRecord V)
    e = set parent g (set id q d)

    parent-links :
        (p : String)
        → parent == p ≡ true
        → (links_at e p
            ≡ (r.parent_session_id, some r.root_session_id, r.child_session_ids ++ id ∷ []))
          × (links_at d p ≡ (r.parent_session_id, some r.root_session_id, r.child_session_ids))
    parent-links p h =
        let at : lookup p e ≡ (if parent == p then some g else lookup p (set id q d)) =
          lookup-set parent p g (set id q d) in
        (
          ap links_of (at ∙ ap (λ b. if b then some g else lookup p (set id q d)) h) ∙ grown,
          ap links_of (subst (λ t. lookup t d ≡ some r) ((eq_iff parent p).0 h) found),
        )

    apart-links :
        (p : String)
        → parent == p ≡ false
        → links_at e p ≡ links_of (if id == p then some q else lookup p d)
    apart-links p h =
        let at : lookup p e ≡ (if parent == p then some g else lookup p (set id q d)) =
          lookup-set parent p g (set id q d) in
        ap links_of
          (at ∙ ap (λ b. if b then some g else lookup p (set id q d)) h ∙ lookup-set id p q d)

    new-links :
        (p : String) → id == p ≡ true → links_at e p ≡ (some parent, some r.root_session_id, [])
    new-links p h =
        apart-links p (ground (arith, eq_iff id p, eq_iff parent p, eq_iff id parent, other, h))
        ∙ ap (λ b. links_of (if b then some q else lookup p d)) h
        ∙ shape

    -- The parent and the root of a session that was there are as before.
    old-links :
        (p : String)
        → id == p ≡ false
        → ((links_at e p).0 ≡ (links_at d p).0) × ((links_at e p).1 ≡ (links_at d p).1)
    old-links p h = elim (Bool-cases (parent == p)) [
      | inl k ↦
          let (after, before) = parent-links p k in
          (
            ap (λ t. t.0) after ∙ sym (ap (λ t. t.0) before),
            ap (λ t. t.1) after ∙ sym (ap (λ t. t.1) before),
          )
      | inr k ↦
          let same : links_at e p ≡ links_at d p =
            apart-links p k ∙ ap (λ b. links_of (if b then some q else lookup p d)) h in
          (ap (λ t. t.0) same, ap (λ t. t.1) same)
    ]

    -- Whom a session lists afterwards: the new session, if it is the parent, and those it listed.
    listed-after :
        (p c : String)
        → contains (links_at e p).2 c ≡ ((parent == p && id == c) || contains (links_at d p).2 c)
    listed-after p c = elim (Bool-cases (parent == p)) [
      | inl k ↦
          let (after, before) = parent-links p k in
          let split = contains-append r.child_session_ids (id ∷ []) c in
          ground (arith, k, split, ap (λ t. contains t.2 c) after, ap (λ t. contains t.2 c) before)
      | inr k ↦ elim (Bool-cases (id == p)) [
        | inl h ↦
            let absent = lookup_absent id p d h new in
            ground (
              arith,
              k,
              ap (λ t. contains t.2 c) (new-links p h),
              ap (λ o. contains (links_of o).2 c) absent,
            )
        | inr h ↦
            let same : links_at e p ≡ links_at d p =
              apart-links p k ∙ ap (λ b. links_of (if b then some q else lookup p d)) h in
            ground (arith, k, ap (λ t. contains t.2 c) same)
      ]
    ]

    pub child-IsLinked : IsLinked e
    child-IsLinked = record {
      down = λ p c m. elim (Bool-cases (contains (links_at d p).2 c)) [
        | inl old ↦
            let (p_old, c_old) = has-child d v id p c new old in
            let (named, rooted) = l.down p c old in
            (
              (old-links c c_old).0 ∙ named,
              (old-links c c_old).1 ∙ rooted ∙ sym (old-links p p_old).1,
            )
        | inr fresh ↦
            let both : (parent == p && id == c) ≡ true =
              ground (arith, listed-after p c, m, fresh) in
            let at : parent == p ≡ true = ground (arith, both) in
            let child : id == c ≡ true = ground (arith, both) in
            (
              ap (λ t. t.0) (new-links c child) ∙ ap some ((eq_iff parent p).0 at),
              ap (λ t. t.1) (new-links c child) ∙ sym (ap (λ t. t.1) (parent-links p at).0),
            )
      ];
      up = λ p c h. elim (Bool-cases (id == c)) [
        | inl k ↦
            let at = some-injective _ _ (sym (ap (λ t. t.0) (new-links c k)) ∙ h) in
            ground (arith, listed-after p c, k, (eq_iff parent p).1 at)
        | inr k ↦ ground (arith, listed-after p c, l.up p c (sym (old-links c k).0 ∙ h))
      ];
      top = λ p x h k. elim (Bool-cases (id == p)) [
        | inl f ↦ cc (k, ap (λ t. t.0) (new-links p f))
        | inr f ↦ l.top p x (sym (old-links p f).1 ∙ h) (sym (old-links p f).0 ∙ k)
      ];
    }
