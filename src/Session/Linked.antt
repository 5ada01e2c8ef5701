-- ===== src/Session/Linked.antt =====
-- How the records of session/orchestrator.ts refer to each other: the `childSessionIds` of a record,
-- the `parentSessionId` and the `rootSessionId` of the records that it lists.
use generic_ai.Base.{
  String, ◌≡◌, sym, ◌∙◌, ap, true, Option, none, some, List, [], eq_iff, ◌==◌, inl, inr, contains,
  Bool-cases, if◌then◌else◌, subst,
}
use generic_ai.Base.Dict.{Dict, lookup, set, lookup-set}
use generic_ai.Session.Types.{SessionRecord}
use generic_ai.Session.Invariant.{Ended}

-- The parent, the root and the children that a record names.
abbrev Links : Type 0
Links = Option String × Option String × List String

module _ {V : Type 0} where
  abbrev pub links_of : Option (SessionRecord V) → Links
  links_of none = (none, none, [])
  links_of (some r) = (r.parent_session_id, some r.root_session_id, r.child_session_ids)

  abbrev pub links_at : Dict (SessionRecord V) → String → Links
  links_at d p = links_of (lookup p d)

  -- A listed child names its lister as its parent, and has its root; a session that names a parent is
  -- listed by it; and a session without a parent is its own root.
  pub record IsLinked (d : Dict (SessionRecord V)) : Type 0 where
    pub down :
        (p c : String)
        → contains (links_at d p).2 c ≡ true
        → ((links_at d c).0 ≡ some p) × ((links_at d c).1 ≡ (links_at d p).1)
    pub up : (p c : String) → (links_at d c).0 ≡ some p → contains (links_at d p).2 c ≡ true
    pub top : (p x : String) → (links_at d p).1 ≡ some x → (links_at d p).0 ≡ none → x ≡ p

  pub same-IsLinked :
      (d e : Dict (SessionRecord V))
      → ((p : String) → links_at e p ≡ links_at d p)
      → IsLinked d
      → IsLinked e
  same-IsLinked d e same l = record {
    down = λ p c m.
        let (named, rooted) = l.down p c (sym (ap (λ t. contains t.2 c) (same p)) ∙ m) in
        (
          ap (λ t. t.0) (same c) ∙ named,
          ap (λ t. t.1) (same c) ∙ rooted ∙ sym (ap (λ t. t.1) (same p)),
        );
    up = λ p c h. ap (λ t. contains t.2 c) (same p) ∙ l.up p c (sym (ap (λ t. t.0) (same c)) ∙ h);
    top =
        λ p x h k. l.top p x (sym (ap (λ t. t.1) (same p)) ∙ h) (sym (ap (λ t. t.0) (same p)) ∙ k);
  }

  -- A record is written over one with the same links.
  pub written-links :
      (id : String) (r q : SessionRecord V) (d : Dict (SessionRecord V))
      → lookup id d ≡ some r
      → links_of (some q) ≡ links_of (some r)
      → (p : String) → links_at (set id q d) p ≡ links_at d p
  written-links id r q d found same p =
      let at : lookup p (set id q d) ≡ (if id == p then some q else lookup p d) =
        lookup-set id p q d in
      elim (Bool-cases (id == p)) [
        | inl e ↦
            ap links_of (at ∙ ap (λ b. if b then some q else lookup p d) e)
            ∙ same
            ∙ sym (ap links_of (subst (λ k. lookup k d ≡ some r) ((eq_iff id p).0 e) found))
        | inr e ↦ ap links_of (at ∙ ap (λ b. if b then some q else lookup p d) e)
      ]

  -- A session has ended and a cascade is over.
  pub Ended-links :
      (id reason : String) (r q : SessionRecord V) (d e : Dict (SessionRecord V))
      → lookup id d ≡ some r
      → links_of (some q) ≡ links_of (some r)
      → Ended id q reason d e
      → (p : String) → links_at e p ≡ links_at d p
  Ended-links id reason r q d e found same k p = elim (Bool-cases (id == p)) [
    | inl h ↦
        let eq = (eq_iff id p).0 h in
        ap links_of (subst (λ t. lookup t e ≡ some q) eq k.here)
        ∙ same
        ∙ sym (ap links_of (subst (λ t. lookup t d ≡ some r) eq found))
    | inr h ↦ elim (k.others p h) [
      | inl kept ↦ ap links_of kept
      | inr (below, w) ↦ ap links_of w.after ∙ sym (ap links_of w.before)
    ]
  ]
