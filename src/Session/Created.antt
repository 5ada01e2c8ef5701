-- ===== src/Session/Created.antt =====
-- `createRootSession` and `createChildSession` of session/orchestrator.ts on every branch.
use generic_ai.Base.{
  ℕ, suc, String, ◌≡◌, refl, sym, ◌∙◌, ap, true, false, none, some, arith, eq_iff, eq_refl, ◌==◌,
  inl, inr, is_some, get_or, Bool-cases, Option-cases, subst,
}
use generic_ai.Base.Dict.{Dict, lookup, has, set, lookup-set}
use generic_ai.Base.Exec.{Result, ok, err}
use generic_ai.Session.Types.{
  SessionRecord, SessionSnapshot, fields_of, SessionStartOptions, SessionError, unknown_session,
  already_exists, terminal_parent, root, child,
}
use generic_ai.Session.{Orchestrator, is_live, get_required_record, require_unique_id}
use generic_ai.Session.Methods.{
  started, with_child, add_root, add_child, id_or_new, create_root_session, create_child_session,
}
use generic_ai.Session.Reading.{get_required_session-Shows}
use generic_ai.Session.Invariant.{IsValid}
use generic_ai.Session.Creating.{new-IsValid, adopt-IsValid}

-- What `createRootSession` does with the id it was given or has made.
pub data RootCreation {V : Type 0} (id : String) (record_of : SessionRecord V) (s : Orchestrator V)
    : Result SessionError (SessionSnapshot V) × Orchestrator V → Type 0 where
  created :
      (view : SessionSnapshot V) (t : Orchestrator V)
      → has id s.sessions ≡ false
      → t.sessions ≡ set id record_of s.sessions
      → IsValid t.sessions
      → fields_of view ≡ record_of
      → RootCreation id record_of s (ok view, t)
  taken :
      (t : Orchestrator V)
      → has id s.sessions ≡ true
      → t.sessions ≡ s.sessions
      → RootCreation id record_of s (err (already_exists id), t)

-- What `createChildSession` does.
pub data ChildCreation {V : Type 0} (parent id : String)
    (record_of : SessionRecord V → SessionRecord V) (grown : SessionRecord V → SessionRecord V)
    (s : Orchestrator V) : Result SessionError (SessionSnapshot V) × Orchestrator V → Type 0 where
  created_below :
      (r : SessionRecord V) (view : SessionSnapshot V) (t : Orchestrator V)
      → lookup parent s.sessions ≡ some r
      → is_live r ≡ true
      → has id s.sessions ≡ false
      → t.sessions ≡ set parent (grown r) (set id (record_of r) s.sessions)
      → IsValid t.sessions
      → fields_of view ≡ record_of r
      → ChildCreation parent id record_of grown s (ok view, t)
  no_parent :
      lookup parent s.sessions ≡ none
      → ChildCreation parent id record_of grown s (err (unknown_session parent), s)
  parent_ended :
      (r : SessionRecord V)
      → lookup parent s.sessions ≡ some r
      → is_live r ≡ false
      → ChildCreation parent id record_of grown s (err (terminal_parent parent), s)
  id_taken :
      (t : Orchestrator V)
      → has id s.sessions ≡ true
      → t.sessions ≡ s.sessions
      → ChildCreation parent id record_of grown s (err (already_exists id), t)

pub id_other :
    {V : Type 0} (d : Dict (SessionRecord V)) (p c : String)
    → has c d ≡ false
    → has p d ≡ true
    → c == p ≡ false
id_other d p c new h = elim (Bool-cases (c == p)) [
  | inl e ↦ cc (new, subst (λ t. has t d ≡ true) (sym ((eq_iff c p).0 e)) h)
  | inr e ↦ e
]

eq_comm : (a b : String) → b == a ≡ false → a == b ≡ false
eq_comm a b h = ground (arith, eq_iff a b, eq_iff b a)

module _ {V : Type 0} (now : ℕ → ℕ) (id_factory : ℕ → String) (options : SessionStartOptions V)
    (s : Orchestrator V) where
  -- The id of the new session.
  abbrev pub new_id : String
  new_id = get_or options.id (id_factory s.id_calls)

  abbrev ids_after : ℕ
  ids_after = elim options.id [ none ↦ suc s.id_calls | some id ↦ s.id_calls ]

  made_id : id_or_new now id_factory options.id s ≡ (ok new_id, record s { id_calls = ids_after })
  unfolding id_or_new
  made_id = elim (Option-cases options.id) [ inl e ↦ rw e refl | inr (id, e) ↦ rw e refl ]

  abbrev Root : Result SessionError (SessionSnapshot V) × Orchestrator V → Type 0
  Root = RootCreation new_id (started root new_id none new_id (now s.now_calls) options.metadata) s

  module _ (v : IsValid s.sessions) where
    add_root-Root :
        (n : ℕ) → Root (add_root now id_factory options new_id (record s { id_calls = n }))
    unfolding add_root
    add_root-Root n = elim (Bool-cases (has new_id s.sessions)) [
      | inl used ↦ rw (require_unique_id, used) (taken (record s { id_calls = n }) used refl)
      | inr new ↦
          let q = started root new_id none new_id (now s.now_calls) options.metadata in
          let (w, behind) =
            new-IsValid new_id q s.sessions new refl refl (record { keyed = refl; ends = refl })
              v in
          let u : Orchestrator V = record {
            sessions = set new_id q s.sessions;
            now_calls = suc s.now_calls;
            id_calls = n;
          } in
          let (view, read, shown) =
            get_required_session-Shows now w.rank u w.forest w.sound new_id q
              (lookup-set new_id new_id q s.sessions ∙ rw (eq_refl new_id) refl) in
          rw (require_unique_id, new, read) (created view u new refl w shown)
    ]

    -- On a valid state `createRootSession` adds an active root session under a free id, changes no
    -- other record, keeps the state valid and returns a snapshot of it; under an id in use it throws and changes
    -- no session.
    pub create_root_session-RootCreation :
        RootCreation new_id
          (started root new_id none new_id (now s.now_calls) options.metadata)
          s
          (create_root_session now id_factory options s)
    unfolding create_root_session
    create_root_session-RootCreation = rw made_id (add_root-Root ids_after)

module _ {V : Type 0} (now : ℕ → ℕ) (id_factory : ℕ → String) (parent : String)
    (options : SessionStartOptions V) (s : Orchestrator V) where
  abbrev id : String
  id = new_id now id_factory options s

  abbrev record_below : SessionRecord V → SessionRecord V
  record_below r = started child id (some r.id) r.root_session_id (now s.now_calls) options.metadata

  abbrev Child : Result SessionError (SessionSnapshot V) × Orchestrator V → Type 0
  Child = ChildCreation parent id record_below (λ r. with_child r (now s.now_calls) id) s

  module _ (v : IsValid s.sessions) where
    add_child-Child :
        (r : SessionRecord V)
        → lookup parent s.sessions ≡ some r
        → is_live r ≡ true
        → (n : ℕ) → Child (add_child now id_factory parent r options id (record s { id_calls = n }))
    unfolding add_child
    add_child-Child r e live n = elim (Bool-cases (has id s.sessions)) [
      | inl used ↦ rw (require_unique_id, used) (id_taken (record s { id_calls = n }) used refl)
      | inr new ↦
          let d = s.sessions in
          let q = record_below r in
          let (w, behind) =
            new-IsValid id q d new refl refl (record { keyed = refl; ends = refl }) v in
          let other : id == parent ≡ false = id_other d parent id new (ap is_some e) in
          let i = v.sound parent r e in
          let p = with_child r (now s.now_calls) id in
          let x =
            adopt-IsValid parent id r p (set id q d) (lookup-set id parent q d ∙ rw other e) live
              refl (ap is_some (lookup-set id id q d) ∙ rw (eq_refl id) refl)
              (record { keyed = i.keyed; ends = i.ends }) w (behind parent (ap is_some e)) live in
          let u : Orchestrator V = record {
            sessions = set parent p (set id q d);
            now_calls = suc s.now_calls;
            id_calls = n;
          } in
          let (view, read, shown) = get_required_session-Shows now x.rank u x.forest x.sound id q (
            lookup-set parent id p (set id q d)
            ∙ rw (eq_comm parent id other) (lookup-set id id q d ∙ rw (eq_refl id) refl)) in
          rw (require_unique_id, new, read) (created_below r view u e live new refl x shown)
    ]

    -- On a valid state `createChildSession` adds an active session under a free id below an active
    -- parent, which gets the new id at the end of its children, changes no other record, keeps the
    -- state valid and returns a snapshot of it. It throws and changes no session when the parent is unknown or has
    -- ended, and when the id is in use.
    pub create_child_session-ChildCreation :
        ChildCreation parent id record_below
          (λ r. with_child r (now s.now_calls) id)
          s
          (create_child_session now id_factory parent options s)
    unfolding create_child_session
    create_child_session-ChildCreation = elim (Option-cases (lookup parent s.sessions)) [
      | inl e ↦ rw (e, get_required_record) (no_parent e)
      | inr (r, e) ↦ elim (Bool-cases (is_live r)) [
        | inl live ↦
            rw (e, get_required_record, live, made_id now id_factory options s)
              (add_child-Child r e live (ids_after now id_factory options s))
        | inr idle ↦ rw (e, get_required_record, idle) (parent_ended r e idle)
      ]
    ]
