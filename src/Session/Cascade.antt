-- ===== src/Session/Cascade.antt =====
-- `cancelActiveDescendants` and `terminalizeCancelled`: the fuel is enough, every active descendant
-- is cancelled, and nothing else changes.
use generic_ai.Base.{
  ℕ, zero, suc, ◌+◌, ◌≤◌, String, ◌≡◌, refl, sym, ◌∙◌, ap, true, false, some, List, [], ◌∷◌, length,
  arith, eq_iff, eq_refl, ◌==◌, ◌⊎◌, inl, inr, contains, is_some, if◌then◌else◌, Bool-cases,
  Option-cases, subst,
}
use generic_ai.Base.Dict.{Dict, lookup, has, set, lookup-set, length-set}
use generic_ai.Base.Exec.{ok}
use generic_ai.Session.Types.{SessionRecord}
use generic_ai.Session.{
  Orchestrator, Action, is_live, as_cancelled, cancel_each, terminalize_cancelled,
  get_required_record,
}
use generic_ai.Session.Forest.{
  live_of, children_of, active_at, children_at, IsForest, IsClosed, WasCancelled, Cascades,
  Cascades-refl, Cascades-children, Cascades-has, Cascades-live, Cascades-trans, Cascades-IsForest,
  changes_trans,
}

-- A session is ended: its record is replaced by one that is not active, with the same children.
module _ {V : Type 0} (id : String) (r q : SessionRecord V) (d : Dict (SessionRecord V))
    (found : lookup id d ≡ some r) (ended : is_live q ≡ false)
    (same : q.child_session_ids ≡ r.child_session_ids) where
  pub lookup-end : (p : String) → lookup p (set id q d) ≡ (if id == p then some q else lookup p d)
  lookup-end p = lookup-set id p q d

  pub live-end : (p : String) → active_at d p ≡ false → active_at (set id q d) p ≡ false
  live-end p h = ground (arith, ap live_of (lookup-end p), ended)

  pub live-end_self : active_at (set id q d) id ≡ false
  live-end_self = ground (arith, ap live_of (lookup-end id), ended, eq_refl id)

  pub children-end : (p : String) → children_at (set id q d) p ≡ children_at d p
  children-end p = elim (Bool-cases (id == p)) [
    | inl e ↦
        ap children_of (lookup-end p)
        ∙ rw e (
            same
            ∙ sym (ap children_of (subst (λ t. lookup t d ≡ some r) ((eq_iff id p).0 e) found)))
    | inr e ↦ ap children_of (lookup-end p) ∙ rw e
  ]

  pub has-end : (p : String) → has p (set id q d) ≡ has p d
  has-end p = elim (Bool-cases (id == p)) [
    | inl e ↦
        ap is_some (lookup-end p)
        ∙ rw e (sym (ap is_some (subst (λ t. lookup t d ≡ some r) ((eq_iff id p).0 e) found)))
    | inr e ↦ ap is_some (lookup-end p) ∙ rw e
  ]

  pub length-end : length (set id q d) ≡ length d
  length-end = ground (arith, length-set id q d, ap is_some found)

  pub end-IsForest : (rank : String → ℕ) → IsForest rank d → IsForest rank (set id q d)
  end-IsForest rank h = record {
    below = λ p c m. h.below p c (ap (λ t. contains t c) (sym (children-end p)) ∙ m);
    there = λ p c m. has-end c ∙ h.there p c (ap (λ t. contains t c) (sym (children-end p)) ∙ m);
    bounded = λ p m. omega (arith, h.bounded p (sym (has-end p) ∙ m), length-end);
  }

  -- Ending a session leaves the other families closed.
  pub end-IsClosed : (p : String) → id == p ≡ false → IsClosed d p → IsClosed (set id q d) p
  end-IsClosed p other h dead c m = live-end c (
      h (sym (ap live_of (lookup-end p) ∙ rw other) ∙ dead) c
        (ap (λ t. contains t c) (sym (children-end p)) ∙ m))

-- A session is cancelled, and then a cascade has cancelled all of its children.
module _ {V : Type 0} (id : String) (r : SessionRecord V) (d : Dict (SessionRecord V))
    (found : lookup id d ≡ some r) (reason : String) (timestamp : ℕ)
    (e : Dict (SessionRecord V)) where
  abbrev marked : Dict (SessionRecord V)
  marked = set id (as_cancelled r timestamp reason) d

  marked-change :
      is_live r ≡ true
      → (p : String)
      → (lookup p marked ≡ lookup p d) ⊎ WasCancelled reason (lookup p d) (lookup p marked)
  marked-change live p = elim (Bool-cases (id == p)) [
    | inl h ↦ inr (record {
      record_before = r;
      timestamp = timestamp;
      before = subst (λ t. lookup t d ≡ some r) ((eq_iff id p).0 h) found;
      was_active = live;
      after = lookup-set id p _ d ∙ rw h;
    })
    | inr h ↦ inl (lookup-set id p _ d ∙ rw h)
  ]

  end-Cascades :
      is_live r ≡ true
      → Cascades reason marked e
      → ((c : String) → contains r.child_session_ids c ≡ true → active_at e c ≡ false)
      → Cascades reason d e
  end-Cascades live k dead = record {
    changes = λ p. changes_trans reason _ _ _ (marked-change live p) (k.changes p);
    same_length =
        k.same_length ∙ length-end id r (as_cancelled r timestamp reason) d found refl refl;
    closed = λ p h. elim (Bool-cases (id == p)) [
      | inl same ↦ λ _ c m. dead c (
          ap (λ t. contains t c)
            (sym (
              Cascades-children reason _ _ k p
              ∙ children-end id r (as_cancelled r timestamp reason) d found refl refl p
              ∙ ap children_of (subst (λ t. lookup t d ≡ some r) ((eq_iff id p).0 same) found)))
          ∙ m)
      | inr other ↦
          k.closed p
            (end-IsClosed id r (as_cancelled r timestamp reason) d found refl refl p other h)
    ];
  }

pub dead_first :
    {V : Type 0} (c : String) (cs : List String) (d : Dict (SessionRecord V))
    → active_at d c ≡ false
    → ((x : String) → contains cs x ≡ true → active_at d x ≡ false)
    → (x : String) → contains (c ∷ cs) x ≡ true
    → active_at d x ≡ false
dead_first c cs d h k x m = elim (Bool-cases (c == x)) [
  | inl e ↦ subst (λ t. active_at d t ≡ false) ((eq_iff c x).0 e) h
  | inr e ↦ k x (rw e at m)
]

pub get_required_record-some :
    {V : Type 0} (c : String) (r : SessionRecord V) (s : Orchestrator V)
    → lookup c s.sessions ≡ some r
    → get_required_record c s ≡ (ok r, s)
unfolding get_required_record
get_required_record-some c r s found = rw (found, get_required_record)

-- One round of the loop over the children.
module _ {V : Type 0} (now : ℕ → ℕ) (go : String → SessionRecord V → Action V (Unit {0}))
    (c : String) (cs : List String) (r : SessionRecord V) (s : Orchestrator V)
    (found : lookup c s.sessions ≡ some r) where
  cancel_each-live :
      (t : Orchestrator V)
      → is_live r ≡ true
      → go c r s ≡ (ok tt, t)
      → cancel_each now go (c ∷ cs) s ≡ cancel_each now go cs t
  unfolding cancel_each
  cancel_each-live t live step = rw (found, get_required_record, live, step)

  cancel_each-idle : is_live r ≡ false → cancel_each now go (c ∷ cs) s ≡ cancel_each now go cs s
  unfolding cancel_each
  cancel_each-idle idle = rw (found, get_required_record, idle)

module _ {V : Type 0} (now : ℕ → ℕ) (rank : String → ℕ) (reason : String) where
  -- An action that cancels sessions and returns.
  abbrev pub Cancels :
      Action V (Unit {0}) → Orchestrator V → (Dict (SessionRecord V) → Type 0) → Type 0
  Cancels m s P =
      (t : Orchestrator V) × (m s ≡ (ok tt, t))
      × Cascades reason s.sessions t.sessions
      × P t.sessions

  -- What `terminalizeCancelled` does with this much fuel.
  abbrev pub Terminalizes : ℕ → (String → SessionRecord V → Action V (Unit {0})) → Type 0
  Terminalizes fuel go =
      (id : String) (r : SessionRecord V) (s : Orchestrator V)
      → lookup id s.sessions ≡ some r
      → is_live r ≡ true
      → IsForest rank s.sessions
      → length s.sessions ≤ fuel + rank id
      → Cancels (go id r) s (λ d. active_at d id ≡ false)

  pub cancel_each-Cancels :
      (fuel : ℕ) (go : String → SessionRecord V → Action V (Unit {0}))
      → Terminalizes fuel go
      → (cs : List String) (s : Orchestrator V) → IsForest rank s.sessions
      → ((c : String)
          → contains cs c ≡ true
          → (has c s.sessions ≡ true) × (length s.sessions ≤ fuel + rank c))
      → Cancels
          (cancel_each now go cs)
          s
          (λ d. (c : String) → contains cs c ≡ true → active_at d c ≡ false)
  unfolding cancel_each
  cancel_each-Cancels fuel go k [] s f h = (s, refl, Cascades-refl reason s.sessions, λ c m. cc)
  cancel_each-Cancels fuel go k (c ∷ cs) s f h =
      let (there, enough) = h c (ground (arith, eq_refl c)) in
      elim (Option-cases (lookup c s.sessions)) [
        | inl e ↦ cc (ap is_some e, there)
        | inr (r, e) ↦ elim (Bool-cases (is_live r)) [
          | inl live ↦
              let (t, step, kt, dead) = k c r s e live f enough in
              let (u, rest, ku, all_dead) =
                cancel_each-Cancels fuel go k cs t (Cascades-IsForest reason rank _ _ kt f) (λ x m.
                  let (x_there, x_enough) = h x (ground arith) in
                  (
                    Cascades-has reason _ _ kt x ∙ x_there,
                    omega (arith, x_enough, kt.same_length),
                  )) in
              (
                u,
                cancel_each-live now go c cs r s e t live step ∙ rest,
                Cascades-trans reason _ _ _ kt ku,
                dead_first c cs u.sessions (Cascades-live reason _ _ ku c dead) all_dead,
              )
          | inr idle ↦
              let (u, rest, ku, all_dead) =
                cancel_each-Cancels fuel go k cs s f (λ x m. h x (ground arith)) in
              (
                u,
                cancel_each-idle now go c cs r s e idle ∙ rest,
                ku,
                dead_first c cs u.sessions (Cascades-live reason _ _ ku c (ap live_of e ∙ idle))
                    all_dead,
              )
        ]
      ]

  pub terminalize-Terminalizes :
      (fuel : ℕ) → Terminalizes fuel (terminalize_cancelled now fuel reason)
  unfolding terminalize_cancelled
  terminalize-Terminalizes zero id r s found live f enough =
      absurd (omega (arith, f.bounded id (ap is_some found)))
  terminalize-Terminalizes (suc fuel) id r s found live f enough =
      let q = as_cancelled r (now s.now_calls) reason in
      let d = s.sessions in
      let marked : Orchestrator V = record s {
        sessions = set id q d;
        now_calls = suc s.now_calls;
      } in
      let (t, run, k, dead) =
        cancel_each-Cancels fuel (terminalize_cancelled now fuel reason)
          (terminalize-Terminalizes fuel) r.child_session_ids marked
          (end-IsForest id r q d found refl refl rank f)
          (λ c m.
            let listed = ap (λ t. contains t c) (ap children_of found) ∙ m in
            (
              has-end id r q d found refl refl c ∙ f.there id c listed,
              omega (arith, f.below id c listed, length-end id r q d found refl refl),
            )) in
      (
        t,
        run,
        end-Cascades id r d found reason (now s.now_calls) t.sessions live k dead,
        Cascades-live reason _ _ k id (live-end_self id r q d found refl refl),
      )
