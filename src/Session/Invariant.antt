-- ===== src/Session/Invariant.antt =====
-- The invariant of the sessions of session/orchestrator.ts, and what ending one session with its
-- cascade does to it: `failSession` and `cancelSession` after their guards.
use generic_ai.Base.{
  ℕ, ◌+◌, ◌≤◌, String, ◌≡◌, refl, sym, ◌∙◌, ap, true, false, some, length, arith, eq_iff, eq_refl,
  ◌==◌, ◌⊎◌, inl, inr, contains, Bool-cases, subst, if◌then◌else◌,
}
use mathlib.Core.Option.{some-injective}
use generic_ai.Base.Dict.{Dict, lookup, has, set, lookup-set}
use generic_ai.Base.Exec.{ok}
use generic_ai.Session.Types.{SessionRecord}
use generic_ai.Session.{Orchestrator, is_live, cancel_active_descendants, terminalize_cancelled}
use generic_ai.Session.Forest.{
  children_of, active_at, children_at, IsForest, IsClosed, WasCancelled, Cascades,
  Cascades-children, Cascades-IsForest, WasCancelled-live,
}
use generic_ai.Session.Cascade.{
  live-end_self, children-end, has-end, end-IsForest, end-IsClosed, cancel_each-Cancels,
  terminalize-Terminalizes, Cancels,
}
use generic_ai.Session.Frame.{cascade-Inside}
use generic_ai.Session.Reading.{IsSound, AllSound}

-- The sessions form a forest, an ended session has no active child, and the records are sound.
pub record IsValid {V : Type 0} (d : Dict (SessionRecord V)) : Type 0 where
  pub rank : String → ℕ
  pub forest : IsForest rank d
  pub closed : (p : String) → IsClosed d p
  pub sound : AllSound d

-- `c` stands below `p`.
pub data Descendant {V : Type 0} (d : Dict (SessionRecord V)) (p : String) : String → Type 0 where
  its_child : {c : String} → contains (children_at d p) c ≡ true → Descendant d p c
  deeper :
      {m c : String} → Descendant d p m → contains (children_at d m) c ≡ true → Descendant d p c

module _ {V : Type 0} where
  pub Descendant-prepend :
      (d : Dict (SessionRecord V)) (p c x : String)
      → contains (children_at d p) c ≡ true
      → Descendant d c x
      → Descendant d p x
  Descendant-prepend d p c x m (its_child n) = deeper (its_child m) n
  Descendant-prepend d p c x m (deeper k n) = deeper (Descendant-prepend d p c _ m k) n

  -- Nothing below is active when no child is.
  pub Descendant-idle :
      (d e : Dict (SessionRecord V)) (p x : String)
      → ((y : String) → children_at e y ≡ children_at d y)
      → ((y : String) → IsClosed e y)
      → ((c : String) → contains (children_at d p) c ≡ true → active_at e c ≡ false)
      → Descendant d p x
      → active_at e x ≡ false
  Descendant-idle d e p x same closed dead (its_child m) = dead x m
  Descendant-idle d e p x same closed dead (deeper {m = y} k m) =
      closed y (Descendant-idle d e p y same closed dead k) x (ap (λ t. contains t x) (same y) ∙ m)

  pub AllSound-set :
      (id : String) (q : SessionRecord V) (d : Dict (SessionRecord V))
      → IsSound id q
      → AllSound d
      → AllSound (set id q d)
  AllSound-set id q d i h p r e = elim (Bool-cases (id == p)) [
    | inl same ↦
        subst (λ t. IsSound p t) (some-injective _ _ (sym (lookup-set id p q d ∙ rw same) ∙ e))
          (subst (λ t. IsSound t q) ((eq_iff id p).0 same) i)
    | inr other ↦ h p r (sym (lookup-set id p q d ∙ rw other) ∙ e)
  ]

  pub Cascades-AllSound :
      (reason : String) (d e : Dict (SessionRecord V))
      → Cascades reason d e
      → AllSound d
      → AllSound e
  Cascades-AllSound reason d e k h p r found = elim (k.changes p) [
    | inl same ↦ h p r (sym same ∙ found)
    | inr w ↦
        subst (λ t. IsSound p t) (some-injective _ _ (sym w.after ∙ found))
          (record { keyed = (h p w.record_before w.before).keyed; ends = refl })
  ]

  -- Session `id` has ended as `q`; what was active below it is cancelled for `reason`.
  pub record Ended (id : String) (q : SessionRecord V) (reason : String)
      (d e : Dict (SessionRecord V)) : Type 0 where
    pub here : lookup id e ≡ some q
    pub others :
        (p : String)
        → id == p ≡ false
        → (lookup p e ≡ lookup p d)
          ⊎ (Descendant d id p × WasCancelled reason (lookup p d) (lookup p e))
    pub descendants : (x : String) → Descendant d id x → active_at e x ≡ false
    pub valid : IsValid e

module _ {V : Type 0} (now : ℕ → ℕ) (reason : String) (id : String) (r q : SessionRecord V)
    (s s' : Orchestrator V) (found : lookup id s.sessions ≡ some r) (live : is_live r ≡ true)
    (ended : is_live q ≡ false) (same : q.child_session_ids ≡ r.child_session_ids)
    (i : IsSound id q) (saved : s'.sessions ≡ set id q s.sessions) (v : IsValid s.sessions) where
  abbrev d : Dict (SessionRecord V)
  d = s.sessions

  -- The children of the ended session, as the loop over them needs them.
  children_enough :
      (c : String)
      → contains q.child_session_ids c ≡ true
      → (has c s'.sessions ≡ true) × (length s'.sessions ≤ length s'.sessions + v.rank c)
  children_enough c m = (
    ap (has c) saved
        ∙ has-end id r q d found ended same c
        ∙ v.forest.there id c (ap (λ t. contains t c) (ap children_of found ∙ sym same) ∙ m),
    omega arith,
  )

  cascade :
      Cancels now v.rank reason
        (cancel_active_descendants now q reason)
        s'
        (λ e. (c : String) → contains q.child_session_ids c ≡ true → active_at e c ≡ false)
  unfolding cancel_active_descendants
  cascade =
      cancel_each-Cancels now v.rank reason (length s'.sessions)
        (terminalize_cancelled now (length s'.sessions) reason)
        (terminalize-Terminalizes now v.rank reason (length s'.sessions)) q.child_session_ids s'
        (subst (IsForest v.rank) (sym saved)
          (end-IsForest id r q d found ended same v.rank v.forest))
        children_enough

  module _ (e : Dict (SessionRecord V)) (k : Cascades reason (set id q d) e)
      (dead : (c : String) → contains q.child_session_ids c ≡ true → active_at e c ≡ false) where
    children-ended : (p : String) → children_at e p ≡ children_at d p
    children-ended p = Cascades-children reason _ _ k p ∙ children-end id r q d found ended same p

    family_dead : (c : String) → contains (children_at d id) c ≡ true → active_at e c ≡ false
    family_dead c m = dead c (ap (λ t. contains t c) (same ∙ sym (ap children_of found)) ∙ m)

    ended-IsClosed : (p : String) → IsClosed e p
    ended-IsClosed p = elim (Bool-cases (id == p)) [
      | inl h ↦ λ _ c m. family_dead c (
          subst (λ t. contains (children_at d t) c ≡ true) (sym ((eq_iff id p).0 h))
            (ap (λ t. contains t c) (sym (children-ended p)) ∙ m))
      | inr h ↦ k.closed p (end-IsClosed id r q d found ended same p h (v.closed p))
    ]

    lookup-ended : lookup id e ≡ some q
    lookup-ended = elim (k.changes id) [
      | inl h ↦ h ∙ lookup-set id id q d ∙ rw (eq_refl id)
      | inr w ↦ cc ((WasCancelled-live reason _ _ w).0, live-end_self id r q d found ended same)
    ]

    lookup-others :
        (p : String)
        → id == p ≡ false
        → (lookup p e ≡ lookup p d) ⊎ WasCancelled reason (lookup p d) (lookup p e)
    lookup-others p other =
        subst (λ t. (lookup p e ≡ t) ⊎ WasCancelled reason t (lookup p e))
          (lookup-set id p q d ∙ rw other) (k.changes p)

    pub cascade-Ended :
        ((p : String) → (lookup p e ≡ lookup p s'.sessions) ⊎ Descendant d id p)
        → Ended id q reason d e
    cascade-Ended outside = record {
      here = lookup-ended;
      others = λ p other. elim (outside p) [
        | inl kept ↦ inl (
            kept
            ∙ ap (lookup p) saved
            ∙ lookup-set id p q d
            ∙ ap (λ b. if b then some q else lookup p d) other)
        | inr below ↦ elim (lookup-others p other) [ inl kept ↦ inl kept | inr w ↦ inr (below, w) ]
      ];
      descendants = λ x h. Descendant-idle d e id x children-ended ended-IsClosed family_dead h;
      valid = record {
        rank = v.rank;
        forest =
            Cascades-IsForest reason v.rank _ _ k
              (end-IsForest id r q d found ended same v.rank v.forest);
        closed = ended-IsClosed;
        sound = Cascades-AllSound reason _ _ k (AllSound-set id q d i v.sound);
      };
    }

  -- The cascade returns, and has ended the session as it should.
  pub settle :
      (t : Orchestrator V) × (cancel_active_descendants now q reason s' ≡ (ok tt, t))
      × Ended id q reason s.sessions t.sessions
  settle =
      let (t, run, k, dead) = cascade in
      let inside =
        cascade-Inside now reason d (Descendant d id) (λ p c. deeper) q s'
          (λ p. ap (λ l. children_at l p) saved ∙ children-end id r q d found ended same p)
          (λ c m. its_child (ap (λ l. contains l c) (ap children_of found ∙ sym same) ∙ m)) in
      let reached : (cancel_active_descendants now q reason s').1 ≡ t = ap (λ x. x.1) run in
      (
        t,
        run,
        cascade-Ended t.sessions (rw saved at k) dead (λ p.
            subst (λ u. (lookup p u.sessions ≡ lookup p s'.sessions) ⊎ Descendant d id p) reached
              (inside.outside p)),
      )
