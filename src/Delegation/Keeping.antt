-- ===== src/Delegation/Keeping.antt =====
-- What the calls of packages/core/src/session never do: they remove no session, and change none that
-- has ended. The same of the ends of `delegate`.
use generic_ai.Base.{
  ℕ, String, ◌≡◌, refl, sym, if◌then◌else◌, ◌∙◌, ap, true, false, none, some, List, [], ◌∷◌, arith,
  eq_iff, ◌==◌, is_some, Bool-cases, Option-cases, subst, inl, inr,
}
use generic_ai.Base.Dict.{Dict, lookup, has, set, lookup-set}
use generic_ai.Base.Exec.{Result, ok, err}
use generic_ai.Session.Types.{SessionRecord}
use generic_ai.Session.{Orchestrator, is_live}
use generic_ai.Session.Forest.{live_of}
use generic_ai.Session.Linked.{links_of, links_at, written-links, Ended-links}
use generic_ai.Session.Reading.{get_session-Shows}
use generic_ai.Session.Invariant.{IsValid}
use generic_ai.Session.Ending.{Ending, fail_session-Ending, cancel_session-Ending}
use generic_ai.Session.Completing.{Completion, complete_session-Completion}
use generic_ai.Session.Completing
use generic_ai.Session.Created.{
  RootCreation, created, taken, ChildCreation, created_below, no_parent, parent_ended, id_taken,
  create_root_session-RootCreation, create_child_session-ChildCreation,
}
use generic_ai.Session.History.{
  Call, create_root, create_child, complete, fail, cancel, call, after, call-Fine,
}
use generic_ai.Delegation.{
  Thrown, abort_error, plain_error, thrown_value, session_error, Ends, end_failed,
  terminalize_success, terminalize_failure, catch_failure, settle_outcome, abort_reason, failure_of,
}
use generic_ai.Delegation.Executors.{call-Has}

module _ {V : Type 0} where
  -- The parent that a session names, when a record is written.
  set-name :
      (k p : String) (a : SessionRecord V) (d : Dict (SessionRecord V))
      → (k == p ≡ true → a.parent_session_id ≡ (links_at d p).0)
      → (links_at (set k a d) p).0 ≡ (links_at d p).0
  set-name k p a d h =
      let at : lookup p (set k a d) ≡ (if k == p then some a else lookup p d) =
        lookup-set k p a d in
      elim (Bool-cases (k == p)) [
        | inl e ↦ ap (λ o. (links_of o).0) (at ∙ ap (λ b. if b then some a else lookup p d) e) ∙ h e
        | inr e ↦ ap (λ o. (links_of o).0) (at ∙ ap (λ b. if b then some a else lookup p d) e)
      ]

  stays-set :
      (k p : String) (a r : SessionRecord V) (d : Dict (SessionRecord V))
      → lookup p d ≡ some r
      → k == p ≡ false
      → lookup p (set k a d) ≡ some r
  stays-set k p a r d e other = ground (arith, lookup-set k p a d)

  other_absent :
      (k p : String) (r : SessionRecord V) (d : Dict (SessionRecord V))
      → lookup p d ≡ some r
      → has k d ≡ false
      → k == p ≡ false
  other_absent k p r d e absent = elim (Bool-cases (k == p)) [
    | inl same ↦ cc (subst (λ t. has t d ≡ false) ((eq_iff k p).0 same) absent, ap is_some e)
    | inr other ↦ other
  ]

  other_live :
      (k p : String) (q r : SessionRecord V) (d : Dict (SessionRecord V))
      → lookup p d ≡ some r
      → is_live r ≡ false
      → lookup k d ≡ some q
      → is_live q ≡ true
      → k == p ≡ false
  other_live k p q r d e idle found live = elim (Bool-cases (k == p)) [
    | inl same ↦ cc (
      ap live_of (subst (λ t. lookup t d ≡ some q) ((eq_iff k p).0 same) found),
      ap live_of e,
      idle,
      live,
    )
    | inr other ↦ other
  ]

module _ {V : Type 0} (now : ℕ → ℕ) (id_factory : ℕ → String) (s : Orchestrator V) (p : String)
    (r : SessionRecord V) (e : lookup p s.sessions ≡ some r) (idle : is_live r ≡ false) where
  abbrev Stays : Ends V → Type 0
  Stays x = lookup p x.1.sessions ≡ some r

  RootCreation-Stays : {id : String} {q : _} (x : _) → RootCreation {V = V} id q s x → Stays x
  RootCreation-Stays {id} x (created view t new saved w k) =
      ap (lookup p) saved ∙ stays-set id p _ r s.sessions e (other_absent id p r s.sessions e new)
  RootCreation-Stays x (taken t n saved) = ap (lookup p) saved ∙ e

  ChildCreation-Stays :
      {i id : String} {f g : _} (x : _) → ChildCreation {V = V} i id f g s x → Stays x
  ChildCreation-Stays {i} {id} x (created_below q view t found live new saved w k) =
      ap (lookup p) saved
      ∙ stays-set i p _ r _ (stays-set id p _ r s.sessions e (other_absent id p r s.sessions e new))
          (other_live i p q r s.sessions e idle found live)
  ChildCreation-Stays x (no_parent missing) = e
  ChildCreation-Stays x (parent_ended q found l) = e
  ChildCreation-Stays x (id_taken t n saved) = ap (lookup p) saved ∙ e

  Completion-Stays : {id : String} {f : _} (x : _) → Completion {V = V} id f s x → Stays x
  Completion-Stays {id} x (Completing.completes q view t found live n saved w k) =
      ap (lookup p) saved
      ∙ stays-set id p _ r s.sessions e (other_live id p q r s.sessions e idle found live)
  Completion-Stays x (Completing.blocked q y found l k f m) = e
  Completion-Stays x (Completing.no_session found) = e
  Completion-Stays x (Completing.was_terminal q found l) = e

  Ending-Stays : {id : String} {f g : _} (x : _) → Ending {V = V} id f g s x → Stays x
  Ending-Stays {id} x (Ending.ends q view t found live k shown) =
      elim (k.others p (other_live id p q r s.sessions e idle found live)) [
        | inl same ↦ same ∙ e
        | inr (below, w) ↦ cc (ap live_of w.before, ap live_of e, w.was_active, idle)
      ]
  Ending-Stays x (Ending.no_session found) = e
  Ending-Stays x (Ending.was_terminal q found l) = e

  call-Stays : IsValid s.sessions → (c : Call V) → Stays (call now id_factory c s)
  unfolding call
  call-Stays v (create_root options) =
      RootCreation-Stays _ (create_root_session-RootCreation now id_factory options s v)
  call-Stays v (create_child parent options) =
      ChildCreation-Stays _ (create_child_session-ChildCreation now id_factory parent options s v)
  call-Stays v (complete id options) =
      Completion-Stays _ (complete_session-Completion now id_factory id s options v)
  call-Stays v (fail id options) =
      Ending-Stays _ (fail_session-Ending now id_factory id s v options)
  call-Stays v (cancel id options) =
      Ending-Stays _ (cancel_session-Ending now id_factory id s v options)

module _ {V : Type 0} (now : ℕ → ℕ) (id_factory : ℕ → String) (s : Orchestrator V) (p : String)
    (h : has p s.sessions ≡ true) where
  abbrev Names : Ends V → Type 0
  Names x = (links_at x.1.sessions p).0 ≡ (links_at s.sessions p).0

  RootCreation-Names : {id : String} {q : _} (x : _) → RootCreation {V = V} id q s x → Names x
  RootCreation-Names {id} {q} x (created view t new same w k) =
      ap (λ d. (links_at d p).0) same
      ∙ set-name id p q s.sessions
          (λ e. cc (new, subst (λ k. has k s.sessions ≡ true) (sym ((eq_iff id p).0 e)) h))
  RootCreation-Names x (taken t n same) = ap (λ d. (links_at d p).0) same

  ChildCreation-Names :
      {i id : String} {f g : SessionRecord V → SessionRecord V}
      → ((r : SessionRecord V) → (g r).parent_session_id ≡ r.parent_session_id)
      → (x : _) → ChildCreation i id f g s x
      → Names x
  ChildCreation-Names {i} {id} {f} {g} kept x (created_below r view t found live new same w k) =
      let absent : (id == p ≡ true) → _ =
        λ e. cc (new, subst (λ k. has k s.sessions ≡ true) (sym ((eq_iff id p).0 e)) h) in
      let inner = set-name id p (f r) s.sessions absent in
      ap (λ d. (links_at d p).0) same
      ∙ set-name i p (g r) (set id (f r) s.sessions) (λ e.
        kept r
        ∙ sym (
            ap (λ o. (links_of o).0)
              (subst (λ k. lookup k s.sessions ≡ some r) ((eq_iff i p).0 e) found))
        ∙ sym inner)
      ∙ inner
  ChildCreation-Names kept x (no_parent missing) = refl
  ChildCreation-Names kept x (parent_ended q found l) = refl
  ChildCreation-Names kept x (id_taken t n same) = ap (λ d. (links_at d p).0) same

  Completion-Names :
      {id : String} {f : SessionRecord V → SessionRecord V}
      → ((r : SessionRecord V) → links_of (some (f r)) ≡ links_of (some r))
      → (x : _) → Completion id f s x
      → Names x
  Completion-Names {id} {f} kept x (Completing.completes q view t found live n same w k) =
      ap (λ d. (links_at d p).0) same
      ∙ ap (λ l. l.0) (written-links id q (f q) s.sessions found (kept q) p)
  Completion-Names kept x (Completing.blocked q y found l k f m) = refl
  Completion-Names kept x (Completing.no_session found) = refl
  Completion-Names kept x (Completing.was_terminal q found l) = refl

  Ending-Names :
      {id : String} {f : SessionRecord V → SessionRecord V} {g : SessionRecord V → String}
      → ((r : SessionRecord V) → links_of (some (f r)) ≡ links_of (some r))
      → (x : _) → Ending id f g s x
      → Names x
  Ending-Names {id} {f} {g} kept x (Ending.ends q view t found live k shown) =
      ap (λ l. l.0) (Ended-links id (g q) q (f q) s.sessions t.sessions found (kept q) k p)
  Ending-Names kept x (Ending.no_session found) = refl
  Ending-Names kept x (Ending.was_terminal q found l) = refl

  call-Names : IsValid s.sessions → (c : Call V) → Names (call now id_factory c s)
  unfolding call
  call-Names v (create_root options) =
      RootCreation-Names _ (create_root_session-RootCreation now id_factory options s v)
  call-Names v (create_child parent options) =
      ChildCreation-Names (λ r. refl) _
        (create_child_session-ChildCreation now id_factory parent options s v)
  call-Names v (complete id options) =
      Completion-Names (λ r. refl) _ (complete_session-Completion now id_factory id s options v)
  call-Names v (fail id options) =
      Ending-Names (λ r. refl) _ (fail_session-Ending now id_factory id s v options)
  call-Names v (cancel id options) =
      Ending-Names (λ r. refl) _ (cancel_session-Ending now id_factory id s v options)

-- From `s` to `t` no session is removed or gets another parent, and none that has ended is changed.
pub record Keeps {V : Type 0} (s t : Orchestrator V) : Type 0 where
  pub valid : IsValid t.sessions
  pub there : (p : String) → has p s.sessions ≡ true → has p t.sessions ≡ true
  pub same :
      (p : String) (r : SessionRecord V)
      → lookup p s.sessions ≡ some r
      → is_live r ≡ false
      → lookup p t.sessions ≡ some r
  pub named :
      (p : String) → has p s.sessions ≡ true → (links_at t.sessions p).0 ≡ (links_at s.sessions p).0

module _ {V : Type 0} where
  pub Keeps-refl : (s : Orchestrator V) → IsValid s.sessions → Keeps s s
  Keeps-refl s v = record {
    valid = v;
    there = λ p h. h;
    same = λ p r e idle. e;
    named = λ p h. refl;
  }

  pub Keeps-trans : (s t u : Orchestrator V) → Keeps s t → Keeps t u → Keeps s u
  Keeps-trans s t u k l = record {
    valid = l.valid;
    there = λ p h. l.there p (k.there p h);
    same = λ p r e idle. l.same p r (k.same p r e idle) idle;
    named = λ p h. l.named p (k.there p h) ∙ k.named p h;
  }

module _ {V : Type 0} (now : ℕ → ℕ) (id_factory : ℕ → String) where
  pub call-Keeps :
      (s : Orchestrator V) → IsValid s.sessions → (c : Call V) → Keeps s (call now id_factory c s).1
  call-Keeps s v c = record {
    valid = (call-Fine now id_factory s v c).1;
    there = λ p h. call-Has now id_factory s p h v c;
    same = λ p r e idle. call-Stays now id_factory s p r e idle v c;
    named = λ p h. call-Names now id_factory s p h v c;
  }

  -- From a valid state no sequence of calls of the orchestrator's methods removes a session, gives
  -- one another parent or changes the record of a session that has ended, and the state stays valid.
  pub after-Keeps :
      (cs : List (Call V)) (s : Orchestrator V)
      → IsValid s.sessions
      → Keeps s (after now id_factory cs s)
  unfolding after
  after-Keeps [] s v = Keeps-refl s v
  after-Keeps (c ∷ cs) s v =
      let k = call-Keeps s v c in
      Keeps-trans s (call now id_factory c s).1 _ k
        (after-Keeps cs (call now id_factory c s).1 k.valid)

  end_failed-Keeps :
      (id : String) (thrown : Thrown) (s : Orchestrator V)
      → IsValid s.sessions
      → Keeps s (end_failed now id_factory id thrown s).1
  unfolding call
  end_failed-Keeps id (abort_error message) s v =
      call-Keeps s v (cancel id (record { reason = abort_reason message; metadata = none }))
  end_failed-Keeps id (plain_error name message stack) s v =
      call-Keeps s v
        (fail id (record { error = failure_of (plain_error name message stack); metadata = none }))
  end_failed-Keeps id (thrown_value t) s v =
      call-Keeps s v (fail id (record { error = failure_of (thrown_value t); metadata = none }))
  end_failed-Keeps id (session_error x) s v =
      call-Keeps s v (fail id (record { error = failure_of (session_error x); metadata = none }))

  pub terminalize_failure-Keeps :
      (id : String) (thrown : Thrown) (s : Orchestrator V) (r : SessionRecord V)
      → lookup id s.sessions ≡ some r
      → IsValid s.sessions
      → Keeps s (terminalize_failure now id_factory id thrown s).1
  unfolding terminalize_failure
  terminalize_failure-Keeps id thrown s r e v =
      let (view, run, shown) = get_session-Shows now v.rank s v.forest v.sound id_factory id r e in
      elim (Bool-cases (is_live r)) [
        | inl live ↦ rw (run, shown, live) (end_failed-Keeps id thrown s v)
        | inr idle ↦ rw (run, shown, idle) (Keeps-refl s v)
      ]

  caught-Keeps :
      (id : String) (s : Orchestrator V) (x : Ends V)
      → has id s.sessions ≡ true
      → Keeps s x.1
      → Keeps s (catch_failure now id_factory id x).1
  caught-Keeps id s (ok view, t) h k = k
  caught-Keeps id s (err e, t) h k = elim (Option-cases (lookup id t.sessions)) [
    | inl missing ↦ cc (k.there id h, ap is_some missing)
    | inr (r, found) ↦
        Keeps-trans s t _ k (terminalize_failure-Keeps id (session_error e) t r found k.valid)
  ]

  terminalize_success-Keeps :
      (id : String) (result : V) (s : Orchestrator V) (r : SessionRecord V)
      → lookup id s.sessions ≡ some r
      → IsValid s.sessions
      → Keeps s (terminalize_success now id_factory id result s).1
  unfolding terminalize_success call
  terminalize_success-Keeps id result s r e v =
      let (view, run, shown) = get_session-Shows now v.rank s v.forest v.sound id_factory id r e in
      elim (Bool-cases (is_live r)) [
        | inl live ↦
            rw (run, shown, live)
              (call-Keeps s v (complete id (record { result = some result; metadata = none })))
        | inr idle ↦ rw (run, shown, idle) (Keeps-refl s v)
      ]

  pub settle_outcome-Keeps :
      (id : String) (outcome : Result Thrown V) (s : Orchestrator V) (r : SessionRecord V)
      → lookup id s.sessions ≡ some r
      → IsValid s.sessions
      → Keeps s (settle_outcome now id_factory id (outcome, s)).1
  settle_outcome-Keeps id (ok result) s r e v =
      caught-Keeps id s (terminalize_success now id_factory id result s) (ap is_some e)
        (terminalize_success-Keeps id result s r e v)
  settle_outcome-Keeps id (err thrown) s r e v = terminalize_failure-Keeps id thrown s r e v
