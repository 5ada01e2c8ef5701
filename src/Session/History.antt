-- ===== src/Session/History.antt =====
-- Every sequence of calls of the mutating methods of session/orchestrator.ts, from a new
-- orchestrator on: the state stays valid, whatever the clock and the id factory return.
use generic_ai.Base.{
  ℕ, String, ◌≡◌, ◌≢◌, refl, sym, ap, none, some, List, [], ◌∷◌, ◌++◌, is_some, subst,
}
use generic_ai.Base.Dict.{lookup}
use generic_ai.Base.Exec.{Result, err}
use generic_ai.Session.Types.{
  SessionRecord, SessionSnapshot, SessionStartOptions, SessionCompleteOptions, SessionFailOptions,
  SessionCancelOptions, SessionError, out_of_fuel,
}
use generic_ai.Session.{Orchestrator, Action}
use generic_ai.Session.Methods.{
  new_orchestrator, create_root_session, create_child_session, complete_session, fail_session,
  cancel_session,
}
use generic_ai.Session.Invariant.{IsValid}
use generic_ai.Session.Linked.{IsLinked, links_of, same-IsLinked, written-links, Ended-links}
use generic_ai.Session.Linking.{root-IsLinked, child-IsLinked}
use generic_ai.Session.Ending.{Ending, fail_session-Ending, cancel_session-Ending}
use generic_ai.Session.Completing.{Completion, complete_session-Completion}
use generic_ai.Session.Completing
use generic_ai.Session.Created.{
  RootCreation, created, taken, ChildCreation, created_below, no_parent, parent_ended, id_taken,
  create_root_session-RootCreation, create_child_session-ChildCreation, id_other,
}

pub data Call (V : Type 0) : Type 0 where
  create_root : SessionStartOptions V → Call V
  create_child : String → SessionStartOptions V → Call V
  complete : String → SessionCompleteOptions V → Call V
  fail : String → SessionFailOptions V → Call V
  cancel : String → SessionCancelOptions V → Call V

module _ {V : Type 0} (now : ℕ → ℕ) (id_factory : ℕ → String) where
  unfoldable pub call : Call V → Action V (SessionSnapshot V)
  call (create_root options) = create_root_session now id_factory options
  call (create_child parent options) = create_child_session now id_factory parent options
  call (complete id options) = complete_session now id_factory id options
  call (fail id options) = fail_session now id_factory id options
  call (cancel id options) = cancel_session now id_factory id options

  -- The state after the calls; a call that throws does not stop the program.
  unfoldable pub after : List (Call V) → Orchestrator V → Orchestrator V
  unfolding call
  after [] s = s
  after (c ∷ cs) s = after cs (call c s).1

  -- The call has not run out of fuel, and leaves a valid state.
  abbrev Fine : Result SessionError (SessionSnapshot V) × Orchestrator V → Type 0
  Fine (r, t) = (r ≢ err out_of_fuel) × IsValid t.sessions

  module _ (s : Orchestrator V) (v : IsValid s.sessions) where
    root-Fine : {id : String} {q : _} (x : _) → RootCreation {V = V} id q s x → Fine x
    root-Fine x (created view t n e w k) = (λ h. cc, w)
    root-Fine x (taken t n e) = (λ h. cc, subst IsValid (sym e) v)

    child-Fine : {p id : String} {f g : _} (x : _) → ChildCreation {V = V} p id f g s x → Fine x
    child-Fine x (created_below r view t f l n e w k) = (λ h. cc, w)
    child-Fine x (no_parent e) = (λ h. cc, v)
    child-Fine x (parent_ended r e l) = (λ h. cc, v)
    child-Fine x (id_taken t n e) = (λ h. cc, subst IsValid (sym e) v)

    Completion-Fine : {id : String} {f : _} (x : _) → Completion {V = V} id f s x → Fine x
    Completion-Fine x (Completing.completes r view t f l n e w k) = (λ h. cc, w)
    Completion-Fine x (Completing.blocked r y e l k f m) = (λ h. cc, v)
    Completion-Fine x (Completing.no_session e) = (λ h. cc, v)
    Completion-Fine x (Completing.was_terminal r e l) = (λ h. cc, v)

    Ending-Fine : {id : String} {f g : _} (x : _) → Ending {V = V} id f g s x → Fine x
    Ending-Fine x (Ending.ends r view t f l e k) = (λ h. cc, e.valid)
    Ending-Fine x (Ending.no_session e) = (λ h. cc, v)
    Ending-Fine x (Ending.was_terminal r e l) = (λ h. cc, v)

    pub call-Fine : (c : Call V) → Fine (call c s)
    unfolding call
    call-Fine (create_root options) =
        root-Fine _ (create_root_session-RootCreation now id_factory options s v)
    call-Fine (create_child parent options) =
        child-Fine _ (create_child_session-ChildCreation now id_factory parent options s v)
    call-Fine (complete id options) =
        Completion-Fine _ (complete_session-Completion now id_factory id s options v)
    call-Fine (fail id options) = Ending-Fine _ (fail_session-Ending now id_factory id s v options)
    call-Fine (cancel id options) =
        Ending-Fine _ (cancel_session-Ending now id_factory id s v options)

new-IsValid : {V : Type 0} → IsValid {V = V} []
unfolding lookup
new-IsValid = record {
  rank = λ p. 0;
  forest = record { below = λ p c m. cc; there = λ p c m. cc; bounded = λ p m. cc };
  closed = λ p h c m. cc;
  sound = λ p r e. cc;
}

pub after-IsValid :
    {V : Type 0} (now : ℕ → ℕ) (id_factory : ℕ → String) (cs : List (Call V)) (s : Orchestrator V)
    → IsValid s.sessions
    → IsValid (after now id_factory cs s).sessions
unfolding after
after-IsValid now id_factory [] s v = v
after-IsValid now id_factory (c ∷ cs) s v =
    after-IsValid now id_factory cs (call now id_factory c s).1 ((call-Fine now id_factory s v c).1)

module _ {V : Type 0} (now : ℕ → ℕ) (id_factory : ℕ → String) (s : Orchestrator V)
    (v : IsValid s.sessions) (l : IsLinked s.sessions) where
  abbrev Linked : Result SessionError (SessionSnapshot V) × Orchestrator V → Type 0
  Linked x = IsLinked x.1.sessions

  root-Linked :
      {id : String} {q : SessionRecord V}
      → links_of (some q) ≡ (none, some id, [])
      → (x : _) → RootCreation id q s x
      → Linked x
  root-Linked {id} {q} shape x (created view t new e w k) =
      subst IsLinked (sym e) (root-IsLinked id q s.sessions new shape v l)
  root-Linked shape x (taken t n e) = subst IsLinked (sym e) l

  child-Linked :
      {p id : String} {f g : SessionRecord V → SessionRecord V}
      → ((r : SessionRecord V) → links_of (some (f r)) ≡ (some r.id, some r.root_session_id, []))
      → ((r : SessionRecord V)
          → links_of (some (g r))
            ≡ (r.parent_session_id, some r.root_session_id, r.child_session_ids ++ id ∷ []))
      → (x : _) → ChildCreation p id f g s x
      → Linked x
  child-Linked {p} {id} {f} {g} shape grown x (created_below r view t found live new e w k) =
      subst IsLinked (sym e) (
        child-IsLinked p id r (f r) (g r) s.sessions found new
          (id_other s.sessions p id new (ap is_some found))
          (subst (λ n. links_of (some (f r)) ≡ (some n, some r.root_session_id, []))
            (v.sound p r found).keyed (shape r))
          (grown r) v l)
  child-Linked shape grown x (no_parent e) = l
  child-Linked shape grown x (parent_ended r e idle) = l
  child-Linked shape grown x (id_taken t n e) = subst IsLinked (sym e) l

  Completion-Linked :
      {id : String} {f : SessionRecord V → SessionRecord V}
      → ((r : SessionRecord V) → links_of (some (f r)) ≡ links_of (some r))
      → (x : _) → Completion id f s x
      → Linked x
  Completion-Linked {id} {f} shape x (Completing.completes r view t found live idle e w k) =
      subst IsLinked (sym e)
        (same-IsLinked s.sessions _ (written-links id r (f r) s.sessions found (shape r)) l)
  Completion-Linked shape x (Completing.blocked r y e live k f m) = l
  Completion-Linked shape x (Completing.no_session e) = l
  Completion-Linked shape x (Completing.was_terminal r e idle) = l

  Ending-Linked :
      {id : String} {f : SessionRecord V → SessionRecord V} {g : SessionRecord V → String}
      → ((r : SessionRecord V) → links_of (some (f r)) ≡ links_of (some r))
      → (x : _) → Ending id f g s x
      → Linked x
  Ending-Linked {id} {f} {g} shape x (Ending.ends r view t found live k shown) =
      same-IsLinked s.sessions t.sessions
        (Ended-links id (g r) r (f r) s.sessions t.sessions found (shape r) k) l
  Ending-Linked shape x (Ending.no_session e) = l
  Ending-Linked shape x (Ending.was_terminal r e idle) = l

  pub call-IsLinked : (c : Call V) → Linked (call now id_factory c s)
  unfolding call
  call-IsLinked (create_root options) =
      root-Linked refl _ (create_root_session-RootCreation now id_factory options s v)
  call-IsLinked (create_child parent options) =
      child-Linked (λ r. refl) (λ r. refl) _
        (create_child_session-ChildCreation now id_factory parent options s v)
  call-IsLinked (complete id options) =
      Completion-Linked (λ r. refl) _ (complete_session-Completion now id_factory id s options v)
  call-IsLinked (fail id options) =
      Ending-Linked (λ r. refl) _ (fail_session-Ending now id_factory id s v options)
  call-IsLinked (cancel id options) =
      Ending-Linked (λ r. refl) _ (cancel_session-Ending now id_factory id s v options)

new-IsLinked : {V : Type 0} → IsLinked {V = V} []
unfolding lookup
new-IsLinked = record { down = λ p c m. cc; up = λ p c h. cc; top = λ p x h k. cc }

pub after-IsLinked :
    {V : Type 0} (now : ℕ → ℕ) (id_factory : ℕ → String) (cs : List (Call V)) (s : Orchestrator V)
    → IsValid s.sessions
    → IsLinked s.sessions
    → IsLinked (after now id_factory cs s).sessions
unfolding after
after-IsLinked now id_factory [] s v l = l
after-IsLinked now id_factory (c ∷ cs) s v l =
    after-IsLinked now id_factory cs (call now id_factory c s).1 (call-Fine now id_factory s v c).1
      (call-IsLinked now id_factory s v l c)

-- After any sequence of calls on a new orchestrator the sessions form a forest: the children of a
-- session exist, stand strictly below it and name it as their parent, with its root; a session that
-- names a parent is listed by it, and one without a parent is its own root. An ended session has no
-- active child and the records are sound. A further call never runs out of the fuel that the model
-- gives to the recursions, and keeps all of that.
pub history-IsValid :
    {V : Type 0} (now : ℕ → ℕ) (id_factory : ℕ → String) (cs : List (Call V)) (c : Call V)
    → let s = after now id_factory cs new_orchestrator in
      (IsValid s.sessions × IsLinked s.sessions)
      × ((call now id_factory c s).0 ≢ err out_of_fuel)
      × IsValid (call now id_factory c s).1.sessions
      × IsLinked (call now id_factory c s).1.sessions
history-IsValid now id_factory cs c =
    let s = after now id_factory cs new_orchestrator in
    let v = after-IsValid now id_factory cs new_orchestrator new-IsValid in
    let l = after-IsLinked now id_factory cs new_orchestrator new-IsValid new-IsLinked in
    let (in_fuel, w) = call-Fine now id_factory s v c in
    ((v, l), in_fuel, w, call-IsLinked now id_factory s v l c)
