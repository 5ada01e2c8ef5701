-- ===== src/Session/Completing.antt =====
-- `completeSession` of session/orchestrator.ts: a session succeeds when nothing below it is active.
use generic_ai.Base.{
  ℕ, zero, suc, ◌+◌, ◌≤◌, String, ◌≡◌, refl, sym, ◌∙◌, ap, true, false, Option, none, some, List,
  [], ◌∷◌, length, arith, eq_iff, eq_refl, ◌==◌, inl, inr, contains, is_some, Bool-cases,
  Option-cases, subst,
}
use generic_ai.Base.Dict.{Dict, lookup, set, lookup-set}
use generic_ai.Base.Exec.{Result, ok, err}
use generic_ai.Session.Types.{
  SessionRecord, SessionSnapshot, fields_of, SessionCompleteOptions, SessionError, unknown_session,
  already_terminal, active_descendant,
}
use generic_ai.Session.{
  Orchestrator, Action, is_live, get_required_record, ensure_active, ensure_no_active_descendants,
  find_each, find_first_active_descendant,
}
use generic_ai.Session.Methods.{as_succeeded, complete_session}
use generic_ai.Session.Forest.{live_of, children_of, active_at, children_at, IsForest}
use generic_ai.Session.Cascade.{end-IsForest, end-IsClosed, children-end, live-end, dead_first}
use generic_ai.Session.Reading.{get_required_session-Shows, IsSound}
use generic_ai.Session.Invariant.{
  IsValid, Descendant, its_child, Descendant-prepend, Descendant-idle, AllSound-set,
}

-- What the search below `p` may answer, when it has looked at `cs` of the children.
data Found {V : Type 0} (d : Dict (SessionRecord V)) (p : String) (cs : List String)
    : Option (SessionRecord V) → Type 0 where
  nothing : ((c : String) → contains cs c ≡ true → active_at d c ≡ false) → Found d p cs none
  active_below :
      (y : String) (x : SessionRecord V)
      → Descendant d p y
      → lookup y d ≡ some x
      → is_live x ≡ true
      → Found d p cs (some x)

module _ {V : Type 0} (rank : String → ℕ) (s : Orchestrator V)
    (forest : IsForest rank s.sessions) where
  abbrev d : Dict (SessionRecord V)
  d = s.sessions

  abbrev Finds : Action V (Option (SessionRecord V)) → String → List String → Type 0
  Finds m p cs = (o : Option (SessionRecord V)) × (m s ≡ (ok o, s)) × Found d p cs o

  abbrev Searches : ℕ → (SessionRecord V → Action V (Option (SessionRecord V))) → Type 0
  Searches fuel nested =
      (p : String) (r : SessionRecord V)
      → lookup p d ≡ some r
      → length d ≤ fuel + rank p
      → Finds (nested r) p r.child_session_ids

  Found-skip :
      (p c : String) (cs : List String) (o : Option (SessionRecord V))
      → active_at d c ≡ false
      → Found d p cs o
      → Found d p (c ∷ cs) o
  Found-skip p c cs none idle (nothing h) = nothing (dead_first c cs d idle h)
  Found-skip p c cs (some x) idle (active_below y x' k e l) = active_below y x k e l

  find_each-Finds :
      (fuel : ℕ) (nested : SessionRecord V → Action V (Option (SessionRecord V)))
      → Searches fuel nested
      → (p : String) (cs : List String)
      → ((c : String)
          → contains cs c ≡ true
          → (contains (children_at d p) c ≡ true) × (length d ≤ fuel + rank c))
      → Finds (find_each nested cs) p cs
  unfolding find_each
  find_each-Finds fuel nested k p [] h = (none, refl, nothing (λ c m. cc))
  find_each-Finds fuel nested k p (c ∷ cs) h =
      let (listed, enough) = h c (ground (arith, eq_refl c)) in
      let (o, rest, verdict) = find_each-Finds fuel nested k p cs (λ x m. h x (ground arith)) in
      elim (Option-cases (lookup c d)) [
        | inl e ↦ cc (ap is_some e, forest.there p c listed)
        | inr (r, e) ↦ elim (Bool-cases (is_live r)) [
          | inl live ↦ (
            some r,
            rw (e, get_required_record, live),
            active_below c r (its_child listed) e live,
          )
          | inr idle ↦ nested_case c cs listed r e idle o rest verdict (k c r e enough)
        ]
      ]
    where
      nested_case :
          (c : String) (cs : List String)
          → contains (children_at d p) c ≡ true
          → (r : SessionRecord V) → lookup c d ≡ some r
          → is_live r ≡ false
          → (o : Option (SessionRecord V)) → find_each nested cs s ≡ (ok o, s)
          → Found d p cs o
          → Finds (nested r) c r.child_session_ids
          → Finds (find_each nested (c ∷ cs)) p (c ∷ cs)
      nested_case c cs listed r e idle o rest verdict (none, run, nothing below) = (
        o,
        rw (e, get_required_record, idle, run, rest),
        Found-skip p c cs o (ap live_of e ∙ idle) verdict,
      )
      nested_case c cs listed r e idle o rest verdict (some x, run, active_below y x' below f l) = (
        some x,
        rw (e, get_required_record, idle, run),
        active_below y x (Descendant-prepend d p c y listed below) f l,
      )

  find_first-Searches : (fuel : ℕ) → Searches fuel (find_first_active_descendant fuel)
  unfolding find_first_active_descendant
  find_first-Searches zero p r e enough = absurd (omega (arith, forest.bounded p (ap is_some e)))
  find_first-Searches (suc fuel) p r e enough =
      find_each-Finds fuel (find_first_active_descendant fuel) (find_first-Searches fuel) p
        r.child_session_ids
        (λ c m.
          let listed = ap (λ t. contains t c) (ap children_of e) ∙ m in
          (listed, omega (arith, forest.below p c listed)))

-- What `completeSession` does on every branch.
pub data Completion {V : Type 0} (id : String) (completed : SessionRecord V → SessionRecord V)
    (s : Orchestrator V) : Result SessionError (SessionSnapshot V) × Orchestrator V → Type 0 where
  completes :
      (r : SessionRecord V) (view : SessionSnapshot V) (t : Orchestrator V)
      → lookup id s.sessions ≡ some r
      → is_live r ≡ true
      → ((x : String) → Descendant s.sessions id x → active_at s.sessions x ≡ false)
      → t.sessions ≡ set id (completed r) s.sessions
      → IsValid t.sessions
      → fields_of view ≡ completed r
      → Completion id completed s (ok view, t)
  blocked :
      (r x : SessionRecord V)
      → lookup id s.sessions ≡ some r
      → is_live r ≡ true
      → Descendant s.sessions id x.id
      → lookup x.id s.sessions ≡ some x
      → is_live x ≡ true
      → Completion id completed s (err (active_descendant id x.id), s)
  no_session : lookup id s.sessions ≡ none → Completion id completed s (err (unknown_session id), s)
  was_terminal :
      (r : SessionRecord V)
      → lookup id s.sessions ≡ some r
      → is_live r ≡ false
      → Completion id completed s (err (already_terminal id), s)

-- A session without active children may end.
pub end-IsValid :
    {V : Type 0} (id : String) (r q : SessionRecord V) (d : Dict (SessionRecord V))
    → lookup id d ≡ some r
    → is_live q ≡ false
    → q.child_session_ids ≡ r.child_session_ids
    → IsSound id q
    → ((c : String) → contains (children_at d id) c ≡ true → active_at d c ≡ false)
    → IsValid d
    → IsValid (set id q d)
end-IsValid id r q d found ended same i dead v = record {
  rank = v.rank;
  forest = end-IsForest id r q d found ended same v.rank v.forest;
  closed = λ p. elim (Bool-cases (id == p)) [
    | inl h ↦ λ _ c m. live-end id r q d found ended same c (
        dead c (
          subst (λ t. contains (children_at d t) c ≡ true) (sym ((eq_iff id p).0 h))
            (ap (λ t. contains t c) (sym (children-end id r q d found ended same p)) ∙ m)))
    | inr h ↦ end-IsClosed id r q d found ended same p h (v.closed p)
  ];
  sound = AllSound-set id q d i v.sound;
}

module _ {V : Type 0} (now : ℕ → ℕ) (id_factory : ℕ → String) (id : String) (s : Orchestrator V)
    (options : SessionCompleteOptions V) (v : IsValid s.sessions) where
  abbrev as_done : SessionRecord V → SessionRecord V
  as_done r = as_succeeded r (now s.now_calls) options

  abbrev Completes : Type 0
  Completes = Completion id as_done s (complete_session now id_factory id options s)

  complete_active :
      (r : SessionRecord V)
      → lookup id s.sessions ≡ some r
      → is_live r ≡ true
      → Finds v.rank s v.forest
          (find_first_active_descendant (suc (length s.sessions)) r)
          id
          r.child_session_ids
      → Completes
  unfolding complete_session
  complete_active r e live (none, run, nothing idle) =
      let q = as_done r in
      let dead : (c : String)
          → contains (children_at s.sessions id) c ≡ true
          → active_at s.sessions c ≡ false =
        λ c m. idle c (ap (λ t. contains t c) (sym (ap children_of e)) ∙ m) in
      let valid =
        end-IsValid id r q s.sessions e refl refl
          (record { keyed = (v.sound id r e).keyed; ends = refl }) dead v in
      let t : Orchestrator V = record s {
        sessions = set id q s.sessions;
        now_calls = suc s.now_calls;
      } in
      let (view, read, shown) =
        get_required_session-Shows now valid.rank t valid.forest valid.sound id q
          (lookup-set id id q s.sessions ∙ rw (eq_refl id) refl) in
      rw (e, get_required_record, live, ensure_active, ensure_no_active_descendants, run, read)
        (completes r view t e live
          (λ x h. Descendant-idle s.sessions s.sessions id x (λ y. refl) v.closed dead h) refl valid
          shown)
  complete_active r e live (some x, run, active_below y x' below f l) =
      let keyed = (v.sound y x f).keyed in
      rw
        (
          e,
          get_required_record,
          live,
          ensure_active,
          ensure_no_active_descendants,
          run,
          (v.sound id r e).keyed,
        )
        (blocked r x e live (subst (λ t. Descendant s.sessions id t) (sym keyed) below)
          (subst (λ t. lookup t s.sessions ≡ some x) (sym keyed) f) l)

  -- On a valid state `completeSession` makes an active session with no active descendant succeed,
  -- changes no other record, keeps the state valid and returns a snapshot of it. It throws and changes nothing when
  -- a descendant is active, which the error names, and on an unknown or an ended session.
  pub complete_session-Completion :
      Completion id as_done s (complete_session now id_factory id options s)
  unfolding complete_session
  complete_session-Completion = elim (Option-cases (lookup id s.sessions)) [
    | inl e ↦ rw (e, get_required_record) (no_session e)
    | inr (r, e) ↦ elim (Bool-cases (is_live r)) [
      | inl live ↦
          complete_active r e live
            (find_first-Searches v.rank s v.forest (suc (length s.sessions)) id r e (omega arith))
      | inr idle ↦
          rw (e, get_required_record, idle, ensure_active, (v.sound id r e).keyed)
            (was_terminal r e idle)
    ]
  ]
