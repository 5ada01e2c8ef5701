-- ===== src/Session/Reading.antt =====
-- `toSnapshot` and `collectTerminalStates` of session/orchestrator.ts return on every forest whose
-- ended sessions have an end time, and change nothing: `endedAt ?? this.now()` never reads the clock.
use generic_ai.Base.{
  ℕ, zero, suc, ◌+◌, ◌≤◌, String, ◌≡◌, refl, ◌∙◌, ap, true, false, not, none, some, List, [], ◌∷◌,
  ◌++◌, length, arith, eq_refl, inl, inr, contains, is_some, Bool-cases, Option-cases,
}
use generic_ai.Base.Dict.{Dict, lookup, has}
use generic_ai.Base.Exec.{ok}
use generic_ai.Session.Types.{
  SessionRecord, SessionSnapshot, snapshot, fields_of, no_more, more, SessionTerminalState,
}
use generic_ai.Session.{
  Orchestrator, Action, is_live, get_required_record, ended_or_now, to_terminal_state, collect_each,
  collect_terminal_states_from_record, own_terminal_state, terminal_state_at, snapshot_each,
  to_snapshot, get_required_session,
}
use generic_ai.Session.Methods.{get_session}
use generic_ai.Session.Forest.{children_of, IsForest}
use generic_ai.Session.Cascade.{get_required_record-some}

-- A session has an end time exactly when it is not active, and stands under its own id.
pub record IsSound {V : Type 0} (p : String) (r : SessionRecord V) : Type 0 where
  pub keyed : r.id ≡ p
  pub ends : is_some r.ended_at ≡ not (is_live r)

abbrev pub AllSound : {V : Type 0} → Dict (SessionRecord V) → Type 0
AllSound {V} d = (p : String) (r : SessionRecord V) → lookup p d ≡ some r → IsSound p r

-- The action returns, and leaves the state as it was.
abbrev pub Reads : {V A : Type 0} → Action V A → Orchestrator V → Type 0
Reads {V} {A} m s = (a : A) × (m s ≡ (ok a, s))

module _ {V : Type 0} (now : ℕ → ℕ) (rank : String → ℕ) (s : Orchestrator V)
    (forest : IsForest rank s.sessions) (sound : AllSound s.sessions) where
  to_terminal_state-Reads :
      (p : String) (r : SessionRecord V)
      → IsSound p r
      → is_live r ≡ false
      → Reads (to_terminal_state now r) s
  unfolding to_terminal_state
  to_terminal_state-Reads p r i idle = elim (Option-cases r.ended_at) [
    | inl e ↦ cc (ap is_some e, i.ends, ap not idle)
    | inr (t, e) ↦ (terminal_state_at r t, rw (idle, e, ended_or_now))
  ]

  -- What the loops over the children need of the recursive call and of the children.
  abbrev Each : {A : Type 0} → ℕ → (SessionRecord V → Action V A) → Type 0
  Each fuel nested =
      (p : String) (r : SessionRecord V)
      → lookup p s.sessions ≡ some r
      → length s.sessions ≤ fuel + rank p
      → Reads (nested r) s

  abbrev Deep : ℕ → List String → Type 0
  Deep fuel cs =
      (c : String)
      → contains cs c ≡ true
      → (has c s.sessions ≡ true) × (length s.sessions ≤ fuel + rank c)

  collect_each-Reads :
      (fuel : ℕ) (nested : SessionRecord V → Action V (List (SessionTerminalState V)))
      → Each fuel nested
      → (cs : List String) → Deep fuel cs
      → Reads (collect_each now nested cs) s
  unfolding collect_each
  collect_each-Reads fuel nested k [] h = ([], refl)
  collect_each-Reads fuel nested k (c ∷ cs) h =
      let (there, enough) = h c (ground (arith, eq_refl c)) in
      elim (Option-cases (lookup c s.sessions)) [
        | inl e ↦ cc (ap is_some e, there)
        | inr (r, e) ↦
            let (a, run) = k c r e enough in
            let (b, rest) = collect_each-Reads fuel nested k cs (λ x m. h x (ground arith)) in
            (a ++ b, rw (e, get_required_record, run, rest))
      ]

  snapshot_each-Reads :
      (fuel : ℕ) (nested : SessionRecord V → Action V (SessionSnapshot V))
      → Each fuel nested
      → (cs : List String) → Deep fuel cs
      → Reads (snapshot_each now nested cs) s
  unfolding snapshot_each
  snapshot_each-Reads fuel nested k [] h = (no_more, refl)
  snapshot_each-Reads fuel nested k (c ∷ cs) h =
      let (there, enough) = h c (ground (arith, eq_refl c)) in
      elim (Option-cases (lookup c s.sessions)) [
        | inl e ↦ cc (ap is_some e, there)
        | inr (r, e) ↦
            let (a, run) = k c r e enough in
            let (b, rest) = snapshot_each-Reads fuel nested k cs (λ x m. h x (ground arith)) in
            (more a b, rw (e, get_required_record, run, rest))
      ]

  -- The children of a session are deeper.
  children-Deep :
      (fuel : ℕ) (p : String) (r : SessionRecord V)
      → lookup p s.sessions ≡ some r
      → length s.sessions ≤ suc fuel + rank p
      → Deep fuel r.child_session_ids
  children-Deep fuel p r e enough c m =
      let listed = ap (λ t. contains t c) (ap children_of e) ∙ m in
      (forest.there p c listed, omega (arith, forest.below p c listed))

  collect-Reads : (fuel : ℕ) → Each fuel (collect_terminal_states_from_record now fuel)
  unfolding collect_terminal_states_from_record
  collect-Reads zero p r e enough = absurd (omega (arith, forest.bounded p (ap is_some e)))
  collect-Reads (suc fuel) p r e enough =
      let (states, run) =
        collect_each-Reads fuel (collect_terminal_states_from_record now fuel) (collect-Reads fuel)
          r.child_session_ids (children-Deep fuel p r e enough) in
      elim (Bool-cases (is_live r)) [
        | inl live ↦ (states, rw (run, live))
        | inr idle ↦ elim (Option-cases r.ended_at) [
          | inl missing ↦ cc (ap is_some missing, (sound p r e).ends, ap not idle)
          | inr (t, ended) ↦
              (states ++ terminal_state_at r t ∷ [], rw (run, idle, ended, ended_or_now))
        ]
      ]

  own_terminal_state-Reads :
      (p : String) (r : SessionRecord V)
      → lookup p s.sessions ≡ some r
      → Reads (own_terminal_state now r) s
  own_terminal_state-Reads p r e = elim (Bool-cases (is_live r)) [
    | inl live ↦ (none, rw live)
    | inr idle ↦
        let (own, end) = to_terminal_state-Reads p r (sound p r e) idle in
        (some own, rw (idle, end))
  ]

  to_snapshot-Reads : (fuel : ℕ) → Each fuel (to_snapshot now fuel)
  unfolding to_snapshot
  to_snapshot-Reads zero p r e enough = absurd (omega (arith, forest.bounded p (ap is_some e)))
  to_snapshot-Reads (suc fuel) p r e enough =
      let (own, end) = own_terminal_state-Reads p r e in
      let (nested, run) =
        snapshot_each-Reads fuel (to_snapshot now fuel) (to_snapshot-Reads fuel) r.child_session_ids
          (children-Deep fuel p r e enough) in
      let (states, all) = collect-Reads (suc fuel) p r e enough in
      (snapshot r nested own states, rw (end, run, all))

  -- The action answers a snapshot that shows a record, and leaves the state as it was.
  abbrev pub Shows : Action V (SessionSnapshot V) → SessionRecord V → Type 0
  Shows m r = (view : SessionSnapshot V) × (m s ≡ (ok view, s)) × (fields_of view ≡ r)

  to_snapshot-Shows :
      (fuel : ℕ) (p : String) (r : SessionRecord V)
      → lookup p s.sessions ≡ some r
      → length s.sessions ≤ suc fuel + rank p
      → Shows (to_snapshot now (suc fuel) r) r
  unfolding to_snapshot
  to_snapshot-Shows fuel p r e enough =
      let (own, end) = own_terminal_state-Reads p r e in
      let (nested, run) =
        snapshot_each-Reads fuel (to_snapshot now fuel) (to_snapshot-Reads fuel) r.child_session_ids
          (children-Deep fuel p r e enough) in
      let (states, all) = collect-Reads (suc fuel) p r e enough in
      (snapshot r nested own states, rw (end, run, all), refl)

  -- The snapshot of a session that is there, with the fuel that the code's callers give.
  pub get_required_session-Shows :
      (p : String) (r : SessionRecord V)
      → lookup p s.sessions ≡ some r
      → Shows (get_required_session now p) r
  unfolding get_required_session
  get_required_session-Shows p r e =
      let (view, run, shown) = to_snapshot-Shows (length s.sessions) p r e (omega arith) in
      (view, rw (get_required_record-some p r s e, run), shown)

  -- `getSession` shows a session that is there.
  pub get_session-Shows :
      (id_factory : ℕ → String) (p : String) (r : SessionRecord V)
      → lookup p s.sessions ≡ some r
      → (view : SessionSnapshot V) × (get_session now id_factory p s ≡ (ok (some view), s))
        × (fields_of view ≡ r)
  unfolding get_session
  get_session-Shows id_factory p r e =
      let (view, run, shown) = to_snapshot-Shows (length s.sessions) p r e (omega arith) in
      (view, rw (e, run), shown)
