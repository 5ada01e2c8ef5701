-- ===== src/Session/Ending.antt =====
-- `failSession` and `cancelSession` of session/orchestrator.ts on every branch.
use generic_ai.Base.{
  ℕ, suc, String, ◌≡◌, refl, true, false, none, some, inl, inr, get_or, subst, Option, Bool-cases,
  Option-cases,
}
use generic_ai.Base.Dict.{Dict, lookup, set}
use generic_ai.Base.Exec.{Result, ok, err}
use generic_ai.Session.Types.{
  SessionStatus, SessionErrorSnapshot, FailureInput, text, error_object, merge_optional,
  SessionRecord, SessionSnapshot, fields_of, SessionFailOptions, SessionCancelOptions, SessionError,
  unknown_session, already_terminal, failed, cancelled,
}
use generic_ai.Session.{
  Orchestrator, is_live, get_required_record, ensure_active, build_cascade_reason, normalize_error,
  get_required_session,
}
use generic_ai.Session.Methods.{fail_session, cancel_session}
use generic_ai.Session.Reading.{get_required_session-Shows}
use generic_ai.Session.Invariant.{IsValid, Ended, settle}

-- What a call that ends session `id` does: it ends the session and cancels what is active below,
-- or it throws and leaves the state as it was.
pub data Ending {V : Type 0} (id : String) (ended_as : SessionRecord V → SessionRecord V)
    (reason : SessionRecord V → String) (s : Orchestrator V)
    : Result SessionError (SessionSnapshot V) × Orchestrator V → Type 0 where
  ends :
      (r : SessionRecord V) (view : SessionSnapshot V) (t : Orchestrator V)
      → lookup id s.sessions ≡ some r
      → is_live r ≡ true
      → Ended id (ended_as r) (reason r) s.sessions t.sessions
      → fields_of view ≡ ended_as r
      → Ending id ended_as reason s (ok view, t)
  no_session :
      lookup id s.sessions ≡ none → Ending id ended_as reason s (err (unknown_session id), s)
  was_terminal :
      (r : SessionRecord V)
      → lookup id s.sessions ≡ some r
      → is_live r ≡ false
      → Ending id ended_as reason s (err (already_terminal id), s)

-- What a failure is shown as: a text has the name of a plain `Error`.
abbrev fault : FailureInput → SessionErrorSnapshot
fault (text message) = record { name = "Error"; message = message; stack = none }
fault (error_object name message stack) = record { name = name; message = message; stack = stack }

fault_lem : (e : FailureInput) → normalize_error e ≡ fault e
unfolding normalize_error
fault_lem (text message) = refl
fault_lem (error_object name message stack) = refl

-- The record of a session that has ended at a time, field by field: what names it, its family, its
-- start and its result are those it had.
abbrev ended_record :
    {V : Type 0}
    → SessionRecord V
    → SessionStatus
    → ℕ
    → Option SessionErrorSnapshot
    → Option String
    → Option (Dict V)
    → SessionRecord V
ended_record r status time error reason metadata = record {
  id = r.id;
  kind = r.kind;
  parent_session_id = r.parent_session_id;
  root_session_id = r.root_session_id;
  created_at = r.created_at;
  updated_at = time;
  ended_at = some time;
  status = status;
  metadata = merge_optional r.metadata metadata;
  result = r.result;
  error = error;
  cancellation_reason = reason;
  child_session_ids = r.child_session_ids;
}

-- A failed session has the error and no reason, a cancelled one the reason and no error.
abbrev pub failed_record :
    {V : Type 0} → SessionRecord V → ℕ → SessionFailOptions V → SessionRecord V
failed_record r time options =
    ended_record r failed time (some (fault options.error)) none options.metadata

abbrev pub cancelled_record :
    {V : Type 0} → SessionRecord V → ℕ → SessionCancelOptions V → SessionRecord V
cancelled_record r time options = ended_record r cancelled time none options.reason options.metadata

module _ {V : Type 0} (now : ℕ → ℕ) (id_factory : ℕ → String) (id : String) (s : Orchestrator V)
    (v : IsValid s.sessions) where
  -- The snapshot that the method returns at its end.
  view_after :
      (q : SessionRecord V) (reason : String) (t : Orchestrator V)
      → Ended id q reason s.sessions t.sessions
      → (view : SessionSnapshot V) × (get_required_session now id t ≡ (ok view, t))
        × (fields_of view ≡ q)
  view_after q reason t e =
      get_required_session-Shows now e.valid.rank t e.valid.forest e.valid.sound id q e.here

  fail_session_as :
      (options : SessionFailOptions V)
      → Ending id
          (λ r.
            ended_record r failed
              (now s.now_calls)
              (some (normalize_error options.error))
              none
              options.metadata)
          (λ r. build_cascade_reason r.id failed)
          s
          (fail_session now id_factory id options s)
  unfolding fail_session
  fail_session_as options = elim (Option-cases (lookup id s.sessions)) [
    | inl e ↦ rw (e, get_required_record) (no_session e)
    | inr (r, e) ↦ elim (Bool-cases (is_live r)) [
      | inl live ↦
          let q =
            ended_record r failed (now s.now_calls) (some (normalize_error options.error)) none
              options.metadata in
          let reason = build_cascade_reason r.id failed in
          let saved : Orchestrator V = record s {
            sessions = set id q s.sessions;
            now_calls = suc s.now_calls;
          } in
          let (t, run, ended) =
            settle now reason id r q s saved e live refl refl
              (record { keyed = (v.sound id r e).keyed; ends = refl }) refl v in
          let (view, read, shown) = view_after q reason t ended in
          rw (e, get_required_record, live, ensure_active, run, read)
            (ends r view t e live ended shown)
      | inr idle ↦
          rw (e, get_required_record, idle, ensure_active, (v.sound id r e).keyed)
            (was_terminal r e idle)
    ]
  ]

  -- On a valid state `failSession` fails an active session with the given error and cancels every
  -- active descendant, changes no other record, keeps the state valid and returns a snapshot of
  -- the failed session; on an unknown
  -- or an ended session it throws and changes nothing.
  pub fail_session-Ending :
      (options : SessionFailOptions V)
      → Ending id
          (λ r. failed_record r (now s.now_calls) options)
          (λ r. build_cascade_reason r.id failed)
          s
          (fail_session now id_factory id options s)
  fail_session-Ending options =
      subst
        (λ error.
          Ending id
            (λ r. ended_record r failed (now s.now_calls) (some error) none options.metadata)
            (λ r. build_cascade_reason r.id failed) s (fail_session now id_factory id options s))
        (fault_lem options.error) (fail_session_as options)

  -- On a valid state `cancelSession` cancels an active session with the given reason and every
  -- active descendant with that reason or, without one, the cascade's text; it changes no other
  -- record, keeps the state valid and returns a snapshot of the session. On an unknown or an ended session it throws and
  -- changes nothing.
  pub cancel_session-Ending :
      (options : SessionCancelOptions V)
      → Ending id
          (λ r. cancelled_record r (now s.now_calls) options)
          (λ r. get_or options.reason (build_cascade_reason r.id cancelled))
          s
          (cancel_session now id_factory id options s)
  unfolding cancel_session
  cancel_session-Ending options = elim (Option-cases (lookup id s.sessions)) [
    | inl e ↦ rw (e, get_required_record) (no_session e)
    | inr (r, e) ↦ elim (Bool-cases (is_live r)) [
      | inl live ↦
          let q = cancelled_record r (now s.now_calls) options in
          let reason = get_or options.reason (build_cascade_reason r.id cancelled) in
          let saved : Orchestrator V = record s {
            sessions = set id q s.sessions;
            now_calls = suc s.now_calls;
          } in
          let (t, run, ended) =
            settle now reason id r q s saved e live refl refl
              (record { keyed = (v.sound id r e).keyed; ends = refl }) refl v in
          let (view, read, shown) = view_after q reason t ended in
          rw (e, get_required_record, live, ensure_active, run, read)
            (ends r view t e live ended shown)
      | inr idle ↦
          rw (e, get_required_record, idle, ensure_active, (v.sound id r e).keyed)
            (was_terminal r e idle)
    ]
  ]
