-- ===== src/Session.antt =====
-- packages/core/src/session/orchestrator.ts: sessions form a forest, and a session that fails or is
-- cancelled cancels its active descendants. The k-th call of `now` returns `now k`, the k-th call of
-- the id factory `id_factory k`. The recursions over children take the number of sessions for fuel.
pub mod Types
pub mod Methods
pub mod Forest
pub mod Cascade
pub mod Frame
pub mod Linked
pub mod Linking
pub mod Reading
pub mod Invariant
pub mod Ending
pub mod Completing
pub mod Creating
pub mod Created
pub mod History
use Prim.Native.String.{◌++◌ as text_append}
use generic_ai.Base.{
  ℕ, zero, suc, String, Bool, true, false, not, Option, none, some, List, [], ◌∷◌, ◌++◌, length,
  if◌then◌else◌, get_or,
}
use generic_ai.Base.Dict.{Dict, lookup, has, set}
use generic_ai.Base.Exec.{
  Result, ok, err, Exec, pure, throw, gets, lift, modify, throw_if, ◌>>=◌, ◌>>◌,
}
use generic_ai.Session.Types.{
  SessionKind, root, child, SessionStatus, active, succeeded, failed, cancelled, is_active,
  SessionErrorSnapshot, FailureInput, text, error_object, SessionRecord, SessionTerminalState,
  SessionSnapshot, Snapshots, snapshot, no_more, more, SessionStartOptions, SessionCompleteOptions,
  SessionFailOptions, SessionCancelOptions, SessionError, unknown_session, already_exists,
  terminal_parent, already_terminal, not_terminal, active_descendant, out_of_fuel, merge,
  merge_optional,
}

pub record Orchestrator (V : Type 0) : Type 0 where
  pub sessions : Dict (SessionRecord V)
  pub now_calls : ℕ
  pub id_calls : ℕ

abbrev pub Action : Type 0 → Type 0 → Type 0
Action V A = Exec (Orchestrator V) SessionError A

unfoldable pub normalize_error : FailureInput → SessionErrorSnapshot
normalize_error (text message) = record { name = "Error"; message = message; stack = none }
normalize_error (error_object name message stack) = record {
  name = name;
  message = message;
  stack = stack;
}

unfoldable pub build_cascade_reason : String → SessionStatus → String
build_cascade_reason id failed = text_append "Parent session " (text_append id " failed.")
build_cascade_reason id _ = text_append "Parent session " (text_append id " was cancelled.")

module _ {V : Type 0} where
  abbrev pub is_live : SessionRecord V → Bool
  is_live r = is_active r.status

  unfoldable pub get_required_record : String → Action V (SessionRecord V)
  get_required_record id s = elim (lookup id s.sessions) [
    | none ↦ (err (unknown_session id), s)
    | some r ↦ (ok r, s)
  ]

  unfoldable pub require_unique_id : String → Action V String
  require_unique_id id s = if has id s.sessions then (err (already_exists id), s) else (ok id, s)

  unfoldable pub ensure_active : SessionRecord V → Action V (Unit {0})
  ensure_active r = throw_if (not (is_live r)) (already_terminal r.id)

  -- A write to a field of the object that the map holds.
  abbrev pub save : String → SessionRecord V → Action V (Unit {0})
  save id r s = (ok tt, record s { sessions = set id r s.sessions })

  -- `findFirstActiveDescendant`: `nested` is the recursive call.
  unfoldable pub find_each :
      (SessionRecord V → Action V (Option (SessionRecord V)))
      → List String
      → Action V (Option (SessionRecord V))
  unfolding get_required_record
  find_each nested [] = pure none
  find_each nested (c ∷ cs) = do
    session ← get_required_record c
    found ← (if is_live session then pure (some session) else nested session)
    elim found [ some r ↦ pure (some r) | none ↦ find_each nested cs ]

  unfoldable pub find_first_active_descendant :
      ℕ → SessionRecord V → Action V (Option (SessionRecord V))
  unfolding find_each
  find_first_active_descendant zero r = throw out_of_fuel
  find_first_active_descendant (suc fuel) r =
      find_each (find_first_active_descendant fuel) r.child_session_ids

  abbrev pub descendant_error : String → Option (SessionRecord V) → Action V (Unit {0})
  descendant_error id none = pure tt
  descendant_error id (some d) = throw (active_descendant id d.id)

  unfoldable pub ensure_no_active_descendants : SessionRecord V → Action V (Unit {0})
  unfolding find_first_active_descendant
  ensure_no_active_descendants r = do
    fuel ← gets (λ s. suc (length s.sessions))
    found ← find_first_active_descendant fuel r
    descendant_error r.id found

  abbrev pub as_cancelled : SessionRecord V → ℕ → String → SessionRecord V
  as_cancelled r timestamp reason = record r {
    status = cancelled;
    updated_at = timestamp;
    ended_at = some timestamp;
    cancellation_reason = some reason;
    error = none;
  }

  abbrev pub terminal_state_at : SessionRecord V → ℕ → SessionTerminalState V
  terminal_state_at r ended = record {
    id = r.id;
    kind = r.kind;
    status = r.status;
    parent_session_id = r.parent_session_id;
    root_session_id = r.root_session_id;
    ended_at = ended;
    child_session_ids = r.child_session_ids;
    result = r.result;
    error = r.error;
    cancellation_reason = r.cancellation_reason;
    metadata = r.metadata;
  }

-- Everything below reads the clock.
module _ {V : Type 0} (now : ℕ → ℕ) where
  unfoldable pub read_clock : Action V ℕ
  read_clock s = (ok (now s.now_calls), record s { now_calls = suc s.now_calls })

  -- `cancelActiveDescendants`: `terminalize` is the call for an active child.
  unfoldable pub cancel_each :
      (String → SessionRecord V → Action V (Unit {0})) → List String → Action V (Unit {0})
  unfolding get_required_record
  cancel_each terminalize [] = pure tt
  cancel_each terminalize (c ∷ cs) = do
    session ← get_required_record c
    (if is_live session then terminalize c session else pure tt)
    cancel_each terminalize cs

  unfoldable pub terminalize_cancelled : ℕ → String → String → SessionRecord V → Action V (Unit {0})
  unfolding read_clock cancel_each
  terminalize_cancelled zero reason id r = throw out_of_fuel
  terminalize_cancelled (suc fuel) reason id r = do
    timestamp ← read_clock
    save id (as_cancelled r timestamp reason)
    cancel_each (terminalize_cancelled fuel reason) r.child_session_ids

  unfoldable pub cancel_active_descendants : SessionRecord V → String → Action V (Unit {0})
  unfolding terminalize_cancelled
  cancel_active_descendants r reason = do
    fuel ← gets (λ s. length s.sessions)
    cancel_each (terminalize_cancelled fuel reason) r.child_session_ids

  -- `record.endedAt ?? this.now()`
  unfoldable pub ended_or_now : Option ℕ → Action V ℕ
  unfolding read_clock
  ended_or_now none = read_clock
  ended_or_now (some t) = pure t

  unfoldable pub to_terminal_state : SessionRecord V → Action V (SessionTerminalState V)
  unfolding ended_or_now
  to_terminal_state r = do
    throw_if (is_live r) (not_terminal r.id)
    ended ← ended_or_now r.ended_at
    pure (terminal_state_at r ended)

  unfoldable pub collect_each :
      (SessionRecord V → Action V (List (SessionTerminalState V)))
      → List String
      → Action V (List (SessionTerminalState V))
  unfolding get_required_record
  collect_each nested [] = pure []
  collect_each nested (c ∷ cs) = do
    session ← get_required_record c
    states ← nested session
    rest ← collect_each nested cs
    pure (states ++ rest)

  unfoldable pub collect_terminal_states_from_record :
      ℕ → SessionRecord V → Action V (List (SessionTerminalState V))
  unfolding to_terminal_state collect_each
  collect_terminal_states_from_record zero r = throw out_of_fuel
  collect_terminal_states_from_record (suc fuel) r = do
    states ← collect_each (collect_terminal_states_from_record fuel) r.child_session_ids
    if is_live r then pure states else do state ← to_terminal_state r; pure (states ++ state ∷ [])

  abbrev pub own_terminal_state : SessionRecord V → Action V (Option (SessionTerminalState V))
  own_terminal_state r =
      if is_live r then pure none else do state ← to_terminal_state r; pure (some state)

  unfoldable pub snapshot_each :
      (SessionRecord V → Action V (SessionSnapshot V)) → List String → Action V (Snapshots V)
  unfolding get_required_record
  snapshot_each nested [] = pure no_more
  snapshot_each nested (c ∷ cs) = do
    session ← get_required_record c
    one ← nested session
    rest ← snapshot_each nested cs
    pure (more one rest)

  unfoldable pub to_snapshot : ℕ → SessionRecord V → Action V (SessionSnapshot V)
  unfolding snapshot_each collect_terminal_states_from_record
  to_snapshot zero r = throw out_of_fuel
  to_snapshot (suc fuel) r = do
    terminal_state ← own_terminal_state r
    child_sessions ← snapshot_each (to_snapshot fuel) r.child_session_ids
    terminal_states ← collect_terminal_states_from_record (suc fuel) r
    pure (snapshot r child_sessions terminal_state terminal_states)

  unfoldable pub get_required_session : String → Action V (SessionSnapshot V)
  unfolding get_required_record to_snapshot
  get_required_session id = do
    r ← get_required_record id
    fuel ← gets (λ s. suc (length s.sessions))
    to_snapshot fuel r
