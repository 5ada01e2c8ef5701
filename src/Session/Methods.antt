-- ===== src/Session/Methods.antt =====
-- The public methods of `SessionOrchestrator` (packages/core/src/session/orchestrator.ts).
use generic_ai.Base.{ℕ, suc, String, not, Option, none, some, List, [], ◌∷◌, ◌++◌, length, get_or}
use generic_ai.Base.Dict.{lookup}
use generic_ai.Base.Exec.{ok, pure, gets, throw_if, ◌>>=◌, ◌>>◌}
use generic_ai.Session.Types.{
  SessionKind, root, child, active, succeeded, failed, cancelled, SessionRecord,
  SessionTerminalState, SessionSnapshot, SessionStartOptions, SessionCompleteOptions,
  SessionFailOptions, SessionCancelOptions, terminal_parent, merge_optional,
}
use generic_ai.Session.{
  Orchestrator, Action, is_live, save, get_required_record, require_unique_id, ensure_active,
  ensure_no_active_descendants, read_clock, cancel_active_descendants, normalize_error,
  build_cascade_reason, collect_terminal_states_from_record, get_required_session, to_snapshot,
}

abbrev pub new_orchestrator : {V : Type 0} → Orchestrator V
new_orchestrator = record { sessions = []; now_calls = 0; id_calls = 0 }

-- The record of a session that starts at a time.
abbrev pub started :
    {V : Type 0}
    → SessionKind
    → String
    → Option String
    → String
    → ℕ
    → Option (List (String × V))
    → SessionRecord V
started kind id parent root_id timestamp metadata = record {
  id = id;
  kind = kind;
  parent_session_id = parent;
  root_session_id = root_id;
  created_at = timestamp;
  updated_at = timestamp;
  ended_at = none;
  status = active;
  metadata = merge_optional [] metadata;
  result = none;
  error = none;
  cancellation_reason = none;
  child_session_ids = [];
}

module _ {V : Type 0} where
  abbrev pub with_child : SessionRecord V → ℕ → String → SessionRecord V
  with_child r timestamp id = record r {
    child_session_ids = r.child_session_ids ++ id ∷ [];
    updated_at = timestamp;
  }

  abbrev pub as_succeeded : SessionRecord V → ℕ → SessionCompleteOptions V → SessionRecord V
  as_succeeded r timestamp options = record r {
    status = succeeded;
    updated_at = timestamp;
    ended_at = some timestamp;
    result = options.result;
    metadata = merge_optional r.metadata options.metadata;
  }

  abbrev pub as_failed : SessionRecord V → ℕ → SessionFailOptions V → SessionRecord V
  as_failed r timestamp options = record r {
    status = failed;
    updated_at = timestamp;
    ended_at = some timestamp;
    error = some (normalize_error options.error);
    cancellation_reason = none;
    metadata = merge_optional r.metadata options.metadata;
  }

  abbrev pub as_cancelled_by : SessionRecord V → ℕ → SessionCancelOptions V → SessionRecord V
  as_cancelled_by r timestamp options = record r {
    status = cancelled;
    updated_at = timestamp;
    ended_at = some timestamp;
    cancellation_reason = options.reason;
    error = none;
    metadata = merge_optional r.metadata options.metadata;
  }

module _ {V : Type 0} (now : ℕ → ℕ) (id_factory : ℕ → String) where
  -- `options.id ?? this.idFactory()`
  unfoldable pub id_or_new : Option String → Action V String
  id_or_new (some id) s = (ok id, s)
  id_or_new none s = (ok (id_factory s.id_calls), record s { id_calls = suc s.id_calls })

  -- `createRootSession` once an id is chosen.
  unfoldable pub add_root : SessionStartOptions V → String → Action V (SessionSnapshot V)
  unfolding require_unique_id read_clock get_required_session
  add_root options wanted = do
    id ← require_unique_id wanted
    timestamp ← read_clock now
    save id (started root id none id timestamp options.metadata)
    get_required_session now id

  unfoldable pub create_root_session : SessionStartOptions V → Action V (SessionSnapshot V)
  unfolding id_or_new add_root
  create_root_session options = do wanted ← id_or_new options.id; add_root options wanted

  -- `createChildSession` once the parent is read and an id is chosen.
  unfoldable pub add_child :
      String → SessionRecord V → SessionStartOptions V → String → Action V (SessionSnapshot V)
  unfolding require_unique_id read_clock get_required_session
  add_child parent_session_id parent options wanted = do
    id ← require_unique_id wanted
    timestamp ← read_clock now
    save id (started child id (some parent.id) parent.root_session_id timestamp options.metadata)
    save parent_session_id (with_child parent timestamp id)
    get_required_session now id

  unfoldable pub create_child_session :
      String → SessionStartOptions V → Action V (SessionSnapshot V)
  unfolding id_or_new get_required_record add_child
  create_child_session parent_session_id options = do
    parent ← get_required_record parent_session_id
    throw_if (not (is_live parent)) (terminal_parent parent_session_id)
    wanted ← id_or_new options.id
    add_child parent_session_id parent options wanted

  unfoldable pub complete_session : String → SessionCompleteOptions V → Action V (SessionSnapshot V)
  unfolding get_required_record ensure_active ensure_no_active_descendants read_clock
      get_required_session
  complete_session session_id options = do
    r ← get_required_record session_id
    ensure_active r
    ensure_no_active_descendants r
    timestamp ← read_clock now
    save session_id (as_succeeded r timestamp options)
    get_required_session now session_id

  unfoldable pub fail_session : String → SessionFailOptions V → Action V (SessionSnapshot V)
  unfolding get_required_record ensure_active read_clock cancel_active_descendants
      get_required_session
  fail_session session_id options = do
    r ← get_required_record session_id
    ensure_active r
    timestamp ← read_clock now
    save session_id (as_failed r timestamp options)
    cancel_active_descendants now (as_failed r timestamp options) (build_cascade_reason r.id failed)
    get_required_session now session_id

  unfoldable pub cancel_session : String → SessionCancelOptions V → Action V (SessionSnapshot V)
  unfolding get_required_record ensure_active read_clock cancel_active_descendants
      get_required_session
  cancel_session session_id options = do
    r ← get_required_record session_id
    ensure_active r
    timestamp ← read_clock now
    save session_id (as_cancelled_by r timestamp options)
    cancel_active_descendants now (as_cancelled_by r timestamp options)
        (get_or options.reason (build_cascade_reason r.id cancelled))
    get_required_session now session_id

  abbrev snapshot_if : Option (SessionRecord V) → Action V (Option (SessionSnapshot V))
  snapshot_if none = pure none
  snapshot_if (some r) = do
    fuel ← gets (λ s. suc (length s.sessions))
    one ← to_snapshot now fuel r
    pure (some one)

  unfoldable pub get_session : String → Action V (Option (SessionSnapshot V))
  unfolding to_snapshot
  get_session session_id = do found ← gets (λ s. lookup session_id s.sessions); snapshot_if found

  unfoldable pub collect_terminal_states : String → Action V (List (SessionTerminalState V))
  unfolding get_required_record collect_terminal_states_from_record
  collect_terminal_states session_id = do
    r ← get_required_record session_id
    fuel ← gets (λ s. suc (length s.sessions))
    collect_terminal_states_from_record now fuel r
