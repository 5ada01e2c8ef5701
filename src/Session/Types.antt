-- ===== src/Session/Types.antt =====
-- packages/core/src/session/types.ts and `SessionRecord` of session/orchestrator.ts.
-- An `unknown` value is of a type `V`; metadata is an object with such values.
use generic_ai.Base.{ℕ, String, Bool, true, false, Option, none, some, List, [], ◌∷◌}
use generic_ai.Base.Dict.{Dict, set}

pub data SessionKind : Type 0 where
  root child : SessionKind

pub data SessionStatus : Type 0 where
  active succeeded failed cancelled : SessionStatus

abbrev pub is_active : SessionStatus → Bool
is_active active = true
is_active _ = false

pub record SessionErrorSnapshot : Type 0 where
  pub name : String
  pub message : String
  pub stack : Option String

-- The error that `failSession` is given: a text, or an `Error`.
pub data FailureInput : Type 0 where
  text : String → FailureInput
  error_object : (name message : String) → (stack : Option String) → FailureInput

pub record SessionRecord (V : Type 0) : Type 0 where
  pub id : String
  pub kind : SessionKind
  pub parent_session_id : Option String
  pub root_session_id : String
  pub created_at : ℕ
  pub updated_at : ℕ
  pub ended_at : Option ℕ
  pub status : SessionStatus
  pub metadata : Dict V
  pub result : Option V
  pub error : Option SessionErrorSnapshot
  pub cancellation_reason : Option String
  pub child_session_ids : List String

pub record SessionTerminalState (V : Type 0) : Type 0 where
  pub id : String
  pub kind : SessionKind
  pub status : SessionStatus
  pub parent_session_id : Option String
  pub root_session_id : String
  pub ended_at : ℕ
  pub child_session_ids : List String
  pub result : Option V
  pub error : Option SessionErrorSnapshot
  pub cancellation_reason : Option String
  pub metadata : Dict V

-- A snapshot: the fields of the record, the snapshots of the children, and the terminal states.
mutual
  pub data SessionSnapshot (V : Type 0) : Type 0 where
    snapshot :
        (fields : SessionRecord V)
        → (child_sessions : Snapshots V) → (terminal_state : Option (SessionTerminalState V))
        → (terminal_states : List (SessionTerminalState V)) → SessionSnapshot V

  pub data Snapshots (V : Type 0) : Type 0 where
    no_more : Snapshots V
    more : SessionSnapshot V → Snapshots V → Snapshots V

pub record SessionStartOptions (V : Type 0) : Type 0 where
  pub id : Option String
  pub metadata : Option (Dict V)

pub record SessionCompleteOptions (V : Type 0) : Type 0 where
  pub result : Option V
  pub metadata : Option (Dict V)

pub record SessionFailOptions (V : Type 0) : Type 0 where
  pub error : FailureInput
  pub metadata : Option (Dict V)

pub record SessionCancelOptions (V : Type 0) : Type 0 where
  pub reason : Option String
  pub metadata : Option (Dict V)

-- The texts of the thrown errors, as data.
pub data SessionError : Type 0 where
  unknown_session already_exists terminal_parent already_terminal not_terminal :
      String → SessionError
  active_descendant : (session descendant : String) → SessionError
  out_of_fuel : SessionError

-- `{ ...m, ...n }`
unfoldable pub merge : {V : Type 0} → Dict V → Dict V → Dict V
merge m [] = m
merge m ((k, v) ∷ n) = merge (set k v m) n

-- `{ ...m, ...(o ?? {}) }`
unfoldable pub merge_optional : {V : Type 0} → Dict V → Option (Dict V) → Dict V
unfolding merge
merge_optional m none = m
merge_optional m (some n) = merge m n

abbrev pub fields_of : {V : Type 0} → SessionSnapshot V → SessionRecord V
fields_of (snapshot fields nested own states) = fields
