-- ===== src/Queue/Types.antt =====
-- The types of packages/plugin-queue-memory/src/index.ts. A finite number is an integer.
use generic_ai.Base.{
  ℕ, zero, suc, String, Bool, true, false, Option, none, some, if◌then◌else◌, ltb,
}
use generic_ai.Base.Text.{is_empty}
use generic_ai.Base.Dict.{Dict}
use generic_ai.Base.Exec.{Result, ok, err}

pub data ℤ : Type 0 where
  pos negsuc : ℕ → ℤ

abbrev pub lt_int : ℤ → ℤ → Bool
lt_int (pos a) (pos b) = ltb a b
lt_int (pos a) (negsuc b) = false
lt_int (negsuc a) (pos b) = true
lt_int (negsuc a) (negsuc b) = ltb b a

-- A JavaScript number: finite, or an infinity or NaN.
pub data Number : Type 0 where
  finite : ℤ → Number
  not_finite : Number

pub data AbortReason : Type 0 where
  error_object text : String → AbortReason
  other : AbortReason

pub record Signal : Type 0 where
  pub aborted : Bool
  pub reason : AbortReason

-- What a caller enqueues.
pub record QueueJob (V : Type 0) : Type 0 where
  pub id : Option String
  pub name : Option String
  pub payload : V
  pub priority : Option Number
  pub run_at : Option Number
  pub signal : Option Signal
  pub metadata : Option (Dict V)

-- The id that was given, or the text `job-<n>`.
pub data JobId : Type 0 where
  given_id : String → JobId
  numbered : ℕ → JobId

-- The frozen snapshot of a pending job; `signal` tells whether it can be aborted.
pub record Job (V : Type 0) : Type 0 where
  pub id : JobId
  pub name : Option String
  pub payload : V
  pub priority : ℤ
  pub run_at : ℤ
  pub enqueued_at : ℕ
  pub sequence : ℕ
  pub signal : Bool
  pub metadata : Option (Dict V)

pub record QueueState : Type 0 where
  pub pending : ℕ
  pub running : ℕ
  pub paused : Bool
  pub closed : Bool
  pub concurrency : ℕ

-- Who waits for the queue to be idle.
pub data Waiter : Type 0 where
  drain_waiter close_waiter : Waiter

pub data Rejection (X : Type 0) : Type 0 where
  queue_closed : Rejection X
  abort_error : String → Rejection X
  own_error : String → Rejection X
  handler_error : X → Rejection X
  given : X → Rejection X

pub data Settlement (R X : Type 0) : Type 0 where
  resolved : R → Settlement R X
  rejected : Rejection X → Settlement R X

pub data Event (V R X : Type 0) : Type 0 where
  enqueued : Job V → Event V R X
  started : Job V → (started_at : ℕ) → Event V R X
  completed : Job V → R → Event V R X
  failed : Job V → X → Event V R X
  paused_event resumed drained closed_event : QueueState → Event V R X
  cleared : ℕ → Event V R X

pub data TypeError : Type 0 where
  bad_run_at bad_priority bad_limit : TypeError

-- Immediate jobs share the time 0.
unfoldable pub normalize_run_at : Option Number → Result TypeError ℤ
normalize_run_at none = ok (pos 0)
normalize_run_at (some (finite t)) = ok t
normalize_run_at (some not_finite) = err bad_run_at

unfoldable pub normalize_priority : Option Number → Result TypeError ℤ
normalize_priority none = ok (pos 0)
normalize_priority (some (finite p)) = ok p
normalize_priority (some not_finite) = err bad_priority

-- No limit is infinity.
unfoldable pub normalize_limit : Option Number → Result TypeError (Option ℕ)
normalize_limit none = ok none
normalize_limit (some not_finite) = err bad_limit
normalize_limit (some (finite (negsuc n))) = err bad_limit
normalize_limit (some (finite (pos zero))) = err bad_limit
normalize_limit (some (finite (pos (suc n)))) = ok (some (suc n))

unfoldable pub to_abort_error : {X : Type 0} → AbortReason → Rejection X
to_abort_error (error_object message) = own_error message
to_abort_error (text message) =
    if is_empty message then abort_error "The queue job was aborted." else abort_error message
to_abort_error other = abort_error "The queue job was aborted."

-- The comparison of `insertPending`: earlier, then of higher priority, then enqueued first.
unfoldable pub is_before : {V : Type 0} → Job V → Job V → Bool
is_before a b =
    if lt_int a.run_at b.run_at
    then true
    else if lt_int b.run_at a.run_at
    then false
    else if lt_int b.priority a.priority
    then true
    else if lt_int a.priority b.priority
    then false
    else ltb a.sequence b.sequence
