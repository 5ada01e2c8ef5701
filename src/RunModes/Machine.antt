-- ===== src/RunModes/Machine.antt =====
-- packages/core/src/run-modes/session-machine.ts. A session is an object, known by its number; the
-- sessions stand in a list, the latest first, so that a parent stands behind its children. An
-- observer is a number too; it may throw, and leaves the sessions alone.
use generic_ai.Base.{
  ℕ, suc, String, Bool, true, false, not, ◌||◌, Option, none, some, List, [], ◌∷◌, ◌++◌, keep_if,
  if◌then◌else◌, eqb, get_or, or_else,
}
use generic_ai.Base.Exec.{Result, ok, err}

pub data RunModeKind : Type 0 where
  sync async : RunModeKind

pub data RunSessionState : Type 0 where
  idle running succeeded failed cancelled : RunSessionState

-- What a call may throw: the refusals of `transition`, the error of an observer, or that of
-- the task of a run.
pub data RunError (X : Type 0) : Type 0 where
  already_running cannot_cancel not_running unsupported : String → RunError X
  observer_error task_error : X → RunError X
  no_session : ℕ → RunError X

-- What an event carries: the result of a task, an error, a reason, the parent of a new child, or
-- what the caller of `emit` gives.
pub data Detail (T X : Type 0) : Type 0 where
  absent : Detail T X
  result : T → Detail T X
  error : RunError X → Detail T X
  reason : Option String → Detail T X
  child_of : String → Detail T X
  custom : T → Detail T X

pub record RunEvent (T X : Type 0) : Type 0 where
  pub kind : String
  pub session_id : String
  pub parent_session_id : Option String
  pub mode : RunModeKind
  pub depth : ℕ
  pub timestamp : ℕ
  pub detail : Detail T X

-- A session: `parent` is the parent object, `parent_id` its id.
pub record RunSession : Type 0 where
  pub key : ℕ
  pub id : String
  pub parent : Option ℕ
  pub parent_id : Option String
  pub mode : RunModeKind
  pub depth : ℕ
  pub state : RunSessionState
  pub observers : List ℕ
  pub children : List ℕ

pub record Seed : Type 0 where
  pub id : Option String
  pub mode : Option RunModeKind

-- `heard` are the calls of observers, the latest first.
pub record Machine (T X : Type 0) : Type 0 where
  pub sessions : List RunSession
  pub next_key : ℕ
  pub ids_made : ℕ
  pub clock_reads : ℕ
  pub heard : List (ℕ × RunEvent T X)

abbrev pub create_machine : {T X : Type 0} → Machine T X
create_machine = record { sessions = []; next_key = 0; ids_made = 0; clock_reads = 0; heard = [] }

-- The session with a number.
unfoldable pub find : ℕ → List RunSession → Option RunSession
find n [] = none
find n (s ∷ ss) = if eqb s.key n then some s else find n ss

-- A change of the session with a number.
unfoldable pub change : ℕ → (RunSession → RunSession) → List RunSession → List RunSession
change n f [] = []
change n f (s ∷ ss) = (if eqb s.key n then f s else s) ∷ change n f ss

abbrev pub with_state : RunSessionState → RunSession → RunSession
with_state state s = record s { state = state }

abbrev is_other : ℕ → ℕ → Bool
is_other o p = not (eqb o p)

abbrev includes : ℕ → List ℕ → Bool
includes o [] = false
includes o (p ∷ ps) = eqb p o || includes o ps

-- `observers.add(o)` and `observers.delete(o)` on a `Set`
abbrev pub with_observer : ℕ → RunSession → RunSession
with_observer o s = record s {
  observers = if includes o s.observers then s.observers else s.observers ++ o ∷ [];
}

abbrev pub without_observer : ℕ → RunSession → RunSession
without_observer o s = record s { observers = keep_if (is_other o) s.observers }

abbrev pub with_child : ℕ → RunSession → RunSession
with_child c s = record s { children = s.children ++ c ∷ [] }

abbrev pub event_of : {T X : Type 0} → String → RunSession → Detail T X → ℕ → RunEvent T X
event_of kind s detail time = record {
  kind = kind;
  session_id = s.id;
  parent_session_id = s.parent_id;
  mode = s.mode;
  depth = s.depth;
  timestamp = time;
  detail = detail;
}

abbrev is_idle : RunSessionState → Bool
is_idle idle = true
is_idle _ = false

abbrev is_running : RunSessionState → Bool
is_running running = true
is_running _ = false

-- The guards of `transition`, by the next state: the error, if there is one.
abbrev pub refusal : {X : Type 0} → String → RunSessionState → RunSessionState → Option (RunError X)
refusal id state idle = some (unsupported id)
refusal id state running = if is_idle state then none else some (already_running id)
refusal id state cancelled =
    if is_idle state || is_running state then none else some (cannot_cancel id)
refusal id state succeeded = if is_running state then none else some (not_running id)
refusal id state failed = if is_running state then none else some (not_running id)

module _ {T X : Type 0} (throws : ℕ → RunEvent T X → Option X) where
  -- The loop over the observers of a session; one that throws ends it.
  unfoldable pub tell :
      List ℕ
      → RunEvent T X
      → List (ℕ × RunEvent T X)
      → Result (RunError X) (Unit {0}) × List (ℕ × RunEvent T X)
  tell [] event heard = (ok tt, heard)
  tell (o ∷ os) event heard = elim (throws o event) [
    | some x ↦ (err (observer_error x), (o, event) ∷ heard)
    | none ↦ tell os event ((o, event) ∷ heard)
  ]

  -- `parent?.notify(event)` behind the own observers.
  abbrev pub to_parent :
      (ℕ → List (ℕ × RunEvent T X) → Result (RunError X) (Unit {0}) × List (ℕ × RunEvent T X))
      → Option ℕ
      → Result (RunError X) (Unit {0}) × List (ℕ × RunEvent T X)
      → Result (RunError X) (Unit {0}) × List (ℕ × RunEvent T X)
  to_parent above parent (err e, heard) = (err e, heard)
  to_parent above none (ok done, heard) = (ok tt, heard)
  to_parent above (some p) (ok done, heard) = above p heard

  -- `notify` of the session with a number; its parent stands behind it.
  unfoldable pub notify :
      List RunSession
      → RunEvent T X
      → ℕ
      → List (ℕ × RunEvent T X)
      → Result (RunError X) (Unit {0}) × List (ℕ × RunEvent T X)
  unfolding tell
  notify [] event n heard = (ok tt, heard)
  notify (s ∷ older) event n heard =
      let further = notify older event n heard in
      if eqb s.key n
      then to_parent (notify older event) s.parent (tell s.observers event heard)
      else further

  abbrev pub after_notify :
      Machine T X
      → Result (RunError X) (Unit {0}) × List (ℕ × RunEvent T X)
      → Result (RunError X) (Unit {0}) × Machine T X
  after_notify m (r, heard) = (r, record m { heard = heard })

module _ {T X : Type 0} (throws : ℕ → RunEvent T X → Option X) (now : ℕ → ℕ) where
  -- `session.notify(createEvent(…))` for a session that tells of another or of itself.
  unfoldable pub announce :
      ℕ
      → String
      → RunSession
      → Detail T X
      → Machine T X
      → Result (RunError X) (Unit {0}) × Machine T X
  unfolding notify
  announce n kind s detail m =
      after_notify throws (record m { clock_reads = suc m.clock_reads })
        (notify throws m.sessions (event_of kind s detail (now m.clock_reads)) n m.heard)

  unfoldable pub transition :
      ℕ
      → RunSessionState
      → String
      → Detail T X
      → Machine T X
      → Result (RunError X) (Unit {0}) × Machine T X
  unfolding find change announce
  transition n next kind detail m = elim (find n m.sessions) [
    | none ↦ (err (no_session n), m)
    | some s ↦ elim (refusal s.id s.state next) [
      | some e ↦ (err e, m)
      | none ↦
          announce n kind s detail (record m { sessions = change n (with_state next) m.sessions })
    ]
  ]

  unfoldable pub start : ℕ → Machine T X → Result (RunError X) (Unit {0}) × Machine T X
  unfolding transition
  start n m = transition n running "session-started" absent m

  unfoldable pub succeed :
      ℕ → Detail T X → Machine T X → Result (RunError X) (Unit {0}) × Machine T X
  unfolding transition
  succeed n detail m = transition n succeeded "session-succeeded" detail m

  unfoldable pub fail : ℕ → Detail T X → Machine T X → Result (RunError X) (Unit {0}) × Machine T X
  unfolding transition
  fail n detail m = transition n failed "session-failed" detail m

  unfoldable pub cancel :
      ℕ → Option String → Machine T X → Result (RunError X) (Unit {0}) × Machine T X
  unfolding transition
  cancel n why m = transition n cancelled "session-cancelled" (reason why) m

  unfoldable pub emit :
      ℕ → String → Detail T X → Machine T X → Result (RunError X) (Unit {0}) × Machine T X
  unfolding find announce
  emit n kind detail m = elim (find n m.sessions) [
    | none ↦ (err (no_session n), m)
    | some s ↦ announce n kind s detail m
  ]

  unfoldable pub observe : ℕ → ℕ → Machine T X → Machine T X
  unfolding change
  observe n o m = record m { sessions = change n (with_observer o) m.sessions }

  unfoldable pub stop_observing : ℕ → ℕ → Machine T X → Machine T X
  unfolding change
  stop_observing n o m = record m { sessions = change n (without_observer o) m.sessions }

module _ {T X : Type 0} (throws : ℕ → RunEvent T X → Option X) (now : ℕ → ℕ)
    (create_id : ℕ → String) where
  -- The new session of `buildSession`.
  abbrev pub built : Option RunSession → Seed → Machine T X → RunSession
  built parent seed m = record {
    key = m.next_key;
    id = get_or seed.id (create_id m.ids_made);
    parent = elim parent [ none ↦ none | some p ↦ some p.key ];
    parent_id = elim parent [ none ↦ none | some p ↦ some p.id ];
    mode = get_or (or_else seed.mode (elim parent [ none ↦ none | some p ↦ some p.mode ])) sync;
    depth = elim parent [ none ↦ 0 | some p ↦ suc p.depth ];
    state = idle;
    observers = [];
    children = [];
  }

  abbrev pub with_built : RunSession → Seed → Machine T X → Machine T X
  with_built s seed m = record m {
    sessions = s ∷ m.sessions;
    next_key = suc m.next_key;
    ids_made = elim seed.id [ none ↦ suc m.ids_made | some id ↦ m.ids_made ];
  }

  unfoldable pub build_session :
      Option RunSession → Seed → Machine T X → Result (RunError X) (Unit {0}) × Machine T X
  unfolding announce
  build_session parent seed m =
      announce throws now m.next_key "session-created" (built parent seed m) absent
        (with_built (built parent seed m) seed m)

  unfoldable pub create_root_session :
      Seed → Machine T X → Result (RunError X) (Unit {0}) × Machine T X
  unfolding build_session
  create_root_session seed m = build_session none seed m

  -- `children.push(child); session.notify(…);` behind the building of the child.
  abbrev pub adopt :
      RunSession
      → RunSession
      → Result (RunError X) (Unit {0}) × Machine T X
      → Result (RunError X) (Unit {0}) × Machine T X
  adopt parent child (err e, m) = (err e, m)
  adopt parent child (ok done, m) =
      announce throws now parent.key "session-child-created"
        (record child { parent_id = some parent.id }) (child_of parent.id)
        (record m { sessions = change parent.key (with_child child.key) m.sessions })

  unfoldable pub create_child :
      ℕ → Seed → Machine T X → Result (RunError X) (Unit {0}) × Machine T X
  unfolding find build_session change announce
  create_child n seed m = elim (find n m.sessions) [
    | none ↦ (err (no_session n), m)
    | some parent ↦ adopt parent (built (some parent) seed m) (build_session (some parent) seed m)
  ]
