-- ===== src/Events/Stream.antt =====
-- packages/core/src/events/stream.ts. An `emit` and a `subscribe` are suspended at each call of a
-- listener: a suspended one is a Task, which goes on when the listener has settled. What a listener
-- does with the stream before that is further steps. JavaScript's `Map` is iterated live: a
-- listener has a slot that grows with each insertion, and an iterator is the first slot that it
-- has not passed. The history is iterated live by index.
use generic_ai.Base.{
  ℕ, zero, suc, ◌-◌, max, String, Bool, true, false, ◌&&◌, Option, none, some, List, [], ◌∷◌, ◌++◌,
  length, drop, keep_if, contains, if◌then◌else◌, leb, ltb, eqb, not, same_text,
}
use generic_ai.Base.Text.{is_empty}
use generic_ai.Base.Exec.{Result, ok, err}
use generic_ai.Events.Taxonomy.{
  family_text, namespace_text, Event, EventInput, event_family, create_event,
}

pub record Filter (V : Type 0) : Type 0 where
  pub names : Option (List String)
  pub families : Option (List String)
  pub namespaces : Option (List String)
  pub plugin_id : Option String
  pub from_sequence : Option ℕ
  pub predicate : Option (Event V → Bool)

-- An entry of `listeners`, under the id `subscription-${subscription}`.
pub record Listener (V : Type 0) : Type 0 where
  pub subscription : ℕ
  pub slot : ℕ
  pub filter : Option (Filter V)

-- A suspended call: an event on its way, with the iterator and the subscription that is awaited; or
-- a subscription that replays, with the index it comes to next and the event that is awaited.
pub data Task (V : Type 0) : Type 0 where
  notifying : Event V → ℕ → ℕ → Task V
  replaying : ℕ → Option (Filter V) → ℕ → Event V → Task V

pub data StreamError : Type 0 where
  closed_emit closed_subscribe : StreamError

-- `calls` are the calls of listeners so far, the latest first, and `errors` those of
-- `onSubscriberError`.
pub record Stream (V X : Type 0) : Type 0 where
  pub history : List (Event V)
  pub listeners : List (Listener V)
  pub closed : Bool
  pub next_sequence : ℕ
  pub next_subscription : ℕ
  pub next_slot : ℕ
  pub tasks : List (Task V)
  pub calls : List (ℕ × Event V)
  pub errors : List (X × Event V × ℕ)
  pub events_made : ℕ

abbrev pub create_stream : {V X : Type 0} → Stream V X
create_stream = record {
  history = [];
  listeners = [];
  closed = false;
  next_sequence = 1;
  next_subscription = 1;
  next_slot = 0;
  tasks = [];
  calls = [];
  errors = [];
  events_made = 0;
}

-- A test of an optional part of a filter.
abbrev absent_or : {A : Type 0} → Option A → (A → Bool) → Bool
absent_or none p = true
absent_or (some a) p = p a

abbrev in_families : String → List String → Bool
in_families name families = elim (event_family name) [
  | none ↦ false
  | some f ↦ contains families (family_text f)
]

-- The number that `emit` hands over: the input's, but at least the next one.
abbrev pub requested : Option ℕ → ℕ → ℕ
requested none next = next
requested (some n) next = if ltb 0 n then max n next else next

module _ {V : Type 0} where
  unfoldable pub passes : Event V → Filter V → Bool
  unfolding event_family
  passes event filter =
      absent_or filter.from_sequence (λ n. leb n event.sequence)
      && absent_or filter.names (λ names. contains names event.name)
      && absent_or filter.namespaces
          (λ namespaces. contains namespaces (namespace_text event.origin.namespace))
      && absent_or filter.families (in_families event.name)
      && absent_or filter.plugin_id
          (λ id. if is_empty id then true else same_text event.origin.plugin_id id)
      && absent_or filter.predicate (λ p. p event)

  unfoldable pub matches_filter : Event V → Option (Filter V) → Bool
  unfolding passes
  matches_filter event none = true
  matches_filter event (some filter) = passes event filter

  -- `history.splice(0, history.length - limit)`
  abbrev pub limited : Option ℕ → List (Event V) → List (Event V)
  limited none events = events
  limited (some limit) events =
      if ltb limit (length events) then drop (length events - limit) events else events

  -- The task at a place, and the others.
  abbrev pub take_at : ℕ → List (Task V) → Option (Task V × List (Task V))
  take_at n [] = none
  take_at zero (t ∷ ts) = some (t, ts)
  take_at (suc n) (t ∷ ts) = elim (take_at n ts) [
    | none ↦ none
    | some (found, others) ↦ some (found, t ∷ others)
  ]

abbrev pub is_other : {V : Type 0} → ℕ → Listener V → Bool
is_other id l = not (eqb l.subscription id)

module _ {V X : Type 0} where
  -- The rest of the loop of `notify`, up to the next call of a listener.
  unfoldable pub notify_from : Event V → ℕ → List (Listener V) → Stream V X → Stream V X
  unfolding matches_filter
  notify_from event k [] s = s
  notify_from event k (l ∷ ls) s =
      let rest = notify_from event k ls s in
      if leb k l.slot && matches_filter event l.filter
      then record s {
        tasks = notifying event (suc l.slot) l.subscription ∷ s.tasks;
        calls = (l.subscription, event) ∷ s.calls;
      }
      else rest

  -- The rest of the replay of `subscribe`: `events` is the history from index `i` on. After it the
  -- listener is live.
  unfoldable pub replay_from : ℕ → Option (Filter V) → ℕ → List (Event V) → Stream V X → Stream V X
  unfolding matches_filter
  replay_from id filter i [] s = record s {
    listeners =
        s.listeners ++ record { subscription = id; slot = s.next_slot; filter = filter } ∷ [];
    next_slot = suc s.next_slot;
  }
  replay_from id filter i (event ∷ events) s =
      let rest = replay_from id filter (suc i) events s in
      if matches_filter event filter
      then record s {
        tasks = replaying id filter (suc i) event ∷ s.tasks;
        calls = (id, event) ∷ s.calls;
      }
      else rest

  -- What a task does when the listener has settled.
  unfoldable pub proceed : Task V → Stream V X → Stream V X
  unfolding notify_from replay_from
  proceed (notifying event k id) s = notify_from event k s.listeners s
  proceed (replaying id filter i event) s = replay_from id filter i (drop i s.history) s

  -- The `catch` round the call of a listener.
  abbrev pub report : Task V → Result X (Unit {0}) → Stream V X → Stream V X
  report task (ok done) s = s
  report (notifying event k id) (err x) s = record s { errors = s.errors ++ (x, event, id) ∷ [] }
  report (replaying id filter i event) (err x) s = record s {
    errors = s.errors ++ (x, event, id) ∷ [];
  }

  -- The listener that the task at place `n` awaits has settled.
  unfoldable pub settle : ℕ → Result X (Unit {0}) → Stream V X → Stream V X
  unfolding proceed
  settle n outcome s = elim (take_at n s.tasks) [
    | none ↦ s
    | some (task, others) ↦ proceed task (report task outcome (record s { tasks = others }))
  ]

  -- `subscription.close()`
  unfoldable pub close_subscription : ℕ → Stream V X → Stream V X
  close_subscription id s = record s { listeners = keep_if (is_other id) s.listeners }

  unfoldable pub close : Stream V X → Stream V X
  close s = record s { closed = true; listeners = [] }

  unfoldable pub snapshot : Option ℕ → Stream V X → List (Event V)
  snapshot none s = s.history
  snapshot (some n) s = keep_if (λ event. leb n event.sequence) s.history

  -- Up to the first suspension: a subscription gets its id at once.
  unfoldable pub subscribe : Option (Filter V) → Stream V X → Result StreamError ℕ × Stream V X
  unfolding replay_from
  subscribe filter s = if s.closed then (err closed_subscribe, s) else (
    ok s.next_subscription,
    replay_from s.next_subscription filter 0 s.history
        (record s { next_subscription = suc s.next_subscription }),
  )

module _ {V X : Type 0} (limit : Option ℕ) (fresh_id now : ℕ → String) where
  -- What `emit` makes of its input.
  abbrev pub sealed : EventInput V → Stream V X → Event V
  sealed input s =
      create_event (fresh_id s.events_made) (now s.events_made)
        (some (requested input.sequence s.next_sequence)) input

  -- `nextSequence = …; store(…);`
  abbrev pub stored : Event V → Stream V X → Stream V X
  stored event s = record s {
    next_sequence = suc event.sequence;
    events_made = suc s.events_made;
    history = limited limit (s.history ++ event ∷ []);
  }

  -- Up to the first suspension; the event is what the promise resolves to.
  unfoldable pub emit : EventInput V → Stream V X → Result StreamError (Event V) × Stream V X
  unfolding notify_from create_event
  emit input s = if s.closed then (err closed_emit, s) else (
    ok (sealed input s),
    notify_from (sealed input s) 0 s.listeners (stored (sealed input s) s),
  )

-- A call of the stream, or a listener that settles.
pub data Call (V X : Type 0) : Type 0 where
  emits : EventInput V → Call V X
  subscribes : Option (Filter V) → Call V X
  settles : ℕ → Result X (Unit {0}) → Call V X
  unsubscribes : ℕ → Call V X
  closes : Call V X

module _ {V X : Type 0} (limit : Option ℕ) (fresh_id now : ℕ → String) where
  unfoldable pub step : Call V X → Stream V X → Stream V X
  unfolding emit subscribe settle close_subscription close
  step (emits input) s = (emit limit fresh_id now input s).1
  step (subscribes filter) s = (subscribe filter s).1
  step (settles n outcome) s = settle n outcome s
  step (unsubscribes id) s = close_subscription id s
  step closes s = close s

  unfoldable pub run : List (Call V X) → Stream V X → Stream V X
  unfolding step
  run [] s = s
  run (c ∷ cs) s = run cs (step c s)
