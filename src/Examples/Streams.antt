-- ===== src/Examples/Streams.antt =====
-- Event streams with few events, and what happens when calls meet.
use generic_ai.Base.{ℕ, String, ◌≡◌, refl, inl, none, some, List, [], ◌∷◌, map}
use generic_ai.Base.Exec.{ok}
use generic_ai.Events.Taxonomy.{Context, Event, EventInput, event_family, Family, Namespace}
use generic_ai.Events.Stream.{Listener, create_stream, Call, emits, subscribes, settles, run}
use generic_ai.Events.Numbering.{IsNumbered, history-IsNumbered}
use generic_ai.Events.Handing.{Handed}
use generic_ai.Events.Delivery.{run-Handed}

abbrev here : Context
here = record {
  scope_id = "scope";
  run_id = "run";
  root_session_id = "root";
  session_id = "root";
  parent_session_id = none;
  delegation_id = none;
}

abbrev started : EventInput String
started = record {
  event_id = none;
  sequence = none;
  occurred_at = none;
  name = "run.started";
  context = here;
  origin = none;
  payload = none;
}

abbrev numbered_one : EventInput String
numbered_one = record started { sequence = some 1 }

abbrev id_source : ℕ → String
id_source n = "id"

abbrev clock : ℕ → String
clock n = "now"

abbrev late_subscriber : List (Call String String)
late_subscriber =
    subscribes none
    ∷ emits started
    ∷ subscribes none
    ∷ settles 0 (ok tt)
    ∷ settles 0 (ok tt)
    ∷ settles 0 (ok tt)
    ∷ []

family_of_start : event_family "run.started" ≡ some Family.run
unfolding event_family
family_of_start = refl

family_of_plugin : event_family "plugin.files.read" ≡ some Family.plugin
unfolding event_family
family_of_plugin = refl

-- A subscriber that joins while an event is on its way gets it twice: from the history, and live.
late_subscriber_calls :
    map (λ c. c.0) (run none id_source clock late_subscriber create_stream).calls ≡ 2 ∷ 2 ∷ 1 ∷ []
unfolding run
late_subscriber_calls = refl

abbrev two_then_one : List (Call String String)
two_then_one = emits started ∷ emits started ∷ emits numbered_one ∷ []

-- An own number below the next one is taken as it is.
number_given_twice :
    map (λ e. e.sequence) (run none id_source clock two_then_one create_stream).history
    ≡ 1 ∷ 2 ∷ 1 ∷ []
unfolding run
number_given_twice = refl

abbrev plain_calls : List (Call String String)
plain_calls = subscribes none ∷ emits started ∷ emits started ∷ emits started ∷ []

kept_two :
    map (λ e. e.sequence) (run (some 2) id_source clock plain_calls create_stream).history
    ≡ 2 ∷ 3 ∷ []
unfolding run
kept_two = refl

history-IsNumbered_example :
    IsNumbered
      (some 2)
      (run (some 2) id_source clock plain_calls create_stream).history
      (run (some 2) id_source clock plain_calls create_stream).next_sequence
history-IsNumbered_example =
    history-IsNumbered (some 2) id_source clock plain_calls (tt, (refl, (refl, (refl, tt))))

abbrev first_listener : Listener String
first_listener = record { subscription = 1; slot = 0; filter = none }

abbrev first_event : Event String
first_event = record {
  event_id = "id";
  sequence = 1;
  occurred_at = "now";
  name = "run.started";
  context = here;
  origin = record { namespace = Namespace.core; plugin_id = none; subsystem = none };
  payload = [];
}

run-Handed_example :
    Handed
      (run none id_source clock plain_calls create_stream).calls
      (run none id_source clock plain_calls create_stream).tasks
      first_listener
      first_event
unfolding run
run-Handed_example =
    run-Handed id_source clock plain_calls first_listener first_event (inl refl) (inl refl) refl
