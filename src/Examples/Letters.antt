-- ===== src/Examples/Letters.antt =====
-- Messages between agents in a store that is a map.
use generic_ai.Base.{ℕ, ◌+◌, String, ◌≡◌, refl, true, false, Option, none, some, List, [], ◌∷◌, map}
use generic_ai.Base.Dict.{lookup, set}
use generic_ai.Base.Text.{trim}
use generic_ai.Base.Exec.{err}
use generic_ai.Messaging.{
  Message, SendInput, Messaging, already_exists, default_thread_id, send, inbox,
}
use generic_ai.Messaging.Store.{MapStore, map_store, map_store-IsStore, content-empty}
use generic_ai.Messaging.Inbox.{Op, sends, marks, steps, IsKeyed, Shows, Sent, inbox-Shows}

abbrev letter : String → String → String → SendInput String
letter id from to = record {
  id = some id;
  thread_id = none;
  from = from;
  to = to;
  subject = none;
  body = "text";
  metadata = none;
}

abbrev ids : ℕ → String
ids n = "id"

abbrev clock : ℕ → Option ℕ
clock n = some (100 + n)

empty : Messaging (MapStore (Message String))
empty = record { store = ([], tt); ids_made = 0; clock_reads = 0 }

abbrev post : List (Op String)
post =
    sends (letter "m1" "ann" "bob")
    ∷ sends (letter "m2" "eve" "bob")
    ∷ sends (letter "m3" "bob" "ann")
    ∷ marks "m1"
    ∷ []

abbrev ids_of : List (Message String) → List String
ids_of = map (λ m. m.id)

latest_first :
    ids_of (
      inbox map_store ids clock "bob" false none
        (steps map_store map_store-IsStore ids clock post empty))
    ≡ "m2" ∷ "m1" ∷ []
unfolding inbox steps empty lookup set trim
latest_first = refl

unread_only :
    ids_of (
      inbox map_store ids clock "bob" true none
        (steps map_store map_store-IsStore ids clock post empty))
    ≡ "m2" ∷ []
unfolding inbox steps empty lookup set trim
unread_only = refl

both_ways_one_thread : default_thread_id "bob" "ann" ≡ default_thread_id "ann" "bob"
unfolding default_thread_id
both_ways_one_thread = refl

id_taken :
    (send map_store ids clock
      (letter "m1" "x" "y")
      (steps map_store map_store-IsStore ids clock post empty)).0
    ≡ err (already_exists "m1")
unfolding send steps empty lookup set trim
id_taken = refl

empty-IsKeyed : IsKeyed map_store map_store-IsStore ids clock empty.store
unfolding empty
empty-IsKeyed n m e = cc (e, content-empty {V = Message String} n)

trimmed_id_is_taken :
    (send map_store ids clock
      (letter " m1 " "x" "y")
      (steps map_store map_store-IsStore ids clock post empty)).0
    ≡ err (already_exists " m1 ")
unfolding send steps empty lookup set trim
trimmed_id_is_taken = refl

inbox-Shows_example :
    Shows map_store map_store-IsStore ids clock
      (steps map_store map_store-IsStore ids clock post empty)
      "bob"
      true
      (inbox map_store ids clock "bob" true none
        (steps map_store map_store-IsStore ids clock post empty))
    × Sent map_store map_store-IsStore ids clock
        (letter "m4" "ann" "eve")
        (steps map_store map_store-IsStore ids clock post empty)
        (send map_store ids clock
          (letter "m4" "ann" "eve")
          (steps map_store map_store-IsStore ids clock post empty))
inbox-Shows_example =
    inbox-Shows map_store map_store-IsStore ids clock empty empty-IsKeyed post "bob" true
      (letter "m4" "ann" "eve")
