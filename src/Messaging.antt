-- ===== src/Messaging.antt =====
-- packages/plugin-messaging/src/index.ts: the messages of agents in a namespace of a store. The store
-- is a parameter: its four operations, of which those with a key may throw, and in Store what they
-- promise each other. A time is a number
-- of milliseconds; ISO texts of times are in the order of the times.
pub mod Store
pub mod Sorting
pub mod Inbox
use Prim.Native.Char.{Char, code}
use Prim.Native.String
use generic_ai.Base.{
  ℕ, suc, String, Bool, true, false, not, ◌&&◌, ◌||◌, Option, none, some, List, [], ◌∷◌, length,
  if◌then◌else◌, get_or, keep_if, map, take, leb, ltb, ◌==◌, is_some, same_text,
}
use generic_ai.Base.Dict.{Dict}
use generic_ai.Base.Exec.{Result, ok, err}

pub record NamespaceStore (S V : Type 0) : Type 0 where
  pub get : String → S → Result String (Option V)
  pub set : String → V → S → Result String S
  pub delete : String → S → Result String (Bool × S)
  pub list : S → List (String × V)

pub record Message (J : Type 0) : Type 0 where
  pub id : String
  pub thread_id : String
  pub from : String
  pub to : String
  pub subject : Option String
  pub body : String
  pub created_at : ℕ
  pub read_at : Option ℕ
  pub metadata : Dict J

pub record SendInput (J : Type 0) : Type 0 where
  pub id : Option String
  pub thread_id : Option String
  pub from : String
  pub to : String
  pub subject : Option String
  pub body : String
  pub metadata : Option (Dict J)

pub data MessagingError : Type 0 where
  already_exists : String → MessagingError
  invalid_time : MessagingError
  store_error : String → MessagingError

pub record Messaging (S : Type 0) : Type 0 where
  pub store : S
  pub ids_made : ℕ
  pub clock_reads : ℕ

-- The order of `sort()` on texts.
abbrev text_le : String → String → Bool
text_le String.[] t = true
text_le (String.◌∷◌ c s) String.[] = false
text_le (String.◌∷◌ c s) (String.◌∷◌ d t) =
    let rest = text_le s t in
    if ltb (code c) (code d) then true else (if ltb (code d) (code c) then false else rest)

unfoldable pub default_thread_id : String → String → String
default_thread_id from to =
    if text_le from to
    then String.◌++◌ from (String.◌++◌ "::" to)
    else String.◌++◌ to (String.◌++◌ "::" from)

module _ {J : Type 0} where
  -- The left message may stand before the right one.
  abbrev pub ascending : Message J → Message J → Bool
  ascending m n = leb m.created_at n.created_at

  abbrev pub descending : Message J → Message J → Bool
  descending m n = leb n.created_at m.created_at

  unfoldable pub insert :
      (Message J → Message J → Bool) → Message J → List (Message J) → List (Message J)
  insert before m [] = m ∷ []
  insert before m (n ∷ ns) =
      let rest = insert before m ns in if before m n then m ∷ n ∷ ns else n ∷ rest

  -- `[...messages].sort(…)`, which is stable
  unfoldable pub sort_messages :
      (Message J → Message J → Bool) → List (Message J) → List (Message J)
  unfolding insert
  sort_messages before [] = []
  sort_messages before (m ∷ ms) = insert before m (sort_messages before ms)

  abbrev pub in_inbox : String → Bool → Message J → Bool
  in_inbox agent unread_only m = m.to == agent && not (unread_only && is_some m.read_at)

  abbrev pub in_thread : String → Message J → Bool
  in_thread id m = m.thread_id == id

  -- Whether `clear` removes a message.
  abbrev pub is_cleared : Option String → Message J → Bool
  is_cleared none m = true
  is_cleared (some agent) m = m.from == agent || m.to == agent

  abbrev pub message_of : SendInput J → String → ℕ → Message J
  message_of input id time = record {
    id = id;
    thread_id = get_or input.thread_id (default_thread_id input.from input.to);
    from = input.from;
    to = input.to;
    subject = input.subject;
    body = input.body;
    created_at = time;
    read_at = none;
    metadata = get_or input.metadata [];
  }

module _ {S J : Type 0} (store : NamespaceStore S (Message J)) (id_factory : ℕ → String)
    (now : ℕ → Option ℕ) where
  abbrev pub value_of : String × Message J → Message J
  value_of r = r.1

  abbrev pub list_all : Messaging S → List (Message J)
  list_all s = map value_of (store.list s.store)

  abbrev pub get_message : String → Messaging S → Result String (Option (Message J))
  get_message id s = store.get id s.store

  -- A message is stored, or the store throws.
  abbrev pub stored :
      Message J → Messaging S → Result String S → Result MessagingError (Message J) × Messaging S
  stored m s (err e) = (err (store_error e), s)
  stored m s (ok d) = (ok m, record s { store = d })

  -- What is stored under its id at the time that the clock gives, if that is a time.
  abbrev pub stamp :
      (ℕ → Message J) → Messaging S → Option ℕ → Result MessagingError (Message J) × Messaging S
  stamp make s none = (err invalid_time, record s { clock_reads = suc s.clock_reads })
  stamp make s (some time) =
      let m = make time in
      stored m (record s { clock_reads = suc s.clock_reads }) (store.set m.id m s.store)

  abbrev pub id_for : SendInput J → Messaging S → String
  id_for input s = get_or input.id (id_factory s.ids_made)

  abbrev pub with_id : SendInput J → Messaging S → Messaging S
  with_id input s = record s {
    ids_made = elim input.id [ none ↦ suc s.ids_made | some id ↦ s.ids_made ];
  }

  unfoldable pub send : SendInput J → Messaging S → Result MessagingError (Message J) × Messaging S
  unfolding default_thread_id
  send input s = elim (store.get (id_for input s) s.store) [
    | err e ↦ (err (store_error e), with_id input s)
    | ok (some m) ↦ (err (already_exists (id_for input s)), with_id input s)
    | ok none ↦ stamp (message_of input (id_for input s)) (with_id input s) (now s.clock_reads)
  ]

  -- The messages to an agent, the latest first; at most `limit` if there is one.
  unfoldable pub inbox : String → Bool → Option ℕ → Messaging S → List (Message J)
  unfolding sort_messages
  inbox agent unread_only limit s =
      let ms = keep_if (in_inbox agent unread_only) (list_all s) in
      take (get_or limit (length ms)) (sort_messages descending ms)

  unfoldable pub thread : String → Messaging S → List (Message J)
  unfolding sort_messages
  thread id s = sort_messages ascending (keep_if (in_thread id) (list_all s))

  abbrev pub marked :
      Result MessagingError (Message J) × Messaging S
      → Result MessagingError (Option (Message J)) × Messaging S
  marked (ok m, s) = (ok (some m), s)
  marked (err e, s) = (err e, s)

  unfoldable pub mark_read :
      String → Messaging S → Result MessagingError (Option (Message J)) × Messaging S
  mark_read id s = elim (store.get id s.store) [
    | err e ↦ (err (store_error e), s)
    | ok none ↦ (ok none, s)
    | ok (some m) ↦ marked (stamp (λ time. record m { read_at = some time }) s (now s.clock_reads))
  ]

  -- The rest of the loop of `clear`, unless the store has thrown.
  abbrev pub after_delete :
      (S → Result MessagingError (Unit {0}) × S)
      → S
      → Result String (Bool × S)
      → Result MessagingError (Unit {0}) × S
  after_delete rest s (err e) = (err (store_error e), s)
  after_delete rest s (ok (was_there, t)) = rest t

  unfoldable pub clear_records :
      Option String → List (String × Message J) → S → Result MessagingError (Unit {0}) × S
  clear_records agent [] s = (ok tt, s)
  clear_records agent ((k, m) ∷ rs) s =
      let rest = clear_records agent rs in
      if is_cleared agent m then after_delete rest s (store.delete k s) else rest s

  unfoldable pub clear :
      Option String → Messaging S → Result MessagingError (Unit {0}) × Messaging S
  unfolding clear_records
  clear agent s =
      let (r, d) = clear_records agent (store.list s.store) s.store in (r, record s { store = d })
