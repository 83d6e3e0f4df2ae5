-- ===== src/Storage/Defs.antt =====
-- The state of the store and its methods, and the part of imap.Message that the source uses.
use mathlib.Core.Option
use go_pec.Base.{
  ltb, ◌==◌, if◌then◌else◌, length, take, any, Text, utf8, text_eq, index, Dict, lookup, insert,
  Time, message, Outcome, ok, err, ℕ, ◌+◌, ◌%◌, ◌^◌, Bool, true, false, Option, none, some, List,
  [], ◌∷◌, ◌++◌,
}

-- imap.Envelope; addresses are given by the one field that the source sets, `HostName`.
pub record Envelope : Type 0 where
  pub date : Time
  pub subject : Text
  pub from : List Text
  pub to : List Text

-- imap.Message. The source never sets a body structure, so its value is nil until it does.
pub record Message : Type 0 where
  pub seq_num : ℕ
  pub uid : ℕ
  pub size : ℕ
  pub flags : List Text
  pub envelope : Option Envelope
  pub internal_date : Option Time
  pub body_structure : Option Text

-- A callback is known by the number of the mailbox object that it notifies.
pub record InMemoryStore : Type 0 where
  pub messages : Dict (List Message)
  pub password_hash : Dict Text
  pub next_uid : Dict ℕ
  pub notifiers : Dict ℕ

unfoldable pub new_in_memory_store : InMemoryStore
new_in_memory_store = record { messages = []; password_hash = []; next_uid = []; notifiers = [] }

unfoldable pub register_notifier : Text → ℕ → InMemoryStore → InMemoryStore
register_notifier username notify s = record s { notifiers = insert username notify s.notifiers }

-- Reading a Go map at a missing key gives the zero value.
abbrev pub mailbox : Text → InMemoryStore → List Message
mailbox username s = Option.get_or (lookup username s.messages) []

abbrev pub uid_after : Text → InMemoryStore → ℕ
uid_after username s = Option.get_or (lookup username s.next_uid) 0

-- The part of the address before an "@" that is not its first byte.
unfoldable pub local_part : Text → Text
local_part username = elim (index username b'@') [
  | none ↦ username
  | some i ↦ if ltb 0 i then take i username else username
]

-- imap.RecentFlag
abbrev pub recent_flag : Text
recent_flag = utf8 "\\Recent"

unfoldable pub with_recent : List Text → List Text
with_recent flags =
    if any (λ flag. text_eq flag recent_flag) flags then flags else flags ++ recent_flag ∷ []

-- A mailbox that has no entry yet gets one, with UIDs from 1.
unfoldable pub open_mailbox : Text → InMemoryStore → InMemoryStore
open_mailbox to s = elim (lookup to s.messages) [
  | some _ ↦ s
  | none ↦ record s { messages = insert to [] s.messages; next_uid = insert to 1 s.next_uid }
]

-- The message as the store keeps it: `AddMessage` writes to the caller's object.
unfoldable pub stamped : Text → Message → InMemoryStore → Message
stamped to msg s = record msg {
  uid = uid_after to s;
  seq_num = (length (mailbox to s) + 1) % 2 ^ 32;
  flags = with_recent msg.flags;
}

-- Append to an open mailbox.
unfoldable pub append_message : Text → Message → InMemoryStore → InMemoryStore
append_message to msg s = record s {
  messages = insert to (mailbox to s ++ stamped to msg s ∷ []) s.messages;
  next_uid = insert to ((uid_after to s + 1) % 2 ^ 32) s.next_uid;
}

-- The store afterwards, and the callback that is started.
unfoldable pub add_message : Text → Message → InMemoryStore → InMemoryStore × Option ℕ
add_message username msg s =
    let to = local_part username in
    (append_message to msg (open_mailbox to s), lookup to s.notifiers)

unfoldable pub get_messages : Text → InMemoryStore → List Message
get_messages username s = elim (lookup username s.messages) [ some msgs ↦ msgs | none ↦ [] ]

unfoldable pub find_uid : ℕ → List Message → Option Message
find_uid uid [] = none
find_uid uid (msg ∷ msgs) = if msg.uid == uid then some msg else find_uid uid msgs

unfoldable pub get_message : Text → ℕ → InMemoryStore → Option Message
get_message username uid s = elim (lookup username s.messages) [
  | some msgs ↦ find_uid uid msgs
  | none ↦ none
]

-- The loop of `DeleteMessage`: the first message with the UID goes.
unfoldable pub remove_uid : ℕ → List Message → List Message
remove_uid uid [] = []
remove_uid uid (msg ∷ msgs) = if msg.uid == uid then msgs else msg ∷ remove_uid uid msgs

unfoldable pub delete_message : Text → ℕ → InMemoryStore → InMemoryStore
delete_message username uid s = elim (lookup username s.messages) [
  | some msgs ↦ record s { messages = insert username (remove_uid uid msgs) s.messages }
  | none ↦ s
]

unfoldable pub close : InMemoryStore → InMemoryStore
close s = record s { messages = [] }

unfoldable pub user_exists : Text → InMemoryStore → Bool
user_exists username s = elim (lookup username s.password_hash) [ some _ ↦ true | none ↦ false ]

unfoldable pub create_user_with_password : Text → Text → InMemoryStore → InMemoryStore
create_user_with_password username hash s = record s {
  password_hash = insert username hash s.password_hash;
  messages = insert username [] s.messages;
}

unfoldable pub get_user_password_hash : Text → InMemoryStore → Outcome Text
get_user_password_hash username s = elim (lookup username s.password_hash) [
  | some hash ↦ ok hash
  | none ↦ err (message (utf8 "user not found: " ++ username))
]
