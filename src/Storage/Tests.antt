-- ===== src/Storage/Tests.antt =====
-- The theorems on the store at concrete inputs, and runs of its methods.
use go_pec.Base.{
  ◌==◌, if◌then◌else◌, Text, utf8, text_eq, index, lookup, insert, ◌+◌, ◌^◌, ◌<◌, ◌≡◌, refl, ◌&&◌,
  none, some, [], ◌∷◌, map, arith,
}
use go_pec.Storage.Defs.{
  new_in_memory_store, local_part, with_recent, open_mailbox, stamped, append_message, add_message,
  get_messages, get_message, delete_message, Message, InMemoryStore,
}
use go_pec.Storage.Uids.{IsValid, assigned_uid, Reach-IsValid, added, Reach, start, next}
use go_pec.Storage.View.{stored, get_message-add_message, get_message-delete_message}
use go_pec.Storage.Recipients.{get_messages-full_address}

abbrev ada : Text
ada = utf8 "ada@pec.it"

abbrev note : Message
note = record {
  seq_num = 0;
  uid = 77;
  size = 3;
  flags = [];
  envelope = none;
  internal_date = none;
  body_structure = none;
}

abbrev one_note : InMemoryStore
one_note = (add_message ada note new_in_memory_store).0

uids-of_two :
    map (λ (m : Message). m.uid) (get_messages (utf8 "ada") (add_message ada note one_note).0)
    ≡ 1 ∷ 2 ∷ []
unfolding add_message append_message open_mailbox stamped with_recent get_messages
    new_in_memory_store local_part index lookup insert text_eq utf8
uids-of_two = refl

room : assigned_uid ada new_in_memory_store + 1 < 2 ^ 32
unfolding open_mailbox new_in_memory_store local_part index lookup insert text_eq utf8
room = omega arith

one_note-Reach : Reach one_note
one_note-Reach = next start (added ada note room)

Reach-IsValid_example : IsValid one_note
Reach-IsValid_example = Reach-IsValid one_note-Reach

get_message-add_message_example : get_message (utf8 "ada") 2 (add_message ada note one_note).0 ≡ (
    if text_eq (local_part ada) (utf8 "ada") && assigned_uid ada one_note == 2
    then some (stored ada note one_note)
    else get_message (utf8 "ada") 2 one_note)
get_message-add_message_example =
    get_message-add_message (utf8 "ada") ada 2 note one_note (Reach-IsValid one_note-Reach)

get_message-delete_message_example :
    get_message (utf8 "ada") 1 (delete_message (utf8 "ada") 1 one_note) ≡ (
      if text_eq (utf8 "ada") (utf8 "ada") && 1 == 1
      then none
      else get_message (utf8 "ada") 1 one_note)
get_message-delete_message_example =
    get_message-delete_message (utf8 "ada") (utf8 "ada") 1 1 one_note (Reach-IsValid one_note-Reach)

index-ada : index ada b'@' ≡ some 3
unfolding index utf8
index-ada = refl

get_messages-full_address_example :
    get_messages ada (add_message ada note one_note).0 ≡ get_messages ada one_note
get_messages-full_address_example = get_messages-full_address ada ada 2 note one_note index-ada

local_part-bob : local_part (utf8 "bob") ≡ utf8 "bob"
unfolding local_part index utf8
local_part-bob = refl

fresh-bob : lookup (utf8 "bob") new_in_memory_store.next_uid ≡ none
unfolding new_in_memory_store lookup
fresh-bob = refl
