-- ===== src/Imap/Tests.antt =====
-- The theorems on the IMAP backend at concrete inputs, with a bcrypt that keeps the password in
-- clear, and runs of its functions.
use go_pec.Base.{
  ltb, if◌then◌else◌, length, get_elem?, All, Text, utf8, text_eq, index, lookup, insert, message,
  Outcome, ok, err, ◌+◌, ◌%◌, ◌^◌, ◌≤◌, ◌<◌, ◌≡◌, refl, ◌↔◌, true, false, none, some, [], ◌∷◌,
  arith,
}
use go_pec.Base.TextLaws.{text_eq_iff}
use go_pec.Samples.{sample_imap}
use go_pec.Imap.Library.{Bcrypt, fetch_flags, status_messages, status_uid_next}
use go_pec.Storage.{
  new_in_memory_store, local_part, recent_flag, with_recent, open_mailbox, stamped, append_message,
  add_message, get_messages, get_message, remove_uid, delete_message, user_exists, Message,
  InMemoryStore,
}
use go_pec.Storage.Uids.{IsValid, assigned_uid, Reach-IsValid, added, start, next}
use go_pec.Imap.Login.{login}
use go_pec.Imap.Fetch.{
  set_status, set_statuses, status, fetched, list_messages, matches_criteria, search_from,
  search_messages,
}
use go_pec.Imap.Passwords.{login-login, delivered, attempted, Uses, none_yet, one_more}
use go_pec.Imap.Keys.{only}
use go_pec.Imap.Listing.{place, sent, list_messages-get_message, list_messages-search_messages}
use go_pec.Imap.Counts.{status-bounds, first_mail_hidden}
use go_pec.Imap.Server.{inbox}

abbrev clear_compare : Text → Text → Outcome (Unit {0})
clear_compare hash password =
    if text_eq hash password then ok tt else err (message (utf8 "wrong password"))

clear_law :
    (salt password hash : Text)
    → (if ltb 72 (length password) then err (message (utf8 "too long")) else ok password) ≡ ok hash
    → clear_compare hash password ≡ ok tt
clear_law salt password hash e = ground (arith, text_eq_iff hash password)

-- A password of more than 72 bytes is refused.
abbrev clear_bcrypt : Bcrypt
clear_bcrypt = record {
  generate_from_password = λ salt password.
      if ltb 72 (length password) then err (message (utf8 "too long")) else ok password;
  compare_hash_and_password = clear_compare;
  compare-generate = clear_law;
}

abbrev ada : Text
ada = utf8 "ada"

abbrev address : Text
address = utf8 "ada@pec.it"

abbrev salt : Text
salt = utf8 "salt"

abbrev secret : Text
secret = utf8 "secret"

abbrev mail : Message
mail = record {
  seq_num = 0;
  uid = 77;
  size = 3;
  flags = [];
  envelope = none;
  internal_date = none;
  body_structure = none;
}

ada-new : user_exists ada new_in_memory_store ≡ false
unfolding user_exists new_in_memory_store lookup
ada-new = refl

secret-made : clear_bcrypt.generate_from_password salt secret ≡ ok secret
unfolding utf8
secret-made = refl

abbrev signed_up : InMemoryStore
signed_up = (login clear_bcrypt salt ada secret new_in_memory_store).0

-- After a mail and an attempt with another password.
abbrev in_use : InMemoryStore
in_use = (login clear_bcrypt salt ada address (add_message address mail signed_up).0).0

in_use-Uses : Uses clear_bcrypt signed_up in_use
in_use-Uses = one_more (one_more none_yet (delivered address mail)) (attempted salt ada address)

login-login_example :
    (login clear_bcrypt salt ada secret in_use ≡ (in_use, ok (record { username = ada })))
    × ((login clear_bcrypt salt ada address in_use).0 ≡ in_use)
    × (((login clear_bcrypt salt ada address in_use).1 ≡ ok (record { username = ada }))
        ↔ (clear_compare secret address ≡ ok tt))
login-login_example =
    login-login clear_bcrypt ada salt salt secret address secret new_in_memory_store in_use ada-new
      secret-made in_use-Uses

first_mail_hidden_example :
    (search_messages ada true (tt {0}) (add_message ada mail signed_up).0 ≡ 0 ∷ [])
    × (list_messages sample_imap ada true
          (record { start = 1; stop = 9 } ∷ [])
          []
          (add_message ada mail signed_up).0
        ≡ ([], ok tt))
unfolding local_part new_in_memory_store utf8 index lookup
first_mail_hidden_example =
    first_mail_hidden sample_imap clear_bcrypt (tt {0}) ada salt secret secret mail 1 9 []
      new_in_memory_store refl ada-new refl secret-made (omega arith) (omega arith)

-- A mailbox that a mail has made, with two messages.
abbrev one_mail : InMemoryStore
one_mail = (add_message address mail new_in_memory_store).0

abbrev two_mails : InMemoryStore
two_mails = (add_message address mail one_mail).0

first_room : assigned_uid address new_in_memory_store + 1 < 2 ^ 32
unfolding open_mailbox new_in_memory_store local_part index lookup insert text_eq utf8
first_room = omega arith

second_room : assigned_uid address one_mail + 1 < 2 ^ 32
unfolding add_message append_message open_mailbox stamped with_recent new_in_memory_store local_part
    index lookup insert text_eq utf8
second_room = omega arith

two_mails-IsValid : IsValid two_mails
two_mails-IsValid =
    Reach-IsValid
      (next (next start (added address mail first_room)) (added address mail second_room))

list_messages-get_message_example :
    list_messages sample_imap ada true (only 2) (fetch_flags ∷ []) two_mails ≡ (
      sent sample_imap
          (place 2 (get_messages ada two_mails))
          (fetch_flags ∷ [])
          (get_message ada 2 two_mails),
      ok tt,
    )
list_messages-get_message_example =
    list_messages-get_message sample_imap ada 2 (fetch_flags ∷ []) two_mails two_mails-IsValid
      (omega arith)

abbrev second_mail : Message
second_mail = record mail { seq_num = 2; uid = 2; flags = recent_flag ∷ [] }

two_mails-listed : length (get_messages ada two_mails) ≡ 2
unfolding add_message append_message open_mailbox stamped with_recent get_messages
    new_in_memory_store local_part index lookup insert text_eq utf8
two_mails-listed = refl

two_mails-second : get_elem? (get_messages ada two_mails) 1 ≡ some second_mail
unfolding add_message append_message open_mailbox stamped with_recent get_messages
    new_in_memory_store local_part index lookup insert text_eq utf8
two_mails-second = refl

two_mails-searched : get_elem? (search_messages ada true (tt {0}) two_mails) 1 ≡ some 2
unfolding add_message append_message open_mailbox stamped with_recent get_messages
    new_in_memory_store local_part index lookup insert text_eq utf8 search_messages search_from
    matches_criteria
two_mails-searched = refl

list_messages-search_messages_example :
    list_messages sample_imap ada true (only 2) [] two_mails
    ≡ (fetched sample_imap ((1 + 1) % 2 ^ 32) second_mail [] ∷ [], ok tt)
list_messages-search_messages_example =
    list_messages-search_messages sample_imap (tt {0}) ada true 1 2 second_mail [] two_mails
      two_mails-IsValid (rw two_mails-listed (omega arith)) two_mails-second two_mails-searched
      (omega arith)

ada-local_part : local_part ada ≡ ada
unfolding local_part utf8 index
ada-local_part = refl

ada-next : assigned_uid ada two_mails ≡ 3
unfolding add_message append_message open_mailbox stamped with_recent get_messages
    new_in_memory_store local_part index lookup insert text_eq utf8
ada-next = refl

two_mails-from_one : All (λ m. 1 ≤ m.uid) (get_messages ada two_mails)
unfolding add_message append_message open_mailbox stamped with_recent get_messages
    new_in_memory_store local_part index lookup insert text_eq utf8
two_mails-from_one = (omega arith, (omega arith, tt))

status-bounds_example :
    ((status sample_imap inbox ada (status_messages ∷ status_uid_next ∷ []) two_mails).uid_next
      ≤ assigned_uid ada two_mails)
    × ((status sample_imap inbox ada (status_messages ∷ status_uid_next ∷ []) two_mails).messages
        ≡ length (get_messages ada two_mails))
status-bounds_example =
    status-bounds sample_imap inbox ada (status_messages ∷ status_uid_next ∷ []) two_mails
      two_mails-IsValid ada-local_part (rw ada-next (omega arith)) (rw ada-next (omega arith))
      two_mails-from_one refl

-- UIDNEXT once the first of two messages is deleted: the UID of the second.
uid_next-of_one :
    (status sample_imap inbox ada (status_uid_next ∷ []) (delete_message ada 1 two_mails)).uid_next
    ≡ 2
unfolding add_message append_message open_mailbox stamped with_recent get_messages
    new_in_memory_store local_part index lookup insert text_eq utf8 status set_statuses set_status
    delete_message remove_uid
uid_next-of_one = refl
