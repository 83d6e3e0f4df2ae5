-- ===== src/Imap/Fetch.antt =====
-- What IMAPMailbox reads from the store: Status, ListMessages and SearchMessages, and the methods
-- that it refuses. A mailbox is given by its name and its user.
use go_pec.Base.{
  ◌==◌, if◌then◌else◌, length, any, Text, utf8, Time, not_allowed, Outcome, ok, err, ℕ, suc, ◌+◌,
  ◌%◌, ◌^◌, Bool, true, ◌&&◌, List, [], ◌∷◌,
}
use go_pec.Storage.{get_messages, Message, InMemoryStore}
use go_pec.Imap.Library.{
  Seq, FetchItem, fetch_envelope, fetch_body, fetch_body_structure, fetch_flags,
  fetch_internal_date, fetch_rfc822_size, fetch_uid, unknown_item, StatusItem, status_messages,
  status_uid_next, status_uid_validity, status_recent, status_unseen, unknown_status, MailboxStatus,
  ImapLibrary,
}

-- imap.MailboxInfo, with the fields that are set.
pub record MailboxInfo : Type 0 where
  pub delimiter : Text
  pub name : Text

unfoldable pub info : Text → MailboxInfo
info name = record { delimiter = utf8 "/"; name = name }

-- One item of the loop of `Status`, for a mailbox of `count` messages.
unfoldable pub set_status : ℕ → StatusItem → MailboxStatus → MailboxStatus
set_status count status_messages st = record st { messages = count % 2 ^ 32 }
set_status count status_uid_next st = record st { uid_next = (count + 1) % 2 ^ 32 }
set_status count status_uid_validity st = record st { uid_validity = 1 }
set_status count status_recent st = record st { recent = 0 }
set_status count status_unseen st = record st { unseen = 0 }
set_status count (unknown_status _) st = st

unfoldable pub set_statuses : ℕ → List StatusItem → MailboxStatus → MailboxStatus
unfolding set_status
set_statuses count [] st = st
set_statuses count (item ∷ items) st = set_statuses count items (set_status count item st)

-- The range "1:*", which stands for every message.
unfoldable pub is_all : Seq → Bool
is_all seq = seq.start == 1 && seq.stop == 0

-- One item of the inner loop of `ListMessages`: `fetched` takes it from `msg`.
unfoldable pub set_item : Message → FetchItem → Message → Message
set_item msg fetch_envelope fetched = record fetched { envelope = msg.envelope }
set_item msg fetch_body fetched = record fetched { body_structure = msg.body_structure }
set_item msg fetch_body_structure fetched = record fetched { body_structure = msg.body_structure }
set_item msg fetch_flags fetched = record fetched { flags = msg.flags }
set_item msg fetch_internal_date fetched = record fetched { internal_date = msg.internal_date }
set_item msg fetch_rfc822_size fetched = record fetched { size = msg.size }
set_item msg fetch_uid fetched = record fetched { uid = msg.uid }
set_item msg (unknown_item _) fetched = fetched

unfoldable pub set_items : Message → List FetchItem → Message → Message
unfolding set_item
set_items msg [] fetched = fetched
set_items msg (item ∷ items) fetched = set_items msg items (set_item msg item fetched)

module _ (lib : ImapLibrary) where
  open lib use {contains, new_message, new_mailbox_status}

  unfoldable pub status : Text → Text → List StatusItem → InMemoryStore → MailboxStatus
  unfolding set_statuses
  status name username items s =
      set_statuses (length (get_messages username s)) items (new_mailbox_status name items)

  -- The copy that is sent for a message.
  unfoldable pub fetched : ℕ → Message → List FetchItem → Message
  unfolding set_items
  fetched seq_num msg items = set_items msg items (record (new_message seq_num items) {
    uid = msg.uid;
    size = msg.size;
    flags = msg.flags;
    envelope = msg.envelope;
  })

  unfoldable pub in_seq_set : Bool → List Seq → ℕ → Message → Bool
  unfolding is_all
  in_seq_set uid seq_set seq_num msg =
      if any is_all seq_set
      then true
      else if uid
      then contains seq_set msg.uid
      else contains seq_set seq_num

  -- The loop over the messages, from index `i` on: what is sent on the channel.
  unfoldable pub list_from : Bool → List Seq → List FetchItem → ℕ → List Message → List Message
  unfolding fetched in_seq_set
  list_from uid seq_set items i [] = []
  list_from uid seq_set items i (msg ∷ msgs) =
      let seq_num = (i + 1) % 2 ^ 32 in
      let rest = list_from uid seq_set items (suc i) msgs in
      if in_seq_set uid seq_set seq_num msg then fetched seq_num msg items ∷ rest else rest

  -- The messages that are sent before the channel is closed; the error is nil.
  unfoldable pub list_messages :
      Text → Bool → List Seq → List FetchItem → InMemoryStore → List Message × Outcome (Unit {0})
  unfolding list_from
  list_messages username uid seq_set items s =
      (list_from uid seq_set items 0 (get_messages username s), ok tt)

-- The criteria are not looked at.
unfoldable pub matches_criteria {ℓ} : {C : Type ℓ} → Message → C → Bool
matches_criteria msg criteria = true

unfoldable pub search_from {ℓ} : {C : Type ℓ} → Bool → C → ℕ → List Message → List ℕ
unfolding matches_criteria
search_from uid criteria i [] = []
search_from uid criteria i (msg ∷ msgs) =
    let rest = search_from uid criteria (suc i) msgs in
    if matches_criteria msg criteria
    then (if uid then msg.uid else (i + 1) % 2 ^ 32) ∷ rest
    else rest

unfoldable pub search_messages {ℓ} : {C : Type ℓ} → Text → Bool → C → InMemoryStore → List ℕ
unfolding search_from
search_messages username uid criteria s = search_from uid criteria 0 (get_messages username s)

unfoldable pub set_subscribed : Bool → Outcome (Unit {0})
set_subscribed subscribed = ok tt

unfoldable pub check : Outcome (Unit {0})
check = ok tt

unfoldable pub create_message : List Text → Time → Text → Outcome (Unit {0})
create_message flags date body = err not_allowed

unfoldable pub update_messages_flags {ℓ} :
    {Op : Type ℓ} → Bool → List Seq → Op → List Text → Outcome (Unit {0})
update_messages_flags uid seq_set operation flags = err not_allowed

unfoldable pub copy_messages : Bool → List Seq → Text → Outcome (Unit {0})
copy_messages uid seq_set dest_name = err not_allowed

unfoldable pub expunge : Outcome (Unit {0})
expunge = err not_allowed
