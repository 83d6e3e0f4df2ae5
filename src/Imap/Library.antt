-- ===== src/Imap/Library.antt =====
-- The libraries that imap-server.go uses, as interfaces: bcrypt, and the values of go-imap, with
-- the documented behaviour of sequence sets and of the two constructors.
use go_pec.Base.{leb, Text, Outcome, ok, ℕ, ◌≤◌, ◌≡◌, Bool, ◌&&◌, none, List, [], ◌∷◌}
use go_pec.Storage.{Message}

-- golang.org/x/crypto/bcrypt. The salt is the random input of a hash.
pub record Bcrypt : Type 0 where
  pub generate_from_password : Text → Text → Outcome Text
  pub compare_hash_and_password : Text → Text → Outcome (Unit {0})
  -- A hash is made to be compared with the password that it was made from.
  pub compare-generate :
      (salt password hash : Text)
      → generate_from_password salt password ≡ ok hash
      → compare_hash_and_password hash password ≡ ok tt

-- imap.Seq. The number 0 stands for "*".
pub record Seq : Type 0 where
  pub start : ℕ
  pub stop : ℕ

-- imap.FetchItem; `unknown_item` is an item that the source has no case for.
pub data FetchItem : Type 0 where
  fetch_envelope fetch_body fetch_body_structure : FetchItem
  fetch_flags fetch_internal_date fetch_rfc822_size fetch_uid : FetchItem
  unknown_item : Text → FetchItem

-- imap.StatusItem
pub data StatusItem : Type 0 where
  status_messages status_uid_next status_uid_validity status_recent status_unseen : StatusItem
  unknown_status : Text → StatusItem

-- imap.MailboxStatus
pub record MailboxStatus : Type 0 where
  pub name : Text
  pub messages : ℕ
  pub recent : ℕ
  pub unseen : ℕ
  pub uid_next : ℕ
  pub uid_validity : ℕ

-- A message with a sequence number and nothing else.
abbrev pub empty_message : ℕ → Message
empty_message n = record {
  seq_num = n;
  uid = 0;
  size = 0;
  flags = [];
  envelope = none;
  internal_date = none;
  body_structure = none;
}

pub record ImapLibrary : Type 0 where
  -- SeqSet.Contains, on a range, on "n:*", and on a single number.
  pub contains : List Seq → ℕ → Bool
  pub contains-range :
      (first last q : ℕ)
      → 1 ≤ first
      → first ≤ last
      → contains (record { start = first; stop = last } ∷ []) q ≡ (leb first q && leb q last)
  pub contains-from :
      (first q : ℕ)
      → 1 ≤ first
      → 1 ≤ q
      → contains (record { start = first; stop = 0 } ∷ []) q ≡ leb first q
  -- imap.NewMessage: an empty message for these items.
  pub new_message : ℕ → List FetchItem → Message
  pub new_message-empty : (n : ℕ) (items : List FetchItem) → new_message n items ≡ empty_message n
  -- imap.NewMailboxStatus: no counts yet.
  pub new_mailbox_status : Text → List StatusItem → MailboxStatus
  pub new_mailbox_status-empty :
      (n : Text) (items : List StatusItem)
      → new_mailbox_status n items
        ≡ record { name = n; messages = 0; recent = 0; unseen = 0; uid_next = 0; uid_validity = 0 }
