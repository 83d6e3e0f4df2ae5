-- ===== src/Imap/Copies.antt =====
-- The copy of a message that IMAPMailbox.ListMessages sends, and the counts that Status gives.
use go_pec.Base.{
  if◌then◌else◌, any, Text, Time, ℕ, ◌≡◌, refl, ◌∙◌, Bool, true, false, Option, none, List, [], ◌∷◌,
  arith,
}
use go_pec.Storage.{Message}
use go_pec.Imap.Library.{
  FetchItem, fetch_envelope, fetch_body, fetch_body_structure, fetch_flags, fetch_internal_date,
  fetch_rfc822_size, fetch_uid, unknown_item, ImapLibrary,
}
use go_pec.Imap.Fetch.{set_item, set_items, fetched}

-- The message under another sequence number, with the two fields that are sent only on request.
abbrev copy : ℕ → Option Time → Option Text → Message → Message
copy n date structure msg = record msg {
  seq_num = n;
  internal_date = date;
  body_structure = structure;
}

abbrev wants_date : FetchItem → Bool
wants_date item = elim item [ fetch_internal_date ↦ true | _ ↦ false ]

abbrev wants_body : FetchItem → Bool
wants_body item = elim item [ fetch_body ↦ true | fetch_body_structure ↦ true | _ ↦ false ]

or-absorb {ℓ} :
    {A : Type ℓ} (b : Bool) (x y : A) → (if b then x else if b then x else y) ≡ (if b then x else y)
or-absorb true x y = refl
or-absorb false x y = refl

set_items-copy :
    (msg : Message) (items : List FetchItem) (n : ℕ) (date : Option Time) (structure : Option Text)
    → set_items msg items (copy n date structure msg)
      ≡ copy n
          (if any wants_date items then msg.internal_date else date)
          (if any wants_body items then msg.body_structure else structure)
          msg
unfolding set_items set_item
set_items-copy msg [] n date structure = refl
set_items-copy msg (fetch_envelope ∷ items) n date structure =
    set_items-copy msg items n date structure
set_items-copy msg (fetch_body ∷ items) n date structure =
    set_items-copy msg items n date msg.body_structure ∙ ground arith
set_items-copy msg (fetch_body_structure ∷ items) n date structure =
    set_items-copy msg items n date msg.body_structure ∙ ground arith
set_items-copy msg (fetch_flags ∷ items) n date structure =
    set_items-copy msg items n date structure
set_items-copy msg (fetch_internal_date ∷ items) n date structure =
    set_items-copy msg items n msg.internal_date structure ∙ ground arith
set_items-copy msg (fetch_rfc822_size ∷ items) n date structure =
    set_items-copy msg items n date structure
set_items-copy msg (fetch_uid ∷ items) n date structure = set_items-copy msg items n date structure
set_items-copy msg (unknown_item _ ∷ items) n date structure =
    set_items-copy msg items n date structure

module _ (lib : ImapLibrary) where
  open lib use {new_message, new_message-empty}

  -- Whatever is asked for, the copy has the UID, size, flags and envelope of the message and its
  -- place as sequence number; the date and the structure of the body are those of the message
  -- exactly if they are asked for, and otherwise missing.
  pub fetched_lem :
      (n : ℕ) (msg : Message) (items : List FetchItem)
      → fetched lib n msg items ≡ record msg {
        seq_num = n;
        internal_date = if any wants_date items then msg.internal_date else none;
        body_structure = if any wants_body items then msg.body_structure else none;
      }
  unfolding fetched
  fetched_lem n msg items = rw (new_message-empty n items) (set_items-copy msg items n none none)
