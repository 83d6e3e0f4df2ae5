-- ===== src/Delivery/Readable.antt =====
-- From the delivery point of pec-server/punto-consegna/punto-consegna.go to an IMAP client: what
-- the client reads of a message that was delivered.
use go_pec.Base.{
  Text, utf8, Outcome, ℕ, ◌+◌, ◌%◌, ◌^◌, ◌≤◌, ◌<◌, ◌≡◌, ap, ◌∙◌, true, Option, some, List, [], ◌∷◌,
  map, arith,
}
use go_pec.Base.TextLaws.{text_eq_refl}
use go_pec.Mail.{Entity, MailLibrary}
use go_pec.Commons.{convert_to_imap_message}
use go_pec.Storage.{
  local_part, stamped, add_message, get_messages, get_message, Envelope, Message, InMemoryStore,
}
use go_pec.Storage.Uids.{IsValid, assigned_uid, Reach-IsValid, added, Reach, next}
use go_pec.Storage.View.{stored, get_message-add_message}
use go_pec.Imap.{FetchItem, ImapLibrary, fetched, list_messages}
use go_pec.Imap.Keys.{only}
use go_pec.Imap.Copies.{fetched_lem}
use go_pec.Delivery.Bodies.{PartWriter}
use go_pec.Delivery.Receipts.{Surroundings}
use go_pec.Delivery.Session.{process_message, PuntoConsegnaSession}
use go_pec.Imap.Listing.{place, sent, list_messages-get_message}
use go_pec.Delivery.Session.Mailboxes.{process_message_lem}

-- What a client sees of a message.
abbrev pub View : Type 0
View = ℕ × Option Envelope

abbrev pub view : Message → View
view m = (m.uid, m.envelope)

view-fetched :
    (imap : ImapLibrary) (n : ℕ) (msg : Message) (items : List FetchItem)
    → view (fetched imap n msg items) ≡ view msg
view-fetched imap n msg items = ap view (fetched_lem imap n msg items)

-- The next message of a mailbox is found under the UID that it gets.
added-found :
    (to : Text) (msg : Message) (s : InMemoryStore)
    → IsValid s
    → get_message (local_part to) (assigned_uid to s) (add_message to msg s).0
      ≡ some (stored to msg s)
added-found to msg s valid =
    get_message-add_message (local_part to) to (assigned_uid to s) msg s valid
    ∙ ground (arith, text_eq_refl (local_part to))

added_fetch :
    (imap : ImapLibrary) (to : Text) (msg : Message) (items : List FetchItem) (s : InMemoryStore)
    → Reach s
    → assigned_uid to s + 1 < 2 ^ 32
    → 1 ≤ assigned_uid to s
    → map view
        (list_messages imap
          (local_part to)
          true
          (only (assigned_uid to s))
          items
          (add_message to msg s).0).0
      ≡ view (stored to msg s) ∷ []
added_fetch imap to msg items s r room from =
    let u = local_part to in
    let n = assigned_uid to s in
    let t : InMemoryStore = (add_message to msg s).0 in
    ap (λ (p : List Message × Outcome (Unit {0})). map view p.0)
      (list_messages-get_message imap u n items t (Reach-IsValid (next r (added to msg room))) from)
    ∙ ap (λ found. map view (sent imap (place n (get_messages u t)) items found))
        (added-found to msg s (Reach-IsValid r))
    ∙ ap (λ v. v ∷ [])
        (view-fetched imap (place n (get_messages u t) % 2 ^ 32) (stored to msg s) items)

module _ (lib : MailLibrary) (writer : PartWriter lib.Header) (imap : ImapLibrary) where
  open lib use {Header, get}

  -- When a message is processed for a recipient, in a store that its methods lead to, an IMAP client
  -- of the recipient's local part that FETCHes the UID that was next there, at least 1 and not used
  -- up, is sent one message: with this UID, and with the subject, sender and recipients of the
  -- header of the message.
  pub process_message-readable :
      (env : Surroundings) (msg : Entity Header) (r : Text) (s : PuntoConsegnaSession)
      (items : List FetchItem)
      → Reach s.store
      → assigned_uid r s.store + 1 < 2 ^ 32
      → 1 ≤ assigned_uid r s.store
      → map view
          (list_messages imap
            (local_part r)
            true
            (only (assigned_uid r s.store))
            items
            (process_message lib writer env msg r s).0.store).0
        ≡ (
          assigned_uid r s.store,
          some (record {
            date = env.now 3;
            subject = get msg.header (utf8 "Subject");
            from = get msg.header (utf8 "From") ∷ [];
            to = get msg.header (utf8 "To") ∷ [];
          }),
        )
          ∷ []
  unfolding convert_to_imap_message stamped
  process_message-readable env msg r s items reached room from =
      ap
        (λ (p : PuntoConsegnaSession × Outcome (Unit {0})).
          map view
            (list_messages imap (local_part r) true (only (assigned_uid r s.store)) items
              p.0.store).0)
        (process_message_lem lib writer env msg r s)
      ∙ added_fetch imap r (convert_to_imap_message lib (env.now 3) (env.now 4) (env.now 5) msg)
          items s.store reached room from
