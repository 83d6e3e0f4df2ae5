-- ===== src/Delivery/Session/Replies.antt =====
-- What `ReceiveHandler` of pec-server/punto-consegna/main.go answers.
use go_pec.Delivery.Session.Mailboxes.{process_message_lem}
use go_pec.Base.TextLaws.{text_eq_iff, is_empty_iff}
use go_pec.Base.{Text, utf8, Outcome, ok, err, panic, ℕ, ◌≡◌, ◌≢◌, ◌↔◌, false, [], arith}
use go_pec.Commons.{is_transport_envelope}
use go_pec.Mail.{Entity, MailLibrary}
use go_pec.Storage.{InMemoryStore}
use go_pec.Delivery.Bodies.{PartWriter}
use go_pec.Delivery.Receipts.{Surroundings}
use go_pec.Delivery.Session.{receive_parsed, receive_handler, Reply}

-- The status of the answer, which is never 0.
abbrev pub status_of : Outcome Reply → ℕ
status_of (ok r) = r.status
status_of (err _) = 0
status_of panic = 0

module _ (lib : MailLibrary) (writer : PartWriter lib.Header) where
  open lib use {Header, get}

  parsed_iff :
      (env : Surroundings) (domain : Text) (store : InMemoryStore) (msg : Entity Header)
      → (status_of (receive_parsed lib writer env domain store msg).1 ≡ 200)
        ↔ ((get msg.header (utf8 "To") ≢ []) × (is_transport_envelope lib msg ≡ false))
  unfolding receive_parsed
  parsed_iff env domain store msg = ground (
    arith,
    process_message_lem lib writer env msg (get msg.header (utf8 "To"))
        (record { store = store; domain = domain; from = []; to = [] }),
    is_empty_iff (get msg.header (utf8 "To")),
  )

  -- The body parses as a message that has a recipient field and is no transport envelope.
  abbrev pub Acceptable : Outcome (Entity Header) → Type 0
  Acceptable (ok msg) = (get msg.header (utf8 "To") ≢ []) × (is_transport_envelope lib msg ≡ false)
  Acceptable (err _) = ⊥
  Acceptable panic = ⊥

  -- A request is answered with status 200 exactly when it is a POST with the content type
  -- message/rfc822 of a message that parses, has a recipient field and is no transport envelope.
  pub receive_handler_iff :
      (env : Surroundings) (domain : Text) (method content_type : Text)
      (parsed : Outcome (Entity Header)) (store : InMemoryStore)
      → (status_of
            (receive_handler lib writer env domain
              (record { method = method; content_type = content_type; entity = parsed })
              store).1
          ≡ 200)
        ↔ ((method ≡ utf8 "POST") × (content_type ≡ utf8 "message/rfc822") × Acceptable parsed)
  unfolding receive_handler
  receive_handler_iff env domain method content_type (ok msg) store = ground (
    arith,
    text_eq_iff method (utf8 "POST"),
    text_eq_iff content_type (utf8 "message/rfc822"),
    parsed_iff env domain store msg,
  )
  receive_handler_iff env domain method content_type (err e) store =
      ground
        (arith, text_eq_iff method (utf8 "POST"), text_eq_iff content_type (utf8 "message/rfc822"))
  receive_handler_iff env domain method content_type panic store =
      ground
        (arith, text_eq_iff method (utf8 "POST"), text_eq_iff content_type (utf8 "message/rfc822"))
