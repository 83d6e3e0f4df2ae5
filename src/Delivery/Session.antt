-- ===== src/Delivery/Session.antt =====
-- `PuntoConsegnaSession`, `DeliverMessage` and `ReceiveHandler` of pec-server/punto-consegna.
pub mod Mailboxes
pub mod Replies
use go_pec.Base.{
  if◌then◌else◌, Text, utf8, text_eq, is_empty, with_context, wrap, Outcome, ok, err, panic, ℕ, ◌+◌,
  not, List, [], ◌∷◌, ◌++◌,
}
use go_pec.Commons.{convert_to_imap_message, is_transport_envelope}
use go_pec.Mail.{Entity, MailLibrary}
use go_pec.Storage.{add_message, InMemoryStore}
use go_pec.Delivery.Bodies.{PartWriter}
use go_pec.Delivery.Receipts.{create_delivery_receipt, create_non_delivery_notice, Surroundings}

-- `PuntoConsegnaSession`, with the server's store and domain.
pub record PuntoConsegnaSession : Type 0 where
  pub store : InMemoryStore
  pub domain : Text
  pub from : Text
  pub to : List Text

unfoldable pub mail : Text → PuntoConsegnaSession → PuntoConsegnaSession
mail from s = record s { from = from }

unfoldable pub rcpt : Text → PuntoConsegnaSession → PuntoConsegnaSession
rcpt to s = record s { to = s.to ++ to ∷ [] }

unfoldable pub reset : PuntoConsegnaSession → PuntoConsegnaSession
reset s = record s { from = []; to = [] }

-- An answer to an HTTP request: the status and the text.
pub record Reply : Type 0 where
  pub status : ℕ
  pub text : Text

-- A request: its method, its Content-Type, and what reading the body as a message gives.
pub record HttpRequest (H : Type 0) : Type 0 where
  pub method : Text
  pub content_type : Text
  pub entity : Outcome (Entity H)

module _ (lib : MailLibrary) (writer : PartWriter lib.Header) where
  open lib use {Header, get, read}

  -- `SendEntity`: the assertion that the nil writer is a buffer fails, so it always panics.
  unfoldable pub send_entity : Entity Header → List Text → Outcome (Unit {0})
  send_entity receipt to = panic

  abbrev add_converted :
      Surroundings → Entity Header → Text → PuntoConsegnaSession → PuntoConsegnaSession
  add_converted env msg recipient s =
      let stored = convert_to_imap_message lib (env.now 3) (env.now 4) (env.now 5) msg in
      record s { store = (add_message recipient stored s.store).0 }

  unfoldable pub deliver_message :
      Surroundings
      → Text
      → Entity Header
      → PuntoConsegnaSession
      → PuntoConsegnaSession × Outcome (Unit {0})
  deliver_message env to msg s = (add_converted env msg to s, ok tt)

  -- What follows a delivery; `left` is the message after its body was read. An error of sending is
  -- logged only.
  unfoldable pub after_delivery :
      Surroundings
      → Entity Header
      → Text
      → PuntoConsegnaSession
      → Outcome (Unit {0})
      → Outcome (Unit {0})
  after_delivery env left recipient s (ok _) =
      elim (send_entity (create_delivery_receipt lib writer env s.domain left recipient)
        (s.from ∷ [])) [ ok _ ↦ ok tt | err _ ↦ ok tt | panic ↦ panic ]
  after_delivery env left recipient s (err e) =
      elim (send_entity (create_non_delivery_notice lib writer env s.domain left recipient e)
        (s.from ∷ [])) [
          | ok _ ↦ err (wrap (utf8 "delivery failed") e)
          | err _ ↦ err (wrap (utf8 "delivery failed") e)
          | panic ↦ panic
        ]
  after_delivery env left recipient s panic = panic

  -- Writing the message into the store reads its body to the end.
  abbrev pub drained : Entity Header → Entity Header
  drained msg = record msg { body = [] }

  unfoldable pub process_message :
      Surroundings
      → Entity Header
      → Text
      → PuntoConsegnaSession
      → PuntoConsegnaSession × Outcome (Unit {0})
  process_message env msg recipient s =
      let (s₁, delivered) = deliver_message env recipient msg s in
      if is_transport_envelope lib msg
      then (s₁, after_delivery env (drained msg) recipient s₁ delivered)
      else (add_converted env msg recipient s, ok tt)

  -- The recipients in turn, with the surroundings of each; an error is logged only.
  unfoldable pub process_each :
      (ℕ → Surroundings)
      → Entity Header
      → List Text
      → PuntoConsegnaSession
      → PuntoConsegnaSession × Outcome (Unit {0})
  process_each envs msg [] s = (s, ok tt)
  process_each envs msg (recipient ∷ recipients) s =
      let (s₁, ended) = process_message (envs 0) msg recipient s in
      let rest = process_each (λ i. envs (i + 1)) (drained msg) recipients s₁ in
      elim ended [ ok _ ↦ rest | err _ ↦ rest | panic ↦ (s₁, panic) ]

  unfoldable pub receive_data :
      (ℕ → Surroundings) → Text → PuntoConsegnaSession → PuntoConsegnaSession × Outcome (Unit {0})
  receive_data envs raw s = elim (with_context (utf8 "failed to parse message") (read raw)) [
    | ok msg ↦ process_each envs msg s.to s
    | err e ↦ (s, err e)
    | panic ↦ (s, panic)
  ]

  -- The session of a request has neither a sender nor recipients.
  abbrev request_session : InMemoryStore → Text → PuntoConsegnaSession
  request_session store domain = record { store = store; domain = domain; from = []; to = [] }

  abbrev reply : ℕ → Text → Outcome Reply
  reply status text = ok (record { status = status; text = text })

  unfoldable pub receive_parsed :
      Surroundings → Text → InMemoryStore → Entity Header → InMemoryStore × Outcome Reply
  receive_parsed env domain store msg =
      let to = get msg.header (utf8 "To") in
      if is_empty to
      then (store, reply 400 (utf8 "No recipient specified in the message"))
      else let (s, ended) = process_message env msg to (request_session store domain) in
        (
          s.store,
          elim ended [
            | ok _ ↦ reply 200 (utf8 "Message received for " ++ to)
            | err _ ↦ reply 500 (utf8 "Failed to process message")
            | panic ↦ panic
          ],
        )

  unfoldable pub receive_handler :
      Surroundings → Text → HttpRequest Header → InMemoryStore → InMemoryStore × Outcome Reply
  receive_handler env domain r store =
      if not (text_eq r.method (utf8 "POST"))
      then (store, reply 405 (utf8 "Method not allowed"))
      else if not (text_eq r.content_type (utf8 "message/rfc822"))
      then (store, reply 415 (utf8 "Unsupported Content-Type"))
      else elim r.entity [
        | ok msg ↦ receive_parsed env domain store msg
        | err e ↦ (store, reply 400 (utf8 "Failed to parse message: " ++ env.describe e))
        | panic ↦ (store, panic)
      ]
