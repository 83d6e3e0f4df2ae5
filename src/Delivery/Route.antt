-- ===== src/Delivery/Route.antt =====
-- From the reception point (pec-server/punto-ricezione/punto-ricezione.go) to the delivery point
-- (pec-server/punto-consegna/main.go), where the one's POST is the other's request.
use go_pec.Delivery.Session.Replies.{status_of, receive_handler_iff}
use go_pec.Reception.Handler.Paths.{reception_point_handler-receipt}
use go_pec.Reception.Checks.Receipts.{is_valid_receipt_or_avviso_iff}
use go_pec.Base.{Text, utf8, is_empty, ok, ◌≡◌, refl, ◌∙◌, true, false}
use go_pec.Commons.{is_transport_envelope}
use go_pec.Mail.{Entity, MailLibrary}
use go_pec.Smtp.{parse_email_from_session, Session}
use go_pec.Storage.{InMemoryStore}
use go_pec.Reception.Checks.{is_valid_receipt_or_avviso, SignatureLibrary}
use go_pec.Reception.Network.{post}
use go_pec.Reception.Handler.{reception_point_handler, ReceptionContext}
use go_pec.Delivery.Bodies.{PartWriter}
use go_pec.Delivery.Receipts.{Surroundings}
use go_pec.Delivery.Session.{receive_handler, HttpRequest}

module _ (lib : MailLibrary) (sig : SignatureLibrary) (writer : PartWriter lib.Header) where
  open lib use {Header, get, read}

  -- The request that `ForwardToDeliveryPoint` makes.
  abbrev pub forwarded : Text → HttpRequest Header
  forwarded body = record {
    method = utf8 "POST";
    content_type = utf8 "message/rfc822";
    entity = read body;
  }

  -- A receipt that is no transport envelope, in an authenticated session with data, is handled with
  -- success by the reception point if its POST goes through, the status is the one that the delivery point
  -- replies, and both read the same recipient field.
  pub receipt_delivered :
      (env : ReceptionContext) (denv : Surroundings) (domain : Text) (store : InMemoryStore)
      (s : Session) (h : Header) (body : Text) (msg : Entity Header)
      → s.auth ≡ true
      → parse_email_from_session lib s ≡ ok (h, body)
      → is_empty s.data_buffer ≡ false
      → is_valid_receipt_or_avviso (get h) ≡ true
      → read s.data_buffer ≡ ok msg
      → get msg.header (utf8 "To") ≡ get h (utf8 "To")
      → is_transport_envelope lib msg ≡ false
      → env.net.answer (post s.data_buffer) ≡ ok tt
      → env.net.status s.data_buffer
        ≡ status_of (receive_handler lib writer denv domain (forwarded s.data_buffer) store).1
      → (reception_point_handler lib sig env s).1 ≡ ok tt
  receipt_delivered env denv domain store s h body msg auth parsed there receipt entity same regular
        sent status =
      let ((_, (_, (_, (to, _)))), _) = (is_valid_receipt_or_avviso_iff (get h)).0 receipt in
      let replied =
        (receive_handler_iff lib writer denv domain (utf8 "POST") (utf8 "message/rfc822") (ok msg)
            store).1
          (refl, refl, (rw same to, regular)) in
      (reception_point_handler-receipt lib sig env s h body auth parsed there receipt).1
        (sent, status ∙ rw entity replied)
