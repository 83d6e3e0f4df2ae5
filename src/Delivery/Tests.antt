-- ===== src/Delivery/Tests.antt =====
-- The theorems on the delivery point at concrete inputs.
use go_pec.Base.{
  length, utf8, text_eq, is_empty, to_lower, equal_fold, zero_time, auth_required, ok, panic, ◌+◌,
  ◌≡◌, refl, ◌≢◌, ◌↔◌, true, false, none, [], ◌∷◌,
}
use go_pec.Commons.{is_transport_envelope}
use go_pec.Mail.{Entity}
use go_pec.Storage.{new_in_memory_store, mailbox}
use go_pec.Reception.Checks.{missing_any, unknown_tipo, is_valid_receipt_or_avviso}
use go_pec.Smtp.{parse_email_from_session, Session}
use go_pec.Reception.Handler.{reception_point_handler, ReceptionContext}
use go_pec.Delivery.Route.{forwarded, receipt_delivered}
use go_pec.Samples.{Fields, field_value, mail_library, signature_library, part_writer}
use go_pec.Delivery.Receipts.{create_delivery_receipt, create_non_delivery_notice, Surroundings}
use go_pec.Delivery.Receipts.Accepted.{
  create_delivery_receipt-IsReceipt, create_non_delivery_notice-refused,
}
use go_pec.Delivery.Session.{receive_data, receive_handler, PuntoConsegnaSession}
use go_pec.Delivery.Session.Mailboxes.{copies, receive_data-regular, receive_data-envelope}
use go_pec.Delivery.Session.Replies.{status_of, Acceptable, receive_handler_iff}

abbrev plain : Fields
plain =
    (utf8 "From", utf8 "ada@pec.it")
    ∷ (utf8 "To", utf8 "bob@pec.it")
    ∷ (utf8 "Message-ID", utf8 "<1@pec.it>")
    ∷ []

abbrev envelope : Fields
envelope = (utf8 "X-Trasporto", utf8 "posta-certificata") ∷ plain

abbrev env : Surroundings
env = record { now = λ i. zero_time; random = λ i. b'r' ∷ []; describe = λ e. utf8 "error" }

abbrev message_of : Fields → Entity Fields
message_of h = record { header = h; body = utf8 "hello" }

abbrev session : PuntoConsegnaSession
session = record {
  store = new_in_memory_store;
  domain = utf8 "pec.it";
  from = utf8 "ada@pec.it";
  to = utf8 "bob@pec.it" ∷ utf8 "eve@pec.it" ∷ [];
}

plain-regular : is_transport_envelope (mail_library plain) (message_of plain) ≡ false
unfolding is_transport_envelope equal_fold to_lower text_eq utf8
plain-regular = refl

envelope-transport : is_transport_envelope (mail_library envelope) (message_of envelope) ≡ true
unfolding is_transport_envelope equal_fold to_lower text_eq utf8
envelope-transport = refl

receive_data-regular_example :
    ((receive_data (mail_library plain) part_writer (λ i. env) (utf8 "hello") session).1 ≡ ok tt)
    × (length (
          mailbox
            (utf8 "bob")
            (receive_data
              (mail_library plain)
              part_writer
              (λ i. env)
              (utf8 "hello")
              session).0.store)
        ≡ length (mailbox (utf8 "bob") session.store) + copies (utf8 "bob") session.to)
receive_data-regular_example =
    receive_data-regular (mail_library plain) part_writer (λ i. env) (utf8 "hello")
      (message_of plain) session (utf8 "bob") refl plain-regular

receive_data-envelope_example :
    ((receive_data (mail_library envelope) part_writer (λ i. env) (utf8 "hello") session).1 ≡ panic)
    × (length (
          mailbox
            (utf8 "eve")
            (receive_data
              (mail_library envelope)
              part_writer
              (λ i. env)
              (utf8 "hello")
              session).0.store)
        ≡ length (mailbox (utf8 "eve") session.store)
          + copies (utf8 "eve") (utf8 "bob@pec.it" ∷ []))
receive_data-envelope_example =
    receive_data-envelope (mail_library envelope) part_writer (λ i. env) (utf8 "hello")
      (message_of envelope) session (utf8 "bob@pec.it") (utf8 "eve@pec.it" ∷ []) (utf8 "eve") refl
      envelope-transport refl

receive_handler_iff_example :
    (status_of
        (receive_handler
          (mail_library plain)
          part_writer
          env
          (utf8 "pec.it")
          (record {
            method = utf8 "POST";
            content_type = utf8 "message/rfc822";
            entity = ok (message_of plain);
          })
          new_in_memory_store).1
      ≡ 200)
    ↔ ((utf8 "POST" ≡ utf8 "POST")
        × (utf8 "message/rfc822" ≡ utf8 "message/rfc822")
        × Acceptable (mail_library plain) part_writer (ok (message_of plain)))
receive_handler_iff_example =
    receive_handler_iff (mail_library plain) part_writer env (utf8 "pec.it") (utf8 "POST")
      (utf8 "message/rfc822") (ok (message_of plain)) new_in_memory_store

create_delivery_receipt-IsReceipt_example :
    (is_valid_receipt_or_avviso (
        field_value
          (create_delivery_receipt
            (mail_library plain)
            part_writer
            env
            (utf8 "pec.it")
            (message_of plain)
            (utf8 "bob@pec.it")).header)
      ≡ true)
    ↔ ((field_value plain (utf8 "From") ≢ []) × (field_value plain (utf8 "Message-ID") ≢ []))
create_delivery_receipt-IsReceipt_example =
    create_delivery_receipt-IsReceipt (mail_library plain) part_writer env (utf8 "pec.it")
      (message_of plain) (utf8 "bob@pec.it")

create_non_delivery_notice-refused_example :
    is_valid_receipt_or_avviso (
      field_value
        (create_non_delivery_notice
          (mail_library plain)
          part_writer
          env
          (utf8 "pec.it")
          (message_of plain)
          (utf8 "bob@pec.it")
          auth_required).header)
    ≡ false
create_non_delivery_notice-refused_example =
    create_non_delivery_notice-refused (mail_library plain) part_writer env (utf8 "pec.it")
      (message_of plain) (utf8 "bob@pec.it") auth_required

abbrev receipt : Fields
receipt =
    (utf8 "X-Ricevuta", utf8 "avvenuta-consegna")
    ∷ (utf8 "Date", utf8 "today")
    ∷ (utf8 "Subject", utf8 "CONSEGNA: hello")
    ∷ (utf8 "X-Riferimento-Message-ID", utf8 "<1@pec.it>")
    ∷ plain

abbrev incoming : Session
incoming = record {
  from = utf8 "posta-certificata@pec.it";
  to = utf8 "bob@pec.it" ∷ [];
  data_buffer = utf8 "hello";
  auth = true;
  signer = none;
  store = none;
  domain = utf8 "pec.it";
}

-- A network whose POST is answered by the delivery point.
abbrev context : ReceptionContext
context = record {
  net = record {
    answer = λ r. ok tt;
    status = λ body.
        status_of
          (receive_handler (mail_library receipt) part_writer env (utf8 "pec.it")
            (forwarded (mail_library receipt) signature_library part_writer body)
            new_in_memory_store).1;
  };
  now = zero_time;
  marshal = λ d. d.oggetto;
  temp_created = true;
  temp_written = true;
  openssl = λ body. true;
}

receipt-parsed :
    parse_email_from_session (mail_library receipt) incoming ≡ ok (receipt, utf8 "hello")
unfolding parse_email_from_session
receipt-parsed = refl

receipt-valid : is_valid_receipt_or_avviso (field_value receipt) ≡ true
unfolding is_valid_receipt_or_avviso missing_any unknown_tipo equal_fold to_lower text_eq is_empty
    utf8
receipt-valid = refl

receipt-regular : is_transport_envelope (mail_library receipt) (message_of receipt) ≡ false
unfolding is_transport_envelope equal_fold to_lower text_eq utf8
receipt-regular = refl

there : is_empty incoming.data_buffer ≡ false
unfolding is_empty utf8
there = refl

receipt_delivered_example :
    (reception_point_handler (mail_library receipt) signature_library context incoming).1 ≡ ok tt
receipt_delivered_example =
    receipt_delivered (mail_library receipt) signature_library part_writer context env
      (utf8 "pec.it") new_in_memory_store incoming receipt (utf8 "hello") (message_of receipt) refl
      receipt-parsed there receipt-valid refl refl receipt-regular refl refl
