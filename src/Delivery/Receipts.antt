-- ===== src/Delivery/Receipts.antt =====
-- `createDeliveryReceipt` and `createNonDeliveryNotice` of
-- pec-server/punto-consegna/punto-consegna.go.
pub mod Accepted
use go_pec.Base.{Text, utf8, rfc822, Time, Error, ℕ, List, [], ◌∷◌, ◌++◌}
use go_pec.Commons.{generate_message_id}
use go_pec.Mail.{header_of, Entity, MailLibrary}
use go_pec.Delivery.Bodies.{
  or_default, short_receipt_body, synthetic_receipt_body, parse_receipt_type,
  create_normal_receipt_body, PartWriter, ReceiptType, receipt_normal, receipt_short,
  receipt_synthetic,
}

-- Readings of the clock and random bytes, by number, and the text of an error.
pub record Surroundings : Type 0 where
  pub now : ℕ → Time
  pub random : ℕ → Text
  pub describe : Error → Text

unfoldable pub receipt_type_name : ReceiptType → Text
receipt_type_name receipt_normal = utf8 "normale"
receipt_type_name receipt_short = utf8 "breve"
receipt_type_name receipt_synthetic = utf8 "sintetica"

-- The fields in the order in which they are set; the original header is given by its `Get`.
unfoldable pub receipt_fields :
    Time → Text → Text → ReceiptType → (Text → Text) → List (Text × Text)
receipt_fields timestamp domain message_id kind original =
    (utf8 "Message-ID", message_id)
    ∷ (utf8 "X-Ricevuta", utf8 "avvenuta-consegna")
    ∷ (utf8 "Date", rfc822 timestamp)
    ∷ (
      utf8 "Subject",
      utf8 "CONSEGNA: " ++ or_default (original (utf8 "Subject")) (utf8 "(nessun oggetto)"),
    )
    ∷ (utf8 "From", utf8 "posta-certificata@" ++ domain)
    ∷ (utf8 "To", original (utf8 "From"))
    ∷ (utf8 "X-Riferimento-Message-ID", original (utf8 "Message-ID"))
    ∷ (utf8 "X-Tipo-Ricevuta", receipt_type_name kind)
    ∷ []

unfoldable pub notice_fields : Time → Text → Text → (Text → Text) → List (Text × Text)
notice_fields timestamp domain message_id original =
    (utf8 "Message-ID", message_id)
    ∷ (utf8 "Date", rfc822 timestamp)
    ∷ (utf8 "From", utf8 "postmaster@" ++ domain)
    ∷ (utf8 "To", original (utf8 "From"))
    ∷ (utf8 "Subject", utf8 "Avviso di mancata consegna")
    ∷ (utf8 "X-Ricevuta", utf8 "mancata-consegna")
    ∷ (utf8 "References", original (utf8 "Message-ID"))
    ∷ []

module _ (lib : MailLibrary) (writer : PartWriter lib.Header) (env : Surroundings) where
  open lib use {Header, get}
  open env use {now, random, describe}

  unfoldable pub receipt_body : ReceiptType → Time → Text → Entity Header → Text → Text
  receipt_body receipt_normal timestamp domain msg recipient =
      create_normal_receipt_body lib writer timestamp domain msg recipient
        (generate_message_id (random 1) (now 2) domain)
  receipt_body receipt_short timestamp domain msg recipient =
      short_receipt_body timestamp recipient (get msg.header (utf8 "Message-ID"))
  receipt_body receipt_synthetic timestamp domain msg recipient =
      synthetic_receipt_body timestamp recipient

  unfoldable pub create_delivery_receipt : Text → Entity Header → Text → Entity Header
  create_delivery_receipt domain msg recipient =
      let kind = parse_receipt_type lib writer msg in
      record {
        header = header_of lib (
            receipt_fields (now 1) domain (generate_message_id (random 0) (now 0) domain) kind
              (get msg.header));
        body = receipt_body kind (now 1) domain msg recipient;
      }

  unfoldable pub create_non_delivery_notice : Text → Entity Header → Text → Error → Entity Header
  create_non_delivery_notice domain msg recipient e = record {
    header = header_of lib (
        notice_fields (now 1) domain (generate_message_id (random 0) (now 0) domain)
          (get msg.header));
    body = utf8 "Delivery to " ++ recipient ++ utf8 " failed: " ++ describe e;
  }
