-- ===== src/Delivery/Bodies.antt =====
-- The bodies of the delivery receipts of pec-server/punto-consegna/punto-consegna.go. The multipart
-- writer of go-message is a parameter.
mod Texts
use go_pec.Base.{
  if◌then◌else◌, any, Text, utf8, text_eq, is_empty, to_lower, equal_fold, trim_space, Time, Bool,
  true, false, not, ◌&&◌, Option, none, some, List, [], ◌∷◌,
}
use go_pec.Mail.{header_of, Address, Entity, MailLibrary}
unfoldable pub use Texts.*

-- message.CreateWriter on a buffer, which may fail; CreatePart, Write and Close of one part; and the
-- bytes after Close.
pub record PartWriter (H : Type 0) : Type 1 where
  pub Writer : Type 0
  pub create_writer : H → Option Writer
  pub create_part : Writer → H → Text → Writer
  pub close : Writer → Text

pub data ReceiptType : Type 0 where
  receipt_normal receipt_short receipt_synthetic : ReceiptType

pub data RecipientType : Type 0 where
  recipient_primary recipient_cc recipient_ambiguous : RecipientType

unfoldable pub receipt_type_of : Text → ReceiptType
receipt_type_of tipo =
    if text_eq tipo (utf8 "breve")
    then receipt_short
    else if text_eq tipo (utf8 "sintetica")
    then receipt_synthetic
    else receipt_normal

-- Whether a list that parsed names the recipient.
unfoldable pub names : Option (List Address) → Text → Bool
names none recipient = false
names (some addresses) recipient = any (λ (a : Address). equal_fold a.address recipient) addresses

module _ (lib : MailLibrary) (writer : PartWriter lib.Header) where
  open lib use {Header, get, parse_address_list}
  open writer use {Writer, create_writer, create_part, close}

  unfoldable pub parse_receipt_type : Entity Header → ReceiptType
  parse_receipt_type msg =
      receipt_type_of (to_lower (trim_space (get msg.header (utf8 "X-TipoRicevuta"))))

  unfoldable pub determine_recipient_type : Entity Header → Text → RecipientType
  determine_recipient_type msg recipient =
      let to_field = get msg.header (utf8 "To") in
      let cc_field = get msg.header (utf8 "Cc") in
      if names (parse_address_list to_field) recipient
      then recipient_primary
      else if not (is_empty cc_field) && names (parse_address_list cc_field) recipient
      then recipient_cc
      else recipient_ambiguous

  abbrev original : Entity Header → Original
  original msg = record {
    sender = get msg.header (utf8 "From");
    subject = or_default (get msg.header (utf8 "Subject")) (utf8 "(nessun oggetto)");
    message_id = or_default (get msg.header (utf8 "Message-ID")) (utf8 "(non disponibile)");
  }

  unfoldable pub include_original : RecipientType → Bool
  include_original recipient_primary = true
  include_original recipient_cc = false
  include_original recipient_ambiguous = true

  unfoldable pub create_certification_xml : Time → Text → Entity Header → Text → Text → Text
  create_certification_xml timestamp domain msg recipient identifier =
      certification_xml timestamp domain (original msg) recipient identifier

  -- The original message is what is left of its body.
  unfoldable pub create_normal_receipt_body : Time → Text → Entity Header → Text → Text → Text
  create_normal_receipt_body timestamp domain msg recipient identifier =
      elim (create_writer (header_of lib ((utf8 "Content-Type", utf8 "multipart/mixed") ∷ []))) [
        | none ↦ utf8 "Error creating receipt"
        | some mw ↦
            let mw₁ =
              create_part mw
                (header_of lib (
                  (utf8 "Content-Type", utf8 "text/plain; charset=utf-8")
                  ∷ (utf8 "Content-Transfer-Encoding", utf8 "8bit")
                  ∷ []))
                (receipt_text timestamp (original msg) recipient) in
            let mw₂ =
              create_part mw₁
                (header_of lib (
                  (utf8 "Content-Type", utf8 "application/xml")
                  ∷ (utf8 "Content-Disposition", utf8 "attachment; filename=\"certificazione.xml\"")
                  ∷ []))
                (create_certification_xml timestamp domain msg recipient identifier) in
            let mw₃ =
              if include_original (determine_recipient_type msg recipient)
              then create_part mw₂
                  (header_of lib (
                    (utf8 "Content-Type", utf8 "message/rfc822")
                    ∷ (
                      utf8 "Content-Disposition",
                      utf8 "attachment; filename=\"messaggio-originale.eml\"",
                    )
                    ∷ []))
                  msg.body
              else mw₂ in
            close mw₃
      ]
