-- ===== src/Access/Envelope.antt =====
-- The transport envelope of pec-server/punto-accesso/punto-accesso.go: its header, its body and
-- its certification data, and its form as a message.
pub mod Headers
mod Texts
use go_pec.Base.{
  if◌then◌else◌, Text, utf8, is_empty, Dict, insert, decimal, rfc1123z, Time, ◌>>=◌, with_context,
  Outcome, ok, List, [], ◌∷◌, ◌++◌,
}
use go_pec.Commons.{parse_email_message, extract_recipients}
use go_pec.Mail.{MailLibrary}
unfoldable pub use Texts.*

pub record PecTransportEnvelope : Type 0 where
  pub headers : Dict Text
  pub body : Text
  pub xml_data : Text

abbrev crlf : Text
crlf = 13 ∷ 10 ∷ []

unfoldable pub inherited_headers : List Text
inherited_headers =
    utf8 "Received"
    ∷ utf8 "To"
    ∷ utf8 "Cc"
    ∷ utf8 "Return-Path"
    ∷ utf8 "Message-ID"
    ∷ utf8 "X-Riferimento-Message-ID"
    ∷ utf8 "X-TipoRicevuta"
    ∷ []

-- The loop that copies the fields that are there.
unfoldable pub inherit : (Text → Text) → List Text → Dict Text → Dict Text
inherit original [] headers = headers
inherit original (name ∷ names) headers =
    inherit original names
      (if is_empty (original name) then headers else insert name (original name) headers)

-- The fields that are set after the inherited ones.
unfoldable pub required_headers : (Text → Text) → PecCertificationData → Dict Text → Dict Text
required_headers original c h₀ =
    let h₁ = insert (utf8 "X-Trasporto") (utf8 "posta-certificata") h₀ in
    let h₂ = insert (utf8 "Date") (rfc1123z c.date) h₁ in
    let h₃ = insert (utf8 "Subject") (utf8 "POSTA CERTIFICATA: " ++ c.original_subject) h₂ in
    let h₄ = insert (utf8 "From") (utf8 "Per conto di: " ++ c.original_from) h₃ in
    if is_empty (original (utf8 "Reply-To"))
    then insert (utf8 "Reply-To") c.original_from h₄
    else h₄

-- The original header is given by its `Get`.
unfoldable pub create_pec_transport_envelope :
    (Text → Text) → PecCertificationData → PecTransportEnvelope
create_pec_transport_envelope original c = record {
  headers = required_headers original c (inherit original inherited_headers []);
  body = create_pec_body_text c;
  xml_data = create_pec_xml_data c;
}

unfoldable pub header_lines : Dict Text → Text
header_lines [] = []
header_lines ((name, value) ∷ h) = name ++ utf8 ": " ++ value ++ crlf ++ header_lines h

unfoldable pub generate_boundary : Time → Text
generate_boundary now = utf8 "----=_NextPart_" ++ decimal now.unix_nano

-- Go ranges over a map in any order: `arrange` is the order of this call.
unfoldable pub format_pec_envelope_as_rfc2822 :
    (Dict Text → Dict Text) → Time → PecTransportEnvelope → Text → Text
format_pec_envelope_as_rfc2822 arrange now e original_raw =
    let boundary = generate_boundary now in
    header_lines (arrange e.headers)
    ++ utf8 "Content-Type: multipart/mixed; boundary=\""
    ++ boundary
    ++ utf8 "\""
    ++ crlf
    ++ utf8 "MIME-Version: 1.0"
    ++ crlf
    ++ crlf
    ++ utf8 "--"
    ++ boundary
    ++ crlf
    ++ utf8 "Content-Type: text/plain; charset=UTF-8"
    ++ crlf
    ++ utf8 "Content-Transfer-Encoding: 8bit"
    ++ crlf
    ++ crlf
    ++ e.body
    ++ crlf
    ++ crlf
    ++ utf8 "--"
    ++ boundary
    ++ crlf
    ++ utf8 "Content-Type: message/rfc822"
    ++ crlf
    ++ utf8 "Content-Disposition: attachment; filename=\"messaggio-originale.eml\""
    ++ crlf
    ++ crlf
    ++ original_raw
    ++ crlf
    ++ crlf
    ++ utf8 "--"
    ++ boundary
    ++ crlf
    ++ utf8 "Content-Type: application/xml"
    ++ crlf
    ++ utf8 "Content-Disposition: attachment; filename=\"postacert.xml\""
    ++ crlf
    ++ crlf
    ++ e.xml_data
    ++ crlf
    ++ crlf
    ++ utf8 "--"
    ++ boundary
    ++ utf8 "--"
    ++ crlf

module _ (lib : MailLibrary) where
  open lib use {Header, get}

  abbrev certification_data : Time → Header → PecCertificationData
  certification_data now h = record {
    message_id = get h (utf8 "Message-ID");
    original_subject = get h (utf8 "Subject");
    original_from = get h (utf8 "From");
    recipients = extract_recipients lib h;
    date = now;
    timezone = utf8 "CET";
  }

  -- The two readings of the clock are those for the date and for the boundary.
  unfoldable pub process_pec_message : (Dict Text → Dict Text) → Time → Time → Text → Outcome Text
  process_pec_message arrange now at_boundary raw = do
    h ← with_context (utf8 "failed to parse original message") (parse_email_message lib raw)
    let envelope = create_pec_transport_envelope (get h) (certification_data now h)
    ok (format_pec_envelope_as_rfc2822 arrange at_boundary envelope raw)
