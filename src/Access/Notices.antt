-- ===== src/Access/Notices.antt =====
-- `GenerateNonAcceptanceEmail` and `GenerateAcceptanceEmail` of
-- pec-server/punto-accesso/punto-accesso.go. What encoding/xml makes of a record is a parameter.
pub mod Fields
mod Texts
use Prim.Native.String.{String}
use go_pec.Base.{
  Text, utf8, to_upper, join, date_slashes, clock_time, rfc1123z, rfc3339, Time, ◌>>=◌, ◌>>◌,
  with_context, ValidationError, Outcome, ok, List, [], ◌∷◌, ◌++◌,
}
use go_pec.Mail.{set_all, header_of, Entity, MailLibrary}
use go_pec.Signer.{base64, create_signed_mime_message_entity, Signer, Pkcs7}
unfoldable pub use Texts.*
use go_pec.Access.Notices.Texts.{
  nl, refusal_text, acceptance_text, acceptance_html, generated_message_id,
}

-- The access point's own `DatiCert`.
pub record NoticeData : Type 0 where
  pub message_id : Text
  pub subject : Text
  pub from : Text
  pub to : List Text
  pub reason : Text
  pub generated_at : Text

pub record PostaCert : Type 0 where
  pub tipo : Text
  pub errore : Text
  pub mittente : Text
  pub destinatari_tipo : Text
  pub destinatari_val : Text
  pub risposte : Text
  pub oggetto : Text
  pub gestore_emittente : Text
  pub zona : Text
  pub giorno : Text
  pub ora : Text
  pub identificativo : Text
  pub msg_id : Text

-- xml.MarshalIndent; the error of the first call is ignored by the source.
pub record XmlLibrary : Type 0 where
  pub marshal_notice : NoticeData → Text
  pub marshal_posta_cert : PostaCert → Outcome Text

abbrev posta_cert : Time → Text → Text → Text → Text → List Text → Text → PostaCert
posta_cert now generated_id domain message_id from to subject = record {
  tipo = utf8 "accettazione";
  errore = utf8 "nessuno";
  mittente = from;
  destinatari_tipo = utf8 "certificato";
  destinatari_val = join to (utf8 ", ");
  risposte = from;
  oggetto = subject;
  gestore_emittente = to_upper domain ++ utf8 " PEC S.p.A.";
  zona = now.offset;
  giorno = date_slashes now;
  ora = clock_time now;
  identificativo = generated_id;
  msg_id = message_id;
}

-- xml.Header in front of the marshalled bytes.
abbrev with_xml_header : Outcome Text → Outcome Text
with_xml_header marshalled = do
  bytes ← marshalled
  ok (utf8 "<?xml version=\"1.0\" encoding=\"UTF-8\"?>" ++ nl ++ bytes)

abbrev field : String → String → Text × Text
field name value = (utf8 name, utf8 value)

-- The fields that are set on the signed message.
abbrev pub refusal_fields : Text → ValidationError → List (Text × Text)
refusal_fields domain e =
    (utf8 "X-Ricevuta", utf8 "non-accettazione")
    ∷ (utf8 "Date", rfc1123z e.generated_at)
    ∷ (utf8 "Subject", utf8 "AVVISO DI NON ACCETTAZIONE: " ++ e.subject)
    ∷ (utf8 "From", utf8 "posta-certificata@" ++ domain)
    ∷ (utf8 "To", e.from)
    ∷ (utf8 "X-Riferimento-Message-ID", e.message_id)
    ∷ []

abbrev pub acceptance_fields : Time → Text → Text → Text → Text → List (Text × Text)
acceptance_fields now domain message_id from subject =
    (utf8 "X-Ricevuta", utf8 "accettazione")
    ∷ (utf8 "Date", rfc1123z now)
    ∷ (utf8 "Subject", utf8 "ACCETTAZIONE: " ++ subject)
    ∷ (utf8 "From", utf8 "posta-certificata@" ++ domain)
    ∷ (utf8 "To", from)
    ∷ (utf8 "X-Riferimento-Message-ID", message_id)
    ∷ []

module _ (lib : MailLibrary) (xml : XmlLibrary) (p7 : Pkcs7) where
  open lib use {Header, new, new_multipart, write_to}

  -- text/plain, text/html and the certification data in their two multiparts, as bytes.
  unfoldable pub mixed_body :
      List (Text × Text)
      → Text
      → List (Text × Text)
      → Outcome Text
      → List (Text × Text)
      → Text
      → Outcome Text
  mixed_body text_fields text xml_fields marshalled html_fields html = do
    text_part ←
        with_context (utf8 "failed to create text part") (new (header_of lib text_fields) text)
    xml_bytes ← marshalled
    xml_part ←
        with_context (utf8 "failed to create xml part")
          (new (header_of lib xml_fields) (base64 xml_bytes))
    html_part ←
        with_context (utf8 "failed to create html part") (new (header_of lib html_fields) html)
    alt ← with_context (utf8 "failed to create multipart/alternative entity") (
        new_multipart
          (header_of lib (
            field "Content-Type" "multipart/alternative"
            ∷ field "Content-Transfer-Encoding" "binary"
            ∷ []))
          (text_part ∷ html_part ∷ []))
    mixed ← with_context (utf8 "failed to create multipart/mixed entity") (
        new_multipart
          (header_of lib (
            field "Content-Type" "multipart/mixed"
            ∷ field "Content-Transfer-Encoding" "binary"
            ∷ []))
          (alt ∷ xml_part ∷ []))
    let (body, ended) = write_to mixed
    with_context (utf8 "failed to write multipart/mixed entity") ended
    ok body

  -- The body signed, with the fields of the notice set on the message that results.
  unfoldable pub signed_notice : List (Text × Text) → Signer → Text → Outcome (Entity Header)
  signed_notice fields signer body = do
    signed ←
        with_context (utf8 "failed to create signed email")
          (create_signed_mime_message_entity lib p7 signer body)
    ok (record signed { header = set_all lib signed.header fields })

  unfoldable pub refusal_body : ValidationError → Outcome Text
  refusal_body e =
      mixed_body (field "Content-Type" "text/plain; charset=utf-8" ∷ []) (refusal_text e)
        (field "Content-Type" "application/xml"
          ∷ field "Content-Disposition" "attachment; filename=\"daticert.xml\""
          ∷ field "Content-Transfer-Encoding" "base64"
          ∷ [])
        (ok (
          xml.marshal_notice (record {
            message_id = e.message_id;
            subject = e.subject;
            from = e.from;
            to = e.to;
            reason = e.reason;
            generated_at = rfc3339 e.generated_at;
          })))
        (field "Content-Type" "text/html; charset=utf-8"
          ∷ field "Content-Disposition" "inline"
          ∷ field "Content-Transfer-Encoding" "quoted-printable"
          ∷ [])
        (utf8 "<html><body><pre>" ++ refusal_text e ++ utf8 "</pre></body></html>")

  unfoldable pub generate_non_acceptance_email :
      Text → ValidationError → Signer → Outcome (Entity Header)
  generate_non_acceptance_email domain e signer = do
    body ← refusal_body e
    signed_notice (refusal_fields domain e) signer body

  unfoldable pub acceptance_body : Time → Text → Text → Text → List Text → Text → Outcome Text
  acceptance_body now domain message_id from to subject =
      let generated_id = generated_message_id now domain in
      mixed_body
        (field "Content-Type" "text/plain; charset=utf-8"
          ∷ field "Content-Disposition" "inline"
          ∷ field "Content-Transfer-Encoding" "quoted-printable"
          ∷ [])
        (acceptance_text now generated_id from to subject)
        (field "Content-Type" "application/xml; name=\"daticert.xml\""
          ∷ field "Content-Disposition" "inline; filename=\"daticert.xml\""
          ∷ field "Content-Transfer-Encoding" "base64"
          ∷ [])
        (with_xml_header (
          with_context (utf8 "failed to marshal XML") (
            xml.marshal_posta_cert
              (posta_cert now generated_id domain message_id from to subject))))
        (field "Content-Type" "text/html; charset=utf-8"
          ∷ field "Content-Disposition" "inline"
          ∷ field "Content-Transfer-Encoding" "quoted-printable"
          ∷ [])
        (acceptance_html now generated_id from to subject)

  unfoldable pub generate_acceptance_email :
      Time → Text → Text → Text → List Text → Text → Signer → Outcome (Entity Header)
  generate_acceptance_email now domain message_id from to subject signer = do
    body ← acceptance_body now domain message_id from to subject
    signed_notice (acceptance_fields now domain message_id from subject) signer body
