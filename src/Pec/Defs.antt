-- ===== src/Pec/Defs.antt =====
-- `ParsePec` and its helpers of pec/pec_parser.go.
use go_pec.Base.{
  if◌then◌else◌, Text, utf8, text_eq, trim_space, Dict, decimal, with_context, Error, message,
  Outcome, ok, ℕ, Bool, true, false, not, Option, none, some, List, [], ◌∷◌, ◌++◌,
}
use go_pec.Pec.Types.{
  header_get, empty_mail, empty_dati_cert, extract_pec_headers, MailEnvelope, PecType, untyped,
  certified_email, delivery_receipt, delivery_error_receipt, acceptance_receipt, PecMail, DatiCert,
  Part, MimeLibrary, MailMessage,
}

-- The number of a type, in the order of the constants.
unfoldable pub type_number : PecType → ℕ
type_number untyped = 0
type_number certified_email = 1
type_number delivery_receipt = 2
type_number delivery_error_receipt = 3
type_number acceptance_receipt = 4

-- The cross-check at the end of `ParsePec`.
unfoldable pub mismatch : PecType → Text → Bool
mismatch acceptance_receipt tipo = not (text_eq tipo (utf8 "accettazione"))
mismatch delivery_receipt tipo = not (text_eq tipo (utf8 "avvenuta-consegna"))
mismatch certified_email tipo = not (text_eq tipo (utf8 "posta-certificata"))
mismatch delivery_error_receipt tipo = not (text_eq tipo (utf8 "errore-consegna"))
mismatch untyped tipo = false

-- The three results of `ParsePec`; a nil pointer or error is `none`.
abbrev pub Parsed : Type 0
Parsed = Option PecMail × Option DatiCert × Option Error

abbrev pub failed : Text → Parsed
failed reason = (none, none, some (message reason))

unfoldable pub cross_check : PecMail → DatiCert → Parsed
unfolding mismatch
cross_check m d =
    if mismatch m.pec_type d.tipo
    then failed (
        utf8 "mismatch between PEC type and DatiCert type: "
        ++ decimal (type_number m.pec_type)
        ++ utf8 " vs "
        ++ d.tipo)
    else (some m, some d, none)

abbrev read_envelope : Dict Text → MailEnvelope
read_envelope h = record {
  from = header_get h (utf8 "From");
  to = header_get h (utf8 "To");
  subject = header_get h (utf8 "Subject");
  date = header_get h (utf8 "Date");
}

-- The mail as `ParsePec` reads it from the header.
unfoldable pub read_mail : Dict Text → PecMail
unfolding extract_pec_headers
read_mail h = extract_pec_headers h (record empty_mail { envelope = read_envelope h })

abbrev pub is_untyped : PecType → Bool
is_untyped untyped = true
is_untyped _ = false

module _ (lib : MimeLibrary) where
  open lib use {parse_media_type, parts, decode_base64, unmarshal}

  unfoldable pub parse_dati_cert_xml : Text → Outcome DatiCert
  parse_dati_cert_xml content =
      with_context (utf8 "failed to parse daticert.xml") (unmarshal (trim_space content))

  -- An error is printed and gives nil.
  abbrev or_nil : Outcome DatiCert → Option DatiCert
  or_nil (ok d) = some d
  or_nil _ = none

  unfoldable pub xml_part : Part → Option DatiCert
  unfolding parse_dati_cert_xml
  xml_part p =
      if text_eq p.transfer_encoding (utf8 "base64")
      then elim (decode_base64 p.content) [
        | ok decoded ↦ or_nil (parse_dati_cert_xml decoded)
        | _ ↦ none
      ]
      else or_nil (parse_dati_cert_xml p.content)

  -- The first XML part decides; an error while reading and the end of the parts both give nil.
  unfoldable pub first_xml : List Part → Option DatiCert
  unfolding xml_part
  first_xml [] = none
  first_xml (p ∷ ps) =
      if text_eq (parse_media_type p.content_type).media_type (utf8 "application/xml")
      then xml_part p
      else first_xml ps

  unfoldable pub parse_mixed_part : Text → Text → Option DatiCert
  unfolding first_xml
  parse_mixed_part content boundary = first_xml (parts content boundary).0

  -- The loop of `ParsePec` over the parts, with the error that ended them; it goes on only while
  -- each mixed part has its certification data.
  unfoldable pub parse_parts : List Part → Option Error → PecMail → DatiCert → Parsed
  unfolding parse_mixed_part cross_check
  parse_parts [] none m d = cross_check m d
  parse_parts [] (some _) m d = (some m, some d, none)
  parse_parts (p ∷ ps) end m d =
      let t = parse_media_type p.content_type in
      let on = parse_parts ps end m d in
      if text_eq t.media_type (utf8 "multipart/mixed")
      then elim (parse_mixed_part p.content t.boundary) [
        | none ↦ failed (utf8 "failed to parse mixed part")
        | some found ↦ parse_parts ps end m found
      ]
      else on

  unfoldable pub parse_pec : MailMessage → Parsed
  parse_pec msg =
      let t = parse_media_type (header_get msg.header (utf8 "Content-Type")) in
      let m = read_mail msg.header in
      let (ps, end) = parts msg.body t.boundary in
      let body = parse_parts ps end m empty_dati_cert in
      elim t.failure [
        | some e ↦ (some empty_mail, some empty_dati_cert, some e)
        | none ↦
            if not (text_eq t.media_type (utf8 "multipart/signed"))
            then (some empty_mail, some empty_dati_cert, none)
            else if is_untyped m.pec_type
            then failed (utf8 "not a pec")
            else body
      ]
