-- ===== src/Reception/Anomaly.antt =====
-- `CreateAnomalyEnvelope` of pec-server/punto-ricezione/punto-ricezione.go.
pub mod Fields
use go_pec.Base.{
  if◌then◌else◌, Text, utf8, is_empty, date_slashes, clock_time, rfc1123z, Time, ◌>>=◌, ◌>>◌,
  with_context, Outcome, ok, panic, Option, none, some, List, [], ◌∷◌, ◌++◌,
}
use go_pec.Mail.{header_of, Address, Entity, MailLibrary}
use go_pec.Smtp.{get_data, parse_email_from_session, Session}

abbrev nl : Text
nl = 10 ∷ []

unfoldable pub address_lines : List Address → Text
address_lines [] = []
address_lines (a ∷ rest) = a.address ++ nl ++ address_lines rest

-- A failed lookup gives Go's nil slice.
abbrev pub or_nil : Option (List Address) → List Address
or_nil none = []
or_nil (some l) = l

-- `l[0]`
unfoldable pub first : List Address → Outcome Address
first [] = panic
first (a ∷ _) = ok a

unfoldable pub anomaly_text : Time → Text → Text → List Address → Text
anomaly_text now subject from to =
    utf8 "Anomalia nel messaggio"
    ++ nl
    ++ utf8 "Il giorno "
    ++ date_slashes now
    ++ utf8 " alle ore "
    ++ clock_time now
    ++ utf8 " ("
    ++ now.zone
    ++ utf8 ") è stato ricevuto"
    ++ nl
    ++ utf8 "il messaggio \""
    ++ subject
    ++ utf8 "\" proveniente da \""
    ++ from
    ++ utf8 "\""
    ++ nl
    ++ utf8 "ed indirizzato a:"
    ++ nl
    ++ address_lines to
    ++ nl
    ++ utf8 "Tali dati non sono stati certificati per il seguente errore:"
    ++ nl
    ++ utf8 "Errore di validazione PEC"
    ++ nl
    ++ utf8 "Il messaggio originale è incluso in allegato."
    ++ nl

abbrev pub text_fields : List (Text × Text)
text_fields = (utf8 "Content-Type", utf8 "text/plain; charset=utf-8") ∷ []

abbrev pub original_fields : List (Text × Text)
original_fields =
    (utf8 "Content-Type", utf8 "message/rfc822")
    ∷ (utf8 "Content-Disposition", utf8 "attachment; filename=\"original.eml\"")
    ∷ []

abbrev pub mixed_fields : List (Text × Text)
mixed_fields =
    (utf8 "Content-Type", utf8 "multipart/mixed")
    ∷ (utf8 "Content-Transfer-Encoding", utf8 "binary")
    ∷ []

module _ (lib : MailLibrary) where
  open lib use {
    Header, empty_header, get, set, address_list, set_address_list, subject, set_subject,
    fields_by_key, new, new_multipart, write_to,
  }

  unfoldable pub set_each : Text → List Text → Header → Header
  set_each name [] h = h
  set_each name (v ∷ vs) h = set_each name vs (set h name v)

  -- A field of the original is copied when it is there.
  abbrev copy : Header → Text → Header → Header
  copy original name h = if is_empty (get original name) then h else set h name (get original name)

  -- The header that the source builds for the envelope.
  unfoldable pub anomaly_header : Time → Text → Header → Address → Header
  anomaly_header now domain original author =
      let h₁ = set empty_header (utf8 "X-Trasporto") (utf8 "errore") in
      let h₂ = set h₁ (utf8 "Date") (rfc1123z now) in
      let h₃ = set_subject h₂ (utf8 "ANOMALIA MESSAGGIO: " ++ subject original) in
      let h₄ = set_address_list h₃ (utf8 "From") (
        record {
          name = utf8 "Per conto di: " ++ author.address;
          address = utf8 "posta-certificata@" ++ domain;
        }
        ∷ []) in
      let h₅ =
        if is_empty (get original (utf8 "Reply-To"))
        then set_address_list h₄ (utf8 "Reply-To") (author ∷ [])
        else h₄ in
      let h₆ = set_each (utf8 "Received") (fields_by_key original (utf8 "Received")) h₅ in
      copy original (utf8 "Message-ID") (
        copy original (utf8 "Return-Path")
          (copy original (utf8 "Cc") (copy original (utf8 "To") h₆)))

  -- Two parts under multipart/mixed, as bytes.
  unfoldable pub written_multipart : Entity Header → Entity Header → Outcome Text
  written_multipart one two = do
    mixed ←
        with_context (utf8 "failed to create multipart/mixed entity")
          (new_multipart (header_of lib mixed_fields) (one ∷ two ∷ []))
    let (bytes, ended) = write_to mixed
    with_context (utf8 "failed to write multipart/mixed entity") ended
    ok bytes

  -- The header is made, and the entity is made without it.
  unfoldable pub create_anomaly_envelope : Time → Session → Outcome Text
  create_anomaly_envelope now s = do
    (original, _) ←
        with_context (utf8 "failed to parse original message") (parse_email_from_session lib s)
    author ← first (or_nil (address_list original (utf8 "From")))
    let unused = anomaly_header now s.domain original author
    text_part ← with_context (utf8 "failed to create text part") (
        new (header_of lib text_fields) (
          anomaly_text now (subject original) author.address
            (or_nil (address_list original (utf8 "To")))))
    data_bytes ← with_context (utf8 "failed to get session data") (get_data s)
    attachment ←
        with_context (utf8 "failed to create attachment part")
          (new (header_of lib original_fields) data_bytes)
    written_multipart text_part attachment
