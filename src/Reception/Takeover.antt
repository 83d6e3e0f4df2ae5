-- ===== src/Reception/Takeover.antt =====
-- `EmitPresaInCaricoReceipt` of pec-server/punto-ricezione/punto-ricezione.go. What encoding/xml
-- makes of a record is a parameter.
use go_pec.Base.{
  Text, utf8, date_slashes, clock_time, rfc1123z, Time, ◌>>=◌, with_context, Outcome, List, [], ◌∷◌,
  ◌++◌,
}
use go_pec.Mail.{header_of, Address, MailLibrary}
use go_pec.Signer.{base64}
use go_pec.Smtp.{parse_email_from_session, Session}
use go_pec.Reception.Anomaly.{address_lines, or_nil, first, text_fields, written_multipart}
use go_pec.Reception.Network.{Traced, chain, forward_envelope_to_delivery_point, Network}

pub record CertData : Type 0 where
  pub data_giorno : Text
  pub ora : Text
  pub oggetto : Text
  pub mittente : Text
  pub destinatario : Text
  pub msg_id : Text

abbrev nl : Text
nl = 10 ∷ []

unfoldable pub lookup_provider_receipt_address : List Address → Text
lookup_provider_receipt_address from = utf8 "ricevute@provider.it"

unfoldable pub takeover_text : Time → Text → Text → List Address → Text → Text
takeover_text now subject from to message_id =
    utf8 "Ricevuta di presa in carico"
    ++ nl
    ++ utf8 "Il giorno "
    ++ date_slashes now
    ++ utf8 " alle ore "
    ++ clock_time now
    ++ utf8 " ("
    ++ now.zone
    ++ utf8 ") il messaggio"
    ++ nl
    ++ utf8 "\""
    ++ subject
    ++ utf8 "\" proveniente da \""
    ++ from
    ++ utf8 "\""
    ++ nl
    ++ utf8 "ed indirizzato a:"
    ++ nl
    ++ address_lines to
    ++ nl
    ++ utf8 "è stato accettato dal sistema."
    ++ nl
    ++ utf8 "Identificativo messaggio: "
    ++ message_id
    ++ nl

module _ (lib : MailLibrary) (marshal : CertData → Text) where
  open lib use {
    Header, empty_header, get, set, address_list, set_address_list, subject, set_subject, new,
  }

  -- The header that the source builds for the receipt.
  unfoldable pub receipt_header : Time → Text → Header → Header
  receipt_header now domain original =
      let h₁ = set_subject empty_header (utf8 "PRESA IN CARICO: " ++ subject original) in
      let h₂ =
        set_address_list h₁ (utf8 "From")
          (record { name = []; address = utf8 "posta-certificata@" ++ domain } ∷ []) in
      let h₃ = set_address_list h₂ (utf8 "To") (
        record {
          name = [];
          address = lookup_provider_receipt_address (or_nil (address_list original (utf8 "From")));
        }
        ∷ []) in
      let h₄ = set h₃ (utf8 "X-Ricevuta") (utf8 "presa-in-carico") in
      let h₅ = set h₄ (utf8 "Date") (rfc1123z now) in
      set h₅ (utf8 "X-Riferimento-Message-ID") (get original (utf8 "Message-ID"))

  abbrev cert_data : Time → Header → Text → CertData
  cert_data now original from = record {
    data_giorno = date_slashes now;
    ora = clock_time now;
    oggetto = subject original;
    mittente = from;
    destinatario = address_lines (or_nil (address_list original (utf8 "To")));
    msg_id = get original (utf8 "Message-ID");
  }

  abbrev certificate_fields : List (Text × Text)
  certificate_fields =
      (utf8 "Content-Type", utf8 "application/xml")
      ∷ (utf8 "Content-Disposition", utf8 "attachment; filename=\"daticert.xml\"")
      ∷ (utf8 "Content-Transfer-Encoding", utf8 "base64")
      ∷ []

  -- The bytes of the receipt; its header is made, and the entity is made without it.
  unfoldable pub takeover_receipt : Time → Session → Outcome Text
  takeover_receipt now s = do
    (original, _) ←
        with_context (utf8 "failed to parse original message") (parse_email_from_session lib s)
    let unused = receipt_header now s.domain original
    author ← first (or_nil (address_list original (utf8 "From")))
    text_part ← with_context (utf8 "failed to create text part") (
        new (header_of lib text_fields) (
          takeover_text now (subject original) author.address
            (or_nil (address_list original (utf8 "To"))) (get original (utf8 "Message-ID"))))
    xml_part ← with_context (utf8 "failed to create xml part") (
        new (header_of lib certificate_fields)
          (base64 (marshal (cert_data now original author.address))))
    written_multipart lib text_part xml_part

  unfoldable pub emit_presa_in_carico_receipt : Network → Time → Session → Traced (Unit {0})
  emit_presa_in_carico_receipt net now s =
      chain ([], takeover_receipt now s) (forward_envelope_to_delivery_point net)
