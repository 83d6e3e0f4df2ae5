-- ===== src/Pec/Tests.antt =====
-- The theorems on the parser at concrete inputs.
use go_pec.Base.{Text, utf8, Dict, ok, ◌≡◌, refl, none, [], ◌∷◌}
use go_pec.Pec.Types.{
  header_get, empty_mail, empty_dati_cert, extract_pec_headers, DatiCert, MimeLibrary, MailMessage,
}
use go_pec.Pec.Kind.{kind_of, extract_pec_headers_lem}

abbrev receipt_header : Dict Text
receipt_header =
    (utf8 "Content-Type", utf8 "multipart/signed")
    ∷ (utf8 "Message-ID", utf8 "<1@pec.it>")
    ∷ (utf8 "X-Ricevuta", utf8 "accettazione")
    ∷ []

abbrev receipt : MailMessage
receipt = record { header = receipt_header; body = [] }

abbrev certified : DatiCert
certified = record empty_dati_cert { tipo = utf8 "accettazione" }

-- Every message has one part, which is a multipart with one part of XML.
abbrev mime_library : MimeLibrary
mime_library = record {
  parse_media_type = λ t. record { media_type = t; boundary = []; failure = none };
  parts = λ body boundary. elim body [
    | [] ↦ (
      record {
        content_type = utf8 "multipart/mixed";
        transfer_encoding = [];
        content = utf8 "inner";
      }
          ∷ [],
      none,
    )
    | _ ∷ _ ↦ (
      record {
        content_type = utf8 "application/xml";
        transfer_encoding = utf8 "base64";
        content = utf8 "xml";
      }
          ∷ [],
      none,
    )
  ];
  decode_base64 = λ t. ok t;
  unmarshal = λ t. ok certified;
}

extract_pec_headers_lem_example :
    ((extract_pec_headers receipt_header empty_mail).pec_type
      ≡ kind_of
          (header_get receipt_header (utf8 "X-Trasporto"))
          (header_get receipt_header (utf8 "X-Ricevuta")))
    × ((extract_pec_headers receipt_header empty_mail).message_id
        ≡ header_get receipt_header (utf8 "Message-ID"))
    × ((extract_pec_headers receipt_header empty_mail).envelope ≡ empty_mail.envelope)
extract_pec_headers_lem_example = extract_pec_headers_lem receipt_header empty_mail refl
