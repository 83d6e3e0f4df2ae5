-- ===== src/Pec/Types.antt =====
-- The types of pec/pec.go, the interface of the libraries that read MIME, and the header fields of
-- pec/pec_parser.go. What package mime, mime/multipart, encoding/base64 and encoding/xml make of a
-- text is a parameter.
use go_pec.Base.{
  if◌then◌else◌, Text, utf8, text_eq, is_empty, equal_fold, contains, Dict, Error, Outcome, Option,
  List, [], ◌∷◌,
}

pub record MailEnvelope : Type 0 where
  pub from : Text
  pub to : Text
  pub subject : Text
  pub date : Text

-- `untyped` is the constant None.
pub data PecType : Type 0 where
  untyped certified_email delivery_receipt delivery_error_receipt acceptance_receipt : PecType

pub record PecMail : Type 0 where
  pub envelope : MailEnvelope
  pub message_id : Text
  pub pec_type : PecType

pub record DatiCert : Type 0 where
  pub tipo : Text
  pub errore : Text
  pub mittente : Text
  pub destinatari_tipo : Text
  pub destinatari_val : Text
  pub risposte : Text
  pub oggetto : Text
  pub gestore_emittente : Text
  pub zona : Text
  pub giorno : Text
  pub ora : Text
  pub identificativo : Text
  pub msg_id : Text
  pub errore_esteso : Text

-- A part of a multipart body: two of its header fields, and its content.
pub record Part : Type 0 where
  pub content_type : Text
  pub transfer_encoding : Text
  pub content : Text

-- mime.ParseMediaType: the type, the parameter "boundary", and the error.
pub record MediaType : Type 0 where
  pub media_type : Text
  pub boundary : Text
  pub failure : Option Error

-- `parts` gives the parts of a body up to its end (`none`) or to an error.
pub record MimeLibrary : Type 0 where
  pub parse_media_type : Text → MediaType
  pub parts : Text → Text → List Part × Option Error
  pub decode_base64 : Text → Outcome Text
  pub unmarshal : Text → Outcome DatiCert

-- net/mail.Message: the first value of each header field, and the body.
pub record MailMessage : Type 0 where
  pub header : Dict Text
  pub body : Text

-- net/mail.Header.Get
unfoldable pub header_get : Dict Text → Text → Text
header_get [] k = []
header_get ((j, v) ∷ h) k = if equal_fold j k then v else header_get h k

abbrev pub empty_mail : PecMail
empty_mail = record {
  envelope = record { from = []; to = []; subject = []; date = [] };
  message_id = [];
  pec_type = untyped;
}

abbrev pub empty_dati_cert : DatiCert
empty_dati_cert = record {
  tipo = [];
  errore = [];
  mittente = [];
  destinatari_tipo = [];
  destinatari_val = [];
  risposte = [];
  oggetto = [];
  gestore_emittente = [];
  zona = [];
  giorno = [];
  ora = [];
  identificativo = [];
  msg_id = [];
  errore_esteso = [];
}

-- The value of "X-Ricevuta"; an unknown one leaves the type.
unfoldable pub receipt_type : Text → PecType → PecType
receipt_type value old =
    if contains value (utf8 "accettazione")
    then acceptance_receipt
    else if contains value (utf8 "avvenuta-consegna")
    then delivery_receipt
    else if contains value (utf8 "errore-consegna")
    then delivery_error_receipt
    else old

unfoldable pub transport_type : Text → PecType → PecType
transport_type value old =
    if contains value (utf8 "posta-certificata") then certified_email else old

-- The body of the loop of `extractPECHeaders`.
unfoldable pub extract_header : Dict Text → PecMail → Text → PecMail
extract_header h m name =
    let value = header_get h name in
    if is_empty value
    then m
    else if text_eq name (utf8 "X-Ricevuta")
    then record m { pec_type = receipt_type value m.pec_type }
    else if text_eq name (utf8 "X-Trasporto")
    then record m { pec_type = transport_type value m.pec_type }
    else if text_eq name (utf8 "Message-ID")
    then record m { message_id = value }
    else m

unfoldable pub extract_headers : Dict Text → PecMail → List Text → PecMail
extract_headers h m [] = m
extract_headers h m (name ∷ names) = extract_headers h (extract_header h m name) names

unfoldable pub pec_headers : List Text
pec_headers =
    utf8 "X-Riferimento-Message-ID"
    ∷ utf8 "Return-Path"
    ∷ utf8 "Delivered-To"
    ∷ utf8 "Received"
    ∷ utf8 "X-Ricevuta"
    ∷ utf8 "Message-ID"
    ∷ utf8 "X-Trasporto"
    ∷ []

unfoldable pub extract_pec_headers : Dict Text → PecMail → PecMail
unfolding extract_headers pec_headers
extract_pec_headers h m = extract_headers h (record m { pec_type = untyped }) pec_headers
