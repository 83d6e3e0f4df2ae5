-- ===== src/Delivery/Bodies/Texts.antt =====
-- The texts of the delivery receipts of pec-server/punto-consegna/punto-consegna.go.
use go_pec.Base.{
  if◌then◌else◌, Text, utf8, is_empty, date_slashes, clock_time, rfc3339, Time, [], ◌∷◌, ◌++◌,
}

unfoldable pub or_default : Text → Text → Text
or_default value fallback = if is_empty value then fallback else value

abbrev nl : Text
nl = 10 ∷ []

abbrev tab : Text
tab = 9 ∷ []

-- What the texts say of the original message.
pub record Original : Type 0 where
  pub sender : Text
  pub subject : Text
  pub message_id : Text

unfoldable pub receipt_text : Time → Original → Text → Text
receipt_text timestamp o recipient =
    utf8 "Ricevuta di avvenuta consegna"
    ++ nl
    ++ utf8 "Il giorno "
    ++ date_slashes timestamp
    ++ utf8 " alle ore "
    ++ clock_time timestamp
    ++ utf8 " ("
    ++ timestamp.zone
    ++ utf8 ") il messaggio"
    ++ nl
    ++ utf8 "\""
    ++ o.subject
    ++ utf8 "\" proveniente da \""
    ++ o.sender
    ++ utf8 "\""
    ++ nl
    ++ utf8 "ed indirizzato a \""
    ++ recipient
    ++ utf8 "\" è stato consegnato nella casella di destinazione."
    ++ nl
    ++ utf8 "Identificativo messaggio: "
    ++ o.message_id

abbrev tagged : Text → Text → Text
tagged name value = utf8 "<" ++ name ++ utf8 ">" ++ value ++ utf8 "</" ++ name ++ utf8 ">" ++ nl

unfoldable pub certification_xml : Time → Text → Original → Text → Text → Text
certification_xml timestamp domain o recipient identifier =
    utf8 "<?xml version=\"1.0\" encoding=\"UTF-8\"?>"
    ++ nl
    ++ utf8 "<certificazione xmlns=\"http://www.cnipa.it/schemas/2003/eGovIT/Busta1_0/\">"
    ++ nl
    ++ tab
    ++ utf8 "<intestazione>"
    ++ nl
    ++ tab
    ++ tab
    ++ tagged (utf8 "identificativo") identifier
    ++ tab
    ++ tab
    ++ tagged (utf8 "data-consegna") (rfc3339 timestamp)
    ++ tab
    ++ tab
    ++ tagged (utf8 "tipo-ricevuta") (utf8 "avvenuta-consegna")
    ++ tab
    ++ utf8 "</intestazione>"
    ++ nl
    ++ tab
    ++ utf8 "<dati-certificazione>"
    ++ nl
    ++ tab
    ++ tab
    ++ tagged (utf8 "mittente") o.sender
    ++ tab
    ++ tab
    ++ tagged (utf8 "destinatario") recipient
    ++ tab
    ++ tab
    ++ tagged (utf8 "oggetto") o.subject
    ++ tab
    ++ tab
    ++ tagged (utf8 "identificativo-messaggio") o.message_id
    ++ tab
    ++ tab
    ++ tagged (utf8 "data-ora-consegna") (rfc3339 timestamp)
    ++ tab
    ++ tab
    ++ tagged (utf8 "gestore-consegna") domain
    ++ tab
    ++ utf8 "</dati-certificazione>"
    ++ nl
    ++ utf8 "</certificazione>"

unfoldable pub short_receipt_body : Time → Text → Text → Text
short_receipt_body timestamp recipient message_id =
    utf8 "Ricevuta di avvenuta consegna - BREVE"
    ++ nl
    ++ nl
    ++ utf8 "Destinatario: "
    ++ recipient
    ++ nl
    ++ utf8 "Data consegna: "
    ++ date_slashes timestamp
    ++ utf8 " "
    ++ clock_time timestamp
    ++ nl
    ++ utf8 "ID: "
    ++ message_id
    ++ nl
    ++ nl
    ++ utf8 "[TODO: Include essential XML certification data only]"

unfoldable pub synthetic_receipt_body : Time → Text → Text
synthetic_receipt_body timestamp recipient =
    utf8 "Ricevuta sintetica"
    ++ nl
    ++ nl
    ++ utf8 "Consegnato: "
    ++ recipient
    ++ utf8 " - "
    ++ date_slashes timestamp
    ++ utf8 " "
    ++ clock_time timestamp
    ++ nl
    ++ nl
    ++ utf8 "[TODO: Include minimal certification data]"
