-- ===== src/Access/Envelope/Texts.antt =====
-- What a transport envelope certifies, as the body and the XML that
-- pec-server/punto-accesso/punto-accesso.go writes.
use go_pec.Base.{Text, utf8, join, date_slashes, clock_time, rfc3339, Time, List, [], ◌∷◌, ◌++◌}

pub record PecCertificationData : Type 0 where
  pub message_id : Text
  pub original_subject : Text
  pub original_from : Text
  pub recipients : List Text
  pub date : Time
  pub timezone : Text

abbrev nl : Text
nl = 10 ∷ []

unfoldable pub create_pec_body_text : PecCertificationData → Text
create_pec_body_text c =
    utf8 "Messaggio di posta certificata"
    ++ nl
    ++ nl
    ++ utf8 "Il giorno "
    ++ date_slashes c.date
    ++ utf8 " alle ore "
    ++ clock_time c.date
    ++ utf8 " ("
    ++ c.timezone
    ++ utf8 ") il messaggio"
    ++ nl
    ++ utf8 "\""
    ++ c.original_subject
    ++ utf8 "\" è stato inviato da \""
    ++ c.original_from
    ++ utf8 "\""
    ++ nl
    ++ utf8 "indirizzato a:"
    ++ nl
    ++ join c.recipients nl
    ++ nl
    ++ nl
    ++ utf8 "Il messaggio originale è incluso in allegato."
    ++ nl
    ++ utf8 "Identificativo messaggio: "
    ++ c.message_id

unfoldable pub xml_recipients : List Text → Text
xml_recipients [] = []
xml_recipients (r ∷ rs) =
    nl ++ utf8 "            <destinatario>" ++ r ++ utf8 "</destinatario>" ++ xml_recipients rs

unfoldable pub create_pec_xml_data : PecCertificationData → Text
create_pec_xml_data c =
    utf8 "<?xml version=\"1.0\" encoding=\"UTF-8\"?>"
    ++ nl
    ++ utf8 "<postacert xmlns=\"http://www.digitpa.gov.it/protocolli/postacert\">"
    ++ nl
    ++ utf8 "    <intestazione>"
    ++ nl
    ++ utf8 "        <identificativo>"
    ++ c.message_id
    ++ utf8 "</identificativo>"
    ++ nl
    ++ utf8 "        <mittente>"
    ++ c.original_from
    ++ utf8 "</mittente>"
    ++ nl
    ++ utf8 "        <destinatari>"
    ++ xml_recipients c.recipients
    ++ nl
    ++ utf8 "        </destinatari>"
    ++ nl
    ++ utf8 "        <oggetto>"
    ++ c.original_subject
    ++ utf8 "</oggetto>"
    ++ nl
    ++ utf8 "        <data>"
    ++ rfc3339 c.date
    ++ utf8 "</data>"
    ++ nl
    ++ utf8 "        <rilevanza>normale</rilevanza>"
    ++ nl
    ++ utf8 "        <conferma-ricezione>si</conferma-ricezione>"
    ++ nl
    ++ utf8 "    </intestazione>"
    ++ nl
    ++ utf8 "    <dati>"
    ++ nl
    ++ utf8 "        <tipo-messaggio>posta-certificata</tipo-messaggio>"
    ++ nl
    ++ utf8 "        <tipo-ricevuta>completa</tipo-ricevuta>"
    ++ nl
    ++ utf8 "        <errore-esteso></errore-esteso>"
    ++ nl
    ++ utf8 "    </dati>"
    ++ nl
    ++ utf8 "</postacert>"
