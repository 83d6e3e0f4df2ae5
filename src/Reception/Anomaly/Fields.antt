-- ===== src/Reception/Anomaly/Fields.antt =====
-- What the anomaly envelope of pec-server/punto-ricezione/punto-ricezione.go is made of.
use mathlib.Core.List.{foldr}
use go_pec.Base.{Text, utf8, date_slashes, clock_time, Time, ok, ◌≡◌, some, List, [], ◌∷◌, ◌++◌}
use go_pec.Mail.{header_of, Address, Entity, MailLibrary}
use go_pec.Smtp.{get_data, parse_email_from_session, Session}
use go_pec.Reception.Anomaly.{or_nil}

abbrev newline : Text
newline = 10 ∷ []

-- The text of the first part.
abbrev pub anomaly_message : Time → Text → Text → List Address → Text
anomaly_message now about author to =
    utf8 "Anomalia nel messaggio"
    ++ newline
    ++ utf8 "Il giorno "
    ++ date_slashes now
    ++ utf8 " alle ore "
    ++ clock_time now
    ++ utf8 " ("
    ++ now.zone
    ++ utf8 ") è stato ricevuto"
    ++ newline
    ++ utf8 "il messaggio \""
    ++ about
    ++ utf8 "\" proveniente da \""
    ++ author
    ++ utf8 "\""
    ++ newline
    ++ utf8 "ed indirizzato a:"
    ++ newline
    ++ foldr (λ a rest. a.address ++ newline ++ rest) [] to
    ++ newline
    ++ utf8 "Tali dati non sono stati certificati per il seguente errore:"
    ++ newline
    ++ utf8 "Errore di validazione PEC"
    ++ newline
    ++ utf8 "Il messaggio originale è incluso in allegato."
    ++ newline

module _ (lib : MailLibrary) where
  open lib use {Header, address_list, subject, new, new_multipart, write_to}

  -- The bytes are those of a message of two parts whose header is made of two fields only.
  abbrev pub IsBareMultipart : Text → Entity Header → Entity Header → Type 0
  IsBareMultipart bytes one two =
      (mixed : Entity Header) × (new_multipart
          (header_of lib (
            (utf8 "Content-Type", utf8 "multipart/mixed")
            ∷ (utf8 "Content-Transfer-Encoding", utf8 "binary")
            ∷ []))
          (one ∷ two ∷ [])
        ≡ ok mixed)
      × (write_to mixed ≡ (bytes, ok tt))

  -- The first part: a plain text about the subject, the author and the addressees of the original.
  abbrev pub IsText : Time → Session → Entity Header → Type 0
  IsText now s part =
      (original : Header) × (body : Text) × (author : Address) × (others : List Address)
      × (parse_email_from_session lib s ≡ ok (original, body))
      × (address_list original (utf8 "From") ≡ some (author ∷ others))
      × (new (header_of lib ((utf8 "Content-Type", utf8 "text/plain; charset=utf-8") ∷ [])) (
            anomaly_message now (subject original) author.address
              (or_nil (address_list original (utf8 "To"))))
          ≡ ok part)

  -- The second part: the data of the session, as an attachment.
  abbrev pub IsAttachment : Session → Entity Header → Type 0
  IsAttachment s part =
      (data_bytes : Text) × (get_data s ≡ ok data_bytes)
      × (new
            (header_of lib (
              (utf8 "Content-Type", utf8 "message/rfc822")
              ∷ (utf8 "Content-Disposition", utf8 "attachment; filename=\"original.eml\"")
              ∷ []))
            data_bytes
          ≡ ok part)
