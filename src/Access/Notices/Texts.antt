-- ===== src/Access/Notices/Texts.antt =====
-- The texts of the notices of pec-server/punto-accesso/punto-accesso.go.
use go_pec.Base.{
  ◌==◌, if◌then◌else◌, Text, utf8, join, two_digits, four_digits, decimal, date_slashes, clock_time,
  Time, ValidationError, ℕ, ◌+◌, ◌/◌, ◌%◌, List, [], ◌∷◌, ◌++◌,
}

abbrev pub nl : Text
nl = 10 ∷ []

unfoldable pub recipient_lines : Text → List Text → Text
recipient_lines after [] = []
recipient_lines after (r ∷ rs) = r ++ after ++ recipient_lines after rs

unfoldable pub refusal_text : ValidationError → Text
refusal_text e =
    utf8 "Errore nell’accettazione del messaggio"
    ++ nl
    ++ utf8 "Il giorno "
    ++ date_slashes e.generated_at
    ++ utf8 " alle ore "
    ++ clock_time e.generated_at
    ++ utf8 " ("
    ++ e.generated_at.zone
    ++ utf8 ") nel messaggio"
    ++ nl
    ++ utf8 "\""
    ++ e.subject
    ++ utf8 "\" proveniente da \""
    ++ e.from
    ++ utf8 "\""
    ++ nl
    ++ utf8 "ed indirizzato a:"
    ++ nl
    ++ recipient_lines nl e.to
    ++ utf8 "è stato rilevato un problema che ne impedisce l’accettazione"
    ++ nl
    ++ utf8 "a causa di "
    ++ e.reason
    ++ utf8 "."
    ++ nl
    ++ utf8 "Il messaggio non è stato accettato."
    ++ nl
    ++ utf8 "Identificativo messaggio: "
    ++ e.message_id
    ++ nl

unfoldable pub acceptance_text : Time → Text → Text → List Text → Text → Text
acceptance_text now generated_id from to subject =
    utf8 "-- Ricevuta di accettazione del messaggio indirizzato a "
    ++ join to (utf8 ", ")
    ++ utf8 " (\"posta certificata\") --"
    ++ nl
    ++ nl
    ++ utf8 "Il giorno "
    ++ date_slashes now
    ++ utf8 " alle ore "
    ++ clock_time now
    ++ utf8 " ("
    ++ now.offset
    ++ utf8 ") il messaggio con Oggetto"
    ++ nl
    ++ utf8 "\""
    ++ subject
    ++ utf8 "\" inviato da \""
    ++ from
    ++ utf8 "\""
    ++ nl
    ++ utf8 "ed indirizzato a:"
    ++ nl
    ++ recipient_lines (utf8 " (\"posta certificata\")" ++ nl) to
    ++ utf8 "è stato accettato dal sistema ed inoltrato."
    ++ nl
    ++ utf8 "Identificativo del messaggio: "
    ++ generated_id
    ++ nl
    ++ utf8 "L'allegato daticert.xml contiene informazioni di servizio sulla trasmissione"
    ++ nl

unfoldable pub acceptance_html : Time → Text → Text → List Text → Text → Text
acceptance_html now generated_id from to subject =
    utf8 "<html>"
    ++ nl
    ++ utf8 "<head><title>Ricevuta di accettazione</title></head>"
    ++ nl
    ++ utf8 "<body>"
    ++ nl
    ++ utf8 "<h3>Ricevuta di accettazione</h3>"
    ++ nl
    ++ utf8 "<hr><br>"
    ++ nl
    ++ utf8 "Il giorno "
    ++ date_slashes now
    ++ utf8 " alle ore "
    ++ clock_time now
    ++ utf8 " ("
    ++ now.offset
    ++ utf8 ") il messaggio<br>"
    ++ nl
    ++ utf8 "&quot;"
    ++ subject
    ++ utf8 "&quot; proveniente da &quot;"
    ++ from
    ++ utf8 "&quot;<br>"
    ++ nl
    ++ utf8 "ed indirizzato a:<br>"
    ++ nl
    ++ recipient_lines (utf8 " (&quot;posta certificata&quot;)<br>" ++ nl) to
    ++ utf8 "<br><br>"
    ++ nl
    ++ utf8 "Il messaggio &egrave; stato accettato dal sistema ed inoltrato.<br>"
    ++ nl
    ++ utf8 "Identificativo messaggio: "
    ++ generated_id
    ++ utf8 "<br>"
    ++ nl
    ++ utf8 "</body>"
    ++ nl
    ++ utf8 "</html>"
    ++ nl

abbrev hour12 : Time → ℕ
hour12 t = if t.hour % 12 == 0 then 12 else t.hour % 12

-- "opec%s.%s@%s" with the layouts "210312" and "20060102150405.000000.000.1.53", which read as day,
-- month, hour, month, day, and as date, time, two fractions of the second, month, second and hour.
unfoldable pub generated_message_id : Time → Text → Text
generated_message_id t domain =
    let fraction = t.unix_nano % 1000000000 in
    utf8 "opec"
    ++ decimal t.day
    ++ decimal t.month
    ++ two_digits (hour12 t)
    ++ decimal t.month
    ++ decimal t.day
    ++ utf8 "."
    ++ four_digits t.year
    ++ two_digits t.month
    ++ two_digits t.day
    ++ two_digits t.hour
    ++ two_digits t.minute
    ++ two_digits t.second
    ++ utf8 "."
    ++ two_digits (fraction / 10000000)
    ++ two_digits (fraction / 100000)
    ++ two_digits (fraction / 1000)
    ++ utf8 "."
    ++ two_digits (fraction / 10000000)
    ++ (b'0' + fraction / 1000000 % 10) ∷ []
    ++ utf8 "."
    ++ decimal t.month
    ++ utf8 "."
    ++ decimal t.second
    ++ decimal (hour12 t)
    ++ utf8 "@"
    ++ domain
