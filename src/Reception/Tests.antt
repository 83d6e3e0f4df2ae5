-- ===== src/Reception/Tests.antt =====
-- The theorems on the reception point at concrete inputs.
use go_pec.Base.{
  if◌then◌else◌, Text, utf8, text_eq, is_empty, to_lower, to_upper, equal_fold, has_prefix,
  contains, Dict, lookup, zero_time, Outcome, ok, panic, ◌≡◌, refl, ◌↔◌, true, false, not, ◌&&◌,
  none, some, [], ◌∷◌,
}
use go_pec.Commons.{hex, is_signature_valid}
use go_pec.Smtp.{get_data, parse_email_from_session, Session}
use go_pec.Samples.{Fields, field_value, mail_library, signature_library}
use go_pec.Reception.Anomaly.{or_nil, first, written_multipart, create_anomaly_envelope}
use go_pec.Reception.Checks.{
  provider_certificate_hashes, missing_any, unknown_tipo, is_valid_receipt_or_avviso,
  certificate_hash, signer_of, is_formally_correct, is_valid_transport_envelope,
}
use go_pec.Reception.Checks.Envelope.{is_valid_transport_envelope-never}
use go_pec.Reception.Checks.Receipts.{IsReceipt, is_valid_receipt_or_avviso_iff}
use go_pec.Reception.Network.{write_envelope, converse, forward_envelope_to_delivery_point}
use go_pec.Reception.Network.Conversation.{posts}
use go_pec.Reception.Handler.{
  is_from_certified_provider, forward_made, forward_anomaly, dispatch, reception_point_handler,
  ReceptionContext,
}
use go_pec.Reception.Handler.Paths.{
  Delivered, posts-reception_point_handler, reception_point_handler-Delivered,
  reception_point_handler-panic,
}

abbrev receipt : Fields
receipt =
    (utf8 "X-Ricevuta", utf8 "avvenuta-consegna")
    ∷ (utf8 "Date", utf8 "today")
    ∷ (utf8 "Subject", utf8 "CONSEGNA: hello")
    ∷ (utf8 "From", utf8 "posta-certificata@pec.it")
    ∷ (utf8 "To", utf8 "ada@pec.it")
    ∷ (utf8 "X-Riferimento-Message-ID", utf8 "<1@pec.it>")
    ∷ []

abbrev letter : Fields
letter = (utf8 "From", utf8 "ada@web.it") ∷ (utf8 "To", utf8 "bob@pec.it") ∷ []

abbrev signed : Fields
signed = (utf8 "Content-Type", utf8 "application/pkcs7-mime") ∷ letter

abbrev session : Session
session = record {
  from = utf8 "ada@web.it";
  to = utf8 "bob@pec.it" ∷ [];
  data_buffer = utf8 "hello";
  auth = true;
  signer = none;
  store = none;
  domain = utf8 "pec.it";
}

-- A network where everything works.
abbrev env : ReceptionContext
env = record {
  net = record { answer = λ r. ok tt; status = λ body. 200 };
  now = zero_time;
  marshal = λ d. d.oggetto;
  temp_created = true;
  temp_written = true;
  openssl = λ body. true;
}

receipt-valid : is_valid_receipt_or_avviso (field_value receipt) ≡ true
unfolding is_valid_receipt_or_avviso missing_any unknown_tipo equal_fold to_lower text_eq is_empty
    utf8
receipt-valid = refl

letter-invalid : is_valid_receipt_or_avviso (field_value letter) ≡ false
unfolding is_valid_receipt_or_avviso missing_any unknown_tipo equal_fold to_lower text_eq is_empty
    utf8
letter-invalid = refl

is_valid_receipt_or_avviso_iff_example :
    (is_valid_receipt_or_avviso (field_value receipt) ≡ true) ↔ IsReceipt (field_value receipt)
is_valid_receipt_or_avviso_iff_example = is_valid_receipt_or_avviso_iff (field_value receipt)

-- A provider index that knows the hash of the certificate "A".
abbrev hashes : Dict (Unit {0})
hashes = (utf8 "41", tt) ∷ []

-- The body has a right signature of a provider, and the header is in order.
signer_known :
    (signer_of (mail_library signed) signature_library (utf8 "A") ≡ some (utf8 "A", utf8 "A"))
    × (lookup (certificate_hash (mail_library signed) signature_library (utf8 "A")) hashes
        ≡ some tt)
    × (is_formally_correct (mail_library signed) signature_library signed ≡ true)
unfolding signer_of is_formally_correct lookup hex to_upper is_empty utf8 text_eq equal_fold
    to_lower
signer_known = (refl, refl, refl)

is_valid_transport_envelope-never_example :
    is_valid_transport_envelope (mail_library signed) signature_library hashes signed (utf8 "A")
    ≡ false
is_valid_transport_envelope-never_example =
    is_valid_transport_envelope-never (mail_library signed) signature_library hashes signed
      (utf8 "A")

letter-parsed : parse_email_from_session (mail_library letter) session ≡ ok (letter, utf8 "hello")
unfolding parse_email_from_session
letter-parsed = refl

posts-reception_point_handler_example :
    posts (reception_point_handler (mail_library letter) signature_library env session).0 ≡ (
      if is_valid_receipt_or_avviso (field_value letter) && not (is_empty session.data_buffer)
      then session.data_buffer ∷ []
      else [])
posts-reception_point_handler_example =
    posts-reception_point_handler (mail_library letter) signature_library env session letter
      (utf8 "hello") refl letter-parsed

letter-handled :
    (reception_point_handler (mail_library letter) signature_library env session).1 ≡ ok tt
unfolding reception_point_handler parse_email_from_session dispatch provider_certificate_hashes
    is_valid_transport_envelope contains has_prefix is_valid_receipt_or_avviso is_signature_valid
    is_from_certified_provider forward_anomaly forward_made create_anomaly_envelope first
    written_multipart get_data forward_envelope_to_delivery_point converse write_envelope equal_fold
    to_lower text_eq is_empty utf8
letter-handled = refl

reception_point_handler-Delivered_example :
    Delivered
      (mail_library letter)
      signature_library
      env
      session
      (reception_point_handler (mail_library letter) signature_library env session).0
reception_point_handler-Delivered_example =
    reception_point_handler-Delivered (mail_library letter) signature_library env session refl
      letter-handled

abbrev anomaly : Outcome Text
anomaly = create_anomaly_envelope (mail_library letter) zero_time session

abbrev bytes_of : Outcome Text → Text
bytes_of (ok b) = b
bytes_of _ = []

anonymous-parsed : parse_email_from_session (mail_library []) session ≡ ok ([], utf8 "hello")
unfolding parse_email_from_session
anonymous-parsed = refl

anonymous-invalid : is_valid_receipt_or_avviso (field_value []) ≡ false
unfolding is_valid_receipt_or_avviso text_eq utf8
anonymous-invalid = refl

no_author : or_nil ((mail_library []).address_list [] (utf8 "From")) ≡ []
unfolding is_empty
no_author = refl

reception_point_handler-panic_example :
    reception_point_handler (mail_library []) signature_library env session ≡ ([], panic)
reception_point_handler-panic_example =
    reception_point_handler-panic (mail_library []) signature_library env session [] (utf8 "hello")
      anonymous-parsed anonymous-invalid no_author
