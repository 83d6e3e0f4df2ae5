-- ===== src/Access/Tests.antt =====
-- The theorems on the access point at concrete inputs.
use go_pec.Base.{
  if◌then◌else◌, length, Text, utf8, text_eq, is_empty, to_lower, equal_fold, lookup, zero_time,
  ValidationError, validation, Outcome, ok, err, ◌+◌, ◌≡◌, refl, true, none, some, List, [], ◌∷◌,
  ◌++◌,
}
use go_pec.Mail.{Entity, MailLibrary}
use go_pec.Signer.{
  sign_email, slice, format_from, format_base64, base64, create_signed_mime_message,
  create_signed_mime_message_entity,
}
use go_pec.Smtp.{get_data, get_signer, parse_email_from_session, Session}
use go_pec.Storage.{new_in_memory_store, mailbox, local_part, InMemoryStore}
use go_pec.Samples.{Fields, field_value, mail_library, pkcs7, sample_signer, xml_library}
use go_pec.Access.Validate.{
  sole, not_empty, no_addresses, same_path, is_listed, all_listed, validate_envelope_and_headers,
}
use go_pec.Access.Validate.Compliance.{IsCompliant}
use go_pec.Access.Validate.Errors.{validate-Judged, Judged}
use go_pec.Access.Envelope.{PecCertificationData, create_pec_transport_envelope}
use go_pec.Access.Envelope.Headers.{envelope_field, lookup-create_pec_transport_envelope}
use go_pec.Access.Notices.{
  mixed_body, signed_notice, refusal_body, generate_non_acceptance_email, acceptance_body,
  generate_acceptance_email,
}
use go_pec.Access.Notices.Fields.{
  generate_acceptance_email-fields, generate_non_acceptance_email-fields,
}
use go_pec.Access.Handler.{accept, judge, process, after_parse, access_point_handler, Surroundings}
use go_pec.Access.Handler.Paths.{access_point_handler-accepts, access_point_handler-refuses}

abbrev good : Fields
good =
    (utf8 "From", utf8 "ada@pec.it")
    ∷ (utf8 "To", utf8 "bob@pec.it")
    ∷ (utf8 "Reply-To", utf8 "desk@pec.it")
    ∷ []

abbrev lib : MailLibrary
lib = mail_library good

abbrev ada : Text
ada = utf8 "ada@pec.it"

abbrev bob : List Text
bob = utf8 "bob@pec.it" ∷ []

good-valid : validate_envelope_and_headers lib ada bob good ≡ ok tt
unfolding validate_envelope_and_headers sole not_empty no_addresses same_path all_listed is_listed
    equal_fold to_lower text_eq is_empty utf8
good-valid = refl

validate-Judged_example : Judged (validate_envelope_and_headers lib (utf8 "eve@pec.it") bob good)
validate-Judged_example = validate-Judged lib (utf8 "eve@pec.it") bob good

abbrev certified : PecCertificationData
certified = record {
  message_id = utf8 "<1@pec.it>";
  original_subject = utf8 "hello";
  original_from = ada;
  recipients = bob;
  date = zero_time;
  timezone = utf8 "CET";
}

lookup-create_pec_transport_envelope_example :
    lookup (utf8 "To") (create_pec_transport_envelope (field_value good) certified).headers
    ≡ envelope_field (field_value good) certified (utf8 "To")
lookup-create_pec_transport_envelope_example =
    lookup-create_pec_transport_envelope (field_value good) certified (utf8 "To")

abbrev env : Surroundings
env = record { now = λ i. zero_time; arrange = λ h. h }

abbrev session : Session
session = record {
  from = ada;
  to = bob;
  data_buffer = utf8 "hello";
  auth = true;
  signer = some sample_signer;
  store = none;
  domain = utf8 "pec.it";
}

session-accepted : (access_point_handler lib xml_library pkcs7 env session).1 ≡ ok tt
unfolding access_point_handler parse_email_from_session get_data after_parse process judge accept
    validate_envelope_and_headers sole not_empty no_addresses same_path all_listed is_listed
    equal_fold to_lower text_eq is_empty utf8
session-accepted = refl

access_point_handler-accepts_example :
    (h : Fields) × (lib.create_reader session.data_buffer ≡ ok h)
    × IsCompliant lib session.from session.to h
    × ((access_point_handler lib xml_library pkcs7 env session).0 ≡ session)
access_point_handler-accepts_example =
    access_point_handler-accepts lib xml_library pkcs7 env session refl session-accepted

abbrev error : ValidationError
error = record {
  reason = utf8 "no recipient";
  message_id = [];
  from = [];
  to = [];
  subject = [];
  generated_at = zero_time;
}

abbrev outcome_entity : Outcome (Entity Fields) → Entity Fields
outcome_entity (ok e) = e
outcome_entity _ = record { header = []; body = [] }

abbrev receipt : Outcome (Entity Fields)
receipt =
    generate_acceptance_email lib xml_library pkcs7 zero_time (utf8 "pec.it") (utf8 "<1@pec.it>")
      ada bob (utf8 "hello") sample_signer

abbrev notice : Outcome (Entity Fields)
notice = generate_non_acceptance_email lib xml_library pkcs7 (utf8 "pec.it") error sample_signer

receipt-made : receipt ≡ ok (outcome_entity receipt)
unfolding generate_acceptance_email acceptance_body mixed_body signed_notice
    create_signed_mime_message_entity create_signed_mime_message sign_email format_base64
    format_from slice base64 utf8
receipt-made = refl

notice-made : notice ≡ ok (outcome_entity notice)
unfolding generate_non_acceptance_email refusal_body mixed_body signed_notice
    create_signed_mime_message_entity create_signed_mime_message sign_email format_base64
    format_from slice base64 utf8
notice-made = refl

generate_acceptance_email-fields_example :
    (field_value (outcome_entity receipt).header (utf8 "X-Ricevuta") ≡ utf8 "accettazione")
    × (field_value (outcome_entity receipt).header (utf8 "To") ≡ ada)
    × (field_value (outcome_entity receipt).header (utf8 "X-Riferimento-Message-ID")
        ≡ utf8 "<1@pec.it>")
    × (field_value (outcome_entity receipt).header (utf8 "Subject")
        ≡ utf8 "ACCETTAZIONE: " ++ utf8 "hello")
generate_acceptance_email-fields_example =
    generate_acceptance_email-fields lib xml_library pkcs7 zero_time (utf8 "pec.it")
      (utf8 "<1@pec.it>") ada bob (utf8 "hello") sample_signer (outcome_entity receipt) receipt-made

generate_non_acceptance_email-fields_example :
    (field_value (outcome_entity notice).header (utf8 "X-Ricevuta") ≡ utf8 "non-accettazione")
    × (field_value (outcome_entity notice).header (utf8 "To") ≡ error.from)
    × (field_value (outcome_entity notice).header (utf8 "X-Riferimento-Message-ID")
        ≡ error.message_id)
generate_non_acceptance_email-fields_example =
    generate_non_acceptance_email-fields lib xml_library pkcs7 (utf8 "pec.it") error sample_signer
      (outcome_entity notice) notice-made

abbrev stranger : Session
stranger = record session { from = utf8 "eve@web.it"; store = some new_in_memory_store }

abbrev judged : Outcome (Unit {0})
judged = validate_envelope_and_headers lib stranger.from stranger.to good

abbrev error_in : Outcome (Unit {0}) → ValidationError
error_in (err (validation e)) = e
error_in _ = error

stranger-invalid : judged ≡ err (validation (error_in judged))
unfolding validate_envelope_and_headers sole not_empty no_addresses same_path equal_fold to_lower
    text_eq is_empty utf8
stranger-invalid = refl

stranger-parsed : parse_email_from_session lib stranger ≡ ok (good, utf8 "hello")
unfolding parse_email_from_session
stranger-parsed = refl

stranger-signer : get_signer stranger ≡ some sample_signer
unfolding get_signer
stranger-signer = refl

abbrev refusal : Outcome (Entity Fields)
refusal =
    generate_non_acceptance_email lib xml_library pkcs7 (utf8 "localhost") (error_in judged)
      sample_signer

refusal-made : refusal ≡ ok (outcome_entity refusal)
unfolding generate_non_acceptance_email refusal_body mixed_body signed_notice
    create_signed_mime_message_entity create_signed_mime_message sign_email format_base64
    format_from slice base64 utf8
refusal-made = refl

access_point_handler-refuses_example :
    ((access_point_handler lib xml_library pkcs7 env stranger).1
      ≡ err (validation (error_in judged)))
    × (after : InMemoryStore) × ((access_point_handler lib xml_library pkcs7 env stranger).0.store
        ≡ some after)
    × ((u : Text)
        → length (mailbox u after)
          ≡ length (mailbox u new_in_memory_store)
            + (if text_eq (local_part stranger.from) u then 1 else 0))
access_point_handler-refuses_example =
    access_point_handler-refuses lib xml_library pkcs7 env stranger (good, utf8 "hello") good
      (error_in judged) sample_signer (outcome_entity refusal) new_in_memory_store refl
      stranger-parsed refl stranger-invalid stranger-signer refusal-made refl
