-- ===== src/Access/Validate.antt =====
-- `ValidateEnvelopeAndHeaders` of pec-server/punto-accesso/punto-accesso.go: the SMTP envelope
-- against the header fields.
pub mod Compliance
pub mod Errors
use go_pec.Base.{
  if◌then◌else◌, Text, utf8, text_eq, to_lower, equal_fold, zero_time, ◌>>=◌, ◌>>◌, validation,
  Outcome, ok, err, Bool, false, ◌||◌, Option, none, some, List, [], ◌∷◌, ◌++◌,
}
use go_pec.Mail.{Address, MailLibrary}

-- A `ValidationError` literal of which only the reason is written; the other fields have Go's zero
-- values.
unfoldable pub invalid {ℓ} : {A : Type ℓ} → Text → Outcome A
invalid reason = err (
    validation (record {
      reason = reason;
      message_id = [];
      from = [];
      to = [];
      subject = [];
      generated_at = zero_time;
    }))

unfoldable pub sole : Option (List Address) → Outcome Address
unfolding invalid
sole (some (a ∷ [])) = ok a
sole _ = invalid (utf8 "invalid or missing 'From' field")

unfoldable pub not_empty : Option (List Address) → Outcome (List Address)
unfolding invalid
not_empty (some (a ∷ rest)) = ok (a ∷ rest)
not_empty _ = invalid (utf8 "missing or invalid 'To' field")

unfoldable pub addresses : Option (List Address) → List Address
addresses (some found) = found
addresses none = []

unfoldable pub no_addresses : Option (List Address) → Outcome (Unit {0})
unfolding invalid
no_addresses (some (_ ∷ _)) = invalid (utf8 "'Bcc' field must not be present")
no_addresses _ = ok tt

unfoldable pub same_path : Text → Text → Outcome (Unit {0})
unfolding invalid
same_path smtp_from from_header =
    if equal_fold smtp_from from_header
    then ok tt
    else invalid (
        utf8 "reverse-path '"
        ++ smtp_from
        ++ utf8 "' does not match From header '"
        ++ from_header
        ++ utf8 "'")

-- Whether the set of lower-case addresses holds the recipient.
unfoldable pub is_listed : Text → List Address → Bool
is_listed rcpt [] = false
is_listed rcpt (a ∷ rest) = text_eq (to_lower a.address) (to_lower rcpt) || is_listed rcpt rest

unfoldable pub all_listed : List Address → List Text → Outcome (Unit {0})
unfolding invalid
all_listed valid [] = ok tt
all_listed valid (rcpt ∷ rcpts) =
    if is_listed rcpt valid
    then all_listed valid rcpts
    else invalid (utf8 "recipient '" ++ rcpt ++ utf8 "' not found in 'To' or 'Cc' fields")

module _ (lib : MailLibrary) where
  open lib use {Header, address_list}

  unfoldable pub validate_envelope_and_headers : Text → List Text → Header → Outcome (Unit {0})
  unfolding sole not_empty addresses no_addresses same_path all_listed
  validate_envelope_and_headers smtp_from smtp_recipients header = do
    from_header ← sole (address_list header (utf8 "From"))
    to_addrs ← not_empty (address_list header (utf8 "To"))
    let cc_addrs = addresses (address_list header (utf8 "Cc"))
    no_addresses (address_list header (utf8 "Bcc"))
    same_path smtp_from from_header.address
    all_listed (to_addrs ++ cc_addrs) smtp_recipients
