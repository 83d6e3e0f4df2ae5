-- ===== src/Access/Validate/Errors.antt =====
-- How `ValidateEnvelopeAndHeaders` of pec-server/punto-accesso/punto-accesso.go can end.
use go_pec.Base.{
  Bool-cases, Text, utf8, equal_fold, zero_time, ◌>>=◌, validation, Outcome, ok, err, inl, inr,
  Option, none, some, List, [], ◌∷◌, ◌++◌,
}
use go_pec.Mail.{Address, MailLibrary}
use go_pec.Access.Validate.{
  invalid, sole, not_empty, addresses, no_addresses, same_path, is_listed, all_listed,
  validate_envelope_and_headers,
}

-- A value, or a validation error whose other fields are all empty: no other error and no panic.
pub data Judged {ℓ} {A : Type ℓ} : Outcome A → Type ℓ where
  accepted : (a : A) → Judged (ok a)
  refused :
      (r : Text)
      → Judged (
          err (
            validation (record {
              reason = r;
              message_id = [];
              from = [];
              to = [];
              subject = [];
              generated_at = zero_time;
            })))

Judged-bind {ℓ κ} :
    {A : Type ℓ} {B : Type κ} {m : Outcome A} {f : A → Outcome B}
    → Judged m
    → ((a : A) → Judged (f a))
    → Judged (m >>= f)
Judged-bind (accepted a) k = k a
Judged-bind (refused r) k = refused r

Judged-sole : (o : Option (List Address)) → Judged (sole o)
unfolding sole invalid
Judged-sole none = refused _
Judged-sole (some []) = refused _
Judged-sole (some (a ∷ [])) = accepted a
Judged-sole (some (a ∷ b ∷ rest)) = refused _

Judged-not_empty : (o : Option (List Address)) → Judged (not_empty o)
unfolding not_empty invalid
Judged-not_empty none = refused _
Judged-not_empty (some []) = refused _
Judged-not_empty (some (a ∷ rest)) = accepted (a ∷ rest)

Judged-no_addresses : (o : Option (List Address)) → Judged (no_addresses o)
unfolding no_addresses invalid
Judged-no_addresses none = accepted tt
Judged-no_addresses (some []) = accepted tt
Judged-no_addresses (some (a ∷ rest)) = refused _

Judged-same_path : (f h : Text) → Judged (same_path f h)
unfolding same_path invalid
Judged-same_path f h = elim (Bool-cases (equal_fold f h)) [
  | inl same ↦ rw same (accepted tt)
  | inr other ↦ rw other (refused _)
]

Judged-all_listed : (valid : List Address) (rcpts : List Text) → Judged (all_listed valid rcpts)
unfolding all_listed invalid
Judged-all_listed valid [] = accepted tt
Judged-all_listed valid (r ∷ rcpts) = elim (Bool-cases (is_listed r valid)) [
  | inl there ↦ rw there (Judged-all_listed valid rcpts)
  | inr missing ↦ rw missing (refused _)
]

module _ (lib : MailLibrary) where
  open lib use {Header, address_list}

  -- The check ends for every envelope and header, and either accepts or gives a validation error
  -- whose message ID, sender, recipients, subject and time are empty.
  pub validate-Judged :
      (f : Text) (rs : List Text) (h : Header) → Judged (validate_envelope_and_headers lib f rs h)
  unfolding validate_envelope_and_headers
  validate-Judged f rs h = Judged-bind (Judged-sole (address_list h (utf8 "From"))) λ author.
      Judged-bind (Judged-not_empty (address_list h (utf8 "To"))) λ tos.
        Judged-bind (Judged-no_addresses (address_list h (utf8 "Bcc"))) λ u.
          Judged-bind (Judged-same_path f author.address)
            λ v. Judged-all_listed (tos ++ addresses (address_list h (utf8 "Cc"))) rs
