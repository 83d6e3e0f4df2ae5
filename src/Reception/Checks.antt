-- ===== src/Reception/Checks.antt =====
-- `IsValidTransportEnvelope` and `IsValidReceiptOrAvviso` of
-- pec-server/punto-ricezione/punto-ricezione.go. PKCS #7, SHA-1 and X.509 are a parameter.
pub mod Envelope
pub mod Receipts
use go_pec.Base.{
  if◌then◌else◌, any, Text, utf8, text_eq, is_empty, to_upper, contains, Dict, lookup, ◌≡◌, Bool,
  true, false, not, ◌&&◌, Option, none, some, List, [], ◌∷◌,
}
use go_pec.Commons.{hex}
use go_pec.Mail.{MailLibrary}

-- go.mozilla.org/pkcs7, crypto/sha1 and crypto/x509. `verify_certificate` is whether
-- `Certificate.Verify` finds a chain to the pool of roots: there is none to an empty pool.
pub record SignatureLibrary : Type 1 where
  pub SignedMessage : Type 0
  pub Certificate : Type 0
  pub parse : Text → Option SignedMessage
  pub certificates : SignedMessage → List Certificate
  pub only_signer : SignedMessage → Option Certificate
  pub raw : Certificate → Text
  pub sha1 : Text → Text
  pub verify_certificate : List Certificate → Certificate → Bool
  pub verify-no_roots : (c : Certificate) → verify_certificate [] c ≡ false
  pub verify : SignedMessage → Bool

-- The set of the hashes of the certified providers, which the source leaves empty.
unfoldable pub provider_certificate_hashes : Dict (Unit {0})
provider_certificate_hashes = []

unfoldable pub missing_any : (Text → Text) → List Text → Bool
missing_any field names = any (λ name. is_empty (field name)) names

-- The fields that a receipt has to carry.
abbrev pub receipt_headers : List Text
receipt_headers =
    utf8 "Date" ∷ utf8 "Subject" ∷ utf8 "From" ∷ utf8 "To" ∷ utf8 "X-Riferimento-Message-ID" ∷ []

unfoldable pub unknown_tipo : Text → Bool
unknown_tipo tipo =
    not (is_empty tipo)
    && not (text_eq tipo (utf8 "breve"))
    && not (text_eq tipo (utf8 "sintetica"))

-- The header is given by its `Get`.
unfoldable pub is_valid_receipt_or_avviso : (Text → Text) → Bool
is_valid_receipt_or_avviso field =
    let kind = field (utf8 "X-Ricevuta") in
    if text_eq kind (utf8 "avvenuta-consegna")
    then if missing_any field receipt_headers
      then false
      else if unknown_tipo (field (utf8 "X-TipoRicevuta"))
      then false
      else true
    else if text_eq kind (utf8 "errore-consegna")
    then if missing_any field receipt_headers then false else true
    else false

module _ (lib : MailLibrary) (sig : SignatureLibrary) where
  open lib use {Header, get, address_list, date}
  open sig use {
    SignedMessage, Certificate, parse, certificates, only_signer, raw, sha1, verify_certificate,
    verify,
  }

  abbrev pub certificate_hash : Certificate → Text
  certificate_hash c = to_upper (hex (sha1 (raw c)))

  -- The signer of the body, where the body is a signed message with a certificate.
  unfoldable pub signer_of : Text → Option (SignedMessage × Certificate)
  signer_of body = elim (parse body) [
    | none ↦ none
    | some p7 ↦ elim (certificates p7) [
      | [] ↦ none
      | _ ∷ _ ↦ elim (only_signer p7) [ none ↦ none | some c ↦ some (p7, c) ]
    ]
  ]

  unfoldable pub is_formally_correct : Header → Bool
  is_formally_correct h = elim (address_list h (utf8 "From")) [
    | none ↦ false
    | some _ ↦ elim (address_list h (utf8 "To")) [
      | none ↦ false
      | some _ ↦ elim (date h) [ none ↦ false | some _ ↦ true ]
    ]
  ]

  -- `hashes` is the provider index. The pool of roots is made empty.
  unfoldable pub is_certified_signer :
      Dict (Unit {0}) → Header → Option (SignedMessage × Certificate) → Bool
  is_certified_signer hashes h none = false
  is_certified_signer hashes h (some (p7, c)) = elim (lookup (certificate_hash c) hashes) [
    | none ↦ false
    | some _ ↦
        if not (verify_certificate [] c)
        then false
        else if not (verify p7)
        then false
        else is_formally_correct h
  ]

  unfoldable pub is_valid_transport_envelope : Dict (Unit {0}) → Header → Text → Bool
  is_valid_transport_envelope hashes h body =
      let content_type = get h (utf8 "Content-Type") in
      if not (contains content_type (utf8 "application/pkcs7-mime"))
        && not (contains content_type (utf8 "smime.p7m"))
      then false
      else is_certified_signer hashes h (signer_of body)
