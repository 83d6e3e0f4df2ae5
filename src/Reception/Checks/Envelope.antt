-- ===== src/Reception/Checks/Envelope.antt =====
-- What `IsValidTransportEnvelope` of pec-server/punto-ricezione/punto-ricezione.go accepts.
use go_pec.Base.{Text, Dict, ◌≡◌, refl, false, Option, none, some, arith}
use go_pec.Mail.{MailLibrary}
use go_pec.Reception.Checks.{
  signer_of, is_certified_signer, is_valid_transport_envelope, SignatureLibrary,
}

module _ (lib : MailLibrary) (sig : SignatureLibrary) where
  open lib use {Header}
  open sig use {SignedMessage, Certificate, verify-no_roots}

  is_certified_signer-never :
      (hashes : Dict (Unit {0})) (h : Header) (o : Option (SignedMessage × Certificate))
      → is_certified_signer lib sig hashes h o ≡ false
  unfolding is_certified_signer
  is_certified_signer-never hashes h none = refl
  is_certified_signer-never hashes h (some (p, c)) = ground (arith, verify-no_roots c)

  -- No transport envelope is accepted, whatever is in the provider index and whatever the envelope
  -- is signed with.
  pub is_valid_transport_envelope-never :
      (hashes : Dict (Unit {0})) (h : Header) (body : Text)
      → is_valid_transport_envelope lib sig hashes h body ≡ false
  unfolding is_valid_transport_envelope
  is_valid_transport_envelope-never hashes h body =
      ground (arith, is_certified_signer-never hashes h (signer_of lib sig body))
