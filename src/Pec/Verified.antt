-- ===== src/Pec/Verified.antt =====
-- What a success of Verify in pec/validate.go says of the file.
use go_pec.Base.{
  Text, utf8, with_context, >>=-eq-ok, with_context-eq-ok, Error, Outcome, ok, err, panic, ◌≡◌,
  refl, ◌↔◌, Option, none, some, arith,
}
use go_pec.Pec.Types.{MimeLibrary, MailMessage}
use go_pec.Pec.Defs.{parse_pec}
use go_pec.Pec.Verify.{
  file_bytes, check_signature, read_email, verify_smime_with_openssl, check_parsed, verify_bytes,
  verify, Environment,
}

check_signature-ok : (m : Outcome (Unit {0})) → check_signature m ≡ ok tt → m ≡ ok tt
unfolding check_signature
check_signature-ok (ok _) h = refl
check_signature-ok (err _) h = cc
check_signature-ok panic h = cc

file_bytes-some : (m : Outcome Text) {bytes : Text} → file_bytes m ≡ some bytes → m ≡ ok bytes
unfolding file_bytes
file_bytes-some (ok b) h = ground (arith, h)
file_bytes-some (err _) h = cc
file_bytes-some panic h = cc

module _ (env : Environment) (lib : MimeLibrary) where
  open env use {read_file, read_message, run_openssl}

  -- The file can be read and parsed, without an error of the parser, and OpenSSL accepts it.
  abbrev pub IsVerified : Text → Type 0
  IsVerified filename =
      (bytes : Text) × (msg : MailMessage) × (read_file filename ≡ ok bytes)
      × (read_message bytes ≡ ok msg)
      × ((parse_pec lib msg).2 ≡ none)
      × (run_openssl filename ≡ ok tt)

  check_parsed-ok :
      (filename : Text) (e : Option Error)
      → check_parsed env lib filename e ≡ ok tt
      → (e ≡ none) × (run_openssl filename ≡ ok tt)
  unfolding check_parsed check_signature verify_smime_with_openssl
  check_parsed-ok filename none h = (
    refl,
    with_context-eq-ok (utf8 "OpenSSL verification failed") (run_openssl filename) (
        check_signature-ok
          (with_context (utf8 "OpenSSL verification failed") (run_openssl filename)) h),
  )
  check_parsed-ok filename (some e) h = cc

  verify_bytes-ok :
      (filename : Text) (found : Option Text)
      → verify_bytes env lib filename found ≡ ok tt
      → (bytes : Text) × (msg : MailMessage) × (found ≡ some bytes)
        × (read_message bytes ≡ ok msg)
        × ((parse_pec lib msg).2 ≡ none)
        × (run_openssl filename ≡ ok tt)
  unfolding verify_bytes
  verify_bytes-ok filename none h = cc
  verify_bytes-ok filename (some bytes) h =
      let (msg, read, rest) =
        >>=-eq-ok (with_context (utf8 "Error parsing email") (read_message bytes))
          (λ msg. check_parsed env lib filename (parse_pec lib msg).2) h in
      let (fine, signed) = check_parsed-ok filename (parse_pec lib msg).2 rest in
      (
        bytes,
        msg,
        refl,
        with_context-eq-ok (utf8 "Error parsing email") (read_message bytes) read,
        fine,
        signed,
      )

  verify-IsVerified : (filename : Text) → verify env lib filename ≡ ok tt → IsVerified filename
  unfolding verify read_email
  verify-IsVerified filename h =
      let (bytes, msg, found, read, fine, signed) =
        verify_bytes-ok filename (read_email env filename) h in
      (bytes, msg, file_bytes-some (read_file filename) found, read, fine, signed)

  IsVerified-verify : (filename : Text) → IsVerified filename → verify env lib filename ≡ ok tt
  unfolding verify read_email file_bytes verify_bytes check_parsed check_signature
      verify_smime_with_openssl
  IsVerified-verify filename (bytes, msg, reads, parses, fine, signed) =
      rw (reads, parses, fine, signed) refl

  pub verify_iff : (filename : Text) → (verify env lib filename ≡ ok tt) ↔ IsVerified filename
  verify_iff filename = (verify-IsVerified filename, IsVerified-verify filename)
