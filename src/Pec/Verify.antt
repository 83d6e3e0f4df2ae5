-- ===== src/Pec/Verify.antt =====
-- pec/utils.go and pec/validate.go. The operating system is a parameter: what reading a file gives,
-- and how a run of OpenSSL on it ends.
use go_pec.Base.{
  ◌==◌, if◌then◌else◌, Text, utf8, ◌>>=◌, with_context, Error, message, wrap, Outcome, ok, err,
  panic, Option, none, some, [], ◌∷◌, ◌++◌,
}
use go_pec.Pec.Types.{MimeLibrary, MailMessage}
use go_pec.Pec.Defs.{parse_pec}

-- os.ReadFile, net/mail.ReadMessage, and the run of "openssl smime -verify" on a file.
pub record Environment : Type 0 where
  pub read_file : Text → Outcome Text
  pub read_message : Text → Outcome MailMessage
  pub run_openssl : Text → Outcome (Unit {0})

-- A carriage return before each line feed, also where there is one.
unfoldable pub normalize_line_endings : Text → Text
normalize_line_endings [] = []
normalize_line_endings (c ∷ s) =
    let rest = normalize_line_endings s in if c == 10 then 13 ∷ 10 ∷ rest else c ∷ rest

-- What is left of the result of `os.ReadFile`: nil for an error.
unfoldable pub file_bytes : Outcome Text → Option Text
file_bytes (ok bytes) = some bytes
file_bytes (err _) = none
file_bytes panic = none

-- The last step of `Verify`: any error of OpenSSL becomes this one.
unfoldable pub check_signature : Outcome (Unit {0}) → Outcome (Unit {0})
check_signature (ok _) = ok tt
check_signature (err _) = err (message (utf8 "Verification failed"))
check_signature panic = panic

module _ (env : Environment) where
  open env use {read_file, read_message, run_openssl}

  unfoldable pub read_email : Text → Option Text
  unfolding file_bytes
  read_email file_path = file_bytes (read_file file_path)

  unfoldable pub verify_smime_with_openssl : Text → Outcome (Unit {0})
  verify_smime_with_openssl eml_file =
      with_context (utf8 "OpenSSL verification failed") (run_openssl eml_file)

  module _ (lib : MimeLibrary) where
    -- The middle of `Verify`: the error of the parser is the only one of its results that counts.
    unfoldable pub check_parsed : Text → Option Error → Outcome (Unit {0})
    unfolding verify_smime_with_openssl check_signature
    check_parsed filename none = check_signature (verify_smime_with_openssl filename)
    check_parsed filename (some e) = err (wrap (utf8 "failed to parse email") e)

    -- The error of the parser of mail stands after its context, here without a colon.
    unfoldable pub verify_bytes : Text → Option Text → Outcome (Unit {0})
    unfolding parse_pec check_parsed
    verify_bytes filename none = err (message (utf8 "Error reading file " ++ filename))
    verify_bytes filename (some eml_data) = do
      msg ← with_context (utf8 "Error parsing email") (read_message eml_data)
      check_parsed filename (parse_pec lib msg).2

    unfoldable pub verify : Text → Outcome (Unit {0})
    unfolding read_email verify_bytes
    verify filename = verify_bytes filename (read_email filename)
