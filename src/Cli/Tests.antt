-- ===== src/Cli/Tests.antt =====
-- The command line at concrete arguments, on a system with one file.
use go_pec.Base.{
  if◌then◌else◌, Text, utf8, text_eq, is_empty, message, ok, err, ◌≡◌, refl, ◌↔◌, none, List, [],
  ◌∷◌,
}
use go_pec.Pec.{
  header_get, MimeLibrary, parse_pec, normalize_line_endings, file_bytes, check_signature,
  read_email, verify_smime_with_openssl, check_parsed, verify_bytes, verify, Environment,
}
use go_pec.Cli.Defs.{
  exit_code, after_verify, verify_in, verify_cmd, main, Flags, parsed, refused, help_asked, valid,
  fatal,
}
use go_pec.Cli.Exits.{IsRun, main-valid_iff}

abbrev receipt_file : Text
receipt_file = utf8 "ricevuta.eml"

-- OpenSSL accepts every file.
abbrev one_file : Environment
one_file = record {
  read_file = λ path.
      if text_eq path receipt_file then ok (utf8 "ciao") else err (message (utf8 "no such file"));
  read_message = λ bytes. ok (record { header = []; body = bytes });
  run_openssl = λ path. ok tt;
}

abbrev plain_mime : MimeLibrary
plain_mime = record {
  parse_media_type = λ t. record { media_type = t; boundary = []; failure = none };
  parts = λ body boundary. ([], none);
  decode_base64 = λ t. ok t;
  unmarshal = λ t. err (message (utf8 "no XML"));
}

-- "-in" and a value.
abbrev parse_in : List Text → Flags
parse_in (flag ∷ value ∷ []) = if text_eq flag (utf8 "-in") then parsed value else refused
parse_in (_ ∷ []) = help_asked
parse_in _ = refused

abbrev arguments : Text → List Text
arguments file = utf8 "pec-parser" ∷ utf8 "verify" ∷ utf8 "-in" ∷ file ∷ []

main-of_receipt : main one_file plain_mime parse_in (arguments receipt_file) ≡ valid
unfolding main verify_cmd verify_in after_verify verify read_email file_bytes verify_bytes
    check_parsed check_signature verify_smime_with_openssl parse_pec header_get utf8 text_eq
    is_empty
main-of_receipt = refl

main-of_missing :
    main one_file plain_mime parse_in (arguments (utf8 "x"))
    ≡ fatal (message (utf8 "Error reading file x"))
unfolding main verify_cmd verify_in after_verify verify read_email file_bytes verify_bytes
    check_parsed check_signature verify_smime_with_openssl parse_pec header_get utf8 text_eq
    is_empty
main-of_missing = refl

main-valid_iff_example :
    (main one_file plain_mime parse_in (arguments receipt_file) ≡ valid)
    ↔ IsRun one_file plain_mime parse_in (arguments receipt_file)
main-valid_iff_example = main-valid_iff one_file plain_mime parse_in (arguments receipt_file)

crlf-doubled : normalize_line_endings (13 ∷ 10 ∷ []) ≡ 13 ∷ 13 ∷ 10 ∷ []
unfolding normalize_line_endings
crlf-doubled = refl

help-ends_well :
    exit_code
      (main one_file plain_mime parse_in (utf8 "pec-parser" ∷ utf8 "verify" ∷ utf8 "-h" ∷ []))
    ≡ 0
unfolding exit_code main verify_cmd verify_in utf8 text_eq
help-ends_well = refl
