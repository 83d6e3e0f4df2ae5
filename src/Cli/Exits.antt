-- ===== src/Cli/Exits.antt =====
-- When the command of cmd/pec/main.go ends with success.
use go_pec.Base.{
  Bool-cases, Text, utf8, text_eq, is_empty, Outcome, ok, err, panic, ◌≡◌, refl, ◌≢◌, ◌↔◌, inl, inr,
  false, List, [], ◌∷◌, arith,
}
use go_pec.Pec.{MimeLibrary, verify, Environment}
use go_pec.Pec.Verified.{IsVerified, verify_iff}
use go_pec.Cli.Defs.{
  after_verify, verify_in, verify_cmd, main, Flags, parsed, refused, help_asked, valid,
}
use go_pec.Base.TextLaws.{text_eq_iff, text_eq_refl, is_empty_iff}

after_verify-valid : (m : Outcome (Unit {0})) → after_verify m ≡ valid → m ≡ ok tt
unfolding after_verify
after_verify-valid (ok _) h = refl
after_verify-valid (err _) h = cc
after_verify-valid panic h = cc

module _ (env : Environment) (lib : MimeLibrary) (parse_in : List Text → Flags) where
  verify_in-valid :
      (found : Flags)
      → verify_in env lib parse_in found ≡ valid
      → (file : Text) × (found ≡ parsed file) × (file ≢ []) × IsVerified env lib file
  unfolding verify_in
  verify_in-valid refused h = cc
  verify_in-valid help_asked h = cc
  verify_in-valid (parsed file) h = elim (Bool-cases (is_empty file)) [
    | inl empty ↦ (let stopped = rw empty at h in cc)
    | inr full ↦ (
      file,
      refl,
      λ e. ground (arith, is_empty_iff file, full, e),
      (verify_iff env lib file).0 (after_verify-valid (verify env lib file) (rw full at h)),
    )
  ]

  main-verify :
      (program command : Text) (args : List Text)
      → main env lib parse_in (program ∷ command ∷ args) ≡ valid
      → (command ≡ utf8 "verify") × (verify_in env lib parse_in (parse_in args) ≡ valid)
  unfolding main verify_cmd
  main-verify program command args h = elim (Bool-cases (text_eq command (utf8 "verify"))) [
    | inl same ↦ ((text_eq_iff command (utf8 "verify")).0 same, rw same at h)
    | inr other ↦ (let stopped = rw other at h in cc)
  ]

  abbrev pub IsRun : List Text → Type 0
  IsRun args =
      (program : Text) × (rest : List Text) × (file : Text) × (args
        ≡ program ∷ utf8 "verify" ∷ rest)
      × (parse_in rest ≡ parsed file)
      × (file ≢ [])
      × IsVerified env lib file

  main-valid : (args : List Text) → main env lib parse_in args ≡ valid → IsRun args
  unfolding main
  main-valid [] h = cc
  main-valid (program ∷ []) h = cc
  main-valid (program ∷ command ∷ rest) h =
      let (is, ends) = main-verify program command rest h in
      let (file, named, full, verified) = verify_in-valid (parse_in rest) ends in
      (program, rest, file, rw is refl, named, full, verified)

  IsRun-main : (args : List Text) → IsRun args → main env lib parse_in args ≡ valid
  unfolding main verify_cmd verify_in after_verify
  IsRun-main args (program, rest, file, is, named, full, verified) =
      let filled : is_empty file ≡ false = ground (arith, is_empty_iff file) in
      rw (is, text_eq_refl (utf8 "verify"), named, filled, (verify_iff env lib file).1 verified)
        refl

  -- The program says that the receipt is valid exactly if it is called with the command "verify" and a file
  -- that the flag "-in" names, and this file can be read and parsed, without an error of the parser
  -- of certified mail, and OpenSSL accepts its signature.
  pub main-valid_iff :
      (args : List Text)
      → (main env lib parse_in args ≡ valid) ↔ (
          (program : Text) × (rest : List Text) × (file : Text) × (args
            ≡ program ∷ utf8 "verify" ∷ rest)
          × (parse_in rest ≡ parsed file)
          × (file ≢ [])
          × IsVerified env lib file)
  main-valid_iff args = (main-valid args, IsRun-main args)
