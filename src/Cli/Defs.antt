-- ===== src/Cli/Defs.antt =====
-- `main` and `verifyCmd`. Package flag is a parameter: what it finds for "-in", or that it ends the
-- program, because the arguments cannot be parsed or because help is asked for.
use go_pec.Base.{
  if◌then◌else◌, Text, utf8, text_eq, is_empty, Error, Outcome, ok, err, panic, ℕ, List, [], ◌∷◌,
}
use go_pec.Pec.{MimeLibrary, verify, Environment}

-- FlagSet.Parse with flag.ExitOnError, followed by the value of the flag.
pub data Flags : Type 0 where
  parsed : Text → Flags
  refused help_asked : Flags

-- How the program ends. Printing is left out but for the error of log.Fatal.
pub data Exit : Type 0 where
  usage unknown_command bad_flags help valid crash : Exit
  fatal : Error → Exit

-- os.Exit(1), log.Fatal, flag.ExitOnError, the end of `main`, and a panic.
unfoldable pub exit_code : Exit → ℕ
exit_code usage = 1
exit_code unknown_command = 1
exit_code (fatal _) = 1
exit_code bad_flags = 2
exit_code crash = 2
exit_code help = 0
exit_code valid = 0

unfoldable pub after_verify : Outcome (Unit {0}) → Exit
after_verify (ok _) = valid
after_verify (err e) = fatal e
after_verify panic = crash

module _ (env : Environment) (lib : MimeLibrary) (parse_in : List Text → Flags) where
  -- The rest of `verifyCmd` with the value of the flag.
  unfoldable pub verify_in : Flags → Exit
  unfolding after_verify
  verify_in refused = bad_flags
  verify_in help_asked = help
  verify_in (parsed file) = if is_empty file then usage else after_verify (verify env lib file)

  unfoldable pub verify_cmd : List Text → Exit
  unfolding verify_in
  verify_cmd args = verify_in (parse_in args)

  -- The first argument is the name of the program.
  unfoldable pub main : List Text → Exit
  unfolding verify_cmd
  main [] = usage
  main (program ∷ []) = usage
  main (program ∷ command ∷ args) =
      if text_eq command (utf8 "verify") then verify_cmd args else unknown_command
