-- ===== src/Signer/Tests.antt =====
-- The line breaking of the signer at concrete inputs.
use go_pec.Base.{utf8, ◌≡◌, refl, some, ◌++◌, arith}
use go_pec.Signer.Defs.{crlf, slice, format_from, format_base64, base64}
use go_pec.Signer.Lines.{Broken, format_base64-Broken}

lines-of_five :
    format_base64 (utf8 "abcde") 2 ≡ some (utf8 "ab" ++ crlf ++ utf8 "cd" ++ crlf ++ utf8 "e")
unfolding format_base64 format_from slice utf8
lines-of_five = refl

base64-of_three : base64 (utf8 "Man!") ≡ utf8 "TWFuIQ=="
unfolding base64 utf8
base64-of_three = refl

format_base64-Broken_example : Broken 2 (utf8 "abcde") (format_base64 (utf8 "abcde") 2)
format_base64-Broken_example = format_base64-Broken (utf8 "abcde") 2 (omega arith)
