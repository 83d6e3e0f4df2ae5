-- ===== src/Smtp/Tests.antt =====
-- The theorems on the session at concrete inputs.
use go_pec.Base.{utf8, ok, ◌≡◌, refl, ◌≢◌, inr, true, false, none, List, [], ◌∷◌}
use go_pec.Smtp.Defs.{
  new_session, Method, rcpt, reset, receive_data, step, run, Session, Command, auth_plain,
  mail_from, rcpt_to, data_body, rset,
}
use go_pec.Smtp.Gate.{run-unauthenticated}

abbrev fresh : Session
fresh = new_session none none (utf8 "pec.it")

abbrev trusted : Session
trusted = record fresh { auth = true }

-- A handler that stores nothing.
abbrev silent : Method
silent s = (s, ok tt)

abbrev guesses : List Command
guesses =
    auth_plain [] (utf8 "username") (utf8 "secret")
    ∷ mail_from (utf8 "ada@pec.it")
    ∷ rcpt_to (utf8 "bob@pec.it")
    ∷ data_body (ok (utf8 "hello"))
    ∷ []

fresh-auth : fresh.auth ≡ false
unfolding new_session
fresh-auth = refl

wrong_password : utf8 "secret" ≢ utf8 "password"
unfolding utf8
wrong_password e = cc

run-unauthenticated_example : run silent guesses fresh ≡ fresh
run-unauthenticated_example =
    run-unauthenticated silent guesses fresh fresh-auth (inr wrong_password, (tt, (tt, (tt, tt))))

abbrev two_mails : List Command
two_mails =
    rcpt_to (utf8 "bob@pec.it")
    ∷ data_body (ok (utf8 "one"))
    ∷ rset
    ∷ rcpt_to (utf8 "eve@pec.it")
    ∷ data_body (ok (utf8 "two"))
    ∷ []

second_mail-goes_to_both :
    ((run silent two_mails trusted).to ≡ utf8 "bob@pec.it" ∷ utf8 "eve@pec.it" ∷ [])
    × ((run silent two_mails trusted).data_buffer ≡ utf8 "onetwo")
unfolding run step rcpt receive_data reset new_session utf8
second_mail-goes_to_both = (refl, refl)
