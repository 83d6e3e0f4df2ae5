-- ===== src/Smtp/Gate.antt =====
-- Authentication in pec-server/internal/common/smtp-server.go.
use go_pec.Base.{
  All, Text, utf8, auth_required, Outcome, err, ◌≡◌, refl, ◌≢◌, ◌⊎◌, false, none, List, [], ◌∷◌,
  arith,
}
use go_pec.Base.TextLaws.{text_eq_iff}
use go_pec.Smtp.Defs.{
  get_from, get_to, get_data, get_signer, get_store, Method, authenticate, mail, rcpt, reset,
  logout, receive_data, step, run, Session, Command, auth_plain, mail_from, rcpt_to, data_body,
  rset, quit,
}

-- A command that does not carry the one accepted pair of name and password.
abbrev pub LacksCredentials : Command → Type 0
LacksCredentials (auth_plain identity username password) =
    (username ≢ utf8 "username") ⊎ (password ≢ utf8 "password")
LacksCredentials _ = Unit {0}

step-unauthenticated :
    (handler : Method) (c : Command) (s : Session)
    → s.auth ≡ false
    → LacksCredentials c
    → (step handler c s).0 ≡ s
unfolding step authenticate mail rcpt receive_data reset logout
step-unauthenticated handler (auth_plain i u p) s h l =
    ground (arith, text_eq_iff u (utf8 "username"), text_eq_iff p (utf8 "password"))
step-unauthenticated handler (mail_from f) s h l = ground arith
step-unauthenticated handler (rcpt_to t) s h l = ground arith
step-unauthenticated handler (data_body b) s h l = ground arith
step-unauthenticated handler rset s h l = refl
step-unauthenticated handler quit s h l = refl

-- Whatever a client sends without the accepted credentials, the session stays as it was: no
-- sender, recipient or data is taken over, and no handler changes it.
pub run-unauthenticated :
    (handler : Method) (cs : List Command) (s : Session)
    → s.auth ≡ false
    → All LacksCredentials cs
    → run handler cs s ≡ s
unfolding run
run-unauthenticated handler [] s h l = refl
run-unauthenticated handler (c ∷ cs) s h (l, ls) =
    rw (step-unauthenticated handler c s h l) (run-unauthenticated handler cs s h ls)

-- Before authentication MAIL, RCPT and DATA answer that it is required, and the readers of the
-- session's sender, recipients, data, signer and store show nothing.
pub gate_closed :
    (handler : Method) (from to : Text) (body : Outcome Text) (s : Session)
    → s.auth ≡ false
    → ((mail from s).1 ≡ err auth_required)
      × ((rcpt to s).1 ≡ err auth_required)
      × ((receive_data handler body s).1 ≡ err auth_required)
      × (get_from s ≡ err auth_required)
      × (get_to s ≡ err auth_required)
      × (get_data s ≡ err auth_required)
      × (get_signer s ≡ none)
      × (get_store s ≡ none)
unfolding mail rcpt receive_data get_from get_to get_data get_signer get_store
gate_closed handler from to body s h = ground arith
