-- ===== src/Smtp/Buffers.antt =====
-- What a session of pec-server/internal/common/smtp-server.go holds after several transactions.
use go_pec.Base.{
  Text, ok, err, panic, ◌≡◌, sym, ap, ◌∙◌, true, List, [], ◌∷◌, ◌++◌, append_assoc, append-nil,
  arith,
}
use go_pec.Smtp.Defs.{
  Method, authenticate, mail, rcpt, reset, logout, receive_data, step, run, Session, Command,
  auth_plain, mail_from, rcpt_to, data_body, rset, quit,
}

-- The recipient and the body that a command carries.
abbrev recipient_of : Command → List Text
recipient_of (rcpt_to t) = t ∷ []
recipient_of _ = []

abbrev body_of : Command → Text
body_of (data_body (ok b)) = b
body_of _ = []

-- Those of all commands, in order.
abbrev pub recipients : List Command → List Text
recipients [] = []
recipients (c ∷ cs) = recipient_of c ++ recipients cs

abbrev pub bodies : List Command → Text
bodies [] = []
bodies (c ∷ cs) = body_of c ++ bodies cs

-- A handler that leaves the envelope, the data and the authentication alone.
abbrev pub KeepsEnvelope : Method → Type 0
KeepsEnvelope handler =
    (s : Session)
    → ((handler s).0.to ≡ s.to)
      × ((handler s).0.data_buffer ≡ s.data_buffer)
      × ((handler s).0.auth ≡ s.auth)

step-accumulates :
    (handler : Method) (c : Command) (s : Session)
    → KeepsEnvelope handler
    → s.auth ≡ true
    → ((step handler c s).0.to ≡ s.to ++ recipient_of c)
      × ((step handler c s).0.data_buffer ≡ s.data_buffer ++ body_of c)
      × ((step handler c s).0.auth ≡ true)
unfolding step authenticate mail rcpt receive_data reset logout
step-accumulates handler (auth_plain i u p) s keeps h =
    ground (arith, append-nil s.to, append-nil s.data_buffer)
step-accumulates handler (mail_from f) s keeps h =
    ground (arith, append-nil s.to, append-nil s.data_buffer)
step-accumulates handler (rcpt_to t) s keeps h = ground (arith, append-nil s.data_buffer)
step-accumulates handler (data_body (ok b)) s keeps h =
    let kept = keeps (record s { data_buffer = s.data_buffer ++ b }) in
    ground (arith, append-nil s.to)
step-accumulates handler (data_body (err e)) s keeps h =
    ground (arith, append-nil s.to, append-nil s.data_buffer)
step-accumulates handler (data_body panic) s keeps h =
    ground (arith, append-nil s.to, append-nil s.data_buffer)
step-accumulates handler rset s keeps h = (sym (append-nil _), sym (append-nil _), h)
step-accumulates handler quit s keeps h = (sym (append-nil _), sym (append-nil _), h)

-- In an authenticated session recipients and data pile up from one transaction to the next, also
-- across RSET: after any commands the session holds its first recipients and data followed by all
-- that were sent, provided that the handler itself leaves them alone.
pub run-accumulates :
    (handler : Method) (cs : List Command) (s : Session)
    → KeepsEnvelope handler
    → s.auth ≡ true
    → ((run handler cs s).to ≡ s.to ++ recipients cs)
      × ((run handler cs s).data_buffer ≡ s.data_buffer ++ bodies cs)
      × ((run handler cs s).auth ≡ true)
unfolding run
run-accumulates handler [] s keeps h = (sym (append-nil _), sym (append-nil _), h)
run-accumulates handler (c ∷ cs) s keeps h =
    let (to, bytes, auth) = step-accumulates handler c s keeps h in
    let (tos, rest, stays) = run-accumulates handler cs (step handler c s).0 keeps auth in
    (
      tos ∙ ap (λ t. t ++ recipients cs) to ∙ append_assoc s.to (recipient_of c) (recipients cs),
      rest ∙ ap (λ t. t ++ bodies cs) bytes ∙ append_assoc s.data_buffer (body_of c) (bodies cs),
      stays,
    )
