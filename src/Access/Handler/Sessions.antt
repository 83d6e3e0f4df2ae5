-- ===== src/Access/Handler/Sessions.antt =====
-- A session of the access point: pec-server/internal/common/smtp-server.go with the handler of
-- pec-server/punto-accesso/punto-accesso.go.
use go_pec.Base.{
  Text, ValidationError, validation, Outcome, ok, err, panic, ◌≡◌, refl, true, List, ◌++◌, arith,
}
use go_pec.Mail.{MailLibrary}
use go_pec.Signer.{Pkcs7}
use go_pec.Smtp.{get_data, run, parse_email_from_session, Session, Command}
use go_pec.Smtp.Buffers.{recipients, bodies, KeepsEnvelope, run-accumulates}
use go_pec.Access.Validate.{validate_envelope_and_headers}
use go_pec.Access.Notices.{XmlLibrary}
use go_pec.Access.Handler.{
  store_notice, refuse, accept, judge, process, after_parse, access_point_handler, Surroundings,
}

-- What a handler leaves alone in one session.
abbrev IsKept : Session → Session → Type 0
IsKept s t = (t.to ≡ s.to) × (t.data_buffer ≡ s.data_buffer) × (t.auth ≡ s.auth)

module _ (lib : MailLibrary) (xml : XmlLibrary) (p7 : Pkcs7) (env : Surroundings) where
  open lib use {Header, create_reader}

  refuse-IsKept : (e : ValidationError) (s : Session) → IsKept s (refuse lib xml p7 env e s).0
  unfolding refuse store_notice
  refuse-IsKept e s = ground arith

  accept-IsKept : (b : Text) (s : Session) → IsKept s (accept lib xml p7 env b s).0
  unfolding accept
  accept-IsKept b s = ground arith

  judge-IsKept :
      (b : Text) (v : Outcome (Unit {0})) (s : Session) → IsKept s (judge lib xml p7 env b v s).0
  unfolding judge
  judge-IsKept b (ok _) s = accept-IsKept b s
  judge-IsKept b (err (validation e)) s = refuse-IsKept e s
  judge-IsKept b (err _) s = (refl, refl, refl)
  judge-IsKept b panic s = (refl, refl, refl)

  process-IsKept :
      (r : Outcome Header) (b : Text) (s : Session) → IsKept s (process lib xml p7 env r b s).0
  unfolding process
  process-IsKept (ok h) b s = judge-IsKept b (validate_envelope_and_headers lib s.from s.to h) s
  process-IsKept (err _) b s = (refl, refl, refl)
  process-IsKept panic b s = (refl, refl, refl)

  after_parse-IsKept :
      (m : Outcome (Header × Text)) (d : Outcome Text) (s : Session)
      → IsKept s (after_parse lib xml p7 env m d s).0
  unfolding after_parse
  after_parse-IsKept (ok _) (ok b) s = process-IsKept (create_reader b) b s
  after_parse-IsKept (ok _) (err _) s = (refl, refl, refl)
  after_parse-IsKept (ok _) panic s = (refl, refl, refl)
  after_parse-IsKept (err _) d s = (refl, refl, refl)
  after_parse-IsKept panic d s = (refl, refl, refl)

  access_point_handler-KeepsEnvelope : KeepsEnvelope (access_point_handler lib xml p7 env)
  unfolding access_point_handler
  access_point_handler-KeepsEnvelope s =
      after_parse-IsKept (parse_email_from_session lib s) (get_data s) s

  -- In an authenticated session of the access point recipients and data pile up from one message to
  -- the next, also across RSET: after any commands the session holds its first recipients and data
  -- followed by all that were sent, whatever became of each message.
  pub run-access_point :
      (cs : List Command) (s : Session)
      → s.auth ≡ true
      → ((run (access_point_handler lib xml p7 env) cs s).to ≡ s.to ++ recipients cs)
        × ((run (access_point_handler lib xml p7 env) cs s).data_buffer
            ≡ s.data_buffer ++ bodies cs)
        × ((run (access_point_handler lib xml p7 env) cs s).auth ≡ true)
  run-access_point cs s h =
      run-accumulates (access_point_handler lib xml p7 env) cs s access_point_handler-KeepsEnvelope
        h
