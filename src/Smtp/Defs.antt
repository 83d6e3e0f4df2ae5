-- ===== src/Smtp/Defs.antt =====
-- The session, its methods, and a run of commands.
use go_pec.Base.{
  if◌then◌else◌, Text, utf8, text_eq, ◌>>=◌, auth_required, message, Outcome, ok, err, panic, Bool,
  true, false, not, ◌||◌, Option, none, List, [], ◌∷◌, ◌++◌,
}
use go_pec.Mail.{MailLibrary}
use go_pec.Signer.{Signer}
use go_pec.Storage.{InMemoryStore}

-- A nil store or signer is `none`. The handler is a parameter of what calls it.
pub record Session : Type 0 where
  pub from : Text
  pub to : List Text
  pub data_buffer : Text
  pub auth : Bool
  pub signer : Option Signer
  pub store : Option InMemoryStore
  pub domain : Text

-- `Backend.NewSession`
unfoldable pub new_session : Option Signer → Option InMemoryStore → Text → Session
new_session signer store domain = record {
  from = [];
  to = [];
  data_buffer = [];
  auth = false;
  signer = signer;
  store = store;
  domain = domain;
}

unfoldable pub get_from : Session → Outcome Text
get_from s = if s.auth then ok s.from else err auth_required

unfoldable pub get_to : Session → Outcome (List Text)
get_to s = if s.auth then ok s.to else err auth_required

unfoldable pub get_data : Session → Outcome Text
get_data s = if s.auth then ok s.data_buffer else err auth_required

unfoldable pub get_signer : Session → Option Signer
get_signer s = if s.auth then s.signer else none

unfoldable pub get_store : Session → Option InMemoryStore
get_store s = if s.auth then s.store else none

abbrev pub Method : Type 0
Method = Session → Session × Outcome (Unit {0})

-- The callback of the PLAIN mechanism that `Auth` installs.
unfoldable pub authenticate : Text → Text → Text → Method
authenticate identity username password s =
    if not (text_eq username (utf8 "username")) || not (text_eq password (utf8 "password"))
    then (s, err (message (utf8 "invalid username or password")))
    else (record s { auth = true }, ok tt)

unfoldable pub mail : Text → Method
mail from s = if s.auth then (record s { from = from }, ok tt) else (s, err auth_required)

unfoldable pub rcpt : Text → Method
rcpt to s = if s.auth then (record s { to = s.to ++ to ∷ [] }, ok tt) else (s, err auth_required)

unfoldable pub reset : Method
reset s = (s, ok tt)

unfoldable pub logout : Method
logout s = (s, ok tt)

-- What a client sends. The body of DATA is what reading it gives.
pub data Command : Type 0 where
  auth_plain : Text → Text → Text → Command
  mail_from rcpt_to : Text → Command
  data_body : Outcome Text → Command
  rset quit : Command

module _ (handler : Method) where
  unfoldable pub receive_data : Outcome Text → Method
  receive_data body s =
      if s.auth
      then elim body [
        | ok b ↦ handler (record s { data_buffer = s.data_buffer ++ b })
        | err e ↦ (s, err e)
        | panic ↦ (s, panic)
      ]
      else (s, err auth_required)

  unfoldable pub step : Command → Method
  step (auth_plain identity username password) = authenticate identity username password
  step (mail_from from) = mail from
  step (rcpt_to to) = rcpt to
  step (data_body body) = receive_data body
  step rset = reset
  step quit = logout

  -- The server goes on after a command that failed.
  unfoldable pub run : List Command → Session → Session
  run [] s = s
  run (c ∷ cs) s = run cs (step c s).0

-- `ParseEmailFromSession`: the header, and how reading the first part ended.
module _ (lib : MailLibrary) where
  open lib use {Header, create_reader, first_part}

  unfoldable pub parse_email_from_session : Session → Outcome (Header × Text)
  parse_email_from_session s = do
    header ← create_reader s.data_buffer
    body ← first_part s.data_buffer
    ok (header, body)
