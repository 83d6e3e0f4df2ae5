-- ===== src/Access/SessionTests.antt =====
-- A session of the access point in which two messages are sent.
use go_pec.Base.{utf8, zero_time, ok, ◌≡◌, refl, true, some, List, [], ◌∷◌, ◌++◌}
use go_pec.Smtp.{Method, run, Session, Command, mail_from, rcpt_to, data_body, rset}
use go_pec.Smtp.Buffers.{recipients, bodies}
use go_pec.Storage.{new_in_memory_store}
use go_pec.Samples.{Fields, mail_library, pkcs7, sample_signer, xml_library}
use go_pec.Access.Handler.{access_point_handler, Surroundings}
use go_pec.Access.Handler.Sessions.{run-access_point}

abbrev env : Surroundings
env = record { now = λ i. zero_time; arrange = λ d. d }

abbrev header : Fields
header = (utf8 "From", utf8 "ada@pec.it") ∷ (utf8 "To", utf8 "bob@pec.it") ∷ []

abbrev handler : Method
handler = access_point_handler (mail_library header) xml_library pkcs7 env

abbrev entered : Session
entered = record {
  from = [];
  to = [];
  data_buffer = [];
  auth = true;
  signer = some sample_signer;
  store = some new_in_memory_store;
  domain = utf8 "pec.it";
}

abbrev two_messages : List Command
two_messages =
    mail_from (utf8 "ada@pec.it")
    ∷ rcpt_to (utf8 "bob@pec.it")
    ∷ data_body (ok (utf8 "one"))
    ∷ rset
    ∷ mail_from (utf8 "ada@pec.it")
    ∷ rcpt_to (utf8 "eve@pec.it")
    ∷ data_body (ok (utf8 "two"))
    ∷ []

run-access_point_example :
    ((run handler two_messages entered).to ≡ entered.to ++ recipients two_messages)
    × ((run handler two_messages entered).data_buffer ≡ entered.data_buffer ++ bodies two_messages)
    × ((run handler two_messages entered).auth ≡ true)
run-access_point_example =
    run-access_point (mail_library header) xml_library pkcs7 env two_messages entered refl
