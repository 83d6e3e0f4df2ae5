-- ===== src/Access/Handler.antt =====
-- `AccessPointHandler` of pec-server/punto-accesso/punto-accesso.go: what the access point does with
-- a message, on every path.
pub mod Paths
pub mod Sessions
use go_pec.Base.{
  Text, utf8, Dict, Time, ValidationError, message, validation, Outcome, ok, err, panic, ℕ, none,
  some,
}
use go_pec.Commons.{convert_to_imap_message}
use go_pec.Mail.{Entity, MailLibrary}
use go_pec.Signer.{Pkcs7}
use go_pec.Smtp.{get_data, get_signer, Method, parse_email_from_session, Session}
use go_pec.Storage.{add_message}
use go_pec.Access.Validate.{validate_envelope_and_headers}
use go_pec.Access.Notices.{generate_non_acceptance_email, XmlLibrary}
use go_pec.Access.Envelope.{process_pec_message}

-- The clock by the number of the reading, and the order in which the map of an envelope is ranged
-- over.
pub record Surroundings : Type 0 where
  pub now : ℕ → Time
  pub arrange : Dict Text → Dict Text

module _ (lib : MailLibrary) (xml : XmlLibrary) (p7 : Pkcs7) (env : Surroundings) where
  open lib use {Header, create_reader}
  open env use {now, arrange}

  -- The notice is put into the sender's mailbox, if there is a store; the store's callback runs on
  -- its own. The validation error is what the handler returns.
  unfoldable pub store_notice : Session → Entity Header → Session
  store_notice s notice = elim s.store [
    | none ↦ s
    | some st ↦
        let msg = convert_to_imap_message lib (now 0) (now 1) (now 2) notice in
        record s { store = some (add_message s.from msg st).0 }
  ]

  unfoldable pub refuse : ValidationError → Method
  refuse e s = elim (get_signer s) [
    | none ↦ (s, err (message (utf8 "no signer available for non-acceptance email")))
    | some signer ↦ elim (generate_non_acceptance_email lib xml p7 (utf8 "localhost") e signer) [
      | ok notice ↦ (store_notice s notice, err (validation e))
      | err other ↦ (s, err other)
      | panic ↦ (s, panic)
    ]
  ]

  -- The envelope is made, and its bytes are dropped.
  unfoldable pub accept : Text → Method
  accept data_bytes s = elim s.store [
    | none ↦ (s, ok tt)
    | some _ ↦ elim (process_pec_message lib arrange (now 0) (now 1) data_bytes) [
      | ok _ ↦ (s, ok tt)
      | err e ↦ (s, err e)
      | panic ↦ (s, panic)
    ]
  ]

  unfoldable pub judge : Text → Outcome (Unit {0}) → Method
  judge data_bytes (ok _) s = accept data_bytes s
  judge data_bytes (err (validation e)) s = refuse e s
  judge data_bytes (err other) s = (s, err other)
  judge data_bytes panic s = (s, panic)

  -- The reader of the second parse, after which the data is at hand.
  unfoldable pub process : Outcome Header → Text → Method
  process (ok header) data_bytes s =
      judge data_bytes (validate_envelope_and_headers lib s.from s.to header) s
  process (err e) data_bytes s = (s, err e)
  process panic data_bytes s = (s, panic)

  -- The session is parsed once for the log; without data there is nothing more to do.
  unfoldable pub after_parse : Outcome (Header × Text) → Outcome Text → Method
  after_parse (err e) _ s = (s, err e)
  after_parse panic _ s = (s, panic)
  after_parse (ok _) (ok data_bytes) s = process (create_reader data_bytes) data_bytes s
  after_parse (ok _) _ s = (s, ok tt)

  unfoldable pub access_point_handler : Method
  access_point_handler s = after_parse (parse_email_from_session lib s) (get_data s) s
