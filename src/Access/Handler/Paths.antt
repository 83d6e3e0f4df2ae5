-- ===== src/Access/Handler/Paths.antt =====
-- What `AccessPointHandler` of pec-server/punto-accesso/punto-accesso.go leaves behind.
use go_pec.Access.Validate.{invalid, validate_envelope_and_headers}
use go_pec.Base.{
  if◌then◌else◌, length, Text, utf8, text_eq, ValidationError, validation, Outcome, ok, err, panic,
  ◌+◌, ◌≡◌, refl, ◌≢◌, true, some, arith,
}
use go_pec.Commons.{convert_to_imap_message}
use go_pec.Storage.{mailbox, local_part, add_message, InMemoryStore}
use go_pec.Storage.Mailboxes.{length-add_message}
use go_pec.Mail.{Entity, MailLibrary}
use go_pec.Signer.{Signer, Pkcs7}
use go_pec.Smtp.{get_data, get_signer, parse_email_from_session, Session}
use go_pec.Access.Validate.Compliance.{validate_iff, IsCompliant}
use go_pec.Access.Notices.{generate_non_acceptance_email, XmlLibrary}
use go_pec.Access.Handler.{
  store_notice, refuse, accept, judge, process, after_parse, access_point_handler, Surroundings,
}

module _ (lib : MailLibrary) (xml : XmlLibrary) (p7 : Pkcs7) (env : Surroundings) where
  open lib use {Header, create_reader}

  accept-unchanged : (b : Text) (s : Session) → (accept lib xml p7 env b s).0 ≡ s
  unfolding accept
  accept-unchanged b s = ground arith

  refuse-ne-ok : (e : ValidationError) (s : Session) → (refuse lib xml p7 env e s).1 ≢ ok tt
  unfolding refuse
  refuse-ne-ok e s = ground arith

  judge-eq-ok :
      (b : Text) (v : Outcome (Unit {0})) (s : Session)
      → (judge lib xml p7 env b v s).1 ≡ ok tt
      → (v ≡ ok tt) × ((judge lib xml p7 env b v s).0 ≡ s)
  unfolding judge
  judge-eq-ok b (ok u) s h = (refl, accept-unchanged b s)
  judge-eq-ok b (err (validation e)) s h = absurd (refuse-ne-ok e s h)
  judge-eq-ok b (err _) s h = cc
  judge-eq-ok b panic s h = cc

  process-eq-ok :
      (r : Outcome Header) (b : Text) (s : Session)
      → (process lib xml p7 env r b s).1 ≡ ok tt
      → (h : Header) × (r ≡ ok h)
        × IsCompliant lib s.from s.to h
        × ((process lib xml p7 env r b s).0 ≡ s)
  unfolding process
  process-eq-ok (ok h) b s e =
      let (valid, same) = judge-eq-ok b (validate_envelope_and_headers lib s.from s.to h) s e in
      (h, refl, (validate_iff lib s.from s.to h).0 valid, same)
  process-eq-ok (err _) b s e = cc
  process-eq-ok panic b s e = cc

  after_parse-eq-ok :
      (m : Outcome (Header × Text)) (b : Text) (s : Session)
      → (after_parse lib xml p7 env m (ok b) s).1 ≡ ok tt
      → (h : Header) × (create_reader b ≡ ok h)
        × IsCompliant lib s.from s.to h
        × ((after_parse lib xml p7 env m (ok b) s).0 ≡ s)
  unfolding after_parse
  after_parse-eq-ok (ok _) b s e = process-eq-ok (create_reader b) b s e
  after_parse-eq-ok (err _) b s e = cc
  after_parse-eq-ok panic b s e = cc

  get_data-eq-ok : (s : Session) → s.auth ≡ true → get_data s ≡ ok s.data_buffer
  unfolding get_data
  get_data-eq-ok s auth = simp auth

  -- If the handler reports success to an authenticated client, then the header complies with the
  -- SMTP envelope; and the session, with the store, is as it was: the message has gone nowhere.
  pub access_point_handler-accepts :
      (s : Session)
      → s.auth ≡ true
      → (access_point_handler lib xml p7 env s).1 ≡ ok tt
      → (h : Header) × (create_reader s.data_buffer ≡ ok h)
        × IsCompliant lib s.from s.to h
        × ((access_point_handler lib xml p7 env s).0 ≡ s)
  unfolding access_point_handler
  access_point_handler-accepts s auth e = simp (get_data-eq-ok s auth) (
      after_parse-eq-ok (parse_email_from_session lib s) s.data_buffer s
        (simp (get_data-eq-ok s auth) at e))

  refuse-stores :
      (e : ValidationError) (s : Session) (sg : Signer) (notice : Entity Header)
      (st : InMemoryStore)
      → get_signer s ≡ some sg
      → generate_non_acceptance_email lib xml p7 (utf8 "localhost") e sg ≡ ok notice
      → s.store ≡ some st
      → refuse lib xml p7 env e s ≡ (
        record s {
          store =
              some
                (add_message s.from
                  (convert_to_imap_message lib (env.now 0) (env.now 1) (env.now 2) notice)
                  st).0;
        },
        err (validation e),
      )
  unfolding refuse store_notice
  refuse-stores e s sg notice st signer made there =
      simp (refuse, signer, made, store_notice, there) refl

  -- A message that is refused, where there are a signer and a store and the notice can be made, adds
  -- one message to the mailbox of the sender's local part and none to any other; the client is told
  -- of the validation error.
  pub access_point_handler-refuses :
      (s : Session) (m : Header × Text) (h : Header) (v : ValidationError) (sg : Signer)
      (notice : Entity Header) (st : InMemoryStore)
      → s.auth ≡ true
      → parse_email_from_session lib s ≡ ok m
      → create_reader s.data_buffer ≡ ok h
      → validate_envelope_and_headers lib s.from s.to h ≡ err (validation v)
      → get_signer s ≡ some sg
      → generate_non_acceptance_email lib xml p7 (utf8 "localhost") v sg ≡ ok notice
      → s.store ≡ some st
      → ((access_point_handler lib xml p7 env s).1 ≡ err (validation v))
        × (after : InMemoryStore) × ((access_point_handler lib xml p7 env s).0.store ≡ some after)
        × ((u : Text)
            → length (mailbox u after)
              ≡ length (mailbox u st) + (if text_eq (local_part s.from) u then 1 else 0))
  unfolding access_point_handler after_parse process judge
  access_point_handler-refuses s m h v sg notice st auth parsed read invalid signer made there =
      simp
        (
          parsed,
          get_data-eq-ok s auth,
          read,
          invalid,
          refuse-stores v s sg notice st signer made there,
        )
        (
          refl,
          _,
          refl,
          λ u.
              length-add_message u s.from
                (convert_to_imap_message lib (env.now 0) (env.now 1) (env.now 2) notice) st,
        )
