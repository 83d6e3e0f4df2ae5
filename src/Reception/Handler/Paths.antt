-- ===== src/Reception/Handler/Paths.antt =====
-- What `ReceptionPointHandler` of pec-server/punto-ricezione/punto-ricezione.go sends on.
use go_pec.Base.{
  if◌then◌else◌, Bool-cases, Text, utf8, is_empty, Outcome, ok, err, panic, ◌≡◌, refl, ◌↔◌, ◌⊎◌,
  inl, inr, Bool, true, false, not, ◌&&◌, List, [], ◌∷◌,
}
use go_pec.Commons.{is_signature_valid}
use go_pec.Mail.{MailLibrary}
use go_pec.Smtp.{parse_email_from_session, Session}
use go_pec.Reception.Anomaly.{or_nil, first, create_anomaly_envelope}
use go_pec.Reception.Checks.{
  provider_certificate_hashes, is_valid_receipt_or_avviso, SignatureLibrary,
}
use go_pec.Reception.Checks.Envelope.{is_valid_transport_envelope-never}
use go_pec.Reception.Network.{
  Traced, explain, forward_to_delivery_point, forward_envelope_to_delivery_point, Request, post,
}
use go_pec.Reception.Network.Conversation.{
  chain-eq-ok, explain-eq-ok, posts, conversation, forward_to_delivery_point_lem,
  forward_to_delivery_point-empty, forward_envelope_complete, posts-forward_envelope,
}
use go_pec.Reception.Handler.{
  is_from_certified_provider, forward_made, forward_anomaly, dispatch, reception_point_handler,
  ReceptionContext,
}

same_branches {ℓ} : {A : Type ℓ} (b : Bool) (x : A) → (if b then x else x) ≡ x
same_branches true x = refl
same_branches false x = refl

explained_iff :
    {P : Type 0} (c : Text) (m : Traced (Unit {0}))
    → (m.1 ≡ ok tt) ↔ P
    → ((explain c m).1 ≡ ok tt) ↔ P
explained_iff c (log, ok _) iff = iff
explained_iff c (log, err _) iff = (λ e. cc, λ p. absurd (let q = iff.1 p in cc))
explained_iff c (log, panic) iff = (λ e. cc, λ p. absurd (let q = iff.1 p in cc))

module _ (lib : MailLibrary) (sig : SignatureLibrary) (env : ReceptionContext) where
  open lib use {Header, get, address_list}

  -- The branches that are left: no envelope is accepted, and the two anomalies are one.
  dispatch_lem :
      (h : Header) (body : Text) (s : Session)
      → dispatch lib sig env h body s ≡ (
          if is_valid_receipt_or_avviso (get h)
          then explain
              (utf8 "failed to forward receipt/avviso")
              (forward_to_delivery_point env.net s)
          else forward_anomaly lib sig env s)
  unfolding dispatch
  dispatch_lem h body s =
      rw
        (
          is_valid_transport_envelope-never lib sig provider_certificate_hashes h body,
          same_branches
              (is_from_certified_provider
                && is_signature_valid env.temp_created env.temp_written env.openssl body)
              (forward_anomaly lib sig env s),
        )
        refl

  -- What a success leaves in the log: one POST that was answered with status 200, or the whole
  -- conversation about the anomaly envelope.
  abbrev pub Delivered : Session → List Request → Type 0
  Delivered s log =
      ((log ≡ post s.data_buffer ∷ []) × (env.net.status s.data_buffer ≡ 200))
      ⊎ ((envelope : Text) × (create_anomaly_envelope lib env.now s ≡ ok envelope)
          × (log ≡ conversation envelope))

  posts-forward_made : (made : Outcome Text) → posts (forward_made lib sig env made).0 ≡ []
  unfolding forward_made
  posts-forward_made (ok envelope) = posts-forward_envelope env.net envelope
  posts-forward_made (err _) = refl
  posts-forward_made panic = refl

  posts-receipt :
      (s : Session)
      → s.auth ≡ true
      → posts
          (explain
            (utf8 "failed to forward receipt/avviso")
            (forward_to_delivery_point env.net s)).0
        ≡ (if not (is_empty s.data_buffer) then s.data_buffer ∷ [] else [])
  posts-receipt s auth = elim (Bool-cases (is_empty s.data_buffer)) [
    | inl nothing ↦ rw (forward_to_delivery_point-empty env.net s auth nothing, nothing) refl
    | inr there ↦ rw ((forward_to_delivery_point_lem env.net s auth there).0, there) refl
  ]

  posts-dispatch :
      (s : Session) (h : Header) (body : Text)
      → s.auth ≡ true
      → posts (dispatch lib sig env h body s).0 ≡ (
          if is_valid_receipt_or_avviso (get h) && not (is_empty s.data_buffer)
          then s.data_buffer ∷ []
          else [])
  unfolding forward_anomaly
  posts-dispatch s h body auth = elim (Bool-cases (is_valid_receipt_or_avviso (get h))) [
    | inl receipt ↦ rw (dispatch_lem h body s, receipt) (posts-receipt s auth)
    | inr other ↦
        rw (dispatch_lem h body s, other)
          (posts-forward_made (create_anomaly_envelope lib env.now s))
  ]

  -- Of an authenticated session whose data parses, the delivery point gets the data when there are
  -- any and their header is that of a receipt, and nothing otherwise.
  pub posts-reception_point_handler :
      (s : Session) (h : Header) (body : Text)
      → s.auth ≡ true
      → parse_email_from_session lib s ≡ ok (h, body)
      → posts (reception_point_handler lib sig env s).0 ≡ (
          if is_valid_receipt_or_avviso (get h) && not (is_empty s.data_buffer)
          then s.data_buffer ∷ []
          else [])
  unfolding reception_point_handler
  posts-reception_point_handler s h body auth parsed = rw parsed (posts-dispatch s h body auth)

  forward_made-ok :
      (made : Outcome Text)
      → (forward_made lib sig env made).1 ≡ ok tt
      → (envelope : Text) × (made ≡ ok envelope)
        × ((forward_made lib sig env made).0 ≡ conversation envelope)
  unfolding forward_made
  forward_made-ok (ok envelope) e = (
    envelope,
    refl,
    forward_envelope_complete env.net envelope
        (explain-eq-ok _ (forward_envelope_to_delivery_point env.net envelope) e),
  )
  forward_made-ok (err _) e = cc
  forward_made-ok panic e = cc

  receipt-ok :
      (s : Session)
      → s.auth ≡ true
      → (explain (utf8 "failed to forward receipt/avviso") (forward_to_delivery_point env.net s)).1
        ≡ ok tt
      → Delivered s (forward_to_delivery_point env.net s).0
  receipt-ok s auth e =
      let sent = explain-eq-ok _ (forward_to_delivery_point env.net s) e in
      elim (Bool-cases (is_empty s.data_buffer)) [
        | inl nothing ↦
            let none_sent = rw (forward_to_delivery_point-empty env.net s auth nothing) at sent in
            cc
        | inr there ↦
            let (log, iff) = forward_to_delivery_point_lem env.net s auth there in
            inl (log, (iff.0 sent).1)
      ]

  dispatch-ok :
      (s : Session) (h : Header) (body : Text)
      → s.auth ≡ true
      → (dispatch lib sig env h body s).1 ≡ ok tt
      → Delivered s (dispatch lib sig env h body s).0
  unfolding forward_anomaly
  dispatch-ok s h body auth e = elim (Bool-cases (is_valid_receipt_or_avviso (get h))) [
    | inl receipt ↦
        rw (dispatch_lem h body s, receipt)
          (receipt-ok s auth (rw (dispatch_lem h body s, receipt) at e))
    | inr other ↦
        rw (dispatch_lem h body s, other)
          (inr (forward_made-ok _ (rw (dispatch_lem h body s, other) at e)))
  ]

  -- If the handler succeeds for an authenticated session, then the data went to the delivery point
  -- in one POST that was answered with status 200, or the anomaly envelope of the session went
  -- through a whole SMTP conversation.
  pub reception_point_handler-Delivered :
      (s : Session)
      → s.auth ≡ true
      → (reception_point_handler lib sig env s).1 ≡ ok tt
      → Delivered s (reception_point_handler lib sig env s).0
  unfolding reception_point_handler
  reception_point_handler-Delivered s auth e =
      let ((h, body), parsed, ended, log) =
        chain-eq-ok
          (explain (utf8 "failed to parse incoming message") ([], parse_email_from_session lib s)) _
          e in
      rw log (dispatch-ok s h body auth ended)

  -- A message without an author that is no receipt makes the handler panic.
  pub reception_point_handler-panic :
      (s : Session) (h : Header) (body : Text)
      → parse_email_from_session lib s ≡ ok (h, body)
      → is_valid_receipt_or_avviso (get h) ≡ false
      → or_nil (address_list h (utf8 "From")) ≡ []
      → reception_point_handler lib sig env s ≡ ([], panic)
  unfolding reception_point_handler create_anomaly_envelope forward_anomaly first forward_made
  reception_point_handler-panic s h body parsed other anonymous =
      rw (parsed, dispatch_lem h body s, other, parsed, anonymous) refl

  -- A receipt in an authenticated session with data is forwarded with success exactly when the POST
  -- of the data goes through and is answered with status 200.
  pub reception_point_handler-receipt :
      (s : Session) (h : Header) (body : Text)
      → s.auth ≡ true
      → parse_email_from_session lib s ≡ ok (h, body)
      → is_empty s.data_buffer ≡ false
      → is_valid_receipt_or_avviso (get h) ≡ true
      → ((reception_point_handler lib sig env s).1 ≡ ok tt)
        ↔ ((env.net.answer (post s.data_buffer) ≡ ok tt) × (env.net.status s.data_buffer ≡ 200))
  unfolding reception_point_handler
  reception_point_handler-receipt s h body auth parsed there receipt =
      rw (parsed, dispatch_lem h body s, receipt)
        (explained_iff _ (forward_to_delivery_point env.net s)
          (forward_to_delivery_point_lem env.net s auth there).1)
