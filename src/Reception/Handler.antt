-- ===== src/Reception/Handler.antt =====
-- `ReceptionPointHandler` of pec-server/punto-ricezione/punto-ricezione.go.
pub mod Paths
use go_pec.Base.{if◌then◌else◌, Text, utf8, Time, Outcome, Bool, true, ◌&&◌, []}
use go_pec.Commons.{is_signature_valid}
use go_pec.Mail.{MailLibrary}
use go_pec.Smtp.{parse_email_from_session, Session}
use go_pec.Reception.Anomaly.{create_anomaly_envelope}
use go_pec.Reception.Checks.{
  provider_certificate_hashes, is_valid_receipt_or_avviso, is_valid_transport_envelope,
  SignatureLibrary,
}
use go_pec.Reception.Network.{
  Traced, chain, explain, forward_to_delivery_point, forward_envelope_to_delivery_point, Network,
}
use go_pec.Reception.Takeover.{emit_presa_in_carico_receipt, CertData}

-- `IsFromCertifiedProvider`
unfoldable pub is_from_certified_provider : Bool
is_from_certified_provider = true

-- What the handler uses: the network, the time, the marshalling of the certification data, whether
-- the temporary file of the signature check is made and written, and what OpenSSL says of a body.
pub record ReceptionContext : Type 0 where
  pub net : Network
  pub now : Time
  pub marshal : CertData → Text
  pub temp_created : Bool
  pub temp_written : Bool
  pub openssl : Text → Bool

module _ (lib : MailLibrary) (sig : SignatureLibrary) (env : ReceptionContext) where
  open lib use {Header, get}
  open env use {net, now, marshal, temp_created, temp_written, openssl}

  -- An anomaly envelope that was made is sent.
  unfoldable pub forward_made : Outcome Text → Traced (Unit {0})
  forward_made made =
      chain (explain (utf8 "failed to create anomaly envelope") ([], made)) λ envelope.
        explain (utf8 "failed to forward anomaly envelope")
          (forward_envelope_to_delivery_point net envelope)

  unfoldable pub forward_anomaly : Session → Traced (Unit {0})
  forward_anomaly s = forward_made (create_anomaly_envelope lib now s)

  unfoldable pub accept_envelope : Session → Traced (Unit {0})
  accept_envelope s =
      chain
        (explain (utf8 "failed to emit presa in carico")
          (emit_presa_in_carico_receipt lib marshal net now s))
        λ _. explain (utf8 "failed to forward to delivery point") (forward_to_delivery_point net s)

  -- The branches after the parse.
  unfoldable pub dispatch : Header → Text → Session → Traced (Unit {0})
  dispatch h body s =
      if is_valid_transport_envelope lib sig provider_certificate_hashes h body
      then accept_envelope s
      else if is_valid_receipt_or_avviso (get h)
      then explain (utf8 "failed to forward receipt/avviso") (forward_to_delivery_point net s)
      else if is_from_certified_provider
          && is_signature_valid temp_created temp_written openssl body
      then forward_anomaly s
      else forward_anomaly s

  unfoldable pub reception_point_handler : Session → Traced (Unit {0})
  reception_point_handler s =
      chain (explain (utf8 "failed to parse incoming message") ([], parse_email_from_session lib s))
        λ (h, body). dispatch h body s
