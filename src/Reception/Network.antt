-- ===== src/Reception/Network.antt =====
-- `ForwardToDeliveryPoint` and `ForwardEnvelopeToDeliveryPoint` of
-- pec-server/punto-ricezione/punto-ricezione.go, and what they send.
pub mod Conversation
use go_pec.Base.{
  ◌==◌, if◌then◌else◌, Text, utf8, is_empty, decimal, with_context, message, Outcome, ok, err,
  panic, ℕ, List, [], ◌∷◌, ◌++◌,
}
use go_pec.Smtp.{get_data, Session}

-- The calls on net/http and on net/smtp, in the order in which they are made.
pub data Request : Type 0 where
  post : Text → Request
  dial set_sender set_recipient : Text → Request
  start_data : Request
  write : Text → Request
  end_data close_client : Request

-- How a call ends, and the status of the answer to a POST.
pub record Network : Type 0 where
  pub answer : Request → Outcome (Unit {0})
  pub status : Text → ℕ

-- A computation that makes calls: those it made, and what it ends in.
abbrev pub Traced {ℓ} : Type ℓ → Type ℓ
Traced A = List Request × Outcome A

abbrev pub chain {ℓ κ} : {A : Type ℓ} {B : Type κ} → Traced A → (A → Traced B) → Traced B
chain (log, ok a) f = (log ++ (f a).0, (f a).1)
chain (log, err e) f = (log, err e)
chain (log, panic) f = (log, panic)

-- `fmt.Errorf` around the error.
abbrev pub explain {ℓ} : {A : Type ℓ} → Text → Traced A → Traced A
explain c (log, r) = (log, with_context c r)

-- `defer c.Close()`
abbrev closing {ℓ} : {A : Type ℓ} → Traced A → Traced A
closing (log, r) = (log ++ close_client ∷ [], r)

abbrev pub smtp_address : Text
smtp_address = utf8 "smtp.other-authority.it:25"

abbrev pub sender : Text
sender = utf8 "posta-certificata@yourdomain.it"

abbrev pub recipient : Text
recipient = utf8 "ricezione@other-authority.it"

module _ (net : Network) where
  open net use {answer, status}

  abbrev call : Request → Traced (Unit {0})
  call r = (r ∷ [], answer r)

  -- A POST gives the status of its answer. The buffer's bytes are nil when nothing, or nothing but
  -- empty data, was written to it.
  unfoldable pub forward_to_delivery_point : Session → Traced (Unit {0})
  forward_to_delivery_point s =
      chain (explain (utf8 "failed to get session data") ([], get_data s)) λ body.
        if is_empty body
        then ([], err (message (utf8 "no data to forward")))
        else chain (call (post body)) λ _.
          if status body == 200
          then ([], ok tt)
          else ([], err (message (utf8 "delivery point returned status " ++ decimal (status body))))

  -- A write that fails ends the data all the same.
  unfoldable pub write_envelope : Text → Traced (Unit {0})
  write_envelope envelope = elim (answer (write envelope)) [
    | ok _ ↦ (write envelope ∷ [], ok tt)
    | err e ↦ (write envelope ∷ end_data ∷ [], err e)
    | panic ↦ (write envelope ∷ [], panic)
  ]

  unfoldable pub converse : Text → Traced (Unit {0})
  converse envelope = chain (explain (utf8 "failed to set sender") (call (set_sender sender))) λ _.
      chain (explain (utf8 "failed to set recipient") (call (set_recipient recipient))) λ _.
        chain (explain (utf8 "failed to start DATA") (call start_data)) λ _.
          chain (explain (utf8 "failed to write envelope data") (write_envelope envelope))
            λ _. explain (utf8 "failed to close DATA") (call end_data)

  unfoldable pub forward_envelope_to_delivery_point : Text → Traced (Unit {0})
  forward_envelope_to_delivery_point envelope =
      chain (explain (utf8 "failed to connect to SMTP server") (call (dial smtp_address)))
        λ _. closing (converse envelope)
