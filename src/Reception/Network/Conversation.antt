-- ===== src/Reception/Network/Conversation.antt =====
-- What `ForwardToDeliveryPoint` and `ForwardEnvelopeToDeliveryPoint` of
-- pec-server/punto-ricezione/punto-ricezione.go send, and when they succeed.
use go_pec.Base.{
  Text, utf8, is_empty, message, ok, err, panic, ◌≡◌, refl, ap, ◌↔◌, true, false, List, [], ◌∷◌,
  ◌++◌, arith,
}
use go_pec.Smtp.{get_data, Session}
use go_pec.Reception.Network.{
  Traced, chain, explain, smtp_address, sender, recipient, forward_to_delivery_point,
  write_envelope, converse, forward_envelope_to_delivery_point, Request, post, dial, set_sender,
  set_recipient, start_data, write, end_data, close_client, Network,
}

-- A chain that succeeds has made the calls of both its parts.
pub chain-eq-ok {ℓ κ} :
    {A : Type ℓ} {B : Type κ} (m : Traced A) (f : A → Traced B) {b : B}
    → (chain m f).1 ≡ ok b
    → (a : A) × (m.1 ≡ ok a) × ((f a).1 ≡ ok b) × ((chain m f).0 ≡ m.0 ++ (f a).0)
chain-eq-ok (log, ok a) f e = (a, refl, e, refl)
chain-eq-ok (log, err _) f e = cc
chain-eq-ok (log, panic) f e = cc

pub explain-eq-ok {ℓ} :
    {A : Type ℓ} (c : Text) (m : Traced A) {a : A} → (explain c m).1 ≡ ok a → m.1 ≡ ok a
explain-eq-ok c (log, ok _) e = e
explain-eq-ok c (log, err _) e = cc
explain-eq-ok c (log, panic) e = cc

-- The bodies that were posted.
abbrev pub posts : List Request → List Text
posts [] = []
posts (post body ∷ log) = body ∷ posts log
posts (_ ∷ log) = posts log

pub posts-append : (xs ys : List Request) → posts (xs ++ ys) ≡ posts xs ++ posts ys
posts-append [] ys = refl
posts-append (post body ∷ xs) ys = ap (λ r. body ∷ r) (posts-append xs ys)
posts-append (dial _ ∷ xs) ys = posts-append xs ys
posts-append (set_sender _ ∷ xs) ys = posts-append xs ys
posts-append (set_recipient _ ∷ xs) ys = posts-append xs ys
posts-append (start_data ∷ xs) ys = posts-append xs ys
posts-append (write _ ∷ xs) ys = posts-append xs ys
posts-append (end_data ∷ xs) ys = posts-append xs ys
posts-append (close_client ∷ xs) ys = posts-append xs ys

-- The whole conversation about an envelope.
abbrev pub conversation : Text → List Request
conversation envelope =
    dial smtp_address
    ∷ set_sender sender
    ∷ set_recipient recipient
    ∷ start_data
    ∷ write envelope
    ∷ end_data
    ∷ close_client
    ∷ []

module _ (net : Network) where
  open net use {answer, status}

  -- An authenticated session with data posts them once, and succeeds exactly when the call does and
  -- the status of the answer is 200.
  pub forward_to_delivery_point_lem :
      (s : Session)
      → s.auth ≡ true
      → is_empty s.data_buffer ≡ false
      → ((forward_to_delivery_point net s).0 ≡ post s.data_buffer ∷ [])
        × (((forward_to_delivery_point net s).1 ≡ ok tt)
            ↔ ((answer (post s.data_buffer) ≡ ok tt) × (status s.data_buffer ≡ 200)))
  unfolding forward_to_delivery_point get_data
  forward_to_delivery_point_lem s auth there = ground arith

  -- Without data nothing is posted, and that is an error.
  pub forward_to_delivery_point-empty :
      (s : Session)
      → s.auth ≡ true
      → is_empty s.data_buffer ≡ true
      → forward_to_delivery_point net s ≡ ([], err (message (utf8 "no data to forward")))
  unfolding forward_to_delivery_point get_data
  forward_to_delivery_point-empty s auth nothing = rw (auth, nothing) refl

  -- An envelope that is forwarded with success has gone through the whole conversation.
  pub forward_envelope_complete :
      (envelope : Text)
      → (forward_envelope_to_delivery_point net envelope).1 ≡ ok tt
      → (forward_envelope_to_delivery_point net envelope).0 ≡ conversation envelope
  unfolding forward_envelope_to_delivery_point converse write_envelope
  forward_envelope_complete envelope e = ground arith

  -- Nothing is posted on the way.
  pub posts-forward_envelope :
      (envelope : Text) → posts (forward_envelope_to_delivery_point net envelope).0 ≡ []
  unfolding forward_envelope_to_delivery_point converse write_envelope
  posts-forward_envelope envelope = ground arith
