-- ===== src/Access/Envelope/Headers.antt =====
-- The header of the transport envelope of pec-server/punto-accesso/punto-accesso.go.
use go_pec.Base.{
  if◌then◌else◌, Bool-cases, any, Text, utf8, text_eq, is_empty, Dict, lookup, insert,
  lookup-insert, rfc1123z, ◌≡◌, refl, ◌∙◌, inl, inr, Bool, not, ◌&&◌, ◌||◌, Option, none, some,
  List, [], ◌∷◌, ◌++◌, arith,
}
use go_pec.Base.TextLaws.{text_eq_iff}
use go_pec.Access.Envelope.{
  PecCertificationData, inherited_headers, inherit, required_headers, create_pec_transport_envelope,
}

-- The names of the fields that the envelope takes over from the original message.
abbrev pub is_inherited : Text → Bool
is_inherited name =
    text_eq (utf8 "Received") name
    || text_eq (utf8 "To") name
    || text_eq (utf8 "Cc") name
    || text_eq (utf8 "Return-Path") name
    || text_eq (utf8 "Message-ID") name
    || text_eq (utf8 "X-Riferimento-Message-ID") name
    || text_eq (utf8 "X-TipoRicevuta") name

any-inherited :
    (name : Text) → any (λ other. text_eq other name) inherited_headers ≡ is_inherited name
unfolding inherited_headers
any-inherited name = ground arith

lookup-inherit :
    (original : Text → Text) (names : List Text) (h : Dict Text) (k : Text)
    → lookup k (inherit original names h) ≡ (
        if any (λ other. text_eq other k) names
        then (if is_empty (original k) then lookup k h else some (original k))
        else lookup k h)
unfolding inherit
lookup-inherit original [] h k = refl
lookup-inherit original (name ∷ names) h k = ground (
  arith,
  lookup-inherit original names
      (if is_empty (original name) then h else insert name (original name) h) k,
  lookup-insert name k (original name) h,
  text_eq_iff name k,
)

lookup-inherited :
    (original : Text → Text) (k : Text)
    → lookup k (inherit original inherited_headers [])
      ≡ (if is_inherited k && not (is_empty (original k)) then some (original k) else none)
unfolding lookup
lookup-inherited original k =
    lookup-inherit original inherited_headers [] k ∙ rw (any-inherited k) (ground arith)

-- What the envelope's header holds under each name: the five fields that are set, and else the
-- inherited one, if the original has it.
abbrev pub envelope_field : (Text → Text) → PecCertificationData → Text → Option Text
envelope_field original c k =
    if is_empty (original (utf8 "Reply-To")) && text_eq (utf8 "Reply-To") k
    then some c.original_from
    else if text_eq (utf8 "From") k
    then some (utf8 "Per conto di: " ++ c.original_from)
    else if text_eq (utf8 "Subject") k
    then some (utf8 "POSTA CERTIFICATA: " ++ c.original_subject)
    else if text_eq (utf8 "Date") k
    then some (rfc1123z c.date)
    else if text_eq (utf8 "X-Trasporto") k
    then some (utf8 "posta-certificata")
    else if is_inherited k && not (is_empty (original k))
    then some (original k)
    else none

-- The header of a transport envelope holds, under every name, the field that is set for it
-- (Reply-To if the original has none, From, Subject, Date, X-Trasporto); else, under Received, To,
-- Cc, Return-Path, Message-ID, X-Riferimento-Message-ID and X-TipoRicevuta, the value of the original
-- if it is not empty; and nothing under any other name.
pub lookup-create_pec_transport_envelope :
    (original : Text → Text) (c : PecCertificationData) (k : Text)
    → lookup k (create_pec_transport_envelope original c).headers ≡ envelope_field original c k
unfolding create_pec_transport_envelope required_headers
lookup-create_pec_transport_envelope original c k =
    elim (Bool-cases (is_empty (original (utf8 "Reply-To")))) [
      | inl absent ↦ rw absent (simp (lookup-insert, lookup-inherited))
      | inr there ↦ rw there (simp (lookup-insert, lookup-inherited))
    ]

-- A transport envelope carries the author's address as Reply-To if the original has no such field,
-- and has no Reply-To at all if the original has one.
pub reply_to-of_envelope :
    (original : Text → Text) (c : PecCertificationData)
    → lookup (utf8 "Reply-To") (create_pec_transport_envelope original c).headers
      ≡ (if is_empty (original (utf8 "Reply-To")) then some c.original_from else none)
unfolding utf8 text_eq
reply_to-of_envelope original c =
    lookup-create_pec_transport_envelope original c (utf8 "Reply-To") ∙ ground arith
