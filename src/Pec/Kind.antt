-- ===== src/Pec/Kind.antt =====
-- How pec/pec_parser.go tells the kind of a certified mail from its header.
use go_pec.Base.{
  if◌then◌else◌, Bool-cases, Text, utf8, text_eq, is_empty, has_prefix, contains, Dict, ◌≡◌, refl,
  inl, inr, false, [], arith,
}
use go_pec.Base.TextLaws.{text_eq_refl, is_empty_iff}
use go_pec.Pec.Types.{
  header_get, receipt_type, transport_type, extract_header, extract_pec_headers, PecType, untyped,
  certified_email, delivery_receipt, delivery_error_receipt, acceptance_receipt, PecMail,
}

-- A field that is missing names no kind.
receipt_type-nil : (old : PecType) → receipt_type [] old ≡ old
unfolding receipt_type contains has_prefix utf8
receipt_type-nil old = refl

transport_type-nil : (old : PecType) → transport_type [] old ≡ old
unfolding transport_type contains has_prefix utf8
transport_type-nil old = refl

-- The names that the loop tells apart, and those that it passes over.
abbrev IsOther : Text → Type 0
IsOther name =
    (text_eq name (utf8 "X-Ricevuta") ≡ false)
    × (text_eq name (utf8 "X-Trasporto") ≡ false)
    × (text_eq name (utf8 "Message-ID") ≡ false)

ricevuta-ne-trasporto : text_eq (utf8 "X-Trasporto") (utf8 "X-Ricevuta") ≡ false
unfolding text_eq utf8
ricevuta-ne-trasporto = refl

message_id-ne :
    (text_eq (utf8 "Message-ID") (utf8 "X-Ricevuta") ≡ false)
    × (text_eq (utf8 "Message-ID") (utf8 "X-Trasporto") ≡ false)
unfolding text_eq utf8
message_id-ne = (refl, refl)

others :
    IsOther (utf8 "X-Riferimento-Message-ID")
    × IsOther (utf8 "Return-Path")
    × IsOther (utf8 "Delivered-To")
    × IsOther (utf8 "Received")
unfolding text_eq utf8
others = ((refl, refl, refl), (refl, refl, refl), (refl, refl, refl), (refl, refl, refl))

module _ (h : Dict Text) (m : PecMail) where
  extract_header-ricevuta :
      extract_header h m (utf8 "X-Ricevuta")
      ≡ record m { pec_type = receipt_type (header_get h (utf8 "X-Ricevuta")) m.pec_type }
  unfolding extract_header
  extract_header-ricevuta = elim (Bool-cases (is_empty (header_get h (utf8 "X-Ricevuta")))) [
    | inl missing ↦ rw (missing, (is_empty_iff _).0 missing, receipt_type-nil)
    | inr there ↦ rw (there, text_eq_refl)
  ]

  extract_header-trasporto :
      extract_header h m (utf8 "X-Trasporto")
      ≡ record m { pec_type = transport_type (header_get h (utf8 "X-Trasporto")) m.pec_type }
  unfolding extract_header
  extract_header-trasporto = elim (Bool-cases (is_empty (header_get h (utf8 "X-Trasporto")))) [
    | inl missing ↦ rw (missing, (is_empty_iff _).0 missing, transport_type-nil)
    | inr there ↦ rw (there, ricevuta-ne-trasporto, text_eq_refl)
  ]

  extract_header-message_id :
      m.message_id ≡ []
      → extract_header h m (utf8 "Message-ID")
        ≡ record m { message_id = header_get h (utf8 "Message-ID") }
  unfolding extract_header
  extract_header-message_id e = elim (Bool-cases (is_empty (header_get h (utf8 "Message-ID")))) [
    | inl missing ↦ rw (missing, (is_empty_iff _).0 missing, ← e)
    | inr there ↦ rw (there, message_id-ne.0, message_id-ne.1, text_eq_refl)
  ]

  extract_header-other : (name : Text) → IsOther name → extract_header h m name ≡ m
  unfolding extract_header
  extract_header-other name o = ground arith

-- The kind that the two fields stand for, "X-Trasporto" before "X-Ricevuta".
abbrev pub kind_of : Text → Text → PecType
kind_of trasporto ricevuta =
    if contains trasporto (utf8 "posta-certificata")
    then certified_email
    else if contains ricevuta (utf8 "accettazione")
    then acceptance_receipt
    else if contains ricevuta (utf8 "avvenuta-consegna")
    then delivery_receipt
    else if contains ricevuta (utf8 "errore-consegna")
    then delivery_error_receipt
    else untyped

-- The loop over the seven field names reads the kind from "X-Trasporto" and, where that does not
-- name a transport, from "X-Ricevuta"; it reads the message ID from its field, and leaves the
-- envelope alone.
pub extract_pec_headers_lem :
    (h : Dict Text) (m : PecMail)
    → m.message_id ≡ []
    → ((extract_pec_headers h m).pec_type
        ≡ kind_of (header_get h (utf8 "X-Trasporto")) (header_get h (utf8 "X-Ricevuta")))
      × ((extract_pec_headers h m).message_id ≡ header_get h (utf8 "Message-ID"))
      × ((extract_pec_headers h m).envelope ≡ m.envelope)
unfolding extract_pec_headers receipt_type transport_type
extract_pec_headers_lem h m e =
    let (a, b, c, d) = others in
    let m₀ : PecMail = record m { pec_type = untyped } in
    let m₁ : PecMail = record m {
      pec_type = receipt_type (header_get h (utf8 "X-Ricevuta")) untyped;
    } in
    rw
      (
        extract_header-other h m₀ (utf8 "X-Riferimento-Message-ID") a,
        extract_header-other h m₀ (utf8 "Return-Path") b,
        extract_header-other h m₀ (utf8 "Delivered-To") c,
        extract_header-other h m₀ (utf8 "Received") d,
        extract_header-ricevuta h m₀,
        extract_header-message_id h m₁ e,
        extract_header-trasporto,
      )
      (refl, refl, refl)
