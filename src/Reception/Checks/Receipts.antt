-- ===== src/Reception/Checks/Receipts.antt =====
-- What `IsValidReceiptOrAvviso` of pec-server/punto-ricezione/punto-ricezione.go accepts.
use go_pec.Base.{
  Bool-cases, All, Text, utf8, text_eq, ◌≡◌, refl, ◌≢◌, ◌↔◌, ◌⊎◌, inl, inr, true, false, List, [],
  ◌∷◌, arith,
}
use go_pec.Base.TextLaws.{text_eq_iff, is_empty_iff}
use go_pec.Reception.Checks.{missing_any, receipt_headers, unknown_tipo, is_valid_receipt_or_avviso}

-- A delivery receipt or an error of delivery that carries the fields; the type of a delivery
-- receipt is absent or one of two.
abbrev pub IsReceipt : (Text → Text) → Type 0
IsReceipt field =
    All (λ name. field name ≢ []) receipt_headers
    × (((field (utf8 "X-Ricevuta") ≡ utf8 "avvenuta-consegna")
          × ((field (utf8 "X-TipoRicevuta") ≡ [])
              ⊎ (field (utf8 "X-TipoRicevuta") ≡ utf8 "breve")
              ⊎ (field (utf8 "X-TipoRicevuta") ≡ utf8 "sintetica")))
        ⊎ (field (utf8 "X-Ricevuta") ≡ utf8 "errore-consegna"))

missing_any_iff :
    (field : Text → Text) (names : List Text)
    → (missing_any field names ≡ false) ↔ All (λ name. field name ≢ []) names
unfolding missing_any
missing_any_iff field [] = ground arith
missing_any_iff field (name ∷ names) =
    ground (arith, is_empty_iff (field name), missing_any_iff field names)

unknown_tipo_iff :
    (t : Text) → (unknown_tipo t ≡ false) ↔ ((t ≡ []) ⊎ (t ≡ utf8 "breve") ⊎ (t ≡ utf8 "sintetica"))
unfolding unknown_tipo
unknown_tipo_iff t =
    ground (arith, is_empty_iff t, text_eq_iff t (utf8 "breve"), text_eq_iff t (utf8 "sintetica"))

other_kind : text_eq (utf8 "errore-consegna") (utf8 "avvenuta-consegna") ≡ false
unfolding text_eq utf8
other_kind = refl

other_kind_of :
    (t : Text)
    → (text_eq t (utf8 "avvenuta-consegna") ≡ false) ⊎ (text_eq t (utf8 "errore-consegna") ≡ false)
other_kind_of t = elim (Bool-cases (text_eq t (utf8 "errore-consegna"))) [
  | inl same ↦ inl (rw ((text_eq_iff t (utf8 "errore-consegna")).0 same) other_kind)
  | inr other ↦ inr other
]

-- A header is accepted exactly when it has the five fields of a receipt and is marked as a delivery
-- receipt, with no type or one of the two known ones, or as an error of delivery.
pub is_valid_receipt_or_avviso_iff :
    (field : Text → Text) → (is_valid_receipt_or_avviso field ≡ true) ↔ IsReceipt field
unfolding is_valid_receipt_or_avviso
is_valid_receipt_or_avviso_iff field = ground (
  arith,
  missing_any_iff field receipt_headers,
  unknown_tipo_iff (field (utf8 "X-TipoRicevuta")),
  other_kind_of (field (utf8 "X-Ricevuta")),
  text_eq_iff (field (utf8 "X-Ricevuta")) (utf8 "avvenuta-consegna"),
  text_eq_iff (field (utf8 "X-Ricevuta")) (utf8 "errore-consegna"),
)
