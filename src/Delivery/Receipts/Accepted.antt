-- ===== src/Delivery/Receipts/Accepted.antt =====
-- How the reception point (`IsValidReceiptOrAvviso` of pec-server/punto-ricezione/punto-ricezione.go)
-- sees the receipts and notices of pec-server/punto-consegna/punto-consegna.go.
use go_pec.Base.{
  Text, utf8, text_eq, equal_fold, two_digits, rfc822, Error, ℕ, ◌≡◌, refl, ◌∙◌, ◌≢◌, ◌↔◌, true,
  false, List, [], ◌∷◌, arith,
}
use go_pec.Commons.{generate_message_id}
use go_pec.Reception.Checks.Receipts.{is_valid_receipt_or_avviso_iff}
use go_pec.Mail.{last_set, header_of, get-header_of, Entity, MailLibrary}
use go_pec.Reception.Checks.{is_valid_receipt_or_avviso}
use go_pec.Delivery.Bodies.{parse_receipt_type, PartWriter}
use go_pec.Delivery.Receipts.{
  receipt_fields, notice_fields, create_delivery_receipt, create_non_delivery_notice, Surroundings,
}

valid_iff :
    (field : Text → Text)
    → field (utf8 "X-Ricevuta") ≡ utf8 "avvenuta-consegna"
    → field (utf8 "Date") ≢ []
    → field (utf8 "Subject") ≢ []
    → field (utf8 "From") ≢ []
    → field (utf8 "X-TipoRicevuta") ≡ []
    → (is_valid_receipt_or_avviso field ≡ true)
      ↔ ((field (utf8 "To") ≢ []) × (field (utf8 "X-Riferimento-Message-ID") ≢ []))
valid_iff field kind date subject from tipo = ground (arith, is_valid_receipt_or_avviso_iff field)

iff_along :
    {P : Type 0} {s s' t t' : Text}
    → s ≡ s'
    → t ≡ t'
    → P ↔ ((s ≢ []) × (t ≢ []))
    → P ↔ ((s' ≢ []) × (t' ≢ []))
iff_along p q iff = rw (p, q) at iff

cons_ne : {A : Type 0} (x : A) (xs ys : List A) → ys ≡ x ∷ xs → ys ≢ []
cons_ne x xs ys e h = cc

-- A field that was set last under its name.
module _ (lib : MailLibrary) where
  open lib use {get}

  field_ne :
      (fields : List (Text × Text)) (name : Text) (x : ℕ) (xs : Text)
      → last_set fields name [] ≡ x ∷ xs
      → get (header_of lib fields) name ≢ []
  field_ne fields name x xs e = cons_ne x xs _ (get-header_of lib fields name ∙ e)

module _ (lib : MailLibrary) (writer : PartWriter lib.Header) (env : Surroundings) where
  open lib use {Header, get, empty_header, get-empty_header}

  -- A delivery receipt is accepted exactly when the original message has an author field and an
  -- identifier.
  pub create_delivery_receipt-IsReceipt :
      (domain : Text) (msg : Entity Header) (recipient : Text)
      → (is_valid_receipt_or_avviso
            (get (create_delivery_receipt lib writer env domain msg recipient).header)
          ≡ true)
        ↔ ((get msg.header (utf8 "From") ≢ []) × (get msg.header (utf8 "Message-ID") ≢ []))
  unfolding create_delivery_receipt receipt_fields equal_fold utf8 rfc822 two_digits
  create_delivery_receipt-IsReceipt domain msg recipient =
      let fields =
        receipt_fields (env.now 1) domain (generate_message_id (env.random 0) (env.now 0) domain)
          (parse_receipt_type lib writer msg) (get msg.header) in
      let iff =
        valid_iff (get (header_of lib fields)) (get-header_of lib fields (utf8 "X-Ricevuta"))
          (field_ne lib fields (utf8 "Date") _ _ refl)
          (field_ne lib fields (utf8 "Subject") _ _ refl)
          (field_ne lib fields (utf8 "From") _ _ refl)
          (get-header_of lib fields (utf8 "X-TipoRicevuta")) in
      iff_along (get-header_of lib fields (utf8 "To"))
        (get-header_of lib fields (utf8 "X-Riferimento-Message-ID")) iff

  -- A notice of non-delivery is never accepted.
  pub create_non_delivery_notice-refused :
      (domain : Text) (msg : Entity Header) (recipient : Text) (e : Error)
      → is_valid_receipt_or_avviso
          (get (create_non_delivery_notice lib writer env domain msg recipient e).header)
        ≡ false
  unfolding create_non_delivery_notice header_of notice_fields is_valid_receipt_or_avviso utf8
      text_eq equal_fold
  create_non_delivery_notice-refused domain msg recipient e =
      rw
        (get-header_of lib
          (notice_fields (env.now 1) domain (generate_message_id (env.random 0) (env.now 0) domain)
            (get msg.header))
          (utf8 "X-Ricevuta"))
        refl
