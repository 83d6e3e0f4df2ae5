-- ===== src/Access/Notices/Fields.antt =====
-- What the notices of pec-server/punto-accesso/punto-accesso.go say in their header.
use go_pec.Base.{
  Text, utf8, equal_fold, Time, ◌>>=◌, with_context, >>=-eq-ok, ValidationError, Outcome, ok, err,
  panic, ◌≡◌, refl, ◌∙◌, List, ◌++◌, arith,
}
use go_pec.Mail.{last_set, set_all, get-set_all, Entity, MailLibrary}
use go_pec.Signer.{create_signed_mime_message_entity, Signer, Pkcs7}
use go_pec.Access.Notices.{
  refusal_fields, acceptance_fields, signed_notice, refusal_body, generate_non_acceptance_email,
  acceptance_body, generate_acceptance_email, XmlLibrary,
}

module _ (lib : MailLibrary) (xml : XmlLibrary) (p7 : Pkcs7) where
  open lib use {Header, get}

  signed_notice-header :
      (fields : List (Text × Text)) (signer : Signer) (body : Text) (e : Entity Header)
      → signed_notice lib xml p7 fields signer body ≡ ok e
      → (h₀ : Header) × (e.header ≡ set_all lib h₀ fields)
  unfolding signed_notice
  signed_notice-header fields signer body e h =
      let (signed, p, q) =
        >>=-eq-ok {X = Entity Header}
          (with_context (utf8 "failed to create signed email")
            (create_signed_mime_message_entity lib p7 signer body))
          (λ x. ok (record x { header = set_all lib x.header fields })) h in
      (signed.header, ground arith)

  -- What a notice's header holds under a name that is among the fields set.
  field-of_notice :
      (made : Outcome Text) (fields : List (Text × Text)) (signer : Signer) (e : Entity Header)
      (name value : Text)
      → ((old : Text) → last_set fields name old ≡ value)
      → (made >>= λ body. signed_notice lib xml p7 fields signer body) ≡ ok e
      → get e.header name ≡ value
  field-of_notice (ok body) fields signer e name value found h =
      let (h₀, p) = signed_notice-header fields signer body e h in
      rw p (get-set_all lib h₀ fields name ∙ found (get h₀ name))
  field-of_notice (err _) fields signer e name value found h = cc
  field-of_notice panic fields signer e name value found h = cc

  -- An acceptance receipt that is generated names its kind, goes to the author, and refers to the
  -- message by its ID and subject.
  pub generate_acceptance_email-fields :
      (now : Time) (domain message_id from : Text) (to : List Text) (subject : Text)
      (signer : Signer) (e : Entity Header)
      → generate_acceptance_email lib xml p7 now domain message_id from to subject signer ≡ ok e
      → (get e.header (utf8 "X-Ricevuta") ≡ utf8 "accettazione")
        × (get e.header (utf8 "To") ≡ from)
        × (get e.header (utf8 "X-Riferimento-Message-ID") ≡ message_id)
        × (get e.header (utf8 "Subject") ≡ utf8 "ACCETTAZIONE: " ++ subject)
  unfolding generate_acceptance_email equal_fold utf8
  generate_acceptance_email-fields now domain message_id from to subject signer e h =
      let made = acceptance_body lib xml p7 now domain message_id from to subject in
      let fields = acceptance_fields now domain message_id from subject in
      (
        field-of_notice made fields signer e (utf8 "X-Ricevuta") (utf8 "accettazione") (λ old. refl)
            h,
        field-of_notice made fields signer e (utf8 "To") from (λ old. refl) h,
        field-of_notice made fields signer e (utf8 "X-Riferimento-Message-ID") message_id
            (λ old. refl) h,
        field-of_notice made fields signer e (utf8 "Subject") (utf8 "ACCETTAZIONE: " ++ subject)
            (λ old. refl) h,
      )

  -- A notice of non-acceptance that is generated names its kind, refers to the message, and goes to
  -- the address that the validation error holds.
  pub generate_non_acceptance_email-fields :
      (domain : Text) (v : ValidationError) (signer : Signer) (e : Entity Header)
      → generate_non_acceptance_email lib xml p7 domain v signer ≡ ok e
      → (get e.header (utf8 "X-Ricevuta") ≡ utf8 "non-accettazione")
        × (get e.header (utf8 "To") ≡ v.from)
        × (get e.header (utf8 "X-Riferimento-Message-ID") ≡ v.message_id)
  unfolding generate_non_acceptance_email equal_fold utf8
  generate_non_acceptance_email-fields domain v signer e h =
      let made = refusal_body lib xml p7 v in
      let fields = refusal_fields domain v in
      (
        field-of_notice made fields signer e (utf8 "X-Ricevuta") (utf8 "non-accettazione")
            (λ old. refl) h,
        field-of_notice made fields signer e (utf8 "To") v.from (λ old. refl) h,
        field-of_notice made fields signer e (utf8 "X-Riferimento-Message-ID") v.message_id
            (λ old. refl) h,
      )
