-- ===== src/Pec/Parsing.antt =====
-- What the results of pec/pec_parser.go and pec/validate.go say of a mail.
use go_pec.Base.{Text, utf8, ◌≡◌}
use go_pec.Pec.Types.{
  PecType, untyped, certified_email, delivery_receipt, delivery_error_receipt, acceptance_receipt,
}

-- The type that the certification data of each kind of mail names.
abbrev pub Names : PecType → Text → Type 0
Names untyped tipo = ⊥
Names certified_email tipo = tipo ≡ utf8 "posta-certificata"
Names delivery_receipt tipo = tipo ≡ utf8 "avvenuta-consegna"
Names delivery_error_receipt tipo = tipo ≡ utf8 "errore-consegna"
Names acceptance_receipt tipo = tipo ≡ utf8 "accettazione"
