-- ===== src/Access/Validate/Compliance.antt =====
-- When pec-server/punto-accesso/punto-accesso.go accepts an envelope, as a predicate.
use go_pec.Base.{
  All, Text, utf8, to_lower, equal_fold, >>=-eq-ok, ok, ◌≡◌, refl, ◌≢◌, ◌↔◌, ◌⊎◌, true, Option,
  none, some, List, [], ◌∷◌, ◌++◌, arith,
}
use go_pec.Base.TextLaws.{text_eq_iff}
use go_pec.Mail.{Address, MailLibrary}
use go_pec.Access.Validate.{
  sole, not_empty, addresses, no_addresses, same_path, is_listed, all_listed,
  validate_envelope_and_headers,
}

-- The recipient stands among the addresses, up to case.
abbrev pub Listed : Text → List Address → Type 0
Listed rcpt [] = ⊥
Listed rcpt (a ∷ rest) = (to_lower a.address ≡ to_lower rcpt) ⊎ Listed rcpt rest

is_listed_iff :
    (rcpt : Text) (valid : List Address) → (is_listed rcpt valid ≡ true) ↔ Listed rcpt valid
unfolding is_listed
is_listed_iff rcpt [] = ground arith
is_listed_iff rcpt (a ∷ rest) =
    ground (arith, is_listed_iff rcpt rest, text_eq_iff (to_lower a.address) (to_lower rcpt))

all_listed_iff :
    (valid : List Address) (rcpts : List Text)
    → (all_listed valid rcpts ≡ ok tt) ↔ All (λ r. Listed r valid) rcpts
unfolding all_listed
all_listed_iff valid [] = ground arith
all_listed_iff valid (r ∷ rcpts) = ground (arith, is_listed_iff r valid, all_listed_iff valid rcpts)

same_path_iff : (f h : Text) → (same_path f h ≡ ok tt) ↔ (to_lower f ≡ to_lower h)
unfolding same_path equal_fold
same_path_iff f h = ground (arith, text_eq_iff (to_lower f) (to_lower h))

no_addresses_iff :
    (bcc : Option (List Address)) → (no_addresses bcc ≡ ok tt) ↔ ((bcc ≡ none) ⊎ (bcc ≡ some []))
unfolding no_addresses
no_addresses_iff none = ground arith
no_addresses_iff (some []) = ground arith
no_addresses_iff (some (_ ∷ _)) = ground arith

sole-eq-ok : (o : Option (List Address)) (a : Address) → sole o ≡ ok a → o ≡ some (a ∷ [])
unfolding sole
sole-eq-ok none a h = cc
sole-eq-ok (some []) a h = cc
sole-eq-ok (some (b ∷ [])) a h = ground arith
sole-eq-ok (some (b ∷ c ∷ rest)) a h = cc

not_empty-eq-ok :
    (o : Option (List Address)) (found : List Address)
    → not_empty o ≡ ok found
    → (o ≡ some found) × (found ≢ [])
unfolding not_empty
not_empty-eq-ok none found h = cc
not_empty-eq-ok (some []) found h = cc
not_empty-eq-ok (some (b ∷ rest)) found h = ground arith

ok-not_empty : (found : List Address) → found ≢ [] → not_empty (some found) ≡ ok found
unfolding not_empty
ok-not_empty [] h = absurd (h refl)
ok-not_empty (a ∷ rest) h = refl

module _ (lib : MailLibrary) where
  open lib use {Header, address_list}

  -- One author, some addressees, no blind copies; the reverse path is the author and every
  -- recipient is an addressee, up to case.
  pub record IsCompliant (smtp_from : Text) (smtp_recipients : List Text) (header : Header)
      : Type 0 where
    pub author : Address
    pub authored : address_list header (utf8 "From") ≡ some (author ∷ [])
    pub addressees : List Address
    pub addressed : address_list header (utf8 "To") ≡ some addressees
    pub some_addressee : addressees ≢ []
    pub no_blind_copies :
        (address_list header (utf8 "Bcc") ≡ none) ⊎ (address_list header (utf8 "Bcc") ≡ some [])
    pub reverse_path : to_lower smtp_from ≡ to_lower author.address
    pub forward_paths :
        All
          (λ r. Listed r (addressees ++ addresses (address_list header (utf8 "Cc"))))
          smtp_recipients

  sound :
      (f : Text) (rs : List Text) (h : Header)
      → validate_envelope_and_headers lib f rs h ≡ ok tt
      → IsCompliant f rs h
  unfolding validate_envelope_and_headers
  sound f rs h e =
      let (author, from, e₁) = >>=-eq-ok (sole (address_list h (utf8 "From"))) _ e in
      let (addressees, to, e₂) = >>=-eq-ok (not_empty (address_list h (utf8 "To"))) _ e₁ in
      let (u, bcc, e₃) = >>=-eq-ok (no_addresses (address_list h (utf8 "Bcc"))) _ e₂ in
      let (v, path, listed) = >>=-eq-ok (same_path f author.address) _ e₃ in
      record {
        author = author;
        authored = sole-eq-ok _ author from;
        addressees = addressees;
        addressed = (not_empty-eq-ok _ addressees to).0;
        some_addressee = (not_empty-eq-ok _ addressees to).1;
        no_blind_copies = (no_addresses_iff _).0 bcc;
        reverse_path = (same_path_iff f author.address).0 path;
        forward_paths = (all_listed_iff _ rs).0 listed;
      }

  complete :
      (f : Text) (rs : List Text) (h : Header)
      → IsCompliant f rs h
      → validate_envelope_and_headers lib f rs h ≡ ok tt
  unfolding validate_envelope_and_headers sole
  complete f rs h c =
      rw
        (
          c.authored,
          c.addressed,
          ok-not_empty c.addressees c.some_addressee,
          (no_addresses_iff _).1 c.no_blind_copies,
          (same_path_iff f c.author.address).1 c.reverse_path,
        )
        ((all_listed_iff _ rs).1 c.forward_paths)

  pub validate_iff :
      (f : Text) (rs : List Text) (h : Header)
      → (validate_envelope_and_headers lib f rs h ≡ ok tt) ↔ IsCompliant f rs h
  validate_iff f rs h = (sound f rs h, complete f rs h)
