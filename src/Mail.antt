-- ===== src/Mail.antt =====
-- The interface of the mail library that the servers use (github.com/emersion/go-message and its
-- package mail). The library is not part of the repository, so it is a parameter: its operations,
-- and the documented behaviour of reading and writing a header field.
use go_pec.Base.{
  if◌then◌else◌, Text, equal_fold, Time, Outcome, ◌≡◌, refl, ap, ◌∙◌, Option, List, [], ◌∷◌,
}

-- mail.Address
pub record Address : Type 0 where
  pub name : Text
  pub address : Text

-- message.Entity, with the body as the bytes that are left to read.
pub record Entity (H : Type 0) : Type 0 where
  pub header : H
  pub body : Text

pub record MailLibrary : Type 1 where
  pub Header : Type 0
  pub empty_header : Header
  pub get : Header → Text → Text
  pub set : Header → Text → Text → Header
  -- `Get` of a field that is not there gives the empty text.
  pub get-empty_header : (k : Text) → get empty_header k ≡ []
  -- `Set` replaces the values of a key, and keys are compared without case.
  pub get-set :
      (h : Header) (k j v : Text) → get (set h k v) j ≡ (if equal_fold k j then v else get h j)
  -- Typed fields: mail.Header.AddressList, SetAddressList, Subject, SetSubject, Date and
  -- FieldsByKey, and mail.ParseAddressList.
  pub address_list : Header → Text → Option (List Address)
  pub set_address_list : Header → Text → List Address → Header
  pub subject : Header → Text
  pub set_subject : Header → Text → Header
  pub date : Header → Option Time
  pub fields_by_key : Header → Text → List Text
  pub parse_address_list : Text → Option (List Address)
  -- message.Read, message.New, message.NewMultipart, and Entity.WriteTo into a buffer: the bytes
  -- that it wrote, and how it ended.
  pub read : Text → Outcome (Entity Header)
  pub new : Header → Text → Outcome (Entity Header)
  pub new_multipart : Header → List (Entity Header) → Outcome (Entity Header)
  pub write_to : Entity Header → Text × Outcome (Unit {0})
  -- mail.CreateReader, for the header and the first part: NextPart, then io.ReadAll.
  pub create_reader : Text → Outcome Header
  pub first_part : Text → Outcome Text

-- What `Get` finds after several calls of `Set`: the value that was set last, or the old one.
abbrev pub last_set : List (Text × Text) → Text → Text → Text
last_set [] j old = old
last_set ((k, v) ∷ fields) j old = last_set fields j (if equal_fold k j then v else old)

module _ (lib : MailLibrary) where
  open lib use {Header, empty_header, get, set, get-set, get-empty_header}

  -- Several calls of `Set`, in order.
  unfoldable pub set_all : Header → List (Text × Text) → Header
  set_all h [] = h
  set_all h ((k, v) ∷ fields) = set_all (set h k v) fields

  -- A header that is built from the empty one.
  unfoldable pub header_of : List (Text × Text) → Header
  unfolding set_all
  header_of fields = set_all empty_header fields

  pub get-set_all :
      (h : Header) (fields : List (Text × Text)) (j : Text)
      → get (set_all h fields) j ≡ last_set fields j (get h j)
  unfolding set_all
  get-set_all h [] j = refl
  get-set_all h ((k, v) ∷ fields) j =
      get-set_all (set h k v) fields j ∙ ap (last_set fields j) (get-set h k j v)

  pub get-header_of :
      (fields : List (Text × Text)) (j : Text) → get (header_of fields) j ≡ last_set fields j []
  unfolding header_of
  get-header_of fields j =
      get-set_all empty_header fields j ∙ ap (last_set fields j) (get-empty_header j)
