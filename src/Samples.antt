-- ===== src/Samples.antt =====
-- Concrete libraries and values for the tests: a header as a list of fields, a reader that finds the
-- same header in every message, and a writer that joins the parts.
use go_pec.Base.{
  ltb, leb, ◌==◌, if◌then◌else◌, any, Text, utf8, text_eq, is_empty, equal_fold, zero_time, ok, ℕ,
  ◌≤◌, ◌≡◌, refl, Bool, true, ◌&&◌, ◌||◌, Option, none, some, List, [], ◌∷◌, ◌++◌, arith,
}
use go_pec.Mail.{Address, Entity, MailLibrary}
use go_pec.Signer.{Signer, Pkcs7}
use go_pec.Imap.{empty_message, Seq, ImapLibrary}
use go_pec.Access.Notices.{XmlLibrary}
use go_pec.Reception.Checks.{SignatureLibrary}
use go_pec.Delivery.Bodies.{PartWriter}

abbrev pub Fields : Type 0
Fields = List (Text × Text)

abbrev pub field_value : Fields → Text → Text
field_value [] j = []
field_value ((k, v) ∷ fields) j = if equal_fold k j then v else field_value fields j

-- A field that is there holds one address.
abbrev pub one_address : Text → Option (List Address)
one_address v = if is_empty v then none else some (record { name = []; address = v } ∷ [])

abbrev pub first_address : List Address → Text
first_address [] = []
first_address (a ∷ _) = a.address

abbrev pub bodies : List (Entity Fields) → Text
bodies [] = []
bodies (e ∷ rest) = e.body ++ bodies rest

-- Every message that is not empty has this header.
abbrev pub mail_library : Fields → MailLibrary
mail_library parsed = record {
  Header = Fields;
  empty_header = [];
  get = field_value;
  set = λ h k v. (k, v) ∷ h;
  get-empty_header = λ k. refl;
  get-set = λ h k j v. refl;
  address_list = λ h k. one_address (field_value h k);
  set_address_list = λ h k l. (k, first_address l) ∷ h;
  subject = λ h. field_value h (utf8 "Subject");
  set_subject = λ h v. (utf8 "Subject", v) ∷ h;
  date = λ h. some zero_time;
  fields_by_key = λ h k. [];
  parse_address_list = one_address;
  read = λ raw. ok (record { header = parsed; body = raw });
  new = λ h b. ok (record { header = h; body = b });
  new_multipart = λ h parts. ok (record { header = h; body = bodies parts });
  write_to = λ e. (e.body, ok tt);
  create_reader = λ raw. ok parsed;
  first_part = λ raw. ok raw;
}

-- A signature that is one word, whatever is signed.
abbrev pub pkcs7 : Pkcs7
pkcs7 = record {
  new_signed_data = λ content. ok content;
  add_signer = λ signed cert key. ok signed;
  finish = λ signed. ok (utf8 "signature");
}

abbrev pub sample_signer : Signer
sample_signer = record {
  cert = some (utf8 "cert");
  key = some (utf8 "key");
  domain = utf8 "pec.it";
}

abbrev pub xml_library : XmlLibrary
xml_library = record { marshal_notice = λ d. d.reason; marshal_posta_cert = λ d. ok d.tipo }

-- Every body is signed by the certificate that is its bytes.
abbrev pub signature_library : SignatureLibrary
signature_library = record {
  SignedMessage = Text;
  Certificate = Text;
  parse = λ body. some body;
  certificates = λ m. m ∷ [];
  only_signer = λ m. some m;
  raw = λ c. c;
  sha1 = λ b. b;
  verify_certificate = λ roots c. any (λ root. text_eq root c) roots;
  verify-no_roots = λ c. refl;
  verify = λ m. true;
}

abbrev pub part_writer : PartWriter Fields
part_writer = record {
  Writer = Text;
  create_writer = λ h. some [];
  create_part = λ w h b. w ++ b;
  close = λ w. w;
}

-- Sequence sets as their ranges.
abbrev pub seq_contains : ℕ → Seq → Bool
seq_contains q seq = ltb 0 seq.start && leb seq.start q && (leb q seq.stop || seq.stop == 0)

pub range_law :
    (first last q : ℕ)
    → 1 ≤ first
    → first ≤ last
    → any (seq_contains q) (record { start = first; stop = last } ∷ [])
      ≡ (leb first q && leb q last)
range_law first last q h k = ground arith

pub from_law :
    (first q : ℕ)
    → 1 ≤ first
    → 1 ≤ q
    → any (seq_contains q) (record { start = first; stop = 0 } ∷ []) ≡ leb first q
from_law first q h k = ground arith

abbrev pub sample_imap : ImapLibrary
sample_imap = record {
  contains = λ set q. any (seq_contains q) set;
  contains-range = range_law;
  contains-from = from_law;
  new_message = λ n items. empty_message n;
  new_message-empty = λ n items. refl;
  new_mailbox_status = λ n items. record {
    name = n;
    messages = 0;
    recent = 0;
    unseen = 0;
    uid_next = 0;
    uid_validity = 0;
  };
  new_mailbox_status-empty = λ n items. refl;
}
