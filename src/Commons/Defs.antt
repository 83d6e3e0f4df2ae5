-- ===== src/Commons/Defs.antt =====
-- The helpers on mail. Readings of the clock and random bytes are arguments.
use go_pec.Base.{
  ltb, if◌then◌else◌, length, Text, utf8, text_eq, is_empty, to_lower, trim_space, split, decimal,
  Time, ◌>>=◌, with_context, Outcome, ok, ℕ, ◌+◌, ◌-◌, ◌/◌, ◌%◌, ◌^◌, Bool, false, not, Option,
  none, some, List, [], ◌∷◌, ◌++◌, map,
}
use go_pec.Mail.{Address, Entity, MailLibrary}
use go_pec.Storage.{recent_flag, Message}

-- The addresses of one field: parsed, or split at commas where parsing fails.
unfoldable pub field_recipients : (Text → Option (List Address)) → Text → List Text
field_recipients parse_address_list value =
    if is_empty value then [] else elim (parse_address_list value) [
      | some addrs ↦ map (λ (a : Address). a.address) addrs
      | none ↦ map trim_space (split value b',')
    ]

abbrev hex_digit : ℕ → ℕ
hex_digit n = if ltb n 10 then b'0' + n else b'a' + (n - 10)

-- `%x` of bytes
unfoldable pub hex : Text → Text
hex [] = []
hex (b ∷ bs) = hex_digit (b / 16 % 16) ∷ hex_digit (b % 16) ∷ hex bs

unfoldable pub generate_message_id : Text → Time → Text → Text
generate_message_id random now domain =
    utf8 "<" ++ hex random ++ utf8 "." ++ decimal now.unix ++ utf8 "@" ++ domain ++ utf8 ">"

-- Whether the temporary file is made, whether the body is written to it, and what OpenSSL says of
-- a file with these bytes.
unfoldable pub is_signature_valid : Bool → Bool → (Text → Bool) → Text → Bool
is_signature_valid created written verify body =
    if not created then false else if not written then false else verify body

module _ (lib : MailLibrary) where
  open lib use {Header, get, parse_address_list, read, write_to}

  -- `ParseEmailMessage` gives a reader; the source uses its header.
  unfoldable pub parse_email_message : Text → Outcome Header
  parse_email_message raw = do
    entity ← with_context (utf8 "failed to parse email message") (read raw)
    ok entity.header

  unfoldable pub extract_recipients : Header → List Text
  extract_recipients h =
      field_recipients parse_address_list (get h (utf8 "To"))
      ++ field_recipients parse_address_list (get h (utf8 "Cc"))

  -- The size is that of the bytes written, also where writing failed.
  unfoldable pub convert_to_imap_message : Time → Time → Time → Entity Header → Message
  convert_to_imap_message date internal stamp entity = record {
    seq_num = 0;
    uid = stamp.unix % 2 ^ 32;
    size = length (write_to entity).0 % 2 ^ 32;
    flags = recent_flag ∷ [];
    envelope = some (record {
      date = date;
      subject = get entity.header (utf8 "Subject");
      from = get entity.header (utf8 "From") ∷ [];
      to = get entity.header (utf8 "To") ∷ [];
    });
    internal_date = some internal;
    body_structure = none;
  }

  unfoldable pub is_transport_envelope : Entity Header → Bool
  is_transport_envelope msg =
      text_eq (to_lower (get msg.header (utf8 "X-Trasporto"))) (utf8 "posta-certificata")
