-- ===== src/Signer/Defs.antt =====
-- The signer. The construction of the PKCS #7 structure (go.mozilla.org/pkcs7) is a parameter.
use mathlib.Core.Option
use go_pec.Base.{
  ltb, ◌==◌, if◌then◌else◌, length, take, drop, Text, utf8, has_suffix, ◌>>=◌, with_context,
  message, Outcome, ok, err, ℕ, zero, suc, ◌+◌, ◌-◌, ◌*◌, ◌/◌, ◌%◌, Option, none, some, [], ◌∷◌,
  ◌++◌,
}
use go_pec.Mail.{Entity, MailLibrary}

-- A nil certificate or key is `none`.
pub record Signer : Type 0 where
  pub cert : Option Text
  pub key : Option Text
  pub domain : Text

-- pkcs7.NewSignedData, SignedData.AddSigner and SignedData.Finish, with the signed data between
-- the calls as bytes.
pub record Pkcs7 : Type 0 where
  pub new_signed_data : Text → Outcome Text
  pub add_signer : Text → Text → Text → Outcome Text
  pub finish : Text → Outcome Text

abbrev or_error {ℓ} : {A : Type ℓ} → Option A → Text → Outcome A
or_error none e = err (message e)
or_error (some a) e = ok a

-- Every non-nil key is a crypto.PrivateKey, an interface without methods.
unfoldable pub sign_email : Pkcs7 → Signer → Text → Outcome Text
sign_email p s content = do
  cert ← or_error s.cert (utf8 "certificate is nil")
  key ← or_error s.key (utf8 "key is nil")
  signed ← with_context (utf8 "failed to create signed data") (p.new_signed_data content)
  signed' ← with_context (utf8 "failed to add signer") (p.add_signer signed cert key)
  with_context (utf8 "failed to finish signature") (p.finish signed')

abbrev pub crlf : Text
crlf = 13 ∷ 10 ∷ []

-- `data[i:end]`
unfoldable pub slice : ℕ → ℕ → Text → Text
slice i end s = take (end - i) (drop i s)

-- The loop of `formatBase64` from index i on; `none` means that the fuel ran out.
unfoldable pub format_from : Text → ℕ → ℕ → ℕ → Option Text
format_from s line_length zero i = none
format_from s line_length (suc fuel) i =
    let rest = format_from s line_length fuel (i + line_length) in
    let end = if ltb (length s) (i + line_length) then length s else i + line_length in
    if ltb i (length s)
    then Option.map (λ t. slice i end s ++ (if ltb end (length s) then crlf else []) ++ t) rest
    else some []

-- A round for each byte and one to leave the loop are enough if the lines are not empty.
unfoldable pub format_base64 : Text → ℕ → Option Text
unfolding format_from
format_base64 s line_length = format_from s line_length (suc (length s)) 0

abbrev pub base64_digit : ℕ → ℕ
base64_digit n =
    if ltb n 26
    then b'A' + n
    else if ltb n 52
    then b'a' + (n - 26)
    else if ltb n 62
    then b'0' + (n - 52)
    else if n == 62
    then b'+'
    else b'/'

-- base64.StdEncoding
unfoldable pub base64 : Text → Text
base64 [] = []
base64 (a ∷ []) = base64_digit (a / 4) ∷ base64_digit (a % 4 * 16) ∷ b'=' ∷ b'=' ∷ []
base64 (a ∷ b ∷ []) =
    base64_digit (a / 4)
    ∷ base64_digit (a % 4 * 16 + b / 16)
    ∷ base64_digit (b % 16 * 4)
    ∷ b'='
    ∷ []
base64 (a ∷ b ∷ c ∷ s) =
    base64_digit (a / 4)
    ∷ base64_digit (a % 4 * 16 + b / 16)
    ∷ base64_digit (b % 16 * 4 + c / 64)
    ∷ base64_digit (c % 64)
    ∷ base64 s

unfoldable pub boundary : Text
boundary = utf8 "----=_NextPart_000_0000_01234567.89ABCDEF"

unfoldable pub signed_head : Text
unfolding boundary
signed_head =
    utf8 "MIME-Version: 1.0"
    ++ crlf
    ++ utf8
        "Content-Type: multipart/signed; protocol=\"application/pkcs7-signature\"; micalg=sha256; boundary=\""
    ++ boundary
    ++ utf8 "\""
    ++ crlf
    ++ crlf
    ++ utf8 "This is an S/MIME signed message"
    ++ crlf
    ++ crlf

unfoldable pub content_part : Text → Text
unfolding boundary
content_part content =
    utf8 "--"
    ++ boundary
    ++ crlf
    ++ content
    ++ (if has_suffix content crlf then [] else crlf)
    ++ crlf

unfoldable pub signature_part : Text → Text
unfolding boundary
signature_part lines =
    utf8 "--"
    ++ boundary
    ++ crlf
    ++ utf8 "Content-Type: application/pkcs7-signature; name=\"smime.p7s\""
    ++ crlf
    ++ utf8 "Content-Transfer-Encoding: base64"
    ++ crlf
    ++ utf8 "Content-Disposition: attachment; filename=\"smime.p7s\""
    ++ crlf
    ++ crlf
    ++ lines
    ++ crlf
    ++ utf8 "--"
    ++ boundary
    ++ utf8 "--"
    ++ crlf

-- For lines of 76 bytes the loop always gives a value, so the default is never taken.
unfoldable pub create_signed_mime_message : Pkcs7 → Signer → Text → Outcome Text
create_signed_mime_message p s content = do
  signed ← with_context (utf8 "failed to sign email") (sign_email p s content)
  let lines = Option.get_or (format_base64 (base64 signed) 76) []
  ok (signed_head ++ content_part content ++ signature_part lines)

module _ (lib : MailLibrary) where
  open lib use {Header, read}

  unfoldable pub create_signed_mime_message_entity : Pkcs7 → Signer → Text → Outcome (Entity Header)
  create_signed_mime_message_entity p s content = do
    signed ←
        with_context (utf8 "failed to create signed S/MIME message")
          (create_signed_mime_message p s content)
    with_context (utf8 "failed to parse signed S/MIME message") (read signed)
