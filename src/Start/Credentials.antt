-- ===== src/Start/Credentials.antt =====
-- LoadConfig of pec-server/internal/common/config.go, and LoadSMIMECredentials of
-- pec-server/internal/common/smtp-server.go.
use go_pec.Base.{
  if◌then◌else◌, Text, utf8, text_eq, ◌>>=◌, message, Outcome, ok, err, panic, Option, none, some,
}

pub record Config : Type 0 where
  pub domain : Text
  pub smtp_server : Text
  pub imap_server : Text
  pub cert_file : Text
  pub key_file : Text
  pub api_server : Text

-- pem.Block
pub record Block : Type 0 where
  pub block_type : Text
  pub bytes : Text

-- os.ReadFile, json.Unmarshal into a Config, pem.Decode, x509.ParseCertificate and the two parsers
-- of private keys.
pub record StartLibrary : Type 0 where
  pub read_file : Text → Outcome Text
  pub unmarshal : Text → Outcome Config
  pub pem_decode : Text → Option Block
  pub parse_certificate : Text → Outcome Text
  pub parse_pkcs8_private_key : Text → Outcome Text
  pub parse_pkcs1_private_key : Text → Outcome Text

-- The certificate's bytes, from a block that is one.
unfoldable pub certificate_bytes : Option Block → Outcome Text
certificate_bytes none = err (message (utf8 "failed to decode certificate"))
certificate_bytes (some block) =
    if text_eq block.block_type (utf8 "CERTIFICATE")
    then ok block.bytes
    else err (message (utf8 "failed to decode certificate"))

-- A key's block may be of any type.
unfoldable pub key_bytes : Option Block → Outcome Text
key_bytes none = err (message (utf8 "failed to decode private key"))
key_bytes (some block) = ok block.bytes

-- The second parser is tried when the first one failed.
unfoldable pub or_else : Outcome Text → Outcome Text → Outcome Text
or_else (ok key) other = ok key
or_else (err _) other = other
or_else panic other = panic

module _ (lib : StartLibrary) where
  open lib use {
    read_file, unmarshal, pem_decode, parse_certificate, parse_pkcs8_private_key,
    parse_pkcs1_private_key,
  }

  unfoldable pub load_config : Text → Outcome Config
  load_config path = do bytes ← read_file path; unmarshal bytes

  unfoldable pub parse_private_key : Text → Outcome Text
  unfolding or_else
  parse_private_key bytes = or_else (parse_pkcs8_private_key bytes) (parse_pkcs1_private_key bytes)

  unfoldable pub load_smime_credentials : Text → Text → Outcome (Text × Text)
  unfolding certificate_bytes key_bytes parse_private_key
  load_smime_credentials cert_path key_path = do
    cert_pem ← read_file cert_path
    key_pem ← read_file key_path
    cert_block ← certificate_bytes (pem_decode cert_pem)
    cert ← parse_certificate cert_block
    key_block ← key_bytes (pem_decode key_pem)
    key ← parse_private_key key_block
    ok (cert, key)
