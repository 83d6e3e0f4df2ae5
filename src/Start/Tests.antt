-- ===== src/Start/Tests.antt =====
-- Servers that are made from files that are their own contents, and how their functions main end.
use go_pec.Base.{
  utf8, text_eq, lookup, auth_required, message, ok, err, ◌≡◌, refl, ◌↔◌, none, some, List, [], ◌∷◌,
}
use go_pec.Storage.{new_in_memory_store, add_message, get_messages, close, Message}
use go_pec.Start.Credentials.{
  certificate_bytes, key_bytes, or_else, load_config, parse_private_key, load_smime_credentials,
  Config, StartLibrary,
}
use go_pec.Start.Servers.{
  new_punto_accesso_server, new_punto_consegna_server, stop_punto_accesso, stop_punto_consegna,
  PuntoAccessoServer, PuntoConsegnaServer,
}
use go_pec.Start.Ends.{IsStopped, IsShutDown, main_punto_consegna-IsStopped_iff}
use go_pec.Start.Main.{
  wait, with_server, with_logger, main_punto_accesso, main_punto_consegna, Occurrence, interrupted,
  ended, served, stopped, fatal,
}

abbrev sample_config : Config
sample_config = record {
  domain = utf8 "pec.it";
  smtp_server = utf8 ":1025";
  imap_server = utf8 ":1143";
  cert_file = utf8 "cert.pem";
  key_file = utf8 "key.pem";
  api_server = utf8 ":8080";
}

-- Keys are in the older of the two forms.
abbrev sample_files : StartLibrary
sample_files = record {
  read_file = λ path. ok path;
  unmarshal = λ bytes. ok sample_config;
  pem_decode = λ bytes. some (record { block_type = utf8 "CERTIFICATE"; bytes = bytes });
  parse_certificate = λ bytes. ok bytes;
  parse_pkcs8_private_key = λ bytes. err (message (utf8 "use ParsePKCS1PrivateKey"));
  parse_pkcs1_private_key = λ bytes. ok bytes;
}

abbrev sample_server : PuntoAccessoServer
sample_server = record {
  config = sample_config;
  store = new_in_memory_store;
  signer = record {
    cert = some (utf8 "cert.pem");
    key = some (utf8 "key.pem");
    domain = utf8 "pec.it";
  };
  smtp_address = utf8 ":1025";
  imap_address = utf8 ":1143";
  certificate = utf8 "cert.pem";
  private_key = utf8 "key.pem";
}

sample_server-made : new_punto_accesso_server sample_files (utf8 "config.json") ≡ ok sample_server
unfolding new_punto_accesso_server load_config load_smime_credentials certificate_bytes key_bytes
    parse_private_key or_else utf8 text_eq
sample_server-made = refl

-- A certificate that is no certificate.
refused :
    certificate_bytes (some (record { block_type = utf8 "RSA PRIVATE KEY"; bytes = [] }))
    ≡ err (message (utf8 "failed to decode certificate"))
unfolding certificate_bytes utf8 text_eq
refused = refl

-- A listener that ends well, then a signal.
abbrev quiet_end : List (Occurrence PuntoAccessoServer)
quiet_end = ended (ok tt) ∷ interrupted ∷ ended (err (message [])) ∷ []

main-of_signal :
    main_punto_accesso sample_files (ok tt) quiet_end ≡ stopped (stop_punto_accesso sample_server).0
unfolding main_punto_accesso with_logger with_server wait new_punto_accesso_server load_config
    load_smime_credentials certificate_bytes key_bytes parse_private_key or_else utf8 text_eq
main-of_signal = refl

main-of_error :
    main_punto_accesso sample_files (ok tt) (ended (err auth_required) ∷ interrupted ∷ [])
    ≡ fatal (utf8 "Server error") auth_required
unfolding main_punto_accesso with_logger with_server wait new_punto_accesso_server load_config
    load_smime_credentials certificate_bytes key_bytes parse_private_key or_else utf8 text_eq
main-of_error = refl

abbrev mail : Message
mail = record {
  seq_num = 0;
  uid = 0;
  size = 5;
  flags = [];
  envelope = none;
  internal_date = none;
  body_structure = none;
}

-- The server gets mail for a user before the signal.
abbrev with_mail : PuntoConsegnaServer → PuntoConsegnaServer
with_mail s = record s { store = (add_message (utf8 "ada") mail s.store).0 }

abbrev busy_end : List (Occurrence PuntoConsegnaServer)
busy_end = served with_mail ∷ ended (ok tt) ∷ interrupted ∷ []

-- The mailbox of the user is empty after the signal, though it was not before.
left_over :
    IsStopped
      (λ t. get_messages (utf8 "ada") t.store ≡ [])
      (main_punto_consegna sample_files (ok tt) busy_end)
unfolding main_punto_consegna with_logger with_server wait new_punto_consegna_server load_config
    load_smime_credentials certificate_bytes key_bytes parse_private_key or_else stop_punto_consegna
    close get_messages utf8 text_eq lookup
left_over = refl

main_punto_consegna-IsStopped_iff_example :
    (IsStopped (λ t. Unit {0}) (main_punto_consegna sample_files (ok tt) busy_end)
      ↔ IsShutDown (ok tt) (new_punto_consegna_server sample_files (utf8 "config.json")) busy_end)
    × (IsStopped
          (λ t. get_messages (utf8 "ada") t.store ≡ [])
          (main_punto_consegna sample_files (ok tt) busy_end)
        ↔ IsShutDown (ok tt) (new_punto_consegna_server sample_files (utf8 "config.json")) busy_end)
main_punto_consegna-IsStopped_iff_example =
    main_punto_consegna-IsStopped_iff sample_files (ok tt) busy_end (utf8 "ada")
