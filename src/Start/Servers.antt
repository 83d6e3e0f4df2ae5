-- ===== src/Start/Servers.antt =====
-- The servers of pec-server/punto-accesso/punto-accesso-server.go,
-- pec-server/punto-ricezione/punto-ricezione.go and
-- pec-server/punto-consegna/punto-consegna-server.go, and how they are made and stopped.
use go_pec.Base.{Text, utf8, ◌>>=◌, with_context, Outcome, ok, some}
use go_pec.Storage.{new_in_memory_store, close, InMemoryStore}
use go_pec.Signer.{Signer}
use go_pec.Start.Credentials.{load_config, load_smime_credentials, Config, StartLibrary}

pub record PuntoAccessoServer : Type 0 where
  pub config : Config
  pub store : InMemoryStore
  pub signer : Signer
  pub smtp_address : Text
  pub imap_address : Text
  pub certificate : Text
  pub private_key : Text

pub record PuntoRicezioneServer : Type 0 where
  pub config : Config
  pub store : InMemoryStore
  pub signer : Signer
  pub smtp_address : Text
  pub imap_address : Text
  pub certificate : Text
  pub private_key : Text

pub record PuntoConsegnaServer : Type 0 where
  pub config : Config
  pub store : InMemoryStore
  pub signer : Signer
  pub imap_address : Text
  pub certificate : Text
  pub private_key : Text
  pub domain : Text

abbrev pub signer_for : Config → Text → Text → Signer
signer_for cfg cert key = record { cert = some cert; key = some key; domain = cfg.domain }

abbrev pub config_failed : Text
config_failed = utf8 "failed to load config"

abbrev pub credentials_failed : Text
credentials_failed = utf8 "failed to load S/MIME credentials"

module _ (lib : StartLibrary) where
  unfoldable pub new_punto_accesso_server : Text → Outcome PuntoAccessoServer
  unfolding load_config load_smime_credentials
  new_punto_accesso_server config_path = do
    cfg ← with_context config_failed (load_config lib config_path)
    found ← with_context credentials_failed (load_smime_credentials lib cfg.cert_file cfg.key_file)
    ok (record {
      config = cfg;
      store = new_in_memory_store;
      signer = signer_for cfg found.0 found.1;
      smtp_address = cfg.smtp_server;
      imap_address = cfg.imap_server;
      certificate = found.0;
      private_key = found.1;
    })

  unfoldable pub new_punto_ricezione_server : Text → Outcome PuntoRicezioneServer
  unfolding load_config load_smime_credentials
  new_punto_ricezione_server config_path = do
    cfg ← with_context config_failed (load_config lib config_path)
    found ← with_context credentials_failed (load_smime_credentials lib cfg.cert_file cfg.key_file)
    ok (record {
      config = cfg;
      store = new_in_memory_store;
      signer = signer_for cfg found.0 found.1;
      smtp_address = cfg.smtp_server;
      imap_address = cfg.imap_server;
      certificate = found.0;
      private_key = found.1;
    })

  unfoldable pub new_punto_consegna_server : Text → Outcome PuntoConsegnaServer
  unfolding load_config load_smime_credentials
  new_punto_consegna_server config_path = do
    cfg ← with_context config_failed (load_config lib config_path)
    found ← with_context credentials_failed (load_smime_credentials lib cfg.cert_file cfg.key_file)
    ok (record {
      config = cfg;
      store = new_in_memory_store;
      signer = signer_for cfg found.0 found.1;
      imap_address = cfg.imap_server;
      certificate = found.0;
      private_key = found.1;
      domain = cfg.domain;
    })

-- The three methods Stop; closing the store in memory gives no error.
unfoldable pub stop_punto_accesso : PuntoAccessoServer → PuntoAccessoServer × Outcome (Unit {0})
unfolding close
stop_punto_accesso s = (record s { store = close s.store }, ok tt)

unfoldable pub stop_punto_ricezione :
    PuntoRicezioneServer → PuntoRicezioneServer × Outcome (Unit {0})
unfolding close
stop_punto_ricezione s = (record s { store = close s.store }, ok tt)

unfoldable pub stop_punto_consegna : PuntoConsegnaServer → PuntoConsegnaServer × Outcome (Unit {0})
unfolding close
stop_punto_consegna s = (record s { store = close s.store }, ok tt)
