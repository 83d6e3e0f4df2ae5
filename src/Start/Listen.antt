-- ===== src/Start/Listen.antt =====
-- What the methods Start of the servers hand to the listeners: NewBackend and StartSMTP of
-- pec-server/internal/common/smtp-server.go, NewIMAPBackend and the two ways to start IMAP of
-- pec-server/internal/common/imap-server.go.
use go_pec.Base.{Text, ◌>>=◌, Outcome, ok, panic, ℕ, Bool, true, false, Option, none, some}
use go_pec.Storage.{InMemoryStore}
use go_pec.Signer.{Signer}
use go_pec.Smtp.{new_session, Session}
use go_pec.Start.Servers.{PuntoAccessoServer, PuntoRicezioneServer, PuntoConsegnaServer}

-- The handler of a backend is a parameter of what runs it. A nil pointer is `none`.
pub record Backend : Type 0 where
  pub signer : Option Signer
  pub store : Option InMemoryStore
  pub domain : Text

unfoldable pub new_backend : Option Signer → Option InMemoryStore → Text → Backend
new_backend signer store domain = record { signer = signer; store = store; domain = domain }

-- `Backend.NewSession`, which cannot fail.
unfoldable pub open_session : Backend → Session
unfolding new_session
open_session bkd = new_session bkd.signer bkd.store bkd.domain

-- tls.Config, with the versions and checks that are set by the source.
pub record TlsConfig : Type 0 where
  pub certificate : Text
  pub private_key : Option Text
  pub min_version : ℕ
  pub insecure_skip_verify : Bool
  pub asks_client_certificate : Bool

-- smtp.Server, with the fields that are set.
pub record SmtpServer : Type 0 where
  pub backend : Backend
  pub addr : Text
  pub domain : Text
  pub allow_insecure_auth : Bool
  pub tls_config : TlsConfig

pub record ImapBackend : Type 0 where
  pub store : InMemoryStore
  pub cert : Option Text
  pub key : Option Text

unfoldable pub new_imap_backend : InMemoryStore → Option Text → Option Text → ImapBackend
new_imap_backend store cert key = record { store = store; cert = cert; key = key }

-- imapserver.Server, with the fields that are set.
pub record ImapServer : Type 0 where
  pub backend : ImapBackend
  pub addr : Text
  pub tls_config : TlsConfig

-- The listeners, until they end: smtp.Server.ListenAndServe, and for IMAP tls.Listen followed by
-- Serve, or ListenAndServe.
pub record Listeners : Type 0 where
  pub serve_smtp : SmtpServer → Outcome (Unit {0})
  pub tls_listen : Text → TlsConfig → Outcome (Unit {0})
  pub serve_imap : ImapServer → Outcome (Unit {0})
  pub listen_and_serve_imap : ImapServer → Outcome (Unit {0})

-- tls.VersionTLS12
abbrev pub version_tls12 : ℕ
version_tls12 = 0x0303

abbrev or_panic {ℓ} : {A : Type ℓ} → Option A → Outcome A
or_panic (some a) = ok a
or_panic none = panic

abbrev imap_server : Text → ImapBackend → Text → Bool → ImapServer
imap_server addr backend raw skip = record {
  backend = backend;
  addr = addr;
  tls_config = record {
    certificate = raw;
    private_key = backend.key;
    min_version = version_tls12;
    insecure_skip_verify = skip;
    asks_client_certificate = false;
  };
}

module _ (net : Listeners) where
  open net use {serve_smtp, tls_listen, serve_imap, listen_and_serve_imap}

  -- A nil signer or certificate panics.
  unfoldable pub start_smtp : Text → Text → Backend → Outcome (Unit {0})
  start_smtp addr domain backend = do
    signer ← or_panic backend.signer
    raw ← or_panic signer.cert
    serve_smtp (record {
      backend = backend;
      addr = addr;
      domain = domain;
      allow_insecure_auth = true;
      tls_config = record {
        certificate = raw;
        private_key = signer.key;
        min_version = version_tls12;
        insecure_skip_verify = true;
        asks_client_certificate = false;
      };
    })

  unfoldable pub start_imap_with_tls : Text → ImapBackend → Outcome (Unit {0})
  start_imap_with_tls addr backend = do
    raw ← or_panic backend.cert
    _ ← tls_listen addr (imap_server addr backend raw false).tls_config
    serve_imap (imap_server addr backend raw false)

  unfoldable pub start_imap_with_starttls : Text → ImapBackend → Outcome (Unit {0})
  start_imap_with_starttls addr backend = do
    raw ← or_panic backend.cert
    listen_and_serve_imap (imap_server addr backend raw true)

  unfoldable pub start_punto_accesso : PuntoAccessoServer → Outcome (Unit {0})
  unfolding new_backend start_smtp
  start_punto_accesso s =
      start_smtp s.smtp_address s.config.domain
        (new_backend (some s.signer) (some s.store) s.config.domain)

  unfoldable pub start_punto_ricezione : PuntoRicezioneServer → Outcome (Unit {0})
  unfolding new_backend start_smtp
  start_punto_ricezione s =
      start_smtp s.smtp_address s.config.domain
        (new_backend (some s.signer) (some s.store) s.config.domain)

  unfoldable pub start_punto_consegna : PuntoConsegnaServer → Outcome (Unit {0})
  unfolding new_imap_backend start_imap_with_tls
  start_punto_consegna s =
      start_imap_with_tls s.imap_address
        (new_imap_backend s.store (some s.certificate) (some s.private_key))
