-- ===== src/Lib.antt =====
-- Models and theorems for the certified-mail (PEC) servers and the PEC parser of this repository.
--
-- A user's mail reaches the access point, which checks it, answers with notices and wraps it in a
-- transport envelope; the reception point takes envelopes and receipts from other providers and
-- forwards them to the delivery point; that puts them into mailboxes and makes delivery receipts.
-- The three servers share the SMTP session, the signer and the message store.
--
-- Files and what they model:
-- - Base: texts as lists of bytes, maps, clock layouts, and the outcome of a Go call (a value, an
--   error, or a panic).
-- - Mail: the mail library, which is a parameter.
-- - Storage: pec-server/internal/storage/in-memory.go. `InMemoryStore` has the four maps of the
--   struct; each method is one function on it.
-- - Smtp: pec-server/internal/common/smtp-server.go. A method takes the session and gives the
--   session and the error; `run` is a client's sequence of commands.
-- - Signer: pec-server/internal/common/signer.go.
-- - Commons: pec-server/internal/common/commons.go.
-- - Access: pec-server/punto-accesso/punto-accesso.go (Validate is ValidateEnvelopeAndHeaders,
--   Envelope the transport envelope, Notices the two e-mails, Handler is AccessPointHandler).
-- - Reception: pec-server/punto-ricezione/punto-ricezione.go (Checks, Network for the two
--   forwarding functions, Anomaly, Takeover for the receipt of taking in charge, and Handler).
-- - Delivery: pec-server/punto-consegna (Bodies and Receipts for what is written, Session for
--   PuntoConsegnaSession and ReceiveHandler, Route for the way from Reception to it).
-- - Pec: pec/pec_parser.go, pec/pec.go, pec/utils.go and pec/validate.go.
-- - Imap: pec-server/internal/common/imap-server.go (Login, Fetch for what is read from the store,
--   Updates for the update channels, Server for the mailbox objects next to the store). A listener
--   is one call of ListenUpdates: its two channels and its goroutine, whose steps are functions.
-- - Registry: pec-server/internal/storage/database.go and authority_registry.go. Each SQL text is
--   a function on two tables.
-- - Start: pec-server/internal/common/config.go, LoadSMIMECredentials, the constructors of the three
--   servers, what their methods Start hand to the listeners, and their functions main, whose waiting
--   is a list of what happens.
-- - Cli: cmd/pec/main.go.
-- - Samples and the modules Tests: concrete libraries, and the theorems at concrete inputs.
--
-- Libraries are parameters: go-message (MailLibrary, with what is documented of Get and Set),
-- PKCS #7, X.509 and SHA-1, encoding/xml, mime and multipart, bcrypt, the sequence sets of go-imap,
-- package flag, and the driver of the SQL database, with the choice that LIMIT 1 makes and LIKE (the
-- other SQL is functions on the tables). So are files, readings of the clock, random bytes, what
-- OpenSSL says, the order in which a map is ranged over, and the answers of the network, whose calls
-- are kept in a log.
--
-- Widths and fuel: UIDs, sequence numbers and sizes wrap at 2 ^ 32; the steps of the store's
-- invariant leave out a mailbox whose UIDs are used up. `format_base64` runs on fuel, one more
-- than the bytes of the text, and its theorem shows that this is enough. Other loops are
-- structural.
--
-- Simplified: case folding, ToLower and white space are those of ASCII, so addresses and field values
-- with other letters are compared byte by byte there, and EqualFold is equality of ToLower. The
-- callback that AddMessage starts with `go` runs in the step of the delivery, before anything else.
-- The tables of the registry do not change while a method reads them. Certificate.Verify is taken to
-- fail when the pool of roots is empty, which is all that is used of it.
--
-- Not modelled: the loggers and what is printed; pec-server/internal/storage/cmd/dbtest, a program
-- that prints a registry; and the network below the listeners.
pub mod Base
pub mod Storage
pub mod Mail
pub mod Signer
pub mod Smtp
pub mod Commons
pub mod Access
pub mod Delivery
pub mod Pec
pub mod Imap
pub mod Cli
pub mod Registry
pub mod Start
pub mod Reception
mod Samples
