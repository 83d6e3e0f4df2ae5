-- ===== src/Smtp.antt =====
-- pec-server/internal/common/smtp-server.go: the SMTP session that the access point and the
-- reception point share.
mod Defs
pub mod Gate
pub mod Buffers
mod Tests
unfoldable pub use Defs.*
