-- ===== src/Signer.antt =====
-- pec-server/internal/common/signer.go: S/MIME messages around a PKCS #7 signature.
mod Defs
pub mod Lines
mod Tests
unfoldable pub use Defs.*
