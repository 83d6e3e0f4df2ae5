-- ===== src/Pec.antt =====
-- pec: the parser of certified mail, and its verification.
mod Types
mod Defs
mod Verify
pub mod Kind
pub mod Parsing
pub mod Verified
mod Tests
unfoldable pub use Types.*
unfoldable pub use Defs.*
unfoldable pub use Verify.*
