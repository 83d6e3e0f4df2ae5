-- ===== src/Registry.antt =====
-- pec-server/internal/storage/database.go and authority_registry.go: the registry of the certified
-- providers in an SQL database.
mod Defs
mod Selections
pub mod Hashes
mod Tests
unfoldable pub use Defs.*
