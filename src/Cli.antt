-- ===== src/Cli.antt =====
-- cmd/pec/main.go: the command line around pec.Verify.
mod Defs
pub mod Exits
mod Tests
unfoldable pub use Defs.*
