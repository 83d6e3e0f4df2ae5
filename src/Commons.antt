-- ===== src/Commons.antt =====
-- pec-server/internal/common/commons.go: what the three servers share.
mod Defs
unfoldable pub use Defs.*
