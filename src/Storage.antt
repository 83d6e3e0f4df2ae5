-- ===== src/Storage.antt =====
-- pec-server/internal/storage/in-memory.go: the message store, one mailbox for each user. Every
-- method holds the mutex from its first to its last step, so each is one step on the state.
mod Defs
pub mod Mailboxes
pub mod Uids
pub mod View
pub mod Recipients
mod Tests
unfoldable pub use Defs.*
