-- ===== src/Imap.antt =====
-- pec-server/internal/common/imap-server.go: the IMAP server's view of the message store, that is
-- the login, the one mailbox of each user, what can be read from it, and the update channels.
mod Library
mod Login
mod Fetch
mod Updates
mod Server
pub mod Passwords
pub mod Keys
pub mod Copies
pub mod Listing
pub mod Counts
pub mod Listeners
pub mod Wakeup
mod Tests
mod ChannelTests
pub use Library.*
unfoldable pub use Login.*
unfoldable pub use Fetch.*
unfoldable pub use Updates.*
unfoldable pub use Server.*
