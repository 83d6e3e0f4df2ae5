-- ===== src/Start.antt =====
-- How the servers of pec-server come to be: configuration, credentials, the three constructors, and
-- what Start hands to the listeners.
mod Credentials
mod Servers
mod Listen
mod Main
pub mod Ends
mod Tests
unfoldable pub use Credentials.*
unfoldable pub use Servers.*
unfoldable pub use Listen.*
unfoldable pub use Main.*
