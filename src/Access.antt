-- ===== src/Access.antt =====
-- pec-server/punto-accesso: the access point, which takes mail from its users.
pub mod Validate
pub mod Envelope
pub mod Notices
pub mod Handler
mod Tests
mod SessionTests
