-- ===== src/Delivery.antt =====
-- The delivery point: pec-server/punto-consegna/{punto-consegna.go,punto-consegna-server.go,main.go}.
pub mod Bodies
pub mod Receipts
pub mod Session
pub mod Route
pub mod Readable
mod Tests
mod ReadableTests
