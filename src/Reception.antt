-- ===== src/Reception.antt =====
-- The reception point: pec-server/punto-ricezione/punto-ricezione.go.
pub mod Checks
pub mod Network
pub mod Anomaly
pub mod Takeover
pub mod Handler
mod Tests
