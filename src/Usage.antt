-- ===== src/Usage.antt =====
-- What a room may spend on the language model in a day (src/usage).
pub mod Pricing
pub mod Meter
pub mod Ledger
pub mod Gate
mod Tests
