-- ===== src/Broadcast.antt =====
-- The egress side of a message (src/broadcast).
pub mod Limits
pub mod Split
mod Tests
