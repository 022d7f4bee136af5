-- ===== src/Broker.antt =====
-- The ingress stream and its consumers (src/broker).
pub mod Replies
pub mod Stream
pub mod Queue
pub mod Actions
mod Tests
