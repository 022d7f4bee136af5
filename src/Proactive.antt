-- ===== src/Proactive.antt =====
-- Questions that nobody answers: the agent waits, and steps in if nobody else does (src/proactive).
pub mod Pending
pub mod Poller
mod Tests
