-- ===== src/Worker.antt =====
-- The worker (src/worker): the lock of a room, and the window in which its messages are gathered.
pub mod Burst
pub mod Lock
mod Tests
