-- ===== src/Workflow.antt =====
-- Requests that wait for an answer from another room (src/workflows).
pub mod Types
pub mod Schedule
pub mod Row
pub mod Store
pub mod Queries
pub mod Ask
pub mod Open
pub mod Answer
pub mod Poller
pub mod Service
mod Tests
