-- ===== src/Announcement.antt =====
-- An announcement to all rooms of dealers: who wrote it confirms it, one person approves it, and then
-- it is sent to each room (src/announcements).
pub mod Types
pub mod Store
pub mod Queries
pub mod Drafts
pub mod Notices
pub mod Service
pub mod Poller
pub mod Actions
mod Tests
