-- ===== src/Scheduler.antt =====
-- Jobs that run on a cron schedule (src/scheduler).
pub mod Calendar
pub mod Number
pub mod Cron
pub mod Next
pub mod Repo
pub mod Fire
pub mod Poller
mod Tests
