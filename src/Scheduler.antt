-- ===== src/Scheduler.antt =====
-- The scheduler of conversations (archive/v3/src/mutsumi_sync/scheduler.py).
pub mod Keys
pub mod Service
pub mod Users
pub mod Schedules
pub mod Heartbeats
