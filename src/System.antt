-- ===== src/System.antt =====
-- The shared Redis store, and the supervision of accounts: modules/system and sync_scheduler.py.
pub mod Redis
pub mod Freshness
pub mod Alerts
pub mod Scheduler
pub mod Worker
pub mod MicrosoftWorker
