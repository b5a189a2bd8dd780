-- ===== src/Cron.antt =====
-- The cron expressions of hub/scheduler.py: `parse_cron_field` and `compute_next_cron_run`.
pub mod Calendar
pub mod Field
pub mod Search
pub mod Walk
pub mod Skip
pub mod Fair
pub mod Earliest
