-- ===== src/Watchdog.antt =====
-- hub/antigravity/watchdog.py, which wakes agent sessions that stalled: what it may wake, the
-- messages that it sends, and the tables of hub/db.py that it keeps.
pub mod Ledger
pub mod Schedules
pub mod Quota
pub mod Eligibility
pub mod Prompts
pub mod Resuscitate
pub mod Concurrent
pub mod Quiet
pub mod Spacing
pub mod Sending
pub mod Restart
pub mod Attempts
pub mod Tries
pub mod Tick
pub mod Lifecycle
pub mod Cooldowns
pub mod Delays
