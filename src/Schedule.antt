-- ===== src/Schedule.antt =====
-- Scheduled tasks: their rows (hub/db.py) and the scheduler (hub/scheduler.py).
pub mod Rows
pub mod Engine
pub mod Create
pub mod Planning
pub mod Safety
