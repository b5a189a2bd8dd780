-- ===== src/Store.antt =====
-- hub/db.py: the SQLite store of webhook events and tasks. A table is the list of its rows in the
-- order of insertion; every public method holds the lock and commits, so it is one step from a
-- store to the next. SQLite's CURRENT_TIMESTAMP is the argument `now`, in seconds.
pub mod Rows
pub mod Events
pub mod Tasks
pub mod Rehydrate
pub mod Sweep
pub mod Updates
pub mod Cas
pub mod Intake
pub mod Trigger
pub mod Queue
pub mod Logs
pub mod Budget
