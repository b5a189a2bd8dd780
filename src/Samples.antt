-- ===== src/Samples.antt =====
-- Concrete inputs for the theorems: requests, stores, queues and schedules of the hub.
pub mod Security
pub mod Store
pub mod Dashboard
pub mod Hub
pub mod Intake
pub mod Schedules
pub mod Ingress
pub mod Cron
pub mod Dispatcher
pub mod Watchdog
pub mod TaskRoutes
pub mod Streams
pub mod Http
