-- ===== src/Ingress.antt =====
-- hub/routes/webhook.py: the handler of POST /webhook and POST /webhook/{source}. `Check` is what
-- it does before it reads the database, `Handle` what it does with the database, the scheduler and
-- the dispatcher.
pub mod Payload
pub mod Check
pub mod Scheduled
pub mod Handle
pub mod Joined
pub mod Known
pub mod Retry
pub mod Redelivery
pub mod Truth
pub mod Answers
pub mod Trust
