-- ===== src/Postgres/Transaction/Answered.antt =====
-- The row of a key after a booking under it.
pub mod Unique
pub mod Locked
pub mod Calls
pub mod Answer
pub mod Retries
