-- ===== src/Observability.antt =====
-- internal/observability: correlation identifiers, the status of a response, and booking counters.
pub mod Logging
pub mod Middleware
pub mod Metrics
