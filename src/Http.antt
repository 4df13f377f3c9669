-- ===== src/Http.antt =====
-- internal/httpapi: requests, handlers, responses and the probes of the router.
pub mod Errors
pub mod Requests
pub mod Responses
pub mod Handlers
pub mod Router
