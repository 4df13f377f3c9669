-- ===== src/Process.antt =====
-- internal/config and cmd/server: configuration and start-up.
pub mod Config
pub mod Startup
