-- ===== src/Service.antt =====
-- internal/service: the use cases over the ports of the store.
pub mod Ports
pub mod Scheduler
pub mod Keeps
pub mod Ensures
pub mod Selection
pub mod Availability
pub mod Booking
pub mod Instrumentation
