-- ===== src/Domain.antt =====
-- internal/domain: the pure booking rules, over a model of the part of Go's `time` that they use.
pub mod Clock
pub mod Date
pub mod Entity
pub mod Interval
pub mod Errors
pub mod Hours
pub mod Policy
pub mod Assign
pub mod Availability
