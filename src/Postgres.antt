-- ===== src/Postgres.antt =====
-- internal/repository/postgres: the store. SQL statements and constraints are functions on tables.
pub mod Schema
pub mod Constraints
pub mod Session
pub mod Lookups
pub mod Schedule
pub mod Insert
pub mod Keys
pub mod Transaction
pub mod Consistency
pub mod Migrate
