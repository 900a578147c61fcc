-- ===== src/Postgres.antt =====
-- backend/internal/adapters/postgres: the repositories over the tables that their SQL reads and
-- writes.
pub mod Sessions
pub mod Rows
pub mod Schema
pub mod Queries
pub mod Matching
pub mod Messaging
pub mod Users
pub mod Profiles
