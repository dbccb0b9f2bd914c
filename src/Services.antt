-- ===== src/Services.antt =====
-- The services of internal/service, on the tables of internal/database.
pub mod Result
pub mod Context
pub mod Tables
pub mod Locks
pub mod Users
pub mod Problems
pub mod Contests
pub mod Auth
pub mod Tournaments
mod Examples
