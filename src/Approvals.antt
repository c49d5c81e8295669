-- ===== src/Approvals.antt =====
-- The approval module of the API (apps/api/src/modules/approvals).
pub mod Schema
pub mod State
pub mod Tables
pub mod Assignment
pub mod Decision
pub mod Evolution
pub mod Status
pub mod Gate
pub mod Decided
pub mod Assigned
pub mod Requested
mod Tests
