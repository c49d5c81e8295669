-- ===== src/Jimpitan.antt =====
-- The collection module of the API (apps/api/src/modules/jimpitan).
pub mod Schema
pub mod Mode
pub mod Tables
pub mod Collections
pub mod Workflow
pub mod Review
pub mod Keeps
pub mod Moves
pub mod Evolution
pub mod Edits
pub mod Checklist
pub mod Summary
pub mod Service
pub mod Officers
pub mod Pages
pub mod Counts
mod Tests
mod OfficerTests
