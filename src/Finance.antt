-- ===== src/Finance.antt =====
-- The finance module of the API (apps/api/src/modules/finance).
pub mod Schema
pub mod Platform
pub mod Monad
pub mod Tables
pub mod Guards
pub mod Retry
pub mod Rounds
pub mod Service
pub mod DraftInputs
pub mod Books
pub mod History
pub mod Keeps
pub mod Statements
pub mod Posting
pub mod Chain
pub mod Consistent
pub mod Post
pub mod Lifecycle
pub mod Accounts
pub mod Collections
pub mod CollectionPosting
pub mod Drafts
pub mod DraftReplay
pub mod AccountEvolution
pub mod Evolution
pub mod CollectionEvolution
pub mod CollectionBooks
pub mod CollectionPosted
pub mod CollectionAnswers
pub mod CollectionOnce
pub mod Samples
mod Tests
mod CollectionTests
mod DraftTests
