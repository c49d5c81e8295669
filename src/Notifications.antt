-- ===== src/Notifications.antt =====
-- The notifications and their delivery by the bot (apps/api/src/modules/notifications and
-- apps/api/src/modules/telegram).
pub mod Schema
pub mod Kept
pub mod Tables
pub mod Delivery
pub mod Outbox
pub mod Worker
pub mod Evolution
pub mod Moves
pub mod DeliveryEvolution
pub mod OutboxEvolution
pub mod Delivered
pub mod Claims
pub mod DeliveryRounds
pub mod WorkerRuns
pub mod Samples
mod Tests
