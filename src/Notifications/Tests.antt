-- ===== src/Notifications/Tests.antt =====
-- The theorem on a run of the worker at concrete tables: one message is delivered and one is refused.
use jimpitan.Notifications.Schema.{TelegramOutboxProcessingResult}

abbrev one_of_each : TelegramOutboxProcessingResult
one_of_each = record { processed = 2; sent = 1; failed = 1 }
