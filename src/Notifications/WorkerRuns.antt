-- ===== src/Notifications/WorkerRuns.antt =====
-- A run of `processTelegramOutbox`
-- (apps/api/src/modules/telegram/application/telegram.service.ts).
use jimpitan.Base.{ℕ, suc, ◌+◌, ◌-◌, ◌≤◌, String, otherwise, List, ◌≡◌}
use jimpitan.Base.Rows.{length, All}
use jimpitan.Finance.Platform.{Db, Platform}
use jimpitan.Finance.Monad.{ok, Tx, return, ◌>>=◌}
use jimpitan.Notifications.Schema.{
  ProcessTelegramOutboxCommand, TelegramOutboxEventRecord, TelegramOutboxProcessingResult,
  TelegramSendResult,
}
use jimpitan.Notifications.Outbox.{claim_pending_telegram_outbox, recover_stale_telegram_outbox}
use jimpitan.Notifications.Claims.{IsClaimed}
use jimpitan.Notifications.Delivered.{Deliveries}
use jimpitan.Notifications.Worker.{clamped_limit, deliver_events}

module _ (P : Platform) (send : String → String → ℕ → TelegramSendResult) where
  abbrev answer : List TelegramOutboxEventRecord → ℕ × ℕ → Tx TelegramOutboxProcessingResult
  answer events counts =
      return (record { processed = length events; sent = counts.0; failed = counts.1 })

  abbrev finish : List TelegramOutboxEventRecord → Tx TelegramOutboxProcessingResult
  finish events = deliver_events P send events 0 0 >>= answer events

  -- The tables once the stale events are recovered.
  abbrev recovered : ProcessTelegramOutboxCommand → Db → Db
  recovered command s =
      (recover_stale_telegram_outbox P (otherwise command.stale_before (P.now s.tick - 900000))
        (record s { tick = suc s.tick })).1

  -- A run that is answered: the tables after the claims, the claimed events, and their delivery.
  pub record WorkerRun (s : Db) (command : ProcessTelegramOutboxCommand)
      (r : TelegramOutboxProcessingResult) (last : Db) : Type 0 where
    pub claimed : Db
    pub events : List TelegramOutboxEventRecord
    pub claims :
        claim_pending_telegram_outbox P (clamped_limit command.limit) (recovered command s)
        ≡ (ok events, claimed)
    pub processed : r.processed ≡ length events
    pub within_limit : r.processed ≤ clamped_limit command.limit
    pub within_50 : r.processed ≤ 50
    pub in_processing : All (IsClaimed claimed.outbox) events
    pub deliveries :
        Deliveries P send claimed.bindings events claimed.outbox 0 0 last.outbox r.sent r.failed
    pub all_counted : r.sent + r.failed ≡ r.processed
