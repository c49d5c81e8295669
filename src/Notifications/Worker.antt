-- ===== src/Notifications/Worker.antt =====
-- The delivery of claimed events: `processTelegramOutbox` of
-- apps/api/src/modules/telegram/application/telegram.service.ts. What the Bot API answers to a message
-- at an instant is a parameter.
use Prim.Native.String.{◌++◌ as ◌<>◌}
use jimpitan.Base.{
  ℕ, ◌+◌, ◌-◌, String, Option, none, some, otherwise, List, [], ◌∷◌, leb, given, if◌then◌else◌,
}
use jimpitan.Base.Rows.{length}
use jimpitan.Finance.Platform.{Platform}
use jimpitan.Finance.Monad.{Tx, ok, return, next_tick, ◌>>=◌, ◌>>◌}
use jimpitan.Finance.Tables.{new_date}
use jimpitan.Notifications.Schema.{
  ProcessTelegramOutboxCommand, TelegramOutboxEventRecord, TelegramOutboxProcessingResult,
  TelegramSendResult, delivered, refused,
}
use jimpitan.Notifications.Outbox.{
  claim_pending_telegram_outbox, recover_stale_telegram_outbox, find_chat_for_telegram_account,
  complete_telegram_outbox, fail_telegram_outbox,
}

abbrev pub min : ℕ → ℕ → ℕ
min a b = if leb a b then a else b

abbrev pub max : ℕ → ℕ → ℕ
max a b = if leb a b then b else a

abbrev pub clamped_limit : Option ℕ → ℕ
clamped_limit limit = min (max (otherwise limit 20) 1) 50

abbrev pub format_notification : String → String → String
format_notification title body = title <> "\n" <> body

module _ (P : Platform) (send : String → String → ℕ → TelegramSendResult) where
  -- `safeSendMessage`
  unfoldable pub safe_send_message : String → String → Tx TelegramSendResult
  safe_send_message chat_id text s = (ok (send chat_id text (P.now s.tick)), next_tick s)

  -- One round of the loop, with the counts of sent and failed events.
  unfoldable pub deliver_event : TelegramOutboxEventRecord → ℕ → ℕ → Tx (ℕ × ℕ)
  deliver_event e sent failed = do
    chat ← find_chat_for_telegram_account P e.rt_id e.telegram_account_id
    elim (given chat) [
      | none ↦ do
        fail_telegram_outbox P e.id e.notification_id "Verified Telegram chat was not found."
        return (sent, failed + 1)
      | some chat_id ↦ do
        result ← safe_send_message chat_id (format_notification e.title e.body)
        elim result [
          | delivered ↦ do
            complete_telegram_outbox P e.id e.notification_id
            return (sent + 1, failed)
          | refused message ↦ do
            fail_telegram_outbox P e.id e.notification_id
                (otherwise message "Telegram send failed.")
            return (sent, failed + 1)
        ]
    ]

  -- for (const event of events)
  unfoldable pub deliver_events : List TelegramOutboxEventRecord → ℕ → ℕ → Tx (ℕ × ℕ)
  deliver_events [] sent failed = return (sent, failed)
  deliver_events (e ∷ rest) sent failed = do
    counts ← deliver_event e sent failed
    deliver_events rest (counts.0) (counts.1)

  unfoldable pub process_telegram_outbox :
      ProcessTelegramOutboxCommand → Tx TelegramOutboxProcessingResult
  process_telegram_outbox command = do
    now ← new_date P
    recover_stale_telegram_outbox P (otherwise command.stale_before (now - 900000))
    events ← claim_pending_telegram_outbox P (clamped_limit command.limit)
    counts ← deliver_events events 0 0
    return (record { processed = length events; sent = counts.0; failed = counts.1 })
