-- ===== src/Notifications/Tables.antt =====
-- The statements and tests on notifications and outbox events
-- (apps/api/src/modules/notifications/infrastructure/prisma-notifications.repository.ts, and
-- apps/api/src/modules/telegram/infrastructure/prisma-telegram.repository.ts).
use jimpitan.Base.{ℕ, zero, suc, String, ◌==◌, Bool, true, false, not, ◌&&◌, Option, none, some, []}
use jimpitan.Finance.Platform.{Platform}
use jimpitan.Finance.Monad.{
  bad_request, known_request, p2002, other_code, Tx, ok, err, gets, require, throw_if, next_tick,
  ◌>>=◌,
}
use jimpitan.Notifications.Schema.{
  NotificationStatus, OutboxStatus, NotificationChannel, in_app, telegram, NotificationRow,
  OutboxRow,
}

abbrev pub same_status : NotificationStatus → NotificationStatus → Bool
same_status NotificationStatus.pending NotificationStatus.pending = true
same_status NotificationStatus.queued NotificationStatus.queued = true
same_status NotificationStatus.sent NotificationStatus.sent = true
same_status NotificationStatus.failed NotificationStatus.failed = true
same_status NotificationStatus.cancelled NotificationStatus.cancelled = true
same_status NotificationStatus.read NotificationStatus.read = true
same_status _ _ = false

abbrev pub is_in_app : NotificationChannel → Bool
is_in_app in_app = true
is_in_app _ = false

abbrev pub is_telegram : NotificationChannel → Bool
is_telegram telegram = true
is_telegram _ = false

-- status: { in: [PENDING, QUEUED, FAILED] }
abbrev pub is_deliverable : NotificationStatus → Bool
is_deliverable NotificationStatus.pending = true
is_deliverable NotificationStatus.queued = true
is_deliverable NotificationStatus.failed = true
is_deliverable _ = false

abbrev pub is_pending_event : OutboxStatus → Bool
is_pending_event OutboxStatus.pending = true
is_pending_event _ = false

abbrev pub is_processing_event : OutboxStatus → Bool
is_processing_event OutboxStatus.processing = true
is_processing_event _ = false

-- { id, rtId }
abbrev pub notification_at : String → String → NotificationRow → Bool
notification_at rt_id id n = n.id == id && n.rt_id == rt_id

-- { id, rtId, status }
abbrev pub notification_in : String → String → NotificationStatus → NotificationRow → Bool
notification_in rt_id id status n = notification_at rt_id id n && same_status n.status status

abbrev pub is_one_row : ℕ → Bool
is_one_row (suc zero) = true
is_one_row _ = false

unfoldable pub assert_single_notification : ℕ → Tx (Unit {0})
assert_single_notification count =
    throw_if (not (is_one_row count))
      (bad_request "Notification state changed while processing the request.")

module _ (P : Platform) where
  unfoldable pub find_notification : String → String → Tx (Option NotificationRow)
  find_notification rt_id id = gets (λ s. P.find_first (notification_at rt_id id) s.notifications)

  unfoldable pub find_notification_or_throw : String → String → Tx NotificationRow
  unfolding find_notification
  find_notification_or_throw rt_id id = do
    found ← find_notification rt_id id
    require found (known_request other_code [])

  -- No update of a notification or of an event writes a column of a unique index.
  unfoldable pub update_notifications :
      (NotificationRow → Bool) → (NotificationRow → NotificationRow) → Tx ℕ
  update_notifications p f s = (
    ok (P.update_count p s.notifications),
    record s { notifications = P.update_many p f s.notifications },
  )

  -- An update stamps `updatedAt`.
  unfoldable pub update_outbox : (OutboxRow → Bool) → (OutboxRow → OutboxRow) → Tx ℕ
  update_outbox p f s =
      let stamped = (λ (e : OutboxRow). record (f e) { updated_at = P.now s.tick }) in
      (
        ok (P.update_count p s.outbox),
        record (next_tick s) { outbox = P.update_many p stamped s.outbox },
      )

  unfoldable pub create_outbox : OutboxRow → Tx (Unit {0})
  create_outbox e s =
      let rows = P.create e s.outbox in
      elim (P.outbox_clash rows) [
        | none ↦ (ok tt, record s { outbox = rows })
        | some columns ↦ (err (known_request p2002 columns), s)
      ]
