-- ===== src/Notifications/Delivery.antt =====
-- Reading, cancelling, retrying and marking notifications: `markAsRead`, `markAllAsRead`,
-- `cancelNotification`, `retryNotificationDelivery` and `markDeliveryResult` of
-- apps/api/src/modules/notifications/infrastructure/prisma-notifications.repository.ts.
use Prim.Native.String.{◌++◌ as ◌<>◌}
use jimpitan.Base.{
  ℕ, String, ◌==◌, Bool, true, false, not, ◌&&◌, ◌||◌, Option, none, some, is_none, or_else,
  same_text, if◌then◌else◌,
}
use jimpitan.Finance.Schema.{AuthPrincipal, FinanceRequestMeta, FinanceAuditInput}
use jimpitan.Finance.Platform.{Platform}
use jimpitan.Finance.Monad.{
  Error, blocked_mutation, conflict, Tx, return, throw, gets, catch, transaction, ◌>>=◌, ◌>>◌,
}
use jimpitan.Finance.Tables.{audit_entry, new_date, new_id, write_audit}
use jimpitan.Finance.Retry.{retry_from, max_attempts}
use jimpitan.Notifications.Schema.{
  NotificationStatus, OutboxStatus, NotificationChannel, in_app, telegram, email, NotificationRow,
  OutboxRow, MarkDeliveryResultCommand,
}
use jimpitan.Notifications.Tables.{
  same_status, is_in_app, notification_at, notification_in, is_one_row, assert_single_notification,
  find_notification, find_notification_or_throw, update_notifications, create_outbox,
}

abbrev pub channel_text : NotificationChannel → String
channel_text in_app = "IN_APP"
channel_text telegram = "TELEGRAM"
channel_text email = "EMAIL"

-- { id, rtId, recipientUserId, channel: IN_APP }
abbrev pub own_notification : String → String → String → NotificationRow → Bool
own_notification rt_id id user_id n =
    notification_at rt_id id n
    && same_text n.recipient_user_id (some user_id)
    && is_in_app n.channel

-- { rtId, recipientUserId, channel: IN_APP, readAt: null, status: { not: CANCELLED } }
abbrev pub unread_notification : String → String → NotificationRow → Bool
unread_notification rt_id user_id n =
    n.rt_id == rt_id
    && same_text n.recipient_user_id (some user_id)
    && is_in_app n.channel
    && is_none n.read_at
    && not (same_status n.status NotificationStatus.cancelled)

abbrev pub is_cancellable : NotificationStatus → Bool
is_cancellable NotificationStatus.pending = true
is_cancellable NotificationStatus.failed = true
is_cancellable NotificationStatus.queued = true
is_cancellable _ = false

-- `canTransitionDeliveryStatus`
abbrev pub can_transition_delivery_status : NotificationStatus → NotificationStatus → Bool
can_transition_delivery_status NotificationStatus.pending next =
    same_status next NotificationStatus.pending
    || same_status next NotificationStatus.sent
    || same_status next NotificationStatus.failed
    || same_status next NotificationStatus.cancelled
can_transition_delivery_status NotificationStatus.queued next =
    same_status next NotificationStatus.pending
    || same_status next NotificationStatus.sent
    || same_status next NotificationStatus.failed
    || same_status next NotificationStatus.cancelled
can_transition_delivery_status NotificationStatus.failed next =
    same_status next NotificationStatus.failed || same_status next NotificationStatus.cancelled
can_transition_delivery_status NotificationStatus.sent next =
    same_status next NotificationStatus.sent
can_transition_delivery_status NotificationStatus.cancelled next =
    same_status next NotificationStatus.cancelled
can_transition_delivery_status NotificationStatus.read next = false

-- before.status === status, where that is one of SENT, CANCELLED and PENDING.
abbrev pub is_replayed_status : NotificationStatus → NotificationStatus → Bool
is_replayed_status before status =
    same_status before status
    && (same_status before NotificationStatus.sent
        || same_status before NotificationStatus.cancelled
        || same_status before NotificationStatus.pending)

-- The change of `markDeliveryResult`.
abbrev pub with_result :
    NotificationRow → MarkDeliveryResultCommand → ℕ → NotificationRow → NotificationRow
with_result before command now n = record n {
  status = command.status;
  sent_at = if same_status command.status NotificationStatus.sent then some now else before.sent_at;
  failed_at =
      if same_status command.status NotificationStatus.failed then some now else before.failed_at;
  failure_reason =
      if same_status command.status NotificationStatus.failed
        || same_status command.status NotificationStatus.cancelled
      then or_else command.failure_reason before.failure_reason
      else none;
}

abbrev pub retried : NotificationRow → NotificationRow
retried n = record n {
  status = NotificationStatus.pending;
  failure_reason = none;
  failed_at = none;
  sent_at = none;
}

-- The event of `createDeliveryOutbox`.
abbrev pub delivery_event : String → ℕ → String → NotificationRow → OutboxRow
delivery_event id now dedupe_key n = record {
  id = id;
  rt_id = some n.rt_id;
  event_type = "NOTIFICATION_DELIVERY_REQUESTED";
  aggregate_type = "notification";
  aggregate_id = n.id;
  dedupe_key = some dedupe_key;
  payload = record {
    notification_id = some n.id;
    rt_id = some n.rt_id;
    channel = some (channel_text n.channel);
    telegram_account_id = n.telegram_account_id;
    title = some n.title;
    body = some n.body;
  };
  status = OutboxStatus.pending;
  attempts = 0;
  available_at = now;
  processed_at = none;
  updated_at = now;
}

module _ (P : Platform) (rt_id : String) (actor : AuthPrincipal) (meta : FinanceRequestMeta) where
  abbrev notification_audit : String → String → FinanceAuditInput
  notification_audit action id = audit_entry rt_id actor meta action "notification" id

  -- `throwBlockedMutation` throws an error with the audit entry, and `auditBlockedMutation` writes it.
  abbrev blocked : String → Error
  blocked id =
      blocked_mutation (notification_audit "NOTIFICATION_STATUS_TRANSITION_BLOCKED" id)
        "Notification status transition is not allowed."

  unfoldable pub audit_blocked : {A : Type 0} → Error → Tx A
  audit_blocked (blocked_mutation audit message) =
      write_audit P audit >> throw (blocked_mutation audit message)
  audit_blocked e = throw e

  unfoldable pub read_found : String → String → NotificationRow → Tx (Option NotificationRow)
  read_found id user_id before = if not (is_none before.read_at) then return (some before) else do
    at ← new_date P
    count ←
        update_notifications P (λ n. own_notification rt_id id user_id n && is_none n.read_at)
          (λ n. record n { read_at = some at })
    assert_single_notification count
    after ← find_notification_or_throw P rt_id id
    write_audit P (notification_audit "NOTIFICATION_READ" id)
    return (some after)

  unfoldable pub mark_as_read : String → String → Tx (Option NotificationRow)
  mark_as_read id user_id = transaction P (do
    found ← gets (λ s. P.find_first (own_notification rt_id id user_id) s.notifications)
    elim found [ none ↦ return none | some before ↦ read_found id user_id before ])

  unfoldable pub mark_all_as_read : String → Tx ℕ
  mark_all_as_read user_id = transaction P (do
    at ← new_date P
    count ←
        update_notifications P (unread_notification rt_id user_id)
          (λ n. record n { read_at = some at })
    write_audit P (record (notification_audit "NOTIFICATIONS_READ_ALL" "") { entity_id = none })
    return count)

  -- `updateNotificationStatus`
  unfoldable pub update_notification_status :
      String → NotificationStatus → (NotificationRow → NotificationRow) → Tx NotificationRow
  update_notification_status id expected change = do
    count ← update_notifications P (notification_in rt_id id expected) change
    assert_single_notification count
    find_notification_or_throw P rt_id id

  -- A write of a status, with its log.
  unfoldable pub change_status :
      String
      → NotificationStatus
      → (NotificationRow → NotificationRow)
      → String
      → Tx (Option NotificationRow)
  change_status id expected change action = do
    after ← update_notification_status id expected change
    write_audit P (notification_audit action id)
    return (some after)

  -- The status decides, after SENT is refused and CANCELLED is answered as it is.
  unfoldable pub cancel_found_notification :
      String → String → NotificationRow → Tx (Option NotificationRow)
  cancel_found_notification id reason before =
      if same_status before.status NotificationStatus.sent
      then throw (blocked id)
      else (if same_status before.status NotificationStatus.cancelled
          then return (some before)
          else (if not (is_cancellable before.status)
              then throw (blocked id)
              else change_status id before.status
                  (λ n. record n {
                    status = NotificationStatus.cancelled;
                    failure_reason = some reason;
                  })
                  "NOTIFICATION_CANCELLED"))

  abbrev on_notification :
      String → (NotificationRow → Tx (Option NotificationRow)) → Tx (Option NotificationRow)
  on_notification id step = do
    found ← find_notification P rt_id id
    elim found [ none ↦ return none | some before ↦ step before ]

  unfoldable pub cancel_notification : String → String → Tx (Option NotificationRow)
  cancel_notification id reason =
      catch (transaction P (on_notification id (cancel_found_notification id reason))) audit_blocked

  unfoldable pub mark_found :
      String → MarkDeliveryResultCommand → NotificationRow → Tx (Option NotificationRow)
  mark_found id command before =
      if is_replayed_status before.status command.status
      then write_audit P (notification_audit "NOTIFICATION_DELIVERY_STATUS_REPLAYED" id)
        >> return (some before)
      else (if not (can_transition_delivery_status before.status command.status)
          then throw (blocked id)
          else new_date P >>= λ now.
              change_status id before.status (with_result before command now)
                "NOTIFICATION_DELIVERY_STATUS_CHANGED")

  unfoldable pub mark_delivery_result :
      String → MarkDeliveryResultCommand → Tx (Option NotificationRow)
  mark_delivery_result id command =
      catch (transaction P (on_notification id (mark_found id command))) audit_blocked

  -- The retried row with a new event.
  unfoldable pub redeliver : String → Tx (Option NotificationRow)
  redeliver id = do
    after ← find_notification_or_throw P rt_id id
    key ← new_id P
    event_id ← new_id P
    now ← new_date P
    create_outbox P
        (delivery_event event_id now ("notification:" <> after.id <> ":retry:" <> key) after)
    write_audit P (notification_audit "NOTIFICATION_RETRIED" id)
    return (some after)

  -- `retryFailedNotification`, and what follows from its answer.
  unfoldable pub retry_failed : String → ℕ → Tx (Option NotificationRow)
  retry_failed id count = if is_one_row count then redeliver id else do
    current ← find_notification P rt_id id
    elim current [
      | none ↦ assert_single_notification count >> redeliver id
      | some row ↦
          if same_status row.status NotificationStatus.pending
          then write_audit P (notification_audit "NOTIFICATION_RETRY_REPLAYED" id)
            >> return (some row)
          else assert_single_notification count >> redeliver id
    ]

  unfoldable pub retry_found : String → NotificationRow → Tx (Option NotificationRow)
  retry_found id before =
      if same_status before.status NotificationStatus.pending
      then write_audit P (notification_audit "NOTIFICATION_RETRY_REPLAYED" id)
        >> return (some before)
      else (if not (same_status before.status NotificationStatus.failed)
          then throw (blocked id)
          else update_notifications P (notification_in rt_id id NotificationStatus.failed) retried
            >>= retry_failed id)

  unfoldable pub retry_notification_delivery : String → Tx (Option NotificationRow)
  retry_notification_delivery id =
      catch
        (retry_from (conflict "Serializable notification transaction retry budget was exhausted.")
          max_attempts (transaction P (on_notification id (retry_found id))))
        audit_blocked
