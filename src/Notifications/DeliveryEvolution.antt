-- ===== src/Notifications/DeliveryEvolution.antt =====
-- The history relation for reading, cancelling, retrying, marking and delivering notifications
-- (apps/api/src/modules/notifications/infrastructure/prisma-notifications.repository.ts, and
-- apps/api/src/modules/telegram).
use jimpitan.Base.{ℕ, String, true, not, ◌&&◌, none, some, is_none, ◌≡◌, refl, arith}
use jimpitan.Finance.Schema.{AuthPrincipal, FinanceRequestMeta}
use jimpitan.Finance.Platform.{Platform}
use jimpitan.Finance.Monad.{
  Error, bad_request, not_found, forbidden, conflict, replay_conflict, approval_gate,
  blocked_mutation, known_request, decimal_error,
}
use jimpitan.Finance.Keeps.{
  Keeps, bind, and_then, option-Keeps, if-Keeps, test-Keeps, return-Keeps, throw-Keeps, gets-Keeps,
  catch-Keeps, transaction-Keeps, retry_from-Keeps,
}
use jimpitan.Finance.Statements.{new_date-Keeps, new_id-Keeps, write_audit-Keeps}
use jimpitan.Notifications.Schema.{NotificationStatus, NotificationRow, MarkDeliveryResultCommand}
use jimpitan.Notifications.Kept.{NotificationKept, stay, move, retrying}
use jimpitan.Notifications.Tables.{same_status, notification_in, is_one_row}
use jimpitan.Notifications.Delivery.{
  own_notification, unread_notification, is_cancellable, can_transition_delivery_status,
  is_replayed_status, with_result, retried, audit_blocked, read_found, mark_as_read,
  mark_all_as_read, update_notification_status, change_status, cancel_found_notification,
  cancel_notification, mark_found, mark_delivery_result, redeliver, retry_failed, retry_found,
  retry_notification_delivery,
}
use jimpitan.Notifications.Evolution.{
  update_notifications-Keeps, create_outbox-Keeps, find_notification-Keeps,
  find_notification_or_throw-Keeps, single_notification-Keeps,
}
use jimpitan.Notifications.Moves.{to_cancelled, to_result, moved_from}

module _ (P : Platform) (rt_id : String) (actor : AuthPrincipal) (meta : FinanceRequestMeta) where
  audit_blocked-Keeps :
      {A : Type 0} (e : Error) → Keeps (audit_blocked P rt_id actor meta {A = A} e)
  unfolding audit_blocked
  audit_blocked-Keeps (blocked_mutation audit message) =
      and_then (write_audit-Keeps P audit) (throw-Keeps _)
  audit_blocked-Keeps (replay_conflict audit message) = throw-Keeps _
  audit_blocked-Keeps (approval_gate audit) = throw-Keeps _
  audit_blocked-Keeps (bad_request m) = throw-Keeps _
  audit_blocked-Keeps (not_found m) = throw-Keeps _
  audit_blocked-Keeps (forbidden m) = throw-Keeps _
  audit_blocked-Keeps (conflict m) = throw-Keeps _
  audit_blocked-Keeps (known_request c m) = throw-Keeps _
  audit_blocked-Keeps decimal_error = throw-Keeps _

  -- A row that is marked as read.
  read-Kept : (at : ℕ) (n : NotificationRow) → NotificationKept n (record n { read_at = some at })
  read-Kept at n = record { same_id = refl; same_tenant = refl; same_recipient = refl; path = stay }

  read_found-Keeps :
      (id user_id : String) (before : NotificationRow)
      → Keeps (read_found P rt_id actor meta id user_id before)
  unfolding read_found
  read_found-Keeps id user_id before =
      if-Keeps (not (is_none before.read_at)) (return-Keeps (some before)) (
        bind (new_date-Keeps P) (λ at.
          bind
            (update_notifications-Keeps P
              (λ n. own_notification rt_id id user_id n && is_none n.read_at)
              (λ n. record n { read_at = some at }) (λ n h. read-Kept at n))
            (λ count. and_then (single_notification-Keeps P count) (
              bind (find_notification_or_throw-Keeps P rt_id id)
                (λ after. and_then (write_audit-Keeps P _) (return-Keeps (some after)))))))

  pub mark_as_read-Keeps :
      (id user_id : String) → Keeps (mark_as_read P rt_id actor meta id user_id)
  unfolding mark_as_read
  mark_as_read-Keeps id user_id = transaction-Keeps P (
      bind (gets-Keeps (λ s. P.find_first (own_notification rt_id id user_id) s.notifications))
        (λ found. option-Keeps found (return-Keeps none) (read_found-Keeps id user_id)))

  pub mark_all_as_read-Keeps :
      (user_id : String) → Keeps (mark_all_as_read P rt_id actor meta user_id)
  unfolding mark_all_as_read
  mark_all_as_read-Keeps user_id = transaction-Keeps P (
      bind (new_date-Keeps P) (λ at.
        bind
          (update_notifications-Keeps P (unread_notification rt_id user_id)
            (λ n. record n { read_at = some at }) (λ n h. read-Kept at n))
          (λ count. and_then (write_audit-Keeps P _) (return-Keeps count))))

  change_status-Keeps :
      (id : String) (expected : NotificationStatus) (change : NotificationRow → NotificationRow)
      (action : String)
      → ((n : NotificationRow)
          → notification_in rt_id id expected n ≡ true
          → NotificationKept n (change n))
      → Keeps (change_status P rt_id actor meta id expected change action)
  unfolding change_status update_notification_status
  change_status-Keeps id expected change action step =
      bind
        (bind (update_notifications-Keeps P (notification_in rt_id id expected) change step)
          (λ count.
            and_then (single_notification-Keeps P count)
              (find_notification_or_throw-Keeps P rt_id id)))
        (λ after. and_then (write_audit-Keeps P _) (return-Keeps (some after)))

  cancel_found-Keeps :
      (id reason : String) (before : NotificationRow)
      → Keeps (cancel_found_notification P rt_id actor meta id reason before)
  unfolding cancel_found_notification
  cancel_found-Keeps id reason before =
      if-Keeps (same_status before.status NotificationStatus.sent) (throw-Keeps _) (
        if-Keeps (same_status before.status NotificationStatus.cancelled)
          (return-Keeps (some before))
          (test-Keeps (not (is_cancellable before.status)) (λ _. throw-Keeps _)
            (λ may.
              change_status-Keeps id before.status
                (λ n. record n {
                  status = NotificationStatus.cancelled;
                  failure_reason = some reason;
                })
                "NOTIFICATION_CANCELLED"
                (λ n h.
                  moved_from n
                    (record n {
                      status = NotificationStatus.cancelled;
                      failure_reason = some reason;
                    })
                    before.status refl refl refl (ground arith)
                    (to_cancelled before.status (ground arith))))))

  pub cancel_notification-Keeps :
      (id reason : String) → Keeps (cancel_notification P rt_id actor meta id reason)
  unfolding cancel_notification
  cancel_notification-Keeps id reason =
      catch-Keeps
        (transaction-Keeps P (
          bind (find_notification-Keeps P rt_id id)
            (λ found. option-Keeps found (return-Keeps none) (cancel_found-Keeps id reason))))
        audit_blocked-Keeps

  mark_found-Keeps :
      (id : String) (command : MarkDeliveryResultCommand) (before : NotificationRow)
      → Keeps (mark_found P rt_id actor meta id command before)
  unfolding mark_found
  mark_found-Keeps id command before =
      if-Keeps (is_replayed_status before.status command.status)
        (and_then (write_audit-Keeps P _) (return-Keeps (some before)))
        (test-Keeps (not (can_transition_delivery_status before.status command.status))
          (λ _. throw-Keeps _)
          (λ may. bind (new_date-Keeps P) (λ now.
            change_status-Keeps id before.status (with_result before command now)
              "NOTIFICATION_DELIVERY_STATUS_CHANGED"
              (λ n h.
                moved_from n (with_result before command now n) before.status refl refl refl
                  (ground arith) (to_result before.status command.status (ground arith))))))

  pub mark_delivery_result-Keeps :
      (id : String) (command : MarkDeliveryResultCommand)
      → Keeps (mark_delivery_result P rt_id actor meta id command)
  unfolding mark_delivery_result
  mark_delivery_result-Keeps id command =
      catch-Keeps
        (transaction-Keeps P (
          bind (find_notification-Keeps P rt_id id)
            (λ found. option-Keeps found (return-Keeps none) (mark_found-Keeps id command))))
        audit_blocked-Keeps

  redeliver-Keeps : (id : String) → Keeps (redeliver P rt_id actor meta id)
  unfolding redeliver
  redeliver-Keeps id = bind (find_notification_or_throw-Keeps P rt_id id) (λ after.
      bind (new_id-Keeps P) (λ key. bind (new_id-Keeps P) (λ event_id.
        bind (new_date-Keeps P) (λ now.
          and_then (create_outbox-Keeps P _)
            (and_then (write_audit-Keeps P _) (return-Keeps (some after)))))))

  retry_failed-Keeps : (id : String) (count : ℕ) → Keeps (retry_failed P rt_id actor meta id count)
  unfolding retry_failed
  retry_failed-Keeps id count = if-Keeps (is_one_row count) (redeliver-Keeps id) (
      bind (find_notification-Keeps P rt_id id) (λ current.
        option-Keeps current (and_then (single_notification-Keeps P count) (redeliver-Keeps id))
          (λ row.
            if-Keeps (same_status row.status NotificationStatus.pending)
              (and_then (write_audit-Keeps P _) (return-Keeps (some row)))
              (and_then (single_notification-Keeps P count) (redeliver-Keeps id)))))

  retry_found-Keeps :
      (id : String) (before : NotificationRow) → Keeps (retry_found P rt_id actor meta id before)
  unfolding retry_found
  retry_found-Keeps id before =
      if-Keeps (same_status before.status NotificationStatus.pending)
        (and_then (write_audit-Keeps P _) (return-Keeps (some before)))
        (if-Keeps (not (same_status before.status NotificationStatus.failed)) (throw-Keeps _) (
          bind
            (update_notifications-Keeps P (notification_in rt_id id NotificationStatus.failed)
              retried
              (λ n h.
                moved_from n (retried n) NotificationStatus.failed refl refl refl (ground arith)
                  (move retrying stay)))
            (retry_failed-Keeps id)))

  pub retry_notification_delivery-Keeps :
      (id : String) → Keeps (retry_notification_delivery P rt_id actor meta id)
  unfolding retry_notification_delivery
  retry_notification_delivery-Keeps id =
      catch-Keeps
        (retry_from-Keeps _ _
          (transaction-Keeps P (
            bind (find_notification-Keeps P rt_id id)
              (λ found. option-Keeps found (return-Keeps none) (retry_found-Keeps id))))
          3)
        audit_blocked-Keeps
