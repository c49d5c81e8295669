-- ===== src/Notifications/OutboxEvolution.antt =====
-- The history relation for the outbox of the bot: claiming, recovering, completing and failing an
-- event, and one run of the worker
-- (apps/api/src/modules/telegram/infrastructure/prisma-telegram.repository.ts, and
-- apps/api/src/modules/telegram/application/telegram.service.ts).
use jimpitan.Base.{
  ℕ, ◌+◌, ◌*◌, String, Bool, true, false, not, inl, inr, Option, none, some, List, [], ◌∷◌, leb,
  given, otherwise, ◌≡◌, refl, arith,
}
use jimpitan.Finance.Platform.{Platform}
use jimpitan.Finance.Monad.{bad_request, known_request, other_code, return, next_tick, ◌>>◌}
use jimpitan.Finance.History.{same-History}
use jimpitan.Finance.Keeps.{
  Keeps, bind, and_then, option-Keeps, if-Keeps, test-Keeps, return-Keeps, gets-Keeps,
  require-Keeps, transaction-Keeps,
}
use jimpitan.Finance.Statements.{new_date-Keeps, write_audit-Keeps}
use jimpitan.Jimpitan.Summary.{take}
use jimpitan.Notifications.Schema.{
  NotificationStatus, OutboxStatus, NotificationRow, OutboxRow, ProcessTelegramOutboxCommand,
  TelegramOutboxEventRecord, TelegramSendResult, delivered, refused,
}
use jimpitan.Notifications.Kept.{NotificationKept, OutboxKept, is_processed_event}
use jimpitan.Notifications.Tables.{
  is_pending_event, is_processing_event, is_deliverable, notification_in, is_one_row,
}
use jimpitan.Notifications.Outbox.{
  claimable, available_event, unclaimed_event, deliverable_notification, event_of, delivery_audit,
  may_fail, clip, string_value, claim_event, claim_events, claim_pending_telegram_outbox,
  recover_stale_telegram_outbox, find_chat_for_telegram_account, event_notification,
  settle_notification, complete_telegram_outbox, fail_telegram_outbox,
}
use jimpitan.Notifications.Worker.{
  format_notification, safe_send_message, deliver_event, deliver_events, process_telegram_outbox,
}
use jimpitan.Notifications.Evolution.{update_notifications-Keeps, update_outbox-Keeps}
use jimpitan.Notifications.Moves.{to_sent, to_failed, moved_from}

-- A pending event that is claimed.
claimed-Kept :
    (e f : OutboxRow)
    → f.id ≡ e.id
    → f.rt_id ≡ e.rt_id
    → f.aggregate_id ≡ e.aggregate_id
    → f.payload ≡ e.payload
    → f.attempts ≡ e.attempts + 1
    → is_pending_event e.status ≡ true
    → OutboxKept e f
claimed-Kept e f i r a l n h = record {
  same_id = i;
  same_tenant = r;
  same_aggregate = a;
  same_payload = l;
  attempts = omega arith;
  attempted = inr (inr (omega arith));
  final = inl (pending_is_open e.status h);
}
  where
    pending_is_open : (x : OutboxStatus) → is_pending_event x ≡ true → is_processed_event x ≡ false
    pending_is_open x k = ground arith

-- An event in processing that gets another status.
processed-Kept :
    (e f : OutboxRow)
    → f.id ≡ e.id
    → f.rt_id ≡ e.rt_id
    → f.aggregate_id ≡ e.aggregate_id
    → f.payload ≡ e.payload
    → f.attempts ≡ e.attempts
    → is_processing_event e.status ≡ true
    → OutboxKept e f
processed-Kept e f i r a l n h = record {
  same_id = i;
  same_tenant = r;
  same_aggregate = a;
  same_payload = l;
  attempts = omega arith;
  attempted = inl (ground arith);
  final = inl (ground arith);
}

module _ (P : Platform) where
  string_value-Keeps : (t : Option String) → Keeps (string_value P t)
  string_value-Keeps t = require-Keeps (given t) (bad_request "Telegram payload is malformed.")

  claim_event-Keeps : (e : OutboxRow) → Keeps (claim_event P e)
  unfolding claim_event
  claim_event-Keeps e = option-Keeps (claimable e) (return-Keeps none) (λ c.
      bind (gets-Keeps (λ s. P.find_first (deliverable_notification c) s.notifications)) (λ found.
        option-Keeps found (return-Keeps none) (λ n.
          bind
            (update_outbox-Keeps P (unclaimed_event e.id c)
              (λ r. record r { status = OutboxStatus.processing; attempts = r.attempts + 1 })
              (λ r now h.
                claimed-Kept r
                  (record r {
                    status = OutboxStatus.processing;
                    attempts = r.attempts + 1;
                    updated_at = now;
                  })
                  refl refl refl refl refl (ground arith)))
            (λ count. if-Keeps (not (is_one_row count)) (return-Keeps none) (
              bind (string_value-Keeps e.payload.title) (λ title.
                bind (string_value-Keeps e.payload.body) (λ body. return-Keeps (
                  some (record {
                    id = e.id;
                    rt_id = c.rt_id;
                    notification_id = c.notification_id;
                    telegram_account_id = c.telegram_account_id;
                    title = title;
                    body = body;
                    attempts = e.attempts + 1;
                  })))))))))

  claim_events-Keeps :
      (limit claimed : ℕ) (events : List OutboxRow) → Keeps (claim_events P limit claimed events)
  unfolding claim_events
  claim_events-Keeps limit claimed [] = return-Keeps []
  claim_events-Keeps limit claimed (e ∷ rest) = if-Keeps (leb limit claimed) (return-Keeps []) (
      bind (claim_event-Keeps e) (λ found.
        option-Keeps found (claim_events-Keeps limit claimed rest) (λ event.
          bind (claim_events-Keeps limit (claimed + 1) rest)
            (λ events. return-Keeps (event ∷ events)))))

  claim_pending-Keeps : (limit : ℕ) → Keeps (claim_pending_telegram_outbox P limit)
  unfolding claim_pending_telegram_outbox
  claim_pending-Keeps limit = bind (new_date-Keeps P) (λ now.
      bind (gets-Keeps (λ s. take (limit * 5) (P.find_many (available_event now) s.outbox)))
        (claim_events-Keeps limit 0))

  recover_stale-Keeps : (stale_before : ℕ) → Keeps (recover_stale_telegram_outbox P stale_before)
  unfolding recover_stale_telegram_outbox
  recover_stale-Keeps stale_before = bind (new_date-Keeps P) (λ now.
      update_outbox-Keeps P _ _ (λ e at h.
        processed-Kept e
          (record e { status = OutboxStatus.pending; available_at = now; updated_at = at }) refl
          refl refl refl refl (ground arith)))

  settle_notification-Keeps :
      (event_id notification_id : String) (is_open : NotificationStatus → Bool)
      (change : NotificationRow → NotificationRow) (action : String)
      → ((n m : NotificationRow)
          → is_open n.status ≡ true
          → notification_in n.rt_id n.id n.status m ≡ true
          → NotificationKept m (change m))
      → Keeps (settle_notification P event_id notification_id is_open change action)
  unfolding settle_notification
  settle_notification-Keeps event_id notification_id is_open change action step =
      bind (gets-Keeps (λ s. P.find_first (event_of event_id notification_id) s.outbox)) (λ found.
        bind (require-Keeps found (known_request other_code [])) (λ event.
          option-Keeps (given event.rt_id) (return-Keeps tt) (λ rt_id.
            bind
              (gets-Keeps (λ s.
                P.find_first (event_notification rt_id notification_id event) s.notifications))
              (λ notification. option-Keeps notification (return-Keeps tt) (λ n.
                test-Keeps (not (is_open n.status)) (λ _. return-Keeps tt)
                  (λ may.
                    bind
                      (update_notifications-Keeps P (notification_in n.rt_id n.id n.status) change
                        (λ m h. step n m (ground arith) h))
                      (λ count.
                        if-Keeps (not (is_one_row count)) (return-Keeps tt)
                          (write_audit-Keeps P (delivery_audit action n)))))))))

  complete-Keeps :
      (event_id notification_id : String)
      → Keeps (complete_telegram_outbox P event_id notification_id)
  unfolding complete_telegram_outbox
  complete-Keeps event_id notification_id = transaction-Keeps P (
      bind (new_date-Keeps P) (λ at.
        bind
          (update_outbox-Keeps P _ _ (λ e now h.
            processed-Kept e
              (record e {
                status = OutboxStatus.processed;
                processed_at = some at;
                updated_at = now;
              })
              refl refl refl refl refl (ground arith)))
          (λ count. if-Keeps (not (is_one_row count)) (return-Keeps tt) (
            bind (new_date-Keeps P) (λ sent_at.
              settle_notification-Keeps event_id notification_id is_deliverable _ _ (λ n m may h.
                moved_from m
                  (record m {
                    status = NotificationStatus.sent;
                    sent_at = some sent_at;
                    failed_at = none;
                    failure_reason = none;
                  })
                  n.status refl refl refl (ground arith) (to_sent n.status may)))))))

  fail-Keeps :
      (event_id notification_id failure_reason : String)
      → Keeps (fail_telegram_outbox P event_id notification_id failure_reason)
  unfolding fail_telegram_outbox
  fail-Keeps event_id notification_id failure_reason = transaction-Keeps P (
      bind (new_date-Keeps P) (λ at.
        bind
          (update_outbox-Keeps P _ _ (λ e now h.
            processed-Kept e
              (record e {
                status = OutboxStatus.failed;
                available_at = at + 300000;
                updated_at = now;
              })
              refl refl refl refl refl (ground arith)))
          (λ count. if-Keeps (not (is_one_row count)) (return-Keeps tt) (
            bind (new_date-Keeps P) (λ failed_at.
              settle_notification-Keeps event_id notification_id may_fail _ _ (λ n m may h.
                moved_from m
                  (record m {
                    status = NotificationStatus.failed;
                    failed_at = some failed_at;
                    failure_reason = some (clip 500 failure_reason);
                  })
                  n.status refl refl refl (ground arith) (to_failed n.status may)))))))

  find_chat-Keeps :
      (rt_id account_id : String) → Keeps (find_chat_for_telegram_account P rt_id account_id)
  unfolding find_chat_for_telegram_account
  find_chat-Keeps rt_id account_id = gets-Keeps _

module _ (P : Platform) (send : String → String → ℕ → TelegramSendResult) where
  safe_send_message-Keeps : (chat_id text : String) → Keeps (safe_send_message P send chat_id text)
  unfolding safe_send_message
  safe_send_message-Keeps chat_id text = record {
    at = λ s. same-History s (next_tick s) refl refl refl refl refl refl;
  }

  deliver_event-Keeps :
      (e : TelegramOutboxEventRecord) (sent failed : ℕ) → Keeps (deliver_event P send e sent failed)
  unfolding deliver_event
  deliver_event-Keeps e sent failed =
      bind (find_chat-Keeps P e.rt_id e.telegram_account_id) (λ chat.
        option-Keeps (given chat)
          (and_then (fail-Keeps P e.id e.notification_id "Verified Telegram chat was not found.")
            (return-Keeps (sent, failed + 1)))
          (λ chat_id.
            bind (safe_send_message-Keeps chat_id (format_notification e.title e.body)) (λ result.
              elim result
                as (λ r. Keeps {A = ℕ × ℕ} (elim r [
                  | delivered ↦
                      complete_telegram_outbox P e.id e.notification_id >> return (sent + 1, failed)
                  | refused message ↦
                      fail_telegram_outbox P e.id e.notification_id
                        (otherwise message "Telegram send failed.")
                      >> return (sent, failed + 1)
                ])) [
                  | delivered ↦ and_then (complete-Keeps P _ _) (return-Keeps _)
                  | refused message ↦ and_then (fail-Keeps P _ _ _) (return-Keeps _)
                ])))

  deliver_events-Keeps :
      (events : List TelegramOutboxEventRecord) (sent failed : ℕ)
      → Keeps (deliver_events P send events sent failed)
  unfolding deliver_events
  deliver_events-Keeps [] sent failed = return-Keeps _
  deliver_events-Keeps (e ∷ rest) sent failed =
      bind (deliver_event-Keeps e sent failed)
        (λ counts. deliver_events-Keeps rest (counts.0) (counts.1))

  pub process_telegram_outbox-Keeps :
      (command : ProcessTelegramOutboxCommand) → Keeps (process_telegram_outbox P send command)
  unfolding process_telegram_outbox
  process_telegram_outbox-Keeps command = bind (new_date-Keeps P) (λ now.
      and_then (recover_stale-Keeps P _) (
        bind (claim_pending-Keeps P _)
          (λ events. bind (deliver_events-Keeps events 0 0) (λ counts. return-Keeps _))))
