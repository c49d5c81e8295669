-- ===== src/Notifications/Outbox.antt =====
-- The outbox of the bot: `claimPendingTelegramOutbox`, `recoverStaleTelegramOutbox`,
-- `findChatForTelegramAccount`, `completeTelegramOutbox` and `failTelegramOutbox` of
-- apps/api/src/modules/telegram/infrastructure/prisma-telegram.repository.ts.
use jimpitan.Base.{
  ℕ, zero, suc, ◌+◌, ◌*◌, String, ◌==◌, Bool, true, false, not, ◌&&◌, Option, none, some, List, [],
  ◌∷◌, leb, ltb, given, same_text, if◌then◌else◌,
}
use jimpitan.Finance.Schema.{FinanceAuditInput}
use jimpitan.Finance.Platform.{Platform}
use jimpitan.Finance.Monad.{
  bad_request, known_request, other_code, Tx, return, gets, require, transaction, ◌>>=◌,
}
use jimpitan.Finance.Tables.{new_date, write_audit}
use jimpitan.Jimpitan.Summary.{take}
use jimpitan.Notifications.Schema.{
  NotificationStatus, OutboxStatus, NotificationRow, OutboxRow, BindingRow,
  TelegramOutboxEventRecord,
}
use jimpitan.Notifications.Tables.{
  is_telegram, is_deliverable, is_pending_event, is_processing_event, notification_at,
  notification_in, is_one_row, update_notifications, update_outbox,
}

-- What an event that may be claimed names.
pub record Claim : Type 0 where
  pub rt_id : String
  pub notification_id : String
  pub telegram_account_id : String

-- The checks of the event and of its payload.
abbrev pub claimable : OutboxRow → Option Claim
claimable e = elim (given e.rt_id) [
  | none ↦ none
  | some rt ↦ elim (given e.payload.notification_id) [
    | none ↦ none
    | some notification ↦ elim (given e.payload.telegram_account_id) [
      | none ↦ none
      | some account ↦
          if e.aggregate_type == "notification"
            && e.aggregate_id == notification
            && same_text e.payload.channel (some "TELEGRAM")
            && (elim (given e.payload.rt_id) [ none ↦ true | some r ↦ r == rt ])
          then some
              (record { rt_id = rt; notification_id = notification; telegram_account_id = account })
          else none
    ]
  ]
]

-- { eventType, status: PENDING, availableAt: { lte } }
abbrev pub available_event : ℕ → OutboxRow → Bool
available_event now e =
    e.event_type == "NOTIFICATION_DELIVERY_REQUESTED"
    && is_pending_event e.status
    && leb e.available_at now

-- { id, rtId, aggregateType, aggregateId, status: PENDING }
abbrev pub unclaimed_event : String → Claim → OutboxRow → Bool
unclaimed_event id c e =
    e.id == id
    && same_text e.rt_id (some c.rt_id)
    && e.aggregate_type == "notification"
    && e.aggregate_id == c.notification_id
    && is_pending_event e.status

-- { id, aggregateType, aggregateId, status: PROCESSING }
abbrev pub claimed_event : String → String → OutboxRow → Bool
claimed_event id notification_id e =
    e.id == id
    && e.aggregate_type == "notification"
    && e.aggregate_id == notification_id
    && is_processing_event e.status

-- { eventType, status: PROCESSING, updatedAt: { lt } }
abbrev pub stale_event : ℕ → OutboxRow → Bool
stale_event stale_before e =
    e.event_type == "NOTIFICATION_DELIVERY_REQUESTED"
    && is_processing_event e.status
    && ltb e.updated_at stale_before

-- { id, rtId, channel: TELEGRAM, telegramAccountId, status: { in } }
abbrev pub deliverable_notification : Claim → NotificationRow → Bool
deliverable_notification c n =
    notification_at c.rt_id c.notification_id n
    && is_telegram n.channel
    && same_text n.telegram_account_id (some c.telegram_account_id)
    && is_deliverable n.status

-- An event of a notification, by identifier.
abbrev pub event_of : String → String → OutboxRow → Bool
event_of id notification_id e =
    e.id == id && e.aggregate_type == "notification" && e.aggregate_id == notification_id

-- The notification of an event, in the event's tenant and for its account.
abbrev pub event_notification : String → String → OutboxRow → NotificationRow → Bool
event_notification rt_id id e n =
    notification_at rt_id id n
    && is_telegram n.channel
    && (elim (given e.payload.telegram_account_id) [
      | none ↦ true
      | some account ↦ same_text n.telegram_account_id (some account)
    ])

-- The audit entry of a delivery, which has no actor.
abbrev pub delivery_audit : String → NotificationRow → FinanceAuditInput
delivery_audit action n = record {
  rt_id = n.rt_id;
  actor_user_id = none;
  action = action;
  entity_type = "notification";
  entity_id = some n.id;
  meta = record { correlation_id = none; ip_address = none; user_agent = none };
}

-- The binding is verified, not revoked, and who is bound is active.
abbrev pub chat_of : BindingRow → Option String
chat_of b =
    if (elim (b.membership_is_active) [ none ↦ true | some active ↦ active ])
      && (elim (b.user_is_active) [ none ↦ true | some active ↦ active ])
      && (elim (b.resident_is_active) [ none ↦ true | some active ↦ active ])
    then some b.telegram_user_id
    else none

-- !{SENT, CANCELLED}.has(status)
abbrev pub may_fail : NotificationStatus → Bool
may_fail NotificationStatus.sent = false
may_fail NotificationStatus.cancelled = false
may_fail _ = true

-- text.slice(0, n)
abbrev pub clip : ℕ → String → String
clip zero s = ""
clip (suc n) String.[] = ""
clip (suc n) (String.◌∷◌ c s) = String.◌∷◌ c (clip n s)

module _ (P : Platform) where
  -- `stringValue`
  abbrev pub string_value : Option String → Tx String
  string_value t = require (given t) (bad_request "Telegram payload is malformed.")

  -- One round of the loop: nothing where the event is passed over.
  unfoldable pub claim_event : OutboxRow → Tx (Option TelegramOutboxEventRecord)
  claim_event e = elim (claimable e) [
    | none ↦ return none
    | some c ↦ do
      found ← gets (λ s. P.find_first (deliverable_notification c) s.notifications)
      elim found [
        | none ↦ return none
        | some _ ↦ do
          count ←
              update_outbox P (unclaimed_event e.id c)
                (λ r. record r { status = OutboxStatus.processing; attempts = r.attempts + 1 })
          if not (is_one_row count) then return none else do
            title ← string_value e.payload.title
            body ← string_value e.payload.body
            return (
                some (record {
                  id = e.id;
                  rt_id = c.rt_id;
                  notification_id = c.notification_id;
                  telegram_account_id = c.telegram_account_id;
                  title = title;
                  body = body;
                  attempts = e.attempts + 1;
                }))
      ]
  ]

  -- for (const event of candidates), with the number claimed so far
  unfoldable pub claim_events : ℕ → ℕ → List OutboxRow → Tx (List TelegramOutboxEventRecord)
  claim_events limit claimed [] = return []
  claim_events limit claimed (e ∷ rest) =
      if leb limit claimed
      then return []
      else claim_event e >>= λ found. elim found [
        | none ↦ claim_events limit claimed rest
        | some event ↦ claim_events limit (claimed + 1) rest >>= λ events. return (event ∷ events)
      ]

  unfoldable pub claim_pending_telegram_outbox : ℕ → Tx (List TelegramOutboxEventRecord)
  claim_pending_telegram_outbox limit = do
    now ← new_date P
    candidates ← gets (λ s. take (limit * 5) (P.find_many (available_event now) s.outbox))
    claim_events limit 0 candidates

  unfoldable pub recover_stale_telegram_outbox : ℕ → Tx ℕ
  recover_stale_telegram_outbox stale_before = do
    now ← new_date P
    update_outbox P (stale_event stale_before)
        (λ e. record e { status = OutboxStatus.pending; available_at = now })

  unfoldable pub find_chat_for_telegram_account : String → String → Tx (Option String)
  find_chat_for_telegram_account rt_id account_id = gets (λ s.
      elim (P.find_first
        (λ b.
          b.rt_id == rt_id
          && b.telegram_account_id == account_id
          && b.is_verified
          && not b.is_revoked)
        s.bindings) [ none ↦ none | some b ↦ chat_of b ])

  -- After the event is marked: the status of its notification, if that is still open.
  unfoldable pub settle_notification :
      String
      → String
      → (NotificationStatus → Bool)
      → (NotificationRow → NotificationRow)
      → String
      → Tx (Unit {0})
  settle_notification event_id notification_id is_open change action = do
    found ← gets (λ s. P.find_first (event_of event_id notification_id) s.outbox)
    event ← require found (known_request other_code [])
    elim (given event.rt_id) [
      | none ↦ return tt
      | some rt_id ↦ do
        notification ←
            gets
              (λ s. P.find_first (event_notification rt_id notification_id event) s.notifications)
        elim notification [
          | none ↦ return tt
          | some n ↦ if not (is_open n.status) then return tt else do
            count ← update_notifications P (notification_in n.rt_id n.id n.status) change
            if not (is_one_row count) then return tt else write_audit P (delivery_audit action n)
        ]
    ]

  unfoldable pub complete_telegram_outbox : String → String → Tx (Unit {0})
  complete_telegram_outbox event_id notification_id = transaction P (do
    at ← new_date P
    count ←
        update_outbox P (claimed_event event_id notification_id)
          (λ e. record e { status = OutboxStatus.processed; processed_at = some at })
    if not (is_one_row count) then return tt else do
      sent_at ← new_date P
      settle_notification event_id notification_id is_deliverable
          (λ n. record n {
            status = NotificationStatus.sent;
            sent_at = some sent_at;
            failed_at = none;
            failure_reason = none;
          })
          "TELEGRAM_NOTIFICATION_SENT")

  unfoldable pub fail_telegram_outbox : String → String → String → Tx (Unit {0})
  fail_telegram_outbox event_id notification_id failure_reason = transaction P (do
    now ← new_date P
    count ←
        update_outbox P (claimed_event event_id notification_id)
          (λ e. record e { status = OutboxStatus.failed; available_at = now + 300000 })
    if not (is_one_row count) then return tt else do
      failed_at ← new_date P
      settle_notification event_id notification_id may_fail
          (λ n. record n {
            status = NotificationStatus.failed;
            failed_at = some failed_at;
            failure_reason = some (clip 500 failure_reason);
          })
          "TELEGRAM_NOTIFICATION_FAILED")
