-- ===== src/Notifications/Schema.antt =====
-- The rows of the notifications, of the outbox and of the bot's bindings (prisma/schema.prisma), and
-- the commands of apps/api/src/modules/notifications/application/notifications.commands.ts.
use jimpitan.Base.{ℕ, String, Bool, Option}

pub data NotificationStatus : Type 0 where
  pending queued sent failed cancelled read : NotificationStatus

pub data OutboxStatus : Type 0 where
  pending processing processed failed : OutboxStatus

pub data NotificationChannel : Type 0 where
  in_app telegram email : NotificationChannel

pub record NotificationRow : Type 0 where
  pub id : String
  pub rt_id : String
  pub recipient_user_id : Option String
  pub telegram_account_id : Option String
  pub channel : NotificationChannel
  pub title : String
  pub body : String
  pub status : NotificationStatus
  pub failure_reason : Option String
  pub sent_at : Option ℕ
  pub failed_at : Option ℕ
  pub read_at : Option ℕ

-- The fields of the payload's JSON object that the bot reads, where they are texts.
pub record DeliveryPayload : Type 0 where
  pub notification_id : Option String
  pub rt_id : Option String
  pub channel : Option String
  pub telegram_account_id : Option String
  pub title : Option String
  pub body : Option String

pub record OutboxRow : Type 0 where
  pub id : String
  pub rt_id : Option String
  pub event_type : String
  pub aggregate_type : String
  pub aggregate_id : String
  pub dedupe_key : Option String
  pub payload : DeliveryPayload
  pub status : OutboxStatus
  pub attempts : ℕ
  pub available_at : ℕ
  pub processed_at : Option ℕ
  pub updated_at : ℕ

-- `is_revoked` says that the binding or its account is revoked. The last three say whether the bound
-- membership, user or resident is active, where there is one.
pub record BindingRow : Type 0 where
  pub rt_id : String
  pub telegram_account_id : String
  pub telegram_user_id : String
  pub is_verified : Bool
  pub is_revoked : Bool
  pub membership_is_active : Option Bool
  pub user_is_active : Option Bool
  pub resident_is_active : Option Bool

-- The status is one of PENDING, SENT, FAILED and CANCELLED.
pub record MarkDeliveryResultCommand : Type 0 where
  pub status : NotificationStatus
  pub failure_reason : Option String

pub record ProcessTelegramOutboxCommand : Type 0 where
  pub limit : Option ℕ
  pub stale_before : Option ℕ

pub record TelegramOutboxEventRecord : Type 0 where
  pub id : String
  pub rt_id : String
  pub notification_id : String
  pub telegram_account_id : String
  pub title : String
  pub body : String
  pub attempts : ℕ

pub record TelegramOutboxProcessingResult : Type 0 where
  pub processed : ℕ
  pub sent : ℕ
  pub failed : ℕ

-- The answer of the Bot API to a message.
pub data TelegramSendResult : Type 0 where
  delivered : TelegramSendResult
  refused : Option String → TelegramSendResult
