-- ===== src/Notifications/Samples.antt =====
-- Small tables on which the notification model is run.
use jimpitan.Base.{ℕ, String, true, false, none, some, [], ◌∷◌, leb, if◌then◌else◌}
use jimpitan.Finance.Platform.{Db}
use jimpitan.Finance.Samples.{db_dues}
use jimpitan.Notifications.Schema.{
  NotificationStatus, OutboxStatus, NotificationRow, OutboxRow, BindingRow, telegram,
  ProcessTelegramOutboxCommand, TelegramSendResult, delivered, refused,
}

abbrev pub reminder : String → NotificationStatus → NotificationRow
reminder id status = record {
  id = id;
  rt_id = "rt-5";
  recipient_user_id = some "u-1";
  telegram_account_id = some "ta-1";
  channel = telegram;
  title = "Jimpitan";
  body = "Tonight";
  status = status;
  failure_reason = none;
  sent_at = none;
  failed_at = none;
  read_at = none;
}

abbrev pub event_for : String → String → OutboxRow
event_for id notification_id = record {
  id = id;
  rt_id = some "rt-5";
  event_type = "NOTIFICATION_DELIVERY_REQUESTED";
  aggregate_type = "notification";
  aggregate_id = notification_id;
  dedupe_key = none;
  payload = record {
    notification_id = some notification_id;
    rt_id = some "rt-5";
    channel = some "TELEGRAM";
    telegram_account_id = some "ta-1";
    title = some "Jimpitan";
    body = some "Tonight";
  };
  status = OutboxStatus.pending;
  attempts = 0;
  available_at = 0;
  processed_at = none;
  updated_at = 0;
}

abbrev pub bound_account : BindingRow
bound_account = record {
  rt_id = "rt-5";
  telegram_account_id = "ta-1";
  telegram_user_id = "700";
  is_verified = true;
  is_revoked = false;
  membership_is_active = some true;
  user_is_active = some true;
  resident_is_active = none;
}

abbrev pub db_reminders : Db
db_reminders = record db_dues {
  notifications =
      reminder "n-1" NotificationStatus.pending
      ∷ reminder "n-2" NotificationStatus.sent
      ∷ reminder "n-3" NotificationStatus.pending
      ∷ [];
  outbox = event_for "o-1" "n-1" ∷ event_for "o-2" "n-2" ∷ event_for "o-3" "n-3" ∷ [];
  bindings = bound_account ∷ [];
}

-- The Bot API that takes the first message of a run and refuses the later ones.
abbrev pub first_only : ℕ → String → String → ℕ → TelegramSendResult
first_only at chat_id text now = if leb now at then delivered else refused (some "blocked")

abbrev pub two_at_most : ProcessTelegramOutboxCommand
two_at_most = record { limit = some 2; stale_before = none }
