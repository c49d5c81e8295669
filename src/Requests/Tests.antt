-- ===== src/Requests/Tests.antt =====
-- The theorems on sequences of requests at concrete tables.
use jimpitan.Base.{◌≡◌, none, List, [], ◌∷◌}
use jimpitan.Base.Kept.{Kept}
use jimpitan.Finance.Schema.{LedgerRow, ApprovalStatus}
use jimpitan.Finance.History.{TransactionKept, CollectionKept, ApprovalKept}
use jimpitan.Finance.Platform.Memory.{memory}
use jimpitan.Finance.Platform.{Db}
use jimpitan.Finance.Samples.{
  treasurer, no_meta, posted_dues, db_with, earlier_ledger, two_collections,
}
use jimpitan.Notifications.Kept.{NotificationKept, OutboxKept}
use jimpitan.Notifications.Samples.{db_reminders, first_only, two_at_most}
use jimpitan.Requests.{
  Call, Request, posting, rejecting, cancelling_approval, cancelling_collection,
  submitting_collection, cancelling_notification, processing_outbox, serve_all,
}
use jimpitan.Requests.Traces.{
  serve_all-ledgers, serve_all-transactions, serve_all-collections, serve_all-approvals,
  serve_all-notifications, serve_all-outbox,
}

abbrev db_busy : Db
db_busy = record (db_with posted_dues) {
  ledgers = earlier_ledger ∷ [];
  collections = two_collections;
  notifications = db_reminders.notifications;
  outbox = db_reminders.outbox;
  bindings = db_reminders.bindings;
  approvals =
      record {
        id = "a-1";
        rt_id = "rt-5";
        transaction_id = "t-1";
        requested_by_id = "u-1";
        approver_membership_id = "m-2";
        decision_by_id = none;
        idempotency_key = none;
        status = ApprovalStatus.pending;
        reason = none;
        decision_note = none;
        expires_at = none;
        decided_at = none;
      }
      ∷ [];
}

abbrev call_of : Request → Call
call_of r = record { rt_id = "rt-5"; actor = treasurer; meta = no_meta; request = r }

abbrev pub some_calls : List Call
some_calls =
    call_of (posting "t-1" none)
    ∷ call_of (rejecting "t-1" "wrong")
    ∷ call_of (cancelling_collection "c-1" "rain")
    ∷ call_of (submitting_collection "c-2" "s-1")
    ∷ call_of (cancelling_approval "a-1" "late")
    ∷ call_of (processing_outbox (first_only 40) two_at_most)
    ∷ call_of (cancelling_notification "n-3" "moved")
    ∷ []

serve_all-ledgers_example :
    Kept (λ (l m : LedgerRow). m ≡ l) db_busy.ledgers (serve_all memory some_calls db_busy).ledgers
serve_all-ledgers_example = serve_all-ledgers memory some_calls db_busy

serve_all-transactions_example :
    Kept TransactionKept db_busy.transactions (serve_all memory some_calls db_busy).transactions
serve_all-transactions_example = serve_all-transactions memory some_calls db_busy

serve_all-collections_example :
    Kept CollectionKept db_busy.collections (serve_all memory some_calls db_busy).collections
serve_all-collections_example = serve_all-collections memory some_calls db_busy

serve_all-approvals_example :
    Kept ApprovalKept db_busy.approvals (serve_all memory some_calls db_busy).approvals
serve_all-approvals_example = serve_all-approvals memory some_calls db_busy

serve_all-notifications_example :
    Kept NotificationKept db_busy.notifications (serve_all memory some_calls db_busy).notifications
serve_all-notifications_example = serve_all-notifications memory some_calls db_busy

serve_all-outbox_example :
    Kept OutboxKept db_busy.outbox (serve_all memory some_calls db_busy).outbox
serve_all-outbox_example = serve_all-outbox memory some_calls db_busy
