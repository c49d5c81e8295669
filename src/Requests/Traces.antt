-- ===== src/Requests/Traces.antt =====
-- Sequences of requests (apps/api/src/modules/finance, apps/api/src/modules/jimpitan,
-- apps/api/src/modules/approvals, apps/api/src/modules/notifications and apps/api/src/modules/telegram).
use jimpitan.Base.{List, [], ◌∷◌, String, ◌≡◌}
use jimpitan.Base.Kept.{Kept}
use jimpitan.Finance.Schema.{LedgerRow, AuthPrincipal, FinanceRequestMeta}
use jimpitan.Finance.Platform.{Db, Platform}
use jimpitan.Finance.History.{
  TransactionKept, CollectionKept, ApprovalKept, History, History-refl, History-trans,
}
use jimpitan.Finance.Evolution.{
  validate_transaction-Keeps, reject_transaction-Keeps, void_draft_transaction-Keeps,
  post_transaction-Keeps,
}
use jimpitan.Finance.AccountEvolution.{
  create_income_draft-Keeps, create_expense_draft-Keeps, create_cash_account-Keeps,
  update_cash_account-Keeps, archive_cash_account-Keeps, create_transaction_category-Keeps,
  update_category-Keeps, archive_category-Keeps,
}
use jimpitan.Finance.CollectionEvolution.{post_validated_collection-Keeps}
use jimpitan.Jimpitan.Evolution.{
  start_collection-Keeps, cancel_collection-Keeps, validate_collection-Keeps,
  reject_collection-Keeps, submit_collection-Keeps, generate_checklist-Keeps,
}
use jimpitan.Jimpitan.Edits.{
  create_collection-Keeps, update_collection-Keeps, upsert_collection_items-Keeps,
  set_bulk_collection_total-Keeps,
}
use jimpitan.Approvals.Evolution.{
  request_approvals-Keeps, decide_approval-Keeps, cancel_approval-Keeps,
}
use jimpitan.Notifications.Kept.{NotificationKept, OutboxKept}
use jimpitan.Notifications.DeliveryEvolution.{
  mark_as_read-Keeps, mark_all_as_read-Keeps, cancel_notification-Keeps, mark_delivery_result-Keeps,
  retry_notification_delivery-Keeps,
}
use jimpitan.Notifications.OutboxEvolution.{process_telegram_outbox-Keeps}
use jimpitan.Requests.{
  Request, validating, rejecting, voiding, posting, drafting_income, drafting_expense,
  creating_account, updating_account, archiving_account, creating_category, updating_category,
  archiving_category, posting_collection, creating_collection, updating_collection,
  starting_collection, upserting_items, setting_total, submitting_collection, validating_collection,
  rejecting_collection, cancelling_collection, generating_checklist, asking_approval,
  deciding_approval, cancelling_approval, marking_read, marking_all_read, cancelling_notification,
  marking_delivery, retrying_delivery, processing_outbox, Call, serve, serve_all,
}

module _ (P : Platform) where
  serve-History :
      (rt : String) (actor : AuthPrincipal) (meta : FinanceRequestMeta) (r : Request) (s : Db)
      → History s (serve P rt actor meta r s)
  unfolding serve
  serve-History rt actor meta (validating id remark) =
      (validate_transaction-Keeps P rt actor meta id remark).at
  serve-History rt actor meta (rejecting id reason) =
      (reject_transaction-Keeps P rt actor meta id reason).at
  serve-History rt actor meta (voiding id) = (void_draft_transaction-Keeps P rt actor meta id).at
  serve-History rt actor meta (posting id key) = (post_transaction-Keeps P rt actor meta id key).at
  serve-History rt actor meta (drafting_income command) =
      (create_income_draft-Keeps P rt actor meta command).at
  serve-History rt actor meta (drafting_expense command) =
      (create_expense_draft-Keeps P rt actor meta command).at
  serve-History rt actor meta (creating_account command) =
      (create_cash_account-Keeps P rt actor meta command).at
  serve-History rt actor meta (updating_account id command) =
      (update_cash_account-Keeps P rt actor meta id command).at
  serve-History rt actor meta (archiving_account id) =
      (archive_cash_account-Keeps P rt actor meta id).at
  serve-History rt actor meta (creating_category command) =
      (create_transaction_category-Keeps P rt actor meta command).at
  serve-History rt actor meta (updating_category id command) =
      (update_category-Keeps P rt actor meta id command).at
  serve-History rt actor meta (archiving_category id) =
      (archive_category-Keeps P rt actor meta id).at
  serve-History rt actor meta (posting_collection command) =
      (post_validated_collection-Keeps P rt command actor meta).at
  serve-History rt actor meta (creating_collection input) =
      (create_collection-Keeps P rt input actor meta).at
  serve-History rt actor meta (updating_collection id input) =
      (update_collection-Keeps P rt id actor meta input).at
  serve-History rt actor meta (starting_collection id) =
      (start_collection-Keeps P rt id actor meta).at
  serve-History rt actor meta (upserting_items id items) =
      (upsert_collection_items-Keeps P rt id actor meta items).at
  serve-History rt actor meta (setting_total id input) =
      (set_bulk_collection_total-Keeps P rt id actor meta input).at
  serve-History rt actor meta (submitting_collection id key) =
      (submit_collection-Keeps P rt id actor meta key).at
  serve-History rt actor meta (validating_collection id remark) =
      (validate_collection-Keeps P rt id actor meta remark).at
  serve-History rt actor meta (rejecting_collection id reason) =
      (reject_collection-Keeps P rt id actor meta reason).at
  serve-History rt actor meta (cancelling_collection id reason) =
      (cancel_collection-Keeps P rt id actor meta reason).at
  serve-History rt actor meta (generating_checklist id) =
      (generate_checklist-Keeps P rt id actor meta).at
  serve-History rt actor meta (asking_approval id command policy) =
      (request_approvals-Keeps P rt actor policy meta id command).at
  serve-History rt actor meta (deciding_approval id command policy) =
      (decide_approval-Keeps P rt actor policy meta id command).at
  serve-History rt actor meta (cancelling_approval id reason) =
      (cancel_approval-Keeps P rt actor meta id reason).at
  serve-History rt actor meta (marking_read id user_id) =
      (mark_as_read-Keeps P rt actor meta id user_id).at
  serve-History rt actor meta (marking_all_read user_id) =
      (mark_all_as_read-Keeps P rt actor meta user_id).at
  serve-History rt actor meta (cancelling_notification id reason) =
      (cancel_notification-Keeps P rt actor meta id reason).at
  serve-History rt actor meta (marking_delivery id command) =
      (mark_delivery_result-Keeps P rt actor meta id command).at
  serve-History rt actor meta (retrying_delivery id) =
      (retry_notification_delivery-Keeps P rt actor meta id).at
  serve-History rt actor meta (processing_outbox send command) =
      (process_telegram_outbox-Keeps P send command).at

  trace-History : (calls : List Call) (s : Db) → History s (serve_all P calls s)
  unfolding serve_all
  trace-History [] s = History-refl s
  trace-History (c ∷ calls) s =
      let next = serve P c.rt_id c.actor c.meta c.request s in
      History-trans s next (serve_all P calls next)
        (serve-History c.rt_id c.actor c.meta c.request s) (trace-History calls next)

  -- No sequence of requests loses a ledger row or changes one.
  pub serve_all-ledgers :
      (calls : List Call) (s : Db)
      → Kept (λ (l m : LedgerRow). m ≡ l) s.ledgers (serve_all P calls s).ledgers
  serve_all-ledgers calls s = (trace-History calls s).ledgers

  -- After any sequence of requests each transaction still stands under its identifier and tenant, its
  -- status has moved only by validation, rejection, voiding or posting, and a posted one is unchanged.
  pub serve_all-transactions :
      (calls : List Call) (s : Db)
      → Kept TransactionKept s.transactions (serve_all P calls s).transactions
  serve_all-transactions calls s = (trace-History calls s).transactions

  -- After any sequence of requests each collection still stands under its identifier and tenant, its
  -- status has moved only along the graph of CollectionMove, and a validated one is unchanged.
  pub serve_all-collections :
      (calls : List Call) (s : Db)
      → Kept CollectionKept s.collections (serve_all P calls s).collections
  serve_all-collections calls s = (trace-History calls s).collections

  -- After any sequence of requests each approval still stands under its identifier, tenant,
  -- transaction, requester and approver, and is unchanged or has left PENDING by one approval,
  -- rejection or cancellation; so one that is decided is unchanged.
  pub serve_all-approvals :
      (calls : List Call) (s : Db) → Kept ApprovalKept s.approvals (serve_all P calls s).approvals
  serve_all-approvals calls s = (trace-History calls s).approvals

  -- After any sequence of requests and worker runs each notification still stands under its identifier,
  -- tenant and recipient, and its status has moved only along the graph of NotificationMove, in which
  -- no move leaves SENT or CANCELLED.
  pub serve_all-notifications :
      (calls : List Call) (s : Db)
      → Kept NotificationKept s.notifications (serve_all P calls s).notifications
  serve_all-notifications calls s = (trace-History calls s).notifications

  -- After any sequence of requests and worker runs each outbox event still stands with its identifier,
  -- tenant, aggregate and payload, its attempts have not become fewer, it has left PENDING only by an
  -- attempt more, and one that is processed is unchanged.
  pub serve_all-outbox :
      (calls : List Call) (s : Db) → Kept OutboxKept s.outbox (serve_all P calls s).outbox
  serve_all-outbox calls s = (trace-History calls s).outbox
