-- ===== src/Requests.antt =====
-- The requests of the repositories (apps/api/src/modules/finance, apps/api/src/modules/jimpitan,
-- apps/api/src/modules/approvals and apps/api/src/modules/notifications) and the runs of the bot's worker
-- (apps/api/src/modules/telegram) as one data type, and sequences of them.
pub mod Traces
pub mod Once
mod Tests
mod OnceTests
use jimpitan.Base.{ℕ, String, Option, List, [], ◌∷◌}
use jimpitan.Finance.Schema.{
  AuthPrincipal, FinanceRequestMeta, CreateFinanceTransactionCommand,
  PostValidatedCollectionCommand,
}
use jimpitan.Jimpitan.Schema.{
  CollectionItemCommand, CreateCollectionCommand, UpdateCollectionCommand,
  SetBulkCollectionTotalCommand,
}
use jimpitan.Finance.Platform.{Db, Platform}
use jimpitan.Finance.Posting.{post_transaction}
use jimpitan.Finance.Lifecycle.{validate_transaction, reject_transaction, void_draft_transaction}
use jimpitan.Finance.CollectionPosting.{post_validated_collection}
use jimpitan.Finance.Accounts.{
  CreateCashAccountCommand, UpdateCashAccountCommand, CreateTransactionCategoryCommand,
  UpdateTransactionCategoryCommand, create_cash_account, update_cash_account, archive_cash_account,
  create_transaction_category, update_category, archive_category,
}
use jimpitan.Finance.Drafts.{create_income_draft, create_expense_draft}
use jimpitan.Jimpitan.Collections.{
  create_collection, update_collection, start_collection, cancel_collection,
}
use jimpitan.Jimpitan.Checklist.{generate_checklist}
use jimpitan.Jimpitan.Workflow.{upsert_collection_items}
use jimpitan.Jimpitan.Review.{
  set_bulk_collection_total, submit_collection, validate_collection, reject_collection,
}
use jimpitan.Approvals.Schema.{
  ApprovalPolicy, RequestExpenseApprovalCommand, DecideExpenseApprovalCommand,
}
use jimpitan.Approvals.Assignment.{request_approvals}
use jimpitan.Approvals.Decision.{decide_approval, cancel_approval}
use jimpitan.Notifications.Schema.{
  MarkDeliveryResultCommand, ProcessTelegramOutboxCommand, TelegramSendResult,
}
use jimpitan.Notifications.Delivery.{
  mark_as_read, mark_all_as_read, cancel_notification, mark_delivery_result,
  retry_notification_delivery,
}
use jimpitan.Notifications.Worker.{process_telegram_outbox}

-- A call of a repository port, for a row by its identifier, or a run of the worker, for which the Bot
-- API answers as the function says.
pub data Request : Type 0 where
  validating : String → Option String → Request
  rejecting : String → String → Request
  voiding : String → Request
  posting : String → Option String → Request
  drafting_income : CreateFinanceTransactionCommand → Request
  drafting_expense : CreateFinanceTransactionCommand → Request
  creating_account : CreateCashAccountCommand → Request
  updating_account : String → UpdateCashAccountCommand → Request
  archiving_account : String → Request
  creating_category : CreateTransactionCategoryCommand → Request
  updating_category : String → UpdateTransactionCategoryCommand → Request
  archiving_category : String → Request
  posting_collection : PostValidatedCollectionCommand → Request
  creating_collection : CreateCollectionCommand → Request
  updating_collection : String → UpdateCollectionCommand → Request
  starting_collection : String → Request
  upserting_items : String → List CollectionItemCommand → Request
  setting_total : String → SetBulkCollectionTotalCommand → Request
  submitting_collection : String → String → Request
  validating_collection : String → Option String → Request
  rejecting_collection : String → String → Request
  cancelling_collection : String → String → Request
  generating_checklist : String → Request
  asking_approval : String → RequestExpenseApprovalCommand → ApprovalPolicy → Request
  deciding_approval : String → DecideExpenseApprovalCommand → ApprovalPolicy → Request
  cancelling_approval : String → String → Request
  marking_read : String → String → Request
  marking_all_read : String → Request
  cancelling_notification : String → String → Request
  marking_delivery : String → MarkDeliveryResultCommand → Request
  retrying_delivery : String → Request
  processing_outbox :
      (String → String → ℕ → TelegramSendResult) → ProcessTelegramOutboxCommand → Request

pub record Call : Type 0 where
  pub rt_id : String
  pub actor : AuthPrincipal
  pub meta : FinanceRequestMeta
  pub request : Request

-- The tables after a request, whether it is answered or refused.
unfoldable pub serve : Platform → String → AuthPrincipal → FinanceRequestMeta → Request → Db → Db
serve P rt actor meta (validating id remark) s =
    (validate_transaction P rt id remark actor meta s).1
serve P rt actor meta (rejecting id reason) s = (reject_transaction P rt id reason actor meta s).1
serve P rt actor meta (voiding id) s = (void_draft_transaction P rt id actor meta s).1
serve P rt actor meta (posting id key) s = (post_transaction P rt id key actor meta s).1
serve P rt actor meta (drafting_income command) s =
    (create_income_draft P rt command actor meta s).1
serve P rt actor meta (drafting_expense command) s =
    (create_expense_draft P rt command actor meta s).1
serve P rt actor meta (creating_account command) s =
    (create_cash_account P rt command actor meta s).1
serve P rt actor meta (updating_account id command) s =
    (update_cash_account P rt id command actor meta s).1
serve P rt actor meta (archiving_account id) s = (archive_cash_account P rt id actor meta s).1
serve P rt actor meta (creating_category command) s =
    (create_transaction_category P rt command actor meta s).1
serve P rt actor meta (updating_category id command) s =
    (update_category P rt id command actor meta s).1
serve P rt actor meta (archiving_category id) s = (archive_category P rt id actor meta s).1
serve P rt actor meta (posting_collection command) s =
    (post_validated_collection P rt command actor meta s).1
serve P rt actor meta (creating_collection input) s = (create_collection P rt input actor meta s).1
serve P rt actor meta (updating_collection id input) s =
    (update_collection P rt id input actor meta s).1
serve P rt actor meta (starting_collection id) s = (start_collection P rt id actor meta s).1
serve P rt actor meta (upserting_items id items) s =
    (upsert_collection_items P rt id items actor meta s).1
serve P rt actor meta (setting_total id input) s =
    (set_bulk_collection_total P rt id input actor meta s).1
serve P rt actor meta (submitting_collection id key) s =
    (submit_collection P rt id key actor meta s).1
serve P rt actor meta (validating_collection id remark) s =
    (validate_collection P rt id remark actor meta s).1
serve P rt actor meta (rejecting_collection id reason) s =
    (reject_collection P rt id reason actor meta s).1
serve P rt actor meta (cancelling_collection id reason) s =
    (cancel_collection P rt id reason actor meta s).1
serve P rt actor meta (generating_checklist id) s = (generate_checklist P rt id actor meta s).1
serve P rt actor meta (asking_approval id command policy) s =
    (request_approvals P rt id command actor policy meta s).1
serve P rt actor meta (deciding_approval id command policy) s =
    (decide_approval P rt id command actor policy meta s).1
serve P rt actor meta (cancelling_approval id reason) s =
    (cancel_approval P rt id reason actor meta s).1
serve P rt actor meta (marking_read id user_id) s = (mark_as_read P rt actor meta id user_id s).1
serve P rt actor meta (marking_all_read user_id) s = (mark_all_as_read P rt actor meta user_id s).1
serve P rt actor meta (cancelling_notification id reason) s =
    (cancel_notification P rt actor meta id reason s).1
serve P rt actor meta (marking_delivery id command) s =
    (mark_delivery_result P rt actor meta id command s).1
serve P rt actor meta (retrying_delivery id) s =
    (retry_notification_delivery P rt actor meta id s).1
serve P rt actor meta (processing_outbox send command) s =
    (process_telegram_outbox P send command s).1

-- The tables after a sequence of calls, by any tenants and actors.
unfoldable pub serve_all : Platform → List Call → Db → Db
serve_all P [] s = s
serve_all P (c ∷ calls) s = serve_all P calls (serve P c.rt_id c.actor c.meta c.request s)
