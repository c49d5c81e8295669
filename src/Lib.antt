-- ===== src/Lib.antt =====
-- A model of the core of jimpitan, an application for the dues that a neighbourhood collects from
-- its houses: the finance repository, which keeps transactions, cash accounts and their ledgers;
-- the collection repository, whose validated collections are posted to finance; the approval
-- repository, whose decisions the posting of an expense asks for; and the notifications, which the
-- bot's worker delivers from an outbox. They share the tables of one database.
--
-- The parts:
-- - Base: names passed on, integers over the native ℕ, tables as lists of rows (Base/Rows, Base/Keys),
--   and the relation of an earlier table to a later one (Base/Kept).
-- - Finance (apps/api/src/modules/finance/infrastructure/prisma-finance.repository.ts).
--   Finance/Schema has the rows and commands, Finance/Platform the interface to what is outside:
--   the Prisma client with PostgreSQL, decimal.js, the clock and identifiers. Its laws say what their
--   documentation says, and Finance/Platform/Memory is an instance that runs. Finance/Monad has
--   statements that may throw, `$transaction` and try/catch. Finance/Tables has the single statements;
--   Finance/Guards the checks of a posting; Finance/Retry withSerializableRetry and the tests of
--   errors; Finance/Posting postTransaction and appendLedgerForTransaction; Finance/Lifecycle
--   validateTransaction, rejectTransaction and voidDraftTransaction; Finance/Drafts createIncomeDraft
--   and createExpenseDraft; Finance/Accounts the cash accounts and categories; Finance/Collections and
--   Finance/CollectionPosting postValidatedCollection; Finance/Service the requests of
--   application/finance-transactions.service.ts that call no hook.
-- - Jimpitan (apps/api/src/modules/jimpitan/infrastructure/prisma-jimpitan.repository.ts).
--   Jimpitan/Mode has the contracts of the collection modes (domain/collection-mode.types.ts,
--   application/collection-mode.policy.ts); Jimpitan/Tables the statements and checks;
--   Jimpitan/Collections createCollection, updateCollection, startCollection and cancelCollection;
--   Jimpitan/Workflow upsertCollectionItems; Jimpitan/Review setBulkCollectionTotal,
--   submitCollection, validateCollection and rejectCollection; Jimpitan/Checklist getChecklist and
--   generateChecklist; Jimpitan/Summary getCollectionSummary and getOutstandingHouses;
--   Jimpitan/Service the requests of application/jimpitan.service.ts that an officer makes.
-- - Approvals (apps/api/src/modules/approvals/infrastructure/prisma-approvals.repository.ts).
--   Approvals/Schema has the policy and the commands; Approvals/State toApprovalState;
--   Approvals/Tables the statements and checks; Approvals/Assignment requestApprovals and
--   findEligibleApprovers; Approvals/Decision decideApproval and cancelApproval.
-- - Notifications (apps/api/src/modules/notifications/infrastructure/prisma-notifications.repository.ts,
--   apps/api/src/modules/telegram/infrastructure/prisma-telegram.repository.ts and
--   apps/api/src/modules/telegram/application/telegram.service.ts). Notifications/Tables has the
--   statements; Notifications/Delivery markAsRead, markAllAsRead, cancelNotification,
--   markDeliveryResult and retryNotificationDelivery; Notifications/Outbox claiming, recovering,
--   completing and failing an event; Notifications/Worker processTelegramOutbox.
-- - Requests: the operations of all as one data type, and sequences of them by any tenants.
--
-- The proofs: Finance/Chain and Finance/Consistent say what a correct ledger is; Finance/Books what
-- a transaction and its retries leave of a body's writes, and Finance/Rounds how often they run it;
-- Finance/Post and its children are about the ends of a posting, Finance/CollectionBooks about
-- those of a posted collection; Finance/CollectionPosted, Finance/CollectionAnswers and
-- Finance/CollectionOnce show that an answered request leaves the collection posted, and Requests/Once
-- that it stays so. Finance/DraftReplay is about the replay of a draft and
-- Finance/DraftInputs about the drafts that are let through. Approvals/Status describes the derived
-- status and Approvals/Gate compares it with the check of the posting; Approvals/Decided and
-- Approvals/Assigned with Approvals/Requested are about the ends of a decision and of a request for
-- approval. Jimpitan/Officers is about who may change a collection, Jimpitan/Counts compares a
-- summary with counts of the route, Jimpitan/Pages puts the pages of a listing together, and
-- Notifications/WorkerRuns describes a run of the worker, from what claiming leaves
-- (Notifications/Claims) and what delivery leaves (Notifications/Delivered,
-- Notifications/DeliveryRounds). Finance/History relates an
-- earlier state of the tables to a later one; Finance/Keeps, Finance/Statements, Finance/Evolution,
-- Finance/AccountEvolution, Finance/CollectionEvolution, Jimpitan/Keeps, Jimpitan/Moves,
-- Jimpitan/Evolution, Jimpitan/Edits, Approvals/Evolution, Notifications/Kept, Notifications/Moves,
-- Notifications/Evolution, Notifications/DeliveryEvolution and Notifications/OutboxEvolution go
-- through the operations with it, and Requests/Traces through sequences of requests.
--
-- Conventions. A table is the list of its rows, the last written first. Amounts are integers in
-- cents, as NUMERIC(14, 2) stores them. The engine may abort any serializable transaction at its
-- commit; two transactions that both commit are in some order, so a request runs from one state to
-- the next. The loop of withSerializableRetry is a recursion on the three attempts that the code
-- allows. An answer is the row itself: the mapping of columns to the fields of a response, the
-- before and after snapshots of the audit log and sort orders (also that of candidates for approval
-- or for delivery by their time of creation) are left out. A run of the worker is one sequence of
-- statements; what the Bot API answers to a text at an instant is a function, and a text is cut by
-- its characters. The dates of transactions and collections are texts, where toDate throws on one
-- that is no date. Amounts have no bound, where the columns refuse more than fourteen digits. What a
-- where clause asks of the status and the deletion mark of a membership and its user, or of an area,
-- is one Boolean of the row. A limit of a page is at least 1, as its DTO asks, wherever a theorem
-- says so.
--
-- Not modelled: the controllers and, but for the requests that call no hook, the services before
-- the repositories, the list queries, updatePolicy and the normalization of a policy,
-- createNotifications and its recipients, the webhook, the commands and the sessions of the bot,
-- the database triggers, and all other modules.
pub mod Base
pub mod Finance
pub mod Jimpitan
pub mod Approvals
pub mod Notifications
pub mod Requests
