-- ===== src/Finance/Tables.antt =====
-- The statements that the finance repository runs, each with its `where` clause as a test of a row:
-- the reads, the writes with the unique indexes of prisma/schema.prisma, and the audit log.
use jimpitan.Base.{
  ℕ, String, ◌==◌, Bool, true, false, ◌&&◌, ◌||◌, Option, none, some, is_none, same_text,
}
use jimpitan.Finance.Schema.{
  TransactionType, income, expense, transfer, adjustment, TransactionStatus, AuthPrincipal,
  FinanceRequestMeta, CashAccountRow, CategoryRow, TransactionRow, LedgerRow, FinanceAuditInput,
}
use jimpitan.Finance.Platform.{Platform}
use jimpitan.Finance.Monad.{
  bad_request, known_request, p2002, Tx, ok, err, gets, next_tick, require, ◌>>=◌,
}

abbrev pub is_draft : TransactionStatus → Bool
is_draft TransactionStatus.draft = true
is_draft _ = false

abbrev pub is_validated : TransactionStatus → Bool
is_validated TransactionStatus.validated = true
is_validated _ = false

abbrev pub is_posted : TransactionStatus → Bool
is_posted TransactionStatus.posted = true
is_posted _ = false

abbrev pub same_type : TransactionType → TransactionType → Bool
same_type income income = true
same_type expense expense = true
same_type transfer transfer = true
same_type adjustment adjustment = true
same_type _ _ = false

-- { id, rtId, deletedAt: null }
abbrev pub live_transaction : String → String → TransactionRow → Bool
live_transaction rt_id id t = t.id == id && t.rt_id == rt_id && is_none t.deleted_at

-- { id, rtId, status: VALIDATED, deletedAt: null }
abbrev pub validated_transaction : String → String → TransactionRow → Bool
validated_transaction rt_id id t = live_transaction rt_id id t && is_validated t.status

-- { rtId, sourceCollectionId, deletedAt: null }
abbrev pub from_collection : String → String → TransactionRow → Bool
from_collection rt_id collection_id t =
    t.rt_id == rt_id
    && same_text t.source_collection_id (some collection_id)
    && is_none t.deleted_at

-- { rtId, idempotencyKey, deletedAt: null }
abbrev pub with_key : String → String → TransactionRow → Bool
with_key rt_id key t =
    t.rt_id == rt_id && same_text t.idempotency_key (some key) && is_none t.deleted_at

-- { id, rtId, deletedAt: null }
abbrev pub live_account : String → String → CashAccountRow → Bool
live_account rt_id id a = a.id == id && a.rt_id == rt_id && is_none a.deleted_at

-- { id, rtId, deletedAt: null, isActive: true }
abbrev pub active_account : String → String → CashAccountRow → Bool
active_account rt_id id a = live_account rt_id id a && a.is_active

-- { rtId, cashAccountId }
abbrev pub of_account : String → String → LedgerRow → Bool
of_account rt_id account_id l = l.rt_id == rt_id && l.cash_account_id == account_id

-- OR: [{ rtId }, { rtId: null, isSystem: true }]
abbrev pub visible_category : String → CategoryRow → Bool
visible_category rt_id c = same_text c.rt_id (some rt_id) || (is_none c.rt_id && c.is_system)

module _ (P : Platform) where
  -- `new Date()`, and an identifier by the database's default.
  unfoldable pub new_date : Tx ℕ
  new_date s = (ok (P.now s.tick), next_tick s)

  unfoldable pub new_id : Tx String
  new_id s = (ok (P.uuid s.tick), next_tick s)

  unfoldable pub write_audit : FinanceAuditInput → Tx (Unit {0})
  write_audit a s = (ok tt, record s { audits = P.create a s.audits })

  unfoldable pub find_transaction_in_transaction : String → String → Tx (Option TransactionRow)
  find_transaction_in_transaction rt_id id =
      gets (λ s. P.find_first (live_transaction rt_id id) s.transactions)

  unfoldable pub find_transaction_in_transaction_or_throw : String → String → Tx TransactionRow
  unfolding find_transaction_in_transaction
  find_transaction_in_transaction_or_throw rt_id id = do
    transaction ← find_transaction_in_transaction rt_id id
    require transaction
        (bad_request "Transaction lifecycle state changed while processing the request.")

  -- The relation `ledger` of a transaction.
  unfoldable pub find_ledger_of : TransactionRow → Tx (Option LedgerRow)
  find_ledger_of t = gets (λ s. P.find_first (λ l. l.transaction_id == t.id) s.ledgers)

  unfoldable pub update_transactions :
      (TransactionRow → Bool) → (TransactionRow → TransactionRow) → Tx ℕ
  update_transactions p f s =
      let rows = P.update_many p f s.transactions in
      elim (P.transaction_clash rows) [
        | none ↦ (ok (P.update_count p s.transactions), record s { transactions = rows })
        | some columns ↦ (err (known_request p2002 columns), s)
      ]

  unfoldable pub create_transaction : TransactionRow → Tx TransactionRow
  create_transaction t s =
      let rows = P.create t s.transactions in
      elim (P.transaction_clash rows) [
        | none ↦ (ok t, record s { transactions = rows })
        | some columns ↦ (err (known_request p2002 columns), s)
      ]

  unfoldable pub create_ledger : LedgerRow → Tx LedgerRow
  create_ledger l s =
      let rows = P.create l s.ledgers in
      elim (P.ledger_clash rows) [
        | none ↦ (ok l, record s { ledgers = rows })
        | some columns ↦ (err (known_request p2002 columns), s)
      ]

  -- No update of an account or of a category writes a column of a unique index.
  unfoldable pub update_accounts :
      (CashAccountRow → Bool) → (CashAccountRow → CashAccountRow) → Tx ℕ
  update_accounts p f s =
      (ok (P.update_count p s.accounts), record s { accounts = P.update_many p f s.accounts })

  unfoldable pub create_account : CashAccountRow → Tx CashAccountRow
  create_account a s =
      let rows = P.create a s.accounts in
      elim (P.account_clash rows) [
        | none ↦ (ok a, record s { accounts = rows })
        | some columns ↦ (err (known_request p2002 columns), s)
      ]

  unfoldable pub update_categories : (CategoryRow → Bool) → (CategoryRow → CategoryRow) → Tx ℕ
  update_categories p f s =
      (ok (P.update_count p s.categories), record s { categories = P.update_many p f s.categories })

  unfoldable pub create_category : CategoryRow → Tx CategoryRow
  create_category c s =
      let rows = P.create c s.categories in
      elim (P.category_clash rows) [
        | none ↦ (ok c, record s { categories = rows })
        | some columns ↦ (err (known_request p2002 columns), s)
      ]

-- The entry of `writeAudit`.
abbrev pub audit_entry :
    String → AuthPrincipal → FinanceRequestMeta → String → String → String → FinanceAuditInput
audit_entry rt_id actor meta action entity_type entity_id = record {
  rt_id = rt_id;
  actor_user_id = some actor.user_id;
  action = action;
  entity_type = entity_type;
  entity_id = some entity_id;
  meta = meta;
}
