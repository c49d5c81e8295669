-- ===== src/Finance/Platform.antt =====
-- What the finance repository takes from outside: the tables' contents as the state, the Prisma
-- client with PostgreSQL behind it, decimal.js, the clock and the identifiers that the database gives.
pub mod Memory
use jimpitan.Base.{ℕ, String, ◌==◌, false, Bool, Option, none, some, List, [], ◌∷◌, ◌≡◌, ◌≤◌}
use jimpitan.Base.Int.{ℤ}
use jimpitan.Base.Rows.{select, set_where, length, Has, All, sum_of}
use jimpitan.Base.Keys.{Distinct}
use jimpitan.Finance.Schema.{
  CashAccountRow, CategoryRow, TransactionRow, LedgerRow, ExpenseApprovalRow, SettingRow,
  FinanceAuditInput,
}
use jimpitan.Jimpitan.Schema.{CollectionRow, CollectionItemRow, Directory}
use jimpitan.Notifications.Schema.{NotificationRow, OutboxRow, BindingRow}

pub record Db : Type 0 where
  pub accounts : List CashAccountRow
  pub categories : List CategoryRow
  pub transactions : List TransactionRow
  pub ledgers : List LedgerRow
  pub collections : List CollectionRow
  pub items : List CollectionItemRow
  pub approvals : List ExpenseApprovalRow
  pub settings : List SettingRow
  pub directory : Directory
  pub notifications : List NotificationRow
  pub outbox : List OutboxRow
  pub bindings : List BindingRow
  pub audits : List FinanceAuditInput
  -- How often the engine has been asked for an identifier, an instant or a commit.
  pub tick : ℕ

-- No two accounts of the table have one identifier.
abbrev pub DistinctIds : List CashAccountRow → Type 0
DistinctIds [] = Unit
DistinctIds (a ∷ rows) = All (λ b. (b.id == a.id) ≡ false) rows × DistinctIds rows

abbrev pub DistinctTransactions : List TransactionRow → Type 0
DistinctTransactions [] = Unit
DistinctTransactions (t ∷ rows) = All (λ u. (u.id == t.id) ≡ false) rows × DistinctTransactions rows

-- The operations, with what their documentation says of them. A query's clause is a test of a row.
pub record Platform : Type 1 where
  -- `findFirst` with no order: some row that the clause selects, if there is one.
  pub find_first : {Row : Type 0} → (Row → Bool) → List Row → Option Row
  pub find_first_some :
      {Row : Type 0} (p : Row → Bool) (rows : List Row) (r : Row)
      → find_first p rows ≡ some r
      → Has p r rows
  pub find_first_none :
      {Row : Type 0} (p : Row → Bool) (rows : List Row)
      → find_first p rows ≡ none
      → select p rows ≡ []
  -- `findFirst` in descending order of a column.
  pub find_latest : {Row : Type 0} → (Row → ℕ) → (Row → Bool) → List Row → Option Row
  pub find_latest_some :
      {Row : Type 0} (key : Row → ℕ) (p : Row → Bool) (rows : List Row) (r : Row)
      → find_latest key p rows ≡ some r
      → Has p r rows × All (λ x. key x ≤ key r) (select p rows)
  pub find_latest_none :
      {Row : Type 0} (key : Row → ℕ) (p : Row → Bool) (rows : List Row)
      → find_latest key p rows ≡ none
      → select p rows ≡ []
  -- `findMany` and `count`.
  pub find_many : {Row : Type 0} → (Row → Bool) → List Row → List Row
  pub find_many_lem :
      {Row : Type 0} (p : Row → Bool) (rows : List Row) → find_many p rows ≡ select p rows
  -- `aggregate` with `_sum`: `none` where no row is selected.
  pub sum : {Row : Type 0} → (Row → ℤ) → (Row → Bool) → List Row → Option ℤ
  pub sum_some :
      {Row : Type 0} (f : Row → ℤ) (p : Row → Bool) (rows : List Row) (v : ℤ)
      → sum f p rows ≡ some v
      → v ≡ sum_of f (select p rows)
  pub sum_none :
      {Row : Type 0} (f : Row → ℤ) (p : Row → Bool) (rows : List Row)
      → sum f p rows ≡ none
      → select p rows ≡ []
  -- `create`, and `updateMany` with the number of rows changed.
  pub create : {Row : Type 0} → Row → List Row → List Row
  pub create_lem : {Row : Type 0} (r : Row) (rows : List Row) → create r rows ≡ r ∷ rows
  pub update_many : {Row : Type 0} → (Row → Bool) → (Row → Row) → List Row → List Row
  pub update_many_lem :
      {Row : Type 0} (p : Row → Bool) (f : Row → Row) (rows : List Row)
      → update_many p f rows ≡ set_where p f rows
  pub update_count : {Row : Type 0} → (Row → Bool) → List Row → ℕ
  pub update_count_lem :
      {Row : Type 0} (p : Row → Bool) (rows : List Row)
      → update_count p rows ≡ length (select p rows)
  -- The unique index that the rows of a table would violate, by the names of its columns.
  pub account_clash : List CashAccountRow → Option (List String)
  pub category_clash : List CategoryRow → Option (List String)
  pub transaction_clash : List TransactionRow → Option (List String)
  pub ledger_clash : List LedgerRow → Option (List String)
  pub outbox_clash : List OutboxRow → Option (List String)
  pub approval_clash : List ExpenseApprovalRow → Option (List String)
  -- A primary key is a unique index.
  pub collection_clash : List CollectionRow → Option (List String)
  pub collection_clash_none :
      (rows : List CollectionRow) → collection_clash rows ≡ none → Distinct (λ c. c.id) rows
  pub account_clash_none :
      (rows : List CashAccountRow) → account_clash rows ≡ none → DistinctIds rows
  pub transaction_clash_none :
      (rows : List TransactionRow) → transaction_clash rows ≡ none → DistinctTransactions rows
  -- Does the engine abort the serializable transaction that ends at this tick (P2034)?
  pub aborts : ℕ → Bool
  pub uuid : ℕ → String
  pub now : ℕ → ℕ
  -- A decimal text in cents; `none` where decimal.js throws.
  pub decimal : String → Option ℤ
  -- `toString` of an amount.
  pub decimal_text : ℤ → String
  -- `amount.lte(text)`; `none` where decimal.js throws.
  pub lte_text : ℤ → String → Option Bool
