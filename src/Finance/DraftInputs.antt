-- ===== src/Finance/DraftInputs.antt =====
-- Which drafts are let through to the repository
-- (apps/api/src/modules/finance/application/finance-transactions.service.ts).
use jimpitan.Base.{
  String, ◌==◌, true, false, ◌&&◌, Option, none, some, is_none, given, ◌≡◌, refl, arith,
}
use jimpitan.Base.Int.{ℤ, pos, leb_ℤ}
use jimpitan.Finance.Schema.{
  AuthPrincipal, FinanceRequestMeta, CreateFinanceTransactionCommand, TransactionType, income,
  expense, TransactionRow, CashAccountRow, CategoryRow,
}
use jimpitan.Finance.Platform.{Db, Platform}
use jimpitan.Finance.Monad.{Tx, ok, ◌>>◌}
use jimpitan.Finance.Books.{check-ok}
use jimpitan.Finance.Tables.{same_type, live_account, visible_category}
use jimpitan.Finance.Drafts.{create_income_draft, create_expense_draft}
use jimpitan.Finance.Service.{
  is_cash_amount, assert_positive_amount, assert_draft_references, assert_draft_inputs,
  request_income_draft, request_expense_draft,
}

module _ (P : Platform) (rt_id : String) (command : CreateFinanceTransactionCommand)
    (type : TransactionType) where
  -- What a request for a draft has passed: it names no collection, its amount has the form of cash and
  -- is more than zero, its account is a live one of the tenant and is active, and its category is one
  -- that the tenant sees, is active and has the type of the draft.
  pub record Inputs (s : Db) : Type 0 where
    pub no_collection : is_none (given command.source_collection_id) ≡ true
    pub form : is_cash_amount command.amount ≡ true
    pub amount : ℤ
    pub parsed : P.decimal command.amount ≡ some amount
    pub more_than_zero : leb_ℤ amount (pos 0) ≡ false
    pub account : CashAccountRow
    pub of_tenant :
        P.find_first (live_account rt_id command.cash_account_id) s.accounts ≡ some account
    pub account_is_active : account.is_active ≡ true
    pub category : CategoryRow
    pub visible :
        P.find_first
          (λ c. c.id == command.category_id && is_none c.deleted_at && visible_category rt_id c)
          s.categories
        ≡ some category
    pub category_is_active : category.is_active ≡ true
    pub category_type : same_type category.type type ≡ true

  assert_draft_inputs-Inputs :
      (s u : Db) → assert_draft_inputs P rt_id command type s ≡ (ok tt, u) → (u ≡ s) × Inputs s
  unfolding assert_draft_inputs assert_positive_amount assert_draft_references
  assert_draft_inputs-Inputs s u h =
      by_rows (P.decimal command.amount)
        (P.find_first (live_account rt_id command.cash_account_id) s.accounts)
        (P.find_first
          (λ c. c.id == command.category_id && is_none c.deleted_at && visible_category rt_id c)
          s.categories)
        refl refl refl
    where
      by_rows :
          (d : Option ℤ) (a : Option CashAccountRow) (c : Option CategoryRow)
          → P.decimal command.amount ≡ d
          → P.find_first (live_account rt_id command.cash_account_id) s.accounts ≡ a
          → P.find_first
              (λ c. c.id == command.category_id && is_none c.deleted_at && visible_category rt_id c)
              s.categories
            ≡ c
          → (u ≡ s) × Inputs s
      by_rows none a c p q r = absurd (ground arith)
      by_rows (some v) none c p q r = absurd (ground arith)
      by_rows (some v) (some a) none p q r = absurd (ground arith)
      by_rows (some v) (some a) (some c) p q r = (
        ground arith,
        record {
          no_collection = ground arith;
          form = ground arith;
          amount = v;
          parsed = p;
          more_than_zero = ground arith;
          account = a;
          of_tenant = q;
          account_is_active = ground arith;
          category = c;
          visible = r;
          category_is_active = ground arith;
          category_type = ground arith;
        },
      )

-- The types that a draft may have.
pub data DraftType : Type 0 where
  income_draft expense_draft : DraftType

abbrev pub type_of : DraftType → TransactionType
type_of income_draft = income
type_of expense_draft = expense

-- The request for a draft of a type, and what the repository does for it.
abbrev pub requested_draft :
    Platform
    → AuthPrincipal
    → FinanceRequestMeta
    → CreateFinanceTransactionCommand
    → DraftType
    → Tx TransactionRow
requested_draft P actor meta command income_draft = request_income_draft P actor meta command
requested_draft P actor meta command expense_draft = request_expense_draft P actor meta command

abbrev pub stored_draft :
    Platform
    → AuthPrincipal
    → FinanceRequestMeta
    → CreateFinanceTransactionCommand
    → DraftType
    → Tx TransactionRow
stored_draft P actor meta command income_draft =
    create_income_draft P actor.rt_id command actor meta
stored_draft P actor meta command expense_draft =
    create_expense_draft P actor.rt_id command actor meta

module _ (P : Platform) (actor : AuthPrincipal) (meta : FinanceRequestMeta)
    (command : CreateFinanceTransactionCommand) (s t : Db) (row : TransactionRow) where
  checked-Inputs :
      (type : TransactionType) (k : Tx TransactionRow)
      → (assert_draft_inputs P actor.rt_id command type >> k) s ≡ (ok row, t)
      → Inputs P actor.rt_id command type s × (k s ≡ (ok row, t))
  checked-Inputs type k h =
      let q =
        check-ok (assert_draft_inputs P actor.rt_id command type) k
          (λ a b e. (assert_draft_inputs-Inputs P actor.rt_id command type a b e).0) s row t h in
      ((assert_draft_inputs-Inputs P actor.rt_id command type s s (q.0)).1, q.1)

  -- A request for a draft of an income or an expense is answered only where its inputs pass, with a
  -- category of that type, and the answer and the tables are then those of the repository.
  pub requested_draft-Inputs :
      (type : DraftType)
      → requested_draft P actor meta command type s ≡ (ok row, t)
      → Inputs P actor.rt_id command (type_of type) s
        × (stored_draft P actor meta command type s ≡ (ok row, t))
  unfolding request_income_draft request_expense_draft
  requested_draft-Inputs income_draft h =
      checked-Inputs income (create_income_draft P actor.rt_id command actor meta) h
  requested_draft-Inputs expense_draft h =
      checked-Inputs expense (create_expense_draft P actor.rt_id command actor meta) h
