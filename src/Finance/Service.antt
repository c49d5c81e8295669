-- ===== src/Finance/Service.antt =====
-- The requests to the finance service that call no hook: `createIncomeDraft`, `createExpenseDraft`,
-- `validateTransaction`, `rejectTransaction` and `voidDraftTransaction` of
-- apps/api/src/modules/finance/application/finance-transactions.service.ts.
use Prim.Native.Char.{code, Char}
use jimpitan.Base.{
  ℕ, zero, suc, String, ◌==◌, Bool, true, false, not, ◌&&◌, ◌||◌, Option, none, some, is_none, leb,
  given, if◌then◌else◌,
}
use jimpitan.Base.Int.{pos, leb_ℤ}
use jimpitan.Finance.Schema.{
  AuthPrincipal, FinanceRequestMeta, CreateFinanceTransactionCommand, TransactionType, income,
  expense, TransactionRow, CashAccountRow, CategoryRow,
}
use jimpitan.Finance.Platform.{Platform}
use jimpitan.Finance.Monad.{
  Tx, gets, require, throw_if, bad_request, not_found, decimal_error, ◌>>=◌, ◌>>◌,
}
use jimpitan.Finance.Tables.{
  is_draft, is_validated, same_type, live_account, live_transaction, visible_category,
}
use jimpitan.Finance.Lifecycle.{validate_transaction, reject_transaction, void_draft_transaction}
use jimpitan.Finance.Drafts.{create_income_draft, create_expense_draft}

-- \d
abbrev is_digit : Char → Bool
is_digit c = leb b'0' (code c) && leb (code c) b'9'

abbrev is_point : Char → Bool
is_point c = leb b'.' (code c) && leb (code c) b'.'

-- \d{1,2}$
abbrev pub is_fraction : String → Bool
is_fraction String.[] = false
is_fraction (String.◌∷◌ c String.[]) = is_digit c
is_fraction (String.◌∷◌ c (String.◌∷◌ d String.[])) = is_digit c && is_digit d
is_fraction (String.◌∷◌ c (String.◌∷◌ d (String.◌∷◌ e s))) = false

-- \d{0,n}(\.\d{1,2})?$
abbrev pub is_amount_tail : ℕ → String → Bool
is_amount_tail n String.[] = true
is_amount_tail zero (String.◌∷◌ c s) = is_point c && is_fraction s
is_amount_tail (suc n) (String.◌∷◌ c s) =
    let rest = is_amount_tail n s in if is_point c then is_fraction s else is_digit c && rest

-- /^\d{1,12}(\.\d{1,2})?$/
abbrev pub is_cash_amount : String → Bool
is_cash_amount String.[] = false
is_cash_amount (String.◌∷◌ c s) = is_digit c && is_amount_tail 11 s

module _ (P : Platform) where
  unfoldable pub assert_positive_amount : String → Tx (Unit {0})
  assert_positive_amount amount = do
    throw_if (not (is_cash_amount amount))
        (bad_request "Transaction amount must fit cash precision and scale.")
    parsed ← require (P.decimal amount) decimal_error
    throw_if (leb_ℤ parsed (pos 0)) (bad_request "Transaction amount must be greater than zero.")

  -- The checks on the account and the category that the repository has found.
  unfoldable pub assert_draft_references :
      TransactionType → Option CashAccountRow → Option CategoryRow → Tx (Unit {0})
  assert_draft_references type account category = do
    throw_if (elim account [ none ↦ true | some a ↦ not a.is_active ])
        (bad_request "Active cash account is required.")
    throw_if (elim category [ none ↦ true | some c ↦ not c.is_active ])
        (bad_request "Active transaction category is required.")
    throw_if (elim category [ none ↦ true | some c ↦ not (same_type c.type type) ])
        (bad_request "Transaction category type does not match transaction type.")

  unfoldable pub assert_draft_inputs :
      String → CreateFinanceTransactionCommand → TransactionType → Tx (Unit {0})
  assert_draft_inputs rt_id command type = do
    throw_if (not (is_none (given command.source_collection_id))) (
        bad_request
          "Source collection transactions must be posted through the collection posting endpoint.")
    assert_positive_amount command.amount
    account ← gets (λ s. P.find_first (live_account rt_id command.cash_account_id) s.accounts)
    category ← gets (λ s.
        P.find_first
          (λ c. c.id == command.category_id && is_none c.deleted_at && visible_category rt_id c)
          s.categories)
    assert_draft_references type account category

  unfoldable pub get_transaction_or_throw : String → String → Tx TransactionRow
  get_transaction_or_throw rt_id id = do
    found ← gets (λ s. P.find_first (live_transaction rt_id id) s.transactions)
    require found (not_found "Transaction was not found.")

  module _ (actor : AuthPrincipal) (meta : FinanceRequestMeta) where
    unfoldable pub request_income_draft : CreateFinanceTransactionCommand → Tx TransactionRow
    request_income_draft command = do
      assert_draft_inputs actor.rt_id command income
      create_income_draft P actor.rt_id command actor meta

    unfoldable pub request_expense_draft : CreateFinanceTransactionCommand → Tx TransactionRow
    request_expense_draft command = do
      assert_draft_inputs actor.rt_id command expense
      create_expense_draft P actor.rt_id command actor meta

    unfoldable pub request_validation : String → Option String → Tx TransactionRow
    request_validation id remark = do
      t ← get_transaction_or_throw actor.rt_id id
      throw_if (not (is_draft t.status)) (bad_request "Only draft transactions can be validated.")
      updated ← validate_transaction P actor.rt_id id remark actor meta
      require updated (not_found "Transaction was not found.")

    unfoldable pub request_rejection : String → String → Tx TransactionRow
    request_rejection id reason = do
      t ← get_transaction_or_throw actor.rt_id id
      throw_if (not (is_draft t.status || is_validated t.status))
          (bad_request "Only draft or validated transactions can be rejected.")
      rejected ← reject_transaction P actor.rt_id id reason actor meta
      require rejected (not_found "Transaction was not found.")

    unfoldable pub request_voiding : String → Tx TransactionRow
    request_voiding id = do
      t ← get_transaction_or_throw actor.rt_id id
      throw_if (not (is_draft t.status)) (bad_request "Only draft transactions can be voided.")
      voided ← void_draft_transaction P actor.rt_id id actor meta
      require voided (not_found "Transaction was not found.")
