-- ===== src/Finance/Guards.antt =====
-- The checks that a posting makes inside its transaction (`assert…InTransaction` and `findActive…` of
-- apps/api/src/modules/finance/infrastructure/prisma-finance.repository.ts).
use jimpitan.Base.{
  ℕ, String, ◌==◌, Bool, true, false, not, ◌&&◌, Option, none, some, List, is_none, ltb, same_text,
  given, if◌then◌else◌,
}
use jimpitan.Base.Int.{ℤ, pos_part}
use jimpitan.Base.Rows.{length, select}
use jimpitan.Finance.Schema.{
  TransactionType, expense, ApprovalStatus, AuthPrincipal, FinanceRequestMeta, CashAccountRow,
  CategoryRow, TransactionRow, ExpenseApprovalRow, SettingRow, Json, text, integer, boolean,
  PolicyObject, FinanceAuditInput,
}
use jimpitan.Finance.Platform.{Platform}
use jimpitan.Finance.Monad.{
  bad_request, replay_conflict, approval_gate, decimal_error, Tx, return, throw, gets, require,
  throw_if, ◌>>=◌, ◌>>◌,
}
use jimpitan.Finance.Tables.{same_type, active_account, visible_category, with_key, audit_entry}

pub record ExpenseApprovalPolicy : Type 0 where
  pub threshold_amount : String
  pub auto_approve_below_threshold : Bool
  pub required_approvals : ℕ

abbrev pub default_expense_approval_policy : ExpenseApprovalPolicy
default_expense_approval_policy = record {
  threshold_amount = "50000";
  auto_approve_below_threshold = true;
  required_approvals = 1;
}

-- Math.max(1, n)
abbrev pub at_least_one : ℤ → ℕ
at_least_one n = if ltb (pos_part n) 1 then 1 else pos_part n

abbrev threshold_of : Option Json → String
threshold_of (some (text t)) = t
threshold_of _ = default_expense_approval_policy.threshold_amount

abbrev required_of : Option Json → ℕ
required_of (some (integer n)) = at_least_one n
required_of _ = default_expense_approval_policy.required_approvals

abbrev auto_of : Option Json → Bool
auto_of (some (boolean b)) = b
auto_of _ = default_expense_approval_policy.auto_approve_below_threshold

abbrev empty_object : PolicyObject
empty_object = record {
  threshold_amount = none;
  required_approvals = none;
  auto_approve_below_threshold = none;
}

abbrev raw_value : Option SettingRow → PolicyObject
raw_value none = empty_object
raw_value (some r) = elim (r.value) [ none ↦ empty_object | some o ↦ o ]

unfoldable pub read_policy : Option SettingRow → ExpenseApprovalPolicy
read_policy setting =
    let raw = raw_value setting in
    record {
      threshold_amount = threshold_of raw.threshold_amount;
      auto_approve_below_threshold = auto_of raw.auto_approve_below_threshold;
      required_approvals = required_of raw.required_approvals;
    }

abbrev pub is_approved : ApprovalStatus → Bool
is_approved ApprovalStatus.approved = true
is_approved _ = false

abbrev pub is_rejected : ApprovalStatus → Bool
is_rejected ApprovalStatus.rejected = true
is_rejected _ = false

abbrev pub is_pending : ApprovalStatus → Bool
is_pending ApprovalStatus.pending = true
is_pending _ = false

abbrev pub is_cancelled : ApprovalStatus → Bool
is_cancelled ApprovalStatus.cancelled = true
is_cancelled _ = false

abbrev pub is_expense : TransactionType → Bool
is_expense expense = true
is_expense _ = false

-- { rtId, transactionId }
abbrev pub approvals_of : String → String → ExpenseApprovalRow → Bool
approvals_of rt_id transaction_id a = a.rt_id == rt_id && a.transaction_id == transaction_id

-- How many of the approvals stand approved, and how many rejected.
abbrev pub approved_count : List ExpenseApprovalRow → ℕ
approved_count approvals = length (select (λ a. is_approved a.status) approvals)

abbrev pub rejected_count : List ExpenseApprovalRow → ℕ
rejected_count approvals = length (select (λ a. is_rejected a.status) approvals)

module _ (P : Platform) where
  unfoldable pub find_active_cash_account_in_transaction : String → String → Tx CashAccountRow
  find_active_cash_account_in_transaction rt_id id = do
    account ← gets (λ s. P.find_first (active_account rt_id id) s.accounts)
    require account (bad_request "Active cash account is required.")

  unfoldable pub find_active_category_in_transaction :
      String → String → TransactionType → Tx CategoryRow
  find_active_category_in_transaction rt_id id type = do
    category ← gets (λ s.
        P.find_first
          (λ c.
            c.id == id
            && is_none c.deleted_at
            && c.is_active
            && same_type c.type type
            && visible_category rt_id c)
          s.categories)
    require category (bad_request "Active matching transaction category is required.")

  unfoldable pub find_expense_approval_policy_in_transaction : String → Tx ExpenseApprovalPolicy
  unfolding read_policy
  find_expense_approval_policy_in_transaction rt_id = gets (λ s.
      read_policy
        (P.find_first (λ r. r.rt_id == rt_id && r.key == "expense_approval_policy") s.settings))

  -- The counts of the approvals decide, once the policy asks for them.
  unfoldable pub assert_approvals :
      String
      → TransactionRow
      → AuthPrincipal
      → FinanceRequestMeta
      → ExpenseApprovalPolicy
      → Tx (Unit {0})
  assert_approvals rt_id t actor meta policy = do
    approvals ← gets (λ s. P.find_many (approvals_of rt_id t.id) s.approvals)
    throw_if (ltb 0 (rejected_count approvals))
        (bad_request "Expense transaction has rejected approval.")
    throw_if (ltb (approved_count approvals) policy.required_approvals) (
        approval_gate (
          audit_entry rt_id actor meta "TRANSACTION_POST_BLOCKED_APPROVAL_REQUIRED" "transaction"
            t.id))

  unfoldable pub assert_expense_approval_gate_in_transaction :
      String → TransactionRow → AuthPrincipal → FinanceRequestMeta → Tx (Unit {0})
  unfolding assert_approvals find_expense_approval_policy_in_transaction
  assert_expense_approval_gate_in_transaction rt_id t actor meta =
      if not (is_expense t.type) then return tt else do
        policy ← find_expense_approval_policy_in_transaction rt_id
        if policy.auto_approve_below_threshold
            then (elim (P.lte_text t.amount policy.threshold_amount) [
              | none ↦ throw decimal_error
              | some true ↦ return tt
              | some false ↦ assert_approvals rt_id t actor meta policy
            ])
            else assert_approvals rt_id t actor meta policy

  unfoldable pub assert_posting_inputs_in_transaction :
      String → TransactionRow → AuthPrincipal → FinanceRequestMeta → Tx (Unit {0})
  unfolding find_active_cash_account_in_transaction find_active_category_in_transaction
  assert_posting_inputs_in_transaction rt_id t actor meta = do
    find_active_cash_account_in_transaction rt_id t.cash_account_id
    find_active_category_in_transaction rt_id t.category_id t.type
    assert_expense_approval_gate_in_transaction rt_id t actor meta

  -- The key may belong to no other live transaction of the tenant.
  assert_key_is_free :
      String → TransactionRow → String → AuthPrincipal → FinanceRequestMeta → Tx (Unit {0})
  assert_key_is_free rt_id t key actor meta = do
    existing ←
        gets (λ s. P.find_first (λ o. with_key rt_id key o && not (o.id == t.id)) s.transactions)
    throw_if (not (is_none existing)) (
        replay_conflict
          (audit_entry rt_id actor meta "FINANCE_IDEMPOTENCY_REPLAY_FAILED" "transaction" t.id)
          "Idempotency key already belongs to another transaction.")

  unfoldable pub assert_post_idempotency_in_transaction :
      String → TransactionRow → Option String → AuthPrincipal → FinanceRequestMeta → Tx (Unit {0})
  unfolding assert_key_is_free
  assert_post_idempotency_in_transaction rt_id t idempotency_key actor meta =
      elim (given idempotency_key) [
        | none ↦ return tt
        | some key ↦ do
          throw_if
              (not (is_none (given t.idempotency_key))
                && not (same_text t.idempotency_key (some key)))
              (replay_conflict
                (audit_entry rt_id actor meta "FINANCE_IDEMPOTENCY_REPLAY_FAILED" "transaction"
                  t.id)
                "Idempotency replay does not match the original financial request.")
          assert_key_is_free rt_id t key actor meta
      ]

-- `assertReplayKeyMatchesInTransaction`: a request with no key, or with the key of the row, may replay.
unfoldable pub assert_replay_key_matches_in_transaction :
    FinanceAuditInput → Option String → Option String → Tx (Unit {0})
assert_replay_key_matches_in_transaction audit existing_key requested_key =
    elim (given requested_key) [
      | none ↦ return tt
      | some key ↦ throw_if (not (same_text existing_key (some key))) (
          replay_conflict audit "Idempotency replay does not match the original financial request.")
    ]
