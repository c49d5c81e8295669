-- ===== src/Finance/Post/Gate.antt =====
-- What the checks of a posting guarantee once they have passed.
use jimpitan.Base.{◌≤◌, String, ◌==◌, ◌≡◌, ◌⊎◌, true, ◌&&◌, some, arith}
use jimpitan.Finance.Schema.{expense, AuthPrincipal, FinanceRequestMeta, TransactionRow}
use jimpitan.Finance.Platform.{Db, Platform}
use jimpitan.Finance.Monad.{ok}
use jimpitan.Finance.Guards.{
  ExpenseApprovalPolicy, read_policy, approvals_of, approved_count, rejected_count,
  assert_expense_approval_gate_in_transaction, assert_posting_inputs_in_transaction,
}

abbrev pub policy_in : Platform → String → Db → ExpenseApprovalPolicy
policy_in P rt_id s =
    read_policy
      (P.find_first (λ r. r.rt_id == rt_id && r.key == "expense_approval_policy") s.settings)

-- The policy lets the expense through: it is small enough and such are let through, or enough
-- approvals stand and none is a rejection.
abbrev pub Permitted : Platform → String → TransactionRow → Db → Type 0
Permitted P rt_id t s =
    let policy = policy_in P rt_id s in
    let approvals = P.find_many (approvals_of rt_id t.id) s.approvals in
    ((policy.auto_approve_below_threshold ≡ true)
      × (P.lte_text t.amount policy.threshold_amount ≡ some true))
    ⊎ ((rejected_count approvals ≡ 0) × (policy.required_approvals ≤ approved_count approvals))

module _ (P : Platform) (rt_id : String) (t : TransactionRow) (actor : AuthPrincipal)
    (meta : FinanceRequestMeta) where
  pub inputs-Permitted :
      (s u : Db)
      → assert_posting_inputs_in_transaction P rt_id t actor meta s ≡ (ok tt, u)
      → t.type ≡ expense
      → Permitted P rt_id t s
  unfolding assert_posting_inputs_in_transaction assert_expense_approval_gate_in_transaction
  inputs-Permitted s u h e = ground arith
