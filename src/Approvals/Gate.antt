-- ===== src/Approvals/Gate.antt =====
-- The gate of a posting (`assertExpenseApprovalGateInTransaction` of
-- apps/api/src/modules/finance/infrastructure/prisma-finance.repository.ts) and the status that the
-- approval module shows (`toApprovalState` of
-- apps/api/src/modules/approvals/infrastructure/prisma-approvals.repository.ts).
use jimpitan.Base.{ℕ, String, ◌≡◌, ◌↔◌, arith}
use jimpitan.Finance.Schema.{TransactionRow, AuthPrincipal, FinanceRequestMeta}
use jimpitan.Finance.Platform.{Db, Platform}
use jimpitan.Finance.Monad.{ok}
use jimpitan.Finance.Guards.{ExpenseApprovalPolicy, approvals_of, assert_approvals}
use jimpitan.Approvals.Schema.{ApprovalWorkflowStatus}
use jimpitan.Approvals.State.{approval_status}

module _ (P : Platform) (rt_id : String) (t : TransactionRow) (actor : AuthPrincipal)
    (meta : FinanceRequestMeta) (policy : ExpenseApprovalPolicy) where
  -- At any time of asking: the posting gate's check of the approvals passes, and changes nothing,
  -- exactly where the approval module's status of the same approvals is APPROVED.
  pub assert_approvals-approval_status :
      (now : ℕ) (s : Db)
      → (assert_approvals P rt_id t actor meta policy s ≡ (ok tt, s)) ↔ (
          approval_status now
            (P.find_many (approvals_of rt_id t.id) s.approvals)
            policy.required_approvals
          ≡ ApprovalWorkflowStatus.approved)
  unfolding assert_approvals approval_status
  assert_approvals-approval_status now s = (λ h. ground arith, λ h. ground arith)
