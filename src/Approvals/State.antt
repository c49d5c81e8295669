-- ===== src/Approvals/State.antt =====
-- The status that follows from the approvals of a transaction: `toApprovalState` of
-- apps/api/src/modules/approvals/infrastructure/prisma-approvals.repository.ts.
use jimpitan.Base.{ℕ, Bool, false, ◌&&◌, ◌||◌, none, some, List, [], ◌∷◌, ltb, leb, if◌then◌else◌}
use jimpitan.Base.Rows.{length, select}
use jimpitan.Finance.Schema.{ExpenseApprovalRow, TransactionRow}
use jimpitan.Finance.Guards.{approved_count, rejected_count, is_pending, is_cancelled}
use jimpitan.Approvals.Schema.{
  ApprovalWorkflowStatus, pending, approved, rejected, cancelled, expired, ApprovalPolicy,
  ApprovalStateRecord,
}

abbrev pub pending_rows : List ExpenseApprovalRow → List ExpenseApprovalRow
pending_rows approvals = select (λ a. is_pending a.status) approvals

abbrev pub cancelled_count : List ExpenseApprovalRow → ℕ
cancelled_count approvals = length (select (λ a. is_cancelled a.status) approvals)

-- The row has a date of expiry, and it is not later than now.
abbrev pub is_expired : ℕ → ExpenseApprovalRow → Bool
is_expired now a = elim (a.expires_at) [ none ↦ false | some at ↦ leb at now ]

-- rows.some(...)
abbrev pub some_expired : ℕ → List ExpenseApprovalRow → Bool
some_expired now [] = false
some_expired now (a ∷ rest) = is_expired now a || some_expired now rest

-- The chain of conditions, from the counts.
unfoldable pub approval_status : ℕ → List ExpenseApprovalRow → ℕ → ApprovalWorkflowStatus
approval_status now approvals required =
    if ltb 0 (rejected_count approvals)
    then rejected
    else (if leb required (approved_count approvals)
        then approved
        else (if some_expired now (pending_rows approvals)
            then expired
            else (if ltb 0 (length (pending_rows approvals)) || leb (length approvals) 0
                then pending
                else (if leb (length approvals) (cancelled_count approvals)
                      && leb (cancelled_count approvals) (length approvals)
                    then cancelled
                    else pending))))

unfoldable pub to_approval_state :
    ℕ → TransactionRow → List ExpenseApprovalRow → ApprovalPolicy → ApprovalStateRecord
unfolding approval_status
to_approval_state now t approvals policy = record {
  transaction_id = t.id;
  status = approval_status now approvals policy.required_approvals;
  required_approvals = policy.required_approvals;
  approved_count = approved_count approvals;
  pending_count = length (pending_rows approvals);
  rejected_count = rejected_count approvals;
  approvals = approvals;
  transaction = t;
}
