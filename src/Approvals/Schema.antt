-- ===== src/Approvals/Schema.antt =====
-- The policy and the answer of the approval workflow
-- (apps/api/src/modules/approvals/domain/approval.types.ts) and its commands
-- (apps/api/src/modules/approvals/application/approvals.commands.ts).
use jimpitan.Base.{ℕ, String, Bool, Option, List}
use jimpitan.Finance.Schema.{ExpenseApprovalRow, TransactionRow}

pub data ApprovalWorkflowStatus : Type 0 where
  not_required pending approved rejected cancelled expired : ApprovalWorkflowStatus

-- The days are a whole number.
pub record ApprovalPolicy : Type 0 where
  pub threshold_amount : String
  pub auto_approve_below_threshold : Bool
  pub prevent_self_approval : Bool
  pub approver_role_keys : List String
  pub required_approvals : ℕ
  pub expires_in_days : Option ℕ

pub record ApprovalStateRecord : Type 0 where
  pub transaction_id : String
  pub status : ApprovalWorkflowStatus
  pub required_approvals : ℕ
  pub approved_count : ℕ
  pub pending_count : ℕ
  pub rejected_count : ℕ
  pub approvals : List ExpenseApprovalRow
  pub transaction : TransactionRow

pub record RequestExpenseApprovalCommand : Type 0 where
  pub reason : Option String
  pub idempotency_key : Option String

-- The two statuses that a decision may be.
pub data ApprovalDecision : Type 0 where
  approve reject : ApprovalDecision

pub record DecideExpenseApprovalCommand : Type 0 where
  pub decision : ApprovalDecision
  pub decision_note : Option String
