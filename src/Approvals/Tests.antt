-- ===== src/Approvals/Tests.antt =====
-- The theorems on approvals at concrete tables.
use jimpitan.Base.{true, none, some, [], ◌∷◌, ◌≡◌, ◌↔◌, ◌⊎◌, refl}
use jimpitan.Base.Int.{pos}
use jimpitan.Finance.Schema.{
  TransactionStatus, TransactionRow, expense, ApprovalStatus, ExpenseApprovalRow, AuthPrincipal,
}
use jimpitan.Jimpitan.Schema.{MembershipRow}
use jimpitan.Finance.Platform.{Db}
use jimpitan.Finance.Platform.Memory.{memory}
use jimpitan.Finance.Monad.{Result, ok, err, bad_request}
use jimpitan.Finance.Guards.{assert_approvals, default_expense_approval_policy}
use jimpitan.Finance.Tables.{new_date, write_audit, update_transactions}
use jimpitan.Finance.Books.{SameBooks}
use jimpitan.Finance.Retry.{retry_from}
use jimpitan.Finance.Samples.{transaction_of, db_with, no_meta, treasurer, empty_directory}
use jimpitan.Approvals.Schema.{
  ApprovalPolicy, ApprovalStateRecord, ApprovalWorkflowStatus, reject, DecideExpenseApprovalCommand,
  RequestExpenseApprovalCommand,
}
use jimpitan.Approvals.State.{approval_status, to_approval_state}
use jimpitan.Approvals.Status.{Workflow, approval_status-Workflow}
use jimpitan.Approvals.Gate.{assert_approvals-approval_status}
use jimpitan.Approvals.Tables.{
  with_approval_retry, find_approval, find_approvals_of, update_approvals,
  assert_active_approver_in_transaction, approval_state, assert_single_approval_mutation,
}
use jimpitan.Approvals.Decision.{
  decide_approval, decide_body, assert_decidable, record_decision, reject_with_approval,
  completed_state,
}
use jimpitan.Approvals.Assignment.{request_approvals}
use jimpitan.Approvals.Decided.{Decided, decide_approval-Decided, decide_approval_atomic}
use jimpitan.Approvals.Requested.{Requested, request_approvals-Requested}

-- Unfolds the code that a decision runs.
decision_runs : Unit {0}
unfolding decide_approval with_approval_retry retry_from decide_body find_approval assert_decidable
    assert_active_approver_in_transaction record_decision new_date update_approvals
    assert_single_approval_mutation write_audit reject_with_approval update_transactions
    completed_state find_approvals_of approval_state to_approval_state approval_status
decision_runs = tt

abbrev chair_policy : ApprovalPolicy
chair_policy = record {
  threshold_amount = "50000";
  auto_approve_below_threshold = true;
  prevent_self_approval = true;
  approver_role_keys = "KETUA_RT" ∷ [];
  required_approvals = 1;
  expires_in_days = some 7;
}

abbrev chair : AuthPrincipal
chair = record {
  user_id = "u-2";
  membership_id = "m-2";
  rt_id = "rt-5";
  roles = "KETUA_RT" ∷ [];
  permissions = [];
}

abbrev chair_membership : MembershipRow
chair_membership = record {
  id = "m-2";
  rt_id = "rt-5";
  user_id = "u-2";
  is_active = true;
  roles = record { rt_id = none; key = "KETUA_RT"; is_system = true; deleted_at = none } ∷ [];
}

-- An expense of 80 000.00.
abbrev roof : TransactionRow
roof = transaction_of expense TransactionStatus.validated (pos 8000000)

abbrev db_roof : Db
db_roof = record (db_with roof) {
  directory = record empty_directory { memberships = chair_membership ∷ [] };
}

abbrev asked : ExpenseApprovalRow
asked = record {
  id = "a-1";
  rt_id = "rt-5";
  transaction_id = "t-1";
  requested_by_id = "u-1";
  approver_membership_id = "m-2";
  decision_by_id = none;
  idempotency_key = none;
  status = ApprovalStatus.pending;
  reason = none;
  decision_note = none;
  expires_at = none;
  decided_at = none;
}

abbrev db_asked : Db
db_asked = record db_roof { approvals = asked ∷ [] }

abbrev refusal : DecideExpenseApprovalCommand
refusal = record { decision = reject; decision_note = none }

abbrev refused : Result ApprovalStateRecord × Db
refused = decide_approval memory "rt-5" "a-1" refusal chair chair_policy no_meta db_asked

abbrev refused_row : ExpenseApprovalRow
refused_row = record asked {
  status = ApprovalStatus.rejected;
  decision_by_id = some "u-2";
  decided_at = some 7;
}

abbrev refused_state : ApprovalStateRecord
refused_state = record {
  transaction_id = "t-1";
  status = ApprovalWorkflowStatus.rejected;
  required_approvals = 1;
  approved_count = 0;
  pending_count = 0;
  rejected_count = 1;
  approvals = refused_row ∷ [];
  transaction = record roof {
    status = TransactionStatus.rejected;
    rejected_by_id = some "u-2";
    rejected_at = some 7;
    rejection_reason = some "Rejected by expense approval.";
    updated_by_id = some "u-2";
  };
}

refusal_is_answered : refused.0 ≡ ok refused_state
unfolding decision_runs
refusal_is_answered = refl

decide_approval-Decided_example :
    Decided memory "rt-5" "a-1" refusal chair chair_policy no_meta db_asked refused.1
decide_approval-Decided_example =
    decide_approval-Decided memory "rt-5" "a-1" refusal chair chair_policy no_meta db_asked
      refused_state refusal_is_answered

-- The treasurer is not the approver.
intruder_is_refused :
    (decide_approval memory "rt-5" "a-1" refusal treasurer chair_policy no_meta db_asked).0
    ≡ err (bad_request "Only assigned approvers can decide approvals.")
unfolding decision_runs
intruder_is_refused = refl

decide_approval_atomic_example :
    SameBooks db_asked
      (decide_approval memory "rt-5" "a-1" refusal treasurer chair_policy no_meta db_asked).1
decide_approval_atomic_example =
    decide_approval_atomic memory "rt-5" "a-1" refusal treasurer chair_policy no_meta db_asked
      (bad_request "Only assigned approvers can decide approvals.") intruder_is_refused

abbrev plea : RequestExpenseApprovalCommand
plea = record { reason = some "roof"; idempotency_key = some "k" }

request_approvals-Requested_example :
    SameBooks db_roof
      (request_approvals memory "rt-5" "t-1" plea treasurer chair_policy no_meta db_roof).1
    ⊎ Requested memory "rt-5" "t-1" plea treasurer chair_policy no_meta db_roof
        (request_approvals memory "rt-5" "t-1" plea treasurer chair_policy no_meta db_roof).1
request_approvals-Requested_example =
    request_approvals-Requested memory "rt-5" "t-1" plea treasurer chair_policy no_meta db_roof

approval_status-Workflow_example :
    Workflow 9 (refused_row ∷ asked ∷ []) 1 (approval_status 9 (refused_row ∷ asked ∷ []) 1)
approval_status-Workflow_example = approval_status-Workflow 9 (refused_row ∷ asked ∷ []) 1

assert_approvals-approval_status_example :
    (assert_approvals memory "rt-5" roof treasurer no_meta default_expense_approval_policy db_asked
      ≡ (ok tt, db_asked))
    ↔ (approval_status 9 (asked ∷ []) 1 ≡ ApprovalWorkflowStatus.approved)
assert_approvals-approval_status_example =
    assert_approvals-approval_status memory "rt-5" roof treasurer no_meta
      default_expense_approval_policy 9 db_asked
