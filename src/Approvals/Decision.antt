-- ===== src/Approvals/Decision.antt =====
-- Deciding and cancelling an approval: `decideApproval` and `cancelApproval` of
-- apps/api/src/modules/approvals/infrastructure/prisma-approvals.repository.ts.
use jimpitan.Base.{ℕ, String, ◌==◌, Bool, not, ◌&&◌, ◌||◌, Option, none, some, otherwise}
use jimpitan.Finance.Schema.{
  ApprovalStatus, TransactionStatus, ExpenseApprovalRow, TransactionRow, AuthPrincipal,
  FinanceRequestMeta,
}
use jimpitan.Finance.Platform.{Platform}
use jimpitan.Finance.Monad.{
  bad_request, Tx, return, gets, require, throw_if, transaction, ◌>>=◌, ◌>>◌,
}
use jimpitan.Finance.Tables.{
  validated_transaction, audit_entry, new_date, write_audit, update_transactions,
}
use jimpitan.Finance.Guards.{is_pending}
use jimpitan.Approvals.Schema.{
  ApprovalPolicy, ApprovalStateRecord, ApprovalWorkflowStatus, ApprovalDecision, approve, reject,
  DecideExpenseApprovalCommand,
}
use jimpitan.Approvals.Tables.{
  pending_approval, assert_single_approval_mutation, with_approval_retry, or_not_found,
  find_approval, find_approvals_of, update_approvals, assert_active_approver_in_transaction,
  approval_state,
}

abbrev pub decided_status : ApprovalDecision → ApprovalStatus
decided_status approve = ApprovalStatus.approved
decided_status reject = ApprovalStatus.rejected

abbrev pub decision_action : ApprovalDecision → String
decision_action approve = "APPROVAL_APPROVED"
decision_action reject = "APPROVAL_REJECTED"

-- The change of a decided or cancelled row.
abbrev pub with_decision :
    ApprovalStatus → AuthPrincipal → Option String → ℕ → ExpenseApprovalRow → ExpenseApprovalRow
with_decision status actor remark at a = record a {
  status = status;
  decision_by_id = some actor.user_id;
  decision_note = remark;
  decided_at = some at;
}

-- The change of the transaction that a rejection refuses.
abbrev pub rejected_by_approval :
    AuthPrincipal → Option String → ℕ → TransactionRow → TransactionRow
rejected_by_approval actor remark at t = record t {
  status = TransactionStatus.rejected;
  rejected_by_id = some actor.user_id;
  rejected_at = some at;
  rejection_reason = some (otherwise remark "Rejected by expense approval.");
  updated_by_id = some actor.user_id;
}

abbrev pub is_self_approval :
    ApprovalPolicy → ExpenseApprovalRow → Option TransactionRow → AuthPrincipal → Bool
is_self_approval policy a t actor =
    policy.prevent_self_approval
    && (a.requested_by_id == actor.user_id
        || (elim t [ none ↦ Bool.false | some row ↦ row.created_by_id == actor.user_id ]))

module _ (P : Platform) where
  -- The transaction is rejected with the approval, or stays as it is.
  unfoldable pub reject_with_approval :
      String
      → ExpenseApprovalRow
      → DecideExpenseApprovalCommand
      → ℕ
      → AuthPrincipal
      → FinanceRequestMeta
      → Tx (Unit {0})
  reject_with_approval rt_id before command decided_at actor meta = elim (command.decision) [
    | approve ↦ return tt
    | reject ↦ do
      count ←
          update_transactions P (validated_transaction rt_id before.transaction_id)
            (rejected_by_approval actor command.decision_note decided_at)
      assert_single_approval_mutation count
      write_audit P (
          audit_entry rt_id actor meta "TRANSACTION_REJECTED_BY_APPROVAL" "transaction"
            before.transaction_id)
  ]

  -- The state after the decision, logged where it completes the approval.
  unfoldable pub completed_state :
      String → String → ApprovalPolicy → AuthPrincipal → FinanceRequestMeta → Tx ApprovalStateRecord
  completed_state rt_id transaction_id policy actor meta = do
    approvals ← find_approvals_of P rt_id transaction_id
    found ←
        gets (λ s. P.find_first (λ t. t.id == transaction_id && t.rt_id == rt_id) s.transactions)
    t ← or_not_found P found
    state ← approval_state P t approvals policy
    elim (state.status) [
      | ApprovalWorkflowStatus.approved ↦ do
        write_audit P
            (audit_entry rt_id actor meta "APPROVAL_COMPLETED" "transaction" transaction_id)
        return state
      | _ ↦ return state
    ]

  -- The checks of `decideApproval` on the row that it has found.
  unfoldable pub assert_decidable :
      String → ExpenseApprovalRow → AuthPrincipal → ApprovalPolicy → Tx (Unit {0})
  assert_decidable rt_id before actor policy = do
    throw_if (not (is_pending before.status)) (bad_request "Approval has already been finalized.")
    throw_if (not (before.approver_membership_id == actor.membership_id))
        (bad_request "Only assigned approvers can decide approvals.")
    t ← gets (λ s. P.find_first (λ r. r.id == before.transaction_id) s.transactions)
    throw_if (is_self_approval policy before t actor)
        (bad_request "Self approval is not allowed by policy.")
    assert_active_approver_in_transaction P rt_id actor.membership_id policy

  -- The writes of `decideApproval` after its checks.
  unfoldable pub record_decision :
      String
      → String
      → ExpenseApprovalRow
      → DecideExpenseApprovalCommand
      → AuthPrincipal
      → ApprovalPolicy
      → FinanceRequestMeta
      → Tx ApprovalStateRecord
  record_decision rt_id approval_id before command actor policy meta = do
    decided_at ← new_date P
    count ←
        update_approvals P (pending_approval rt_id approval_id)
          (with_decision (decided_status command.decision) actor command.decision_note decided_at)
    assert_single_approval_mutation count
    after ← find_approval P rt_id approval_id
    or_not_found P after
    write_audit P (
        audit_entry rt_id actor meta (decision_action command.decision) "expense_approval"
          approval_id)
    reject_with_approval rt_id before command decided_at actor meta
    completed_state rt_id before.transaction_id policy actor meta

  unfoldable pub decide_body :
      String
      → String
      → DecideExpenseApprovalCommand
      → AuthPrincipal
      → ApprovalPolicy
      → FinanceRequestMeta
      → Tx ApprovalStateRecord
  decide_body rt_id approval_id command actor policy meta = do
    found ← find_approval P rt_id approval_id
    before ← require found (bad_request "Approval was not found.")
    assert_decidable rt_id before actor policy
    record_decision rt_id approval_id before command actor policy meta

  unfoldable pub decide_approval :
      String
      → String
      → DecideExpenseApprovalCommand
      → AuthPrincipal
      → ApprovalPolicy
      → FinanceRequestMeta
      → Tx ApprovalStateRecord
  decide_approval rt_id approval_id command actor policy meta =
      with_approval_retry (transaction P (decide_body rt_id approval_id command actor policy meta))

  -- Cancelling an approval that has been found.
  unfoldable pub cancel_found_approval :
      String
      → String
      → String
      → AuthPrincipal
      → FinanceRequestMeta
      → ExpenseApprovalRow
      → Tx (Option ExpenseApprovalRow)
  cancel_found_approval rt_id approval_id reason actor meta before = do
    throw_if (not (is_pending before.status))
        (bad_request "Only pending approvals can be cancelled.")
    at ← new_date P
    count ←
        update_approvals P (pending_approval rt_id approval_id)
          (with_decision ApprovalStatus.cancelled actor (some reason) at)
    assert_single_approval_mutation count
    found ← find_approval P rt_id approval_id
    after ← or_not_found P found
    write_audit P (audit_entry rt_id actor meta "APPROVAL_CANCELLED" "expense_approval" approval_id)
    return (some after)

  unfoldable pub cancel_approval :
      String → String → String → AuthPrincipal → FinanceRequestMeta → Tx (Option ExpenseApprovalRow)
  cancel_approval rt_id approval_id reason actor meta = transaction P (do
    found ← find_approval P rt_id approval_id
    elim found [
      | none ↦ return none
      | some before ↦ cancel_found_approval rt_id approval_id reason actor meta before
    ])
