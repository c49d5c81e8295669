-- ===== src/Approvals/Assignment.antt =====
-- Asking the approvers of an expense: `requestApprovals` of
-- apps/api/src/modules/approvals/infrastructure/prisma-approvals.repository.ts.
use Prim.Native.String.{◌++◌ as ◌<>◌}
use jimpitan.Base.{
  ℕ, zero, suc, ◌+◌, ◌*◌, String, Bool, not, ◌&&◌, Option, none, some, List, [], ◌∷◌, ltb, given,
  if◌then◌else◌,
}
use jimpitan.Base.Rows.{length}
use jimpitan.Finance.Schema.{
  ApprovalStatus, ExpenseApprovalRow, TransactionRow, AuthPrincipal, FinanceRequestMeta,
}
use jimpitan.Jimpitan.Schema.{MembershipRow}
use jimpitan.Finance.Platform.{Platform}
use jimpitan.Finance.Monad.{
  bad_request, Error, Tx, return, gets, require, throw_if, catch, transaction, ◌>>=◌, ◌>>◌,
}
use jimpitan.Finance.Tables.{
  audit_entry, new_date, new_id, write_audit, find_transaction_in_transaction,
}
use jimpitan.Approvals.Schema.{ApprovalPolicy, ApprovalStateRecord, RequestExpenseApprovalCommand}
use jimpitan.Approvals.Tables.{
  includes, active_approver, assert_validated_expense, is_unique_conflict,
  throw_known_approval_conflict, with_approval_retry, find_approvals_of, create_approvals,
  approval_state, evaluate_approval_state,
}

-- The users that may not approve.
abbrev pub excluded_users : TransactionRow → AuthPrincipal → ApprovalPolicy → List String
excluded_users t actor policy =
    if policy.prevent_self_approval then actor.user_id ∷ t.created_by_id ∷ [] else []

abbrev pub eligible_approver :
    String → TransactionRow → AuthPrincipal → ApprovalPolicy → MembershipRow → Bool
eligible_approver rt_id t actor policy m =
    active_approver rt_id policy m && not (includes (excluded_users t actor policy) m.user_id)

-- command.idempotencyKey ? `${command.idempotencyKey}:${approver.id}` : null
abbrev pub approver_key : Option String → String → Option String
approver_key key membership_id = elim (given key) [
  | none ↦ none
  | some k ↦ some (k <> ":" <> membership_id)
]

abbrev pub new_approval :
    String
    → String
    → RequestExpenseApprovalCommand
    → AuthPrincipal
    → Option ℕ
    → String
    → MembershipRow
    → ExpenseApprovalRow
new_approval rt_id transaction_id command actor expires_at id approver = record {
  id = id;
  rt_id = rt_id;
  transaction_id = transaction_id;
  requested_by_id = actor.user_id;
  approver_membership_id = approver.id;
  decision_by_id = none;
  idempotency_key = approver_key command.idempotency_key approver.id;
  status = ApprovalStatus.pending;
  reason = command.reason;
  decision_note = none;
  expires_at = expires_at;
  decided_at = none;
}

module _ (P : Platform) (rt_id transaction_id : String) (command : RequestExpenseApprovalCommand)
    (actor : AuthPrincipal) (policy : ApprovalPolicy) (meta : FinanceRequestMeta) where
  -- The rows of `createMany`, each with an identifier by the database's default.
  unfoldable pub new_approvals : Option ℕ → List MembershipRow → Tx (List ExpenseApprovalRow)
  new_approvals expires_at [] = return []
  new_approvals expires_at (m ∷ rest) = do
    id ← new_id P
    rows ← new_approvals expires_at rest
    return (new_approval rt_id transaction_id command actor expires_at id m ∷ rows)

  -- for (const approval of approvals)
  unfoldable pub audit_assigned : List ExpenseApprovalRow → Tx (Unit {0})
  audit_assigned [] = return tt
  audit_assigned (a ∷ rest) = do
    write_audit P (audit_entry rt_id actor meta "APPROVAL_ASSIGNED" "expense_approval" a.id)
    audit_assigned rest

  abbrev replay_audit : Tx (Unit {0})
  replay_audit =
      write_audit P
        (audit_entry rt_id actor meta "APPROVAL_REQUEST_REPLAYED" "transaction" transaction_id)

  -- A day has 86 400 000 milliseconds; no days, or a number of none, are no date.
  unfoldable pub expiry : Tx (Option ℕ)
  expiry = elim (policy.expires_in_days) [
    | none ↦ return none
    | some zero ↦ return none
    | some (suc d) ↦ new_date P >>= λ now. return (some (now + suc d * 86400000))
  ]

  -- The first request for a transaction.
  unfoldable pub assign_approvers : TransactionRow → Tx ApprovalStateRecord
  assign_approvers t = do
    approvers ←
        gets (λ s. P.find_many (eligible_approver rt_id t actor policy) s.directory.memberships)
    throw_if (ltb (length approvers) policy.required_approvals)
        (bad_request "Not enough active approvers are available for this expense policy.")
    expires_at ← expiry
    rows ← new_approvals expires_at approvers
    create_approvals P rows
    approvals ← find_approvals_of P rt_id transaction_id
    write_audit P (audit_entry rt_id actor meta "APPROVAL_REQUESTED" "transaction" transaction_id)
    audit_assigned approvals
    approval_state P t approvals policy

  unfoldable pub request_body : Tx ApprovalStateRecord
  request_body = do
    found ← find_transaction_in_transaction P rt_id transaction_id
    t ← require found (bad_request "Transaction was not found.")
    assert_validated_expense t
    existing ← find_approvals_of P rt_id transaction_id
    if ltb 0 (length existing)
        then replay_audit >> approval_state P t existing policy
        else assign_approvers t

  -- `resolveApprovalRequestConflict`
  unfoldable pub resolve_approval_request_conflict : Error → Tx (Option ApprovalStateRecord)
  resolve_approval_request_conflict e =
      if is_unique_conflict e
      then evaluate_approval_state P rt_id transaction_id policy
      else return none

  unfoldable pub request_conflict : Error → Tx ApprovalStateRecord
  request_conflict e = do
    replay ← resolve_approval_request_conflict e
    elim replay [
      | some state ↦ replay_audit >> return state
      | none ↦
          throw_known_approval_conflict e
            "Approval request could not be created because it already exists."
    ]

  unfoldable pub request_approvals : Tx ApprovalStateRecord
  request_approvals = catch (with_approval_retry (transaction P request_body)) request_conflict
