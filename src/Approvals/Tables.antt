-- ===== src/Approvals/Tables.antt =====
-- The statements and checks of the approval repository
-- (apps/api/src/modules/approvals/infrastructure/prisma-approvals.repository.ts).
use jimpitan.Base.{
  ℕ, zero, suc, String, ◌==◌, Bool, true, false, not, ◌&&◌, ◌||◌, Option, none, some, is_none, List,
  [], ◌∷◌, same_text, if◌then◌else◌,
}
use jimpitan.Finance.Schema.{ExpenseApprovalRow, TransactionRow}
use jimpitan.Jimpitan.Schema.{MembershipRow, RoleRow}
use jimpitan.Finance.Platform.{Platform}
use jimpitan.Finance.Monad.{
  bad_request, conflict, known_request, p2002, other_code, Error, Tx, ok, err, return, throw, gets,
  require, throw_if, ◌>>=◌,
}
use jimpitan.Finance.Tables.{new_date, is_validated, live_transaction}
use jimpitan.Finance.Guards.{approvals_of, is_pending, is_expense}
use jimpitan.Finance.Retry.{retry_from, max_attempts}
use jimpitan.Approvals.Schema.{ApprovalPolicy, ApprovalStateRecord}
use jimpitan.Approvals.State.{to_approval_state}

-- { id, rtId }
abbrev pub approval_at : String → String → ExpenseApprovalRow → Bool
approval_at rt_id id a = a.id == id && a.rt_id == rt_id

-- { id, rtId, status: PENDING }
abbrev pub pending_approval : String → String → ExpenseApprovalRow → Bool
pending_approval rt_id id a = approval_at rt_id id a && is_pending a.status

abbrev pub includes : List String → String → Bool
includes [] x = false
includes (y ∷ ys) x = y == x || includes ys x

-- { key: { in: keys }, deletedAt: null, OR: [{ rtId }, { rtId: null, isSystem: true }] }
abbrev pub approver_role : String → List String → RoleRow → Bool
approver_role rt_id keys r =
    includes keys r.key
    && is_none r.deleted_at
    && (same_text r.rt_id (some rt_id) || (is_none r.rt_id && r.is_system))

abbrev pub has_role : String → List String → List RoleRow → Bool
has_role rt_id keys [] = false
has_role rt_id keys (r ∷ rest) = approver_role rt_id keys r || has_role rt_id keys rest

-- An active membership of the tenant with a role that the policy names.
abbrev pub active_approver : String → ApprovalPolicy → MembershipRow → Bool
active_approver rt_id policy m =
    m.rt_id == rt_id && m.is_active && has_role rt_id policy.approver_role_keys m.roles

abbrev is_one : ℕ → Bool
is_one (suc zero) = true
is_one _ = false

unfoldable pub assert_single_approval_mutation : ℕ → Tx (Unit {0})
assert_single_approval_mutation count =
    throw_if (not (is_one count))
      (bad_request "Approval state changed while processing the request.")

unfoldable pub assert_validated_expense : TransactionRow → Tx (Unit {0})
assert_validated_expense t =
    throw_if (not (is_expense t.type) || not (is_validated t.status))
      (bad_request "Only validated expense transactions can request approval.")

abbrev pub is_unique_conflict : Error → Bool
is_unique_conflict (known_request p2002 _) = true
is_unique_conflict _ = false

-- `throwKnownConflict`
abbrev pub throw_known_approval_conflict : {A : Type 0} → Error → String → Tx A
throw_known_approval_conflict e message =
    if is_unique_conflict e then throw (conflict message) else throw e

-- `withSerializableRetry`
unfoldable pub with_approval_retry : {A : Type 0} → Tx A → Tx A
with_approval_retry operation =
    retry_from (conflict "Serializable approval transaction retry budget was exhausted.")
      max_attempts operation

module _ (P : Platform) where
  -- `findFirstOrThrow` throws P2025.
  abbrev pub or_not_found : {Row : Type 0} → Option Row → Tx Row
  or_not_found row = require row (known_request other_code [])

  unfoldable pub find_approval : String → String → Tx (Option ExpenseApprovalRow)
  find_approval rt_id id = gets (λ s. P.find_first (approval_at rt_id id) s.approvals)

  unfoldable pub find_approvals_of : String → String → Tx (List ExpenseApprovalRow)
  find_approvals_of rt_id transaction_id =
      gets (λ s. P.find_many (approvals_of rt_id transaction_id) s.approvals)

  -- No update of an approval writes a column of a unique index.
  unfoldable pub update_approvals :
      (ExpenseApprovalRow → Bool) → (ExpenseApprovalRow → ExpenseApprovalRow) → Tx ℕ
  update_approvals p f s =
      (ok (P.update_count p s.approvals), record s { approvals = P.update_many p f s.approvals })

  abbrev pub created : List ExpenseApprovalRow → List ExpenseApprovalRow → List ExpenseApprovalRow
  created [] table = table
  created (r ∷ rest) table = created rest (P.create r table)

  -- `createMany`
  unfoldable pub create_approvals : List ExpenseApprovalRow → Tx (Unit {0})
  create_approvals rows s =
      let table = created rows s.approvals in
      elim (P.approval_clash table) [
        | none ↦ (ok tt, record s { approvals = table })
        | some columns ↦ (err (known_request p2002 columns), s)
      ]

  unfoldable pub assert_active_approver_in_transaction :
      String → String → ApprovalPolicy → Tx (Unit {0})
  assert_active_approver_in_transaction rt_id membership_id policy = do
    membership ← gets (λ s.
        P.find_first (λ m. m.id == membership_id && active_approver rt_id policy m)
          s.directory.memberships)
    throw_if (is_none membership)
        (bad_request "Active approver membership with the required role is required.")

  -- The state is read off the rows at a time that is asked for there.
  unfoldable pub approval_state :
      TransactionRow → List ExpenseApprovalRow → ApprovalPolicy → Tx ApprovalStateRecord
  unfolding to_approval_state
  approval_state t approvals policy = do
    now ← new_date P
    return (to_approval_state now t approvals policy)

  -- `evaluateApprovalState`
  unfoldable pub evaluate_approval_state :
      String → String → ApprovalPolicy → Tx (Option ApprovalStateRecord)
  unfolding find_approvals_of approval_state
  evaluate_approval_state rt_id transaction_id policy = do
    found ← gets (λ s. P.find_first (live_transaction rt_id transaction_id) s.transactions)
    elim found [
      | none ↦ return none
      | some t ↦ do
        approvals ← find_approvals_of rt_id transaction_id
        state ← approval_state t approvals policy
        return (some state)
    ]
