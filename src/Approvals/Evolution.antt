-- ===== src/Approvals/Evolution.antt =====
-- The history relation for the requests of the approval repository
-- (apps/api/src/modules/approvals/infrastructure/prisma-approvals.repository.ts).
use jimpitan.Base.{
  ◌==◌, ℕ, String, Bool, true, ◌&&◌, Option, none, some, List, [], ◌∷◌, inr, ◌≡◌, refl, sym, subst,
  ltb, arith,
}
use jimpitan.Base.Kept.{Kept, Kept-set_where, Kept-create}
use jimpitan.Base.Rows.{length}
use jimpitan.Finance.Schema.{
  ApprovalStatus, ExpenseApprovalRow, TransactionRow, AuthPrincipal, FinanceRequestMeta,
}
use jimpitan.Finance.Platform.{Db, Platform}
use jimpitan.Jimpitan.Schema.{MembershipRow}
use jimpitan.Finance.Monad.{Error, bad_request, known_request, other_code, Tx, return, ◌>>=◌, ◌>>◌}
use jimpitan.Finance.Tables.{
  is_validated, validated_transaction, new_date, write_audit, audit_entry, update_transactions,
}
use jimpitan.Finance.Guards.{is_pending}
use jimpitan.Finance.History.{
  TransactionKept, ApprovalKept, ApprovalKept-refl, ApprovalMove, approving, refusing, withdrawing,
  History, History-refl, same-History,
}
use jimpitan.Finance.Evolution.{to_rejected, changed_to}
use jimpitan.Finance.Keeps.{
  Keeps, bind, and_then, option-Keeps, if-Keeps, reads, return-Keeps, throw-Keeps, gets-Keeps,
  require-Keeps, throw_if-Keeps, catch-Keeps, transaction-Keeps, retry_from-Keeps,
}
use jimpitan.Finance.Statements.{
  new_date-Keeps, new_id-Keeps, write_audit-Keeps, find_transaction-Keeps,
  update_transactions-Keeps,
}
use jimpitan.Approvals.Schema.{
  ApprovalPolicy, ApprovalStateRecord, ApprovalWorkflowStatus, ApprovalDecision, approve, reject,
  DecideExpenseApprovalCommand, RequestExpenseApprovalCommand,
}
use jimpitan.Approvals.Tables.{
  pending_approval, with_approval_retry, assert_single_approval_mutation, assert_validated_expense,
  find_approval, find_approvals_of, update_approvals, created, create_approvals,
  assert_active_approver_in_transaction, approval_state, evaluate_approval_state,
  is_unique_conflict,
}
use jimpitan.Approvals.Decision.{
  with_decision, rejected_by_approval, decided_status, reject_with_approval, completed_state,
  assert_decidable, record_decision, decide_body, decide_approval, cancel_found_approval,
  cancel_approval,
}
use jimpitan.Approvals.Assignment.{
  eligible_approver, new_approvals, audit_assigned, expiry, assign_approvers, request_body,
  resolve_approval_request_conflict, request_conflict, request_approvals,
}

-- Another content of the approvals, with the rest of the tables as they were.
with_approvals :
    (s : Db) (rows : List ExpenseApprovalRow)
    → Kept ApprovalKept s.approvals rows
    → History s (record s { approvals = rows })
with_approvals s rows h = record {
  transactions = (History-refl s).transactions;
  ledgers = (History-refl s).ledgers;
  collections = (History-refl s).collections;
  approvals = h;
  notifications = (History-refl s).notifications;
  outbox = (History-refl s).outbox;
}

-- A pending row that is given another status by a decision.
decided-Kept :
    (status : ApprovalStatus) (actor : AuthPrincipal) (remark : Option String) (at : ℕ)
    → ApprovalMove ApprovalStatus.pending status
    → (a : ExpenseApprovalRow) → is_pending a.status ≡ true
    → ApprovalKept a (with_decision status actor remark at a)
decided-Kept status actor remark at step a h = record {
  same_id = refl;
  same_tenant = refl;
  same_transaction = refl;
  same_requester = refl;
  same_approver = refl;
  change = inr (leaves a.status h);
}
  where
    leaves : (was : ApprovalStatus) → is_pending was ≡ true → ApprovalMove was status
    leaves ApprovalStatus.pending q = step
    leaves ApprovalStatus.approved q = absurd (ground arith)
    leaves ApprovalStatus.rejected q = absurd (ground arith)
    leaves ApprovalStatus.cancelled q = absurd (ground arith)

decision_move : (d : ApprovalDecision) → ApprovalMove ApprovalStatus.pending (decided_status d)
decision_move approve = approving
decision_move reject = refusing

refused-Kept :
    (actor : AuthPrincipal) (remark : Option String) (at : ℕ) (t : TransactionRow)
    → is_validated t.status ≡ true
    → TransactionKept t (rejected_by_approval actor remark at t)
refused-Kept actor remark at t h =
    changed_to t (rejected_by_approval actor remark at t) refl refl
      (to_rejected t.status (ground arith)) (ground arith)

module _ (P : Platform) where
  update_approvals-Keeps :
      (p : ExpenseApprovalRow → Bool) (f : ExpenseApprovalRow → ExpenseApprovalRow)
      → ((a : ExpenseApprovalRow) → p a ≡ true → ApprovalKept a (f a))
      → Keeps (update_approvals P p f)
  unfolding update_approvals
  update_approvals-Keeps p f step = record {
    at = λ s. with_approvals s (P.update_many p f s.approvals) (
        subst (Kept ApprovalKept s.approvals) (sym (P.update_many_lem p f s.approvals))
          (Kept-set_where ApprovalKept ApprovalKept-refl p f step s.approvals));
  }

  created-Kept :
      (rows table later : List ExpenseApprovalRow)
      → Kept ApprovalKept table later
      → Kept ApprovalKept table (created P rows later)
  created-Kept [] table later h = h
  created-Kept (r ∷ rest) table later h = created-Kept rest table (P.create r later) (
      subst (Kept ApprovalKept table) (sym (P.create_lem r later))
        (Kept-create ApprovalKept ApprovalKept-refl r table later h))

  create_approvals-Keeps : (rows : List ExpenseApprovalRow) → Keeps (create_approvals P rows)
  unfolding create_approvals
  create_approvals-Keeps rows = record {
    at = λ s. stored s (P.approval_clash (created P rows s.approvals)) refl;
  }
    where
      stored :
          (s : Db) (clash : Option (List String))
          → P.approval_clash (created P rows s.approvals) ≡ clash
          → History s (create_approvals P rows s).1
      stored s none e =
          let table = created P rows s.approvals in
          let q : (create_approvals P rows s).1 ≡ record s { approvals = table } = ground arith in
          subst (History s) (sym q) (
            with_approvals s table
              (created-Kept rows s.approvals s.approvals ((History-refl s).approvals)))
      stored s (some columns) e =
          let q : (create_approvals P rows s).1 ≡ s = ground arith in
          subst (History s) (sym q) (History-refl s)

  approval_state-Keeps :
      (t : TransactionRow) (rows : List ExpenseApprovalRow) (policy : ApprovalPolicy)
      → Keeps (approval_state P t rows policy)
  unfolding approval_state
  approval_state-Keeps t rows policy = bind (new_date-Keeps P) (λ now. return-Keeps _)

  find_approval-Keeps : (rt_id id : String) → Keeps (find_approval P rt_id id)
  unfolding find_approval
  find_approval-Keeps rt_id id = gets-Keeps _

  find_approvals-Keeps : (rt_id id : String) → Keeps (find_approvals_of P rt_id id)
  unfolding find_approvals_of
  find_approvals-Keeps rt_id id = gets-Keeps _

  mutation-Keeps : (n : ℕ) → Keeps (assert_single_approval_mutation n)
  unfolding assert_single_approval_mutation
  mutation-Keeps n = throw_if-Keeps _ _

module _ (P : Platform) (rt_id : String) (actor : AuthPrincipal) (meta : FinanceRequestMeta) where
  pub cancel_approval-Keeps :
      (id reason : String) → Keeps (cancel_approval P rt_id id reason actor meta)
  unfolding cancel_approval cancel_found_approval
  cancel_approval-Keeps id reason = transaction-Keeps P (
      bind (find_approval-Keeps P rt_id id) (λ found.
        option-Keeps found (return-Keeps none) (λ before. and_then (throw_if-Keeps _ _) (
          bind (new_date-Keeps P) (λ at.
            bind
              (update_approvals-Keeps P (pending_approval rt_id id)
                (with_decision ApprovalStatus.cancelled actor (some reason) at)
                (λ a h.
                  decided-Kept ApprovalStatus.cancelled actor (some reason) at withdrawing a
                    (ground arith)))
              (λ count. and_then (mutation-Keeps P count) (
                bind (find_approval-Keeps P rt_id id) (λ found.
                  bind (require-Keeps found _)
                    (λ after. and_then (write_audit-Keeps P _) (return-Keeps (some after)))))))))))

module _ (P : Platform) (rt_id : String) (actor : AuthPrincipal) (policy : ApprovalPolicy)
    (meta : FinanceRequestMeta) where
  assert_decidable-Keeps :
      (before : ExpenseApprovalRow) → Keeps (assert_decidable P rt_id before actor policy)
  unfolding assert_decidable assert_active_approver_in_transaction
  assert_decidable-Keeps before = reads (λ s. ground arith)

  completed_state-Keeps :
      (transaction_id : String) → Keeps (completed_state P rt_id transaction_id policy actor meta)
  unfolding completed_state
  completed_state-Keeps transaction_id =
      bind (find_approvals-Keeps P rt_id transaction_id) (λ approvals.
        bind
          (gets-Keeps (λ s.
            P.find_first (λ (t : TransactionRow). t.id == transaction_id && t.rt_id == rt_id)
              s.transactions))
          (λ found. bind (require-Keeps found (known_request other_code [])) (λ t.
            bind (approval_state-Keeps P t approvals policy) (λ state. logged state state.status))))
    where
      logged :
          (state : ApprovalStateRecord) (w : ApprovalWorkflowStatus)
          → Keeps (elim w as (λ _. Tx ApprovalStateRecord) [
            | ApprovalWorkflowStatus.approved ↦ do
              write_audit P
                  (audit_entry rt_id actor meta "APPROVAL_COMPLETED" "transaction" transaction_id)
              return state
            | _ ↦ return state
          ])
      logged state ApprovalWorkflowStatus.approved =
          and_then (write_audit-Keeps P _) (return-Keeps state)
      logged state ApprovalWorkflowStatus.not_required = return-Keeps state
      logged state ApprovalWorkflowStatus.pending = return-Keeps state
      logged state ApprovalWorkflowStatus.rejected = return-Keeps state
      logged state ApprovalWorkflowStatus.cancelled = return-Keeps state
      logged state ApprovalWorkflowStatus.expired = return-Keeps state

  reject_with_approval-Keeps :
      (before : ExpenseApprovalRow) (command : DecideExpenseApprovalCommand) (at : ℕ)
      → Keeps (reject_with_approval P rt_id before command at actor meta)
  unfolding reject_with_approval
  reject_with_approval-Keeps before command at = by_decision command.decision
    where
      by_decision :
          (d : ApprovalDecision)
          → Keeps (elim d as (λ _. Tx (Unit {0})) [
            | approve ↦ return tt
            | reject ↦ do
              count ←
                  update_transactions P
                    (validated_transaction rt_id before.transaction_id)
                    (rejected_by_approval actor command.decision_note at)
              assert_single_approval_mutation count
              write_audit P (
                  audit_entry rt_id actor meta "TRANSACTION_REJECTED_BY_APPROVAL" "transaction"
                    before.transaction_id)
          ])
      by_decision approve = return-Keeps tt
      by_decision reject =
          bind
            (update_transactions-Keeps P (validated_transaction rt_id before.transaction_id)
              (rejected_by_approval actor command.decision_note at)
              (λ t h. refused-Kept actor command.decision_note at t (ground arith)))
            (λ count. and_then (mutation-Keeps P count) (write_audit-Keeps P _))

  record_decision-Keeps :
      (id : String) (before : ExpenseApprovalRow) (command : DecideExpenseApprovalCommand)
      → Keeps (record_decision P rt_id id before command actor policy meta)
  unfolding record_decision
  record_decision-Keeps id before command = bind (new_date-Keeps P) (λ at.
      bind
        (update_approvals-Keeps P (pending_approval rt_id id)
          (with_decision (decided_status command.decision) actor command.decision_note at)
          (λ a h.
            decided-Kept (decided_status command.decision) actor command.decision_note at
              (decision_move command.decision) a (ground arith)))
        (λ count. and_then (mutation-Keeps P count) (
          bind (find_approval-Keeps P rt_id id) (λ after. and_then (require-Keeps after _) (
            and_then (write_audit-Keeps P _) (
              and_then (reject_with_approval-Keeps before command at)
                (completed_state-Keeps before.transaction_id)))))))

  pub decide_approval-Keeps :
      (id : String) (command : DecideExpenseApprovalCommand)
      → Keeps (decide_approval P rt_id id command actor policy meta)
  unfolding decide_approval decide_body with_approval_retry
  decide_approval-Keeps id command =
      retry_from-Keeps _ _
        (transaction-Keeps P (
          bind (find_approval-Keeps P rt_id id) (λ found. bind (require-Keeps found _) (λ before.
            and_then (assert_decidable-Keeps before) (record_decision-Keeps id before command)))))
        3

  module _ (transaction_id : String) (command : RequestExpenseApprovalCommand) where
    new_approvals-Keeps :
        (at : Option ℕ) (approvers : List MembershipRow)
        → Keeps (new_approvals P rt_id transaction_id command actor policy meta at approvers)
    unfolding new_approvals
    new_approvals-Keeps at [] = return-Keeps []
    new_approvals-Keeps at (m ∷ rest) =
        bind (new_id-Keeps P) (λ id. bind (new_approvals-Keeps at rest) (λ rows. return-Keeps _))

    audit_assigned-Keeps :
        (rows : List ExpenseApprovalRow)
        → Keeps (audit_assigned P rt_id transaction_id command actor policy meta rows)
    unfolding audit_assigned
    audit_assigned-Keeps [] = return-Keeps tt
    audit_assigned-Keeps (a ∷ rest) = and_then (write_audit-Keeps P _) (audit_assigned-Keeps rest)

    expiry-Keeps : Keeps (expiry P rt_id transaction_id command actor policy meta)
    unfolding expiry new_date
    expiry-Keeps = record {
      at = λ s.
          same-History s (expiry P rt_id transaction_id command actor policy meta s).1
            (ground arith) (ground arith) (ground arith) (ground arith) (ground arith)
            (ground arith);
    }

    assign_approvers-Keeps :
        (t : TransactionRow)
        → Keeps (assign_approvers P rt_id transaction_id command actor policy meta t)
    unfolding assign_approvers
    assign_approvers-Keeps t =
        bind
          (gets-Keeps
            (λ s. P.find_many (eligible_approver rt_id t actor policy) s.directory.memberships))
          (λ approvers.
            and_then
              (throw_if-Keeps (ltb (length approvers) policy.required_approvals)
                (bad_request "Not enough active approvers are available for this expense policy."))
              (bind expiry-Keeps (λ at. bind (new_approvals-Keeps at approvers) (λ rows.
                and_then (create_approvals-Keeps P rows) (
                  bind (find_approvals-Keeps P rt_id transaction_id) (λ approvals.
                    and_then
                      (write_audit-Keeps P (
                        audit_entry rt_id actor meta "APPROVAL_REQUESTED" "transaction"
                          transaction_id))
                      (and_then (audit_assigned-Keeps approvals)
                        (approval_state-Keeps P t approvals policy))))))))

    request_body-Keeps : Keeps (request_body P rt_id transaction_id command actor policy meta)
    unfolding request_body
    request_body-Keeps = bind (find_transaction-Keeps P rt_id transaction_id) (λ found.
        bind (require-Keeps found _) (λ t.
          and_then
            (reads {m = assert_validated_expense t} (λ s. unfold assert_validated_expense in refl))
            (bind (find_approvals-Keeps P rt_id transaction_id) (λ existing.
              if-Keeps (ltb 0 (length existing))
                (and_then (write_audit-Keeps P _) (approval_state-Keeps P t existing policy))
                (assign_approvers-Keeps t)))))

    evaluate-Keeps : Keeps (evaluate_approval_state P rt_id transaction_id policy)
    unfolding evaluate_approval_state
    evaluate-Keeps = bind (gets-Keeps _) (λ found. option-Keeps found (return-Keeps none) (λ t.
        bind (find_approvals-Keeps P rt_id transaction_id) (λ approvals.
          bind (approval_state-Keeps P t approvals policy) (λ state. return-Keeps (some state)))))

    request_conflict-Keeps :
        (e : Error) → Keeps (request_conflict P rt_id transaction_id command actor policy meta e)
    unfolding request_conflict resolve_approval_request_conflict
    request_conflict-Keeps e =
        bind (if-Keeps (is_unique_conflict e) evaluate-Keeps (return-Keeps none)) (λ replay.
          option-Keeps replay (if-Keeps (is_unique_conflict e) (throw-Keeps _) (throw-Keeps e))
            (λ state. and_then (write_audit-Keeps P _) (return-Keeps state)))

    pub request_approvals-Keeps :
        Keeps (request_approvals P rt_id transaction_id command actor policy meta)
    unfolding request_approvals with_approval_retry
    request_approvals-Keeps =
        catch-Keeps (retry_from-Keeps _ _ (transaction-Keeps P request_body-Keeps) 3)
          request_conflict-Keeps
