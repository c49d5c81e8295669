-- ===== src/Approvals/Decided.antt =====
-- The ends of `decideApproval`
-- (apps/api/src/modules/approvals/infrastructure/prisma-approvals.repository.ts).
use jimpitan.Base.{
  ℕ, zero, suc, String, ◌==◌, Bool, true, false, ◌&&◌, Option, none, some, List, ◌≡◌, refl, sym, ap,
  subst, ◌∙◌, arith,
}
use jimpitan.Base.Rows.{length, select, set_where, Has}
use jimpitan.Finance.Schema.{ExpenseApprovalRow, TransactionRow, AuthPrincipal, FinanceRequestMeta}
use jimpitan.Jimpitan.Schema.{MembershipRow, Directory}
use jimpitan.Finance.Platform.{Db, Platform}
use jimpitan.Finance.Monad.{
  Error, Result, ok, err, Tx, next_tick, conflict, transaction, ◌>>=◌, ◌>>◌,
}
use jimpitan.Finance.Books.{
  SameBooks, Outcome, bind-ok, check-ok, transaction-Outcome, retry_from-Outcome,
}
use jimpitan.Finance.Tables.{
  validated_transaction, new_date, write_audit, update_transactions, audit_entry,
}
use jimpitan.Finance.Guards.{is_pending}
use jimpitan.Approvals.Schema.{
  ApprovalPolicy, ApprovalStateRecord, ApprovalDecision, approve, reject,
  DecideExpenseApprovalCommand,
}
use jimpitan.Approvals.Tables.{
  approval_at, pending_approval, active_approver, assert_single_approval_mutation,
  with_approval_retry, or_not_found, find_approval, find_approvals_of, update_approvals,
  assert_active_approver_in_transaction, approval_state,
}
use jimpitan.Approvals.Decision.{
  decided_status, with_decision, rejected_by_approval, is_self_approval, reject_with_approval,
  completed_state, assert_decidable, record_decision, decide_body, decide_approval, decision_action,
}

-- What the retries leave of a body's writes.
pub approval_retry-Outcome :
    (P : Platform) {A : Type 0} (body : Tx A) (s : Db)
    → Outcome body s (with_approval_retry (transaction P body) s)
unfolding with_approval_retry
approval_retry-Outcome P body s =
    retry_from-Outcome (conflict "Serializable approval transaction retry budget was exhausted.")
      body (transaction P body) (transaction-Outcome P body) 3 s

module _ (P : Platform) (rt_id approval_id : String) (command : DecideExpenseApprovalCommand)
    (actor : AuthPrincipal) (policy : ApprovalPolicy) (meta : FinanceRequestMeta) where
  -- The transactions after a decision: a rejection has found one validated row, and rejected it.
  abbrev pub TransactionsAfter :
      ApprovalDecision → ExpenseApprovalRow → ℕ → List TransactionRow → List TransactionRow → Type 0
  TransactionsAfter approve before at rows later = later ≡ rows
  TransactionsAfter reject before at rows later =
      (length (select (validated_transaction rt_id before.transaction_id) rows) ≡ 1)
      × (later
          ≡ set_where (validated_transaction rt_id before.transaction_id)
              (rejected_by_approval actor command.decision_note at) rows)

  -- The checks that a row has passed.
  pub record Decidable (before : ExpenseApprovalRow) (s : Db) : Type 0 where
    pub open_row : is_pending before.status ≡ true
    pub assigned : before.approver_membership_id == actor.membership_id ≡ true
    pub not_self :
        is_self_approval policy before
          (P.find_first (λ r. r.id == before.transaction_id) s.transactions)
          actor
        ≡ false
    pub approver : MembershipRow
    pub active :
        Has
          (λ m. m.id == actor.membership_id && active_approver rt_id policy m)
          approver
          s.directory.memberships

  -- The writes of a decision.
  pub record Written (before : ExpenseApprovalRow) (s s' : Db) : Type 0 where
    pub at : ℕ
    pub single : length (select (pending_approval rt_id approval_id) s.approvals) ≡ 1
    pub approvals :
        s'.approvals
        ≡ set_where
            (pending_approval rt_id approval_id)
            (with_decision (decided_status command.decision) actor command.decision_note at)
            s.approvals
    pub transactions : TransactionsAfter command.decision before at s.transactions s'.transactions
    pub ledgers : s'.ledgers ≡ s.ledgers
    pub accounts : s'.accounts ≡ s.accounts

  pub record Decided (s s' : Db) : Type 0 where
    pub before : ExpenseApprovalRow
    pub found : Has (approval_at rt_id approval_id) before s.approvals
    pub checked : Decidable before s
    pub written : Written before s s'

  assert_decidable-Decidable :
      (before : ExpenseApprovalRow) (s u : Db)
      → assert_decidable P rt_id before actor policy s ≡ (ok tt, u)
      → Decidable before s
  unfolding assert_decidable assert_active_approver_in_transaction
  assert_decidable-Decidable before s u h =
      member
        (P.find_first (λ m. m.id == actor.membership_id && active_approver rt_id policy m)
          s.directory.memberships)
        refl
    where
      member :
          (o : Option MembershipRow)
          → P.find_first
              (λ m. m.id == actor.membership_id && active_approver rt_id policy m)
              s.directory.memberships
            ≡ o
          → Decidable before s
      member none e = absurd (ground arith)
      member (some m) e = record {
        open_row = ground arith;
        assigned = ground arith;
        not_self = ground arith;
        approver = m;
        active = P.find_first_some _ s.directory.memberships m e;
      }

  assert_decidable-quiet :
      (before : ExpenseApprovalRow) (s u : Db)
      → assert_decidable P rt_id before actor policy s ≡ (ok tt, u)
      → u ≡ s
  unfolding assert_decidable assert_active_approver_in_transaction
  assert_decidable-quiet before s u h = ground arith

  single-one : (n : ℕ) (s u : Db) → assert_single_approval_mutation n s ≡ (ok tt, u) → n ≡ 1
  unfolding assert_single_approval_mutation
  single-one zero s u h = ground arith
  single-one (suc zero) s u h = refl
  single-one (suc (suc n)) s u h = ground arith

  completed-SameBooks :
      (transaction_id : String) (s u : Db) (st : ApprovalStateRecord)
      → completed_state P rt_id transaction_id policy actor meta s ≡ (ok st, u)
      → SameBooks s u
  unfolding completed_state find_approvals_of approval_state new_date write_audit
  completed-SameBooks transaction_id s u st h = ground arith

  single-quiet : (n : ℕ) (s u : Db) → assert_single_approval_mutation n s ≡ (ok tt, u) → u ≡ s
  unfolding assert_single_approval_mutation
  single-quiet n s u h = ground arith

  -- What a rejection leaves of the tables that it does not write.
  record Rejected (before : ExpenseApprovalRow) (at : ℕ) (s u : Db) : Type 0 where
    transactions : TransactionsAfter command.decision before at s.transactions u.transactions
    ledgers : u.ledgers ≡ s.ledgers
    accounts : u.accounts ≡ s.accounts
    approvals : u.approvals ≡ s.approvals

  update_transactions-ok :
      (p : TransactionRow → Bool) (f : TransactionRow → TransactionRow) (s u : Db) (n : ℕ)
      → update_transactions P p f s ≡ (ok n, u)
      → (n ≡ length (select p s.transactions))
        × (u ≡ record s { transactions = set_where p f s.transactions })
  unfolding update_transactions
  update_transactions-ok p f s u n h = (
    ground (arith, P.update_count_lem p s.transactions),
    ground (arith, P.update_many_lem p f s.transactions),
  )

  refused_transaction :
      (before : ExpenseApprovalRow) (at : ℕ) (s u : Db)
      → (update_transactions P
              (validated_transaction rt_id before.transaction_id)
              (rejected_by_approval actor command.decision_note at)
            >>= λ count.
                assert_single_approval_mutation count
                >> write_audit P (
                    audit_entry rt_id actor meta "TRANSACTION_REJECTED_BY_APPROVAL" "transaction"
                      before.transaction_id))
          s
        ≡ (ok tt, u)
      → (length (select (validated_transaction rt_id before.transaction_id) s.transactions) ≡ 1)
        × SameBooks
            (record s {
              transactions =
                  set_where
                    (validated_transaction rt_id before.transaction_id)
                    (rejected_by_approval actor command.decision_note at)
                    s.transactions;
            })
            u
  unfolding write_audit
  refused_transaction before at s u h =
      let p = validated_transaction rt_id before.transaction_id in
      let f = rejected_by_approval actor command.decision_note at in
      let log = write_audit P (
        audit_entry rt_id actor meta "TRANSACTION_REJECTED_BY_APPROVAL" "transaction"
          before.transaction_id) in
      let q =
        bind-ok (update_transactions P p f) (λ count. assert_single_approval_mutation count >> log)
          s tt u h in
      let stored = update_transactions-ok p f s q.between q.value q.before in
      let checks =
        check-ok (assert_single_approval_mutation q.value) log (λ a b k. single-quiet q.value a b k)
          q.between tt u q.after in
      (
        sym (stored.0) ∙ single-one q.value q.between q.between (checks.0),
        logged q.between u (checks.1) (stored.1),
      )
    where
      logged :
          (t v : Db)
          → write_audit P
              (audit_entry rt_id actor meta "TRANSACTION_REJECTED_BY_APPROVAL" "transaction"
                before.transaction_id)
              t
            ≡ (ok tt, v)
          → t ≡ record s {
            transactions =
                set_where
                  (validated_transaction rt_id before.transaction_id)
                  (rejected_by_approval actor command.decision_note at)
                  s.transactions;
          }
          → SameBooks
              (record s {
                transactions =
                    set_where
                      (validated_transaction rt_id before.transaction_id)
                      (rejected_by_approval actor command.decision_note at)
                      s.transactions;
              })
              v
      logged t v k e = ground arith

  reject_with_approval-Rejected :
      (before : ExpenseApprovalRow) (at : ℕ) (s u : Db)
      → reject_with_approval P rt_id before command at actor meta s ≡ (ok tt, u)
      → Rejected before at s u
  unfolding reject_with_approval
  reject_with_approval-Rejected before at s u h = by_decision command.decision refl
    where
      by_decision : (d : ApprovalDecision) → command.decision ≡ d → Rejected before at s u
      by_decision approve e =
          let q : u ≡ s = ground arith in
          record {
            transactions =
                subst (λ d. TransactionsAfter d before at s.transactions u.transactions) (sym e)
                  (ap (λ (x : Db). x.transactions) q);
            ledgers = ground arith;
            accounts = ground arith;
            approvals = ground arith;
          }
      by_decision reject e =
          let r = refused_transaction before at s u (rw e at h) in
          record {
            transactions =
                subst (λ d. TransactionsAfter d before at s.transactions u.transactions) (sym e)
                  (r.0, (r.1).transactions);
            ledgers = (r.1).ledgers;
            accounts = (r.1).accounts;
            approvals = (r.1).approvals;
          }

  record_decision-Written :
      (before : ExpenseApprovalRow) (s u : Db) (st : ApprovalStateRecord)
      → record_decision P rt_id approval_id before command actor policy meta s ≡ (ok st, u)
      → Written before s u
  unfolding record_decision new_date update_approvals find_approval write_audit
  record_decision-Written before s u st h =
      let at = P.now s.tick in
      let p = pending_approval rt_id approval_id in
      let f = with_decision (decided_status command.decision) actor command.decision_note at in
      let count = P.update_count p s.approvals in
      let t : Db = record (next_tick s) { approvals = P.update_many p f s.approvals } in
      let after = P.find_first (approval_at rt_id approval_id) t.approvals in
      let rest =
        reject_with_approval P rt_id before command at actor meta
        >> completed_state P rt_id before.transaction_id policy actor meta in
      let log = write_audit P (
        audit_entry rt_id actor meta (decision_action command.decision) "expense_approval"
          approval_id) in
      let checks =
        check-ok (assert_single_approval_mutation count)
          (find_approval P rt_id approval_id >>= λ o. or_not_found P o >> (log >> rest))
          (λ a b k. single-quiet count a b k) t st u h in
      let one = single-one count t t (checks.0) in
      let seen = bind-ok (or_not_found P after) (λ _. log >> rest) t st u (checks.1) in
      let same : seen.between ≡ t = required after t seen.between seen.value seen.before in
      let logged : (log >> rest) t ≡ (ok st, u) =
        subst (λ x. (log >> rest) x ≡ (ok st, u)) same seen.after in
      let entry =
        audit_entry rt_id actor meta (decision_action command.decision) "expense_approval"
          approval_id in
      let v : Db = record t { audits = P.create entry t.audits } in
      let q =
        bind-ok (reject_with_approval P rt_id before command at actor meta)
          (λ _. completed_state P rt_id before.transaction_id policy actor meta) v st u logged in
      let r = reject_with_approval-Rejected before at v q.between q.before in
      let c = completed-SameBooks before.transaction_id q.between u st q.after in
      record {
        at = at;
        single = sym (P.update_count_lem p s.approvals) ∙ one;
        approvals = c.approvals ∙ (r.approvals ∙ P.update_many_lem p f s.approvals);
        transactions =
            subst (TransactionsAfter command.decision before at s.transactions) (sym c.transactions)
              r.transactions;
        ledgers = c.ledgers ∙ r.ledgers;
        accounts = c.accounts ∙ r.accounts;
      }
    where
      required :
          (o : Option ExpenseApprovalRow) (x y : Db) (a : ExpenseApprovalRow)
          → or_not_found P o x ≡ (ok a, y)
          → y ≡ x
      required none x y a k = absurd (ground arith)
      required (some b) x y a k = ground arith

  body-Decided :
      (s u : Db) (st : ApprovalStateRecord)
      → decide_body P rt_id approval_id command actor policy meta s ≡ (ok st, u)
      → Decided s u
  unfolding decide_body find_approval
  body-Decided s u st h = by_row (P.find_first (approval_at rt_id approval_id) s.approvals) refl
    where
      by_row :
          (o : Option ExpenseApprovalRow)
          → P.find_first (approval_at rt_id approval_id) s.approvals ≡ o
          → Decided s u
      by_row none e = absurd (ground arith)
      by_row (some before) e =
          let k : (assert_decidable P rt_id before actor policy
                  >> record_decision P rt_id approval_id before command actor policy meta)
                s
              ≡ (ok st, u) =
            ground arith in
          let checks =
            check-ok (assert_decidable P rt_id before actor policy)
              (record_decision P rt_id approval_id before command actor policy meta)
              (λ a b w. assert_decidable-quiet before a b w) s st u k in
          record {
            before = before;
            found = P.find_first_some (approval_at rt_id approval_id) s.approvals before e;
            checked = assert_decidable-Decidable before s s (checks.0);
            written = record_decision-Written before s u st (checks.1);
          }

  transport : (s a b u : Db) → SameBooks s a → Decided a b → SameBooks b u → Decided s u
  transport s a b u same d kept = record {
    before = d.before;
    found = subst (Has (approval_at rt_id approval_id) d.before) same.approvals d.found;
    checked = record {
      open_row = (d.checked).open_row;
      assigned = (d.checked).assigned;
      not_self =
          subst
            (λ rows.
              is_self_approval policy d.before
                (P.find_first (λ (r : TransactionRow). r.id == d.before.transaction_id) rows) actor
              ≡ false)
            same.transactions ((d.checked).not_self);
      approver = (d.checked).approver;
      active =
          subst
            (λ (x : Directory).
              Has (λ m. m.id == actor.membership_id && active_approver rt_id policy m)
                ((d.checked).approver) x.memberships)
            same.directory ((d.checked).active);
    };
    written =
        let w = d.written in
        let f = with_decision (decided_status command.decision) actor command.decision_note w.at in
        record {
          at = w.at;
          single =
              subst (λ rows. length (select (pending_approval rt_id approval_id) rows) ≡ 1)
                same.approvals w.single;
          approvals =
              kept.approvals
              ∙ (w.approvals
                  ∙ ap (set_where (pending_approval rt_id approval_id) f) same.approvals);
          transactions =
              subst (TransactionsAfter command.decision d.before w.at s.transactions)
                (sym kept.transactions)
                (subst
                  (λ rows. TransactionsAfter command.decision d.before w.at rows b.transactions)
                  same.transactions w.transactions);
          ledgers = kept.ledgers ∙ (w.ledgers ∙ same.ledgers);
          accounts = kept.accounts ∙ (w.accounts ∙ same.accounts);
        };
  }

  ended :
      (s : Db) (v : Result ApprovalStateRecord × Db)
      → Outcome (decide_body P rt_id approval_id command actor policy meta) s v
      → (st : ApprovalStateRecord) → v.0 ≡ ok st
      → Decided s v.1
  ended s (err x, u) o st e = absurd (ground arith)
  ended s (ok a, u) o st e =
      transport s o.start o.end u o.same_start (body-Decided o.start o.end a o.ran) o.same_end

  -- A decision that is answered was made on a pending approval of the tenant by the principal that it
  -- is assigned to, who holds an active membership with an approver's role and, where the policy
  -- forbids self approval, neither asked for the approval nor created the transaction. It writes the
  -- decision to the one pending row, and with a rejection it rejects the one validated transaction; no
  -- ledger or account changes.
  pub decide_approval-Decided :
      (s : Db) (st : ApprovalStateRecord)
      → (decide_approval P rt_id approval_id command actor policy meta s).0 ≡ ok st
      → Decided s (decide_approval P rt_id approval_id command actor policy meta s).1
  unfolding decide_approval
  decide_approval-Decided s st e =
      ended s (decide_approval P rt_id approval_id command actor policy meta s)
        (approval_retry-Outcome P (decide_body P rt_id approval_id command actor policy meta) s) st
        e

  failed :
      (s : Db) (v : Result ApprovalStateRecord × Db)
      → Outcome (decide_body P rt_id approval_id command actor policy meta) s v
      → (x : Error) → v.0 ≡ err x
      → SameBooks s v.1
  failed s (err y, u) o x e = o
  failed s (ok a, u) o x e = absurd (ground arith)

  -- A decision that throws leaves every table but the audit log as it was.
  pub decide_approval_atomic :
      (s : Db) (x : Error)
      → (decide_approval P rt_id approval_id command actor policy meta s).0 ≡ err x
      → SameBooks s (decide_approval P rt_id approval_id command actor policy meta s).1
  unfolding decide_approval
  decide_approval_atomic s x e =
      failed s (decide_approval P rt_id approval_id command actor policy meta s)
        (approval_retry-Outcome P (decide_body P rt_id approval_id command actor policy meta) s) x e
