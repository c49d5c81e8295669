-- ===== src/Approvals/Requested.antt =====
-- Requests for approval, from the retries and the error handler on: `requestApprovals` of
-- apps/api/src/modules/approvals/infrastructure/prisma-approvals.repository.ts.
use jimpitan.Base.{
  ◌≤◌, String, Bool, true, false, Option, none, some, List, ◌⊎◌, inl, inr, ltb, ◌≡◌, refl, sym, ap,
  subst, ◌∙◌, arith,
}
use jimpitan.Base.Rows.{length, select, Has}
use jimpitan.Finance.Schema.{ExpenseApprovalRow, TransactionRow, AuthPrincipal, FinanceRequestMeta}
use jimpitan.Jimpitan.Schema.{Directory}
use jimpitan.Finance.Platform.{Db, Platform}
use jimpitan.Finance.Monad.{Error, Result, ok, err, Tx, transaction}
use jimpitan.Finance.Books.{SameBooks, SameBooks-trans, Committed, Outcome, catch-ok, catch-err}
use jimpitan.Finance.Tables.{
  live_transaction, is_validated, new_date, write_audit, find_transaction_in_transaction,
}
use jimpitan.Finance.Guards.{is_expense, approvals_of}
use jimpitan.Approvals.Schema.{ApprovalPolicy, ApprovalStateRecord, RequestExpenseApprovalCommand}
use jimpitan.Approvals.Tables.{
  assert_validated_expense, with_approval_retry, find_approvals_of, approval_state,
  evaluate_approval_state,
}
use jimpitan.Approvals.Assignment.{
  eligible_approver, assign_approvers, request_body, resolve_approval_request_conflict,
  request_conflict, request_approvals,
}
use jimpitan.Approvals.Decided.{approval_retry-Outcome}
use jimpitan.Approvals.Assigned.{AsksEach, stacked, Stored, assign_approvers-Stored}

module _ (P : Platform) (rt_id transaction_id : String) (command : RequestExpenseApprovalCommand)
    (actor : AuthPrincipal) (policy : ApprovalPolicy) (meta : FinanceRequestMeta) where
  abbrev body : Tx ApprovalStateRecord
  body = request_body P rt_id transaction_id command actor policy meta

  abbrev of_transaction : ExpenseApprovalRow → Bool
  of_transaction = approvals_of rt_id transaction_id

  -- The first request for a transaction, which has stored the approvals.
  pub record Requested (s s' : Db) : Type 0 where
    pub t : TransactionRow
    pub found : Has (live_transaction rt_id transaction_id) t s.transactions
    pub validated : is_validated t.status ≡ true
    pub expense : is_expense t.type ≡ true
    pub first_request : length (select of_transaction s.approvals) ≡ 0
    pub stored : Stored P rt_id transaction_id command actor policy meta t s s'

  -- The checks before the approvers are asked.
  body_of :
      (t : TransactionRow) (s u : Db) (st : ApprovalStateRecord)
      → P.find_first (live_transaction rt_id transaction_id) s.transactions ≡ some t
      → body s ≡ (ok st, u)
      → (b : Bool) → ltb 0 (length (P.find_many of_transaction s.approvals)) ≡ b
      → SameBooks s u ⊎ Requested s u
  unfolding request_body find_transaction_in_transaction assert_validated_expense find_approvals_of
      write_audit approval_state new_date
  body_of t s u st f h true e = inl (ground arith)
  body_of t s u st f h false e =
      let k : assign_approvers P rt_id transaction_id command actor policy meta t s ≡ (ok st, u) =
        ground arith in
      inr (record {
        t = t;
        found = P.find_first_some (live_transaction rt_id transaction_id) s.transactions t f;
        validated = ground arith;
        expense = ground arith;
        first_request =
            subst (λ (rows : List ExpenseApprovalRow). length rows ≡ 0)
              (P.find_many_lem of_transaction s.approvals) (ground arith);
        stored =
            assign_approvers-Stored P rt_id transaction_id command actor policy meta t s u st k;
      })

  missing :
      (s u : Db) (st : ApprovalStateRecord)
      → P.find_first (live_transaction rt_id transaction_id) s.transactions ≡ none
      → body s ≡ (ok st, u)
      → ⊥
  unfolding request_body find_transaction_in_transaction
  missing s u st e h = ground arith

  body-End :
      (s u : Db) (st : ApprovalStateRecord) → body s ≡ (ok st, u) → SameBooks s u ⊎ Requested s u
  body-End s u st h =
      by_row (P.find_first (live_transaction rt_id transaction_id) s.transactions) refl
    where
      by_row :
          (o : Option TransactionRow)
          → P.find_first (live_transaction rt_id transaction_id) s.transactions ≡ o
          → SameBooks s u ⊎ Requested s u
      by_row none e = absurd (missing s u st e h)
      by_row (some t) e = body_of t s u st e h _ refl

  conflict-SameBooks :
      (e : Error) (s : Db)
      → SameBooks s (request_conflict P rt_id transaction_id command actor policy meta e s).1
  unfolding request_conflict resolve_approval_request_conflict evaluate_approval_state
      find_approvals_of approval_state new_date write_audit
  conflict-SameBooks e s = ground arith

  attempts-End :
      (s : Db) (v w : Result ApprovalStateRecord × Db)
      → with_approval_retry (transaction P body) s ≡ w
      → Outcome body s w
      → request_approvals P rt_id transaction_id command actor policy meta s ≡ v
      → SameBooks s v.1 ⊎ ((st : ApprovalStateRecord) × (v.0 ≡ ok st) × Committed body s st v.1)
  unfolding request_approvals
  attempts-End s v (ok a, t) e o h =
      let done : Result ApprovalStateRecord × Db = (ok a, t) in
      let q : done ≡ v =
        sym (
          catch-ok (with_approval_retry (transaction P body))
            (request_conflict P rt_id transaction_id command actor policy meta) s t a e)
        ∙ h in
      inr (
        a,
        ap (λ (x : Result ApprovalStateRecord × Db). x.0) (sym q),
        subst (λ (x : Result ApprovalStateRecord × Db). Committed body s a x.1) q o,
      )
  attempts-End s v (err x, t) e o h =
      let handled = request_conflict P rt_id transaction_id command actor policy meta x t in
      let q : handled ≡ v =
        sym (
          catch-err (with_approval_retry (transaction P body))
            (request_conflict P rt_id transaction_id command actor policy meta) s t x e)
        ∙ h in
      inl (
        subst (λ (x : Result ApprovalStateRecord × Db). SameBooks s x.1) q
          (SameBooks-trans s t handled.1 o (conflict-SameBooks x t)))

  request-End :
      (s : Db)
      → (let v = request_approvals P rt_id transaction_id command actor policy meta s in
          SameBooks s v.1 ⊎ ((st : ApprovalStateRecord) × (v.0 ≡ ok st) × Committed body s st v.1))
  request-End s = attempts-End s _ _ refl (approval_retry-Outcome P body s) refl

  transport : (s a b u : Db) → SameBooks s a → Requested a b → SameBooks b u → Requested s u
  transport s a b u same r kept =
      let d = r.stored in
      record {
        t = r.t;
        found = subst (Has (live_transaction rt_id transaction_id) r.t) same.transactions r.found;
        validated = r.validated;
        expense = r.expense;
        first_request =
            subst (λ rows. length (select of_transaction rows) ≡ 0) same.approvals r.first_request;
        stored = record {
          rows = d.rows;
          each =
              subst
                (λ (x : Directory).
                  AsksEach P rt_id transaction_id command actor policy meta
                    (select (eligible_approver rt_id r.t actor policy) x.memberships) d.rows)
                same.directory d.each;
          enough =
              subst
                (λ (x : Directory).
                  policy.required_approvals
                  ≤ length (select (eligible_approver rt_id r.t actor policy) x.memberships))
                same.directory d.enough;
          approvals =
              kept.approvals
              ∙ (d.approvals
                  ∙ ap (stacked P rt_id transaction_id command actor policy meta d.rows)
                      same.approvals);
          transactions = kept.transactions ∙ (d.transactions ∙ same.transactions);
          ledgers = kept.ledgers ∙ (d.ledgers ∙ same.ledgers);
        };
      }

  ran-End :
      (s u : Db) (st : ApprovalStateRecord) → Committed body s st u → SameBooks s u ⊎ Requested s u
  ran-End s u st c = by_end (body-End c.start c.end st c.ran)
    where
      by_end : SameBooks c.start c.end ⊎ Requested c.start c.end → SameBooks s u ⊎ Requested s u
      by_end (inl same) = inl (
          SameBooks-trans s c.start u c.same_start
            (SameBooks-trans c.start c.end u same c.same_end))
      by_end (inr r) = inr (transport s c.start c.end u c.same_start r c.same_end)

  -- Every end of a request for approval, answered or refused: either no table but the audit log has
  -- changed, or a live validated expense that had no approvals has got one pending approval for each
  -- eligible approver, of whom there are as many as the policy requires, and no transaction or ledger
  -- row has changed.
  pub request_approvals-Requested :
      (s : Db)
      → SameBooks s (request_approvals P rt_id transaction_id command actor policy meta s).1
        ⊎ Requested s (request_approvals P rt_id transaction_id command actor policy meta s).1
  request_approvals-Requested s = by_end (request-End s)
    where
      by_end :
          SameBooks s (request_approvals P rt_id transaction_id command actor policy meta s).1
            ⊎ ((st : ApprovalStateRecord) × ((request_approvals P rt_id transaction_id command actor
                    policy meta s).0
                  ≡ ok st)
                × Committed body s st
                    (request_approvals P rt_id transaction_id command actor policy meta s).1)
          → SameBooks s (request_approvals P rt_id transaction_id command actor policy meta s).1
            ⊎ Requested s (request_approvals P rt_id transaction_id command actor policy meta s).1
      by_end (inl same) = inl same
      by_end (inr (st, _, c)) = ran-End s _ st c
