-- ===== src/Approvals/Assigned.antt =====
-- The ends of `requestApprovals`
-- (apps/api/src/modules/approvals/infrastructure/prisma-approvals.repository.ts).
use jimpitan.Base.{
  ℕ, suc, ◌≤◌, String, true, false, Option, List, [], ◌∷◌, ltb, ◌≡◌, refl, sym, ap, subst, ◌∙◌,
  arith,
}
use jimpitan.Base.Rows.{length, select}
use jimpitan.Finance.Schema.{ExpenseApprovalRow, TransactionRow, AuthPrincipal, FinanceRequestMeta}
use jimpitan.Jimpitan.Schema.{MembershipRow}
use jimpitan.Finance.Platform.{Db, Platform}
use jimpitan.Finance.Monad.{Result, ok, Tx, return, throw_if, bad_request, ◌>>=◌, ◌>>◌}
use jimpitan.Finance.Books.{SameBooks, SameBooks-trans, bind-ok, check-ok}
use jimpitan.Finance.Tables.{new_date, new_id, write_audit, audit_entry}
use jimpitan.Finance.Guards.{is_pending, approvals_of}
use jimpitan.Approvals.Schema.{ApprovalPolicy, ApprovalStateRecord, RequestExpenseApprovalCommand}
use jimpitan.Approvals.Tables.{find_approvals_of, create_approvals, created, approval_state}
use jimpitan.Approvals.Assignment.{
  eligible_approver, new_approval, new_approvals, audit_assigned, expiry, assign_approvers,
}

module _ (P : Platform) (rt_id transaction_id : String) (command : RequestExpenseApprovalCommand)
    (actor : AuthPrincipal) (policy : ApprovalPolicy) (meta : FinanceRequestMeta) where
  -- The row that asks an approver.
  pub record Asks (m : MembershipRow) (a : ExpenseApprovalRow) : Type 0 where
    pub approver : a.approver_membership_id ≡ m.id
    pub open_row : is_pending a.status ≡ true
    pub requester : a.requested_by_id ≡ actor.user_id
    pub of_transaction : a.transaction_id ≡ transaction_id
    pub of_tenant : a.rt_id ≡ rt_id

  -- One row for each of the approvers.
  abbrev pub AsksEach : List MembershipRow → List ExpenseApprovalRow → Type 0
  AsksEach [] [] = Unit
  AsksEach [] (a ∷ rows) = ⊥
  AsksEach (m ∷ ms) [] = ⊥
  AsksEach (m ∷ ms) (a ∷ rows) = Asks m a × AsksEach ms rows

  -- The table after rows are written one by one.
  abbrev pub stacked : List ExpenseApprovalRow → List ExpenseApprovalRow → List ExpenseApprovalRow
  stacked [] table = table
  stacked (r ∷ rest) table = stacked rest (r ∷ table)

  record Rows (ms : List MembershipRow) (rows : List ExpenseApprovalRow) (s u : Db) : Type 0 where
    each : AsksEach ms rows
    same : SameBooks s u

  new_approvals-Rows :
      (at : Option ℕ) (ms : List MembershipRow) (s u : Db) (rows : List ExpenseApprovalRow)
      → new_approvals P rt_id transaction_id command actor policy meta at ms s ≡ (ok rows, u)
      → Rows ms rows s u
  unfolding new_approvals new_id
  new_approvals-Rows at [] s u [] h = record { each = tt; same = ground arith }
  new_approvals-Rows at [] s u (a ∷ rows) h = absurd (ground arith)
  new_approvals-Rows at (m ∷ ms) s u rows h =
      let id = P.uuid s.tick in
      let t : Db = record s { tick = suc s.tick } in
      let q =
        bind-ok (new_approvals P rt_id transaction_id command actor policy meta at ms)
          (λ rest. return (new_approval rt_id transaction_id command actor at id m ∷ rest)) t rows u
          h in
      let r = new_approvals-Rows at ms t q.between q.value q.before in
      let e : rows ≡ new_approval rt_id transaction_id command actor at id m ∷ q.value =
        ground arith in
      let kept : SameBooks s q.between = SameBooks-trans s t q.between (ground arith) r.same in
      record {
        each = subst (AsksEach (m ∷ ms)) (sym e) (
          record {
            approver = refl;
            open_row = refl;
            requester = refl;
            of_transaction = refl;
            of_tenant = refl;
          },
          r.each,
        );
        same = ground arith;
      }

  created-stacked :
      (rows table : List ExpenseApprovalRow) → created P rows table ≡ stacked rows table
  created-stacked [] table = refl
  created-stacked (r ∷ rest) table =
      ap (created P rest) (P.create_lem r table) ∙ created-stacked rest (r ∷ table)

  expiry-SameBooks :
      (s u : Db) (at : Option ℕ)
      → expiry P rt_id transaction_id command actor policy meta s ≡ (ok at, u)
      → SameBooks s u
  unfolding expiry new_date
  expiry-SameBooks s u at h = ground arith

  audit_assigned-SameBooks :
      (rows : List ExpenseApprovalRow) (s : Db)
      → SameBooks s (audit_assigned P rt_id transaction_id command actor policy meta rows s).1
  unfolding audit_assigned write_audit
  audit_assigned-SameBooks [] s = ground arith
  audit_assigned-SameBooks (a ∷ rest) s =
      let t : Db = record s {
        audits =
            P.create (audit_entry rt_id actor meta "APPROVAL_ASSIGNED" "expense_approval" a.id)
              s.audits;
      } in
      SameBooks-trans s t _ (ground arith) (audit_assigned-SameBooks rest t)

  -- After the rows are stored: the logs and the answer.
  logged-SameBooks :
      (t : TransactionRow) (approvals : List ExpenseApprovalRow) (s u : Db)
      (st : ApprovalStateRecord)
      → (audit_assigned P rt_id transaction_id command actor policy meta approvals
            >> approval_state P t approvals policy)
          s
        ≡ (ok st, u)
      → SameBooks s u
  unfolding approval_state new_date
  logged-SameBooks t approvals s u st h =
      let log = audit_assigned P rt_id transaction_id command actor policy meta approvals in
      let q = bind-ok log (λ _. approval_state P t approvals policy) s st u h in
      let kept : SameBooks s q.between =
        subst (λ (w : Result (Unit {0}) × Db). SameBooks s w.1) q.before
          (audit_assigned-SameBooks approvals s) in
      SameBooks-trans s q.between u kept (ground arith)

  create_approvals-ok :
      (rows : List ExpenseApprovalRow) (s u : Db)
      → create_approvals P rows s ≡ (ok tt, u)
      → u ≡ record s { approvals = created P rows s.approvals }
  unfolding create_approvals
  create_approvals-ok rows s u h = ground arith

  -- The end of a first request, from the rows on.
  abbrev store : TransactionRow → List ExpenseApprovalRow → Tx ApprovalStateRecord
  store t rows =
      create_approvals P rows
      >> (find_approvals_of P rt_id transaction_id >>= λ approvals.
          write_audit P
            (audit_entry rt_id actor meta "APPROVAL_REQUESTED" "transaction" transaction_id)
          >> (audit_assigned P rt_id transaction_id command actor policy meta approvals
              >> approval_state P t approvals policy))

  stored_books :
      (t : TransactionRow) (rows : List ExpenseApprovalRow) (s u : Db) (st : ApprovalStateRecord)
      → store t rows s ≡ (ok st, u)
      → SameBooks (record s { approvals = created P rows s.approvals }) u
  unfolding find_approvals_of write_audit
  stored_books t rows s u st h =
      let log =
        (find_approvals_of P rt_id transaction_id >>= λ approvals.
        write_audit P
          (audit_entry rt_id actor meta "APPROVAL_REQUESTED" "transaction" transaction_id)
        >> (audit_assigned P rt_id transaction_id command actor policy meta approvals
            >> approval_state P t approvals policy)) in
      let q = bind-ok (create_approvals P rows) (λ _. log) s st u h in
      let e = create_approvals-ok rows s q.between q.before in
      let v : Db = record s { approvals = created P rows s.approvals } in
      let w : log v ≡ (ok st, u) = subst (λ x. log x ≡ (ok st, u)) e q.after in
      let entry = audit_entry rt_id actor meta "APPROVAL_REQUESTED" "transaction" transaction_id in
      let noted : Db = record v { audits = P.create entry v.audits } in
      SameBooks-trans v noted u (ground arith) (
        logged-SameBooks t (P.find_many (approvals_of rt_id transaction_id) v.approvals) noted u st
          w)

  -- The tables after the approvers are asked.
  pub record Stored (t : TransactionRow) (s u : Db) : Type 0 where
    pub rows : List ExpenseApprovalRow
    pub each :
        AsksEach (select (eligible_approver rt_id t actor policy) s.directory.memberships) rows
    pub enough :
        policy.required_approvals
        ≤ length (select (eligible_approver rt_id t actor policy) s.directory.memberships)
    pub approvals : u.approvals ≡ stacked rows s.approvals
    pub transactions : u.transactions ≡ s.transactions
    pub ledgers : u.ledgers ≡ s.ledgers

  pub assign_approvers-Stored :
      (t : TransactionRow) (s u : Db) (st : ApprovalStateRecord)
      → assign_approvers P rt_id transaction_id command actor policy meta t s ≡ (ok st, u)
      → Stored t s u
  unfolding assign_approvers
  assign_approvers-Stored t s u st h =
      let eligible = eligible_approver rt_id t actor policy in
      let found = P.find_many eligible s.directory.memberships in
      let few = ltb (length found) policy.required_approvals in
      let error =
        bad_request "Not enough active approvers are available for this expense policy." in
      let number = (λ (at : Option ℕ).
        new_approvals P rt_id transaction_id command actor policy meta at found >>= store t) in
      let checks =
        check-ok (throw_if few error)
          (expiry P rt_id transaction_id command actor policy meta >>= number)
          (λ a b k. ground arith) s st u h in
      let dated =
        bind-ok (expiry P rt_id transaction_id command actor policy meta) number s st u
          (checks.1) in
      let numbered =
        bind-ok (new_approvals P rt_id transaction_id command actor policy meta dated.value found)
          (store t) dated.between st u dated.after in
      let r =
        new_approvals-Rows dated.value found dated.between numbered.between numbered.value
          numbered.before in
      let same : SameBooks s numbered.between =
        SameBooks-trans s dated.between numbered.between
          (expiry-SameBooks s dated.between dated.value dated.before) r.same in
      let b = stored_books t numbered.value numbered.between u st numbered.after in
      let passed : few ≡ false = ground arith in
      record {
        rows = numbered.value;
        each = subst (λ ms. AsksEach ms numbered.value) (P.find_many_lem eligible _) r.each;
        enough =
            subst (λ (ms : List MembershipRow). policy.required_approvals ≤ length ms)
              (P.find_many_lem eligible s.directory.memberships) (ground arith);
        approvals =
            b.approvals
            ∙ (ap (created P numbered.value) same.approvals
                ∙ created-stacked numbered.value s.approvals);
        transactions = b.transactions ∙ same.transactions;
        ledgers = b.ledgers ∙ same.ledgers;
      }
