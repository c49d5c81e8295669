-- ===== src/Finance/Evolution.antt =====
-- The history relation for postings and for the lifecycle of transactions
-- (apps/api/src/modules/finance/infrastructure/prisma-finance.repository.ts).
use jimpitan.Base.{
  inl, ℕ, String, Bool, true, false, ◌||◌, Option, none, some, ◌≡◌, refl, sym, arith, subst,
}
use jimpitan.Finance.Schema.{
  TransactionRow, TransactionStatus, LedgerRow, AuthPrincipal, FinanceRequestMeta,
  FinanceAuditInput,
}
use jimpitan.Base.Int.{pos, ltb_ℤ}
use jimpitan.Finance.Platform.{Platform}
use jimpitan.Finance.Monad.{
  Error, bad_request, not_found, forbidden, conflict, replay_conflict, approval_gate,
  blocked_mutation, known_request, decimal_error,
}
use jimpitan.Finance.Tables.{
  of_account, active_account, is_draft, is_validated, is_posted, validated_transaction, audit_entry,
}
use jimpitan.Finance.History.{
  TransactionKept, TransactionPath, validation, rejection, rejection_of_validated, voiding, posting,
}
use jimpitan.Finance.Keeps.{
  Keeps, bind, and_then, option-Keeps, if-Keeps, reads, return-Keeps, throw-Keeps, gets-Keeps,
  throw_if-Keeps, catch-Keeps, transaction-Keeps, retry-Keeps,
}
use jimpitan.Finance.Statements.{
  conflict-Keeps, new_date-Keeps, new_id-Keeps, write_audit-Keeps, find_transaction-Keeps,
  find_transaction_or_throw-Keeps, update_transactions-Keeps, create_ledger-Keeps,
  update_accounts-Keeps,
}
use jimpitan.Finance.Guards.{
  assert_expense_approval_gate_in_transaction, assert_posting_inputs_in_transaction,
  assert_post_idempotency_in_transaction, assert_replay_key_matches_in_transaction,
}
use jimpitan.Finance.Posting.{
  moved, entry_type_of, latest_balance, next_ledger, append_ledger_for_transaction,
  assert_single_mutation, mark_posted, replay_posted, finish_posting, post_validated,
  post_transaction_body, assert_replay_key_matches_outside, post_transaction_conflict,
  post_transaction_error, post_transaction,
}
use jimpitan.Finance.Lifecycle.{
  draft_transaction, open_transaction, finish_step, validate_body, validate_transaction,
  reject_body, reject_transaction, void_body, void_draft_transaction,
}

pub to_posted :
    (a : TransactionStatus) → is_validated a ≡ true → TransactionPath a TransactionStatus.posted
to_posted TransactionStatus.validated h = TransactionPath.move posting TransactionPath.stay
to_posted TransactionStatus.draft h = absurd (ground arith)
to_posted TransactionStatus.pending_validation h = absurd (ground arith)
to_posted TransactionStatus.pending_approval h = absurd (ground arith)
to_posted TransactionStatus.approved h = absurd (ground arith)
to_posted TransactionStatus.rejected h = absurd (ground arith)
to_posted TransactionStatus.posted h = absurd (ground arith)
to_posted TransactionStatus.voided h = absurd (ground arith)

is_draft-draft : (a : TransactionStatus) → is_draft a ≡ true → a ≡ TransactionStatus.draft
is_draft-draft TransactionStatus.draft h = refl
is_draft-draft TransactionStatus.validated h = absurd (ground arith)
is_draft-draft TransactionStatus.pending_validation h = absurd (ground arith)
is_draft-draft TransactionStatus.pending_approval h = absurd (ground arith)
is_draft-draft TransactionStatus.approved h = absurd (ground arith)
is_draft-draft TransactionStatus.rejected h = absurd (ground arith)
is_draft-draft TransactionStatus.posted h = absurd (ground arith)
is_draft-draft TransactionStatus.voided h = absurd (ground arith)

pub to_rejected :
    (a : TransactionStatus)
    → is_draft a || is_validated a ≡ true
    → TransactionPath a TransactionStatus.rejected
to_rejected TransactionStatus.draft h = TransactionPath.move rejection TransactionPath.stay
to_rejected TransactionStatus.validated h =
    TransactionPath.move rejection_of_validated TransactionPath.stay
to_rejected TransactionStatus.pending_validation h = absurd (ground arith)
to_rejected TransactionStatus.pending_approval h = absurd (ground arith)
to_rejected TransactionStatus.approved h = absurd (ground arith)
to_rejected TransactionStatus.rejected h = absurd (ground arith)
to_rejected TransactionStatus.posted h = absurd (ground arith)
to_rejected TransactionStatus.voided h = absurd (ground arith)

-- An update of rows that are not posted.
pub changed_to :
    (t u : TransactionRow)
    → u.id ≡ t.id
    → u.rt_id ≡ t.rt_id
    → TransactionPath t.status u.status
    → is_posted t.status ≡ false
    → TransactionKept t u
changed_to t u i r p v = record { same_id = i; same_tenant = r; path = p; final = inl v }

pub replay_key-Keeps :
    (audit : FinanceAuditInput) (existing requested : Option String)
    → Keeps (assert_replay_key_matches_in_transaction audit existing requested)
unfolding assert_replay_key_matches_in_transaction
replay_key-Keeps audit existing requested = reads (λ s. ground arith)

module _ (P : Platform) (rt_id : String) (actor : AuthPrincipal) (meta : FinanceRequestMeta) where
  pub single-Keeps : (count : ℕ) → Keeps (assert_single_mutation count)
  unfolding assert_single_mutation
  single-Keeps count = throw_if-Keeps _ _

  pub append-Keeps :
      (t : TransactionRow) → Keeps (append_ledger_for_transaction P rt_id t actor meta)
  unfolding append_ledger_for_transaction
  append-Keeps t = bind (update_accounts-Keeps P _ _) (λ count. and_then (single-Keeps count) (
      bind
        (gets-Keeps (λ s.
          P.find_latest (λ l. l.ledger_sequence) (of_account rt_id t.cash_account_id) s.ledgers))
        (λ latest.
          and_then
            (throw_if-Keeps
              (ltb_ℤ (moved (entry_type_of t.type) (latest_balance latest) t.amount) (pos 0))
              (bad_request "Cash account balance is insufficient for this transaction."))
            (bind (new_date-Keeps P) (λ at. bind (new_id-Keeps P) (λ id.
              bind (create_ledger-Keeps P (next_ledger rt_id t latest id at)) (λ ledger.
                bind
                  (update_accounts-Keeps P (active_account rt_id t.cash_account_id) (λ a. record a {
                    current_balance = ledger.balance_after;
                    updated_by_id = some actor.user_id;
                  }))
                  (λ balance. and_then (single-Keeps balance) (
                    and_then
                      (write_audit-Keeps P (
                        audit_entry rt_id actor meta "LEDGER_ENTRY_CREATED" "cash_ledger"
                          ledger.id))
                      (return-Keeps ledger))))))))))

  finish_step-Keeps :
      (id : String) (p : TransactionRow → Bool) (f : TransactionRow → TransactionRow)
      (action : String)
      → ((t : TransactionRow) → p t ≡ true → TransactionKept t (f t))
      → Keeps (finish_step P rt_id id p f action actor meta)
  unfolding finish_step
  finish_step-Keeps id p f action step = bind (update_transactions-Keeps P p f step) (λ count.
      and_then (single-Keeps count) (
        bind (find_transaction_or_throw-Keeps P rt_id id)
          (λ after. and_then (write_audit-Keeps P _) (return-Keeps (some after)))))

  pub validate_transaction-Keeps :
      (id : String) (note : Option String) → Keeps (validate_transaction P rt_id id note actor meta)
  unfolding validate_transaction validate_body
  validate_transaction-Keeps id remark = transaction-Keeps P (
      bind (find_transaction-Keeps P rt_id id) (λ found.
        option-Keeps found (return-Keeps none) (λ before. if-Keeps _ (throw-Keeps _) (
          bind (new_date-Keeps P) (λ at.
            finish_step-Keeps id (draft_transaction rt_id id) _ _ (λ t h.
              let d = is_draft-draft t.status (ground arith) in
              changed_to t _ refl refl
                (subst (λ a. TransactionPath a TransactionStatus.validated) (sym d)
                  (TransactionPath.move validation TransactionPath.stay))
                (ground arith)))))))

  pub reject_transaction-Keeps :
      (id reason : String) → Keeps (reject_transaction P rt_id id reason actor meta)
  unfolding reject_transaction reject_body
  reject_transaction-Keeps id reason = transaction-Keeps P (
      bind (find_transaction-Keeps P rt_id id) (λ found.
        option-Keeps found (return-Keeps none) (λ before. if-Keeps _ (throw-Keeps _) (
          bind (new_date-Keeps P) (λ at.
            finish_step-Keeps id (open_transaction rt_id id) _ _ (λ t h.
              changed_to t _ refl refl (to_rejected t.status (ground arith)) (ground arith)))))))

  pub void_draft_transaction-Keeps :
      (id : String) → Keeps (void_draft_transaction P rt_id id actor meta)
  unfolding void_draft_transaction void_body
  void_draft_transaction-Keeps id = transaction-Keeps P (
      bind (find_transaction-Keeps P rt_id id) (λ found.
        option-Keeps found (return-Keeps none) (λ before. if-Keeps _ (throw-Keeps _) (
          bind (new_date-Keeps P) (λ at.
            finish_step-Keeps id (draft_transaction rt_id id) _ _ (λ t h.
              let d = is_draft-draft t.status (ground arith) in
              changed_to t _ refl refl
                (subst (λ a. TransactionPath a TransactionStatus.voided) (sym d)
                  (TransactionPath.move voiding TransactionPath.stay))
                (ground arith)))))))

  replay_posted-Keeps :
      (before : TransactionRow) (key : Option String)
      → Keeps (replay_posted P rt_id before key actor meta)
  unfolding replay_posted
  replay_posted-Keeps before key =
      and_then (replay_key-Keeps _ _ _)
        (and_then (write_audit-Keeps P _) (return-Keeps (some before)))

  finish_posting-Keeps :
      (before : TransactionRow) (key : Option String) (ledger : LedgerRow)
      → Keeps (finish_posting P rt_id before key actor meta ledger)
  unfolding finish_posting
  finish_posting-Keeps before key ledger =
      bind
        (update_transactions-Keeps P (validated_transaction rt_id before.id)
          (mark_posted key before actor ledger)
          (λ t h.
            changed_to t (mark_posted key before actor ledger t) refl refl
              (to_posted t.status (ground arith)) (ground arith)))
        (λ count. and_then (single-Keeps count) (
          bind (find_transaction_or_throw-Keeps P rt_id before.id)
            (λ after. and_then (write_audit-Keeps P _) (return-Keeps (some after)))))

  inputs-Keeps :
      (t : TransactionRow) → Keeps (assert_posting_inputs_in_transaction P rt_id t actor meta)
  unfolding assert_posting_inputs_in_transaction assert_expense_approval_gate_in_transaction
  inputs-Keeps t = reads (λ s. ground arith)

  key-Keeps :
      (t : TransactionRow) (key : Option String)
      → Keeps (assert_post_idempotency_in_transaction P rt_id t key actor meta)
  unfolding assert_post_idempotency_in_transaction
  key-Keeps t key = reads (λ s. ground arith)

  post_validated-Keeps :
      (before : TransactionRow) (key : Option String)
      → Keeps (post_validated P rt_id before key actor meta)
  unfolding post_validated
  post_validated-Keeps before key = and_then (inputs-Keeps before) (
      and_then (key-Keeps before key)
        (bind (append-Keeps before) (λ ledger. finish_posting-Keeps before key ledger)))

  post_transaction_body-Keeps :
      (id : String) (key : Option String) → Keeps (post_transaction_body P rt_id id key actor meta)
  unfolding post_transaction_body
  post_transaction_body-Keeps id key = bind (find_transaction-Keeps P rt_id id) (λ found.
      option-Keeps found (return-Keeps none) (λ before.
        if-Keeps _ (replay_posted-Keeps before key)
          (if-Keeps _ (throw-Keeps _) (post_validated-Keeps before key))))

  pub outside-Keeps :
      (t : TransactionRow) (key : Option String) (entity_type entity_id : String)
      → Keeps (assert_replay_key_matches_outside P rt_id t key actor meta entity_type entity_id)
  unfolding assert_replay_key_matches_outside
  outside-Keeps t key entity_type entity_id =
      catch-Keeps (replay_key-Keeps _ _ _) (λ e. and_then (write_audit-Keeps P _) (throw-Keeps _))

  post_transaction_conflict-Keeps :
      (id : String) (key : Option String) (e : Error)
      → Keeps (post_transaction_conflict P rt_id id key actor meta e)
  unfolding post_transaction_conflict
  post_transaction_conflict-Keeps id key e = bind (find_transaction-Keeps P rt_id id) (λ posted.
      option-Keeps posted (conflict-Keeps e _) (λ t.
        if-Keeps _
          (and_then (outside-Keeps t key "transaction" t.id)
            (and_then (write_audit-Keeps P _) (return-Keeps (some t))))
          (conflict-Keeps e _)))

  post_transaction_error-Keeps :
      (id : String) (key : Option String) (e : Error)
      → Keeps (post_transaction_error P rt_id id key actor meta e)
  unfolding post_transaction_error
  post_transaction_error-Keeps id key (replay_conflict audit message) =
      and_then (write_audit-Keeps P audit) (throw-Keeps _)
  post_transaction_error-Keeps id key (approval_gate audit) =
      and_then (write_audit-Keeps P audit) (throw-Keeps _)
  post_transaction_error-Keeps id key (blocked_mutation audit m) =
      post_transaction_conflict-Keeps id key (blocked_mutation audit m)
  post_transaction_error-Keeps id key (bad_request m) =
      post_transaction_conflict-Keeps id key (bad_request m)
  post_transaction_error-Keeps id key (not_found m) =
      post_transaction_conflict-Keeps id key (not_found m)
  post_transaction_error-Keeps id key (forbidden m) =
      post_transaction_conflict-Keeps id key (forbidden m)
  post_transaction_error-Keeps id key (conflict m) =
      post_transaction_conflict-Keeps id key (conflict m)
  post_transaction_error-Keeps id key (known_request c m) =
      post_transaction_conflict-Keeps id key (known_request c m)
  post_transaction_error-Keeps id key decimal_error =
      post_transaction_conflict-Keeps id key decimal_error

  pub post_transaction-Keeps :
      (id : String) (key : Option String) → Keeps (post_transaction P rt_id id key actor meta)
  unfolding post_transaction
  post_transaction-Keeps id key =
      catch-Keeps (retry-Keeps _ (transaction-Keeps P (post_transaction_body-Keeps id key)))
        (post_transaction_error-Keeps id key)
