-- ===== src/Finance/AccountEvolution.antt =====
-- The history relation for requests on cash accounts and categories, and for drafts
-- (apps/api/src/modules/finance/infrastructure/prisma-finance.repository.ts).
use jimpitan.Base.{false, ◌&&◌, String, Bool, not, none, some, given, refl, arith, ◌==◌}
use jimpitan.Base.Int.{◌==ℤ◌}
use jimpitan.Base.Rows.{length}
use jimpitan.Finance.Schema.{
  TransactionType, income, expense, TransactionRow, CashAccountRow, CategoryRow, AuthPrincipal,
  FinanceRequestMeta, CreateFinanceTransactionCommand,
}
use jimpitan.Finance.Platform.{Platform}
use jimpitan.Finance.Monad.{Error, conflict, bad_request, decimal_error}
use jimpitan.Finance.Tables.{
  live_account, with_key, create_account, create_category, update_categories, audit_entry,
  of_account,
}
use jimpitan.Finance.History.{same-History}
use jimpitan.Finance.Keeps.{
  Keeps, throw-Keeps, bind, and_then, option-Keeps, if-Keeps, reads, return-Keeps, gets-Keeps,
  require-Keeps, throw_if-Keeps, catch-Keeps, transaction-Keeps,
}
use jimpitan.Finance.Statements.{
  conflict-Keeps, new_date-Keeps, new_id-Keeps, write_audit-Keeps, create_transaction-Keeps,
  update_accounts-Keeps,
}
use jimpitan.Finance.Guards.{
  find_active_cash_account_in_transaction, find_active_category_in_transaction,
}
use jimpitan.Finance.Evolution.{single-Keeps}
use jimpitan.Finance.Accounts.{
  CreateCashAccountCommand, UpdateCashAccountCommand, CreateTransactionCategoryCommand,
  UpdateTransactionCategoryCommand, live_category, archived_account, archived_category,
  create_cash_account, update_found_account, update_cash_account, archive_found_account,
  archive_cash_account, create_transaction_category, update_found_category, update_category,
  archive_category,
}
use jimpitan.Finance.Drafts.{
  is_idempotency_unique_conflict, same_references, same_details, draft_conflict, is_same_request,
  assert_idempotent_create_matches, replay_draft, assert_draft_references_in_transaction,
  create_draft_body, resolve_idempotent_create_conflict, create_new_draft, create_transaction_draft,
  create_income_draft, create_expense_draft,
}

module _ (P : Platform) where
  create_account-Keeps : (a : CashAccountRow) → Keeps (create_account P a)
  unfolding create_account
  create_account-Keeps a = record {
    at = λ s.
        same-History s (create_account P a s).1 (ground arith) (ground arith) (ground arith)
          (ground arith) (ground arith) (ground arith);
  }

  create_category-Keeps : (c : CategoryRow) → Keeps (create_category P c)
  unfolding create_category
  create_category-Keeps c = record {
    at = λ s.
        same-History s (create_category P c s).1 (ground arith) (ground arith) (ground arith)
          (ground arith) (ground arith) (ground arith);
  }

  update_categories-Keeps :
      (p : CategoryRow → Bool) (f : CategoryRow → CategoryRow) → Keeps (update_categories P p f)
  unfolding update_categories
  update_categories-Keeps p f = record {
    at = λ s. same-History s (update_categories P p f s).1 refl refl refl refl refl refl;
  }

module _ (P : Platform) (rt_id : String) (actor : AuthPrincipal) (meta : FinanceRequestMeta) where
  pub create_cash_account-Keeps :
      (command : CreateCashAccountCommand) → Keeps (create_cash_account P rt_id command actor meta)
  unfolding create_cash_account
  create_cash_account-Keeps command =
      catch-Keeps
        (transaction-Keeps P (
          bind (new_id-Keeps P) (λ id.
            bind (create_account-Keeps P _)
              (λ a. and_then (write_audit-Keeps P _) (return-Keeps a)))))
        (λ e. conflict-Keeps e _)

  update_found_account-Keeps :
      (id : String) (command : UpdateCashAccountCommand)
      → Keeps (update_found_account P rt_id id command actor meta)
  unfolding update_found_account
  update_found_account-Keeps id command =
      bind (update_accounts-Keeps P (live_account rt_id id) _) (λ count.
        and_then (single-Keeps P rt_id actor meta count) (
          bind (gets-Keeps (λ s. P.find_first (live_account rt_id id) s.accounts)) (λ found.
            bind
              (require-Keeps found
                (bad_request "Cash account changed while processing the request."))
              (λ a.
                and_then
                  (write_audit-Keeps P
                    (audit_entry rt_id actor meta "CASH_ACCOUNT_UPDATED" "cash_account" id))
                  (return-Keeps (some a))))))

  pub update_cash_account-Keeps :
      (id : String) (command : UpdateCashAccountCommand)
      → Keeps (update_cash_account P rt_id id command actor meta)
  unfolding update_cash_account
  update_cash_account-Keeps id command = transaction-Keeps P (
      bind (gets-Keeps (λ s. P.find_first (live_account rt_id id) s.accounts)) (λ before.
        option-Keeps before (return-Keeps none) (λ _. update_found_account-Keeps id command)))

  archive_found_account-Keeps :
      (id : String) (a : CashAccountRow) → Keeps (archive_found_account P rt_id id actor meta a)
  unfolding archive_found_account
  archive_found_account-Keeps id a =
      bind (gets-Keeps (λ s. length (P.find_many (of_account rt_id id) s.ledgers))) (λ ledgers.
        bind (new_date-Keeps P) (λ at.
          and_then (update_accounts-Keeps P (λ b. b.id == id) (archived_account P ledgers at actor))
            (and_then
              (write_audit-Keeps P
                (audit_entry rt_id actor meta "CASH_ACCOUNT_ARCHIVED" "cash_account" id))
              (return-Keeps (some (archived_account P ledgers at actor a))))))

  pub archive_cash_account-Keeps :
      (id : String) → Keeps (archive_cash_account P rt_id id actor meta)
  unfolding archive_cash_account
  archive_cash_account-Keeps id = transaction-Keeps P (
      bind (gets-Keeps (λ s. P.find_first (live_account rt_id id) s.accounts))
        (λ before. option-Keeps before (return-Keeps none) (archive_found_account-Keeps id)))

  pub create_transaction_category-Keeps :
      (command : CreateTransactionCategoryCommand)
      → Keeps (create_transaction_category P rt_id command actor meta)
  unfolding create_transaction_category
  create_transaction_category-Keeps command =
      catch-Keeps
        (transaction-Keeps P (
          bind (new_id-Keeps P) (λ id.
            bind (create_category-Keeps P _)
              (λ c. and_then (write_audit-Keeps P _) (return-Keeps c)))))
        (λ e. conflict-Keeps e _)

  update_found_category-Keeps :
      (id : String) (command : UpdateTransactionCategoryCommand)
      → Keeps (update_found_category P rt_id id command actor meta)
  unfolding update_found_category
  update_found_category-Keeps id command =
      bind (update_categories-Keeps P (live_category rt_id id) _) (λ count.
        and_then (single-Keeps P rt_id actor meta count) (
          bind (gets-Keeps (λ s. P.find_first (live_category rt_id id) s.categories)) (λ found.
            bind
              (require-Keeps found
                (bad_request "Transaction category changed while processing the request."))
              (λ c.
                and_then
                  (write_audit-Keeps P (
                    audit_entry rt_id actor meta "TRANSACTION_CATEGORY_UPDATED"
                      "transaction_category" id))
                  (return-Keeps (some c))))))

  pub update_category-Keeps :
      (id : String) (command : UpdateTransactionCategoryCommand)
      → Keeps (update_category P rt_id id command actor meta)
  unfolding update_category
  update_category-Keeps id command = transaction-Keeps P (
      bind (gets-Keeps (λ s. P.find_first (live_category rt_id id) s.categories)) (λ before.
        option-Keeps before (return-Keeps none) (λ _. update_found_category-Keeps id command)))

  pub archive_category-Keeps : (id : String) → Keeps (archive_category P rt_id id actor meta)
  unfolding archive_category
  archive_category-Keeps id = transaction-Keeps P (
      bind (gets-Keeps (λ s. P.find_first (live_category rt_id id) s.categories)) (λ before.
        option-Keeps before (return-Keeps none) (λ c. bind (new_date-Keeps P) (λ at.
          and_then (update_categories-Keeps P (λ b. b.id == id) (archived_category P at actor)) (
            and_then
              (write_audit-Keeps P (
                audit_entry rt_id actor meta "TRANSACTION_CATEGORY_ARCHIVED" "transaction_category"
                  id))
              (return-Keeps (some (archived_category P at actor c))))))))

  module _ (command : CreateFinanceTransactionCommand) (type : TransactionType) where
    same-Keeps : (t : TransactionRow) → Keeps (is_same_request P t command type)
    unfolding is_same_request
    same-Keeps t =
        if-Keeps (same_references P t command type)
          (bind (require-Keeps (P.decimal command.amount) decimal_error)
            (λ amount. return-Keeps (t.amount ==ℤ amount && same_details P t command)))
          (return-Keeps false)

    matches-Keeps :
        (t : TransactionRow) → Keeps (assert_idempotent_create_matches P t command type actor meta)
    unfolding assert_idempotent_create_matches
    matches-Keeps t = bind (same-Keeps t) (λ same. if-Keeps same (return-Keeps tt) (
        and_then
          (write_audit-Keeps P
            (audit_entry t.rt_id actor meta "FINANCE_IDEMPOTENCY_REPLAY_FAILED" "transaction" t.id))
          (throw-Keeps
            (conflict "Idempotency key already belongs to a different transaction request."))))

    replay_draft-Keeps :
        (t : TransactionRow) → Keeps (replay_draft P rt_id command type actor meta t)
    unfolding replay_draft
    replay_draft-Keeps t =
        and_then (matches-Keeps t) (and_then (write_audit-Keeps P _) (return-Keeps t))

    references-Keeps : Keeps (assert_draft_references_in_transaction P rt_id command type)
    unfolding assert_draft_references_in_transaction find_active_cash_account_in_transaction
        find_active_category_in_transaction
    references-Keeps = reads (λ s. ground arith)

    body-Keeps : Keeps (create_draft_body P rt_id command type actor meta)
    unfolding create_draft_body
    body-Keeps = and_then references-Keeps (
        bind (require-Keeps (P.decimal command.amount) decimal_error) (λ amount.
          bind (new_id-Keeps P) (λ id.
            bind (create_transaction-Keeps P _)
              (λ t. and_then (write_audit-Keeps P _) (return-Keeps t)))))

    resolve-Keeps :
        (e : Error) → Keeps (resolve_idempotent_create_conflict P rt_id command type actor meta e)
    unfolding resolve_idempotent_create_conflict
    resolve-Keeps e =
        option-Keeps (given command.idempotency_key) (conflict-Keeps e draft_conflict) (λ key.
          if-Keeps (not (is_idempotency_unique_conflict e)) (conflict-Keeps e draft_conflict) (
            bind (gets-Keeps (λ s. P.find_first (with_key rt_id key) s.transactions)) (λ existing.
              option-Keeps existing (conflict-Keeps e draft_conflict) replay_draft-Keeps)))

    new_draft-Keeps : Keeps (create_new_draft P rt_id command type actor meta)
    unfolding create_new_draft
    new_draft-Keeps = catch-Keeps (transaction-Keeps P body-Keeps) resolve-Keeps

    draft-Keeps : Keeps (create_transaction_draft P rt_id type command actor meta)
    unfolding create_transaction_draft
    draft-Keeps = and_then (throw_if-Keeps _ _) (
        option-Keeps (given command.idempotency_key) new_draft-Keeps (λ key.
          bind (gets-Keeps (λ s. P.find_first (with_key rt_id key) s.transactions))
            (λ existing. option-Keeps existing new_draft-Keeps replay_draft-Keeps)))

  pub create_income_draft-Keeps :
      (command : CreateFinanceTransactionCommand)
      → Keeps (create_income_draft P rt_id command actor meta)
  unfolding create_income_draft
  create_income_draft-Keeps command = draft-Keeps command income

  pub create_expense_draft-Keeps :
      (command : CreateFinanceTransactionCommand)
      → Keeps (create_expense_draft P rt_id command actor meta)
  unfolding create_expense_draft
  create_expense_draft-Keeps command = draft-Keeps command expense
