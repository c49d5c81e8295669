-- ===== src/Finance/CollectionEvolution.antt =====
-- The history relation for `postValidatedCollection`
-- (apps/api/src/modules/finance/infrastructure/prisma-finance.repository.ts).
use jimpitan.Base.{String, not, refl, arith}
use jimpitan.Base.Int.{ℤ}
use jimpitan.Finance.Schema.{
  TransactionRow, AuthPrincipal, FinanceRequestMeta, PostValidatedCollectionCommand,
}
use jimpitan.Jimpitan.Schema.{CollectionRow}
use jimpitan.Finance.Platform.{Platform}
use jimpitan.Finance.Monad.{
  Error, bad_request, not_found, forbidden, conflict, replay_conflict, approval_gate,
  blocked_mutation, known_request, decimal_error,
}
use jimpitan.Finance.Tables.{
  is_posted, validated_transaction, from_collection, new_id, create_account, create_category,
  audit_entry,
}
use jimpitan.Finance.History.{same-History}
use jimpitan.Finance.Keeps.{
  Keeps, bind, and_then, option-Keeps, if-Keeps, reads, return-Keeps, throw-Keeps, gets-Keeps,
  require-Keeps, throw_if-Keeps, catch-Keeps, transaction-Keeps, retry-Keeps,
}
use jimpitan.Finance.Statements.{
  conflict-Keeps, new_date-Keeps, new_id-Keeps, write_audit-Keeps, find_transaction_or_throw-Keeps,
  find_ledger-Keeps, update_transactions-Keeps, create_transaction-Keeps,
}
use jimpitan.Finance.Guards.{
  find_active_cash_account_in_transaction, find_active_category_in_transaction,
}
use jimpitan.Finance.Collections.{
  resolve_collection_posting_amount, find_or_create_default_cash_account_in_transaction,
  find_or_create_jimpitan_category_in_transaction, posting_account, posting_category,
  is_validated_collection,
}
use jimpitan.Finance.CollectionPosting.{
  collection_conflict, replayed, collection_with_id, replay_collection, post_created,
  post_new_collection, post_collection_body, post_collection_conflict, post_collection_error,
  post_validated_collection,
}
use jimpitan.Finance.Evolution.{
  append-Keeps, single-Keeps, outside-Keeps, replay_key-Keeps, to_posted, changed_to,
}

module _ (P : Platform) (rt_id : String) (command : PostValidatedCollectionCommand)
    (actor : AuthPrincipal) (meta : FinanceRequestMeta) where
  replay_collection-Keeps :
      (t : TransactionRow) → Keeps (replay_collection P rt_id command actor meta t)
  unfolding replay_collection
  replay_collection-Keeps t = and_then (replay_key-Keeps _ _ _) (
      bind (find_ledger-Keeps P t) (λ ledger. option-Keeps ledger (throw-Keeps _) (λ entry.
        if-Keeps _
          (and_then (write_audit-Keeps P _) (return-Keeps (replayed command.collection_id t entry)))
          (throw-Keeps _))))

  amount-Keeps : (c : CollectionRow) → Keeps (resolve_collection_posting_amount P rt_id c)
  unfolding resolve_collection_posting_amount
  amount-Keeps c = reads (λ s. ground arith)

  account-Keeps : Keeps (posting_account P rt_id command actor)
  unfolding posting_account find_active_cash_account_in_transaction
      find_or_create_default_cash_account_in_transaction create_account new_id
  account-Keeps = record {
    at = λ s.
        same-History s (posting_account P rt_id command actor s).1 (ground arith) (ground arith)
          (ground arith) (ground arith) (ground arith) (ground arith);
  }

  category-Keeps : Keeps (posting_category P rt_id command actor)
  unfolding posting_category find_active_category_in_transaction
      find_or_create_jimpitan_category_in_transaction create_category new_id
  category-Keeps = record {
    at = λ s.
        same-History s (posting_category P rt_id command actor s).1 (ground arith) (ground arith)
          (ground arith) (ground arith) (ground arith) (ground arith);
  }

  post_created-Keeps :
      (c : CollectionRow) (amount : ℤ) (t : TransactionRow)
      → Keeps (post_created P rt_id command actor meta c amount t)
  unfolding post_created
  post_created-Keeps c amount t = and_then (write_audit-Keeps P _) (
      and_then (write_audit-Keeps P _) (
        bind (append-Keeps P rt_id actor meta t) (λ ledger.
          bind
            (update_transactions-Keeps P (validated_transaction rt_id t.id) _
              (λ u h. changed_to u _ refl refl (to_posted u.status (ground arith)) (ground arith)))
            (λ count. and_then (single-Keeps P rt_id actor meta count) (
              bind (find_transaction_or_throw-Keeps P rt_id t.id) (λ posted.
                and_then (write_audit-Keeps P _)
                  (and_then (write_audit-Keeps P _) (return-Keeps _))))))))

  post_new-Keeps : (c : CollectionRow) → Keeps (post_new_collection P rt_id command actor meta c)
  unfolding post_new_collection
  post_new-Keeps c = bind (amount-Keeps c) (λ amount. bind account-Keeps (λ account.
      bind category-Keeps (λ category. bind (new_date-Keeps P) (λ now.
        bind (new_id-Keeps P)
          (λ id. bind (create_transaction-Keeps P _) (λ t. post_created-Keeps c amount t))))))

  body-Keeps : Keeps (post_collection_body P rt_id command actor meta)
  unfolding post_collection_body
  body-Keeps =
      bind
        (gets-Keeps
          (λ s. P.find_first (from_collection rt_id command.collection_id) s.transactions))
        (λ existing.
          option-Keeps existing
            (bind
              (gets-Keeps
                (λ s. P.find_first (collection_with_id rt_id command.collection_id) s.collections))
              (λ found.
                bind
                  (require-Keeps found
                    (bad_request "Only validated collections can be posted to finance."))
                  (λ c.
                    and_then
                      (throw_if-Keeps (not (is_validated_collection c.status))
                        (bad_request "Only validated collections can be posted to finance."))
                      (post_new-Keeps c))))
            replay_collection-Keeps)

  conflict_of_collection-Keeps :
      (e : Error) → Keeps (post_collection_conflict P rt_id command actor meta e)
  unfolding post_collection_conflict
  conflict_of_collection-Keeps e =
      bind
        (gets-Keeps
          (λ s. P.find_first (from_collection rt_id command.collection_id) s.transactions))
        (λ existing. option-Keeps existing (conflict-Keeps e collection_conflict) (λ t.
          bind (find_ledger-Keeps P t) (λ ledger.
            option-Keeps ledger (conflict-Keeps e collection_conflict) (λ entry.
              if-Keeps (is_posted t.status)
                (and_then
                  (outside-Keeps P rt_id actor meta t command.idempotency_key "jimpitan_collection"
                    command.collection_id)
                  (and_then
                    (write_audit-Keeps P (
                      audit_entry rt_id actor meta "FINANCE_IDEMPOTENCY_REPLAYED"
                        "jimpitan_collection" command.collection_id))
                    (return-Keeps (replayed command.collection_id t entry))))
                (conflict-Keeps e collection_conflict)))))

  error-Keeps : (e : Error) → Keeps (post_collection_error P rt_id command actor meta e)
  unfolding post_collection_error
  error-Keeps (replay_conflict audit message) = and_then (write_audit-Keeps P audit) (throw-Keeps _)
  error-Keeps (blocked_mutation audit m) =
      conflict-Keeps (blocked_mutation audit m) collection_conflict
  error-Keeps (approval_gate audit) = conflict-Keeps (approval_gate audit) collection_conflict
  error-Keeps (bad_request m) = conflict-Keeps (bad_request m) collection_conflict
  error-Keeps (not_found m) = conflict-Keeps (not_found m) collection_conflict
  error-Keeps (forbidden m) = conflict-Keeps (forbidden m) collection_conflict
  error-Keeps (conflict m) = conflict-Keeps (conflict m) collection_conflict
  error-Keeps (known_request c m) =
      if-Keeps _ (conflict_of_collection-Keeps (known_request c m))
        (conflict-Keeps (known_request c m) collection_conflict)
  error-Keeps decimal_error = conflict-Keeps decimal_error collection_conflict

  pub post_validated_collection-Keeps : Keeps (post_validated_collection P rt_id command actor meta)
  unfolding post_validated_collection
  post_validated_collection-Keeps =
      catch-Keeps (retry-Keeps _ (transaction-Keeps P body-Keeps)) error-Keeps
