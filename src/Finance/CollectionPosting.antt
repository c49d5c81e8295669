-- ===== src/Finance/CollectionPosting.antt =====
-- The rest of `postValidatedCollection` of
-- apps/api/src/modules/finance/infrastructure/prisma-finance.repository.ts: the replay of a collection
-- that is posted already, the posting itself, and the handling of errors.
use jimpitan.Base.{String, ◌==◌, Bool, not, ◌&&◌, none, some, if◌then◌else◌}
use jimpitan.Base.Int.{ℤ}
use jimpitan.Finance.Schema.{
  TransactionStatus, AuthPrincipal, FinanceRequestMeta, TransactionRow, LedgerRow,
  PostValidatedCollectionCommand,
}
use jimpitan.Jimpitan.Schema.{CollectionRow}
use jimpitan.Finance.Platform.{Platform}
use jimpitan.Finance.Monad.{
  Error, bad_request, replay_conflict, Tx, return, throw, gets, catch, throw_if, require,
  transaction, ◌>>=◌, ◌>>◌,
}
use jimpitan.Finance.Tables.{
  is_posted, from_collection, validated_transaction, audit_entry, new_date, new_id, write_audit,
  find_ledger_of, find_transaction_in_transaction_or_throw, update_transactions, create_transaction,
}
use jimpitan.Finance.Guards.{assert_replay_key_matches_in_transaction}
use jimpitan.Finance.Retry.{
  is_known_concurrency_conflict, throw_known_conflict, with_serializable_retry,
}
use jimpitan.Finance.Posting.{
  append_ledger_for_transaction, assert_single_mutation, assert_replay_key_matches_outside,
}
use jimpitan.Finance.Collections.{
  SourceCollectionPostingResult, is_validated_collection, resolve_collection_posting_amount,
  posting_account, posting_category, collection_transaction,
}

abbrev pub replayed : String → TransactionRow → LedgerRow → SourceCollectionPostingResult
replayed collection_id existing entry = record {
  collection_id = collection_id;
  collection_mode = none;
  collection_total_amount = none;
  transaction = existing;
  ledger = entry;
}

-- { id, rtId }
abbrev pub collection_with_id : String → String → CollectionRow → Bool
collection_with_id rt_id id c = c.id == id && c.rt_id == rt_id

abbrev pub collection_conflict : String
collection_conflict =
    "Collection could not be posted because it was already posted or ledger sequence changed concurrently."

module _ (P : Platform) where
  -- An existing transaction of the collection answers the request, or refuses it.
  unfoldable pub replay_collection :
      String
      → PostValidatedCollectionCommand
      → AuthPrincipal
      → FinanceRequestMeta
      → TransactionRow
      → Tx SourceCollectionPostingResult
  replay_collection rt_id command actor meta existing =
      let refused =
        audit_entry rt_id actor meta "FINANCE_IDEMPOTENCY_REPLAY_FAILED" "jimpitan_collection"
          command.collection_id in
      let incomplete =
        replay_conflict refused "Collection posting is already in progress or incomplete." in
      do
        assert_replay_key_matches_in_transaction refused existing.idempotency_key
            command.idempotency_key
        ledger ← find_ledger_of P existing
        elim ledger [
          | none ↦ throw incomplete
          | some entry ↦
              if is_posted existing.status
              then (do
                write_audit P (
                    audit_entry rt_id actor meta "FINANCE_IDEMPOTENCY_REPLAYED"
                      "jimpitan_collection" command.collection_id)
                return (replayed command.collection_id existing entry))
              else throw incomplete
        ]

  -- From the created transaction on: its ledger row, its status, the audit log.
  unfoldable pub post_created :
      String
      → PostValidatedCollectionCommand
      → AuthPrincipal
      → FinanceRequestMeta
      → CollectionRow
      → ℤ
      → TransactionRow
      → Tx SourceCollectionPostingResult
  post_created rt_id command actor meta collection amount transaction = do
    write_audit P (audit_entry rt_id actor meta "TRANSACTION_CREATED" "transaction" transaction.id)
    write_audit P
        (audit_entry rt_id actor meta "TRANSACTION_VALIDATED" "transaction" transaction.id)
    ledger ← append_ledger_for_transaction P rt_id transaction actor meta
    update ← update_transactions P (validated_transaction rt_id transaction.id) (λ t. record t {
      status = TransactionStatus.posted;
      posted_by_id = some actor.user_id;
      posted_at = some ledger.ledger_date;
      updated_by_id = some actor.user_id;
    })
    assert_single_mutation update
    posted ← find_transaction_in_transaction_or_throw P rt_id transaction.id
    write_audit P (
        audit_entry rt_id actor meta "COLLECTION_POSTED_TO_FINANCE" "jimpitan_collection"
          command.collection_id)
    write_audit P (audit_entry rt_id actor meta "TRANSACTION_POSTED" "transaction" posted.id)
    return (record {
      collection_id = command.collection_id;
      collection_mode = some collection.collection_mode;
      collection_total_amount = some amount;
      transaction = posted;
      ledger = ledger;
    })

  unfoldable pub post_new_collection :
      String
      → PostValidatedCollectionCommand
      → AuthPrincipal
      → FinanceRequestMeta
      → CollectionRow
      → Tx SourceCollectionPostingResult
  post_new_collection rt_id command actor meta collection = do
    amount ← resolve_collection_posting_amount P rt_id collection
    account ← posting_account P rt_id command actor
    category ← posting_category P rt_id command actor
    now ← new_date P
    id ← new_id P
    transaction ← create_transaction P (
        collection_transaction P rt_id command actor collection amount account.id category.id id
          now)
    post_created rt_id command actor meta collection amount transaction

  -- The function that `postValidatedCollection` hands to `$transaction`.
  unfoldable pub post_collection_body :
      String
      → PostValidatedCollectionCommand
      → AuthPrincipal
      → FinanceRequestMeta
      → Tx SourceCollectionPostingResult
  post_collection_body rt_id command actor meta = do
    existing ← gets (λ s. P.find_first (from_collection rt_id command.collection_id) s.transactions)
    elim existing [
      | some t ↦ replay_collection rt_id command actor meta t
      | none ↦ do
        found ←
            gets (λ s. P.find_first (collection_with_id rt_id command.collection_id) s.collections)
        collection ←
            require found (bad_request "Only validated collections can be posted to finance.")
        throw_if (not (is_validated_collection collection.status))
            (bad_request "Only validated collections can be posted to finance.")
        post_new_collection rt_id command actor meta collection
    ]

  -- After a concurrency conflict another request may have posted the collection.
  unfoldable pub post_collection_conflict :
      String
      → PostValidatedCollectionCommand
      → AuthPrincipal
      → FinanceRequestMeta
      → Error
      → Tx SourceCollectionPostingResult
  post_collection_conflict rt_id command actor meta error = do
    existing ← gets (λ s. P.find_first (from_collection rt_id command.collection_id) s.transactions)
    elim existing [
      | none ↦ throw_known_conflict error collection_conflict
      | some t ↦ do
        ledger ← find_ledger_of P t
        elim ledger [
          | none ↦ throw_known_conflict error collection_conflict
          | some entry ↦
              if is_posted t.status
              then (do
                assert_replay_key_matches_outside P rt_id t command.idempotency_key actor meta
                    "jimpitan_collection" command.collection_id
                write_audit P (
                    audit_entry rt_id actor meta "FINANCE_IDEMPOTENCY_REPLAYED"
                      "jimpitan_collection" command.collection_id)
                return (replayed command.collection_id t entry))
              else throw_known_conflict error collection_conflict
        ]
    ]

  unfoldable pub post_collection_error :
      String
      → PostValidatedCollectionCommand
      → AuthPrincipal
      → FinanceRequestMeta
      → Error
      → Tx SourceCollectionPostingResult
  post_collection_error rt_id command actor meta (replay_conflict audit message) =
      write_audit P audit >> throw (replay_conflict audit message)
  post_collection_error rt_id command actor meta error =
      if is_known_concurrency_conflict error
      then post_collection_conflict rt_id command actor meta error
      else throw_known_conflict error collection_conflict

  unfoldable pub post_validated_collection :
      String
      → PostValidatedCollectionCommand
      → AuthPrincipal
      → FinanceRequestMeta
      → Tx SourceCollectionPostingResult
  post_validated_collection rt_id command actor meta =
      catch
        (with_serializable_retry (transaction P (post_collection_body rt_id command actor meta)))
        (post_collection_error rt_id command actor meta)
