-- ===== src/Finance/Posting.antt =====
-- Posting a transaction to the cash ledger: `appendLedgerForTransaction` and `postTransaction` of
-- apps/api/src/modules/finance/infrastructure/prisma-finance.repository.ts.
pub mod Append
use jimpitan.Base.{
  ℕ, suc, ◌+◌, String, Bool, true, false, not, ◌&&◌, Option, none, some, or_else, if◌then◌else◌,
}
use jimpitan.Base.Int.{ℤ, pos, ◌+ℤ◌, ◌-ℤ◌, ltb_ℤ}
use jimpitan.Finance.Schema.{
  TransactionType, expense, TransactionStatus, LedgerEntryType, increase, decrease, AuthPrincipal,
  FinanceRequestMeta, TransactionRow, LedgerRow,
}
use jimpitan.Finance.Platform.{Platform}
use jimpitan.Finance.Monad.{
  Error, bad_request, conflict, replay_conflict, approval_gate, Tx, return, throw, gets, catch,
  throw_if, transaction, ◌>>=◌, ◌>>◌,
}
use jimpitan.Finance.Tables.{
  is_validated, is_posted, active_account, of_account, validated_transaction, audit_entry, new_date,
  new_id, write_audit, find_transaction_in_transaction, find_transaction_in_transaction_or_throw,
  update_accounts, update_transactions, create_ledger,
}
use jimpitan.Finance.Guards.{
  assert_posting_inputs_in_transaction, assert_post_idempotency_in_transaction,
  assert_replay_key_matches_in_transaction,
}
use jimpitan.Finance.Retry.{
  is_known_concurrency_conflict, throw_known_conflict, with_serializable_retry,
}

abbrev pub entry_type_of : TransactionType → LedgerEntryType
entry_type_of expense = decrease
entry_type_of _ = increase

abbrev pub moved : LedgerEntryType → ℤ → ℤ → ℤ
moved increase before amount = before +ℤ amount
moved decrease before amount = before -ℤ amount

-- latestLedger?.ledgerSequence ?? 0, and latestLedger?.balanceAfter ?? 0
abbrev pub latest_sequence : Option LedgerRow → ℕ
latest_sequence none = 0
latest_sequence (some l) = l.ledger_sequence

abbrev pub latest_balance : Option LedgerRow → ℤ
latest_balance none = pos 0
latest_balance (some l) = l.balance_after

abbrev is_one : ℕ → Bool
is_one (suc ℕ.zero) = true
is_one _ = false

unfoldable pub assert_single_mutation : ℕ → Tx (Unit {0})
assert_single_mutation count =
    throw_if (not (is_one count))
      (bad_request "Finance lifecycle state changed while processing the request.")

-- The row that the posting writes.
abbrev pub next_ledger : String → TransactionRow → Option LedgerRow → String → ℕ → LedgerRow
next_ledger rt_id t latest id ledger_date = record {
  id = id;
  rt_id = rt_id;
  cash_account_id = t.cash_account_id;
  transaction_id = t.id;
  ledger_sequence = latest_sequence latest + 1;
  entry_type = entry_type_of t.type;
  amount = t.amount;
  balance_before = latest_balance latest;
  balance_after = moved (entry_type_of t.type) (latest_balance latest) t.amount;
  ledger_date = ledger_date;
}

-- What the posting writes into the transaction.
abbrev pub mark_posted :
    Option String → TransactionRow → AuthPrincipal → LedgerRow → TransactionRow → TransactionRow
mark_posted key before actor ledger t = record t {
  status = TransactionStatus.posted;
  idempotency_key = or_else key before.idempotency_key;
  posted_by_id = some actor.user_id;
  posted_at = some ledger.ledger_date;
  updated_by_id = some actor.user_id;
}

module _ (P : Platform) where
  unfoldable pub append_ledger_for_transaction :
      String → TransactionRow → AuthPrincipal → FinanceRequestMeta → Tx LedgerRow
  append_ledger_for_transaction rt_id t actor meta = do
    account_lock ←
        update_accounts P (active_account rt_id t.cash_account_id)
          (λ a. record a { version = a.version + 1; updated_by_id = some actor.user_id })
    assert_single_mutation account_lock
    latest ←
        gets (λ s.
          P.find_latest (λ l. l.ledger_sequence) (of_account rt_id t.cash_account_id) s.ledgers)
    throw_if (ltb_ℤ (moved (entry_type_of t.type) (latest_balance latest) t.amount) (pos 0))
        (bad_request "Cash account balance is insufficient for this transaction.")
    ledger_date ← new_date P
    id ← new_id P
    ledger ← create_ledger P (next_ledger rt_id t latest id ledger_date)
    balance_update ← update_accounts P (active_account rt_id t.cash_account_id) (λ a. record a {
      current_balance = ledger.balance_after;
      updated_by_id = some actor.user_id;
    })
    assert_single_mutation balance_update
    write_audit P (audit_entry rt_id actor meta "LEDGER_ENTRY_CREATED" "cash_ledger" ledger.id)
    return ledger

  -- The branch of a transaction that is posted already.
  unfoldable pub replay_posted :
      String
      → TransactionRow
      → Option String
      → AuthPrincipal
      → FinanceRequestMeta
      → Tx (Option TransactionRow)
  replay_posted rt_id before key actor meta = do
    assert_replay_key_matches_in_transaction
        (audit_entry rt_id actor meta "FINANCE_IDEMPOTENCY_REPLAY_FAILED" "transaction" before.id)
        before.idempotency_key key
    write_audit P
        (audit_entry rt_id actor meta "FINANCE_IDEMPOTENCY_REPLAYED" "transaction" before.id)
    return (some before)

  -- After the append: the status, the check that one row was written, the audit log.
  unfoldable pub finish_posting :
      String
      → TransactionRow
      → Option String
      → AuthPrincipal
      → FinanceRequestMeta
      → LedgerRow
      → Tx (Option TransactionRow)
  finish_posting rt_id before key actor meta ledger = do
    update ←
        update_transactions P (validated_transaction rt_id before.id)
          (mark_posted key before actor ledger)
    assert_single_mutation update
    after ← find_transaction_in_transaction_or_throw P rt_id before.id
    write_audit P (audit_entry rt_id actor meta "TRANSACTION_POSTED" "transaction" before.id)
    return (some after)

  -- The branch of a validated transaction.
  unfoldable pub post_validated :
      String
      → TransactionRow
      → Option String
      → AuthPrincipal
      → FinanceRequestMeta
      → Tx (Option TransactionRow)
  post_validated rt_id before key actor meta = do
    assert_posting_inputs_in_transaction P rt_id before actor meta
    assert_post_idempotency_in_transaction P rt_id before key actor meta
    ledger ← append_ledger_for_transaction rt_id before actor meta
    finish_posting rt_id before key actor meta ledger

  -- The function that `postTransaction` hands to `$transaction`.
  unfoldable pub post_transaction_body :
      String
      → String
      → Option String
      → AuthPrincipal
      → FinanceRequestMeta
      → Tx (Option TransactionRow)
  post_transaction_body rt_id transaction_id key actor meta = do
    found ← find_transaction_in_transaction P rt_id transaction_id
    elim found [
      | none ↦ return none
      | some before ↦
          if is_posted before.status
          then replay_posted rt_id before key actor meta
          else (if not (is_validated before.status)
              then throw (bad_request "Only validated transactions can be posted.")
              else post_validated rt_id before key actor meta)
    ]

  -- `assertReplayKeyMatchesOutside`: the refusal is written to the audit log first.
  unfoldable pub assert_replay_key_matches_outside :
      String
      → TransactionRow
      → Option String
      → AuthPrincipal
      → FinanceRequestMeta
      → String
      → String
      → Tx (Unit {0})
  assert_replay_key_matches_outside rt_id existing key actor meta entity_type entity_id s =
      catch
        (assert_replay_key_matches_in_transaction
          (audit_entry rt_id actor meta "FINANCE_IDEMPOTENCY_REPLAY_FAILED" entity_type entity_id)
          existing.idempotency_key key)
        (λ _. do
          write_audit P (
              audit_entry rt_id actor meta "FINANCE_IDEMPOTENCY_REPLAY_FAILED" entity_type
                entity_id)
          throw (conflict "Idempotency replay does not match the original financial request."))
        s

  -- After an error that carries no audit entry: another request may have posted the transaction.
  unfoldable pub post_transaction_conflict :
      String
      → String
      → Option String
      → AuthPrincipal
      → FinanceRequestMeta
      → Error
      → Tx (Option TransactionRow)
  post_transaction_conflict rt_id transaction_id key actor meta error = do
    posted ← find_transaction_in_transaction P rt_id transaction_id
    elim posted [
      | none ↦
          throw_known_conflict error
            "Transaction could not be posted because a duplicate ledger sequence, idempotency key, or source already exists."
      | some t ↦
          if is_known_concurrency_conflict error && is_posted t.status
          then (do
            assert_replay_key_matches_outside rt_id t key actor meta "transaction" t.id
            write_audit P
                (audit_entry rt_id actor meta "FINANCE_IDEMPOTENCY_REPLAYED" "transaction" t.id)
            return (some t))
          else throw_known_conflict error
              "Transaction could not be posted because a duplicate ledger sequence, idempotency key, or source already exists."
    ]

  unfoldable pub post_transaction_error :
      String
      → String
      → Option String
      → AuthPrincipal
      → FinanceRequestMeta
      → Error
      → Tx (Option TransactionRow)
  post_transaction_error rt_id id key actor meta (replay_conflict audit message) =
      write_audit P audit >> throw (replay_conflict audit message)
  post_transaction_error rt_id id key actor meta (approval_gate audit) =
      write_audit P audit >> throw (approval_gate audit)
  post_transaction_error rt_id id key actor meta error =
      post_transaction_conflict rt_id id key actor meta error

  unfoldable pub post_transaction :
      String
      → String
      → Option String
      → AuthPrincipal
      → FinanceRequestMeta
      → Tx (Option TransactionRow)
  post_transaction rt_id id key actor meta =
      catch
        (with_serializable_retry (transaction P (post_transaction_body rt_id id key actor meta)))
        (post_transaction_error rt_id id key actor meta)
