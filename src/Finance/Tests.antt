-- ===== src/Finance/Tests.antt =====
-- The finance theorems at concrete tables.
use jimpitan.Base.{◌≡◌, refl, ◌⊎◌, Option, none, some, [], ◌∷◌}
use jimpitan.Base.Int.{pos, ◌+ℤ◌, ◌-ℤ◌}
use jimpitan.Finance.Schema.{TransactionStatus, income, expense, TransactionRow, ApprovalStatus}
use jimpitan.Finance.Platform.{Db}
use jimpitan.Finance.Platform.Memory.{memory}
use jimpitan.Finance.Monad.{Result, ok, err, bad_request, Tx, transaction}
use jimpitan.Finance.Tables.{
  new_date, new_id, write_audit, find_transaction_in_transaction,
  find_transaction_in_transaction_or_throw, update_transactions, create_ledger, update_accounts,
}
use jimpitan.Finance.Guards.{
  find_active_cash_account_in_transaction, find_active_category_in_transaction,
  find_expense_approval_policy_in_transaction, assert_expense_approval_gate_in_transaction,
  assert_posting_inputs_in_transaction, assert_post_idempotency_in_transaction,
  assert_replay_key_matches_in_transaction,
}
use jimpitan.Finance.Retry.{with_serializable_retry}
use jimpitan.Finance.Posting.{
  append_ledger_for_transaction, assert_single_mutation, finish_posting, post_validated,
  replay_posted, post_transaction_body, post_transaction_conflict, post_transaction_error,
  post_transaction, assert_replay_key_matches_outside,
}
use jimpitan.Finance.Rounds.{Rounds, with_serializable_retry-Rounds}
use jimpitan.Finance.Samples.{
  earlier_ledger, treasurer, no_meta, transaction_of, db_with, dues, db_dues, posted_dues,
  db_with-IsConsistent,
}
use jimpitan.Finance.Books.{SameBooks}
use jimpitan.Finance.Consistent.{IsConsistent}
use jimpitan.Finance.Post.Gate.{Permitted}
use jimpitan.Finance.Post.Keyed.{KeyedEnds, post_transaction-KeyedEnds}
use jimpitan.Finance.Post.Effects.{
  post_transaction-IsConsistent, post_transaction_posted, Replayed, Ledgered,
  post_transaction-ledgers, post_transaction_atomic, post_transaction_once,
  post_transaction-Permitted,
}

-- Unfolds the code that a posting runs.
posting_runs : Unit {0}
unfolding post_transaction with_serializable_retry post_transaction_body
    find_transaction_in_transaction post_validated assert_posting_inputs_in_transaction
    assert_expense_approval_gate_in_transaction assert_post_idempotency_in_transaction
    append_ledger_for_transaction update_accounts assert_single_mutation ◌+ℤ◌ ◌-ℤ◌ new_date new_id
    create_ledger write_audit finish_posting update_transactions replay_posted
    assert_replay_key_matches_in_transaction assert_replay_key_matches_outside
    find_active_cash_account_in_transaction find_active_category_in_transaction
    find_expense_approval_policy_in_transaction post_transaction_conflict post_transaction_error
    find_transaction_in_transaction_or_throw
posting_runs = tt

abbrev post_dues : Result (Option TransactionRow) × Db
post_dues = post_transaction memory "rt-5" "t-1" none treasurer no_meta db_dues

abbrev dues_after : TransactionRow
dues_after = record dues {
  status = TransactionStatus.posted;
  posted_by_id = some "u-1";
  posted_at = some 7;
  updated_by_id = some "u-1";
}

dues_are_posted : post_dues.0 ≡ ok (some dues_after)
unfolding posting_runs
dues_are_posted = refl

abbrev posting_attempt : Tx (Option TransactionRow)
posting_attempt =
    transaction memory (post_transaction_body memory "rt-5" "t-1" none treasurer no_meta)

with_serializable_retry-Rounds_example :
    Rounds posting_attempt 3 db_dues
      (with_serializable_retry posting_attempt db_dues).0
      (with_serializable_retry posting_attempt db_dues).1
with_serializable_retry-Rounds_example = with_serializable_retry-Rounds posting_attempt db_dues

-- A request with the key of the dues.
post_transaction-KeyedEnds_example :
    KeyedEnds memory "rt-5" "t-1"
      (some "k-1")
      "k-1"
      treasurer
      no_meta
      db_dues
      (post_transaction memory "rt-5" "t-1" (some "k-1") treasurer no_meta db_dues)
post_transaction-KeyedEnds_example =
    post_transaction-KeyedEnds memory "rt-5" "t-1" (some "k-1") "k-1" treasurer no_meta db_dues refl

post_transaction-IsConsistent_example : IsConsistent post_dues.1
post_transaction-IsConsistent_example =
    post_transaction-IsConsistent memory "rt-5" "t-1" none treasurer no_meta db_dues
      (db_with-IsConsistent dues)

post_transaction_posted_example : dues_after.status ≡ TransactionStatus.posted
post_transaction_posted_example =
    post_transaction_posted memory "rt-5" "t-1" none treasurer no_meta db_dues dues_after
      dues_are_posted

post_transaction-ledgers_example :
    Replayed memory "rt-5" "t-1" none treasurer no_meta db_dues dues_after post_dues.1
    ⊎ Ledgered memory "rt-5" "t-1" none treasurer no_meta db_dues post_dues.1
post_transaction-ledgers_example =
    post_transaction-ledgers memory "rt-5" "t-1" none treasurer no_meta db_dues dues_after
      (db_with-IsConsistent dues) dues_are_posted

-- A draft cannot be posted.
abbrev db_draft : Db
db_draft = db_with (transaction_of income TransactionStatus.draft (pos 100))

draft_is_refused :
    (post_transaction memory "rt-5" "t-1" none treasurer no_meta db_draft).0
    ≡ err (bad_request "Only validated transactions can be posted.")
unfolding posting_runs
draft_is_refused = refl

post_transaction_atomic_example :
    SameBooks db_draft (post_transaction memory "rt-5" "t-1" none treasurer no_meta db_draft).1
post_transaction_atomic_example =
    post_transaction_atomic memory "rt-5" "t-1" none treasurer no_meta db_draft
      (bad_request "Only validated transactions can be posted.") draft_is_refused

post_transaction_once_example :
    SameBooks
      (db_with posted_dues)
      (post_transaction memory "rt-5" "t-1" (some "k-1") treasurer no_meta (db_with posted_dues)).1
post_transaction_once_example =
    post_transaction_once memory "rt-5" "t-1" (some "k-1") treasurer no_meta (db_with posted_dues)
      posted_dues refl refl

-- An expense of 80 000.00, above the default threshold, with one approval and 100 000.00 in the account.
abbrev repair : TransactionRow
repair = transaction_of expense TransactionStatus.validated (pos 8000000)

abbrev db_repair : Db
db_repair = record (db_with repair) {
  approvals =
      record {
        id = "a-1";
        rt_id = "rt-5";
        transaction_id = "t-1";
        requested_by_id = "u-1";
        approver_membership_id = "m-2";
        decision_by_id = some "u-2";
        idempotency_key = none;
        status = ApprovalStatus.approved;
        reason = none;
        decision_note = none;
        expires_at = none;
        decided_at = some 6;
      }
      ∷ [];
  ledgers = earlier_ledger ∷ [];
}

abbrev repair_after : TransactionRow
repair_after = record repair {
  status = TransactionStatus.posted;
  posted_by_id = some "u-1";
  posted_at = some 7;
  updated_by_id = some "u-1";
}

repair_is_posted :
    (post_transaction memory "rt-5" "t-1" none treasurer no_meta db_repair).0
    ≡ ok (some repair_after)
unfolding posting_runs
repair_is_posted = refl

post_transaction-Permitted_example : Permitted memory "rt-5" repair db_repair
post_transaction-Permitted_example =
    post_transaction-Permitted memory "rt-5" "t-1" none treasurer no_meta db_repair repair
      (some repair_after) refl refl refl repair_is_posted
