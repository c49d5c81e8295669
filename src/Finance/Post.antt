-- ===== src/Finance/Post.antt =====
-- What a successful posting of a transaction has done
-- (`postTransaction` of apps/api/src/modules/finance/infrastructure/prisma-finance.repository.ts).
pub mod Outcome
pub mod Keyed
pub mod Effects
pub mod Updated
pub mod Gate
use jimpitan.Base.{
  ℕ, String, ◌≡◌, refl, ◌≢◌, ◌⊎◌, inl, inr, Option, none, some, arith, given, same_text, ◌==◌, not,
  ◌&&◌, is_none, Bool, true, false,
}
use jimpitan.Finance.Schema.{AuthPrincipal, FinanceRequestMeta, TransactionRow, LedgerRow}
use jimpitan.Finance.Platform.{Db, Platform, DistinctTransactions}
use jimpitan.Finance.Monad.{Result, ok, err, ◌>>=◌, ◌>>◌, Tx}
use jimpitan.Finance.Tables.{
  live_transaction, validated_transaction, is_posted, is_validated, write_audit,
  find_transaction_in_transaction, find_transaction_in_transaction_or_throw, update_transactions,
}
use jimpitan.Finance.Guards.{
  assert_posting_inputs_in_transaction, assert_post_idempotency_in_transaction,
  assert_expense_approval_gate_in_transaction, assert_replay_key_matches_in_transaction,
}
use jimpitan.Finance.Posting.{
  assert_single_mutation, append_ledger_for_transaction, mark_posted, finish_posting,
  post_validated, replay_posted, post_transaction_body,
}
use jimpitan.Finance.Posting.Append.{Appended, append_ledger-Appended}
use jimpitan.Finance.Books.{SameBooks, SameBooks-refl, Sequence, bind-ok, check-ok}

module _ (P : Platform) (rt_id : String) (before : TransactionRow) (key : Option String)
    (actor : AuthPrincipal) (meta : FinanceRequestMeta) where
  inputs_same :
      (s u : Db)
      → assert_posting_inputs_in_transaction P rt_id before actor meta s ≡ (ok tt, u)
      → u ≡ s
  unfolding assert_posting_inputs_in_transaction assert_expense_approval_gate_in_transaction
  inputs_same s u h = ground arith

  key_same :
      (s u : Db)
      → assert_post_idempotency_in_transaction P rt_id before key actor meta s ≡ (ok tt, u)
      → u ≡ s
  unfolding assert_post_idempotency_in_transaction
  key_same s u h = ground arith

  -- The writes after the append.
  pub record Finished (l : LedgerRow) (s : Db) (after : TransactionRow) (s' : Db) : Type 0 where
    pub accounts : s'.accounts ≡ s.accounts
    pub ledgers : s'.ledgers ≡ s.ledgers
    pub collections : s'.collections ≡ s.collections
    pub items : s'.items ≡ s.items
    pub approvals : s'.approvals ≡ s.approvals
    pub settings : s'.settings ≡ s.settings
    pub categories : s'.categories ≡ s.categories
    pub transactions :
        s'.transactions
        ≡ P.update_many
            (validated_transaction rt_id before.id)
            (mark_posted key before actor l)
            s.transactions
    pub no_clash : P.transaction_clash s'.transactions ≡ none
    pub one_row : P.update_count (validated_transaction rt_id before.id) s.transactions ≡ 1
    pub found : P.find_first (live_transaction rt_id before.id) s'.transactions ≡ some after

  finish-Finished :
      (l : LedgerRow) (s s' : Db) (after : TransactionRow)
      → finish_posting P rt_id before key actor meta l s ≡ (ok (some after), s')
      → Finished l s after s'
  unfolding finish_posting update_transactions assert_single_mutation
      find_transaction_in_transaction_or_throw find_transaction_in_transaction write_audit
  finish-Finished l s s' after h = ground arith

  finish_ne_none :
      (l : LedgerRow) (s s' : Db) → finish_posting P rt_id before key actor meta l s ≢ (ok none, s')
  unfolding finish_posting update_transactions assert_single_mutation
      find_transaction_in_transaction_or_throw find_transaction_in_transaction write_audit
  finish_ne_none l s s' h = ground arith

  -- A posting from `s` to `s'`, with the state between the append and the writes after it.
  pub record Posts (s : Db) (after : TransactionRow) (s' : Db) : Type 0 where
    pub ledger : LedgerRow
    pub middle : Db
    pub appended : Appended P rt_id before actor meta s middle ledger
    pub finished : Finished ledger middle after s'
    pub inputs : assert_posting_inputs_in_transaction P rt_id before actor meta s ≡ (ok tt, s)
    pub key_free :
        assert_post_idempotency_in_transaction P rt_id before key actor meta s ≡ (ok tt, s)

  -- The append and the writes after it.
  abbrev append_and_finish : Tx (Option TransactionRow)
  append_and_finish = do
    ledger ← append_ledger_for_transaction P rt_id before actor meta
    finish_posting P rt_id before key actor meta ledger

  after_checks :
      (s : Db) (r : Option TransactionRow) (s' : Db)
      → post_validated P rt_id before key actor meta s ≡ (ok r, s')
      → (assert_posting_inputs_in_transaction P rt_id before actor meta s ≡ (ok tt, s))
        × (assert_post_idempotency_in_transaction P rt_id before key actor meta s ≡ (ok tt, s))
        × (append_and_finish s ≡ (ok r, s'))
  unfolding post_validated
  after_checks s r s' h =
      let m = assert_posting_inputs_in_transaction P rt_id before actor meta in
      let k = assert_post_idempotency_in_transaction P rt_id before key actor meta in
      let (e, h') = check-ok m (k >> append_and_finish) inputs_same s r s' h in
      let (e', h'') = check-ok k append_and_finish key_same s r s' h' in (e, e', h'')

  pub post_validated-Posts :
      (s s' : Db) (after : TransactionRow)
      → post_validated P rt_id before key actor meta s ≡ (ok (some after), s')
      → Posts s after s'
  post_validated-Posts s s' after h =
      let (e, e', w) = after_checks s (some after) s' h in
      let q =
        bind-ok (append_ledger_for_transaction P rt_id before actor meta)
          (finish_posting P rt_id before key actor meta) s (some after) s' w in
      record {
        ledger = q.value;
        middle = q.between;
        appended = append_ledger-Appended P rt_id before actor meta s q.between q.value q.before;
        finished = finish-Finished q.value q.between s' after q.after;
        inputs = e;
        key_free = e';
      }

  post_validated_ne_none :
      (s s' : Db) → post_validated P rt_id before key actor meta s ≢ (ok none, s')
  post_validated_ne_none s s' h =
      let (e, e', w) = after_checks s none s' h in
      let q =
        bind-ok (append_ledger_for_transaction P rt_id before actor meta)
          (finish_posting P rt_id before key actor meta) s none s' w in
      finish_ne_none q.value q.between s' q.after
