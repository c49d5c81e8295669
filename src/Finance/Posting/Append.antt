-- ===== src/Finance/Posting/Append.antt =====
-- What one successful append to the ledger has written.
use jimpitan.Base.{◌+◌, String, ◌≡◌, Bool, some, arith}
use jimpitan.Base.Int.{ℤ, pos, ◌≤ℤ◌}
use jimpitan.Finance.Schema.{
  AuthPrincipal, FinanceRequestMeta, CashAccountRow, TransactionRow, LedgerRow,
}
use jimpitan.Finance.Platform.{Db, Platform}
use jimpitan.Finance.Monad.{ok}
use jimpitan.Finance.Tables.{
  active_account, of_account, new_date, new_id, write_audit, update_accounts, create_ledger,
}
use jimpitan.Finance.Posting.{next_ledger, assert_single_mutation, append_ledger_for_transaction}

abbrev pub lock_account : AuthPrincipal → CashAccountRow → CashAccountRow
lock_account actor a = record a { version = a.version + 1; updated_by_id = some actor.user_id }

abbrev pub write_balance : AuthPrincipal → ℤ → CashAccountRow → CashAccountRow
write_balance actor balance a = record a {
  current_balance = balance;
  updated_by_id = some actor.user_id;
}

module _ (P : Platform) (rt_id : String) (t : TransactionRow) (actor : AuthPrincipal)
    (meta : FinanceRequestMeta) (s s' : Db) (l : LedgerRow) where
  abbrev mine : CashAccountRow → Bool
  mine = active_account rt_id t.cash_account_id

  -- The tables after the append of the row `l`.
  pub record Appended : Type 0 where
    pub row :
        l
        ≡ next_ledger rt_id t
            (P.find_latest (λ x. x.ledger_sequence) (of_account rt_id t.cash_account_id) s.ledgers)
            l.id
            l.ledger_date
    pub covered : pos 0 ≤ℤ l.balance_after
    pub ledgers : s'.ledgers ≡ P.create l s.ledgers
    pub accounts :
        s'.accounts
        ≡ P.update_many mine
            (write_balance actor l.balance_after)
            (P.update_many mine (lock_account actor) s.accounts)
    pub one_account : P.update_count mine s.accounts ≡ 1
    pub transactions : s'.transactions ≡ s.transactions
    pub collections : s'.collections ≡ s.collections
    pub items : s'.items ≡ s.items
    pub approvals : s'.approvals ≡ s.approvals
    pub settings : s'.settings ≡ s.settings
    pub categories : s'.categories ≡ s.categories

  pub append_ledger-Appended :
      append_ledger_for_transaction P rt_id t actor meta s ≡ (ok l, s') → Appended
  unfolding append_ledger_for_transaction update_accounts assert_single_mutation new_date new_id
      create_ledger write_audit
  append_ledger-Appended h = ground arith
