-- ===== src/Finance/Statements.antt =====
-- The history relation for the single statements
-- (apps/api/src/modules/finance/infrastructure/prisma-finance.repository.ts).
use jimpitan.Base.{String, Bool, true, Option, none, some, List, ◌≡◌, refl, sym, subst, arith}
use jimpitan.Base.Kept.{Kept, Kept-create, Kept-set_where}
use jimpitan.Finance.Schema.{TransactionRow, LedgerRow, CashAccountRow, FinanceAuditInput}
use jimpitan.Finance.Platform.{Db, Platform}
use jimpitan.Finance.Monad.{Error, conflict, bad_request}
use jimpitan.Finance.Tables.{
  new_date, new_id, write_audit, find_transaction_in_transaction,
  find_transaction_in_transaction_or_throw, update_transactions, create_transaction, create_ledger,
  update_accounts, find_ledger_of,
}
use jimpitan.Finance.Retry.{throw_known_conflict, is_known_concurrency_conflict}
use jimpitan.Finance.History.{
  TransactionKept, TransactionKept-refl, History, History-refl, same-History,
}
use jimpitan.Finance.Keeps.{Keeps, bind, require-Keeps, if-Keeps, throw-Keeps}

pub conflict-Keeps :
    {A : Type 0} (e : Error) (message : String) → Keeps (throw_known_conflict {A = A} e message)
conflict-Keeps e message =
    if-Keeps (is_known_concurrency_conflict e) (throw-Keeps (conflict message)) (throw-Keeps e)

-- Another content of the transactions, with the rest of the tables as they were.
with_transactions :
    (s : Db) (rows : List TransactionRow)
    → Kept TransactionKept s.transactions rows
    → History s (record s { transactions = rows })
with_transactions s rows h = record {
  transactions = h;
  ledgers = (History-refl s).ledgers;
  collections = (History-refl s).collections;
  approvals = (History-refl s).approvals;
  notifications = (History-refl s).notifications;
  outbox = (History-refl s).outbox;
}

module _ (P : Platform) where
  pub new_date-Keeps : Keeps (new_date P)
  unfolding new_date
  new_date-Keeps = record {
    at = λ s. same-History s (new_date P s).1 refl refl refl refl refl refl;
  }

  pub new_id-Keeps : Keeps (new_id P)
  unfolding new_id
  new_id-Keeps = record { at = λ s. same-History s (new_id P s).1 refl refl refl refl refl refl }

  pub write_audit-Keeps : (a : FinanceAuditInput) → Keeps (write_audit P a)
  unfolding write_audit
  write_audit-Keeps a = record {
    at = λ s. same-History s (write_audit P a s).1 refl refl refl refl refl refl;
  }

  pub find_transaction-Keeps :
      (rt_id id : String) → Keeps (find_transaction_in_transaction P rt_id id)
  unfolding find_transaction_in_transaction
  find_transaction-Keeps rt_id id = record { at = History-refl }

  pub find_transaction_or_throw-Keeps :
      (rt_id id : String) → Keeps (find_transaction_in_transaction_or_throw P rt_id id)
  unfolding find_transaction_in_transaction_or_throw
  find_transaction_or_throw-Keeps rt_id id = bind (find_transaction-Keeps rt_id id) (λ t.
      require-Keeps t
        (bad_request "Transaction lifecycle state changed while processing the request."))

  pub find_ledger-Keeps : (t : TransactionRow) → Keeps (find_ledger_of P t)
  unfolding find_ledger_of
  find_ledger-Keeps t = record { at = History-refl }

  pub update_transactions-Keeps :
      (p : TransactionRow → Bool) (f : TransactionRow → TransactionRow)
      → ((t : TransactionRow) → p t ≡ true → TransactionKept t (f t))
      → Keeps (update_transactions P p f)
  unfolding update_transactions
  update_transactions-Keeps p f step = record {
    at = λ s. stored s (P.transaction_clash (P.update_many p f s.transactions)) refl;
  }
    where
      stored :
          (s : Db) (clash : Option (List String))
          → P.transaction_clash (P.update_many p f s.transactions) ≡ clash
          → History s (update_transactions P p f s).1
      stored s none e =
          let rows = P.update_many p f s.transactions in
          let q : (update_transactions P p f s).1 ≡ record s { transactions = rows } =
            ground arith in
          subst (History s) (sym q) (
            with_transactions s rows (
              subst (Kept TransactionKept s.transactions)
                (sym (P.update_many_lem p f s.transactions))
                (Kept-set_where TransactionKept TransactionKept-refl p f step s.transactions)))
      stored s (some columns) e =
          let q : (update_transactions P p f s).1 ≡ s = ground arith in
          subst (History s) (sym q) (History-refl s)

  pub create_transaction-Keeps : (t : TransactionRow) → Keeps (create_transaction P t)
  unfolding create_transaction
  create_transaction-Keeps t = record {
    at = λ s. stored s (P.transaction_clash (P.create t s.transactions)) refl;
  }
    where
      stored :
          (s : Db) (clash : Option (List String))
          → P.transaction_clash (P.create t s.transactions) ≡ clash
          → History s (create_transaction P t s).1
      stored s none e =
          let rows = P.create t s.transactions in
          let q : (create_transaction P t s).1 ≡ record s { transactions = rows } = ground arith in
          subst (History s) (sym q) (
            with_transactions s rows (
              subst (Kept TransactionKept s.transactions) (sym (P.create_lem t s.transactions)) (
                Kept-create TransactionKept TransactionKept-refl t s.transactions s.transactions
                  ((History-refl s).transactions))))
      stored s (some columns) e =
          let q : (create_transaction P t s).1 ≡ s = ground arith in
          subst (History s) (sym q) (History-refl s)

  pub create_ledger-Keeps : (l : LedgerRow) → Keeps (create_ledger P l)
  unfolding create_ledger
  create_ledger-Keeps l = record { at = λ s. stored s (P.ledger_clash (P.create l s.ledgers)) refl }
    where
      stored :
          (s : Db) (clash : Option (List String))
          → P.ledger_clash (P.create l s.ledgers) ≡ clash
          → History s (create_ledger P l s).1
      stored s none e =
          let rows = P.create l s.ledgers in
          let q : (create_ledger P l s).1 ≡ record s { ledgers = rows } = ground arith in
          subst (History s) (sym q) (record {
            transactions = (History-refl s).transactions;
            ledgers =
                subst (Kept (λ (a b : LedgerRow). b ≡ a) s.ledgers) (sym (P.create_lem l s.ledgers))
                  (Kept-create (λ (a b : LedgerRow). b ≡ a) (λ _. refl) l s.ledgers s.ledgers
                    ((History-refl s).ledgers));
            collections = (History-refl s).collections;
            approvals = (History-refl s).approvals;
            notifications = (History-refl s).notifications;
            outbox = (History-refl s).outbox;
          })
      stored s (some columns) e =
          let q : (create_ledger P l s).1 ≡ s = ground arith in
          subst (History s) (sym q) (History-refl s)

  pub update_accounts-Keeps :
      (p : CashAccountRow → Bool) (f : CashAccountRow → CashAccountRow)
      → Keeps (update_accounts P p f)
  unfolding update_accounts
  update_accounts-Keeps p f = record {
    at = λ s. same-History s (update_accounts P p f s).1 refl refl refl refl refl refl;
  }
