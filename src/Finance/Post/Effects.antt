-- ===== src/Finance/Post/Effects.antt =====
-- The effect of `postTransaction` on the cash accounts, the ledgers and the transactions
-- (apps/api/src/modules/finance/infrastructure/prisma-finance.repository.ts).
use jimpitan.Base.{
  String, ◌==◌, ◌&&◌, ◌≡◌, refl, sym, subst, ◌∙◌, ◌⊎◌, inl, inr, true, Option, some, ◌∷◌, ap, arith,
  eq_iff,
}
use jimpitan.Base.Rows.{select, Has, Has-holds}
use jimpitan.Finance.Schema.{
  TransactionStatus, expense, AuthPrincipal, FinanceRequestMeta, TransactionRow, LedgerRow,
}
use jimpitan.Finance.Platform.{Db, Platform, DistinctTransactions}
use jimpitan.Finance.Monad.{Result, ok, err, Error}
use jimpitan.Finance.Tables.{live_transaction, of_account, validated_transaction}
use jimpitan.Finance.Guards.{read_policy, approvals_of}
use jimpitan.Finance.Posting.{entry_type_of, mark_posted, post_transaction}
use jimpitan.Finance.Chain.{newest, Continues, entries}
use jimpitan.Finance.Consistent.{
  IsConsistent, tables-IsConsistent, append-IsConsistent, appended-Continues,
}
use jimpitan.Finance.Books.{SameBooks, SameBooks-trans}
use jimpitan.Finance.Post.{Posts}
use jimpitan.Finance.Post.Updated.{updated_row}
use jimpitan.Finance.Post.Gate.{Permitted, inputs-Permitted}
use jimpitan.Finance.Post.Outcome.{
  Answer, missing, replayed, fresh, Answered, Ends, post_transaction-Ends,
}

module _ (P : Platform) (rt_id id : String) (key : Option String) (actor : AuthPrincipal)
    (meta : FinanceRequestMeta) where
  books-IsConsistent : (s t : Db) → SameBooks s t → IsConsistent s → IsConsistent t
  books-IsConsistent s t b = tables-IsConsistent s t b.accounts b.ledgers

  answer-IsConsistent :
      {s s' : Db} {r : Option TransactionRow}
      → Answer P rt_id id key actor meta s r s'
      → IsConsistent s
      → IsConsistent s'
  answer-IsConsistent {s} {s'} (missing e same) c = books-IsConsistent s s' same c
  answer-IsConsistent {s} {s'} (replayed t e posted matches same) c = books-IsConsistent s s' same c
  answer-IsConsistent {s} {s'} (fresh before after e valid w) c =
      tables-IsConsistent w.middle s' w.finished.accounts w.finished.ledgers
        (append-IsConsistent P rt_id before actor meta s w.middle w.ledger c w.appended)

  Ends-IsConsistent :
      (s : Db) (v : Result (Option TransactionRow) × Db)
      → Ends P rt_id id key actor meta s v
      → IsConsistent s
      → IsConsistent v.1
  Ends-IsConsistent s (ok r, s') a c =
      books-IsConsistent a.end s' a.same_end
        (answer-IsConsistent a.answer (books-IsConsistent s a.start a.same_start c))
  Ends-IsConsistent s (err e, s') same c = books-IsConsistent s s' same c

  -- Whatever a posting request ends in, consistent accounts and ledgers stay so: for every account
  -- the rows are numbered 1, 2, 3, … without a gap, each carries the balance of the row before and
  -- adds or subtracts its amount, no balance is negative, and the account's balance column is the
  -- balance of its newest row.
  pub post_transaction-IsConsistent :
      (s : Db) → IsConsistent s → IsConsistent (post_transaction P rt_id id key actor meta s).1
  post_transaction-IsConsistent s c =
      Ends-IsConsistent s (post_transaction P rt_id id key actor meta s)
        (post_transaction-Ends P rt_id id key actor meta s) c

  -- A successful end is an answer.
  Ends-ok :
      (s : Db) (v : Result (Option TransactionRow) × Db) (r : Option TransactionRow)
      → Ends P rt_id id key actor meta s v
      → v.0 ≡ ok r
      → Answered P rt_id id key actor meta s r v.1
  Ends-ok s (ok q, s') r a e =
      let same : q ≡ r = cc in subst (λ x. Answered P rt_id id key actor meta s x s') same a
  Ends-ok s (err x, s') r a e = absurd (ground arith)

  answered :
      (s : Db) (r : Option TransactionRow)
      → (post_transaction P rt_id id key actor meta s).0 ≡ ok r
      → Answered P rt_id id key actor meta s r (post_transaction P rt_id id key actor meta s).1
  answered s r e =
      Ends-ok s (post_transaction P rt_id id key actor meta s) r
        (post_transaction-Ends P rt_id id key actor meta s) e

  found_live :
      (s : Db) (t : TransactionRow)
      → P.find_first (live_transaction rt_id id) s.transactions ≡ some t
      → live_transaction rt_id id t ≡ true
  found_live s t e =
      Has-holds (live_transaction rt_id id) t s.transactions
        (P.find_first_some (live_transaction rt_id id) s.transactions t e)

  -- The row that a fresh posting reads back is the one that it has marked.
  fresh_marked :
      (before after : TransactionRow) (s s' : Db)
      → Posts P rt_id before key actor meta s after s'
      → after.status ≡ TransactionStatus.posted
  fresh_marked before after s s' w =
      let p = validated_transaction rt_id before.id in
      let f = mark_posted key before actor w.ledger in
      let table = w.finished.transactions ∙ P.update_many_lem p f w.middle.transactions in
      let distinct = P.transaction_clash_none s'.transactions w.finished.no_clash in
      let one = sym (P.update_count_lem p w.middle.transactions) ∙ w.finished.one_row in
      let found =
        P.find_first_some (live_transaction rt_id before.id) s'.transactions after
          w.finished.found in
      let (x, _, e) =
        updated_row rt_id before.id p f (λ x h. ground (arith, eq_iff x.id before.id)) (λ _. refl)
          after w.middle.transactions (subst DistinctTransactions table distinct) one
          (subst (λ rows. Has (live_transaction rt_id before.id) after rows) table found) in
      ground (arith, e)

  answer_posted :
      {s s' : Db} (r : Option TransactionRow) (t : TransactionRow)
      → Answer P rt_id id key actor meta s r s'
      → r ≡ some t
      → t.status ≡ TransactionStatus.posted
  answer_posted _ t (missing e same) q = cc
  answer_posted _ t (replayed row e posted matches same) q =
      let is_row : row ≡ t = cc in subst (λ x. x.status ≡ TransactionStatus.posted) is_row posted
  answer_posted {s} {s'} _ t (fresh before after e valid w) q =
      let is_row : after ≡ t = cc in
      subst (λ x. x.status ≡ TransactionStatus.posted) is_row (fresh_marked before after s s' w)

  -- The transaction that a successful request answers with has the status POSTED.
  pub post_transaction_posted :
      (s : Db) (t : TransactionRow)
      → (post_transaction P rt_id id key actor meta s).0 ≡ ok (some t)
      → t.status ≡ TransactionStatus.posted
  post_transaction_posted s t e = answer_posted (some t) t (answered s (some t) e).answer refl

  -- The transaction was posted before the request, and every table but the audit log is as it was.
  abbrev pub Replayed : Db → TransactionRow → Db → Type 0
  Replayed s t s' =
      (P.find_first (live_transaction rt_id id) s.transactions ≡ some t)
      × (t.status ≡ TransactionStatus.posted)
      × SameBooks s s'

  -- One row is new in the ledgers. It continues the account of the transaction, which was validated,
  -- by its amount in its direction, and the balance stays at 0 or above.
  pub record Ledgered (s : Db) (s' : Db) : Type 0 where
    pub before : TransactionRow
    pub row : LedgerRow
    pub found : P.find_first (live_transaction rt_id id) s.transactions ≡ some before
    pub validated : before.status ≡ TransactionStatus.validated
    pub ledgers : s'.ledgers ≡ row ∷ s.ledgers
    pub continues : Continues (newest (entries rt_id before.cash_account_id s)) row
    pub of_transaction : row.transaction_id ≡ before.id
    pub of_account : row.cash_account_id ≡ before.cash_account_id
    pub amount : row.amount ≡ before.amount
    pub direction : row.entry_type ≡ entry_type_of before.type

  fresh-Ledgered :
      (s t u s' : Db) (before after : TransactionRow)
      → IsConsistent s
      → SameBooks s t
      → P.find_first (live_transaction rt_id id) t.transactions ≡ some before
      → before.status ≡ TransactionStatus.validated
      → Posts P rt_id before key actor meta t after u
      → SameBooks u s'
      → Ledgered s s'
  fresh-Ledgered s t u s' before after c b e valid w b' =
      let ct = books-IsConsistent s t b c in
      record {
        before = before;
        row = w.ledger;
        found =
            subst (λ x. P.find_first (live_transaction rt_id id) x ≡ some before) b.transactions e;
        validated = valid;
        ledgers =
            b'.ledgers
            ∙ w.finished.ledgers
            ∙ w.appended.ledgers
            ∙ P.create_lem w.ledger t.ledgers
            ∙ ap (λ x. w.ledger ∷ x) b.ledgers;
        continues =
            subst
              (λ x.
                Continues (newest (select (of_account rt_id before.cash_account_id) x)) w.ledger)
              b.ledgers
              (appended-Continues P rt_id before actor meta t w.middle w.ledger ct w.appended);
        of_transaction = ground (arith, w.appended);
        of_account = ground (arith, w.appended);
        amount = ground (arith, w.appended);
        direction = ground (arith, w.appended);
      }

  answer_effect :
      {s t u s' : Db} (r : Option TransactionRow) (row : TransactionRow)
      → IsConsistent s
      → SameBooks s t
      → Answer P rt_id id key actor meta t r u
      → SameBooks u s'
      → r ≡ some row
      → Replayed s row s' ⊎ Ledgered s s'
  answer_effect _ row c b (missing e same) b' q = absurd (ground arith)
  answer_effect {s} {t} {u} {s'} _ row c b (replayed other e posted matches same) b' q =
      let is_row : other ≡ row = cc in
      inl (
        subst (λ x. P.find_first (live_transaction rt_id id) x ≡ some row) b.transactions
            (e ∙ ap (λ (x : TransactionRow). some x) is_row),
        subst (λ x. x.status ≡ TransactionStatus.posted) is_row posted,
        SameBooks-trans s u s' (SameBooks-trans s t u b same) b',
      )
  answer_effect {s} {t} {u} {s'} _ row c b (fresh before after e valid w) b' q =
      inr (fresh-Ledgered s t u s' before after c b e valid w b')

  -- A successful request on consistent accounts and ledgers has either replayed a posting or written
  -- exactly one ledger row, which is the next of its account and carries the amount and the direction of
  -- the transaction.
  pub post_transaction-ledgers :
      (s : Db) (t : TransactionRow)
      → IsConsistent s
      → (post_transaction P rt_id id key actor meta s).0 ≡ ok (some t)
      → let s' = (post_transaction P rt_id id key actor meta s).1 in Replayed s t s' ⊎ Ledgered s s'
  post_transaction-ledgers s t c e =
      let a = answered s (some t) e in
      answer_effect (some t) t c a.same_start a.answer a.same_end refl

  Ends-err :
      (s : Db) (v : Result (Option TransactionRow) × Db) (e : Error)
      → Ends P rt_id id key actor meta s v
      → v.0 ≡ err e
      → SameBooks s v.1
  Ends-err s (ok q, s') e a h = absurd (ground arith)
  Ends-err s (err x, s') e a h = a

  -- A request that throws leaves every table but the audit log as it was.
  pub post_transaction_atomic :
      (s : Db) (e : Error)
      → (post_transaction P rt_id id key actor meta s).0 ≡ err e
      → SameBooks s (post_transaction P rt_id id key actor meta s).1
  post_transaction_atomic s e h =
      Ends-err s (post_transaction P rt_id id key actor meta s) e
        (post_transaction-Ends P rt_id id key actor meta s) h

  answer_of_posted :
      {s s' : Db} {r : Option TransactionRow} (t : TransactionRow)
      → Answer P rt_id id key actor meta s r s'
      → P.find_first (live_transaction rt_id id) s.transactions ≡ some t
      → t.status ≡ TransactionStatus.posted
      → SameBooks s s'
  answer_of_posted t (missing e same) f p = same
  answer_of_posted t (replayed row e posted matches same) f p = same
  answer_of_posted t (fresh before after e valid w) f p =
      let is_row : before ≡ t = cc in absurd (ground (arith, is_row))

  Ends-of_posted :
      (s : Db) (v : Result (Option TransactionRow) × Db) (t : TransactionRow)
      → Ends P rt_id id key actor meta s v
      → P.find_first (live_transaction rt_id id) s.transactions ≡ some t
      → t.status ≡ TransactionStatus.posted
      → SameBooks s v.1
  Ends-of_posted s (ok r, s') t a f p =
      let f' =
        subst (λ x. P.find_first (live_transaction rt_id id) x ≡ some t)
          (sym a.same_start.transactions) f in
      SameBooks-trans s a.end s'
        (SameBooks-trans s a.start a.end a.same_start (answer_of_posted t a.answer f' p)) a.same_end
  Ends-of_posted s (err x, s') t a f p = a

  -- A posted transaction is never posted again: whatever the request ends in, it writes no table but
  -- the audit log.
  pub post_transaction_once :
      (s : Db) (t : TransactionRow)
      → P.find_first (live_transaction rt_id id) s.transactions ≡ some t
      → t.status ≡ TransactionStatus.posted
      → SameBooks s (post_transaction P rt_id id key actor meta s).1
  post_transaction_once s t f p =
      Ends-of_posted s (post_transaction P rt_id id key actor meta s) t
        (post_transaction-Ends P rt_id id key actor meta s) f p

  same-Permitted :
      (t : TransactionRow) (s u : Db)
      → SameBooks s u
      → Permitted P rt_id t u
      → Permitted P rt_id t s
  same-Permitted t s u b h =
      let policy =
        ap
          (λ x.
            read_policy
              (P.find_first (λ r. r.rt_id == rt_id && r.key == "expense_approval_policy") x))
          b.settings in
      let approvals = ap (λ x. P.find_many (approvals_of rt_id t.id) x) b.approvals in
      ground (arith, policy, approvals)

  answer-Permitted :
      {s s' : Db} {r : Option TransactionRow} (t : TransactionRow)
      → Answer P rt_id id key actor meta s r s'
      → P.find_first (live_transaction rt_id id) s.transactions ≡ some t
      → t.status ≡ TransactionStatus.validated
      → t.type ≡ expense
      → Permitted P rt_id t s
  answer-Permitted t (missing e same) f v x = absurd (ground arith)
  answer-Permitted t (replayed row e posted matches same) f v x =
      let is_row : row ≡ t = cc in absurd (ground (arith, is_row))
  answer-Permitted {s} t (fresh before after e valid w) f v x =
      let is_row : before ≡ t = cc in
      let typed : before.type ≡ expense = subst (λ y. y.type ≡ expense) (sym is_row) x in
      subst (λ y. Permitted P rt_id y s) is_row
        (inputs-Permitted P rt_id before actor meta s s w.inputs typed)

  -- An expense that was validated is posted only if the approval policy of the tenant permits it.
  pub post_transaction-Permitted :
      (s : Db) (t : TransactionRow) (r : Option TransactionRow)
      → P.find_first (live_transaction rt_id id) s.transactions ≡ some t
      → t.status ≡ TransactionStatus.validated
      → t.type ≡ expense
      → (post_transaction P rt_id id key actor meta s).0 ≡ ok r
      → Permitted P rt_id t s
  post_transaction-Permitted s t r f v x e =
      let a = answered s r e in
      let b = a.same_start in
      let permitted =
        answer-Permitted t a.answer
          (subst (λ y. P.find_first (live_transaction rt_id id) y ≡ some t) (sym b.transactions) f)
          v x in
      same-Permitted t s a.start b permitted
