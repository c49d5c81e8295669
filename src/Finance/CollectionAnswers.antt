-- ===== src/Finance/CollectionAnswers.antt =====
-- What an answered `postValidatedCollection` has found or written
-- (apps/api/src/modules/finance/infrastructure/prisma-finance.repository.ts).
use jimpitan.Base.{ℕ, String, true, some, ◌≡◌, refl, sym, subst, ◌∙◌, arith, if◌then◌else◌}
use jimpitan.Base.Int.{ℤ}
use jimpitan.Base.Rows.{Has-holds}
use jimpitan.Base.Kept.{Some, Kept}
use jimpitan.Finance.Schema.{
  TransactionRow, TransactionStatus, LedgerRow, AuthPrincipal, FinanceRequestMeta,
  PostValidatedCollectionCommand,
}
use jimpitan.Jimpitan.Schema.{CollectionRow}
use jimpitan.Finance.Platform.{Db, Platform}
use jimpitan.Finance.Monad.{Tx, Result, ok, ◌>>=◌, ◌>>◌, return}
use jimpitan.Finance.Tables.{
  is_posted, validated_transaction, from_collection, write_audit, audit_entry, update_transactions,
  find_transaction_in_transaction_or_throw, find_ledger_of,
}
use jimpitan.Finance.Guards.{assert_replay_key_matches_in_transaction}
use jimpitan.Finance.History.{TransactionKept, History}
use jimpitan.Finance.Keeps.{Keeps, bind, and_then, return-Keeps}
use jimpitan.Finance.Statements.{write_audit-Keeps, find_transaction_or_throw-Keeps}
use jimpitan.Finance.Evolution.{single-Keeps}
use jimpitan.Finance.Books.{bind-ok}
use jimpitan.Finance.Posting.{append_ledger_for_transaction, assert_single_mutation}
use jimpitan.Finance.Posting.Append.{append_ledger-Appended}
use jimpitan.Finance.Collections.{SourceCollectionPostingResult}
use jimpitan.Finance.CollectionPosting.{replay_collection, post_created}
use jimpitan.Finance.CollectionPosted.{
  StandsFor, IsPosted, IsPosted-Kept, Has-Some, set_where-Some, updated_rows,
}

module _ (P : Platform) (rt_id : String) (command : PostValidatedCollectionCommand)
    (actor : AuthPrincipal) (meta : FinanceRequestMeta) where
  abbrev cid : String
  cid = command.collection_id

  abbrev pub Posted : Db → Type 0
  Posted s = IsPosted rt_id cid s.transactions

  pub found-Posted :
      (t : TransactionRow) (s u : Db)
      → P.find_first (from_collection rt_id cid) s.transactions ≡ some t
      → (is_posted t.status ≡ true) × (u.transactions ≡ s.transactions)
      → Posted u
  found-Posted t s u e h =
      let m = P.find_first_some (from_collection rt_id cid) s.transactions t e in
      let here : Posted s =
        Has-Some (StandsFor rt_id cid) (from_collection rt_id cid) t s.transactions
          (Has-holds (from_collection rt_id cid) t s.transactions m, h.0) m in
      subst (IsPosted rt_id cid) (sym (h.1)) here

  pub replayed_rows :
      (t : TransactionRow) (s u : Db) (a : SourceCollectionPostingResult)
      → replay_collection P rt_id command actor meta t s ≡ (ok a, u)
      → (is_posted t.status ≡ true) × (u.transactions ≡ s.transactions)
  unfolding replay_collection assert_replay_key_matches_in_transaction find_ledger_of write_audit
  replayed_rows t s u a h = ground arith

  -- The row that is created, marked as posted.
  abbrev marked : LedgerRow → TransactionRow → TransactionRow
  marked ledger t = record t {
    status = TransactionStatus.posted;
    posted_by_id = some actor.user_id;
    posted_at = some ledger.ledger_date;
    updated_by_id = some actor.user_id;
  }

  -- The statements after the created row is marked.
  abbrev reported :
      CollectionRow → ℤ → TransactionRow → LedgerRow → Tx SourceCollectionPostingResult
  reported collection amount t ledger = do
    posted ← find_transaction_in_transaction_or_throw P rt_id t.id
    write_audit P (
        audit_entry rt_id actor meta "COLLECTION_POSTED_TO_FINANCE" "jimpitan_collection"
          command.collection_id)
    write_audit P (audit_entry rt_id actor meta "TRANSACTION_POSTED" "transaction" posted.id)
    return (record {
      collection_id = command.collection_id;
      collection_mode = some collection.collection_mode;
      collection_total_amount = some amount;
      transaction = posted;
      ledger = ledger;
    })

  reported-Keeps :
      (c : CollectionRow) (amount : ℤ) (t : TransactionRow) (l : LedgerRow) (n : ℕ)
      → Keeps (assert_single_mutation n >> reported c amount t l)
  reported-Keeps c amount t l n = and_then (single-Keeps P rt_id actor meta n) (
      bind (find_transaction_or_throw-Keeps P rt_id t.id) (λ posted.
        and_then (write_audit-Keeps P _) (and_then (write_audit-Keeps P _) (return-Keeps _))))

  quiet_audits :
      (t : TransactionRow) (k : Tx SourceCollectionPostingResult) (s u : Db)
      (a : SourceCollectionPostingResult)
      → (write_audit P (audit_entry rt_id actor meta "TRANSACTION_CREATED" "transaction" t.id)
            >> (write_audit P
                  (audit_entry rt_id actor meta "TRANSACTION_VALIDATED" "transaction" t.id)
                >> k))
          s
        ≡ (ok a, u)
      → (v : Db) × (v.transactions ≡ s.transactions) × (k v ≡ (ok a, u))
  unfolding write_audit
  quiet_audits t k s u a h = (_, refl, h)

  pub post_created-Posted :
      (c : CollectionRow) (amount : ℤ) (t : TransactionRow) (s u : Db)
      (a : SourceCollectionPostingResult)
      → Some (λ x. x ≡ t) s.transactions
      → from_collection rt_id cid t ≡ true
      → validated_transaction rt_id t.id t ≡ true
      → post_created P rt_id command actor meta c amount t s ≡ (ok a, u)
      → Posted u
  unfolding post_created
  post_created-Posted c amount t s u a here from valid h =
      let p = validated_transaction rt_id t.id in
      let rest : LedgerRow → Tx SourceCollectionPostingResult = λ ledger.
        update_transactions P p (marked ledger) >>= λ n.
        (assert_single_mutation n >> reported c amount t ledger) in
      let (v, same, ran) =
        quiet_audits t (append_ledger_for_transaction P rt_id t actor meta >>= rest) s u a h in
      let q = bind-ok (append_ledger_for_transaction P rt_id t actor meta) rest v a u ran in
      let appended = append_ledger-Appended P rt_id t actor meta v q.between q.value q.before in
      let w =
        bind-ok (update_transactions P p (marked q.value))
          (λ n. assert_single_mutation n >> reported c amount t q.value) q.between a u q.after in
      let rows = updated_rows P p (marked q.value) q.between w.between w.value w.before in
      let there : Some (λ x. x ≡ t) q.between.transactions =
        subst (Some (λ x. x ≡ t)) (sym (appended.transactions ∙ same)) here in
      let posted : IsPosted rt_id cid w.between.transactions =
        subst (IsPosted rt_id cid) (sym rows) (
          set_where-Some (λ x. x ≡ t) (StandsFor rt_id cid) p (marked q.value)
            (λ x e. is_marked q.value x e) q.between.transactions there) in
      let later : History w.between
          ((assert_single_mutation w.value >> reported c amount t q.value) w.between).1 =
        (reported-Keeps c amount t q.value w.value).at w.between in
      let last : Kept TransactionKept w.between.transactions u.transactions =
        subst
          (λ (x : Result SourceCollectionPostingResult × Db).
            Kept TransactionKept w.between.transactions x.1.transactions)
          w.after later.transactions in
      IsPosted-Kept rt_id cid w.between.transactions u.transactions last posted
    where
      is_marked :
          (l : LedgerRow) (x : TransactionRow)
          → x ≡ t
          → StandsFor rt_id cid (if validated_transaction rt_id t.id x then marked l x else x)
      is_marked l x e =
          subst
            (λ y.
              StandsFor rt_id cid (if validated_transaction rt_id t.id y then marked l y else y))
            (sym e) (ground arith)
