-- ===== src/Finance/DraftReplay.antt =====
-- Requests for a draft whose idempotency key is taken: `createTransactionDraft` of
-- apps/api/src/modules/finance/infrastructure/prisma-finance.repository.ts.
use jimpitan.Base.{String, some, ◌≡◌, refl, given, Bool, true, false, arith, none, Option}
use jimpitan.Base.Int.{ℤ}
use jimpitan.Finance.Schema.{
  TransactionType, TransactionRow, AuthPrincipal, FinanceRequestMeta,
  CreateFinanceTransactionCommand,
}
use jimpitan.Finance.Platform.{Db, Platform}
use jimpitan.Finance.Monad.{Result, ok, err}
use jimpitan.Finance.Tables.{with_key, write_audit}
use jimpitan.Finance.Books.{SameBooks, SameBooks-refl}
use jimpitan.Finance.Drafts.{
  same_references, is_same_request, assert_idempotent_create_matches, replay_draft,
  create_transaction_draft,
}

module _ (P : Platform) (rt_id : String) (type : TransactionType)
    (command : CreateFinanceTransactionCommand) (actor : AuthPrincipal)
    (meta : FinanceRequestMeta) where
  same_request :
      (t : TransactionRow) (s : Db) (b : Bool) (amount : Option ℤ)
      → same_references P t command type ≡ b
      → P.decimal command.amount ≡ amount
      → (is_same_request P t command type s).1 ≡ s
  unfolding is_same_request
  same_request t s false amount e d = rw e refl
  same_request t s true none e d = rw e (rw d refl)
  same_request t s true (some v) e d = rw e (rw d refl)

  matches-SameBooks :
      (t : TransactionRow) (s : Db) (r : Result Bool × Db)
      → is_same_request P t command type s ≡ r
      → r.1 ≡ s
      → SameBooks s (assert_idempotent_create_matches P t command type actor meta s).1
  unfolding assert_idempotent_create_matches write_audit
  matches-SameBooks t s (ok true, u) e q = ground arith
  matches-SameBooks t s (ok false, u) e q = ground arith
  matches-SameBooks t s (err x, u) e q = ground arith

  matches_books :
      (t : TransactionRow) (s : Db)
      → SameBooks s (assert_idempotent_create_matches P t command type actor meta s).1
  matches_books t s =
      matches-SameBooks t s (is_same_request P t command type s) refl
        (same_request t s (same_references P t command type) (P.decimal command.amount) refl refl)

  replay_books :
      (t : TransactionRow) (s : Db) (r : Result (Unit {0}) × Db)
      → assert_idempotent_create_matches P t command type actor meta s ≡ r
      → SameBooks s r.1
      → SameBooks s (replay_draft P rt_id command type actor meta t s).1
  unfolding replay_draft write_audit
  replay_books t s (ok tt, u) e same = ground arith
  replay_books t s (err x, u) e same = ground arith

  -- A request for a draft whose idempotency key a live transaction of the tenant has writes no table
  -- but the audit log, whether it is answered or refused.
  pub create_transaction_draft_once :
      (s : Db) (key : String) (t : TransactionRow)
      → given command.idempotency_key ≡ some key
      → P.find_first (with_key rt_id key) s.transactions ≡ some t
      → SameBooks s (create_transaction_draft P rt_id type command actor meta s).1
  unfolding create_transaction_draft
  create_transaction_draft_once s key t g f =
      let replayed : SameBooks s (replay_draft P rt_id command type actor meta t s).1 =
        replay_books t s (assert_idempotent_create_matches P t command type actor meta s) refl
          (matches_books t s) in
      let untouched = SameBooks-refl s in ground arith
