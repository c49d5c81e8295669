-- ===== src/Finance/Post/Keyed.antt =====
-- The ends of `postTransaction` for a request with an idempotency key
-- (apps/api/src/modules/finance/infrastructure/prisma-finance.repository.ts).
use jimpitan.Base.{String, ◌≡◌, subst, inl, inr, true, Option, none, some, given, same_text, arith}
use jimpitan.Finance.Schema.{TransactionStatus, AuthPrincipal, FinanceRequestMeta, TransactionRow}
use jimpitan.Finance.Platform.{Db, Platform}
use jimpitan.Finance.Monad.{Result, ok, err}
use jimpitan.Finance.Tables.{live_transaction}
use jimpitan.Finance.Posting.{post_transaction}
use jimpitan.Finance.Books.{SameBooks}
use jimpitan.Finance.Post.{Posts}
use jimpitan.Finance.Post.Outcome.{
  KeyMatches, Answer, Ends, missing, replayed, fresh, post_transaction-Ends,
}

-- A request with a key may only be answered by a row that has this key.
matches_original :
    (existing key : Option String) (k : String)
    → given key ≡ some k
    → KeyMatches existing key
    → same_text existing (some k) ≡ true
matches_original existing key k g (inl keyless) = absurd (ground arith)
matches_original existing key k g (inr same) = subst (λ x. same_text existing x ≡ true) g same

module _ (P : Platform) (rt_id id : String) (key : Option String) (k : String)
    (actor : AuthPrincipal) (meta : FinanceRequestMeta) where
  -- The ways in which a posting with the key `k` answers, between two states.
  pub data KeyedAnswer (s : Db) : Option TransactionRow → Db → Type 0 where
    -- There is no such transaction.
    absent :
        {s' : Db}
        → P.find_first (live_transaction rt_id id) s.transactions ≡ none
        → SameBooks s s'
        → KeyedAnswer s none s'
    -- It was posted before with the same key: the answer is the row as it stands.
    original :
        {s' : Db}
        → (t : TransactionRow) → P.find_first (live_transaction rt_id id) s.transactions ≡ some t
        → t.status ≡ TransactionStatus.posted
        → same_text t.idempotency_key (some k) ≡ true
        → SameBooks s s'
        → KeyedAnswer s (some t) s'
    -- It was validated, and is posted now.
    posted :
        {s' : Db}
        → (before after : TransactionRow)
        → P.find_first (live_transaction rt_id id) s.transactions ≡ some before
        → before.status ≡ TransactionStatus.validated
        → Posts P rt_id before key actor meta s after s'
        → KeyedAnswer s (some after) s'

  -- An answer between two states with the books of the first and of the last.
  pub record KeyedAnswered (s : Db) (r : Option TransactionRow) (s' : Db) : Type 0 where
    pub start : Db
    pub end : Db
    pub same_start : SameBooks s start
    pub answer : KeyedAnswer start r end
    pub same_end : SameBooks end s'

  abbrev pub KeyedEnds : Db → Result (Option TransactionRow) × Db → Type 0
  KeyedEnds s (ok r, s') = KeyedAnswered s r s'
  KeyedEnds s (err _, s') = SameBooks s s'

  keyed :
      {s s' : Db} {r : Option TransactionRow}
      → given key ≡ some k
      → Answer P rt_id id key actor meta s r s'
      → KeyedAnswer s r s'
  keyed g (missing e same) = absent e same
  keyed g (replayed t e status matches same) =
      original t e status (matches_original t.idempotency_key key k g matches) same
  keyed g (fresh before after e valid w) = posted before after e valid w

  keyed_end :
      (s : Db) (v : Result (Option TransactionRow) × Db)
      → given key ≡ some k
      → Ends P rt_id id key actor meta s v
      → KeyedEnds s v
  keyed_end s (err e, s') g same = same
  keyed_end s (ok r, s') g a = record {
    start = a.start;
    end = a.end;
    same_start = a.same_start;
    answer = keyed g a.answer;
    same_end = a.same_end;
  }

  -- A posting request with an idempotency key either throws, and then every table but the audit log is
  -- as it was; or finds no transaction of the tenant; or answers a transaction that is posted already
  -- with the same key, and again writes no table but the audit log; or has posted a validated one. The
  -- retries and aborts of the serializable transaction change nothing in this.
  pub post_transaction-KeyedEnds :
      (s : Db) → given key ≡ some k → KeyedEnds s (post_transaction P rt_id id key actor meta s)
  post_transaction-KeyedEnds s g =
      keyed_end s (post_transaction P rt_id id key actor meta s) g
        (post_transaction-Ends P rt_id id key actor meta s)
