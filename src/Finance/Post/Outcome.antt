-- ===== src/Finance/Post/Outcome.antt =====
-- Every way in which `postTransaction` can end
-- (apps/api/src/modules/finance/infrastructure/prisma-finance.repository.ts).
use jimpitan.Base.{
  String, ◌≡◌, refl, sym, subst, ◌⊎◌, inl, inr, true, false, not, Option, none, some, arith, given,
  same_text, Bool-cases, Option-cases, if◌then◌else◌,
}
use jimpitan.Finance.Schema.{TransactionStatus, AuthPrincipal, FinanceRequestMeta, TransactionRow}
use jimpitan.Finance.Platform.{Db, Platform}
use jimpitan.Finance.Monad.{Result, ok, err, Error, Tx, throw, transaction, bad_request}
use jimpitan.Finance.Tables.{
  live_transaction, is_posted, is_validated, write_audit, find_transaction_in_transaction,
}
use jimpitan.Finance.Guards.{assert_replay_key_matches_in_transaction}
use jimpitan.Finance.Retry.{with_serializable_retry}
use jimpitan.Finance.Posting.{
  post_validated, replay_posted, post_transaction_body, assert_replay_key_matches_outside,
  post_transaction_conflict, post_transaction_error, post_transaction,
}
use jimpitan.Finance.Books.{
  SameBooks, SameBooks-refl, SameBooks-trans, Outcome, serializable-Outcome, catch-ok, catch-err,
}
use jimpitan.Finance.Post.{Posts, post_validated-Posts, post_validated_ne_none}

-- A request without a key, or with the key that the row has, may be answered by the row.
abbrev pub KeyMatches : Option String → Option String → Type 0
KeyMatches existing requested =
    (given requested ≡ none) ⊎ (same_text existing (given requested) ≡ true)

module _ (P : Platform) (rt_id id : String) (key : Option String) (actor : AuthPrincipal)
    (meta : FinanceRequestMeta) where
  -- The ways in which a posting answers, between two states.
  pub data Answer (s : Db) : Option TransactionRow → Db → Type 0 where
    -- There is no such transaction.
    missing :
        {s' : Db}
        → P.find_first (live_transaction rt_id id) s.transactions ≡ none
        → SameBooks s s'
        → Answer s none s'
    -- It was posted before: the answer is the row as it stands.
    replayed :
        {s' : Db}
        → (t : TransactionRow) → P.find_first (live_transaction rt_id id) s.transactions ≡ some t
        → t.status ≡ TransactionStatus.posted
        → KeyMatches t.idempotency_key key
        → SameBooks s s'
        → Answer s (some t) s'
    -- It was validated, and is posted now.
    fresh :
        {s' : Db}
        → (before after : TransactionRow)
        → P.find_first (live_transaction rt_id id) s.transactions ≡ some before
        → before.status ≡ TransactionStatus.validated
        → Posts P rt_id before key actor meta s after s'
        → Answer s (some after) s'

  replay_same :
      (t : TransactionRow) (s s' : Db) (r : Option TransactionRow)
      → replay_posted P rt_id t key actor meta s ≡ (ok r, s')
      → (r ≡ some t) × SameBooks s s' × KeyMatches t.idempotency_key key
  unfolding replay_posted assert_replay_key_matches_in_transaction write_audit
  replay_same t s s' r h = ground arith

  -- The branches on the status of the row that was found.
  abbrev on_status : TransactionRow → Tx (Option TransactionRow)
  on_status before =
      if is_posted before.status
      then replay_posted P rt_id before key actor meta
      else (if not (is_validated before.status)
          then throw (bad_request "Only validated transactions can be posted.")
          else post_validated P rt_id before key actor meta)

  posted_of : (x : TransactionStatus) → is_posted x ≡ true → x ≡ TransactionStatus.posted
  posted_of x h = ground arith

  validated_of :
      (x : TransactionStatus) → not (is_validated x) ≡ false → x ≡ TransactionStatus.validated
  validated_of x h = ground arith

  fresh-Answer :
      (before : TransactionRow) (s s' : Db) (r : Option TransactionRow)
      → P.find_first (live_transaction rt_id id) s.transactions ≡ some before
      → before.status ≡ TransactionStatus.validated
      → post_validated P rt_id before key actor meta s ≡ (ok r, s')
      → Answer s r s'
  fresh-Answer before s s' none e v h =
      absurd (post_validated_ne_none P rt_id before key actor meta s s' h)
  fresh-Answer before s s' (some after) e v h =
      fresh before after e v (post_validated-Posts P rt_id before key actor meta s s' after h)

  status-Answer :
      (before : TransactionRow) (s s' : Db) (r : Option TransactionRow)
      → P.find_first (live_transaction rt_id id) s.transactions ≡ some before
      → on_status before s ≡ (ok r, s')
      → Answer s r s'
  status-Answer before s s' r e h = elim (Bool-cases (is_posted before.status)) [
    | inl posted ↦
        let (same, books, matches) = replay_same before s s' r (ground arith) in
        subst (λ x. Answer s x s') (sym same)
          (replayed before e (posted_of before.status posted) matches books)
    | inr other ↦ elim (Bool-cases (not (is_validated before.status))) [
      | inl refused ↦ absurd (ground arith)
      | inr validated ↦
          fresh-Answer before s s' r e (validated_of before.status validated) (ground arith)
    ]
  ]

  body-Answer :
      (s s' : Db) (r : Option TransactionRow)
      → post_transaction_body P rt_id id key actor meta s ≡ (ok r, s')
      → Answer s r s'
  unfolding post_transaction_body find_transaction_in_transaction
  body-Answer s s' r h =
      elim (Option-cases (P.find_first (live_transaction rt_id id) s.transactions)) [
        | inl e ↦
            let same : (s' ≡ s) × (r ≡ none) = ground arith in
            subst (λ x. Answer s x s') (sym same.1)
              (missing e (subst (λ x. SameBooks s x) (sym same.0) (SameBooks-refl s)))
        | inr (before, e) ↦ status-Answer before s s' r e (rw e at h)
      ]

  -- Every way in which a request can end: an error that leaves all tables but the audit log alone, or
  -- an answer between two states with the books of the first and of the last.
  pub record Answered (s : Db) (r : Option TransactionRow) (s' : Db) : Type 0 where
    pub start : Db
    pub end : Db
    pub same_start : SameBooks s start
    pub answer : Answer start r end
    pub same_end : SameBooks end s'

  abbrev pub Ends : Db → Result (Option TransactionRow) × Db → Type 0
  Ends s (ok r, s') = Answered s r s'
  Ends s (err _, s') = SameBooks s s'

  -- What the handling of an error may do: refuse, or answer with the row that another request posted.
  conflict_answers :
      (e : Error) (s s' : Db) (r : Option TransactionRow)
      → post_transaction_error P rt_id id key actor meta e s ≡ (ok r, s')
      → (t : TransactionRow) → P.find_first (live_transaction rt_id id) s.transactions ≡ some t
      → (r ≡ some t)
        × (t.status ≡ TransactionStatus.posted)
        × KeyMatches t.idempotency_key key
        × SameBooks s s'
  unfolding post_transaction_error post_transaction_conflict assert_replay_key_matches_outside
      assert_replay_key_matches_in_transaction find_transaction_in_transaction write_audit
  conflict_answers e s s' r h t f = ground arith

  conflict_ne_none :
      (e : Error) (s s' : Db) (r : Option TransactionRow)
      → P.find_first (live_transaction rt_id id) s.transactions ≡ none
      → post_transaction_error P rt_id id key actor meta e s ≡ (ok r, s')
      → ⊥
  unfolding post_transaction_error post_transaction_conflict assert_replay_key_matches_outside
      assert_replay_key_matches_in_transaction find_transaction_in_transaction write_audit
  conflict_ne_none e s s' r f h = ground arith

  conflict_fails :
      (e : Error) (s s' : Db) (x : Error)
      → post_transaction_error P rt_id id key actor meta e s ≡ (err x, s')
      → SameBooks s s'
  unfolding post_transaction_error post_transaction_conflict assert_replay_key_matches_outside
      assert_replay_key_matches_in_transaction find_transaction_in_transaction write_audit
  conflict_fails e s s' x h = ground arith

  -- The end of the handling of an error.
  error-Ends :
      (e : Error) (s t : Db) (v : Result (Option TransactionRow) × Db)
      → SameBooks s t
      → post_transaction_error P rt_id id key actor meta e t ≡ v
      → Ends s v
  error-Ends e s t (err x, s') same h = SameBooks-trans s t s' same (conflict_fails e t s' x h)
  error-Ends e s t (ok r, s') same h =
      elim (Option-cases (P.find_first (live_transaction rt_id id) t.transactions)) [
        | inl f ↦ absurd (conflict_ne_none e t s' r f h)
        | inr (row, f) ↦
            let (is_row, posted, matches, books) = conflict_answers e t s' r h row f in
            record {
              start = t;
              end = s';
              same_start = same;
              answer =
                  subst (λ x. Answer t x s') (sym is_row) (replayed row f posted matches books);
              same_end = SameBooks-refl s';
            }
      ]

  abbrev attempts : Tx (Option TransactionRow)
  attempts =
      with_serializable_retry (transaction P (post_transaction_body P rt_id id key actor meta))

  attempts-Ends :
      (s : Db) (w : Result (Option TransactionRow) × Db)
      → attempts s ≡ w
      → Outcome (post_transaction_body P rt_id id key actor meta) s w
      → Ends s (post_transaction P rt_id id key actor meta s)
  unfolding post_transaction
  attempts-Ends s (ok r, t) e o =
      let done : Result (Option TransactionRow) × Db = (ok r, t) in
      let q : post_transaction P rt_id id key actor meta s ≡ done =
        catch-ok attempts (post_transaction_error P rt_id id key actor meta) s t r e in
      let answered : Answered s r t = record {
        start = o.start;
        end = o.end;
        same_start = o.same_start;
        answer = body-Answer o.start o.end r o.ran;
        same_end = o.same_end;
      } in
      subst (Ends s) (sym q) answered
  attempts-Ends s (err x, t) e o =
      let handled = post_transaction_error P rt_id id key actor meta x t in
      let q : post_transaction P rt_id id key actor meta s ≡ handled =
        catch-err attempts (post_transaction_error P rt_id id key actor meta) s t x e in
      subst (Ends s) (sym q) (error-Ends x s t handled o refl)

  -- A posting request either throws, and then every table but the audit log is as it was; or finds no
  -- transaction of the tenant; or answers a transaction that is posted already, whose key the request
  -- has or which came without a key, and again writes no table but the audit log; or has posted a
  -- validated one. The retries and aborts of the serializable transaction change nothing in this.
  pub post_transaction-Ends : (s : Db) → Ends s (post_transaction P rt_id id key actor meta s)
  post_transaction-Ends s = attempts-Ends s _ refl (serializable-Outcome P _ s)
