-- ===== src/Finance/CollectionOnce.antt =====
-- An answered `postValidatedCollection`, through its retries and its error handler
-- (apps/api/src/modules/finance/infrastructure/prisma-finance.repository.ts).
use jimpitan.Base.{ℕ, String, eq_refl, true, Option, none, some, inl, ◌≡◌, refl, sym, subst, arith}
use jimpitan.Base.Int.{ℤ}
use jimpitan.Base.Kept.{Some}
use jimpitan.Finance.Schema.{
  TransactionRow, CashAccountRow, CategoryRow, AuthPrincipal, FinanceRequestMeta,
  PostValidatedCollectionCommand,
}
use jimpitan.Jimpitan.Schema.{CollectionRow}
use jimpitan.Finance.Platform.{Db, Platform}
use jimpitan.Finance.Monad.{Tx, Result, ok, err, Error, transaction, ◌>>=◌}
use jimpitan.Finance.Tables.{
  is_posted, validated_transaction, from_collection, write_audit, create_transaction,
  find_ledger_of, new_date, new_id,
}
use jimpitan.Finance.Guards.{assert_replay_key_matches_in_transaction}
use jimpitan.Finance.Retry.{with_serializable_retry}
use jimpitan.Finance.Posting.{assert_replay_key_matches_outside}
use jimpitan.Finance.Books.{bind-ok, Outcome, serializable-Outcome, catch-ok, catch-err}
use jimpitan.Finance.Collections.{
  SourceCollectionPostingResult, resolve_collection_posting_amount, posting_account,
  posting_category, collection_transaction,
}
use jimpitan.Finance.CollectionPosting.{
  collection_with_id, replay_collection, post_created, post_new_collection, post_collection_body,
  post_collection_conflict, post_collection_error, post_validated_collection,
}
use jimpitan.Finance.CollectionPosted.{IsPosted, created_rows}
use jimpitan.Finance.CollectionAnswers.{Posted, found-Posted, replayed_rows, post_created-Posted}

module _ (P : Platform) (rt_id : String) (command : PostValidatedCollectionCommand)
    (actor : AuthPrincipal) (meta : FinanceRequestMeta) where
  abbrev After : Db → Type 0
  After u = Posted P rt_id command actor meta u

  abbrev create_and_post : CollectionRow → ℤ → TransactionRow → Tx SourceCollectionPostingResult
  create_and_post c amount t =
      create_transaction P t >>= post_created P rt_id command actor meta c amount

  create_and_post-Posted :
      (c : CollectionRow) (amount : ℤ) (t : TransactionRow) (s u : Db)
      (a : SourceCollectionPostingResult)
      → from_collection rt_id command.collection_id t ≡ true
      → validated_transaction rt_id t.id t ≡ true
      → create_and_post c amount t s ≡ (ok a, u)
      → After u
  create_and_post-Posted c amount t s u a from valid h =
      let q =
        bind-ok (create_transaction P t) (post_created P rt_id command actor meta c amount) s a u
          h in
      let (same, rows) = created_rows P t q.value s q.between q.before in
      let here : Some (λ x. x ≡ t) q.between.transactions =
        subst (Some (λ x. x ≡ t)) (sym rows) (inl refl) in
      post_created-Posted P rt_id command actor meta c amount t q.between u a here from valid (
        subst (λ x. post_created P rt_id command actor meta c amount x q.between ≡ (ok a, u)) same
          q.after)

  -- What `post_new_collection` does after each of its reads.
  abbrev with_id :
      CollectionRow
      → ℤ
      → CashAccountRow
      → CategoryRow
      → ℕ
      → String
      → Tx SourceCollectionPostingResult
  with_id c amount account category now id =
      create_and_post c amount
        (collection_transaction P rt_id command actor c amount account.id category.id id now)

  abbrev with_now :
      CollectionRow → ℤ → CashAccountRow → CategoryRow → ℕ → Tx SourceCollectionPostingResult
  with_now c amount account category now = new_id P >>= with_id c amount account category now

  abbrev with_category :
      CollectionRow → ℤ → CashAccountRow → CategoryRow → Tx SourceCollectionPostingResult
  with_category c amount account category = new_date P >>= with_now c amount account category

  abbrev with_account : CollectionRow → ℤ → CashAccountRow → Tx SourceCollectionPostingResult
  with_account c amount account =
      posting_category P rt_id command actor >>= with_category c amount account

  abbrev with_amount : CollectionRow → ℤ → Tx SourceCollectionPostingResult
  with_amount c amount = posting_account P rt_id command actor >>= with_account c amount

  post_new-Posted :
      (c : CollectionRow) (s u : Db) (a : SourceCollectionPostingResult)
      → post_new_collection P rt_id command actor meta c s ≡ (ok a, u)
      → After u
  unfolding post_new_collection
  post_new-Posted c s u a h =
      let q1 = bind-ok (resolve_collection_posting_amount P rt_id c) (with_amount c) s a u h in
      let q2 =
        bind-ok (posting_account P rt_id command actor) (with_account c q1.value) q1.between a u
          q1.after in
      let q3 =
        bind-ok (posting_category P rt_id command actor) (with_category c q1.value q2.value)
          q2.between a u q2.after in
      let q4 =
        bind-ok (new_date P) (with_now c q1.value q2.value q3.value) q3.between a u q3.after in
      let q5 =
        bind-ok (new_id P) (with_id c q1.value q2.value q3.value q4.value) q4.between a u
          q4.after in
      let t =
        collection_transaction P rt_id command actor c q1.value q2.value.id q3.value.id q5.value
          q4.value in
      create_and_post-Posted c q1.value t q5.between u a
        (ground (arith, eq_refl rt_id, eq_refl command.collection_id))
        (ground (arith, eq_refl rt_id, eq_refl q5.value)) q5.after

  body-Posted :
      (s u : Db) (a : SourceCollectionPostingResult)
      → post_collection_body P rt_id command actor meta s ≡ (ok a, u)
      → After u
  unfolding post_collection_body
  body-Posted s u a h =
      by_row (P.find_first (from_collection rt_id command.collection_id) s.transactions)
        (P.find_first (collection_with_id rt_id command.collection_id) s.collections) refl refl
    where
      by_row :
          (o : Option TransactionRow) (c : Option CollectionRow)
          → P.find_first (from_collection rt_id command.collection_id) s.transactions ≡ o
          → P.find_first (collection_with_id rt_id command.collection_id) s.collections ≡ c
          → After u
      by_row (some t) c e f =
          let k : replay_collection P rt_id command actor meta t s ≡ (ok a, u) = rw e at h in
          found-Posted P rt_id command actor meta t s u e
            (replayed_rows P rt_id command actor meta t s u a k)
      by_row none none e f = absurd (ground arith)
      by_row none (some c) e f =
          let k : post_new_collection P rt_id command actor meta c s ≡ (ok a, u) = ground arith in
          post_new-Posted c s u a k

  conflict_row :
      (e : Error) (t : TransactionRow) (s u : Db) (a : SourceCollectionPostingResult)
      → P.find_first (from_collection rt_id command.collection_id) s.transactions ≡ some t
      → post_collection_conflict P rt_id command actor meta e s ≡ (ok a, u)
      → (is_posted t.status ≡ true) × (u.transactions ≡ s.transactions)
  unfolding post_collection_conflict find_ledger_of assert_replay_key_matches_outside
      assert_replay_key_matches_in_transaction write_audit
  conflict_row e t s u a f h = ground arith

  conflict_none :
      (e : Error) (s u : Db) (a : SourceCollectionPostingResult)
      → P.find_first (from_collection rt_id command.collection_id) s.transactions ≡ none
      → post_collection_conflict P rt_id command actor meta e s ≡ (ok a, u)
      → ⊥
  unfolding post_collection_conflict
  conflict_none e s u a f h = ground arith

  conflict-Posted :
      (e : Error) (s u : Db) (a : SourceCollectionPostingResult)
      → post_collection_conflict P rt_id command actor meta e s ≡ (ok a, u)
      → After u
  conflict-Posted e s u a h =
      by_row (P.find_first (from_collection rt_id command.collection_id) s.transactions) refl
    where
      by_row :
          (o : Option TransactionRow)
          → P.find_first (from_collection rt_id command.collection_id) s.transactions ≡ o
          → After u
      by_row none f = absurd (conflict_none e s u a f h)
      by_row (some t) f =
          found-Posted P rt_id command actor meta t s u f (conflict_row e t s u a f h)

  -- The handler answers after a concurrency conflict only.
  handler_answers :
      (e : Error) (s u : Db) (a : SourceCollectionPostingResult)
      → post_collection_error P rt_id command actor meta e s ≡ (ok a, u)
      → post_collection_conflict P rt_id command actor meta e s ≡ (ok a, u)
  unfolding post_collection_error write_audit
  handler_answers e s u a h = ground arith

  abbrev AnsweredPosted : Result SourceCollectionPostingResult × Db → Type 0
  AnsweredPosted (ok a, u) = After u
  AnsweredPosted (err e, u) = Unit

  handled-Posted :
      (e : Error) (s : Db) (v : Result SourceCollectionPostingResult × Db)
      → post_collection_error P rt_id command actor meta e s ≡ v
      → AnsweredPosted v
  handled-Posted e s (ok a, u) h = conflict-Posted e s u a (handler_answers e s u a h)
  handled-Posted e s (err x, u) h = tt

  abbrev body : Tx SourceCollectionPostingResult
  body = post_collection_body P rt_id command actor meta

  abbrev attempts : Tx SourceCollectionPostingResult
  attempts = with_serializable_retry (transaction P body)

  attempts-Posted :
      (s : Db) (w : Result SourceCollectionPostingResult × Db)
      → attempts s ≡ w
      → Outcome body s w
      → AnsweredPosted (post_validated_collection P rt_id command actor meta s)
  unfolding post_validated_collection
  attempts-Posted s (ok a, t) e o =
      let done : Result SourceCollectionPostingResult × Db = (ok a, t) in
      let q : post_validated_collection P rt_id command actor meta s ≡ done =
        catch-ok attempts (post_collection_error P rt_id command actor meta) s t a e in
      subst AnsweredPosted (sym q) (
        subst (IsPosted rt_id command.collection_id) (sym o.same_end.transactions)
          (body-Posted o.start o.end a o.ran))
  attempts-Posted s (err x, t) e o =
      let handled = post_collection_error P rt_id command actor meta x t in
      let q : post_validated_collection P rt_id command actor meta s ≡ handled =
        catch-err attempts (post_collection_error P rt_id command actor meta) s t x e in
      subst AnsweredPosted (sym q) (handled-Posted x t handled refl)

  answered_of :
      (v : Result SourceCollectionPostingResult × Db) (a : SourceCollectionPostingResult)
      → AnsweredPosted v
      → v.0 ≡ ok a
      → After v.1
  answered_of (ok b, u) a h e = h
  answered_of (err x, u) a h e = absurd (ground arith)

  pub post_validated_collection-Posted :
      (s : Db) (a : SourceCollectionPostingResult)
      → (post_validated_collection P rt_id command actor meta s).0 ≡ ok a
      → IsPosted rt_id command.collection_id
          (post_validated_collection P rt_id command actor meta s).1.transactions
  post_validated_collection-Posted s a e =
      answered_of (post_validated_collection P rt_id command actor meta s) a
        (attempts-Posted s (attempts s) refl (serializable-Outcome P body s)) e
