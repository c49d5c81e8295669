-- ===== src/Finance/CollectionBooks.antt =====
-- The ends of `postValidatedCollection`
-- (apps/api/src/modules/finance/infrastructure/prisma-finance.repository.ts).
use jimpitan.Base.{
  String, none, some, ◌⊎◌, inl, inr, Bool, true, false, if◌then◌else◌, ◌≡◌, refl, sym, subst, arith,
}
use jimpitan.Finance.Schema.{
  TransactionRow, AuthPrincipal, FinanceRequestMeta, PostValidatedCollectionCommand,
}
use jimpitan.Jimpitan.Schema.{CollectionRow}
use jimpitan.Finance.Platform.{Db, Platform}
use jimpitan.Finance.Monad.{
  Tx, Result, ok, err, Error, bad_request, not_found, forbidden, conflict, replay_conflict,
  approval_gate, blocked_mutation, known_request, decimal_error, transaction,
}
use jimpitan.Finance.Tables.{write_audit, find_ledger_of, from_collection}
use jimpitan.Finance.Guards.{assert_replay_key_matches_in_transaction}
use jimpitan.Finance.Posting.{assert_replay_key_matches_outside}
use jimpitan.Finance.Retry.{
  with_serializable_retry, is_known_concurrency_conflict, throw_known_conflict,
}
use jimpitan.Finance.Books.{
  SameBooks, Committed, SameBooks-trans, Outcome, serializable-Outcome, catch-ok, catch-err,
}
use jimpitan.Finance.Collections.{SourceCollectionPostingResult, is_validated_collection}
use jimpitan.Finance.CollectionPosting.{
  collection_conflict, collection_with_id, replay_collection, post_collection_body,
  post_collection_conflict, post_collection_error, post_validated_collection,
}

either-SameBooks :
    {A : Type 0} (b : Bool) (m n : Tx A) (s : Db)
    → SameBooks s (m s).1
    → SameBooks s (n s).1
    → SameBooks s ((if b then m else n) s).1
either-SameBooks true m n s h k = h
either-SameBooks false m n s h k = k

module _ (P : Platform) (rt_id : String) (command : PostValidatedCollectionCommand)
    (actor : AuthPrincipal) (meta : FinanceRequestMeta) where
  -- The error handler writes no table but the audit log.
  conflict-SameBooks :
      (e : Error) (s : Db) → SameBooks s (post_collection_conflict P rt_id command actor meta e s).1
  unfolding post_collection_conflict find_ledger_of assert_replay_key_matches_outside
      assert_replay_key_matches_in_transaction write_audit
  conflict-SameBooks e s = ground arith

  error-SameBooks :
      (e : Error) (s : Db) → SameBooks s (post_collection_error P rt_id command actor meta e s).1
  unfolding post_collection_error write_audit
  error-SameBooks (replay_conflict audit message) s = ground arith
  error-SameBooks (known_request c m) s =
      let e = known_request c m in
      either-SameBooks (is_known_concurrency_conflict e)
        (post_collection_conflict P rt_id command actor meta e)
        (throw_known_conflict e collection_conflict) s (conflict-SameBooks e s) (ground arith)
  error-SameBooks (approval_gate audit) s = ground arith
  error-SameBooks (blocked_mutation audit m) s = ground arith
  error-SameBooks (bad_request m) s = ground arith
  error-SameBooks (not_found m) s = ground arith
  error-SameBooks (forbidden m) s = ground arith
  error-SameBooks (conflict m) s = ground arith
  error-SameBooks decimal_error s = ground arith

  abbrev body : Tx SourceCollectionPostingResult
  body = post_collection_body P rt_id command actor meta

  abbrev attempts : Tx SourceCollectionPostingResult
  attempts = with_serializable_retry (transaction P body)

  -- An end of the request: a throw or a replay with the books as they were, or one run of the body.
  abbrev CollectionEnd : Db → Result SourceCollectionPostingResult × Db → Type 0
  CollectionEnd s (ok a, s') = Committed body s a s' ⊎ SameBooks s s'
  CollectionEnd s (err _, s') = SameBooks s s'

  handled-CollectionEnd :
      (s : Db) (v : Result SourceCollectionPostingResult × Db) → SameBooks s v.1 → CollectionEnd s v
  handled-CollectionEnd s (ok a, s') h = inr h
  handled-CollectionEnd s (err x, s') h = h

  attempts-CollectionEnd :
      (s : Db) (w : Result SourceCollectionPostingResult × Db)
      → attempts s ≡ w
      → Outcome body s w
      → CollectionEnd s (post_validated_collection P rt_id command actor meta s)
  unfolding post_validated_collection
  attempts-CollectionEnd s (ok a, t) e o =
      let done : Result SourceCollectionPostingResult × Db = (ok a, t) in
      let q : post_validated_collection P rt_id command actor meta s ≡ done =
        catch-ok attempts (post_collection_error P rt_id command actor meta) s t a e in
      subst (CollectionEnd s) (sym q) (inl o)
  attempts-CollectionEnd s (err x, t) e o =
      let handled = post_collection_error P rt_id command actor meta x t in
      let q : post_validated_collection P rt_id command actor meta s ≡ handled =
        catch-err attempts (post_collection_error P rt_id command actor meta) s t x e in
      subst (CollectionEnd s) (sym q)
        (handled-CollectionEnd s handled (SameBooks-trans s t handled.1 o (error-SameBooks x t)))

  post_collection-CollectionEnd :
      (s : Db) → CollectionEnd s (post_validated_collection P rt_id command actor meta s)
  post_collection-CollectionEnd s = attempts-CollectionEnd s _ refl (serializable-Outcome P body s)

  -- A request whose body would write nothing from these books writes nothing.
  end-SameBooks :
      (s : Db) (v : Result SourceCollectionPostingResult × Db)
      → ((t : Db) → SameBooks s t → SameBooks t (body t).1)
      → CollectionEnd s v
      → SameBooks s v.1
  end-SameBooks s (err x, s') quiet o = o
  end-SameBooks s (ok a, s') quiet (inr same) = same
  end-SameBooks s (ok a, s') quiet (inl run) =
      let kept : SameBooks run.start run.end =
        subst (λ (w : Result SourceCollectionPostingResult × Db). SameBooks run.start w.1) run.ran
          (quiet run.start run.same_start) in
      SameBooks-trans s run.start s' run.same_start
        (SameBooks-trans run.start run.end s' kept run.same_end)

  body_replays :
      (s t : Db) (existing : TransactionRow)
      → P.find_first (from_collection rt_id command.collection_id) s.transactions ≡ some existing
      → SameBooks s t
      → SameBooks t (body t).1
  unfolding post_collection_body replay_collection find_ledger_of
      assert_replay_key_matches_in_transaction write_audit
  body_replays s t existing f same =
      let g : P.find_first (from_collection rt_id command.collection_id) t.transactions
          ≡ some existing =
        subst
          (λ rows. P.find_first (from_collection rt_id command.collection_id) rows ≡ some existing)
          (sym same.transactions) f in
      ground arith

  -- A request for a collection that has a transaction already writes no table but the audit log, whether
  -- it is answered or refused.
  pub post_validated_collection_once :
      (s : Db) (existing : TransactionRow)
      → P.find_first (from_collection rt_id command.collection_id) s.transactions ≡ some existing
      → SameBooks s (post_validated_collection P rt_id command actor meta s).1
  post_validated_collection_once s existing f =
      end-SameBooks s (post_validated_collection P rt_id command actor meta s)
        (λ t same. body_replays s t existing f same) (post_collection-CollectionEnd s)

  body_refuses :
      (s t : Db) (c : CollectionRow)
      → P.find_first (from_collection rt_id command.collection_id) s.transactions ≡ none
      → P.find_first (collection_with_id rt_id command.collection_id) s.collections ≡ some c
      → is_validated_collection c.status ≡ false
      → SameBooks s t
      → SameBooks t (body t).1
  unfolding post_collection_body
  body_refuses s t c f g v same =
      let f' : P.find_first (from_collection rt_id command.collection_id) t.transactions ≡ none =
        subst (λ rows. P.find_first (from_collection rt_id command.collection_id) rows ≡ none)
          (sym same.transactions) f in
      let g' : P.find_first (collection_with_id rt_id command.collection_id) t.collections
          ≡ some c =
        subst (λ rows. P.find_first (collection_with_id rt_id command.collection_id) rows ≡ some c)
          (sym same.collections) g in
      ground arith

  -- A collection that is not validated, and has no transaction yet, is not posted: the request writes
  -- no table but the audit log.
  pub post_validated_collection-validated :
      (s : Db) (c : CollectionRow)
      → P.find_first (from_collection rt_id command.collection_id) s.transactions ≡ none
      → P.find_first (collection_with_id rt_id command.collection_id) s.collections ≡ some c
      → is_validated_collection c.status ≡ false
      → SameBooks s (post_validated_collection P rt_id command actor meta s).1
  post_validated_collection-validated s c f g v =
      end-SameBooks s (post_validated_collection P rt_id command actor meta s)
        (λ t same. body_refuses s t c f g v same) (post_collection-CollectionEnd s)

  failed-SameBooks :
      (s : Db) (v : Result SourceCollectionPostingResult × Db) (e : Error)
      → CollectionEnd s v
      → v.0 ≡ err e
      → SameBooks s v.1
  failed-SameBooks s (err x, s') e o q = o
  failed-SameBooks s (ok a, s') e o q = absurd (ground arith)

  -- A request to post a collection that throws leaves every table but the audit log as it was.
  pub post_validated_collection_atomic :
      (s : Db) (e : Error)
      → (post_validated_collection P rt_id command actor meta s).0 ≡ err e
      → SameBooks s (post_validated_collection P rt_id command actor meta s).1
  post_validated_collection_atomic s e q =
      failed-SameBooks s (post_validated_collection P rt_id command actor meta s) e
        (post_collection-CollectionEnd s) q
