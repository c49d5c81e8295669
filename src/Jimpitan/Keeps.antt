-- ===== src/Jimpitan/Keeps.antt =====
-- The history relation for the statements of the collection repository
-- (apps/api/src/modules/jimpitan/infrastructure/prisma-jimpitan.repository.ts).
use jimpitan.Base.{String, Bool, true, Option, none, some, List, ◌≡◌, refl, sym, subst, arith}
use jimpitan.Base.Kept.{Kept, Kept-create, Kept-set_where, Kept-refl}
use jimpitan.Finance.Schema.{AuthPrincipal, FinanceRequestMeta}
use jimpitan.Jimpitan.Schema.{CollectionRow}
use jimpitan.Finance.Platform.{Db, Platform}
use jimpitan.Finance.Monad.{Tx, bad_request}
use jimpitan.Finance.Tables.{new_id}
use jimpitan.Finance.History.{
  CollectionKept, CollectionKept-refl, History, History-refl, same-History,
}
use jimpitan.Finance.Keeps.{
  Keeps, bind, and_then, option-Keeps, reads, return-Keeps, throw_if-Keeps, reads, require-Keeps,
}
use jimpitan.Finance.Statements.{write_audit-Keeps}
use jimpitan.Jimpitan.Tables.{
  find_collection_in_transaction, find_collection_in_transaction_or_throw, update_collections,
  create_collection_row, assert_single_state_update, assert_no_active_duplicate_in_transaction,
  assert_officer_assignable_in_transaction, assert_area_assignable_in_transaction,
  find_or_create_schedule,
}
use jimpitan.Jimpitan.Collections.{finish_update, on_collection, parse_decimal}

module _ (P : Platform) where
  pub find-Keeps : (rt_id id : String) → Keeps (find_collection_in_transaction P rt_id id)
  unfolding find_collection_in_transaction
  find-Keeps rt_id id = record { at = History-refl }

  pub find_or_throw-Keeps :
      (rt_id id : String) → Keeps (find_collection_in_transaction_or_throw P rt_id id)
  unfolding find_collection_in_transaction_or_throw
  find_or_throw-Keeps rt_id id = bind (find-Keeps rt_id id) (λ c.
      require-Keeps c
        (bad_request "Collection lifecycle state changed while processing the request."))

  pub on_collection-Keeps :
      (rt_id id : String) (step : CollectionRow → Tx (Option CollectionRow))
      → ((c : CollectionRow) → Keeps (step c))
      → Keeps (on_collection P rt_id id step)
  unfolding on_collection
  on_collection-Keeps rt_id id step h =
      bind (find-Keeps rt_id id) (λ found. option-Keeps found (return-Keeps none) h)

  pub finish_update-Keeps :
      (rt_id id : String) (count : _) (action : String) (actor : AuthPrincipal)
      (meta : FinanceRequestMeta)
      → Keeps (finish_update P rt_id id count action actor meta)
  unfolding finish_update assert_single_state_update
  finish_update-Keeps rt_id id count action actor meta = and_then (throw_if-Keeps _ _) (
      bind (find_or_throw-Keeps rt_id id)
        (λ after. and_then (write_audit-Keeps P _) (return-Keeps (some after))))

  pub update_collections-Keeps :
      (p : CollectionRow → Bool) (f : CollectionRow → CollectionRow)
      → ((c : CollectionRow) → p c ≡ true → CollectionKept c (f c))
      → Keeps (update_collections P p f)
  unfolding update_collections
  update_collections-Keeps p f step = record {
    at = λ s. stored s (P.collection_clash (P.update_many p f s.collections)) refl;
  }
    where
      stored :
          (s : Db) (clash : Option (List String))
          → P.collection_clash (P.update_many p f s.collections) ≡ clash
          → History s (update_collections P p f s).1
      stored s none e =
          let rows = P.update_many p f s.collections in
          let q : (update_collections P p f s).1 ≡ record s { collections = rows } = ground arith in
          subst (History s) (sym q) (record {
            transactions = (History-refl s).transactions;
            ledgers = (History-refl s).ledgers;
            approvals = (History-refl s).approvals;
            notifications = (History-refl s).notifications;
            outbox = (History-refl s).outbox;
            collections =
                subst (Kept CollectionKept s.collections)
                  (sym (P.update_many_lem p f s.collections))
                  (Kept-set_where CollectionKept CollectionKept-refl p f step s.collections);
          })
      stored s (some columns) e =
          let q : (update_collections P p f s).1 ≡ s = ground arith in
          subst (History s) (sym q) (History-refl s)

  pub create_collection_row-Keeps : (c : CollectionRow) → Keeps (create_collection_row P c)
  unfolding create_collection_row
  create_collection_row-Keeps c = record {
    at = λ s. stored s (P.collection_clash (P.create c s.collections)) refl;
  }
    where
      stored :
          (s : Db) (clash : Option (List String))
          → P.collection_clash (P.create c s.collections) ≡ clash
          → History s (create_collection_row P c s).1
      stored s none e =
          let rows = P.create c s.collections in
          let q : (create_collection_row P c s).1 ≡ record s { collections = rows } =
            ground arith in
          subst (History s) (sym q) (record {
            transactions = (History-refl s).transactions;
            ledgers = (History-refl s).ledgers;
            approvals = (History-refl s).approvals;
            notifications = (History-refl s).notifications;
            outbox = (History-refl s).outbox;
            collections =
                subst (Kept CollectionKept s.collections) (sym (P.create_lem c s.collections)) (
                  Kept-create CollectionKept CollectionKept-refl c s.collections s.collections
                    (Kept-refl CollectionKept CollectionKept-refl s.collections));
          })
      stored s (some columns) e =
          let q : (create_collection_row P c s).1 ≡ s = ground arith in
          subst (History s) (sym q) (History-refl s)

  pub find_or_create_schedule-Keeps :
      (rt_id officer date : String) (area_id : Option String) (user : String)
      → Keeps (find_or_create_schedule P rt_id officer date area_id user)
  unfolding find_or_create_schedule new_id
  find_or_create_schedule-Keeps rt_id officer date area_id user = record {
    at = λ s.
        same-History s (find_or_create_schedule P rt_id officer date area_id user s).1
          (ground arith) (ground arith) (ground arith) (ground arith) (ground arith) (ground arith);
  }

  pub assert_no_active_duplicate-Keeps :
      (rt_id date : String) (area_id exclude : Option String)
      → Keeps (assert_no_active_duplicate_in_transaction P rt_id date area_id exclude)
  unfolding assert_no_active_duplicate_in_transaction
  assert_no_active_duplicate-Keeps rt_id date area_id exclude = record { at = History-refl }

  pub assert_officer-Keeps :
      (rt_id id : String) → Keeps (assert_officer_assignable_in_transaction P rt_id id)
  unfolding assert_officer_assignable_in_transaction
  assert_officer-Keeps rt_id id = record { at = History-refl }

  pub assert_area-Keeps :
      (rt_id : String) (area_id : Option String)
      → Keeps (assert_area_assignable_in_transaction P rt_id area_id)
  unfolding assert_area_assignable_in_transaction
  assert_area-Keeps rt_id area_id = reads (λ s. ground arith)

  pub parse_decimal-Keeps : (text : String) → Keeps (parse_decimal P text)
  unfolding parse_decimal
  parse_decimal-Keeps text = require-Keeps (P.decimal text) _
