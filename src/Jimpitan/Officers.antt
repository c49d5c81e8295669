-- ===== src/Jimpitan/Officers.antt =====
-- Who may change a collection, and which items are let through
-- (apps/api/src/modules/jimpitan/application/jimpitan.service.ts).
use jimpitan.Base.{
  suc, ◌≤◌, String, true, false, Option, none, some, List, [], ◌∷◌, map, Bool-cases, inl, inr, ◌≡◌,
  refl, ap, subst, arith,
}
use jimpitan.Base.Rows.{length, All}
use jimpitan.Finance.Schema.{AuthPrincipal, FinanceRequestMeta}
use jimpitan.Finance.Platform.{Db, Platform}
use jimpitan.Finance.Monad.{ok, err, Tx, require, not_found, forbidden, ◌>>=◌, ◌>>◌}
use jimpitan.Finance.Books.{bind-ok, check-ok}
use jimpitan.Jimpitan.Schema.{CollectionRow, CollectionItemCommand, SetBulkCollectionTotalCommand}
use jimpitan.Jimpitan.Mode.{collection_mode_contract, assert_per_house_items_allowed}
use jimpitan.Jimpitan.Tables.{is_editable, is_paid_item, collection_at, assert_editable_status}
use jimpitan.Jimpitan.Workflow.{mentions, distinct_count, upsert_collection_items}
use jimpitan.Jimpitan.Service.{
  NumberSign, may_act, assert_can_mutate_own_collection, assert_no_duplicate_house_items,
  is_bad_number, is_positive_number, assert_valid_item_amounts, get_collection_or_throw,
  start_own_collection, generate_own_checklist, upsert_own_items, set_own_total,
}

-- No text stands twice.
abbrev pub NoRepeat : List String → Type 0
NoRepeat [] = Unit
NoRepeat (x ∷ xs) = (mentions x xs ≡ false) × NoRepeat xs

distinct_count-bound : (xs : List String) → distinct_count xs ≤ length xs
distinct_count-bound [] = omega arith
distinct_count-bound (x ∷ xs) = let h = distinct_count-bound xs in ground arith

distinct_count-NoRepeat : (xs : List String) → length xs ≤ distinct_count xs → NoRepeat xs
distinct_count-NoRepeat [] h = tt
distinct_count-NoRepeat (x ∷ xs) h =
    let b = distinct_count-bound xs in
    elim (Bool-cases (mentions x xs)) [
      | inl twice ↦ absurd (ground arith)
      | inr once ↦ (once, distinct_count-NoRepeat xs (ground arith))
    ]

length-map :
    (items : List CollectionItemCommand) → length (map (λ i. i.house_id) items) ≡ length items
length-map [] = refl
length-map (i ∷ rest) = ap (λ n. suc n) (length-map rest)

-- The amount is a finite number that is not negative, and it is positive for a paid house only.
pub record Fits (number : String → NumberSign) (i : CollectionItemCommand) : Type 0 where
  pub finite : is_bad_number (number i.amount) ≡ false
  pub paid_amount : is_paid_item i.status ≡ is_positive_number (number i.amount)

module _ (P : Platform) (number : String → NumberSign) where
  amounts-Fits :
      (items : List CollectionItemCommand) (s u : Db)
      → assert_valid_item_amounts P number items s ≡ (ok tt, u)
      → (u ≡ s) × All (Fits number) items
  unfolding assert_valid_item_amounts
  amounts-Fits [] s u h = (ground arith, tt)
  amounts-Fits (i ∷ rest) s u h =
      let finite : is_bad_number (number i.amount) ≡ false = ground arith in
      let same : is_paid_item i.status ≡ is_positive_number (number i.amount) = ground arith in
      let later : assert_valid_item_amounts P number rest s ≡ (ok tt, u) = ground arith in
      let (quiet, others) = amounts-Fits rest s u later in
      (quiet, (record { finite = finite; paid_amount = same }, others))

  module _ (actor : AuthPrincipal) (id : String) (meta : FinanceRequestMeta) where
    -- A principal who neither is the collection's officer nor may validate collections is refused each
    -- request that changes one, and no table is changed.
    pub officer_requests_refused :
        (c : CollectionRow) (items : List CollectionItemCommand)
        (input : SetBulkCollectionTotalCommand) (s : Db)
        → P.find_first (collection_at actor.rt_id id) s.collections ≡ some c
        → may_act "collections.validate" actor c ≡ false
        → (start_own_collection P number actor id meta s
            ≡ (err (forbidden "Collection mutation is not allowed."), s))
          × (generate_own_checklist P number actor id meta s
              ≡ (err (forbidden "Collection mutation is not allowed."), s))
          × (upsert_own_items P number actor id meta items s
              ≡ (err (forbidden "Collection mutation is not allowed."), s))
          × (set_own_total P number actor id meta input s
              ≡ (err (forbidden "Collection mutation is not allowed."), s))
    unfolding start_own_collection generate_own_checklist upsert_own_items set_own_total
        get_collection_or_throw assert_can_mutate_own_collection
    officer_requests_refused c items input s found none_of_both =
        (ground arith, ground arith, ground arith, ground arith)

    -- What a batch of items has passed before the repository saves it.
    pub record Batch (items : List CollectionItemCommand) (row : CollectionRow) (s t : Db)
        : Type 0 where
      pub collection : CollectionRow
      pub found : P.find_first (collection_at actor.rt_id id) s.collections ≡ some collection
      pub may : may_act "collections.validate" actor collection ≡ true
      pub editable : is_editable collection.status ≡ true
      pub per_house :
          (collection_mode_contract collection.collection_mode).requires_house_items ≡ true
      pub houses : NoRepeat (map (λ i. i.house_id) items)
      pub amounts : All (Fits number) items
      pub saved : upsert_collection_items P actor.rt_id id items actor meta s ≡ (ok (some row), t)

    get_collection-found :
        (s t : Db) (c : CollectionRow)
        → get_collection_or_throw P number actor.rt_id id s ≡ (ok c, t)
        → (t ≡ s) × (P.find_first (collection_at actor.rt_id id) s.collections ≡ some c)
    unfolding get_collection_or_throw
    get_collection-found s t c h =
        found (P.find_first (collection_at actor.rt_id id) s.collections) refl
      where
        found :
            (o : Option CollectionRow)
            → P.find_first (collection_at actor.rt_id id) s.collections ≡ o
            → (t ≡ s) × (P.find_first (collection_at actor.rt_id id) s.collections ≡ some c)
        found none e = absurd (ground arith)
        found (some row) e = (ground arith, ground arith)

    -- The checks and the saving, for the collection that is found.
    abbrev checked : List CollectionItemCommand → CollectionRow → Tx CollectionRow
    checked items collection = do
      assert_can_mutate_own_collection actor collection
      assert_editable_status collection.status
      assert_per_house_items_allowed collection.collection_mode
      assert_no_duplicate_house_items items
      assert_valid_item_amounts P number items
      updated ← upsert_collection_items P actor.rt_id id items actor meta
      require updated (not_found "Collection was not found.")

    checked-Batch :
        (items : List CollectionItemCommand) (c row : CollectionRow) (s t : Db)
        → P.find_first (collection_at actor.rt_id id) s.collections ≡ some c
        → checked items c s ≡ (ok row, t)
        → Batch items row s t
    unfolding assert_can_mutate_own_collection assert_editable_status assert_per_house_items_allowed
        assert_no_duplicate_house_items
    checked-Batch items c row s t found h =
        let saving : Tx CollectionRow =
          upsert_collection_items P actor.rt_id id items actor meta >>= λ updated.
          require updated (not_found "Collection was not found.") in
        let amounts : (assert_valid_item_amounts P number items >> saving) s ≡ (ok row, t) =
          ground arith in
        let a =
          check-ok (assert_valid_item_amounts P number items) saving
            (λ s u e. (amounts-Fits items s u e).0) s row t amounts in
        let q =
          bind-ok (upsert_collection_items P actor.rt_id id items actor meta)
            (λ updated. require updated (not_found "Collection was not found.")) s row t (a.1) in
        let ids = map (λ (i : CollectionItemCommand). i.house_id) items in
        let n = length-map items in
        let enough : length ids ≤ distinct_count ids = ground arith in
        record {
          collection = c;
          found = found;
          may = ground arith;
          editable = ground arith;
          per_house = ground arith;
          houses = distinct_count-NoRepeat ids enough;
          amounts = (amounts-Fits items s s (a.0)).1;
          saved = required q.value q.between q.before q.after;
        }
      where
        required :
            (o : Option CollectionRow) (u : Db)
            → upsert_collection_items P actor.rt_id id items actor meta s ≡ (ok o, u)
            → require o (not_found "Collection was not found.") u ≡ (ok row, t)
            → upsert_collection_items P actor.rt_id id items actor meta s ≡ (ok (some row), t)
        required none u e f = absurd (ground arith)
        required (some r) u e f = ground arith

    -- A batch of items is answered only where the principal is the officer of an editable collection of
    -- the tenant that has house items, or may validate, no house stands twice in it and each amount fits
    -- its status; and the answer and the tables are then those of the repository.
    pub upsert_own_items-Batch :
        (items : List CollectionItemCommand) (row : CollectionRow) (s t : Db)
        → upsert_own_items P number actor id meta items s ≡ (ok row, t)
        → Batch items row s t
    unfolding upsert_own_items
    upsert_own_items-Batch items row s t h =
        let q =
          bind-ok (get_collection_or_throw P number actor.rt_id id) (checked items) s row t h in
        let (same, found) = get_collection-found s q.between q.value q.before in
        checked-Batch items q.value row s t found
          (subst (λ x. checked items q.value x ≡ (ok row, t)) same q.after)
