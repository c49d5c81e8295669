-- ===== src/Jimpitan/Service.antt =====
-- The requests of an officer to a collection: `getChecklist`, `startCollection`, `generateChecklist`,
-- `upsertCollectionItems` and `setBulkCollectionTotal` of
-- apps/api/src/modules/jimpitan/application/jimpitan.service.ts, with the checks before the repository is
-- called. What JavaScript's `Number` makes of a text is a parameter.
use jimpitan.Base.{String, ◌==◌, Bool, true, false, not, ◌||◌, ◌&&◌, List, [], ◌∷◌, map, ltb}
use jimpitan.Base.Rows.{length}
use jimpitan.Finance.Schema.{AuthPrincipal, FinanceRequestMeta}
use jimpitan.Finance.Platform.{Platform}
use jimpitan.Finance.Monad.{
  Tx, return, gets, require, throw_if, bad_request, not_found, forbidden, ◌>>=◌, ◌>>◌,
}
use jimpitan.Jimpitan.Schema.{CollectionRow, CollectionItemCommand, SetBulkCollectionTotalCommand}
use jimpitan.Jimpitan.Mode.{assert_per_house_items_allowed, assert_bulk_total_amount}
use jimpitan.Jimpitan.Tables.{is_paid_item, collection_at, assert_editable_status}
use jimpitan.Jimpitan.Workflow.{is_bulk, mentions, distinct_count, upsert_collection_items}
use jimpitan.Jimpitan.Collections.{start_collection}
use jimpitan.Jimpitan.Review.{set_bulk_collection_total}
use jimpitan.Jimpitan.Checklist.{CollectionChecklist, get_checklist, generate_checklist}

-- What `Number(amount)` is compared for.
pub data NumberSign : Type 0 where
  not_finite negative null positive : NumberSign

-- actor.permissions.includes(permission) || actor.membershipId === collection.officerMembershipId
abbrev pub may_act : String → AuthPrincipal → CollectionRow → Bool
may_act permission actor c =
    mentions permission actor.permissions || actor.membership_id == c.officer_membership_id

unfoldable pub assert_can_read_collection : AuthPrincipal → CollectionRow → Tx (Unit {0})
assert_can_read_collection actor c =
    throw_if (not (may_act "collections.read" actor c))
      (forbidden "Collection access is not allowed.")

unfoldable pub assert_can_mutate_own_collection : AuthPrincipal → CollectionRow → Tx (Unit {0})
assert_can_mutate_own_collection actor c =
    throw_if (not (may_act "collections.validate" actor c))
      (forbidden "Collection mutation is not allowed.")

unfoldable pub assert_no_duplicate_house_items : List CollectionItemCommand → Tx (Unit {0})
assert_no_duplicate_house_items items =
    throw_if (ltb (distinct_count (map (λ i. i.house_id) items)) (length items))
      (bad_request "Duplicate house entries are not allowed in one batch.")

-- !Number.isFinite(amount) || amount < 0
abbrev pub is_bad_number : NumberSign → Bool
is_bad_number not_finite = true
is_bad_number negative = true
is_bad_number _ = false

abbrev pub is_positive_number : NumberSign → Bool
is_positive_number positive = true
is_positive_number _ = false

module _ (P : Platform) (number : String → NumberSign) where
  -- for (const item of command.items)
  unfoldable pub assert_valid_item_amounts : List CollectionItemCommand → Tx (Unit {0})
  assert_valid_item_amounts [] = return tt
  assert_valid_item_amounts (i ∷ rest) = do
    throw_if (is_bad_number (number i.amount))
        (bad_request "Collection item amount must be a non-negative number.")
    throw_if (is_paid_item i.status && not (is_positive_number (number i.amount)))
        (bad_request "Paid collection items require an amount greater than zero.")
    throw_if (not (is_paid_item i.status) && is_positive_number (number i.amount))
        (bad_request "Only paid collection items can carry a collected amount.")
    assert_valid_item_amounts rest

  unfoldable pub get_collection_or_throw : String → String → Tx CollectionRow
  get_collection_or_throw rt_id id = do
    found ← gets (λ s. P.find_first (collection_at rt_id id) s.collections)
    require found (not_found "Collection was not found.")

  module _ (actor : AuthPrincipal) (id : String) (meta : FinanceRequestMeta) where
    unfoldable pub read_own_checklist : Tx CollectionChecklist
    read_own_checklist = do
      collection ← get_collection_or_throw actor.rt_id id
      assert_can_read_collection actor collection
      checklist ← get_checklist P actor.rt_id id
      require checklist (not_found "Collection was not found.")

    unfoldable pub start_own_collection : Tx CollectionRow
    start_own_collection = do
      collection ← get_collection_or_throw actor.rt_id id
      assert_can_mutate_own_collection actor collection
      assert_editable_status collection.status
      started ← start_collection P actor.rt_id id actor meta
      require started (not_found "Collection was not found.")

    unfoldable pub generate_own_checklist : Tx CollectionChecklist
    generate_own_checklist = do
      collection ← get_collection_or_throw actor.rt_id id
      assert_can_mutate_own_collection actor collection
      assert_editable_status collection.status
      assert_per_house_items_allowed collection.collection_mode
      checklist ← generate_checklist P actor.rt_id id actor meta
      require checklist (not_found "Collection was not found.")

    unfoldable pub upsert_own_items : List CollectionItemCommand → Tx CollectionRow
    upsert_own_items items = do
      collection ← get_collection_or_throw actor.rt_id id
      assert_can_mutate_own_collection actor collection
      assert_editable_status collection.status
      assert_per_house_items_allowed collection.collection_mode
      assert_no_duplicate_house_items items
      assert_valid_item_amounts items
      updated ← upsert_collection_items P actor.rt_id id items actor meta
      require updated (not_found "Collection was not found.")

    unfoldable pub set_own_total : SetBulkCollectionTotalCommand → Tx CollectionRow
    set_own_total input = do
      collection ← get_collection_or_throw actor.rt_id id
      assert_can_mutate_own_collection actor collection
      assert_editable_status collection.status
      throw_if (not (is_bulk collection.collection_mode))
          (bad_request "Only BULK_TOTAL collections accept session total input.")
      assert_bulk_total_amount input.total_amount
      updated ← set_bulk_collection_total P actor.rt_id id input actor meta
      require updated (not_found "Collection was not found.")
