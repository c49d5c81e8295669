-- ===== src/Jimpitan/Workflow.antt =====
-- The house items of a collection, and the total that follows from them
-- (apps/api/src/modules/jimpitan/infrastructure/prisma-jimpitan.repository.ts).
use jimpitan.Base.{
  ℕ, suc, String, ◌==◌, Bool, true, false, not, ◌&&◌, ◌||◌, Option, none, some, List, [], ◌∷◌, map,
  is_none, given, leb, same_text, if◌then◌else◌,
}
use jimpitan.Base.Rows.{length}
use jimpitan.Finance.Schema.{CollectionMode, bulk_total, AuthPrincipal, FinanceRequestMeta}
use jimpitan.Jimpitan.Schema.{
  CollectionRow, CollectionItemRow, CollectionItemCommand, HouseRow, ResidentRow,
}
use jimpitan.Finance.Platform.{Platform}
use jimpitan.Finance.Monad.{
  bad_request, Tx, return, gets, catch, throw_if, modify, transaction, ◌>>=◌, ◌>>◌,
}
use jimpitan.Finance.Tables.{new_id}
use jimpitan.Finance.Retry.{throw_known_conflict}
use jimpitan.Jimpitan.Mode.{assert_per_house_items_allowed}
use jimpitan.Jimpitan.Tables.{
  is_editable, collection_at, in_progress_from, area_of, assert_editable_status, update_collections,
  calculate_paid_total,
}
use jimpitan.Jimpitan.Collections.{parse_decimal, finish_update, on_collection}

abbrev pub is_bulk : CollectionMode → Bool
is_bulk bulk_total = true
is_bulk _ = false

abbrev pub mentions : String → List String → Bool
mentions x [] = false
mentions x (y ∷ ys) = x == y || mentions x ys

-- new Set(ids).size
abbrev pub distinct_count : List String → ℕ
distinct_count [] = 0
distinct_count (x ∷ xs) = let rest = distinct_count xs in if mentions x xs then rest else suc rest

-- `routeHouseWhere`
abbrev pub on_route : String → Option String → HouseRow → Bool
on_route rt_id area_id h =
    h.rt_id == rt_id
    && is_none h.deleted_at
    && not h.is_inactive
    && (elim (given area_id) [ none ↦ true | some id ↦ h.area_id == id ])
    && h.area_is_open

-- `map.get(id)` of the map from resident to house: the last entry counts.
abbrev pub house_of : String → List ResidentRow → Option String
house_of id [] = none
house_of id (r ∷ rs) =
    let rest = house_of id rs in
    elim rest [ some h ↦ some h | none ↦ if r.id == id then some r.house_id else none ]

-- Every item that names a resident names one of its house.
abbrev pub residents_match : List ResidentRow → List CollectionItemCommand → Bool
residents_match residents [] = true
residents_match residents (i ∷ items) =
    (elim (given i.resident_id) [
      | none ↦ true
      | some id ↦ same_text (house_of id residents) (some i.house_id)
    ])
    && residents_match residents items

abbrev pub named_residents : List CollectionItemCommand → List String
named_residents [] = []
named_residents (i ∷ items) =
    let rest = named_residents items in
    elim (given i.resident_id) [ none ↦ rest | some id ↦ id ∷ rest ]

-- The unique index of the items: { collectionId, houseId }
abbrev pub item_at : String → String → CollectionItemRow → Bool
item_at collection_id house_id i = i.collection_id == collection_id && i.house_id == house_id

module _ (P : Platform) where
  unfoldable pub assert_items_assignable_in_transaction :
      String → Option String → List CollectionItemCommand → Tx (Unit {0})
  assert_items_assignable_in_transaction rt_id area_id items = do
    let house_ids = map (λ (i : CollectionItemCommand). i.house_id) items
    houses ← gets (λ s.
        P.find_many (λ h. mentions h.id house_ids && on_route rt_id area_id h) s.directory.houses)
    throw_if
        (not (
          leb (length houses) (distinct_count house_ids)
          && leb (distinct_count house_ids) (length houses)))
        (bad_request "One or more houses are not assignable to this collection route.")
    residents ← gets (λ s.
        P.find_many
          (λ r.
            mentions r.id (named_residents items)
            && r.rt_id == rt_id
            && is_none r.deleted_at
            && r.is_active)
          s.directory.residents)
    throw_if (not (residents_match residents items))
        (bad_request "One or more residents are not active in the selected houses.")

  -- `upsert` by the unique index.
  unfoldable pub upsert_item :
      String → String → AuthPrincipal → CollectionItemCommand → Tx (Unit {0})
  upsert_item rt_id collection_id actor item = do
    amount ← parse_decimal P item.amount
    existing ← gets (λ s. P.find_first (item_at collection_id item.house_id) s.items)
    elim existing [
      | some _ ↦ modify (λ s. record s {
        items =
            P.update_many (item_at collection_id item.house_id)
              (λ i. record i {
                resident_id = item.resident_id;
                amount = amount;
                status = item.status;
                note = item.note;
                updated_by_id = some actor.user_id;
              })
              s.items;
      })
      | none ↦ do
        id ← new_id P
        let row : CollectionItemRow = record {
          id = id;
          rt_id = rt_id;
          collection_id = collection_id;
          house_id = item.house_id;
          resident_id = item.resident_id;
          amount = amount;
          status = item.status;
          note = item.note;
          updated_by_id = some actor.user_id;
        }
        modify (λ s. record s { items = P.create row s.items })
    ]

  unfoldable pub upsert_items :
      String → String → AuthPrincipal → List CollectionItemCommand → Tx (Unit {0})
  upsert_items rt_id collection_id actor [] = return tt
  upsert_items rt_id collection_id actor (item ∷ items) =
      upsert_item rt_id collection_id actor item >> upsert_items rt_id collection_id actor items

  -- After the items are stored: the total and the status of the collection.
  unfoldable pub store_total :
      String
      → String
      → AuthPrincipal
      → FinanceRequestMeta
      → CollectionRow
      → Tx (Option CollectionRow)
  store_total rt_id id actor meta before = do
    total ← calculate_paid_total P rt_id id
    count ←
        update_collections P (λ c. collection_at rt_id id c && is_editable c.status)
          (λ c. record c {
            total_amount = total;
            status = in_progress_from before.status;
            updated_by_id = some actor.user_id;
          })
    finish_update P rt_id id count "COLLECTION_ITEM_CHANGED" actor meta

  unfoldable pub upsert_found :
      String
      → String
      → List CollectionItemCommand
      → AuthPrincipal
      → FinanceRequestMeta
      → CollectionRow
      → Tx (Option CollectionRow)
  upsert_found rt_id id items actor meta before = do
    assert_editable_status before.status
    assert_per_house_items_allowed before.collection_mode
    area_id ← gets (λ s. area_of P s.directory before)
    assert_items_assignable_in_transaction rt_id area_id items
    upsert_items rt_id id actor items
    store_total rt_id id actor meta before

  unfoldable pub upsert_collection_items :
      String
      → String
      → List CollectionItemCommand
      → AuthPrincipal
      → FinanceRequestMeta
      → Tx (Option CollectionRow)
  upsert_collection_items rt_id id items actor meta =
      catch (transaction P (on_collection P rt_id id (upsert_found rt_id id items actor meta)))
        (λ e.
          throw_known_conflict e
            "Collection item could not be saved because a duplicate house item exists.")
