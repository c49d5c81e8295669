-- ===== src/Jimpitan/Checklist.antt =====
-- The checklist of a collection's route: `getChecklist`, `generateChecklist` and `toChecklist` of
-- apps/api/src/modules/jimpitan/infrastructure/prisma-jimpitan.repository.ts. The primary resident of
-- a house and the columns that only the answers show are left out.
use jimpitan.Base.{
  String, ◌==◌, Bool, true, false, ◌&&◌, Option, none, some, List, [], ◌∷◌, map, if◌then◌else◌,
}
use jimpitan.Finance.Schema.{CollectionStatus, AuthPrincipal, FinanceRequestMeta}
use jimpitan.Jimpitan.Schema.{CollectionRow, CollectionItemRow, HouseRow}
use jimpitan.Finance.Platform.{Platform}
use jimpitan.Finance.Monad.{Tx, return, gets, transaction, ◌>>=◌, ◌>>◌}
use jimpitan.Finance.Tables.{audit_entry, write_audit}
use jimpitan.Jimpitan.Mode.{assert_per_house_items_allowed}
use jimpitan.Jimpitan.Tables.{
  collection_at, items_of, area_of, assert_editable_status, assert_single_state_update,
  is_startable, find_collection_in_transaction, find_collection_in_transaction_or_throw,
  update_collections,
}
use jimpitan.Jimpitan.Workflow.{is_bulk, on_route}

pub record CollectionChecklistHouse : Type 0 where
  pub house_id : String
  pub area_id : String
  pub item : Option CollectionItemRow

pub record CollectionChecklist : Type 0 where
  pub collection : CollectionRow
  pub houses : List CollectionChecklistHouse

-- `get(id)` of the map from house to item, in which the last entry of a house counts.
abbrev pub item_by_house_id : String → List CollectionItemRow → Option CollectionItemRow
item_by_house_id id [] = none
item_by_house_id id (i ∷ items) =
    let rest = item_by_house_id id items in
    elim rest [ some j ↦ some j | none ↦ if i.house_id == id then some i else none ]

abbrev pub checklist_house : List CollectionItemRow → HouseRow → CollectionChecklistHouse
checklist_house items h = record {
  house_id = h.id;
  area_id = h.area_id;
  item = item_by_house_id h.id items;
}

abbrev pub to_checklist :
    CollectionRow → List HouseRow → List CollectionItemRow → CollectionChecklist
to_checklist collection houses items = record {
  collection = collection;
  houses = map (checklist_house items) houses;
}

-- { id, rtId, status: before.status } where that is DRAFT or REJECTED
abbrev pub same_startable : CollectionStatus → CollectionStatus → Bool
same_startable CollectionStatus.draft CollectionStatus.draft = true
same_startable CollectionStatus.rejected CollectionStatus.rejected = true
same_startable _ _ = false

module _ (P : Platform) where
  -- The houses of the route with the items of the collection.
  unfoldable pub read_checklist : String → String → CollectionRow → Tx CollectionChecklist
  read_checklist rt_id id c = do
    houses ← gets (λ s. P.find_many (on_route rt_id (area_of P s.directory c)) s.directory.houses)
    items ← gets (λ s. P.find_many (items_of rt_id id) s.items)
    return (to_checklist c houses items)

  unfoldable pub get_checklist : String → String → Tx (Option CollectionChecklist)
  get_checklist rt_id id = do
    found ← gets (λ s. P.find_first (collection_at rt_id id) s.collections)
    elim found [
      | none ↦ return none
      | some c ↦
          if is_bulk c.collection_mode
          then return (some (record { collection = c; houses = [] }))
          else do checklist ← read_checklist rt_id id c; return (some checklist)
    ]

  -- The status of the collection becomes IN_PROGRESS where it is DRAFT or REJECTED.
  unfoldable pub start_checklist :
      String → String → CollectionStatus → AuthPrincipal → Tx (Unit {0})
  start_checklist rt_id id status actor =
      if is_startable status
      then (update_collections P (λ c. collection_at rt_id id c && same_startable status c.status)
            (λ c. record c {
              status = CollectionStatus.in_progress;
              updated_by_id = some actor.user_id;
            })
          >>= assert_single_state_update)
      else return tt

  unfoldable pub generate_found :
      String
      → String
      → AuthPrincipal
      → FinanceRequestMeta
      → CollectionRow
      → Tx (Option CollectionChecklist)
  generate_found rt_id id actor meta before = do
    assert_editable_status before.status
    assert_per_house_items_allowed before.collection_mode
    start_checklist rt_id id before.status actor
    after ← find_collection_in_transaction_or_throw P rt_id id
    write_audit P
        (audit_entry rt_id actor meta "COLLECTION_CHECKLIST_GENERATED" "jimpitan_collection" id)
    checklist ← read_checklist rt_id id after
    return (some checklist)

  unfoldable pub generate_checklist :
      String → String → AuthPrincipal → FinanceRequestMeta → Tx (Option CollectionChecklist)
  generate_checklist rt_id id actor meta = transaction P (do
    found ← find_collection_in_transaction P rt_id id
    elim found [ none ↦ return none | some before ↦ generate_found rt_id id actor meta before ])
