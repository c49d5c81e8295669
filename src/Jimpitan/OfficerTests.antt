-- ===== src/Jimpitan/OfficerTests.antt =====
-- The theorems on an officer's requests at concrete tables.
use jimpitan.Base.{◌≡◌, String, true, false, none, List, [], ◌∷◌, refl, if◌then◌else◌, ◌==◌}
use jimpitan.Finance.Schema.{CollectionStatus, per_house, paid, unpaid, AuthPrincipal}
use jimpitan.Finance.Platform.{Db}
use jimpitan.Finance.Platform.Memory.{memory}
use jimpitan.Finance.Monad.{Result, ok, err, forbidden}
use jimpitan.Finance.Tables.{write_audit, new_id}
use jimpitan.Finance.Samples.{collection_of, treasurer, no_meta, db_dues, empty_directory}
use jimpitan.Jimpitan.Schema.{
  CollectionRow, HouseRow, CollectionItemCommand, SetBulkCollectionTotalCommand, left_out,
}
use jimpitan.Jimpitan.Mode.{assert_per_house_items_allowed}
use jimpitan.Jimpitan.Tables.{
  assert_editable_status, assert_single_state_update, find_collection_in_transaction,
  find_collection_in_transaction_or_throw, update_collections, calculate_paid_total,
}
use jimpitan.Jimpitan.Collections.{parse_decimal, finish_update, on_collection}
use jimpitan.Jimpitan.Workflow.{
  assert_items_assignable_in_transaction, upsert_item, upsert_items, store_total, upsert_found,
  upsert_collection_items,
}
use jimpitan.Jimpitan.Service.{
  NumberSign, null, positive, assert_can_mutate_own_collection, assert_no_duplicate_house_items,
  assert_valid_item_amounts, get_collection_or_throw, start_own_collection, generate_own_checklist,
  upsert_own_items, set_own_total,
}
use jimpitan.Jimpitan.Officers.{Batch, officer_requests_refused, upsert_own_items-Batch}

abbrev sign_of : String → NumberSign
sign_of text = if text == "0" then null else positive

abbrev walk : CollectionRow
walk = record (collection_of "c-2" CollectionStatus.in_progress) { collection_mode = per_house }

abbrev house_row : String → HouseRow
house_row id = record {
  id = id;
  rt_id = "rt-5";
  area_id = "east";
  area_is_open = true;
  is_inactive = false;
  deleted_at = none;
}

abbrev db_walk : Db
db_walk = record db_dues {
  collections = walk ∷ [];
  directory = record empty_directory { houses = house_row "h-1" ∷ house_row "h-2" ∷ [] };
}

abbrev batch : List CollectionItemCommand
batch =
    record { house_id = "h-1"; resident_id = none; amount = "500"; status = paid; note = none }
    ∷ record { house_id = "h-2"; resident_id = none; amount = "0"; status = unpaid; note = none }
    ∷ []

abbrev saving : Result CollectionRow × Db
saving = upsert_own_items memory sign_of treasurer "c-2" no_meta batch db_walk

abbrev saved_row : CollectionRow
saved_row = elim (saving.0) [ ok row ↦ row | err e ↦ walk ]

batch_is_saved : saving ≡ (ok saved_row, saving.1)
unfolding upsert_own_items get_collection_or_throw assert_can_mutate_own_collection
    assert_editable_status assert_per_house_items_allowed assert_no_duplicate_house_items
    assert_valid_item_amounts upsert_collection_items on_collection find_collection_in_transaction
    upsert_found assert_items_assignable_in_transaction upsert_items upsert_item parse_decimal
    new_id store_total calculate_paid_total update_collections finish_update
    assert_single_state_update find_collection_in_transaction_or_throw write_audit
batch_is_saved = refl

upsert_own_items-Batch_example :
    Batch memory sign_of treasurer "c-2" no_meta batch saved_row db_walk (saving.1)
upsert_own_items-Batch_example =
    upsert_own_items-Batch memory sign_of treasurer "c-2" no_meta batch saved_row db_walk (saving.1)
      batch_is_saved

abbrev neighbour : AuthPrincipal
neighbour = record treasurer { membership_id = "m-9"; permissions = [] }

abbrev total_command : SetBulkCollectionTotalCommand
total_command = record { total_amount = "500"; note = left_out }

officer_requests_refused_example :
    (start_own_collection memory sign_of neighbour "c-2" no_meta db_walk
      ≡ (err (forbidden "Collection mutation is not allowed."), db_walk))
    × (generate_own_checklist memory sign_of neighbour "c-2" no_meta db_walk
        ≡ (err (forbidden "Collection mutation is not allowed."), db_walk))
    × (upsert_own_items memory sign_of neighbour "c-2" no_meta batch db_walk
        ≡ (err (forbidden "Collection mutation is not allowed."), db_walk))
    × (set_own_total memory sign_of neighbour "c-2" no_meta total_command db_walk
        ≡ (err (forbidden "Collection mutation is not allowed."), db_walk))
officer_requests_refused_example =
    officer_requests_refused memory sign_of neighbour "c-2" no_meta walk batch total_command db_walk
      refl refl
