-- ===== src/Jimpitan/Tables.antt =====
-- The statements and checks of the collection repository
-- (apps/api/src/modules/jimpitan/infrastructure/prisma-jimpitan.repository.ts).
use jimpitan.Base.{
  ℕ, suc, zero, String, ◌==◌, Bool, true, false, not, ◌&&◌, Option, none, some, is_none, ltb,
  otherwise, same_text, given,
}
use jimpitan.Base.Int.{ℤ, pos}
use jimpitan.Base.Rows.{length}
use jimpitan.Finance.Schema.{CollectionStatus, CollectionItemStatus, paid}
use jimpitan.Jimpitan.Schema.{
  CollectionRow, CollectionItemRow, ScheduleRow, ScheduleStatus, Directory,
}
use jimpitan.Finance.Platform.{Platform}
use jimpitan.Finance.Monad.{
  bad_request, known_request, p2002, Tx, ok, err, return, gets, require, throw_if, modify, ◌>>=◌,
  ◌>>◌,
}
use jimpitan.Finance.Tables.{new_id}

abbrev pub is_editable : CollectionStatus → Bool
is_editable CollectionStatus.draft = true
is_editable CollectionStatus.in_progress = true
is_editable CollectionStatus.rejected = true
is_editable _ = false

abbrev pub is_active_status : CollectionStatus → Bool
is_active_status CollectionStatus.draft = true
is_active_status CollectionStatus.in_progress = true
is_active_status CollectionStatus.submitted = true
is_active_status _ = false

abbrev pub is_startable : CollectionStatus → Bool
is_startable CollectionStatus.draft = true
is_startable CollectionStatus.rejected = true
is_startable _ = false

abbrev pub is_submitted : CollectionStatus → Bool
is_submitted CollectionStatus.submitted = true
is_submitted _ = false

abbrev pub is_validated_status : CollectionStatus → Bool
is_validated_status CollectionStatus.validated = true
is_validated_status _ = false

abbrev pub is_paid_item : CollectionItemStatus → Bool
is_paid_item paid = true
is_paid_item _ = false

-- { id, rtId }
abbrev pub collection_at : String → String → CollectionRow → Bool
collection_at rt_id id c = c.id == id && c.rt_id == rt_id

-- { rtId, collectionId }
abbrev pub items_of : String → String → CollectionItemRow → Bool
items_of rt_id collection_id i = i.rt_id == rt_id && i.collection_id == collection_id

-- { rtId, collectionId, status: PAID }
abbrev pub paid_items_of : String → String → CollectionItemRow → Bool
paid_items_of rt_id collection_id i =
    i.rt_id == rt_id && i.collection_id == collection_id && is_paid_item i.status

-- DRAFT and REJECTED become IN_PROGRESS, any other status stays.
abbrev pub in_progress_from : CollectionStatus → CollectionStatus
in_progress_from CollectionStatus.draft = CollectionStatus.in_progress
in_progress_from CollectionStatus.rejected = CollectionStatus.in_progress
in_progress_from other = other

abbrev is_single : ℕ → Bool
is_single (suc zero) = true
is_single _ = false

unfoldable pub assert_editable_status : CollectionStatus → Tx (Unit {0})
assert_editable_status status =
    throw_if (not (is_editable status))
      (bad_request "Collection cannot be edited in its current status.")

unfoldable pub assert_single_state_update : ℕ → Tx (Unit {0})
assert_single_state_update count =
    throw_if (not (is_single count))
      (bad_request "Collection lifecycle state changed while processing the request.")

module _ (P : Platform) where
  unfoldable pub find_collection_in_transaction : String → String → Tx (Option CollectionRow)
  find_collection_in_transaction rt_id id =
      gets (λ s. P.find_first (collection_at rt_id id) s.collections)

  unfoldable pub find_collection_in_transaction_or_throw : String → String → Tx CollectionRow
  unfolding find_collection_in_transaction
  find_collection_in_transaction_or_throw rt_id id = do
    collection ← find_collection_in_transaction rt_id id
    require collection
        (bad_request "Collection lifecycle state changed while processing the request.")

  unfoldable pub update_collections :
      (CollectionRow → Bool) → (CollectionRow → CollectionRow) → Tx ℕ
  update_collections p f s =
      let rows = P.update_many p f s.collections in
      elim (P.collection_clash rows) [
        | none ↦ (ok (P.update_count p s.collections), record s { collections = rows })
        | some columns ↦ (err (known_request p2002 columns), s)
      ]

  unfoldable pub create_collection_row : CollectionRow → Tx CollectionRow
  create_collection_row c s =
      let rows = P.create c s.collections in
      elim (P.collection_clash rows) [
        | none ↦ (ok c, record s { collections = rows })
        | some columns ↦ (err (known_request p2002 columns), s)
      ]

  unfoldable pub calculate_paid_total : String → String → Tx ℤ
  calculate_paid_total rt_id collection_id =
      gets
        (λ s. otherwise (P.sum (λ i. i.amount) (paid_items_of rt_id collection_id) s.items) (pos 0))

  -- The area of the collection's schedule, or null.
  abbrev pub area_of : Directory → CollectionRow → Option String
  area_of d c = elim (c.schedule_id) [
    | none ↦ none
    | some id ↦ elim (P.find_first (λ r. r.id == id) d.schedules) [
      | none ↦ none
      | some r ↦ r.area_id
    ]
  ]

  -- `activeDuplicateWhere`: `schedule: { is: … }` wants a schedule.
  abbrev pub active_duplicate :
      Directory → String → String → Option String → Option String → CollectionRow → Bool
  active_duplicate d rt_id date area_id exclude c =
      c.rt_id == rt_id
      && c.collection_date == date
      && is_active_status c.status
      && not (is_none c.schedule_id)
      && same_text (area_of d c) area_id
      && (elim (given exclude) [ none ↦ true | some id ↦ not (c.id == id) ])

  unfoldable pub assert_no_active_duplicate_in_transaction :
      String → String → Option String → Option String → Tx (Unit {0})
  assert_no_active_duplicate_in_transaction rt_id date area_id exclude = do
    count ← gets (λ s.
        length
          (P.find_many (active_duplicate s.directory rt_id date area_id exclude) s.collections))
    throw_if (ltb 0 count)
        (bad_request "An active collection already exists for this route and date.")

  unfoldable pub assert_officer_assignable_in_transaction : String → String → Tx (Unit {0})
  assert_officer_assignable_in_transaction rt_id id = do
    officer ← gets (λ s.
        P.find_first (λ m. m.id == id && m.rt_id == rt_id && m.is_active) s.directory.memberships)
    throw_if (is_none officer)
        (bad_request "Officer assignment state changed while processing the request.")

  unfoldable pub assert_area_assignable_in_transaction : String → Option String → Tx (Unit {0})
  assert_area_assignable_in_transaction rt_id area_id = elim (given area_id) [
    | none ↦ return tt
    | some id ↦ do
      area ← gets (λ s.
          P.find_first (λ a. a.id == id && a.rt_id == rt_id && is_none a.deleted_at && a.is_active)
            s.directory.areas)
      throw_if (is_none area)
          (bad_request "Area assignment state changed while processing the request.")
  ]

  unfoldable pub find_or_create_schedule :
      String → String → String → Option String → String → Tx String
  find_or_create_schedule rt_id officer date area_id actor_user_id = do
    existing ← gets (λ s.
        P.find_first
          (λ r.
            r.rt_id == rt_id
            && r.officer_membership_id == officer
            && r.schedule_date == date
            && same_text r.area_id area_id)
          s.directory.schedules)
    elim existing [
      | some r ↦ return r.id
      | none ↦ do
        id ← new_id P
        let row : ScheduleRow = record {
          id = id;
          rt_id = rt_id;
          officer_membership_id = officer;
          schedule_date = date;
          area_id = area_id;
          status = ScheduleStatus.scheduled;
          completed_at = none;
          updated_by_id = some actor_user_id;
        }
        modify (λ s. record s {
          directory = record (s.directory) { schedules = P.create row s.directory.schedules };
        })
        return id
    ]
