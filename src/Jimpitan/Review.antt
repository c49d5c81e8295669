-- ===== src/Jimpitan/Review.antt =====
-- The bulk total of a collection, and its way from submission to validation or rejection
-- (apps/api/src/modules/jimpitan/infrastructure/prisma-jimpitan.repository.ts).
use jimpitan.Base.{ℕ, String, [], ltb, ◌==◌, not, ◌&&◌, Option, none, some, given, if◌then◌else◌}
use jimpitan.Base.Int.{ℤ}
use jimpitan.Base.Rows.{length}
use jimpitan.Finance.Schema.{CollectionStatus, AuthPrincipal, FinanceRequestMeta}
use jimpitan.Jimpitan.Schema.{
  CollectionRow, ScheduleRow, ScheduleStatus, SetBulkCollectionTotalCommand,
}
use jimpitan.Finance.Platform.{Platform}
use jimpitan.Finance.Monad.{
  bad_request, known_request, other_code, Tx, return, gets, throw_if, modify, transaction, ◌>>=◌,
  ◌>>◌,
}
use jimpitan.Finance.Tables.{new_date}
use jimpitan.Jimpitan.Mode.{assert_bulk_total_amount, assert_collection_mode_submission_ready}
use jimpitan.Jimpitan.Tables.{
  is_editable, is_submitted, collection_at, items_of, in_progress_from, assert_editable_status,
  update_collections, calculate_paid_total,
}
use jimpitan.Jimpitan.Collections.{parse_decimal, updated_note, finish_update, on_collection}
use jimpitan.Jimpitan.Workflow.{is_bulk}

module _ (P : Platform) where
  unfoldable pub set_bulk_found :
      String
      → String
      → SetBulkCollectionTotalCommand
      → AuthPrincipal
      → FinanceRequestMeta
      → CollectionRow
      → Tx (Option CollectionRow)
  set_bulk_found rt_id id input actor meta before = do
    assert_editable_status before.status
    throw_if (not (is_bulk before.collection_mode))
        (bad_request "Only BULK_TOTAL collections accept session total input.")
    assert_bulk_total_amount input.total_amount
    total ← parse_decimal P input.total_amount
    count ←
        update_collections P
          (λ c. collection_at rt_id id c && is_editable c.status && is_bulk c.collection_mode)
          (λ c. record c {
            total_amount = total;
            note = updated_note input.note before.note;
            status = in_progress_from before.status;
            updated_by_id = some actor.user_id;
          })
    finish_update P rt_id id count "COLLECTION_BULK_TOTAL_CHANGED" actor meta

  unfoldable pub set_bulk_collection_total :
      String
      → String
      → SetBulkCollectionTotalCommand
      → AuthPrincipal
      → FinanceRequestMeta
      → Tx (Option CollectionRow)
  set_bulk_collection_total rt_id id input actor meta =
      transaction P (on_collection P rt_id id (set_bulk_found rt_id id input actor meta))

  unfoldable pub item_count : String → String → Tx ℕ
  item_count rt_id id = gets (λ s. length (P.find_many (items_of rt_id id) s.items))

  -- `_count.items` of a bulk collection, the count of the tenant's items of another.
  unfoldable pub validation_count : String → String → CollectionRow → Tx ℕ
  validation_count rt_id id before =
      if is_bulk before.collection_mode
      then gets (λ s. length (P.find_many (λ i. i.collection_id == before.id) s.items))
      else item_count rt_id id

  -- The total that a submission stores.
  unfoldable pub submission_total : String → String → CollectionRow → Tx ℤ
  submission_total rt_id id before =
      if is_bulk before.collection_mode
      then return before.total_amount
      else calculate_paid_total P rt_id id

  abbrev pub with_submission : String → ℕ → ℤ → AuthPrincipal → CollectionRow → CollectionRow
  with_submission request_id at total actor c = record c {
    status = CollectionStatus.submitted;
    submit_request_id = some request_id;
    submitted_at = some at;
    total_amount = total;
    updated_by_id = some actor.user_id;
  }

  unfoldable pub submit_found :
      String
      → String
      → String
      → AuthPrincipal
      → FinanceRequestMeta
      → CollectionRow
      → Tx (Option CollectionRow)
  submit_found rt_id id request_id actor meta before = do
    assert_editable_status before.status
    items ← item_count rt_id id
    total ← submission_total rt_id id before
    assert_collection_mode_submission_ready before.collection_mode (P.decimal_text total) items
    at ← new_date P
    count ←
        update_collections P (λ c. collection_at rt_id id c && is_editable c.status)
          (with_submission request_id at total actor)
    finish_update P rt_id id count "COLLECTION_SUBMITTED" actor meta

  unfoldable pub submit_collection :
      String → String → String → AuthPrincipal → FinanceRequestMeta → Tx (Option CollectionRow)
  submit_collection rt_id id request_id actor meta =
      transaction P (on_collection P rt_id id (submit_found rt_id id request_id actor meta))

  -- The schedule of a validated collection is completed. `update` throws where it finds no row.
  unfoldable pub complete_schedule : Option String → AuthPrincipal → Tx (Unit {0})
  complete_schedule schedule_id actor = elim (given schedule_id) [
    | none ↦ return tt
    | some schedule ↦ do
      at ← new_date P
      count ←
          gets (λ s. P.update_count (λ (r : ScheduleRow). r.id == schedule) s.directory.schedules)
      throw_if (ltb count 1) (known_request other_code [])
      modify (λ s. record s {
        directory = record (s.directory) {
          schedules =
              P.update_many (λ (r : ScheduleRow). r.id == schedule)
                (λ r. record r {
                  status = ScheduleStatus.completed;
                  completed_at = some at;
                  updated_by_id = some actor.user_id;
                })
                s.directory.schedules;
        };
      })
  ]

  abbrev pub with_validation : Option String → ℕ → AuthPrincipal → CollectionRow → CollectionRow
  with_validation note at actor c = record c {
    status = CollectionStatus.validated;
    validated_by_id = some actor.user_id;
    validated_at = some at;
    validation_note = note;
    updated_by_id = some actor.user_id;
  }

  unfoldable pub validate_found :
      String
      → String
      → Option String
      → AuthPrincipal
      → FinanceRequestMeta
      → CollectionRow
      → Tx (Option CollectionRow)
  validate_found rt_id id note actor meta before = do
    throw_if (not (is_submitted before.status))
        (bad_request "Only submitted collections can be validated.")
    items ← validation_count rt_id id before
    assert_collection_mode_submission_ready before.collection_mode
        (P.decimal_text before.total_amount) items
    at ← new_date P
    count ←
        update_collections P (λ c. collection_at rt_id id c && is_submitted c.status)
          (with_validation note at actor)
    complete_schedule before.schedule_id actor
    finish_update P rt_id id count "COLLECTION_VALIDATED" actor meta

  unfoldable pub validate_collection :
      String
      → String
      → Option String
      → AuthPrincipal
      → FinanceRequestMeta
      → Tx (Option CollectionRow)
  validate_collection rt_id id note actor meta =
      transaction P (on_collection P rt_id id (validate_found rt_id id note actor meta))

  unfoldable pub reject_found :
      String
      → String
      → String
      → AuthPrincipal
      → FinanceRequestMeta
      → CollectionRow
      → Tx (Option CollectionRow)
  reject_found rt_id id reason actor meta before = do
    throw_if (not (is_submitted before.status))
        (bad_request "Only submitted collections can be rejected.")
    at ← new_date P
    count ←
        update_collections P (λ c. collection_at rt_id id c && is_submitted c.status)
          (λ c. record c {
            status = CollectionStatus.rejected;
            rejected_by_id = some actor.user_id;
            rejected_at = some at;
            rejection_reason = some reason;
            updated_by_id = some actor.user_id;
          })
    finish_update P rt_id id count "COLLECTION_REJECTED" actor meta

  unfoldable pub reject_collection :
      String → String → String → AuthPrincipal → FinanceRequestMeta → Tx (Option CollectionRow)
  reject_collection rt_id id reason actor meta =
      transaction P (on_collection P rt_id id (reject_found rt_id id reason actor meta))
