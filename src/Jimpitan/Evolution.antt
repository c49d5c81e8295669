-- ===== src/Jimpitan/Evolution.antt =====
-- The history relation for starting, cancelling, submitting, validating and rejecting a collection
-- (apps/api/src/modules/jimpitan/infrastructure/prisma-jimpitan.repository.ts).
use jimpitan.Base.{String, true, not, ◌&&◌, Option, none, some, ◌≡◌, refl, arith}
use jimpitan.Finance.Schema.{CollectionStatus, AuthPrincipal, FinanceRequestMeta}
use jimpitan.Jimpitan.Schema.{CollectionRow}
use jimpitan.Finance.Platform.{Platform}
use jimpitan.Finance.Tables.{new_date}
use jimpitan.Finance.History.{same-History}
use jimpitan.Finance.Keeps.{
  Keeps, bind, and_then, option-Keeps, if-Keeps, reads, return-Keeps, gets-Keeps, throw_if-Keeps,
  transaction-Keeps,
}
use jimpitan.Jimpitan.Mode.{
  assert_bulk_total_amount, assert_collection_mode_submission_ready, assert_per_house_items_allowed,
}
use jimpitan.Jimpitan.Tables.{
  is_editable, is_startable, is_submitted, is_validated_status, assert_editable_status,
  calculate_paid_total, collection_at, assert_single_state_update, find_collection_in_transaction,
  find_collection_in_transaction_or_throw,
}
use jimpitan.Jimpitan.Collections.{
  start_found, start_collection, cancel_found, cancel_collection, set_status,
}
use jimpitan.Jimpitan.Checklist.{
  same_startable, read_checklist, start_checklist, generate_found, generate_checklist,
}
use jimpitan.Jimpitan.Review.{
  item_count, validation_count, submission_total, submit_found, with_submission, with_validation,
  submit_collection, complete_schedule, validate_found, validate_collection, reject_found,
  reject_collection,
}
use jimpitan.Finance.Statements.{new_date-Keeps, write_audit-Keeps}
use jimpitan.Jimpitan.Keeps.{on_collection-Keeps, finish_update-Keeps, update_collections-Keeps}
use jimpitan.Jimpitan.Moves.{
  to_in_progress, to_submitted, to_cancelled, to_validated, to_rejected, changed_to, editable_open,
}

module _ (P : Platform) (rt_id id : String) (actor : AuthPrincipal)
    (meta : FinanceRequestMeta) where
  start_found-Keeps : (c : CollectionRow) → Keeps (start_found P rt_id id actor meta c)
  unfolding start_found
  start_found-Keeps before = and_then (throw_if-Keeps _ _) (
      bind
        (update_collections-Keeps P (λ c. collection_at rt_id id c && is_startable c.status)
          (set_status P CollectionStatus.in_progress actor)
          (λ c h. changed_to c _ refl refl (to_in_progress c.status (ground arith)) (ground arith)))
        (λ count. finish_update-Keeps P rt_id id count _ actor meta))

  pub start_collection-Keeps : Keeps (start_collection P rt_id id actor meta)
  unfolding start_collection
  start_collection-Keeps = transaction-Keeps P (on_collection-Keeps P rt_id id _ start_found-Keeps)

  cancel_found-Keeps :
      (reason : String) (c : CollectionRow) → Keeps (cancel_found P rt_id id reason actor meta c)
  unfolding cancel_found
  cancel_found-Keeps reason before = and_then (throw_if-Keeps _ _) (
      bind (new_date-Keeps P) (λ at.
        bind
          (update_collections-Keeps P
            (λ c. collection_at rt_id id c && not (is_validated_status c.status)) _
            (λ c h. changed_to c _ refl refl (to_cancelled c.status (ground arith)) (ground arith)))
          (λ count. finish_update-Keeps P rt_id id count _ actor meta)))

  pub cancel_collection-Keeps :
      (reason : String) → Keeps (cancel_collection P rt_id id reason actor meta)
  unfolding cancel_collection
  cancel_collection-Keeps reason =
      transaction-Keeps P (on_collection-Keeps P rt_id id _ (cancel_found-Keeps reason))

  complete_schedule-Keeps :
      (schedule_id : Option String) → Keeps (complete_schedule P schedule_id actor)
  unfolding complete_schedule new_date
  complete_schedule-Keeps schedule_id = record {
    at = λ s.
        same-History s (complete_schedule P schedule_id actor s).1 (ground arith) (ground arith)
          (ground arith) (ground arith) (ground arith) (ground arith);
  }

  validate_found-Keeps :
      (note : Option String) (c : CollectionRow)
      → Keeps (validate_found P rt_id id note actor meta c)
  unfolding validate_found validation_count item_count assert_collection_mode_submission_ready
      assert_bulk_total_amount
  validate_found-Keeps note before = and_then (throw_if-Keeps _ _) (
      bind (reads {m = validation_count P rt_id id before} (λ s. ground arith)) (λ items.
        and_then
          (reads
            {m = assert_collection_mode_submission_ready before.collection_mode
              (P.decimal_text before.total_amount) items}
            (λ s. ground arith))
          (bind (new_date-Keeps P) (λ at.
            bind
              (update_collections-Keeps P (λ c. collection_at rt_id id c && is_submitted c.status)
                (with_validation P note at actor)
                (λ c h.
                  changed_to c (with_validation P note at actor c) refl refl
                    (to_validated c.status (ground arith)) (ground arith)))
              (λ count.
                and_then (complete_schedule-Keeps before.schedule_id)
                  (finish_update-Keeps P rt_id id count "COLLECTION_VALIDATED" actor meta))))))

  pub validate_collection-Keeps :
      (note : Option String) → Keeps (validate_collection P rt_id id note actor meta)
  unfolding validate_collection
  validate_collection-Keeps note =
      transaction-Keeps P (on_collection-Keeps P rt_id id _ (validate_found-Keeps note))

  reject_found-Keeps :
      (reason : String) (c : CollectionRow) → Keeps (reject_found P rt_id id reason actor meta c)
  unfolding reject_found
  reject_found-Keeps reason before = and_then (throw_if-Keeps _ _) (
      bind (new_date-Keeps P) (λ at.
        bind
          (update_collections-Keeps P (λ c. collection_at rt_id id c && is_submitted c.status) _
            (λ c h. changed_to c _ refl refl (to_rejected c.status (ground arith)) (ground arith)))
          (λ count. finish_update-Keeps P rt_id id count _ actor meta)))

  pub reject_collection-Keeps :
      (reason : String) → Keeps (reject_collection P rt_id id reason actor meta)
  unfolding reject_collection
  reject_collection-Keeps reason =
      transaction-Keeps P (on_collection-Keeps P rt_id id _ (reject_found-Keeps reason))

  submit_found-Keeps :
      (request_id : String) (c : CollectionRow)
      → Keeps (submit_found P rt_id id request_id actor meta c)
  unfolding submit_found submission_total calculate_paid_total item_count
      assert_collection_mode_submission_ready assert_bulk_total_amount
  submit_found-Keeps request_id before =
      and_then
        (reads {m = assert_editable_status before.status}
          (λ s. unfold assert_editable_status in refl))
        (bind (reads {m = item_count P rt_id id} (λ s. refl)) (λ items.
          bind (reads {m = submission_total P rt_id id before} (λ s. ground arith)) (λ total.
            and_then
              (reads
                {m = assert_collection_mode_submission_ready before.collection_mode
                  (P.decimal_text total) items}
                (λ s. ground arith))
              (bind (new_date-Keeps P) (λ at.
                bind
                  (update_collections-Keeps P
                    (λ c. collection_at rt_id id c && is_editable c.status)
                    (with_submission P request_id at total actor)
                    (λ c h.
                      changed_to c (with_submission P request_id at total actor c) refl refl
                        (to_submitted c.status (ground arith))
                        (editable_open c.status (ground arith))))
                  (λ count.
                    finish_update-Keeps P rt_id id count "COLLECTION_SUBMITTED" actor meta))))))

  pub submit_collection-Keeps :
      (request_id : String) → Keeps (submit_collection P rt_id id request_id actor meta)
  unfolding submit_collection
  submit_collection-Keeps request_id =
      transaction-Keeps P (on_collection-Keeps P rt_id id _ (submit_found-Keeps request_id))

  start_checklist-Keeps :
      (status : CollectionStatus) → Keeps (start_checklist P rt_id id status actor)
  unfolding start_checklist assert_single_state_update
  start_checklist-Keeps status =
      if-Keeps (is_startable status)
        (bind
          (update_collections-Keeps P
            (λ c. collection_at rt_id id c && same_startable status c.status)
            (set_status P CollectionStatus.in_progress actor)
            (λ c h.
              changed_to c (set_status P CollectionStatus.in_progress actor c) refl refl
                (to_in_progress c.status (startable-editable status c.status (ground arith)))
                (editable_open c.status (startable-editable status c.status (ground arith)))))
          (λ count. throw_if-Keeps _ _))
        (return-Keeps tt)
    where
      startable-editable :
          (a b : CollectionStatus) → same_startable a b ≡ true → is_editable b ≡ true
      startable-editable a b h = ground arith

  generate_found-Keeps : (c : CollectionRow) → Keeps (generate_found P rt_id id actor meta c)
  unfolding generate_found find_collection_in_transaction_or_throw find_collection_in_transaction
      read_checklist assert_per_house_items_allowed
  generate_found-Keeps before =
      and_then
        (reads {m = assert_editable_status before.status}
          (λ s. unfold assert_editable_status in refl))
        (and_then (throw_if-Keeps _ _) (
          and_then (start_checklist-Keeps before.status) (
            bind
              (reads {m = find_collection_in_transaction_or_throw P rt_id id} (λ s. ground arith))
              (λ after. and_then (write_audit-Keeps P _) (
                bind (reads {m = read_checklist P rt_id id after} (λ s. refl))
                  (λ checklist. return-Keeps (some checklist)))))))

  pub generate_checklist-Keeps : Keeps (generate_checklist P rt_id id actor meta)
  unfolding generate_checklist find_collection_in_transaction
  generate_checklist-Keeps =
      transaction-Keeps P
        (bind (gets-Keeps _) (λ found. option-Keeps found (return-Keeps none) generate_found-Keeps))
