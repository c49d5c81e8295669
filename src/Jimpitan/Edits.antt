-- ===== src/Jimpitan/Edits.antt =====
-- The history relation for creating and changing a collection
-- (apps/api/src/modules/jimpitan/infrastructure/prisma-jimpitan.repository.ts).
use jimpitan.Base.{
  String, true, false, not, ◌&&◌, ◌||◌, none, some, List, [], ◌∷◌, ◌≡◌, refl, sym, arith, given,
  is_none, otherwise, subst, ◌==◌,
}
use jimpitan.Finance.Schema.{AuthPrincipal, FinanceRequestMeta}
use jimpitan.Jimpitan.Schema.{
  CollectionRow, CollectionItemCommand, CreateCollectionCommand, UpdateCollectionCommand,
  SetBulkCollectionTotalCommand,
}
use jimpitan.Finance.Platform.{Platform}
use jimpitan.Finance.Tables.{new_id, audit_entry}
use jimpitan.Finance.History.{CollectionKept, CollectionPath, History-refl, same-History}
use jimpitan.Finance.Keeps.{
  Keeps, bind, and_then, option-Keeps, if-Keeps, reads, return-Keeps, gets-Keeps, throw_if-Keeps,
  checked, catch-Keeps, transaction-Keeps,
}
use jimpitan.Jimpitan.Mode.{assert_per_house_items_allowed, assert_bulk_total_amount}
use jimpitan.Jimpitan.Tables.{
  is_editable, assert_editable_status, assert_single_state_update, area_of, calculate_paid_total,
  collection_at,
}
use jimpitan.Jimpitan.Collections.{
  is_left_out, with_update, updated_area, create_collection_body, create_collection, initial_total,
  updated_total, update_found, update_collection, parse_decimal,
}
use jimpitan.Jimpitan.Workflow.{
  is_bulk, assert_items_assignable_in_transaction, upsert_item, upsert_items, store_total,
  upsert_found, upsert_collection_items,
}
use jimpitan.Jimpitan.Review.{set_bulk_found, set_bulk_collection_total}
use jimpitan.Finance.Statements.{new_id-Keeps, write_audit-Keeps, conflict-Keeps}
use jimpitan.Jimpitan.Keeps.{
  on_collection-Keeps, finish_update-Keeps, find_or_throw-Keeps, update_collections-Keeps,
  create_collection_row-Keeps, find_or_create_schedule-Keeps, assert_no_active_duplicate-Keeps,
  assert_officer-Keeps, assert_area-Keeps, parse_decimal-Keeps,
}
use jimpitan.Jimpitan.Moves.{edited_status, changed_to, editable_open}

module _ (P : Platform) where
  pub create_collection-Keeps :
      (rt_id : String) (input : CreateCollectionCommand) (actor : AuthPrincipal)
      (meta : FinanceRequestMeta)
      → Keeps (create_collection P rt_id input actor meta)
  unfolding create_collection create_collection_body initial_total parse_decimal
  create_collection-Keeps rt_id input actor meta =
      catch-Keeps
        (transaction-Keeps P (
          and_then (assert_officer-Keeps P rt_id input.officer_membership_id) (
            and_then (assert_area-Keeps P rt_id input.area_id) (
              and_then
                (assert_no_active_duplicate-Keeps P rt_id input.collection_date input.area_id none)
                (bind
                  (find_or_create_schedule-Keeps P rt_id input.officer_membership_id
                    input.collection_date input.area_id actor.user_id)
                  (λ schedule_id.
                    bind (reads {m = initial_total P input.total_amount} (λ s. ground arith))
                      (λ total. bind (new_id-Keeps P) (λ id.
                        bind (create_collection_row-Keeps P _) (λ c.
                          and_then (write_audit-Keeps P _)
                            (and_then (write_audit-Keeps P _) (return-Keeps c)))))))))))
        (λ e. conflict-Keeps e _)

  module _ (rt_id id : String) (actor : AuthPrincipal) (meta : FinanceRequestMeta) where
    -- An update leaves the status.
    left_open :
        (c d : CollectionRow)
        → d.id ≡ c.id
        → d.rt_id ≡ c.rt_id
        → d.status ≡ c.status
        → is_editable c.status ≡ true
        → CollectionKept c d
    left_open c d i r e h =
        changed_to c d i r (subst (CollectionPath c.status) (sym e) CollectionPath.stay)
          (editable_open c.status h)

    -- The part of an update after its checks.
    update_found-Keeps :
        (input : UpdateCollectionCommand) (c : CollectionRow)
        → Keeps (update_found P rt_id id input actor meta c)
    unfolding update_found updated_total parse_decimal assert_editable_status
        assert_single_state_update
    update_found-Keeps input before =
        let officer = otherwise input.officer_membership_id before.officer_membership_id in
        let date = otherwise input.collection_date before.collection_date in
        let mode = otherwise input.collection_mode before.collection_mode in
        let routed =
          not (is_none (given input.officer_membership_id))
          || not (is_none (given input.collection_date))
          || not (is_left_out input.area_id) in
        and_then (reads {m = assert_editable_status before.status} (λ s. refl)) (
          bind (gets-Keeps (λ s. area_of P s.directory before)) (λ old_area.
            let area_id = updated_area input.area_id old_area in
            and_then
              (option-Keeps (given input.officer_membership_id) (return-Keeps tt)
                (assert_officer-Keeps P rt_id))
              (and_then (assert_area-Keeps P rt_id area_id) (
                and_then
                  (if-Keeps routed (assert_no_active_duplicate-Keeps P rt_id date area_id (some id))
                    (return-Keeps tt))
                  (bind (find_or_create_schedule-Keeps P rt_id officer date area_id actor.user_id)
                    (λ schedule_id.
                      bind (reads {m = updated_total P input} (λ s. ground arith)) (λ total.
                        let changed =
                          with_update P input actor officer date mode schedule_id total in
                        bind
                          (update_collections-Keeps P
                            (λ c. collection_at rt_id id c && is_editable c.status) changed
                            (λ c h. left_open c (changed c) refl refl refl (ground arith)))
                          (λ count.
                            and_then (reads {m = assert_single_state_update count} (λ s. refl)) (
                              bind (find_or_throw-Keeps P rt_id id) (λ after.
                                and_then
                                  (write_audit-Keeps P (
                                    audit_entry rt_id actor meta "COLLECTION_UPDATED"
                                      "jimpitan_collection" id))
                                  (and_then
                                    (if-Keeps
                                      (before.officer_membership_id == after.officer_membership_id)
                                      (return-Keeps tt)
                                      (write_audit-Keeps P (
                                        audit_entry rt_id actor meta "COLLECTION_OFFICER_ASSIGNED"
                                          "jimpitan_collection" id)))
                                    (return-Keeps (some after)))))))))))))

    pub update_collection-Keeps :
        (input : UpdateCollectionCommand) → Keeps (update_collection P rt_id id input actor meta)
    unfolding update_collection
    update_collection-Keeps input =
        catch-Keeps
          (transaction-Keeps P (on_collection-Keeps P rt_id id _ (update_found-Keeps input)))
          (λ e. conflict-Keeps e _)

    upsert_item-Keeps : (i : CollectionItemCommand) → Keeps (upsert_item P rt_id id actor i)
    unfolding upsert_item parse_decimal new_id
    upsert_item-Keeps i = record {
      at = λ s.
          same-History s (upsert_item P rt_id id actor i s).1 (ground arith) (ground arith)
            (ground arith) (ground arith) (ground arith) (ground arith);
    }

    upsert_items-Keeps :
        (items : List CollectionItemCommand) → Keeps (upsert_items P rt_id id actor items)
    unfolding upsert_items
    upsert_items-Keeps [] = return-Keeps tt
    upsert_items-Keeps (item ∷ items) = and_then (upsert_item-Keeps item) (upsert_items-Keeps items)

    paid_total-Keeps : Keeps (calculate_paid_total P rt_id id)
    unfolding calculate_paid_total
    paid_total-Keeps = record { at = History-refl }

    store_total-Keeps :
        (c : CollectionRow)
        → not (is_editable c.status) ≡ false
        → Keeps (store_total P rt_id id actor meta c)
    unfolding store_total
    store_total-Keeps before editable = bind paid_total-Keeps (λ total.
        bind
          (update_collections-Keeps P (λ c. collection_at rt_id id c && is_editable c.status) _
            (λ c h.
              changed_to c _ refl refl
                (edited_status c.status before.status (ground arith) editable)
                (editable_open c.status (ground arith))))
          (λ count. finish_update-Keeps P rt_id id count _ actor meta))

    upsert_found-Keeps :
        (items : List CollectionItemCommand) (c : CollectionRow)
        → Keeps (upsert_found P rt_id id items actor meta c)
    unfolding upsert_found assert_editable_status assert_items_assignable_in_transaction
        assert_per_house_items_allowed
    upsert_found-Keeps items before = checked (not (is_editable before.status)) _ (λ editable.
        and_then (reads {m = assert_per_house_items_allowed before.collection_mode} (λ s. refl)) (
          bind (gets-Keeps (λ s. area_of P s.directory before)) (λ area_id.
            and_then
              (reads {m = assert_items_assignable_in_transaction P rt_id area_id items}
                (λ s. ground arith))
              (and_then (upsert_items-Keeps items) (store_total-Keeps before editable)))))

    pub upsert_collection_items-Keeps :
        (items : List CollectionItemCommand)
        → Keeps (upsert_collection_items P rt_id id items actor meta)
    unfolding upsert_collection_items
    upsert_collection_items-Keeps items =
        catch-Keeps
          (transaction-Keeps P (on_collection-Keeps P rt_id id _ (upsert_found-Keeps items)))
          (λ e. conflict-Keeps e _)

    set_bulk_found-Keeps :
        (input : SetBulkCollectionTotalCommand) (c : CollectionRow)
        → Keeps (set_bulk_found P rt_id id input actor meta c)
    unfolding set_bulk_found assert_editable_status assert_bulk_total_amount
    set_bulk_found-Keeps input before = checked (not (is_editable before.status)) _ (λ editable.
        and_then (throw_if-Keeps (not (is_bulk before.collection_mode)) _) (
          and_then (reads {m = assert_bulk_total_amount input.total_amount} (λ s. refl)) (
            bind (parse_decimal-Keeps P input.total_amount) (λ total.
              bind
                (update_collections-Keeps P
                  (λ c.
                    collection_at rt_id id c && is_editable c.status && is_bulk c.collection_mode)
                  _
                  (λ c h.
                    changed_to c _ refl refl
                      (edited_status c.status before.status (ground arith) editable)
                      (editable_open c.status (ground arith))))
                (λ count. finish_update-Keeps P rt_id id count _ actor meta)))))

    pub set_bulk_collection_total-Keeps :
        (input : SetBulkCollectionTotalCommand)
        → Keeps (set_bulk_collection_total P rt_id id input actor meta)
    unfolding set_bulk_collection_total
    set_bulk_collection_total-Keeps input =
        transaction-Keeps P (on_collection-Keeps P rt_id id _ (set_bulk_found-Keeps input))
