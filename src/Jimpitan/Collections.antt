-- ===== src/Jimpitan/Collections.antt =====
-- Creating, changing, starting and cancelling a collection
-- (apps/api/src/modules/jimpitan/infrastructure/prisma-jimpitan.repository.ts).
use jimpitan.Base.{
  ℕ, String, ◌==◌, Bool, true, false, not, ◌&&◌, ◌||◌, Option, none, some, is_none, otherwise,
  given, if◌then◌else◌,
}
use jimpitan.Base.Int.{ℤ, pos}
use jimpitan.Finance.Schema.{
  CollectionMode, per_house, CollectionStatus, AuthPrincipal, FinanceRequestMeta,
}
use jimpitan.Jimpitan.Schema.{
  CollectionRow, CreateCollectionCommand, UpdateCollectionCommand, Field, left_out, to_null, value,
}
use jimpitan.Finance.Platform.{Platform}
use jimpitan.Finance.Monad.{
  bad_request, decimal_error, Tx, return, gets, catch, require, throw_if, transaction, ◌>>=◌, ◌>>◌,
}
use jimpitan.Finance.Tables.{audit_entry, new_date, new_id, write_audit}
use jimpitan.Finance.Retry.{throw_known_conflict}
use jimpitan.Jimpitan.Mode.{default_collection_mode}
use jimpitan.Jimpitan.Tables.{
  is_editable, is_startable, is_validated_status, collection_at, area_of, assert_editable_status,
  assert_single_state_update, find_collection_in_transaction,
  find_collection_in_transaction_or_throw, update_collections, create_collection_row,
  assert_no_active_duplicate_in_transaction, assert_officer_assignable_in_transaction,
  assert_area_assignable_in_transaction, find_or_create_schedule,
}

abbrev pub given_field : Field String → Option String
given_field (value v) = some v
given_field _ = none

abbrev pub is_left_out : Field String → Bool
is_left_out left_out = true
is_left_out _ = false

abbrev pub is_per_house : Option CollectionMode → Bool
is_per_house (some per_house) = true
is_per_house _ = false

-- `input.note === undefined ? {} : { note: input.note }`
abbrev pub updated_note : Field String → Option String → Option String
updated_note left_out old = old
updated_note to_null old = none
updated_note (value v) old = some v

-- The route of an update: the given area, or the one that the collection has.
abbrev pub updated_area : Field String → Option String → Option String
updated_area left_out old = old
updated_area to_null old = none
updated_area (value v) old = some v

module _ (P : Platform) where
  -- `new Prisma.Decimal(text)`
  unfoldable pub parse_decimal : String → Tx ℤ
  parse_decimal text = require (P.decimal text) decimal_error

  -- A truthy text of a new collection, else 0.
  unfoldable pub initial_total : Option String → Tx ℤ
  initial_total total = elim (given total) [
    | none ↦ return (pos 0)
    | some text ↦ parse_decimal text
  ]

  unfoldable pub create_collection_body :
      String → CreateCollectionCommand → AuthPrincipal → FinanceRequestMeta → Tx CollectionRow
  create_collection_body rt_id input actor meta = do
    assert_officer_assignable_in_transaction P rt_id input.officer_membership_id
    assert_area_assignable_in_transaction P rt_id input.area_id
    assert_no_active_duplicate_in_transaction P rt_id input.collection_date input.area_id none
    schedule_id ←
        find_or_create_schedule P rt_id input.officer_membership_id input.collection_date
          input.area_id actor.user_id
    total_amount ← initial_total input.total_amount
    id ← new_id P
    collection ← create_collection_row P (record {
      id = id;
      rt_id = rt_id;
      schedule_id = some schedule_id;
      officer_membership_id = input.officer_membership_id;
      collection_date = input.collection_date;
      collection_mode = otherwise input.collection_mode default_collection_mode;
      status = CollectionStatus.draft;
      note = input.note;
      total_amount = total_amount;
      submit_request_id = none;
      submitted_at = none;
      validated_by_id = none;
      validated_at = none;
      validation_note = none;
      rejected_by_id = none;
      rejected_at = none;
      rejection_reason = none;
      cancelled_by_id = none;
      cancelled_at = none;
      cancellation_reason = none;
      updated_by_id = some actor.user_id;
    })
    write_audit P
        (audit_entry rt_id actor meta "COLLECTION_CREATED" "jimpitan_collection" collection.id)
    write_audit P (
        audit_entry rt_id actor meta "COLLECTION_OFFICER_ASSIGNED" "jimpitan_collection"
          collection.id)
    return collection

  unfoldable pub create_collection :
      String → CreateCollectionCommand → AuthPrincipal → FinanceRequestMeta → Tx CollectionRow
  create_collection rt_id input actor meta =
      catch (transaction P (create_collection_body rt_id input actor meta)) (λ e.
        throw_known_conflict e
          "Collection could not be created because a duplicate route, schedule, or request key already exists.")

  -- After an update of the collection: one row, the row read back, the audit log.
  unfoldable pub finish_update :
      String → String → ℕ → String → AuthPrincipal → FinanceRequestMeta → Tx (Option CollectionRow)
  finish_update rt_id id count action actor meta = do
    assert_single_state_update count
    after ← find_collection_in_transaction_or_throw P rt_id id
    write_audit P (audit_entry rt_id actor meta action "jimpitan_collection" id)
    return (some after)

  -- The total that an update writes, if it writes one.
  unfoldable pub updated_total : UpdateCollectionCommand → Tx (Option ℤ)
  updated_total input = elim (input.total_amount) [
    | value text ↦ do v ← parse_decimal text; return (some v)
    | _ ↦ return (if is_per_house input.collection_mode then some (pos 0) else none)
  ]

  abbrev pub with_update :
      UpdateCollectionCommand
      → AuthPrincipal
      → String
      → String
      → CollectionMode
      → String
      → Option ℤ
      → CollectionRow
      → CollectionRow
  with_update input actor officer date mode schedule_id total c = record c {
    officer_membership_id = officer;
    collection_date = date;
    schedule_id = some schedule_id;
    collection_mode = mode;
    total_amount = otherwise total c.total_amount;
    note = updated_note input.note c.note;
    updated_by_id = some actor.user_id;
  }

  unfoldable pub update_found :
      String
      → String
      → UpdateCollectionCommand
      → AuthPrincipal
      → FinanceRequestMeta
      → CollectionRow
      → Tx (Option CollectionRow)
  update_found rt_id id input actor meta before = do
    assert_editable_status before.status
    let officer = otherwise input.officer_membership_id before.officer_membership_id
    let date = otherwise input.collection_date before.collection_date
    let mode = otherwise input.collection_mode before.collection_mode
    old_area ← gets (λ s. area_of P s.directory before)
    let area_id = updated_area input.area_id old_area
    elim (given input.officer_membership_id) [
      | none ↦ return tt
      | some m ↦ assert_officer_assignable_in_transaction P rt_id m
    ]
    assert_area_assignable_in_transaction P rt_id area_id
    if not (is_none (given input.officer_membership_id))
          || not (is_none (given input.collection_date))
          || not (is_left_out input.area_id)
        then assert_no_active_duplicate_in_transaction P rt_id date area_id (some id)
        else return tt
    schedule_id ← find_or_create_schedule P rt_id officer date area_id actor.user_id
    total ← updated_total input
    count ←
        update_collections P (λ c. collection_at rt_id id c && is_editable c.status)
          (with_update input actor officer date mode schedule_id total)
    assert_single_state_update count
    after ← find_collection_in_transaction_or_throw P rt_id id
    write_audit P (audit_entry rt_id actor meta "COLLECTION_UPDATED" "jimpitan_collection" id)
    if before.officer_membership_id == after.officer_membership_id
        then return tt
        else write_audit P
            (audit_entry rt_id actor meta "COLLECTION_OFFICER_ASSIGNED" "jimpitan_collection" id)
    return (some after)

  -- `null` where the tenant has no such collection.
  unfoldable pub on_collection :
      String → String → (CollectionRow → Tx (Option CollectionRow)) → Tx (Option CollectionRow)
  on_collection rt_id id step = do
    found ← find_collection_in_transaction P rt_id id
    elim found [ none ↦ return none | some before ↦ step before ]

  unfoldable pub update_collection :
      String
      → String
      → UpdateCollectionCommand
      → AuthPrincipal
      → FinanceRequestMeta
      → Tx (Option CollectionRow)
  update_collection rt_id id input actor meta =
      catch (transaction P (on_collection rt_id id (update_found rt_id id input actor meta))) (λ e.
        throw_known_conflict e
          "Collection could not be updated because a duplicate route, schedule, or request key already exists.")

  abbrev pub set_status : CollectionStatus → AuthPrincipal → CollectionRow → CollectionRow
  set_status status actor c = record c { status = status; updated_by_id = some actor.user_id }

  -- `transitionCollection` with the input of `startCollection`.
  unfoldable pub start_found :
      String
      → String
      → AuthPrincipal
      → FinanceRequestMeta
      → CollectionRow
      → Tx (Option CollectionRow)
  start_found rt_id id actor meta before = do
    throw_if (not (is_startable before.status))
        (bad_request "Collection cannot transition from its current status.")
    count ←
        update_collections P (λ c. collection_at rt_id id c && is_startable c.status)
          (set_status CollectionStatus.in_progress actor)
    finish_update rt_id id count "COLLECTION_STARTED" actor meta

  unfoldable pub start_collection :
      String → String → AuthPrincipal → FinanceRequestMeta → Tx (Option CollectionRow)
  start_collection rt_id id actor meta =
      transaction P (on_collection rt_id id (start_found rt_id id actor meta))

  unfoldable pub cancel_found :
      String
      → String
      → String
      → AuthPrincipal
      → FinanceRequestMeta
      → CollectionRow
      → Tx (Option CollectionRow)
  cancel_found rt_id id reason actor meta before = do
    throw_if (is_validated_status before.status)
        (bad_request "Validated collections cannot be cancelled.")
    at ← new_date P
    count ←
        update_collections P (λ c. collection_at rt_id id c && not (is_validated_status c.status))
          (λ c. record c {
            status = CollectionStatus.cancelled;
            cancelled_by_id = some actor.user_id;
            cancelled_at = some at;
            cancellation_reason = some reason;
            updated_by_id = some actor.user_id;
          })
    finish_update rt_id id count "COLLECTION_CANCELLED" actor meta

  unfoldable pub cancel_collection :
      String → String → String → AuthPrincipal → FinanceRequestMeta → Tx (Option CollectionRow)
  cancel_collection rt_id id reason actor meta =
      transaction P (on_collection rt_id id (cancel_found rt_id id reason actor meta))
