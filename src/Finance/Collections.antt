-- ===== src/Finance/Collections.antt =====
-- Posting a validated collection to finance: `postValidatedCollection`, `resolveCollectionPostingAmount`
-- and the default account and category of
-- apps/api/src/modules/finance/infrastructure/prisma-finance.repository.ts.
use Prim.Native.String.{◌++◌ as ◌<>◌}
use jimpitan.Base.{
  ℕ, ◌%◌, String, ◌==◌, Bool, true, false, not, ◌&&◌, ◌||◌, Option, none, some, ltb, is_none,
  otherwise, given, same_text, if◌then◌else◌,
}
use jimpitan.Base.Int.{ℤ, pos, pos_part, ltb_ℤ, leb_ℤ, ◌==ℤ◌}
use jimpitan.Finance.Schema.{
  income, TransactionStatus, CollectionMode, bulk_total, CollectionStatus, CollectionItemStatus,
  paid, AuthPrincipal, CashAccountRow, CategoryRow, TransactionRow, LedgerRow,
  PostValidatedCollectionCommand,
}
use jimpitan.Jimpitan.Schema.{CollectionRow, CollectionItemRow}
use jimpitan.Finance.Platform.{Platform}
use jimpitan.Finance.Monad.{bad_request, Tx, return, throw, gets, throw_if, ◌>>=◌, ◌>>◌}
use jimpitan.Finance.Tables.{same_type, new_id, create_account, create_category}
use jimpitan.Finance.Guards.{
  find_active_cash_account_in_transaction, find_active_category_in_transaction,
}

pub record SourceCollectionPostingResult : Type 0 where
  pub collection_id : String
  pub collection_mode : Option CollectionMode
  pub collection_total_amount : Option ℤ
  pub transaction : TransactionRow
  pub ledger : LedgerRow

abbrev pub is_bulk_total : CollectionMode → Bool
is_bulk_total bulk_total = true
is_bulk_total _ = false

abbrev pub is_paid : CollectionItemStatus → Bool
is_paid paid = true
is_paid _ = false

abbrev pub is_validated_collection : CollectionStatus → Bool
is_validated_collection CollectionStatus.validated = true
is_validated_collection _ = false

-- `isPositiveIntegerCurrency`: a stored amount prints with no point exactly if it is whole.
abbrev pub is_positive_integer_currency : ℤ → Bool
is_positive_integer_currency v = ltb_ℤ (pos 0) v && ltb (pos_part v % 100) 1

-- { rtId, collectionId, status: PAID }
abbrev pub paid_items : String → String → CollectionItemRow → Bool
paid_items rt_id collection_id i =
    i.rt_id == rt_id && i.collection_id == collection_id && is_paid i.status

module _ (P : Platform) where
  unfoldable pub resolve_collection_posting_amount : String → CollectionRow → Tx ℤ
  resolve_collection_posting_amount rt_id collection =
      if is_bulk_total collection.collection_mode
      then (do
        throw_if (not (is_positive_integer_currency collection.total_amount)) (
            bad_request
              "Bulk total collection amount must be a positive integer before finance posting.")
        return collection.total_amount)
      else do
        paid_total ← gets (λ s.
            otherwise (P.sum (λ i. i.amount) (paid_items rt_id collection.id) s.items) (pos 0))
        throw_if (not (paid_total ==ℤ collection.total_amount) || leb_ℤ paid_total (pos 0)) (
            bad_request "Collection paid item total does not match the validated collection total.")
        return paid_total

  unfoldable pub find_or_create_default_cash_account_in_transaction :
      String → String → Tx CashAccountRow
  find_or_create_default_cash_account_in_transaction rt_id actor_user_id = do
    existing ← gets (λ s.
        P.find_first (λ a. a.rt_id == rt_id && a.key == "main" && is_none a.deleted_at) s.accounts)
    elim existing [
      | some a ↦
          if not a.is_active
          then throw (bad_request "Default cash account is archived.")
          else return a
      | none ↦ do
        id ← new_id P
        create_account P (record {
          id = id;
          rt_id = rt_id;
          key = "main";
          name = "Kas Utama";
          currency = "IDR";
          current_balance = pos 0;
          version = 1;
          is_active = true;
          updated_by_id = some actor_user_id;
          deleted_by_id = none;
          deleted_at = none;
        })
    ]

  unfoldable pub find_or_create_jimpitan_category_in_transaction : String → String → Tx CategoryRow
  find_or_create_jimpitan_category_in_transaction rt_id actor_user_id = do
    existing ← gets (λ s.
        P.find_first
          (λ c. same_text c.rt_id (some rt_id) && c.key == "jimpitan" && same_type c.type income)
          s.categories)
    elim existing [
      | some c ↦
          if not c.is_active || not (same_text c.rt_id (some rt_id))
          then throw (bad_request "Jimpitan transaction category is archived.")
          else return c
      | none ↦ do
        id ← new_id P
        create_category P (record {
          id = id;
          rt_id = some rt_id;
          type = income;
          key = "jimpitan";
          name = "Jimpitan";
          is_system = true;
          is_active = true;
          updated_by_id = some actor_user_id;
          deleted_by_id = none;
          deleted_at = none;
        })
    ]

  -- The account and the category of the command, or the defaults.
  unfoldable pub posting_account :
      String → PostValidatedCollectionCommand → AuthPrincipal → Tx CashAccountRow
  posting_account rt_id command actor = elim (given command.cash_account_id) [
    | some id ↦ find_active_cash_account_in_transaction P rt_id id
    | none ↦ find_or_create_default_cash_account_in_transaction rt_id actor.user_id
  ]

  unfoldable pub posting_category :
      String → PostValidatedCollectionCommand → AuthPrincipal → Tx CategoryRow
  posting_category rt_id command actor = elim (given command.category_id) [
    | some id ↦ find_active_category_in_transaction P rt_id id income
    | none ↦ find_or_create_jimpitan_category_in_transaction rt_id actor.user_id
  ]

  -- The transaction that stands for the collection, validated from the start.
  abbrev pub collection_transaction :
      String
      → PostValidatedCollectionCommand
      → AuthPrincipal
      → CollectionRow
      → ℤ
      → String
      → String
      → String
      → ℕ
      → TransactionRow
  collection_transaction rt_id command actor collection amount account_id category_id id now =
      record {
        id = id;
        rt_id = rt_id;
        cash_account_id = account_id;
        category_id = category_id;
        source_collection_id = some command.collection_id;
        reference_number = none;
        idempotency_key =
            some (otherwise command.idempotency_key ("collection:" <> command.collection_id));
        external_ref = none;
        type = income;
        status = TransactionStatus.validated;
        amount = amount;
        description = "Jimpitan collection " <> command.collection_id;
        transaction_date = collection.collection_date;
        created_by_id = actor.user_id;
        updated_by_id = some actor.user_id;
        validated_by_id = some actor.user_id;
        validated_at = some now;
        validation_note = some "Validated jimpitan collection posted to finance.";
        rejected_by_id = none;
        rejected_at = none;
        rejection_reason = none;
        posted_by_id = none;
        posted_at = none;
        voided_by_id = none;
        voided_at = none;
        deleted_at = none;
      }
