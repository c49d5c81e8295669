-- ===== src/Finance/Drafts.antt =====
-- Drafts: `createIncomeDraft`, `createExpenseDraft` and what they call in
-- apps/api/src/modules/finance/infrastructure/prisma-finance.repository.ts.
use Prim.Native.Char.{code}
use jimpitan.Base.{
  ℕ, ◌+◌, String, ◌==◌, Bool, true, false, not, ◌&&◌, ◌||◌, none, some, List, [], ◌∷◌, is_none,
  given, leb, same_text, if◌then◌else◌,
}
use jimpitan.Base.Int.{ℤ, ◌==ℤ◌}
use jimpitan.Finance.Schema.{
  TransactionType, income, expense, TransactionStatus, AuthPrincipal, FinanceRequestMeta,
  TransactionRow, CreateFinanceTransactionCommand,
}
use jimpitan.Finance.Platform.{Platform}
use jimpitan.Finance.Monad.{
  bad_request, conflict, known_request, p2002, decimal_error, Error, Tx, return, throw, gets,
  require, catch, throw_if, transaction, ◌>>=◌, ◌>>◌,
}
use jimpitan.Finance.Tables.{
  same_type, with_key, new_id, write_audit, audit_entry, create_transaction,
}
use jimpitan.Finance.Guards.{
  find_active_cash_account_in_transaction, find_active_category_in_transaction,
}
use jimpitan.Finance.Collections.{is_validated_collection}
use jimpitan.Finance.Retry.{throw_known_conflict}

-- The code of a character after `toLowerCase`, for the letters of ASCII.
abbrev folded : ℕ → ℕ
folded n = if leb 65 n && leb n 90 then n + 32 else n

abbrev starts_folded : String → String → Bool
starts_folded s String.[] = true
starts_folded String.[] (String.◌∷◌ d t) = false
starts_folded (String.◌∷◌ c s) (String.◌∷◌ d t) =
    leb (folded (code c)) (code d) && leb (code d) (folded (code c)) && starts_folded s t

-- `field.toLowerCase().includes(word)`
abbrev includes_folded : String → String → Bool
includes_folded String.[] word = starts_folded "" word
includes_folded (String.◌∷◌ c s) word =
    let rest = includes_folded s word in if starts_folded (String.◌∷◌ c s) word then true else rest

abbrev some_includes : List String → String → Bool
some_includes [] word = false
some_includes (f ∷ fields) word = includes_folded f word || some_includes fields word

abbrev pub is_idempotency_unique_conflict : Error → Bool
is_idempotency_unique_conflict (known_request p2002 fields) = some_includes fields "idempotency"
is_idempotency_unique_conflict _ = false

abbrev pub draft_conflict : String
draft_conflict =
    "Transaction could not be created because a duplicate reference, idempotency key, external reference, or source collection exists."

module _ (P : Platform) where
  -- The comparisons before and after that of the amounts, which may throw.
  abbrev pub same_references :
      TransactionRow → CreateFinanceTransactionCommand → TransactionType → Bool
  same_references t command type =
      same_type t.type type
      && t.cash_account_id == command.cash_account_id
      && t.category_id == command.category_id

  abbrev pub same_details : TransactionRow → CreateFinanceTransactionCommand → Bool
  same_details t command =
      t.transaction_date == command.transaction_date
      && t.description == command.description
      && same_text t.reference_number command.reference_number
      && same_text t.external_ref command.external_ref
      && same_text t.source_collection_id command.source_collection_id

  unfoldable pub is_same_request :
      TransactionRow → CreateFinanceTransactionCommand → TransactionType → Tx Bool
  is_same_request t command type =
      if same_references t command type
      then (do
        amount ← require (P.decimal command.amount) decimal_error
        return (t.amount ==ℤ amount && same_details t command))
      else return false

  unfoldable pub assert_idempotent_create_matches :
      TransactionRow
      → CreateFinanceTransactionCommand
      → TransactionType
      → AuthPrincipal
      → FinanceRequestMeta
      → Tx (Unit {0})
  assert_idempotent_create_matches t command type actor meta = do
    same ← is_same_request t command type
    if same then return tt else do
      write_audit P
          (audit_entry t.rt_id actor meta "FINANCE_IDEMPOTENCY_REPLAY_FAILED" "transaction" t.id)
      throw (conflict "Idempotency key already belongs to a different transaction request.")

  -- An existing draft of the key answers the request.
  unfoldable pub replay_draft :
      String
      → CreateFinanceTransactionCommand
      → TransactionType
      → AuthPrincipal
      → FinanceRequestMeta
      → TransactionRow
      → Tx TransactionRow
  replay_draft rt_id command type actor meta existing = do
    assert_idempotent_create_matches existing command type actor meta
    write_audit P
        (audit_entry rt_id actor meta "FINANCE_IDEMPOTENCY_REPLAYED" "transaction" existing.id)
    return existing

  unfoldable pub assert_draft_references_in_transaction :
      String → CreateFinanceTransactionCommand → TransactionType → Tx (Unit {0})
  assert_draft_references_in_transaction rt_id command type = do
    find_active_cash_account_in_transaction P rt_id command.cash_account_id
    find_active_category_in_transaction P rt_id command.category_id type
    elim (given command.source_collection_id) [
      | none ↦ return tt
      | some id ↦ do
        collection ← gets (λ s.
            P.find_first (λ c. c.id == id && c.rt_id == rt_id && is_validated_collection c.status)
              s.collections)
        throw_if (is_none collection)
            (bad_request "Source collection must be validated and belong to the current tenant.")
    ]

  abbrev pub draft_of :
      String
      → CreateFinanceTransactionCommand
      → TransactionType
      → AuthPrincipal
      → String
      → ℤ
      → TransactionRow
  draft_of rt_id command type actor id amount = record {
    id = id;
    rt_id = rt_id;
    cash_account_id = command.cash_account_id;
    category_id = command.category_id;
    source_collection_id = command.source_collection_id;
    reference_number = command.reference_number;
    idempotency_key = command.idempotency_key;
    external_ref = command.external_ref;
    type = type;
    status = TransactionStatus.draft;
    amount = amount;
    description = command.description;
    transaction_date = command.transaction_date;
    created_by_id = actor.user_id;
    updated_by_id = some actor.user_id;
    validated_by_id = none;
    validated_at = none;
    validation_note = none;
    rejected_by_id = none;
    rejected_at = none;
    rejection_reason = none;
    posted_by_id = none;
    posted_at = none;
    voided_by_id = none;
    voided_at = none;
    deleted_at = none;
  }

  -- The function that `createTransactionDraft` hands to `$transaction`.
  unfoldable pub create_draft_body :
      String
      → CreateFinanceTransactionCommand
      → TransactionType
      → AuthPrincipal
      → FinanceRequestMeta
      → Tx TransactionRow
  create_draft_body rt_id command type actor meta = do
    assert_draft_references_in_transaction rt_id command type
    amount ← require (P.decimal command.amount) decimal_error
    id ← new_id P
    t ← create_transaction P (draft_of rt_id command type actor id amount)
    write_audit P (audit_entry rt_id actor meta "TRANSACTION_CREATED" "transaction" t.id)
    return t

  -- The `catch`: another request with the key may have come first.
  unfoldable pub resolve_idempotent_create_conflict :
      String
      → CreateFinanceTransactionCommand
      → TransactionType
      → AuthPrincipal
      → FinanceRequestMeta
      → Error
      → Tx TransactionRow
  resolve_idempotent_create_conflict rt_id command type actor meta error =
      elim (given command.idempotency_key) [
        | none ↦ throw_known_conflict error draft_conflict
        | some key ↦
            if not (is_idempotency_unique_conflict error)
            then throw_known_conflict error draft_conflict
            else do
              existing ← gets (λ s. P.find_first (with_key rt_id key) s.transactions)
              elim existing [
                | none ↦ throw_known_conflict error draft_conflict
                | some t ↦ replay_draft rt_id command type actor meta t
              ]
      ]

  -- The request once no transaction has its key.
  unfoldable pub create_new_draft :
      String
      → CreateFinanceTransactionCommand
      → TransactionType
      → AuthPrincipal
      → FinanceRequestMeta
      → Tx TransactionRow
  create_new_draft rt_id command type actor meta =
      catch (transaction P (create_draft_body rt_id command type actor meta))
        (resolve_idempotent_create_conflict rt_id command type actor meta)

  unfoldable pub create_transaction_draft :
      String
      → TransactionType
      → CreateFinanceTransactionCommand
      → AuthPrincipal
      → FinanceRequestMeta
      → Tx TransactionRow
  create_transaction_draft rt_id type command actor meta = do
    throw_if (not (is_none (given command.source_collection_id))) (
        bad_request
          "Source collection transactions must be posted through the collection posting endpoint.")
    elim (given command.idempotency_key) [
      | none ↦ create_new_draft rt_id command type actor meta
      | some key ↦ do
        existing ← gets (λ s. P.find_first (with_key rt_id key) s.transactions)
        elim existing [
          | none ↦ create_new_draft rt_id command type actor meta
          | some t ↦ replay_draft rt_id command type actor meta t
        ]
    ]

  unfoldable pub create_income_draft :
      String
      → CreateFinanceTransactionCommand
      → AuthPrincipal
      → FinanceRequestMeta
      → Tx TransactionRow
  create_income_draft rt_id command actor meta =
      create_transaction_draft rt_id income command actor meta

  unfoldable pub create_expense_draft :
      String
      → CreateFinanceTransactionCommand
      → AuthPrincipal
      → FinanceRequestMeta
      → Tx TransactionRow
  create_expense_draft rt_id command actor meta =
      create_transaction_draft rt_id expense command actor meta
