-- ===== src/Finance/Lifecycle.antt =====
-- Validating, rejecting and voiding a transaction: `validateTransaction`, `rejectTransaction` and
-- `voidDraftTransaction` of
-- apps/api/src/modules/finance/infrastructure/prisma-finance.repository.ts.
use jimpitan.Base.{String, Bool, not, ◌&&◌, ◌||◌, Option, none, some, if◌then◌else◌}
use jimpitan.Finance.Schema.{TransactionStatus, AuthPrincipal, FinanceRequestMeta, TransactionRow}
use jimpitan.Finance.Platform.{Platform}
use jimpitan.Finance.Monad.{bad_request, Tx, return, throw, transaction, ◌>>=◌, ◌>>◌}
use jimpitan.Finance.Tables.{
  is_draft, is_validated, live_transaction, audit_entry, new_date, write_audit,
  find_transaction_in_transaction, find_transaction_in_transaction_or_throw, update_transactions,
}
use jimpitan.Finance.Posting.{assert_single_mutation}

-- { id, rtId, status: DRAFT, deletedAt: null }
abbrev pub draft_transaction : String → String → TransactionRow → Bool
draft_transaction rt_id id t = live_transaction rt_id id t && is_draft t.status

-- { id, rtId, status: { in: [DRAFT, VALIDATED] }, deletedAt: null }
abbrev pub open_transaction : String → String → TransactionRow → Bool
open_transaction rt_id id t =
    live_transaction rt_id id t && (is_draft t.status || is_validated t.status)

module _ (P : Platform) where
  -- The end that the three share: write, count, read back, log.
  unfoldable pub finish_step :
      String
      → String
      → (TransactionRow → Bool)
      → (TransactionRow → TransactionRow)
      → String
      → AuthPrincipal
      → FinanceRequestMeta
      → Tx (Option TransactionRow)
  finish_step rt_id id clause change action actor meta = do
    update ← update_transactions P clause change
    assert_single_mutation update
    after ← find_transaction_in_transaction_or_throw P rt_id id
    write_audit P (audit_entry rt_id actor meta action "transaction" id)
    return (some after)

  unfoldable pub validate_body :
      String
      → String
      → Option String
      → AuthPrincipal
      → FinanceRequestMeta
      → Tx (Option TransactionRow)
  validate_body rt_id id validation_note actor meta = do
    found ← find_transaction_in_transaction P rt_id id
    elim found [
      | none ↦ return none
      | some before ↦
          if not (is_draft before.status)
          then throw (bad_request "Only draft transactions can be validated.")
          else do
            at ← new_date P
            finish_step rt_id id (draft_transaction rt_id id)
                (λ t. record t {
                  status = TransactionStatus.validated;
                  validated_by_id = some actor.user_id;
                  validated_at = some at;
                  validation_note = validation_note;
                  updated_by_id = some actor.user_id;
                })
                "TRANSACTION_VALIDATED" actor meta
    ]

  unfoldable pub validate_transaction :
      String
      → String
      → Option String
      → AuthPrincipal
      → FinanceRequestMeta
      → Tx (Option TransactionRow)
  validate_transaction rt_id id note actor meta =
      transaction P (validate_body rt_id id note actor meta)

  unfoldable pub reject_body :
      String → String → String → AuthPrincipal → FinanceRequestMeta → Tx (Option TransactionRow)
  reject_body rt_id id rejection_reason actor meta = do
    found ← find_transaction_in_transaction P rt_id id
    elim found [
      | none ↦ return none
      | some before ↦
          if not (is_draft before.status) && not (is_validated before.status)
          then throw (bad_request "Only draft or validated transactions can be rejected.")
          else do
            at ← new_date P
            finish_step rt_id id (open_transaction rt_id id)
                (λ t. record t {
                  status = TransactionStatus.rejected;
                  rejected_by_id = some actor.user_id;
                  rejected_at = some at;
                  rejection_reason = some rejection_reason;
                  updated_by_id = some actor.user_id;
                })
                "TRANSACTION_REJECTED" actor meta
    ]

  unfoldable pub reject_transaction :
      String → String → String → AuthPrincipal → FinanceRequestMeta → Tx (Option TransactionRow)
  reject_transaction rt_id id reason actor meta =
      transaction P (reject_body rt_id id reason actor meta)

  -- The reason of the command goes to the audit log's snapshot alone.
  unfoldable pub void_body :
      String → String → AuthPrincipal → FinanceRequestMeta → Tx (Option TransactionRow)
  void_body rt_id id actor meta = do
    found ← find_transaction_in_transaction P rt_id id
    elim found [
      | none ↦ return none
      | some before ↦
          if not (is_draft before.status)
          then throw (bad_request "Only draft transactions can be voided.")
          else do
            at ← new_date P
            finish_step rt_id id (draft_transaction rt_id id)
                (λ t. record t {
                  status = TransactionStatus.voided;
                  voided_by_id = some actor.user_id;
                  voided_at = some at;
                  updated_by_id = some actor.user_id;
                })
                "TRANSACTION_VOIDED" actor meta
    ]

  unfoldable pub void_draft_transaction :
      String → String → AuthPrincipal → FinanceRequestMeta → Tx (Option TransactionRow)
  void_draft_transaction rt_id id actor meta = transaction P (void_body rt_id id actor meta)
