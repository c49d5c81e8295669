-- ===== src/Finance/Accounts.antt =====
-- Cash accounts and categories: created, changed and archived
-- (apps/api/src/modules/finance/infrastructure/prisma-finance.repository.ts).
use jimpitan.Base.{
  ℕ, String, ◌==◌, Bool, false, ◌&&◌, Option, none, some, is_none, otherwise, ltb, same_text,
  if◌then◌else◌,
}
use jimpitan.Base.Int.{pos}
use jimpitan.Base.Rows.{length}
use jimpitan.Finance.Schema.{
  TransactionType, AuthPrincipal, FinanceRequestMeta, CashAccountRow, CategoryRow,
}
use jimpitan.Finance.Platform.{Platform}
use jimpitan.Finance.Monad.{bad_request, Tx, return, gets, require, catch, transaction, ◌>>=◌, ◌>>◌}
use jimpitan.Finance.Tables.{
  live_account, of_account, new_date, new_id, write_audit, audit_entry, update_accounts,
  create_account, update_categories, create_category,
}
use jimpitan.Finance.Posting.{assert_single_mutation}
use jimpitan.Finance.Retry.{throw_known_conflict}

pub record CreateCashAccountCommand : Type 0 where
  pub key : Option String
  pub name : String
  pub currency : Option String

pub record UpdateCashAccountCommand : Type 0 where
  pub name : Option String
  pub is_active : Option Bool

pub record CreateTransactionCategoryCommand : Type 0 where
  pub type : TransactionType
  pub key : String
  pub name : String

pub record UpdateTransactionCategoryCommand : Type 0 where
  pub name : Option String
  pub is_active : Option Bool

-- { id, rtId, deletedAt: null }
abbrev pub live_category : String → String → CategoryRow → Bool
live_category rt_id id c = c.id == id && same_text c.rt_id (some rt_id) && is_none c.deleted_at

module _ (P : Platform) where
  unfoldable pub create_cash_account :
      String → CreateCashAccountCommand → AuthPrincipal → FinanceRequestMeta → Tx CashAccountRow
  create_cash_account rt_id command actor meta =
      catch
        (transaction P (do
          id ← new_id P
          account ← create_account P (record {
            id = id;
            rt_id = rt_id;
            key = otherwise command.key "main";
            name = command.name;
            currency = otherwise command.currency "IDR";
            current_balance = pos 0;
            version = 1;
            is_active = Bool.true;
            updated_by_id = some actor.user_id;
            deleted_by_id = none;
            deleted_at = none;
          })
          write_audit P
              (audit_entry rt_id actor meta "CASH_ACCOUNT_CREATED" "cash_account" account.id)
          return account))
        (λ e.
          throw_known_conflict e
            "Cash account could not be created because the key already exists.")

  unfoldable pub update_found_account :
      String
      → String
      → UpdateCashAccountCommand
      → AuthPrincipal
      → FinanceRequestMeta
      → Tx (Option CashAccountRow)
  update_found_account rt_id id command actor meta = do
    update ← update_accounts P (live_account rt_id id) (λ a. record a {
      name = otherwise command.name a.name;
      is_active = otherwise command.is_active a.is_active;
      updated_by_id = some actor.user_id;
    })
    assert_single_mutation update
    found ← gets (λ s. P.find_first (live_account rt_id id) s.accounts)
    account ← require found (bad_request "Cash account changed while processing the request.")
    write_audit P (audit_entry rt_id actor meta "CASH_ACCOUNT_UPDATED" "cash_account" id)
    return (some account)

  unfoldable pub update_cash_account :
      String
      → String
      → UpdateCashAccountCommand
      → AuthPrincipal
      → FinanceRequestMeta
      → Tx (Option CashAccountRow)
  update_cash_account rt_id id command actor meta = transaction P (do
    before ← gets (λ s. P.find_first (live_account rt_id id) s.accounts)
    elim before [ none ↦ return none | some _ ↦ update_found_account rt_id id command actor meta ])

  -- An account with ledger rows is only made inactive.
  abbrev pub archived_account : ℕ → ℕ → AuthPrincipal → CashAccountRow → CashAccountRow
  archived_account ledgers at actor a = record a {
    is_active = false;
    deleted_by_id = if ltb 0 ledgers then none else some actor.user_id;
    deleted_at = if ltb 0 ledgers then none else some at;
    updated_by_id = some actor.user_id;
  }

  -- `update` by the primary key gives the row as it is then.
  unfoldable pub archive_found_account :
      String
      → String
      → AuthPrincipal
      → FinanceRequestMeta
      → CashAccountRow
      → Tx (Option CashAccountRow)
  archive_found_account rt_id id actor meta before = do
    ledgers ← gets (λ s. length (P.find_many (of_account rt_id id) s.ledgers))
    at ← new_date P
    update_accounts P (λ a. a.id == id) (archived_account ledgers at actor)
    write_audit P (audit_entry rt_id actor meta "CASH_ACCOUNT_ARCHIVED" "cash_account" id)
    return (some (archived_account ledgers at actor before))

  unfoldable pub archive_cash_account :
      String → String → AuthPrincipal → FinanceRequestMeta → Tx (Option CashAccountRow)
  archive_cash_account rt_id id actor meta = transaction P (do
    before ← gets (λ s. P.find_first (live_account rt_id id) s.accounts)
    elim before [ none ↦ return none | some a ↦ archive_found_account rt_id id actor meta a ])

  unfoldable pub create_transaction_category :
      String
      → CreateTransactionCategoryCommand
      → AuthPrincipal
      → FinanceRequestMeta
      → Tx CategoryRow
  create_transaction_category rt_id command actor meta =
      catch
        (transaction P (do
          id ← new_id P
          category ← create_category P (record {
            id = id;
            rt_id = some rt_id;
            type = command.type;
            key = command.key;
            name = command.name;
            is_system = false;
            is_active = Bool.true;
            updated_by_id = some actor.user_id;
            deleted_by_id = none;
            deleted_at = none;
          })
          write_audit P (
              audit_entry rt_id actor meta "TRANSACTION_CATEGORY_CREATED" "transaction_category"
                category.id)
          return category))
        (λ e.
          throw_known_conflict e
            "Transaction category could not be created because the key already exists.")

  unfoldable pub update_found_category :
      String
      → String
      → UpdateTransactionCategoryCommand
      → AuthPrincipal
      → FinanceRequestMeta
      → Tx (Option CategoryRow)
  update_found_category rt_id id command actor meta = do
    update ← update_categories P (live_category rt_id id) (λ c. record c {
      name = otherwise command.name c.name;
      is_active = otherwise command.is_active c.is_active;
      updated_by_id = some actor.user_id;
    })
    assert_single_mutation update
    found ← gets (λ s. P.find_first (live_category rt_id id) s.categories)
    category ←
        require found (bad_request "Transaction category changed while processing the request.")
    write_audit P
        (audit_entry rt_id actor meta "TRANSACTION_CATEGORY_UPDATED" "transaction_category" id)
    return (some category)

  unfoldable pub update_category :
      String
      → String
      → UpdateTransactionCategoryCommand
      → AuthPrincipal
      → FinanceRequestMeta
      → Tx (Option CategoryRow)
  update_category rt_id id command actor meta = transaction P (do
    before ← gets (λ s. P.find_first (live_category rt_id id) s.categories)
    elim before [ none ↦ return none | some _ ↦ update_found_category rt_id id command actor meta ])

  abbrev pub archived_category : ℕ → AuthPrincipal → CategoryRow → CategoryRow
  archived_category at actor c = record c {
    is_active = false;
    deleted_by_id = some actor.user_id;
    deleted_at = some at;
    updated_by_id = some actor.user_id;
  }

  unfoldable pub archive_category :
      String → String → AuthPrincipal → FinanceRequestMeta → Tx (Option CategoryRow)
  archive_category rt_id id actor meta = transaction P (do
    before ← gets (λ s. P.find_first (live_category rt_id id) s.categories)
    elim before [
      | none ↦ return none
      | some c ↦ do
        at ← new_date P
        update_categories P (λ c. c.id == id) (archived_category at actor)
        write_audit P
            (audit_entry rt_id actor meta "TRANSACTION_CATEGORY_ARCHIVED" "transaction_category" id)
        return (some (archived_category at actor c))
    ])
