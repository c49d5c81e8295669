-- ===== src/Finance/Schema.antt =====
-- The rows of the finance tables (prisma/schema.prisma, and the row types at the head of
-- apps/api/src/modules/finance/infrastructure/prisma-finance.repository.ts), the commands of
-- apps/api/src/modules/finance/application/finance.commands.ts, and the principal of
-- apps/api/src/modules/auth/domain/auth.types.ts. Amounts are in cents; a date column is its ISO text;
-- an instant is a number of milliseconds. The columns that the database engine fills by itself
-- (`createdAt`, `updatedAt`) and the JSON snapshots of the audit log are left out.
use jimpitan.Base.{ℕ, String, Bool, Option, List}
use jimpitan.Base.Int.{ℤ}

pub data TransactionType : Type 0 where
  income expense transfer adjustment : TransactionType

pub data TransactionStatus : Type 0 where
  draft validated pending_validation pending_approval approved rejected posted voided :
      TransactionStatus

pub data LedgerEntryType : Type 0 where
  increase decrease : LedgerEntryType

pub data ApprovalStatus : Type 0 where
  pending approved rejected cancelled : ApprovalStatus

pub data CollectionMode : Type 0 where
  per_house bulk_total hybrid : CollectionMode

pub data CollectionStatus : Type 0 where
  draft in_progress submitted validated rejected cancelled : CollectionStatus

pub data CollectionItemStatus : Type 0 where
  paid unpaid house_empty left_with_neighbor titip_tetangga overdue menunggak dispensation :
      CollectionItemStatus

pub record AuthPrincipal : Type 0 where
  pub user_id : String
  pub membership_id : String
  pub rt_id : String
  pub roles : List String
  pub permissions : List String

pub record FinanceRequestMeta : Type 0 where
  pub correlation_id : Option String
  pub ip_address : Option String
  pub user_agent : Option String

pub record CashAccountRow : Type 0 where
  pub id : String
  pub rt_id : String
  pub key : String
  pub name : String
  pub currency : String
  pub current_balance : ℤ
  pub version : ℕ
  pub is_active : Bool
  pub updated_by_id : Option String
  pub deleted_by_id : Option String
  pub deleted_at : Option ℕ

pub record CategoryRow : Type 0 where
  pub id : String
  pub rt_id : Option String
  pub type : TransactionType
  pub key : String
  pub name : String
  pub is_system : Bool
  pub is_active : Bool
  pub updated_by_id : Option String
  pub deleted_by_id : Option String
  pub deleted_at : Option ℕ

pub record LedgerRow : Type 0 where
  pub id : String
  pub rt_id : String
  pub cash_account_id : String
  pub transaction_id : String
  pub ledger_sequence : ℕ
  pub entry_type : LedgerEntryType
  pub amount : ℤ
  pub balance_before : ℤ
  pub balance_after : ℤ
  pub ledger_date : ℕ

pub record TransactionRow : Type 0 where
  pub id : String
  pub rt_id : String
  pub cash_account_id : String
  pub category_id : String
  pub source_collection_id : Option String
  pub reference_number : Option String
  pub idempotency_key : Option String
  pub external_ref : Option String
  pub type : TransactionType
  pub status : TransactionStatus
  pub amount : ℤ
  pub description : String
  pub transaction_date : String
  pub created_by_id : String
  pub updated_by_id : Option String
  pub validated_by_id : Option String
  pub validated_at : Option ℕ
  pub validation_note : Option String
  pub rejected_by_id : Option String
  pub rejected_at : Option ℕ
  pub rejection_reason : Option String
  pub posted_by_id : Option String
  pub posted_at : Option ℕ
  pub voided_by_id : Option String
  pub voided_at : Option ℕ
  pub deleted_at : Option ℕ

pub record ExpenseApprovalRow : Type 0 where
  pub id : String
  pub rt_id : String
  pub transaction_id : String
  pub requested_by_id : String
  pub approver_membership_id : String
  pub decision_by_id : Option String
  pub idempotency_key : Option String
  pub status : ApprovalStatus
  pub reason : Option String
  pub decision_note : Option String
  pub expires_at : Option ℕ
  pub decided_at : Option ℕ

-- A JSON value, as far as the approval policy looks into it.
pub data Json : Type 0 where
  text : String → Json
  integer : ℤ → Json
  boolean : Bool → Json
  other_value : Json

-- The setting's JSON value: an object's fields that the policy reads, where they are present.
pub record PolicyObject : Type 0 where
  pub threshold_amount : Option Json
  pub required_approvals : Option Json
  pub auto_approve_below_threshold : Option Json

pub record SettingRow : Type 0 where
  pub rt_id : String
  pub key : String
  -- `none` is a value that is no JSON object.
  pub value : Option PolicyObject

-- An entry of the audit log; the system and the bot have no user.
pub record FinanceAuditInput : Type 0 where
  pub rt_id : String
  pub actor_user_id : Option String
  pub action : String
  pub entity_type : String
  pub entity_id : Option String
  pub meta : FinanceRequestMeta

pub record CreateFinanceTransactionCommand : Type 0 where
  pub cash_account_id : String
  pub category_id : String
  pub amount : String
  pub description : String
  pub transaction_date : String
  pub reference_number : Option String
  pub idempotency_key : Option String
  pub external_ref : Option String
  pub source_collection_id : Option String

pub record PostValidatedCollectionCommand : Type 0 where
  pub collection_id : String
  pub cash_account_id : Option String
  pub category_id : Option String
  pub idempotency_key : Option String
