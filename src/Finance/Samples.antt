-- ===== src/Finance/Samples.antt =====
-- Small tables on which the finance model is run.
use jimpitan.Base.{refl, true, false, none, some, List, [], ◌∷◌, String}
use jimpitan.Base.Int.{ℤ, pos}
use jimpitan.Finance.Schema.{
  TransactionType, income, TransactionStatus, AuthPrincipal, FinanceRequestMeta, CashAccountRow,
  LedgerRow, increase, CollectionStatus, bulk_total, CategoryRow, TransactionRow,
}
use jimpitan.Finance.Platform.{Db}
use jimpitan.Jimpitan.Schema.{Directory, CollectionRow}
use jimpitan.Finance.Consistent.{IsConsistent}

abbrev pub treasurer : AuthPrincipal
treasurer = record {
  user_id = "u-1";
  membership_id = "m-1";
  rt_id = "rt-5";
  roles = "TREASURER" ∷ [];
  permissions = "transactions.post" ∷ [];
}

abbrev pub no_meta : FinanceRequestMeta
no_meta = record { correlation_id = none; ip_address = none; user_agent = none }

abbrev pub main_account : CashAccountRow
main_account = record {
  id = "acc";
  rt_id = "rt-5";
  key = "main";
  name = "Kas Utama";
  currency = "IDR";
  current_balance = pos 0;
  version = 1;
  is_active = true;
  updated_by_id = none;
  deleted_by_id = none;
  deleted_at = none;
}

abbrev pub category_of : TransactionType → CategoryRow
category_of type = record {
  id = "cat";
  rt_id = some "rt-5";
  type = type;
  key = "dues";
  name = "Dues";
  is_system = false;
  is_active = true;
  updated_by_id = none;
  deleted_by_id = none;
  deleted_at = none;
}

abbrev pub transaction_of : TransactionType → TransactionStatus → ℤ → TransactionRow
transaction_of type status amount = record {
  id = "t-1";
  rt_id = "rt-5";
  cash_account_id = "acc";
  category_id = "cat";
  source_collection_id = none;
  reference_number = none;
  idempotency_key = some "k-1";
  external_ref = none;
  type = type;
  status = status;
  amount = amount;
  description = "June";
  transaction_date = "2026-06-01";
  created_by_id = "u-1";
  updated_by_id = none;
  validated_by_id = some "u-1";
  validated_at = some 0;
  validation_note = none;
  rejected_by_id = none;
  rejected_at = none;
  rejection_reason = none;
  posted_by_id = none;
  posted_at = none;
  voided_by_id = none;
  voided_at = none;
  deleted_at = none;
}

abbrev pub empty_directory : Directory
empty_directory = record {
  schedules = [];
  memberships = [];
  areas = [];
  houses = [];
  residents = [];
}

abbrev pub db_with : TransactionRow → Db
db_with t = record {
  accounts = main_account ∷ [];
  categories = category_of t.type ∷ [];
  transactions = t ∷ [];
  ledgers = [];
  collections = [];
  items = [];
  approvals = [];
  settings = [];
  directory = empty_directory;
  notifications = [];
  outbox = [];
  bindings = [];
  audits = [];
  tick = 7;
}

-- A validated income of 150 000.00, and the same row of a posted one.
abbrev pub dues : TransactionRow
dues = transaction_of income TransactionStatus.validated (pos 15000000)

abbrev pub db_dues : Db
db_dues = db_with dues

abbrev pub posted_dues : TransactionRow
posted_dues = transaction_of income TransactionStatus.posted (pos 15000000)

pub db_with-IsConsistent : (t : TransactionRow) → IsConsistent (db_with t)
db_with-IsConsistent t = record {
  chains = λ _ _. tt;
  balances = (refl, tt);
  distinct = (tt, tt);
  owned = tt;
}

-- An increase of 100 000.00.
abbrev pub earlier_ledger : LedgerRow
earlier_ledger = record {
  id = "l-0";
  rt_id = "rt-5";
  cash_account_id = "acc";
  transaction_id = "t-0";
  ledger_sequence = 1;
  entry_type = increase;
  amount = pos 10000000;
  balance_before = pos 0;
  balance_after = pos 10000000;
  ledger_date = 0;
}

abbrev pub collection_of : String → CollectionStatus → CollectionRow
collection_of id status = record {
  id = id;
  rt_id = "rt-5";
  schedule_id = none;
  officer_membership_id = "m-1";
  collection_date = "2026-06-01";
  collection_mode = bulk_total;
  status = status;
  note = none;
  total_amount = pos 25000000;
  submit_request_id = none;
  submitted_at = none;
  validated_by_id = none;
  validated_at = none;
  validation_note = none;
  rejected_by_id = none;
  rejected_at = none;
  rejection_reason = none;
  cancelled_by_id = none;
  cancelled_at = none;
  cancellation_reason = none;
  updated_by_id = none;
}

-- One collection is validated, one in progress.
abbrev pub two_collections : List CollectionRow
two_collections =
    collection_of "c-1" CollectionStatus.validated
    ∷ collection_of "c-2" CollectionStatus.in_progress
    ∷ []
