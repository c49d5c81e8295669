-- ===== src/Finance/DraftTests.antt =====
-- A request for a draft at concrete tables.
use jimpitan.Base.{◌≡◌, refl, none, some}
use jimpitan.Finance.Schema.{income, CreateFinanceTransactionCommand, TransactionRow}
use jimpitan.Finance.Platform.{Db}
use jimpitan.Finance.Monad.{Result, ok, err}
use jimpitan.Finance.Guards.{
  find_active_cash_account_in_transaction, find_active_category_in_transaction,
}
use jimpitan.Finance.Tables.{new_id, write_audit, create_transaction}
use jimpitan.Finance.Service.{
  assert_positive_amount, assert_draft_references, assert_draft_inputs, request_income_draft,
}
use jimpitan.Finance.DraftInputs.{
  Inputs, income_draft, requested_draft, stored_draft, requested_draft-Inputs,
}
use jimpitan.Finance.Platform.Memory.{memory}
use jimpitan.Finance.Books.{SameBooks}
use jimpitan.Finance.Drafts.{
  create_income_draft, create_transaction_draft, create_new_draft, create_draft_body,
  assert_draft_references_in_transaction,
}
use jimpitan.Finance.DraftReplay.{create_transaction_draft_once}
use jimpitan.Finance.Samples.{treasurer, no_meta, dues, db_dues}

-- A request with the key of the dues that asks for something else.
abbrev other_request : CreateFinanceTransactionCommand
other_request = record {
  cash_account_id = "acc";
  category_id = "cat";
  amount = "1000";
  description = "July";
  transaction_date = "2026-07-01";
  reference_number = none;
  idempotency_key = some "k-1";
  external_ref = none;
  source_collection_id = none;
}

create_transaction_draft_once_example :
    SameBooks db_dues
      (create_transaction_draft memory "rt-5" income other_request treasurer no_meta db_dues).1
create_transaction_draft_once_example =
    create_transaction_draft_once memory "rt-5" income other_request treasurer no_meta db_dues "k-1"
      dues refl refl

abbrev july : CreateFinanceTransactionCommand
july = record other_request { idempotency_key = none }

abbrev july_run : Result TransactionRow × Db
july_run = requested_draft memory treasurer no_meta july income_draft db_dues

abbrev july_row : TransactionRow
july_row = elim (july_run.0) [ ok row ↦ row | err e ↦ dues ]

july_is_drafted : july_run ≡ (ok july_row, july_run.1)
unfolding request_income_draft assert_draft_inputs assert_positive_amount assert_draft_references
    create_income_draft create_transaction_draft create_new_draft create_draft_body
    assert_draft_references_in_transaction find_active_cash_account_in_transaction
    find_active_category_in_transaction create_transaction new_id write_audit
july_is_drafted = refl

requested_draft-Inputs_example :
    Inputs memory "rt-5" july income db_dues
    × (stored_draft memory treasurer no_meta july income_draft db_dues ≡ (ok july_row, july_run.1))
requested_draft-Inputs_example =
    requested_draft-Inputs memory treasurer no_meta july db_dues (july_run.1) july_row income_draft
      july_is_drafted
