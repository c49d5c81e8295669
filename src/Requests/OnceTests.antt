-- ===== src/Requests/OnceTests.antt =====
-- The theorem on a collection that is posted once at concrete tables.
use jimpitan.Base.{◌≡◌, refl, none, [], ◌∷◌}
use jimpitan.Finance.Schema.{CollectionStatus, PostValidatedCollectionCommand}
use jimpitan.Finance.Platform.{Db}
use jimpitan.Finance.Platform.Memory.{memory}
use jimpitan.Finance.Monad.{Result, ok, err}
use jimpitan.Finance.Retry.{with_serializable_retry}
use jimpitan.Finance.Collections.{
  SourceCollectionPostingResult, resolve_collection_posting_amount, posting_account,
  posting_category, find_or_create_default_cash_account_in_transaction,
  find_or_create_jimpitan_category_in_transaction,
}
use jimpitan.Finance.CollectionPosting.{
  post_collection_body, post_new_collection, post_created, post_validated_collection,
}
use jimpitan.Finance.Books.{SameBooks}
use jimpitan.Finance.Samples.{
  treasurer, no_meta, posted_dues, db_with, earlier_ledger, collection_of,
}
use jimpitan.Base.Int.{◌+ℤ◌, ◌-ℤ◌}
use jimpitan.Finance.Tables.{
  new_date, new_id, create_transaction, create_category, create_ledger, update_accounts,
  update_transactions, write_audit, find_transaction_in_transaction,
  find_transaction_in_transaction_or_throw,
}
use jimpitan.Finance.Posting.{append_ledger_for_transaction, assert_single_mutation}
use jimpitan.Requests.{serve_all}
use jimpitan.Requests.Once.{posted_collection_once}
use jimpitan.Requests.Tests.{some_calls}

abbrev post_c1 : PostValidatedCollectionCommand
post_c1 = record {
  collection_id = "c-1";
  cash_account_id = none;
  category_id = none;
  idempotency_key = none;
}

-- The collection is validated, and no transaction stands for it.
abbrev db_walked : Db
db_walked = record (db_with posted_dues) {
  collections = collection_of "c-1" CollectionStatus.validated ∷ [];
}

abbrev walked_posting : Result SourceCollectionPostingResult × Db
walked_posting = post_validated_collection memory "rt-5" post_c1 treasurer no_meta db_walked

-- What is given where a run has no answer.
abbrev no_answer : SourceCollectionPostingResult
no_answer = record {
  collection_id = "";
  collection_mode = none;
  collection_total_amount = none;
  transaction = posted_dues;
  ledger = earlier_ledger;
}

abbrev walked_answer : SourceCollectionPostingResult
walked_answer = elim (walked_posting.0) [ ok a ↦ a | err e ↦ no_answer ]

walked_is_posted : walked_posting.0 ≡ ok walked_answer
unfolding post_validated_collection with_serializable_retry post_collection_body post_new_collection
    post_created resolve_collection_posting_amount posting_account posting_category
    find_or_create_default_cash_account_in_transaction
    find_or_create_jimpitan_category_in_transaction new_date new_id create_transaction
    create_category append_ledger_for_transaction update_accounts create_ledger write_audit
    update_transactions assert_single_mutation find_transaction_in_transaction_or_throw
    find_transaction_in_transaction ◌+ℤ◌ ◌-ℤ◌
walked_is_posted = refl

posted_collection_once_example :
    let later = serve_all memory some_calls walked_posting.1 in
    SameBooks later (post_validated_collection memory "rt-5" post_c1 treasurer no_meta later).1
posted_collection_once_example =
    posted_collection_once memory "rt-5" post_c1 post_c1 treasurer treasurer no_meta no_meta
      db_walked walked_answer some_calls walked_is_posted refl
