-- ===== src/Finance/CollectionTests.antt =====
-- The theorems on posted collections at concrete tables.
use jimpitan.Base.{◌≡◌, refl, none, [], ◌∷◌}
use jimpitan.Finance.Schema.{CollectionStatus, PostValidatedCollectionCommand}
use jimpitan.Finance.Platform.{Db}
use jimpitan.Finance.Platform.Memory.{memory}
use jimpitan.Finance.Monad.{err, bad_request}
use jimpitan.Finance.Retry.{with_serializable_retry}
use jimpitan.Finance.CollectionPosting.{
  post_collection_body, post_collection_error, post_validated_collection,
}
use jimpitan.Finance.Books.{SameBooks}
use jimpitan.Finance.CollectionBooks.{
  post_validated_collection-validated, post_validated_collection_atomic,
}
use jimpitan.Finance.Samples.{treasurer, no_meta, posted_dues, db_with, collection_of}

abbrev post_c1 : PostValidatedCollectionCommand
post_c1 = record {
  collection_id = "c-1";
  cash_account_id = none;
  category_id = none;
  idempotency_key = none;
}

-- The collection is submitted, and no transaction stands for it.
abbrev db_submitted : Db
db_submitted = record (db_with posted_dues) {
  collections = collection_of "c-1" CollectionStatus.submitted ∷ [];
}

post_validated_collection-validated_example :
    SameBooks db_submitted
      (post_validated_collection memory "rt-5" post_c1 treasurer no_meta db_submitted).1
post_validated_collection-validated_example =
    post_validated_collection-validated memory "rt-5" post_c1 treasurer no_meta db_submitted
      (collection_of "c-1" CollectionStatus.submitted) refl refl refl

submitted_is_refused :
    (post_validated_collection memory "rt-5" post_c1 treasurer no_meta db_submitted).0
    ≡ err (bad_request "Only validated collections can be posted to finance.")
unfolding post_validated_collection with_serializable_retry post_collection_body
    post_collection_error
submitted_is_refused = refl

post_validated_collection_atomic_example :
    SameBooks db_submitted
      (post_validated_collection memory "rt-5" post_c1 treasurer no_meta db_submitted).1
post_validated_collection_atomic_example =
    post_validated_collection_atomic memory "rt-5" post_c1 treasurer no_meta db_submitted
      (bad_request "Only validated collections can be posted to finance.") submitted_is_refused
