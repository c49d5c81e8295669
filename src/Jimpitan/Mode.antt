-- ===== src/Jimpitan/Mode.antt =====
-- The contract of each collection mode
-- (apps/api/src/modules/jimpitan/domain/collection-mode.types.ts) and the checks that follow from it
-- (apps/api/src/modules/jimpitan/application/collection-mode.policy.ts).
use Prim.Native.Char.{code}
use jimpitan.Base.{ℕ, zero, suc, String, Bool, true, false, not, ◌&&◌, ltb, leb, if◌then◌else◌}
use jimpitan.Finance.Schema.{CollectionMode, per_house, bulk_total, hybrid}
use jimpitan.Finance.Monad.{bad_request, Tx, return, throw_if, ◌>>◌}

pub record CollectionModeContract : Type 0 where
  pub mode : CollectionMode
  pub requires_house_items : Bool
  pub requires_positive_total_amount : Bool
  pub tracks_outstanding_per_house : Bool

abbrev pub default_collection_mode : CollectionMode
default_collection_mode = per_house

abbrev pub collection_mode_contract : CollectionMode → CollectionModeContract
collection_mode_contract per_house = record {
  mode = per_house;
  requires_house_items = true;
  requires_positive_total_amount = false;
  tracks_outstanding_per_house = true;
}
collection_mode_contract bulk_total = record {
  mode = bulk_total;
  requires_house_items = false;
  requires_positive_total_amount = true;
  tracks_outstanding_per_house = false;
}
collection_mode_contract hybrid = record {
  mode = hybrid;
  requires_house_items = true;
  requires_positive_total_amount = true;
  tracks_outstanding_per_house = true;
}

-- \d{0,n}$
abbrev digits_at_most : ℕ → String → Bool
digits_at_most n String.[] = true
digits_at_most zero (String.◌∷◌ c s) = false
digits_at_most (suc n) (String.◌∷◌ c s) =
    leb b'0' (code c) && leb (code c) b'9' && digits_at_most n s

-- /^[1-9]\d{0,11}$/
abbrev pub is_bulk_amount : String → Bool
is_bulk_amount String.[] = false
is_bulk_amount (String.◌∷◌ c s) = leb b'1' (code c) && leb (code c) b'9' && digits_at_most 11 s

unfoldable pub assert_bulk_total_amount : String → Tx (Unit {0})
assert_bulk_total_amount total_amount =
    throw_if (not (is_bulk_amount total_amount))
      (bad_request "BULK_TOTAL collections require a positive integer currency total.")

unfoldable pub assert_collection_mode_submission_ready : CollectionMode → String → ℕ → Tx (Unit {0})
unfolding assert_bulk_total_amount
assert_collection_mode_submission_ready mode total_amount item_count =
    let contract = collection_mode_contract mode in
    do
      throw_if (contract.requires_house_items && ltb item_count 1) (
          bad_request
            "PER_HOUSE collections must contain at least one house item before submission or validation.")
      if contract.requires_positive_total_amount
          then assert_bulk_total_amount total_amount
          else return tt

unfoldable pub assert_per_house_items_allowed : CollectionMode → Tx (Unit {0})
assert_per_house_items_allowed mode =
    throw_if (not (collection_mode_contract mode).requires_house_items)
      (bad_request "BULK_TOTAL collections do not use per-house collection items.")
