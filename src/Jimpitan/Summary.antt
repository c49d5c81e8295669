-- ===== src/Jimpitan/Summary.antt =====
-- The progress of a collection and the houses that are still outstanding: `getCollectionSummary`, `toSummary`,
-- `toBulkTotalSummary` and `getOutstandingHouses` of
-- apps/api/src/modules/jimpitan/infrastructure/prisma-jimpitan.repository.ts. The areas stand in the
-- order of their first house: their sort by code is left out.
use jimpitan.Base.{
  ◌||◌, ℕ, zero, suc, ◌+◌, ◌-◌, ◌*◌, ◌/◌, String, ◌==◌, Bool, true, false, not, Option, none, some,
  List, [], ◌∷◌, if◌then◌else◌,
}
use jimpitan.Base.Int.{ℤ, pos, ◌+ℤ◌}
use jimpitan.Base.Rows.{length, select}
use jimpitan.Finance.Schema.{CollectionItemStatus, paid, dispensation}
use jimpitan.Jimpitan.Schema.{CollectionRow}
use jimpitan.Finance.Platform.{Platform}
use jimpitan.Finance.Monad.{Tx, return, ◌>>=◌}
use jimpitan.Jimpitan.Tables.{is_paid_item, area_of}
use jimpitan.Jimpitan.Workflow.{is_bulk}
use jimpitan.Jimpitan.Checklist.{CollectionChecklistHouse, get_checklist}

-- The four counts and the amount, of the route or of an area.
pub record Progress : Type 0 where
  pub total_houses : ℕ
  pub completed_houses : ℕ
  pub paid_houses : ℕ
  pub outstanding_houses : ℕ
  pub total_collected : ℤ

pub record CollectionAreaProgress : Type 0 where
  pub area_id : String
  pub progress : Progress

pub record CollectionSummary : Type 0 where
  pub collection_id : String
  pub totals : Progress
  pub per_area : List CollectionAreaProgress

abbrev pub no_progress : Progress
no_progress = record {
  total_houses = 0;
  completed_houses = 0;
  paid_houses = 0;
  outstanding_houses = 0;
  total_collected = pos 0;
}

-- settledCollectionItemStatuses.includes(status)
abbrev pub is_settled : CollectionItemStatus → Bool
is_settled paid = true
is_settled dispensation = true
is_settled _ = false

abbrev pub has_item : CollectionChecklistHouse → Bool
has_item h = elim (h.item) [ none ↦ false | some _ ↦ true ]

abbrev pub is_paid_house : CollectionChecklistHouse → Bool
is_paid_house h = elim (h.item) [ none ↦ false | some i ↦ is_paid_item i.status ]

-- The filter of `getOutstandingHouses`: !house.item || !settled.includes(house.item.status)
abbrev pub is_outstanding : CollectionChecklistHouse → Bool
is_outstanding h = elim (h.item) [ none ↦ true | some i ↦ not (is_settled i.status) ]

-- The same test as `toSummary` writes it for its counts.
abbrev pub is_unsettled : CollectionChecklistHouse → Bool
is_unsettled h =
    not (has_item h) || (elim (h.item) [ none ↦ true | some i ↦ not (is_settled i.status) ])

abbrev pub item_amount : CollectionChecklistHouse → ℤ
item_amount h = elim (h.item) [ none ↦ pos 0 | some i ↦ i.amount ]

-- One house more, with the same tests for the route and for the house's area.
abbrev pub with_house : CollectionChecklistHouse → Progress → Progress
with_house h p = record {
  total_houses = p.total_houses + 1;
  completed_houses = if has_item h then p.completed_houses + 1 else p.completed_houses;
  paid_houses = if is_paid_house h then p.paid_houses + 1 else p.paid_houses;
  outstanding_houses = if is_unsettled h then p.outstanding_houses + 1 else p.outstanding_houses;
  total_collected =
      if is_paid_house h then p.total_collected +ℤ item_amount h else p.total_collected;
}

-- The map's `get` with the fresh progress of an area, the counting and the `set`: a new key is
-- appended.
abbrev pub in_area :
    CollectionChecklistHouse → List CollectionAreaProgress → List CollectionAreaProgress
in_area h [] = record { area_id = h.area_id; progress = with_house h no_progress } ∷ []
in_area h (a ∷ rest) =
    let others = in_area h rest in
    if a.area_id == h.area_id
    then record a { progress = with_house h a.progress } ∷ rest
    else a ∷ others

-- for (const house of houses); `toSummary` replaces the number of houses of the route by the list's
-- length.
abbrev pub count_houses :
    List CollectionChecklistHouse
    → Progress
    → List CollectionAreaProgress
    → Progress × List CollectionAreaProgress
count_houses [] totals areas = (totals, areas)
count_houses (h ∷ rest) totals areas = count_houses rest (with_house h totals) (in_area h areas)

abbrev pub to_summary : CollectionRow → List CollectionChecklistHouse → CollectionSummary
to_summary c houses =
    let (totals, areas) = count_houses houses no_progress [] in
    record {
      collection_id = c.id;
      totals = record totals { total_houses = length houses };
      per_area = areas;
    }

-- The collected total of a bulk collection, under its area if the route has one.
abbrev pub to_bulk_total_summary : CollectionRow → Option String → CollectionSummary
to_bulk_total_summary c area_id =
    let bulk = record no_progress { total_collected = c.total_amount } in
    record {
      collection_id = c.id;
      totals = bulk;
      per_area = elim area_id [
        | none ↦ []
        | some id ↦ record { area_id = id; progress = bulk } ∷ []
      ];
    }

pub record PaginatedResult : Type 0 where
  pub items : List CollectionChecklistHouse
  pub page : ℕ
  pub limit : ℕ
  pub total : ℕ
  pub total_pages : ℕ

abbrev pub take : {A : Type 0} → ℕ → List A → List A
take zero xs = []
take (suc n) [] = []
take (suc n) (x ∷ xs) = x ∷ take n xs

abbrev pub drop : {A : Type 0} → ℕ → List A → List A
drop zero xs = xs
drop (suc n) [] = []
drop (suc n) (x ∷ xs) = drop n xs

-- xs.slice((page - 1) * limit, (page - 1) * limit + limit), which is empty for page 0.
abbrev pub page_of : {A : Type 0} → List A → ℕ → ℕ → List A
page_of xs zero limit = []
page_of xs (suc k) limit = take limit (drop (k * limit) xs)

-- Math.ceil(total / limit), for a limit of at least 1.
abbrev pub total_pages : ℕ → ℕ → ℕ
total_pages total limit = (total + limit - 1) / limit

abbrev pub no_page : ℕ → ℕ → PaginatedResult
no_page page limit = record { items = []; page = page; limit = limit; total = 0; total_pages = 0 }

abbrev pub outstanding_page : List CollectionChecklistHouse → ℕ → ℕ → PaginatedResult
outstanding_page houses page limit =
    let outstanding = select is_outstanding houses in
    record {
      items = page_of outstanding page limit;
      page = page;
      limit = limit;
      total = length outstanding;
      total_pages = total_pages (length outstanding) limit;
    }

module _ (P : Platform) where
  unfoldable pub get_collection_summary : String → String → Tx (Option CollectionSummary)
  get_collection_summary rt_id id = do
    found ← get_checklist P rt_id id
    elim found [
      | none ↦ return none
      | some checklist ↦ λ s.
          (if is_bulk checklist.collection.collection_mode
              then return (
                  some (
                    to_bulk_total_summary checklist.collection
                      (area_of P s.directory checklist.collection)))
              else return (some (to_summary checklist.collection checklist.houses)))
            s
    ]

  unfoldable pub get_outstanding_houses : String → String → ℕ → ℕ → Tx PaginatedResult
  get_outstanding_houses rt_id id page limit = do
    found ← get_checklist P rt_id id
    return (elim found [
      | none ↦ no_page page limit
      | some checklist ↦
          if is_bulk checklist.collection.collection_mode
          then no_page page limit
          else outstanding_page checklist.houses page limit
    ])
