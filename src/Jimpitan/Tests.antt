-- ===== src/Jimpitan/Tests.antt =====
-- The theorems on checklists and summaries at a concrete route.
use jimpitan.Base.{◌<◌, ◌≡◌, none, some, List, [], ◌∷◌, arith}
use jimpitan.Base.Int.{pos}
use jimpitan.Base.Rows.{select}
use jimpitan.Finance.Schema.{CollectionStatus, CollectionItemStatus, paid, unpaid}
use jimpitan.Finance.Samples.{collection_of}
use jimpitan.Jimpitan.Schema.{CollectionRow, CollectionItemRow}
use jimpitan.Jimpitan.Checklist.{CollectionChecklistHouse}
use jimpitan.Jimpitan.Summary.{is_outstanding, to_summary, outstanding_page}
use jimpitan.Jimpitan.Pages.{answered_pages, outstanding_page-select}
use jimpitan.Jimpitan.Counts.{
  progress_of, area_progress, in_this_area, counts_of_area, to_summary-progress_of,
  to_summary-counts_of_area, outstanding_page-to_summary,
}

abbrev item_of : CollectionItemStatus → CollectionItemRow
item_of status = record {
  id = "i";
  rt_id = "rt-5";
  collection_id = "c-2";
  house_id = "h";
  resident_id = none;
  amount = pos 50000;
  status = status;
  note = none;
  updated_by_id = none;
}

-- Four houses in two areas: one has paid, one has not, and two have no item yet.
abbrev route : List CollectionChecklistHouse
route =
    record { house_id = "h-1"; area_id = "east"; item = some (item_of paid) }
    ∷ record { house_id = "h-2"; area_id = "west"; item = some (item_of unpaid) }
    ∷ record { house_id = "h-3"; area_id = "east"; item = none }
    ∷ record { house_id = "h-4"; area_id = "west"; item = none }
    ∷ []

abbrev night : CollectionRow
night = collection_of "c-2" CollectionStatus.in_progress

some_limit : 0 < 2
some_limit = omega arith

outstanding_page-select_example :
    answered_pages route 2 0 ((outstanding_page route 1 2).total_pages)
    ≡ select is_outstanding route
outstanding_page-select_example = outstanding_page-select route 1 2 some_limit

to_summary-progress_of_example : (to_summary night route).totals ≡ progress_of route
to_summary-progress_of_example = to_summary-progress_of night route

to_summary-counts_of_area_example :
    area_progress "west" ((to_summary night route).per_area)
    ≡ counts_of_area (select (in_this_area "west") route)
to_summary-counts_of_area_example = to_summary-counts_of_area night route "west"

outstanding_page-to_summary_example :
    (outstanding_page route 2 2).total ≡ (to_summary night route).totals.outstanding_houses
outstanding_page-to_summary_example = outstanding_page-to_summary night route 2 2
