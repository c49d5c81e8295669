-- ===== src/Jimpitan/Counts.antt =====
-- The counts of a summary: `toSummary` and `getOutstandingHouses` of
-- apps/api/src/modules/jimpitan/infrastructure/prisma-jimpitan.repository.ts.
use jimpitan.Base.{
  ℕ, ◌+◌, String, ◌==◌, Bool, Option, none, some, List, [], ◌∷◌, inl, inr, otherwise, Bool-cases,
  if◌then◌else◌, eq_iff, ◌≡◌, refl, sym, ap, ◌∙◌, arith,
}
use jimpitan.Base.Int.{ℤ, pos, ◌+ℤ◌, int_laws}
use jimpitan.Base.Rows.{length, select, sum_of}
use jimpitan.Jimpitan.Schema.{CollectionRow}
use jimpitan.Jimpitan.Checklist.{CollectionChecklistHouse}
use jimpitan.Jimpitan.Summary.{
  Progress, CollectionAreaProgress, no_progress, has_item, is_paid_house, is_outstanding,
  is_unsettled, item_amount, with_house, in_area, count_houses, to_summary, outstanding_page,
}

-- What the counts of some houses are, each on its own.
abbrev pub progress_of : List CollectionChecklistHouse → Progress
progress_of houses = record {
  total_houses = length houses;
  completed_houses = length (select has_item houses);
  paid_houses = length (select is_paid_house houses);
  outstanding_houses = length (select is_unsettled houses);
  total_collected = sum_of item_amount (select is_paid_house houses);
}

+ℤ-assoc : (a b c : ℤ) → (a +ℤ b) +ℤ c ≡ a +ℤ (b +ℤ c)
+ℤ-assoc a b c = grind int_laws

+ℤ-zero : (a : ℤ) → a +ℤ pos 0 ≡ a
+ℤ-zero a = grind int_laws

zero-+ℤ : (a : ℤ) → pos 0 +ℤ a ≡ a
zero-+ℤ a = grind int_laws

abbrev plus : Progress → Progress → Progress
plus p q = record {
  total_houses = p.total_houses + q.total_houses;
  completed_houses = p.completed_houses + q.completed_houses;
  paid_houses = p.paid_houses + q.paid_houses;
  outstanding_houses = p.outstanding_houses + q.outstanding_houses;
  total_collected = p.total_collected +ℤ q.total_collected;
}

with_house-plus :
    (h : CollectionChecklistHouse) (p : Progress) (rest : List CollectionChecklistHouse)
    → plus (with_house h p) (progress_of rest) ≡ plus p (progress_of (h ∷ rest))
with_house-plus h p rest =
    let a =
      +ℤ-assoc p.total_collected (item_amount h) (sum_of item_amount (select is_paid_house rest)) in
    ground arith

plus-none : (p : Progress) → plus p (progress_of []) ≡ p
plus-none p = let a = +ℤ-zero p.total_collected in ground arith

none-plus : (p : Progress) → plus no_progress p ≡ p
none-plus p = let a = zero-+ℤ p.total_collected in ground arith

-- The loop over the houses on its own.
abbrev with_houses : List CollectionChecklistHouse → Progress → Progress
with_houses [] p = p
with_houses (h ∷ rest) p = with_houses rest (with_house h p)

with_houses-plus :
    (houses : List CollectionChecklistHouse) (p : Progress)
    → with_houses houses p ≡ plus p (progress_of houses)
with_houses-plus [] p = sym (plus-none p)
with_houses-plus (h ∷ rest) p = with_houses-plus rest (with_house h p) ∙ with_house-plus h p rest

with_houses-progress_of :
    (houses : List CollectionChecklistHouse) → with_houses houses no_progress ≡ progress_of houses
with_houses-progress_of houses =
    with_houses-plus houses no_progress ∙ none-plus (progress_of houses)

count_houses-totals :
    (houses : List CollectionChecklistHouse) (p : Progress) (areas : List CollectionAreaProgress)
    → (count_houses houses p areas).0 ≡ with_houses houses p
count_houses-totals [] p areas = refl
count_houses-totals (h ∷ rest) p areas = count_houses-totals rest (with_house h p) (in_area h areas)

-- The totals of a summary are the counts of the houses, of those with an item, of the paid ones and of
-- the outstanding ones, and the sum of the paid items' amounts.
pub to_summary-progress_of :
    (c : CollectionRow) (houses : List CollectionChecklistHouse)
    → (to_summary c houses).totals ≡ progress_of houses
to_summary-progress_of c houses =
    ap (λ (p : Progress). record p { total_houses = length houses })
      (count_houses-totals houses no_progress [] ∙ with_houses-progress_of houses)

-- The entry of an area.
abbrev pub area_progress : String → List CollectionAreaProgress → Option Progress
area_progress id [] = none
area_progress id (a ∷ rest) =
    let others = area_progress id rest in if a.area_id == id then some a.progress else others

abbrev pub in_this_area : String → CollectionChecklistHouse → Bool
in_this_area id h = h.area_id == id

in_area-progress :
    (id : String) (h : CollectionChecklistHouse) (areas : List CollectionAreaProgress)
    → area_progress id (in_area h areas) ≡ (
        if h.area_id == id
        then some (with_house h (otherwise (area_progress id areas) no_progress))
        else area_progress id areas)
in_area-progress id h [] = refl
in_area-progress id h (a ∷ rest) = elim (Bool-cases (a.area_id == h.area_id)) [
  | inl same ↦
      let e = eq_iff a.area_id h.area_id in
      let w : a.area_id == id ≡ h.area_id == id = ap (λ x. x == id) (e.0 same) in
      rw same (ground arith)
  | inr other ↦
      let e = eq_iff a.area_id h.area_id in
      let f = eq_iff a.area_id id in
      let g = eq_iff h.area_id id in
      let later = in_area-progress id h rest in rw other (ground arith)
]

-- The loop over the houses of one area, from what the map has of it.
abbrev continued : List CollectionChecklistHouse → Option Progress → Option Progress
continued [] p = p
continued (h ∷ rest) p = continued rest (some (with_house h (otherwise p no_progress)))

continued-some :
    (houses : List CollectionChecklistHouse) (p : Progress)
    → continued houses (some p) ≡ some (with_houses houses p)
continued-some [] p = refl
continued-some (h ∷ rest) p = continued-some rest (with_house h p)

count_houses-areas :
    (id : String) (houses : List CollectionChecklistHouse) (p : Progress)
    (areas : List CollectionAreaProgress)
    → area_progress id ((count_houses houses p areas).1)
      ≡ continued (select (in_this_area id) houses) (area_progress id areas)
count_houses-areas id [] p areas = refl
count_houses-areas id (h ∷ rest) p areas =
    let later = count_houses-areas id rest (with_house h p) (in_area h areas) in
    let next = in_area-progress id h areas in
    elim (Bool-cases (h.area_id == id)) [
      | inl here ↦
          rw here (later ∙ ap (continued (select (in_this_area id) rest)) (rw here at next))
      | inr there ↦
          rw there (later ∙ ap (continued (select (in_this_area id) rest)) (rw there at next))
    ]

-- The counts of the houses that stand in an area, if there are any.
abbrev pub counts_of_area : List CollectionChecklistHouse → Option Progress
counts_of_area [] = none
counts_of_area (h ∷ rest) = some (progress_of (h ∷ rest))

continued-counts :
    (houses : List CollectionChecklistHouse) → continued houses none ≡ counts_of_area houses
continued-counts [] = refl
continued-counts (h ∷ rest) =
    continued-some rest (with_house h no_progress)
    ∙ ap (λ p. some p) (with_houses-progress_of (h ∷ rest))

-- The entry of an area in a summary has the counts of the houses that stand in that area, and an area
-- of no house has no entry.
pub to_summary-counts_of_area :
    (c : CollectionRow) (houses : List CollectionChecklistHouse) (id : String)
    → area_progress id ((to_summary c houses).per_area)
      ≡ counts_of_area (select (in_this_area id) houses)
to_summary-counts_of_area c houses id =
    count_houses-areas id houses no_progress [] ∙ continued-counts (select (in_this_area id) houses)

-- The two tests agree on every house.
is_outstanding-is_unsettled : (h : CollectionChecklistHouse) → is_outstanding h ≡ is_unsettled h
is_outstanding-is_unsettled h = ground arith

select-length :
    (houses : List CollectionChecklistHouse)
    → length (select is_outstanding houses) ≡ length (select is_unsettled houses)
select-length [] = refl
select-length (h ∷ rest) =
    let same = is_outstanding-is_unsettled h in let later = select-length rest in ground arith

-- The number of houses in the listing of the outstanding ones, which has a filter of its own, is the
-- number of outstanding houses in the summary.
pub outstanding_page-to_summary :
    (c : CollectionRow) (houses : List CollectionChecklistHouse) (page limit : ℕ)
    → (outstanding_page houses page limit).total ≡ (to_summary c houses).totals.outstanding_houses
outstanding_page-to_summary c houses page limit =
    select-length houses
    ∙ sym (ap (λ (p : Progress). p.outstanding_houses) (to_summary-progress_of c houses))
