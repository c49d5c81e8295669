-- ===== src/Jimpitan/Pages.antt =====
-- The pages of the outstanding houses: `getOutstandingHouses` of
-- apps/api/src/modules/jimpitan/infrastructure/prisma-jimpitan.repository.ts.
use native.Mathlib.Numerals.{unary_clauses}
use native.Mathlib.Nat.{mod-lt, mod-add-div'}
use jimpitan.Base.{
  ℕ, zero, suc, ◌+◌, ◌-◌, ◌*◌, ◌≤◌, ◌<◌, List, [], ◌∷◌, ◌++◌, ◌≡◌, refl, sym, ap, ◌∙◌, arith,
}
use jimpitan.Base.Rows.{length, select}
use jimpitan.Jimpitan.Checklist.{CollectionChecklistHouse}
use jimpitan.Jimpitan.Summary.{take, drop, page_of, total_pages, is_outstanding, outstanding_page}

zero_plus : (b : ℕ) → b ≡ 0 + b
zero_plus b = omega arith

suc_plus : (a b : ℕ) → suc (a + b) ≡ suc a + b
suc_plus a b = omega arith

zero_times : (b : ℕ) → 0 * b ≡ 0
zero_times b = omega arith

module _ {A : Type 0} where
  take-whole : (n : ℕ) (xs : List A) → length xs ≤ n → take n xs ≡ xs
  take-whole zero [] h = refl
  take-whole zero (x ∷ xs) h = absurd (omega arith)
  take-whole (suc n) [] h = refl
  take-whole (suc n) (x ∷ xs) h = ap (λ ys. x ∷ ys) (take-whole n xs (omega arith))

  take-drop : (a b : ℕ) (xs : List A) → take a xs ++ take b (drop a xs) ≡ take (a + b) xs
  take-drop zero b xs = ap (λ n. take n xs) (zero_plus b)
  take-drop (suc a) zero [] = simp unary_clauses refl
  take-drop (suc a) (suc b) [] = simp unary_clauses refl
  take-drop (suc a) b (x ∷ xs) =
      ap (λ (ys : List A). x ∷ ys) (take-drop a b xs) ∙ ap (λ n. take n (x ∷ xs)) (suc_plus a b)

  drop-drop : (a b : ℕ) (xs : List A) → drop b (drop a xs) ≡ drop (a + b) xs
  drop-drop zero b xs = ap (λ n. drop n xs) (zero_plus b)
  drop-drop (suc a) zero [] = simp unary_clauses refl
  drop-drop (suc a) (suc b) [] = simp unary_clauses refl
  drop-drop (suc a) b (x ∷ xs) = drop-drop a b xs ∙ ap (λ n. drop n (x ∷ xs)) (suc_plus a b)

  -- The pages from one on, a number of them, in a row.
  abbrev pages_from : List A → ℕ → ℕ → ℕ → List A
  pages_from xs limit k zero = []
  pages_from xs limit k (suc m) = page_of xs (suc k) limit ++ pages_from xs limit (suc k) m

  pages_from-take :
      (xs : List A) (limit k m : ℕ)
      → pages_from xs limit k m ≡ take (m * limit) (drop (k * limit) xs)
  pages_from-take xs limit k zero = ap (λ n. take n (drop (k * limit) xs)) e
    where
      e : 0 ≡ 0 * limit
      e = omega arith
  pages_from-take xs limit k (suc m) =
      let rest = pages_from-take xs limit (suc k) m in
      let next : suc k * limit ≡ k * limit + limit = omega arith in
      let ys = drop (k * limit) xs in
      let after : drop (suc k * limit) xs ≡ drop limit ys =
        ap (λ n. drop n xs) next ∙ sym (drop-drop (k * limit) limit xs) in
      let more : limit + m * limit ≡ suc m * limit = omega arith in
      ap (λ zs. take limit ys ++ zs) (rest ∙ ap (take (m * limit)) after)
      ∙ (take-drop limit (m * limit) ys ∙ ap (λ n. take n ys) more)

enough_pages : (n limit : ℕ) → 0 < limit → n ≤ total_pages n limit * limit
enough_pages n limit h =
    let r = mod-lt (n + limit - 1) h in let q = mod-add-div' (n + limit - 1) limit in omega arith

-- The items of some pages in a row, each as its request is answered.
abbrev pub answered_pages :
    List CollectionChecklistHouse → ℕ → ℕ → ℕ → List CollectionChecklistHouse
answered_pages houses limit k zero = []
answered_pages houses limit k (suc m) =
    (outstanding_page houses (suc k) limit).items ++ answered_pages houses limit (suc k) m

answered_pages-from :
    (houses : List CollectionChecklistHouse) (limit k m : ℕ)
    → answered_pages houses limit k m ≡ pages_from (select is_outstanding houses) limit k m
answered_pages-from houses limit k zero = refl
answered_pages-from houses limit k (suc m) =
    ap (λ zs. (outstanding_page houses (suc k) limit).items ++ zs)
      (answered_pages-from houses limit (suc k) m)

-- The pages of an answer, from the first to the number that it gives, have every outstanding house
-- once and in order, where the limit is at least 1.
pub outstanding_page-select :
    (houses : List CollectionChecklistHouse) (page limit : ℕ)
    → 0 < limit
    → answered_pages houses limit 0 ((outstanding_page houses page limit).total_pages)
      ≡ select is_outstanding houses
outstanding_page-select houses page limit h =
    let rows = select is_outstanding houses in
    let n = total_pages (length rows) limit in
    let start : drop (0 * limit) rows ≡ rows = ap (λ k. drop k rows) (zero_times limit) in
    answered_pages-from houses limit 0 n
    ∙ (pages_from-take rows limit 0 n
        ∙ (ap (take (n * limit)) start
            ∙ take-whole (n * limit) rows (enough_pages (length rows) limit h)))
