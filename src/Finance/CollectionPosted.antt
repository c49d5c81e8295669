-- ===== src/Finance/CollectionPosted.antt =====
-- An answered `postValidatedCollection` leaves a posted transaction of the collection
-- (apps/api/src/modules/finance/infrastructure/prisma-finance.repository.ts).
use jimpitan.Base.{
  ℕ, String, Bool, true, false, none, List, [], ◌∷◌, if◌then◌else◌, ◌⊎◌, inl, inr, ◌≡◌, sym, subst,
  arith, Bool-cases,
}
use jimpitan.Base.Rows.{set_where, Has, select}
use jimpitan.Base.Kept.{Some, Some-weaken, Some-All, Kept}
use jimpitan.Finance.Schema.{TransactionRow}
use jimpitan.Finance.Platform.{Db, Platform}
use jimpitan.Finance.Monad.{ok}
use jimpitan.Finance.Tables.{is_posted, from_collection, create_transaction, update_transactions}
use jimpitan.Finance.History.{TransactionKept}

-- The row is posted and stands for the collection.
abbrev pub StandsFor : String → String → TransactionRow → Type 0
StandsFor rt_id collection_id t =
    (from_collection rt_id collection_id t ≡ true) × (is_posted t.status ≡ true)

abbrev pub IsPosted : String → String → List TransactionRow → Type 0
IsPosted rt_id collection_id rows = Some (StandsFor rt_id collection_id) rows

pub Has-Some :
    (R : TransactionRow → Type 0) (p : TransactionRow → Bool) (r : TransactionRow)
    (rows : List TransactionRow)
    → R r
    → Has p r rows
    → Some R rows
Has-Some R p r [] h m = m
Has-Some R p r (x ∷ xs) h (inl m) = inl (subst R (sym (m.0)) h)
Has-Some R p r (x ∷ xs) h (inr m) = inr (Has-Some R p r xs h m)

-- A posted row never changes, so the collection stays posted.
pub IsPosted-Kept :
    (rt_id collection_id : String) (rows later : List TransactionRow)
    → Kept TransactionKept rows later
    → IsPosted rt_id collection_id rows
    → IsPosted rt_id collection_id later
IsPosted-Kept rt_id collection_id rows later kept posted =
    Some-All (StandsFor rt_id collection_id) (λ t. Some (TransactionKept t) later)
      (Some (StandsFor rt_id collection_id) later)
      (λ t is others.
        Some-weaken (TransactionKept t) (StandsFor rt_id collection_id)
          (λ u k. unchanged t u is k.final) later others)
      rows posted kept
  where
    unchanged :
        (t u : TransactionRow)
        → StandsFor rt_id collection_id t
        → (is_posted t.status ≡ false) ⊎ (u ≡ t)
        → StandsFor rt_id collection_id u
    unchanged t u is (inl opened) = absurd (ground arith)
    unchanged t u is (inr same) = subst (StandsFor rt_id collection_id) (sym same) is

-- The rows after an update.
pub set_where-Some :
    (Q R : TransactionRow → Type 0) (p : TransactionRow → Bool)
    (f : TransactionRow → TransactionRow)
    → ((x : TransactionRow) → Q x → R (if p x then f x else x))
    → (rows : List TransactionRow) → Some Q rows
    → Some R (set_where p f rows)
set_where-Some Q R p f step [] h = h
set_where-Some Q R p f step (x ∷ xs) (inl h) = inl (step x h)
set_where-Some Q R p f step (x ∷ xs) (inr h) = inr (set_where-Some Q R p f step xs h)

module _ (P : Platform) where
  pub updated_rows :
      (p : TransactionRow → Bool) (f : TransactionRow → TransactionRow) (s u : Db) (n : ℕ)
      → update_transactions P p f s ≡ (ok n, u)
      → u.transactions ≡ set_where p f s.transactions
  unfolding update_transactions
  updated_rows p f s u n h = ground (arith, P.update_many_lem p f s.transactions)

  pub created_rows :
      (t r : TransactionRow) (s u : Db)
      → create_transaction P t s ≡ (ok r, u)
      → (r ≡ t) × (u.transactions ≡ t ∷ s.transactions)
  unfolding create_transaction
  created_rows t r s u h =
      (ground (arith, P.create_lem t s.transactions), ground (arith, P.create_lem t s.transactions))

  -- A posted collection has a transaction that a query finds.
  pub IsPosted-find_first :
      (rt_id collection_id : String) (rows : List TransactionRow)
      → IsPosted rt_id collection_id rows
      → P.find_first (from_collection rt_id collection_id) rows ≡ none
      → ⊥
  IsPosted-find_first rt_id collection_id rows posted e =
      none_selected rows posted (P.find_first_none (from_collection rt_id collection_id) rows e)
    where
      none_selected :
          (xs : List TransactionRow)
          → IsPosted rt_id collection_id xs
          → select (from_collection rt_id collection_id) xs ≡ []
          → ⊥
      none_selected [] h q = h
      none_selected (x ∷ xs) (inl h) q = ground arith
      none_selected (x ∷ xs) (inr h) q = elim (Bool-cases (from_collection rt_id collection_id x)) [
        | inl here ↦ ground arith
        | inr there ↦ none_selected xs h (rw there at q)
      ]
