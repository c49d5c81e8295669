-- ===== src/Finance/Chain.antt =====
-- The ledger of a cash account as a chain: each row, from the newest to the first, continues the row
-- below it. The rows are those of the table `cash_ledgers` that one account has.
use jimpitan.Base.{
  ◌+◌, ◌≤◌, String, ◌≡◌, refl, sym, ◌⊎◌, inl, inr, Bool, Option, none, some, List, [], ◌∷◌, arith,
  Option-cases,
}
use jimpitan.Base.Int.{ℤ, pos, ◌≤ℤ◌}
use jimpitan.Base.Rows.{select, length, Has, All}
use jimpitan.Finance.Schema.{LedgerRow}
use jimpitan.Finance.Platform.{Db, Platform}
use jimpitan.Finance.Tables.{of_account}
use jimpitan.Finance.Posting.{moved, latest_sequence, latest_balance}

abbrev pub newest : List LedgerRow → Option LedgerRow
newest [] = none
newest (l ∷ _) = some l

-- The row continues the account whose newest row is given: the next number, the balance carried over,
-- the arithmetic of the entry, and no debt.
pub record Continues (latest : Option LedgerRow) (l : LedgerRow) : Type 0 where
  pub numbered : l.ledger_sequence ≡ latest_sequence latest + 1
  pub carried : l.balance_before ≡ latest_balance latest
  pub computed : l.balance_after ≡ moved l.entry_type l.balance_before l.amount
  pub covered : pos 0 ≤ℤ l.balance_after

abbrev pub Chain : List LedgerRow → Type 0
Chain [] = Unit
Chain (l ∷ ls) = Continues (newest ls) l × Chain ls

abbrev pub entries : String → String → Db → List LedgerRow
entries rt_id account_id s = select (of_account rt_id account_id) s.ledgers

abbrev Among : LedgerRow → List LedgerRow → Type 0
Among r [] = ⊥
Among r (x ∷ xs) = (x ≡ r) ⊎ Among r xs

Has-select :
    (p : LedgerRow → Bool) (r : LedgerRow) (rows : List LedgerRow)
    → Has p r rows
    → Among r (select p rows)
Has-select p r [] h = h
Has-select p r (x ∷ xs) (inl e) = ground arith
Has-select p r (x ∷ xs) (inr h) = ground (arith, Has-select p r xs h)

-- No row of a chain is numbered above the newest.
below_newest :
    (r : LedgerRow) (xs : List LedgerRow)
    → Chain xs
    → Among r xs
    → r.ledger_sequence ≤ latest_sequence (newest xs)
below_newest r [] c m = absurd m
below_newest r (x ∷ xs) c (inl e) = ground arith
below_newest r (x ∷ xs) c (inr m) = ground (arith, below_newest r xs c.1 m)

top-newest :
    (r : LedgerRow) (xs : List LedgerRow)
    → Chain xs
    → Among r xs
    → All (λ x. x.ledger_sequence ≤ r.ledger_sequence) xs
    → newest xs ≡ some r
top-newest r [] c m a = absurd m
top-newest r (x ∷ xs) c (inl e) a = ground arith
top-newest r (x ∷ xs) c (inr m) a = ground (arith, below_newest r xs c.1 m)

-- The row that the repository reads as the latest is the newest of the chain.
pub find_latest-newest :
    (P : Platform) (rt_id account_id : String) (s : Db)
    → Chain (entries rt_id account_id s)
    → P.find_latest (λ l. l.ledger_sequence) (of_account rt_id account_id) s.ledgers
      ≡ newest (entries rt_id account_id s)
find_latest-newest P rt_id account_id s c =
    let p = of_account rt_id account_id in
    elim (Option-cases (P.find_latest (λ l. l.ledger_sequence) p s.ledgers)) [
      | inl e ↦ rw (e, P.find_latest_none (λ l. l.ledger_sequence) p s.ledgers e) refl
      | inr (r, e) ↦
          let (m, top) = P.find_latest_some (λ l. l.ledger_sequence) p s.ledgers r e in
          rw e (sym (top-newest r _ c (Has-select p r s.ledgers m) top))
    ]

-- What the entries of a chain have moved in sum.
abbrev pub net : List LedgerRow → ℤ
net [] = pos 0
net (l ∷ ls) = moved l.entry_type (net ls) l.amount

pub latest_balance-net : (xs : List LedgerRow) → Chain xs → latest_balance (newest xs) ≡ net xs
latest_balance-net [] c = refl
latest_balance-net (x ∷ xs) c = ground (arith, latest_balance-net xs c.1)

pub latest_sequence-length :
    (xs : List LedgerRow) → Chain xs → latest_sequence (newest xs) ≡ length xs
latest_sequence-length [] c = refl
latest_sequence-length (x ∷ xs) c = ground (arith, latest_sequence-length xs c.1)
