-- ===== src/Finance/Post/Updated.antt =====
-- The row that is read back after an update of one transaction is the updated row: identifiers are
-- distinct, so no other row can be meant.
use jimpitan.Base.{
  String, ◌==◌, eq_iff, ◌≡◌, refl, ◌∙◌, inl, inr, Bool, true, false, List, [], ◌∷◌, arith,
  Bool-cases,
}
use jimpitan.Base.Rows.{select, set_where, length, Has, All}
use jimpitan.Finance.Schema.{TransactionRow}
use jimpitan.Finance.Platform.{DistinctTransactions}
use jimpitan.Finance.Tables.{live_transaction}

module _ (rt_id id : String) (p : TransactionRow → Bool) (f : TransactionRow → TransactionRow)
    (names : (x : TransactionRow) → p x ≡ true → x.id ≡ id)
    (keeps : (x : TransactionRow) → (f x).id ≡ x.id) where
  abbrev WithId : TransactionRow → Type 0
  WithId r = r.id ≡ id

  -- No row with the identifier stands among rows that differ from one with it.
  none_below :
      (x r : TransactionRow) (rows : List TransactionRow)
      → x.id ≡ id
      → All (λ u. (u.id == x.id) ≡ false) rows
      → Has (live_transaction rt_id id) r rows
      → ⊥
  none_below x r [] e h m = m
  none_below x r (y ∷ ys) e h (inl m) = ground (arith, eq_iff y.id x.id, eq_iff y.id id)
  none_below x r (y ∷ ys) e h (inr m) = none_below x r ys e h.1 m

  -- A row that differs from the rest has not the identifier, if the update changes one of the rest.
  other_below :
      (x : TransactionRow) (rows : List TransactionRow)
      → All (λ u. (u.id == x.id) ≡ false) (set_where p f rows)
      → length (select p rows) ≡ 1
      → (x.id == id) ≡ false
  other_below x [] h e = absurd (omega arith)
  other_below x (y ∷ ys) h e = elim (Bool-cases (p y)) [
    | inl m ↦ ground (arith, names y m, keeps y, eq_iff (f y).id x.id, eq_iff x.id id)
    | inr m ↦ other_below x ys h.1 (rw m at e)
  ]

  -- A row of the table that the clause selects, and that the update turns into the given row.
  abbrev Source : TransactionRow → List TransactionRow → Type 0
  Source r rows = (x : TransactionRow) × Has p x rows × (f x ≡ r)

  changed_head :
      (r x : TransactionRow) (xs : List TransactionRow)
      → p x ≡ true
      → All (λ u. (u.id == (f x).id) ≡ false) (set_where p f xs)
      → Has (live_transaction rt_id id) r (f x ∷ set_where p f xs)
      → Source r (x ∷ xs)
  changed_head r x xs e d (inl m) = (x, inl (refl, e), m.0)
  changed_head r x xs e d (inr m) =
      absurd (none_below (f x) r (set_where p f xs) (keeps x ∙ names x e) d m)

  kept_head :
      (r x : TransactionRow) (xs : List TransactionRow)
      → (x.id == id) ≡ false
      → (Has (live_transaction rt_id id) r (set_where p f xs) → Source r xs)
      → Has (live_transaction rt_id id) r (x ∷ set_where p f xs)
      → Source r (x ∷ xs)
  kept_head r x xs e rest (inl m) = absurd (ground arith)
  kept_head r x xs e rest (inr m) = let (y, h, q) = rest m in (y, inr h, q)

  pub updated_row :
      (r : TransactionRow) (rows : List TransactionRow)
      → DistinctTransactions (set_where p f rows)
      → length (select p rows) ≡ 1
      → Has (live_transaction rt_id id) r (set_where p f rows)
      → Source r rows
  updated_row r [] d e m = absurd m
  updated_row r (x ∷ xs) d e m = elim (Bool-cases (p x)) [
    | inl here ↦ changed_head r x xs here (rw here at d).0 (rw here at m)
    | inr other ↦
        kept_head r x xs (other_below x xs (rw other at d).0 (rw other at e))
          (updated_row r xs d.1 (rw other at e)) (rw other at m)
  ]
