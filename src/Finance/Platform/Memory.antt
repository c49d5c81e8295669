-- ===== src/Finance/Platform/Memory.antt =====
-- A platform over plain lists, which shows that the assumptions on the engine can be met and runs the
-- model on concrete tables.
use Prim.Native.Char.{code}
use Prim.Native.String.{String, char_at, ◌++◌ as ◌<>◌}
use jimpitan.Base.{
  ℕ, zero, suc, ◌/◌, ◌%◌, ◌+◌, ◌-◌, ◌*◌, ◌≤◌, ◌==◌, ◌≡◌, refl, sym, inl, inr, Bool, true, false,
  not, ◌&&◌, Option, none, some, List, [], ◌∷◌, map, subst, arith, leb, if◌then◌else◌, Bool-cases,
}
use jimpitan.Base.Int.{ℤ, pos, pos_part, leb_ℤ}
use jimpitan.Base.Rows.{select, set_where, length, Has, All, All-weaken, sum_of, first}
use jimpitan.Finance.Schema.{CashAccountRow, TransactionRow}
use jimpitan.Jimpitan.Schema.{CollectionRow}
use jimpitan.Base.Keys.{Distinct}
use jimpitan.Finance.Platform.{Platform, DistinctIds, DistinctTransactions}

module _ {Row : Type 0} where
  pub first-some :
      (p : Row → Bool) (rows : List Row) (r : Row) → first p rows ≡ some r → Has p r rows
  first-some p [] r e = cc
  first-some p (x ∷ xs) r e = elim (Bool-cases (p x)) [
    | inl h ↦ inl (ground arith)
    | inr h ↦ inr (first-some p xs r (rw h at e))
  ]

  pub first-none : (p : Row → Bool) (rows : List Row) → first p rows ≡ none → select p rows ≡ []
  first-none p [] e = refl
  first-none p (x ∷ xs) e = ground (arith, first-none p xs)

  -- The better of two rows by a key, the first one at a tie.
  abbrev better : (Row → ℕ) → Row → Option Row → Row
  better key x none = x
  better key x (some y) = if leb (key y) (key x) then x else y

  abbrev greatest : (Row → ℕ) → (Row → Bool) → List Row → Option Row
  greatest key p [] = none
  greatest key p (x ∷ xs) =
      let rest = greatest key p xs in if p x then some (better key x rest) else rest

  pub greatest-none :
      (key : Row → ℕ) (p : Row → Bool) (rows : List Row)
      → greatest key p rows ≡ none
      → select p rows ≡ []
  greatest-none key p [] e = refl
  greatest-none key p (x ∷ xs) e = ground (arith, greatest-none key p xs)

  abbrev IsGreatest : (Row → ℕ) → (Row → Bool) → List Row → Row → Type 0
  IsGreatest key p rows r = Has p r rows × All (λ x. key x ≤ key r) (select p rows)

  better-greatest :
      (key : Row → ℕ) (p : Row → Bool) (x : Row) (xs : List Row)
      → p x ≡ true
      → (o : Option Row) → greatest key p xs ≡ o
      → ((r : Row) → o ≡ some r → IsGreatest key p xs r)
      → IsGreatest key p (x ∷ xs) (better key x o)
  better-greatest key p x xs h none e rest =
      (inl (refl, h), rw (h, greatest-none key p xs e) (omega arith, tt))
  better-greatest key p x xs h (some y) e rest =
      let (m, top) = rest y refl in
      elim (Bool-cases (leb (key y) (key x))) [
        | inl le ↦
            let below : key y ≤ key x = ground arith in
            let q : better key x (some y) ≡ x = ground arith in
            subst (IsGreatest key p (x ∷ xs)) (sym q) (
              inl (refl, h),
              rw h (omega arith, All-weaken _ (λ z. key z ≤ key x) (λ z k. omega arith) _ top),
            )
        | inr gt ↦
            let q : better key x (some y) ≡ y = ground arith in
            subst (IsGreatest key p (x ∷ xs)) (sym q) (inr m, rw h (ground arith, top))
      ]

  pub greatest-some :
      (key : Row → ℕ) (p : Row → Bool) (rows : List Row) (r : Row)
      → greatest key p rows ≡ some r
      → IsGreatest key p rows r
  greatest-some key p [] r e = cc
  greatest-some key p (x ∷ xs) r e = elim (Bool-cases (p x)) [
    | inl h ↦
        let q : better key x (greatest key p xs) ≡ r = ground arith in
        subst (IsGreatest key p (x ∷ xs)) q
          (better-greatest key p x xs h (greatest key p xs) refl (λ y. greatest-some key p xs y))
    | inr h ↦ let (m, top) = greatest-some key p xs r (rw h at e) in (inr m, rw h top)
  ]

  abbrev total : (Row → ℤ) → (Row → Bool) → List Row → Option ℤ
  total f p rows = elim (select p rows) [ [] ↦ none | x ∷ xs ↦ some (sum_of f (x ∷ xs)) ]

  pub total_of :
      (f : Row → ℤ) (chosen : List Row) (v : ℤ)
      → (elim chosen [ [] ↦ none | x ∷ xs ↦ some (sum_of f (x ∷ xs)) ]) ≡ some v
      → v ≡ sum_of f chosen
  total_of f [] v e = cc
  total_of f (x ∷ xs) v e = cc

pub total_none :
    {Row : Type 0} (f : Row → ℤ) (chosen : List Row)
    → (elim chosen as (λ _. Option ℤ) [ [] ↦ none | x ∷ xs ↦ some (sum_of f (x ∷ xs)) ]) ≡ none
    → chosen ≡ []
total_none f [] e = refl
total_none f (x ∷ xs) e = cc

-- Is the identifier taken by none of these?
abbrev is_new : String → List String → Bool
is_new id [] = true
is_new id (i ∷ rest) = not (i == id) && is_new id rest

abbrev all_new : List String → Bool
all_new [] = true
all_new (i ∷ rest) = is_new i rest && all_new rest

-- The primary keys, as the unique index that is checked.
abbrev clash_of : List String → Option (List String)
clash_of ids = if all_new ids then none else some ("id" ∷ [])

account_is_new :
    (id : String) (rows : List CashAccountRow)
    → is_new id (map (λ a. a.id) rows) ≡ true
    → All (λ b. (b.id == id) ≡ false) rows
account_is_new id [] e = tt
account_is_new id (a ∷ rest) e = (ground arith, account_is_new id rest (ground arith))

pub accounts_distinct :
    (rows : List CashAccountRow) → clash_of (map (λ a. a.id) rows) ≡ none → DistinctIds rows
accounts_distinct [] e = tt
accounts_distinct (a ∷ rest) e =
    (account_is_new a.id rest (ground arith), accounts_distinct rest (ground arith))

collection_is_new :
    (id : String) (rows : List CollectionRow)
    → is_new id (map (λ c. c.id) rows) ≡ true
    → All (λ b. (b.id == id) ≡ false) rows
collection_is_new id [] e = tt
collection_is_new id (c ∷ rest) e = (ground arith, collection_is_new id rest (ground arith))

pub collections-Distinct :
    (rows : List CollectionRow) → clash_of (map (λ c. c.id) rows) ≡ none → Distinct (λ c. c.id) rows
collections-Distinct [] e = tt
collections-Distinct (c ∷ rest) e =
    (collection_is_new c.id rest (ground arith), collections-Distinct rest (ground arith))

transaction_is_new :
    (id : String) (rows : List TransactionRow)
    → is_new id (map (λ t. t.id) rows) ≡ true
    → All (λ u. (u.id == id) ≡ false) rows
transaction_is_new id [] e = tt
transaction_is_new id (t ∷ ts) e = (ground arith, transaction_is_new id ts (ground arith))

pub transactions_distinct :
    (rows : List TransactionRow)
    → clash_of (map (λ t. t.id) rows) ≡ none
    → DistinctTransactions rows
transactions_distinct [] e = tt
transactions_distinct (t ∷ ts) e =
    (transaction_is_new t.id ts (ground arith), transactions_distinct ts (ground arith))

-- The decimal digits of a number, with fuel for their count.
abbrev digits_text : ℕ → ℕ → String → String
digits_text zero n acc = acc
digits_text (suc fuel) n acc =
    let text = String.◌∷◌ (char_at "0123456789" (n % 10)) acc in
    let rest = digits_text fuel (n / 10) text in if leb n 9 then text else rest

abbrev fresh_id : ℕ → String
fresh_id zero = "#"
fresh_id (suc n) = "#" <> fresh_id n

-- Decimal digits, and a point that is followed by one digit or two.
abbrev is_digit : ℕ → Bool
is_digit c = leb b'0' c && leb c b'9'

abbrev cents_of : ℕ → String → Option ℕ
cents_of acc (String.◌∷◌ a String.[]) =
    if is_digit (code a) then some (acc * 100 + (code a - 48) * 10) else none
cents_of acc (String.◌∷◌ a (String.◌∷◌ b String.[])) =
    if is_digit (code a) && is_digit (code b)
    then some (acc * 100 + (code a - 48) * 10 + (code b - 48))
    else none
cents_of acc _ = none

abbrev digits_of : ℕ → String → Option ℕ
digits_of acc String.[] = some (acc * 100)
digits_of acc (String.◌∷◌ c s) =
    let rest = digits_of (acc * 10 + (code c - 48)) s in
    if leb b'.' (code c) && leb (code c) b'.'
    then cents_of acc s
    else (if is_digit (code c) then rest else none)

abbrev pub memory : Platform
memory = record {
  find_first = first;
  find_first_some = first-some;
  find_first_none = first-none;
  find_latest = greatest;
  find_latest_some = greatest-some;
  find_latest_none = greatest-none;
  find_many = select;
  find_many_lem = λ p rows. refl;
  sum = total;
  sum_some = λ f p rows v e. total_of f (select p rows) v e;
  sum_none = λ f p rows e. total_none f (select p rows) e;
  create = λ r rows. r ∷ rows;
  create_lem = λ r rows. refl;
  update_many = set_where;
  update_many_lem = λ p f rows. refl;
  update_count = λ p rows. length (select p rows);
  update_count_lem = λ p rows. refl;
  account_clash = λ rows. clash_of (map (λ a. a.id) rows);
  category_clash = λ rows. clash_of (map (λ c. c.id) rows);
  transaction_clash = λ rows. clash_of (map (λ t. t.id) rows);
  ledger_clash = λ rows. clash_of (map (λ l. l.id) rows);
  collection_clash = λ rows. clash_of (map (λ c. c.id) rows);
  outbox_clash = λ rows. clash_of (map (λ e. e.id) rows);
  approval_clash = λ rows. clash_of (map (λ a. a.id) rows);
  collection_clash_none = collections-Distinct;
  account_clash_none = accounts_distinct;
  transaction_clash_none = transactions_distinct;
  aborts = λ _. false;
  uuid = fresh_id;
  now = λ n. n;
  decimal = λ t. elim (digits_of 0 t) [ none ↦ none | some n ↦ some (pos n) ];
  decimal_text = λ v. digits_text 20 (pos_part v / 100) "";
  lte_text = λ v t. elim (digits_of 0 t) [ none ↦ none | some n ↦ some (leb_ℤ v (pos n)) ];
}
