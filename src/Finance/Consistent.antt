-- ===== src/Finance/Consistent.antt =====
-- The invariant of the cash accounts and their ledgers.
use jimpitan.Base.{
  String, ◌==◌, eq_iff, ◌≡◌, refl, sym, subst, ◌∙◌, Bool, true, false, List, [], ◌∷◌, arith,
  Bool-cases, inl, inr, ◌⊎◌,
}
use jimpitan.Base.Rows.{select, set_where, length, All, All-weaken}
use jimpitan.Finance.Schema.{
  AuthPrincipal, FinanceRequestMeta, CashAccountRow, TransactionRow, LedgerRow,
}
use jimpitan.Finance.Platform.{Db, Platform, DistinctIds}
use jimpitan.Finance.Tables.{active_account, of_account}
use jimpitan.Finance.Posting.{latest_balance}
use jimpitan.Finance.Posting.Append.{Appended, lock_account, write_balance}
use jimpitan.Finance.Chain.{newest, Continues, Chain, entries, find_latest-newest}

-- The balance column is the balance of the account's newest ledger row, or 0 where it has none.
abbrev pub IsBalanced : List LedgerRow → CashAccountRow → Type 0
IsBalanced ledgers a =
    a.current_balance ≡ latest_balance (newest (select (of_account a.rt_id a.id) ledgers))

-- An account of the table has the identifier.
abbrev pub HasId : String → List CashAccountRow → Type 0
HasId id [] = ⊥
HasId id (a ∷ rows) = (a.id ≡ id) ⊎ HasId id rows

pub record IsConsistent (s : Db) : Type 0 where
  pub chains : (rt_id account_id : String) → Chain (entries rt_id account_id s)
  pub balances : All (IsBalanced s.ledgers) s.accounts
  pub distinct : DistinctIds s.accounts
  pub owned : All (λ l. HasId l.cash_account_id s.accounts) s.ledgers

pub set_where-HasId :
    (p : CashAccountRow → Bool) (f : CashAccountRow → CashAccountRow) (id : String)
    → ((a : CashAccountRow) → (f a).id ≡ a.id)
    → (rows : List CashAccountRow) → HasId id rows
    → HasId id (set_where p f rows)
set_where-HasId p f id same [] h = h
set_where-HasId p f id same (x ∷ xs) (inl e) = inl (ground (arith, same x))
set_where-HasId p f id same (x ∷ xs) (inr h) = inr (set_where-HasId p f id same xs h)

-- An update that leaves the identifiers alone keeps them distinct.
pub set_where-other_ids :
    (p : CashAccountRow → Bool) (f : CashAccountRow → CashAccountRow) (id : String)
    → ((a : CashAccountRow) → (f a).id ≡ a.id)
    → (rows : List CashAccountRow) → All (λ b. (b.id == id) ≡ false) rows
    → All (λ b. (b.id == id) ≡ false) (set_where p f rows)
set_where-other_ids p f id same [] h = tt
set_where-other_ids p f id same (x ∷ xs) h =
    (ground (arith, same x), set_where-other_ids p f id same xs h.1)

pub set_where-DistinctIds :
    (p : CashAccountRow → Bool) (f : CashAccountRow → CashAccountRow)
    → ((a : CashAccountRow) → (f a).id ≡ a.id)
    → (rows : List CashAccountRow) → DistinctIds rows
    → DistinctIds (set_where p f rows)
set_where-DistinctIds p f same [] h = tt
set_where-DistinctIds p f same (x ∷ xs) h = elim (Bool-cases (p x)) [
  | inl e ↦
      rw (e, same x)
        (set_where-other_ids p f x.id same xs h.0, set_where-DistinctIds p f same xs h.1)
  | inr e ↦ rw e (set_where-other_ids p f x.id same xs h.0, set_where-DistinctIds p f same xs h.1)
]

-- Where one active account has the identifier, every account with it is that one.
module _ (rt_id account_id : String) where
  abbrev IsOnly : CashAccountRow → Type 0
  IsOnly a = (a.id == account_id) ≡ true → active_account rt_id account_id a ≡ true

  rest_IsOnly :
      (x : CashAccountRow) (xs : List CashAccountRow)
      → (x.id == account_id) ≡ true
      → All (λ b. (b.id == x.id) ≡ false) xs
      → All IsOnly xs
  rest_IsOnly x [] e h = tt
  rest_IsOnly x (y ∷ ys) e h = (
    (λ k. ground (arith, eq_iff x.id account_id, eq_iff y.id account_id, eq_iff y.id x.id)),
    rest_IsOnly x ys e h.1,
  )

  head_differs :
      (x : CashAccountRow) (xs : List CashAccountRow)
      → All (λ b. (b.id == x.id) ≡ false) xs
      → length (select (active_account rt_id account_id) xs) ≡ 1
      → (x.id == account_id) ≡ false
  head_differs x [] h e = absurd (omega arith)
  head_differs x (y ∷ ys) h e = elim (Bool-cases (active_account rt_id account_id y)) [
    | inl m ↦ ground (arith, eq_iff x.id account_id, eq_iff y.id account_id, eq_iff y.id x.id)
    | inr m ↦ head_differs x ys h.1 (rw m at e)
  ]

  one_account_IsOnly :
      (rows : List CashAccountRow)
      → DistinctIds rows
      → length (select (active_account rt_id account_id) rows) ≡ 1
      → All IsOnly rows
  one_account_IsOnly [] h e = tt
  one_account_IsOnly (x ∷ xs) h e = elim (Bool-cases (active_account rt_id account_id x)) [
    | inl m ↦ ((λ _. m), rest_IsOnly x xs (ground arith) h.0)
    | inr m ↦ (
      (λ k. ground (arith, head_differs x xs h.0 (rw m at e))),
      one_account_IsOnly xs h.1 (rw m at e),
    )
  ]

  one_account-HasId :
      (rows : List CashAccountRow)
      → length (select (active_account rt_id account_id) rows) ≡ 1
      → HasId account_id rows
  one_account-HasId [] e = absurd (omega arith)
  one_account-HasId (x ∷ xs) e = elim (Bool-cases (active_account rt_id account_id x)) [
    | inl m ↦ inl (ground (arith, eq_iff x.id account_id))
    | inr m ↦ inr (one_account-HasId xs (rw m at e))
  ]

  -- The balance column after the append of a row to the account.
  balances_after :
      (actor : AuthPrincipal) (ledgers : List LedgerRow) (l : LedgerRow)
      → l.rt_id ≡ rt_id
      → l.cash_account_id ≡ account_id
      → (rows : List CashAccountRow) → All IsOnly rows
      → All (IsBalanced ledgers) rows
      → All (IsBalanced (l ∷ ledgers)) (
          set_where
            (active_account rt_id account_id)
            (write_balance actor l.balance_after)
            (set_where (active_account rt_id account_id) (lock_account actor) rows))
  balances_after actor ledgers l er ea [] o b = tt
  balances_after actor ledgers l er ea (x ∷ xs) o b = (
    ground (
      arith,
      o.0,
      eq_iff x.id account_id,
      eq_iff x.rt_id rt_id,
      eq_iff l.rt_id x.rt_id,
      eq_iff l.cash_account_id x.id,
    ),
    balances_after actor ledgers l er ea xs o.1 b.1,
  )

module _ (P : Platform) (rt_id : String) (t : TransactionRow) (actor : AuthPrincipal)
    (meta : FinanceRequestMeta) (s s' : Db) (l : LedgerRow) (c : IsConsistent s)
    (w : Appended P rt_id t actor meta s s' l) where
  pub appended-Continues : Continues (newest (entries rt_id t.cash_account_id s)) l
  appended-Continues =
      let e = find_latest-newest P rt_id t.cash_account_id s (c.chains rt_id t.cash_account_id) in
      ground (arith, e, w)

  appended-Chain : (r a : String) → Chain (select (of_account r a) (l ∷ s.ledgers))
  appended-Chain r a = elim (Bool-cases (of_account r a l)) [
    | inl m ↦
        let er : r ≡ rt_id = ground (arith, w, eq_iff l.rt_id r) in
        let ea : a ≡ t.cash_account_id = ground (arith, w, eq_iff l.cash_account_id a) in
        let here =
          subst (λ x. Continues (newest (entries x t.cash_account_id s)) l) (sym er)
            appended-Continues in
        rw m (subst (λ y. Continues (newest (entries r y s)) l) (sym ea) here, c.chains r a)
    | inr m ↦ rw m (c.chains r a)
  ]

  appended-balances : All (IsBalanced (l ∷ s.ledgers)) (
      set_where
        (active_account rt_id t.cash_account_id)
        (write_balance actor l.balance_after)
        (set_where (active_account rt_id t.cash_account_id) (lock_account actor) s.accounts))
  appended-balances =
      let mine = active_account rt_id t.cash_account_id in
      let one = sym (P.update_count_lem mine s.accounts) ∙ w.one_account in
      balances_after rt_id t.cash_account_id actor s.ledgers l (ground (arith, w))
        (ground (arith, w)) s.accounts
        (one_account_IsOnly rt_id t.cash_account_id s.accounts c.distinct one) c.balances

  appended-distinct : DistinctIds (
      set_where
        (active_account rt_id t.cash_account_id)
        (write_balance actor l.balance_after)
        (set_where (active_account rt_id t.cash_account_id) (lock_account actor) s.accounts))
  appended-distinct =
      set_where-DistinctIds _ (write_balance actor l.balance_after) (λ _. refl) _
        (set_where-DistinctIds _ (lock_account actor) (λ _. refl) s.accounts c.distinct)

  abbrev accounts_after : List CashAccountRow
  accounts_after =
      let mine = active_account rt_id t.cash_account_id in
      set_where mine (write_balance actor l.balance_after)
        (set_where mine (lock_account actor) s.accounts)

  appended-accounts : s'.accounts ≡ accounts_after
  appended-accounts = simp (w.accounts, P.update_many_lem)

  appended-owned : All (λ r. HasId r.cash_account_id accounts_after) (l ∷ s.ledgers)
  appended-owned =
      let mine = active_account rt_id t.cash_account_id in
      let one = sym (P.update_count_lem mine s.accounts) ∙ w.one_account in
      let kept = λ (id : String) (h : HasId id s.accounts).
        set_where-HasId mine (write_balance actor l.balance_after) id (λ _. refl) _
          (set_where-HasId mine (lock_account actor) id (λ _. refl) s.accounts h) in
      let here : t.cash_account_id ≡ l.cash_account_id = ground (arith, w) in
      (
        kept l.cash_account_id (
            subst (λ x. HasId x s.accounts) here
              (one_account-HasId rt_id t.cash_account_id s.accounts one)),
        All-weaken (λ r. HasId r.cash_account_id s.accounts) _ (λ r h. kept r.cash_account_id h)
            s.ledgers c.owned,
      )

  pub append-IsConsistent : IsConsistent s'
  append-IsConsistent = record {
    chains = λ r a. rw (w.ledgers, P.create_lem l s.ledgers) (appended-Chain r a);
    balances = simp (w.ledgers, w.accounts, P.create_lem, P.update_many_lem) appended-balances;
    distinct = simp (w.accounts, P.update_many_lem) appended-distinct;
    owned =
        subst (λ x. All (λ r. HasId r.cash_account_id x) s'.ledgers) (sym appended-accounts)
          (subst (λ x. All (λ r. HasId r.cash_account_id accounts_after) x)
            (sym (w.ledgers ∙ P.create_lem l s.ledgers)) appended-owned);
  }

-- The invariant speaks of two tables.
pub tables-IsConsistent :
    (s s' : Db)
    → s'.accounts ≡ s.accounts
    → s'.ledgers ≡ s.ledgers
    → IsConsistent s
    → IsConsistent s'
tables-IsConsistent s s' ea el c = record {
  chains = λ r a. subst (λ x. Chain (select (of_account r a) x)) (sym el) (c.chains r a);
  balances =
      subst (λ x. All (IsBalanced s'.ledgers) x) (sym ea)
        (subst (λ x. All (IsBalanced x) s.accounts) (sym el) c.balances);
  distinct = subst DistinctIds (sym ea) c.distinct;
  owned =
      subst (λ x. All (λ l. HasId l.cash_account_id x) s'.ledgers) (sym ea)
        (subst (λ x. All (λ l. HasId l.cash_account_id s.accounts) x) (sym el) c.owned);
}
