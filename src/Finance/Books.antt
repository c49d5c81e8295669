-- ===== src/Finance/Books.antt =====
-- How statements compose, whether they change the books, and what `$transaction` and the retries leave
-- of a body's writes.
use jimpitan.Base.{
  ℕ, zero, suc, ◌≡◌, refl, sym, ap, subst, [], inl, inr, not, ◌||◌, arith, ltb, Bool-cases,
}
use jimpitan.Finance.Platform.{Db, Platform}
use jimpitan.Finance.Monad.{
  catch, Error, known_request, p2034, Result, ok, err, Tx, ◌>>=◌, ◌>>◌, transaction, next_tick,
}
use jimpitan.Finance.Retry.{
  budget_exhausted, is_serialization_conflict, retry_from, with_serializable_retry,
}

-- The two states agree on all tables but the audit log.
pub record SameBooks (s s' : Db) : Type 0 where
  pub accounts : s'.accounts ≡ s.accounts
  pub categories : s'.categories ≡ s.categories
  pub transactions : s'.transactions ≡ s.transactions
  pub ledgers : s'.ledgers ≡ s.ledgers
  pub collections : s'.collections ≡ s.collections
  pub items : s'.items ≡ s.items
  pub approvals : s'.approvals ≡ s.approvals
  pub settings : s'.settings ≡ s.settings
  pub directory : s'.directory ≡ s.directory
  pub notifications : s'.notifications ≡ s.notifications
  pub outbox : s'.outbox ≡ s.outbox
  pub bindings : s'.bindings ≡ s.bindings

pub SameBooks-refl : (s : Db) → SameBooks s s
SameBooks-refl s = ground arith

pub SameBooks-trans : (s t u : Db) → SameBooks s t → SameBooks t u → SameBooks s u
SameBooks-trans s t u h k = ground arith

module _ {A B : Type 0} where
  -- A successful sequence of two statements.
  pub record Sequence (m : Tx A) (f : A → Tx B) (s : Db) (b : B) (u : Db) : Type 0 where
    pub value : A
    pub between : Db
    pub before : m s ≡ (ok value, between)
    pub after : f value between ≡ (ok b, u)

  split_result :
      (r : Result A × Db) (m : Tx A) (f : A → Tx B) (s : Db) (b : B) (u : Db)
      → m s ≡ r
      → (m >>= f) s ≡ (ok b, u)
      → Sequence m f s b u
  split_result (ok a, t) m f s b u e h = record {
    value = a;
    between = t;
    before = e;
    after = ground arith;
  }
  split_result (err x, t) m f s b u e h = absurd (ground arith)

  pub bind-ok :
      (m : Tx A) (f : A → Tx B) (s : Db) (b : B) (u : Db)
      → (m >>= f) s ≡ (ok b, u)
      → Sequence m f s b u
  bind-ok m f s b u h = split_result (m s) m f s b u refl h

-- A check that writes nothing drops out of a successful sequence.
pub check-ok :
    {B : Type 0} (m : Tx (Unit {0})) (k : Tx B)
    → ((s u : Db) → m s ≡ (ok tt, u) → u ≡ s)
    → (s : Db) (b : B) (u : Db) → (m >> k) s ≡ (ok b, u)
    → (m s ≡ (ok tt, s)) × (k s ≡ (ok b, u))
check-ok m k same s b u h =
    let q = bind-ok m (λ _. k) s b u h in
    let e = same s q.between q.before in
    (subst (λ x. m s ≡ (ok tt, x)) e q.before, subst (λ x. k x ≡ (ok b, u)) e q.after)

-- The end of a run of `transaction`, or of several: the books are as before, or a run of the body from
-- the same books has succeeded and its books are kept.
pub record Committed {A : Type 0} (body : Tx A) (s : Db) (a : A) (s' : Db) : Type 0 where
  pub start : Db
  pub end : Db
  pub same_start : SameBooks s start
  pub ran : body start ≡ (ok a, end)
  pub same_end : SameBooks end s'

abbrev pub Outcome : {A : Type 0} → Tx A → Db → Result A × Db → Type 0
Outcome body s (ok a, s') = Committed body s a s'
Outcome body s (err _, s') = SameBooks s s'

module _ (P : Platform) {A : Type 0} (body : Tx A) where
  transaction_result :
      (s : Db) (r : Result A × Db) → body s ≡ r → Outcome body s (transaction P body s)
  transaction_result s (err e, t) h =
      let rolled_back : Result A × Db = (err e, record s { tick = suc t.tick }) in
      let q : transaction P body s ≡ rolled_back = ground arith in
      subst (Outcome body s) (sym q) (ground arith)
  transaction_result s (ok a, t) h = elim (Bool-cases (P.aborts t.tick)) [
    | inl stop ↦
        let rolled_back : Result A × Db =
          (err (known_request p2034 []), record s { tick = suc t.tick }) in
        let q : transaction P body s ≡ rolled_back = ground arith in
        subst (Outcome body s) (sym q) (ground arith)
    | inr go ↦
        let kept : Result A × Db = (ok a, next_tick t) in
        let q : transaction P body s ≡ kept = ground arith in
        let committed : Committed body s a (next_tick t) = record {
          start = s;
          end = t;
          same_start = SameBooks-refl s;
          ran = h;
          same_end = ground arith;
        } in
        subst (Outcome body s) (sym q) committed
  ]

  -- A throw of the body, or an abort at its commit, leaves the books as they were.
  pub transaction-Outcome : (s : Db) → Outcome body s (transaction P body s)
  transaction-Outcome s = transaction_result s (body s) refl

-- An attempt that starts from the same books has the outcome that one from the first state has.
Outcome-from :
    {A : Type 0} (body : Tx A) (s t : Db) (r : Result A × Db)
    → SameBooks s t
    → Outcome body t r
    → Outcome body s r
Outcome-from body s t (ok a, u) same o = record {
  start = o.start;
  end = o.end;
  same_start = SameBooks-trans s t o.start same o.same_start;
  ran = o.ran;
  same_end = o.same_end;
}
Outcome-from body s t (err e, u) same o = SameBooks-trans s t u same o

module _ {A : Type 0} (exhausted : Error) (body operation : Tx A)
    (each : (s : Db) → Outcome body s (operation s)) where
  -- One round of the loop, with the rest of the loop given.
  round-Outcome :
      (s : Db) (n : ℕ) (r : Result A × Db)
      → operation s ≡ r
      → Outcome body s r
      → ((t : Db) → Outcome body t (retry_from exhausted n operation t))
      → Outcome body s (retry_from exhausted (suc n) operation s)
  unfolding retry_from
  round-Outcome s n (ok a, t) e o rest =
      let done : Result A × Db = (ok a, t) in
      let q : retry_from exhausted (suc n) operation s ≡ done = ground arith in
      subst (Outcome body s) (sym q) o
  round-Outcome s n (err x, t) e o rest =
      elim (Bool-cases (not (is_serialization_conflict x) || not (ltb 0 n))) [
        | inl stop ↦
            let failed : Result A × Db = (err x, t) in
            let q : retry_from exhausted (suc n) operation s ≡ failed = ground arith in
            subst (Outcome body s) (sym q) o
        | inr more ↦
            let q : retry_from exhausted (suc n) operation s ≡ retry_from exhausted n operation t =
              ground arith in
            subst (Outcome body s) (sym q)
              (Outcome-from body s t (retry_from exhausted n operation t) o (rest t))
      ]

  pub retry_from-Outcome : (n : ℕ) (s : Db) → Outcome body s (retry_from exhausted n operation s)
  retry_from-Outcome zero s = unfold retry_from in SameBooks-refl s
  retry_from-Outcome (suc n) s =
      round-Outcome s n (operation s) refl (each s) (λ t. retry_from-Outcome n t)

-- The outcome of a body under `withSerializableRetry` and `$transaction`.
pub serializable-Outcome :
    (P : Platform) {A : Type 0} (body : Tx A) (s : Db)
    → Outcome body s (with_serializable_retry (transaction P body) s)
unfolding with_serializable_retry
serializable-Outcome P body s =
    retry_from-Outcome budget_exhausted body (transaction P body) (transaction-Outcome P body) 3 s

module _ {A : Type 0} (m : Tx A) (h : Error → Tx A) (s t : Db) where
  pub catch-ok : (a : A) → m s ≡ (ok a, t) → catch m h s ≡ (ok a, t)
  catch-ok a e = ground arith

  pub catch-err : (x : Error) → m s ≡ (err x, t) → catch m h s ≡ h x t
  catch-err x e = ap (λ (w : Result A × Db). elim (w.0) [ ok a ↦ (ok a, w.1) | err y ↦ h y w.1 ]) e
