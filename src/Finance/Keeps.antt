-- ===== src/Finance/Keeps.antt =====
-- How statements that respect the history relation compose, with the ways in which
-- apps/api/src/modules/finance/infrastructure/prisma-finance.repository.ts composes them.
use jimpitan.Base.{
  ℕ, zero, suc, [], ltb, ◌||◌, Bool, true, false, not, ◌≡◌, refl, sym, subst, inl, inr,
  if◌then◌else◌, Bool-cases, Option, none, some, arith,
}
use jimpitan.Finance.Platform.{Db, Platform}
use jimpitan.Finance.Monad.{
  Tx, Result, ok, err, Error, ◌>>=◌, ◌>>◌, catch, throw, throw_if, gets, require, modify,
  transaction, next_tick, return, known_request, p2034,
}
use jimpitan.Finance.Retry.{
  budget_exhausted, retry_from, with_serializable_retry, is_serialization_conflict,
}
use jimpitan.Finance.History.{History, History-refl, History-trans, same-History}

-- A statement that keeps the history, whether it returns or throws.
pub record Keeps {A : Type 0} (m : Tx A) : Type 0 where
  pub at : (s : Db) → History s (m s).1

abbrev KeptResult : {A : Type 0} → Db → Result A × Db → Type 0
KeptResult s r = History s r.1

module _ {A B : Type 0} where
  bind-History :
      (f : A → Tx B)
      → ((a : A) → Keeps (f a))
      → (m : Tx A) (s : Db) (r : Result A × Db) → m s ≡ r
      → History s r.1
      → History s ((m >>= f) s).1
  bind-History f k m s (ok a, t) e h =
      let q : (m >>= f) s ≡ f a t = ground arith in
      subst (KeptResult s) (sym q) (History-trans s t (f a t).1 h ((k a).at t))
  bind-History f k m s (err x, t) e h =
      let failed : Result B × Db = (err x, t) in
      let q : (m >>= f) s ≡ failed = ground arith in subst (KeptResult s) (sym q) h

  pub bind : {m : Tx A} {f : A → Tx B} → Keeps m → ((a : A) → Keeps (f a)) → Keeps (m >>= f)
  bind {m} {f} h k = record { at = λ s. bind-History f k m s (m s) refl (h.at s) }

pub and_then : {A B : Type 0} {m : Tx A} {k : Tx B} → Keeps m → Keeps k → Keeps (m >> k)
and_then h g = bind h (λ _. g)

-- Both ways on from a match on an option.
pub option-Keeps :
    {A B : Type 0} {m : Tx B} {f : A → Tx B}
    → (o : Option A) → Keeps m
    → ((a : A) → Keeps (f a))
    → Keeps (elim o [ none ↦ m | some a ↦ f a ])
option-Keeps none h k = h
option-Keeps (some a) h k = k a

module _ {A : Type 0} where
  pub if-Keeps : {m n : Tx A} → (b : Bool) → Keeps m → Keeps n → Keeps (if b then m else n)
  if-Keeps true h k = h
  if-Keeps false h k = k

  -- Both ways on from a test, each of which knows how it went.
  pub test-Keeps :
      {m n : Tx A} (b : Bool)
      → (b ≡ true → Keeps m)
      → (b ≡ false → Keeps n)
      → Keeps (if b then m else n)
  test-Keeps true h k = h refl
  test-Keeps false h k = k refl

  pub return-Keeps : (a : A) → Keeps (return a)
  return-Keeps a = record { at = History-refl }

  pub throw-Keeps : (e : Error) → Keeps (throw {A = A} e)
  throw-Keeps e = record { at = History-refl }

  -- A statement that only reads.
  pub reads : {m : Tx A} → ((s : Db) → (m s).1 ≡ s) → Keeps m
  reads h = record { at = λ s. subst (History s) (sym (h s)) (History-refl s) }

  pub gets-Keeps : (f : Db → A) → Keeps (gets f)
  gets-Keeps f = record { at = History-refl }

  pub require-Keeps : (o : Option A) (e : Error) → Keeps (require o e)
  require-Keeps none e = record { at = History-refl }
  require-Keeps (some a) e = record { at = History-refl }

  caught :
      (m : Tx A) (h : Error → Tx A) (s : Db)
      → ((e : Error) → Keeps (h e))
      → (r : Result A × Db) → m s ≡ r
      → History s r.1
      → History s (catch m h s).1
  caught m h s g (ok a, t) e o =
      let returned : Result A × Db = (ok a, t) in
      let q : catch m h s ≡ returned = ground arith in subst (KeptResult s) (sym q) o
  caught m h s g (err x, t) e o =
      let q : catch m h s ≡ h x t = ground arith in
      subst (KeptResult s) (sym q) (History-trans s t (h x t).1 o ((g x).at t))

  pub catch-Keeps :
      {m : Tx A} {h : Error → Tx A} → Keeps m → ((e : Error) → Keeps (h e)) → Keeps (catch m h)
  catch-Keeps {m} {h} k g = record { at = λ s. caught m h s g (m s) refl (k.at s) }

pub throw_if-Keeps : (b : Bool) (e : Error) → Keeps (throw_if b e)
throw_if-Keeps b e = record { at = History-refl }

pub modify-Keeps : (f : Db → Db) → ((s : Db) → History s (f s)) → Keeps (modify f)
modify-Keeps f h = record { at = h }

passed :
    {B : Type 0} (b : Bool) (e : Error) (k : Tx B)
    → (b ≡ false → Keeps k)
    → (c : Bool) → b ≡ c
    → (s : Db) → History s ((throw_if b e >> k) s).1
passed b e k h true q s =
    let r : ((throw_if b e >> k) s).1 ≡ s = ground arith in
    subst (History s) (sym r) (History-refl s)
passed b e k h false q s =
    let r : (throw_if b e >> k) s ≡ k s = ground arith in subst (KeptResult s) (sym r) ((h q).at s)

-- A check that has passed is known in what follows.
pub checked :
    {B : Type 0} {k : Tx B} (b : Bool) (e : Error)
    → (b ≡ false → Keeps k)
    → Keeps (throw_if b e >> k)
checked {k = k} b e h = record { at = passed b e k h b refl }

module _ (P : Platform) {A : Type 0} where
  committed :
      (m : Tx A) (s : Db) (r : Result A × Db)
      → m s ≡ r
      → History s r.1
      → History s (transaction P m s).1
  committed m s (err x, t) e o =
      let back : Result A × Db = (err x, record s { tick = suc t.tick }) in
      let q : transaction P m s ≡ back = ground arith in
      subst (KeptResult s) (sym q)
        (same-History s (record s { tick = suc t.tick }) refl refl refl refl refl refl)
  committed m s (ok a, t) e o = elim (Bool-cases (P.aborts t.tick)) [
    | inl stop ↦
        let back : Result A × Db = (err (known_request p2034 []), record s { tick = suc t.tick }) in
        let q : transaction P m s ≡ back = ground arith in
        subst (KeptResult s) (sym q)
          (same-History s (record s { tick = suc t.tick }) refl refl refl refl refl refl)
    | inr go ↦
        let kept : Result A × Db = (ok a, next_tick t) in
        let q : transaction P m s ≡ kept = ground arith in
        subst (KeptResult s) (sym q) (
          History-trans s t (next_tick t) o
            (same-History t (next_tick t) refl refl refl refl refl refl))
  ]

  pub transaction-Keeps : {m : Tx A} → Keeps m → Keeps (transaction P m)
  transaction-Keeps {m} h = record { at = λ s. committed m s (m s) refl (h.at s) }

module _ {A : Type 0} (exhausted : Error) (m : Tx A) (h : Keeps m) where
  round :
      (s : Db) (n : ℕ) (r : Result A × Db)
      → m s ≡ r
      → History s r.1
      → ((t : Db) → History t (retry_from exhausted n m t).1)
      → History s (retry_from exhausted (suc n) m s).1
  unfolding retry_from
  round s n (ok a, t) e o rest =
      let done : Result A × Db = (ok a, t) in
      let q : retry_from exhausted (suc n) m s ≡ done = ground arith in
      subst (KeptResult s) (sym q) o
  round s n (err x, t) e o rest =
      elim (Bool-cases (not (is_serialization_conflict x) || not (ltb 0 n))) [
        | inl stop ↦
            let failed : Result A × Db = (err x, t) in
            let q : retry_from exhausted (suc n) m s ≡ failed = ground arith in
            subst (KeptResult s) (sym q) o
        | inr more ↦
            let q : retry_from exhausted (suc n) m s ≡ retry_from exhausted n m t = ground arith in
            subst (KeptResult s) (sym q)
              (History-trans s t (retry_from exhausted n m t).1 o (rest t))
      ]

  rounds : (n : ℕ) (s : Db) → History s (retry_from exhausted n m s).1
  rounds zero s = unfold retry_from in History-refl s
  rounds (suc n) s = round s n (m s) refl (h.at s) (λ t. rounds n t)

  pub retry_from-Keeps : (n : ℕ) → Keeps (retry_from exhausted n m)
  retry_from-Keeps n = record { at = rounds n }

pub retry-Keeps : {A : Type 0} (m : Tx A) → Keeps m → Keeps (with_serializable_retry m)
unfolding with_serializable_retry
retry-Keeps m h = retry_from-Keeps budget_exhausted m h 3
