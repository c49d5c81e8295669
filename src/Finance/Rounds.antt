-- ===== src/Finance/Rounds.antt =====
-- The rounds of `withSerializableRetry`
-- (apps/api/src/modules/finance/infrastructure/prisma-finance.repository.ts).
use jimpitan.Base.{
  ℕ, zero, suc, Bool, true, false, ◌≡◌, refl, sym, subst, Bool-cases, inl, inr, arith,
}
use jimpitan.Finance.Platform.{Db}
use jimpitan.Finance.Monad.{Error, Result, ok, err, Tx}
use jimpitan.Finance.Retry.{
  is_serialization_conflict, budget_exhausted, retry_from, with_serializable_retry,
}

abbrev pub is_retried : {A : Type 0} → Result A → Bool
is_retried (ok a) = false
is_retried (err e) = is_serialization_conflict e

-- A number of runs of an operation, at least one and at most as many as there are rounds, each from
-- where the one before has left the tables. Each but the last has ended in a serialization conflict, and
-- the last one has not, or was the last round.
pub data Rounds {A : Type 0} (operation : Tx A) : ℕ → Db → Result A → Db → Type 0 where
  settled :
      {left : ℕ} {s t : Db} {r : Result A}
      → operation s ≡ (r, t)
      → is_retried r ≡ false
      → Rounds operation (suc left) s r t
  used_up : {s t : Db} {r : Result A} → operation s ≡ (r, t) → Rounds operation 1 s r t
  again :
      {left : ℕ} {s t u : Db} {r q : Result A}
      → operation s ≡ (q, t)
      → is_retried q ≡ true
      → Rounds operation left t r u
      → Rounds operation (suc left) s r u

module _ {A : Type 0} (operation : Tx A) (exhausted : Error) where
  -- The rounds from one, by the end of its run.
  round-Rounds :
      (left : ℕ) (s t : Db) (r : Result A)
      → operation s ≡ (r, t)
      → ((u : Db)
          → Rounds operation
              (suc left)
              u
              (retry_from exhausted (suc left) operation u).0
              (retry_from exhausted (suc left) operation u).1)
      → Rounds operation
          (suc (suc left))
          s
          (retry_from exhausted (suc (suc left)) operation s).0
          (retry_from exhausted (suc (suc left)) operation s).1
  round-Rounds left s t (ok a) h later =
      let e : retry_from exhausted (suc (suc left)) operation s ≡ (ok a, t) =
        unfold retry_from in ground arith in
      subst (λ o. Rounds operation (suc (suc left)) s (o.0) (o.1)) (sym e) (settled h refl)
  round-Rounds left s t (err x) h later = elim (Bool-cases (is_serialization_conflict x)) [
    | inl clash ↦
        let e : retry_from exhausted (suc (suc left)) operation s
            ≡ retry_from exhausted (suc left) operation t =
          unfold retry_from in ground arith in
        subst (λ o. Rounds operation (suc (suc left)) s (o.0) (o.1)) (sym e)
          (again h clash (later t))
    | inr other ↦
        let e : retry_from exhausted (suc (suc left)) operation s ≡ (err x, t) =
          unfold retry_from in ground arith in
        subst (λ o. Rounds operation (suc (suc left)) s (o.0) (o.1)) (sym e) (settled h other)
  ]

  last-Rounds :
      (s t : Db) (r : Result A)
      → operation s ≡ (r, t)
      → Rounds operation 1 s
          (retry_from exhausted 1 operation s).0
          (retry_from exhausted 1 operation s).1
  last-Rounds s t (ok a) h =
      let e : retry_from exhausted 1 operation s ≡ (ok a, t) = unfold retry_from in ground arith in
      subst (λ o. Rounds operation 1 s (o.0) (o.1)) (sym e) (used_up h)
  last-Rounds s t (err x) h =
      let e : retry_from exhausted 1 operation s ≡ (err x, t) = unfold retry_from in ground arith in
      subst (λ o. Rounds operation 1 s (o.0) (o.1)) (sym e) (used_up h)

  retry_from-Rounds :
      (left : ℕ) (s : Db)
      → Rounds operation
          (suc left)
          s
          (retry_from exhausted (suc left) operation s).0
          (retry_from exhausted (suc left) operation s).1
  retry_from-Rounds zero s = last-Rounds s (operation s).1 (operation s).0 refl
  retry_from-Rounds (suc left) s =
      round-Rounds left s (operation s).1 (operation s).0 refl (retry_from-Rounds left)

-- A retried operation is run once, twice or three times, again only after a serialization conflict, and
-- ends as its last run ends.
pub with_serializable_retry-Rounds :
    {A : Type 0} (operation : Tx A) (s : Db)
    → Rounds operation 3 s
        (with_serializable_retry operation s).0
        (with_serializable_retry operation s).1
unfolding with_serializable_retry
with_serializable_retry-Rounds operation s = retry_from-Rounds operation budget_exhausted 2 s
