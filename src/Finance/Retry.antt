-- ===== src/Finance/Retry.antt =====
-- `withSerializableRetry` and the tests of the client's errors
-- (apps/api/src/modules/finance/infrastructure/prisma-finance.repository.ts).
use jimpitan.Base.{ℕ, zero, suc, String, Bool, true, false, not, ◌||◌, ltb, if◌then◌else◌}
use jimpitan.Finance.Monad.{p2002, p2034, Error, known_request, conflict, ok, err, Tx, throw}

abbrev pub is_serialization_conflict : Error → Bool
is_serialization_conflict (known_request p2034 _) = true
is_serialization_conflict _ = false

abbrev pub is_known_concurrency_conflict : Error → Bool
is_known_concurrency_conflict (known_request p2034 _) = true
is_known_concurrency_conflict (known_request p2002 _) = true
is_known_concurrency_conflict _ = false

-- `throwKnownConflict`
abbrev pub throw_known_conflict : {A : Type 0} → Error → String → Tx A
throw_known_conflict e message =
    if is_known_concurrency_conflict e then throw (conflict message) else throw e

abbrev pub max_attempts : ℕ
max_attempts = 3

abbrev pub budget_exhausted : Error
budget_exhausted = conflict "Serializable transaction retry budget was exhausted."

module _ {A : Type 0} where
  -- The rounds left of the loop, the last one being `attempt === maxAttempts`, with what is thrown
  -- where none is left.
  unfoldable pub retry_from : Error → ℕ → Tx A → Tx A
  retry_from exhausted zero operation s = (err exhausted, s)
  retry_from exhausted (suc left) operation s =
      let (r, s') = operation s in
      let rest = retry_from exhausted left operation s' in
      elim r [
        | ok a ↦ (ok a, s')
        | err e ↦
            if not (is_serialization_conflict e) || not (ltb 0 left) then (err e, s') else rest
      ]

  unfoldable pub with_serializable_retry : Tx A → Tx A
  unfolding retry_from
  with_serializable_retry = retry_from budget_exhausted max_attempts
