-- ===== src/Finance/Monad.antt =====
-- Statements against the database that may throw. What a statement has written stays written after a
-- throw; `transaction` is `$transaction` of the Prisma client, which rolls back.
use jimpitan.Base.{suc, String, Bool, Option, none, some, List, if◌then◌else◌}
use jimpitan.Finance.Schema.{FinanceAuditInput}
use jimpitan.Finance.Platform.{Db, Platform}

-- The codes of `PrismaClientKnownRequestError` that the program tells apart.
pub data PrismaCode : Type 0 where
  p2002 p2034 other_code : PrismaCode

pub data Error : Type 0 where
  bad_request : String → Error
  not_found : String → Error
  forbidden : String → Error
  conflict : String → Error
  -- `FinanceReplayConflict` and `FinanceApprovalGateException`
  replay_conflict : FinanceAuditInput → String → Error
  approval_gate : FinanceAuditInput → Error
  -- `NotificationBlockedMutation`
  blocked_mutation : FinanceAuditInput → String → Error
  -- with the target columns of a unique conflict
  known_request : PrismaCode → List String → Error
  decimal_error : Error

pub data Result {ℓ} (A : Type ℓ) : Type ℓ where
  ok : A → Result A
  err : Error → Result A

abbrev pub Tx : Type 0 → Type 0
Tx A = Db → Result A × Db

module _ {A : Type 0} where
  abbrev pub return : A → Tx A
  return a s = (ok a, s)

  abbrev pub throw : Error → Tx A
  throw e s = (err e, s)

  abbrev pub gets : (Db → A) → Tx A
  gets f s = (ok (f s), s)

  -- `if (!value) throw`
  abbrev pub require : Option A → Error → Tx A
  require none e s = (err e, s)
  require (some a) e s = (ok a, s)

  -- `try { ... } catch (error) { ... }`
  abbrev pub catch : Tx A → (Error → Tx A) → Tx A
  catch m h s = let (r, s') = m s in elim r [ ok a ↦ (ok a, s') | err e ↦ h e s' ]

infixl 5 ◌>>=◌ ◌>>◌
abbrev pub ◌>>=◌ : {A B : Type 0} → Tx A → (A → Tx B) → Tx B
◌>>=◌ m f s = let (r, s') = m s in elim r [ ok a ↦ f a s' | err e ↦ (err e, s') ]

abbrev pub ◌>>◌ : {A B : Type 0} → Tx A → Tx B → Tx B
m >> k = m >>= λ _. k

abbrev pub modify : (Db → Db) → Tx (Unit {0})
modify f s = (ok tt, f s)

abbrev pub throw_if : Bool → Error → Tx (Unit {0})
throw_if c e s = (if c then err e else ok tt, s)

abbrev pub next_tick : Db → Db
next_tick s = record s { tick = suc s.tick }

module _ (P : Platform) {A : Type 0} where
  -- A throw undoes all writes, and so does an abort at the commit.
  abbrev pub transaction : Tx A → Tx A
  transaction m s =
      let (r, s') = m s in
      elim r [
        | ok a ↦
            if P.aborts s'.tick
            then (err (known_request p2034 List.[]), record s { tick = suc s'.tick })
            else (ok a, next_tick s')
        | err e ↦ (err e, record s { tick = suc s'.tick })
      ]
