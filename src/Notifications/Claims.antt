-- ===== src/Notifications/Claims.antt =====
-- What claiming leaves of the outbox: `claimPendingTelegramOutbox`
-- (apps/api/src/modules/telegram/infrastructure/prisma-telegram.repository.ts).
use jimpitan.Base.{
  ℕ, suc, ◌+◌, ◌≤◌, String, true, false, not, Option, none, some, List, [], ◌∷◌, if◌then◌else◌, leb,
  Bool-cases, inl, inr, ◌≡◌, refl, sym, ap, subst, ◌∙◌, arith,
}
use jimpitan.Base.Rows.{All, length, select, set_where}
use jimpitan.Base.Kept.{Some}
use jimpitan.Finance.Platform.{Db, Platform}
use jimpitan.Finance.Monad.{ok, Tx, return, ◌>>=◌}
use jimpitan.Finance.Books.{bind-ok}
use jimpitan.Notifications.Schema.{
  NotificationRow, OutboxStatus, OutboxRow, TelegramOutboxEventRecord,
}
use jimpitan.Notifications.Tables.{is_one_row, update_outbox}
use jimpitan.Notifications.Outbox.{
  Claim, claimable, claimed_event, unclaimed_event, deliverable_notification, string_value,
  claim_event, claim_events,
}

-- The outbox has a row of the event in processing.
abbrev pub IsClaimed : List OutboxRow → TelegramOutboxEventRecord → Type 0
IsClaimed rows e = Some (λ r. claimed_event e.id e.notification_id r ≡ true) rows

abbrev in_processing : OutboxRow → OutboxRow
in_processing r = record r { status = OutboxStatus.processing; attempts = r.attempts + 1 }

abbrev marked_rows : String → Claim → ℕ → List OutboxRow → List OutboxRow
marked_rows id c now rows =
    set_where (unclaimed_event id c) (λ r. record (in_processing r) { updated_at = now }) rows

-- A row in processing is not claimed again.
marked-IsClaimed :
    (id : String) (c : Claim) (now : ℕ) (x : TelegramOutboxEventRecord) (rows : List OutboxRow)
    → IsClaimed rows x
    → IsClaimed (marked_rows id c now rows) x
marked-IsClaimed id c now x [] h = h
marked-IsClaimed id c now x (r ∷ rest) (inl h) = inl (ground arith)
marked-IsClaimed id c now x (r ∷ rest) (inr h) = inr (marked-IsClaimed id c now x rest h)

-- A row that is selected is in processing afterwards.
selected-IsClaimed :
    (c : Claim) (now : ℕ) (x : TelegramOutboxEventRecord) (rows : List OutboxRow)
    → x.notification_id ≡ c.notification_id
    → is_one_row (length (select (unclaimed_event x.id c) rows)) ≡ true
    → IsClaimed (marked_rows x.id c now rows) x
selected-IsClaimed c now x [] same h = absurd (ground arith)
selected-IsClaimed c now x (r ∷ rest) same h = elim (Bool-cases (unclaimed_event x.id c r)) [
  | inl here ↦ inl (ground arith)
  | inr other ↦ inr (selected-IsClaimed c now x rest same (rw other at h))
]

module _ (P : Platform) where
  -- What a round of the loop leaves: the claimed events stay claimed, and so is the one it gives.
  abbrev Claimed : Option TelegramOutboxEventRecord → Db → Db → Type 0
  Claimed found s u =
      ((x : TelegramOutboxEventRecord) → IsClaimed s.outbox x → IsClaimed u.outbox x)
      × ((x : TelegramOutboxEventRecord) → found ≡ some x → IsClaimed u.outbox x)

  abbrev marked : OutboxRow → Claim → Db → Db
  marked e c s = record s { tick = suc s.tick; outbox = marked_rows e.id c (P.now s.tick) s.outbox }

  abbrev texts : OutboxRow → Claim → Tx (Option TelegramOutboxEventRecord)
  texts e c = string_value P e.payload.title >>= λ title. string_value P e.payload.body >>= λ body.
      return (
        some (record {
          id = e.id;
          rt_id = c.rt_id;
          notification_id = c.notification_id;
          telegram_account_id = c.telegram_account_id;
          title = title;
          body = body;
          attempts = e.attempts + 1;
        }))

  abbrev marking : OutboxRow → Claim → Tx (Option TelegramOutboxEventRecord)
  marking e c = update_outbox P (unclaimed_event e.id c) in_processing >>= λ count.
      if not (is_one_row count) then return none else texts e c

  texts-same :
      (e : OutboxRow) (c : Claim) (s u : Db) (x : TelegramOutboxEventRecord)
      → texts e c s ≡ (ok (some x), u)
      → (x.id ≡ e.id) × (x.notification_id ≡ c.notification_id)
  texts-same e c s u x h = (ground arith, ground arith)

  texts-tables :
      (e : OutboxRow) (c : Claim) (s u : Db) (found : Option TelegramOutboxEventRecord)
      → texts e c s ≡ (ok found, u)
      → u ≡ s
  texts-tables e c s u found h = ground arith

  marking-Claimed :
      (e : OutboxRow) (c : Claim) (s u : Db) (found : Option TelegramOutboxEventRecord)
      → marking e c s ≡ (ok found, u)
      → Claimed found s u
  unfolding update_outbox
  marking-Claimed e c s u found h = elim (Bool-cases (is_one_row count)) [
    | inl one ↦
        let k : texts e c updated ≡ (ok found, u) = rw one at h in
        let rows : u.outbox ≡ marked_rows e.id c (P.now s.tick) s.outbox =
          ap (λ v. v.outbox) (texts-tables e c updated u found k) ∙ written in
        let one_selected : is_one_row (length (select (unclaimed_event e.id c) s.outbox)) ≡ true =
          rw (← P.update_count_lem (unclaimed_event e.id c) s.outbox) one in
        (
          λ x i. rw rows (marked-IsClaimed e.id c (P.now s.tick) x s.outbox i),
          λ x i.
              let (id, notification) = texts-same e c updated u x (rw i at k) in
              rw (rows, ← id)
                (selected-IsClaimed c (P.now s.tick) x s.outbox notification (rw id one_selected)),
        )
    | inr other ↦
        let (nothing, tables) = not_one other in
        (
          λ x i.
              rw (ap (λ v. v.outbox) tables, written)
                (marked-IsClaimed e.id c (P.now s.tick) x s.outbox i),
          λ x i. absurd (ground arith),
        )
  ]
    where
      count : ℕ
      count = P.update_count (unclaimed_event e.id c) s.outbox

      updated : Db
      updated = record s {
        tick = suc s.tick;
        outbox =
            P.update_many (unclaimed_event e.id c)
              (λ r. record (in_processing r) { updated_at = P.now s.tick }) s.outbox;
      }

      written : updated.outbox ≡ marked_rows e.id c (P.now s.tick) s.outbox
      written = P.update_many_lem _ _ s.outbox

      not_one : is_one_row count ≡ false → (found ≡ none) × (u ≡ updated)
      not_one other = (ground arith, ground arith)

  claim_event-Claimed :
      (e : OutboxRow) (s u : Db) (found : Option TelegramOutboxEventRecord)
      → claim_event P e s ≡ (ok found, u)
      → Claimed found s u
  unfolding claim_event
  claim_event-Claimed e s u found h = by_claim (claimable e) refl
    where
      by_notification :
          (c : Claim) (o : Option NotificationRow)
          → claimable e ≡ some c
          → P.find_first (deliverable_notification c) s.notifications ≡ o
          → Claimed found s u
      by_notification c none k m = (λ x i. ground arith, λ x i. ground arith)
      by_notification c (some n) k m = marking-Claimed e c s u found (ground arith)

      by_claim : (o : Option Claim) → claimable e ≡ o → Claimed found s u
      by_claim none k = (λ x i. ground arith, λ x i. ground arith)
      by_claim (some c) k =
          by_notification c (P.find_first (deliverable_notification c) s.notifications) k refl

  abbrev pub ClaimsTo : ℕ → ℕ → Db → Db → List TelegramOutboxEventRecord → Type 0
  ClaimsTo limit claimed s u events =
      ((x : TelegramOutboxEventRecord) → IsClaimed s.outbox x → IsClaimed u.outbox x)
      × (claimed + length events ≤ limit)
      × All (IsClaimed u.outbox) events

  -- The loop leaves the claimed events in processing, those of earlier rounds too, and stops at the
  -- limit.
  abbrev Claims : ℕ → ℕ → List OutboxRow → Type 0
  Claims limit claimed rows =
      (s u : Db) (events : List TelegramOutboxEventRecord)
      → claim_events P limit claimed rows s ≡ (ok events, u)
      → ClaimsTo limit claimed s u events

  -- The rest of the loop after a round.
  abbrev next :
      ℕ
      → ℕ
      → List OutboxRow
      → Option TelegramOutboxEventRecord
      → Tx (List TelegramOutboxEventRecord)
  next limit claimed rest found = elim found [
    | none ↦ claim_events P limit claimed rest
    | some event ↦ claim_events P limit (claimed + 1) rest >>= λ events. return (event ∷ events)
  ]

  next-Claims :
      (limit claimed : ℕ) (rest : List OutboxRow)
      → Claims limit claimed rest
      → Claims limit (claimed + 1) rest
      → (found : Option TelegramOutboxEventRecord) (s t u : Db)
        (events : List TelegramOutboxEventRecord)
      → Claimed found s t
      → next limit claimed rest found t ≡ (ok events, u)
      → ClaimsTo limit claimed s u events
  next-Claims limit claimed rest same more none s t u events one h =
      let (kept, bound, all) = same t u events h in (λ x i. kept x (one.0 x i), bound, all)
  next-Claims limit claimed rest same more (some event) s t u events one h =
      let q =
        bind-ok (claim_events P limit (claimed + 1) rest) (λ ds. return (event ∷ ds)) t events u
          h in
      let (kept, bound, all) = more t q.between q.value q.before in
      let e : events ≡ event ∷ q.value = ground arith in
      let v : u ≡ q.between = ground arith in
      let ends : ClaimsTo limit claimed s q.between (event ∷ q.value) =
        (λ x i. kept x (one.0 x i), omega arith, (kept event (one.1 event refl), all)) in
      subst (λ d. ClaimsTo limit claimed s d events) (sym v)
        (subst (λ ds. ClaimsTo limit claimed s q.between ds) (sym e) ends)

  pub claim_events-Claims :
      (limit claimed : ℕ) (rows : List OutboxRow) → claimed ≤ limit → Claims limit claimed rows
  unfolding claim_events
  claim_events-Claims limit claimed [] h s u events e =
      let v : u ≡ s = ground arith in
      let n : events ≡ [] = ground arith in rw (v, n) (λ x i. i, omega arith, tt)
  claim_events-Claims limit claimed (r ∷ rest) h s u events e =
      elim (Bool-cases (leb limit claimed)) [
        | inl full ↦
            let v : u ≡ s = ground arith in
            let n : events ≡ [] = ground arith in rw (v, n) (λ x i. i, omega arith, tt)
        | inr more ↦
            let k : (claim_event P r >>= next limit claimed rest) s ≡ (ok events, u) =
              rw more at e in
            let q = bind-ok (claim_event P r) (next limit claimed rest) s events u k in
            next-Claims limit claimed rest (claim_events-Claims limit claimed rest h)
              (claim_events-Claims limit (claimed + 1) rest (ground arith)) q.value s q.between u
              events (claim_event-Claimed r s q.between q.value q.before) q.after
      ]
