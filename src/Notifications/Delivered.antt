-- ===== src/Notifications/Delivered.antt =====
-- What the delivery of claimed events leaves of the outbox: `deliver_event` for the loop of
-- `processTelegramOutbox` (apps/api/src/modules/telegram/application/telegram.service.ts), with
-- `completeTelegramOutbox` and `failTelegramOutbox`
-- (apps/api/src/modules/telegram/infrastructure/prisma-telegram.repository.ts).
use jimpitan.Base.{
  ℕ, suc, ◌+◌, String, ◌==◌, Bool, not, ◌&&◌, Option, none, some, given, if◌then◌else◌, List, [],
  ◌∷◌, Bool-cases, inl, inr, ◌≡◌, refl, ◌∙◌, arith,
}
use jimpitan.Base.Rows.{set_where}
use jimpitan.Finance.Platform.{Db, Platform}
use jimpitan.Finance.Monad.{Result, ok, err, Tx, transaction, return, ◌>>=◌}
use jimpitan.Finance.Tables.{new_date, write_audit}
use jimpitan.Notifications.Schema.{
  NotificationStatus, OutboxStatus, NotificationRow, OutboxRow, BindingRow,
  TelegramOutboxEventRecord, TelegramSendResult, delivered, refused,
}
use jimpitan.Notifications.Tables.{is_deliverable, is_one_row, update_notifications, update_outbox}
use jimpitan.Notifications.Outbox.{
  claimed_event, chat_of, may_fail, settle_notification, complete_telegram_outbox,
  fail_telegram_outbox,
}
use jimpitan.Notifications.Worker.{format_notification}

-- The rows once an event is marked as sent, or as failed.
abbrev pub as_sent : TelegramOutboxEventRecord → ℕ → ℕ → List OutboxRow → List OutboxRow
as_sent e at now rows =
    set_where (claimed_event e.id e.notification_id)
      (λ r. record r { status = OutboxStatus.processed; processed_at = some at; updated_at = now })
      rows

abbrev pub as_failed : TelegramOutboxEventRecord → ℕ → ℕ → List OutboxRow → List OutboxRow
as_failed e at now rows =
    set_where (claimed_event e.id e.notification_id)
      (λ r. record r { status = OutboxStatus.failed; available_at = at + 300000; updated_at = now })
      rows

module _ (P : Platform) (send : String → String → ℕ → TelegramSendResult) where
  -- The chat of a verified binding that is not revoked.
  abbrev pub chat_in : List BindingRow → TelegramOutboxEventRecord → Option String
  chat_in bindings e =
      given
        (elim (P.find_first
          (λ b.
            b.rt_id == e.rt_id
            && b.telegram_account_id == e.telegram_account_id
            && b.is_verified
            && not b.is_revoked)
          bindings) [ none ↦ none | some b ↦ chat_of b ])

  -- One round: the rows before and after it, and the counts before and after it.
  pub data Delivery (bindings : List BindingRow) (e : TelegramOutboxEventRecord)
      : List OutboxRow → ℕ → ℕ → List OutboxRow → ℕ → ℕ → Type 0 where
    taken :
        {rows : List OutboxRow} {a b : ℕ} (chat : String) (asked at now : ℕ)
        → chat_in bindings e ≡ some chat
        → send chat (format_notification e.title e.body) asked ≡ delivered
        → Delivery bindings e rows a b (as_sent e at now rows) (a + 1) b
    not_taken :
        {rows : List OutboxRow} {a b : ℕ} (chat : String) (message : Option String)
        (asked at now : ℕ)
        → chat_in bindings e ≡ some chat
        → send chat (format_notification e.title e.body) asked ≡ refused message
        → Delivery bindings e rows a b (as_failed e at now rows) a (b + 1)
    no_chat :
        {rows : List OutboxRow} {a b : ℕ} (at now : ℕ)
        → chat_in bindings e ≡ none
        → Delivery bindings e rows a b (as_failed e at now rows) a (b + 1)

  -- The rounds in the order of the events.
  pub data Deliveries (bindings : List BindingRow)
      : List TelegramOutboxEventRecord
        → List OutboxRow
        → ℕ
        → ℕ
        → List OutboxRow
        → ℕ
        → ℕ
        → Type 0 where
    done : {rows : List OutboxRow} {a b : ℕ} → Deliveries bindings [] rows a b rows a b
    round :
        {e : TelegramOutboxEventRecord} {rest : List TelegramOutboxEventRecord}
        {rows between later : List OutboxRow} {a b c d m n : ℕ}
        → Delivery bindings e rows a b between c d
        → Deliveries bindings rest between c d later m n
        → Deliveries bindings (e ∷ rest) rows a b later m n

  abbrev SameQueue : Db → Db → Type 0
  SameQueue s u = (u.outbox ≡ s.outbox) × (u.bindings ≡ s.bindings)

  settle-SameQueue :
      (event_id notification_id : String) (is_open : NotificationStatus → Bool)
      (change : NotificationRow → NotificationRow) (action : String) (s u : Db)
      → settle_notification P event_id notification_id is_open change action s ≡ (ok tt, u)
      → SameQueue s u
  unfolding settle_notification update_notifications write_audit
  settle-SameQueue event_id notification_id is_open change action s u h =
      (ground arith, ground arith)

  transaction-ok :
      (m : Tx (Unit {0})) (s u : Db)
      → transaction P m s ≡ (ok tt, u)
      → (v : Db) × (m s ≡ (ok tt, v)) × SameQueue v u
  transaction-ok m s u h = by_run (m s) refl
    where
      by_run :
          (w : Result (Unit {0}) × Db) → m s ≡ w → (v : Db) × (m s ≡ (ok tt, v)) × SameQueue v u
      by_run (ok x, v) e = (v, e, (ground arith, ground arith))
      by_run (err x, v) e = absurd (ground arith)

  -- What both calls do in their transaction: the claimed event is changed, and where it was one event
  -- its notification is settled.
  abbrev change_claimed :
      TelegramOutboxEventRecord → (ℕ → OutboxRow → OutboxRow) → (ℕ → Tx (Unit {0})) → Tx (Unit {0})
  change_claimed e change settle = new_date P >>= λ at.
      update_outbox P (claimed_event e.id e.notification_id) (change at) >>= λ count.
      if not (is_one_row count) then return tt else (new_date P >>= settle)

  abbrev pub Changed : TelegramOutboxEventRecord → (ℕ → OutboxRow → OutboxRow) → Db → Db → Type 0
  Changed e change s u =
      (at : ℕ) × (now : ℕ) × (u.outbox
        ≡ set_where (claimed_event e.id e.notification_id)
            (λ r. record (change at r) { updated_at = now }) s.outbox)
      × (u.bindings ≡ s.bindings)

  change_claimed-Changed :
      (e : TelegramOutboxEventRecord) (change : ℕ → OutboxRow → OutboxRow)
      (settle : ℕ → Tx (Unit {0}))
      → ((at : ℕ) (s u : Db) → settle at s ≡ (ok tt, u) → SameQueue s u)
      → (s u : Db) → change_claimed e change settle s ≡ (ok tt, u)
      → Changed e change s u
  unfolding update_outbox new_date
  change_claimed-Changed e change settle same s u h =
      let at = P.now s.tick in
      let marked : Db = record s {
        tick = suc (suc s.tick);
        outbox =
            P.update_many (claimed_event e.id e.notification_id)
              (λ r. record (change at r) { updated_at = P.now (suc s.tick) }) s.outbox;
      } in
      let rows =
        P.update_many_lem (claimed_event e.id e.notification_id)
          (λ r. record (change at r) { updated_at = P.now (suc s.tick) }) s.outbox in
      let kept : SameQueue marked u =
        elim (Bool-cases
          (is_one_row (P.update_count (claimed_event e.id e.notification_id) s.outbox))) [
            | inl one ↦
                same (P.now (suc (suc s.tick))) (record marked { tick = suc marked.tick }) u
                  (rw one at h)
            | inr other ↦ ground arith
          ] in
      (at, P.now (suc s.tick), kept.0 ∙ rows, kept.1)

  transaction-Changed :
      (e : TelegramOutboxEventRecord) (change : ℕ → OutboxRow → OutboxRow)
      (settle : ℕ → Tx (Unit {0}))
      → ((at : ℕ) (s u : Db) → settle at s ≡ (ok tt, u) → SameQueue s u)
      → (s u : Db) → transaction P (change_claimed e change settle) s ≡ (ok tt, u)
      → Changed e change s u
  transaction-Changed e change settle same s u h =
      let (v, ran, queue) = transaction-ok (change_claimed e change settle) s u h in
      let (at, now, rows, bindings) = change_claimed-Changed e change settle same s v ran in
      (at, now, queue.0 ∙ rows, queue.1 ∙ bindings)

  pub complete-Changed :
      (e : TelegramOutboxEventRecord) (s u : Db)
      → complete_telegram_outbox P e.id e.notification_id s ≡ (ok tt, u)
      → Changed e (λ at r. record r { status = OutboxStatus.processed; processed_at = some at }) s u
  unfolding complete_telegram_outbox
  complete-Changed e s u h =
      transaction-Changed e _ _
        (λ at.
          settle-SameQueue e.id e.notification_id is_deliverable _ "TELEGRAM_NOTIFICATION_SENT")
        s u h

  pub fail-Changed :
      (e : TelegramOutboxEventRecord) (reason : String) (s u : Db)
      → fail_telegram_outbox P e.id e.notification_id reason s ≡ (ok tt, u)
      → Changed e
          (λ at r. record r { status = OutboxStatus.failed; available_at = at + 300000 })
          s
          u
  unfolding fail_telegram_outbox
  fail-Changed e reason s u h =
      transaction-Changed e _ _
        (λ at. settle-SameQueue e.id e.notification_id may_fail _ "TELEGRAM_NOTIFICATION_FAILED") s
        u h
