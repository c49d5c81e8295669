-- ===== src/Notifications/DeliveryRounds.antt =====
-- The rounds of the loop of `processTelegramOutbox`
-- (apps/api/src/modules/telegram/application/telegram.service.ts).
use jimpitan.Base.{
  ℕ, ◌+◌, String, Option, none, some, otherwise, List, [], ◌∷◌, ◌≡◌, refl, ap, ◌∙◌, arith,
}
use jimpitan.Base.Rows.{length}
use jimpitan.Finance.Platform.{Db, Platform}
use jimpitan.Finance.Monad.{ok, Tx, return, ◌>>=◌, ◌>>◌, next_tick}
use jimpitan.Finance.Books.{bind-ok}
use jimpitan.Notifications.Schema.{
  OutboxRow, BindingRow, TelegramOutboxEventRecord, TelegramSendResult, delivered, refused,
}
use jimpitan.Notifications.Outbox.{
  find_chat_for_telegram_account, complete_telegram_outbox, fail_telegram_outbox,
}
use jimpitan.Notifications.Worker.{
  format_notification, safe_send_message, deliver_event, deliver_events,
}
use jimpitan.Notifications.Delivered.{
  as_sent, as_failed, chat_in, Delivery, taken, not_taken, no_chat, Deliveries, done, round,
  complete-Changed, fail-Changed,
}

module _ (P : Platform) (send : String → String → ℕ → TelegramSendResult) where
  -- The rest of the round after the message was sent at an instant.
  abbrev answered : TelegramOutboxEventRecord → ℕ → ℕ → TelegramSendResult → Tx (ℕ × ℕ)
  answered e a b result = elim result [
    | delivered ↦ complete_telegram_outbox P e.id e.notification_id >> return (a + 1, b)
    | refused message ↦
        fail_telegram_outbox P e.id e.notification_id (otherwise message "Telegram send failed.")
        >> return (a, b + 1)
  ]

  abbrev with_chat : TelegramOutboxEventRecord → ℕ → ℕ → Option String → Tx (ℕ × ℕ)
  with_chat e a b chat = elim chat [
    | none ↦
        fail_telegram_outbox P e.id e.notification_id "Verified Telegram chat was not found."
        >> return (a, b + 1)
    | some chat_id ↦
        safe_send_message P send chat_id (format_notification e.title e.body) >>= answered e a b
  ]

  abbrev After : TelegramOutboxEventRecord → ℕ → ℕ → Db → Db → ℕ × ℕ → Type 0
  After e a b s u counts =
      (u.bindings ≡ s.bindings)
      × Delivery P send s.bindings e s.outbox a b u.outbox (counts.0) (counts.1)

  failed-After :
      (e : TelegramOutboxEventRecord) (a b : ℕ) (reason : String) (s u : Db) (counts : ℕ × ℕ)
      → ((at now : ℕ)
          → Delivery P send s.bindings e s.outbox a b (as_failed e at now s.outbox) a (b + 1))
      → (fail_telegram_outbox P e.id e.notification_id reason >> return (a, b + 1)) s
        ≡ (ok counts, u)
      → After e a b s u counts
  failed-After e a b reason s u counts step h =
      let q =
        bind-ok (fail_telegram_outbox P e.id e.notification_id reason) (λ _. return (a, b + 1)) s
          counts u h in
      let (at, now, rows, bindings) = fail-Changed P send e reason s q.between q.before in
      let same : u ≡ q.between = ground arith in
      let c : counts ≡ (a, b + 1) = ground arith in
      (ap (λ x. x.bindings) same ∙ bindings, rw (ap (λ x. x.outbox) same, rows, c) (step at now))

  sent-After :
      (e : TelegramOutboxEventRecord) (a b : ℕ) (s u : Db) (counts : ℕ × ℕ)
      → ((at now : ℕ)
          → Delivery P send s.bindings e s.outbox a b (as_sent e at now s.outbox) (a + 1) b)
      → (complete_telegram_outbox P e.id e.notification_id >> return (a + 1, b)) s ≡ (ok counts, u)
      → After e a b s u counts
  sent-After e a b s u counts step h =
      let q =
        bind-ok (complete_telegram_outbox P e.id e.notification_id) (λ _. return (a + 1, b)) s
          counts u h in
      let (at, now, rows, bindings) = complete-Changed P send e s q.between q.before in
      let same : u ≡ q.between = ground arith in
      let c : counts ≡ (a + 1, b) = ground arith in
      (ap (λ x. x.bindings) same ∙ bindings, rw (ap (λ x. x.outbox) same, rows, c) (step at now))

  answered-After :
      (e : TelegramOutboxEventRecord) (a b : ℕ) (chat_id : String) (s u : Db) (counts : ℕ × ℕ)
      → chat_in P send s.bindings e ≡ some chat_id
      → (result : TelegramSendResult)
      → send chat_id (format_notification e.title e.body) (P.now s.tick) ≡ result
      → answered e a b result (next_tick s) ≡ (ok counts, u)
      → After e a b s u counts
  answered-After e a b chat_id s u counts chat delivered k h =
      sent-After e a b (next_tick s) u counts (λ at now. taken chat_id (P.now s.tick) at now chat k)
        h
  answered-After e a b chat_id s u counts chat (refused message) k h =
      failed-After e a b _ (next_tick s) u counts
        (λ at now. not_taken chat_id message (P.now s.tick) at now chat k) h

  with_chat-After :
      (e : TelegramOutboxEventRecord) (a b : ℕ) (s u : Db) (counts : ℕ × ℕ) (chat : Option String)
      → chat_in P send s.bindings e ≡ chat
      → with_chat e a b chat s ≡ (ok counts, u)
      → After e a b s u counts
  unfolding safe_send_message
  with_chat-After e a b s u counts none k h =
      failed-After e a b _ s u counts (λ at now. no_chat at now k) h
  with_chat-After e a b s u counts (some chat_id) k h =
      answered-After e a b chat_id s u counts k
        (send chat_id (format_notification e.title e.body) (P.now s.tick)) refl h

  deliver_event-Delivery :
      (e : TelegramOutboxEventRecord) (a b : ℕ) (s u : Db) (counts : ℕ × ℕ)
      → deliver_event P send e a b s ≡ (ok counts, u)
      → After e a b s u counts
  unfolding deliver_event find_chat_for_telegram_account
  deliver_event-Delivery e a b s u counts h =
      with_chat-After e a b s u counts (chat_in P send s.bindings e) refl h

  pub deliver_events-Deliveries :
      (events : List TelegramOutboxEventRecord) (a b : ℕ) (s u : Db) (counts : ℕ × ℕ)
      → deliver_events P send events a b s ≡ (ok counts, u)
      → Deliveries P send s.bindings events s.outbox a b u.outbox (counts.0) (counts.1)
  unfolding deliver_events
  deliver_events-Deliveries [] a b s u counts h =
      let same : u ≡ s = ground arith in
      let c : counts ≡ (a, b) = ground arith in rw (ap (λ x. x.outbox) same, c) done
  deliver_events-Deliveries (e ∷ rest) a b s u counts h =
      let q =
        bind-ok (deliver_event P send e a b) (λ c. deliver_events P send rest (c.0) (c.1)) s counts
          u h in
      let (bindings, one) = deliver_event-Delivery e a b s q.between q.value q.before in
      let more =
        deliver_events-Deliveries rest ((q.value).0) ((q.value).1) q.between u counts q.after in
      round one (rw bindings at more)

  Delivery-counts :
      (bindings : List BindingRow) (e : TelegramOutboxEventRecord) {rows later : List OutboxRow}
      {a b c d : ℕ}
      → Delivery P send bindings e rows a b later c d
      → c + d ≡ a + b + 1
  Delivery-counts bindings e (taken _ _ _ _ _ _) = omega arith
  Delivery-counts bindings e (not_taken _ _ _ _ _ _ _) = omega arith
  Delivery-counts bindings e (no_chat _ _ _) = omega arith

  pub Deliveries-counts :
      (bindings : List BindingRow) {events : List TelegramOutboxEventRecord}
      {rows later : List OutboxRow} {a b c d : ℕ}
      → Deliveries P send bindings events rows a b later c d
      → c + d ≡ a + b + length events
  Deliveries-counts bindings done = omega arith
  Deliveries-counts bindings (round one more) =
      let h = Delivery-counts bindings _ one in
      let k = Deliveries-counts bindings more in omega arith
