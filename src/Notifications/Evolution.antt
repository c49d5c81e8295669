-- ===== src/Notifications/Evolution.antt =====
-- The history relation for the statements on notifications and outbox events
-- (apps/api/src/modules/notifications/infrastructure/prisma-notifications.repository.ts, and
-- apps/api/src/modules/telegram/infrastructure/prisma-telegram.repository.ts).
use jimpitan.Base.{
  ℕ, String, Bool, true, Option, none, some, List, [], ◌≡◌, refl, sym, subst, arith,
}
use jimpitan.Base.Kept.{Kept, Kept-set_where, Kept-create}
use jimpitan.Finance.Platform.{Db, Platform}
use jimpitan.Finance.Monad.{known_request, other_code}
use jimpitan.Finance.History.{History, History-refl}
use jimpitan.Finance.Keeps.{Keeps, bind, gets-Keeps, require-Keeps, throw_if-Keeps}
use jimpitan.Notifications.Schema.{NotificationStatus, NotificationRow, OutboxRow}
use jimpitan.Notifications.Kept.{
  NotificationKept, NotificationKept-refl, OutboxKept, OutboxKept-refl,
}
use jimpitan.Notifications.Tables.{
  same_status, assert_single_notification, find_notification, find_notification_or_throw,
  update_notifications, update_outbox, create_outbox,
}

-- Other contents of the two tables, with the rest as they were.
with_notifications :
    (s : Db) (rows : List NotificationRow)
    → Kept NotificationKept s.notifications rows
    → History s (record s { notifications = rows })
with_notifications s rows h = record {
  transactions = (History-refl s).transactions;
  ledgers = (History-refl s).ledgers;
  collections = (History-refl s).collections;
  approvals = (History-refl s).approvals;
  notifications = h;
  outbox = (History-refl s).outbox;
}

with_outbox :
    (s t : Db) (rows : List OutboxRow)
    → t ≡ record (record s { outbox = rows }) { tick = t.tick }
    → Kept OutboxKept s.outbox rows
    → History s t
with_outbox s t rows e h =
    let later : Db = record (record s { outbox = rows }) { tick = t.tick } in
    let kept : History s later = record {
      transactions = (History-refl s).transactions;
      ledgers = (History-refl s).ledgers;
      collections = (History-refl s).collections;
      approvals = (History-refl s).approvals;
      notifications = (History-refl s).notifications;
      outbox = h;
    } in
    subst (History s) (sym e) kept

pub same_status-≡ : (a b : NotificationStatus) → same_status a b ≡ true → a ≡ b
same_status-≡ a b h = ground arith

module _ (P : Platform) where
  pub update_notifications-Keeps :
      (p : NotificationRow → Bool) (f : NotificationRow → NotificationRow)
      → ((n : NotificationRow) → p n ≡ true → NotificationKept n (f n))
      → Keeps (update_notifications P p f)
  unfolding update_notifications
  update_notifications-Keeps p f step = record {
    at = λ s. with_notifications s (P.update_many p f s.notifications) (
        subst (Kept NotificationKept s.notifications) (sym (P.update_many_lem p f s.notifications))
          (Kept-set_where NotificationKept NotificationKept-refl p f step s.notifications));
  }

  pub update_outbox-Keeps :
      (p : OutboxRow → Bool) (f : OutboxRow → OutboxRow)
      → ((e : OutboxRow) (now : ℕ) → p e ≡ true → OutboxKept e (record (f e) { updated_at = now }))
      → Keeps (update_outbox P p f)
  unfolding update_outbox
  update_outbox-Keeps p f step = record {
    at = λ s.
        let stamped = (λ (e : OutboxRow). record (f e) { updated_at = P.now s.tick }) in
        with_outbox s (update_outbox P p f s).1 (P.update_many p stamped s.outbox) refl (
          subst (Kept OutboxKept s.outbox) (sym (P.update_many_lem p stamped s.outbox)) (
            Kept-set_where OutboxKept OutboxKept-refl p stamped (λ e h. step e (P.now s.tick) h)
              s.outbox));
  }

  pub create_outbox-Keeps : (e : OutboxRow) → Keeps (create_outbox P e)
  unfolding create_outbox
  create_outbox-Keeps e = record { at = λ s. stored s (P.outbox_clash (P.create e s.outbox)) refl }
    where
      stored :
          (s : Db) (clash : Option (List String))
          → P.outbox_clash (P.create e s.outbox) ≡ clash
          → History s (create_outbox P e s).1
      stored s none q =
          let rows = P.create e s.outbox in
          let r : (create_outbox P e s).1 ≡ record s { outbox = rows } = ground arith in
          let kept : History s (record s { outbox = rows }) =
            with_outbox s (record s { outbox = rows }) rows refl
              (subst (Kept OutboxKept s.outbox) (sym (P.create_lem e s.outbox)) (
                Kept-create OutboxKept OutboxKept-refl e s.outbox s.outbox
                  ((History-refl s).outbox))) in
          subst (History s) (sym r) kept
      stored s (some columns) q =
          let r : (create_outbox P e s).1 ≡ s = ground arith in
          subst (History s) (sym r) (History-refl s)

  pub find_notification-Keeps : (rt_id id : String) → Keeps (find_notification P rt_id id)
  unfolding find_notification
  find_notification-Keeps rt_id id = gets-Keeps _

  pub find_notification_or_throw-Keeps :
      (rt_id id : String) → Keeps (find_notification_or_throw P rt_id id)
  unfolding find_notification_or_throw
  find_notification_or_throw-Keeps rt_id id =
      bind (find_notification-Keeps rt_id id) (λ n. require-Keeps n (known_request other_code []))

  pub single_notification-Keeps : (count : ℕ) → Keeps (assert_single_notification count)
  unfolding assert_single_notification
  single_notification-Keeps count = throw_if-Keeps _ _
