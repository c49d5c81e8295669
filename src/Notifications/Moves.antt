-- ===== src/Notifications/Moves.antt =====
-- The statuses that the requests write, as paths in the graph of a notification's statuses
-- (apps/api/src/modules/notifications/infrastructure/prisma-notifications.repository.ts, and
-- apps/api/src/modules/telegram/infrastructure/prisma-telegram.repository.ts).
use jimpitan.Base.{true, ◌≡◌, sym, subst, arith}
use jimpitan.Notifications.Schema.{NotificationStatus, NotificationRow}
use jimpitan.Notifications.Kept.{
  NotificationKept, NotificationPath, stay, move, sending, sending_queued, sending_failed, failing,
  failing_queued, failing_read, cancelling, cancelling_queued, cancelling_failed, unqueueing,
}
use jimpitan.Notifications.Tables.{same_status, is_deliverable}
use jimpitan.Notifications.Evolution.{same_status-≡}
use jimpitan.Notifications.Delivery.{is_cancellable, can_transition_delivery_status}
use jimpitan.Notifications.Outbox.{may_fail}

pub to_cancelled :
    (a : NotificationStatus)
    → is_cancellable a ≡ true
    → NotificationPath a NotificationStatus.cancelled
to_cancelled NotificationStatus.pending h = move cancelling stay
to_cancelled NotificationStatus.queued h = move cancelling_queued stay
to_cancelled NotificationStatus.failed h = move cancelling_failed stay
to_cancelled NotificationStatus.sent h = absurd (ground arith)
to_cancelled NotificationStatus.cancelled h = absurd (ground arith)
to_cancelled NotificationStatus.read h = absurd (ground arith)

pub to_sent :
    (a : NotificationStatus) → is_deliverable a ≡ true → NotificationPath a NotificationStatus.sent
to_sent NotificationStatus.pending h = move sending stay
to_sent NotificationStatus.queued h = move sending_queued stay
to_sent NotificationStatus.failed h = move sending_failed stay
to_sent NotificationStatus.sent h = absurd (ground arith)
to_sent NotificationStatus.cancelled h = absurd (ground arith)
to_sent NotificationStatus.read h = absurd (ground arith)

pub to_failed :
    (a : NotificationStatus) → may_fail a ≡ true → NotificationPath a NotificationStatus.failed
to_failed NotificationStatus.pending h = move failing stay
to_failed NotificationStatus.queued h = move failing_queued stay
to_failed NotificationStatus.failed h = stay
to_failed NotificationStatus.sent h = absurd (ground arith)
to_failed NotificationStatus.cancelled h = absurd (ground arith)
to_failed NotificationStatus.read h = move failing_read stay

unchanged : (a b : NotificationStatus) → same_status b a ≡ true → NotificationPath a b
unchanged a b h = subst (NotificationPath a) (sym (same_status-≡ b a h)) stay

pub to_result :
    (a b : NotificationStatus) → can_transition_delivery_status a b ≡ true → NotificationPath a b
to_result NotificationStatus.pending NotificationStatus.pending h = stay
to_result NotificationStatus.pending NotificationStatus.sent h = move sending stay
to_result NotificationStatus.pending NotificationStatus.failed h = move failing stay
to_result NotificationStatus.pending NotificationStatus.cancelled h = move cancelling stay
to_result NotificationStatus.pending NotificationStatus.queued h = absurd (ground arith)
to_result NotificationStatus.pending NotificationStatus.read h = absurd (ground arith)
to_result NotificationStatus.queued NotificationStatus.pending h = move unqueueing stay
to_result NotificationStatus.queued NotificationStatus.sent h = move sending_queued stay
to_result NotificationStatus.queued NotificationStatus.failed h = move failing_queued stay
to_result NotificationStatus.queued NotificationStatus.cancelled h = move cancelling_queued stay
to_result NotificationStatus.queued NotificationStatus.queued h = stay
to_result NotificationStatus.queued NotificationStatus.read h = absurd (ground arith)
to_result NotificationStatus.failed NotificationStatus.cancelled h = move cancelling_failed stay
to_result NotificationStatus.failed NotificationStatus.failed h = stay
to_result NotificationStatus.failed NotificationStatus.pending h = absurd (ground arith)
to_result NotificationStatus.failed NotificationStatus.queued h = absurd (ground arith)
to_result NotificationStatus.failed NotificationStatus.sent h = absurd (ground arith)
to_result NotificationStatus.failed NotificationStatus.read h = absurd (ground arith)
to_result NotificationStatus.sent b h = unchanged NotificationStatus.sent b h
to_result NotificationStatus.cancelled b h = unchanged NotificationStatus.cancelled b h
to_result NotificationStatus.read b h = absurd (ground arith)

-- A change of the status that the statement's clause asks for.
pub moved_from :
    (n m : NotificationRow) (expected : NotificationStatus)
    → m.id ≡ n.id
    → m.rt_id ≡ n.rt_id
    → m.recipient_user_id ≡ n.recipient_user_id
    → same_status n.status expected ≡ true
    → NotificationPath expected m.status
    → NotificationKept n m
moved_from n m expected i r u h p = record {
  same_id = i;
  same_tenant = r;
  same_recipient = u;
  path = subst (λ a. NotificationPath a m.status) (sym (same_status-≡ n.status expected h)) p;
}
