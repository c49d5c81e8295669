-- ===== src/Notifications/Kept.antt =====
-- The graph of the statuses of a notification, and what stays of an outbox event
-- (apps/api/src/modules/notifications/infrastructure/prisma-notifications.repository.ts, and
-- apps/api/src/modules/telegram/infrastructure/prisma-telegram.repository.ts).
use jimpitan.Base.{
  Bool, true, false, ◌≤◌, ◌<◌, ◌≡◌, refl, subst, ◌∙◌, ◌⊎◌, inl, inr, Bool-cases, arith,
}
use jimpitan.Notifications.Tables.{is_pending_event}
use jimpitan.Notifications.Schema.{NotificationStatus, OutboxStatus, NotificationRow, OutboxRow}

pub data NotificationMove : NotificationStatus → NotificationStatus → Type 0 where
  sending : NotificationMove NotificationStatus.pending NotificationStatus.sent
  sending_queued : NotificationMove NotificationStatus.queued NotificationStatus.sent
  sending_failed : NotificationMove NotificationStatus.failed NotificationStatus.sent
  failing : NotificationMove NotificationStatus.pending NotificationStatus.failed
  failing_queued : NotificationMove NotificationStatus.queued NotificationStatus.failed
  failing_read : NotificationMove NotificationStatus.read NotificationStatus.failed
  cancelling : NotificationMove NotificationStatus.pending NotificationStatus.cancelled
  cancelling_queued : NotificationMove NotificationStatus.queued NotificationStatus.cancelled
  cancelling_failed : NotificationMove NotificationStatus.failed NotificationStatus.cancelled
  unqueueing : NotificationMove NotificationStatus.queued NotificationStatus.pending
  retrying : NotificationMove NotificationStatus.failed NotificationStatus.pending

pub data NotificationPath : NotificationStatus → NotificationStatus → Type 0 where
  stay : {a : NotificationStatus} → NotificationPath a a
  move :
      {a b c : NotificationStatus}
      → NotificationMove a b
      → NotificationPath b c
      → NotificationPath a c

pub NotificationPath-trans :
    {a b c : NotificationStatus}
    → NotificationPath a b
    → NotificationPath b c
    → NotificationPath a c
NotificationPath-trans stay q = q
NotificationPath-trans (move m p) q = move m (NotificationPath-trans p q)

-- The later state of a notification.
pub record NotificationKept (n m : NotificationRow) : Type 0 where
  pub same_id : m.id ≡ n.id
  pub same_tenant : m.rt_id ≡ n.rt_id
  pub same_recipient : m.recipient_user_id ≡ n.recipient_user_id
  pub path : NotificationPath n.status m.status

pub NotificationKept-refl : (n : NotificationRow) → NotificationKept n n
NotificationKept-refl n = record {
  same_id = refl;
  same_tenant = refl;
  same_recipient = refl;
  path = stay;
}

pub NotificationKept-trans :
    (n m o : NotificationRow) → NotificationKept n m → NotificationKept m o → NotificationKept n o
NotificationKept-trans n m o h k = record {
  same_id = k.same_id ∙ h.same_id;
  same_tenant = k.same_tenant ∙ h.same_tenant;
  same_recipient = k.same_recipient ∙ h.same_recipient;
  path = NotificationPath-trans h.path k.path;
}

abbrev pub is_processed_event : OutboxStatus → Bool
is_processed_event OutboxStatus.processed = true
is_processed_event _ = false

-- The later state of an outbox event: what it is about stays, the number of attempts does not fall, an
-- event has left PENDING only by an attempt, and one that is processed is unchanged.
pub record OutboxKept (e f : OutboxRow) : Type 0 where
  pub same_id : f.id ≡ e.id
  pub same_tenant : f.rt_id ≡ e.rt_id
  pub same_aggregate : f.aggregate_id ≡ e.aggregate_id
  pub same_payload : f.payload ≡ e.payload
  pub attempts : e.attempts ≤ f.attempts
  pub attempted :
      (is_pending_event e.status ≡ false)
      ⊎ ((is_pending_event f.status ≡ true) ⊎ (e.attempts < f.attempts))
  pub final : (is_processed_event e.status ≡ false) ⊎ (f ≡ e)

pending_or_not :
    (e : OutboxRow)
    → (is_pending_event e.status ≡ false)
      ⊎ ((is_pending_event e.status ≡ true) ⊎ (e.attempts < e.attempts))
pending_or_not e = elim (Bool-cases (is_pending_event e.status)) [
  | inl holds ↦ inr (inl holds)
  | inr fails ↦ inl fails
]

pub OutboxKept-refl : (e : OutboxRow) → OutboxKept e e
OutboxKept-refl e = record {
  same_id = refl;
  same_tenant = refl;
  same_aggregate = refl;
  same_payload = refl;
  attempts = omega arith;
  attempted = pending_or_not e;
  final = inr refl;
}

attempted_trans :
    (e f g : OutboxRow)
    → OutboxKept e f
    → OutboxKept f g
    → (is_pending_event e.status ≡ false)
      ⊎ ((is_pending_event g.status ≡ true) ⊎ (e.attempts < g.attempts))
attempted_trans e f g h k = ground (arith, h, k)

final_trans :
    (e f g : OutboxRow)
    → (is_processed_event e.status ≡ false) ⊎ (f ≡ e)
    → (is_processed_event f.status ≡ false) ⊎ (g ≡ f)
    → (is_processed_event e.status ≡ false) ⊎ (g ≡ e)
final_trans e f g (inl opened) k = inl opened
final_trans e f g (inr same) (inr still) = inr (still ∙ same)
final_trans e f g (inr same) (inl opened) =
    inl (subst (λ x. is_processed_event x.status ≡ false) same opened)

pub OutboxKept-trans : (e f g : OutboxRow) → OutboxKept e f → OutboxKept f g → OutboxKept e g
OutboxKept-trans e f g h k =
    let more : e.attempts ≤ g.attempts = ground (arith, h, k) in
    record {
      same_id = k.same_id ∙ h.same_id;
      same_tenant = k.same_tenant ∙ h.same_tenant;
      same_aggregate = k.same_aggregate ∙ h.same_aggregate;
      same_payload = k.same_payload ∙ h.same_payload;
      attempts = more;
      attempted = attempted_trans e f g h k;
      final = final_trans e f g h.final k.final;
    }
