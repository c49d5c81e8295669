-- ===== src/Finance/History.antt =====
-- A relation of two states of the tables: rows of transactions, ledgers and collections between an
-- earlier and a later state, with the graphs of their statuses
-- (apps/api/src/modules/finance/infrastructure/prisma-finance.repository.ts, and
-- apps/api/src/modules/jimpitan/infrastructure/prisma-jimpitan.repository.ts).
use jimpitan.Finance.Tables.{is_posted}
use jimpitan.Finance.Guards.{is_pending}
use jimpitan.Jimpitan.Tables.{is_validated_status}
use jimpitan.Base.{◌∙◌, true, false, inl, inr, ◌⊎◌, Bool, ◌≡◌, refl, sym, subst, arith}
use jimpitan.Base.Kept.{Kept, Kept-refl, Kept-trans}
use jimpitan.Finance.Schema.{
  TransactionRow, TransactionStatus, LedgerRow, CollectionStatus, ApprovalStatus,
  ExpenseApprovalRow,
}
use jimpitan.Jimpitan.Schema.{CollectionRow}
use jimpitan.Notifications.Kept.{
  NotificationKept, NotificationKept-refl, NotificationKept-trans, OutboxKept, OutboxKept-refl,
  OutboxKept-trans,
}
use jimpitan.Finance.Platform.{Db}

-- The moves between the statuses of a transaction: validation, rejection, voiding and posting.
pub data TransactionMove : TransactionStatus → TransactionStatus → Type 0 where
  validation : TransactionMove TransactionStatus.draft TransactionStatus.validated
  rejection : TransactionMove TransactionStatus.draft TransactionStatus.rejected
  rejection_of_validated : TransactionMove TransactionStatus.validated TransactionStatus.rejected
  voiding : TransactionMove TransactionStatus.draft TransactionStatus.voided
  posting : TransactionMove TransactionStatus.validated TransactionStatus.posted

pub data TransactionPath : TransactionStatus → TransactionStatus → Type 0 where
  stay : {a : TransactionStatus} → TransactionPath a a
  move :
      {a b c : TransactionStatus} → TransactionMove a b → TransactionPath b c → TransactionPath a c

pub TransactionPath-trans :
    {a b c : TransactionStatus} → TransactionPath a b → TransactionPath b c → TransactionPath a c
TransactionPath-trans stay q = q
TransactionPath-trans (move m p) q = move m (TransactionPath-trans p q)

-- The later state of a transaction.
pub record TransactionKept (t u : TransactionRow) : Type 0 where
  pub same_id : u.id ≡ t.id
  pub same_tenant : u.rt_id ≡ t.rt_id
  pub path : TransactionPath t.status u.status
  pub final : (is_posted t.status ≡ false) ⊎ (u ≡ t)

pub TransactionKept-refl : (t : TransactionRow) → TransactionKept t t
TransactionKept-refl t = record {
  same_id = refl;
  same_tenant = refl;
  path = stay;
  final = inr refl;
}

-- Two steps that each leave the rows of a kind as they are.
final_trans :
    {Row : Type 0} (is_final : Row → Bool) (t u v : Row)
    → (is_final t ≡ false) ⊎ (u ≡ t)
    → (is_final u ≡ false) ⊎ (v ≡ u)
    → (is_final t ≡ false) ⊎ (v ≡ t)
final_trans is_final t u v (inl moves) k = inl moves
final_trans is_final t u v (inr e) (inr f) = inr (f ∙ e)
final_trans is_final t u v (inr e) (inl moves) = inl (subst (λ x. is_final x ≡ false) e moves)

pub TransactionKept-trans :
    (t u v : TransactionRow) → TransactionKept t u → TransactionKept u v → TransactionKept t v
TransactionKept-trans t u v h k = record {
  same_id = ground arith;
  same_tenant = ground arith;
  path = TransactionPath-trans h.path k.path;
  final = final_trans (λ x. is_posted x.status) t u v h.final k.final;
}

-- The moves between the statuses of a collection.
pub data CollectionMove : CollectionStatus → CollectionStatus → Type 0 where
  starting : CollectionMove CollectionStatus.draft CollectionStatus.in_progress
  restarting : CollectionMove CollectionStatus.rejected CollectionStatus.in_progress
  submitting_draft : CollectionMove CollectionStatus.draft CollectionStatus.submitted
  submitting : CollectionMove CollectionStatus.in_progress CollectionStatus.submitted
  submitting_again : CollectionMove CollectionStatus.rejected CollectionStatus.submitted
  validating : CollectionMove CollectionStatus.submitted CollectionStatus.validated
  rejecting : CollectionMove CollectionStatus.submitted CollectionStatus.rejected
  cancelling_draft : CollectionMove CollectionStatus.draft CollectionStatus.cancelled
  cancelling : CollectionMove CollectionStatus.in_progress CollectionStatus.cancelled
  cancelling_submitted : CollectionMove CollectionStatus.submitted CollectionStatus.cancelled
  cancelling_rejected : CollectionMove CollectionStatus.rejected CollectionStatus.cancelled

pub data CollectionPath : CollectionStatus → CollectionStatus → Type 0 where
  stay : {a : CollectionStatus} → CollectionPath a a
  move : {a b c : CollectionStatus} → CollectionMove a b → CollectionPath b c → CollectionPath a c

pub CollectionPath-trans :
    {a b c : CollectionStatus} → CollectionPath a b → CollectionPath b c → CollectionPath a c
CollectionPath-trans stay q = q
CollectionPath-trans (move m p) q = move m (CollectionPath-trans p q)

-- The later state of a collection.
pub record CollectionKept (c d : CollectionRow) : Type 0 where
  pub same_id : d.id ≡ c.id
  pub same_tenant : d.rt_id ≡ c.rt_id
  pub path : CollectionPath c.status d.status
  pub final : (is_validated_status c.status ≡ false) ⊎ (d ≡ c)

pub CollectionKept-refl : (c : CollectionRow) → CollectionKept c c
CollectionKept-refl c = record {
  same_id = refl;
  same_tenant = refl;
  path = CollectionPath.stay;
  final = inr refl;
}

pub CollectionKept-trans :
    (c d e : CollectionRow) → CollectionKept c d → CollectionKept d e → CollectionKept c e
CollectionKept-trans c d e h k = record {
  same_id = ground arith;
  same_tenant = ground arith;
  path = CollectionPath-trans h.path k.path;
  final = final_trans (λ x. is_validated_status x.status) c d e h.final k.final;
}

-- The moves between the statuses of an approval.
pub data ApprovalMove : ApprovalStatus → ApprovalStatus → Type 0 where
  approving : ApprovalMove ApprovalStatus.pending ApprovalStatus.approved
  refusing : ApprovalMove ApprovalStatus.pending ApprovalStatus.rejected
  withdrawing : ApprovalMove ApprovalStatus.pending ApprovalStatus.cancelled

-- The later state of an approval: the same row, or one whose status has left PENDING once.
pub record ApprovalKept (a b : ExpenseApprovalRow) : Type 0 where
  pub same_id : b.id ≡ a.id
  pub same_tenant : b.rt_id ≡ a.rt_id
  pub same_transaction : b.transaction_id ≡ a.transaction_id
  pub same_requester : b.requested_by_id ≡ a.requested_by_id
  pub same_approver : b.approver_membership_id ≡ a.approver_membership_id
  pub change : (b ≡ a) ⊎ ApprovalMove a.status b.status

pub ApprovalKept-refl : (a : ExpenseApprovalRow) → ApprovalKept a a
ApprovalKept-refl a = record {
  same_id = refl;
  same_tenant = refl;
  same_transaction = refl;
  same_requester = refl;
  same_approver = refl;
  change = inl refl;
}

from_pending : {a b : ApprovalStatus} → ApprovalMove a b → is_pending a ≡ true
from_pending approving = refl
from_pending refusing = refl
from_pending withdrawing = refl

to_decided : {a b : ApprovalStatus} → ApprovalMove a b → is_pending b ≡ false
to_decided approving = refl
to_decided refusing = refl
to_decided withdrawing = refl

ApprovalChange-trans :
    (a b c : ExpenseApprovalRow)
    → (b ≡ a) ⊎ ApprovalMove a.status b.status
    → (c ≡ b) ⊎ ApprovalMove b.status c.status
    → (c ≡ a) ⊎ ApprovalMove a.status c.status
ApprovalChange-trans a b c (inl e) (inl f) = inl (f ∙ e)
ApprovalChange-trans a b c (inl e) (inr m) =
    inr (subst (λ (x : ExpenseApprovalRow). ApprovalMove x.status c.status) e m)
ApprovalChange-trans a b c (inr m) (inl f) =
    inr (subst (λ (x : ExpenseApprovalRow). ApprovalMove a.status x.status) (sym f) m)
ApprovalChange-trans a b c (inr m) (inr n) =
    let decided = to_decided m in let started = from_pending n in absurd (ground arith)

pub ApprovalKept-trans :
    (a b c : ExpenseApprovalRow) → ApprovalKept a b → ApprovalKept b c → ApprovalKept a c
ApprovalKept-trans a b c h k = record {
  same_id = k.same_id ∙ h.same_id;
  same_tenant = k.same_tenant ∙ h.same_tenant;
  same_transaction = k.same_transaction ∙ h.same_transaction;
  same_requester = k.same_requester ∙ h.same_requester;
  same_approver = k.same_approver ∙ h.same_approver;
  change = ApprovalChange-trans a b c h.change k.change;
}

-- What every request keeps of the tables that it finds.
pub record History (s s' : Db) : Type 0 where
  pub transactions : Kept TransactionKept s.transactions s'.transactions
  pub ledgers : Kept (λ l m. m ≡ l) s.ledgers s'.ledgers
  pub collections : Kept CollectionKept s.collections s'.collections
  pub approvals : Kept ApprovalKept s.approvals s'.approvals
  pub notifications : Kept NotificationKept s.notifications s'.notifications
  pub outbox : Kept OutboxKept s.outbox s'.outbox

pub History-refl : (s : Db) → History s s
History-refl s = record {
  transactions = Kept-refl TransactionKept TransactionKept-refl s.transactions;
  ledgers = Kept-refl (λ (l m : LedgerRow). m ≡ l) (λ _. refl) s.ledgers;
  collections = Kept-refl CollectionKept CollectionKept-refl s.collections;
  approvals = Kept-refl ApprovalKept ApprovalKept-refl s.approvals;
  notifications = Kept-refl NotificationKept NotificationKept-refl s.notifications;
  outbox = Kept-refl OutboxKept OutboxKept-refl s.outbox;
}

pub History-trans : (s t u : Db) → History s t → History t u → History s u
History-trans s t u h k = record {
  transactions =
      Kept-trans TransactionKept TransactionKept-trans s.transactions t.transactions u.transactions
        h.transactions k.transactions;
  ledgers =
      Kept-trans (λ (l m : LedgerRow). m ≡ l) (λ x y z p q. ground arith) s.ledgers t.ledgers
        u.ledgers h.ledgers k.ledgers;
  collections =
      Kept-trans CollectionKept CollectionKept-trans s.collections t.collections u.collections
        h.collections k.collections;
  approvals =
      Kept-trans ApprovalKept ApprovalKept-trans s.approvals t.approvals u.approvals h.approvals
        k.approvals;
  notifications =
      Kept-trans NotificationKept NotificationKept-trans s.notifications t.notifications
        u.notifications h.notifications k.notifications;
  outbox = Kept-trans OutboxKept OutboxKept-trans s.outbox t.outbox u.outbox h.outbox k.outbox;
}

pub same-History :
    (s s' : Db)
    → s'.transactions ≡ s.transactions
    → s'.ledgers ≡ s.ledgers
    → s'.collections ≡ s.collections
    → s'.approvals ≡ s.approvals
    → s'.notifications ≡ s.notifications
    → s'.outbox ≡ s.outbox
    → History s s'
same-History s s' t l c a n o = record {
  transactions =
      subst (Kept TransactionKept s.transactions) (sym t) ((History-refl s).transactions);
  ledgers = subst (Kept (λ (a b : LedgerRow). b ≡ a) s.ledgers) (sym l) ((History-refl s).ledgers);
  collections = subst (Kept CollectionKept s.collections) (sym c) ((History-refl s).collections);
  approvals = subst (Kept ApprovalKept s.approvals) (sym a) ((History-refl s).approvals);
  notifications =
      subst (Kept NotificationKept s.notifications) (sym n) ((History-refl s).notifications);
  outbox = subst (Kept OutboxKept s.outbox) (sym o) ((History-refl s).outbox);
}
