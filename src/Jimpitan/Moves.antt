-- ===== src/Jimpitan/Moves.antt =====
-- The statuses that the requests write, as paths in the graph of a collection's statuses
-- (apps/api/src/modules/jimpitan/infrastructure/prisma-jimpitan.repository.ts).
use jimpitan.Base.{inl, true, false, not, ◌≡◌, arith}
use jimpitan.Finance.Schema.{CollectionStatus}
use jimpitan.Jimpitan.Schema.{CollectionRow}
use jimpitan.Finance.History.{
  CollectionKept, CollectionPath, starting, restarting, submitting_draft, submitting,
  submitting_again, validating, rejecting, cancelling_draft, cancelling, cancelling_submitted,
  cancelling_rejected,
}
use jimpitan.Jimpitan.Tables.{is_editable, is_submitted, is_validated_status, in_progress_from}

pub to_in_progress :
    (a : CollectionStatus) → is_editable a ≡ true → CollectionPath a CollectionStatus.in_progress
to_in_progress CollectionStatus.draft h = CollectionPath.move starting CollectionPath.stay
to_in_progress CollectionStatus.in_progress h = CollectionPath.stay
to_in_progress CollectionStatus.rejected h = CollectionPath.move restarting CollectionPath.stay
to_in_progress CollectionStatus.submitted h = absurd (ground arith)
to_in_progress CollectionStatus.validated h = absurd (ground arith)
to_in_progress CollectionStatus.cancelled h = absurd (ground arith)

pub to_submitted :
    (a : CollectionStatus) → is_editable a ≡ true → CollectionPath a CollectionStatus.submitted
to_submitted CollectionStatus.draft h = CollectionPath.move submitting_draft CollectionPath.stay
to_submitted CollectionStatus.in_progress h = CollectionPath.move submitting CollectionPath.stay
to_submitted CollectionStatus.rejected h = CollectionPath.move submitting_again CollectionPath.stay
to_submitted CollectionStatus.submitted h = CollectionPath.stay
to_submitted CollectionStatus.validated h = absurd (ground arith)
to_submitted CollectionStatus.cancelled h = absurd (ground arith)

pub to_cancelled :
    (a : CollectionStatus)
    → is_validated_status a ≡ false
    → CollectionPath a CollectionStatus.cancelled
to_cancelled CollectionStatus.draft h = CollectionPath.move cancelling_draft CollectionPath.stay
to_cancelled CollectionStatus.in_progress h = CollectionPath.move cancelling CollectionPath.stay
to_cancelled CollectionStatus.rejected h =
    CollectionPath.move cancelling_rejected CollectionPath.stay
to_cancelled CollectionStatus.submitted h =
    CollectionPath.move cancelling_submitted CollectionPath.stay
to_cancelled CollectionStatus.validated h = absurd (ground arith)
to_cancelled CollectionStatus.cancelled h = CollectionPath.stay

pub to_validated :
    (a : CollectionStatus) → is_submitted a ≡ true → CollectionPath a CollectionStatus.validated
to_validated CollectionStatus.submitted h = CollectionPath.move validating CollectionPath.stay
to_validated CollectionStatus.draft h = absurd (ground arith)
to_validated CollectionStatus.in_progress h = absurd (ground arith)
to_validated CollectionStatus.rejected h = absurd (ground arith)
to_validated CollectionStatus.validated h = absurd (ground arith)
to_validated CollectionStatus.cancelled h = absurd (ground arith)

pub to_rejected :
    (a : CollectionStatus) → is_submitted a ≡ true → CollectionPath a CollectionStatus.rejected
to_rejected CollectionStatus.submitted h = CollectionPath.move rejecting CollectionPath.stay
to_rejected CollectionStatus.draft h = absurd (ground arith)
to_rejected CollectionStatus.in_progress h = absurd (ground arith)
to_rejected CollectionStatus.rejected h = absurd (ground arith)
to_rejected CollectionStatus.validated h = absurd (ground arith)
to_rejected CollectionStatus.cancelled h = absurd (ground arith)

-- The status that an edit of an editable collection writes.
pub edited_status :
    (a b : CollectionStatus)
    → is_editable a ≡ true
    → not (is_editable b) ≡ false
    → CollectionPath a (in_progress_from b)
edited_status a CollectionStatus.draft h k = to_in_progress a h
edited_status a CollectionStatus.in_progress h k = to_in_progress a h
edited_status a CollectionStatus.rejected h k = to_in_progress a h
edited_status a CollectionStatus.submitted h k = absurd (ground arith)
edited_status a CollectionStatus.validated h k = absurd (ground arith)
edited_status a CollectionStatus.cancelled h k = absurd (ground arith)

-- An update of rows that are not validated.
pub changed_to :
    (c d : CollectionRow)
    → d.id ≡ c.id
    → d.rt_id ≡ c.rt_id
    → CollectionPath c.status d.status
    → is_validated_status c.status ≡ false
    → CollectionKept c d
changed_to c d i r p v = record { same_id = i; same_tenant = r; path = p; final = inl v }

pub editable_open : (a : CollectionStatus) → is_editable a ≡ true → is_validated_status a ≡ false
editable_open a h = ground arith
