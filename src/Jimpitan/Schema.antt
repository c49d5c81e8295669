-- ===== src/Jimpitan/Schema.antt =====
-- The rows of the collection tables (prisma/schema.prisma, and the row types at the head of
-- apps/api/src/modules/jimpitan/infrastructure/prisma-jimpitan.repository.ts) and the commands of
-- apps/api/src/modules/jimpitan/application/jimpitan.commands.ts. The columns of the officer's user and
-- of the area that only the answers show (names, codes) are left out.
use jimpitan.Base.{ℕ, String, Bool, Option, List}
use jimpitan.Base.Int.{ℤ}
use jimpitan.Finance.Schema.{CollectionMode, CollectionStatus, CollectionItemStatus}

pub record CollectionRow : Type 0 where
  pub id : String
  pub rt_id : String
  pub schedule_id : Option String
  pub officer_membership_id : String
  pub collection_date : String
  pub collection_mode : CollectionMode
  pub status : CollectionStatus
  pub note : Option String
  pub total_amount : ℤ
  pub submit_request_id : Option String
  pub submitted_at : Option ℕ
  pub validated_by_id : Option String
  pub validated_at : Option ℕ
  pub validation_note : Option String
  pub rejected_by_id : Option String
  pub rejected_at : Option ℕ
  pub rejection_reason : Option String
  pub cancelled_by_id : Option String
  pub cancelled_at : Option ℕ
  pub cancellation_reason : Option String
  pub updated_by_id : Option String

pub record CollectionItemRow : Type 0 where
  pub id : String
  pub rt_id : String
  pub collection_id : String
  pub house_id : String
  pub resident_id : Option String
  pub amount : ℤ
  pub status : CollectionItemStatus
  pub note : Option String
  pub updated_by_id : Option String

pub data ScheduleStatus : Type 0 where
  scheduled completed : ScheduleStatus

pub record ScheduleRow : Type 0 where
  pub id : String
  pub rt_id : String
  pub officer_membership_id : String
  pub schedule_date : String
  pub area_id : Option String
  pub status : ScheduleStatus
  pub completed_at : Option ℕ
  pub updated_by_id : Option String

-- A role that a membership has.
pub record RoleRow : Type 0 where
  pub rt_id : Option String
  pub key : String
  pub is_system : Bool
  pub deleted_at : Option ℕ

-- `is_active` says that the membership's and the user's status are ACTIVE and the user is not deleted.
pub record MembershipRow : Type 0 where
  pub id : String
  pub rt_id : String
  pub user_id : String
  pub is_active : Bool
  pub roles : List RoleRow

pub record AreaRow : Type 0 where
  pub id : String
  pub rt_id : String
  pub is_active : Bool
  pub deleted_at : Option ℕ

-- `is_inactive` says that the status is INACTIVE, `area_is_open` that the area is active and not deleted.
pub record HouseRow : Type 0 where
  pub id : String
  pub rt_id : String
  pub area_id : String
  pub area_is_open : Bool
  pub is_inactive : Bool
  pub deleted_at : Option ℕ

-- `is_active` says that the status is ACTIVE.
pub record ResidentRow : Type 0 where
  pub id : String
  pub rt_id : String
  pub house_id : String
  pub is_active : Bool
  pub deleted_at : Option ℕ

-- The tables that the collections refer to.
pub record Directory : Type 0 where
  pub schedules : List ScheduleRow
  pub memberships : List MembershipRow
  pub areas : List AreaRow
  pub houses : List HouseRow
  pub residents : List ResidentRow

pub record CreateCollectionCommand : Type 0 where
  pub officer_membership_id : String
  pub collection_date : String
  pub collection_mode : Option CollectionMode
  pub total_amount : Option String
  pub area_id : Option String
  pub note : Option String

-- A field of an update: left out, null, or a value.
pub data Field (A : Type 0) : Type 0 where
  left_out to_null : Field A
  value : A → Field A

pub record UpdateCollectionCommand : Type 0 where
  pub officer_membership_id : Option String
  pub collection_date : Option String
  pub collection_mode : Option CollectionMode
  pub total_amount : Field String
  pub area_id : Field String
  pub note : Field String

pub record SetBulkCollectionTotalCommand : Type 0 where
  pub total_amount : String
  pub note : Field String

pub record CollectionItemCommand : Type 0 where
  pub house_id : String
  pub resident_id : Option String
  pub amount : String
  pub status : CollectionItemStatus
  pub note : Option String
