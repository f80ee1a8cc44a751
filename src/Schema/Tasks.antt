-- ===== src/Schema/Tasks.antt =====
-- Housekeeping tasks and the staff they are assigned to (src/database/schema/housekeeping.ts).
-- The free texts of a task (guest request, notes) and its due time are not kept; an area is its
-- code points.
use travelo.Base.{ℕ, List, Option, Bool, ◌==◌}

pub data TaskStatus : Type 0 where
  pending in_progress completed inspected rejected : TaskStatus

abbrev pub task_status_code : TaskStatus → ℕ
task_status_code pending = 0
task_status_code in_progress = 1
task_status_code completed = 2
task_status_code inspected = 3
task_status_code rejected = 4

abbrev pub is_task_status : TaskStatus → TaskStatus → Bool
is_task_status a b = task_status_code a == task_status_code b

pub data TaskType : Type 0 where
  checkout_clean stayover deep_clean area_clean custom : TaskType

pub data TaskPriority : Type 0 where
  low normal high : TaskPriority

pub record HousekeepingTask : Type 0 where
  pub id : ℕ
  pub property_id : ℕ
  pub room_id : Option ℕ
  pub area : Option (List ℕ)
  pub type : TaskType
  pub status : TaskStatus
  pub priority : TaskPriority
  pub assigned_staff_id : Option ℕ
  pub started_at : Option ℕ
  pub completed_at : Option ℕ
  pub inspected_at : Option ℕ
  pub created_by : Option ℕ
  pub deleted : Bool

pub record HotelStaff : Type 0 where
  pub id : ℕ
  pub property_id : ℕ
  pub deleted : Bool

pub data WorkOrderStatus : Type 0 where
  opened accepted in_progress paused completed cancelled : WorkOrderStatus

abbrev pub work_order_status_code : WorkOrderStatus → ℕ
work_order_status_code opened = 0
work_order_status_code accepted = 1
work_order_status_code in_progress = 2
work_order_status_code paused = 3
work_order_status_code completed = 4
work_order_status_code cancelled = 5

abbrev pub is_work_order_status : WorkOrderStatus → WorkOrderStatus → Bool
is_work_order_status a b = work_order_status_code a == work_order_status_code b

pub data WorkOrderPriority : Type 0 where
  low normal high critical : WorkOrderPriority

-- A work order without its title, description and parts; a resolution and a reason are code points.
pub record WorkOrder : Type 0 where
  pub id : ℕ
  pub property_id : ℕ
  pub room_id : Option ℕ
  pub work_order_number : List ℕ
  pub priority : WorkOrderPriority
  pub status : WorkOrderStatus
  pub reported_by : ℕ
  pub assigned_staff_id : Option ℕ
  pub resolution : Option (List ℕ)
  pub takes_room_out_of_service : Bool
  pub cancel_reason : Option (List ℕ)
  pub accepted_at : Option ℕ
  pub started_at : Option ℕ
  pub completed_at : Option ℕ
  pub cancelled_at : Option ℕ
  pub deleted : Bool
