-- ===== src/Housekeeping.antt =====
-- src/modules/housekeeping: the task transitions (task-transitions.ts) and the mutations of the
-- cleaning loop (housekeeping.service.ts).
pub mod Loop
pub mod Work
use travelo.Base.{
  given_text, ℕ, ◌≡◌, Bool, true, false, not, ◌&&◌, ◌||◌, List, [], ◌∷◌, ◌++◌, Option, none, some,
  any, select, update_row, ltb, leb, ◌==◌, holds, is_some, or_else, if◌then◌else◌, Outcome, ok,
  refused, refuse_if, require, ◌>>=◌, ◌>>◌,
}
use travelo.Schema.{
  Db, HousekeepingTask, HotelStaff, TaskStatus, is_task_status, TaskType, TaskPriority, RoomStatus,
  Timestamp, Refusal, task_not_found, staff_not_found, location_required, not_your_task,
  invalid_task_transition,
}
use travelo.Reservation.Availability.{require_room}
use travelo.Reservation.Writes.{set_room_status}

-- `HOUSEKEEPING_TASK_TRANSITIONS`
unfoldable pub task_transitions : TaskStatus → List TaskStatus
task_transitions TaskStatus.pending = TaskStatus.in_progress ∷ []
task_transitions TaskStatus.in_progress = TaskStatus.completed ∷ []
task_transitions TaskStatus.completed = TaskStatus.inspected ∷ TaskStatus.rejected ∷ []
task_transitions TaskStatus.inspected = []
task_transitions TaskStatus.rejected = []

unfoldable pub can_task_transition : TaskStatus → TaskStatus → Bool
unfolding task_transitions any
can_task_transition from to = any (is_task_status to) (task_transitions from)

unfoldable pub assert_task_transition : TaskStatus → TaskStatus → Outcome Refusal (Unit {0})
assert_task_transition from to =
    refuse_if (not (can_task_transition from to)) invalid_task_transition

pub data RoomStep : Type 0 where
  start complete inspect_pass inspect_fail : RoomStep

-- `ROOM_STATUS_FOR_TASK`
unfoldable pub room_status_for_task : RoomStep → RoomStatus
room_status_for_task start = RoomStatus.cleaning
room_status_for_task complete = RoomStatus.inspected
room_status_for_task inspect_pass = RoomStatus.ready
room_status_for_task inspect_fail = RoomStatus.dirty

pub record TaskActor : Type 0 where
  pub id : ℕ
  pub is_supervisor : Bool

pub record CreateTask : Type 0 where
  pub room_id : Option ℕ
  pub area : Option (List ℕ)
  pub type : TaskType
  pub priority : Option TaskPriority
  pub assigned_staff_id : Option ℕ

-- `requireTask`
unfoldable pub require_task : Db → ℕ → ℕ → Outcome Refusal HousekeepingTask
require_task db property_id id =
    require (select (λ t. t.id == id && t.property_id == property_id && not t.deleted) db.tasks)
      task_not_found

-- `requireStaff`
unfoldable pub require_staff : Db → ℕ → ℕ → Outcome Refusal HotelStaff
require_staff db property_id id =
    require (select (λ s. s.id == id && s.property_id == property_id && not s.deleted) db.staff)
      staff_not_found

-- `assertMayWork`
unfoldable pub assert_may_work : HousekeepingTask → TaskActor → Outcome Refusal (Unit {0})
assert_may_work task actor =
    refuse_if
      (not actor.is_supervisor
        && is_some task.assigned_staff_id
        && not (holds task.assigned_staff_id actor.id))
      not_your_task

unfoldable pub set_task : Db → ℕ → (HousekeepingTask → HousekeepingTask) → Db
set_task db id patch = record db { tasks = update_row (λ t. t.id) id patch db.tasks }

-- `if (before.roomId) await setRoomStatus(…)`
unfoldable pub drive_room : Db → Option ℕ → RoomStep → Db
drive_room db none step = db
drive_room db (some room_id) step = set_room_status db room_id (room_status_for_task step)

-- The trimmed area, where one is given and not blank.
unfoldable pub given_area : Option (List ℕ) → Option (List ℕ)
given_area area = given_text area

abbrev same_bool : Bool → Bool → Bool
same_bool true b = b
same_bool false b = not b

abbrev require_if {ℓ} :
    {A : Type ℓ} → Option ℕ → (ℕ → Outcome Refusal A) → Outcome Refusal (Unit {0})
require_if none check = ok tt
require_if (some id) check = check id >>= λ _. ok tt

unfoldable pub new_task : ℕ → CreateTask → ℕ → Option ℕ → HousekeepingTask
new_task property_id dto id created_by = record {
  id = id;
  property_id = property_id;
  room_id = dto.room_id;
  area = given_area dto.area;
  type = dto.type;
  status = TaskStatus.pending;
  priority = or_else dto.priority TaskPriority.normal;
  assigned_staff_id = dto.assigned_staff_id;
  started_at = none;
  completed_at = none;
  inspected_at = none;
  created_by = created_by;
  deleted = false;
}

-- `create`
unfoldable pub create_task : Db → ℕ → CreateTask → TaskActor → ℕ → Outcome Refusal Db
create_task db property_id dto actor id = do
  refuse_if (same_bool (is_some dto.room_id) (is_some (given_area dto.area))) location_required
  require_if dto.room_id (require_room db property_id)
  require_if dto.assigned_staff_id (require_staff db property_id)
  ok (record db { tasks = db.tasks ++ new_task property_id dto id (some actor.id) ∷ [] })

-- `assign`
unfoldable pub assign_task : Db → ℕ → ℕ → ℕ → Outcome Refusal Db
assign_task db property_id id staff_id = do
  before ← require_task db property_id id
  staff ← require_staff db property_id staff_id
  ok (set_task db id (λ t. record t { assigned_staff_id = some staff_id }))

-- `start`
unfoldable pub start_task : Db → ℕ → ℕ → TaskActor → Timestamp → Outcome Refusal Db
start_task db property_id id actor now = do
  before ← require_task db property_id id
  assert_may_work before actor
  assert_task_transition before.status TaskStatus.in_progress
  ok (
      drive_room
        (set_task db id (λ t. record t {
          status = TaskStatus.in_progress;
          assigned_staff_id = some (or_else before.assigned_staff_id actor.id);
          started_at = some now;
        }))
        before.room_id RoomStep.start)

-- `complete`
unfoldable pub complete_task : Db → ℕ → ℕ → TaskActor → Timestamp → Outcome Refusal Db
complete_task db property_id id actor now = do
  before ← require_task db property_id id
  assert_may_work before actor
  assert_task_transition before.status TaskStatus.completed
  ok (
      drive_room
        (set_task db id (λ t. record t { status = TaskStatus.completed; completed_at = some now }))
        before.room_id RoomStep.complete)

-- The row of the task that repeats a failed one.
unfoldable pub redo_task : ℕ → HousekeepingTask → ℕ → ℕ → HousekeepingTask
redo_task property_id before actor_id id = record {
  id = id;
  property_id = property_id;
  room_id = before.room_id;
  area = before.area;
  type = before.type;
  status = TaskStatus.pending;
  priority = before.priority;
  assigned_staff_id = before.assigned_staff_id;
  started_at = none;
  completed_at = none;
  inspected_at = none;
  created_by = some actor_id;
  deleted = false;
}

abbrev pub inspection_target : Bool → TaskStatus
inspection_target true = TaskStatus.inspected
inspection_target false = TaskStatus.rejected

unfoldable pub after_inspection : Bool → Db → ℕ → HousekeepingTask → ℕ → ℕ → Db
after_inspection true db property_id before actor_id redo_id =
    drive_room db before.room_id RoomStep.inspect_pass
after_inspection false db property_id before actor_id redo_id =
    let driven = drive_room db before.room_id RoomStep.inspect_fail in
    record driven { tasks = driven.tasks ++ redo_task property_id before actor_id redo_id ∷ [] }

-- `inspect`; `redo_id` is the key of the task that a failure raises.
unfoldable pub inspect_task : Db → ℕ → ℕ → Bool → TaskActor → ℕ → Timestamp → Outcome Refusal Db
unfolding after_inspection
inspect_task db property_id id pass actor redo_id now = do
  before ← require_task db property_id id
  assert_task_transition before.status (inspection_target pass)
  ok (
      after_inspection pass
        (set_task db id
          (λ t. record t { status = inspection_target pass; inspected_at = some now }))
        property_id before actor.id redo_id)

-- `OPEN_TASK_STATUSES.includes`
unfoldable pub is_open_task : TaskStatus → Bool
is_open_task TaskStatus.inspected = false
is_open_task TaskStatus.rejected = false
is_open_task _ = true

unfoldable pub is_open_for : ℕ → ℕ → HousekeepingTask → Bool
is_open_for property_id room_id t =
    t.property_id == property_id
    && holds t.room_id room_id
    && not t.deleted
    && is_open_task t.status

unfoldable pub checkout_clean : ℕ → ℕ → Option ℕ → ℕ → HousekeepingTask
checkout_clean property_id room_id actor id = record {
  id = id;
  property_id = property_id;
  room_id = some room_id;
  area = none;
  type = TaskType.checkout_clean;
  status = TaskStatus.pending;
  priority = TaskPriority.normal;
  assigned_staff_id = none;
  started_at = none;
  completed_at = none;
  inspected_at = none;
  created_by = actor;
  deleted = false;
}

-- `createCheckoutCleanForRoom`
unfoldable pub create_checkout_clean_for_room : Db → ℕ → ℕ → Option ℕ → ℕ → Db
create_checkout_clean_for_room db property_id room_id actor id =
    elim (any (is_open_for property_id room_id) db.tasks) [
      | true ↦ db
      | false ↦ record db { tasks = db.tasks ++ checkout_clean property_id room_id actor id ∷ [] }
    ]
