-- ===== src/Maintenance.antt =====
-- src/modules/housekeeping: the work orders' transitions (work-order-transitions.ts) and service
-- (work-orders.service.ts). An order's title, description and parts are not kept.
pub mod Closure
pub mod Barred
use travelo.Base.{
  ℕ, ◌+◌, ◌%◌, Bool, true, false, not, ◌&&◌, ◌||◌, List, [], ◌∷◌, ◌++◌, Option, none, some, any,
  select, update_row, count_of, codes, codes_eq, pad_start, decimal, trim, given_text, ◌==◌,
  is_some, or_else, if◌then◌else◌, Outcome, ok, refused, refuse_if, require, ◌>>=◌, ◌>>◌,
}
use travelo.Schema.{
  Db, RoomStatus, Timestamp, WorkOrder, WorkOrderStatus, is_work_order_status, WorkOrderPriority,
  Refusal, work_order_not_found, invalid_work_order_transition, resolution_required,
  cancel_reason_required, unique_violation,
}
use travelo.Reservation.Availability.{require_room}
use travelo.Reservation.Writes.{set_room_status}
use travelo.Reservation.Booking.{create_attempts}

-- `WORK_ORDER_TRANSITIONS`
unfoldable pub work_order_transitions : WorkOrderStatus → List WorkOrderStatus
work_order_transitions WorkOrderStatus.opened =
    WorkOrderStatus.accepted ∷ WorkOrderStatus.cancelled ∷ []
work_order_transitions WorkOrderStatus.accepted =
    WorkOrderStatus.in_progress ∷ WorkOrderStatus.cancelled ∷ []
work_order_transitions WorkOrderStatus.in_progress =
    WorkOrderStatus.paused ∷ WorkOrderStatus.completed ∷ WorkOrderStatus.cancelled ∷ []
work_order_transitions WorkOrderStatus.paused =
    WorkOrderStatus.in_progress ∷ WorkOrderStatus.cancelled ∷ []
work_order_transitions WorkOrderStatus.completed = []
work_order_transitions WorkOrderStatus.cancelled = []

unfoldable pub can_work_order_transition : WorkOrderStatus → WorkOrderStatus → Bool
unfolding work_order_transitions any
can_work_order_transition from to = any (is_work_order_status to) (work_order_transitions from)

unfoldable pub assert_work_order_transition :
    WorkOrderStatus → WorkOrderStatus → Outcome Refusal (Unit {0})
assert_work_order_transition from to =
    refuse_if (not (can_work_order_transition from to)) invalid_work_order_transition

-- `WO-` and five digits.
unfoldable pub format_work_order_number : ℕ → List ℕ
format_work_order_number sequence = codes "WO-" ++ pad_start 5 (decimal (sequence % 100000))

unfoldable pub is_live_work_order : ℕ → ℕ → WorkOrder → Bool
is_live_work_order property_id id w = w.id == id && w.property_id == property_id && not w.deleted

-- `requireWorkOrder`
unfoldable pub require_work_order : Db → ℕ → ℕ → Outcome Refusal WorkOrder
require_work_order db property_id id =
    require (select (is_live_work_order property_id id) db.work_orders) work_order_not_found

unfoldable pub set_work_order : Db → ℕ → (WorkOrder → WorkOrder) → Db
set_work_order db id patch = record db {
  work_orders = update_row (λ w. w.id) id patch db.work_orders;
}

pub record CreateWorkOrder : Type 0 where
  pub room_id : Option ℕ
  pub priority : Option WorkOrderPriority
  pub takes_room_out_of_service : Option Bool

unfoldable pub new_work_order : Db → ℕ → CreateWorkOrder → ℕ → ℕ → ℕ → WorkOrder
new_work_order db property_id dto reporter id attempt = record {
  id = id;
  property_id = property_id;
  room_id = dto.room_id;
  work_order_number =
      format_work_order_number
        (count_of (λ w. w.property_id == property_id) db.work_orders + 1 + attempt);
  priority = or_else dto.priority WorkOrderPriority.normal;
  status = WorkOrderStatus.opened;
  reported_by = reporter;
  assigned_staff_id = none;
  resolution = none;
  takes_room_out_of_service = or_else dto.takes_room_out_of_service false;
  cancel_reason = none;
  accepted_at = none;
  started_at = none;
  completed_at = none;
  cancelled_at = none;
  deleted = false;
}

-- `insert(workOrders)`, under the unique index on (property, number) of the live rows.
unfoldable pub insert_work_order : Db → WorkOrder → Outcome Refusal Db
insert_work_order db w =
    refuse_if
      (any
        (λ v.
          v.property_id == w.property_id
          && codes_eq v.work_order_number w.work_order_number
          && not v.deleted)
        db.work_orders)
      unique_violation
    >> ok (record db { work_orders = db.work_orders ++ w ∷ [] })

-- An order that takes its room out of service gives the room this status.
unfoldable pub drive_out : Db → Bool → Option ℕ → RoomStatus → Db
drive_out db true (some room_id) status = set_room_status db room_id status
drive_out db true none status = db
drive_out db false room status = db

unfoldable pub check_place : Db → ℕ → Option ℕ → Outcome Refusal (Unit {0})
check_place db property_id none = ok tt
check_place db property_id (some room_id) = require_room db property_id room_id >>= λ _. ok tt

-- The transaction of one attempt.
unfoldable pub work_order_attempt : Db → ℕ → CreateWorkOrder → ℕ → ℕ → ℕ → Outcome Refusal Db
work_order_attempt db property_id dto reporter id attempt = do
  created ← insert_work_order db (new_work_order db property_id dto reporter id attempt)
  ok (
      drive_out created (or_else dto.takes_room_out_of_service false) dto.room_id
        RoomStatus.out_of_order)

-- `create`
unfoldable pub create_work_order : Db → ℕ → CreateWorkOrder → ℕ → ℕ → Outcome Refusal Db
unfolding check_place
create_work_order db property_id dto reporter id = do
  check_place db property_id dto.room_id
  create_attempts 4 0 (work_order_attempt db property_id dto reporter id)

-- `accept`
unfoldable pub accept_work_order : Db → ℕ → ℕ → ℕ → Timestamp → Outcome Refusal Db
accept_work_order db property_id id actor now = do
  before ← require_work_order db property_id id
  assert_work_order_transition before.status WorkOrderStatus.accepted
  let assignee = or_else before.assigned_staff_id actor
  ok (
      drive_out
        (set_work_order db id (λ w. record w {
          status = WorkOrderStatus.accepted;
          assigned_staff_id = some assignee;
          accepted_at = some now;
        }))
        before.takes_room_out_of_service before.room_id RoomStatus.maintenance)

-- `simpleTransition`; `extra` is the start that the caller stamps.
unfoldable pub simple_transition :
    Db → ℕ → ℕ → WorkOrderStatus → Option Timestamp → Timestamp → Outcome Refusal Db
simple_transition db property_id id target extra now = do
  before ← require_work_order db property_id id
  assert_work_order_transition before.status target
  let first =
      is_work_order_status target WorkOrderStatus.in_progress
      && not (is_some before.started_at)
      && not (is_some extra)
  let stamp : Option Timestamp → Option Timestamp =
      λ old. if first then some now else if is_some extra then extra else old
  ok (set_work_order db id (λ w. record w { status = target; started_at = stamp w.started_at }))

abbrev pub start_work_order : Db → ℕ → ℕ → Timestamp → Outcome Refusal Db
start_work_order db property_id id now =
    simple_transition db property_id id WorkOrderStatus.in_progress (some now) now

abbrev pub pause_work_order : Db → ℕ → ℕ → Timestamp → Outcome Refusal Db
pause_work_order db property_id id now =
    simple_transition db property_id id WorkOrderStatus.paused none now

abbrev pub resume_work_order : Db → ℕ → ℕ → Timestamp → Outcome Refusal Db
resume_work_order db property_id id now =
    simple_transition db property_id id WorkOrderStatus.in_progress none now

-- `complete`
unfoldable pub complete_work_order : Db → ℕ → ℕ → List ℕ → Timestamp → Outcome Refusal Db
complete_work_order db property_id id resolution now = do
  before ← require_work_order db property_id id
  text ← require (given_text (some resolution)) resolution_required
  assert_work_order_transition before.status WorkOrderStatus.completed
  ok (
      drive_out
        (set_work_order db id (λ w. record w {
          status = WorkOrderStatus.completed;
          resolution = some text;
          completed_at = some now;
        }))
        before.takes_room_out_of_service before.room_id RoomStatus.dirty)

-- `cancel`
unfoldable pub cancel_work_order : Db → ℕ → ℕ → List ℕ → Timestamp → Outcome Refusal Db
cancel_work_order db property_id id reason now = do
  before ← require_work_order db property_id id
  text ← require (given_text (some reason)) cancel_reason_required
  assert_work_order_transition before.status WorkOrderStatus.cancelled
  ok (
      drive_out
        (set_work_order db id (λ w. record w {
          status = WorkOrderStatus.cancelled;
          cancel_reason = some text;
          cancelled_at = some now;
        }))
        before.takes_room_out_of_service before.room_id RoomStatus.dirty)
