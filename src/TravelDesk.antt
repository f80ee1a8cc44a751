-- ===== src/TravelDesk.antt =====
-- src/modules/travel-desk: the two state machines of a trip (transport-rules.ts), the desk's and the
-- driver's (transport.service.ts).
pub mod Trips
pub mod Calls
use travelo.Base.{
  ℕ, Bool, true, false, not, ◌&&◌, ◌||◌, List, [], ◌∷◌, ◌++◌, Option, none, some, any, select,
  update_row, holds, ◌==◌, or_else, Outcome, ok, refused, refuse_if, require, ◌>>=◌, ◌>>◌,
}
use travelo.Schema.{
  Db, TransportRequest, TransportType, TransportStatus, is_transport_status, DriverStage,
  is_driver_stage, Refusal, request_not_found, vehicle_not_found, driver_required, not_assignable,
  not_your_trip, invalid_transport_transition, invalid_driver_step,
}

-- `TRANSPORT_TRANSITIONS`
unfoldable pub transport_transitions : TransportStatus → List TransportStatus
transport_transitions TransportStatus.requested =
    TransportStatus.assigned ∷ TransportStatus.cancelled ∷ []
transport_transitions TransportStatus.assigned =
    TransportStatus.in_progress ∷ TransportStatus.requested ∷ TransportStatus.cancelled ∷ []
transport_transitions TransportStatus.in_progress =
    TransportStatus.completed ∷ TransportStatus.cancelled ∷ []
transport_transitions TransportStatus.completed = []
transport_transitions TransportStatus.cancelled = []

unfoldable pub can_transition_transport : TransportStatus → TransportStatus → Bool
unfolding transport_transitions any
can_transition_transport from to = any (is_transport_status to) (transport_transitions from)

unfoldable pub assert_transport_transition :
    TransportStatus → TransportStatus → Outcome Refusal (Unit {0})
assert_transport_transition from to =
    refuse_if (not (can_transition_transport from to)) invalid_transport_transition

-- `DRIVER_STAGE_TRANSITIONS`
unfoldable pub driver_stage_transitions : DriverStage → List DriverStage
driver_stage_transitions DriverStage.accepted = DriverStage.en_route ∷ []
driver_stage_transitions DriverStage.en_route = DriverStage.arrived ∷ []
driver_stage_transitions DriverStage.arrived = DriverStage.picked_up ∷ []
driver_stage_transitions DriverStage.picked_up = []

unfoldable pub can_transition_driver_stage : Option DriverStage → DriverStage → Bool
unfolding driver_stage_transitions any
can_transition_driver_stage none to = is_driver_stage to DriverStage.accepted
can_transition_driver_stage (some from) to =
    any (is_driver_stage to) (driver_stage_transitions from)

unfoldable pub assert_driver_stage : Option DriverStage → DriverStage → Outcome Refusal (Unit {0})
assert_driver_stage from to =
    refuse_if (not (can_transition_driver_stage from to)) invalid_driver_step

unfoldable pub is_live_request : ℕ → ℕ → TransportRequest → Bool
is_live_request property_id id r = r.id == id && r.property_id == property_id && not r.deleted

-- `requireRequest`
unfoldable pub require_request : Db → ℕ → ℕ → Outcome Refusal TransportRequest
require_request db property_id id =
    require (select (is_live_request property_id id) db.transport_requests) request_not_found

unfoldable pub set_request : Db → ℕ → (TransportRequest → TransportRequest) → Db
set_request db id patch = record db {
  transport_requests = update_row (λ r. r.id) id patch db.transport_requests;
}

pub record CreateTransport : Type 0 where
  pub reservation_id : Option ℕ
  pub type : TransportType
  pub pickup_at : ℕ
  pub fare_paise : Option ℕ

unfoldable pub new_request : ℕ → CreateTransport → ℕ → ℕ → TransportRequest
new_request property_id dto created_by id = record {
  id = id;
  property_id = property_id;
  reservation_id = dto.reservation_id;
  type = dto.type;
  pickup_at = dto.pickup_at;
  vehicle_id = none;
  driver_staff_id = none;
  status = TransportStatus.requested;
  driver_stage = none;
  fare_paise = dto.fare_paise;
  created_by = some created_by;
  deleted = false;
}

-- `create`
unfoldable pub create_request : Db → ℕ → CreateTransport → ℕ → ℕ → Db
create_request db property_id dto created_by id = record db {
  transport_requests = db.transport_requests ++ new_request property_id dto created_by id ∷ [];
}

pub record UpdateTransport : Type 0 where
  pub reservation_id : Option ℕ
  pub type : Option TransportType
  pub pickup_at : Option ℕ
  pub fare_paise : Option ℕ

abbrev patch_column : Option ℕ → Option ℕ → Option ℕ
patch_column none old = old
patch_column (some given) old = some given

-- `update`
unfoldable pub update_request : Db → ℕ → ℕ → UpdateTransport → Outcome Refusal Db
update_request db property_id id dto = do
  before ← require_request db property_id id
  ok (
      set_request db id (λ r. record r {
        reservation_id = patch_column dto.reservation_id r.reservation_id;
        type = or_else dto.type r.type;
        pickup_at = or_else dto.pickup_at r.pickup_at;
        fare_paise = patch_column dto.fare_paise r.fare_paise;
      }))

-- `assertStaffInProperty`
unfoldable pub assert_staff_in_property : Db → ℕ → ℕ → Outcome Refusal (Unit {0})
assert_staff_in_property db property_id staff_id =
    require
      (select (λ s. s.id == staff_id && s.property_id == property_id && not s.deleted) db.staff)
      driver_required
    >>= λ _. ok tt

unfoldable pub check_vehicle : Db → ℕ → Option ℕ → Outcome Refusal (Unit {0})
check_vehicle db property_id none = ok tt
check_vehicle db property_id (some id) =
    require (select (λ v. v.id == id && v.property_id == property_id && not v.deleted) db.vehicles)
      vehicle_not_found
    >>= λ _. ok tt

-- `assign`
unfoldable pub assign_request : Db → ℕ → ℕ → ℕ → Option ℕ → Outcome Refusal Db
assign_request db property_id id driver_id vehicle_id = do
  before ← require_request db property_id id
  refuse_if
      (not (
        is_transport_status before.status TransportStatus.requested
        || is_transport_status before.status TransportStatus.assigned))
      not_assignable
  assert_transport_transition before.status TransportStatus.assigned
  assert_staff_in_property db property_id driver_id
  check_vehicle db property_id vehicle_id
  ok (
      set_request db id (λ r. record r {
        status = TransportStatus.assigned;
        driver_staff_id = some driver_id;
        vehicle_id = vehicle_id;
      }))

-- The patch of `setStatus`: handing a trip back clears its driver.
unfoldable pub moved_to : TransportStatus → TransportRequest → TransportRequest
moved_to TransportStatus.requested r = record r {
  status = TransportStatus.requested;
  driver_staff_id = none;
  vehicle_id = none;
  driver_stage = none;
}
moved_to to r = record r { status = to }

-- `setStatus`
unfoldable pub set_request_status : Db → ℕ → ℕ → TransportStatus → Outcome Refusal Db
unfolding moved_to
set_request_status db property_id id to = do
  before ← require_request db property_id id
  assert_transport_transition before.status to
  ok (set_request db id (moved_to to))

-- `remove`
unfoldable pub remove_request : Db → ℕ → ℕ → Outcome Refusal Db
remove_request db property_id id = do
  before ← require_request db property_id id
  ok (set_request db id (λ r. record r { deleted = true }))

unfoldable pub is_my_trip : ℕ → ℕ → ℕ → TransportRequest → Bool
is_my_trip property_id driver_id id r =
    r.id == id && r.property_id == property_id && holds r.driver_staff_id driver_id && not r.deleted

-- `requireMyTrip`
unfoldable pub require_my_trip : Db → ℕ → ℕ → ℕ → Outcome Refusal TransportRequest
require_my_trip db property_id driver_id id =
    require (select (is_my_trip property_id driver_id id) db.transport_requests) not_your_trip

pub data DriverStep : Type 0 where
  accept on_the_way arrived picked_up complete : DriverStep

unfoldable pub at_stage : Option DriverStage → DriverStage → Bool
at_stage none stage = false
at_stage (some s) stage = is_driver_stage s stage

-- A step at the doorstep, which only moves the driver's stage.
unfoldable pub walk :
    TransportRequest → DriverStage → Outcome Refusal (TransportRequest → TransportRequest)
walk before to = do
  refuse_if (not (is_transport_status before.status TransportStatus.in_progress))
      invalid_driver_step
  assert_driver_stage before.driver_stage to
  ok (λ r. record r { driver_stage = some to })

-- The patch of each step, with `driverStepStage`.
unfoldable pub step_patch :
    TransportRequest → DriverStep → Outcome Refusal (TransportRequest → TransportRequest)
unfolding walk
step_patch before DriverStep.accept = do
  assert_transport_transition before.status TransportStatus.in_progress
  assert_driver_stage before.driver_stage DriverStage.accepted
  ok (λ r. record r {
    status = TransportStatus.in_progress;
    driver_stage = some DriverStage.accepted;
  })
step_patch before DriverStep.complete = do
  assert_transport_transition before.status TransportStatus.completed
  refuse_if (not (at_stage before.driver_stage DriverStage.picked_up)) invalid_driver_step
  ok (λ r. record r { status = TransportStatus.completed })
step_patch before DriverStep.on_the_way = walk before DriverStage.en_route
step_patch before DriverStep.arrived = walk before DriverStage.arrived
step_patch before DriverStep.picked_up = walk before DriverStage.picked_up

-- `step`
unfoldable pub step_trip : Db → ℕ → ℕ → ℕ → DriverStep → Outcome Refusal Db
step_trip db property_id driver_id id step = do
  before ← require_my_trip db property_id driver_id id
  patch ← step_patch before step
  ok (set_request db id patch)
