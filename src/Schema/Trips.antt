-- ===== src/Schema/Trips.antt =====
-- The travel desk's tables (src/database/schema/ops.ts). Names, places and free texts are not kept.
use travelo.Base.{ℕ, Option, Bool, ◌==◌}

pub record Vehicle : Type 0 where
  pub id : ℕ
  pub property_id : ℕ
  pub deleted : Bool

pub data TransportType : Type 0 where
  pickup drop tour rental : TransportType

pub data TransportStatus : Type 0 where
  requested assigned in_progress completed cancelled : TransportStatus

abbrev pub transport_status_code : TransportStatus → ℕ
transport_status_code requested = 0
transport_status_code assigned = 1
transport_status_code in_progress = 2
transport_status_code completed = 3
transport_status_code cancelled = 4

abbrev pub is_transport_status : TransportStatus → TransportStatus → Bool
is_transport_status a b = transport_status_code a == transport_status_code b

pub data DriverStage : Type 0 where
  accepted en_route arrived picked_up : DriverStage

abbrev pub driver_stage_code : DriverStage → ℕ
driver_stage_code accepted = 0
driver_stage_code en_route = 1
driver_stage_code arrived = 2
driver_stage_code picked_up = 3

abbrev pub is_driver_stage : DriverStage → DriverStage → Bool
is_driver_stage a b = driver_stage_code a == driver_stage_code b

pub record TransportRequest : Type 0 where
  pub id : ℕ
  pub property_id : ℕ
  pub reservation_id : Option ℕ
  pub type : TransportType
  pub pickup_at : ℕ
  pub vehicle_id : Option ℕ
  pub driver_staff_id : Option ℕ
  pub status : TransportStatus
  pub driver_stage : Option DriverStage
  pub fare_paise : Option ℕ
  pub created_by : Option ℕ
  pub deleted : Bool
