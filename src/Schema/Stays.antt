-- ===== src/Schema/Stays.antt =====
-- Reservations, rooms, room types and rate overrides (src/database/schema/reservations.ts, rooms.ts).
-- Guest contact and company columns are pairs of a column's name and its text.
use Prim.Native.String.{String}
use travelo.Base.{ℕ, List, Option, Bool, true, false, ◌==◌}
use travelo.Base.Int.{ℤ}

-- A `date` column, as the number of its day.
abbrev pub IsoDate : Type 0
IsoDate = ℕ

-- Milliseconds since the epoch.
abbrev pub Timestamp : Type 0
Timestamp = ℕ

pub data ReservationStatus : Type 0 where
  pending confirmed checked_in checked_out cancelled no_show : ReservationStatus

-- `===` on statuses, through the position in `reservationStatusValues`.
abbrev pub reservation_status_code : ReservationStatus → ℕ
reservation_status_code pending = 0
reservation_status_code confirmed = 1
reservation_status_code checked_in = 2
reservation_status_code checked_out = 3
reservation_status_code cancelled = 4
reservation_status_code no_show = 5

abbrev pub is_status : ReservationStatus → ReservationStatus → Bool
is_status a b = reservation_status_code a == reservation_status_code b

pub data RoomStatus : Type 0 where
  available occupied dirty cleaning inspected ready maintenance out_of_order : RoomStatus

abbrev pub room_status_code : RoomStatus → ℕ
room_status_code available = 0
room_status_code occupied = 1
room_status_code dirty = 2
room_status_code cleaning = 3
room_status_code inspected = 4
room_status_code ready = 5
room_status_code maintenance = 6
room_status_code out_of_order = 7

abbrev pub is_room_status : RoomStatus → RoomStatus → Bool
is_room_status a b = room_status_code a == room_status_code b

pub record Reservation : Type 0 where
  pub id : ℕ
  pub property_id : ℕ
  pub room_type_id : ℕ
  pub room_id : Option ℕ
  pub reservation_number : List ℕ
  pub details : List (String × String)
  pub company_gstin : Option (List ℕ)
  pub adults : ℕ
  pub children : ℕ
  pub check_in : IsoDate
  pub check_out : IsoDate
  pub status : ReservationStatus
  pub rate_paise : ℕ
  pub total_paise : ℕ
  pub paid_paise : ℤ
  pub rate_plan_id : Option ℕ
  pub hold_expires_at : Option Timestamp
  pub room_locked : Bool
  pub checked_in_at : Option Timestamp
  pub checked_out_at : Option Timestamp
  pub cancelled_at : Option Timestamp
  pub created_at : Timestamp
  pub deleted : Bool

-- `OCCUPYING_STATUSES.includes`
abbrev pub is_occupying : ReservationStatus → Bool
is_occupying confirmed = true
is_occupying checked_in = true
is_occupying _ = false

pub record Room : Type 0 where
  pub id : ℕ
  pub property_id : ℕ
  pub room_type_id : ℕ
  pub number : List ℕ
  pub status : RoomStatus
  pub deleted : Bool

pub record RoomType : Type 0 where
  pub id : ℕ
  pub property_id : ℕ
  pub base_rate : ℕ
  pub deleted : Bool

pub record RateOverride : Type 0 where
  pub property_id : ℕ
  pub room_type_id : ℕ
  pub rate_paise : ℕ
  pub start_date : IsoDate
  pub end_date : IsoDate
  pub deleted : Bool

-- A day of the rates grid (`rate_inventory_days`).
pub record RateDay : Type 0 where
  pub property_id : ℕ
  pub room_type_id : ℕ
  pub rate_plan_id : Option ℕ
  pub date : IsoDate
  pub price_paise : Option ℕ
  pub available : Option ℕ
  pub min_los : Option ℕ
  pub max_los : Option ℕ
  pub stop_sell : Bool
  pub closed_to_arrival : Bool
  pub closed_to_departure : Bool

pub data ReservationEventType : Type 0 where
  created updated confirmed checked_in checked_out cancelled no_show : ReservationEventType
  room_assigned room_moved room_swapped room_auto_assigned : ReservationEventType
  room_locked room_unlocked stay_extended : ReservationEventType

pub record ReservationEvent : Type 0 where
  pub reservation_id : ℕ
  pub type : ReservationEventType
  pub actor_staff_id : Option ℕ
