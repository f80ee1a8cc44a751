-- ===== src/Scenarios/Hotel.antt =====
-- A small hotel to run the operations on: a booking before arrival, a soft hold, two without a room,
-- and a guest in a room.
use travelo.Base.{ℕ, refl, false, [], ◌∷◌, Option, none, some, Outcome, ok, refused}
use travelo.Base.Int.{pos}
use travelo.Schema.{Db, Reservation, ReservationStatus, Room, RoomStatus, Refusal, IsoDate}
use travelo.Reservation.Clash.{NoDoubleBooking}
use travelo.Reservation.Decision.{is_sound, is_sound-NoDoubleBooking}

abbrev booking : ℕ → ReservationStatus → Option ℕ → IsoDate → IsoDate → Reservation
booking id status room_id check_in check_out = record {
  id = id;
  property_id = 1;
  room_type_id = 1;
  room_id = room_id;
  reservation_number = id ∷ [];
  details = [];
  company_gstin = none;
  adults = 2;
  children = 0;
  check_in = check_in;
  check_out = check_out;
  status = status;
  rate_paise = 500000;
  total_paise = 1000000;
  paid_paise = pos 0;
  rate_plan_id = none;
  hold_expires_at = none;
  room_locked = false;
  checked_in_at = none;
  checked_out_at = none;
  cancelled_at = none;
  created_at = 0;
  deleted = false;
}

abbrev room : ℕ → RoomStatus → Room
room id status = record {
  id = id;
  property_id = 1;
  room_type_id = 1;
  number = id ∷ [];
  status = status;
  deleted = false;
}

abbrev pub hold : Reservation
hold = booking 2 ReservationStatus.pending (some 4) 11 13

abbrev pub hotel : Db
hotel = record {
  reservations =
      booking 1 ReservationStatus.confirmed (some 1) 10 12
      ∷ hold
      ∷ booking 3 ReservationStatus.confirmed none 10 12
      ∷ booking 4 ReservationStatus.confirmed (some 2) 14 16
      ∷ booking 5 ReservationStatus.checked_in (some 3) 8 12
      ∷ [];
  rooms =
      room 1 RoomStatus.available
      ∷ room 2 RoomStatus.available
      ∷ room 3 RoomStatus.occupied
      ∷ room 4 RoomStatus.ready
      ∷ [];
  room_types = record { id = 1; property_id = 1; base_rate = 500000; deleted = false } ∷ [];
  rate_overrides = [];
  rate_days = [];
  reservation_events = [];
  tasks = [];
  staff = record { id = 7; property_id = 1; deleted = false } ∷ [];
  folio_lines = [];
  folio_payments = [];
  folio_events = [];
  property_taxes = [];
  settings =
      record {
        property_id = 1;
        hold_expiry_minutes = some 30;
        restaurant_service_charge_bp = 1000;
        gst_state_code = none;
      }
      ∷ [];
  work_orders = [];
  items = [];
  movements = [];
  suppliers = [];
  purchase_orders = [];
  tables = [];
  menu_items = [];
  recipes = [];
  orders = [];
  order_items = [];
  order_payments = [];
  cash_entries = [];
  shifts = [];
  corporate_accounts = [];
  corporate_ledger = [];
  vehicles = [];
  transport_requests = [];
}

pub hotel_sound : NoDoubleBooking hotel.reservations
unfolding is_sound
hotel_sound = is_sound-NoDoubleBooking hotel.reservations refl

-- The database that an operation commits, or the hotel unchanged.
abbrev pub committed_db : Outcome Refusal Db → Db
committed_db (ok db) = db
committed_db (refused e) = hotel
