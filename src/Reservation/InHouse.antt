-- ===== src/Reservation/InHouse.antt =====
-- src/modules/reservations/reservations.service.ts: a guest in a room, `checkIn`, `extendStay` and
-- `moveRoom`. `checkOut` is in Reservation/Departure.antt.
use Prim.Native.String.{String}
use travelo.Base.{
  List, ℕ, Bool, true, false, not, ◌||◌, Option, none, some, leb, ◌==◌, holds, or_else, Outcome, ok,
  refuse_if, require, ◌>>=◌, ◌>>◌,
}
use travelo.Schema.{
  IsoDate, Timestamp, Db, Reservation, ReservationStatus, is_status, Room, RoomStatus,
  ReservationEventType, Refusal, room_type_mismatch, dates_locked, not_arrival_day,
  no_room_assigned, room_not_ready, not_in_house, same_room, extension_must_be_later,
}
use travelo.Reservation.Rules.{
  total_paise, assert_date_order, assert_transition, covers_date, is_assignable,
}
use travelo.Reservation.Availability.{
  assert_room_free, assert_type_capacity, require_reservation, require_room, require_room_type,
}
use travelo.Reservation.Changes.{put_all}
use travelo.Reservation.Writes.{set_reservation, set_room_status, record_event}

abbrev pub given_or : Option ℕ → Option ℕ → Option ℕ
given_or none b = b
given_or (some a) b = some a

-- `checkIn`; `today` is the day of `now`, `details` the guest's identity columns that are given.
unfoldable pub check_in :
    Db
    → ℕ
    → ℕ
    → Option ℕ
    → List (String × String)
    → Option ℕ
    → IsoDate
    → Timestamp
    → Outcome Refusal Db
check_in db property_id id dto_room_id details actor today now = do
  before ← require_reservation db property_id id
  assert_transition before.status ReservationStatus.checked_in
  refuse_if
      (not
        (covers_date (record { check_in = before.check_in; check_out = before.check_out }) today))
      not_arrival_day
  room_id ← require (given_or dto_room_id before.room_id) no_room_assigned
  room ← require_room db property_id room_id
  refuse_if (not (room.room_type_id == before.room_type_id)) room_type_mismatch
  refuse_if (not (is_assignable room.status)) room_not_ready
  assert_room_free db property_id room_id before.check_in before.check_out (some id) none
  ok (
      record_event
        (set_room_status
          (set_reservation db id (λ r. record r {
            status = ReservationStatus.checked_in;
            room_id = some room_id;
            checked_in_at = some now;
            details = put_all details r.details;
          }))
          room_id RoomStatus.occupied)
        id ReservationEventType.checked_in actor)

abbrev is_committed : ReservationStatus → Bool
is_committed s = is_status s ReservationStatus.checked_in || is_status s ReservationStatus.confirmed

-- The room, where one is assigned, else the type.
unfoldable pub check_extension :
    Db → ℕ → ℕ → Reservation → IsoDate → Option ℕ → Outcome Refusal (Unit {0})
check_extension db property_id id before check_out (some room_id) =
    assert_room_free db property_id room_id before.check_in check_out (some id) none
check_extension db property_id id before check_out none =
    assert_type_capacity db property_id before.room_type_id before.check_in check_out (some id) none

-- `extendStay`
unfoldable pub extend_stay : Db → ℕ → ℕ → IsoDate → Option ℕ → Option ℕ → Outcome Refusal Db
unfolding check_extension
extend_stay db property_id id check_out dto_rate actor = do
  before ← require_reservation db property_id id
  refuse_if (not (is_committed before.status)) dates_locked
  refuse_if (leb check_out before.check_out) extension_must_be_later
  assert_date_order before.check_in check_out
  let rate = or_else dto_rate before.rate_paise
  check_extension db property_id id before check_out before.room_id
  ok (
      record_event
        (set_reservation db id (λ r. record r {
          check_out = check_out;
          rate_paise = rate;
          total_paise = total_paise rate before.check_in check_out;
        }))
        id ReservationEventType.stay_extended actor)

-- A move to another room type quotes that type's base rate unless a rate is given.
unfoldable pub move_rate : Db → ℕ → Reservation → Room → Option ℕ → Outcome Refusal ℕ
move_rate db property_id before room dto_rate = elim (room.room_type_id == before.room_type_id) [
  | true ↦ ok (or_else dto_rate before.rate_paise)
  | false ↦ require_room_type db property_id room.room_type_id >>= λ type.
      ok (or_else dto_rate type.base_rate)
]

-- The room that the guest leaves wants a clean.
unfoldable pub vacate : Db → Option ℕ → Db
vacate db none = db
vacate db (some room_id) = set_room_status db room_id RoomStatus.dirty

-- `moveRoom`
unfoldable pub move_room : Db → ℕ → ℕ → ℕ → Option ℕ → Option ℕ → Outcome Refusal Db
unfolding move_rate vacate
move_room db property_id id dto_room_id dto_rate actor = do
  before ← require_reservation db property_id id
  refuse_if (not (is_status before.status ReservationStatus.checked_in)) not_in_house
  refuse_if (holds before.room_id dto_room_id) same_room
  room ← require_room db property_id dto_room_id
  refuse_if (not (is_assignable room.status)) room_not_ready
  rate ← move_rate db property_id before room dto_rate
  assert_room_free db property_id room.id before.check_in before.check_out (some id) none
  let moved = set_reservation db id (λ r. record r {
    room_id = some room.id;
    room_type_id = room.room_type_id;
    rate_paise = rate;
    total_paise = total_paise rate before.check_in before.check_out;
  })
  ok (
      record_event (set_room_status (vacate moved before.room_id) room.id RoomStatus.occupied) id
        ReservationEventType.room_moved actor)
