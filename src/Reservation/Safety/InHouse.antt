-- ===== src/Reservation/Safety/InHouse.antt =====
-- No double booking: arrival, a longer stay and a move to another room (Reservation/InHouse.antt).
use Prim.Native.String.{String}
use travelo.Base.{
  ℕ, ◌≡◌, refl, sym, ap, ◌∙◌, not, ◌||◌, List, Option, none, some, require, through, committed,
  refuse_if, ok, ◌==◌, leb, holds,
}
use travelo.Schema.{
  IsoDate, Timestamp, Db, Reservation, ReservationStatus, is_status, dates_locked,
  room_type_mismatch, not_arrival_day, no_room_assigned, room_not_ready, not_in_house, same_room,
  extension_must_be_later,
}
use travelo.Reservation.Rules.{assert_transition, assert_date_order, covers_date, is_assignable}
use travelo.Reservation.Availability.{require_reservation, require_room, assert_room_free}
use travelo.Reservation.Writes.{set_reservation, set_room_status, record_event}
use travelo.Reservation.InHouse.{
  check_in, given_or, extend_stay, check_extension, move_room, move_rate, vacate,
}
use travelo.Reservation.Clash.{NoDoubleBooking, Apart, roomless-clash}
use travelo.Reservation.Safety.Resolution.{save-NoDoubleBooking, checked-Apart}

-- From a table with unique ids and no room held twice on a night, a `checkIn` that succeeds leads
-- to such a table, in the booked room or in another one.
pub check_in-NoDoubleBooking :
    (db : Db) (property_id id : ℕ) (dto_room_id : Option ℕ) (details : List (String × String))
    (actor : Option ℕ) (today : IsoDate) (now : Timestamp) {db' : Db}
    → NoDoubleBooking db.reservations
    → check_in db property_id id dto_room_id details actor today now ≡ ok db'
    → NoDoubleBooking db'.reservations
unfolding check_in set_room_status set_reservation record_event
check_in-NoDoubleBooking db property_id id dto_room_id details actor today now v h =
    through (require_reservation db property_id id) _ h λ before e h0.
      through (assert_transition before.status ReservationStatus.checked_in) _ h0 λ _ _ h1.
        through
          (refuse_if
            (not (
              covers_date (record { check_in = before.check_in; check_out = before.check_out })
                today))
            not_arrival_day)
          _ h1
          λ _ _ h2.
            through (require (given_or dto_room_id before.room_id) no_room_assigned) _ h2
              λ room_id _ h3. through (require_room db property_id room_id) _ h3 λ room _ h4.
                through
                  (refuse_if (not (room.room_type_id == before.room_type_id)) room_type_mismatch) _
                  h4
                  λ _ _ h5.
                    through (refuse_if (not (is_assignable room.status)) room_not_ready) _ h5
                      λ _ _ h6.
                        through
                          (assert_room_free db property_id room_id before.check_in before.check_out
                            (some id) none)
                          _ h6
                          λ _ free h7.
                            save-NoDoubleBooking db property_id id _ v e refl
                              (checked-Apart db property_id id room_id before _ e free refl refl
                                refl)
                              (ap (λ (d : Db). d.reservations) (committed h7))

-- A longer stay is apart: its room was checked over the whole new window, and with no room it
-- clashes with nothing.
extended-Apart :
    (db : Db) (property_id id : ℕ) (before r : Reservation) {u : Unit {0}}
    → require_reservation db property_id id ≡ ok before
    → check_extension db property_id id before r.check_out before.room_id ≡ ok u
    → r.id ≡ before.id
    → r.property_id ≡ before.property_id
    → r.check_in ≡ before.check_in
    → r.room_id ≡ before.room_id
    → Apart r db.reservations
unfolding check_extension
extended-Apart db property_id id before r e h k p ci q = at_room before.room_id h q
  where
    at_room :
        (room : Option ℕ) {u : Unit {0}}
        → check_extension db property_id id before r.check_out room ≡ ok u
        → r.room_id ≡ room
        → Apart r db.reservations
    at_room none h q = λ s m n. roomless-clash r s q
    at_room (some room_id) h q = checked-Apart db property_id id room_id before r e (rw ci h) k p q

-- From a table with unique ids and no room held twice on a night, an `extendStay` that succeeds
-- leads to such a table.
pub extend_stay-NoDoubleBooking :
    (db : Db) (property_id id : ℕ) (check_out : IsoDate) (dto_rate actor : Option ℕ) {db' : Db}
    → NoDoubleBooking db.reservations
    → extend_stay db property_id id check_out dto_rate actor ≡ ok db'
    → NoDoubleBooking db'.reservations
unfolding extend_stay set_reservation record_event
extend_stay-NoDoubleBooking db property_id id check_out dto_rate actor v h =
    through (require_reservation db property_id id) _ h λ before e h0.
      through
        (refuse_if
          (not (
            is_status before.status ReservationStatus.checked_in
            || is_status before.status ReservationStatus.confirmed))
          dates_locked)
        _ h0
        λ _ _ h1.
          through (refuse_if (leb check_out before.check_out) extension_must_be_later) _ h1
            λ _ _ h2. through (assert_date_order before.check_in check_out) _ h2 λ _ _ h3.
              through (check_extension db property_id id before check_out before.room_id) _ h3
                λ _ free h4.
                  save-NoDoubleBooking db property_id id _ v e refl
                    (extended-Apart db property_id id before _ e free refl refl refl refl)
                    (ap (λ (d : Db). d.reservations) (committed h4))

pub vacate-reservations :
    (db : Db) (room : Option ℕ) → (vacate db room).reservations ≡ db.reservations
unfolding vacate set_room_status
vacate-reservations db none = refl
vacate-reservations db (some room_id) = refl

-- From a table with unique ids and no room held twice on a night, a `moveRoom` that succeeds
-- leads to such a table.
pub move_room-NoDoubleBooking :
    (db : Db) (property_id id dto_room_id : ℕ) (dto_rate actor : Option ℕ) {db' : Db}
    → NoDoubleBooking db.reservations
    → move_room db property_id id dto_room_id dto_rate actor ≡ ok db'
    → NoDoubleBooking db'.reservations
unfolding move_room set_room_status set_reservation record_event
move_room-NoDoubleBooking db property_id id dto_room_id dto_rate actor v h =
    through (require_reservation db property_id id) _ h λ before e h0.
      through (refuse_if (not (is_status before.status ReservationStatus.checked_in)) not_in_house)
        _ h0
        λ _ _ h1. through (refuse_if (holds before.room_id dto_room_id) same_room) _ h1 λ _ _ h2.
          through (require_room db property_id dto_room_id) _ h2 λ room _ h3.
            through (refuse_if (not (is_assignable room.status)) room_not_ready) _ h3 λ _ _ h4.
              through (move_rate db property_id before room dto_rate) _ h4 λ rate _ h5.
                through
                  (assert_room_free db property_id room.id before.check_in before.check_out
                    (some id) none)
                  _ h5
                  λ _ free h6.
                    save-NoDoubleBooking db property_id id _ v e refl
                      (checked-Apart db property_id id room.id before _ e free refl refl refl)
                      (sym (vacate-reservations _ before.room_id)
                        ∙ ap (λ (d : Db). d.reservations) (committed h6))
