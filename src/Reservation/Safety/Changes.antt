-- ===== src/Reservation/Safety/Changes.antt =====
-- No double booking: the changes before arrival (Reservation/Changes.antt).
use travelo.Base.{
  ℕ, ◌≡◌, refl, ap, inl, inr, Bool, false, not, ◌&&◌, ◌||◌, List, Option, none, some, through,
  committed, refuse_if, refuse_if-eq-ok, Bool-cases, ok, arith, ◌==◌, is_some, or_else, leb,
}
use travelo.Schema.{
  IsoDate, Timestamp, Db, Reservation, ReservationStatus, is_status, dates_locked,
  nothing_to_update, room_type_mismatch, not_arrival_day, room_required, invalid_transition,
}
use travelo.Reservation.Rules.{assert_transition}
use travelo.Reservation.Availability.{
  DayRules, require_reservation, require_room, assert_room_free, assert_held_room_free,
  assert_type_capacity,
}
use travelo.Reservation.Writes.{set_reservation, record_event}
use travelo.Reservation.Booking.{RatesEngine, rules_for}
use travelo.Reservation.Changes.{
  UpdateReservation, assert_date_order_if, new_total, update, patched, moving_dates,
  is_empty_update, check_move, confirm, assign_room, lock_room, cancel, no_show,
}
use travelo.Reservation.Clash.{clash, NoDoubleBooking, Apart, idle-Apart, same-Apart}
use travelo.Reservation.Safety.Resolution.{
  require_reservation-In, save-NoDoubleBooking, checked-Apart, held-Apart,
}

-- From a table with unique ids and no room held twice on a night, a `confirm` that succeeds leads
-- to such a table.
pub confirm-NoDoubleBooking :
    (db : Db) (property_id id : ℕ) (actor : Option ℕ) {db' : Db}
    → NoDoubleBooking db.reservations
    → confirm db property_id id actor ≡ ok db'
    → NoDoubleBooking db'.reservations
unfolding confirm set_reservation record_event
confirm-NoDoubleBooking db property_id id actor v h =
    through (require_reservation db property_id id) _ h λ before e h0.
      through (assert_transition before.status ReservationStatus.confirmed) _ h0 λ _ _ h1.
        through
          (assert_held_room_free db property_id before.room_id before.check_in before.check_out
            (some id))
          _ h1
          λ _ free h2.
            through
              (assert_type_capacity db property_id before.room_type_id before.check_in
                before.check_out (some id) none)
              _ h2
              λ _ _ h3.
                save-NoDoubleBooking db property_id id _ v e refl
                  (held-Apart db property_id id before _ e free refl refl)
                  (ap (λ (d : Db). d.reservations) (committed h3))

-- From a table with unique ids and no room held twice on a night, an `assignRoom` that succeeds
-- leads to such a table.
pub assign_room-NoDoubleBooking :
    (db : Db) (property_id id room_id : ℕ) (actor : Option ℕ) {db' : Db}
    → NoDoubleBooking db.reservations
    → assign_room db property_id id room_id actor ≡ ok db'
    → NoDoubleBooking db'.reservations
unfolding assign_room set_reservation record_event
assign_room-NoDoubleBooking db property_id id room_id actor v h =
    through (require_reservation db property_id id) _ h λ before e h0.
      through
        (refuse_if
          (not (
            is_status before.status ReservationStatus.pending
            || is_status before.status ReservationStatus.confirmed))
          invalid_transition)
        _ h0
        λ _ _ h1. through (require_room db property_id room_id) _ h1 λ room _ h2.
          through (refuse_if (not (room.room_type_id == before.room_type_id)) room_type_mismatch) _
            h2
            λ _ _ h3.
              through
                (assert_room_free db property_id room_id before.check_in before.check_out (some id)
                  none)
                _ h3
                λ _ free h4.
                  save-NoDoubleBooking db property_id id _ v e refl
                    (checked-Apart db property_id id room_id before _ e free refl refl refl)
                    (ap (λ (d : Db). d.reservations) (committed h4))

-- Pinning a booking to its room.
pub lock_room-NoDoubleBooking :
    (db : Db) (property_id id : ℕ) (locked : Bool) (actor : Option ℕ) {db' : Db}
    → NoDoubleBooking db.reservations
    → lock_room db property_id id locked actor ≡ ok db'
    → NoDoubleBooking db'.reservations
unfolding lock_room clash set_reservation record_event
lock_room-NoDoubleBooking db property_id id locked actor v h =
    through (require_reservation db property_id id) _ h λ before e h0.
      through (refuse_if (locked && not (is_some before.room_id)) room_required) _ h0 λ _ _ h1.
        save-NoDoubleBooking db property_id id _ v e refl
          (same-Apart before (record before { room_locked = locked }) db.reservations v
            (require_reservation-In db property_id id e).0 refl (λ s. refl))
          (ap (λ (d : Db). d.reservations) (committed h1))

-- Cancelling.
pub cancel-NoDoubleBooking :
    (db : Db) (property_id id : ℕ) (actor : Option ℕ) (now : Timestamp) {db' : Db}
    → NoDoubleBooking db.reservations
    → cancel db property_id id actor now ≡ ok db'
    → NoDoubleBooking db'.reservations
unfolding cancel set_reservation record_event
cancel-NoDoubleBooking db property_id id actor now v h =
    through (require_reservation db property_id id) _ h λ before e h0.
      through (assert_transition before.status ReservationStatus.cancelled) _ h0 λ _ _ h1.
        save-NoDoubleBooking db property_id id _ v e refl (idle-Apart _ db.reservations refl)
          (ap (λ (d : Db). d.reservations) (committed h1))

-- Marking a no-show.
pub no_show-NoDoubleBooking :
    (db : Db) (property_id id : ℕ) (actor : Option ℕ) (today : IsoDate) {db' : Db}
    → NoDoubleBooking db.reservations
    → no_show db property_id id actor today ≡ ok db'
    → NoDoubleBooking db'.reservations
unfolding no_show set_reservation record_event
no_show-NoDoubleBooking db property_id id actor today v h =
    through (require_reservation db property_id id) _ h λ before e h0.
      through (assert_transition before.status ReservationStatus.no_show) _ h0 λ _ _ h1.
        through (refuse_if (leb today before.check_in) not_arrival_day) _ h1 λ _ _ h2.
          save-NoDoubleBooking db property_id id _ v e refl (idle-Apart _ db.reservations refl)
            (ap (λ (d : Db). d.reservations) (committed h2))

-- The row that an accepted update leaves: moved under the confirm's checks, or still pending, or
-- where it was.
patched-Apart :
    (db : Db) (property_id id : ℕ) (dto : UpdateReservation) (total : Option ℕ)
    (rules : Option (List DayRules)) (before : Reservation) {u : Unit {0}}
    → NoDoubleBooking db.reservations
    → require_reservation db property_id id ≡ ok before
    → (moving_dates dto
        && not (
            is_status before.status ReservationStatus.pending
            || is_status before.status ReservationStatus.confirmed))
      ≡ false
    → check_move
        (moving_dates dto && is_status before.status ReservationStatus.confirmed)
        db
        property_id
        id
        before
        (or_else dto.check_in before.check_in)
        (or_else dto.check_out before.check_out)
        rules
      ≡ ok u
    → Apart (patched dto total before) db.reservations
unfolding patched clash check_move
patched-Apart db property_id id dto total rules before v e bookable checked =
    elim (Bool-cases (moving_dates dto)) [
      | inl moving ↦ elim (Bool-cases (is_status before.status ReservationStatus.confirmed)) [
        | inl held ↦
            through
              (assert_held_room_free db property_id before.room_id
                (or_else dto.check_in before.check_in) (or_else dto.check_out before.check_out)
                (some id))
              _ (rw (moving, held) at checked)
              λ _ free _.
                held-Apart db property_id id before (patched dto total before) e free refl refl
        | inr soft ↦ idle-Apart (patched dto total before) db.reservations (ground arith)
      ]
      | inr still ↦
          same-Apart before (patched dto total before) db.reservations v
            (require_reservation-In db property_id id e).0 refl (λ s. ground arith)
    ]

-- From a table with unique ids and no room held twice on a night, an `update` that succeeds leads
-- to such a table, also where it moves the dates of a confirmed booking.
pub update-NoDoubleBooking :
    (db : Db) (rates : Option RatesEngine) (property_id id : ℕ) (dto : UpdateReservation)
    (actor : Option ℕ) {db' : Db}
    → NoDoubleBooking db.reservations
    → update db rates property_id id dto actor ≡ ok db'
    → NoDoubleBooking db'.reservations
unfolding update patched set_reservation record_event
update-NoDoubleBooking db rates property_id id dto actor v h =
    through (require_reservation db property_id id) _ h λ before e h0.
      through
        (refuse_if
          (moving_dates dto
            && not (
                is_status before.status ReservationStatus.pending
                || is_status before.status ReservationStatus.confirmed))
          dates_locked)
        _ h0
        λ _ bookable h1.
          through
            (assert_date_order_if (moving_dates dto) (or_else dto.check_in before.check_in)
              (or_else dto.check_out before.check_out))
            _ h1
            λ _ _ h2. through (refuse_if (is_empty_update dto) nothing_to_update) _ h2 λ _ _ h3.
              through
                (check_move
                  (moving_dates dto && is_status before.status ReservationStatus.confirmed) db
                  property_id id before (or_else dto.check_in before.check_in)
                  (or_else dto.check_out before.check_out)
                  (rules_for rates property_id before.room_type_id
                    (or_else dto.check_in before.check_in)
                    (or_else dto.check_out before.check_out)))
                _ h3
                λ _ checked h4.
                  save-NoDoubleBooking db property_id id _ v e refl
                    (patched-Apart db property_id id dto (new_total dto before) _ before v e
                      (refuse_if-eq-ok _ _ bookable) checked)
                    (ap (λ (d : Db). d.reservations) (committed h4))
