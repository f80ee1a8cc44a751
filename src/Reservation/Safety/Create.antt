-- ===== src/Reservation/Safety/Create.antt =====
-- No double booking: a new booking (Reservation/Booking.antt).
use travelo.Base.{
  ℕ, zero, suc, ◌+◌, ◌≡◌, ◌≢◌, refl, ap, ◌∙◌, ◌⊎◌, inl, inr, ◌&&◌, List, [], ◌∷◌, ◌++◌, Option,
  none, In, through, committed, subst, refuse_if, Bool-cases, Outcome, ok, refused, arith, ◌==◌,
  any, codes_eq,
}
use travelo.Schema.{
  Timestamp, Db, Reservation, ReservationStatus, is_status, Refusal, unique_violation,
}
use travelo.Reservation.Rules.{assert_date_order}
use travelo.Reservation.Availability.{DayRules, require_room_type, assert_held_room_free}
use travelo.Reservation.Writes.{record_event}
use travelo.Reservation.Booking.{
  quote_unless, nightly_quote, RatesEngine, CreateReservation, check_type_room, booking_attempt,
  create, create_attempts, retry_taken, check_booking, insert_reservation, new_reservation,
  requested_status,
}
use travelo.Reservation.Clash.{
  NoDoubleBooking, Apart, append-NoDoubleBooking, idle-Apart, held_room_free-clash,
}

pub retry_taken-eq-ok :
    (o again : Outcome Refusal Db) {db' : Db}
    → retry_taken o again ≡ ok db'
    → (o ≡ ok db') ⊎ (again ≡ ok db')
unfolding retry_taken
retry_taken-eq-ok (ok db) again h = inl h
retry_taken-eq-ok (refused unique_violation) again h = inr h
retry_taken-eq-ok (refused e) again h = inl h

-- A run of attempts that succeeds has an attempt that did.
pub create_attempts-eq-ok :
    (left attempt : ℕ) (try : ℕ → Outcome Refusal Db) {db' : Db}
    → create_attempts left attempt try ≡ ok db'
    → (n : ℕ) × (try n ≡ ok db')
unfolding create_attempts
create_attempts-eq-ok zero attempt try h = (attempt, h)
create_attempts-eq-ok (suc left) attempt try {db'} h =
    elim (retry_taken-eq-ok (try attempt) (create_attempts left (attempt + 1) try) h) [
      | inl now ↦ (attempt, now)
      | inr later ↦ create_attempts-eq-ok left (attempt + 1) try later
    ]

-- A row that the check lets in is apart from every row.
booked-Apart :
    (db : Db) (property_id : ℕ) (dto : CreateReservation) (rules : Option (List DayRules))
    (r : Reservation) {u : Unit {0}}
    → check_booking db property_id dto (requested_status dto.confirmed) rules ≡ ok u
    → r.property_id ≡ property_id
    → r.room_id ≡ dto.room_id
    → r.check_in ≡ dto.check_in
    → r.check_out ≡ dto.check_out
    → r.status ≡ requested_status dto.confirmed
    → Apart r db.reservations
unfolding check_booking
booked-Apart db property_id dto rules r h p q ci co st =
    elim (Bool-cases (is_status (requested_status dto.confirmed) ReservationStatus.confirmed)) [
      | inl firm ↦
          through (assert_held_room_free db property_id dto.room_id dto.check_in dto.check_out none)
            _ (rw (firm, check_booking) at h)
            λ _ free _. λ s m n.
              held_room_free-clash db property_id dto.room_id dto.check_in dto.check_out none r s
                free m refl p q ci co
      | inr soft ↦ idle-Apart r db.reservations (ground arith)
    ]

pub insert_reservation-eq-ok :
    (db : Db) (r : Reservation) {db' : Db}
    → insert_reservation db r ≡ ok db'
    → db.reservations ++ r ∷ [] ≡ db'.reservations
unfolding insert_reservation
insert_reservation-eq-ok db r h =
    through
      (refuse_if
        (any
          (λ s.
            s.property_id == r.property_id && codes_eq s.reservation_number r.reservation_number)
          db.reservations)
        unique_violation)
      _ h λ _ _ h0. ap (λ (d : Db). d.reservations) (committed h0)

-- An attempt: the new row is checked where it is confirmed, and holds nothing where it is pending.
attempt-NoDoubleBooking :
    (db : Db) (property_id : ℕ) (dto : CreateReservation) (rate total : ℕ) (hold : Option Timestamp)
    (rules : Option (List DayRules)) (actor : Option ℕ) (id : ℕ) (now : Timestamp) (attempt : ℕ)
    {db' : Db}
    → NoDoubleBooking db.reservations
    → ((s : Reservation) → In s db.reservations → s.id ≢ id)
    → booking_attempt db property_id dto
        (requested_status dto.confirmed)
        rate
        total
        hold
        rules
        actor
        id
        now
        attempt
      ≡ ok db'
    → NoDoubleBooking db'.reservations
unfolding booking_attempt record_event new_reservation
attempt-NoDoubleBooking db property_id dto rate total hold rules actor id now attempt {db'} v fresh
      h =
    let r =
      new_reservation db property_id dto (requested_status dto.confirmed) rate total hold id now
        attempt in
    through (check_booking db property_id dto (requested_status dto.confirmed) rules) _ h
      λ _ checked h0. through (insert_reservation db r) _ h0 λ inserted e h1.
        subst NoDoubleBooking
          (insert_reservation-eq-ok db r e ∙ ap (λ (d : Db). d.reservations) (committed h1))
          (append-NoDoubleBooking db.reservations r v fresh
            (booked-Apart db property_id dto rules r checked refl refl refl refl refl))

-- Where a table has unique ids and no room is held twice on a night, and the new id is fresh, a
-- booking that `create` accepts keeps it so, whichever attempt at a reservation number succeeds.
pub create-NoDoubleBooking :
    (db : Db) (rates : Option RatesEngine) (property_id : ℕ) (dto : CreateReservation)
    (actor : Option ℕ) (id : ℕ) (now : Timestamp) {db' : Db}
    → NoDoubleBooking db.reservations
    → ((s : Reservation) → In s db.reservations → s.id ≢ id)
    → create db rates property_id dto actor id now ≡ ok db'
    → NoDoubleBooking db'.reservations
unfolding create
create-NoDoubleBooking db rates property_id dto actor id now {db'} v fresh h =
    through (assert_date_order dto.check_in dto.check_out) _ h λ _ _ h0.
      through (require_room_type db property_id dto.room_type_id) _ h0 λ type _ h1.
        through (check_type_room db property_id dto) _ h1 λ _ _ h2.
          through
            (quote_unless dto.rate_paise (
              nightly_quote db rates property_id type.id dto.check_in dto.check_out dto.rate_plan_id
                type.base_rate))
            _ h2
            λ _ _ h3.
              let (n, tried) = create_attempts-eq-ok 4 0 _ h3 in
              attempt-NoDoubleBooking db property_id dto _ _ _ _ actor id now n v fresh tried
