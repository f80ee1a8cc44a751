-- ===== src/Reservation/Life/Steady.antt =====
-- The operations that leave every booking's status alone.
use travelo.Base.{
  ℕ, zero, suc, ◌≡◌, refl, sym, ap, ◌∙◌, inl, inr, Bool, not, ◌&&◌, ◌||◌, [], ◌∷◌, ◌++◌, Option,
  none, some, through, committed, subst, refuse_if, ok, ◌==◌, is_some, or_else, leb, holds,
}
use travelo.Schema.{
  IsoDate, Timestamp, Db, ReservationStatus, is_status, dates_locked, nothing_to_update,
  room_type_mismatch, room_required, invalid_transition, room_not_ready, not_in_house, same_room,
  extension_must_be_later,
}
use travelo.Reservation.Rules.{assert_date_order, is_assignable}
use travelo.Reservation.Availability.{
  require_reservation, require_room, require_room_type, assert_room_free,
}
use travelo.Reservation.Writes.{set_reservation, set_room_status, record_event}
use travelo.Reservation.Booking.{
  quote_unless, nightly_quote, RatesEngine, CreateReservation, create, check_booking,
  insert_reservation, new_reservation, rules_for, requested_status,
}
use travelo.Reservation.Changes.{
  UpdateReservation, assert_date_order_if, update, patched, moving_dates, is_empty_update,
  check_move, assign_room, lock_room,
}
use travelo.Reservation.InHouse.{extend_stay, check_extension, move_room, move_rate}
use travelo.Reservation.Clash.{clash}
use travelo.Reservation.Safety.InHouse.{vacate-reservations}
use travelo.Reservation.Booking.{booking_attempt, check_type_room}
use travelo.Reservation.Safety.Create.{create_attempts-eq-ok, insert_reservation-eq-ok}
use travelo.Base.{Option-cases}
use travelo.Base.Int.{ℤ}
use travelo.Folio.Receipts.{
  RecordPayment, record_payment, insert_payment, net_paid, new_payment, find_payment_by_key,
}
use travelo.Folio.Payments.{record_payment_new, record_payment_old}
use travelo.Reservation.Departure.{CheckOut, desk_payment, collect, check_out, collect_payment}
use travelo.Reservation.Life.{Steady, Steady-refl, update_row-Steady, append-Steady, save-Steady}

pub update-Steady :
    (db : Db) (rates : Option RatesEngine) (property_id id : ℕ) (dto : UpdateReservation)
    (actor : Option ℕ) {db' : Db}
    → update db rates property_id id dto actor ≡ ok db'
    → Steady db.reservations db'.reservations
unfolding update patched set_reservation record_event
update-Steady db rates property_id id dto actor h =
    through (require_reservation db property_id id) _ h λ before e h0.
      through
        (refuse_if
          (moving_dates dto
            && not (
                is_status before.status ReservationStatus.pending
                || is_status before.status ReservationStatus.confirmed))
          dates_locked)
        _ h0
        λ _ bookable h1.
          through
            (assert_date_order_if (moving_dates dto) (or_else dto.check_in before.check_in)
              (or_else dto.check_out before.check_out))
            _ h1
            λ _ _ h2. through (refuse_if (is_empty_update dto) nothing_to_update) _ h2 λ _ _ h3.
              through
                (check_move
                  (moving_dates dto && is_status before.status ReservationStatus.confirmed) db
                  property_id id before (or_else dto.check_in before.check_in)
                  (or_else dto.check_out before.check_out)
                  (rules_for rates property_id before.room_type_id
                    (or_else dto.check_in before.check_in)
                    (or_else dto.check_out before.check_out)))
                _ h3
                λ _ checked h4.
                  save-Steady db id _ (λ r. refl) (λ r. refl)
                    (ap (λ (d : Db). d.reservations) (committed h4))

pub assign_room-Steady :
    (db : Db) (property_id id room_id : ℕ) (actor : Option ℕ) {db' : Db}
    → assign_room db property_id id room_id actor ≡ ok db'
    → Steady db.reservations db'.reservations
unfolding assign_room set_reservation record_event
assign_room-Steady db property_id id room_id actor h =
    through (require_reservation db property_id id) _ h λ before e h0.
      through
        (refuse_if
          (not (
            is_status before.status ReservationStatus.pending
            || is_status before.status ReservationStatus.confirmed))
          invalid_transition)
        _ h0
        λ _ _ h1. through (require_room db property_id room_id) _ h1 λ room _ h2.
          through (refuse_if (not (room.room_type_id == before.room_type_id)) room_type_mismatch) _
            h2
            λ _ _ h3.
              through
                (assert_room_free db property_id room_id before.check_in before.check_out (some id)
                  none)
                _ h3
                λ _ free h4.
                  save-Steady db id _ (λ r. refl) (λ r. refl)
                    (ap (λ (d : Db). d.reservations) (committed h4))

pub lock_room-Steady :
    (db : Db) (property_id id : ℕ) (locked : Bool) (actor : Option ℕ) {db' : Db}
    → lock_room db property_id id locked actor ≡ ok db'
    → Steady db.reservations db'.reservations
unfolding lock_room clash set_reservation record_event
lock_room-Steady db property_id id locked actor h =
    through (require_reservation db property_id id) _ h λ before e h0.
      through (refuse_if (locked && not (is_some before.room_id)) room_required) _ h0 λ _ _ h1.
        save-Steady db id _ (λ r. refl) (λ r. refl) (ap (λ (d : Db). d.reservations) (committed h1))

pub extend_stay-Steady :
    (db : Db) (property_id id : ℕ) (check_out : IsoDate) (dto_rate actor : Option ℕ) {db' : Db}
    → extend_stay db property_id id check_out dto_rate actor ≡ ok db'
    → Steady db.reservations db'.reservations
unfolding extend_stay set_reservation record_event
extend_stay-Steady db property_id id check_out dto_rate actor h =
    through (require_reservation db property_id id) _ h λ before e h0.
      through
        (refuse_if
          (not (
            is_status before.status ReservationStatus.checked_in
            || is_status before.status ReservationStatus.confirmed))
          dates_locked)
        _ h0
        λ _ _ h1.
          through (refuse_if (leb check_out before.check_out) extension_must_be_later) _ h1
            λ _ _ h2. through (assert_date_order before.check_in check_out) _ h2 λ _ _ h3.
              through (check_extension db property_id id before check_out before.room_id) _ h3
                λ _ free h4.
                  save-Steady db id _ (λ r. refl) (λ r. refl)
                    (ap (λ (d : Db). d.reservations) (committed h4))

pub move_room-Steady :
    (db : Db) (property_id id dto_room_id : ℕ) (dto_rate actor : Option ℕ) {db' : Db}
    → move_room db property_id id dto_room_id dto_rate actor ≡ ok db'
    → Steady db.reservations db'.reservations
unfolding move_room set_room_status set_reservation record_event
move_room-Steady db property_id id dto_room_id dto_rate actor h =
    through (require_reservation db property_id id) _ h λ before e h0.
      through (refuse_if (not (is_status before.status ReservationStatus.checked_in)) not_in_house)
        _ h0
        λ _ _ h1. through (refuse_if (holds before.room_id dto_room_id) same_room) _ h1 λ _ _ h2.
          through (require_room db property_id dto_room_id) _ h2 λ room _ h3.
            through (refuse_if (not (is_assignable room.status)) room_not_ready) _ h3 λ _ _ h4.
              through (move_rate db property_id before room dto_rate) _ h4 λ rate _ h5.
                through
                  (assert_room_free db property_id room.id before.check_in before.check_out
                    (some id) none)
                  _ h5
                  λ _ free h6.
                    save-Steady db id _ (λ r. refl) (λ r. refl)
                      (sym (vacate-reservations _ before.room_id)
                        ∙ ap (λ (d : Db). d.reservations) (committed h6))

pub create-Steady :
    (db : Db) (rates : Option RatesEngine) (property_id : ℕ) (dto : CreateReservation)
    (actor : Option ℕ) (id : ℕ) (now : Timestamp) {db' : Db}
    → create db rates property_id dto actor id now ≡ ok db'
    → Steady db.reservations db'.reservations
unfolding create booking_attempt record_event
create-Steady db rates property_id dto actor id now {db'} h =
    through (assert_date_order dto.check_in dto.check_out) _ h λ _ _ h0.
      through (require_room_type db property_id dto.room_type_id) _ h0 λ type _ h1.
        through (check_type_room db property_id dto) _ h1 λ _ _ h2.
          through
            (quote_unless dto.rate_paise (
              nightly_quote db rates property_id type.id dto.check_in dto.check_out dto.rate_plan_id
                type.base_rate))
            _ h2
            λ _ _ h3.
              let (n, tried) = create_attempts-eq-ok 4 0 _ h3 in
              through (check_booking db property_id dto (requested_status dto.confirmed) _) _ tried
                λ _ _ t0.
                  through
                    (insert_reservation db (
                      new_reservation db property_id dto (requested_status dto.confirmed) _ _ _ id
                        now n))
                    _ t0
                    λ inserted e t1.
                      subst (Steady db.reservations)
                        (insert_reservation-eq-ok db _ e
                          ∙ ap (λ (d : Db). d.reservations) (committed t1))
                        (append-Steady db.reservations _)

pub record_payment-Steady :
    (db : Db) (input : RecordPayment) (payment_id : ℕ)
    → Steady db.reservations (record_payment db input payment_id).0.reservations
unfolding insert_payment
record_payment-Steady db input payment_id =
    elim (Option-cases (find_payment_by_key db input.reservation_id input.idempotency_key)) [
      | inl new ↦ rw (record_payment_new db input payment_id new) (
          update_row-Steady input.reservation_id
            (λ r. record r {
              paid_paise =
                  net_paid
                    (record db {
                      folio_payments = db.folio_payments ++ new_payment input payment_id ∷ [];
                    })
                    input.reservation_id;
            })
            db.reservations (λ r. refl) (λ r. refl))
      | inr old ↦ rw (record_payment_old db input payment_id old.1) (Steady-refl db.reservations)
    ]

pub collect_payment-Steady :
    (db : Db) (input : RecordPayment) (payment_id : ℕ) {db' : Db} {net shown : ℤ}
    → collect_payment db input payment_id ≡ ok (db', net, shown)
    → Steady db.reservations db'.reservations
unfolding collect_payment
collect_payment-Steady db input payment_id h =
    through (require_reservation db input.property_id input.reservation_id) _ h λ before e h0.
      subst (λ (t : Db × ℤ × ℤ). Steady db.reservations t.0.reservations) (committed h0)
        (record_payment-Steady db input payment_id)

pub collect-Steady :
    (db : Db) (property_id id : ℕ) (dto : CheckOut) (actor : Option ℕ) (payment_id : ℕ)
    (amount : Option ℕ)
    → Steady db.reservations (collect db property_id id dto actor payment_id amount).reservations
unfolding collect
collect-Steady db property_id id dto actor payment_id none = Steady-refl db.reservations
collect-Steady db property_id id dto actor payment_id (some zero) = Steady-refl db.reservations
collect-Steady db property_id id dto actor payment_id (some (suc n)) =
    record_payment-Steady db (desk_payment property_id id dto (suc n) actor) payment_id
