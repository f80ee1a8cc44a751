-- ===== src/Reservation/Safety/Departure.antt =====
-- No double booking: payments and departure (Reservation/Departure.antt).
use travelo.Base.{
  ℕ, zero, suc, ◌≡◌, refl, sym, ap, ◌∙◌, ◌⊎◌, inl, inr, not, ◌&&◌, List, [], ◌∷◌, ◌++◌, Option,
  none, some, In, In-update_row_self, through, committed, subst, Bool-cases, Outcome, ok, refused,
  arith,
}
use travelo.Schema.{Timestamp, Db, Reservation, ReservationStatus, Refusal}
use travelo.Reservation.Rules.{assert_transition}
use travelo.Reservation.Availability.{require_reservation}
use travelo.Reservation.Writes.{set_reservation, set_room_status, record_event}
use travelo.Reservation.Clash.{clash, NoDoubleBooking, Apart, idle-Apart, same-Apart}
use travelo.Reservation.Safety.Resolution.{require_reservation-In}
use travelo.Base.Int.{ℤ, pos, ltb_ℤ}
use travelo.Folio.Receipts.{RecordPayment, record_payment, insert_payment, net_paid, new_payment}
use travelo.Folio.Payments.{record_payment_new, record_payment_old}
use travelo.Base.{Option-cases}
use travelo.Folio.Receipts.{find_payment_by_key}
use travelo.Housekeeping.{create_checkout_clean_for_room}
use travelo.Reservation.Departure.{
  CheckOut, desk_payment, collect, collect_at_desk, turn_over, leave, departing, gate, check_out,
  collect_payment,
}
use travelo.Reservation.Clash.{replace-NoDoubleBooking}

-- A payment changes nothing of a row that a clash reads.
paid-Apart :
    (r : Reservation) (paid : ℤ) (rs : List Reservation)
    → NoDoubleBooking rs
    → In r rs
    → Apart (record r { paid_paise = paid }) rs
unfolding clash
paid-Apart r paid rs v m = same-Apart r (record r { paid_paise = paid }) rs v m refl (λ s. refl)

-- A payment on a booking's folio, new or sent again.
pub record_payment-NoDoubleBooking :
    (db : Db) (input : RecordPayment) (payment_id : ℕ) (before : Reservation)
    → NoDoubleBooking db.reservations
    → In before db.reservations
    → before.id ≡ input.reservation_id
    → NoDoubleBooking (record_payment db input payment_id).0.reservations
unfolding insert_payment
record_payment-NoDoubleBooking db input payment_id before v m e =
    elim (Option-cases (find_payment_by_key db input.reservation_id input.idempotency_key)) [
      | inl new ↦ rw (record_payment_new db input payment_id new) (
          replace-NoDoubleBooking db.reservations input.reservation_id _ before v m e e
            (paid-Apart before _ db.reservations v m))
      | inr old ↦ rw (record_payment_old db input payment_id old.1) v
    ]

-- The row of a booking that is paid for.
paid_row :
    (db : Db) (input : RecordPayment) (payment_id : ℕ) (before : Reservation)
    → In before db.reservations
    → before.id ≡ input.reservation_id
    → (r : Reservation) × In r (record_payment db input payment_id).0.reservations
      × (r.id ≡ before.id)
unfolding insert_payment
paid_row db input payment_id before m e =
    elim (Option-cases (find_payment_by_key db input.reservation_id input.idempotency_key)) [
      | inl new ↦ rw (record_payment_new db input payment_id new) (
        record before {
          paid_paise =
              net_paid
                (record db {
                  folio_payments = db.folio_payments ++ new_payment input payment_id ∷ [];
                })
                input.reservation_id;
        },
        In-update_row_self (λ r. r.id) input.reservation_id _ before db.reservations e m,
        refl,
      )
      | inr old ↦ rw (record_payment_old db input payment_id old.1) (before, m, refl)
    ]

-- What the desk hands over leaves the booking's row, unclashed.
pub collected :
    (db : Db) (property_id id : ℕ) (dto : CheckOut) (actor : Option ℕ) (payment_id : ℕ)
    (before : Reservation) (amount : Option ℕ)
    → NoDoubleBooking db.reservations
    → In before db.reservations
    → before.id ≡ id
    → NoDoubleBooking (collect db property_id id dto actor payment_id amount).reservations
      × ((r : Reservation) × In r
            (collect db property_id id dto actor payment_id amount).reservations
          × (r.id ≡ id))
unfolding collect desk_payment
collected db property_id id dto actor payment_id before none v m e = (v, (before, m, e))
collected db property_id id dto actor payment_id before (some zero) v m e = (v, (before, m, e))
collected db property_id id dto actor payment_id before (some (suc n)) v m e =
    let input = desk_payment property_id id dto (suc n) actor in
    let row = paid_row db input payment_id before m e in
    (record_payment-NoDoubleBooking db input payment_id before v m e, (row.0, row.1, row.2 ∙ e))

pub turn_over-reservations :
    (db : Db) (property_id : ℕ) (room actor : Option ℕ) (task_id : ℕ)
    → (turn_over db property_id room actor task_id).reservations ≡ db.reservations
unfolding turn_over create_checkout_clean_for_room set_room_status
turn_over-reservations db property_id none actor task_id = refl
turn_over-reservations db property_id (some room_id) actor task_id = ground arith

-- Leaving frees the room, so the row clashes with nothing.
leave-NoDoubleBooking :
    (db : Db) (property_id id : ℕ) (before : Reservation) (actor : Option ℕ) (task_id : ℕ)
    (now : Timestamp) (row : Reservation)
    → NoDoubleBooking db.reservations
    → In row db.reservations
    → row.id ≡ id
    → NoDoubleBooking (leave db property_id id before actor task_id now).reservations
unfolding leave record_event set_reservation
leave-NoDoubleBooking db property_id id before actor task_id now row v m e =
    subst NoDoubleBooking
      (sym
        (turn_over-reservations (set_reservation db id _) property_id before.room_id actor task_id))
      (replace-NoDoubleBooking db.reservations id _ row v m e e (idle-Apart _ db.reservations refl))

gate-NoDoubleBooking :
    (db : Db) (property_id id : ℕ) (before : Reservation) (dto : CheckOut) (actor : Option ℕ)
    (task_id : ℕ) (now : Timestamp) (balance : ℤ) (row : Reservation)
    → NoDoubleBooking db.reservations
    → In row db.reservations
    → row.id ≡ id
    → NoDoubleBooking (gate db property_id id before dto actor task_id now balance).0.reservations
unfolding gate
gate-NoDoubleBooking db property_id id before dto actor task_id now balance row v m e =
    elim (Bool-cases (ltb_ℤ (pos 0) balance && not dto.allow_outstanding)) [
      | inl shut ↦ rw (gate, shut) v
      | inr clear ↦
          rw (gate, clear)
            (leave-NoDoubleBooking db property_id id before actor task_id now row v m e)
    ]

pub Outcome-cases :
    {A : Type 0} (o : Outcome Refusal A)
    → ((e : Refusal) × (o ≡ refused e)) ⊎ ((a : A) × (o ≡ ok a))
Outcome-cases (ok a) = inr (a, refl)
Outcome-cases (refused e) = inl (e, refl)

departing-eq-ok :
    (db : Db) (property_id id : ℕ) {before : Reservation}
    → departing db property_id id ≡ ok before
    → require_reservation db property_id id ≡ ok before
unfolding departing
departing-eq-ok db property_id id {before} h =
    through (require_reservation db property_id id) _ h λ r e h0.
      through (assert_transition r.status ReservationStatus.checked_out) _ h0 λ _ _ h1.
        subst (λ (s : Reservation). require_reservation db property_id id ≡ ok s) (committed h1) e

-- From a table with unique ids and no room held twice on a night, `checkOut` leads to such a
-- table, whether it succeeds, is refused, or is blocked by the gate with the payment kept.
pub check_out-NoDoubleBooking :
    (db : Db) (property_id id : ℕ) (dto : CheckOut) (actor : Option ℕ) (payment_id task_id : ℕ)
    (now : Timestamp)
    → NoDoubleBooking db.reservations
    → NoDoubleBooking (check_out db property_id id dto actor payment_id task_id now).0.reservations
unfolding check_out collect_at_desk
check_out-NoDoubleBooking db property_id id dto actor payment_id task_id now v =
    elim (Outcome-cases (departing db property_id id)) [
      | inl stop ↦ rw (check_out, stop.1) v
      | inr go ↦
          let found =
            require_reservation-In db property_id id (departing-eq-ok db property_id id go.1) in
          let after =
            collected db property_id id dto actor payment_id go.0 dto.collected_paise v found.0
              found.1 in
          rw (check_out, go.1)
            (gate-NoDoubleBooking _ property_id id go.0 dto actor task_id now _ after.1.0 after.0
              after.1.1 after.1.2)
    ]

-- Taking a payment out of band.
pub collect_payment-NoDoubleBooking :
    (db : Db) (input : RecordPayment) (payment_id : ℕ) {db' : Db} {net shown : ℤ}
    → NoDoubleBooking db.reservations
    → collect_payment db input payment_id ≡ ok (db', net, shown)
    → NoDoubleBooking db'.reservations
unfolding collect_payment
collect_payment-NoDoubleBooking db input payment_id v h =
    through (require_reservation db input.property_id input.reservation_id) _ h λ before e h0.
      let found = require_reservation-In db input.property_id input.reservation_id e in
      subst NoDoubleBooking (ap (λ (t : Db × ℤ × ℤ). t.0.reservations) (committed h0))
        (record_payment-NoDoubleBooking db input payment_id before v found.0 found.1)
