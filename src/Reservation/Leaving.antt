-- ===== src/Reservation/Leaving.antt =====
-- A guest in the house can leave (Reservation/Departure.antt).
use travelo.Base.{
  ℕ, ◌≡◌, refl, sym, ap, subst, ◌∙◌, Bool, true, false, not, ◌&&◌, Option, some, In, any,
  In-update_row_self, Outcome, ok, arith,
}
use travelo.Base.Int.{ℤ, pos, ltb_ℤ}
use travelo.Schema.{Db, Timestamp, Reservation, ReservationStatus, Refusal}
use travelo.Folio.Summary.{balance_paise}
use travelo.Reservation.Rules.{assert_transition, can_transition, transitions}
use travelo.Reservation.Availability.{require_reservation}
use travelo.Reservation.Writes.{set_reservation, record_event}
use travelo.Reservation.Departure.{CheckOut, check_out, departing, gate, leave, collect_at_desk}
use travelo.Reservation.Safety.Departure.{turn_over-reservations}
use travelo.Reservation.Safety.Resolution.{require_reservation-In}
use travelo.Reservation.Life.Steady.{collect-Steady}

pub departing-checked_in :
    (db : Db) (property_id id : ℕ) {before : Reservation}
    → require_reservation db property_id id ≡ ok before
    → before.status ≡ ReservationStatus.checked_in
    → departing db property_id id ≡ ok before
unfolding departing assert_transition can_transition transitions any
departing-checked_in db property_id id e s = rw e (rw s refl)

leave-gone :
    (db : Db) (property_id id : ℕ) (before row : Reservation) (actor : Option ℕ) (task_id : ℕ)
    (now : Timestamp)
    → In row db.reservations
    → row.id ≡ id
    → (r : Reservation) × In r (leave db property_id id before actor task_id now).reservations
      × (r.id ≡ id)
      × (r.status ≡ ReservationStatus.checked_out)
      × (r.checked_out_at ≡ some now)
unfolding leave record_event set_reservation
leave-gone db property_id id before row actor task_id now m e =
    let gone = λ (r : Reservation). record r {
      status = ReservationStatus.checked_out;
      checked_out_at = some now;
    } in
    (
      gone row,
      subst (In (gone row))
          (sym (
            turn_over-reservations (set_reservation db id _) property_id before.room_id actor
              task_id))
          (In-update_row_self (λ r. r.id) id gone row db.reservations e m),
      e,
      refl,
      refl,
    )

open_gate : (owed allow : Bool) → allow ≡ true → (owed && not allow) ≡ false
open_gate owed allow e = ground arith

gate_opens :
    (db : Db) (property_id id : ℕ) (before : Reservation) (dto : CheckOut) (actor : Option ℕ)
    (task_id : ℕ) (now : Timestamp) (balance : ℤ)
    → dto.allow_outstanding ≡ true
    → gate db property_id id before dto actor task_id now balance ≡ (
      leave db property_id id before actor task_id now,
      ok (balance, ltb_ℤ (pos 0) balance && dto.allow_outstanding),
    )
unfolding gate
gate_opens db property_id id before dto actor task_id now balance allowed =
    rw (gate, open_gate (ltb_ℤ (pos 0) balance) dto.allow_outstanding allowed) refl

-- Where a booking is checked in and the desk allows a balance to stay open, `checkOut` succeeds,
-- whatever is owed or collected, and the booking is checked out at that time afterwards.
pub check_out-allowed :
    (db : Db) (property_id id : ℕ) (dto : CheckOut) (actor : Option ℕ) (payment_id task_id : ℕ)
    (now : Timestamp) {before : Reservation}
    → require_reservation db property_id id ≡ ok before
    → before.status ≡ ReservationStatus.checked_in
    → dto.allow_outstanding ≡ true
    → (balance : ℤ) × (overrode : Bool) × ((check_out db property_id id dto actor payment_id task_id
          now).1
        ≡ ok (balance, overrode))
      × (r : Reservation) × In r
          (check_out db property_id id dto actor payment_id task_id now).0.reservations
      × (r.id ≡ id)
      × (r.status ≡ ReservationStatus.checked_out)
      × (r.checked_out_at ≡ some now)
unfolding check_out collect_at_desk
check_out-allowed db property_id id dto actor payment_id task_id now {before} e s allowed =
    let go = departing-checked_in db property_id id e s in
    let found = require_reservation-In db property_id id e in
    let (row, m, i, _) =
      collect-Steady db property_id id dto actor payment_id dto.collected_paise before found.0 in
    let paid = collect_at_desk db property_id id dto actor payment_id in
    let balance = balance_paise paid id in
    let gone = leave-gone paid property_id id before row actor task_id now m (i ∙ found.1) in
    let opened = gate_opens paid property_id id before dto actor task_id now balance allowed in
    let passed : check_out db property_id id dto actor payment_id task_id now ≡ (
      leave paid property_id id before actor task_id now,
      ok (balance, ltb_ℤ (pos 0) balance && dto.allow_outstanding),
    ) =
      rw (check_out, go) opened in
    (
      balance,
      ltb_ℤ (pos 0) balance && dto.allow_outstanding,
      ap (λ (x : Db × Outcome Refusal (ℤ × Bool)). x.1) passed,
      gone.0,
      subst (λ (x : Db × Outcome Refusal (ℤ × Bool)). In gone.0 x.0.reservations) (sym passed)
          gone.1,
      gone.2,
      gone.3,
      gone.4,
    )
