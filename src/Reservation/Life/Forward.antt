-- ===== src/Reservation/Life/Forward.antt =====
-- The operations that move one booking along the transition map.
use Prim.Native.String.{String}
use travelo.Base.{
  ℕ, ◌≡◌, refl, sym, ap, ◌∙◌, ◌⊎◌, inl, inr, true, not, ◌&&◌, List, Option, none, some, In, require,
  through, committed, subst, refuse_if, Bool-cases, ok, ◌==◌, leb,
}
use travelo.Schema.{
  IsoDate, Timestamp, Db, Reservation, ReservationStatus, room_type_mismatch, not_arrival_day,
  no_room_assigned, room_not_ready,
}
use travelo.Reservation.Rules.{assert_transition, covers_date, is_assignable}
use travelo.Reservation.Availability.{
  require_reservation, require_room, assert_room_free, assert_held_room_free, assert_type_capacity,
}
use travelo.Reservation.Writes.{set_reservation, set_room_status, record_event}
use travelo.Reservation.Changes.{confirm, cancel, no_show}
use travelo.Reservation.InHouse.{check_in, given_or}
use travelo.Reservation.Clash.{NoDoubleBooking}
use travelo.Reservation.Safety.Resolution.{require_reservation-In}
use travelo.Base.Int.{ℤ, pos, ltb_ℤ}
use travelo.Reservation.Departure.{CheckOut, collect_at_desk, leave, departing, gate, check_out}
use travelo.Reservation.Safety.Departure.{collected, turn_over-reservations, Outcome-cases}
use travelo.Reservation.Life.Steady.{collect-Steady}
use travelo.Reservation.Life.{
  Forward, Steady, Steady-refl, Steady-Forward, update_row-Forward, save-Forward,
  assert_transition-eq-ok,
}
use travelo.Reservation.Rules.{can_transition}

pub confirm-Forward :
    (db : Db) (property_id id : ℕ) (actor : Option ℕ) {db' : Db}
    → NoDoubleBooking db.reservations
    → confirm db property_id id actor ≡ ok db'
    → Forward db.reservations db'.reservations
unfolding confirm set_reservation record_event
confirm-Forward db property_id id actor v h =
    through (require_reservation db property_id id) _ h λ before e h0.
      through (assert_transition before.status ReservationStatus.confirmed) _ h0 λ _ t h1.
        through
          (assert_held_room_free db property_id before.room_id before.check_in before.check_out
            (some id))
          _ h1
          λ _ free h2.
            through
              (assert_type_capacity db property_id before.room_type_id before.check_in
                before.check_out (some id) none)
              _ h2
              λ _ _ h3.
                save-Forward db property_id id _ v e (refl, inr (assert_transition-eq-ok _ _ t))
                  (ap (λ (d : Db). d.reservations) (committed h3))

pub check_in-Forward :
    (db : Db) (property_id id : ℕ) (dto_room_id : Option ℕ) (details : List (String × String))
    (actor : Option ℕ) (today : IsoDate) (now : Timestamp) {db' : Db}
    → NoDoubleBooking db.reservations
    → check_in db property_id id dto_room_id details actor today now ≡ ok db'
    → Forward db.reservations db'.reservations
unfolding check_in set_room_status set_reservation record_event
check_in-Forward db property_id id dto_room_id details actor today now v h =
    through (require_reservation db property_id id) _ h λ before e h0.
      through (assert_transition before.status ReservationStatus.checked_in) _ h0 λ _ t h1.
        through
          (refuse_if
            (not (
              covers_date (record { check_in = before.check_in; check_out = before.check_out })
                today))
            not_arrival_day)
          _ h1
          λ _ _ h2.
            through (require (given_or dto_room_id before.room_id) no_room_assigned) _ h2
              λ room_id _ h3. through (require_room db property_id room_id) _ h3 λ room _ h4.
                through
                  (refuse_if (not (room.room_type_id == before.room_type_id)) room_type_mismatch) _
                  h4
                  λ _ _ h5.
                    through (refuse_if (not (is_assignable room.status)) room_not_ready) _ h5
                      λ _ _ h6.
                        through
                          (assert_room_free db property_id room_id before.check_in before.check_out
                            (some id) none)
                          _ h6
                          λ _ free h7.
                            save-Forward db property_id id _ v e
                              (refl, inr (assert_transition-eq-ok _ _ t))
                              (ap (λ (d : Db). d.reservations) (committed h7))

pub cancel-Forward :
    (db : Db) (property_id id : ℕ) (actor : Option ℕ) (now : Timestamp) {db' : Db}
    → NoDoubleBooking db.reservations
    → cancel db property_id id actor now ≡ ok db'
    → Forward db.reservations db'.reservations
unfolding cancel set_reservation record_event
cancel-Forward db property_id id actor now v h =
    through (require_reservation db property_id id) _ h λ before e h0.
      through (assert_transition before.status ReservationStatus.cancelled) _ h0 λ _ t h1.
        save-Forward db property_id id _ v e (refl, inr (assert_transition-eq-ok _ _ t))
          (ap (λ (d : Db). d.reservations) (committed h1))

pub no_show-Forward :
    (db : Db) (property_id id : ℕ) (actor : Option ℕ) (today : IsoDate) {db' : Db}
    → NoDoubleBooking db.reservations
    → no_show db property_id id actor today ≡ ok db'
    → Forward db.reservations db'.reservations
unfolding no_show set_reservation record_event
no_show-Forward db property_id id actor today v h =
    through (require_reservation db property_id id) _ h λ before e h0.
      through (assert_transition before.status ReservationStatus.no_show) _ h0 λ _ t h1.
        through (refuse_if (leb today before.check_in) not_arrival_day) _ h1 λ _ _ h2.
          save-Forward db property_id id _ v e (refl, inr (assert_transition-eq-ok _ _ t))
            (ap (λ (d : Db). d.reservations) (committed h2))

onward :
    (a b c : ReservationStatus)
    → b ≡ a
    → (c ≡ b) ⊎ (can_transition b c ≡ true)
    → (c ≡ a) ⊎ (can_transition a c ≡ true)
onward a b c s (inl e) = inl (e ∙ s)
onward a b c s (inr e) = inr (subst (λ (z : ReservationStatus). can_transition z c ≡ true) s e)

Forward-after : (rs ss ts : List Reservation) → Steady rs ss → Forward ss ts → Forward rs ts
Forward-after rs ss ts f g a m =
    let (b, n, i, s) = f a m in
    let (c, o, (j, t)) = g b n in (c, o, (j ∙ i, onward a.status b.status c.status s t))

leave-Forward :
    (db : Db) (property_id id : ℕ) (before : Reservation) (actor : Option ℕ) (task_id : ℕ)
    (now : Timestamp) (row : Reservation)
    → NoDoubleBooking db.reservations
    → In row db.reservations
    → row.id ≡ id
    → can_transition row.status ReservationStatus.checked_out ≡ true
    → Forward db.reservations (leave db property_id id before actor task_id now).reservations
unfolding leave record_event set_reservation
leave-Forward db property_id id before actor task_id now row v m e t =
    subst (Forward db.reservations)
      (sym
        (turn_over-reservations (set_reservation db id _) property_id before.room_id actor task_id))
      (update_row-Forward id
        (λ r. record r { status = ReservationStatus.checked_out; checked_out_at = some now })
        db.reservations row v m e (refl, inr t))

gate-Forward :
    (db : Db) (property_id id : ℕ) (before : Reservation) (dto : CheckOut) (actor : Option ℕ)
    (task_id : ℕ) (now : Timestamp) (balance : ℤ) (row : Reservation)
    → NoDoubleBooking db.reservations
    → In row db.reservations
    → row.id ≡ id
    → can_transition row.status ReservationStatus.checked_out ≡ true
    → Forward db.reservations
        (gate db property_id id before dto actor task_id now balance).0.reservations
unfolding gate
gate-Forward db property_id id before dto actor task_id now balance row v m e t =
    elim (Bool-cases (ltb_ℤ (pos 0) balance && not dto.allow_outstanding)) [
      | inl shut ↦
          rw (gate, shut)
            (Steady-Forward db.reservations db.reservations (Steady-refl db.reservations))
      | inr clear ↦
          rw (gate, clear) (leave-Forward db property_id id before actor task_id now row v m e t)
    ]

departing_transition :
    (db : Db) (property_id id : ℕ) {before : Reservation}
    → departing db property_id id ≡ ok before
    → (require_reservation db property_id id ≡ ok before)
      × (can_transition before.status ReservationStatus.checked_out ≡ true)
unfolding departing
departing_transition db property_id id {before} h =
    through (require_reservation db property_id id) _ h λ r e h0.
      through (assert_transition r.status ReservationStatus.checked_out) _ h0 λ _ t h1.
        subst
          (λ (s : Reservation).
            (require_reservation db property_id id ≡ ok s)
            × (can_transition s.status ReservationStatus.checked_out ≡ true))
          (committed h1) (e, assert_transition-eq-ok _ _ t)

pub check_out-Forward :
    (db : Db) (property_id id : ℕ) (dto : CheckOut) (actor : Option ℕ) (payment_id task_id : ℕ)
    (now : Timestamp)
    → NoDoubleBooking db.reservations
    → Forward db.reservations
        (check_out db property_id id dto actor payment_id task_id now).0.reservations
unfolding check_out collect_at_desk
check_out-Forward db property_id id dto actor payment_id task_id now v =
    elim (Outcome-cases (departing db property_id id)) [
      | inl stop ↦
          rw (check_out, stop.1)
            (Steady-Forward db.reservations db.reservations (Steady-refl db.reservations))
      | inr go ↦
          let (e, t) = departing_transition db property_id id go.1 in
          let found = require_reservation-In db property_id id e in
          let v' =
            (collected db property_id id dto actor payment_id go.0 dto.collected_paise v found.0
              found.1).0 in
          let paid = collect-Steady db property_id id dto actor payment_id dto.collected_paise in
          let (row, m, i, s) = paid go.0 found.0 in
          rw (check_out, go.1)
            (Forward-after db.reservations _ _ paid (
              gate-Forward _ property_id id go.0 dto actor task_id now _ row v' m (i ∙ found.1) (
                subst
                  (λ (z : ReservationStatus). can_transition z ReservationStatus.checked_out ≡ true)
                  (sym s) t)))
    ]
