-- ===== src/Reservation/Safety/Resolution.antt =====
-- What resolving a booking by (id, property) gives, and a write to the row that was resolved.
use travelo.Base.{
  ℕ, ◌≡◌, refl, sym, ◌∙◌, false, List, none, some, In, select-some, require-eq-ok, subst, ok, arith,
}
use travelo.Schema.{Db, Reservation}
use travelo.Reservation.Availability.{require_reservation, assert_room_free, assert_held_room_free}
use travelo.Reservation.Writes.{set_reservation}
use travelo.Reservation.Clash.{
  NoDoubleBooking, Apart, replace-NoDoubleBooking, room_free-clash, held_room_free-clash,
  holds_of_ne,
}

-- A row of the table under the id, of the property, not deleted.
pub require_reservation-In :
    (db : Db) (property_id id : ℕ) {r : Reservation}
    → require_reservation db property_id id ≡ ok r
    → In r db.reservations × (r.id ≡ id) × (r.property_id ≡ property_id) × (r.deleted ≡ false)
unfolding require_reservation
require_reservation-In db property_id id {r} h =
    let t = select-some _ db.reservations (require-eq-ok _ _ h) in
    (t.0, ground (arith, t.1), ground (arith, t.1), ground (arith, t.1))

-- A commit that changed the resolved row alone keeps the invariant, where that row is now apart.
pub save-NoDoubleBooking :
    (db : Db) (property_id id : ℕ) (f : Reservation → Reservation) {before : Reservation}
    {rs : List Reservation}
    → NoDoubleBooking db.reservations
    → require_reservation db property_id id ≡ ok before
    → (f before).id ≡ before.id
    → Apart (f before) db.reservations
    → (set_reservation db id f).reservations ≡ rs
    → NoDoubleBooking rs
unfolding set_reservation
save-NoDoubleBooking db property_id id f {before} v e k free p =
    let found = require_reservation-In db property_id id e in
    subst NoDoubleBooking p
      (replace-NoDoubleBooking db.reservations id f before v found.0 found.1 (k ∙ found.1) free)

-- The check of a room, made for the resolved booking with itself excluded.
pub checked-Apart :
    (db : Db) (property_id id room_id : ℕ) (before r : Reservation) {u : Unit {0}}
    → require_reservation db property_id id ≡ ok before
    → assert_room_free db property_id room_id r.check_in r.check_out (some id) none ≡ ok u
    → r.id ≡ before.id
    → r.property_id ≡ before.property_id
    → r.room_id ≡ some room_id
    → Apart r db.reservations
checked-Apart db property_id id room_id before r e h k p q s m n =
    let found = require_reservation-In db property_id id e in
    room_free-clash db property_id room_id r.check_in r.check_out (some id) none r s h m
      (holds_of_ne id s.id (λ z. n (z ∙ sym (k ∙ found.1)))) refl (p ∙ found.2) q refl refl

pub held-Apart :
    (db : Db) (property_id id : ℕ) (before r : Reservation) {u : Unit {0}}
    → require_reservation db property_id id ≡ ok before
    → assert_held_room_free db property_id r.room_id r.check_in r.check_out (some id) ≡ ok u
    → r.id ≡ before.id
    → r.property_id ≡ before.property_id
    → Apart r db.reservations
held-Apart db property_id id before r e h k p s m n =
    let found = require_reservation-In db property_id id e in
    held_room_free-clash db property_id r.room_id r.check_in r.check_out (some id) r s h m
      (holds_of_ne id s.id (λ z. n (z ∙ sym (k ∙ found.1)))) (p ∙ found.2) refl refl refl
