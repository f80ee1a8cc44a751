-- ===== src/Maintenance/Barred.antt =====
-- A room that a work order takes out of service, against the front desk's operations
-- (Maintenance.antt, Reservation/InHouse.antt).
use Prim.Native.String.{String}
use travelo.Base.{
  ℕ, ◌≡◌, refl, sym, ap, subst, ◌∙◌, inl, inr, true, false, not, List, Option, some, In,
  update_row-In, select-some, through, committed, ok, refuse_if, require, require-eq-ok, holds,
  ◌==◌, arith,
}
use travelo.Schema.{
  Db, Room, RoomStatus, WorkOrder, IsoDate, Timestamp, Reservation, ReservationStatus, is_status,
  not_arrival_day, no_room_assigned, room_type_mismatch, room_not_ready, not_in_house, same_room,
}
use travelo.Reservation.Rules.{assert_transition, covers_date, is_assignable}
use travelo.Reservation.Availability.{require_reservation, require_room}
use travelo.Reservation.Writes.{set_room_status}
use travelo.Reservation.InHouse.{check_in, given_or, move_room}
use travelo.Reservation.Safety.Create.{create_attempts-eq-ok}
use travelo.Maintenance.{
  CreateWorkOrder, create_work_order, check_place, work_order_attempt, new_work_order,
  insert_work_order, drive_out, accept_work_order, require_work_order, assert_work_order_transition,
}

-- No row of the room has a status in which it can be given out.
unfoldable pub Barred : Db → ℕ → Type 0
Barred db room_id = (r : Room) → In r db.rooms → r.id ≡ room_id → is_assignable r.status ≡ false

set_room_status-Barred :
    (db : Db) (room_id : ℕ) (status : RoomStatus)
    → is_assignable status ≡ false
    → Barred (set_room_status db room_id status) room_id
unfolding Barred set_room_status
set_room_status-Barred db room_id status h r m e =
    let (b, n, how) =
      update_row-In (λ x. x.id) room_id (λ x. record x { status = status }) r db.rooms m in
    elim how [
      | inl hit ↦ ap (λ (x : Room). is_assignable x.status) hit.1 ∙ h
      | inr miss ↦ absurd (miss.0 (sym (ap (λ (x : Room). x.id) miss.1) ∙ e))
    ]

pub create_work_order-Barred :
    (db : Db) (property_id room_id : ℕ) (dto : CreateWorkOrder) (reporter id : ℕ) {db' : Db}
    → dto.room_id ≡ some room_id
    → dto.takes_room_out_of_service ≡ some true
    → create_work_order db property_id dto reporter id ≡ ok db'
    → Barred db' room_id
unfolding create_work_order work_order_attempt drive_out is_assignable
create_work_order-Barred db property_id room_id dto reporter id e out h =
    through (check_place db property_id dto.room_id) _ h λ _ _ h1.
      let (n, tried) = create_attempts-eq-ok 4 0 _ h1 in
      through (insert_work_order db (new_work_order db property_id dto reporter id n)) _ tried
        λ created _ h2.
          subst (λ d. Barred d room_id) (committed (rw (e, out) at h2))
            (set_room_status-Barred created room_id RoomStatus.out_of_order refl)

pub accept_work_order-Barred :
    (db : Db) (property_id id actor room_id : ℕ) (now : Timestamp) {w : WorkOrder} {db' : Db}
    → require_work_order db property_id id ≡ ok w
    → w.takes_room_out_of_service ≡ true
    → w.room_id ≡ some room_id
    → accept_work_order db property_id id actor now ≡ ok db'
    → Barred db' room_id
unfolding accept_work_order drive_out is_assignable
accept_work_order-Barred db property_id id actor room_id now found out e h =
    through (require_work_order db property_id id) _ h λ before there h1.
      through (assert_work_order_transition before.status _) _ h1 λ _ _ h2.
        let same = committed (sym there ∙ found) in
        subst (λ d. Barred d room_id)
          (committed (
            rw
              (
                ap (λ (w : WorkOrder). w.takes_room_out_of_service) same ∙ out,
                ap (λ (w : WorkOrder). w.room_id) same ∙ e,
              )
              at h2))
          (set_room_status-Barred _ room_id RoomStatus.maintenance refl)

require_room-Barred :
    (db : Db) (property_id room_id : ℕ) {r : Room}
    → Barred db room_id
    → require_room db property_id room_id ≡ ok r
    → is_assignable r.status ≡ false
unfolding require_room Barred
require_room-Barred db property_id room_id v h =
    let found = select-some _ db.rooms (require-eq-ok _ _ h) in
    v _ found.0 (ground (arith, found.1))

unassignable :
    (s : RoomStatus) {u : Unit {0}}
    → is_assignable s ≡ false
    → refuse_if (not (is_assignable s)) room_not_ready ≡ ok u
    → ⊥
unassignable s shut h = ground arith

pub check_in-Barred :
    (db : Db) (property_id id room_id : ℕ) (dto_room_id : Option ℕ)
    (details : List (String × String)) (actor : Option ℕ) (today : IsoDate) (now : Timestamp)
    {r : Reservation} {db' : Db}
    → Barred db room_id
    → require_reservation db property_id id ≡ ok r
    → given_or dto_room_id r.room_id ≡ some room_id
    → check_in db property_id id dto_room_id details actor today now ≡ ok db'
    → ⊥
unfolding check_in
check_in-Barred db property_id id room_id dto_room_id details actor today now {r} v booked chosen
      h =
    through (require_reservation db property_id id) _ h λ before there h1.
      through (assert_transition before.status ReservationStatus.checked_in) _ h1 λ _ _ h2.
        through
          (refuse_if
            (not (
              covers_date (record { check_in = before.check_in; check_out = before.check_out })
                today))
            not_arrival_day)
          _ h2
          λ _ _ h3.
            through (require (given_or dto_room_id before.room_id) no_room_assigned) _ h3
              λ k given h4. through (require_room db property_id k) _ h4 λ room found h5.
                through
                  (refuse_if (not (room.room_type_id == before.room_type_id)) room_type_mismatch) _
                  h5
                  λ _ _ h6.
                    through (refuse_if (not (is_assignable room.status)) room_not_ready) _ h6
                      λ _ ready _.
                        unassignable room.status
                          (require_room-Barred db property_id room_id v (
                            subst (λ n. require_room db property_id n ≡ ok room)
                              (same_key (
                                sym (require-eq-ok _ _ given)
                                ∙ ap (λ (x : Reservation). given_or dto_room_id x.room_id)
                                    (committed (sym there ∙ booked))
                                ∙ chosen))
                              found))
                          ready
  where
    same_key : {a b : ℕ} → some a ≡ some b → a ≡ b
    same_key e = cc

pub move_room-Barred :
    (db : Db) (property_id id room_id : ℕ) (rate actor : Option ℕ) {db' : Db}
    → Barred db room_id
    → move_room db property_id id room_id rate actor ≡ ok db'
    → ⊥
unfolding move_room
move_room-Barred db property_id id room_id rate actor v h =
    through (require_reservation db property_id id) _ h λ before _ h1.
      through (refuse_if (not (is_status before.status ReservationStatus.checked_in)) not_in_house)
        _ h1
        λ _ _ h2. through (refuse_if (holds before.room_id room_id) same_room) _ h2 λ _ _ h3.
          through (require_room db property_id room_id) _ h3 λ room found h4.
            through (refuse_if (not (is_assignable room.status)) room_not_ready) _ h4 λ _ ready _.
              unassignable room.status (require_room-Barred db property_id room_id v found) ready

-- After a work order that takes a room out of service is created, a check-in that would use the
-- room, by the booking or by the request, and a move into it are not accepted.
pub work_order_bars_room :
    (db : Db) (property_id room_id : ℕ) (dto : CreateWorkOrder) (reporter id booking_id : ℕ)
    (dto_room_id : Option ℕ) (details : List (String × String)) (rate actor : Option ℕ)
    (today : IsoDate) (now : Timestamp) {db' arrived moved : Db} {booking : Reservation}
    → dto.room_id ≡ some room_id
    → dto.takes_room_out_of_service ≡ some true
    → create_work_order db property_id dto reporter id ≡ ok db'
    → require_reservation db' property_id booking_id ≡ ok booking
    → given_or dto_room_id booking.room_id ≡ some room_id
    → ¬ (check_in db' property_id booking_id dto_room_id details actor today now ≡ ok arrived)
      × ¬ (move_room db' property_id booking_id room_id rate actor ≡ ok moved)
work_order_bars_room db property_id room_id dto reporter id booking_id dto_room_id details rate
      actor today now e out h booked chosen =
    let v = create_work_order-Barred db property_id room_id dto reporter id e out h in
    (
      λ k.
          check_in-Barred _ property_id booking_id room_id dto_room_id details actor today now v
            booked chosen k,
      λ k. move_room-Barred _ property_id booking_id room_id rate actor v k,
    )
