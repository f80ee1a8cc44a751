-- ===== src/Reservation/Writes.antt =====
-- The writes that the service's transactions are made of (reservations.service.ts). A transaction
-- that throws is rolled back, so an operation's result carries the database only where it commits.
use travelo.Base.{ℕ, [], ◌∷◌, ◌++◌, Option, update_row}
use travelo.Schema.{Db, Reservation, RoomStatus, ReservationEventType}

-- `update(reservations).set(…).where(eq(reservations.id, id))`
unfoldable pub set_reservation : Db → ℕ → (Reservation → Reservation) → Db
set_reservation db id patch = record db {
  reservations = update_row (λ r. r.id) id patch db.reservations;
}

-- `update(rooms).set({ status }).where(eq(rooms.id, roomId))`
unfoldable pub set_room_status : Db → ℕ → RoomStatus → Db
set_room_status db room_id status = record db {
  rooms = update_row (λ r. r.id) room_id (λ r. record r { status = status }) db.rooms;
}

-- `recordEvent`
unfoldable pub record_event : Db → ℕ → ReservationEventType → Option ℕ → Db
record_event db reservation_id type actor_staff_id = record db {
  reservation_events =
      db.reservation_events
      ++ record { reservation_id = reservation_id; type = type; actor_staff_id = actor_staff_id }
        ∷ [];
}
