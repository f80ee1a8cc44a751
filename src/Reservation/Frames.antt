-- ===== src/Reservation/Frames.antt =====
-- What a departure leaves alone (Reservation/Departure.antt).
use travelo.Base.{
  ℕ, ◌≡◌, refl, inl, inr, not, ◌&&◌, List, [], ◌∷◌, ◌++◌, Option, none, some, select-update_row,
  update_row, any, Bool-cases, ◌==◌, arith,
}
use travelo.Schema.{
  Db, Reservation, RoomStatus, ReservationEvent, ReservationStatus, Room, HousekeepingTask,
  Timestamp,
}
use travelo.Folio.Charges.{intra_state_of}
use travelo.Folio.Summary.{
  balance_paise, summary, room_part, room_gst, property_taxes_on, live_lines, paid_in,
}
use travelo.Housekeeping.{create_checkout_clean_for_room, is_open_for, checkout_clean}
use travelo.Reservation.Departure.{turn_over, leave}
use travelo.Reservation.Writes.{set_reservation, set_room_status, record_event}

-- The turnover writes rooms and tasks alone.
turn_over_frame :
    (db : Db) (property_id : ℕ) (room actor : Option ℕ) (task_id : ℕ)
    → (rooms : List Room) × (tasks : List HousekeepingTask) × (turn_over db property_id room actor
          task_id
        ≡ record db { rooms = rooms; tasks = tasks })
unfolding turn_over create_checkout_clean_for_room set_room_status
turn_over_frame db property_id none actor task_id = (db.rooms, db.tasks, refl)
turn_over_frame db property_id (some room_id) actor task_id =
    elim (Bool-cases (any (is_open_for property_id room_id) db.tasks)) [
      | inl taken ↦ (
        (set_room_status db room_id RoomStatus.dirty).rooms,
        db.tasks,
        rw (turn_over, create_checkout_clean_for_room, taken) refl,
      )
      | inr fresh ↦ (
        (set_room_status db room_id RoomStatus.dirty).rooms,
        db.tasks ++ checkout_clean property_id room_id actor task_id ∷ [],
        rw (turn_over, create_checkout_clean_for_room, fresh) refl,
      )
    ]

-- The database with the row checked out, whatever rooms, tasks and events it has.
abbrev departed :
    Db → ℕ → Timestamp → List Room → List HousekeepingTask → List ReservationEvent → Db
departed db id now rooms tasks events = record db {
  reservations =
      update_row (λ r. r.id) id
        (λ r. record r { status = ReservationStatus.checked_out; checked_out_at = some now })
        db.reservations;
  rooms = rooms;
  tasks = tasks;
  reservation_events = events;
}

room_part-departed :
    (db : Db) (id reservation_id : ℕ) (now : Timestamp) (rooms : List Room)
    (tasks : List HousekeepingTask) (events : List ReservationEvent)
    → room_part (departed db id now rooms tasks events) reservation_id ≡ room_part db reservation_id
unfolding room_part room_gst property_taxes_on intra_state_of
room_part-departed db id reservation_id now rooms tasks events =
    rw
      (
        room_part,
        select-update_row (λ r. r.id == reservation_id && not r.deleted) (λ r. r.id) id
            (λ (r : Reservation). record r {
              status = ReservationStatus.checked_out;
              checked_out_at = some now;
            })
            db.reservations (λ r. refl),
      )
      (ground arith)

balance_paise-departed :
    (db : Db) (id reservation_id : ℕ) (now : Timestamp) (rooms : List Room)
    (tasks : List HousekeepingTask) (events : List ReservationEvent)
    → balance_paise (departed db id now rooms tasks events) reservation_id
      ≡ balance_paise db reservation_id
unfolding balance_paise summary live_lines paid_in
balance_paise-departed db id reservation_id now rooms tasks events =
    rw (room_part-departed db id reservation_id now rooms tasks events) refl

-- Departure moves no money.
pub balance_paise-leave :
    (db : Db) (property_id id : ℕ) (before : Reservation) (actor : Option ℕ) (task_id : ℕ)
    (now : Timestamp)
    → balance_paise (leave db property_id id before actor task_id now) id ≡ balance_paise db id
unfolding leave record_event set_reservation
balance_paise-leave db property_id id before actor task_id now =
    let (rooms, tasks, e) =
      turn_over_frame
        (set_reservation db id
          (λ r. record r { status = ReservationStatus.checked_out; checked_out_at = some now }))
        property_id before.room_id actor task_id in
    rw e (balance_paise-departed db id id now rooms tasks _)
