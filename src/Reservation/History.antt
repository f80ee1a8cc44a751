-- ===== src/Reservation/History.antt =====
-- The life of a property's reservations: every committed call of the service as a step, and the
-- databases that a sequence of such calls leads to.
use travelo.Base.{ℕ, ◌≡◌, ◌≢◌, refl, Bool, List, Option, ok, In}
use travelo.Base.Int.{ℤ}
use travelo.Schema.{IsoDate, Timestamp, Db, Reservation}
use Prim.Native.String.{String}
use travelo.Folio.Receipts.{RecordPayment}
use travelo.Reservation.Clash.{NoDoubleBooking}
use travelo.Reservation.Booking.{RatesEngine, CreateReservation, create}
use travelo.Reservation.Changes.{
  UpdateReservation, update, confirm, assign_room, lock_room, cancel, no_show,
}
use travelo.Reservation.InHouse.{check_in, extend_stay, move_room}
use travelo.Reservation.Swaps.{Placement, swap_rooms, auto_allocate}
use travelo.Reservation.Departure.{CheckOut, check_out, collect_payment}
use travelo.Reservation.Safety.Create.{create-NoDoubleBooking}
use travelo.Reservation.Safety.Changes.{
  confirm-NoDoubleBooking, assign_room-NoDoubleBooking, lock_room-NoDoubleBooking,
  cancel-NoDoubleBooking, no_show-NoDoubleBooking, update-NoDoubleBooking,
}
use travelo.Reservation.Safety.InHouse.{
  check_in-NoDoubleBooking, extend_stay-NoDoubleBooking, move_room-NoDoubleBooking,
}
use travelo.Reservation.Safety.Swap.{swap_rooms-NoDoubleBooking}
use travelo.Reservation.Safety.Allocate.{auto_allocate-NoDoubleBooking}
use travelo.Base.{◌<◌, ◌⊎◌, inl, inr, sym, subst, ◌∙◌, arith}
use travelo.Base.{true}
use travelo.Schema.{ReservationStatus}
use travelo.Reservation.Rules.{can_transition}
use travelo.Reservation.Nights.{stage, can_transition-stage}
use travelo.Reservation.Life.{Forward, Steady-Forward}
use travelo.Reservation.Life.Steady.{
  create-Steady, update-Steady, assign_room-Steady, lock_room-Steady, extend_stay-Steady,
  move_room-Steady, collect_payment-Steady,
}
use travelo.Reservation.Life.Placements.{swap_rooms-Steady, auto_allocate-Steady}
use travelo.Reservation.Life.Forward.{
  confirm-Forward, check_in-Forward, cancel-Forward, no_show-Forward, check_out-Forward,
}
use travelo.Reservation.Safety.Departure.{
  check_out-NoDoubleBooking, collect_payment-NoDoubleBooking,
}

-- One committed call, of any property. A new reservation's key is one that the table does not have.
infix 4 ◌⟶◌
pub data ◌⟶◌ : Db → Db → Type 0 where
  create_step :
      {db db' : Db} (rates : Option RatesEngine) (property_id : ℕ) (dto : CreateReservation)
      (actor : Option ℕ) (id : ℕ) (now : Timestamp)
      → ((s : Reservation) → In s db.reservations → s.id ≢ id)
      → create db rates property_id dto actor id now ≡ ok db'
      → db ⟶ db'
  update_step :
      {db db' : Db} (rates : Option RatesEngine) (property_id id : ℕ) (dto : UpdateReservation)
      (actor : Option ℕ)
      → update db rates property_id id dto actor ≡ ok db'
      → db ⟶ db'
  confirm_step :
      {db db' : Db} (property_id id : ℕ) (actor : Option ℕ)
      → confirm db property_id id actor ≡ ok db'
      → db ⟶ db'
  assign_room_step :
      {db db' : Db} (property_id id room_id : ℕ) (actor : Option ℕ)
      → assign_room db property_id id room_id actor ≡ ok db'
      → db ⟶ db'
  lock_room_step :
      {db db' : Db} (property_id id : ℕ) (locked : Bool) (actor : Option ℕ)
      → lock_room db property_id id locked actor ≡ ok db'
      → db ⟶ db'
  swap_rooms_step :
      {db db' : Db} (property_id id other_id : ℕ) (actor : Option ℕ)
      → swap_rooms db property_id id other_id actor ≡ ok db'
      → db ⟶ db'
  auto_allocate_step :
      {db db' : Db} {plan : List Placement} (property_id : ℕ) (from to : IsoDate) (dry_run : Bool)
      (actor : Option ℕ)
      → auto_allocate db property_id from to dry_run actor ≡ ok (db', plan)
      → db ⟶ db'
  check_in_step :
      {db db' : Db} (property_id id : ℕ) (dto_room_id : Option ℕ) (details : List (String × String))
      (actor : Option ℕ) (today : IsoDate) (now : Timestamp)
      → check_in db property_id id dto_room_id details actor today now ≡ ok db'
      → db ⟶ db'
  extend_stay_step :
      {db db' : Db} (property_id id : ℕ) (check_out : IsoDate) (dto_rate actor : Option ℕ)
      → extend_stay db property_id id check_out dto_rate actor ≡ ok db'
      → db ⟶ db'
  move_room_step :
      {db db' : Db} (property_id id dto_room_id : ℕ) (dto_rate actor : Option ℕ)
      → move_room db property_id id dto_room_id dto_rate actor ≡ ok db'
      → db ⟶ db'
  check_out_step :
      {db : Db} (property_id id : ℕ) (dto : CheckOut) (actor : Option ℕ) (payment_id task_id : ℕ)
      (now : Timestamp)
      → db ⟶ (check_out db property_id id dto actor payment_id task_id now).0
  collect_payment_step :
      {db db' : Db} {net shown : ℤ} (input : RecordPayment) (payment_id : ℕ)
      → collect_payment db input payment_id ≡ ok (db', net, shown)
      → db ⟶ db'
  cancel_step :
      {db db' : Db} (property_id id : ℕ) (actor : Option ℕ) (now : Timestamp)
      → cancel db property_id id actor now ≡ ok db'
      → db ⟶ db'
  no_show_step :
      {db db' : Db} (property_id id : ℕ) (actor : Option ℕ) (today : IsoDate)
      → no_show db property_id id actor today ≡ ok db'
      → db ⟶ db'

-- Any number of calls, one after the other.
infix 4 ◌⟶*◌
pub data ◌⟶*◌ : Db → Db → Type 0 where
  idle : {db : Db} → db ⟶* db
  before : {db mid db' : Db} → db ⟶ mid → mid ⟶* db' → db ⟶* db'

step-NoDoubleBooking :
    {db db' : Db} → NoDoubleBooking db.reservations → db ⟶ db' → NoDoubleBooking db'.reservations
step-NoDoubleBooking v (create_step rates p dto actor id now fresh h) =
    create-NoDoubleBooking _ rates p dto actor id now v fresh h
step-NoDoubleBooking v (update_step rates p id dto actor h) =
    update-NoDoubleBooking _ rates p id dto actor v h
step-NoDoubleBooking v (confirm_step p id actor h) = confirm-NoDoubleBooking _ p id actor v h
step-NoDoubleBooking v (assign_room_step p id room actor h) =
    assign_room-NoDoubleBooking _ p id room actor v h
step-NoDoubleBooking v (lock_room_step p id locked actor h) =
    lock_room-NoDoubleBooking _ p id locked actor v h
step-NoDoubleBooking v (swap_rooms_step p id other actor h) =
    swap_rooms-NoDoubleBooking _ p id other actor v h
step-NoDoubleBooking v (auto_allocate_step p from to dry actor h) =
    auto_allocate-NoDoubleBooking _ p from to dry actor v h
step-NoDoubleBooking v (check_in_step p id room details actor today now h) =
    check_in-NoDoubleBooking _ p id room details actor today now v h
step-NoDoubleBooking v (extend_stay_step p id out rate actor h) =
    extend_stay-NoDoubleBooking _ p id out rate actor v h
step-NoDoubleBooking v (move_room_step p id room rate actor h) =
    move_room-NoDoubleBooking _ p id room rate actor v h
step-NoDoubleBooking v (check_out_step p id dto actor payment task now) =
    check_out-NoDoubleBooking _ p id dto actor payment task now v
step-NoDoubleBooking v (collect_payment_step input payment h) =
    collect_payment-NoDoubleBooking _ input payment v h
step-NoDoubleBooking v (cancel_step p id actor now h) = cancel-NoDoubleBooking _ p id actor now v h
step-NoDoubleBooking v (no_show_step p id actor today h) =
    no_show-NoDoubleBooking _ p id actor today v h

-- From a table with unique ids in which no two confirmed or checked-in stays hold one room on a
-- common night, every sequence of committed calls of the reservations service, on any properties
-- and each new booking under an unused key, leads to such a table.
pub history-NoDoubleBooking :
    {db db' : Db} → NoDoubleBooking db.reservations → db ⟶* db' → NoDoubleBooking db'.reservations
history-NoDoubleBooking v idle = v
history-NoDoubleBooking v (before s rest) = history-NoDoubleBooking (step-NoDoubleBooking v s) rest

step-Forward :
    {db db' : Db}
    → NoDoubleBooking db.reservations
    → db ⟶ db'
    → Forward db.reservations db'.reservations
step-Forward v (create_step rates p dto actor id now fresh h) =
    Steady-Forward _ _ (create-Steady _ rates p dto actor id now h)
step-Forward v (update_step rates p id dto actor h) =
    Steady-Forward _ _ (update-Steady _ rates p id dto actor h)
step-Forward v (confirm_step p id actor h) = confirm-Forward _ p id actor v h
step-Forward v (assign_room_step p id room actor h) =
    Steady-Forward _ _ (assign_room-Steady _ p id room actor h)
step-Forward v (lock_room_step p id locked actor h) =
    Steady-Forward _ _ (lock_room-Steady _ p id locked actor h)
step-Forward v (swap_rooms_step p id other actor h) =
    Steady-Forward _ _ (swap_rooms-Steady _ p id other actor h)
step-Forward v (auto_allocate_step p from to dry actor h) =
    Steady-Forward _ _ (auto_allocate-Steady _ p from to dry actor h)
step-Forward v (check_in_step p id room details actor today now h) =
    check_in-Forward _ p id room details actor today now v h
step-Forward v (extend_stay_step p id out rate actor h) =
    Steady-Forward _ _ (extend_stay-Steady _ p id out rate actor h)
step-Forward v (move_room_step p id room rate actor h) =
    Steady-Forward _ _ (move_room-Steady _ p id room rate actor h)
step-Forward v (check_out_step p id dto actor payment task now) =
    check_out-Forward _ p id dto actor payment task now v
step-Forward v (collect_payment_step input payment h) =
    Steady-Forward _ _ (collect_payment-Steady _ input payment h)
step-Forward v (cancel_step p id actor now h) = cancel-Forward _ p id actor now v h
step-Forward v (no_show_step p id actor today h) = no_show-Forward _ p id actor today v h

-- The status is the same or of a later stage.
abbrev pub Onward : ReservationStatus → ReservationStatus → Type 0
Onward a b = (b ≡ a) ⊎ (stage a < stage b)

Onward-trans : (a b c : ReservationStatus) → Onward a b → Onward b c → Onward a c
Onward-trans a b c (inl e) (inl f) = inl (f ∙ e)
Onward-trans a b c (inl e) (inr f) = inr (subst (λ (z : ReservationStatus). stage z < stage c) e f)
Onward-trans a b c (inr e) (inl f) =
    inr (subst (λ (z : ReservationStatus). stage a < stage z) (sym f) e)
Onward-trans a b c (inr e) (inr f) = inr (omega (arith, e, f))

-- From a table with unique ids and no room held twice on a night, every sequence of committed
-- calls keeps every booking under its id, with the status that it had or one of a later stage:
-- none is lost, reopened or moved back.
pub history-stage :
    {db db' : Db} (a : Reservation)
    → NoDoubleBooking db.reservations
    → db ⟶* db'
    → In a db.reservations
    → (b : Reservation) × In b db'.reservations × (b.id ≡ a.id) × Onward a.status b.status
history-stage a v idle m = (a, m, refl, inl refl)
history-stage a v (before s rest) m =
    let (b, n, (i, moved)) = step-Forward v s a m in
    let (c, o, j, later) = history-stage b (step-NoDoubleBooking v s) rest n in
    (c, o, j ∙ i, Onward-trans a.status b.status c.status (raised a.status b.status moved) later)
  where
    raised : (x y : ReservationStatus) → (y ≡ x) ⊎ (can_transition x y ≡ true) → Onward x y
    raised x y (inl e) = inl e
    raised x y (inr t) = inr (can_transition-stage x y t)
