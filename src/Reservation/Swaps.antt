-- ===== src/Reservation/Swaps.antt =====
-- src/modules/reservations/reservations.service.ts: `swapRooms` and `autoAllocate`.
use travelo.Base.{
  ℕ, Bool, true, false, not, ◌&&◌, ◌||◌, List, [], ◌∷◌, ◌++◌, Option, none, some, any, filter,
  select, ltb, leb, ◌==◌, is_some, if◌then◌else◌, codes_leb, Outcome, ok, refused, refuse_if,
  require, ◌>>=◌, ◌>>◌,
}
use travelo.Schema.{
  IsoDate, Db, Reservation, ReservationStatus, is_status, Room, RoomStatus, is_room_status,
  is_occupying, ReservationEventType, Refusal, swap_self, room_required, room_is_locked,
  room_type_mismatch, dates_locked, invalid_dates,
}
use travelo.Reservation.Availability.{assert_room_free, require_reservation}
use travelo.Reservation.Writes.{set_reservation, record_event}

-- `swapRooms`
unfoldable pub swap_rooms : Db → ℕ → ℕ → ℕ → Option ℕ → Outcome Refusal Db
swap_rooms db property_id id other_id actor = do
  refuse_if (id == other_id) swap_self
  a ← require_reservation db property_id id
  b ← require_reservation db property_id other_id
  room_a ← require a.room_id room_required
  room_b ← require b.room_id room_required
  refuse_if (a.room_locked || b.room_locked) room_is_locked
  refuse_if (not (a.room_type_id == b.room_type_id)) room_type_mismatch
  refuse_if (not (is_occupying a.status)) dates_locked
  refuse_if (not (is_occupying b.status)) dates_locked
  assert_room_free db property_id room_b a.check_in a.check_out (some a.id) (some b.id)
  assert_room_free db property_id room_a b.check_in b.check_out (some b.id) (some a.id)
  let moved = set_reservation db a.id (λ r. record r { room_id = some room_b })
  let swapped = set_reservation moved b.id (λ r. record r { room_id = some room_a })
  let logged = record_event swapped a.id ReservationEventType.room_swapped actor
  ok (record_event logged b.id ReservationEventType.room_swapped actor)

module _ {A : Type 0} (leq : A → A → Bool) where
  unfoldable pub insert_by : A → List A → List A
  insert_by a [] = a ∷ []
  insert_by a (x ∷ xs) = if leq a x then a ∷ x ∷ xs else x ∷ insert_by a xs

  -- `order by`
  unfoldable pub order_by : List A → List A
  unfolding insert_by
  order_by [] = []
  order_by (x ∷ xs) = insert_by x (order_by xs)

-- Confirmed, unassigned and arriving in the window, soonest first.
unfoldable pub pending_arrivals : Db → ℕ → IsoDate → IsoDate → List Reservation
pending_arrivals db property_id from to =
    order_by
      (λ a b.
        ltb a.check_in b.check_in || ((a.check_in == b.check_in) && leb a.created_at b.created_at))
      (filter
        (λ r.
          r.property_id == property_id
          && is_status r.status ReservationStatus.confirmed
          && not (is_some r.room_id)
          && not r.deleted
          && leb from r.check_in
          && leb r.check_in to)
        db.reservations)

-- Live rooms that are not off the board, lowest number first.
unfoldable pub offerable_rooms : Db → ℕ → List Room
offerable_rooms db property_id =
    filter
      (λ r.
        not (is_room_status r.status RoomStatus.out_of_order)
        && not (is_room_status r.status RoomStatus.maintenance))
      (order_by (λ a b. codes_leb a.number b.number)
        (filter (λ r. r.property_id == property_id && not r.deleted) db.rooms))

-- The private `overlaps`: the pending booking with this id shares a night.
unfoldable pub pending_overlap : List Reservation → ℕ → Reservation → Bool
pending_overlap pool id b = elim (select (λ r. r.id == id) pool) [
  | none ↦ false
  | some a ↦ ltb a.check_in b.check_out && ltb b.check_in a.check_out
]

-- A row of the plan: a booking and its room, if one was found.
pub record Placement : Type 0 where
  pub reservation_id : ℕ
  pub room_id : Option ℕ

-- The doors are tried in order; `claimed` are the placements made earlier in the run.
unfoldable pub choose_room :
    Db → ℕ → List Reservation → List (ℕ × ℕ) → Reservation → List Room → Option Room
unfolding pending_overlap
choose_room db property_id pool claimed res [] = none
choose_room db property_id pool claimed res (room ∷ rooms) =
    let rest = choose_room db property_id pool claimed res rooms in
    if any (λ c. (c.1 == room.id) && pending_overlap pool c.0 res) claimed
    then rest
    else elim (assert_room_free db property_id room.id res.check_in res.check_out (some res.id)
        none) [ ok _ ↦ some room | refused _ ↦ rest ]

-- `if (!input.dryRun)` the placement is written.
unfoldable pub place : Bool → Db → ℕ → ℕ → Option ℕ → Db
place true db id room_id actor = db
place false db id room_id actor =
    record_event (set_reservation db id (λ r. record r { room_id = some room_id })) id
      ReservationEventType.room_auto_assigned actor

-- The loop over the pending bookings.
unfoldable pub allocate :
    Bool
    → ℕ
    → List Reservation
    → List Room
    → Option ℕ
    → List (ℕ × ℕ)
    → List Reservation
    → Db
    → Db × List Placement
allocate dry_run property_id pool offerable actor claimed [] db = (db, [])
allocate dry_run property_id pool offerable actor claimed (res ∷ pending) db =
    elim (choose_room db property_id pool claimed res
      (filter (λ r. r.room_type_id == res.room_type_id) offerable)) [
        | none ↦
            let (db', plan) =
              allocate dry_run property_id pool offerable actor claimed pending db in
            (db', record { reservation_id = res.id; room_id = none } ∷ plan)
        | some room ↦
            let (db', plan) =
              allocate dry_run property_id pool offerable actor (claimed ++ (res.id, room.id) ∷ [])
                pending (place dry_run db res.id room.id actor) in
            (db', record { reservation_id = res.id; room_id = some room.id } ∷ plan)
      ]

-- `autoAllocate`: the database and the plan. A dry run writes nothing.
unfoldable pub auto_allocate :
    Db → ℕ → IsoDate → IsoDate → Bool → Option ℕ → Outcome Refusal (Db × List Placement)
auto_allocate db property_id from to dry_run actor = do
  refuse_if (ltb to from) invalid_dates
  let pending = pending_arrivals db property_id from to
  ok (allocate dry_run property_id pending (offerable_rooms db property_id) actor [] pending db)
