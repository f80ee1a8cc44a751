-- ===== src/Reservation/Safety/Allocate.antt =====
-- No double booking: automatic room allocation (Reservation/Swaps.antt).
use travelo.Base.{
  ℕ, ◌≡◌, refl, sym, ap, ◌∙◌, ◌⊎◌, inl, inr, Bool, true, false, List, [], ◌∷◌, ◌++◌, Option, none,
  some, In, In-update_row_other, In-update_row_self, through, committed, subst, refuse_if,
  Bool-cases, Option-cases, ok, arith, ◌==◌, ltb, filter, filter-In,
}
use travelo.Schema.{IsoDate, Db, Reservation, Room, invalid_dates}
use native.Mathlib.Decide.{ℕ_discrete}
use travelo.Reservation.Availability.{assert_room_free}
use travelo.Reservation.Writes.{set_reservation, record_event}
use travelo.Reservation.Swaps.{
  insert_by, order_by, pending_arrivals, offerable_rooms, choose_room, place, allocate, Placement,
  auto_allocate,
}
use travelo.Reservation.Clash.{
  NoDoubleBooking, replace-NoDoubleBooking, room_free-clash, holds_of_ne,
}

insert_by-In :
    {A : Type 0} (leq : A → A → Bool) (a x : A) (xs : List A)
    → In x (insert_by leq a xs)
    → (x ≡ a) ⊎ In x xs
unfolding insert_by
insert_by-In leq a x [] (inl e) = inl e
insert_by-In leq a x [] (inr m) = inr m
insert_by-In leq a x (y ∷ ys) m = elim (Bool-cases (leq a y)) [
  | inl t ↦ rw t at m
  | inr t ↦ elim (rw t at m) [
    | inl e ↦ inr (inl e)
    | inr n ↦ elim (insert_by-In leq a x ys n) [ inl e ↦ inl e | inr o ↦ inr (inr o) ]
  ]
]

order_by-In :
    {A : Type 0} (leq : A → A → Bool) (x : A) (xs : List A) → In x (order_by leq xs) → In x xs
unfolding order_by
order_by-In leq x [] m = m
order_by-In leq x (y ∷ ys) m = elim (insert_by-In leq y x (order_by leq ys) m) [
  | inl e ↦ inl e
  | inr n ↦ inr (order_by-In leq x ys n)
]

-- The table still holds the pending booking, under the property and with its dates.
Tracks : List Reservation → ℕ → Reservation → Type 0
Tracks rs property_id res =
    (now : Reservation) × In now rs
    × (now.id ≡ res.id)
    × (now.property_id ≡ property_id)
    × (now.check_in ≡ res.check_in)
    × (now.check_out ≡ res.check_out)

-- A room that is chosen was found free.
choose_room-free :
    (db : Db) (property_id : ℕ) (pool : List Reservation) (claimed : List (ℕ × ℕ))
    (res : Reservation) (offered : List Room) {room : Room}
    → choose_room db property_id pool claimed res offered ≡ some room
    → assert_room_free db property_id room.id res.check_in res.check_out (some res.id) none ≡ ok tt
unfolding choose_room
choose_room-free db property_id pool claimed res [] h = cc
choose_room-free db property_id pool claimed res (r ∷ offered) {room} h =
    ground (arith, choose_room-free db property_id pool claimed res offered {room = room})

-- A placement, written or not, keeps the invariant.
place-NoDoubleBooking :
    (dry_run : Bool) (db : Db) (property_id : ℕ) (res : Reservation) (room_id : ℕ)
    (actor : Option ℕ)
    → NoDoubleBooking db.reservations
    → Tracks db.reservations property_id res
    → assert_room_free db property_id room_id res.check_in res.check_out (some res.id) none ≡ ok tt
    → NoDoubleBooking (place dry_run db res.id room_id actor).reservations
unfolding place set_reservation record_event Tracks
place-NoDoubleBooking true db property_id res room_id actor v t free = v
place-NoDoubleBooking false db property_id res room_id actor v (now, m, e, p, ci, co) free =
    replace-NoDoubleBooking db.reservations res.id (λ r. record r { room_id = some room_id }) now v
      m e e
      (λ s i n.
        room_free-clash db property_id room_id res.check_in res.check_out (some res.id) none _ s
          free i (holds_of_ne res.id s.id (λ k. n (k ∙ sym e))) refl p refl ci co)

-- And keeps track of every pending booking.
place-Tracks :
    (dry_run : Bool) (db : Db) (property_id id room_id : ℕ) (actor : Option ℕ) (res : Reservation)
    → Tracks db.reservations property_id res
    → Tracks (place dry_run db id room_id actor).reservations property_id res
unfolding place set_reservation record_event Tracks
place-Tracks true db property_id id room_id actor res t = t
place-Tracks false db property_id id room_id actor res (now, m, e, p, ci, co) =
    elim (ℕ_discrete now.id id) [
      | yes k ↦ (
        record now { room_id = some room_id },
        In-update_row_self (λ r. r.id) id (λ (r : Reservation). record r { room_id = some room_id })
            now db.reservations k m,
        e,
        p,
        ci,
        co,
      )
      | no k ↦ (now, In-update_row_other (λ r. r.id) id _ now db.reservations k m, e, p, ci, co)
    ]

allocate-NoDoubleBooking :
    (dry_run : Bool) (property_id : ℕ) (pool : List Reservation) (offerable : List Room)
    (actor : Option ℕ) (claimed : List (ℕ × ℕ)) (pending : List Reservation) (db : Db)
    → NoDoubleBooking db.reservations
    → ((res : Reservation) → In res pending → Tracks db.reservations property_id res)
    → NoDoubleBooking
        (allocate dry_run property_id pool offerable actor claimed pending db).0.reservations
unfolding allocate
allocate-NoDoubleBooking dry_run property_id pool offerable actor claimed [] db v t = v
allocate-NoDoubleBooking dry_run property_id pool offerable actor claimed (res ∷ pending) db v t =
    elim (Option-cases (
      choose_room db property_id pool claimed res
        (filter (λ r. r.room_type_id == res.room_type_id) offerable))) [
          | inl e ↦
              rw (e, allocate)
                (allocate-NoDoubleBooking dry_run property_id pool offerable actor claimed pending
                  db v (λ r m. t r (inr m)))
          | inr c ↦
              let (room, e) = c in
              rw (e, allocate)
                (allocate-NoDoubleBooking dry_run property_id pool offerable actor
                  (claimed ++ (res.id, room.id) ∷ []) pending
                  (place dry_run db res.id room.id actor)
                  (place-NoDoubleBooking dry_run db property_id res room.id actor v
                    (t res (inl refl)) (choose_room-free db property_id pool claimed res _ e))
                  (λ r m. place-Tracks dry_run db property_id res.id room.id actor r (t r (inr m))))
        ]

-- Every pending arrival is a row of the table.
pending_arrivals-Tracks :
    (db : Db) (property_id : ℕ) (from to : IsoDate) (res : Reservation)
    → In res (pending_arrivals db property_id from to)
    → Tracks db.reservations property_id res
unfolding pending_arrivals Tracks
pending_arrivals-Tracks db property_id from to res m =
    let found = filter-In _ res db.reservations (order_by-In _ res _ m) in
    (res, found.0, refl, ground (arith, found.1), refl, refl)

-- From a table with unique ids and no room held twice on a night, an `autoAllocate` that succeeds
-- leads to such a table, dry run or not, whatever number of bookings it places.
pub auto_allocate-NoDoubleBooking :
    (db : Db) (property_id : ℕ) (from to : IsoDate) (dry_run : Bool) (actor : Option ℕ) {db' : Db}
    {plan : List Placement}
    → NoDoubleBooking db.reservations
    → auto_allocate db property_id from to dry_run actor ≡ ok (db', plan)
    → NoDoubleBooking db'.reservations
unfolding auto_allocate
auto_allocate-NoDoubleBooking db property_id from to dry_run actor {db'} v h =
    through (refuse_if (ltb to from) invalid_dates) _ h λ _ _ h0.
      subst NoDoubleBooking (ap (λ (d : Db × List Placement). d.0.reservations) (committed h0)) (
        allocate-NoDoubleBooking dry_run property_id (pending_arrivals db property_id from to)
          (offerable_rooms db property_id) actor [] (pending_arrivals db property_id from to) db v
          (pending_arrivals-Tracks db property_id from to))
