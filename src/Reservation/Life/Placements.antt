-- ===== src/Reservation/Life/Placements.antt =====
-- Swapping and allocating rooms leave every status alone.
use travelo.Base.{
  ℕ, ◌≡◌, refl, inl, inr, Bool, true, false, not, ◌||◌, List, [], ◌∷◌, ◌++◌, Option, some, require,
  through, committed, subst, refuse_if, ok, ◌==◌, ltb, filter,
}
use travelo.Schema.{
  IsoDate, Db, Reservation, Room, is_occupying, invalid_dates, dates_locked, room_type_mismatch,
  room_required, room_is_locked, swap_self,
}
use travelo.Reservation.Availability.{require_reservation, assert_room_free}
use travelo.Reservation.Writes.{set_reservation, record_event}
use travelo.Reservation.Swaps.{swap_rooms, choose_room, place, allocate, Placement, auto_allocate}
use travelo.Base.{Option-cases}
use travelo.Reservation.Life.{Steady, Steady-refl, Steady-trans, update_row-Steady}

pub swap_rooms-Steady :
    (db : Db) (property_id id other_id : ℕ) (actor : Option ℕ) {db' : Db}
    → swap_rooms db property_id id other_id actor ≡ ok db'
    → Steady db.reservations db'.reservations
unfolding swap_rooms set_reservation record_event
swap_rooms-Steady db property_id id other_id actor {db'} h =
    through (refuse_if (id == other_id) swap_self) _ h λ _ _ h0.
      through (require_reservation db property_id id) _ h0 λ a _ h1.
        through (require_reservation db property_id other_id) _ h1 λ b _ h2.
          through (require a.room_id room_required) _ h2 λ room_a _ h3.
            through (require b.room_id room_required) _ h3 λ room_b _ h4.
              through (refuse_if (a.room_locked || b.room_locked) room_is_locked) _ h4 λ _ _ h5.
                through (refuse_if (not (a.room_type_id == b.room_type_id)) room_type_mismatch) _ h5
                  λ _ _ h6.
                    through (refuse_if (not (is_occupying a.status)) dates_locked) _ h6 λ _ _ h7.
                      through (refuse_if (not (is_occupying b.status)) dates_locked) _ h7 λ _ _ h8.
                        through
                          (assert_room_free db property_id room_b a.check_in a.check_out (some a.id)
                            (some b.id))
                          _ h8
                          λ _ _ h9.
                            through
                              (assert_room_free db property_id room_a b.check_in b.check_out
                                (some b.id) (some a.id))
                              _ h9
                              λ _ _ h10.
                                subst (λ (d : Db). Steady db.reservations d.reservations)
                                  (committed h10)
                                  (Steady-trans db.reservations _ _
                                    (update_row-Steady a.id
                                      (λ r. record r { room_id = some room_b }) db.reservations
                                      (λ r. refl) (λ r. refl))
                                    (update_row-Steady b.id
                                      (λ r. record r { room_id = some room_a }) _ (λ r. refl)
                                      (λ r. refl)))

place-Steady :
    (dry_run : Bool) (db : Db) (id room_id : ℕ) (actor : Option ℕ)
    → Steady db.reservations (place dry_run db id room_id actor).reservations
unfolding place set_reservation record_event
place-Steady true db id room_id actor = Steady-refl db.reservations
place-Steady false db id room_id actor =
    update_row-Steady id (λ r. record r { room_id = some room_id }) db.reservations (λ r. refl)
      (λ r. refl)

allocate-Steady :
    (dry_run : Bool) (property_id : ℕ) (pool : List Reservation) (offerable : List Room)
    (actor : Option ℕ) (claimed : List (ℕ × ℕ)) (pending : List Reservation) (db : Db)
    → Steady db.reservations
        (allocate dry_run property_id pool offerable actor claimed pending db).0.reservations
unfolding allocate
allocate-Steady dry_run property_id pool offerable actor claimed [] db = Steady-refl db.reservations
allocate-Steady dry_run property_id pool offerable actor claimed (res ∷ pending) db =
    elim (Option-cases (
      choose_room db property_id pool claimed res
        (filter (λ r. r.room_type_id == res.room_type_id) offerable))) [
          | inl e ↦
              rw (e, allocate)
                (allocate-Steady dry_run property_id pool offerable actor claimed pending db)
          | inr c ↦
              let (room, e) = c in
              rw (e, allocate)
                (Steady-trans db.reservations _ _ (place-Steady dry_run db res.id room.id actor) (
                  allocate-Steady dry_run property_id pool offerable actor
                    (claimed ++ (res.id, room.id) ∷ []) pending
                    (place dry_run db res.id room.id actor)))
        ]

pub auto_allocate-Steady :
    (db : Db) (property_id : ℕ) (from to : IsoDate) (dry_run : Bool) (actor : Option ℕ) {db' : Db}
    {plan : List Placement}
    → auto_allocate db property_id from to dry_run actor ≡ ok (db', plan)
    → Steady db.reservations db'.reservations
unfolding auto_allocate
auto_allocate-Steady db property_id from to dry_run actor {db'} h =
    through (refuse_if (ltb to from) invalid_dates) _ h λ _ _ h0.
      subst (λ (t : Db × List Placement). Steady db.reservations t.0.reservations) (committed h0)
        (allocate-Steady dry_run property_id _ _ actor [] _ db)
