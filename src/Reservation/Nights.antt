-- ===== src/Reservation/Nights.antt =====
-- The calendar rules of a stay and its life cycle (Reservation/Rules.antt), and the nightly capacity
-- check (Reservation/Availability.antt).
use travelo.Base.{
  ℕ, zero, suc, ◌+◌, ◌-◌, ◌%◌, ◌≤◌, ◌<◌, max, ◌≡◌, sym, ap, subst, ◌∙◌, ◌↔◌, true, List, Option,
  any, value_from, value_from-pad_start, pad_start, decimal, leb, count_of, ok, through, refuse_if,
  refuse_if-eq-ok, arith, Bool, not, ◌&&◌, ◌||◌, refl, none, some, select, ltb, ◌==◌, holds,
  count_of-filter, count_of-same,
}
use travelo.Schema.{
  IsoDate, Db, Reservation, ReservationStatus, no_availability, is_status, is_occupying,
  is_room_status, RoomStatus, Room,
}
use travelo.Reservation.Rules.{
  Stay, overlaps, covers_date, can_transition, transitions, nights_between, add_days,
  format_reservation_number,
}
use travelo.Reservation.Availability.{
  DayRules, sold_on, sellable_on, assert_nights, assert_type_capacity, assert_given_rules,
  overlapping_stays, counts_for_type, occupying_overlap, rule_of,
}

-- The last day on which both stays have begun.
shared_night : Stay → Stay → IsoDate
shared_night a b = max a.check_in b.check_in

-- Two stays of at least one night each overlap exactly where some night is covered by both.
pub overlaps-covers_date :
    (a b : Stay)
    → a.check_in < a.check_out
    → b.check_in < b.check_out
    → (overlaps a b ≡ true)
      ↔ ((night : IsoDate) × (covers_date a night ≡ true) × (covers_date b night ≡ true))
unfolding overlaps covers_date shared_night
overlaps-covers_date a b p q = (
  (λ h. (shared_night a b, ground arith, ground arith)),
  (λ w. let (night, f, g) = w in ground arith),
)

-- How far a booking is in its life.
unfoldable pub stage : ReservationStatus → ℕ
stage ReservationStatus.pending = 0
stage ReservationStatus.confirmed = 1
stage ReservationStatus.checked_in = 2
stage ReservationStatus.checked_out = 3
stage ReservationStatus.cancelled = 3
stage ReservationStatus.no_show = 3

-- Every allowed change of a booking's status goes to a later stage, of which there are four, so
-- no booking returns to an earlier status.
pub can_transition-stage :
    (from to : ReservationStatus) → can_transition from to ≡ true → stage from < stage to
unfolding can_transition transitions any stage
can_transition-stage from to h = forward from to h
  where
    forward : (from to : ReservationStatus) → can_transition from to ≡ true → stage from < stage to
    forward from to h = ground arith

first_night : (night : ℕ) → night ≡ night + 0
first_night night = omega arith

next_night : (night k : ℕ) → night + 1 + k ≡ night + suc k
next_night night k = omega arith

-- The walk over the nights that passes has found each of them short of what may be sold.
pub assert_nights-eq-ok :
    (stays : List Reservation) (room_count : ℕ) (rules : Option (List DayRules)) (n : ℕ)
    (night : IsoDate) (k : ℕ) {u : Unit {0}}
    → assert_nights stays room_count rules n night ≡ ok u
    → k < n
    → sold_on stays (night + k) < sellable_on room_count rules (night + k)
unfolding assert_nights add_days
assert_nights-eq-ok stays room_count rules zero night k h l = absurd (omega arith)
assert_nights-eq-ok stays room_count rules (suc n) night zero h l =
    through
      (refuse_if (leb (sellable_on room_count rules night) (sold_on stays night))
        (no_availability night))
      _ h
      λ _ e _.
        subst (λ (d : ℕ). sold_on stays d < sellable_on room_count rules d) (first_night night)
          (ground (arith, refuse_if-eq-ok _ _ e))
assert_nights-eq-ok stays room_count rules (suc n) night (suc k) h l =
    through
      (refuse_if (leb (sellable_on room_count rules night) (sold_on stays night))
        (no_availability night))
      _ h
      λ _ _ h0.
        subst (λ (d : ℕ). sold_on stays d < sellable_on room_count rules d) (next_night night k)
          (assert_nights-eq-ok stays room_count rules n (night + 1) k h0 (omega arith))

-- A live, confirmed or checked-in stay of the room type that sleeps in the house on a night, but not
-- the excluded one.
unfoldable pub sleeps : ℕ → ℕ → Option ℕ → IsoDate → Reservation → Bool
sleeps property_id room_type_id exclude night r =
    r.property_id == property_id
    && r.room_type_id == room_type_id
    && not r.deleted
    && (is_status r.status ReservationStatus.confirmed
        || is_status r.status ReservationStatus.checked_in)
    && leb r.check_in night
    && ltb night r.check_out
    && not (holds exclude r.id)

-- A room of the type that is neither deleted nor out of order.
unfoldable pub in_service : ℕ → ℕ → Room → Bool
in_service property_id room_type_id r =
    r.property_id == property_id
    && r.room_type_id == room_type_id
    && not r.deleted
    && not (is_room_status r.status RoomStatus.out_of_order)

-- The first rule of a night, where there is one and it has a cap, leaves room above a number.
unfoldable pub below_cap : ℕ → Option (List DayRules) → IsoDate → Bool
below_cap sold none night = true
below_cap sold (some rules) night = elim (select (λ r. r.date == night) rules) [
  | none ↦ true
  | some r ↦ elim r.cap [ none ↦ true | some c ↦ ltb sold c ]
]

occupying :
    (s : ReservationStatus)
    → is_occupying s
      ≡ (is_status s ReservationStatus.confirmed || is_status s ReservationStatus.checked_in)
occupying s = ground arith

sleeps-overlap :
    (property_id room_type_id : ℕ) (check_in check_out : IsoDate) (exclude : Option ℕ)
    (night : IsoDate) (r : Reservation)
    → check_in ≤ night
    → night < check_out
    → ((r.property_id == property_id
          && r.room_type_id == room_type_id
          && occupying_overlap check_in check_out exclude r)
        && (leb r.check_in night && ltb night r.check_out))
      ≡ sleeps property_id room_type_id exclude night r
unfolding occupying_overlap sleeps
sleeps-overlap property_id room_type_id check_in check_out exclude night r p q =
    rw (occupying r.status) (ground arith)

sold_on-sleeps :
    (db : Db) (property_id room_type_id : ℕ) (check_in check_out : IsoDate) (exclude : Option ℕ)
    (night : IsoDate)
    → check_in ≤ night
    → night < check_out
    → sold_on (overlapping_stays db property_id room_type_id check_in check_out exclude) night
      ≡ count_of (sleeps property_id room_type_id exclude night) db.reservations
unfolding sold_on overlapping_stays
sold_on-sleeps db property_id room_type_id check_in check_out exclude night p q =
    count_of-filter _ _ db.reservations
    ∙ count_of-same _ _ db.reservations
        (λ r. sleeps-overlap property_id room_type_id check_in check_out exclude night r p q)

short_of :
    (room_count : ℕ) (rules : Option (List DayRules)) (night : IsoDate) (sold : ℕ)
    → sold < sellable_on room_count rules night
    → (sold < room_count) × (below_cap sold rules night ≡ true)
unfolding sellable_on rule_of below_cap
short_of room_count none night sold h = (h, refl)
short_of room_count (some rules) night sold h = ground (arith, h)

-- Where the capacity check of a stay passes, on every night from check-in to the one before
-- check-out the live confirmed and checked-in stays of the room type that sleep in the house, the
-- excluded one aside, are fewer than its rooms that are not out of order, and than the night's
-- cap where the rules that are given have one.
pub assert_type_capacity-eq-ok :
    (db : Db) (property_id room_type_id : ℕ) (check_in check_out : IsoDate) (exclude : Option ℕ)
    (rules : Option (List DayRules)) (night : IsoDate) {u : Unit {0}}
    → assert_type_capacity db property_id room_type_id check_in check_out exclude rules ≡ ok u
    → check_in ≤ night
    → night < check_out
    → (count_of (sleeps property_id room_type_id exclude night) db.reservations
        < count_of (in_service property_id room_type_id) db.rooms)
      × (below_cap
            (count_of (sleeps property_id room_type_id exclude night) db.reservations)
            rules
            night
          ≡ true)
unfolding assert_type_capacity nights_between counts_for_type in_service
assert_type_capacity-eq-ok db property_id room_type_id check_in check_out exclude rules night h p
      q =
    let stays = overlapping_stays db property_id room_type_id check_in check_out exclude in
    let rooms = count_of (counts_for_type property_id room_type_id) db.rooms in
    through (assert_given_rules rules check_in check_out) _ h λ _ _ h0.
      subst (λ sold. (sold < rooms) × (below_cap sold rules night ≡ true))
        (sold_on-sleeps db property_id room_type_id check_in check_out exclude night p q)
        (short_of rooms rules night (sold_on stays night) (
          subst (λ (d : ℕ). sold_on stays d < sellable_on rooms rules d) (omega arith)
            (assert_nights-eq-ok stays _ rules _ check_in (night - check_in) h0 (omega arith))))

digits_of :
    (sequence other : ℕ)
    → format_reservation_number sequence ≡ format_reservation_number other
    → pad_start 6 (decimal (sequence % 1000000)) ≡ pad_start 6 (decimal (other % 1000000))
unfolding format_reservation_number
digits_of sequence other h = cc

-- Two sequence numbers with the same formatted reservation number have the same last six digits.
pub format_reservation_number-injective :
    (sequence other : ℕ)
    → format_reservation_number sequence ≡ format_reservation_number other
    → sequence % 1000000 ≡ other % 1000000
format_reservation_number-injective sequence other h =
    sym (value_from-pad_start 6 (sequence % 1000000))
    ∙ (ap (value_from 0) (digits_of sequence other h) ∙ value_from-pad_start 6 (other % 1000000))
