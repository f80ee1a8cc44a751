-- ===== src/Reservation/Availability.antt =====
-- src/modules/reservations/reservations.service.ts: resolution of rows and the availability checks
-- that run inside a write's transaction.
use travelo.Base.{
  ℕ, zero, suc, ◌-◌, min, Bool, false, not, ◌&&◌, ◌||◌, List, Option, none, some, any, filter,
  count_of, select, ltb, leb, ◌==◌, holds, Outcome, ok, refuse_if, require, ◌>>◌,
}
use travelo.Schema.{
  IsoDate, Db, Reservation, Room, RoomType, RoomStatus, is_room_status, is_occupying, Refusal,
  reservation_not_found, room_not_found, room_type_not_found, room_unavailable, no_availability,
  restricted,
}
use travelo.Reservation.Rules.{nights_between, add_days}

-- A row of the rates grid for one night (src/modules/rates/rates.service.ts).
pub record DayRules : Type 0 where
  pub date : IsoDate
  pub cap : Option ℕ
  pub min_los : Option ℕ
  pub max_los : Option ℕ
  pub stop_sell : Bool
  pub closed_to_arrival : Bool
  pub closed_to_departure : Bool

-- `occupyingOverlap`, as a test on a row.
unfoldable pub occupying_overlap : IsoDate → IsoDate → Option ℕ → Reservation → Bool
occupying_overlap check_in check_out exclude r =
    not r.deleted
    && is_occupying r.status
    && ltb r.check_in check_out
    && ltb check_in r.check_out
    && not (holds exclude r.id)

-- The condition of `assertRoomFree`'s query.
unfoldable pub occupies_room : ℕ → ℕ → IsoDate → IsoDate → Option ℕ → Option ℕ → Reservation → Bool
unfolding occupying_overlap
occupies_room property_id room_id check_in check_out exclude exclude2 r =
    r.property_id == property_id
    && holds r.room_id room_id
    && occupying_overlap check_in check_out exclude r
    && not (holds exclude2 r.id)

-- `assertRoomFree`
unfoldable pub assert_room_free :
    Db → ℕ → ℕ → IsoDate → IsoDate → Option ℕ → Option ℕ → Outcome Refusal (Unit {0})
assert_room_free db property_id room_id check_in check_out exclude exclude2 =
    refuse_if
      (any (occupies_room property_id room_id check_in check_out exclude exclude2) db.reservations)
      room_unavailable

-- `if (roomId) await assertRoomFree(…)`
unfoldable pub assert_held_room_free :
    Db → ℕ → Option ℕ → IsoDate → IsoDate → Option ℕ → Outcome Refusal (Unit {0})
assert_held_room_free db property_id none check_in check_out exclude = ok tt
assert_held_room_free db property_id (some room_id) check_in check_out exclude =
    assert_room_free db property_id room_id check_in check_out exclude none

unfoldable pub rule_of : List DayRules → IsoDate → Option DayRules
rule_of rules date = select (λ r. r.date == date) rules

-- A length of stay of 0 is falsy: no restriction.
abbrev pub under_minimum : Option ℕ → ℕ → Bool
under_minimum none nights = false
under_minimum (some m) nights = not (m == 0) && ltb nights m

abbrev pub over_maximum : Option ℕ → ℕ → Bool
over_maximum none nights = false
over_maximum (some m) nights = not (m == 0) && ltb m nights

abbrev pub closed_arrival : Option DayRules → ℕ → Bool
closed_arrival none nights = false
closed_arrival (some r) nights =
    r.closed_to_arrival || under_minimum r.min_los nights || over_maximum r.max_los nights

abbrev pub closed_departure : Option DayRules → Bool
closed_departure none = false
closed_departure (some r) = r.closed_to_departure

abbrev pub stopped : Option DayRules → Bool
stopped none = false
stopped (some r) = r.stop_sell

-- The loop over the nights of `[d, d + n)`.
unfoldable pub assert_on_sale : List DayRules → ℕ → IsoDate → Outcome Refusal (Unit {0})
assert_on_sale rules zero d = ok tt
assert_on_sale rules (suc n) d = do
  refuse_if (stopped (rule_of rules d)) (restricted d)
  assert_on_sale rules n (add_days d 1)

-- `assertRules`
unfoldable pub assert_rules : List DayRules → IsoDate → IsoDate → Outcome Refusal (Unit {0})
unfolding assert_on_sale
assert_rules rules check_in check_out = do
  refuse_if (closed_arrival (rule_of rules check_in) (nights_between check_in check_out))
      (restricted check_in)
  refuse_if (closed_departure (rule_of rules check_out)) (restricted check_out)
  assert_on_sale rules (check_out - check_in) check_in

-- Rooms that count towards a type's capacity.
unfoldable pub counts_for_type : ℕ → ℕ → Room → Bool
counts_for_type property_id room_type_id r =
    r.property_id == property_id
    && r.room_type_id == room_type_id
    && not r.deleted
    && not (is_room_status r.status RoomStatus.out_of_order)

-- The committed stays that `assertTypeCapacity` walks.
unfoldable pub overlapping_stays : Db → ℕ → ℕ → IsoDate → IsoDate → Option ℕ → List Reservation
unfolding occupying_overlap
overlapping_stays db property_id room_type_id check_in check_out exclude =
    filter
      (λ r.
        r.property_id == property_id
        && r.room_type_id == room_type_id
        && occupying_overlap check_in check_out exclude r)
      db.reservations

unfoldable pub sold_on : List Reservation → IsoDate → ℕ
sold_on stays night = count_of (λ s. leb s.check_in night && ltb night s.check_out) stays

-- `cap == null ? rooms : Math.min(rooms, cap)`
abbrev capped : ℕ → Option DayRules → ℕ
capped room_count none = room_count
capped room_count (some r) = elim r.cap [ none ↦ room_count | some c ↦ min room_count c ]

unfoldable pub sellable_on : ℕ → Option (List DayRules) → IsoDate → ℕ
sellable_on room_count none night = room_count
sellable_on room_count (some rules) night = capped room_count (rule_of rules night)

-- The walk over the nights of the requested window.
unfoldable pub assert_nights :
    List Reservation → ℕ → Option (List DayRules) → ℕ → IsoDate → Outcome Refusal (Unit {0})
assert_nights stays room_count rules zero night = ok tt
assert_nights stays room_count rules (suc n) night = do
  refuse_if (leb (sellable_on room_count rules night) (sold_on stays night)) (no_availability night)
  assert_nights stays room_count rules n (add_days night 1)

abbrev pub assert_given_rules :
    Option (List DayRules) → IsoDate → IsoDate → Outcome Refusal (Unit {0})
assert_given_rules none check_in check_out = ok tt
assert_given_rules (some rules) check_in check_out = assert_rules rules check_in check_out

-- `assertTypeCapacity`
unfoldable pub assert_type_capacity :
    Db → ℕ → ℕ → IsoDate → IsoDate → Option ℕ → Option (List DayRules) → Outcome Refusal (Unit {0})
assert_type_capacity db property_id room_type_id check_in check_out exclude rules = do
  assert_given_rules rules check_in check_out
  assert_nights (overlapping_stays db property_id room_type_id check_in check_out exclude)
      (count_of (counts_for_type property_id room_type_id) db.rooms) rules
      (nights_between check_in check_out) check_in

unfoldable pub require_reservation : Db → ℕ → ℕ → Outcome Refusal Reservation
require_reservation db property_id id =
    require
      (select (λ r. r.id == id && r.property_id == property_id && not r.deleted) db.reservations)
      reservation_not_found

unfoldable pub require_room_type : Db → ℕ → ℕ → Outcome Refusal RoomType
require_room_type db property_id id =
    require
      (select (λ t. t.id == id && t.property_id == property_id && not t.deleted) db.room_types)
      room_type_not_found

unfoldable pub require_room : Db → ℕ → ℕ → Outcome Refusal Room
require_room db property_id id =
    require (select (λ r. r.id == id && r.property_id == property_id && not r.deleted) db.rooms)
      room_not_found
