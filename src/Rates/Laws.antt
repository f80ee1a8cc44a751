-- ===== src/Rates/Laws.antt =====
-- What the rates grid promises a booking (Rates.antt): a price for each night, and its stop-sells.
use travelo.Rates.Rows.{price_of-date, DayKey, day_of-Sole, one_within, In-window, price_of-day}
use travelo.Base.{
  ℕ, zero, suc, ◌+◌, ◌-◌, ◌≤◌, ◌<◌, ◌≡◌, refl, sym, ap, subst, ◌∙◌, true, false, not, ◌&&◌, List,
  Option, none, some, select, map, ltb, ◌==◌, arith, eq→eqb, ok, refuse_if, refuse_if-eq-ok,
  require, require-eq-ok, select-some, through, committed, Sole, count_of, In,
}
use travelo.Schema.{
  IsoDate, Timestamp, Db, RateDay, RoomType, invalid_window, room_type_not_found, restricted,
}
use travelo.Reservation.Rules.{add_days, assert_date_order, nights_between}
use travelo.Reservation.Availability.{
  DayRules, rule_of, stopped, assert_on_sale, assert_rules, assert_type_capacity,
  assert_held_room_free, require_room_type, closed_arrival, closed_departure,
}
use travelo.Reservation.Booking.{
  CreateReservation, create, check_type_room, quote_unless, nightly_quote, booking_attempt,
  check_booking, requested_status, rules_for,
}
use travelo.Reservation.Safety.Create.{create_attempts-eq-ok}
use travelo.Rates.{
  NightPrice, overrides_in, price_of, nights_from, nightly_prices, assert_window, day_rows, day_of,
  rules_on, day_rules, rates_service,
}

-- Where the rates grid prices a window, and exactly one row of the grid is for the room type,
-- under the plan that is asked for or under none where none is, on a night of the window, and has
-- a price, the answer has exactly one entry for that night, with that price, and the window has
-- at least one and at most 400 nights.
pub nightly_prices-eq-ok :
    (db : Db) (property_id room_type_id : ℕ) (from to night : IsoDate) (rate_plan_id : Option ℕ)
    (row : RateDay) (price : ℕ) {nights : List NightPrice}
    → nightly_prices db property_id room_type_id from to rate_plan_id ≡ ok nights
    → from ≤ night
    → night < to
    → Sole (DayKey property_id room_type_id rate_plan_id night) db.rate_days row
    → row.price_paise ≡ some price
    → (n : NightPrice) × In n nights
      × (n.date ≡ night)
      × (n.price_paise ≡ price)
      × (count_of (λ m. m.date == night) nights ≡ 1)
      × (from < to)
      × (to - from ≤ 400)
unfolding nightly_prices assert_window
nightly_prices-eq-ok db property_id room_type_id from to night rate_plan_id row price h p q only e =
    through (assert_window from to) _ h λ _ w h0.
      through
        (require (select (λ t. t.id == room_type_id && t.property_id == property_id) db.room_types)
          room_type_not_found)
        _ h0
        λ type _ h1. through (refuse_if (not (ltb from to)) invalid_window) _ w λ _ w0 w1.
          let days = day_rows db property_id room_type_id from to rate_plan_id in
          let overrides = overrides_in db property_id room_type_id from to in
          let f = price_of days overrides type.base_rate in
          let dated = price_of-date days overrides type.base_rate in
          let found =
            day_of-Sole db property_id room_type_id from to night rate_plan_id row p q only in
          (
            f night,
            subst (In (f night)) (committed h1)
                (In-window f dated (to - from) from night p (omega arith)),
            dated night,
            price_of-day days overrides type.base_rate night row price found e,
            subst (λ ns. count_of (λ m. m.date == night) ns ≡ 1) (committed h1)
                (one_within f dated (to - from) from night p (omega arith)),
            ground (arith, refuse_if-eq-ok _ _ w0),
            ground (arith, refuse_if-eq-ok _ _ w1),
          )

first_day : (d : ℕ) → d + zero ≡ d
first_day d = omega arith

next_day : (d k : ℕ) → d + suc k ≡ d + 1 + k
next_day d k = omega arith

-- The rules of a day, looked up among those of consecutive days.
rule_of-map :
    (g : IsoDate → DayRules) (n : ℕ) (from : IsoDate) (k : ℕ)
    → ((d : IsoDate) → (g d).date ≡ d)
    → k < n
    → rule_of (map g (nights_from n from)) (from + k) ≡ some (g (from + k))
unfolding rule_of select nights_from add_days
rule_of-map g zero from k dated l = absurd (omega arith)
rule_of-map g (suc n) from zero dated l =
    rw (first_day from) (rw (rule_of, select, eq→eqb (g from).date from (dated from)) refl)
rule_of-map g (suc n) from (suc k) dated l =
    subst (λ (d : ℕ). rule_of (map g (nights_from (suc n) from)) d ≡ some (g d))
      (sym (next_day from k))
      (rw (rule_of, select, differs (g from).date (dated from))
        (rule_of-map g n (from + 1) k dated (omega arith)))
  where
    differs : (x : ℕ) → x ≡ from → (x == (from + 1 + k)) ≡ false
    differs x e = ground arith

on_sale :
    (rules : List DayRules) (n : ℕ) (from : IsoDate) (k : ℕ) {u : Unit {0}}
    → assert_on_sale rules n from ≡ ok u
    → k < n
    → stopped (rule_of rules (from + k)) ≡ false
unfolding assert_on_sale add_days
on_sale rules zero from k h l = absurd (omega arith)
on_sale rules (suc n) from zero h l =
    through (refuse_if (stopped (rule_of rules from)) (restricted from)) _ h
      λ _ e _. rw (first_day from) (refuse_if-eq-ok _ _ e)
on_sale rules (suc n) from (suc k) h l =
    through (refuse_if (stopped (rule_of rules from)) (restricted from)) _ h
      λ _ _ h0. rw (next_day from k) (on_sale rules n (from + 1) k h0 (omega arith))

rules_on-date : (row : Option RateDay) (d : IsoDate) → (rules_on row d).date ≡ d
unfolding rules_on
rules_on-date none d = refl
rules_on-date (some r) d = refl

at_offset : (from night : ℕ) → from ≤ night → from + (night - from) ≡ night
at_offset from night p = omega arith

-- The rules that the service gives for a stay, on one of its nights.
rule_of-day_rules :
    (db : Db) (property_id room_type_id : ℕ) (from to night : IsoDate)
    → from ≤ night
    → night < to
    → rule_of (day_rules db property_id room_type_id from to) night
      ≡ some (rules_on (day_of (day_rows db property_id room_type_id from to none) night) night)
unfolding day_rules
rule_of-day_rules db property_id room_type_id from to night p q =
    let days = day_rows db property_id room_type_id from to none in
    subst
      (λ (d : ℕ).
        rule_of (map (λ x. rules_on (day_of days x) x) (nights_from (to - from) from)) d
        ≡ some (rules_on (day_of days d) d))
      (at_offset from night p)
      (rule_of-map (λ x. rules_on (day_of days x) x) (to - from) from (night - from)
        (λ x. rules_on-date (day_of days x) x) (omega arith))

-- A capacity check under the service's rules that passes found no night of the stay closed.
checked_on_sale :
    (db : Db) (property_id room_type_id : ℕ) (check_in check_out night : IsoDate)
    (exclude : Option ℕ) {row : RateDay} {u : Unit {0}}
    → assert_type_capacity db property_id room_type_id check_in check_out exclude
        (some (day_rules db property_id room_type_id check_in (add_days check_out 1)))
      ≡ ok u
    → check_in ≤ night
    → night < check_out
    → day_of (day_rows db property_id room_type_id check_in (add_days check_out 1) none) night
      ≡ some row
    → row.stop_sell ≡ false
unfolding assert_type_capacity assert_rules add_days rules_on
checked_on_sale db property_id room_type_id check_in check_out night exclude {row} h p q found =
    let rules = day_rules db property_id room_type_id check_in (check_out + 1) in
    through (assert_rules rules check_in check_out) _ h λ _ ruled _.
      through
        (refuse_if (closed_arrival (rule_of rules check_in) (nights_between check_in check_out))
          (restricted check_in))
        _ ruled
        λ _ _ h0.
          through (refuse_if (closed_departure (rule_of rules check_out)) (restricted check_out)) _
            h0
            λ _ _ h1.
              sym (
                ap stopped (
                  rule_of-day_rules db property_id room_type_id check_in (check_out + 1) night p
                    (omega (arith, q))
                  ∙ ap (λ r. some (rules_on r night)) found))
              ∙ subst (λ (d : ℕ). stopped (rule_of rules d) ≡ false) (at_offset check_in night p)
                  (on_sale rules (check_out - check_in) check_in (night - check_in) h1
                    (omega (arith, p, q)))

require_room_type-id :
    (db : Db) (property_id id : ℕ) {type : RoomType}
    → require_room_type db property_id id ≡ ok type
    → type.id ≡ id
unfolding require_room_type
require_room_type-id db property_id id h =
    let found = select-some _ db.room_types (require-eq-ok _ _ h) in ground (arith, found.1)

-- Where `create`, served by the rates grid, accepts a booking as confirmed, and exactly one row
-- of the grid is for its room type, without a rate plan, on a night of the stay, that row has no
-- stop-sell.
pub create-on_sale :
    (db : Db) (property_id : ℕ) (dto : CreateReservation) (actor : Option ℕ) (id : ℕ)
    (now : Timestamp) (night : IsoDate) (row : RateDay) {db' : Db}
    → create db (some (rates_service db)) property_id dto actor id now ≡ ok db'
    → dto.confirmed ≡ some true
    → dto.check_in ≤ night
    → night < dto.check_out
    → Sole (DayKey property_id dto.room_type_id none night) db.rate_days row
    → row.stop_sell ≡ false
unfolding create booking_attempt rules_for rates_service add_days day_rules check_booking
create-on_sale db property_id dto actor id now night row h firm p q only =
    through (assert_date_order dto.check_in dto.check_out) _ h λ _ _ h0.
      through (require_room_type db property_id dto.room_type_id) _ h0 λ type te h1.
        through (check_type_room db property_id dto) _ h1 λ _ _ h2.
          through
            (quote_unless dto.rate_paise (
              nightly_quote db (some (rates_service db)) property_id type.id dto.check_in
                dto.check_out dto.rate_plan_id type.base_rate))
            _ h2
            λ _ _ h3.
              let (n, tried) = create_attempts-eq-ok 4 0 _ h3 in
              let rules =
                some (day_rules db property_id type.id dto.check_in (add_days dto.check_out 1)) in
              through (check_booking db property_id dto (requested_status dto.confirmed) rules) _
                tried
                λ _ checked _.
                  through
                    (assert_held_room_free db property_id dto.room_id dto.check_in dto.check_out
                      none)
                    _ (rw (firm, check_booking) at checked)
                    λ _ _ capacity.
                      let typed : type.id ≡ dto.room_type_id =
                        require_room_type-id db property_id dto.room_type_id te in
                      checked_on_sale db property_id dto.room_type_id dto.check_in dto.check_out
                        night none
                        (subst
                          (λ (t : ℕ).
                            assert_type_capacity db property_id dto.room_type_id dto.check_in
                              dto.check_out none
                              (some (
                                day_rules db property_id t dto.check_in (add_days dto.check_out 1)))
                            ≡ ok tt)
                          typed capacity)
                        p q
                        (day_of-Sole db property_id dto.room_type_id dto.check_in
                          (dto.check_out + 1) night none row p (omega (arith, q)) only)
