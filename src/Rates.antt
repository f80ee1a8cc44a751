-- ===== src/Rates.antt =====
-- src/modules/rates/rates.service.ts: what a booking asks of the rates grid, the price of each night
-- and its restrictions. The grid's own read and the bulk edits are not here.
pub mod Rows
pub mod Laws
use travelo.Base.{
  ℕ, zero, suc, ◌+◌, ◌-◌, ◌≡◌, Bool, true, false, not, ◌&&◌, List, [], ◌∷◌, Option, none, some,
  filter, select, map, ltb, leb, ◌==◌, holds, is_some, or_else, Outcome, ok, refused, refuse_if,
  require, ◌>>=◌, ◌>>◌,
}
use travelo.Schema.{
  IsoDate, Db, RateDay, RateOverride, Refusal, invalid_window, room_type_not_found,
}
use travelo.Reservation.Rules.{add_days}
use travelo.Reservation.Availability.{DayRules}
use travelo.Reservation.Booking.{RatesEngine}
use travelo.Reservation.Swaps.{order_by}

-- `ratePlanId ? eq(…) : isNull(…)`
abbrev pub of_plan : Option ℕ → Option ℕ → Bool
of_plan none plan = not (is_some plan)
of_plan (some id) plan = holds plan id

-- `dayRows`, for one room type.
unfoldable pub day_rows : Db → ℕ → ℕ → IsoDate → IsoDate → Option ℕ → List RateDay
day_rows db property_id room_type_id from to rate_plan_id =
    filter
      (λ r.
        r.property_id == property_id
        && r.room_type_id == room_type_id
        && leb from r.date
        && ltb r.date to
        && of_plan rate_plan_id r.rate_plan_id)
      db.rate_days

-- `assertWindow`
unfoldable pub assert_window : IsoDate → IsoDate → Outcome Refusal (Unit {0})
assert_window from to = do
  refuse_if (not (ltb from to)) invalid_window
  refuse_if (ltb 400 (to - from)) invalid_window

pub data PriceSource : Type 0 where
  day override base : PriceSource

pub record NightPrice : Type 0 where
  pub date : IsoDate
  pub price_paise : ℕ
  pub source : PriceSource

-- The overrides that touch the window, the highest first.
unfoldable pub overrides_in : Db → ℕ → ℕ → IsoDate → IsoDate → List RateOverride
overrides_in db property_id room_type_id from to =
    order_by (λ a b. leb b.rate_paise a.rate_paise)
      (filter
        (λ o.
          o.property_id == property_id
          && o.room_type_id == room_type_id
          && leb o.start_date (to - 1)
          && leb from o.end_date
          && not o.deleted)
        db.rate_overrides)

-- `days.find(…)`
unfoldable pub day_of : List RateDay → IsoDate → Option RateDay
day_of days d = select (λ r. r.date == d) days

abbrev pub day_price : Option RateDay → Option ℕ
day_price none = none
day_price (some r) = r.price_paise

-- One night: the day's price, then an override, then the base rate.
unfoldable pub price_of : List RateDay → List RateOverride → ℕ → IsoDate → NightPrice
price_of days overrides base_rate d = elim (day_price (day_of days d)) [
  | some price ↦ record { date = d; price_paise = price; source = PriceSource.day }
  | none ↦ elim (select (λ o. leb o.start_date d && leb d o.end_date) overrides) [
    | some o ↦ record { date = d; price_paise = o.rate_paise; source = PriceSource.override }
    | none ↦ record { date = d; price_paise = base_rate; source = PriceSource.base }
  ]
]

-- `for (let d = from; d < to; d = addDays(d, 1))`, by the number of nights.
unfoldable pub nights_from : ℕ → IsoDate → List IsoDate
nights_from zero d = []
nights_from (suc n) d = d ∷ nights_from n (add_days d 1)

-- `nightlyPrices`
unfoldable pub nightly_prices :
    Db → ℕ → ℕ → IsoDate → IsoDate → Option ℕ → Outcome Refusal (List NightPrice)
nightly_prices db property_id room_type_id from to rate_plan_id = do
  assert_window from to
  type ←
      require (select (λ t. t.id == room_type_id && t.property_id == property_id) db.room_types)
        room_type_not_found
  ok (
      map
        (price_of (day_rows db property_id room_type_id from to rate_plan_id)
          (overrides_in db property_id room_type_id from to) type.base_rate)
        (nights_from (to - from) from))

-- The rules of a day, open where the grid has no row.
unfoldable pub rules_on : Option RateDay → IsoDate → DayRules
rules_on none d = record {
  date = d;
  cap = none;
  min_los = none;
  max_los = none;
  stop_sell = false;
  closed_to_arrival = false;
  closed_to_departure = false;
}
rules_on (some r) d = record {
  date = d;
  cap = r.available;
  min_los = r.min_los;
  max_los = r.max_los;
  stop_sell = r.stop_sell;
  closed_to_arrival = r.closed_to_arrival;
  closed_to_departure = r.closed_to_departure;
}

-- `dayRules`
unfoldable pub day_rules : Db → ℕ → ℕ → IsoDate → IsoDate → List DayRules
unfolding rules_on nights_from
day_rules db property_id room_type_id from to =
    let days = day_rows db property_id room_type_id from to none in
    map (λ d. rules_on (day_of days d) d) (nights_from (to - from) from)

-- The service as `create` and `update` are given it.
unfoldable pub rates_service : Db → RatesEngine
rates_service db = record {
  nightly_prices = λ property_id room_type_id from to rate_plan_id.
      nightly_prices db property_id room_type_id from to rate_plan_id >>= λ nights.
      ok (map (λ n. n.price_paise) nights);
  day_rules = λ property_id room_type_id from to. day_rules db property_id room_type_id from to;
}
