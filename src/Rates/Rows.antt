-- ===== src/Rates/Rows.antt =====
-- The rows of the rates grid and the nights of a window (Rates.antt).
use travelo.Base.{
  ℕ, zero, suc, ◌+◌, ◌≤◌, ◌<◌, ◌≡◌, refl, ap, ◌∙◌, true, ◌&&◌, List, Option, none, some, map, ltb,
  ◌==◌, arith, Sole, select-Sole, select-filter, count_of, In, Bool-cases, inl, inr, leb,
}
use travelo.Schema.{IsoDate, Db, RateDay, RateOverride}
use travelo.Reservation.Rules.{add_days}
use travelo.Rates.{NightPrice, of_plan, price_of, nights_from, day_rows, day_of}

pub price_of-date :
    (days : List RateDay) (overrides : List RateOverride) (base_rate : ℕ) (d : IsoDate)
    → (price_of days overrides base_rate d).date ≡ d
unfolding price_of
price_of-date days overrides base_rate d = ground arith

-- The row of the grid for a room type under a rate plan, or under none, on a day.
unfoldable pub DayKey : ℕ → ℕ → Option ℕ → IsoDate → RateDay → Type 0
DayKey property_id room_type_id rate_plan_id date r =
    (r.property_id ≡ property_id)
    × (r.room_type_id ≡ room_type_id)
    × (r.rate_plan_id ≡ rate_plan_id)
    × (r.date ≡ date)

of_plan_same : (plan kept : Option ℕ) → of_plan plan kept ≡ true → kept ≡ plan
of_plan_same none none h = refl
of_plan_same none (some k) h = cc
of_plan_same (some id) none h = cc
of_plan_same (some id) (some k) h = ground arith

of_plan_refl : (plan : Option ℕ) → of_plan plan plan ≡ true
of_plan_refl none = refl
of_plan_refl (some id) = ground arith

kept :
    (property_id room_type_id : ℕ) (from to night : IsoDate) (rate_plan_id : Option ℕ) (r : RateDay)
    → from ≤ night
    → night < to
    → DayKey property_id room_type_id rate_plan_id night r
    → ((r.property_id == property_id
          && r.room_type_id == room_type_id
          && leb from r.date
          && ltb r.date to
          && of_plan rate_plan_id r.rate_plan_id)
        && r.date == night)
      ≡ true
unfolding DayKey
kept property_id room_type_id from to night rate_plan_id r p q (a, b, c, d) =
    rw c (ground (arith, of_plan_refl rate_plan_id, a, b, d))

keyed :
    (property_id room_type_id : ℕ) (from to night : IsoDate) (rate_plan_id : Option ℕ) (r : RateDay)
    → ((r.property_id == property_id
          && r.room_type_id == room_type_id
          && leb from r.date
          && ltb r.date to
          && of_plan rate_plan_id r.rate_plan_id)
        && r.date == night)
      ≡ true
    → DayKey property_id room_type_id rate_plan_id night r
unfolding DayKey
keyed property_id room_type_id from to night rate_plan_id r e = (
  ground arith,
  ground arith,
  of_plan_same rate_plan_id r.rate_plan_id (ground arith),
  ground arith,
)

-- The grid's only row for a day of the window is the one that is looked up.
pub day_of-Sole :
    (db : Db) (property_id room_type_id : ℕ) (from to night : IsoDate) (rate_plan_id : Option ℕ)
    (row : RateDay)
    → from ≤ night
    → night < to
    → Sole (DayKey property_id room_type_id rate_plan_id night) db.rate_days row
    → day_of (day_rows db property_id room_type_id from to rate_plan_id) night ≡ some row
unfolding day_of day_rows
day_of-Sole db property_id room_type_id from to night rate_plan_id row p q only =
    select-filter _ _ db.rate_days
    ∙ select-Sole (DayKey property_id room_type_id rate_plan_id night) _ db.rate_days row
        (λ r k. kept property_id room_type_id from to night rate_plan_id r p q k)
        (λ r e. keyed property_id room_type_id from to night rate_plan_id r e) only

-- What a function of the days makes of a window: one entry for each of its days.
module _ (f : IsoDate → NightPrice) (dated : (d : IsoDate) → (f d).date ≡ d) where
  none_before :
      (n : ℕ) (from night : IsoDate)
      → night < from
      → count_of (λ m. m.date == night) (map f (nights_from n from)) ≡ 0
  unfolding nights_from add_days count_of
  none_before zero from night l = refl
  none_before (suc n) from night l =
      ground (arith, none_before n (from + 1) night (omega arith), dated from)

  pub one_within :
      (n : ℕ) (from night : IsoDate)
      → from ≤ night
      → night < from + n
      → count_of (λ m. m.date == night) (map f (nights_from n from)) ≡ 1
  unfolding nights_from add_days count_of
  one_within zero from night p q = absurd (omega arith)
  one_within (suc n) from night p q = elim (Bool-cases (from == night)) [
    | inl here ↦
        ground (arith, none_before n (from + 1) night (ground (arith, here)), dated from, here)
    | inr later ↦ ground (
      arith,
      one_within n (from + 1) night (ground (arith, later)) (omega arith),
      dated from,
      later,
    )
  ]

  pub In-window :
      (n : ℕ) (from night : IsoDate)
      → from ≤ night
      → night < from + n
      → In (f night) (map f (nights_from n from))
  unfolding nights_from add_days
  In-window zero from night p q = absurd (omega arith)
  In-window (suc n) from night p q = elim (Bool-cases (from == night)) [
    | inl here ↦ inl (ap f (ground (arith, here)))
    | inr later ↦ inr (In-window n (from + 1) night (ground (arith, later)) (omega arith))
  ]

pub price_of-day :
    (days : List RateDay) (overrides : List RateOverride) (base_rate : ℕ) (d : IsoDate)
    (row : RateDay) (price : ℕ)
    → day_of days d ≡ some row
    → row.price_paise ≡ some price
    → (price_of days overrides base_rate d).price_paise ≡ price
unfolding price_of
price_of-day days overrides base_rate d row price found e = rw (found, price_of) (rw e refl)
