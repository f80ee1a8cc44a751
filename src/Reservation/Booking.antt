-- ===== src/Reservation/Booking.antt =====
-- src/modules/reservations/reservations.service.ts: making a booking, `create`.
use Prim.Native.String.{String}
use travelo.Base.{
  ℕ, zero, suc, ◌+◌, ◌*◌, ◌/◌, Bool, true, false, not, ◌&&◌, List, [], ◌∷◌, ◌++◌, Option, none,
  some, any, select, sum_of, count_of, length, filter, ltb, leb, ◌==◌, or_else, if◌then◌else◌,
  codes_eq, Outcome, ok, refused, refuse_if, ◌>>=◌, ◌>>◌,
}
use travelo.Base.Int.{pos}
use travelo.Schema.{
  IsoDate, Timestamp, Db, Reservation, ReservationStatus, is_status, RateOverride, PropertySettings,
  ReservationEventType, Refusal, room_type_mismatch, unique_violation,
}
use travelo.Reservation.Rules.{
  nights_between, total_paise, assert_date_order, format_reservation_number, add_days,
}
use travelo.Reservation.Availability.{
  DayRules, assert_held_room_free, assert_type_capacity, require_room_type, require_room,
}
use travelo.Reservation.Writes.{record_event}

-- What a booking asks of the rates service, which Rates.antt fills (src/modules/rates/rates.service.ts).
pub record RatesEngine : Type 0 where
  pub nightly_prices : ℕ → ℕ → IsoDate → IsoDate → Option ℕ → Outcome Refusal (List ℕ)
  pub day_rules : ℕ → ℕ → IsoDate → IsoDate → List DayRules

-- `CreateReservationDto`
pub record CreateReservation : Type 0 where
  pub room_type_id : ℕ
  pub room_id : Option ℕ
  pub details : List (String × String)
  pub company_gstin : Option (List ℕ)
  pub adults : ℕ
  pub children : Option ℕ
  pub check_in : IsoDate
  pub check_out : IsoDate
  -- PENDING or CONFIRMED; `false` is PENDING.
  pub confirmed : Option Bool
  pub rate_paise : Option ℕ
  pub rate_plan_id : Option ℕ
  pub hold_minutes : Option ℕ

-- The highest price among the overrides that cover the date.
highest : Option ℕ → List RateOverride → Option ℕ
highest best [] = best
highest none (o ∷ os) = highest (some o.rate_paise) os
highest (some b) (o ∷ os) = highest (some (if ltb b o.rate_paise then o.rate_paise else b)) os

covers : ℕ → ℕ → IsoDate → RateOverride → Bool
covers property_id room_type_id date o =
    o.property_id == property_id
    && o.room_type_id == room_type_id
    && leb o.start_date date
    && leb date o.end_date
    && not o.deleted

unfoldable pub resolve_rate : Db → ℕ → ℕ → IsoDate → ℕ → ℕ
unfolding highest covers
resolve_rate db property_id room_type_id date fallback =
    or_else (highest none (filter (covers property_id room_type_id date) db.rate_overrides))
      fallback

copies : ℕ → ℕ → List ℕ
copies zero price = []
copies (suc n) price = price ∷ copies n price

-- One price for each night.
unfoldable pub nightly_quote :
    Db → Option RatesEngine → ℕ → ℕ → IsoDate → IsoDate → Option ℕ → ℕ → Outcome Refusal (List ℕ)
unfolding copies
nightly_quote db (some rates) property_id room_type_id check_in check_out rate_plan_id fallback =
    rates.nightly_prices property_id room_type_id check_in check_out rate_plan_id
nightly_quote db none property_id room_type_id check_in check_out rate_plan_id fallback = ok (
    copies (nights_between check_in check_out)
      (resolve_rate db property_id room_type_id check_in fallback))

unfoldable pub rules_for : Option RatesEngine → ℕ → ℕ → IsoDate → IsoDate → Option (List DayRules)
rules_for none property_id room_type_id check_in check_out = none
rules_for (some rates) property_id room_type_id check_in check_out =
    some (rates.day_rules property_id room_type_id check_in (add_days check_out 1))

abbrev minutes_of : Option PropertySettings → ℕ
minutes_of none = 0
minutes_of (some s) = or_else s.hold_expiry_minutes 0

abbrev deadline_after : ℕ → Timestamp → Option Timestamp
deadline_after zero now = none
deadline_after (suc m) now = some (now + suc m * 60000)

unfoldable pub hold_deadline : Db → ℕ → Option ℕ → Timestamp → Option Timestamp
hold_deadline db property_id (some minutes) now = deadline_after minutes now
hold_deadline db property_id none now =
    deadline_after (minutes_of (select (λ s. s.property_id == property_id) db.settings)) now

-- `Math.round(a / b)` of natural numbers, a half rounded up.
unfoldable pub round_div : ℕ → ℕ → ℕ
round_div a b = (2 * a + b) / (2 * b)

-- `dto.ratePaise ? null : quote`: a rate of 0 is falsy, and is quoted.
abbrev pub quote_unless : Option ℕ → Outcome Refusal (List ℕ) → Outcome Refusal (Option (List ℕ))
quote_unless none quote = quote >>= λ q. ok (some q)
quote_unless (some zero) quote = quote >>= λ q. ok (some q)
quote_unless (some (suc r)) quote = ok none

-- `dto.ratePaise ?? (nightly && nightly.length ? Math.round(total / length) : base)`
unfoldable pub booked_rate : Option ℕ → Option (List ℕ) → ℕ → ℕ
unfolding round_div
booked_rate (some rate) nightly base = rate
booked_rate none none base = base
booked_rate none (some []) base = base
booked_rate none (some (n ∷ ns)) base = round_div (sum_of (λ p. p) (n ∷ ns)) (length (n ∷ ns))

-- `quotedTotal ?? totalPaise(ratePaise, checkIn, checkOut)`
unfoldable pub booked_total : Option (List ℕ) → ℕ → IsoDate → IsoDate → ℕ
booked_total none rate check_in check_out = total_paise rate check_in check_out
booked_total (some quote) rate check_in check_out = sum_of (λ p. p) quote

-- `insert(reservations)`, under the table's unique index on (property, number).
unfoldable pub insert_reservation : Db → Reservation → Outcome Refusal Db
insert_reservation db r =
    refuse_if
      (any
        (λ s. s.property_id == r.property_id && codes_eq s.reservation_number r.reservation_number)
        db.reservations)
      unique_violation
    >> ok (record db { reservations = db.reservations ++ r ∷ [] })

abbrev pub check_type_room : Db → ℕ → CreateReservation → Outcome Refusal (Unit {0})
check_type_room db property_id dto = elim dto.room_id [
  | none ↦ ok tt
  | some room_id ↦ require_room db property_id room_id >>= λ room.
      refuse_if (not (room.room_type_id == dto.room_type_id)) room_type_mismatch
]

-- PENDING is a soft hold and skips both checks.
unfoldable pub check_booking :
    Db
    → ℕ
    → CreateReservation
    → ReservationStatus
    → Option (List DayRules)
    → Outcome Refusal (Unit {0})
check_booking db property_id dto status rules =
    elim (is_status status ReservationStatus.confirmed) [
      | false ↦ ok tt
      | true ↦ do
        assert_held_room_free db property_id dto.room_id dto.check_in dto.check_out none
        assert_type_capacity db property_id dto.room_type_id dto.check_in dto.check_out none rules
    ]

-- The row that an attempt inserts.
unfoldable pub new_reservation :
    Db
    → ℕ
    → CreateReservation
    → ReservationStatus
    → ℕ
    → ℕ
    → Option Timestamp
    → ℕ
    → Timestamp
    → ℕ
    → Reservation
new_reservation db property_id dto status rate total hold id now attempt =
    let count = count_of (λ (r : Reservation). r.property_id == property_id) db.reservations in
    record {
      id = id;
      property_id = property_id;
      room_type_id = dto.room_type_id;
      room_id = dto.room_id;
      reservation_number = format_reservation_number (count + 1 + attempt);
      details = dto.details;
      company_gstin = dto.company_gstin;
      adults = dto.adults;
      children = or_else dto.children 0;
      check_in = dto.check_in;
      check_out = dto.check_out;
      status = status;
      rate_paise = rate;
      total_paise = total;
      paid_paise = pos 0;
      rate_plan_id = dto.rate_plan_id;
      hold_expires_at = hold;
      room_locked = false;
      checked_in_at = none;
      checked_out_at = none;
      cancelled_at = none;
      created_at = now;
      deleted = false;
    }

abbrev pub requested_status : Option Bool → ReservationStatus
requested_status (some true) = ReservationStatus.confirmed
requested_status _ = ReservationStatus.pending

-- Only a number that is taken is retried.
unfoldable pub retry_taken : Outcome Refusal Db → Outcome Refusal Db → Outcome Refusal Db
retry_taken (refused unique_violation) again = again
retry_taken o again = o

-- The attempts that are left, after `attempt` of them.
unfoldable pub create_attempts : ℕ → ℕ → (ℕ → Outcome Refusal Db) → Outcome Refusal Db
create_attempts zero attempt try = try attempt
create_attempts (suc left) attempt try =
    let again = create_attempts left (attempt + 1) try in retry_taken (try attempt) again

-- The transaction of one attempt.
unfoldable pub booking_attempt :
    Db
    → ℕ
    → CreateReservation
    → ReservationStatus
    → ℕ
    → ℕ
    → Option Timestamp
    → Option (List DayRules)
    → Option ℕ
    → ℕ
    → Timestamp
    → ℕ
    → Outcome Refusal Db
booking_attempt db property_id dto status rate total hold rules actor id now attempt = do
  check_booking db property_id dto status rules
  inserted ←
      insert_reservation db
        (new_reservation db property_id dto status rate total hold id now attempt)
  ok (record_event inserted id ReservationEventType.created actor)

-- `create`. `id` is the key that the database generates for the new row.
unfoldable pub create :
    Db → Option RatesEngine → ℕ → CreateReservation → Option ℕ → ℕ → Timestamp → Outcome Refusal Db
create db rates property_id dto actor id now = do
  assert_date_order dto.check_in dto.check_out
  type ← require_room_type db property_id dto.room_type_id
  check_type_room db property_id dto
  nightly ← quote_unless dto.rate_paise (
      nightly_quote db rates property_id type.id dto.check_in dto.check_out dto.rate_plan_id
        type.base_rate)
  let rate = booked_rate dto.rate_paise nightly type.base_rate
  let total = booked_total nightly rate dto.check_in dto.check_out
  let status = requested_status dto.confirmed
  let hold =
      if is_status status ReservationStatus.pending
      then hold_deadline db property_id dto.hold_minutes now
      else none
  let rules = rules_for rates property_id type.id dto.check_in dto.check_out
  create_attempts 4 0 (λ attempt.
      booking_attempt db property_id dto status rate total hold rules actor id now attempt)
