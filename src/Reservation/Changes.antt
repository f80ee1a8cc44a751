-- ===== src/Reservation/Changes.antt =====
-- src/modules/reservations/reservations.service.ts: changes to a booking before arrival, `update`,
-- `confirm`, `assignRoom`, `lockRoom`, `cancel` and `noShow`.
use Prim.Native.String.{String}
use text.Mathlib.Text.{◌==◌ as str_eq}
use travelo.Base.{
  ℕ, Bool, true, false, not, ◌&&◌, ◌||◌, List, [], ◌∷◌, Option, none, some, leb, ◌==◌, is_some,
  or_else, if◌then◌else◌, Outcome, ok, refuse_if, ◌>>=◌, ◌>>◌,
}
use travelo.Schema.{
  IsoDate, Timestamp, Db, Reservation, ReservationStatus, is_status, ReservationEventType, Refusal,
  room_type_mismatch, dates_locked, nothing_to_update, room_required, not_arrival_day,
  invalid_transition,
}
use travelo.Reservation.Rules.{total_paise, assert_date_order, assert_transition}
use travelo.Reservation.Availability.{
  DayRules, assert_room_free, assert_held_room_free, assert_type_capacity, require_reservation,
  require_room,
}
use travelo.Reservation.Booking.{RatesEngine, rules_for}
use travelo.Reservation.Writes.{set_reservation, record_event}

-- `UpdateReservationDto`; `details` holds the descriptive columns that are given.
pub record UpdateReservation : Type 0 where
  pub details : List (String × String)
  pub company_gstin : Option (List ℕ)
  pub adults : Option ℕ
  pub children : Option ℕ
  pub check_in : Option IsoDate
  pub check_out : Option IsoDate
  pub rate_paise : Option ℕ
  pub rate_plan_id : Option ℕ

put : String → String → List (String × String) → List (String × String)
put k v [] = (k, v) ∷ []
put k v ((j, w) ∷ m) = if str_eq j k then (k, v) ∷ m else (j, w) ∷ put k v m

-- Each given column overwrites the stored one.
unfoldable pub put_all : List (String × String) → List (String × String) → List (String × String)
unfolding put
put_all [] m = m
put_all ((k, v) ∷ given) m = put_all given (put k v m)

abbrev is_given : List (String × String) → Bool
is_given [] = false
is_given (_ ∷ _) = true

-- `Object.keys(patch).length === 1`: nothing beside `updatedAt`.
unfoldable pub is_empty_update : UpdateReservation → Bool
is_empty_update dto = not (
    is_given dto.details
    || is_some dto.company_gstin
    || is_some dto.adults
    || is_some dto.children
    || is_some dto.check_in
    || is_some dto.check_out
    || is_some dto.rate_paise
    || is_some dto.rate_plan_id)

abbrev keep_some {ℓ} : {A : Type ℓ} → Option A → Option A → Option A
keep_some none old = old
keep_some (some a) old = some a

-- The row with the patch applied; `total` is given where rate or dates are.
unfoldable pub patched : UpdateReservation → Option ℕ → Reservation → Reservation
patched dto total r = record r {
  details = put_all dto.details r.details;
  company_gstin = keep_some dto.company_gstin r.company_gstin;
  adults = or_else dto.adults r.adults;
  children = or_else dto.children r.children;
  check_in = or_else dto.check_in r.check_in;
  check_out = or_else dto.check_out r.check_out;
  rate_paise = or_else dto.rate_paise r.rate_paise;
  total_paise = or_else total r.total_paise;
  rate_plan_id = keep_some dto.rate_plan_id r.rate_plan_id;
}

abbrev is_open_booking : ReservationStatus → Bool
is_open_booking s = is_status s ReservationStatus.pending || is_status s ReservationStatus.confirmed

abbrev pub moving_dates : UpdateReservation → Bool
moving_dates dto = is_some dto.check_in || is_some dto.check_out

abbrev pub assert_date_order_if : Bool → IsoDate → IsoDate → Outcome Refusal (Unit {0})
assert_date_order_if true check_in check_out = assert_date_order check_in check_out
assert_date_order_if false check_in check_out = ok tt

abbrev pub new_total : UpdateReservation → Reservation → Option ℕ
new_total dto r =
    if is_some dto.rate_paise || moving_dates dto
    then some (
        total_paise (or_else dto.rate_paise r.rate_paise) (or_else dto.check_in r.check_in)
          (or_else dto.check_out r.check_out))
    else none

-- Moving a committed booking runs the confirm's checks again, itself excluded.
unfoldable pub check_move :
    Bool
    → Db
    → ℕ
    → ℕ
    → Reservation
    → IsoDate
    → IsoDate
    → Option (List DayRules)
    → Outcome Refusal (Unit {0})
check_move false db property_id id before check_in check_out rules = ok tt
check_move true db property_id id before check_in check_out rules = do
  assert_held_room_free db property_id before.room_id check_in check_out (some id)
  assert_type_capacity db property_id before.room_type_id check_in check_out (some id) rules

-- `update`
unfoldable pub update :
    Db → Option RatesEngine → ℕ → ℕ → UpdateReservation → Option ℕ → Outcome Refusal Db
update db rates property_id id dto actor = do
  before ← require_reservation db property_id id
  refuse_if (moving_dates dto && not (is_open_booking before.status)) dates_locked
  let check_in = or_else dto.check_in before.check_in
  let check_out = or_else dto.check_out before.check_out
  assert_date_order_if (moving_dates dto) check_in check_out
  refuse_if (is_empty_update dto) nothing_to_update
  check_move (moving_dates dto && is_status before.status ReservationStatus.confirmed) db
      property_id id before check_in check_out
      (rules_for rates property_id before.room_type_id check_in check_out)
  ok (
      record_event (set_reservation db id (patched dto (new_total dto before))) id
        ReservationEventType.updated actor)

-- `confirm`
unfoldable pub confirm : Db → ℕ → ℕ → Option ℕ → Outcome Refusal Db
confirm db property_id id actor = do
  before ← require_reservation db property_id id
  assert_transition before.status ReservationStatus.confirmed
  assert_held_room_free db property_id before.room_id before.check_in before.check_out (some id)
  assert_type_capacity db property_id before.room_type_id before.check_in before.check_out (some id)
      none
  ok (
      record_event (set_reservation db id (λ r. record r { status = ReservationStatus.confirmed }))
        id ReservationEventType.confirmed actor)

-- `assignRoom`
unfoldable pub assign_room : Db → ℕ → ℕ → ℕ → Option ℕ → Outcome Refusal Db
assign_room db property_id id room_id actor = do
  before ← require_reservation db property_id id
  refuse_if (not (is_open_booking before.status)) invalid_transition
  room ← require_room db property_id room_id
  refuse_if (not (room.room_type_id == before.room_type_id)) room_type_mismatch
  assert_room_free db property_id room_id before.check_in before.check_out (some id) none
  ok (
      record_event (set_reservation db id (λ r. record r { room_id = some room_id })) id
        ReservationEventType.room_assigned actor)

abbrev lock_event : Bool → ReservationEventType
lock_event true = ReservationEventType.room_locked
lock_event false = ReservationEventType.room_unlocked

-- `lockRoom`
unfoldable pub lock_room : Db → ℕ → ℕ → Bool → Option ℕ → Outcome Refusal Db
lock_room db property_id id locked actor = do
  before ← require_reservation db property_id id
  refuse_if (locked && not (is_some before.room_id)) room_required
  ok (
      record_event (set_reservation db id (λ r. record r { room_locked = locked })) id
        (lock_event locked) actor)

-- `cancel`
unfoldable pub cancel : Db → ℕ → ℕ → Option ℕ → Timestamp → Outcome Refusal Db
cancel db property_id id actor now = do
  before ← require_reservation db property_id id
  assert_transition before.status ReservationStatus.cancelled
  ok (
      record_event
        (set_reservation db id
          (λ r. record r { status = ReservationStatus.cancelled; cancelled_at = some now }))
        id ReservationEventType.cancelled actor)

-- `noShow`; `today` is the day of `now`.
unfoldable pub no_show : Db → ℕ → ℕ → Option ℕ → IsoDate → Outcome Refusal Db
no_show db property_id id actor today = do
  before ← require_reservation db property_id id
  assert_transition before.status ReservationStatus.no_show
  refuse_if (leb today before.check_in) not_arrival_day
  ok (
      record_event (set_reservation db id (λ r. record r { status = ReservationStatus.no_show })) id
        ReservationEventType.no_show actor)
