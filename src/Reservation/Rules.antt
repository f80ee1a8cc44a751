-- ===== src/Reservation/Rules.antt =====
-- src/modules/reservations/reservation-rules.ts: stay dates and the one transition map. A date is
-- the number of its day, so a string comparison of `YYYY-MM-DD` is a comparison of numbers.
use travelo.Base.{
  ℕ, ◌+◌, ◌-◌, ◌*◌, ◌%◌, max, Bool, true, false, ◌&&◌, List, [], ◌∷◌, ◌++◌, any, ltb, leb, Outcome,
  ok, refused, refuse_if, decimal, pad_start, codes,
}
use travelo.Schema.{
  IsoDate, ReservationStatus, is_status, Refusal, RoomStatus, invalid_dates, invalid_transition,
}

unfoldable pub add_days : IsoDate → ℕ → IsoDate
add_days date days = date + days

-- `Math.max(1, …)`: a same-day stay counts as one night.
unfoldable pub nights_between : IsoDate → IsoDate → ℕ
nights_between check_in check_out = max 1 (check_out - check_in)

pub record Stay : Type 0 where
  pub check_in : IsoDate
  pub check_out : IsoDate

unfoldable pub overlaps : Stay → Stay → Bool
overlaps a b = ltb a.check_in b.check_out && ltb b.check_in a.check_out

unfoldable pub covers_date : Stay → IsoDate → Bool
covers_date stay date = leb stay.check_in date && ltb date stay.check_out

unfoldable pub total_paise : ℕ → IsoDate → IsoDate → ℕ
total_paise rate_paise check_in check_out = rate_paise * nights_between check_in check_out

unfoldable pub assert_date_order : IsoDate → IsoDate → Outcome Refusal (Unit {0})
assert_date_order check_in check_out = refuse_if (leb check_out check_in) invalid_dates

-- `RESERVATION_TRANSITIONS`
unfoldable pub transitions : ReservationStatus → List ReservationStatus
transitions ReservationStatus.pending =
    ReservationStatus.confirmed ∷ ReservationStatus.cancelled ∷ []
transitions ReservationStatus.confirmed =
    ReservationStatus.checked_in ∷ ReservationStatus.cancelled ∷ ReservationStatus.no_show ∷ []
transitions ReservationStatus.checked_in = ReservationStatus.checked_out ∷ []
transitions ReservationStatus.checked_out = []
transitions ReservationStatus.cancelled = []
transitions ReservationStatus.no_show = []

unfoldable pub can_transition : ReservationStatus → ReservationStatus → Bool
unfolding transitions any
can_transition from to = any (is_status to) (transitions from)

unfoldable pub assert_transition :
    ReservationStatus → ReservationStatus → Outcome Refusal (Unit {0})
assert_transition from to = elim (can_transition from to) [
  | true ↦ ok tt
  | false ↦ refused invalid_transition
]

-- `ASSIGNABLE_ROOM_STATUSES.includes`
unfoldable pub is_assignable : RoomStatus → Bool
is_assignable RoomStatus.available = true
is_assignable RoomStatus.ready = true
is_assignable RoomStatus.inspected = true
is_assignable _ = false

-- `RSV-` and six digits.
unfoldable pub format_reservation_number : ℕ → List ℕ
format_reservation_number sequence = codes "RSV-" ++ pad_start 6 (decimal (sequence % 1000000))
