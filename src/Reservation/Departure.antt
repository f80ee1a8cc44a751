-- ===== src/Reservation/Departure.antt =====
-- src/modules/reservations/reservations.service.ts: money and departure, `checkOut` and
-- `collectPayment`. A payment commits before the gate of `checkOut`, so the result carries the
-- database on every branch.
use travelo.Base.{
  ℕ, zero, suc, Bool, true, false, not, ◌&&◌, Option, none, some, Outcome, ok, refused, ◌>>=◌, ◌>>◌,
}
use travelo.Base.Int.{ℤ, pos, ◌+ℤ◌, ◌-ℤ◌, ltb_ℤ}
use travelo.Schema.{
  Db, Reservation, ReservationStatus, ReservationEventType, RoomStatus, Timestamp, Refusal,
  balance_outstanding, FolioPaymentMethod,
}
use travelo.Folio.Receipts.{RecordPayment, record_payment}
use travelo.Folio.Summary.{summary, balance_paise}
use travelo.Housekeeping.{create_checkout_clean_for_room}
use travelo.Reservation.Rules.{assert_transition}
use travelo.Reservation.Availability.{require_reservation}
use travelo.Reservation.Writes.{set_reservation, set_room_status, record_event}

-- `CheckOutDto`
pub record CheckOut : Type 0 where
  pub collected_paise : Option ℕ
  pub payment_method : Option FolioPaymentMethod
  pub idempotency_key : Option ℕ
  pub allow_outstanding : Bool

unfoldable pub desk_payment : ℕ → ℕ → CheckOut → ℕ → Option ℕ → RecordPayment
desk_payment property_id id dto amount actor = record {
  reservation_id = id;
  property_id = property_id;
  method = elim dto.payment_method [ none ↦ FolioPaymentMethod.cash | some m ↦ m ];
  amount_paise = amount;
  direction = none;
  collected_by = actor;
  idempotency_key = dto.idempotency_key;
}

-- `if (dto.collectedPaise && dto.collectedPaise > 0)`
unfoldable pub collect : Db → ℕ → ℕ → CheckOut → Option ℕ → ℕ → Option ℕ → Db
collect db property_id id dto actor payment_id none = db
collect db property_id id dto actor payment_id (some zero) = db
collect db property_id id dto actor payment_id (some (suc n)) =
    (record_payment db (desk_payment property_id id dto (suc n) actor) payment_id).0

-- What is handed over at the desk, recorded first.
unfoldable pub collect_at_desk : Db → ℕ → ℕ → CheckOut → Option ℕ → ℕ → Db
unfolding collect
collect_at_desk db property_id id dto actor payment_id =
    collect db property_id id dto actor payment_id dto.collected_paise

-- The room goes DIRTY and wants a clean.
unfoldable pub turn_over : Db → ℕ → Option ℕ → Option ℕ → ℕ → Db
turn_over db property_id none actor task_id = db
turn_over db property_id (some room_id) actor task_id =
    create_checkout_clean_for_room (set_room_status db room_id RoomStatus.dirty) property_id room_id
      actor task_id

abbrev checked_out_row : Timestamp → Reservation → Reservation
checked_out_row now r = record r {
  status = ReservationStatus.checked_out;
  checked_out_at = some now;
}

-- The transaction of `checkOut`.
unfoldable pub leave : Db → ℕ → ℕ → Reservation → Option ℕ → ℕ → Timestamp → Db
unfolding turn_over
leave db property_id id before actor task_id now =
    record_event
      (turn_over (set_reservation db id (checked_out_row now)) property_id before.room_id actor
        task_id)
      id ReservationEventType.checked_out actor

unfoldable pub departing : Db → ℕ → ℕ → Outcome Refusal Reservation
departing db property_id id = do
  before ← require_reservation db property_id id
  assert_transition before.status ReservationStatus.checked_out
  ok before

-- The gate, on the database with the desk's payment in it, and its balance.
unfoldable pub gate :
    Db
    → ℕ
    → ℕ
    → Reservation
    → CheckOut
    → Option ℕ
    → ℕ
    → Timestamp
    → ℤ
    → Db × Outcome Refusal (ℤ × Bool)
unfolding leave
gate db property_id id before dto actor task_id now balance =
    elim (ltb_ℤ (pos 0) balance && not dto.allow_outstanding) [
      | true ↦ (db, refused (balance_outstanding balance))
      | false ↦ (
        leave db property_id id before actor task_id now,
        ok (balance, ltb_ℤ (pos 0) balance && dto.allow_outstanding),
      )
    ]

-- `checkOut`: the database, and the balance with whether it was overridden. `payment_id` and
-- `task_id` are the keys that the database gives to the new rows.
unfoldable pub check_out :
    Db → ℕ → ℕ → CheckOut → Option ℕ → ℕ → ℕ → Timestamp → Db × Outcome Refusal (ℤ × Bool)
unfolding departing gate collect_at_desk
check_out db property_id id dto actor payment_id task_id now = elim (departing db property_id id) [
  | refused e ↦ (db, refused e)
  | ok before ↦
      let paid = collect_at_desk db property_id id dto actor payment_id in
      gate paid property_id id before dto actor task_id now (balance_paise paid id)
]

-- `collectPayment`; `input` names the resolved reservation. The net paid and the balance shown.
unfoldable pub collect_payment : Db → RecordPayment → ℕ → Outcome Refusal (Db × ℤ × ℤ)
collect_payment db input payment_id = do
  before ← require_reservation db input.property_id input.reservation_id
  let recorded = record_payment db input payment_id
  ok (
    recorded.0,
    recorded.1,
    pos before.total_paise
        +ℤ (summary recorded.0 input.reservation_id).ancillary_paise
        -ℤ recorded.1,
  )
