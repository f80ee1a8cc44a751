-- ===== src/Reservation/Settlement.antt =====
-- What `checkOut` settles (Reservation/Departure.antt): the gate and the money.
use travelo.Reservation.Frames.{balance_paise-leave}
use travelo.Base.{
  ℕ, ◌≡◌, refl, sym, ap, ◌∙◌, ◌⊎◌, inl, inr, Bool, true, false, not, ◌&&◌, Option, none, some, any,
  Bool-cases, Option-cases, any-some, subst, In, or_else, zero, suc, ◌≢◌, Outcome, ok, refused,
  committed, arith,
}
use travelo.Base.Int.{ℤ, pos, ◌-ℤ◌, ltb_ℤ, int_laws}
use travelo.Schema.{
  Db, Reservation, ReservationStatus, HousekeepingTask, TaskStatus, Timestamp, Refusal,
  balance_outstanding,
}
use travelo.Folio.Summary.{balance_paise}
use travelo.Housekeeping.Loop.{clean-open}
use travelo.Housekeeping.{is_open_for, is_open_task}
use travelo.Folio.Receipts.{record_payment, insert_payment, find_payment_by_key}
use travelo.Folio.Payments.{NewKey, brought, balance_paise-record_payment}
use travelo.Reservation.Availability.{require_reservation}
use travelo.Reservation.Leaving.{departing-checked_in}
use travelo.Reservation.Life.Steady.{collect-Steady}
use travelo.Reservation.Safety.Resolution.{require_reservation-In}
use travelo.Reservation.Departure.{
  CheckOut, collect, desk_payment, collect_at_desk, turn_over, leave, departing, gate, check_out,
}
use travelo.Reservation.Writes.{record_event}

nothing_less : (a : ℤ) → a ≡ a -ℤ pos 0
nothing_less a = omega int_laws

refused-ne-ok :
    {A : Type 0} {e : Refusal} {a : A} → ◌≡◌ {A = Outcome Refusal A} (refused e) (ok a) → ⊥
refused-ne-ok h = cc

Outcome-cases :
    {A : Type 0} (o : Outcome Refusal A)
    → ((e : Refusal) × (o ≡ refused e)) ⊎ ((a : A) × (o ≡ ok a))
Outcome-cases (ok a) = inr (a, refl)
Outcome-cases (refused e) = inl (e, refl)

flags :
    (owed allowed overrode : Bool)
    → (owed && not allowed) ≡ false
    → (owed && allowed) ≡ overrode
    → (owed ≡ overrode) × ((overrode && not allowed) ≡ false)
flags true true overrode h k = ground arith
flags true false overrode h k = ground arith
flags false allowed overrode h k = ground arith

gate-settled :
    (paid : Db) (property_id id : ℕ) (before : Reservation) (dto : CheckOut) (actor : Option ℕ)
    (task_id : ℕ) (now : Timestamp) {balance : ℤ} {overrode : Bool}
    → (gate paid property_id id before dto actor task_id now (balance_paise paid id)).1
      ≡ ok (balance, overrode)
    → (balance_paise
          (gate paid property_id id before dto actor task_id now (balance_paise paid id)).0
          id
        ≡ balance)
      × (ltb_ℤ (pos 0) balance ≡ overrode)
      × ((overrode && not dto.allow_outstanding) ≡ false)
unfolding gate
gate-settled paid property_id id before dto actor task_id now {balance} {overrode} h =
    elim (Bool-cases (ltb_ℤ (pos 0) (balance_paise paid id) && not dto.allow_outstanding)) [
      | inl shut ↦ absurd (refused-ne-ok (rw (gate, shut) at h))
      | inr clear ↦
          let e = committed (rw (gate, clear) at h) in
          let e0 = ap (λ (t : ℤ × Bool). t.0) e in
          let f =
            flags (ltb_ℤ (pos 0) (balance_paise paid id)) dto.allow_outstanding overrode clear
              (ap (λ (t : ℤ × Bool). t.1) e) in
          rw (gate, clear)
            (
              balance_paise-leave paid property_id id before actor task_id now ∙ e0,
              sym (ap (ltb_ℤ (pos 0)) e0) ∙ f.0,
              f.1,
            )
    ]

-- Where `checkOut` succeeds, the folio's balance afterwards is the balance it returns; the
-- returned flag says whether that balance is owed, and where it is, the desk had allowed an
-- outstanding balance.
pub check_out-settled :
    (db : Db) (property_id id : ℕ) (dto : CheckOut) (actor : Option ℕ) (payment_id task_id : ℕ)
    (now : Timestamp) {balance : ℤ} {overrode : Bool}
    → (check_out db property_id id dto actor payment_id task_id now).1 ≡ ok (balance, overrode)
    → (balance_paise (check_out db property_id id dto actor payment_id task_id now).0 id ≡ balance)
      × (ltb_ℤ (pos 0) balance ≡ overrode)
      × ((overrode && not dto.allow_outstanding) ≡ false)
unfolding check_out
check_out-settled db property_id id dto actor payment_id task_id now {balance} {overrode} h =
    elim (Outcome-cases (departing db property_id id)) [
      | inl stop ↦ absurd (refused-ne-ok (rw (check_out, stop.1) at h))
      | inr go ↦
          rw (check_out, go.1)
            (gate-settled (collect_at_desk db property_id id dto actor payment_id) property_id id
              go.0 dto actor task_id now (rw (check_out, go.1) at h))
    ]

-- What is owed after a number of paise was handed over at the desk under a new key.
balance_paise-collect :
    (db : Db) (property_id id : ℕ) (dto : CheckOut) (actor : Option ℕ) (payment_id : ℕ)
    (amount : Option ℕ)
    → NewKey db id dto.idempotency_key
    → balance_paise (collect db property_id id dto actor payment_id amount) id
      ≡ balance_paise db id -ℤ pos (or_else amount 0)
unfolding collect desk_payment brought
balance_paise-collect db property_id id dto actor payment_id none new =
    nothing_less (balance_paise db id)
balance_paise-collect db property_id id dto actor payment_id (some zero) new =
    nothing_less (balance_paise db id)
balance_paise-collect db property_id id dto actor payment_id (some (suc n)) new =
    balance_paise-record_payment db (desk_payment property_id id dto (suc n) actor) payment_id new

-- The desk's payment moves no room and raises no task.
collect_frame :
    (db : Db) (property_id id : ℕ) (dto : CheckOut) (actor : Option ℕ) (payment_id : ℕ)
    (amount : Option ℕ)
    → ((collect db property_id id dto actor payment_id amount).rooms ≡ db.rooms)
      × ((collect db property_id id dto actor payment_id amount).tasks ≡ db.tasks)
unfolding collect record_payment insert_payment desk_payment
collect_frame db property_id id dto actor payment_id none = (refl, refl)
collect_frame db property_id id dto actor payment_id (some zero) = (refl, refl)
collect_frame db property_id id dto actor payment_id (some (suc n)) =
    elim (Option-cases (find_payment_by_key db id dto.idempotency_key)) [
      | inl new ↦ rw (collect, desk_payment, record_payment, new) (refl, refl)
      | inr old ↦ rw (collect, desk_payment, record_payment, old.1) (refl, refl)
    ]

gate_shut :
    (paid : Db) (property_id id : ℕ) (before : Reservation) (dto : CheckOut) (actor : Option ℕ)
    (task_id : ℕ) (now : Timestamp) (balance : ℤ)
    → dto.allow_outstanding ≡ false
    → ltb_ℤ (pos 0) balance ≡ true
    → gate paid property_id id before dto actor task_id now balance
      ≡ (paid, refused (balance_outstanding balance))
unfolding gate
gate_shut paid property_id id before dto actor task_id now balance shut owed =
    rw (gate, owed, shut) refl

still_owed :
    (amount : ℕ) (balance : ℤ)
    → ltb_ℤ (pos amount) balance ≡ true
    → ltb_ℤ (pos 0) (balance -ℤ pos amount) ≡ true
unfolding ◌-ℤ◌
still_owed amount balance h = ground (arith, h)

-- Where a checked-in booking owes more than is handed over at the desk, under a key that no
-- payment of its folio has or under none, and the desk does not allow a balance to stay open,
-- `checkOut` is refused with what is still owed; the folio's balance is lower by what was handed
-- over, the booking is still checked in, and no room and no housekeeping task has changed.
pub check_out-blocked :
    (db : Db) (property_id id : ℕ) (dto : CheckOut) (actor : Option ℕ) (payment_id task_id : ℕ)
    (now : Timestamp) {before : Reservation}
    → require_reservation db property_id id ≡ ok before
    → before.status ≡ ReservationStatus.checked_in
    → NewKey db id dto.idempotency_key
    → dto.allow_outstanding ≡ false
    → ltb_ℤ (pos (or_else dto.collected_paise 0)) (balance_paise db id) ≡ true
    → ((check_out db property_id id dto actor payment_id task_id now).1
        ≡ refused
            (balance_outstanding (balance_paise db id -ℤ pos (or_else dto.collected_paise 0))))
      × (balance_paise (check_out db property_id id dto actor payment_id task_id now).0 id
          ≡ balance_paise db id -ℤ pos (or_else dto.collected_paise 0))
      × ((check_out db property_id id dto actor payment_id task_id now).0.rooms ≡ db.rooms)
      × ((check_out db property_id id dto actor payment_id task_id now).0.tasks ≡ db.tasks)
      × (r : Reservation) × In r
          (check_out db property_id id dto actor payment_id task_id now).0.reservations
      × (r.id ≡ id)
      × (r.status ≡ ReservationStatus.checked_in)
unfolding check_out collect_at_desk
check_out-blocked db property_id id dto actor payment_id task_id now {before} e s new shut owed =
    let go = departing-checked_in db property_id id e s in
    let found = require_reservation-In db property_id id e in
    let paid = collect_at_desk db property_id id dto actor payment_id in
    let (row, m, same, kept) =
      collect-Steady db property_id id dto actor payment_id dto.collected_paise before found.0 in
    let (rooms, tasks) = collect_frame db property_id id dto actor payment_id dto.collected_paise in
    let left =
      balance_paise-collect db property_id id dto actor payment_id dto.collected_paise new in
    let ended : check_out db property_id id dto actor payment_id task_id now
        ≡ (paid, refused (balance_outstanding (balance_paise paid id))) =
      rw (check_out, go)
        (gate_shut paid property_id id before dto actor task_id now (balance_paise paid id) shut
          (ap (ltb_ℤ (pos 0)) left ∙ still_owed _ _ owed)) in
    let stays = λ (x : Db × Outcome Refusal (ℤ × Bool)). x.0 in
    (
      ap (λ (x : Db × Outcome Refusal (ℤ × Bool)). x.1) ended
          ∙ ap (λ b. refused (balance_outstanding b)) left,
      ap (λ x. balance_paise (stays x) id) ended ∙ left,
      ap (λ x. (stays x).rooms) ended ∙ rooms,
      ap (λ x. (stays x).tasks) ended ∙ tasks,
      row,
      subst (λ x. In row (stays x).reservations) (sym ended) m,
      same ∙ found.1,
      kept ∙ s,
    )

gate-clean :
    (paid : Db) (property_id id room_id : ℕ) (before : Reservation) (dto : CheckOut)
    (actor : Option ℕ) (task_id : ℕ) (now : Timestamp) (balance : ℤ) {answer : ℤ × Bool}
    → before.room_id ≡ some room_id
    → (gate paid property_id id before dto actor task_id now balance).1 ≡ ok answer
    → any
        (is_open_for property_id room_id)
        (gate paid property_id id before dto actor task_id now balance).0.tasks
      ≡ true
unfolding gate leave record_event turn_over
gate-clean paid property_id id room_id before dto actor task_id now balance room h =
    elim (Bool-cases (ltb_ℤ (pos 0) balance && not dto.allow_outstanding)) [
      | inl shut ↦ absurd (refused-ne-ok (rw (gate, shut) at h))
      | inr clear ↦
          rw (gate, clear, leave, room, turn_over) (clean-open _ property_id room_id actor task_id)
    ]

-- An open task of a room: it is not deleted, inspected or rejected.
unfoldable pub OpenTask : ℕ → ℕ → HousekeepingTask → Type 0
OpenTask property_id room_id t =
    (t.property_id ≡ property_id)
    × (t.room_id ≡ some room_id)
    × (t.deleted ≡ false)
    × (t.status ≢ TaskStatus.inspected)
    × (t.status ≢ TaskStatus.rejected)

is_open_for-OpenTask :
    (property_id room_id : ℕ) (t : HousekeepingTask)
    → is_open_for property_id room_id t ≡ true
    → OpenTask property_id room_id t
unfolding is_open_for is_open_task OpenTask
is_open_for-OpenTask property_id room_id t h = ground (arith, h)

-- Where a checked-in booking has a room and `checkOut` succeeds, a housekeeping task of that room
-- that is neither deleted nor inspected nor rejected is there afterwards, new or from before.
pub check_out-clean :
    (db : Db) (property_id id room_id : ℕ) (dto : CheckOut) (actor : Option ℕ)
    (payment_id task_id : ℕ) (now : Timestamp) {before : Reservation} {answer : ℤ × Bool}
    → require_reservation db property_id id ≡ ok before
    → before.status ≡ ReservationStatus.checked_in
    → before.room_id ≡ some room_id
    → (check_out db property_id id dto actor payment_id task_id now).1 ≡ ok answer
    → (t : HousekeepingTask) × In t
        (check_out db property_id id dto actor payment_id task_id now).0.tasks
      × OpenTask property_id room_id t
unfolding check_out
check_out-clean db property_id id room_id dto actor payment_id task_id now {before} e s room h =
    let go = departing-checked_in db property_id id e s in
    let paid = collect_at_desk db property_id id dto actor payment_id in
    rw (check_out, go)
      (let (t, m, opened) = any-some (is_open_for property_id room_id) _ (
          gate-clean paid property_id id room_id before dto actor task_id now _ room
            (rw (check_out, go) at h)) in
        (t, m, is_open_for-OpenTask property_id room_id t opened))
