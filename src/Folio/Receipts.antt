-- ===== src/Folio/Receipts.antt =====
-- src/modules/folio/folio.service.ts: the payments and refunds of a stay. The reference and note
-- columns are not kept.
use travelo.Base.{
  ℕ, ◌&&◌, [], ◌∷◌, ◌++◌, Option, none, some, filter, select, update_row, ◌==◌, holds, or_else,
}
use travelo.Base.Int.{ℤ, pos, ◌-ℤ◌, sum_ℤ}
use travelo.Schema.{Db, FolioPayment, FolioPaymentMethod, PaymentDirection}

pub record RecordPayment : Type 0 where
  pub reservation_id : ℕ
  pub property_id : ℕ
  pub method : FolioPaymentMethod
  pub amount_paise : ℕ
  pub direction : Option PaymentDirection
  pub collected_by : Option ℕ
  pub idempotency_key : Option ℕ

abbrev pub signed : FolioPayment → ℤ
signed p = elim p.direction [
  | PaymentDirection.refund ↦ pos 0 -ℤ pos p.amount_paise
  | PaymentDirection.payment ↦ pos p.amount_paise
]

-- `netPaid`, the query's sum.
unfoldable pub net_paid : Db → ℕ → ℤ
net_paid db reservation_id =
    sum_ℤ signed (filter (λ p. p.reservation_id == reservation_id) db.folio_payments)

-- `findPaymentByKey`; with no key there is none.
unfoldable pub find_payment_by_key : Db → ℕ → Option ℕ → Option FolioPayment
find_payment_by_key db reservation_id none = none
find_payment_by_key db reservation_id (some key) =
    select (λ p. p.reservation_id == reservation_id && holds p.idempotency_key key)
      db.folio_payments

unfoldable pub new_payment : RecordPayment → ℕ → FolioPayment
new_payment input id = record {
  id = id;
  reservation_id = input.reservation_id;
  property_id = input.property_id;
  direction = or_else input.direction PaymentDirection.payment;
  method = input.method;
  amount_paise = input.amount_paise;
  collected_by = input.collected_by;
  idempotency_key = input.idempotency_key;
}

-- The insert, and the refreshed cache on the reservation.
unfoldable pub insert_payment : Db → RecordPayment → ℕ → Db
insert_payment db input id =
    let inserted = record db { folio_payments = db.folio_payments ++ new_payment input id ∷ [] } in
    record inserted {
      reservations =
          update_row (λ r. r.id) input.reservation_id
            (λ r. record r { paid_paise = net_paid inserted input.reservation_id }) db.reservations;
    }

-- `recordPayment`: the database and the net paid.
unfoldable pub record_payment : Db → RecordPayment → ℕ → Db × ℤ
record_payment db input id =
    elim (find_payment_by_key db input.reservation_id input.idempotency_key) [
      | some payment ↦ (db, net_paid db input.reservation_id)
      | none ↦ let db' = insert_payment db input id in (db', net_paid db' input.reservation_id)
    ]
