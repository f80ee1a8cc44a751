-- ===== src/Folio/Payments.antt =====
-- What the payments of a folio come to (src/modules/folio/folio.service.ts).
use travelo.Base.{
  ℕ, ◌+◌, ◌≡◌, ◌≢◌, Option, In, select-some, true, refl, sym, ap, subst, ◌∙◌, inl, inr, not, ◌&&◌,
  List, [], ◌∷◌, ◌++◌, none, some, filter, filter-append, select-append_hit, select-update_row,
  sum_of, Option-cases, Bool-cases, ◌==◌, holds, arith,
}
use travelo.Base.Int.{ℤ, pos, ◌+ℤ◌, ◌-ℤ◌, int_laws, sum_ℤ, sum_ℤ-append}
use travelo.Schema.{Db, Reservation, FolioPayment, PaymentDirection}
use travelo.Folio.Charges.{intra_state_of}
use travelo.Folio.Receipts.{
  RecordPayment, record_payment, insert_payment, new_payment, find_payment_by_key, net_paid, signed,
}
use travelo.Folio.Summary.{
  paid_in, summary, is_payment, balance_paise, room_part, live_lines, room_gst, property_taxes_on,
}

paid_more : (a ins outs : ℕ) → pos a +ℤ (pos ins -ℤ pos outs) ≡ pos (a + ins) -ℤ pos outs
paid_more a ins outs = omega int_laws

refunded_more :
    (a ins outs : ℕ) → pos 0 -ℤ pos a +ℤ (pos ins -ℤ pos outs) ≡ pos ins -ℤ pos (a + outs)
refunded_more a ins outs = omega int_laws

-- The two ways of summing a folio's payments agree.
sums_agree :
    (id : ℕ) (ps : List FolioPayment)
    → sum_ℤ signed (filter (λ p. p.reservation_id == id) ps)
      ≡ pos (
          sum_of
            (λ p. p.amount_paise)
            (filter (λ p. p.reservation_id == id && is_payment p.direction) ps))
        -ℤ pos (
            sum_of
              (λ p. p.amount_paise)
              (filter (λ p. p.reservation_id == id && not (is_payment p.direction)) ps))
unfolding sum_ℤ sum_of filter
sums_agree id [] = omega int_laws
sums_agree id (p ∷ ps) =
    let ins =
      sum_of (λ p. p.amount_paise)
        (filter (λ p. p.reservation_id == id && is_payment p.direction) ps) in
    let outs =
      sum_of (λ p. p.amount_paise)
        (filter (λ p. p.reservation_id == id && not (is_payment p.direction)) ps) in
    ground (
      arith,
      sums_agree id ps,
      paid_more p.amount_paise ins outs,
      refunded_more p.amount_paise ins outs,
    )

-- The net paid that the cache on the reservation is refreshed with is payments less refunds as
-- the folio's summary shows them.
pub net_paid-summary : (db : Db) (id : ℕ) → net_paid db id ≡ (summary db id).net_paid_paise
unfolding net_paid summary paid_in
net_paid-summary db id = sums_agree id db.folio_payments

find-insert_payment :
    (db : Db) (input : RecordPayment) (id key : ℕ)
    → input.idempotency_key ≡ some key
    → (p : FolioPayment) × (find_payment_by_key
          (insert_payment db input id)
          input.reservation_id
          input.idempotency_key
        ≡ some p)
unfolding find_payment_by_key insert_payment new_payment
find-insert_payment db input id key h =
    subst
      (λ k.
        (p : FolioPayment) × (find_payment_by_key (insert_payment db input id) input.reservation_id
            k
          ≡ some p))
      (sym h)
      (select-append_hit
        (λ p. p.reservation_id == input.reservation_id && holds p.idempotency_key key)
        db.folio_payments (new_payment input id) (ground arith))

pub record_payment_new :
    (db : Db) (input : RecordPayment) (id : ℕ)
    → find_payment_by_key db input.reservation_id input.idempotency_key ≡ none
    → record_payment db input id
      ≡ (insert_payment db input id, net_paid (insert_payment db input id) input.reservation_id)
unfolding record_payment
record_payment_new db input id e = rw (e, record_payment)

pub record_payment_old :
    (db : Db) (input : RecordPayment) (id : ℕ) {p : FolioPayment}
    → find_payment_by_key db input.reservation_id input.idempotency_key ≡ some p
    → record_payment db input id ≡ (db, net_paid db input.reservation_id)
unfolding record_payment
record_payment_old db input id e = rw (e, record_payment)

-- Where a payment carries an idempotency key, sending it a second time right after the first
-- changes nothing and returns the same net paid.
pub record_payment_again :
    (db : Db) (input : RecordPayment) (id id' key : ℕ)
    → input.idempotency_key ≡ some key
    → record_payment (record_payment db input id).0 input id' ≡ record_payment db input id
record_payment_again db input id id' key h =
    elim (Option-cases (find_payment_by_key db input.reservation_id input.idempotency_key)) [
      | inl new ↦ rw (record_payment_new db input id new) (
          record_payment_old (insert_payment db input id) input id'
            (find-insert_payment db input id key h).1)
      | inr old ↦ rw (record_payment_old db input id old.1) (record_payment_old db input id' old.1)
    ]

sum-own :
    (input : RecordPayment) (id : ℕ)
    → sum_ℤ signed
        (filter (λ p. p.reservation_id == input.reservation_id) (new_payment input id ∷ []))
      ≡ signed (new_payment input id)
unfolding sum_ℤ filter new_payment
sum-own input id = elim (Bool-cases (input.reservation_id == input.reservation_id)) [
  | inl y ↦ rw (y) (omega int_laws)
  | inr n ↦ absurd (ground arith)
]

-- A payment that is not a repeat raises the net by its amount, or lowers it if it is a refund.
net_paid-insert_payment :
    (db : Db) (input : RecordPayment) (id : ℕ)
    → net_paid (insert_payment db input id) input.reservation_id
      ≡ net_paid db input.reservation_id +ℤ signed (new_payment input id)
unfolding net_paid insert_payment
net_paid-insert_payment db input id =
    ap (sum_ℤ signed) (
      filter-append (λ p. p.reservation_id == input.reservation_id) db.folio_payments
        (new_payment input id ∷ []))
    ∙ (sum_ℤ-append signed
          (filter (λ p. p.reservation_id == input.reservation_id) db.folio_payments) _
        ∙ ap (λ z. net_paid db input.reservation_id +ℤ z) (sum-own input id))

-- The rooms' part of a folio reads nothing that a payment writes.
room_part-insert_payment :
    (db : Db) (input : RecordPayment) (id reservation_id : ℕ)
    → room_part (insert_payment db input id) reservation_id ≡ room_part db reservation_id
unfolding room_part insert_payment room_gst property_taxes_on intra_state_of
room_part-insert_payment db input id reservation_id =
    rw
      (
        room_part,
        select-update_row (λ r. r.id == reservation_id && not r.deleted) (λ r. r.id)
            input.reservation_id
            (λ (r : Reservation). record r {
              paid_paise =
                  net_paid
                    (record db { folio_payments = db.folio_payments ++ new_payment input id ∷ [] })
                    input.reservation_id;
            })
            db.reservations (λ r. refl),
      )
      (ground arith)

paid_off : (charges net amount : ℤ) → charges -ℤ (net +ℤ amount) ≡ charges -ℤ net -ℤ amount
paid_off charges net amount = omega int_laws

balance_paise-insert_payment :
    (db : Db) (input : RecordPayment) (id : ℕ)
    → balance_paise (insert_payment db input id) input.reservation_id
      ≡ balance_paise db input.reservation_id -ℤ signed (new_payment input id)
unfolding balance_paise summary live_lines insert_payment
balance_paise-insert_payment db input id =
    let charges = (summary db input.reservation_id).charges_paise in
    rw (room_part-insert_payment db input id input.reservation_id) (
      ap (λ n. charges -ℤ n)
        (sym (net_paid-summary (insert_payment db input id) input.reservation_id)
          ∙ (net_paid-insert_payment db input id
              ∙ ap (λ z. z +ℤ signed (new_payment input id))
                  (net_paid-summary db input.reservation_id)))
      ∙ paid_off charges _ _)

-- No payment of the folio has this idempotency key, where one is given.
unfoldable pub NewKey : Db → ℕ → Option ℕ → Type 0
NewKey db reservation_id key =
    (p : FolioPayment)
    → In p db.folio_payments
    → p.reservation_id ≡ reservation_id
    → key ≢ none
    → p.idempotency_key ≢ key

find_payment_by_key-NewKey :
    (db : Db) (reservation_id : ℕ) (key : Option ℕ)
    → NewKey db reservation_id key
    → find_payment_by_key db reservation_id key ≡ none
unfolding find_payment_by_key NewKey
find_payment_by_key-NewKey db reservation_id none new = refl
find_payment_by_key-NewKey db reservation_id (some key) new =
    elim (Option-cases (find_payment_by_key db reservation_id (some key))) [
      | inl absent ↦ absent
      | inr found ↦
          let (m, e) = select-some _ db.folio_payments found.1 in
          absurd (
            new found.0 m (own found.0 reservation_id key e) given
              (keyed found.0 reservation_id key e))
    ]
  where
    given : {k : ℕ} → some k ≢ none
    given q = cc

    own :
        (p : FolioPayment) (n k : ℕ)
        → (p.reservation_id == n && holds p.idempotency_key k) ≡ true
        → p.reservation_id ≡ n
    own p n k e = ground arith

    keyed :
        (p : FolioPayment) (n k : ℕ)
        → (p.reservation_id == n && holds p.idempotency_key k) ≡ true
        → p.idempotency_key ≡ some k
    keyed p n k e = ground arith

-- What a request brings in: its amount, or its amount taken away where it is a refund.
unfoldable pub brought : RecordPayment → ℤ
brought input = elim input.direction [
  | some PaymentDirection.refund ↦ pos 0 -ℤ pos input.amount_paise
  | some PaymentDirection.payment ↦ pos input.amount_paise
  | none ↦ pos input.amount_paise
]

signed-new_payment :
    (input : RecordPayment) (id : ℕ) → signed (new_payment input id) ≡ brought input
unfolding new_payment brought
signed-new_payment input id = ground arith

-- Where no payment of the folio has the given idempotency key, or none is given, recording a
-- request lowers the folio's balance, taxes included, by exactly its amount, or raises it by its
-- amount where its direction is a refund.
pub balance_paise-record_payment :
    (db : Db) (input : RecordPayment) (id : ℕ)
    → NewKey db input.reservation_id input.idempotency_key
    → balance_paise (record_payment db input id).0 input.reservation_id
      ≡ balance_paise db input.reservation_id -ℤ brought input
balance_paise-record_payment db input id new =
    let fresh = find_payment_by_key-NewKey db input.reservation_id input.idempotency_key new in
    rw (record_payment_new db input id fresh) (
      balance_paise-insert_payment db input id
      ∙ ap (λ n. balance_paise db input.reservation_id -ℤ n) (signed-new_payment input id))
