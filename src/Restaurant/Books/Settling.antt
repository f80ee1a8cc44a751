-- ===== src/Restaurant/Books/Settling.antt =====
-- A settlement against the books (Restaurant/Settle.antt).
use travelo.Base.{
  ℕ, ◌+◌, ◌-◌, ◌≡◌, ◌≢◌, ◌≤◌, refl, sym, ap, subst, ◌∙◌, inl, inr, true, false, not, Option,
  refuse_if, through, committed, ok, leb, leb→le, if◌then◌else◌, Bool-cases, arith,
}
use travelo.Schema.{
  Db, Timestamp, RestaurantOrder, OrderStatus, is_order_status, OrderPayment,
  RestaurantPaymentMethod, order_not_billed,
}
use travelo.Restaurant.Orders.{require_order, set_order}
use travelo.Restaurant.Settle.{
  SettleOrder, Tender, settle, tender, post_tender, insert_order_payment, paid_order,
}
use travelo.Restaurant.Books.{received_for, received_for-append, amount_for, update-Books}
use travelo.Restaurant.Books.Frames.{
  Kept, keep, post_tender-SameBooks, finish-SameBooks, require_order-In,
}

own_amount : (id : ℕ) (p : OrderPayment) → p.order_id ≡ id → amount_for id p ≡ p.amount_paise
unfolding amount_for
own_amount id p e = ground arith

other_amount : (id : ℕ) (p : OrderPayment) → p.order_id ≢ id → amount_for id p ≡ 0
unfolding amount_for
other_amount id p e = ground arith

no_more : (n : ℕ) → n + 0 ≡ n
no_more n = omega arith

settled_covers :
    (total paid : ℕ)
    → is_order_status
        (if leb total paid then OrderStatus.paid else OrderStatus.billed)
        OrderStatus.paid
      ≡ true
    → total ≤ paid
settled_covers total paid h = elim (Bool-cases (leb total paid)) [
  | inl y ↦ leb→le total paid y
  | inr n ↦ absurd (clash (rw n at h))
]
  where
    clash : false ≡ true → ⊥
    clash q = cc

-- The order's row and its payment, as `settle` writes them together.
paid-Books :
    (db : Db) (property_id id : ℕ) (method : RestaurantPaymentMethod) (t : Tender) (by : Option ℕ)
    (now : Timestamp) {order : RestaurantOrder}
    → require_order db property_id id ≡ ok order
    → Kept db
    → Kept (
        set_order (insert_order_payment db property_id id method t.amount_paise by) id (
          paid_order method t
            (order.paid_paise + t.amount_paise)
            (leb order.total_paise (order.paid_paise + t.amount_paise))
            by
            now))
unfolding set_order insert_order_payment paid_order
paid-Books db property_id id method t by now {order} e v =
    let (m, own) = require_order-In db property_id id e in
    let paid = order.paid_paise + t.amount_paise in
    let row : OrderPayment = record {
      order_id = id;
      property_id = property_id;
      method = method;
      amount_paise = t.amount_paise;
      collected_by = by;
    } in
    update-Books db.orders db.order_payments _ id
      (paid_order method t paid (leb order.total_paise paid) by now) order m own (λ o. refl)
      (λ n other.
        received_for-append n db.order_payments row
        ∙ ap (λ k. received_for n db.order_payments + k) (other_amount n row (λ q. other (sym q)))
        ∙ no_more _)
      (record {
        tallied =
            ap (λ k. k + t.amount_paise) (v.booked order m).tallied
            ∙ ap (λ k. received_for order.id db.order_payments + k)
                (sym (own_amount order.id row (sym own)))
            ∙ sym (received_for-append order.id db.order_payments row);
        covered = settled_covers order.total_paise paid;
      })
      v

pub settle-Books :
    (db : Db) (property_id id : ℕ) (dto : SettleOrder) (by : Option ℕ) (line_id : ℕ)
    (now : Timestamp) {db' : Db}
    → Kept db
    → settle db property_id id dto by line_id now ≡ ok db'
    → Kept db'
unfolding settle
settle-Books db property_id id dto by line_id now v h =
    through (require_order db property_id id) _ h λ order e h1.
      through (refuse_if (not (is_order_status order.status OrderStatus.billed)) order_not_billed) _
        h1
        λ _ _ h2.
          through (tender db property_id order dto (order.total_paise - order.paid_paise)) _ h2
            λ t _ h3.
              let paid = order.paid_paise + t.amount_paise in
              let settled = leb order.total_paise paid in
              let written =
                set_order (insert_order_payment db property_id id dto.method t.amount_paise by) id
                  (paid_order dto.method t paid settled by now) in
              through (post_tender written property_id order dto.method t by line_id) _ h3
                λ posted f h4. subst Kept (committed h4) (
                  keep posted _ (finish-SameBooks posted property_id order settled by) (
                    keep written posted
                      (post_tender-SameBooks written property_id order dto.method t by line_id f)
                      (paid-Books db property_id id dto.method t by now e v)))
