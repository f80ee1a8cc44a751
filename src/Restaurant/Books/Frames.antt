-- ===== src/Restaurant/Books/Frames.antt =====
-- What the postings of a settlement leave as it was: the orders and their payments
-- (Restaurant/Settle.antt).
use travelo.Base.{
  ℕ, ◌≡◌, refl, sym, ap, subst, ◌∙◌, inl, inr, Bool, true, false, [], ◌∷◌, ◌++◌, Option, none, some,
  select-some, require-eq-ok, refuse_if, through, committed, ok, ◌==◌, In, Option-cases, arith,
}
use travelo.Schema.{
  Db, FolioLine, RestaurantOrder, RestaurantPaymentMethod, TableStatus, amount_not_positive,
}
use travelo.Folio.Charges.{PostCharge, post_charge, find_line_by_source, new_line}
use travelo.Cash.{CashMovement, record_cash}
use travelo.DirectBilling.{AccountCharge, charge_account, require_account}
use travelo.Restaurant.Orders.{require_order, is_order, set_table_status}
use travelo.Restaurant.Settle.{Tender, post_tender, finish, deplete_stock}
use travelo.Restaurant.Depletion.{Stocked, deplete_stock-Stocked}
use travelo.Restaurant.Books.{Books}

-- The second database has the orders and payments of the first.
unfoldable pub SameBooks : Db → Db → Type 0
SameBooks db d = (d.orders ≡ db.orders) × (d.order_payments ≡ db.order_payments)

abbrev pub Kept : Db → Type 0
Kept db = Books db.orders db.order_payments

pub keep : (db d : Db) → SameBooks db d → Kept db → Kept d
unfolding SameBooks
keep db d e v =
    subst (λ os. Books os d.order_payments) (sym e.0) (subst (Books db.orders) (sym e.1) v)

pub post_charge-SameBooks :
    (db : Db) (input : PostCharge) (id : ℕ) → SameBooks db (post_charge db input id).0
unfolding SameBooks post_charge
post_charge-SameBooks db input id = by_line (find_line_by_source db input.source)
  where
    by_line :
        (found : Option FolioLine)
        → SameBooks db
            (elim found as (λ x. Db × FolioLine) [
              | some line ↦ (db, line)
              | none ↦ (
                record db { folio_lines = db.folio_lines ++ new_line db input id ∷ [] },
                new_line db input id,
              )
            ]).0
    by_line none = (refl, refl)
    by_line (some line) = (refl, refl)

pub record_cash-SameBooks :
    (db : Db) (e : CashMovement) {d : Db} → record_cash db e ≡ ok d → SameBooks db d
unfolding SameBooks record_cash
record_cash-SameBooks db e h =
    through (refuse_if (e.amount_paise == 0) amount_not_positive) _ h
      λ _ _ h1. subst (SameBooks db) (committed h1) (refl, refl)

pub charge_account-SameBooks :
    (db : Db) (e : AccountCharge) {d : Db} → charge_account db e ≡ ok d → SameBooks db d
unfolding SameBooks charge_account
charge_account-SameBooks db e h =
    through (require_account db e.property_id e.account_id) _ h
      λ _ _ h1. subst (SameBooks db) (committed h1) (refl, refl)

pub post_tender-SameBooks :
    (db : Db) (property_id : ℕ) (order : RestaurantOrder) (method : RestaurantPaymentMethod)
    (t : Tender) (by : Option ℕ) (line_id : ℕ) {d : Db}
    → post_tender db property_id order method t by line_id ≡ ok d
    → SameBooks db d
unfolding SameBooks post_tender
post_tender-SameBooks db p order RestaurantPaymentMethod.cash t by n h =
    record_cash-SameBooks db _ h
post_tender-SameBooks db p order RestaurantPaymentMethod.card t by n h =
    subst (SameBooks db) (committed h) (refl, refl)
post_tender-SameBooks db p order RestaurantPaymentMethod.upi t by n h =
    subst (SameBooks db) (committed h) (refl, refl)
post_tender-SameBooks db p order RestaurantPaymentMethod.room_charge t by n h =
    elim (Option-cases t.reservation_id) [
      | inl e ↦ subst (SameBooks db) (committed (rw e at h)) (refl, refl)
      | inr e ↦ subst (SameBooks db) (committed (rw e.1 at h)) (post_charge-SameBooks db _ n)
    ]
post_tender-SameBooks db p order RestaurantPaymentMethod.corporate t by n h =
    elim (Option-cases t.corporate_account_id) [
      | inl e ↦ subst (SameBooks db) (committed (rw e at h)) (refl, refl)
      | inr e ↦ charge_account-SameBooks db _ (rw e.1 at h)
    ]

pub set_table_status-SameBooks :
    (db : Db) (table : Option ℕ) (status : TableStatus)
    → SameBooks db (set_table_status db table status)
unfolding SameBooks set_table_status
set_table_status-SameBooks db none status = (refl, refl)
set_table_status-SameBooks db (some id) status = (refl, refl)

pub finish-SameBooks :
    (db : Db) (property_id : ℕ) (order : RestaurantOrder) (settled : Bool) (by : Option ℕ)
    → SameBooks db (finish db property_id order settled by)
unfolding SameBooks finish Stocked
finish-SameBooks db p order false by = (refl, refl)
finish-SameBooks db p order true by =
    let used = deplete_stock-Stocked db p order.id by in
    let freed =
      set_table_status-SameBooks (deplete_stock db p order.id by) order.table_id
        TableStatus.open_ in
    (freed.0 ∙ ap (λ (d : Db). d.orders) used, freed.1 ∙ ap (λ (d : Db). d.order_payments) used)

pub require_order-In :
    (db : Db) (property_id id : ℕ) {o : RestaurantOrder}
    → require_order db property_id id ≡ ok o
    → In o db.orders × (o.id ≡ id)
unfolding require_order is_order
require_order-In db property_id id h =
    let found = select-some _ db.orders (require-eq-ok _ _ h) in (found.0, ground (arith, found.1))
