-- ===== src/Restaurant/Books/Calls.antt =====
-- The calls of the order service, all but the settlement, against the books
-- (Restaurant/Orders.antt).
use travelo.Base.{
  ℕ, ◌≡◌, ◌≢◌, refl, sym, ap, subst, ◌∙◌, Bool, true, false, not, ◌&&◌, ◌||◌, codes_eq, List,
  Option, any, refuse_if, refuse_if-eq-ok, through, committed, ok, ◌==◌, In, arith,
}
use travelo.Schema.{
  Db, Timestamp, RestaurantOrder, OrderStatus, is_order_status, KotStatus, TableStatus, is_kot,
  order_not_billed, order_not_open, empty_bill, order_has_served_items, unique_violation,
  item_cancel_too_late, kot_not_permitted,
}
use travelo.Reservation.Safety.Create.{create_attempts-eq-ok}
use travelo.Restaurant.{
  KitchenRole, BillTotals, role_may_set_kot, assert_kot_transition, assert_order_transition,
  counts_towards_bill,
}
use travelo.Restaurant.Orders.{
  AddedLine, create_order, add_items, set_kot_status, cancel_item, bill_order, discount_order,
  cancel_order, require_order, set_order, items_for, discount_patch, order_attempt, insert_order,
  new_order, check_table, clashes, snapshots, require_order_item, set_item_status,
}
use travelo.Restaurant.Books.{received_for, update-Books, add-Books}
use travelo.Restaurant.Books.Frames.{Kept, keep, set_table_status-SameBooks, require_order-In}

-- A change of an order's row that leaves what it was paid.
set_order-Books :
    (db : Db) (property_id id : ℕ) (f : RestaurantOrder → RestaurantOrder) {order : RestaurantOrder}
    → require_order db property_id id ≡ ok order
    → ((o : RestaurantOrder) → ((f o).id ≡ o.id) × ((f o).paid_paise ≡ o.paid_paise))
    → is_order_status (f order).status OrderStatus.paid ≡ false
    → Kept db
    → Kept (set_order db id f)
unfolding set_order
set_order-Books db property_id id f {order} e keeps unpaid v =
    let (m, own) = require_order-In db property_id id e in
    update-Books db.orders db.order_payments db.order_payments id f order m own (λ o. (keeps o).0)
      (λ n other. refl)
      (record {
        tallied =
            (keeps order).1
            ∙ (v.booked order m).tallied
            ∙ ap (λ n. received_for n db.order_payments) (sym (keeps order).0);
        covered = λ paid. absurd (clash (sym paid ∙ unpaid));
      })
      v
  where
    clash : true ≡ false → ⊥
    clash q = cc

pub bill_order-Books :
    (db : Db) (tax property_id id : ℕ) (now : Timestamp) {db' : Db}
    → Kept db
    → bill_order db tax property_id id now ≡ ok db'
    → Kept db'
unfolding bill_order
bill_order-Books db tax property_id id now v h =
    through (require_order db property_id id) _ h λ order e h1.
      through (assert_order_transition order.status OrderStatus.billed) _ h1 λ _ _ h2.
        through
          (refuse_if (not (any (λ l. counts_towards_bill l.kot_status) (items_for db id)))
            empty_bill)
          _ h2
          λ _ _ h3. subst Kept (committed h3) (
            keep _ _ (set_table_status-SameBooks _ order.table_id TableStatus.billed)
              (set_order-Books db property_id id _ e (λ o. (refl, refl)) refl v))

discount_patch-same :
    (b : Bool) (totals : BillTotals) (amount : ℕ) (o : RestaurantOrder)
    → ((discount_patch b totals amount o).id ≡ o.id)
      × ((discount_patch b totals amount o).paid_paise ≡ o.paid_paise)
unfolding discount_patch
discount_patch-same true totals amount o = (refl, refl)
discount_patch-same false totals amount o = (refl, refl)

discount_patch-status :
    (b : Bool) (totals : BillTotals) (amount : ℕ) (o : RestaurantOrder)
    → (discount_patch b totals amount o).status ≡ o.status
unfolding discount_patch
discount_patch-status true totals amount o = refl
discount_patch-status false totals amount o = refl

first_of_or : (a b : Bool) → (a || b) ≡ false → a ≡ false
first_of_or a b h = ground arith

pub discount_order-Books :
    (db : Db) (tax property_id id amount : ℕ) {db' : Db}
    → Kept db
    → discount_order db tax property_id id amount ≡ ok db'
    → Kept db'
unfolding discount_order
discount_order-Books db tax property_id id amount v h =
    through (require_order db property_id id) _ h λ order e h1.
      let is_paid = is_order_status order.status OrderStatus.paid in
      let is_void = is_order_status order.status OrderStatus.cancelled in
      through (refuse_if (is_paid || is_void) order_not_billed) _ h1 λ _ live h2.
        subst Kept (committed h2) (
          set_order-Books db property_id id _ e (discount_patch-same _ _ amount)
            (ap (λ s. is_order_status s OrderStatus.paid) (discount_patch-status _ _ amount order)
              ∙ first_of_or is_paid is_void (refuse_if-eq-ok _ _ live))
            v)

pub cancel_order-Books :
    (db : Db) (property_id id : ℕ) (now : Timestamp) {db' : Db}
    → Kept db
    → cancel_order db property_id id now ≡ ok db'
    → Kept db'
unfolding cancel_order
cancel_order-Books db property_id id now v h =
    through (require_order db property_id id) _ h λ order e h1.
      through (assert_order_transition order.status OrderStatus.cancelled) _ h1 λ _ _ h2.
        through
          (refuse_if (any (λ l. is_kot l.kot_status KotStatus.served) (items_for db id))
            order_has_served_items)
          _ h2
          λ _ _ h3. subst Kept (committed h3) (
            keep _ _ (set_table_status-SameBooks _ order.table_id TableStatus.open_)
              (set_order-Books db property_id id _ e (λ o. (refl, refl)) refl v))

pub create_order-Books :
    (db : Db) (property_id : ℕ) (table : Option ℕ) (guests : ℕ) (waiter : Option ℕ) (id : ℕ)
    {db' : Db}
    → Kept db
    → ((o : RestaurantOrder) → In o db.orders → o.id ≢ id)
    → any (λ p. p.order_id == id) db.order_payments ≡ false
    → create_order db property_id table guests waiter id ≡ ok db'
    → Kept db'
unfolding create_order order_attempt insert_order new_order
create_order-Books db property_id table guests waiter id v fresh new h =
    let (n, tried) = create_attempts-eq-ok 4 0 _ h in
    let row = new_order db property_id table guests waiter id n in
    through (check_table db property_id table) _ tried λ _ _ h1.
      through (insert_order db row) _ h1 λ created put h2.
        through
          (refuse_if
            (any
              (λ p.
                (p.property_id == row.property_id && codes_eq p.order_number row.order_number)
                || clashes row p)
              db.orders)
            unique_violation)
          _ put
          λ _ _ h3. subst Kept (committed h2) (
            keep created _ (set_table_status-SameBooks created table TableStatus.occupied) (
              subst Kept (committed h3)
                (add-Books db.orders db.order_payments row fresh new refl refl v)))

pub add_items-Books :
    (db : Db) (property_id id : ℕ) (lines : List AddedLine) {db' : Db}
    → Kept db
    → add_items db property_id id lines ≡ ok db'
    → Kept db'
unfolding add_items
add_items-Books db property_id id lines v h =
    through (require_order db property_id id) _ h λ order _ h1.
      through (refuse_if (not (is_order_status order.status OrderStatus.opened)) order_not_open) _
        h1
        λ _ _ h2.
          through (snapshots db property_id id lines) _ h2 λ _ _ h3. subst Kept (committed h3) v

pub set_kot_status-Books :
    (db : Db) (property_id id item_id : ℕ) (to : KotStatus) (role : KitchenRole) {db' : Db}
    → Kept db
    → set_kot_status db property_id id item_id to role ≡ ok db'
    → Kept db'
unfolding set_kot_status set_item_status
set_kot_status-Books db property_id id item_id to role v h =
    through (require_order_item db property_id id item_id) _ h λ found _ h1.
      through (refuse_if (not (is_order_status found.0.status OrderStatus.opened)) order_not_open) _
        h1
        λ _ _ h2.
          through (refuse_if (not (role_may_set_kot role to)) kot_not_permitted) _ h2 λ _ _ h3.
            through (assert_kot_transition found.1.kot_status to) _ h3
              λ _ _ h4. subst Kept (committed h4) v

pub cancel_item-Books :
    (db : Db) (property_id id item_id : ℕ) {db' : Db}
    → Kept db
    → cancel_item db property_id id item_id ≡ ok db'
    → Kept db'
unfolding cancel_item set_item_status
cancel_item-Books db property_id id item_id v h =
    through (require_order_item db property_id id item_id) _ h λ found _ h1.
      through (refuse_if (not (is_order_status found.0.status OrderStatus.opened)) order_not_open) _
        h1
        λ _ _ h2.
          through (refuse_if (not (is_kot found.1.kot_status KotStatus.new)) item_cancel_too_late) _
            h2 λ _ _ h3. subst Kept (committed h3) v
