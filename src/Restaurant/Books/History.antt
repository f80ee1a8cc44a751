-- ===== src/Restaurant/Books/History.antt =====
-- Any calls of the order service keep the books (Restaurant/Orders.antt, Restaurant/Settle.antt).
use travelo.Base.{ℕ, ◌≡◌, ◌≢◌, false, List, Option, any, ok, In, ◌==◌}
use travelo.Schema.{Db, Timestamp, RestaurantOrder, KotStatus}
use travelo.Restaurant.{KitchenRole}
use travelo.Restaurant.Orders.{
  AddedLine, create_order, add_items, set_kot_status, cancel_item, bill_order, discount_order,
  cancel_order,
}
use travelo.Restaurant.Settle.{SettleOrder, settle}
use travelo.Restaurant.Books.{Books}
use travelo.Restaurant.Books.Settling.{settle-Books}
use travelo.Restaurant.Books.Calls.{
  create_order-Books, add_items-Books, set_kot_status-Books, cancel_item-Books, bill_order-Books,
  discount_order-Books, cancel_order-Books,
}

-- One committed call. A new order's key is one that no order has and no payment refers to.
pub data OrderCall : Db → Db → Type 0 where
  create_call :
      {db db' : Db} (property_id : ℕ) (table : Option ℕ) (guests : ℕ) (waiter : Option ℕ) (id : ℕ)
      → ((o : RestaurantOrder) → In o db.orders → o.id ≢ id)
      → any (λ p. p.order_id == id) db.order_payments ≡ false
      → create_order db property_id table guests waiter id ≡ ok db'
      → OrderCall db db'
  add_items_call :
      {db db' : Db} (property_id id : ℕ) (lines : List AddedLine)
      → add_items db property_id id lines ≡ ok db'
      → OrderCall db db'
  set_kot_status_call :
      {db db' : Db} (property_id id item_id : ℕ) (to : KotStatus) (role : KitchenRole)
      → set_kot_status db property_id id item_id to role ≡ ok db'
      → OrderCall db db'
  cancel_item_call :
      {db db' : Db} (property_id id item_id : ℕ)
      → cancel_item db property_id id item_id ≡ ok db'
      → OrderCall db db'
  bill_call :
      {db db' : Db} (tax property_id id : ℕ) (now : Timestamp)
      → bill_order db tax property_id id now ≡ ok db'
      → OrderCall db db'
  discount_call :
      {db db' : Db} (tax property_id id amount : ℕ)
      → discount_order db tax property_id id amount ≡ ok db'
      → OrderCall db db'
  settle_call :
      {db db' : Db} (property_id id : ℕ) (dto : SettleOrder) (by : Option ℕ) (line_id : ℕ)
      (now : Timestamp)
      → settle db property_id id dto by line_id now ≡ ok db'
      → OrderCall db db'
  cancel_call :
      {db db' : Db} (property_id id : ℕ) (now : Timestamp)
      → cancel_order db property_id id now ≡ ok db'
      → OrderCall db db'

-- Any number of calls, one after the other.
pub data OrderCalls : Db → Db → Type 0 where
  no_call : {db : Db} → OrderCalls db db
  call_then : {db mid db' : Db} → OrderCall db mid → OrderCalls mid db' → OrderCalls db db'

call-Books :
    {db db' : Db}
    → Books db.orders db.order_payments
    → OrderCall db db'
    → Books db'.orders db'.order_payments
call-Books v (create_call p table guests waiter id fresh new h) =
    create_order-Books _ p table guests waiter id v fresh new h
call-Books v (add_items_call p id lines h) = add_items-Books _ p id lines v h
call-Books v (set_kot_status_call p id item to role h) =
    set_kot_status-Books _ p id item to role v h
call-Books v (cancel_item_call p id item h) = cancel_item-Books _ p id item v h
call-Books v (bill_call tax p id now h) = bill_order-Books _ tax p id now v h
call-Books v (discount_call tax p id amount h) = discount_order-Books _ tax p id amount v h
call-Books v (settle_call p id dto by line_id now h) = settle-Books _ p id dto by line_id now v h
call-Books v (cancel_call p id now h) = cancel_order-Books _ p id now v h

-- From orders with unique ids whose paid amount is the sum of their payments and whose total is
-- covered where they are paid, every sequence of committed calls of the order service, each new
-- order under an unused key, leads to such orders.
pub calls-Books :
    {db db' : Db}
    → Books db.orders db.order_payments
    → OrderCalls db db'
    → Books db'.orders db'.order_payments
calls-Books v no_call = v
calls-Books v (call_then call rest) = calls-Books (call-Books v call) rest
