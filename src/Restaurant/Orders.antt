-- ===== src/Restaurant/Orders.antt =====
-- src/modules/restaurant/orders.service.ts: an order from its opening to its bill, with the tables'
-- part of it (tables.service.ts). What a call returns and pushes to open screens is not kept.
use travelo.Base.{
  ℕ, ◌+◌, Bool, true, false, not, ◌&&◌, ◌||◌, List, [], ◌∷◌, ◌++◌, Option, none, some, any, filter,
  select, update_row, count_of, codes_eq, holds, ◌==◌, Outcome, ok, refuse_if, require, ◌>>=◌, ◌>>◌,
}
use travelo.Schema.{
  Db, Timestamp, RestaurantTable, TableStatus, is_blocked, MenuItem, is_active_item,
  RestaurantOrder, OrderStatus, is_order_status, OrderItem, KotStatus, is_kot, Refusal,
  order_not_found, order_item_not_found, table_not_found, table_unavailable, table_occupied,
  order_not_open, order_not_billed, menu_item_not_found, item_unavailable, item_cancel_too_late,
  kot_not_permitted, empty_bill, order_has_served_items, unique_violation,
}
use travelo.Reservation.Booking.{create_attempts}
use travelo.Restaurant.{
  KitchenRole, role_may_set_kot, assert_kot_transition, assert_order_transition,
  counts_towards_bill, BillTotals, compute_bill, format_order_number,
}

unfoldable pub is_order : ℕ → ℕ → RestaurantOrder → Bool
is_order property_id id o = o.id == id && o.property_id == property_id

-- `requireOrder`
unfoldable pub require_order : Db → ℕ → ℕ → Outcome Refusal RestaurantOrder
require_order db property_id id =
    require (select (is_order property_id id) db.orders) order_not_found

unfoldable pub set_order : Db → ℕ → (RestaurantOrder → RestaurantOrder) → Db
set_order db id patch = record db { orders = update_row (λ o. o.id) id patch db.orders }

-- `itemsFor`
unfoldable pub items_for : Db → ℕ → List OrderItem
items_for db order_id = filter (λ i. i.order_id == order_id) db.order_items

-- `requireTable`
unfoldable pub require_table : Db → ℕ → ℕ → Outcome Refusal RestaurantTable
require_table db property_id id =
    require (select (λ t. t.id == id && t.property_id == property_id && not t.deleted) db.tables)
      table_not_found

-- `TablesService.setStatus`, where the order has a table.
unfoldable pub set_table_status : Db → Option ℕ → TableStatus → Db
set_table_status db none status = db
set_table_status db (some table_id) status = record db {
  tables = update_row (λ t. t.id) table_id (λ t. record t { status = status }) db.tables;
}

unfoldable pub is_open_at : ℕ → RestaurantOrder → Bool
is_open_at table_id o = holds o.table_id table_id && is_order_status o.status OrderStatus.opened

unfoldable pub check_table : Db → ℕ → Option ℕ → Outcome Refusal (Unit {0})
check_table db property_id none = ok tt
check_table db property_id (some table_id) = do
  table ← require_table db property_id table_id
  refuse_if (is_blocked table.status) table_unavailable
  refuse_if (any (is_open_at table_id) db.orders) table_occupied

unfoldable pub new_order : Db → ℕ → Option ℕ → ℕ → Option ℕ → ℕ → ℕ → RestaurantOrder
new_order db property_id table_id guest_count waiter id attempt = record {
  id = id;
  property_id = property_id;
  table_id = table_id;
  order_number =
      format_order_number (count_of (λ o. o.property_id == property_id) db.orders + 1 + attempt);
  status = OrderStatus.opened;
  waiter_staff_id = waiter;
  guest_count = guest_count;
  subtotal_paise = 0;
  discount_paise = 0;
  service_charge_paise = 0;
  tax_paise = 0;
  total_paise = 0;
  paid_paise = 0;
  corporate_account_id = none;
  payment_method = none;
  reservation_id = none;
  settled_by = none;
  billed_at = none;
  paid_at = none;
  cancelled_at = none;
}

-- An open order at the row's table.
unfoldable pub clashes : RestaurantOrder → RestaurantOrder → Bool
clashes o p = elim o.table_id [ none ↦ false | some table_id ↦ is_open_at table_id p ]

-- `insert(restaurantOrders)`, under the unique indexes on (property, number) and on the table of
-- open orders.
unfoldable pub insert_order : Db → RestaurantOrder → Outcome Refusal Db
unfolding clashes
insert_order db o =
    refuse_if
      (any
        (λ p.
          (p.property_id == o.property_id && codes_eq p.order_number o.order_number) || clashes o p)
        db.orders)
      unique_violation
    >> ok (record db { orders = db.orders ++ o ∷ [] })

-- The transaction of one attempt.
unfoldable pub order_attempt : Db → ℕ → Option ℕ → ℕ → Option ℕ → ℕ → ℕ → Outcome Refusal Db
order_attempt db property_id table_id guest_count waiter id attempt = do
  check_table db property_id table_id
  created ← insert_order db (new_order db property_id table_id guest_count waiter id attempt)
  ok (set_table_status created table_id TableStatus.occupied)

-- `create`
unfoldable pub create_order : Db → ℕ → Option ℕ → ℕ → Option ℕ → ℕ → Outcome Refusal Db
create_order db property_id table_id guest_count waiter id =
    create_attempts 4 0 (order_attempt db property_id table_id guest_count waiter id)

-- A line of `addItems`, with the key that the database generates for its row.
pub record AddedLine : Type 0 where
  pub id : ℕ
  pub menu_item_id : ℕ
  pub qty : ℕ

-- The item of a line on the live menu.
unfoldable pub orderable : Db → ℕ → ℕ → Outcome Refusal MenuItem
orderable db property_id menu_item_id = do
  item ←
      require (select (λ m. m.property_id == property_id && m.id == menu_item_id) db.menu_items)
        menu_item_not_found
  refuse_if item.deleted menu_item_not_found
  refuse_if (not (is_active_item item.status)) item_unavailable
  ok item

unfoldable pub snapshot : ℕ → AddedLine → MenuItem → OrderItem
snapshot order_id line item = record {
  id = line.id;
  order_id = order_id;
  menu_item_id = some item.id;
  price_paise_snapshot = item.price_paise;
  qty = line.qty;
  kot_status = KotStatus.new;
}

-- All lines resolve, or none is written.
unfoldable pub snapshots : Db → ℕ → ℕ → List AddedLine → Outcome Refusal (List OrderItem)
snapshots db property_id order_id [] = ok []
snapshots db property_id order_id (l ∷ ls) = orderable db property_id l.menu_item_id >>= λ item.
    snapshots db property_id order_id ls >>= λ rest. ok (snapshot order_id l item ∷ rest)

-- `addItems`
unfoldable pub add_items : Db → ℕ → ℕ → List AddedLine → Outcome Refusal Db
add_items db property_id order_id lines = do
  order ← require_order db property_id order_id
  refuse_if (not (is_order_status order.status OrderStatus.opened)) order_not_open
  added ← snapshots db property_id order_id lines
  ok (record db { order_items = db.order_items ++ added })

-- `requireOrderItem`
unfoldable pub require_order_item : Db → ℕ → ℕ → ℕ → Outcome Refusal (RestaurantOrder × OrderItem)
require_order_item db property_id order_id item_id = do
  order ← require_order db property_id order_id
  item ←
      require (select (λ i. i.id == item_id && i.order_id == order_id) db.order_items)
        order_item_not_found
  ok (order, item)

unfoldable pub set_item_status : Db → ℕ → KotStatus → Db
set_item_status db item_id to = record db {
  order_items = update_row (λ i. i.id) item_id (λ i. record i { kot_status = to }) db.order_items;
}

-- `setKotStatus`
unfoldable pub set_kot_status : Db → ℕ → ℕ → ℕ → KotStatus → KitchenRole → Outcome Refusal Db
set_kot_status db property_id order_id item_id to role = do
  found ← require_order_item db property_id order_id item_id
  refuse_if (not (is_order_status found.0.status OrderStatus.opened)) order_not_open
  refuse_if (not (role_may_set_kot role to)) kot_not_permitted
  assert_kot_transition found.1.kot_status to
  ok (set_item_status db item_id to)

-- `cancelItem`
unfoldable pub cancel_item : Db → ℕ → ℕ → ℕ → Outcome Refusal Db
cancel_item db property_id order_id item_id = do
  found ← require_order_item db property_id order_id item_id
  refuse_if (not (is_order_status found.0.status OrderStatus.opened)) order_not_open
  refuse_if (not (is_kot found.1.kot_status KotStatus.new)) item_cancel_too_late
  ok (set_item_status db item_id KotStatus.cancelled)

-- `serviceChargeBp`
unfoldable pub service_charge_bp : Db → ℕ → ℕ
service_charge_bp db property_id = elim (select (λ s. s.property_id == property_id) db.settings) [
  | none ↦ 0
  | some s ↦ s.restaurant_service_charge_bp
]

-- `bill`
unfoldable pub bill_order : Db → ℕ → ℕ → ℕ → Timestamp → Outcome Refusal Db
bill_order db tax_percent property_id order_id now = do
  order ← require_order db property_id order_id
  assert_order_transition order.status OrderStatus.billed
  let lines = items_for db order_id
  refuse_if (not (any (λ l. counts_towards_bill l.kot_status) lines)) empty_bill
  let totals =
      compute_bill lines tax_percent order.discount_paise (service_charge_bp db property_id)
  ok (
      set_table_status
        (set_order db order_id (λ o. record o {
          status = OrderStatus.billed;
          subtotal_paise = totals.subtotal_paise;
          discount_paise = totals.discount_paise;
          service_charge_paise = totals.service_charge_paise;
          tax_paise = totals.tax_paise;
          total_paise = totals.total_paise;
          billed_at = some now;
        }))
        order.table_id TableStatus.billed)

-- The patch of `applyDiscount`: a billed order is totalled again.
unfoldable pub discount_patch : Bool → BillTotals → ℕ → RestaurantOrder → RestaurantOrder
discount_patch true totals amount o = record o {
  discount_paise = amount;
  subtotal_paise = totals.subtotal_paise;
  service_charge_paise = totals.service_charge_paise;
  tax_paise = totals.tax_paise;
  total_paise = totals.total_paise;
}
discount_patch false totals amount o = record o { discount_paise = amount }

-- `applyDiscount`
unfoldable pub discount_order : Db → ℕ → ℕ → ℕ → ℕ → Outcome Refusal Db
unfolding discount_patch
discount_order db tax_percent property_id order_id amount = do
  order ← require_order db property_id order_id
  refuse_if
      (is_order_status order.status OrderStatus.paid
        || is_order_status order.status OrderStatus.cancelled)
      order_not_billed
  let totals =
      compute_bill (items_for db order_id) tax_percent amount (service_charge_bp db property_id)
  ok (
      set_order db order_id
        (discount_patch (is_order_status order.status OrderStatus.billed) totals amount))

-- `cancel`
unfoldable pub cancel_order : Db → ℕ → ℕ → Timestamp → Outcome Refusal Db
cancel_order db property_id order_id now = do
  order ← require_order db property_id order_id
  assert_order_transition order.status OrderStatus.cancelled
  refuse_if (any (λ l. is_kot l.kot_status KotStatus.served) (items_for db order_id))
      order_has_served_items
  ok (
      set_table_status
        (set_order db order_id
          (λ o. record o { status = OrderStatus.cancelled; cancelled_at = some now }))
        order.table_id TableStatus.open_)
