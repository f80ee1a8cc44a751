-- ===== src/Scenarios/Dining.antt =====
-- Two dishes at a table, billed and charged to a guest's room.
use travelo.Base.{
  ◌+◌, ◌≡◌, ◌≤◌, refl, true, false, [], ◌∷◌, ◌++◌, none, some, ok, In, any, filter, select,
  update_row, Keyed, arith,
}
use travelo.Base.Int.{pos}
use travelo.Schema.{
  Db, Reservation, ReservationStatus, is_status, FolioLine, TableStatus, MenuItemStatus,
  RestaurantPaymentMethod, RestaurantOrder, OrderStatus,
}
use travelo.Folio.Charges.{find_line_by_source}
use travelo.Restaurant.{
  compute_bill, gross_paise, counts_towards_bill, assert_order_transition, can_transition_order,
  order_transitions,
}
use travelo.Restaurant.Orders.{
  create_order, order_attempt, check_table, require_table, is_open_at, insert_order, clashes,
  new_order, set_table_status, add_items, require_order, is_order, snapshots, orderable, snapshot,
  bill_order, items_for, set_order,
}
use travelo.Restaurant.Settle.{SettleOrder, settle, tender, post_tender}
use travelo.Restaurant.Bill.{compute_bill_discount}
use travelo.Restaurant.RoomCharge.{settle-room_charge}
use travelo.Restaurant.Books.{Books}
use travelo.Restaurant.Books.History.{
  no_call, call_then, create_call, add_items_call, bill_call, settle_call, calls-Books,
}
use travelo.Reservation.Booking.{create_attempts, retry_taken}
use travelo.Scenarios.Hotel.{hotel, committed_db}

abbrev bistro : Db
bistro = record hotel {
  tables = record { id = 1; property_id = 1; status = TableStatus.open_; deleted = false } ∷ [];
  menu_items =
      record {
        id = 1;
        property_id = 1;
        price_paise = 20000;
        status = MenuItemStatus.active;
        deleted = false;
      }
      ∷ [];
}

abbrev seated : Db
seated = committed_db (create_order bistro 1 (some 1) 2 none 1)

abbrev served : Db
served = committed_db (add_items seated 1 1 (record { id = 1; menu_item_id = 1; qty = 2 } ∷ []))

abbrev billed_bistro : Db
billed_bistro = committed_db (bill_order served 5 1 1 700)

abbrev to_the_room : SettleOrder
to_the_room = record {
  method = RestaurantPaymentMethod.room_charge;
  reservation_id = some 5;
  corporate_account_id = none;
  amount_paise = none;
}

abbrev settled_bistro : Db
settled_bistro = committed_db (settle billed_bistro 1 1 to_the_room (some 7) 1 800)

created_seated : create_order bistro 1 (some 1) 2 none 1 ≡ ok seated
unfolding create_order order_attempt check_table require_table is_open_at insert_order clashes
    new_order set_table_status create_attempts retry_taken select any update_row
created_seated = refl

added_served : add_items seated 1 1 (record { id = 1; menu_item_id = 1; qty = 2 } ∷ []) ≡ ok served
unfolding create_order order_attempt check_table require_table is_open_at insert_order clashes
    new_order set_table_status create_attempts retry_taken select any update_row add_items
    require_order is_order snapshots orderable snapshot
added_served = refl

billed_served : bill_order served 5 1 1 700 ≡ ok billed_bistro
unfolding create_order order_attempt check_table require_table is_open_at insert_order clashes
    new_order set_table_status create_attempts retry_taken select any update_row add_items
    require_order is_order snapshots orderable snapshot bill_order assert_order_transition
    can_transition_order order_transitions items_for filter counts_towards_bill
billed_served = refl

-- The row of the billed order.
abbrev billed_row : RestaurantOrder
billed_row = elim billed_bistro.orders [ [] ↦ new_order bistro 1 none 0 none 0 0 | o ∷ os ↦ o ]

settled_billed : settle billed_bistro 1 1 to_the_room (some 7) 1 800 ≡ ok settled_bistro
unfolding create_order order_attempt check_table require_table is_open_at insert_order clashes
    new_order set_table_status create_attempts retry_taken select any update_row add_items
    require_order is_order snapshots orderable snapshot bill_order assert_order_transition
    can_transition_order order_transitions items_for filter counts_towards_bill settle tender
    post_tender set_order
settled_billed = refl

settle-room_charge_example :
    (stay : Reservation) × In stay billed_bistro.reservations
    × (stay.property_id ≡ 1)
    × (is_status stay.status ReservationStatus.checked_in ≡ true)
    × (some 5 ≡ some stay.id)
    × (l : FolioLine) × (settled_bistro.folio_lines ≡ billed_bistro.folio_lines ++ l ∷ [])
    × (l.reservation_id ≡ stay.id)
    × (l.amount_paise ≡ pos billed_row.total_paise)
    × (o : RestaurantOrder) × In o settled_bistro.orders
    × (o.id ≡ 1)
    × (o.status ≡ OrderStatus.paid)
unfolding create_order order_attempt check_table require_table is_open_at insert_order clashes
    new_order set_table_status create_attempts retry_taken select any update_row add_items
    require_order is_order snapshots orderable snapshot bill_order assert_order_transition
    can_transition_order order_transitions items_for filter counts_towards_bill set_order
    find_line_by_source
settle-room_charge_example =
    settle-room_charge billed_bistro 1 1 to_the_room (some 7) 1 800 refl refl refl settled_billed

no_orders : Books bistro.orders bistro.order_payments
unfolding Keyed
no_orders = record { keyed = λ a b m. elim m [ ]; booked = λ o m. elim m [ ] }

calls-Books_example : Books settled_bistro.orders settled_bistro.order_payments
unfolding any
calls-Books_example = calls-Books no_orders (
    call_then (create_call 1 (some 1) 2 none 1 (λ o m. elim m [ ]) refl created_seated) (
      call_then (add_items_call 1 1 _ added_served) (
        call_then (bill_call 5 1 1 700 billed_served)
          (call_then (settle_call 1 1 to_the_room (some 7) 1 800 settled_billed) no_call))))

compute_bill_discount_example :
    ((compute_bill (items_for served 1) 5 3000 1000).total_paise
      ≤ (compute_bill (items_for served 1) 5 1000 1000).total_paise)
    × ((compute_bill (items_for served 1) 5 1000 1000).subtotal_paise
          + (compute_bill (items_for served 1) 5 1000 1000).discount_paise
        ≡ gross_paise (items_for served 1))
    × ((compute_bill (items_for served 1) 5 1000 1000).discount_paise ≤ 1000)
compute_bill_discount_example =
    compute_bill_discount (items_for served 1) 5 1000 1000 3000 (omega arith)
