-- ===== src/Scenarios/Store.antt =====
-- A store with one item and a purchase order that was sent.
use travelo.Base.{
  ◌≡◌, refl, sym, subst, arith, inl, inr, ok, false, [], ◌∷◌, none, some, refused, In, select,
  update_row, any, Keyed, ◌∙◌,
}
use travelo.Base.Int.{pos, ◌+ℤ◌, ◌-ℤ◌, sum_ℤ}
use travelo.Schema.{
  Db, InventoryItem, StockMovementType, PurchaseOrder, PurchaseOrderStatus, po_not_receivable,
}
use travelo.Inventory.{
  apply_movement, write_movement, require_item, is_live_item, set_item, stock_delta,
  stock_stays_non_negative, is_zero_adjustment, new_movement, remove_item,
}
use travelo.Inventory.Orders.{
  require_po, receive, receive_lines, set_cost, set_po, is_live_order, assert_po_transition,
  can_transition_po, po_transitions,
}
use travelo.Inventory.Ledger.{Reconciled, Tallied, delta_of}
use travelo.Inventory.Receipt.{ordered, receive_fills}
use travelo.Inventory.Received.{KeyedOrders, keyed_end, keyed_then, receive_again}
use travelo.Inventory.Calls.{no_call, call_then, receive_call, remove_item_call, calls-Reconciled}
use travelo.Scenarios.Hotel.{hotel, committed_db}

abbrev rice : InventoryItem
rice = record {
  id = 1;
  property_id = 1;
  sku = 82 ∷ [];
  reorder_level = 2;
  current_qty = pos 5;
  unit_cost_paise = 100;
  deleted = false;
}

abbrev rice_order : PurchaseOrder
rice_order = record {
  id = 1;
  property_id = 1;
  po_number = 1 ∷ [];
  supplier_id = none;
  supplier_name = none;
  status = PurchaseOrderStatus.sent;
  lines = record { item_id = 1; qty = 3; unit_price_paise = 200; line_total_paise = 600 } ∷ [];
  total_paise = 600;
  received_at = none;
  created_by = 7;
  deleted = false;
}

abbrev store : Db
store = record hotel {
  items = rice ∷ [];
  movements =
      record {
        property_id = 1;
        item_id = 1;
        type = StockMovementType.adjust;
        qty = 5;
        qty_delta = pos 5;
        balance_after = pos 5;
        purchase_order_id = none;
        created_by = some 7;
      }
      ∷ [];
  purchase_orders = rice_order ∷ [];
}

store-Reconciled : Reconciled store
unfolding Reconciled Tallied sum_ℤ delta_of ◌+ℤ◌
store-Reconciled i (inl e) = subst (Tallied store.movements) (sym e) (refl, omega arith)
store-Reconciled i (inr m) = elim m [ ]

abbrev filled : Db
filled = committed_db (receive store 1 1 7 900)

received_store : receive store 1 1 7 900 ≡ ok filled
unfolding receive receive_lines require_po is_live_order select apply_movement write_movement
    require_item is_live_item set_item stock_delta stock_stays_non_negative is_zero_adjustment
    new_movement set_cost set_po assert_po_transition can_transition_po po_transitions any ◌+ℤ◌ ◌-ℤ◌
received_store = refl

abbrev rice_filled : InventoryItem
rice_filled = record rice { current_qty = pos 8; unit_cost_paise = 200 }

rice_there : In rice_filled filled.items
unfolding receive receive_lines require_po is_live_order select apply_movement write_movement
    require_item is_live_item set_item stock_delta stock_stays_non_negative is_zero_adjustment
    new_movement set_cost set_po assert_po_transition can_transition_po po_transitions any ◌+ℤ◌ ◌-ℤ◌
    update_row
rice_there = inl refl

receive_fills_example :
    rice_filled.current_qty ≡ rice.current_qty +ℤ pos (ordered 1 rice_order.lines)
unfolding require_po select is_live_order
receive_fills_example =
    receive_fills store 1 1 7 900 rice_order rice rice_filled store-Reconciled refl received_store
      (inl refl) rice_there refl

abbrev emptied : Db
emptied = committed_db (remove_item filled 1 1)

removed_rice : remove_item filled 1 1 ≡ ok emptied
unfolding receive receive_lines require_po is_live_order select apply_movement write_movement
    require_item is_live_item set_item stock_delta stock_stays_non_negative is_zero_adjustment
    new_movement set_cost set_po assert_po_transition can_transition_po po_transitions any ◌+ℤ◌ ◌-ℤ◌
    update_row remove_item
removed_rice = refl

keyed : (p : PurchaseOrder) → Keyed (λ (q : PurchaseOrder). q.id) (p ∷ [])
unfolding Keyed
keyed p a b (inl e) (inl f) same = e ∙ sym f
keyed p a b (inl e) (inr m) same = elim m [ ]
keyed p a b (inr m) n same = elim m [ ]

filled_keyed : KeyedOrders filled
unfolding receive receive_lines require_po is_live_order select apply_movement write_movement
    require_item is_live_item set_item stock_delta stock_stays_non_negative is_zero_adjustment
    new_movement set_cost set_po assert_po_transition can_transition_po po_transitions any ◌+ℤ◌ ◌-ℤ◌
    update_row
filled_keyed = keyed _

emptied_keyed : KeyedOrders emptied
unfolding receive receive_lines require_po is_live_order select apply_movement write_movement
    require_item is_live_item set_item stock_delta stock_stays_non_negative is_zero_adjustment
    new_movement set_cost set_po assert_po_transition can_transition_po po_transitions any ◌+ℤ◌ ◌-ℤ◌
    update_row remove_item
emptied_keyed = keyed _

receive_again_example : receive emptied 1 1 8 901 ≡ refused po_not_receivable
receive_again_example =
    receive_again store 1 1 7 8 900 901 received_store
      (keyed_then filled_keyed (remove_item_call 1 1 removed_rice) (keyed_end emptied_keyed))

calls-Reconciled_example : Reconciled filled
calls-Reconciled_example =
    calls-Reconciled store-Reconciled (call_then (receive_call 1 1 7 900 received_store) no_call)
