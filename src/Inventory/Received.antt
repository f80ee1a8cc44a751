-- ===== src/Inventory/Received.antt =====
-- A purchase order that was received stays received (Inventory/Orders.antt), over any calls of the
-- store's services.
use travelo.Base.{
  ℕ, ◌≡◌, ◌≢◌, refl, sym, ap, subst, ◌∙◌, inl, inr, Bool, true, false, not, ◌&&◌, List, [], ◌∷◌,
  ◌++◌, Option, none, some, any, In, append-In_left, update_row, In-update_row_other, Keyed, Sole,
  select-Sole, select-some, Bool-cases, ltb, codes_eq, ◌==◌, Outcome, ok, refused, through,
  committed, refuse_if, refuse_if-eq-ok, require-eq-ok, arith,
}
use travelo.Schema.{
  Db, PurchaseOrder, PurchaseOrderStatus, is_po_status, Timestamp, Refusal, duplicate_sku, empty_po,
  po_not_editable, po_not_receivable, transaction_aborted,
}
use travelo.Inventory.{
  create_item, opening_balance, sku_taken, update_item, remove_item, record_movement, require_item,
  check_sku, set_item, write_movement, new_item,
}
use travelo.Inventory.Orders.{
  target_status, create_po, update_po, set_po_status, receive, require_po, set_po, insert_po,
  resolve_lines, resolve_supplier_name, po_is_editable, supplier_patch, lines_patch, is_live_order,
  assert_po_transition, can_transition_po, po_transitions,
}
use travelo.Inventory.Ledger.{apply_movement-written}
use travelo.Inventory.Receipt.{
  receive-lines, receive-received, receive_lines-purchase_orders, refuse_received,
}
use travelo.Inventory.Calls.{
  StoreCall, create_item_call, update_item_call, remove_item_call, record_movement_call,
  create_po_call, update_po_call, set_po_status_call, receive_call,
}

-- The live order with this id at this property.
unfoldable pub OrderKey : ℕ → ℕ → PurchaseOrder → Type 0
OrderKey property_id id p = (p.id ≡ id) × (p.property_id ≡ property_id) × (p.deleted ≡ false)

-- That order is in the table, received.
unfoldable pub IsReceived : ℕ → ℕ → List PurchaseOrder → Type 0
unfolding OrderKey
IsReceived property_id id ps =
    (q : PurchaseOrder) × In q ps
    × OrderKey property_id id q
    × (q.status ≡ PurchaseOrderStatus.received)

-- The ids of the orders are a primary key.
abbrev pub KeyedOrders : Db → Type 0
KeyedOrders db = Keyed (λ (p : PurchaseOrder). p.id) db.purchase_orders

-- Calls one after the other, through databases that keep the primary key.
pub data KeyedCalls : Db → Db → Type 0 where
  keyed_end : {db : Db} → KeyedOrders db → KeyedCalls db db
  keyed_then :
      {db mid db' : Db} → KeyedOrders db → StoreCall db mid → KeyedCalls mid db' → KeyedCalls db db'

live_key :
    (property_id id : ℕ) (p : PurchaseOrder)
    → is_live_order property_id id p ≡ true
    → OrderKey property_id id p
unfolding is_live_order OrderKey
live_key property_id id p e = ground (arith, e)

key_live :
    (property_id id : ℕ) (p : PurchaseOrder)
    → OrderKey property_id id p
    → is_live_order property_id id p ≡ true
unfolding is_live_order OrderKey
key_live property_id id p (a, b, c) = ground (arith, a, b, c)

require_po-In :
    (db : Db) (property_id id : ℕ) {p : PurchaseOrder}
    → require_po db property_id id ≡ ok p
    → In p db.purchase_orders × OrderKey property_id id p
unfolding require_po
require_po-In db property_id id {p} e =
    let (m, live) = select-some _ db.purchase_orders (require-eq-ok _ _ e) in
    (m, live_key property_id id p live)

require_po-Received :
    (db : Db) (property_id id : ℕ)
    → KeyedOrders db
    → IsReceived property_id id db.purchase_orders
    → (q : PurchaseOrder) × (require_po db property_id id ≡ ok q)
      × (q.status ≡ PurchaseOrderStatus.received)
unfolding require_po Keyed Sole IsReceived OrderKey
require_po-Received db property_id id keys (q, m, k, done) =
    let found =
      select-Sole (OrderKey property_id id) (is_live_order property_id id) db.purchase_orders q
        (λ p h. key_live property_id id p h) (λ p e. live_key property_id id p e)
        (m, k, (λ b n h. keys b q n m (h.0 ∙ sym k.0))) in
    (q, rw found refl, done)

-- A call that changes the row of an order which is not received leaves a received one.
other_order :
    (db : Db) (property_id id property_id' id' : ℕ) (f : PurchaseOrder → PurchaseOrder)
    {before : PurchaseOrder}
    → KeyedOrders db
    → require_po db property_id' id' ≡ ok before
    → before.status ≢ PurchaseOrderStatus.received
    → IsReceived property_id id db.purchase_orders
    → IsReceived property_id id (set_po db id' f).purchase_orders
unfolding set_po IsReceived OrderKey Keyed
other_order db property_id id property_id' id' f {before} keys e open_ (q, m, k, done) =
    let (n, k') = require_po-In db property_id' id' e in
    (
      q,
      In-update_row_other (λ p. p.id) id' f q db.purchase_orders
          (λ same.
            open_
              (ap (λ (p : PurchaseOrder). p.status) (keys before q n m (k'.0 ∙ sym same)) ∙ done))
          m,
      k,
      done,
    )

-- A test that a received order passes, and this status does not.
open_by :
    (g : PurchaseOrderStatus → Bool) (s : PurchaseOrderStatus)
    → g PurchaseOrderStatus.received ≡ true
    → g s ≡ false
    → s ≢ PurchaseOrderStatus.received
open_by g s a b e = clash (sym a ∙ ap g (sym e) ∙ b)
  where
    clash : true ≡ false → ⊥
    clash q = cc

same_orders :
    (db db' : Db) (property_id id : ℕ)
    → db'.purchase_orders ≡ db.purchase_orders
    → IsReceived property_id id db.purchase_orders
    → IsReceived property_id id db'.purchase_orders
same_orders db db' property_id id e v = subst (IsReceived property_id id) (sym e) v

opening_balance-orders :
    (db : Db) (property_id id created_by : ℕ) (qty : Option ℕ) {db' : Db}
    → opening_balance db property_id id created_by qty ≡ ok db'
    → db'.purchase_orders ≡ db.purchase_orders
unfolding opening_balance write_movement set_item
opening_balance-orders db property_id id created_by none h =
    ap (λ (d : Db). d.purchase_orders) (sym (committed h))
opening_balance-orders db property_id id created_by (some n) h = elim (Bool-cases (ltb 0 n)) [
  | inl more ↦
      sym (ap (λ (d : Db). d.purchase_orders) (apply_movement-written db _ (rw more at h)).4)
  | inr none_left ↦ ap (λ (d : Db). d.purchase_orders) (sym (committed (rw none_left at h)))
]

insert_po-Received :
    (db : Db) (order : PurchaseOrder) (why : Refusal) (property_id id : ℕ) {db' : Db}
    → IsReceived property_id id db.purchase_orders
    → insert_po db order (refused why) ≡ ok db'
    → IsReceived property_id id db'.purchase_orders
unfolding insert_po IsReceived
insert_po-Received db order why property_id id (q, m, k, done) h =
    elim (Bool-cases (
      any (λ p. p.property_id == order.property_id && codes_eq p.po_number order.po_number)
        db.purchase_orders)) [
          | inl taken ↦ absurd (clash (rw taken at h))
          | inr free ↦
              subst (λ (d : Db). IsReceived property_id id d.purchase_orders)
                (committed (rw free at h))
                (q, append-In_left q db.purchase_orders (order ∷ []) m, k, done)
        ]
  where
    clash : {db' : Db} → ◌≡◌ {A = Outcome Refusal Db} (refused why) (ok db') → ⊥
    clash e = cc

receive-Received :
    (db : Db) (property_id id property_id' id' by : ℕ) (now : Timestamp) {db' : Db}
    → KeyedOrders db
    → IsReceived property_id id db.purchase_orders
    → receive db property_id' id' by now ≡ ok db'
    → IsReceived property_id id db'.purchase_orders
unfolding receive set_po
receive-Received db property_id id property_id' id' by now keys v h =
    through (require_po db property_id' id') _ h λ before e h1.
      through
        (refuse_if (not (is_po_status before.status PurchaseOrderStatus.sent)) po_not_receivable) _
        h1
        λ _ sent _.
          let t = receive-lines db property_id' id' by now before e h in
          let held = receive_lines-purchase_orders db property_id' before.id by before.lines t.1 in
          let shut =
            open_by (λ s. not (is_po_status s PurchaseOrderStatus.sent)) before.status refl
              (refuse_if-eq-ok _ _ sent) in
          let f = λ (p : PurchaseOrder). record p {
            status = PurchaseOrderStatus.received;
            received_at = some now;
          } in
          subst (λ (d : Db). IsReceived property_id id d.purchase_orders) t.2
            (subst (λ ps. IsReceived property_id id (update_row (λ p. p.id) id' f ps)) (sym held)
              (other_order db property_id id property_id' id' f keys e shut v))

call-Received :
    {db db' : Db} (property_id id : ℕ)
    → KeyedOrders db
    → IsReceived property_id id db.purchase_orders
    → StoreCall db db'
    → IsReceived property_id id db'.purchase_orders
unfolding create_item update_item remove_item record_movement write_movement set_item create_po
    update_po set_po_status po_is_editable assert_po_transition can_transition_po po_transitions any
call-Received {db} {db'} property_id id keys v (create_item_call p dto by new_id fresh h) =
    through (refuse_if (sku_taken db p new_id _) duplicate_sku) _ h λ _ _ h1.
      same_orders db db' property_id id
        (opening_balance-orders (record db { items = db.items ++ new_item p dto new_id ∷ [] }) p
          new_id by dto.opening_qty h1)
        v
call-Received {db} {db'} property_id id keys v (update_item_call p i dto h) =
    through (require_item db p i) _ h λ _ _ h1. through (check_sku db p i dto.sku) _ h1 λ _ _ h2.
      same_orders db db' property_id id (ap (λ (d : Db). d.purchase_orders) (sym (committed h2))) v
call-Received {db} {db'} property_id id keys v (remove_item_call p i h) =
    through (require_item db p i) _ h λ _ _ h1.
      same_orders db db' property_id id (ap (λ (d : Db). d.purchase_orders) (sym (committed h1))) v
call-Received {db} {db'} property_id id keys v (record_movement_call p i type qty by h) =
    same_orders db db' property_id id
      (sym (ap (λ (d : Db). d.purchase_orders) (apply_movement-written db _ h).4)) v
call-Received {db} {db'} property_id id keys v (create_po_call p dto by new_id h) =
    through (refuse_if (elim dto.lines [ [] ↦ true | _ ∷ _ ↦ false ]) empty_po) _ h λ _ _ h1.
      through (resolve_lines db p dto.lines) _ h1 λ _ _ h2.
        through (resolve_supplier_name db p dto.supplier_id dto.supplier_name) _ h2
          λ _ _ h3. insert_po-Received db _ transaction_aborted property_id id v h3
call-Received {db} {db'} property_id id keys v (update_po_call p i dto h) =
    through (require_po db p i) _ h λ before e h1.
      through (refuse_if (not (po_is_editable before.status)) po_not_editable) _ h1 λ _ draft h2.
        through (supplier_patch db p dto.supplier_id dto.supplier_name) _ h2 λ _ _ h3.
          through (lines_patch db p dto.lines) _ h3 λ _ _ h4.
            subst (λ (d : Db). IsReceived property_id id d.purchase_orders) (committed h4)
              (other_order db property_id id p i _ keys e
                (open_by (λ s. not (po_is_editable s)) before.status refl
                  (refuse_if-eq-ok _ _ draft))
                v)
call-Received {db} {db'} property_id id keys v (set_po_status_call p i to h) =
    through (require_po db p i) _ h λ before e h1.
      through (assert_po_transition before.status (target_status to)) _ h1 λ _ allowed h2.
        subst (λ (d : Db). IsReceived property_id id d.purchase_orders) (committed h2)
          (other_order db property_id id p i _ keys e
            (open_by (λ s. not (can_transition_po s (target_status to))) before.status refl
              (refuse_if-eq-ok _ _ allowed))
            v)
call-Received {db} {db'} property_id id keys v (receive_call p i by now h) =
    receive-Received db property_id id p i by now keys v h

calls-Received :
    {db db' : Db} (property_id id : ℕ)
    → IsReceived property_id id db.purchase_orders
    → KeyedCalls db db'
    → IsReceived property_id id db'.purchase_orders × KeyedOrders db'
calls-Received property_id id v (keyed_end keys) = (v, keys)
calls-Received property_id id v (keyed_then keys call rest) =
    calls-Received property_id id (call-Received property_id id keys v call) rest

-- After a purchase order was received and then any sequence of committed calls of the item and
-- purchase-order services, through databases in which the orders' ids are unique, receiving it
-- again, by anyone and at any time, is refused.
pub receive_again :
    (db : Db) (property_id id received_by received_by' : ℕ) (now now' : Timestamp) {db' db'' : Db}
    → receive db property_id id received_by now ≡ ok db'
    → KeyedCalls db' db''
    → receive db'' property_id id received_by' now' ≡ refused po_not_receivable
unfolding IsReceived
receive_again db property_id id received_by received_by' now now' {db'} {db''} h calls =
    let (q, found, done) = receive-received db property_id id received_by now h in
    let (m, k) = require_po-In db' property_id id found in
    let (kept, keys) = calls-Received property_id id (q, m, k, done) calls in
    let (s, there, closed) = require_po-Received db'' property_id id keys kept in
    refuse_received db'' property_id id received_by' now' s there closed
