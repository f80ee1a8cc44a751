-- ===== src/Inventory/Receipt.antt =====
-- What receiving a purchase order does to the stock (Inventory/Orders.antt).
use travelo.Base.{
  ℕ, ◌+◌, ◌≡◌, refl, sym, ap, subst, ◌∙◌, Bool, true, not, List, [], ◌∷◌, some, sum_of, ◌==◌,
  if◌then◌else◌, In, through, committed, ok, refused, refuse_if, require-eq-ok, select-update_row,
  select-some, arith,
}
use travelo.Base.Int.{pos, ◌+ℤ◌, +ℤ_assoc}
use travelo.Schema.{
  Db, InventoryItem, PurchaseOrder, PurchaseOrderLine, PurchaseOrderStatus, is_po_status, Timestamp,
  po_not_receivable,
}
use travelo.Inventory.{
  ApplyMovement, apply_movement, set_item, new_movement, stock_delta, write_movement,
}
use travelo.Inventory.Orders.{
  require_po, receive, receive_lines, set_cost, set_po, assert_po_transition, is_live_order,
}
use travelo.Inventory.Ledger.{
  Reconciled, Reconciled-qty, apply_movement-written, ledger_qty, delta_of,
  apply_movement-Reconciled, set_item-Reconciled, sum-snoc, zero_sum,
}

-- How many units of an item the lines order.
unfoldable pub ordered : ℕ → List PurchaseOrderLine → ℕ
ordered id lines = sum_of (λ l. if l.item_id == id then l.qty else 0) lines

-- A movement adds its delta to the ledger of its item, and to no other.
pub apply_movement-ledger_qty :
    (db : Db) (input : ApplyMovement) (id : ℕ) {db' : Db}
    → apply_movement db input ≡ ok db'
    → ledger_qty db' id
      ≡ ledger_qty db id
        +ℤ (if input.item_id == id then stock_delta input.type input.qty else pos 0)
unfolding write_movement set_item ledger_qty delta_of new_movement
apply_movement-ledger_qty db input id h =
    let delta = stock_delta input.type input.qty in
    let (item, _, same, _, e) = apply_movement-written db input h in
    ap (λ (d : Db). ledger_qty d id) (sym e)
    ∙ sum-snoc (delta_of id) db.movements
        (new_movement input item.id delta (item.current_qty +ℤ delta))
    ∙ ap (λ n. ledger_qty db id +ℤ (if n == id then delta else pos 0)) same

line_delta : (b : Bool) (n : ℕ) → (if b then pos n else pos 0) ≡ pos (if b then n else 0)
line_delta b n = ground arith

pos_+ℤ : (a b : ℕ) → pos a +ℤ pos b ≡ pos (a + b)
unfolding ◌+ℤ◌
pos_+ℤ a b = ground arith

pub receive_lines-ledger_qty :
    (db : Db) (property_id order_id received_by : ℕ) (ls : List PurchaseOrderLine) (id : ℕ)
    {db' : Db}
    → receive_lines db property_id order_id received_by ls ≡ ok db'
    → ledger_qty db' id ≡ ledger_qty db id +ℤ pos (ordered id ls)
unfolding receive_lines set_cost set_item ledger_qty stock_delta sum_of ordered
receive_lines-ledger_qty db property_id order_id received_by [] id h =
    ap (λ (d : Db). ledger_qty d id) (sym (committed h)) ∙ sym (zero_sum (ledger_qty db id))
receive_lines-ledger_qty db property_id order_id received_by (l ∷ ls) id h =
    through (apply_movement db _) _ h λ moved e rest.
      receive_lines-ledger_qty (set_cost moved l.item_id l.unit_price_paise) property_id order_id
        received_by ls id rest
      ∙ ap (λ q. q +ℤ pos (ordered id ls)) (apply_movement-ledger_qty db _ id e)
      ∙ sym (+ℤ_assoc (ledger_qty db id) _ (pos (ordered id ls)))
      ∙ ap (λ q. ledger_qty db id +ℤ q)
          (ap (λ q. q +ℤ pos (ordered id ls)) (line_delta (l.item_id == id) (l.qty + 0))
            ∙ pos_+ℤ _ (ordered id ls))
      ∙ ap (λ n. ledger_qty db id +ℤ pos n) (ground arith)

pub receive_lines-Reconciled :
    (db : Db) (property_id order_id received_by : ℕ) (ls : List PurchaseOrderLine) {db' : Db}
    → Reconciled db
    → receive_lines db property_id order_id received_by ls ≡ ok db'
    → Reconciled db'
unfolding receive_lines set_cost
receive_lines-Reconciled db property_id order_id received_by [] v h =
    subst Reconciled (committed h) v
receive_lines-Reconciled db property_id order_id received_by (l ∷ ls) v h =
    through (apply_movement db _) _ h λ moved e rest.
      receive_lines-Reconciled (set_cost moved l.item_id l.unit_price_paise) property_id order_id
        received_by ls
        (set_item-Reconciled moved l.item_id
          (λ i. record i { unit_cost_paise = l.unit_price_paise }) (λ i. (refl, refl))
          (apply_movement-Reconciled db _ v e))
        rest

abbrev received : PurchaseOrder → Timestamp → PurchaseOrder
received p now = record p { status = PurchaseOrderStatus.received; received_at = some now }

-- What a receipt that succeeds went through.
pub receive-lines :
    (db : Db) (property_id id received_by : ℕ) (now : Timestamp) (p : PurchaseOrder) {db' : Db}
    → require_po db property_id id ≡ ok p
    → receive db property_id id received_by now ≡ ok db'
    → (stocked : Db) × (receive_lines db property_id p.id received_by p.lines ≡ ok stocked)
      × (set_po stocked id (λ q. received q now) ≡ db')
unfolding receive
receive-lines db property_id id received_by now p e h =
    through (require_po db property_id id) _ h λ before found h0.
      through
        (refuse_if (not (is_po_status before.status PurchaseOrderStatus.sent)) po_not_receivable) _
        h0
        λ _ _ h1.
          through (assert_po_transition before.status PurchaseOrderStatus.received) _ h1 λ _ _ h2.
            through (receive_lines db property_id before.id received_by before.lines) _ h2
              λ stocked took h3.
                let same = committed (sym found ∙ e) in
                (
                  stocked,
                  subst (λ q. receive_lines db property_id q.id received_by q.lines ≡ ok stocked)
                      same took,
                  committed h3,
                )

pub receive_lines-purchase_orders :
    (db : Db) (property_id order_id received_by : ℕ) (ls : List PurchaseOrderLine) {db' : Db}
    → receive_lines db property_id order_id received_by ls ≡ ok db'
    → db'.purchase_orders ≡ db.purchase_orders
unfolding receive_lines set_cost set_item write_movement
receive_lines-purchase_orders db property_id order_id received_by [] h =
    ap (λ (d : Db). d.purchase_orders) (sym (committed h))
receive_lines-purchase_orders db property_id order_id received_by (l ∷ ls) h =
    through (apply_movement db _) _ h λ moved e rest.
      receive_lines-purchase_orders (set_cost moved l.item_id l.unit_price_paise) property_id
        order_id received_by ls rest
      ∙ ap (λ (d : Db). d.purchase_orders) (sym (apply_movement-written db _ e).4)

require_po-kept :
    (db db' : Db) (property_id id : ℕ)
    → db.purchase_orders ≡ db'.purchase_orders
    → require_po db' property_id id ≡ require_po db property_id id
unfolding require_po
require_po-kept db db' property_id id e = rw e refl

-- The order after its receipt.
require_po-received :
    (db : Db) (property_id id : ℕ) (now : Timestamp) (p : PurchaseOrder)
    → require_po db property_id id ≡ ok p
    → (q : PurchaseOrder) × (require_po (set_po db id (λ p. received p now)) property_id id ≡ ok q)
      × (q.status ≡ PurchaseOrderStatus.received)
unfolding require_po set_po is_live_order
require_po-received db property_id id now p e =
    let f = λ (r : PurchaseOrder). received r now in
    let found = require-eq-ok _ _ e in
    let hit = select-some (is_live_order property_id id) db.purchase_orders found in
    let own : (p.id == id) ≡ true = ground arith in
    (
      f p,
      rw
          (select-update_row (is_live_order property_id id) (λ r. r.id) id f db.purchase_orders
            (λ r. refl))
          (rw (found, own) refl),
      refl,
    )

set_po-Reconciled :
    (db : Db) (id : ℕ) (f : PurchaseOrder → PurchaseOrder)
    → Reconciled db
    → Reconciled (set_po db id f)
unfolding Reconciled set_po
set_po-Reconciled db id f v = v

pub receive-Reconciled :
    (db : Db) (property_id id received_by : ℕ) (now : Timestamp) {db' : Db}
    → Reconciled db
    → receive db property_id id received_by now ≡ ok db'
    → Reconciled db'
unfolding receive
receive-Reconciled db property_id id received_by now v h =
    through (require_po db property_id id) _ h λ p e _.
      let t = receive-lines db property_id id received_by now p e h in
      subst Reconciled t.2 (
        set_po-Reconciled t.0 id _
          (receive_lines-Reconciled db property_id p.id received_by p.lines v t.1))

-- Where a reconciled store receives a purchase order, every item's quantity rises by exactly what
-- the order's lines order of it, over all its lines.
pub receive_fills :
    (db : Db) (property_id id received_by : ℕ) (now : Timestamp) (p : PurchaseOrder)
    (i i' : InventoryItem) {db' : Db}
    → Reconciled db
    → require_po db property_id id ≡ ok p
    → receive db property_id id received_by now ≡ ok db'
    → In i db.items
    → In i' db'.items
    → i'.id ≡ i.id
    → i'.current_qty ≡ i.current_qty +ℤ pos (ordered i.id p.lines)
unfolding ledger_qty set_po
receive_fills db property_id id received_by now p i i' {db'} v e h m m' same =
    let t = receive-lines db property_id id received_by now p e h in
    Reconciled-qty db' i' (receive-Reconciled db property_id id received_by now v h) m'
    ∙ ap (λ n. ledger_qty db' n) same
    ∙ ap (λ (d : Db). ledger_qty d i.id) (sym t.2)
    ∙ receive_lines-ledger_qty db property_id p.id received_by p.lines i.id t.1
    ∙ ap (λ q. q +ℤ pos (ordered i.id p.lines)) (sym (Reconciled-qty db i v m))

pub refuse_received :
    (db : Db) (property_id id received_by : ℕ) (now : Timestamp) (q : PurchaseOrder)
    → require_po db property_id id ≡ ok q
    → q.status ≡ PurchaseOrderStatus.received
    → receive db property_id id received_by now ≡ refused po_not_receivable
unfolding receive
refuse_received db property_id id received_by now q e r = rw (e, receive) (rw r refl)

-- After a receipt the order is in the table, received.
pub receive-received :
    (db : Db) (property_id id received_by : ℕ) (now : Timestamp) {db' : Db}
    → receive db property_id id received_by now ≡ ok db'
    → (q : PurchaseOrder) × (require_po db' property_id id ≡ ok q)
      × (q.status ≡ PurchaseOrderStatus.received)
unfolding receive
receive-received db property_id id received_by now h =
    through (require_po db property_id id) _ h λ p e _.
      let t = receive-lines db property_id id received_by now p e h in
      let held = sym (receive_lines-purchase_orders db property_id p.id received_by p.lines t.1) in
      let found = require_po-kept db t.0 property_id id held ∙ e in
      let (q, again, done) = require_po-received t.0 property_id id now p found in
      (q, subst (λ d. require_po d property_id id ≡ ok q) t.2 again, done)
