-- ===== src/Inventory/Orders.antt =====
-- Purchase orders: their life and totals (src/modules/inventory/inventory-rules.ts) and the service
-- (purchase-orders.service.ts). A line's snapshots of the item's name and unit are not kept.
use travelo.Base.{
  ℕ, ◌+◌, ◌*◌, Bool, true, false, not, ◌&&◌, List, [], ◌∷◌, ◌++◌, map, Option, none, some, any,
  select, update_row, codes_eq, codes, pad_start, decimal, sum_of, count_of, given_text, ◌==◌,
  if◌then◌else◌, Outcome, ok, refused, refuse_if, require, ◌>>=◌, ◌>>◌,
}
use travelo.Base.Int.{pos}
use travelo.Schema.{
  Db, Timestamp, StockMovementType, PurchaseOrder, PurchaseOrderLine, PurchaseOrderStatus,
  is_po_status, Refusal, po_not_found, supplier_not_found, empty_po, po_not_editable,
  po_not_receivable, invalid_po_transition, transaction_aborted,
}
use travelo.Inventory.{require_item, set_item, apply_movement}

-- `PO_TRANSITIONS`
unfoldable pub po_transitions : PurchaseOrderStatus → List PurchaseOrderStatus
po_transitions PurchaseOrderStatus.draft =
    PurchaseOrderStatus.sent ∷ PurchaseOrderStatus.cancelled ∷ []
po_transitions PurchaseOrderStatus.sent =
    PurchaseOrderStatus.received ∷ PurchaseOrderStatus.cancelled ∷ []
po_transitions PurchaseOrderStatus.received = []
po_transitions PurchaseOrderStatus.cancelled = []

unfoldable pub can_transition_po : PurchaseOrderStatus → PurchaseOrderStatus → Bool
unfolding po_transitions any
can_transition_po from to = any (is_po_status to) (po_transitions from)

unfoldable pub assert_po_transition :
    PurchaseOrderStatus → PurchaseOrderStatus → Outcome Refusal (Unit {0})
assert_po_transition from to = refuse_if (not (can_transition_po from to)) invalid_po_transition

-- `poIsEditable`
unfoldable pub po_is_editable : PurchaseOrderStatus → Bool
po_is_editable status = is_po_status status PurchaseOrderStatus.draft

pub record PoLine : Type 0 where
  pub item_id : ℕ
  pub qty : ℕ
  pub unit_price_paise : ℕ

-- `computePoTotals`
unfoldable pub compute_po_lines : List PoLine → List PurchaseOrderLine
compute_po_lines lines =
    map
      (λ l. record {
        item_id = l.item_id;
        qty = l.qty;
        unit_price_paise = l.unit_price_paise;
        line_total_paise = l.qty * l.unit_price_paise;
      })
      lines

unfoldable pub po_total : List PurchaseOrderLine → ℕ
po_total lines = sum_of (λ l. l.line_total_paise) lines

-- `formatPoNumber`
unfoldable pub format_po_number : ℕ → List ℕ
format_po_number sequence = codes "PO-" ++ pad_start 5 (decimal sequence)

unfoldable pub is_live_order : ℕ → ℕ → PurchaseOrder → Bool
is_live_order property_id id p = p.id == id && p.property_id == property_id && not p.deleted

-- `requirePo`
unfoldable pub require_po : Db → ℕ → ℕ → Outcome Refusal PurchaseOrder
unfolding is_live_order
require_po db property_id id =
    require (select (is_live_order property_id id) db.purchase_orders) po_not_found

-- `resolveLines`
unfoldable pub resolve_lines : Db → ℕ → List PoLine → Outcome Refusal (List PoLine)
resolve_lines db property_id [] = ok []
resolve_lines db property_id (l ∷ ls) = require_item db property_id l.item_id >>= λ item.
    resolve_lines db property_id ls >>= λ rest. ok (record l { item_id = item.id } ∷ rest)

-- `resolveSupplierName`
unfoldable pub resolve_supplier_name :
    Db → ℕ → Option ℕ → Option (List ℕ) → Outcome Refusal (Option (List ℕ))
resolve_supplier_name db property_id none fallback = ok (given_text fallback)
resolve_supplier_name db property_id (some id) fallback =
    require (select (λ s. s.id == id && s.property_id == property_id && not s.deleted) db.suppliers)
      supplier_not_found
    >>= λ s. ok (some s.name)

pub record CreatePo : Type 0 where
  pub supplier_id : Option ℕ
  pub supplier_name : Option (List ℕ)
  pub lines : List PoLine

pub record UpdatePo : Type 0 where
  pub supplier_id : Option ℕ
  pub supplier_name : Option (List ℕ)
  pub lines : Option (List PoLine)

-- `insert(purchaseOrders)`, under the unique index on (property, number). An insert that is refused
-- aborts the transaction: `again` is the next statement in it, the count of the next attempt.
unfoldable pub insert_po : Db → PurchaseOrder → Outcome Refusal Db → Outcome Refusal Db
insert_po db order again =
    if any (λ p. p.property_id == order.property_id && codes_eq p.po_number order.po_number)
      db.purchase_orders
    then again
    else ok (record db { purchase_orders = db.purchase_orders ++ order ∷ [] })

-- `create`: the five attempts share one transaction, so a number that is taken leaves the second
-- attempt's count to be refused.
unfoldable pub create_po : Db → ℕ → CreatePo → ℕ → ℕ → Outcome Refusal Db
create_po db property_id dto created_by id = do
  refuse_if (elim dto.lines [ [] ↦ true | _ ∷ _ ↦ false ]) empty_po
  resolved ← resolve_lines db property_id dto.lines
  name ← resolve_supplier_name db property_id dto.supplier_id dto.supplier_name
  let lines = compute_po_lines resolved
  insert_po db
      (record {
        id = id;
        property_id = property_id;
        po_number =
            format_po_number (count_of (λ p. p.property_id == property_id) db.purchase_orders + 1);
        supplier_id = dto.supplier_id;
        supplier_name = name;
        status = PurchaseOrderStatus.draft;
        lines = lines;
        total_paise = po_total lines;
        received_at = none;
        created_by = created_by;
        deleted = false;
      })
      (refused transaction_aborted)

unfoldable pub set_po : Db → ℕ → (PurchaseOrder → PurchaseOrder) → Db
set_po db id patch = record db {
  purchase_orders = update_row (λ p. p.id) id patch db.purchase_orders;
}

-- The supplier's part of an update's patch, where the body names one.
unfoldable pub supplier_patch :
    Db → ℕ → Option ℕ → Option (List ℕ) → Outcome Refusal (PurchaseOrder → PurchaseOrder)
supplier_patch db property_id none none = ok (λ p. p)
supplier_patch db property_id id name = resolve_supplier_name db property_id id name >>= λ found.
    ok (λ p. record p { supplier_id = id; supplier_name = found })

unfoldable pub lines_patch :
    Db → ℕ → Option (List PoLine) → Outcome Refusal (PurchaseOrder → PurchaseOrder)
lines_patch db property_id none = ok (λ p. p)
lines_patch db property_id (some []) = refused empty_po
lines_patch db property_id (some (l ∷ ls)) = resolve_lines db property_id (l ∷ ls) >>= λ resolved.
    let lines = compute_po_lines resolved in
    ok (λ p. record p { lines = lines; total_paise = po_total lines })

-- `update`
unfoldable pub update_po : Db → ℕ → ℕ → UpdatePo → Outcome Refusal Db
unfolding supplier_patch lines_patch
update_po db property_id id dto = do
  before ← require_po db property_id id
  refuse_if (not (po_is_editable before.status)) po_not_editable
  supplier ← supplier_patch db property_id dto.supplier_id dto.supplier_name
  lines ← lines_patch db property_id dto.lines
  ok (set_po db id (λ p. lines (supplier p)))

-- What `setStatus` may be asked for.
pub data PoTarget : Type 0 where
  sent cancelled : PoTarget

abbrev pub target_status : PoTarget → PurchaseOrderStatus
target_status PoTarget.sent = PurchaseOrderStatus.sent
target_status PoTarget.cancelled = PurchaseOrderStatus.cancelled

-- `setStatus`
unfoldable pub set_po_status : Db → ℕ → ℕ → PoTarget → Outcome Refusal Db
set_po_status db property_id id to = do
  before ← require_po db property_id id
  assert_po_transition before.status (target_status to)
  ok (set_po db id (λ p. record p { status = target_status to }))

-- `update(inventoryItems).set({ unitCostPaise: … })`: the last purchase cost.
unfoldable pub set_cost : Db → ℕ → ℕ → Db
set_cost db item_id price = set_item db item_id (λ i. record i { unit_cost_paise = price })

-- The loop of `receive`: a movement for each line, then the item's new cost.
unfoldable pub receive_lines : Db → ℕ → ℕ → ℕ → List PurchaseOrderLine → Outcome Refusal Db
receive_lines db property_id order_id received_by [] = ok db
receive_lines db property_id order_id received_by (l ∷ ls) =
    apply_movement db (record {
      property_id = property_id;
      item_id = l.item_id;
      type = StockMovementType.in_;
      qty = pos l.qty;
      purchase_order_id = some order_id;
      created_by = some received_by;
    })
    >>= λ moved.
        receive_lines (set_cost moved l.item_id l.unit_price_paise) property_id order_id received_by
          ls

-- `receive`
unfoldable pub receive : Db → ℕ → ℕ → ℕ → Timestamp → Outcome Refusal Db
receive db property_id id received_by now = do
  before ← require_po db property_id id
  refuse_if (not (is_po_status before.status PurchaseOrderStatus.sent)) po_not_receivable
  assert_po_transition before.status PurchaseOrderStatus.received
  stocked ← receive_lines db property_id before.id received_by before.lines
  ok (
      set_po stocked id
        (λ p. record p { status = PurchaseOrderStatus.received; received_at = some now }))
