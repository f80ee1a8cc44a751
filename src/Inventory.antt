-- ===== src/Inventory.antt =====
-- src/modules/inventory: the stock rules (inventory-rules.ts) and the item service
-- (items.service.ts). The purchase orders are in Inventory/Orders.antt. Quantities are not bounded
-- here: a column is a 32-bit integer, and PostgreSQL refuses what does not fit.
pub mod Orders
pub mod Ledger
pub mod Receipt
pub mod Calls
pub mod Received
use travelo.Base.{
  ℕ, Bool, true, false, not, ◌+◌, ◌&&◌, List, [], ◌∷◌, ◌++◌, Option, none, some, any, select,
  update_row, codes_eq, trim, ltb, ◌==◌, holds, or_else, if◌then◌else◌, Outcome, ok, refused,
  refuse_if, require, ◌>>=◌, ◌>>◌,
}
use travelo.Base.Int.{ℤ, pos, negsuc, pos_part, neg_part, ltb_ℤ, ◌+ℤ◌, ◌-ℤ◌}
use travelo.Schema.{
  Db, InventoryItem, StockMovement, StockMovementType, Refusal, item_not_found, duplicate_sku,
  negative_stock, zero_adjustment,
}

-- `Math.abs`
abbrev pub abs_ℤ : ℤ → ℕ
abs_ℤ a = pos_part a + neg_part a

-- `stockDelta`
unfoldable pub stock_delta : StockMovementType → ℤ → ℤ
stock_delta StockMovementType.in_ qty = pos (abs_ℤ qty)
stock_delta StockMovementType.out qty = pos 0 -ℤ pos (abs_ℤ qty)
stock_delta StockMovementType.wastage qty = pos 0 -ℤ pos (abs_ℤ qty)
stock_delta StockMovementType.adjust qty = qty

-- `stockStaysNonNegative`
unfoldable pub stock_stays_non_negative : ℤ → ℤ → Bool
stock_stays_non_negative current delta = not (ltb_ℤ (current +ℤ delta) (pos 0))

-- `input.type === 'ADJUST' && delta === 0`
unfoldable pub is_zero_adjustment : StockMovementType → ℤ → Bool
is_zero_adjustment StockMovementType.adjust (pos n) = n == 0
is_zero_adjustment StockMovementType.adjust (negsuc n) = false
is_zero_adjustment _ _ = false

unfoldable pub is_live_item : ℕ → ℕ → InventoryItem → Bool
is_live_item property_id id i = i.id == id && i.property_id == property_id && not i.deleted

-- `requireItem`
unfoldable pub require_item : Db → ℕ → ℕ → Outcome Refusal InventoryItem
unfolding is_live_item
require_item db property_id id =
    require (select (is_live_item property_id id) db.items) item_not_found

-- `update(inventoryItems).set(…).where(eq(inventoryItems.id, id))`
unfoldable pub set_item : Db → ℕ → (InventoryItem → InventoryItem) → Db
set_item db id patch = record db { items = update_row (λ i. i.id) id patch db.items }

pub record ApplyMovement : Type 0 where
  pub property_id : ℕ
  pub item_id : ℕ
  pub type : StockMovementType
  pub qty : ℤ
  pub purchase_order_id : Option ℕ
  pub created_by : Option ℕ

unfoldable pub new_movement : ApplyMovement → ℕ → ℤ → ℤ → StockMovement
new_movement input item_id delta balance_after = record {
  property_id = input.property_id;
  item_id = item_id;
  type = input.type;
  qty = abs_ℤ input.qty;
  qty_delta = delta;
  balance_after = balance_after;
  purchase_order_id = input.purchase_order_id;
  created_by = input.created_by;
}

-- The writes of `applyMovement`: the new balance and the movement.
unfoldable pub write_movement : Db → ApplyMovement → InventoryItem → ℤ → Db
write_movement db input item delta =
    let balance_after = item.current_qty +ℤ delta in
    let updated = set_item db item.id (λ i. record i { current_qty = balance_after }) in
    record updated {
      movements = updated.movements ++ new_movement input item.id delta balance_after ∷ [];
    }

-- `applyMovement`
unfoldable pub apply_movement : Db → ApplyMovement → Outcome Refusal Db
unfolding is_zero_adjustment
apply_movement db input = do
  item ← require_item db input.property_id input.item_id
  let delta = stock_delta input.type input.qty
  refuse_if (is_zero_adjustment input.type delta) zero_adjustment
  refuse_if (not (stock_stays_non_negative item.current_qty delta)) negative_stock
  ok (write_movement db input item delta)

pub record CreateItem : Type 0 where
  pub sku : List ℕ
  pub reorder_level : Option ℕ
  pub unit_cost_paise : Option ℕ
  pub opening_qty : Option ℕ

pub record UpdateItem : Type 0 where
  pub sku : Option (List ℕ)
  pub reorder_level : Option ℕ
  pub unit_cost_paise : Option ℕ

-- The partial unique index on (property, SKU), for the row with this id.
unfoldable pub sku_taken : Db → ℕ → ℕ → List ℕ → Bool
sku_taken db property_id id sku =
    any
      (λ i. i.property_id == property_id && not i.deleted && codes_eq i.sku sku && not (i.id == id))
      db.items

unfoldable pub new_item : ℕ → CreateItem → ℕ → InventoryItem
new_item property_id dto id = record {
  id = id;
  property_id = property_id;
  sku = trim dto.sku;
  reorder_level = or_else dto.reorder_level 0;
  current_qty = pos 0;
  unit_cost_paise = or_else dto.unit_cost_paise 0;
  deleted = false;
}

unfoldable pub opening_balance : Db → ℕ → ℕ → ℕ → Option ℕ → Outcome Refusal Db
opening_balance db property_id id created_by none = ok db
opening_balance db property_id id created_by (some qty) =
    if ltb 0 qty
    then apply_movement db (record {
      property_id = property_id;
      item_id = id;
      type = StockMovementType.adjust;
      qty = pos qty;
      purchase_order_id = none;
      created_by = some created_by;
    })
    else ok db

-- `create`
unfoldable pub create_item : Db → ℕ → CreateItem → ℕ → ℕ → Outcome Refusal Db
unfolding opening_balance
create_item db property_id dto created_by id = do
  refuse_if (sku_taken db property_id id (trim dto.sku)) duplicate_sku
  opening_balance (record db { items = db.items ++ new_item property_id dto id ∷ [] }) property_id
      id created_by dto.opening_qty

unfoldable pub check_sku : Db → ℕ → ℕ → Option (List ℕ) → Outcome Refusal (Unit {0})
check_sku db property_id id none = ok tt
check_sku db property_id id (some sku) =
    refuse_if (sku_taken db property_id id (trim sku)) duplicate_sku

unfoldable pub patch_sku : Option (List ℕ) → List ℕ → List ℕ
patch_sku none old = old
patch_sku (some sku) old = trim sku

-- `update`
unfoldable pub update_item : Db → ℕ → ℕ → UpdateItem → Outcome Refusal Db
unfolding check_sku patch_sku
update_item db property_id id dto = do
  before ← require_item db property_id id
  check_sku db property_id id dto.sku
  ok (
      set_item db id (λ i. record i {
        sku = patch_sku dto.sku i.sku;
        reorder_level = or_else dto.reorder_level i.reorder_level;
        unit_cost_paise = or_else dto.unit_cost_paise i.unit_cost_paise;
      }))

-- `remove`
unfoldable pub remove_item : Db → ℕ → ℕ → Outcome Refusal Db
remove_item db property_id id = do
  before ← require_item db property_id id
  ok (set_item db id (λ i. record i { deleted = true }))

-- `recordMovement`
unfoldable pub record_movement : Db → ℕ → ℕ → StockMovementType → ℤ → Option ℕ → Outcome Refusal Db
record_movement db property_id item_id type qty created_by = apply_movement db (record {
  property_id = property_id;
  item_id = item_id;
  type = type;
  qty = qty;
  purchase_order_id = none;
  created_by = created_by;
})
