-- ===== src/Schema/Stores.antt =====
-- The store's tables (src/database/schema/ops.ts). Names, units, categories and free texts are not
-- kept, nor a movement's key, which nothing refers to; a SKU and a supplier's name are code points.
use travelo.Base.{ℕ, List, Option, Bool, ◌==◌}
use travelo.Base.Int.{ℤ}

pub record InventoryItem : Type 0 where
  pub id : ℕ
  pub property_id : ℕ
  pub sku : List ℕ
  pub reorder_level : ℕ
  pub current_qty : ℤ
  pub unit_cost_paise : ℕ
  pub deleted : Bool

pub data StockMovementType : Type 0 where
  in_ out adjust wastage : StockMovementType

pub record StockMovement : Type 0 where
  pub property_id : ℕ
  pub item_id : ℕ
  pub type : StockMovementType
  pub qty : ℕ
  pub qty_delta : ℤ
  pub balance_after : ℤ
  pub purchase_order_id : Option ℕ
  pub created_by : Option ℕ

pub record Supplier : Type 0 where
  pub id : ℕ
  pub property_id : ℕ
  pub name : List ℕ
  pub deleted : Bool

pub data PurchaseOrderStatus : Type 0 where
  draft sent received cancelled : PurchaseOrderStatus

abbrev pub po_status_code : PurchaseOrderStatus → ℕ
po_status_code draft = 0
po_status_code sent = 1
po_status_code received = 2
po_status_code cancelled = 3

abbrev pub is_po_status : PurchaseOrderStatus → PurchaseOrderStatus → Bool
is_po_status a b = po_status_code a == po_status_code b

pub record PurchaseOrderLine : Type 0 where
  pub item_id : ℕ
  pub qty : ℕ
  pub unit_price_paise : ℕ
  pub line_total_paise : ℕ

pub record PurchaseOrder : Type 0 where
  pub id : ℕ
  pub property_id : ℕ
  pub po_number : List ℕ
  pub supplier_id : Option ℕ
  pub supplier_name : Option (List ℕ)
  pub status : PurchaseOrderStatus
  pub lines : List PurchaseOrderLine
  pub total_paise : ℕ
  pub received_at : Option ℕ
  pub created_by : ℕ
  pub deleted : Bool
