-- ===== src/Schema/Dining.antt =====
-- The restaurant's tables (src/database/schema/restaurant.ts). Names and free texts are not kept,
-- nor the keys of order payments and recipe lines, which nothing refers to.
use travelo.Base.{ℕ, List, Option, Bool, true, false, ◌==◌}

pub data TableStatus : Type 0 where
  open_ occupied billed blocked : TableStatus

abbrev pub is_blocked : TableStatus → Bool
is_blocked blocked = true
is_blocked _ = false

pub record RestaurantTable : Type 0 where
  pub id : ℕ
  pub property_id : ℕ
  pub status : TableStatus
  pub deleted : Bool

pub data MenuItemStatus : Type 0 where
  active unavailable archived : MenuItemStatus

abbrev pub is_active_item : MenuItemStatus → Bool
is_active_item active = true
is_active_item _ = false

pub record MenuItem : Type 0 where
  pub id : ℕ
  pub property_id : ℕ
  pub price_paise : ℕ
  pub status : MenuItemStatus
  pub deleted : Bool

pub record MenuItemRecipe : Type 0 where
  pub property_id : ℕ
  pub menu_item_id : ℕ
  pub inventory_item_id : ℕ
  pub qty_per_unit : ℕ

pub data OrderStatus : Type 0 where
  opened billed paid cancelled : OrderStatus

abbrev pub order_status_code : OrderStatus → ℕ
order_status_code opened = 0
order_status_code billed = 1
order_status_code paid = 2
order_status_code cancelled = 3

abbrev pub is_order_status : OrderStatus → OrderStatus → Bool
is_order_status a b = order_status_code a == order_status_code b

pub data RestaurantPaymentMethod : Type 0 where
  cash card upi room_charge corporate : RestaurantPaymentMethod

pub record RestaurantOrder : Type 0 where
  pub id : ℕ
  pub property_id : ℕ
  pub table_id : Option ℕ
  pub order_number : List ℕ
  pub status : OrderStatus
  pub waiter_staff_id : Option ℕ
  pub guest_count : ℕ
  pub subtotal_paise : ℕ
  pub discount_paise : ℕ
  pub service_charge_paise : ℕ
  pub tax_paise : ℕ
  pub total_paise : ℕ
  pub paid_paise : ℕ
  pub corporate_account_id : Option ℕ
  pub payment_method : Option RestaurantPaymentMethod
  pub reservation_id : Option ℕ
  pub settled_by : Option ℕ
  pub billed_at : Option ℕ
  pub paid_at : Option ℕ
  pub cancelled_at : Option ℕ

pub data KotStatus : Type 0 where
  new preparing ready served cancelled : KotStatus

abbrev pub kot_code : KotStatus → ℕ
kot_code new = 0
kot_code preparing = 1
kot_code ready = 2
kot_code served = 3
kot_code cancelled = 4

abbrev pub is_kot : KotStatus → KotStatus → Bool
is_kot a b = kot_code a == kot_code b

pub record OrderItem : Type 0 where
  pub id : ℕ
  pub order_id : ℕ
  pub menu_item_id : Option ℕ
  pub price_paise_snapshot : ℕ
  pub qty : ℕ
  pub kot_status : KotStatus

pub record OrderPayment : Type 0 where
  pub order_id : ℕ
  pub property_id : ℕ
  pub method : RestaurantPaymentMethod
  pub amount_paise : ℕ
  pub collected_by : Option ℕ
