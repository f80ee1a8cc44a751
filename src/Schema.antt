-- ===== src/Schema.antt =====
-- The database: the tables of one deployment that the modelled services read and write
-- (src/database/schema). A row is a record, a table the list of its rows, an id a number.
mod Stays
mod Tasks
mod Folios
mod Stores
mod Dining
mod Cash
mod Trips
mod Refusals
use travelo.Base.{ℕ, List}
unfoldable pub use Stays.*
unfoldable pub use Tasks.*
unfoldable pub use Folios.*
unfoldable pub use Stores.*
unfoldable pub use Dining.*
unfoldable pub use Cash.*
unfoldable pub use Trips.*
pub use Refusals.*

pub record Db : Type 0 where
  pub reservations : List Reservation
  pub rooms : List Room
  pub room_types : List RoomType
  pub rate_overrides : List RateOverride
  pub rate_days : List RateDay
  pub reservation_events : List ReservationEvent
  pub tasks : List HousekeepingTask
  pub staff : List HotelStaff
  pub folio_lines : List FolioLine
  pub folio_payments : List FolioPayment
  pub folio_events : List FolioEvent
  pub property_taxes : List PropertyTax
  pub settings : List PropertySettings
  pub work_orders : List WorkOrder
  pub items : List InventoryItem
  pub movements : List StockMovement
  pub suppliers : List Supplier
  pub purchase_orders : List PurchaseOrder
  pub tables : List RestaurantTable
  pub menu_items : List MenuItem
  pub recipes : List MenuItemRecipe
  pub orders : List RestaurantOrder
  pub order_items : List OrderItem
  pub order_payments : List OrderPayment
  pub cash_entries : List CashEntry
  pub shifts : List StaffShift
  pub corporate_accounts : List CorporateAccount
  pub corporate_ledger : List CorporateEntry
  pub vehicles : List Vehicle
  pub transport_requests : List TransportRequest
