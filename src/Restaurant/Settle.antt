-- ===== src/Restaurant/Settle.antt =====
-- `settle` of src/modules/restaurant/orders.service.ts: a payment of a bill, with what it posts to
-- the guest's folio, the corporate ledger, the cash book and the store.
use travelo.Base.{
  ℕ, ◌+◌, ◌*◌, ◌-◌, min, Bool, true, false, not, ◌&&◌, List, [], ◌∷◌, ◌++◌, Option, none, some,
  filter, select, leb, ◌==◌, or_else, if◌then◌else◌, Outcome, ok, refused, refuse_if, require,
  ◌>>=◌, ◌>>◌,
}
use travelo.Base.Int.{pos}
use travelo.Schema.{
  Db, Timestamp, ReservationStatus, is_status, RestaurantOrder, OrderStatus, is_order_status,
  TableStatus, OrderItem, RestaurantPaymentMethod, MenuItemRecipe, StockMovementType, CashEntryKind,
  FolioLineKind, Refusal, order_not_billed, reservation_required, reservation_not_in_house,
  corporate_account_required,
}
use travelo.Restaurant.{counts_towards_bill}
use travelo.Restaurant.Orders.{require_order, set_order, items_for, set_table_status}
use travelo.Inventory.{ApplyMovement, apply_movement}
use travelo.Folio.Charges.{PostCharge, post_charge}
use travelo.Cash.{record_cash}
use travelo.DirectBilling.{charge_account}

pub record SettleOrder : Type 0 where
  pub method : RestaurantPaymentMethod
  pub reservation_id : Option ℕ
  pub corporate_account_id : Option ℕ
  pub amount_paise : Option ℕ

-- A movement that is refused is logged and skipped.
unfoldable pub try_movement : Db → ApplyMovement → Db
try_movement db input = elim (apply_movement db input) [ ok moved ↦ moved | refused why ↦ db ]

-- One recipe line of an ordered item: `consumed <= 0` is skipped.
unfoldable pub consume : Db → ℕ → Option ℕ → ℕ → MenuItemRecipe → Db
unfolding try_movement
consume db property_id settled_by qty r = elim (r.qty_per_unit * qty == 0) [
  | true ↦ db
  | false ↦ try_movement db (record {
    property_id = property_id;
    item_id = r.inventory_item_id;
    type = StockMovementType.out;
    qty = pos (r.qty_per_unit * qty);
    purchase_order_id = none;
    created_by = settled_by;
  })
]

unfoldable pub consume_all : Db → ℕ → Option ℕ → ℕ → List MenuItemRecipe → Db
consume_all db property_id settled_by qty [] = db
consume_all db property_id settled_by qty (r ∷ rs) =
    consume_all (consume db property_id settled_by qty r) property_id settled_by qty rs

-- The recipe of an ordered item at the property.
unfoldable pub recipe_of : Db → ℕ → Option ℕ → List MenuItemRecipe
recipe_of db property_id none = []
recipe_of db property_id (some menu_item_id) =
    filter (λ r. r.property_id == property_id && r.menu_item_id == menu_item_id) db.recipes

-- The loop of `depleteStock`; `recipes` is what the database held before it.
unfoldable pub deplete_lines : Db → Db → ℕ → Option ℕ → List OrderItem → Db
unfolding recipe_of
deplete_lines db recipes property_id settled_by [] = db
deplete_lines db recipes property_id settled_by (l ∷ ls) =
    deplete_lines
      (consume_all db property_id settled_by l.qty (recipe_of recipes property_id l.menu_item_id))
      recipes property_id settled_by ls

-- `depleteStock`
unfoldable pub deplete_stock : Db → ℕ → ℕ → Option ℕ → Db
deplete_stock db property_id order_id settled_by =
    deplete_lines db db property_id settled_by
      (filter (λ l. counts_towards_bill l.kot_status) (items_for db order_id))

-- What the method settles with: the amount, the stay and the account of the order afterwards.
pub record Tender : Type 0 where
  pub amount_paise : ℕ
  pub reservation_id : Option ℕ
  pub corporate_account_id : Option ℕ

unfoldable pub tender : Db → ℕ → RestaurantOrder → SettleOrder → ℕ → Outcome Refusal Tender
tender db property_id order dto remaining = elim dto.method [
  | RestaurantPaymentMethod.room_charge ↦
      require dto.reservation_id reservation_required >>= λ stay_id.
      require (select (λ r. r.id == stay_id && r.property_id == property_id) db.reservations)
        reservation_not_in_house
      >>= λ stay.
          refuse_if (not (is_status stay.status ReservationStatus.checked_in))
            reservation_not_in_house
          >> ok (record {
            amount_paise = remaining;
            reservation_id = some stay.id;
            corporate_account_id = order.corporate_account_id;
          })
  | RestaurantPaymentMethod.corporate ↦
      require dto.corporate_account_id corporate_account_required >>= λ account_id. ok (record {
        amount_paise = remaining;
        reservation_id = order.reservation_id;
        corporate_account_id = some account_id;
      })
  | _ ↦ ok (record {
    amount_paise = min (or_else dto.amount_paise remaining) remaining;
    reservation_id = order.reservation_id;
    corporate_account_id = order.corporate_account_id;
  })
]

-- The code of `restaurant_order` among the folio's source types.
abbrev pub restaurant_order_source : ℕ
restaurant_order_source = 1

unfoldable pub room_charge : ℕ → RestaurantOrder → ℕ → Option ℕ → PostCharge
room_charge property_id order reservation_id settled_by = record {
  reservation_id = reservation_id;
  property_id = property_id;
  kind = FolioLineKind.restaurant;
  amount_paise = pos order.total_paise;
  source = some (restaurant_order_source, order.id);
  posted_by = settled_by;
  quantity = none;
  tax_category = none;
  tax_exempt = false;
  hsn_code = none;
}

-- The posting to the ledger of the method; `line_id` is the key of a new folio line.
unfoldable pub post_tender :
    Db → ℕ → RestaurantOrder → RestaurantPaymentMethod → Tender → Option ℕ → ℕ → Outcome Refusal Db
post_tender db property_id order method t settled_by line_id = elim method [
  | RestaurantPaymentMethod.room_charge ↦ elim t.reservation_id [
    | none ↦ ok db
    | some stay_id ↦
        ok (post_charge db (room_charge property_id order stay_id settled_by) line_id).0
  ]
  | RestaurantPaymentMethod.corporate ↦ elim t.corporate_account_id [
    | none ↦ ok db
    | some account_id ↦ charge_account db (record {
      property_id = property_id;
      account_id = account_id;
      amount_paise = t.amount_paise;
      reservation_id = none;
      order_id = some order.id;
      recorded_by = settled_by;
    })
  ]
  | RestaurantPaymentMethod.cash ↦ record_cash db (record {
    property_id = property_id;
    kind = CashEntryKind.pos_cash;
    amount_paise = t.amount_paise;
    reservation_id = none;
    order_id = some order.id;
    expense_id = none;
    recorded_by = settled_by;
  })
  | _ ↦ ok db
]

unfoldable pub insert_order_payment : Db → ℕ → ℕ → RestaurantPaymentMethod → ℕ → Option ℕ → Db
insert_order_payment db property_id order_id method amount collected_by = record db {
  order_payments =
      db.order_payments
      ++ record {
        order_id = order_id;
        property_id = property_id;
        method = method;
        amount_paise = amount;
        collected_by = collected_by;
      }
        ∷ [];
}

-- The order's row after a payment that brings what is paid to `paid`.
unfoldable pub paid_order :
    RestaurantPaymentMethod
    → Tender
    → ℕ
    → Bool
    → Option ℕ
    → Timestamp
    → RestaurantOrder
    → RestaurantOrder
paid_order method t paid settled settled_by now o = record o {
  status = if settled then OrderStatus.paid else OrderStatus.billed;
  paid_paise = paid;
  payment_method = some method;
  reservation_id = t.reservation_id;
  corporate_account_id = t.corporate_account_id;
  settled_by = settled_by;
  paid_at = if settled then some now else none;
}

-- What a settled order leaves: the store depleted, its table free.
unfoldable pub finish : Db → ℕ → RestaurantOrder → Bool → Option ℕ → Db
finish db property_id order settled settled_by = elim settled [
  | true ↦
      set_table_status (deplete_stock db property_id order.id settled_by) order.table_id
        TableStatus.open_
  | false ↦ db
]

-- `settle`, with the two side ledgers wired in.
unfoldable pub settle : Db → ℕ → ℕ → SettleOrder → Option ℕ → ℕ → Timestamp → Outcome Refusal Db
settle db property_id order_id dto settled_by line_id now = do
  order ← require_order db property_id order_id
  refuse_if (not (is_order_status order.status OrderStatus.billed)) order_not_billed
  t ← tender db property_id order dto (order.total_paise - order.paid_paise)
  let paid = order.paid_paise + t.amount_paise
  let settled = leb order.total_paise paid
  posted ←
      post_tender
        (set_order
          (insert_order_payment db property_id order_id dto.method t.amount_paise settled_by)
          order_id (paid_order dto.method t paid settled settled_by now))
        property_id order dto.method t settled_by line_id
  ok (finish posted property_id order settled settled_by)
