-- ===== src/Restaurant.antt =====
-- src/modules/restaurant/restaurant-rules.ts: the state machines of an order and of a kitchen line,
-- and the bill. The tax is a whole number of percent.
pub mod Orders
pub mod Settle
pub mod Depletion
pub mod Books
pub mod RoomCharge
pub mod Bill
use travelo.Base.{
  ℕ, ◌+◌, ◌*◌, ◌/◌, ◌-◌, min, Bool, true, false, not, List, [], ◌∷◌, ◌++◌, any, filter, sum_of,
  codes, pad_start, decimal, Outcome, refuse_if,
}
use travelo.Schema.{
  OrderStatus, is_order_status, KotStatus, is_kot, OrderItem, Refusal, invalid_order_transition,
  invalid_kot_transition,
}

-- `ORDER_TRANSITIONS`
unfoldable pub order_transitions : OrderStatus → List OrderStatus
order_transitions OrderStatus.opened = OrderStatus.billed ∷ OrderStatus.cancelled ∷ []
order_transitions OrderStatus.billed = OrderStatus.paid ∷ []
order_transitions OrderStatus.paid = []
order_transitions OrderStatus.cancelled = []

unfoldable pub can_transition_order : OrderStatus → OrderStatus → Bool
unfolding order_transitions any
can_transition_order from to = any (is_order_status to) (order_transitions from)

unfoldable pub assert_order_transition : OrderStatus → OrderStatus → Outcome Refusal (Unit {0})
assert_order_transition from to =
    refuse_if (not (can_transition_order from to)) invalid_order_transition

-- `KOT_TRANSITIONS`
unfoldable pub kot_transitions : KotStatus → List KotStatus
kot_transitions KotStatus.new = KotStatus.preparing ∷ KotStatus.ready ∷ KotStatus.cancelled ∷ []
kot_transitions KotStatus.preparing = KotStatus.ready ∷ KotStatus.served ∷ []
kot_transitions KotStatus.ready = KotStatus.served ∷ []
kot_transitions KotStatus.served = []
kot_transitions KotStatus.cancelled = []

unfoldable pub can_transition_kot : KotStatus → KotStatus → Bool
unfolding kot_transitions any
can_transition_kot from to = any (is_kot to) (kot_transitions from)

unfoldable pub assert_kot_transition : KotStatus → KotStatus → Outcome Refusal (Unit {0})
assert_kot_transition from to = refuse_if (not (can_transition_kot from to)) invalid_kot_transition

-- The roles that `KOT_ROLE_TARGETS` names, and any other.
pub data KitchenRole : Type 0 where
  chef waiter restaurant_manager other_role : KitchenRole

-- `KOT_ROLE_TARGETS`
unfoldable pub kot_role_targets : KitchenRole → List KotStatus
kot_role_targets KitchenRole.chef = KotStatus.preparing ∷ KotStatus.ready ∷ []
kot_role_targets KitchenRole.waiter = KotStatus.served ∷ KotStatus.cancelled ∷ []
kot_role_targets KitchenRole.restaurant_manager =
    KotStatus.preparing ∷ KotStatus.ready ∷ KotStatus.served ∷ KotStatus.cancelled ∷ []
kot_role_targets KitchenRole.other_role = []

unfoldable pub role_may_set_kot : KitchenRole → KotStatus → Bool
unfolding kot_role_targets any
role_may_set_kot role to = any (is_kot to) (kot_role_targets role)

-- `countsTowardsBill`
unfoldable pub counts_towards_bill : KotStatus → Bool
counts_towards_bill status = not (is_kot status KotStatus.cancelled)

pub record BillTotals : Type 0 where
  pub subtotal_paise : ℕ
  pub discount_paise : ℕ
  pub service_charge_paise : ℕ
  pub tax_paise : ℕ
  pub total_paise : ℕ

-- The lines at their snapshot prices.
unfoldable pub gross_paise : List OrderItem → ℕ
gross_paise lines =
    sum_of (λ l. l.price_paise_snapshot * l.qty)
      (filter (λ l. counts_towards_bill l.kot_status) lines)

-- `computeBill`; `Math.round(a / d)` is `(a + d / 2) / d` for an even `d`.
unfoldable pub compute_bill : List OrderItem → ℕ → ℕ → ℕ → BillTotals
compute_bill lines tax_percent discount_paise service_charge_bp =
    let gross = gross_paise lines in
    let discount = min discount_paise gross in
    let subtotal = gross - discount in
    let service = (subtotal * service_charge_bp + 5000) / 10000 in
    let tax = ((subtotal + service) * tax_percent + 50) / 100 in
    record {
      subtotal_paise = subtotal;
      discount_paise = discount;
      service_charge_paise = service;
      tax_paise = tax;
      total_paise = subtotal + service + tax;
    }

-- `formatOrderNumber`
unfoldable pub format_order_number : ℕ → List ℕ
format_order_number sequence = codes "ORD-" ++ pad_start 5 (decimal sequence)
