-- ===== src/Inventory/Calls.antt =====
-- Every committed call of the store's services as a step, and any number of them
-- (Inventory.antt, Inventory/Orders.antt).
use travelo.Base.{
  ℕ, ◌≡◌, refl, subst, ◌&&◌, codes_eq, true, false, not, List, [], ◌∷◌, Option, none, some, any,
  ltb, ◌==◌, Bool-cases, inl, inr, through, committed, ok, refused, Outcome, refuse_if,
}
use travelo.Base.Int.{ℤ}
use travelo.Schema.{
  Db, StockMovementType, PurchaseOrder, Timestamp, Refusal, duplicate_sku, empty_po,
  po_not_editable, transaction_aborted,
}
use travelo.Inventory.{
  CreateItem, UpdateItem, create_item, new_item, opening_balance, sku_taken, update_item,
  remove_item, record_movement, require_item, check_sku,
}
use travelo.Inventory.Orders.{
  PoTarget, target_status, CreatePo, UpdatePo, create_po, update_po, set_po_status, receive,
  require_po, set_po, insert_po, resolve_lines, resolve_supplier_name, po_is_editable,
  supplier_patch, lines_patch, assert_po_transition,
}
use travelo.Inventory.Ledger.{
  Reconciled, set_item-Reconciled, apply_movement-Reconciled, add_item-Reconciled,
}
use travelo.Inventory.Receipt.{receive-Reconciled}

-- One committed call. A new item's key is one that no movement refers to.
pub data StoreCall : Db → Db → Type 0 where
  create_item_call :
      {db db' : Db} (property_id : ℕ) (dto : CreateItem) (created_by id : ℕ)
      → any (λ m. m.item_id == id) db.movements ≡ false
      → create_item db property_id dto created_by id ≡ ok db'
      → StoreCall db db'
  update_item_call :
      {db db' : Db} (property_id id : ℕ) (dto : UpdateItem)
      → update_item db property_id id dto ≡ ok db'
      → StoreCall db db'
  remove_item_call :
      {db db' : Db} (property_id id : ℕ) → remove_item db property_id id ≡ ok db' → StoreCall db db'
  record_movement_call :
      {db db' : Db} (property_id item_id : ℕ) (type : StockMovementType) (qty : ℤ)
      (created_by : Option ℕ)
      → record_movement db property_id item_id type qty created_by ≡ ok db'
      → StoreCall db db'
  create_po_call :
      {db db' : Db} (property_id : ℕ) (dto : CreatePo) (created_by id : ℕ)
      → create_po db property_id dto created_by id ≡ ok db'
      → StoreCall db db'
  update_po_call :
      {db db' : Db} (property_id id : ℕ) (dto : UpdatePo)
      → update_po db property_id id dto ≡ ok db'
      → StoreCall db db'
  set_po_status_call :
      {db db' : Db} (property_id id : ℕ) (to : PoTarget)
      → set_po_status db property_id id to ≡ ok db'
      → StoreCall db db'
  receive_call :
      {db db' : Db} (property_id id received_by : ℕ) (now : Timestamp)
      → receive db property_id id received_by now ≡ ok db'
      → StoreCall db db'

-- Any number of calls, one after the other.
pub data StoreCalls : Db → Db → Type 0 where
  no_call : {db : Db} → StoreCalls db db
  call_then : {db mid db' : Db} → StoreCall db mid → StoreCalls mid db' → StoreCalls db db'

opening_balance-Reconciled :
    (db : Db) (property_id id created_by : ℕ) (qty : Option ℕ) {db' : Db}
    → Reconciled db
    → opening_balance db property_id id created_by qty ≡ ok db'
    → Reconciled db'
unfolding opening_balance
opening_balance-Reconciled db property_id id created_by none v h = subst Reconciled (committed h) v
opening_balance-Reconciled db property_id id created_by (some n) v h = elim (Bool-cases (ltb 0 n)) [
  | inl more ↦ apply_movement-Reconciled db _ v (rw more at h)
  | inr none_left ↦ subst Reconciled (committed (rw none_left at h)) v
]

create_item-Reconciled :
    (db : Db) (property_id : ℕ) (dto : CreateItem) (created_by id : ℕ) {db' : Db}
    → Reconciled db
    → any (λ m. m.item_id == id) db.movements ≡ false
    → create_item db property_id dto created_by id ≡ ok db'
    → Reconciled db'
unfolding create_item new_item
create_item-Reconciled db property_id dto created_by id v new h =
    through (refuse_if (sku_taken db property_id id _) duplicate_sku) _ h λ _ _ h1.
      opening_balance-Reconciled _ property_id id created_by dto.opening_qty
        (add_item-Reconciled db (new_item property_id dto id) refl new v) h1

update_item-Reconciled :
    (db : Db) (property_id id : ℕ) (dto : UpdateItem) {db' : Db}
    → Reconciled db
    → update_item db property_id id dto ≡ ok db'
    → Reconciled db'
unfolding update_item
update_item-Reconciled db property_id id dto v h =
    through (require_item db property_id id) _ h λ _ _ h1.
      through (check_sku db property_id id dto.sku) _ h1 λ _ _ h2.
        subst Reconciled (committed h2) (set_item-Reconciled db id _ (λ i. (refl, refl)) v)

remove_item-Reconciled :
    (db : Db) (property_id id : ℕ) {db' : Db}
    → Reconciled db
    → remove_item db property_id id ≡ ok db'
    → Reconciled db'
unfolding remove_item
remove_item-Reconciled db property_id id v h =
    through (require_item db property_id id) _ h
      λ _ _ h1. subst Reconciled (committed h1) (set_item-Reconciled db id _ (λ i. (refl, refl)) v)

-- The orders are not what `Reconciled` reads.
orders-Reconciled :
    (db : Db) (orders : List PurchaseOrder)
    → Reconciled db
    → Reconciled (record db { purchase_orders = orders })
unfolding Reconciled
orders-Reconciled db orders v = v

insert_po-Reconciled :
    (db : Db) (order : PurchaseOrder) (why : Refusal) {db' : Db}
    → Reconciled db
    → insert_po db order (refused why) ≡ ok db'
    → Reconciled db'
unfolding insert_po
insert_po-Reconciled db order why v h =
    elim (Bool-cases (
      any (λ p. p.property_id == order.property_id && codes_eq p.po_number order.po_number)
        db.purchase_orders)) [
          | inl taken ↦ absurd (clash (rw taken at h))
          | inr free ↦ subst Reconciled (committed (rw free at h)) (orders-Reconciled db _ v)
        ]
  where
    clash : {db' : Db} → ◌≡◌ {A = Outcome Refusal Db} (refused why) (ok db') → ⊥
    clash e = cc

create_po-Reconciled :
    (db : Db) (property_id : ℕ) (dto : CreatePo) (created_by id : ℕ) {db' : Db}
    → Reconciled db
    → create_po db property_id dto created_by id ≡ ok db'
    → Reconciled db'
unfolding create_po
create_po-Reconciled db property_id dto created_by id v h =
    through (refuse_if (elim dto.lines [ [] ↦ true | _ ∷ _ ↦ false ]) empty_po) _ h λ _ _ h1.
      through (resolve_lines db property_id dto.lines) _ h1 λ _ _ h2.
        through (resolve_supplier_name db property_id dto.supplier_id dto.supplier_name) _ h2
          λ _ _ h3. insert_po-Reconciled db _ transaction_aborted v h3

update_po-Reconciled :
    (db : Db) (property_id id : ℕ) (dto : UpdatePo) {db' : Db}
    → Reconciled db
    → update_po db property_id id dto ≡ ok db'
    → Reconciled db'
unfolding update_po set_po
update_po-Reconciled db property_id id dto v h =
    through (require_po db property_id id) _ h λ before _ h1.
      through (refuse_if (not (po_is_editable before.status)) po_not_editable) _ h1 λ _ _ h2.
        through (supplier_patch db property_id dto.supplier_id dto.supplier_name) _ h2 λ _ _ h3.
          through (lines_patch db property_id dto.lines) _ h3
            λ _ _ h4. subst Reconciled (committed h4) (orders-Reconciled db _ v)

set_po_status-Reconciled :
    (db : Db) (property_id id : ℕ) (to : PoTarget) {db' : Db}
    → Reconciled db
    → set_po_status db property_id id to ≡ ok db'
    → Reconciled db'
unfolding set_po_status set_po
set_po_status-Reconciled db property_id id to v h =
    through (require_po db property_id id) _ h λ before _ h1.
      through (assert_po_transition before.status (target_status to)) _ h1
        λ _ _ h2. subst Reconciled (committed h2) (orders-Reconciled db _ v)

call-Reconciled : {db db' : Db} → Reconciled db → StoreCall db db' → Reconciled db'
unfolding record_movement
call-Reconciled v (create_item_call p dto by id new h) =
    create_item-Reconciled _ p dto by id v new h
call-Reconciled v (update_item_call p id dto h) = update_item-Reconciled _ p id dto v h
call-Reconciled v (remove_item_call p id h) = remove_item-Reconciled _ p id v h
call-Reconciled v (record_movement_call p id type qty by h) = apply_movement-Reconciled _ _ v h
call-Reconciled v (create_po_call p dto by id h) = create_po-Reconciled _ p dto by id v h
call-Reconciled v (update_po_call p id dto h) = update_po-Reconciled _ p id dto v h
call-Reconciled v (set_po_status_call p id to h) = set_po_status-Reconciled _ p id to v h
call-Reconciled v (receive_call p id by now h) = receive-Reconciled _ p id by now v h

-- From a store in which every item's quantity is the sum of its movements and not negative, every
-- sequence of committed calls of the item and purchase-order services, each new item under a key
-- that no movement refers to, leads to such a store.
pub calls-Reconciled : {db db' : Db} → Reconciled db → StoreCalls db db' → Reconciled db'
calls-Reconciled v no_call = v
calls-Reconciled v (call_then call rest) = calls-Reconciled (call-Reconciled v call) rest
