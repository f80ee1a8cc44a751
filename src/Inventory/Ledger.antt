-- ===== src/Inventory/Ledger.antt =====
-- Stock on hand against the movements (Inventory.antt, Inventory/Orders.antt).
use travelo.Base.{
  ℕ, ◌≡◌, ◌≢◌, refl, sym, ap, subst, ◌∙◌, inl, inr, false, not, List, [], ◌∷◌, ◌++◌, any, ◌==◌,
  if◌then◌else◌, In, In-append, update_row-In, select-some, through, committed, ok, refuse_if,
  refuse_if-eq-ok, require-eq-ok, arith,
}
use travelo.Base.Int.{ℤ, pos, ◌+ℤ◌, ◌≤ℤ◌, sum_ℤ, sum_ℤ-append, int_laws}
use travelo.Schema.{Db, InventoryItem, StockMovement, negative_stock}
use travelo.Inventory.{
  ApplyMovement, apply_movement, require_item, set_item, new_movement, stock_delta, is_live_item,
  stock_stays_non_negative, is_zero_adjustment, write_movement,
}

-- What a movement adds to the stock of the item with this id.
unfoldable pub delta_of : ℕ → StockMovement → ℤ
delta_of id m = if m.item_id == id then m.qty_delta else pos 0

-- The stock of an item by the movements alone.
unfoldable pub ledger_qty : Db → ℕ → ℤ
ledger_qty db id = sum_ℤ (delta_of id) db.movements

-- An item holds what its movements add up to, and that is not negative.
unfoldable pub Tallied : List StockMovement → InventoryItem → Type 0
Tallied ms i = (i.current_qty ≡ sum_ℤ (delta_of i.id) ms) × (pos 0 ≤ℤ i.current_qty)

-- Every item does.
unfoldable pub Reconciled : Db → Type 0
unfolding Tallied
Reconciled db = (i : InventoryItem) → In i db.items → Tallied db.movements i

pub zero_sum : (a : ℤ) → a +ℤ pos 0 ≡ a
zero_sum a = omega int_laws

pub sum-snoc :
    {A : Type 0} (f : A → ℤ) (xs : List A) (x : A) → sum_ℤ f (xs ++ x ∷ []) ≡ sum_ℤ f xs +ℤ f x
unfolding sum_ℤ
sum-snoc f xs x = sum_ℤ-append f xs (x ∷ []) ∙ ap (λ n. sum_ℤ f xs +ℤ n) (zero_sum (f x))

-- Where the item has no movement, the ledger says zero.
pub sum-unmoved :
    (id : ℕ) (ms : List StockMovement)
    → any (λ m. m.item_id == id) ms ≡ false
    → sum_ℤ (delta_of id) ms ≡ pos 0
unfolding sum_ℤ delta_of any
sum-unmoved id [] e = refl
sum-unmoved id (m ∷ ms) e = ground (arith, zero_sum (pos 0), sum-unmoved id ms)

pub require_item-In :
    (db : Db) (property_id id : ℕ) {i : InventoryItem}
    → require_item db property_id id ≡ ok i
    → In i db.items × (i.id ≡ id)
unfolding require_item is_live_item
require_item-In db property_id id h =
    let found = select-some _ db.items (require-eq-ok _ _ h) in (found.0, ground (arith, found.1))

same-Tallied :
    (ms : List StockMovement) (i j : InventoryItem)
    → (j.id ≡ i.id) × (j.current_qty ≡ i.current_qty)
    → Tallied ms i
    → Tallied ms j
unfolding Tallied
same-Tallied ms i j e t =
    (e.1 ∙ t.0 ∙ ap (λ n. sum_ℤ (delta_of n) ms) (sym e.0), subst (λ q. pos 0 ≤ℤ q) (sym e.1) t.1)

-- A change of an item that leaves its id and its stock.
pub set_item-Reconciled :
    (db : Db) (id : ℕ) (f : InventoryItem → InventoryItem)
    → ((i : InventoryItem) → ((f i).id ≡ i.id) × ((f i).current_qty ≡ i.current_qty))
    → Reconciled db
    → Reconciled (set_item db id f)
unfolding Reconciled set_item
set_item-Reconciled db id f keeps v i m =
    let (b, n, how) = update_row-In (λ i. i.id) id f i db.items m in
    elim how [
      | inl hit ↦
          subst (Tallied db.movements) (sym hit.1) (same-Tallied _ b (f b) (keeps b) (v b n))
      | inr miss ↦ subst (Tallied db.movements) (sym miss.1) (v b n)
    ]

delta_of-own : (id : ℕ) (m : StockMovement) → m.item_id ≡ id → delta_of id m ≡ m.qty_delta
unfolding delta_of
delta_of-own id m e = ground arith

delta_of-other : (id : ℕ) (m : StockMovement) → m.item_id ≢ id → delta_of id m ≡ pos 0
unfolding delta_of
delta_of-other id m e = ground arith

-- The rows that a movement of `item` changes, and those of other items.
moved-Tallied :
    (ms : List StockMovement) (item i : InventoryItem) (m : StockMovement)
    → m.item_id ≡ item.id
    → i.id ≡ item.id
    → i.current_qty ≡ item.current_qty +ℤ m.qty_delta
    → pos 0 ≤ℤ (item.current_qty +ℤ m.qty_delta)
    → Tallied ms item
    → Tallied (ms ++ m ∷ []) i
unfolding Tallied
moved-Tallied ms item i m em ei eq p t = (
  eq
      ∙ ap (λ q. q +ℤ m.qty_delta) (t.0 ∙ ap (λ n. sum_ℤ (delta_of n) ms) (sym ei))
      ∙ ap (λ d. sum_ℤ (delta_of i.id) ms +ℤ d) (sym (delta_of-own i.id m (em ∙ sym ei)))
      ∙ sym (sum-snoc (delta_of i.id) ms m),
  subst (λ q. pos 0 ≤ℤ q) (sym eq) p,
)

other-Tallied :
    (ms : List StockMovement) (i : InventoryItem) (m : StockMovement)
    → m.item_id ≢ i.id
    → Tallied ms i
    → Tallied (ms ++ m ∷ []) i
unfolding Tallied
other-Tallied ms i m e t = (
  t.0
      ∙ sym (zero_sum (sum_ℤ (delta_of i.id) ms))
      ∙ ap (λ d. sum_ℤ (delta_of i.id) ms +ℤ d) (sym (delta_of-other i.id m e))
      ∙ sym (sum-snoc (delta_of i.id) ms m),
  t.1,
)

not_below : (a b : ℤ) → not (stock_stays_non_negative a b) ≡ false → pos 0 ≤ℤ (a +ℤ b)
unfolding stock_stays_non_negative
not_below a b h = ground arith

-- What a movement that is recorded went through.
pub apply_movement-written :
    (db : Db) (input : ApplyMovement) {db' : Db}
    → apply_movement db input ≡ ok db'
    → (item : InventoryItem) × In item db.items
      × (item.id ≡ input.item_id)
      × (pos 0 ≤ℤ (item.current_qty +ℤ stock_delta input.type input.qty))
      × (write_movement db input item (stock_delta input.type input.qty) ≡ db')
unfolding apply_movement
apply_movement-written db input h =
    through (require_item db input.property_id input.item_id) _ h λ item e h0.
      let delta = stock_delta input.type input.qty in
      through (refuse_if (is_zero_adjustment input.type delta) _) _ h0 λ _ _ h1.
        through (refuse_if (not (stock_stays_non_negative item.current_qty delta)) negative_stock) _
          h1
          λ _ fits h2.
            let found = require_item-In db _ _ e in
            (
              item,
              found.0,
              found.1,
              not_below item.current_qty delta (refuse_if-eq-ok _ _ fits),
              committed h2,
            )

write_movement-Reconciled :
    (db : Db) (input : ApplyMovement) (item : InventoryItem) (delta : ℤ)
    → In item db.items
    → pos 0 ≤ℤ (item.current_qty +ℤ delta)
    → Reconciled db
    → Reconciled (write_movement db input item delta)
unfolding Reconciled write_movement set_item new_movement
write_movement-Reconciled db input item delta n p v i m =
    let balance = item.current_qty +ℤ delta in
    let f = λ (j : InventoryItem). record j { current_qty = balance } in
    let row = new_movement input item.id delta balance in
    let (b, there, how) = update_row-In (λ j. j.id) item.id f i db.items m in
    elim how [
      | inl hit ↦
          moved-Tallied db.movements item i row refl
            (ap (λ (j : InventoryItem). j.id) hit.1 ∙ hit.0)
            (ap (λ (j : InventoryItem). j.current_qty) hit.1) p (v item n)
      | inr miss ↦
          subst (Tallied (db.movements ++ row ∷ [])) (sym miss.1)
            (other-Tallied db.movements b row (λ e. miss.0 (sym e)) (v b there))
    ]

-- A movement that is recorded leaves every item reconciled.
pub apply_movement-Reconciled :
    (db : Db) (input : ApplyMovement) {db' : Db}
    → Reconciled db
    → apply_movement db input ≡ ok db'
    → Reconciled db'
apply_movement-Reconciled db input v h =
    let (item, m, _, p, e) = apply_movement-written db input h in
    subst Reconciled e (write_movement-Reconciled db input item _ m p v)

-- In a reconciled store an item holds what the ledger says.
pub Reconciled-qty :
    (db : Db) (i : InventoryItem)
    → Reconciled db
    → In i db.items
    → i.current_qty ≡ ledger_qty db i.id
unfolding Reconciled Tallied ledger_qty
Reconciled-qty db i v m = (v i m).0

-- A new item, of which there is no movement yet.
pub add_item-Reconciled :
    (db : Db) (item : InventoryItem)
    → item.current_qty ≡ pos 0
    → any (λ m. m.item_id == item.id) db.movements ≡ false
    → Reconciled db
    → Reconciled (record db { items = db.items ++ item ∷ [] })
unfolding Reconciled Tallied
add_item-Reconciled db item none_yet new v i m = elim (In-append i db.items (item ∷ []) m) [
  | inl old ↦ v i old
  | inr (inl e) ↦
      subst (Tallied db.movements) (sym e)
        (none_yet ∙ sym (sum-unmoved item.id db.movements new), rw none_yet (omega arith))
  | inr (inr absent) ↦ elim absent [ ]
]
