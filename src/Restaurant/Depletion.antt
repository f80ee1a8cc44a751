-- ===== src/Restaurant/Depletion.antt =====
-- What a sold dish takes from the store changes nothing but the store (Restaurant/Settle.antt).
use travelo.Base.{
  ℕ, ◌*◌, ◌≡◌, refl, sym, ap, ◌∙◌, Bool, List, [], ◌∷◌, Option, true, false, ok, refused, Outcome,
  ◌==◌,
}
use travelo.Schema.{Db, MenuItemRecipe, OrderItem, Refusal}
use travelo.Inventory.{ApplyMovement, apply_movement, write_movement, set_item}
use travelo.Inventory.Ledger.{apply_movement-written}
use travelo.Restaurant.Settle.{
  try_movement, consume, consume_all, deplete_lines, recipe_of, deplete_stock,
}

-- The second database is the first with other stock.
unfoldable pub Stocked : Db → Db → Type 0
Stocked db d = d ≡ record db { items = d.items; movements = d.movements }

Stocked-trans : (a b c : Db) → Stocked a b → Stocked b c → Stocked a c
unfolding Stocked
Stocked-trans a b c e h =
    h ∙ ap (λ (x : Db). record x { items = c.items; movements = c.movements }) e

apply_movement-Stocked :
    (db : Db) (input : ApplyMovement) {db' : Db} → apply_movement db input ≡ ok db' → Stocked db db'
unfolding Stocked write_movement set_item
apply_movement-Stocked db input {db'} h =
    let e = (apply_movement-written db input h).4 in
    sym e ∙ ap (λ (x : Db). record db { items = x.items; movements = x.movements }) e

either-Stocked :
    (db x y : Db) (b : Bool)
    → Stocked db x
    → Stocked db y
    → Stocked db (elim b [ true ↦ x | false ↦ y ])
either-Stocked db x y true p q = p
either-Stocked db x y false p q = q

tried-Stocked :
    (db : Db) (o : Outcome Refusal Db)
    → ((d : Db) → o ≡ ok d → Stocked db d)
    → Stocked db (elim o [ ok d ↦ d | refused why ↦ db ])
unfolding Stocked
tried-Stocked db (ok d) p = p d refl
tried-Stocked db (refused why) p = refl

try_movement-Stocked : (db : Db) (input : ApplyMovement) → Stocked db (try_movement db input)
unfolding try_movement
try_movement-Stocked db input =
    tried-Stocked db (apply_movement db input) (λ d. apply_movement-Stocked db input)

consume-Stocked :
    (db : Db) (property_id : ℕ) (by : Option ℕ) (qty : ℕ) (r : MenuItemRecipe)
    → Stocked db (consume db property_id by qty r)
unfolding consume Stocked
consume-Stocked db property_id by qty r =
    either-Stocked db db _ (r.qty_per_unit * qty == 0) refl (try_movement-Stocked db _)

consume_all-Stocked :
    (rs : List MenuItemRecipe) (db : Db) (property_id : ℕ) (by : Option ℕ) (qty : ℕ)
    → Stocked db (consume_all db property_id by qty rs)
unfolding consume_all Stocked
consume_all-Stocked [] db property_id by qty = refl
consume_all-Stocked (r ∷ rs) db property_id by qty =
    Stocked-trans db _ _ (consume-Stocked db property_id by qty r)
      (consume_all-Stocked rs (consume db property_id by qty r) property_id by qty)

deplete_lines-Stocked :
    (ls : List OrderItem) (db recipes : Db) (property_id : ℕ) (by : Option ℕ)
    → Stocked db (deplete_lines db recipes property_id by ls)
unfolding deplete_lines Stocked
deplete_lines-Stocked [] db recipes property_id by = refl
deplete_lines-Stocked (l ∷ ls) db recipes property_id by =
    let used = consume_all db property_id by l.qty (recipe_of recipes property_id l.menu_item_id) in
    Stocked-trans db used _ (consume_all-Stocked _ db property_id by l.qty)
      (deplete_lines-Stocked ls used recipes property_id by)

pub deplete_stock-Stocked :
    (db : Db) (property_id order_id : ℕ) (by : Option ℕ)
    → Stocked db (deplete_stock db property_id order_id by)
unfolding deplete_stock
deplete_stock-Stocked db property_id order_id by = deplete_lines-Stocked _ db db property_id by
