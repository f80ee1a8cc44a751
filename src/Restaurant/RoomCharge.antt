-- ===== src/Restaurant/RoomCharge.antt =====
-- A restaurant bill that is charged to a room (Restaurant/Settle.antt, Folio.antt).
use travelo.Base.{
  ℕ, ◌+◌, ◌-◌, ◌≡◌, refl, sym, ap, subst, ◌∙◌, Bool, true, false, not, ◌&&◌, [], ◌∷◌, ◌++◌, Option,
  none, some, select, select-some, require, require-eq-ok, refuse_if, refuse_if-eq-ok, through,
  committed, ok, leb, le→leb, ◌==◌, In, In-update_row_self, arith,
}
use travelo.Base.Int.{pos}
use travelo.Schema.{
  Db, Timestamp, Reservation, ReservationStatus, is_status, FolioLine, RestaurantOrder, OrderStatus,
  is_order_status, RestaurantPaymentMethod, TableStatus, order_not_billed, reservation_required,
  reservation_not_in_house,
}
use travelo.Folio.Charges.{find_line_by_source, new_line}
use travelo.Folio.Lines.{post_charge_new}
use travelo.Restaurant.Orders.{require_order, set_order, set_table_status}
use travelo.Restaurant.Settle.{
  SettleOrder, Tender, settle, tender, post_tender, insert_order_payment, paid_order, finish,
  deplete_stock, room_charge, restaurant_order_source,
}
use travelo.Restaurant.Depletion.{Stocked, deplete_stock-Stocked}
use travelo.Restaurant.Books.Frames.{require_order-In}

-- A room charge pays what is left, on behalf of a guest in the house.
tender-room_charge :
    (db : Db) (property_id : ℕ) (order : RestaurantOrder) (dto : SettleOrder) (remaining : ℕ)
    {t : Tender}
    → dto.method ≡ RestaurantPaymentMethod.room_charge
    → tender db property_id order dto remaining ≡ ok t
    → (stay : Reservation) × In stay db.reservations
      × (stay.property_id ≡ property_id)
      × (is_status stay.status ReservationStatus.checked_in ≡ true)
      × (dto.reservation_id ≡ some stay.id)
      × (t.reservation_id ≡ some stay.id)
      × (t.amount_paise ≡ remaining)
unfolding tender
tender-room_charge db property_id order dto remaining em h =
    through (require dto.reservation_id reservation_required) _ (rw em at h) λ stay_id named h1.
      through
        (require (select (λ r. r.id == stay_id && r.property_id == property_id) db.reservations)
          reservation_not_in_house)
        _ h1
        λ stay e h2.
          through
            (refuse_if (not (is_status stay.status ReservationStatus.checked_in))
              reservation_not_in_house)
            _ h2
            λ _ inside h3.
              let found =
                select-some (λ (r : Reservation). r.id == stay_id && r.property_id == property_id)
                  db.reservations (require-eq-ok _ _ e) in
              (
                stay,
                found.0,
                ground (arith, found.1),
                ground (arith, refuse_if-eq-ok _ _ inside),
                require-eq-ok _ _ named ∙ ap some (ground (arith, found.1)),
                ap (λ (t : Tender). t.reservation_id) (sym (committed h3)),
                ap (λ (t : Tender). t.amount_paise) (sym (committed h3)),
              )

posted-folio_lines :
    (db : Db) (property_id : ℕ) (order : RestaurantOrder) (t : Tender) (by : Option ℕ)
    (line_id stay_id : ℕ) {d : Db}
    → t.reservation_id ≡ some stay_id
    → find_line_by_source db (some (restaurant_order_source, order.id)) ≡ none
    → post_tender db property_id order RestaurantPaymentMethod.room_charge t by line_id ≡ ok d
    → d ≡ record db {
      folio_lines =
          db.folio_lines ++ new_line db (room_charge property_id order stay_id by) line_id ∷ [];
    }
unfolding post_tender room_charge
posted-folio_lines db property_id order t by line_id stay_id e new h =
    sym (committed (rw e at h))
    ∙ ap (λ (r : Db × FolioLine). r.0)
        (post_charge_new db (room_charge property_id order stay_id by) line_id new)

set_table_status-kept :
    (db : Db) (table : Option ℕ) (status : TableStatus)
    → ((set_table_status db table status).orders ≡ db.orders)
      × ((set_table_status db table status).folio_lines ≡ db.folio_lines)
unfolding set_table_status
set_table_status-kept db none status = (refl, refl)
set_table_status-kept db (some id) status = (refl, refl)

finish-kept :
    (db : Db) (property_id : ℕ) (order : RestaurantOrder) (settled : Bool) (by : Option ℕ)
    → ((finish db property_id order settled by).orders ≡ db.orders)
      × ((finish db property_id order settled by).folio_lines ≡ db.folio_lines)
unfolding finish Stocked
finish-kept db p order false by = (refl, refl)
finish-kept db p order true by =
    let used = deplete_stock-Stocked db p order.id by in
    let freed =
      set_table_status-kept (deplete_stock db p order.id by) order.table_id TableStatus.open_ in
    (freed.0 ∙ ap (λ (d : Db). d.orders) used, freed.1 ∙ ap (λ (d : Db). d.folio_lines) used)

covers : (total paid t : ℕ) → t ≡ total - paid → leb total (paid + t) ≡ true
covers total paid t e = le→leb total (paid + t) (omega arith)

-- Where the folio has no line of the order yet and `settle` accepts a room charge, the stay that
-- the request names is in the house at that property, the folio has one more line, on that stay
-- and for the order's whole total, and the order is paid.
pub settle-room_charge :
    (db : Db) (property_id id : ℕ) (dto : SettleOrder) (by : Option ℕ) (line_id : ℕ)
    (now : Timestamp) {order : RestaurantOrder} {db' : Db}
    → dto.method ≡ RestaurantPaymentMethod.room_charge
    → require_order db property_id id ≡ ok order
    → find_line_by_source db (some (restaurant_order_source, order.id)) ≡ none
    → settle db property_id id dto by line_id now ≡ ok db'
    → (stay : Reservation) × In stay db.reservations
      × (stay.property_id ≡ property_id)
      × (is_status stay.status ReservationStatus.checked_in ≡ true)
      × (dto.reservation_id ≡ some stay.id)
      × (l : FolioLine) × (db'.folio_lines ≡ db.folio_lines ++ l ∷ [])
      × (l.reservation_id ≡ stay.id)
      × (l.amount_paise ≡ pos order.total_paise)
      × (o : RestaurantOrder) × In o db'.orders
      × (o.id ≡ id)
      × (o.status ≡ OrderStatus.paid)
unfolding settle set_order insert_order_payment new_line room_charge find_line_by_source paid_order
settle-room_charge db property_id id dto by line_id now {order} em found new h =
    through (require_order db property_id id) _ h λ before there h1.
      through (refuse_if (not (is_order_status before.status OrderStatus.billed)) order_not_billed)
        _ h1
        λ _ _ h2.
          let remaining = before.total_paise - before.paid_paise in
          through (tender db property_id before dto remaining) _ h2 λ t tendered h3.
            let paid = before.paid_paise + t.amount_paise in
            let settled = leb before.total_paise paid in
            let row = paid_order dto.method t paid settled by now in
            let written =
              set_order (insert_order_payment db property_id id dto.method t.amount_paise by) id
                row in
            through (post_tender written property_id before dto.method t by line_id) _ h3
              λ posted f h4.
                let (stay, m, at, inside, named, billed_to, all) =
                  tender-room_charge db property_id before dto remaining em tendered in
                let same = committed (sym there ∙ found) in
                let posting =
                  posted-folio_lines written property_id before t by line_id stay.id billed_to
                    (subst
                      (λ (o : RestaurantOrder).
                        find_line_by_source db (some (restaurant_order_source, o.id)) ≡ none)
                      (sym same) new)
                    (subst (λ m. post_tender written property_id before m t by line_id ≡ ok posted)
                      em f) in
                let done = finish-kept posted property_id before settled by in
                let end = committed h4 in
                let own = require_order-In db property_id id there in
                (
                  stay,
                  m,
                  at,
                  inside,
                  named,
                  new_line written (room_charge property_id before stay.id by) line_id,
                  ap (λ (d : Db). d.folio_lines) (sym end)
                      ∙ done.1
                      ∙ ap (λ (d : Db). d.folio_lines) posting,
                  refl,
                  ap (λ (o : RestaurantOrder). pos o.total_paise) same,
                  row before,
                  subst (In (row before))
                      (sym (
                        ap (λ (d : Db). d.orders) (sym end)
                        ∙ done.0
                        ∙ ap (λ (d : Db). d.orders) posting))
                      (In-update_row_self (λ o. o.id) id row before db.orders own.1 own.0),
                  own.1,
                  rw (covers before.total_paise before.paid_paise t.amount_paise all) refl,
                )
