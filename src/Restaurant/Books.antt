-- ===== src/Restaurant/Books.antt =====
-- What an order has been paid, against its payments, over any calls of the order service
-- (Restaurant/Orders.antt, Restaurant/Settle.antt).
pub mod Frames
pub mod Calls
pub mod Settling
pub mod History
use travelo.Base.{
  ℕ, ◌+◌, ◌-◌, ◌≡◌, ◌≢◌, ◌≤◌, refl, sym, ap, subst, ◌∙◌, inl, inr, Bool, true, false, not, List, [],
  ◌∷◌, ◌++◌, Option, none, some, any, sum_of, sum_of-append, ◌==◌, if◌then◌else◌, In, In-append,
  Keyed, update_row, update_row-In, update_row-Keyed, append-Keyed, arith,
}
use travelo.Schema.{RestaurantOrder, OrderStatus, is_order_status, OrderPayment}

-- What a payment adds to the order with this id.
unfoldable pub amount_for : ℕ → OrderPayment → ℕ
amount_for id p = if p.order_id == id then p.amount_paise else 0

-- What the payments of an order come to.
unfoldable pub received_for : ℕ → List OrderPayment → ℕ
received_for id ps = sum_of (amount_for id) ps

-- The row says what its payments come to, and a paid order's total is covered.
pub record Booked (ps : List OrderPayment) (o : RestaurantOrder) : Type 0 where
  pub tallied : o.paid_paise ≡ received_for o.id ps
  pub covered : is_order_status o.status OrderStatus.paid ≡ true → o.total_paise ≤ o.paid_paise

-- The keys are unique and every row is booked.
pub record Books (orders : List RestaurantOrder) (ps : List OrderPayment) : Type 0 where
  pub keyed : Keyed (λ o. o.id) orders
  pub booked : (o : RestaurantOrder) → In o orders → Booked ps o

pub received_for-append :
    (id : ℕ) (ps : List OrderPayment) (p : OrderPayment)
    → received_for id (ps ++ p ∷ []) ≡ received_for id ps + amount_for id p
unfolding received_for sum_of
received_for-append id ps p = omega (arith, sum_of-append (amount_for id) ps (p ∷ []))

-- Payments that leave what other orders received.
pub others-Booked :
    (ps ps' : List OrderPayment) (o : RestaurantOrder)
    → received_for o.id ps' ≡ received_for o.id ps
    → Booked ps o
    → Booked ps' o
others-Booked ps ps' o e b = record { tallied = b.tallied ∙ sym e; covered = b.covered }

-- A change of one order's row, with its payments.
pub update-Books :
    (orders : List RestaurantOrder) (ps ps' : List OrderPayment) (id : ℕ)
    (f : RestaurantOrder → RestaurantOrder) (order : RestaurantOrder)
    → In order orders
    → order.id ≡ id
    → ((o : RestaurantOrder) → (f o).id ≡ o.id)
    → ((n : ℕ) → n ≢ id → received_for n ps' ≡ received_for n ps)
    → Booked ps' (f order)
    → Books orders ps
    → Books (update_row (λ o. o.id) id f orders) ps'
unfolding Keyed
update-Books orders ps ps' id f order m own keeps others fine v = record {
  keyed = update_row-Keyed (λ o. o.id) id f orders keeps v.keyed;
  booked = λ o n.
      let (b, there, how) = update_row-In (λ o. o.id) id f o orders n in
      elim how [
        | inl hit ↦
            subst (Booked ps') (sym (hit.1 ∙ ap f (v.keyed b order there m (hit.0 ∙ sym own)))) fine
        | inr miss ↦
            subst (Booked ps') (sym miss.1)
              (others-Booked ps ps' b (others b.id miss.0) (v.booked b there))
      ];
}

none_received :
    (id : ℕ) (ps : List OrderPayment)
    → any (λ p. p.order_id == id) ps ≡ false
    → received_for id ps ≡ 0
unfolding received_for sum_of amount_for any
none_received id [] e = refl
none_received id (p ∷ ps) e = ground (arith, none_received id ps)

-- A new order, with nothing paid.
pub add-Books :
    (orders : List RestaurantOrder) (ps : List OrderPayment) (order : RestaurantOrder)
    → ((o : RestaurantOrder) → In o orders → o.id ≢ order.id)
    → any (λ p. p.order_id == order.id) ps ≡ false
    → order.paid_paise ≡ 0
    → order.status ≡ OrderStatus.opened
    → Books orders ps
    → Books (orders ++ order ∷ []) ps
add-Books orders ps order fresh new zero_paid opened v = record {
  keyed = append-Keyed (λ o. o.id) order orders fresh v.keyed;
  booked = λ o m. elim (In-append o orders (order ∷ []) m) [
    | inl old ↦ v.booked o old
    | inr (inl e) ↦ subst (Booked ps) (sym e) (record {
      tallied = zero_paid ∙ sym (none_received order.id ps new);
      covered = λ paid. absurd (ground arith);
    })
    | inr (inr absent) ↦ elim absent [ ]
  ];
}
