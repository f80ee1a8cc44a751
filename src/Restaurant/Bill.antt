-- ===== src/Restaurant/Bill.antt =====
-- What a discount does to a bill (Restaurant.antt).
use travelo.Base.{ℕ, ◌+◌, ◌*◌, ◌-◌, ◌/◌, ◌≤◌, ◌≡◌, min, List, arith}
use travelo.Schema.{OrderItem}
use travelo.Restaurant.{compute_bill, gross_paise}
use native.Mathlib.Nat.{mul-le-mul_right}

service_le : (a b bp : ℕ) → a ≤ b → (a * bp + 5000) / 10000 ≤ (b * bp + 5000) / 10000
service_le a b bp h = omega (arith, mul-le-mul_right bp h)

tax_le : (a b percent : ℕ) → a ≤ b → (a * percent + 50) / 100 ≤ (b * percent + 50) / 100
tax_le a b percent h = omega (arith, mul-le-mul_right percent h)

rest_le : (g d d' : ℕ) → d ≤ d' → g - min d' g ≤ g - min d g
rest_le g d d' h = omega arith

-- The totals of a subtotal, which grow with it.
total_le :
    (a b bp percent : ℕ)
    → a ≤ b
    → a + (a * bp + 5000) / 10000 + ((a + (a * bp + 5000) / 10000) * percent + 50) / 100
      ≤ b + (b * bp + 5000) / 10000 + ((b + (b * bp + 5000) / 10000) * percent + 50) / 100
total_le a b bp percent h =
    let s = service_le a b bp h in
    let t =
      tax_le (a + (a * bp + 5000) / 10000) (b + (b * bp + 5000) / 10000) percent
        (omega (arith, s)) in
    omega (arith, s, t)

-- A larger discount never raises the total of a bill; the subtotal and the discount taken add up
-- to the lines' gross amount, and no more is taken than was given.
pub compute_bill_discount :
    (lines : List OrderItem) (tax_percent service_bp d d' : ℕ)
    → d ≤ d'
    → ((compute_bill lines tax_percent d' service_bp).total_paise
        ≤ (compute_bill lines tax_percent d service_bp).total_paise)
      × ((compute_bill lines tax_percent d service_bp).subtotal_paise
            + (compute_bill lines tax_percent d service_bp).discount_paise
          ≡ gross_paise lines)
      × ((compute_bill lines tax_percent d service_bp).discount_paise ≤ d)
unfolding compute_bill
compute_bill_discount lines tax_percent service_bp d d' h =
    let g = gross_paise lines in
    (
      total_le (g - min d' g) (g - min d g) service_bp tax_percent (rest_le g d d' h),
      split_off g d,
      capped g d,
    )
  where
    split_off : (g d : ℕ) → g - min d g + min d g ≡ g
    split_off g d = omega arith

    capped : (g d : ℕ) → min d g ≤ d
    capped g d = omega arith
