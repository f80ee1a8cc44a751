-- ===== src/Billing/Gst/Laws.antt =====
-- The tax splits without drift, and is rounded to the nearest paisa (src/modules/billing/gst.ts).
use travelo.Base.{
  ℕ, ◌≡◌, refl, Bool, true, false, arith, ltb, if◌then◌else◌, Bool-cases, inl, inr, some,
}
use travelo.Base.Int.{ℤ, pos, negsuc, ◌+ℤ◌, ◌-ℤ◌, ◌*ℤ◌, ◌≤ℤ◌, floor_div, round_div_ℤ, int_laws}
use travelo.Schema.{GstCategory}
use travelo.Billing.Gst.{compute_gst, resolve_gst_rate, compute_gst_for_category}

-- The two halves of an amount, the larger first.
halves :
    (t : ℤ)
    → (floor_div t 2 ≤ℤ t -ℤ floor_div t 2)
      × (t -ℤ floor_div t 2 ≤ℤ floor_div t 2 +ℤ pos 1)
      × (t -ℤ floor_div t 2 +ℤ floor_div t 2 ≡ t)
unfolding floor_div
halves (pos n) = (omega int_laws, omega int_laws, omega int_laws)
halves (negsuc n) = (omega int_laws, omega int_laws, omega int_laws)

-- The rounded quotient is within half of the divisor.
round_div_hundred :
    (a : ℤ)
    → (a ≤ℤ round_div_ℤ a 100 *ℤ pos 100 +ℤ pos 50) × (round_div_ℤ a 100 *ℤ pos 100 ≤ℤ a +ℤ pos 50)
unfolding round_div_ℤ floor_div ◌+ℤ◌ ◌*ℤ◌
round_div_hundred (pos n) = (ground arith, ground arith)
round_div_hundred (negsuc n) = (ground arith, ground arith)

-- Within a state CGST and SGST add up to the tax, CGST is the larger by at most a paisa and IGST
-- is zero; between states IGST is the whole tax and the other two come to zero; tax and total are
-- the same both ways.
pub compute_gst_split :
    (taxable : ℤ) (rate : ℕ)
    → let intra = compute_gst taxable rate true in
      let inter = compute_gst taxable rate false in
      (intra.cgst_paise +ℤ intra.sgst_paise ≡ intra.tax_paise)
      × (intra.sgst_paise ≤ℤ intra.cgst_paise)
      × (intra.cgst_paise ≤ℤ intra.sgst_paise +ℤ pos 1)
      × (intra.igst_paise ≡ pos 0)
      × (inter.igst_paise ≡ inter.tax_paise)
      × (inter.cgst_paise +ℤ inter.sgst_paise ≡ pos 0)
      × (intra.tax_paise ≡ inter.tax_paise)
      × (intra.total_paise ≡ inter.total_paise)
unfolding compute_gst
compute_gst_split taxable rate =
    let h = halves (round_div_ℤ (taxable *ℤ pos rate) 100) in
    (h.2, h.0, h.1, refl, refl, omega int_laws, refl, refl)

-- A hundred times the tax is within fifty of the taxable amount times the rate: the tax is within
-- half a paisa of the exact one, for credits too.
pub compute_gst_rounding :
    (taxable : ℤ) (rate : ℕ) (intra_state : Bool)
    → let tax = (compute_gst taxable rate intra_state).tax_paise in
      (taxable *ℤ pos rate ≤ℤ tax *ℤ pos 100 +ℤ pos 50)
      × (tax *ℤ pos 100 ≤ℤ taxable *ℤ pos rate +ℤ pos 50)
unfolding compute_gst
compute_gst_rounding taxable rate intra_state = round_div_hundred (taxable *ℤ pos rate)

-- A room's charge is taxed at 12% where its tariff is at most 750000 paise a night and at 18%
-- above, whatever the charge itself is.
pub accommodation_rate :
    (charge : ℤ) (tariff : ℕ) (intra_state : Bool)
    → (compute_gst_for_category GstCategory.accommodation charge
        (some (pos tariff))
        intra_state).breakdown
      ≡ compute_gst charge (if ltb 750000 tariff then 18 else 12) intra_state
unfolding compute_gst_for_category resolve_gst_rate
accommodation_rate charge tariff intra_state = elim (Bool-cases (ltb 750000 tariff)) [
  | inl over ↦ rw over (ground arith)
  | inr under ↦ rw under (ground arith)
]
