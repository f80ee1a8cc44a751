-- ===== src/Billing/Gst.antt =====
-- src/modules/billing/gst.ts: the tax rate of a supply and the split of the tax. Amounts are paise.
pub mod Laws
use Prim.Native.String.{String}
use travelo.Base.{
  ℕ, zero, suc, ◌+◌, ◌≡◌, refl, Bool, true, false, List, [], ◌∷◌, Option, none, some, if◌then◌else◌,
  or_else,
}
use travelo.Base.Int.{ℤ, pos, negsuc, ◌+ℤ◌, ◌-ℤ◌, ◌*ℤ◌, ltb_ℤ, floor_div, round_div_ℤ}
use travelo.Schema.{GstCategory}

pub record GstSlab : Type 0 where
  -- An inclusive bound, or none for the top slab.
  pub max_amount_paise : Option ℕ
  pub rate_percent : ℕ

pub record GstBreakdown : Type 0 where
  pub cgst_paise : ℤ
  pub sgst_paise : ℤ
  pub igst_paise : ℤ
  pub tax_paise : ℤ
  pub total_paise : ℤ

unfoldable pub slabs_for : GstCategory → List GstSlab
slabs_for GstCategory.accommodation =
    record { max_amount_paise = some 750000; rate_percent = 12 }
    ∷ record { max_amount_paise = none; rate_percent = 18 }
    ∷ []
slabs_for GstCategory.restaurant = record { max_amount_paise = none; rate_percent = 5 } ∷ []
slabs_for GstCategory.saas = record { max_amount_paise = none; rate_percent = 18 } ∷ []
slabs_for GstCategory.other = record { max_amount_paise = none; rate_percent = 18 } ∷ []

unfoldable pub hsn_for : GstCategory → String
hsn_for GstCategory.accommodation = "996311"
hsn_for GstCategory.restaurant = "996331"
hsn_for GstCategory.saas = "998319"
hsn_for GstCategory.other = "9983"

-- `maxAmountPaise === null || amountPaise <= maxAmountPaise`
abbrev pub in_slab : GstSlab → ℤ → Bool
in_slab s amount = elim s.max_amount_paise [
  | none ↦ true
  | some bound ↦ if ltb_ℤ (pos bound) amount then false else true
]

-- The loop over the slabs; `last` is the rate of the last one seen, the source's fallback.
first_rate : ℕ → List GstSlab → ℤ → ℕ
first_rate last [] amount = last
first_rate last (s ∷ slabs) amount =
    let rest = first_rate s.rate_percent slabs amount in
    if in_slab s amount then s.rate_percent else rest

unfoldable pub resolve_gst_rate : GstCategory → ℤ → ℕ
unfolding first_rate slabs_for
resolve_gst_rate category amount = first_rate 0 (slabs_for category) amount

unfoldable pub compute_gst : ℤ → ℕ → Bool → GstBreakdown
compute_gst taxable rate_percent intra_state =
    let tax = round_div_ℤ (taxable *ℤ pos rate_percent) 100 in
    let sgst = if intra_state then floor_div tax 2 else pos 0 in
    record {
      cgst_paise = if intra_state then tax -ℤ sgst else pos 0;
      sgst_paise = sgst;
      igst_paise = if intra_state then pos 0 else tax;
      tax_paise = tax;
      total_paise = taxable +ℤ tax;
    }

pub record CategoryGst : Type 0 where
  pub breakdown : GstBreakdown
  pub rate_percent : ℕ
  pub hsn_code : String

-- The slab is chosen on `slab_basis`, where one is given.
unfoldable pub compute_gst_for_category : GstCategory → ℤ → Option ℤ → Bool → CategoryGst
compute_gst_for_category category taxable slab_basis intra_state =
    let rate = resolve_gst_rate category (or_else slab_basis taxable) in
    record {
      breakdown = compute_gst taxable rate intra_state;
      rate_percent = rate;
      hsn_code = hsn_for category;
    }
