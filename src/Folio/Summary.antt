-- ===== src/Folio/Summary.antt =====
-- src/modules/folio/folio.service.ts: a folio's summary and its balance.
use travelo.Base.{
  ℕ, ◌+◌, ◌*◌, ◌/◌, max, Bool, true, false, not, ◌&&◌, List, none, some, filter, select, sum_of,
  ◌==◌, if◌then◌else◌, ltb,
}
use travelo.Base.Int.{ℤ, pos, ◌+ℤ◌, ◌-ℤ◌, sum_ℤ}
use travelo.Schema.{
  Db, Reservation, FolioLine, GstCategory, PaymentDirection, PropertyTax, TaxCalculation, TaxBasis,
  TaxAppliesTo,
}
use travelo.Billing.Gst.{compute_gst_for_category}
use travelo.Reservation.Rules.{nights_between}
use travelo.Folio.Charges.{intra_state_of}

-- `propertyTaxAmount`
unfoldable pub property_tax_amount : PropertyTax → ℕ → ℕ → ℕ → ℕ
property_tax_amount t base nights guests = elim t.calculation [
  | TaxCalculation.percent ↦ (base * t.value + 5000) / 10000
  | TaxCalculation.fixed ↦ elim t.basis [
    | TaxBasis.per_night ↦ t.value * nights
    | TaxBasis.per_guest ↦ t.value * guests
    | TaxBasis.per_stay ↦ t.value
  ]
]

abbrev is_on_room : TaxAppliesTo → Bool
is_on_room TaxAppliesTo.room = true
is_on_room TaxAppliesTo.all = true
is_on_room _ = false

-- The statutory tax on the room, its slab by the nightly rate; a stay of no charge has none.
unfoldable pub room_gst : Db → Reservation → ℤ
room_gst db r =
    if ltb 0 r.total_paise
    then (compute_gst_for_category GstCategory.accommodation (pos r.total_paise)
        (some (pos r.rate_paise))
        (intra_state_of db r.property_id r.company_gstin)).breakdown.tax_paise
    else pos 0

-- The property's own taxes on the room.
unfoldable pub property_taxes_on : Db → Reservation → ℕ
unfolding property_tax_amount
property_taxes_on db r =
    sum_of
      (λ t.
        property_tax_amount t r.total_paise (max 1 (nights_between r.check_in r.check_out))
          (max 1 (r.adults + r.children)))
      (filter
        (λ t.
          t.property_id == r.property_id && t.is_active && not t.deleted && is_on_room t.applies_to)
        db.property_taxes)

pub record FolioSummary : Type 0 where
  pub room_charge_paise : ℕ
  pub room_tax_paise : ℤ
  pub ancillary_paise : ℤ
  pub line_tax_paise : ℤ
  pub property_tax_paise : ℕ
  pub tax_paise : ℤ
  pub subtotal_paise : ℤ
  pub charges_paise : ℤ
  pub payments_paise : ℕ
  pub refunds_paise : ℕ
  pub net_paid_paise : ℤ
  pub balance_paise : ℤ

abbrev pub is_payment : PaymentDirection → Bool
is_payment PaymentDirection.payment = true
is_payment PaymentDirection.refund = false

unfoldable pub live_lines : Db → ℕ → List FolioLine
live_lines db reservation_id =
    filter (λ l. l.reservation_id == reservation_id && not l.voided) db.folio_lines

unfoldable pub paid_in : Db → ℕ → Bool → ℕ
paid_in db reservation_id direction =
    sum_of (λ p. p.amount_paise)
      (filter
        (λ p.
          p.reservation_id == reservation_id
          && (if direction then is_payment p.direction else not (is_payment p.direction)))
        db.folio_payments)

-- The room part of the summary: charge, statutory tax, property taxes.
unfoldable pub room_part : Db → ℕ → ℕ × ℤ × ℕ
room_part db reservation_id =
    elim (select (λ r. r.id == reservation_id && not r.deleted) db.reservations) [
      | none ↦ (0, pos 0, 0)
      | some r ↦ (r.total_paise, room_gst db r, property_taxes_on db r)
    ]

-- `summary`
unfoldable pub summary : Db → ℕ → FolioSummary
summary db reservation_id =
    let (charge, gst, own) = room_part db reservation_id in
    let lines = live_lines db reservation_id in
    let ancillary = sum_ℤ (λ l. l.amount_paise) lines in
    let line_tax = sum_ℤ (λ l. l.tax_paise) lines in
    let paid = paid_in db reservation_id true in
    let refunded = paid_in db reservation_id false in
    let subtotal = pos charge +ℤ ancillary in
    let tax = gst +ℤ pos own +ℤ line_tax in
    let net = pos paid -ℤ pos refunded in
    record {
      room_charge_paise = charge;
      room_tax_paise = gst;
      ancillary_paise = ancillary;
      line_tax_paise = line_tax;
      property_tax_paise = own;
      tax_paise = tax;
      subtotal_paise = subtotal;
      charges_paise = subtotal +ℤ tax;
      payments_paise = paid;
      refunds_paise = refunded;
      net_paid_paise = net;
      balance_paise = subtotal +ℤ tax -ℤ net;
    }

-- `balancePaise`, what the checkout gate reads.
unfoldable pub balance_paise : Db → ℕ → ℤ
balance_paise db reservation_id = (summary db reservation_id).balance_paise
