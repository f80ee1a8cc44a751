-- ===== src/Scenarios/Money.antt =====
-- Payments, charges, departures, taxes and tasks on the hotel.
use travelo.Base.{
  In, Option, refused, ℕ, ◌%◌, ◌<◌, ◌≡◌, ◌↔◌, refl, true, false, not, ◌&&◌, none, some, any, filter,
  select, count_of, update_row, arith, sum_of, if◌then◌else◌,
}
use travelo.Base.Int.{pos, negsuc, ◌+ℤ◌, ◌-ℤ◌, ◌*ℤ◌, ◌≤ℤ◌, ltb_ℤ, round_div_ℤ, floor_div, sum_ℤ}
use travelo.Schema.{
  Reservation, ReservationStatus, ReservationStatus, FolioLineKind, FolioPaymentMethod, GstCategory,
  balance_outstanding,
}
use travelo.Billing.Gst.{compute_gst, compute_gst_for_category, resolve_gst_rate, slabs_for}
use travelo.Billing.Gst.Laws.{compute_gst_split, compute_gst_rounding, accommodation_rate}
use travelo.Folio.Charges.{PostCharge, post_charge, void_line, intra_state_of}
use travelo.Folio.Receipts.{
  RecordPayment, find_payment_by_key, record_payment, insert_payment, new_payment, net_paid,
}
use travelo.Folio.Summary.{
  summary, balance_paise, room_part, room_gst, property_taxes_on, live_lines, paid_in,
}
use travelo.Folio.Payments.{
  NewKey, brought, net_paid-summary, record_payment_again, balance_paise-record_payment,
}
use travelo.Folio.Lines.{post_charge_again, void_line_again}
use travelo.Reservation.Rules.{
  Stay, overlaps, covers_date, can_transition, transitions, assert_transition, nights_between,
  add_days, format_reservation_number,
}
use travelo.Reservation.Availability.{
  require_reservation, assert_type_capacity, assert_nights, overlapping_stays, occupying_overlap,
  counts_for_type, sold_on, sellable_on,
}
use travelo.Reservation.Nights.{
  stage, overlaps-covers_date, can_transition-stage, assert_type_capacity-eq-ok, sleeps, in_service,
  below_cap, format_reservation_number-injective,
}
use travelo.Reservation.Departure.{
  CheckOut, check_out, departing, gate, collect_at_desk, collect, desk_payment,
}
use travelo.Reservation.Settlement.{check_out-settled, check_out-blocked}
use travelo.Scenarios.Hotel.{hotel}

abbrev dinner : PostCharge
dinner = record {
  reservation_id = 5;
  property_id = 1;
  kind = FolioLineKind.restaurant;
  amount_paise = pos 80000;
  source = some (3, 41);
  posted_by = none;
  quantity = none;
  tax_category = none;
  tax_exempt = false;
  hsn_code = none;
}

abbrev advance : RecordPayment
advance = record {
  reservation_id = 5;
  property_id = 1;
  method = FolioPaymentMethod.upi;
  amount_paise = 300000;
  direction = none;
  collected_by = none;
  idempotency_key = some 77;
}

abbrev settles : ℕ → CheckOut
settles amount = record {
  collected_paise = some amount;
  payment_method = none;
  idempotency_key = none;
  allow_outstanding = false;
}

check_out-settled_example :
    (balance_paise (check_out hotel 1 5 (settles 1120000) none 1 1 900).0 5 ≡ pos 0)
    × (ltb_ℤ (pos 0) (pos 0) ≡ false)
    × ((false && not (settles 1120000).allow_outstanding) ≡ false)
unfolding check_out departing gate collect_at_desk collect desk_payment require_reservation select
    assert_transition can_transition transitions any record_payment find_payment_by_key
    insert_payment new_payment update_row balance_paise summary room_part room_gst property_taxes_on
    intra_state_of live_lines paid_in filter sum_of sum_ℤ compute_gst_for_category resolve_gst_rate
    compute_gst round_div_ℤ floor_div slabs_for ◌+ℤ◌ ◌-ℤ◌ ◌*ℤ◌
check_out-settled_example = check_out-settled hotel 1 5 (settles 1120000) none 1 1 900 refl

unpaid : (key : Option ℕ) → NewKey hotel 5 key
unfolding NewKey
unpaid key p m own given = elim m [ ]

check_out-blocked_example :
    ((check_out hotel 1 5 (settles 500000) none 1 1 900).1
      ≡ refused (balance_outstanding (balance_paise hotel 5 -ℤ pos 500000)))
    × (balance_paise (check_out hotel 1 5 (settles 500000) none 1 1 900).0 5
        ≡ balance_paise hotel 5 -ℤ pos 500000)
    × ((check_out hotel 1 5 (settles 500000) none 1 1 900).0.rooms ≡ hotel.rooms)
    × ((check_out hotel 1 5 (settles 500000) none 1 1 900).0.tasks ≡ hotel.tasks)
    × (r : Reservation) × In r (check_out hotel 1 5 (settles 500000) none 1 1 900).0.reservations
    × (r.id ≡ 5)
    × (r.status ≡ ReservationStatus.checked_in)
unfolding require_reservation select balance_paise summary room_part room_gst property_taxes_on
    intra_state_of live_lines paid_in filter sum_of sum_ℤ compute_gst_for_category resolve_gst_rate
    compute_gst round_div_ℤ floor_div slabs_for ◌+ℤ◌ ◌-ℤ◌ ◌*ℤ◌
check_out-blocked_example =
    check_out-blocked hotel 1 5 (settles 500000) none 1 1 900 refl refl (unpaid none) refl refl

balance_paise-record_payment_example :
    balance_paise (record_payment hotel advance 1).0 5 ≡ balance_paise hotel 5 -ℤ pos 300000
unfolding brought
balance_paise-record_payment_example =
    balance_paise-record_payment hotel advance 1 (unpaid (some 77))

net_paid-summary_example :
    net_paid (insert_payment hotel advance 1) 5
    ≡ (summary (insert_payment hotel advance 1) 5).net_paid_paise
net_paid-summary_example = net_paid-summary (insert_payment hotel advance 1) 5

record_payment_again_example :
    record_payment (record_payment hotel advance 1).0 advance 2 ≡ record_payment hotel advance 1
record_payment_again_example = record_payment_again hotel advance 1 2 77 refl

post_charge_again_example :
    post_charge (post_charge hotel dinner 1).0 dinner 2 ≡ post_charge hotel dinner 1
post_charge_again_example = post_charge_again hotel dinner 1 2 (3, 41) refl

void_line_again_example :
    let posted = (post_charge hotel dinner 1).0 in
    void_line (void_line posted 5 1 1 none).0 5 1 1 (some 7)
    ≡ ((void_line posted 5 1 1 none).0, none)
void_line_again_example = void_line_again (post_charge hotel dinner 1).0 5 1 1 none (some 7)

compute_gst_split_example :
    let intra = compute_gst (pos 12345) 5 true in
    let inter = compute_gst (pos 12345) 5 false in
    (intra.cgst_paise +ℤ intra.sgst_paise ≡ intra.tax_paise)
    × (intra.sgst_paise ≤ℤ intra.cgst_paise)
    × (intra.cgst_paise ≤ℤ intra.sgst_paise +ℤ pos 1)
    × (intra.igst_paise ≡ pos 0)
    × (inter.igst_paise ≡ inter.tax_paise)
    × (inter.cgst_paise +ℤ inter.sgst_paise ≡ pos 0)
    × (intra.tax_paise ≡ inter.tax_paise)
    × (intra.total_paise ≡ inter.total_paise)
compute_gst_split_example = compute_gst_split (pos 12345) 5

compute_gst_rounding_example :
    let tax = (compute_gst (negsuc 12344) 18 true).tax_paise in
    (negsuc 12344 *ℤ pos 18 ≤ℤ tax *ℤ pos 100 +ℤ pos 50)
    × (tax *ℤ pos 100 ≤ℤ negsuc 12344 *ℤ pos 18 +ℤ pos 50)
compute_gst_rounding_example = compute_gst_rounding (negsuc 12344) 18 true

accommodation_rate_example :
    (compute_gst_for_category GstCategory.accommodation
      (pos 2400000)
      (some (pos 800000))
      false).breakdown
    ≡ compute_gst (pos 2400000) (if true then 18 else 12) false
accommodation_rate_example = accommodation_rate (pos 2400000) 800000 false

abbrev week : Stay
week = record { check_in = 1; check_out = 8 }

abbrev weekend : Stay
weekend = record { check_in = 6; check_out = 9 }

overlaps-covers_date_example :
    (overlaps week weekend ≡ true)
    ↔ ((night : ℕ) × (covers_date week night ≡ true) × (covers_date weekend night ≡ true))
overlaps-covers_date_example = overlaps-covers_date week weekend (omega arith) (omega arith)

can_transition-stage_example : stage ReservationStatus.confirmed < stage ReservationStatus.no_show
unfolding can_transition transitions any
can_transition-stage_example =
    can_transition-stage ReservationStatus.confirmed ReservationStatus.no_show refl

assert_type_capacity-eq-ok_example :
    (count_of (sleeps 1 1 (some 3) 11) hotel.reservations < count_of (in_service 1 1) hotel.rooms)
    × (below_cap (count_of (sleeps 1 1 (some 3) 11) hotel.reservations) none 11 ≡ true)
unfolding assert_type_capacity assert_nights overlapping_stays occupying_overlap filter count_of
    counts_for_type sold_on sellable_on nights_between add_days
assert_type_capacity-eq-ok_example =
    assert_type_capacity-eq-ok hotel 1 1 10 12 (some 3) none 11 refl (omega arith) (omega arith)

format_reservation_number-injective_example : 1000042 % 1000000 ≡ 42 % 1000000
unfolding format_reservation_number
format_reservation_number-injective_example = format_reservation_number-injective 1000042 42 refl
