-- ===== src/Scenarios/Till.antt =====
-- A till with an open shift, a corporate account, and a guest who leaves owing.
use travelo.Base.{
  singleton-Sole, ◌≡◌, refl, inl, inr, Bool, true, false, [], ◌∷◌, none, some, ok, In, select,
  filter,
}
use travelo.Base.Int.{ℤ, pos, ◌+ℤ◌, ◌-ℤ◌}
use travelo.Schema.{
  Db, Reservation, ReservationStatus, StaffShift, CashEntryKind, CorporateEntry, CorporateEntryKind,
}
use travelo.Cash.{CashMovement, record_cash, expected_cash, cash_balance}
use travelo.Cash.Drawer.{OpenShift, till_change, record_cash-expected_cash}
use travelo.DirectBilling.{statement, require_account, running, account_balance, signed_entry}
use travelo.DirectBilling.Statement.{statement-account_balance}
use travelo.Reservation.Availability.{require_reservation}
use travelo.Reservation.Departure.{CheckOut, check_out}
use travelo.Reservation.Leaving.{check_out-allowed}
use travelo.Scenarios.Hotel.{hotel, committed_db}

abbrev shift : StaffShift
shift = record {
  id = 1;
  property_id = 1;
  staff_id = 7;
  closed_at = none;
  opening_cash_paise = 50000;
  declared_cash_paise = none;
  expected_cash_paise = none;
}

abbrev till : Db
till = record hotel { shifts = shift ∷ [] }

abbrev pay_out : CashMovement
pay_out = record {
  property_id = 1;
  kind = CashEntryKind.withdrawal;
  amount_paise = 20000;
  reservation_id = none;
  order_id = none;
  expense_id = none;
  recorded_by = some 7;
}

record_cash-expected_cash_example :
    (expected_cash (committed_db (record_cash till pay_out)) shift
      ≡ expected_cash till shift +ℤ (pos 0 -ℤ pos 20000))
    × (cash_balance (committed_db (record_cash till pay_out)) 1
        ≡ cash_balance till 1 +ℤ (pos 0 -ℤ pos 20000))
unfolding record_cash till_change OpenShift
record_cash-expected_cash_example =
    record_cash-expected_cash till pay_out 7 shift refl
      (singleton-Sole (OpenShift 1 7) shift (refl, refl, refl)) refl

abbrev entry : CorporateEntryKind → CorporateEntry
entry kind = record {
  account_id = 1;
  property_id = 1;
  kind = kind;
  amount_paise = 30000;
  reservation_id = none;
  order_id = none;
  recorded_by = none;
}

abbrev ledger : Db
ledger = record hotel {
  corporate_accounts = record { id = 1; property_id = 1; deleted = false } ∷ [];
  corporate_ledger = entry CorporateEntryKind.charge ∷ entry CorporateEntryKind.payment ∷ [];
}

one_property :
    (e : CorporateEntry) → In e ledger.corporate_ledger → e.account_id ≡ 1 → e.property_id ≡ 1
one_property e (inl c) own = rw c refl
one_property e (inr (inl p)) own = rw p refl
one_property e (inr (inr m)) own = elim m [ ]

statement-account_balance_example : pos 0 ≡ account_balance ledger 1 1
unfolding statement require_account select filter running signed_entry ◌+ℤ◌ ◌-ℤ◌
statement-account_balance_example = statement-account_balance ledger 1 1 one_property refl

abbrev leaving : CheckOut
leaving = record {
  collected_paise = none;
  payment_method = none;
  idempotency_key = none;
  allow_outstanding = true;
}

check_out-allowed_example :
    (balance : ℤ) × (overrode : Bool) × ((check_out hotel 1 5 leaving none 1 1 900).1
      ≡ ok (balance, overrode))
    × (r : Reservation) × In r (check_out hotel 1 5 leaving none 1 1 900).0.reservations
    × (r.id ≡ 5)
    × (r.status ≡ ReservationStatus.checked_out)
    × (r.checked_out_at ≡ some 900)
unfolding require_reservation select
check_out-allowed_example = check_out-allowed hotel 1 5 leaving none 1 1 900 refl refl refl
