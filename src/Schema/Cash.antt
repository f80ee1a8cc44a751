-- ===== src/Schema/Cash.antt =====
-- The cash book, the shifts of the till and the corporate accounts (src/database/schema/pms.ts).
-- Free texts are not kept, nor the keys of cash and ledger entries, which nothing refers to.
use travelo.Base.{ℕ, Option, Bool, true, false}
use travelo.Base.Int.{ℤ}

pub data CashEntryKind : Type 0 where
  folio_cash pos_cash cash_in withdrawal top_up expense : CashEntryKind

pub record CashEntry : Type 0 where
  pub property_id : ℕ
  pub shift_id : Option ℕ
  pub kind : CashEntryKind
  pub amount_paise : ℕ
  pub reservation_id : Option ℕ
  pub order_id : Option ℕ
  pub expense_id : Option ℕ
  pub recorded_by : Option ℕ

pub record StaffShift : Type 0 where
  pub id : ℕ
  pub property_id : ℕ
  pub staff_id : ℕ
  pub closed_at : Option ℕ
  pub opening_cash_paise : ℕ
  pub declared_cash_paise : Option ℕ
  pub expected_cash_paise : Option ℤ

pub record CorporateAccount : Type 0 where
  pub id : ℕ
  pub property_id : ℕ
  pub deleted : Bool

pub data CorporateEntryKind : Type 0 where
  charge payment : CorporateEntryKind

abbrev pub is_charge : CorporateEntryKind → Bool
is_charge charge = true
is_charge payment = false

pub record CorporateEntry : Type 0 where
  pub account_id : ℕ
  pub property_id : ℕ
  pub kind : CorporateEntryKind
  pub amount_paise : ℕ
  pub reservation_id : Option ℕ
  pub order_id : Option ℕ
  pub recorded_by : Option ℕ
