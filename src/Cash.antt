-- ===== src/Cash.antt =====
-- src/modules/cash/cash.service.ts: the cash book of a property and the shifts of its till.
pub mod Drawer
use travelo.Base.{
  ℕ, zero, Bool, true, false, not, ◌&&◌, List, [], ◌∷◌, ◌++◌, Option, none, some, filter, select,
  update_row, holds, is_some, ◌==◌, Outcome, ok, refused, refuse_if, require, ◌>>=◌, ◌>>◌,
}
use travelo.Base.Int.{ℤ, pos, ◌+ℤ◌, ◌-ℤ◌, sum_ℤ}
use travelo.Schema.{
  Db, Timestamp, CashEntry, CashEntryKind, StaffShift, Refusal, amount_not_positive,
  shift_already_open, no_open_shift,
}

-- `INFLOW.has`
unfoldable pub is_inflow : CashEntryKind → Bool
is_inflow CashEntryKind.folio_cash = true
is_inflow CashEntryKind.pos_cash = true
is_inflow CashEntryKind.cash_in = true
is_inflow CashEntryKind.top_up = true
is_inflow _ = false

-- `CashService.signed`
unfoldable pub signed_cash : CashEntryKind → ℕ → ℤ
signed_cash kind amount = elim (is_inflow kind) [ true ↦ pos amount | false ↦ pos 0 -ℤ pos amount ]

unfoldable pub is_open_shift : ℕ → ℕ → StaffShift → Bool
is_open_shift property_id staff_id s =
    s.property_id == property_id && s.staff_id == staff_id && not (is_some s.closed_at)

-- `openShiftFor`
unfoldable pub open_shift_for : Db → ℕ → ℕ → Option StaffShift
open_shift_for db property_id staff_id = select (is_open_shift property_id staff_id) db.shifts

pub record CashMovement : Type 0 where
  pub property_id : ℕ
  pub kind : CashEntryKind
  pub amount_paise : ℕ
  pub reservation_id : Option ℕ
  pub order_id : Option ℕ
  pub expense_id : Option ℕ
  pub recorded_by : Option ℕ

-- The recorder's open shift, where there is a recorder and they have one.
unfoldable pub shift_of : Db → ℕ → Option ℕ → Option ℕ
shift_of db property_id none = none
shift_of db property_id (some staff_id) = elim (open_shift_for db property_id staff_id) [
  | none ↦ none
  | some s ↦ some s.id
]

unfoldable pub new_entry : Db → CashMovement → CashEntry
new_entry db e = record {
  property_id = e.property_id;
  shift_id = shift_of db e.property_id e.recorded_by;
  kind = e.kind;
  amount_paise = e.amount_paise;
  reservation_id = e.reservation_id;
  order_id = e.order_id;
  expense_id = e.expense_id;
  recorded_by = e.recorded_by;
}

-- `record`
unfoldable pub record_cash : Db → CashMovement → Outcome Refusal Db
record_cash db e = do
  refuse_if (e.amount_paise == 0) amount_not_positive
  ok (record db { cash_entries = db.cash_entries ++ new_entry db e ∷ [] })

-- The signed sum of entries, as the queries compute it.
unfoldable pub cash_sum : List CashEntry → ℤ
cash_sum es = sum_ℤ (λ e. signed_cash e.kind e.amount_paise) es

-- `balancePaise`
unfoldable pub cash_balance : Db → ℕ → ℤ
cash_balance db property_id = cash_sum (filter (λ e. e.property_id == property_id) db.cash_entries)

-- `openShift`
unfoldable pub open_shift : Db → ℕ → ℕ → ℕ → ℕ → Outcome Refusal Db
open_shift db property_id staff_id opening_cash id = do
  refuse_if (is_some (open_shift_for db property_id staff_id)) shift_already_open
  ok (record db {
    shifts =
        db.shifts
        ++ record {
          id = id;
          property_id = property_id;
          staff_id = staff_id;
          closed_at = none;
          opening_cash_paise = opening_cash;
          declared_cash_paise = none;
          expected_cash_paise = none;
        }
          ∷ [];
  })

-- The cash that a shift should hold.
unfoldable pub expected_cash : Db → StaffShift → ℤ
expected_cash db s =
    pos s.opening_cash_paise +ℤ cash_sum (filter (λ e. holds e.shift_id s.id) db.cash_entries)

-- `closeShift`: the database, and what is declared over what is expected.
unfoldable pub close_shift : Db → ℕ → ℕ → ℕ → Timestamp → Outcome Refusal (Db × ℤ)
close_shift db property_id staff_id declared now = do
  shift ← require (open_shift_for db property_id staff_id) no_open_shift
  let expected = expected_cash db shift
  ok (
    record db {
      shifts =
          update_row (λ s. s.id) shift.id
            (λ s. record s {
              closed_at = some now;
              declared_cash_paise = some declared;
              expected_cash_paise = some expected;
            })
            db.shifts;
    },
    pos declared -ℤ expected,
  )
