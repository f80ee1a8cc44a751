-- ===== src/Cash/Drawer.antt =====
-- What a recorded movement does to the cash book and to the recorder's shift (Cash.antt).
use travelo.Base.{
  ℕ, ◌≡◌, refl, sym, ap, ◌∙◌, Bool, true, List, [], ◌∷◌, ◌++◌, some, filter, filter-append, holds,
  ◌==◌, eq→eqb, through, committed, ok, refuse_if, none, Sole, select-Sole, arith,
}
use travelo.Base.Int.{ℤ, pos, ◌+ℤ◌, ◌-ℤ◌, +ℤ_assoc, sum_ℤ, sum_ℤ-append, int_laws}
use travelo.Schema.{Db, CashEntry, CashEntryKind, StaffShift, amount_not_positive}
use travelo.Cash.{
  CashMovement, record_cash, new_entry, shift_of, open_shift_for, is_open_shift, is_inflow,
  cash_sum, cash_balance, expected_cash, signed_cash,
}

last_one : (a b : ℤ) → a +ℤ (b +ℤ pos 0) ≡ a +ℤ b
last_one a b = omega int_laws

-- An entry that the filter keeps adds its signed amount to the sum.
cash_sum-append :
    (keep : CashEntry → Bool) (es : List CashEntry) (e : CashEntry)
    → keep e ≡ true
    → cash_sum (filter keep (es ++ e ∷ []))
      ≡ cash_sum (filter keep es) +ℤ signed_cash e.kind e.amount_paise
unfolding cash_sum filter sum_ℤ
cash_sum-append keep es e h =
    let amount = λ (x : CashEntry). signed_cash x.kind x.amount_paise in
    ap cash_sum (filter-append keep es (e ∷ []))
    ∙ sum_ℤ-append amount (filter keep es) (filter keep (e ∷ []))
    ∙ rw h (last_one (cash_sum (filter keep es)) (amount e))

-- A staff member's shift at a property that is not closed.
unfoldable pub OpenShift : ℕ → ℕ → StaffShift → Type 0
OpenShift property_id staff_id s =
    (s.property_id ≡ property_id) × (s.staff_id ≡ staff_id) × (s.closed_at ≡ none)

open_shift_for-Sole :
    (db : Db) (property_id staff_id : ℕ) (shift : StaffShift)
    → Sole (OpenShift property_id staff_id) db.shifts shift
    → open_shift_for db property_id staff_id ≡ some shift
unfolding open_shift_for is_open_shift OpenShift
open_shift_for-Sole db property_id staff_id shift only =
    select-Sole (OpenShift property_id staff_id) (is_open_shift property_id staff_id) db.shifts
      shift (λ s o. opened property_id staff_id s o) (λ s e. opens property_id staff_id s e) only
  where
    opened : (p k : ℕ) (s : StaffShift) → OpenShift p k s → is_open_shift p k s ≡ true
    opened p k s (a, b, c) = ground arith

    opens : (p k : ℕ) (s : StaffShift) → is_open_shift p k s ≡ true → OpenShift p k s
    opens p k s e = ground arith

shift_of-open :
    (db : Db) (property_id staff_id : ℕ) (shift : StaffShift)
    → open_shift_for db property_id staff_id ≡ some shift
    → shift_of db property_id (some staff_id) ≡ some shift.id
unfolding shift_of
shift_of-open db property_id staff_id shift on = rw (on, shift_of) refl

-- What a movement does to the till: takings, cash put in and top-ups fill it, withdrawals and
-- expenses empty it.
unfoldable pub till_change : CashEntryKind → ℕ → ℤ
till_change CashEntryKind.folio_cash amount = pos amount
till_change CashEntryKind.pos_cash amount = pos amount
till_change CashEntryKind.cash_in amount = pos amount
till_change CashEntryKind.top_up amount = pos amount
till_change CashEntryKind.withdrawal amount = pos 0 -ℤ pos amount
till_change CashEntryKind.expense amount = pos 0 -ℤ pos amount

signed_cash-till_change :
    (kind : CashEntryKind) (amount : ℕ) → signed_cash kind amount ≡ till_change kind amount
unfolding signed_cash is_inflow till_change
signed_cash-till_change kind amount = ground arith

-- Where a movement is recorded by somebody with exactly one shift at the property that is not
-- closed, the cash that this shift should hold and the property's cash balance both rise by its
-- amount if it is a taking, cash put in or a top-up, and fall by it if it is a withdrawal or an
-- expense.
pub record_cash-expected_cash :
    (db : Db) (e : CashMovement) (staff_id : ℕ) (shift : StaffShift) {db' : Db}
    → e.recorded_by ≡ some staff_id
    → Sole (OpenShift e.property_id staff_id) db.shifts shift
    → record_cash db e ≡ ok db'
    → (expected_cash db' shift ≡ expected_cash db shift +ℤ till_change e.kind e.amount_paise)
      × (cash_balance db' e.property_id
          ≡ cash_balance db e.property_id +ℤ till_change e.kind e.amount_paise)
unfolding record_cash expected_cash cash_balance new_entry
record_cash-expected_cash db e staff_id shift by only h =
    through (refuse_if (e.amount_paise == 0) amount_not_positive) _ h λ _ _ h1.
      let row = new_entry db e in
      let end = committed h1 in
      let opening = pos shift.opening_cash_paise in
      let on = open_shift_for-Sole db e.property_id staff_id shift only in
      let change = signed_cash-till_change e.kind e.amount_paise in
      (
        ap (λ (d : Db). expected_cash d shift) (sym end)
            ∙ ap (λ n. opening +ℤ n)
                (cash_sum-append (λ x. holds x.shift_id shift.id) db.cash_entries row
                  (rw (by, shift_of-open db e.property_id staff_id shift on)
                    (eq→eqb shift.id shift.id refl)))
            ∙ +ℤ_assoc opening _ _
            ∙ ap (λ n. expected_cash db shift +ℤ n) change,
        ap (λ (d : Db). cash_balance d e.property_id) (sym end)
            ∙ cash_sum-append (λ x. x.property_id == e.property_id) db.cash_entries row
                (eq→eqb e.property_id e.property_id refl)
            ∙ ap (λ n. cash_balance db e.property_id +ℤ n) change,
      )
