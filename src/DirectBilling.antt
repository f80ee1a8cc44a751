-- ===== src/DirectBilling.antt =====
-- src/modules/direct-billing/direct-billing.service.ts: the ledgers of the corporate accounts.
pub mod Statement
use travelo.Base.{
  ℕ, Bool, true, false, not, ◌&&◌, List, [], ◌∷◌, ◌++◌, Option, none, some, filter, select, ◌==◌,
  if◌then◌else◌, Outcome, ok, refused, require, ◌>>=◌, ◌>>◌,
}
use travelo.Base.Int.{ℤ, pos, ◌+ℤ◌, ◌-ℤ◌, sum_ℤ}
use travelo.Schema.{
  Db, CorporateAccount, CorporateEntry, CorporateEntryKind, is_charge, Refusal,
  corporate_account_not_found,
}

-- `require`
unfoldable pub require_account : Db → ℕ → ℕ → Outcome Refusal CorporateAccount
require_account db property_id id =
    require
      (select (λ a. a.id == id && a.property_id == property_id && not a.deleted)
        db.corporate_accounts)
      corporate_account_not_found

pub record AccountCharge : Type 0 where
  pub property_id : ℕ
  pub account_id : ℕ
  pub amount_paise : ℕ
  pub reservation_id : Option ℕ
  pub order_id : Option ℕ
  pub recorded_by : Option ℕ

-- `charge`
unfoldable pub charge_account : Db → AccountCharge → Outcome Refusal Db
charge_account db e = do
  account ← require_account db e.property_id e.account_id
  ok (record db {
    corporate_ledger =
        db.corporate_ledger
        ++ record {
          account_id = e.account_id;
          property_id = e.property_id;
          kind = CorporateEntryKind.charge;
          amount_paise = e.amount_paise;
          reservation_id = e.reservation_id;
          order_id = e.order_id;
          recorded_by = e.recorded_by;
        }
          ∷ [];
  })

-- `payment`
unfoldable pub pay_account : Db → ℕ → ℕ → ℕ → Option ℕ → Outcome Refusal Db
pay_account db property_id account_id amount recorded_by = do
  account ← require_account db property_id account_id
  ok (record db {
    corporate_ledger =
        db.corporate_ledger
        ++ record {
          account_id = account_id;
          property_id = property_id;
          kind = CorporateEntryKind.payment;
          amount_paise = amount;
          reservation_id = none;
          order_id = none;
          recorded_by = recorded_by;
        }
          ∷ [];
  })

unfoldable pub signed_entry : CorporateEntry → ℤ
signed_entry e = if is_charge e.kind then pos e.amount_paise else pos 0 -ℤ pos e.amount_paise

-- An account's balance in `listWithBalances`: a sum over the rows of the property.
unfoldable pub account_balance : Db → ℕ → ℕ → ℤ
account_balance db property_id account_id = sum_ℤ signed_entry (
    filter (λ e. e.account_id == account_id)
      (filter (λ e. e.property_id == property_id) db.corporate_ledger))

-- The loop of `statement`: each entry with the running balance, and the last balance.
unfoldable pub running : ℤ → List CorporateEntry → List (CorporateEntry × ℤ) × ℤ
running balance [] = ([], balance)
running balance (e ∷ es) =
    let next = balance +ℤ signed_entry e in
    let rest = running next es in ((e, next) ∷ rest.0, rest.1)

-- `statement`, without the stays billed; the table is in order of creation.
unfoldable pub statement : Db → ℕ → ℕ → Outcome Refusal (List (CorporateEntry × ℤ) × ℤ)
statement db property_id account_id = do
  account ← require_account db property_id account_id
  ok (running (pos 0) (filter (λ e. e.account_id == account_id) db.corporate_ledger))
