-- ===== src/DirectBilling/Statement.antt =====
-- An account's statement against its balance in the list (DirectBilling.antt).
use travelo.Base.{
  ℕ, ◌≡◌, refl, sym, ap, ◌∙◌, inl, inr, List, [], ◌∷◌, filter, ◌==◌, eq→eqb, eqb→eq, Bool-cases, In,
  through, committed, ok, arith,
}
use travelo.Base.Int.{ℤ, pos, ◌+ℤ◌, +ℤ_assoc, sum_ℤ, int_laws}
use travelo.Schema.{Db, CorporateEntry}
use travelo.DirectBilling.{require_account, signed_entry, running, statement, account_balance}

plus_zero : (a : ℤ) → a +ℤ pos 0 ≡ a
plus_zero a = omega int_laws

zero_plus : (a : ℤ) → pos 0 +ℤ a ≡ a
zero_plus a = omega int_laws

-- The running balance ends at the sum.
running-sum :
    (es : List CorporateEntry) (balance : ℤ)
    → (running balance es).1 ≡ balance +ℤ sum_ℤ signed_entry es
unfolding running sum_ℤ
running-sum [] balance = sym (plus_zero balance)
running-sum (e ∷ es) balance =
    running-sum es (balance +ℤ signed_entry e) ∙ sym (+ℤ_assoc balance (signed_entry e) _)

-- Where an account's entries are all of one property, a filter on the property keeps them.
filter_twice :
    (property_id account_id : ℕ) (es : List CorporateEntry)
    → ((e : CorporateEntry) → In e es → e.account_id ≡ account_id → e.property_id ≡ property_id)
    → filter (λ e. e.account_id == account_id) (filter (λ e. e.property_id == property_id) es)
      ≡ filter (λ e. e.account_id == account_id) es
unfolding filter
filter_twice property_id account_id [] own = refl
filter_twice property_id account_id (e ∷ es) own =
    let rest = filter_twice property_id account_id es (λ x m. own x (inr m)) in
    elim (Bool-cases (e.account_id == account_id)) [
      | inl y ↦
          rw (y, eq→eqb e.property_id property_id (own e (inl refl) (eqb→eq _ _ y)))
            (rw y (ap (λ xs. e ∷ xs) rest))
      | inr n ↦ elim (Bool-cases (e.property_id == property_id)) [
        | inl p ↦ ground (arith, rest)
        | inr p ↦ rw (p, n) rest
      ]
    ]

-- Where the account's ledger entries are all of the property, the balance that its statement ends
-- at is its balance in the list of accounts.
pub statement-account_balance :
    (db : Db) (property_id account_id : ℕ) {lines : List (CorporateEntry × ℤ)} {balance : ℤ}
    → ((e : CorporateEntry)
        → In e db.corporate_ledger
        → e.account_id ≡ account_id
        → e.property_id ≡ property_id)
    → statement db property_id account_id ≡ ok (lines, balance)
    → balance ≡ account_balance db property_id account_id
unfolding statement account_balance
statement-account_balance db property_id account_id own h =
    through (require_account db property_id account_id) _ h λ _ _ h1.
      let entries =
        filter (λ (e : CorporateEntry). e.account_id == account_id) db.corporate_ledger in
      ap (λ (r : List (CorporateEntry × ℤ) × ℤ). r.1) (sym (committed h1))
      ∙ running-sum entries (pos 0)
      ∙ zero_plus _
      ∙ ap (sum_ℤ signed_entry) (sym (filter_twice property_id account_id db.corporate_ledger own))
