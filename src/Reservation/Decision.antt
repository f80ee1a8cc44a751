-- ===== src/Reservation/Decision.antt =====
-- A test for the invariant of Reservation/Clash.antt on a given table.
use travelo.Base.{
  ◌≡◌, ◌≢◌, sym, ap, ◌∙◌, inl, inr, Bool, true, false, not, ◌&&◌, ◌||◌, List, [], ◌∷◌, any, any-In,
  In, ◌==◌, arith, eq→eqb,
}
use travelo.Schema.{Reservation}
use travelo.Reservation.Clash.{clash, clash_comm, NoDoubleBooking}

-- Each row against the rows after it.
unfoldable pub is_sound : List Reservation → Bool
unfolding any clash
is_sound [] = true
is_sound (r ∷ rs) = not (any (λ s. (r.id == s.id) || clash r s) rs) && is_sound rs

-- A row against a later one.
later :
    (r s : Reservation) (rs : List Reservation)
    → is_sound (r ∷ rs) ≡ true
    → In s rs
    → (r.id ≢ s.id) × (clash r s ≡ false)
unfolding is_sound
later r s rs h m =
    let e = any-In (λ t. (r.id == t.id) || clash r t) s rs m (ground arith) in
    (λ k. ground (arith, eq→eqb r.id s.id k), ground (arith, e))

-- A table that passes the test satisfies the invariant.
pub is_sound-NoDoubleBooking : (rs : List Reservation) → is_sound rs ≡ true → NoDoubleBooking rs
unfolding is_sound
is_sound-NoDoubleBooking [] h = record { unique = λ a b m. elim m [ ]; apart = λ a b m. elim m [ ] }
is_sound-NoDoubleBooking (r ∷ rs) h =
    let ih = is_sound-NoDoubleBooking rs (ground arith) in
    record { unique = λ a b ma mb. one ih a b ma mb; apart = λ a b ma mb. two ih a b ma mb }
  where
    one :
        NoDoubleBooking rs
        → (a b : Reservation) → In a (r ∷ rs)
        → In b (r ∷ rs)
        → a.id ≡ b.id
        → a ≡ b
    one ih a b (inl p) (inl q) k = p ∙ sym q
    one ih a b (inl p) (inr n) k =
        absurd ((later r b rs h n).0 (sym (ap (λ (t : Reservation). t.id) p) ∙ k))
    one ih a b (inr m) (inl q) k =
        absurd ((later r a rs h m).0 (sym (ap (λ (t : Reservation). t.id) q) ∙ sym k))
    one ih a b (inr m) (inr n) k = ih.unique a b m n k

    two :
        NoDoubleBooking rs
        → (a b : Reservation) → In a (r ∷ rs)
        → In b (r ∷ rs)
        → a.id ≢ b.id
        → clash a b ≡ false
    two ih a b (inl p) (inl q) k = absurd (k (ap (λ (t : Reservation). t.id) (p ∙ sym q)))
    two ih a b (inl p) (inr n) k = ap (λ (t : Reservation). clash t b) p ∙ (later r b rs h n).1
    two ih a b (inr m) (inl q) k =
        clash_comm a b ∙ (ap (λ (t : Reservation). clash t a) q ∙ (later r a rs h m).1)
    two ih a b (inr m) (inr n) k = ih.apart a b m n k
