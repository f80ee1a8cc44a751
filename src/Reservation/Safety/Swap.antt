-- ===== src/Reservation/Safety/Swap.antt =====
-- No double booking: two bookings that exchange their rooms (Reservation/Swaps.antt).
use travelo.Base.{
  ℕ, ◌≡◌, ◌≢◌, refl, sym, ap, ◌∙◌, ◌⊎◌, inl, inr, false, not, ◌||◌, List, Option, some, In,
  update_row, update_row-In, update_row, require, require-eq-ok, through, committed, subst,
  refuse_if, refuse_if-eq-ok, ok, arith, ◌==◌,
}
use travelo.Schema.{
  Db, Reservation, is_occupying, dates_locked, room_type_mismatch, room_required, room_is_locked,
  swap_self,
}
use travelo.Reservation.Availability.{require_reservation, assert_room_free}
use travelo.Reservation.Writes.{set_reservation, record_event}
use travelo.Reservation.Swaps.{swap_rooms}
use travelo.Reservation.Clash.{clash, clash_comm, NoDoubleBooking, room_free-clash, holds_of_ne}
use travelo.Reservation.Safety.Resolution.{require_reservation-In}

module _ (rs : List Reservation) (a b : Reservation) (f g : Reservation → Reservation)
    (v : NoDoubleBooking rs) (ma : In a rs) (mb : In b rs) (ne : a.id ≢ b.id)
    (fa : (r : Reservation) → (f r).id ≡ r.id) (gb : (r : Reservation) → (g r).id ≡ r.id) where
  abbrev after : List Reservation
  after = update_row (λ r. r.id) b.id g (update_row (λ r. r.id) a.id f rs)

  -- The rows of the table after the two writes.
  abbrev Row : Reservation → Type 0
  Row x = (x ≡ f a) ⊎ ((x ≡ g b) ⊎ (In x rs × (x.id ≢ a.id) × (x.id ≢ b.id)))

  rows : (x : Reservation) → In x after → Row x
  rows x m =
      let (y, iy, ry) = update_row-In (λ r. r.id) b.id g x (update_row (λ r. r.id) a.id f rs) m in
      let (z, iz, rz) = update_row-In (λ r. r.id) a.id f y rs iy in
      elim ry [
        | inl q ↦ elim rz [
          | inl p ↦
              absurd
                (ne (sym p.0 ∙ (sym (fa z) ∙ (ap (λ (r : Reservation). r.id) (sym p.1) ∙ q.0))))
          | inr p ↦ inr (
              inl (
                q.1
                ∙ ap g (v.unique y b (subst (λ (r : Reservation). In r rs) (sym p.1) iz) mb q.0)))
        ]
        | inr q ↦ elim rz [
          | inl p ↦ inl (q.1 ∙ (p.1 ∙ ap f (v.unique z a iz ma p.0)))
          | inr p ↦ inr (
              inr (
                subst (λ (r : Reservation). In r rs) (sym (q.1 ∙ p.1)) iz,
                (λ k. p.0 (ap (λ (r : Reservation). r.id) (sym (q.1 ∙ p.1)) ∙ k)),
                (λ k. q.0 (ap (λ (r : Reservation). r.id) (sym q.1) ∙ k)),
              ))
        ]
      ]

  id_f : {x : Reservation} → x ≡ f a → x.id ≡ a.id
  id_f p = ap (λ (r : Reservation). r.id) p ∙ fa a

  id_g : {x : Reservation} → x ≡ g b → x.id ≡ b.id
  id_g p = ap (λ (r : Reservation). r.id) p ∙ gb b

  one : (x y : Reservation) → Row x → Row y → x.id ≡ y.id → x ≡ y
  one x y (inl p) (inl q) k = p ∙ sym q
  one x y (inl p) (inr (inl q)) k = absurd (ne (sym (id_f p) ∙ (k ∙ id_g q)))
  one x y (inl p) (inr (inr q)) k = absurd (q.1 (sym k ∙ id_f p))
  one x y (inr (inl p)) (inl q) k = absurd (ne (sym (id_f q) ∙ (sym k ∙ id_g p)))
  one x y (inr (inl p)) (inr (inl q)) k = p ∙ sym q
  one x y (inr (inl p)) (inr (inr q)) k = absurd (q.2 (sym k ∙ id_g p))
  one x y (inr (inr p)) (inl q) k = absurd (p.1 (k ∙ id_f q))
  one x y (inr (inr p)) (inr (inl q)) k = absurd (p.2 (k ∙ id_g q))
  one x y (inr (inr p)) (inr (inr q)) k = v.unique x y p.0 q.0 k

  module _ (fg : clash (f a) (g b) ≡ false)
      (fs : (s : Reservation) → In s rs → s.id ≢ a.id → s.id ≢ b.id → clash (f a) s ≡ false)
      (gs : (s : Reservation) → In s rs → s.id ≢ b.id → s.id ≢ a.id → clash (g b) s ≡ false) where
    two : (x y : Reservation) → Row x → Row y → x.id ≢ y.id → clash x y ≡ false
    two x y (inl p) (inl q) k = absurd (k (id_f p ∙ sym (id_f q)))
    two x y (inl p) (inr (inl q)) k = rw (p, q) fg
    two x y (inl p) (inr (inr q)) k = rw p (fs y q.0 q.1 q.2)
    two x y (inr (inl p)) (inl q) k = clash_comm x y ∙ rw (p, q) fg
    two x y (inr (inl p)) (inr (inl q)) k = absurd (k (id_g p ∙ sym (id_g q)))
    two x y (inr (inl p)) (inr (inr q)) k = rw p (gs y q.0 q.2 q.1)
    two x y (inr (inr p)) (inl q) k = clash_comm x y ∙ rw q (fs x p.0 p.1 p.2)
    two x y (inr (inr p)) (inr (inl q)) k = clash_comm x y ∙ rw q (gs x p.0 p.2 p.1)
    two x y (inr (inr p)) (inr (inr q)) k = v.apart x y p.0 q.0 k

    pair-NoDoubleBooking : NoDoubleBooking after
    pair-NoDoubleBooking = record {
      unique = λ x y mx my. one x y (rows x mx) (rows y my);
      apart = λ x y mx my. two x y (rows x mx) (rows y my);
    }

-- Exchanged rooms clash exactly where the rooms did before.
exchanged-clash :
    (a b : Reservation) (room_a room_b : ℕ)
    → a.room_id ≡ some room_a
    → b.room_id ≡ some room_b
    → clash (record a { room_id = some room_b }) (record b { room_id = some room_a }) ≡ clash a b
unfolding clash
exchanged-clash a b room_a room_b p q = ground arith

-- From a table with unique ids and no room held twice on a night, a `swapRooms` that succeeds
-- leads to such a table.
pub swap_rooms-NoDoubleBooking :
    (db : Db) (property_id id other_id : ℕ) (actor : Option ℕ) {db' : Db}
    → NoDoubleBooking db.reservations
    → swap_rooms db property_id id other_id actor ≡ ok db'
    → NoDoubleBooking db'.reservations
unfolding swap_rooms set_reservation record_event
swap_rooms-NoDoubleBooking db property_id id other_id actor {db'} v h =
    through (refuse_if (id == other_id) swap_self) _ h λ _ distinct h0.
      through (require_reservation db property_id id) _ h0 λ a ea h1.
        through (require_reservation db property_id other_id) _ h1 λ b eb h2.
          through (require a.room_id room_required) _ h2 λ room_a ra h3.
            through (require b.room_id room_required) _ h3 λ room_b rb h4.
              through (refuse_if (a.room_locked || b.room_locked) room_is_locked) _ h4 λ _ _ h5.
                through (refuse_if (not (a.room_type_id == b.room_type_id)) room_type_mismatch) _ h5
                  λ _ _ h6.
                    through (refuse_if (not (is_occupying a.status)) dates_locked) _ h6 λ _ _ h7.
                      through (refuse_if (not (is_occupying b.status)) dates_locked) _ h7 λ _ _ h8.
                        through
                          (assert_room_free db property_id room_b a.check_in a.check_out (some a.id)
                            (some b.id))
                          _ h8
                          λ _ free_a h9.
                            through
                              (assert_room_free db property_id room_a b.check_in b.check_out
                                (some b.id) (some a.id))
                              _ h9
                              λ _ free_b h10.
                                let fa = require_reservation-In db property_id id ea in
                                let fb = require_reservation-In db property_id other_id eb in
                                let ne : a.id ≢ b.id = λ k.
                                  apart (refuse_if-eq-ok _ _ distinct) (sym fa.1 ∙ (k ∙ fb.1)) in
                                subst (λ (d : Db). NoDoubleBooking d.reservations) (committed h10)
                                  (pair-NoDoubleBooking db.reservations a b
                                    (λ r. record r { room_id = some room_b })
                                    (λ r. record r { room_id = some room_a }) v fa.0 fb.0 ne
                                    (λ r. refl) (λ r. refl)
                                    (exchanged-clash a b room_a room_b (require-eq-ok _ _ ra)
                                        (require-eq-ok _ _ rb)
                                      ∙ v.apart a b fa.0 fb.0 ne)
                                    (λ s m n o.
                                      room_free-clash db property_id room_b a.check_in a.check_out
                                        (some a.id) (some b.id) _ s free_a m
                                        (holds_of_ne a.id s.id n) (holds_of_ne b.id s.id o) fa.2
                                        refl refl refl)
                                    (λ s m n o.
                                      room_free-clash db property_id room_a b.check_in b.check_out
                                        (some b.id) (some a.id) _ s free_b m
                                        (holds_of_ne b.id s.id n) (holds_of_ne a.id s.id o) fb.2
                                        refl refl refl))
  where
    apart : (id == other_id) ≡ false → id ≢ other_id
    apart e k = ground arith
