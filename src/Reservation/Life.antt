-- ===== src/Reservation/Life.antt =====
-- The life of one booking through the operations that change a status and those that do not.
pub mod Steady
pub mod Placements
pub mod Forward
use travelo.Base.{
  ℕ, ◌≡◌, ◌≢◌, refl, sym, ap, subst, ◌∙◌, ◌⊎◌, inl, inr, Bool, true, false, List, [], ◌∷◌, ◌++◌,
  update_row, In, In-update_row_self, In-update_row_other, append-In_left, Bool-cases, ◌==◌, arith,
  Outcome, ok, refused, eqb→eq, eq→eqb,
}
use travelo.Schema.{Db, Reservation, ReservationStatus, Refusal}
use travelo.Reservation.Rules.{can_transition, assert_transition}
use travelo.Reservation.Availability.{require_reservation}
use travelo.Reservation.Clash.{NoDoubleBooking}
use travelo.Reservation.Safety.Resolution.{require_reservation-In}

-- The row is of the same booking, its status the same or one that the transition map allows next.
abbrev pub Follows : Reservation → Reservation → Type 0
Follows a b = (b.id ≡ a.id) × ((b.status ≡ a.status) ⊎ (can_transition a.status b.status ≡ true))

-- Every booking of the table is in the other one, as it was or one transition on.
abbrev pub Forward : List Reservation → List Reservation → Type 0
Forward rs rs' = (a : Reservation) → In a rs → (b : Reservation) × In b rs' × Follows a b

-- Every booking of the table is in the other one, with the same status.
abbrev pub Steady : List Reservation → List Reservation → Type 0
Steady rs rs' =
    (a : Reservation)
    → In a rs
    → (b : Reservation) × In b rs' × (b.id ≡ a.id) × (b.status ≡ a.status)

pub Steady-refl : (rs : List Reservation) → Steady rs rs
Steady-refl rs a m = (a, m, refl, refl)

pub Steady-trans : (rs ss ts : List Reservation) → Steady rs ss → Steady ss ts → Steady rs ts
Steady-trans rs ss ts f g a m =
    let (b, n, i, s) = f a m in let (c, o, j, t) = g b n in (c, o, j ∙ i, t ∙ s)

pub Steady-Forward : (rs ss : List Reservation) → Steady rs ss → Forward rs ss
Steady-Forward rs ss f a m = let (b, n, i, s) = f a m in (b, n, (i, inl s))

-- A row update that changes neither id nor status.
pub update_row-Steady :
    (id : ℕ) (f : Reservation → Reservation) (rs : List Reservation)
    → ((r : Reservation) → (f r).id ≡ r.id)
    → ((r : Reservation) → (f r).status ≡ r.status)
    → Steady rs (update_row (λ r. r.id) id f rs)
update_row-Steady id f rs i s a m = elim (Bool-cases (a.id == id)) [
  | inl y ↦ (f a, In-update_row_self (λ r. r.id) id f a rs (eqb→eq a.id id y) m, i a, s a)
  | inr n ↦ (
    a,
    In-update_row_other (λ r. r.id) id f a rs (λ k. ground (arith, eq→eqb a.id id k)) m,
    refl,
    refl,
  )
]

pub append-Steady : (rs : List Reservation) (r : Reservation) → Steady rs (rs ++ r ∷ [])
append-Steady rs r a m = (a, append-In_left a rs (r ∷ []) m, refl, refl)

-- A row update that moves the one resolved booking along the map.
pub update_row-Forward :
    (id : ℕ) (f : Reservation → Reservation) (rs : List Reservation) (before : Reservation)
    → NoDoubleBooking rs
    → In before rs
    → before.id ≡ id
    → Follows before (f before)
    → Forward rs (update_row (λ r. r.id) id f rs)
update_row-Forward id f rs before v m e moved a n = elim (Bool-cases (a.id == id)) [
  | inl y ↦
      let same = v.unique a before n m (eqb→eq a.id id y ∙ sym e) in
      (
        f before,
        In-update_row_self (λ r. r.id) id f before rs e m,
        subst (λ (r : Reservation). Follows r (f before)) (sym same) moved,
      )
  | inr o ↦ (
    a,
    In-update_row_other (λ r. r.id) id f a rs (λ k. ground (arith, eq→eqb a.id id k)) n,
    (refl, inl refl),
  )
]

pub assert_transition-eq-ok :
    (from to : ReservationStatus) {u : Unit {0}}
    → assert_transition from to ≡ ok u
    → can_transition from to ≡ true
unfolding assert_transition
assert_transition-eq-ok from to h = elim (Bool-cases (can_transition from to)) [
  | inl y ↦ y
  | inr n ↦ absurd (ne (rw (assert_transition, n) at h))
]
  where
    ne : {e : Refusal} {u : Unit {0}} → ◌≡◌ {A = Outcome Refusal (Unit {0})} (refused e) (ok u) → ⊥
    ne h = cc

-- The write of a resolved booking.
pub save-Forward :
    (db : Db) (property_id id : ℕ) (f : Reservation → Reservation) {before : Reservation}
    {rs : List Reservation}
    → NoDoubleBooking db.reservations
    → require_reservation db property_id id ≡ ok before
    → Follows before (f before)
    → update_row (λ r. r.id) id f db.reservations ≡ rs
    → Forward db.reservations rs
save-Forward db property_id id f {before} v e moved p =
    let found = require_reservation-In db property_id id e in
    subst (Forward db.reservations) p
      (update_row-Forward id f db.reservations before v found.0 found.1 moved)

pub save-Steady :
    (db : Db) (id : ℕ) (f : Reservation → Reservation) {rs : List Reservation}
    → ((r : Reservation) → (f r).id ≡ r.id)
    → ((r : Reservation) → (f r).status ≡ r.status)
    → update_row (λ r. r.id) id f db.reservations ≡ rs
    → Steady db.reservations rs
save-Steady db id f i s p =
    subst (Steady db.reservations) p (update_row-Steady id f db.reservations i s)
