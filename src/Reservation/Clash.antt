-- ===== src/Reservation/Clash.antt =====
-- No double booking (reservations.service.ts, rule 2): the invariant of the reservations table, and
-- that a write keeps it where the row that it leaves is apart from every other.
use travelo.Base.{
  ℕ, ◌≡◌, ◌≢◌, refl, sym, ap, ◌∙◌, ◌⊎◌, inl, inr, Bool, false, not, ◌&&◌, List, [], ◌∷◌, ◌++◌,
  Option, none, some, ◌==◌, holds, ltb, In, In-append, update_row, update_row-In, arith, any-In,
  refuse_if-eq-ok, ok,
}
use travelo.Schema.{IsoDate, Db, Reservation, is_occupying}
use travelo.Reservation.Availability.{occupies_room, assert_room_free, assert_held_room_free}

abbrev pub same_room : Option ℕ → Option ℕ → Bool
same_room none b = false
same_room (some a) b = holds b a

-- Two committed stays in one room that share a night.
unfoldable pub clash : Reservation → Reservation → Bool
clash a b =
    a.property_id == b.property_id
    && same_room a.room_id b.room_id
    && not a.deleted
    && not b.deleted
    && is_occupying a.status
    && is_occupying b.status
    && ltb a.check_in b.check_out
    && ltb b.check_in a.check_out

pub record NoDoubleBooking (rs : List Reservation) : Type 0 where
  pub unique : (a b : Reservation) → In a rs → In b rs → a.id ≡ b.id → a ≡ b
  pub apart : (a b : Reservation) → In a rs → In b rs → a.id ≢ b.id → clash a b ≡ false

-- The row clashes with no row of another booking.
abbrev pub Apart : Reservation → List Reservation → Type 0
Apart r rs = (s : Reservation) → In s rs → s.id ≢ r.id → clash r s ≡ false

pub clash_comm : (a b : Reservation) → clash a b ≡ clash b a
unfolding clash
clash_comm a b = ground arith

-- A table with one row replaced: the new row, and the rows of other bookings.
replaced-In :
    (rs : List Reservation) (id : ℕ) (f : Reservation → Reservation) (before : Reservation)
    → NoDoubleBooking rs
    → In before rs
    → before.id ≡ id
    → (a : Reservation) → In a (update_row (λ r. r.id) id f rs)
    → (a ≡ f before) ⊎ (In a rs × (a.id ≢ id))
replaced-In rs id f before h m e a ma =
    let (b, i, r) = update_row-In (λ r. r.id) id f a rs ma in
    elim r [
      | inl q ↦ inl (q.1 ∙ ap f (h.unique b before i m (q.0 ∙ sym e)))
      | inr q ↦ inr (rw q.1 i, λ z. q.0 (ap (λ (r : Reservation). r.id) (sym q.1) ∙ z))
    ]

-- Replacing a row keeps the invariant, where the new row is apart from the other bookings.
pub replace-NoDoubleBooking :
    (rs : List Reservation) (id : ℕ) (f : Reservation → Reservation) (before : Reservation)
    → NoDoubleBooking rs
    → In before rs
    → before.id ≡ id
    → (f before).id ≡ id
    → Apart (f before) rs
    → NoDoubleBooking (update_row (λ r. r.id) id f rs)
replace-NoDoubleBooking rs id f before h m e fe free = record {
  unique = λ a b ma mb.
      one a b (replaced-In rs id f before h m e a ma) (replaced-In rs id f before h m e b mb);
  apart = λ a b ma mb.
      two a b (replaced-In rs id f before h m e a ma) (replaced-In rs id f before h m e b mb);
}
  where
    one :
        (a b : Reservation)
        → (a ≡ f before) ⊎ (In a rs × (a.id ≢ id))
        → (b ≡ f before) ⊎ (In b rs × (b.id ≢ id))
        → a.id ≡ b.id
        → a ≡ b
    one a b (inl p) (inl q) k = p ∙ sym q
    one a b (inl p) (inr (i, n)) k = absurd (n (sym k ∙ ap (λ (r : Reservation). r.id) p ∙ fe))
    one a b (inr (i, n)) (inl q) k = absurd (n (k ∙ ap (λ (r : Reservation). r.id) q ∙ fe))
    one a b (inr (i, n)) (inr (j, o)) k = h.unique a b i j k

    two :
        (a b : Reservation)
        → (a ≡ f before) ⊎ (In a rs × (a.id ≢ id))
        → (b ≡ f before) ⊎ (In b rs × (b.id ≢ id))
        → a.id ≢ b.id
        → clash a b ≡ false
    two a b (inl p) (inl q) k = absurd (k (ap (λ (r : Reservation). r.id) (p ∙ sym q)))
    two a b (inl p) (inr (j, o)) k = rw p (free b j (λ z. o (z ∙ fe)))
    two a b (inr (i, n)) (inl q) k = clash_comm a b ∙ rw q (free a i (λ z. n (z ∙ fe)))
    two a b (inr (i, n)) (inr (j, o)) k = h.apart a b i j k

-- A new row with a new key keeps it too.
pub append-NoDoubleBooking :
    (rs : List Reservation) (r : Reservation)
    → NoDoubleBooking rs
    → ((s : Reservation) → In s rs → s.id ≢ r.id)
    → Apart r rs
    → NoDoubleBooking (rs ++ r ∷ [])
append-NoDoubleBooking rs r h fresh free = record {
  unique = λ a b ma mb. one a b (In-append a rs _ ma) (In-append b rs _ mb);
  apart = λ a b ma mb. two a b (In-append a rs _ ma) (In-append b rs _ mb);
}
  where
    one :
        (a b : Reservation)
        → In a rs ⊎ In a (r ∷ [])
        → In b rs ⊎ In b (r ∷ [])
        → a.id ≡ b.id
        → a ≡ b
    one a b (inl i) (inl j) k = h.unique a b i j k
    one a b (inl i) (inr (inl q)) k = absurd (fresh a i (k ∙ ap (λ (r : Reservation). r.id) q))
    one a b (inr (inl p)) (inl j) k = absurd (fresh b j (sym k ∙ ap (λ (r : Reservation). r.id) p))
    one a b (inr (inl p)) (inr (inl q)) k = p ∙ sym q
    one a b (inr (inr z)) j k = elim z [ ]
    one a b i (inr (inr z)) k = elim z [ ]

    two :
        (a b : Reservation)
        → In a rs ⊎ In a (r ∷ [])
        → In b rs ⊎ In b (r ∷ [])
        → a.id ≢ b.id
        → clash a b ≡ false
    two a b (inl i) (inl j) k = h.apart a b i j k
    two a b (inl i) (inr (inl q)) k = clash_comm a b ∙ rw q (free a i (fresh a i))
    two a b (inr (inl p)) (inl j) k = rw p (free b j (fresh b j))
    two a b (inr (inl p)) (inr (inl q)) k = absurd (k (ap (λ (r : Reservation). r.id) (p ∙ sym q)))
    two a b (inr (inr z)) j k = elim z [ ]
    two a b i (inr (inr z)) k = elim z [ ]

-- A row that occupies nothing is apart from all.
pub idle-Apart :
    (r : Reservation) (rs : List Reservation) → is_occupying r.status ≡ false → Apart r rs
unfolding clash
idle-Apart r rs h s m n = ground arith

pub roomless-clash : (r s : Reservation) → r.room_id ≡ none → clash r s ≡ false
unfolding clash
roomless-clash r s h = ground arith

-- A row that differs from a row of the table in no column that clashes is as apart as that row.
pub same-Apart :
    (before r : Reservation) (rs : List Reservation)
    → NoDoubleBooking rs
    → In before rs
    → before.id ≡ r.id
    → ((s : Reservation) → clash r s ≡ clash before s)
    → Apart r rs
same-Apart before r rs h m e same s i n = same s ∙ h.apart before s m i (λ z. n (sym z ∙ e))

-- What the check of a room proves of the row that takes it, against a row that it does not exclude.
pub room_free-clash :
    (db : Db) (property_id room_id : ℕ) (first last : IsoDate) (exclude exclude2 : Option ℕ)
    (r s : Reservation) {u : Unit {0}}
    → assert_room_free db property_id room_id first last exclude exclude2 ≡ ok u
    → In s db.reservations
    → holds exclude s.id ≡ false
    → holds exclude2 s.id ≡ false
    → r.property_id ≡ property_id
    → r.room_id ≡ some room_id
    → r.check_in ≡ first
    → r.check_out ≡ last
    → clash r s ≡ false
unfolding clash assert_room_free occupies_room
room_free-clash db property_id room_id first last exclude exclude2 r s h m n1 n2 p q ci co =
    ground (
      arith,
      any-In (occupies_room property_id room_id first last exclude exclude2) s db.reservations m
          (refuse_if-eq-ok _ _ h),
    )

-- The same where the room is optional: no room, no clash.
pub held_room_free-clash :
    (db : Db) (property_id : ℕ) (room : Option ℕ) (first last : IsoDate) (exclude : Option ℕ)
    (r s : Reservation) {u : Unit {0}}
    → assert_held_room_free db property_id room first last exclude ≡ ok u
    → In s db.reservations
    → holds exclude s.id ≡ false
    → r.property_id ≡ property_id
    → r.room_id ≡ room
    → r.check_in ≡ first
    → r.check_out ≡ last
    → clash r s ≡ false
unfolding assert_held_room_free
held_room_free-clash db property_id (some room_id) first last exclude r s h m n p q ci co =
    room_free-clash db property_id room_id first last exclude none r s h m n refl p q ci co
held_room_free-clash db property_id none first last exclude r s h m n p q ci co =
    roomless-clash r s q

pub holds_of_ne : (id k : ℕ) → k ≢ id → holds (some id) k ≡ false
holds_of_ne id k n = ground arith
