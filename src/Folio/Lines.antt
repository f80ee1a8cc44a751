-- ===== src/Folio/Lines.antt =====
-- The charge lines of a folio: posted once for a source, voided once (src/modules/folio/folio.service.ts).
use travelo.Base.{
  ℕ, ◌≡◌, refl, ◌⊎◌, inl, inr, Bool, true, List, [], ◌∷◌, ◌++◌, Option, none, some, select,
  Bool-cases, Option-cases, arith,
}
use travelo.Schema.{Db, FolioLine}
use travelo.Folio.Charges.{
  PostCharge, post_charge, new_line, find_line_by_source, same_source, void_line, void_where,
  is_live_line, log_event,
}

select-append_new :
    {A : Type 0} (p : A → Bool) (xs : List A) (a : A)
    → select p xs ≡ none
    → p a ≡ true
    → select p (xs ++ a ∷ []) ≡ some a
unfolding select
select-append_new p [] a h k = ground arith
select-append_new p (x ∷ xs) a h k = elim (Bool-cases (p x)) [
  | inl y ↦ absurd (ground arith)
  | inr n ↦ rw n (select-append_new p xs a (ground arith) k)
]

same_source_refl : (s : ℕ × ℕ) → same_source (some s) (some s) ≡ true
same_source_refl (a, b) = ground arith

pub post_charge_new :
    (db : Db) (input : PostCharge) (id : ℕ)
    → find_line_by_source db input.source ≡ none
    → post_charge db input id ≡ (
      record db { folio_lines = db.folio_lines ++ new_line db input id ∷ [] },
      new_line db input id,
    )
unfolding post_charge
post_charge_new db input id e = rw (e, post_charge) refl

post_charge_old :
    (db : Db) (input : PostCharge) (id : ℕ) {l : FolioLine}
    → find_line_by_source db input.source ≡ some l
    → post_charge db input id ≡ (db, l)
unfolding post_charge
post_charge_old db input id e = rw (e, post_charge) refl

find-posted :
    (db : Db) (input : PostCharge) (id : ℕ) (source : ℕ × ℕ)
    → input.source ≡ some source
    → find_line_by_source db input.source ≡ none
    → find_line_by_source
        (record db { folio_lines = db.folio_lines ++ new_line db input id ∷ [] })
        input.source
      ≡ some (new_line db input id)
unfolding find_line_by_source new_line
find-posted db input id source e h =
    select-append_new (λ l. same_source input.source l.source) db.folio_lines (new_line db input id)
      h (rw e (same_source_refl source))

-- Where a charge names its source, posting it a second time right after the first changes nothing
-- and returns the same line.
pub post_charge_again :
    (db : Db) (input : PostCharge) (id id' : ℕ) (source : ℕ × ℕ)
    → input.source ≡ some source
    → post_charge (post_charge db input id).0 input id' ≡ post_charge db input id
post_charge_again db input id id' source e =
    elim (Option-cases (find_line_by_source db input.source)) [
      | inl new ↦
          rw (post_charge_new db input id new)
            (post_charge_old _ input id' (find-posted db input id source e new))
      | inr old ↦ rw (post_charge_old db input id old.1) (post_charge_old db input id' old.1)
    ]

select-void_where :
    (line_id reservation_id : ℕ) (ls : List FolioLine)
    → select (is_live_line line_id reservation_id) (void_where line_id reservation_id ls) ≡ none
unfolding select void_where is_live_line
select-void_where line_id reservation_id [] = refl
select-void_where line_id reservation_id (l ∷ ls) =
    ground (arith, select-void_where line_id reservation_id ls)

void_line_missing :
    (db : Db) (reservation_id property_id line_id : ℕ) (actor : Option ℕ)
    → select (is_live_line line_id reservation_id) db.folio_lines ≡ none
    → void_line db reservation_id property_id line_id actor ≡ (db, none)
unfolding void_line
void_line_missing db reservation_id property_id line_id actor e = rw (void_line, e) refl

-- After a line was voided, or was not there to void, voiding it again changes nothing, logs
-- nothing and returns no line.
pub void_line_again :
    (db : Db) (reservation_id property_id line_id : ℕ) (actor actor' : Option ℕ)
    → void_line
        (void_line db reservation_id property_id line_id actor).0
        reservation_id
        property_id
        line_id
        actor'
      ≡ ((void_line db reservation_id property_id line_id actor).0, none)
unfolding log_event void_line
void_line_again db reservation_id property_id line_id actor actor' =
    void_line_missing _ reservation_id property_id line_id actor'
      (gone (Option-cases (select (is_live_line line_id reservation_id) db.folio_lines)))
  where
    gone :
        (select (is_live_line line_id reservation_id) db.folio_lines ≡ none)
          ⊎ ((l : FolioLine) × (select (is_live_line line_id reservation_id) db.folio_lines
                ≡ some l))
        → select
            (is_live_line line_id reservation_id)
            (void_line db reservation_id property_id line_id actor).0.folio_lines
          ≡ none
    gone (inl e) = rw (void_line_missing db reservation_id property_id line_id actor e) e
    gone (inr (l, e)) = rw (void_line, e) (select-void_where line_id reservation_id db.folio_lines)
