-- ===== src/Housekeeping/Loop.antt =====
-- The cleaning loop (Housekeeping.antt): its order, and the clean that a check-out raises.
use travelo.Base.{
  ℕ, suc, ◌≡◌, refl, inl, inr, Bool, true, List, [], ◌∷◌, ◌++◌, Option, any, Bool-cases, arith,
}
use travelo.Schema.{Db, TaskStatus}
use travelo.Housekeeping.{
  can_task_transition, task_transitions, is_open_for, is_open_task, checkout_clean,
  create_checkout_clean_for_room,
}

unfoldable pub rank : TaskStatus → ℕ
rank TaskStatus.pending = 0
rank TaskStatus.in_progress = 1
rank TaskStatus.completed = 2
rank TaskStatus.inspected = 3
rank TaskStatus.rejected = 3

-- Every allowed change of a task's status goes forward by exactly one of the stages pending, in
-- progress, completed, and inspected or rejected.
pub can_task_transition-rank :
    (from to : TaskStatus) → can_task_transition from to ≡ true → rank to ≡ suc (rank from)
unfolding can_task_transition task_transitions any rank
can_task_transition-rank from to h = ground arith

any-append_hit :
    {A : Type 0} (p : A → Bool) (xs : List A) (a : A) → p a ≡ true → any p (xs ++ a ∷ []) ≡ true
unfolding any
any-append_hit p [] a h = ground arith
any-append_hit p (x ∷ xs) a h = ground (arith, any-append_hit p xs a h)

clean_taken :
    (db : Db) (property_id room_id : ℕ) (actor : Option ℕ) (id : ℕ)
    → any (is_open_for property_id room_id) db.tasks ≡ true
    → create_checkout_clean_for_room db property_id room_id actor id ≡ db
unfolding create_checkout_clean_for_room
clean_taken db property_id room_id actor id e = rw (create_checkout_clean_for_room, e) refl

-- After the hook the room has an open task.
pub clean-open :
    (db : Db) (property_id room_id : ℕ) (actor : Option ℕ) (id : ℕ)
    → any
        (is_open_for property_id room_id)
        (create_checkout_clean_for_room db property_id room_id actor id).tasks
      ≡ true
unfolding create_checkout_clean_for_room is_open_for is_open_task checkout_clean
clean-open db property_id room_id actor id =
    elim (Bool-cases (any (is_open_for property_id room_id) db.tasks)) [
      | inl taken ↦ rw (create_checkout_clean_for_room, taken) taken
      | inr fresh ↦
          rw (create_checkout_clean_for_room, fresh)
            (any-append_hit (is_open_for property_id room_id) db.tasks
              (checkout_clean property_id room_id actor id) (fits property_id room_id actor id))
    ]
  where
    fits :
        (property_id room_id : ℕ) (actor : Option ℕ) (id : ℕ)
        → is_open_for property_id room_id (checkout_clean property_id room_id actor id) ≡ true
    fits property_id room_id actor id = ground arith

-- A second run of the check-out hook for a room right after the first, by any actor, changes
-- nothing.
pub clean_again :
    (db : Db) (property_id room_id : ℕ) (actor actor' : Option ℕ) (id id' : ℕ)
    → create_checkout_clean_for_room
        (create_checkout_clean_for_room db property_id room_id actor id)
        property_id
        room_id
        actor'
        id'
      ≡ create_checkout_clean_for_room db property_id room_id actor id
clean_again db property_id room_id actor actor' id id' =
    clean_taken _ property_id room_id actor' id' (clean-open db property_id room_id actor id)
