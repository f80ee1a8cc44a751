-- ===== src/Housekeeping/Work.antt =====
-- Who may work on a task, and what an inspection leaves (Housekeeping.antt).
use travelo.Base.{
  ℕ, ◌≡◌, refl, sym, ap, subst, ◌∙◌, inl, inr, false, not, ◌&&◌, List, [], ◌∷◌, ◌++◌, Option, none,
  some, or_else, is_some, holds, ok, through, committed, refuse_if-eq-ok, require-eq-ok,
  select-some, arith, In, append-In_left, In-update_row_self,
}
use travelo.Schema.{Db, HousekeepingTask, TaskStatus, Timestamp}
use travelo.Reservation.Writes.{set_room_status}
use travelo.Housekeeping.{
  TaskActor, RoomStep, require_task, assert_may_work, assert_task_transition, set_task, drive_room,
  start_task, inspect_task, inspection_target, after_inspection, redo_task,
}

require_task-In :
    (db : Db) (property_id id : ℕ) {t : HousekeepingTask}
    → require_task db property_id id ≡ ok t
    → In t db.tasks × (t.id ≡ id)
unfolding require_task
require_task-In db property_id id h =
    let found = select-some _ db.tasks (require-eq-ok _ _ h) in (found.0, ground (arith, found.1))

drive_room-tasks :
    (db : Db) (room : Option ℕ) (step : RoomStep) → (drive_room db room step).tasks ≡ db.tasks
unfolding drive_room set_room_status
drive_room-tasks db none step = refl
drive_room-tasks db (some room_id) step = refl

-- An attendant who may work on a task is the one it is then assigned to.
claimed :
    (task : HousekeepingTask) (actor : TaskActor) {u : Unit {0}}
    → assert_may_work task actor ≡ ok u
    → actor.is_supervisor ≡ false
    → or_else task.assigned_staff_id actor.id ≡ actor.id
unfolding assert_may_work
claimed task actor h s = by_assignee task.assigned_staff_id (refuse_if-eq-ok _ _ h)
  where
    by_assignee :
        (assignee : Option ℕ)
        → (not actor.is_supervisor && is_some assignee && not (holds assignee actor.id)) ≡ false
        → or_else assignee actor.id ≡ actor.id
    by_assignee none e = refl
    by_assignee (some staff_id) e = ground arith

-- Where an attendant who is not a supervisor starts a task, it is in progress afterwards and
-- assigned to that attendant.
pub start_task_claims :
    (db : Db) (property_id id : ℕ) (actor : TaskActor) (now : Timestamp) {db' : Db}
    → actor.is_supervisor ≡ false
    → start_task db property_id id actor now ≡ ok db'
    → (t : HousekeepingTask) × In t db'.tasks
      × (t.id ≡ id)
      × (t.status ≡ TaskStatus.in_progress)
      × (t.assigned_staff_id ≡ some actor.id)
unfolding start_task set_task
start_task_claims db property_id id actor now s h =
    through (require_task db property_id id) _ h λ before e h0.
      through (assert_may_work before actor) _ h0 λ _ mine h1.
        through (assert_task_transition before.status TaskStatus.in_progress) _ h1 λ _ _ h2.
          let found = require_task-In db property_id id e in
          let f = λ (t : HousekeepingTask). record t {
            status = TaskStatus.in_progress;
            assigned_staff_id = some (or_else before.assigned_staff_id actor.id);
            started_at = some now;
          } in
          (
            f before,
            subst (In (f before))
                (sym (drive_room-tasks _ before.room_id RoomStep.start)
                  ∙ ap (λ (d : Db). d.tasks) (committed h2))
                (In-update_row_self (λ t. t.id) id f before db.tasks found.1 found.0),
            found.1,
            refl,
            ap some (claimed before actor mine s),
          )

last-In : {A : Type 0} (xs : List A) (a : A) → In a (xs ++ a ∷ [])
last-In [] a = inl refl
last-In (x ∷ xs) a = inr (last-In xs a)

-- Where a failed inspection is accepted, the task is rejected afterwards and a pending one is in
-- the table under the new key, with the rejected task's room, area and assignee.
pub inspect_task_fail :
    (db : Db) (property_id id : ℕ) (actor : TaskActor) (redo_id : ℕ) (now : Timestamp) {db' : Db}
    → inspect_task db property_id id false actor redo_id now ≡ ok db'
    → (failed redo : HousekeepingTask) × In failed db'.tasks
      × In redo db'.tasks
      × (failed.id ≡ id)
      × (failed.status ≡ TaskStatus.rejected)
      × (redo.id ≡ redo_id)
      × (redo.status ≡ TaskStatus.pending)
      × (redo.room_id ≡ failed.room_id)
      × (redo.area ≡ failed.area)
      × (redo.assigned_staff_id ≡ failed.assigned_staff_id)
unfolding inspect_task set_task after_inspection redo_task
inspect_task_fail db property_id id actor redo_id now h =
    through (require_task db property_id id) _ h λ before e h0.
      through (assert_task_transition before.status (inspection_target false)) _ h0 λ _ _ h1.
        let found = require_task-In db property_id id e in
        let f = λ (t : HousekeepingTask). record t {
          status = TaskStatus.rejected;
          inspected_at = some now;
        } in
        let redo = redo_task property_id before actor.id redo_id in
        let tasks =
          sym (
            ap (λ (ts : List HousekeepingTask). ts ++ redo ∷ [])
              (drive_room-tasks _ before.room_id RoomStep.inspect_fail))
          ∙ ap (λ (d : Db). d.tasks) (committed h1) in
        (
          f before,
          redo,
          subst (In (f before)) tasks (
              append-In_left (f before) _ (redo ∷ [])
                (In-update_row_self (λ t. t.id) id f before db.tasks found.1 found.0)),
          subst (In redo) tasks (last-In _ redo),
          found.1,
          refl,
          refl,
          refl,
          refl,
          refl,
          refl,
        )
