-- ===== src/Maintenance/Closure.antt =====
-- What a work order holds when it is closed, over any calls of its service (Maintenance.antt).
use travelo.Base.{
  ℕ, ◌≡◌, refl, sym, subst, inl, inr, Bool, true, false, not, ◌&&◌, any, codes_eq, ◌==◌, List, [],
  ◌∷◌, ◌++◌, Option, none, some, is_some, In, In-append, update_row-In, through, committed, ok,
  require, refuse_if, given_text, given_text-says, says_something, ap, require-eq-ok,
}
use travelo.Schema.{
  Db, RoomStatus, Timestamp, WorkOrder, WorkOrderStatus, unique_violation, resolution_required,
  cancel_reason_required,
}
use travelo.Reservation.Writes.{set_room_status}
use travelo.Maintenance.{
  CreateWorkOrder, create_work_order, check_place, work_order_attempt, new_work_order,
  insert_work_order, set_work_order, drive_out, accept_work_order, simple_transition,
  start_work_order, pause_work_order, resume_work_order, complete_work_order, cancel_work_order,
  require_work_order, assert_work_order_transition,
}
use travelo.Reservation.Safety.Create.{create_attempts-eq-ok}

-- A completed order tells in a text that is not blank what was done, and when; a cancelled one why,
-- and when.
unfoldable pub is_accounted : WorkOrder → Bool
is_accounted w = elim w.status [
  | WorkOrderStatus.completed ↦ says_something w.resolution && is_some w.completed_at
  | WorkOrderStatus.cancelled ↦ says_something w.cancel_reason && is_some w.cancelled_at
  | _ ↦ true
]

unfoldable pub Accounted : List WorkOrder → Type 0
Accounted ws = (w : WorkOrder) → In w ws → is_accounted w ≡ true

-- One committed call of the work-order service.
pub data WorkCall : Db → Db → Type 0 where
  create_call :
      {db db' : Db} (property_id : ℕ) (dto : CreateWorkOrder) (reporter id : ℕ)
      → create_work_order db property_id dto reporter id ≡ ok db'
      → WorkCall db db'
  accept_call :
      {db db' : Db} (property_id id actor : ℕ) (now : Timestamp)
      → accept_work_order db property_id id actor now ≡ ok db'
      → WorkCall db db'
  start_call :
      {db db' : Db} (property_id id : ℕ) (now : Timestamp)
      → start_work_order db property_id id now ≡ ok db'
      → WorkCall db db'
  pause_call :
      {db db' : Db} (property_id id : ℕ) (now : Timestamp)
      → pause_work_order db property_id id now ≡ ok db'
      → WorkCall db db'
  resume_call :
      {db db' : Db} (property_id id : ℕ) (now : Timestamp)
      → resume_work_order db property_id id now ≡ ok db'
      → WorkCall db db'
  complete_call :
      {db db' : Db} (property_id id : ℕ) (resolution : List ℕ) (now : Timestamp)
      → complete_work_order db property_id id resolution now ≡ ok db'
      → WorkCall db db'
  cancel_call :
      {db db' : Db} (property_id id : ℕ) (reason : List ℕ) (now : Timestamp)
      → cancel_work_order db property_id id reason now ≡ ok db'
      → WorkCall db db'

-- Any number of calls, one after the other.
pub data WorkCalls : Db → Db → Type 0 where
  no_call : {db : Db} → WorkCalls db db
  call_then : {db mid db' : Db} → WorkCall db mid → WorkCalls mid db' → WorkCalls db db'

drive_out-work_orders :
    (db : Db) (out : Bool) (room : Option ℕ) (status : RoomStatus)
    → (drive_out db out room status).work_orders ≡ db.work_orders
unfolding drive_out set_room_status
drive_out-work_orders db true (some room_id) status = refl
drive_out-work_orders db true none status = refl
drive_out-work_orders db false room status = refl

-- A change after which a row is accounted for, and what it does to the room.
changed-Accounted :
    (db : Db) (id : ℕ) (f : WorkOrder → WorkOrder) (out : Bool) (room : Option ℕ)
    (status : RoomStatus) {db' : Db}
    → ((w : WorkOrder) → is_accounted (f w) ≡ true)
    → Accounted db.work_orders
    → drive_out (set_work_order db id f) out room status ≡ db'
    → Accounted db'.work_orders
unfolding Accounted set_work_order
changed-Accounted db id f out room status fine v e =
    subst (λ (d : Db). Accounted d.work_orders) e
      (subst Accounted (sym (drive_out-work_orders (set_work_order db id f) out room status)) rows)
  where
    rows : Accounted (set_work_order db id f).work_orders
    rows w m =
        let (b, n, how) = update_row-In (λ w. w.id) id f w db.work_orders m in
        elim how [
          | inl hit ↦ subst (λ x. is_accounted x ≡ true) (sym hit.1) (fine b)
          | inr miss ↦ subst (λ x. is_accounted x ≡ true) (sym miss.1) (v b n)
        ]

create_work_order-Accounted :
    (db : Db) (property_id : ℕ) (dto : CreateWorkOrder) (reporter id : ℕ) {db' : Db}
    → Accounted db.work_orders
    → create_work_order db property_id dto reporter id ≡ ok db'
    → Accounted db'.work_orders
unfolding create_work_order work_order_attempt insert_work_order Accounted new_work_order
    is_accounted
create_work_order-Accounted db property_id dto reporter id v h =
    through (check_place db property_id dto.room_id) _ h λ _ _ h1.
      let (n, tried) = create_attempts-eq-ok 4 0 _ h1 in
      through (insert_work_order db (new_work_order db property_id dto reporter id n)) _ tried
        λ created put h2.
          through
            (refuse_if
              (any
                (λ v.
                  v.property_id == property_id
                  && codes_eq v.work_order_number
                      (new_work_order db property_id dto reporter id n).work_order_number
                  && not v.deleted)
                db.work_orders)
              unique_violation)
            _ put
            λ _ _ h3.
              subst (λ (d : Db). Accounted d.work_orders) (committed h2)
                (subst Accounted (sym (drive_out-work_orders created _ dto.room_id _)) (
                  subst (λ (d : Db). Accounted d.work_orders) (committed h3)
                    (added db (new_work_order db property_id dto reporter id n) refl v)))
  where
    added :
        (db : Db) (w : WorkOrder)
        → is_accounted w ≡ true
        → Accounted db.work_orders
        → Accounted (db.work_orders ++ w ∷ [])
    added db w fine v x m = elim (In-append x db.work_orders (w ∷ []) m) [
      | inl old ↦ v x old
      | inr (inl e) ↦ subst (λ y. is_accounted y ≡ true) (sym e) fine
      | inr (inr absent) ↦ elim absent [ ]
    ]

simple_transition-Accounted :
    (db : Db) (property_id id : ℕ) (target : WorkOrderStatus) (extra : Option Timestamp)
    (now : Timestamp) {db' : Db}
    → ((w : WorkOrder) (start : Option Timestamp)
        → is_accounted (record w { status = target; started_at = start }) ≡ true)
    → Accounted db.work_orders
    → simple_transition db property_id id target extra now ≡ ok db'
    → Accounted db'.work_orders
unfolding simple_transition drive_out
simple_transition-Accounted db property_id id target extra now fine v h =
    through (require_work_order db property_id id) _ h λ before _ h1.
      through (assert_work_order_transition before.status target) _ h1 λ _ _ h2.
        changed-Accounted db id _ false none RoomStatus.dirty (λ w. fine w _) v (committed h2)

call-Accounted :
    {db db' : Db} → Accounted db.work_orders → WorkCall db db' → Accounted db'.work_orders
unfolding accept_work_order complete_work_order cancel_work_order is_accounted
call-Accounted v (create_call p dto reporter id h) =
    create_work_order-Accounted _ p dto reporter id v h
call-Accounted v (accept_call p id actor now h) =
    through (require_work_order _ p id) _ h λ before _ h1.
      through (assert_work_order_transition before.status _) _ h1
        λ _ _ h2. changed-Accounted _ id _ _ _ _ (λ w. refl) v (committed h2)
call-Accounted v (start_call p id now h) =
    simple_transition-Accounted _ p id _ (some now) now (λ w s. refl) v h
call-Accounted v (pause_call p id now h) =
    simple_transition-Accounted _ p id _ none now (λ w s. refl) v h
call-Accounted v (resume_call p id now h) =
    simple_transition-Accounted _ p id _ none now (λ w s. refl) v h
call-Accounted v (complete_call p id resolution now h) =
    through (require_work_order _ p id) _ h λ before _ h1.
      through (require (given_text (some resolution)) resolution_required) _ h1 λ text given h2.
        through (assert_work_order_transition before.status _) _ h2 λ _ _ h3.
          changed-Accounted _ id _ _ _ _
            (λ w. ap (λ b. b && true) (given_text-says (some resolution) (require-eq-ok _ _ given)))
            v (committed h3)
call-Accounted v (cancel_call p id reason now h) =
    through (require_work_order _ p id) _ h λ before _ h1.
      through (require (given_text (some reason)) cancel_reason_required) _ h1 λ text given h2.
        through (assert_work_order_transition before.status _) _ h2 λ _ _ h3.
          changed-Accounted _ id _ _ _ _
            (λ w. ap (λ b. b && true) (given_text-says (some reason) (require-eq-ok _ _ given))) v
            (committed h3)

-- From work orders of which each completed one has a resolution that is not blank and its time,
-- and each cancelled one a reason that is not blank and its time, every sequence of committed
-- calls of the work-order service leads to such work orders.
pub calls-Accounted :
    {db db' : Db} → Accounted db.work_orders → WorkCalls db db' → Accounted db'.work_orders
calls-Accounted v no_call = v
calls-Accounted v (call_then call rest) = calls-Accounted (call-Accounted v call) rest
