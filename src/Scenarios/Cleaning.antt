-- ===== src/Scenarios/Cleaning.antt =====
-- The cleaning loop on the hotel.
use travelo.Base.{
  ℕ, ◌≡◌, refl, false, [], ◌∷◌, none, some, any, filter, select, update_row, sum_of, In,
}
use travelo.Base.Int.{◌+ℤ◌, ◌-ℤ◌, ◌*ℤ◌, round_div_ℤ, floor_div, sum_ℤ}
use travelo.Schema.{Db, HousekeepingTask, TaskStatus, TaskType, TaskPriority}
use travelo.Billing.Gst.{compute_gst, compute_gst_for_category, resolve_gst_rate, slabs_for}
use travelo.Folio.Charges.{intra_state_of}
use travelo.Folio.Receipts.{find_payment_by_key, record_payment, insert_payment, new_payment}
use travelo.Folio.Summary.{
  summary, balance_paise, room_part, room_gst, property_taxes_on, live_lines, paid_in,
}
use travelo.Housekeeping.{
  TaskActor, require_task, assert_may_work, assert_task_transition, can_task_transition,
  task_transitions, start_task, inspect_task,
}
use travelo.Housekeeping.Work.{start_task_claims, inspect_task_fail}
use travelo.Reservation.Rules.{can_transition, transitions, assert_transition}
use travelo.Reservation.Availability.{require_reservation}
use travelo.Reservation.Departure.{
  CheckOut, check_out, departing, gate, collect_at_desk, collect, desk_payment,
}
use travelo.Reservation.Settlement.{OpenTask, check_out-clean}
use travelo.Scenarios.Hotel.{hotel, committed_db}

abbrev job : ℕ → TaskStatus → HousekeepingTask
job id status = record {
  id = id;
  property_id = 1;
  room_id = some 3;
  area = none;
  type = TaskType.stayover;
  status = status;
  priority = TaskPriority.normal;
  assigned_staff_id = none;
  started_at = none;
  completed_at = none;
  inspected_at = none;
  created_by = none;
  deleted = false;
}

abbrev busy_hotel : Db
busy_hotel = record hotel { tasks = job 1 TaskStatus.pending ∷ job 2 TaskStatus.completed ∷ [] }

abbrev attendant : TaskActor
attendant = record { id = 7; is_supervisor = false }

start_task_claims_example :
    (t : HousekeepingTask) × In t (committed_db (start_task busy_hotel 1 1 attendant 60)).tasks
    × (t.id ≡ 1)
    × (t.status ≡ TaskStatus.in_progress)
    × (t.assigned_staff_id ≡ some 7)
unfolding start_task require_task select assert_may_work assert_task_transition can_task_transition
    task_transitions any
start_task_claims_example = start_task_claims busy_hotel 1 1 attendant 60 refl refl

inspect_task_fail_example :
    (failed redo : HousekeepingTask) × In failed
      (committed_db (inspect_task busy_hotel 1 2 false attendant 9 60)).tasks
    × In redo (committed_db (inspect_task busy_hotel 1 2 false attendant 9 60)).tasks
    × (failed.id ≡ 2)
    × (failed.status ≡ TaskStatus.rejected)
    × (redo.id ≡ 9)
    × (redo.status ≡ TaskStatus.pending)
    × (redo.room_id ≡ failed.room_id)
    × (redo.area ≡ failed.area)
    × (redo.assigned_staff_id ≡ failed.assigned_staff_id)
unfolding inspect_task require_task select assert_task_transition can_task_transition
    task_transitions any
inspect_task_fail_example = inspect_task_fail busy_hotel 1 2 attendant 9 60 refl

abbrev paying : CheckOut
paying = record {
  collected_paise = some 1120000;
  payment_method = none;
  idempotency_key = none;
  allow_outstanding = false;
}

check_out-clean_example :
    (t : HousekeepingTask) × In t (check_out hotel 1 5 paying none 1 1 900).0.tasks × OpenTask 1 3 t
unfolding check_out departing gate collect_at_desk collect desk_payment require_reservation select
    assert_transition can_transition transitions any record_payment find_payment_by_key
    insert_payment new_payment update_row balance_paise summary room_part room_gst property_taxes_on
    intra_state_of live_lines paid_in filter sum_of sum_ℤ compute_gst_for_category resolve_gst_rate
    compute_gst round_div_ℤ floor_div slabs_for ◌+ℤ◌ ◌-ℤ◌ ◌*ℤ◌
check_out-clean_example = check_out-clean hotel 1 5 3 paying none 1 1 900 refl refl refl refl
