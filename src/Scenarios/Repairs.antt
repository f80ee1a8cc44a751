-- ===== src/Scenarios/Repairs.antt =====
-- A work order that takes the room of an expected guest out of service, and its cancellation.
use travelo.Base.{◌≡◌, refl, true, [], ◌∷◌, none, some, ok, select, any, given_text, trim}
use travelo.Schema.{Db}
use travelo.Reservation.Availability.{require_reservation, require_room}
use travelo.Reservation.Writes.{set_room_status}
use travelo.Reservation.InHouse.{check_in, move_room}
use travelo.Reservation.Booking.{create_attempts, retry_taken}
use travelo.Maintenance.{
  CreateWorkOrder, create_work_order, check_place, work_order_attempt, insert_work_order,
  new_work_order, drive_out, cancel_work_order, require_work_order, is_live_work_order,
  assert_work_order_transition, can_work_order_transition, work_order_transitions, set_work_order,
}
use travelo.Maintenance.Barred.{work_order_bars_room}
use travelo.Maintenance.Closure.{
  Accounted, no_call, call_then, create_call, cancel_call, calls-Accounted,
}
use travelo.Scenarios.Hotel.{hotel, committed_db}

abbrev leak : CreateWorkOrder
leak = record { room_id = some 1; priority = none; takes_room_out_of_service = some true }

abbrev flooded : Db
flooded = committed_db (create_work_order hotel 1 leak 7 1)

abbrev dried : Db
dried = committed_db (cancel_work_order flooded 1 1 (100 ∷ []) 900)

created_flooded : create_work_order hotel 1 leak 7 1 ≡ ok flooded
unfolding create_work_order check_place require_room select create_attempts retry_taken
    work_order_attempt insert_work_order new_work_order drive_out any
created_flooded = refl

cancelled_dried : cancel_work_order flooded 1 1 (100 ∷ []) 900 ≡ ok dried
unfolding create_work_order check_place require_room select create_attempts retry_taken
    work_order_attempt insert_work_order new_work_order drive_out any cancel_work_order
    require_work_order is_live_work_order assert_work_order_transition can_work_order_transition
    work_order_transitions set_work_order set_room_status given_text trim
cancelled_dried = refl

work_order_bars_room_example :
    ¬ (check_in flooded 1 1 none [] none 10 800 ≡ ok hotel)
    × ¬ (move_room flooded 1 1 1 none none ≡ ok hotel)
unfolding create_work_order check_place require_room select create_attempts retry_taken
    work_order_attempt insert_work_order new_work_order drive_out any set_room_status
    require_reservation
work_order_bars_room_example =
    work_order_bars_room hotel 1 1 leak 7 1 1 none [] none none 10 800 refl refl created_flooded
      refl refl

hotel-Accounted : Accounted hotel.work_orders
unfolding Accounted
hotel-Accounted w m = elim m [ ]

calls-Accounted_example : Accounted dried.work_orders
calls-Accounted_example = calls-Accounted hotel-Accounted (
    call_then (create_call 1 leak 7 1 created_flooded)
      (call_then (cancel_call 1 1 (100 ∷ []) 900 cancelled_dried) no_call))
