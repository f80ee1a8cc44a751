-- ===== src/Scenarios/Trips.antt =====
-- A trip that is asked for, assigned, accepted by its driver and walked to the door.
use travelo.Base.{◌≡◌, refl, none, ok, any, select, update_row, Keyed}
use travelo.Schema.{Db, TransportType}
use travelo.TravelDesk.{
  CreateTransport, create_request, new_request, assign_request, require_request, is_live_request,
  assert_transport_transition, can_transition_transport, transport_transitions,
  assert_staff_in_property, check_vehicle, set_request, DriverStep, step_trip, require_my_trip,
  is_my_trip, step_patch, walk, assert_driver_stage, can_transition_driver_stage,
  driver_stage_transitions,
}
use travelo.TravelDesk.Trips.{FitTrips}
use travelo.TravelDesk.Calls.{
  no_call, call_then, create_call, assign_call, step_call, calls-FitTrips,
}
use travelo.Scenarios.Hotel.{hotel, committed_db}

abbrev airport : CreateTransport
airport = record {
  reservation_id = none;
  type = TransportType.pickup;
  pickup_at = 600;
  fare_paise = none;
}

abbrev asked : Db
asked = create_request hotel 1 airport 7 1

abbrev assigned_trip : Db
assigned_trip = committed_db (assign_request asked 1 1 7 none)

abbrev accepted_trip : Db
accepted_trip = committed_db (step_trip assigned_trip 1 7 1 DriverStep.accept)

abbrev driving : Db
driving = committed_db (step_trip accepted_trip 1 7 1 DriverStep.on_the_way)

asked_assigned : assign_request asked 1 1 7 none ≡ ok assigned_trip
unfolding create_request new_request assign_request require_request is_live_request
    assert_transport_transition can_transition_transport transport_transitions any
    assert_staff_in_property check_vehicle select
asked_assigned = refl

assigned_accepted : step_trip assigned_trip 1 7 1 DriverStep.accept ≡ ok accepted_trip
unfolding create_request new_request assign_request require_request is_live_request
    assert_transport_transition can_transition_transport transport_transitions any
    assert_staff_in_property check_vehicle select set_request update_row step_trip require_my_trip
    is_my_trip step_patch assert_driver_stage can_transition_driver_stage
assigned_accepted = refl

accepted_driving : step_trip accepted_trip 1 7 1 DriverStep.on_the_way ≡ ok driving
unfolding create_request new_request assign_request require_request is_live_request
    assert_transport_transition can_transition_transport transport_transitions any
    assert_staff_in_property check_vehicle select set_request update_row step_trip require_my_trip
    is_my_trip step_patch assert_driver_stage can_transition_driver_stage driver_stage_transitions
    walk
accepted_driving = refl

no_trips : FitTrips hotel.transport_requests
unfolding Keyed
no_trips = record { keyed = λ a b m. elim m [ ]; fit = λ r m. elim m [ ] }

calls-FitTrips_example : FitTrips driving.transport_requests
calls-FitTrips_example = calls-FitTrips no_trips (
    call_then (create_call 1 airport 7 1 (λ r m. elim m [ ])) (
      call_then (assign_call 1 1 7 none asked_assigned) (
        call_then (step_call 1 7 1 DriverStep.accept assigned_accepted)
          (call_then (step_call 1 7 1 DriverStep.on_the_way accepted_driving) no_call))))
