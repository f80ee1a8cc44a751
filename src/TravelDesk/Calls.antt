-- ===== src/TravelDesk/Calls.antt =====
-- Every committed call of the travel desk and of the drivers, and any number of them (TravelDesk.antt).
use travelo.Base.{
  ℕ, ◌≡◌, ◌≢◌, refl, sym, subst, inl, inr, true, not, ◌||◌, [], ◌∷◌, Option, some, In, In-append,
  append-Keyed, through, committed, ok, refuse_if, refuse_if-eq-ok,
}
use travelo.Schema.{
  Db, TransportRequest, TransportStatus, is_transport_status, not_assignable,
  invalid_transport_transition,
}
use travelo.TravelDesk.{
  can_transition_transport, assert_transport_transition, require_request, CreateTransport,
  new_request, create_request, UpdateTransport, update_request, assert_staff_in_property,
  check_vehicle, assign_request, moved_to, set_request_status, remove_request, require_my_trip,
  DriverStep, step_patch, step_trip,
}
use travelo.TravelDesk.Trips.{
  fits_status, is_fit, FitTrips, Sound, set_request-FitTrips, require_request-In,
  require_my_trip-In, assigned-fits, moved_to-fits, moved_to-id, step_patch-Sound,
}

-- One committed call. A new request's key is one that no request has.
pub data TripCall : Db → Db → Type 0 where
  create_call :
      {db : Db} (property_id : ℕ) (dto : CreateTransport) (created_by id : ℕ)
      → ((r : TransportRequest) → In r db.transport_requests → r.id ≢ id)
      → TripCall db (create_request db property_id dto created_by id)
  update_call :
      {db db' : Db} (property_id id : ℕ) (dto : UpdateTransport)
      → update_request db property_id id dto ≡ ok db'
      → TripCall db db'
  assign_call :
      {db db' : Db} (property_id id driver_id : ℕ) (vehicle_id : Option ℕ)
      → assign_request db property_id id driver_id vehicle_id ≡ ok db'
      → TripCall db db'
  set_status_call :
      {db db' : Db} (property_id id : ℕ) (to : TransportStatus)
      → set_request_status db property_id id to ≡ ok db'
      → TripCall db db'
  remove_call :
      {db db' : Db} (property_id id : ℕ)
      → remove_request db property_id id ≡ ok db'
      → TripCall db db'
  step_call :
      {db db' : Db} (property_id driver_id id : ℕ) (step : DriverStep)
      → step_trip db property_id driver_id id step ≡ ok db'
      → TripCall db db'

-- Any number of calls, one after the other.
pub data TripCalls : Db → Db → Type 0 where
  no_call : {db : Db} → TripCalls db db
  call_then : {db mid db' : Db} → TripCall db mid → TripCalls mid db' → TripCalls db db'

abbrev Fit : Db → Type 0
Fit db = FitTrips db.transport_requests

create_request-FitTrips :
    (db : Db) (property_id : ℕ) (dto : CreateTransport) (created_by id : ℕ)
    → Fit db
    → ((r : TransportRequest) → In r db.transport_requests → r.id ≢ id)
    → Fit (create_request db property_id dto created_by id)
unfolding create_request new_request is_fit fits_status
create_request-FitTrips db property_id dto created_by id v fresh =
    let row = new_request property_id dto created_by id in
    record {
      keyed = append-Keyed (λ r. r.id) row db.transport_requests fresh v.keyed;
      fit = λ r m. elim (In-append r db.transport_requests (row ∷ []) m) [
        | inl old ↦ v.fit r old
        | inr (inl e) ↦ subst (λ x. is_fit x ≡ true) (sym e) refl
        | inr (inr absent) ↦ elim absent [ ]
      ];
    }

assign_request-FitTrips :
    (db : Db) (property_id id driver_id : ℕ) (vehicle_id : Option ℕ) {db' : Db}
    → Fit db
    → assign_request db property_id id driver_id vehicle_id ≡ ok db'
    → Fit db'
unfolding assign_request assert_transport_transition is_fit
assign_request-FitTrips db property_id id driver_id vehicle_id v h =
    through (require_request db property_id id) _ h λ before e h1.
      through
        (refuse_if
          (not (
            is_transport_status before.status TransportStatus.requested
            || is_transport_status before.status TransportStatus.assigned))
          not_assignable)
        _ h1
        λ _ _ h2.
          through
            (refuse_if (not (can_transition_transport before.status TransportStatus.assigned))
              invalid_transport_transition)
            _ h2
            λ _ open_to h3.
              through (assert_staff_in_property db property_id driver_id) _ h3 λ _ _ h4.
                through (check_vehicle db property_id vehicle_id) _ h4 λ _ _ h5.
                  let found = require_request-In db property_id id e in
                  subst Fit (committed h5) (
                    set_request-FitTrips db id _ before found.0 found.1 (λ r. refl)
                      (assigned-fits before.status before.driver_staff_id before.vehicle_id
                        (some driver_id) vehicle_id before.driver_stage
                        (refuse_if-eq-ok _ _ open_to))
                      v)

set_request_status-FitTrips :
    (db : Db) (property_id id : ℕ) (to : TransportStatus) {db' : Db}
    → Fit db
    → set_request_status db property_id id to ≡ ok db'
    → Fit db'
unfolding set_request_status assert_transport_transition
set_request_status-FitTrips db property_id id to v h =
    through (require_request db property_id id) _ h λ before e h1.
      through
        (refuse_if (not (can_transition_transport before.status to)) invalid_transport_transition) _
        h1
        λ _ open_to h2.
          let found = require_request-In db property_id id e in
          subst Fit (committed h2) (
            set_request-FitTrips db id (moved_to to) before found.0 found.1 (moved_to-id to)
              (moved_to-fits to before (refuse_if-eq-ok _ _ open_to)) v)

step_trip-FitTrips :
    (db : Db) (property_id driver_id id : ℕ) (step : DriverStep) {db' : Db}
    → Fit db
    → step_trip db property_id driver_id id step ≡ ok db'
    → Fit db'
unfolding step_trip Sound
step_trip-FitTrips db property_id driver_id id step v h =
    through (require_my_trip db property_id driver_id id) _ h λ before e h1.
      through (step_patch before step) _ h1 λ patch p h2.
        let found = require_my_trip-In db property_id driver_id id e in
        let sound = step_patch-Sound before step p in
        subst Fit (committed h2)
          (set_request-FitTrips db id patch before found.0 found.1 sound.0 (λ _. sound.1) v)

call-FitTrips : {db db' : Db} → Fit db → TripCall db db' → Fit db'
unfolding update_request remove_request is_fit
call-FitTrips v (create_call p dto by id fresh) = create_request-FitTrips _ p dto by id v fresh
call-FitTrips {db} v (update_call p id dto h) = through (require_request db p id) _ h λ before e h1.
    let found = require_request-In db p id e in
    subst Fit (committed h1)
      (set_request-FitTrips db id _ before found.0 found.1 (λ r. refl) (λ k. k) v)
call-FitTrips v (assign_call p id driver_id vehicle_id h) =
    assign_request-FitTrips _ p id driver_id vehicle_id v h
call-FitTrips v (set_status_call p id to h) = set_request_status-FitTrips _ p id to v h
call-FitTrips {db} v (remove_call p id h) = through (require_request db p id) _ h λ before e h1.
    let found = require_request-In db p id e in
    subst Fit (committed h1)
      (set_request-FitTrips db id _ before found.0 found.1 (λ r. refl) (λ k. k) v)
call-FitTrips v (step_call p driver_id id step h) = step_trip-FitTrips _ p driver_id id step v h

-- From trips with unique ids of which each one that is asked for has no driver, vehicle or
-- progress, and each one that is assigned has no progress, every sequence of committed calls of
-- the desk and the drivers, each new trip under an unused key, leads to such trips.
pub calls-FitTrips :
    {db db' : Db}
    → FitTrips db.transport_requests
    → TripCalls db db'
    → FitTrips db'.transport_requests
calls-FitTrips v no_call = v
calls-FitTrips v (call_then call rest) = calls-FitTrips (call-FitTrips v call) rest
