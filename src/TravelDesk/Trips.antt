-- ===== src/TravelDesk/Trips.antt =====
-- A trip's driver and the driver's progress, over any calls of the travel desk (TravelDesk.antt).
use travelo.Base.{
  ℕ, ◌≡◌, refl, sym, ap, subst, ◌∙◌, inl, inr, Bool, true, false, not, ◌&&◌, List, Option, some,
  any, is_some, In, Keyed, update_row-In, update_row-Keyed, select-some, through, committed, ok,
  refuse_if, refuse_if-eq-ok, require-eq-ok, arith,
}
use travelo.Schema.{
  Db, TransportRequest, TransportStatus, is_transport_status, DriverStage, invalid_driver_step,
}
use travelo.TravelDesk.{
  can_transition_transport, transport_transitions, assert_transport_transition, assert_driver_stage,
  require_request, is_live_request, set_request, moved_to, is_my_trip, require_my_trip, DriverStep,
  at_stage, walk, step_patch,
}

-- A trip that nobody has accepted has no progress, and one that waits for the desk no driver.
unfoldable pub fits_status : TransportStatus → Option ℕ → Option ℕ → Option DriverStage → Bool
fits_status TransportStatus.requested driver vehicle stage =
    not (is_some driver) && not (is_some vehicle) && not (is_some stage)
fits_status TransportStatus.assigned driver vehicle stage = not (is_some stage)
fits_status _ driver vehicle stage = true

unfoldable pub is_fit : TransportRequest → Bool
is_fit r = fits_status r.status r.driver_staff_id r.vehicle_id r.driver_stage

-- The keys are unique and every trip is fit.
pub record FitTrips (rs : List TransportRequest) : Type 0 where
  pub keyed : Keyed (λ r. r.id) rs
  pub fit : (r : TransportRequest) → In r rs → is_fit r ≡ true

pub set_request-FitTrips :
    (db : Db) (id : ℕ) (f : TransportRequest → TransportRequest) (before : TransportRequest)
    → In before db.transport_requests
    → before.id ≡ id
    → ((r : TransportRequest) → (f r).id ≡ r.id)
    → (is_fit before ≡ true → is_fit (f before) ≡ true)
    → FitTrips db.transport_requests
    → FitTrips (set_request db id f).transport_requests
unfolding set_request Keyed
set_request-FitTrips db id f before m own keeps fine v = record {
  keyed = update_row-Keyed (λ r. r.id) id f db.transport_requests keeps v.keyed;
  fit = λ r n.
      let (b, there, how) = update_row-In (λ r. r.id) id f r db.transport_requests n in
      elim how [
        | inl hit ↦
            subst (λ x. is_fit x ≡ true)
              (sym (hit.1 ∙ ap f (v.keyed b before there m (hit.0 ∙ sym own))))
              (fine (v.fit before m))
        | inr miss ↦ subst (λ x. is_fit x ≡ true) (sym miss.1) (v.fit b there)
      ];
}

pub require_request-In :
    (db : Db) (property_id id : ℕ) {r : TransportRequest}
    → require_request db property_id id ≡ ok r
    → In r db.transport_requests × (r.id ≡ id)
unfolding require_request is_live_request
require_request-In db property_id id h =
    let found = select-some _ db.transport_requests (require-eq-ok _ _ h) in
    (found.0, ground (arith, found.1))

pub require_my_trip-In :
    (db : Db) (property_id driver_id id : ℕ) {r : TransportRequest}
    → require_my_trip db property_id driver_id id ≡ ok r
    → In r db.transport_requests × (r.id ≡ id)
unfolding require_my_trip is_my_trip
require_my_trip-In db property_id driver_id id h =
    let found = select-some _ db.transport_requests (require-eq-ok _ _ h) in
    (found.0, ground (arith, found.1))

-- Only a trip that waits for the desk may be assigned, and it has no progress.
pub assigned-fits :
    (s : TransportStatus) (driver vehicle driver' vehicle' : Option ℕ) (stage : Option DriverStage)
    → not (can_transition_transport s TransportStatus.assigned) ≡ false
    → fits_status s driver vehicle stage ≡ true
    → fits_status TransportStatus.assigned driver' vehicle' stage ≡ true
unfolding can_transition_transport transport_transitions any fits_status
assigned-fits TransportStatus.requested d v d' v' g h k = ground arith
assigned-fits TransportStatus.assigned d v d' v' g h k = cc
assigned-fits TransportStatus.in_progress d v d' v' g h k = cc
assigned-fits TransportStatus.completed d v d' v' g h k = cc
assigned-fits TransportStatus.cancelled d v d' v' g h k = cc

pub moved_to-fits :
    (to : TransportStatus) (r : TransportRequest)
    → not (can_transition_transport r.status to) ≡ false
    → is_fit r ≡ true
    → is_fit (moved_to to r) ≡ true
unfolding moved_to is_fit fits_status
moved_to-fits TransportStatus.requested r h k = refl
moved_to-fits TransportStatus.assigned r h k =
    assigned-fits r.status r.driver_staff_id r.vehicle_id r.driver_staff_id r.vehicle_id
      r.driver_stage h k
moved_to-fits TransportStatus.in_progress r h k = refl
moved_to-fits TransportStatus.completed r h k = refl
moved_to-fits TransportStatus.cancelled r h k = refl

pub moved_to-id : (to : TransportStatus) (r : TransportRequest) → (moved_to to r).id ≡ r.id
unfolding moved_to
moved_to-id TransportStatus.requested r = refl
moved_to-id TransportStatus.assigned r = refl
moved_to-id TransportStatus.in_progress r = refl
moved_to-id TransportStatus.completed r = refl
moved_to-id TransportStatus.cancelled r = refl

under_way-fits :
    (s : TransportStatus) (driver vehicle : Option ℕ) (stage : Option DriverStage)
    → not (is_transport_status s TransportStatus.in_progress) ≡ false
    → fits_status s driver vehicle stage ≡ true
unfolding fits_status
under_way-fits TransportStatus.requested d v g h = cc
under_way-fits TransportStatus.assigned d v g h = cc
under_way-fits TransportStatus.in_progress d v g h = refl
under_way-fits TransportStatus.completed d v g h = refl
under_way-fits TransportStatus.cancelled d v g h = refl

-- What a step's patch does to a row: its key stays, and the trip is fit.
unfoldable pub Sound : TransportRequest → (TransportRequest → TransportRequest) → Type 0
Sound before f = ((r : TransportRequest) → (f r).id ≡ r.id) × (is_fit (f before) ≡ true)

walk-Sound :
    (before : TransportRequest) (to : DriverStage) {f : TransportRequest → TransportRequest}
    → walk before to ≡ ok f
    → Sound before f
unfolding walk Sound is_fit
walk-Sound before to h =
    through
      (refuse_if (not (is_transport_status before.status TransportStatus.in_progress))
        invalid_driver_step)
      _ h
      λ _ going h1. through (assert_driver_stage before.driver_stage to) _ h1 λ _ _ h2.
        subst (Sound before) (committed h2) (
          (λ r. refl),
          under_way-fits before.status before.driver_staff_id before.vehicle_id (some to)
              (refuse_if-eq-ok _ _ going),
        )

pub step_patch-Sound :
    (before : TransportRequest) (step : DriverStep) {f : TransportRequest → TransportRequest}
    → step_patch before step ≡ ok f
    → Sound before f
unfolding step_patch Sound is_fit fits_status
step_patch-Sound before DriverStep.accept h =
    through (assert_transport_transition before.status TransportStatus.in_progress) _ h λ _ _ h1.
      through (assert_driver_stage before.driver_stage DriverStage.accepted) _ h1
        λ _ _ h2. subst (Sound before) (committed h2) ((λ r. refl), refl)
step_patch-Sound before DriverStep.complete h =
    through (assert_transport_transition before.status TransportStatus.completed) _ h λ _ _ h1.
      through
        (refuse_if (not (at_stage before.driver_stage DriverStage.picked_up)) invalid_driver_step) _
        h1 λ _ _ h2. subst (Sound before) (committed h2) ((λ r. refl), refl)
step_patch-Sound before DriverStep.on_the_way h = walk-Sound before DriverStage.en_route h
step_patch-Sound before DriverStep.arrived h = walk-Sound before DriverStage.arrived h
step_patch-Sound before DriverStep.picked_up h = walk-Sound before DriverStage.picked_up h
