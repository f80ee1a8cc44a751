-- ===== src/Scenarios/Histories.antt =====
-- Two calls on the hotel: a hold is confirmed, a guest leaves.
use travelo.Base.{◌≡◌, refl, inl, inr, false, none, some, any, filter, select, count_of, In}
use travelo.Schema.{Db, Reservation, ReservationStatus}
use travelo.Reservation.Rules.{
  assert_transition, can_transition, transitions, nights_between, add_days,
}
use travelo.Reservation.Availability.{
  require_reservation, assert_room_free, assert_held_room_free, assert_type_capacity, assert_nights,
  overlapping_stays, occupying_overlap, counts_for_type, sold_on, sellable_on, occupies_room,
}
use travelo.Reservation.Clash.{NoDoubleBooking}
use travelo.Reservation.Changes.{confirm}
use travelo.Reservation.Departure.{CheckOut, check_out}
use travelo.Reservation.History.{
  ◌⟶*◌, idle, before, confirm_step, check_out_step, Onward, history-NoDoubleBooking, history-stage,
}
use travelo.Scenarios.Hotel.{hotel, hotel_sound, committed_db, hold}

abbrev leaving : CheckOut
leaving = record {
  collected_paise = some 1120000;
  payment_method = none;
  idempotency_key = none;
  allow_outstanding = false;
}

abbrev confirmed_hotel : Db
confirmed_hotel = committed_db (confirm hotel 1 2 none)

abbrev departed_hotel : Db
departed_hotel = (check_out confirmed_hotel 1 5 leaving none 1 1 900).0

two_calls : hotel ⟶* departed_hotel
unfolding confirm require_reservation select assert_transition can_transition transitions any
    assert_held_room_free assert_room_free occupies_room assert_type_capacity assert_nights
    overlapping_stays occupying_overlap filter count_of counts_for_type sold_on sellable_on
    nights_between add_days
two_calls =
    before (confirm_step 1 2 none refl) (before (check_out_step 1 5 leaving none 1 1 900) idle)

history-NoDoubleBooking_example : NoDoubleBooking departed_hotel.reservations
history-NoDoubleBooking_example = history-NoDoubleBooking hotel_sound two_calls

history-stage_example :
    (b : Reservation) × In b departed_hotel.reservations
    × (b.id ≡ 2)
    × Onward ReservationStatus.pending b.status
history-stage_example = history-stage hold hotel_sound two_calls (inr (inl refl))
