-- ===== src/Scenarios/Bookings.antt =====
-- The operations of the reservations service on the hotel.
use travelo.Base.{
  Sole, singleton-Sole, In, ◌==◌, ◌≢◌, refl, inl, inr, true, false, List, [], ◌∷◌, none, some, any,
  filter, select, count_of, update_row, In, codes_eq, codes_leb, pad_start, decimal, arith, Outcome,
  ok, refused, sum_of,
}
use travelo.Schema.{Db, Reservation, Refusal}
use travelo.Reservation.Rules.{
  assert_transition, can_transition, transitions, assert_date_order, covers_date, is_assignable,
  total_paise, nights_between, add_days, format_reservation_number,
}
use travelo.Reservation.Availability.{
  require_reservation, require_room, require_room_type, assert_room_free, assert_held_room_free,
  assert_type_capacity, assert_nights, overlapping_stays, occupying_overlap, counts_for_type,
  sold_on, sellable_on, occupies_room,
}
use travelo.Reservation.Writes.{set_reservation, set_room_status, record_event}
use travelo.Reservation.Clash.{NoDoubleBooking}
use travelo.Reservation.Booking.{
  CreateReservation, create, create_attempts, retry_taken, booking_attempt, check_booking,
  insert_reservation, new_reservation, rules_for, booked_rate, booked_total, nightly_quote,
  resolve_rate, round_div,
}
use travelo.Reservation.Changes.{
  UpdateReservation, update, patched, put_all, check_move, is_empty_update, confirm,
}
use travelo.Reservation.InHouse.{check_in, move_rate, vacate, move_room}
use travelo.Reservation.Swaps.{
  Placement, swap_rooms, auto_allocate, allocate, choose_room, place, pending_arrivals,
  offerable_rooms, order_by, insert_by, pending_overlap,
}
use travelo.Reservation.Safety.Changes.{confirm-NoDoubleBooking, update-NoDoubleBooking}
use travelo.Reservation.Safety.InHouse.{check_in-NoDoubleBooking, move_room-NoDoubleBooking}
use travelo.Reservation.Safety.Create.{create-NoDoubleBooking}
use travelo.Reservation.Safety.Swap.{swap_rooms-NoDoubleBooking}
use travelo.Reservation.Safety.Allocate.{auto_allocate-NoDoubleBooking}
use travelo.Base.{◌≡◌, ◌<◌, ◌≤◌, ◌-◌}
use travelo.Schema.{RateDay}
use travelo.Reservation.Availability.{assert_on_sale, rule_of, assert_rules}
use travelo.Reservation.Swaps.{order_by}
use travelo.Rates.{
  NightPrice, rates_service, nightly_prices, assert_window, overrides_in, price_of, day_rows,
  day_of, day_rules, nights_from, rules_on,
}
use travelo.Rates.Rows.{DayKey}
use travelo.Rates.Laws.{create-on_sale, nightly_prices-eq-ok}
use travelo.Scenarios.Hotel.{hotel, hotel_sound, committed_db}

abbrev walk_in : CreateReservation
walk_in = record {
  room_type_id = 1;
  room_id = some 4;
  details = [];
  company_gstin = none;
  adults = 1;
  children = none;
  check_in = 17;
  check_out = 19;
  confirmed = some true;
  rate_paise = none;
  rate_plan_id = none;
  hold_minutes = none;
}

fresh_id : (s : Reservation) → In s hotel.reservations → s.id ≢ 9
fresh_id s (inl e) k = ground arith
fresh_id s (inr (inl e)) k = ground arith
fresh_id s (inr (inr (inl e))) k = ground arith
fresh_id s (inr (inr (inr (inl e)))) k = ground arith
fresh_id s (inr (inr (inr (inr (inl e))))) k = ground arith
fresh_id s (inr (inr (inr (inr (inr m))))) k = elim m [ ]

abbrev later_stay : UpdateReservation
later_stay = record {
  details = [];
  company_gstin = none;
  adults = none;
  children = none;
  check_in = some 11;
  check_out = some 14;
  rate_paise = none;
  rate_plan_id = none;
}

create-NoDoubleBooking_example :
    NoDoubleBooking (committed_db (create hotel none 1 walk_in none 9 100)).reservations
unfolding create create_attempts retry_taken booking_attempt check_booking insert_reservation
    new_reservation rules_for booked_rate booked_total nightly_quote resolve_rate round_div
    require_room_type require_room assert_date_order codes_eq format_reservation_number pad_start
    decimal sum_of total_paise require_reservation select assert_transition can_transition
    transitions any assert_held_room_free assert_room_free occupies_room assert_type_capacity
    assert_nights overlapping_stays occupying_overlap filter count_of counts_for_type sold_on
    sellable_on nights_between add_days set_reservation update_row record_event set_room_status
create-NoDoubleBooking_example =
    create-NoDoubleBooking hotel none 1 walk_in none 9 100 hotel_sound fresh_id refl

confirm-NoDoubleBooking_example :
    NoDoubleBooking (committed_db (confirm hotel 1 2 none)).reservations
unfolding confirm require_reservation select assert_transition can_transition transitions any
    assert_held_room_free assert_room_free occupies_room assert_type_capacity assert_nights
    overlapping_stays occupying_overlap filter count_of counts_for_type sold_on sellable_on
    nights_between add_days
confirm-NoDoubleBooking_example = confirm-NoDoubleBooking hotel 1 2 none hotel_sound refl

update-NoDoubleBooking_example :
    NoDoubleBooking (committed_db (update hotel none 1 1 later_stay none)).reservations
unfolding update check_move is_empty_update patched put_all assert_date_order rules_for total_paise
    require_reservation select assert_transition can_transition transitions any
    assert_held_room_free assert_room_free occupies_room assert_type_capacity assert_nights
    overlapping_stays occupying_overlap filter count_of counts_for_type sold_on sellable_on
    nights_between add_days set_reservation update_row record_event set_room_status
update-NoDoubleBooking_example =
    update-NoDoubleBooking hotel none 1 1 later_stay none hotel_sound refl

check_in-NoDoubleBooking_example :
    NoDoubleBooking
      (committed_db
        (check_in hotel 1 1 none (("guest_id_type", "PASSPORT") ∷ []) none 10 500)).reservations
unfolding check_in require_room covers_date is_assignable put_all require_reservation select
    assert_transition can_transition transitions any assert_held_room_free assert_room_free
    occupies_room assert_type_capacity assert_nights overlapping_stays occupying_overlap filter
    count_of counts_for_type sold_on sellable_on nights_between add_days set_reservation update_row
    record_event set_room_status
check_in-NoDoubleBooking_example =
    check_in-NoDoubleBooking hotel 1 1 none (("guest_id_type", "PASSPORT") ∷ []) none 10 500
      hotel_sound refl

move_room-NoDoubleBooking_example :
    NoDoubleBooking (committed_db (move_room hotel 1 5 4 none none)).reservations
unfolding move_room require_room move_rate vacate is_assignable total_paise require_reservation
    select assert_transition can_transition transitions any assert_held_room_free assert_room_free
    occupies_room assert_type_capacity assert_nights overlapping_stays occupying_overlap filter
    count_of counts_for_type sold_on sellable_on nights_between add_days set_reservation update_row
    record_event set_room_status
move_room-NoDoubleBooking_example = move_room-NoDoubleBooking hotel 1 5 4 none none hotel_sound refl

swap_rooms-NoDoubleBooking_example :
    NoDoubleBooking (committed_db (swap_rooms hotel 1 1 4 none)).reservations
unfolding swap_rooms require_reservation select assert_transition can_transition transitions any
    assert_held_room_free assert_room_free occupies_room assert_type_capacity assert_nights
    overlapping_stays occupying_overlap filter count_of counts_for_type sold_on sellable_on
    nights_between add_days set_reservation update_row record_event set_room_status
swap_rooms-NoDoubleBooking_example = swap_rooms-NoDoubleBooking hotel 1 1 4 none hotel_sound refl

abbrev planned_db : Outcome Refusal (Db × List Placement) → Db
planned_db (ok t) = t.0
planned_db (refused e) = hotel

auto_allocate-NoDoubleBooking_example :
    NoDoubleBooking (planned_db (auto_allocate hotel 1 9 12 false none)).reservations
unfolding auto_allocate allocate choose_room place pending_arrivals offerable_rooms order_by
    insert_by pending_overlap codes_leb require_reservation select assert_transition can_transition
    transitions any assert_held_room_free assert_room_free occupies_room assert_type_capacity
    assert_nights overlapping_stays occupying_overlap filter count_of counts_for_type sold_on
    sellable_on nights_between add_days set_reservation update_row record_event set_room_status
auto_allocate-NoDoubleBooking_example =
    auto_allocate-NoDoubleBooking hotel 1 9 12 false none hotel_sound refl

abbrev open_night : RateDay
open_night = record {
  property_id = 1;
  room_type_id = 1;
  rate_plan_id = none;
  date = 18;
  price_paise = some 650000;
  available = some 3;
  min_los = none;
  max_los = none;
  stop_sell = false;
  closed_to_arrival = false;
  closed_to_departure = false;
}

abbrev priced_hotel : Db
priced_hotel = record hotel { rate_days = open_night ∷ [] }

open_night-Sole : Sole (DayKey 1 1 none 18) priced_hotel.rate_days open_night
unfolding DayKey
open_night-Sole = singleton-Sole (DayKey 1 1 none 18) open_night (refl, refl, refl, refl)

create-on_sale_example : open_night.stop_sell ≡ false
unfolding create create_attempts retry_taken booking_attempt check_booking insert_reservation
    new_reservation rules_for booked_rate booked_total nightly_quote resolve_rate round_div
    require_room_type require_room assert_date_order codes_eq format_reservation_number pad_start
    decimal sum_of total_paise require_reservation select assert_transition can_transition
    transitions any assert_held_room_free assert_room_free occupies_room assert_type_capacity
    assert_nights overlapping_stays occupying_overlap filter count_of counts_for_type sold_on
    sellable_on nights_between add_days set_reservation update_row record_event set_room_status
    rates_service nightly_prices assert_window overrides_in order_by price_of day_rows day_of
    day_rules nights_from rules_on rule_of assert_rules assert_on_sale
create-on_sale_example =
    create-on_sale priced_hotel 1 walk_in none 9 100 18 open_night
      {db' = committed_db
        (create priced_hotel (some (rates_service priced_hotel)) 1 walk_in none 9 100)}
      refl refl (omega arith) (omega arith) open_night-Sole

abbrev priced : Outcome Refusal (List NightPrice) → List NightPrice
priced (ok nights) = nights
priced (refused e) = []

nightly_prices-eq-ok_example :
    (n : NightPrice) × In n (priced (nightly_prices priced_hotel 1 1 17 20 none))
    × (n.date ≡ 18)
    × (n.price_paise ≡ 650000)
    × (count_of (λ m. m.date == 18) (priced (nightly_prices priced_hotel 1 1 17 20 none)) ≡ 1)
    × (17 < 20)
    × (20 - 17 ≤ 400)
unfolding nightly_prices assert_window overrides_in order_by price_of day_rows day_of nights_from
    select filter
nightly_prices-eq-ok_example =
    nightly_prices-eq-ok priced_hotel 1 1 17 20 18 none open_night 650000 refl (omega arith)
      (omega arith) open_night-Sole refl
