-- ===== src/Lib.antt =====
-- Tavelo's hotel operations backend (a NestJS application over PostgreSQL): its reservations engine,
-- the guest folio, GST, housekeeping and work orders, the store, the restaurant, the cash book,
-- direct billing and the travel desk.
--
-- The services keep their state in the database, so the model's state is the record `Db` of
-- Schema.antt: a list of rows for each table that the modelled code reads or writes, with the
-- columns that it decides by. A service method is a function from the database and its arguments to
-- an outcome: the database that its transaction commits, or the refusal that it throws, which rolls
-- everything back. `checkOut` commits a payment before it may refuse, so its result has the database
-- on every branch. Keys that the database generates, the clock and today's date are arguments.
--
-- - Schema: src/database/schema (reservations.ts, rooms.ts, housekeeping.ts, folio.ts, pms.ts,
--   owner.ts, ops.ts, restaurant.ts) and the errors of the services (…-errors.ts).
-- - Reservation/Rules: src/modules/reservations/reservation-rules.ts.
-- - Reservation/Availability, Booking, Changes, InHouse, Swaps, Departure, Writes:
--   src/modules/reservations/reservations.service.ts, a function for each method under its name in
--   snake case (`assertRoomFree` is `assert_room_free`, `checkOut` is `check_out`).
-- - Reservation/Clash, Decision, Safety: the invariant of the reservations table and its proofs;
--   Reservation/History: committed calls as steps and their sequences; Reservation/Life: what a call
--   does to a booking's status; Reservation/Nights, Frames, Settlement: the other laws.
-- - Billing/Gst: src/modules/billing/gst.ts.
-- - Rates: src/modules/rates/rates.service.ts, the nightly prices and the day rules; Rates/Rows,
--   Laws: their laws.
-- - Folio/Charges, Receipts, Summary: src/modules/folio/folio.service.ts; Folio/Lines, Payments:
--   their laws.
-- - Housekeeping: src/modules/housekeeping/task-transitions.ts and housekeeping.service.ts, whose
--   check-out hook `create_checkout_clean_for_room` runs inside `check_out`.
-- - Maintenance: src/modules/housekeeping/work-order-transitions.ts and work-orders.service.ts, which
--   take rooms out of service; Maintenance/Barred sets them against the front desk.
-- - Inventory: src/modules/inventory/inventory-rules.ts and items.service.ts; Inventory/Orders:
--   purchase-orders.service.ts; Inventory/Ledger, Receipt, Calls, Received: their laws.
-- - Restaurant: src/modules/restaurant/restaurant-rules.ts; Restaurant/Orders and Settle:
--   orders.service.ts, with tables.service.ts where an order moves its table. `settle` calls
--   `post_charge` of the folio, `charge_account`, `record_cash` and `apply_movement`.
-- - Cash: src/modules/cash/cash.service.ts. DirectBilling:
--   src/modules/direct-billing/direct-billing.service.ts.
-- - TravelDesk: src/modules/travel-desk/transport-rules.ts and transport.service.ts.
-- - Scenarios: runs on a small hotel.
-- - Base: tests, lists, tables, outcomes, decimal digits and integers.
--
-- An amount of money is a number of paise: natural where the source's columns and guards keep it so,
-- an integer where refunds, credits and discounts make it negative. An ISO date is the number of its
-- day, so that a comparison of date strings is a comparison of numbers. The retries of `create` are
-- the source's five attempts. No other loop needs fuel: each runs over a list or a number of nights.
--
-- `create` and `update` take the rates service as an interface or as absent, as the source does, and
-- `rates_service` of Rates.antt fills it; the grid's edits are not modelled. The restaurant's tax is an
-- argument, a whole number of percent, and the two side ledgers that `settle` may lack are there. Not
-- modelled: the reads that only shape responses (lists, DTOs, search), realtime and notification side
-- effects, the columns of free text, the limits of 32-bit columns, and the other modules.
-- A transaction is one step: two that run at once are one after the other.
pub mod Base
pub mod Schema
pub mod Billing
pub mod Folio
pub mod Cash
pub mod DirectBilling
pub mod Housekeeping
pub mod Inventory
pub mod Maintenance
pub mod Restaurant
pub mod TravelDesk
pub mod Reservation
pub mod Rates
pub mod Scenarios
