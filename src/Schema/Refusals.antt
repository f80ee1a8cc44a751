-- ===== src/Schema/Refusals.antt =====
-- The typed errors that the services throw (the `…-errors.ts` files): one constructor for a code,
-- with the argument that its message shows where a theorem needs it.
use travelo.Base.{ℕ}
use travelo.Base.Int.{ℤ}

pub data Refusal : Type 0 where
  reservation_not_found room_not_found room_type_not_found room_unavailable : Refusal
  no_availability : ℕ → Refusal
  restricted : ℕ → Refusal
  balance_outstanding : ℤ → Refusal
  extension_must_be_later not_in_house same_room room_not_ready room_required : Refusal
  swap_self room_is_locked room_type_mismatch invalid_transition invalid_dates : Refusal
  not_arrival_day no_room_assigned dates_locked nothing_to_update : Refusal
  invalid_window : Refusal
  -- PostgreSQL's 23505
  unique_violation : Refusal
  task_not_found staff_not_found location_required not_your_task invalid_task_transition : Refusal
  work_order_not_found invalid_work_order_transition resolution_required cancel_reason_required :
      Refusal
  item_not_found supplier_not_found po_not_found duplicate_sku negative_stock zero_adjustment :
      Refusal
  invalid_po_transition po_not_receivable po_not_editable empty_po : Refusal
  -- PostgreSQL's 25P02: a statement in a transaction that an error has aborted
  transaction_aborted : Refusal
  order_not_found order_item_not_found table_not_found table_unavailable table_occupied : Refusal
  order_not_open order_not_billed menu_item_not_found item_unavailable item_cancel_too_late :
      Refusal
  kot_not_permitted invalid_kot_transition invalid_order_transition empty_bill : Refusal
  reservation_required reservation_not_in_house corporate_account_required order_has_served_items :
      Refusal
  amount_not_positive shift_already_open no_open_shift corporate_account_not_found : Refusal
  request_not_found vehicle_not_found driver_required not_assignable not_your_trip : Refusal
  invalid_transport_transition invalid_driver_step : Refusal
