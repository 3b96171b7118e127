-- ===== src/Travel/Journey/Calls.antt =====
-- Any call on a travel order, as the database after it: what is committed when the call returns, and the
-- tables of before when it raises, but for a refused scan, whose record is committed.
use python_server.Base.{ℕ, Bool, List, [], ◌∷◌, Text, Result, ok, err}
use python_server.Travel.Model.{TravelOrder, Actor, TravelDb}
use python_server.Travel.Cancel.{cancel_travel_order}
use python_server.Travel.Journey.{Desk}
use python_server.Travel.Journey.Traveller.{
  SignPayload, PickupPayload, sign_travel_contract, submit_travel_pickup_info,
  confirm_travel_pickup,
}
use python_server.Travel.Journey.Office.{
  SchedulePayload, review_order_contract, schedule_order_pickup, issue_order_qr,
}
use python_server.Travel.Journey.Trip.{
  Scan, check_in_order, start_order_trip, complete_order, mark_order_exception,
}
use python_server.Travel.Journey.Exchange.{exchange_travel_route}

pub data Call : Type 0 where
  exchange : (now now' now'' route_id : ℕ) (travel_date idempotency_key : Text) → Actor → Call
  sign : Desk → (order_id : ℕ) → SignPayload → Actor → Call
  submit : (order_id : ℕ) → PickupPayload → Actor → Call
  confirm : Desk → (order_id : ℕ) → Actor → Call
  cancel : (now order_id : ℕ) → Actor → (reason : Text) → (admin_override : Bool) → Call
  review : Desk → (order_id : ℕ) → (approved : Bool) → (reject_reason : Text) → Actor → Call
  schedule : (order_id : ℕ) → SchedulePayload → Actor → Call
  issue : Desk → (order_id : ℕ) → Actor → Call
  check_in : Desk → (order_id : ℕ) → Scan → Actor → Call
  start : (order_id : ℕ) → Actor → Call
  complete : Desk → (order_id : ℕ) → Actor → Call
  mark_exception : (order_id : ℕ) → (reason : Text) → Actor → Call

abbrev pub committed : TravelDb → Result (TravelOrder × TravelDb) → TravelDb
committed db (ok r) = r.1
committed db (err e) = db

-- The database that a call rolls back to is the one it began with.
unfoldable pub run_call : Call → TravelDb → TravelDb
run_call (Call.exchange now now' now'' route_id travel_date key actor) db =
    committed db (exchange_travel_route now now' now'' route_id travel_date key actor db db)
run_call (Call.sign desk id p actor) db = committed db (sign_travel_contract desk id p actor db)
run_call (Call.submit id p actor) db = committed db (submit_travel_pickup_info id p actor db)
run_call (Call.confirm desk id actor) db = committed db (confirm_travel_pickup desk id actor db)
run_call (Call.cancel now id actor reason admin_override) db =
    committed db (cancel_travel_order now id actor reason admin_override db db)
run_call (Call.review desk id approved reject_reason actor) db =
    committed db (review_order_contract desk id approved reject_reason actor db)
run_call (Call.schedule id p actor) db = committed db (schedule_order_pickup id p actor db)
run_call (Call.issue desk id actor) db = committed db (issue_order_qr desk id actor db)
run_call (Call.check_in desk id scan actor) db = (check_in_order desk id scan actor db).0
run_call (Call.start id actor) db = committed db (start_order_trip id actor db)
run_call (Call.complete desk id actor) db = committed db (complete_order desk id actor db)
run_call (Call.mark_exception id reason actor) db =
    committed db (mark_order_exception id reason actor db)

unfoldable pub run_calls : List Call → TravelDb → TravelDb
run_calls [] db = db
run_calls (c ∷ cs) db = run_calls cs (run_call c db)
