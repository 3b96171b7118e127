-- ===== src/Travel/Journey/Tests.antt =====
-- A place bought, a contract signed and a trip taken.
use python_server.Base.{
  ℕ, Bool, ◌≡◌, refl, ◌∷◌, none, some, [], codes, arith, true, false, ok, Ensures, All, value_or,
  text_eq, decimal, map, Option, List,
}
use python_server.Base.Int.{pos, ◌-ℤ◌, ◌+ℤ◌}
use python_server.Points.Model.{active, Lot, User}
use python_server.Points.Rows.{ledger_row, flush_ledger, add_lot}
use python_server.Points.Expire.{expire_due_locked, expire_found, ensure_lot_coverage}
use python_server.Points.Debit.{consume, spend, debit, debit_locked}
use python_server.Points.Invariant.{IsSound}
use python_server.Orders.Model.{points_session}
use python_server.Orders.Tests.{buyer, shop}
use python_server.Travel.Model.{Fulfillment, TravelOrder, Actor, TravelDb, find_travel}
use python_server.Travel.Cancel.{
  cancel_travel_order, cancel_found, return_points, refund_points, close_order, return_place,
}
use python_server.Points.Refund.{refund_locked, give_back}
use python_server.Travel.Cancel.Points.{points_of}
use python_server.Travel.Cancel.Returned.{places_of}
use python_server.Travel.Tests.{route, office, traveller, trip}
use python_server.Travel.Journey.{Desk}
use python_server.Travel.Journey.Traveller.{
  SignPayload, PickupPayload, sign_travel_contract, submit_travel_pickup_info,
  confirm_travel_pickup,
}
use python_server.Travel.Journey.Office.{
  SchedulePayload, review_order_contract, schedule_order_pickup, issue_order_qr,
}
use python_server.Travel.Journey.Trip.{
  Scan, check_in_order, start_order_trip, complete_order, mark_order_exception,
}
use python_server.Travel.Journey.Exchange.{
  numbered, pay_points, exchange_open, exchange_new, exchange_travel_route,
}
use python_server.Travel.Journey.Calls.{Call, run_call, run_calls}
use python_server.Travel.Journey.Stages.{Kind, InOrder, Evolves}
use python_server.Travel.Journey.Refines.{run_call-Evolves}
use python_server.Travel.Journey.Lasting.{run_calls-InOrder}
use python_server.Travel.Journey.CheckIn.{Ends, check_in_order-Ends}
use python_server.Travel.Journey.Charged.{Answers, exchange_travel_route-Charges}

abbrev pub desk : Desk
desk = record {
  now = 500;
  today = 10;
  fresh_token = codes "code";
  departure = λ s. none;
  iso_date = λ s. some 12;
  sha256 = λ s. s;
  template = record { version = 2; snapshot_id = 5; travel_date_days = 0 };
  save_signature = λ image order_no user_id. ok (codes "/assets/1");
}

abbrev clerk : Actor
clerk = record { id = 9; role = codes "admin"; nickname = codes "clerk"; user_no = []; phone = [] }

abbrev owner : User
owner = record buyer { points = 100 }

abbrev lot : Lot
lot = record {
  id = 1;
  user_id = 1;
  source_ledger_id = 0;
  original_amount = 100;
  remaining_amount = 100;
  expires_at = none;
  status = active;
}

-- A user with points, and a route with one place.
abbrev counter : TravelDb
counter = record office {
  shared = record shop { users = owner ∷ []; lots = lot ∷ []; next_lot = 2 };
  orders = [];
  routes = record route { stock = pos 1 } ∷ [];
  next_order = 1;
}

calls : Unit {0}
unfolding exchange_travel_route exchange_new exchange_open pay_points debit_locked debit spend
    consume expire_due_locked expire_found ensure_lot_coverage ledger_row flush_ledger add_lot
    text_eq decimal ◌-ℤ◌ ◌+ℤ◌ run_call run_calls sign_travel_contract submit_travel_pickup_info
    confirm_travel_pickup review_order_contract schedule_order_pickup issue_order_qr check_in_order
    start_order_trip complete_order mark_order_exception cancel_travel_order
calls = tt

abbrev bought : TravelOrder × TravelDb
unfolding calls
bought =
    value_or (trip, counter)
      (exchange_travel_route 500 500 500 8 [] (codes " key-of-trip ") traveller counter counter)

bought_points : points_of 1 bought.1.shared.users ≡ some 60
unfolding calls
bought_points = refl

bought_places : places_of 8 bought.1.routes ≡ some (pos 0)
unfolding calls
bought_places = refl

abbrev signing : SignPayload
signing = record {
  signer_name = codes "name";
  signer_phone = codes "555000";
  id_no = codes "1";
  travel_date = codes "2026/01/13";
  signature_data = codes "data:";
}

abbrev pickup : PickupPayload
pickup = record {
  pickup_address = codes "street";
  pickup_detail = [];
  traveler_count = 1;
  emergency_contact = codes "friend";
  emergency_phone = codes "555001";
  luggage_count = 0;
  pickup_note = [];
}

abbrev plan : SchedulePayload
plan = record {
  pickup_time = codes "9";
  pickup_location = codes "gate";
  driver_name = [];
  driver_phone = [];
  vehicle_no = [];
  pickup_notice = [];
}

abbrev scan : Scan
scan = record { token = codes "code"; device = []; location = [] }

abbrev booking : List Call
booking =
    Call.exchange 500 500 500 8 [] (codes "key-of-trip") traveller
    ∷ Call.sign desk 1 signing traveller
    ∷ Call.review desk 1 true [] clerk
    ∷ Call.submit 1 pickup traveller
    ∷ Call.schedule 1 plan clerk
    ∷ Call.confirm desk 1 traveller
    ∷ []

abbrev travelling : List Call
travelling = Call.check_in desk 1 scan clerk ∷ Call.start 1 clerk ∷ Call.complete desk 1 clerk ∷ []

abbrev status_of : ℕ → TravelDb → Option Fulfillment
status_of id db = elim (find_travel id db.orders) [
  | none ↦ none
  | some o ↦ some o.fulfillment_status
]

abbrev booked : TravelDb
unfolding calls
booked = run_calls booking counter

booked_status : status_of 1 booked ≡ some Fulfillment.user_confirmed
unfolding calls
booked_status = refl

abbrev home : TravelDb
unfolding calls
home = run_calls travelling booked

home_status : status_of 1 home ≡ some Fulfillment.completed
unfolding calls
home_status = refl

-- A contract that is refused after the order was cancelled puts the order back to signing, its points refunded.
abbrev refusal : List Call
refusal =
    Call.exchange 500 500 500 8 [] (codes "key-of-trip") traveller
    ∷ Call.sign desk 1 signing traveller
    ∷ Call.cancel 500 1 traveller (codes "ill") false
    ∷ Call.review desk 1 false (codes "unreadable") clerk
    ∷ []

run_call-Evolves_example :
    Evolves Kind.signing counter.orders
      (run_call (Call.sign desk 1 signing traveller) counter).orders
run_call-Evolves_example = run_call-Evolves (Call.sign desk 1 signing traveller) counter

run_calls-InOrder_example : All InOrder (run_calls booking counter).orders
run_calls-InOrder_example = run_calls-InOrder booking counter tt

refused_after_cancel :
    map {B = Fulfillment × Bool}
      (λ (o : TravelOrder). (o.fulfillment_status, o.points_refunded))
      (run_calls refusal counter).orders
    ≡ (Fulfillment.contract_rejected, true) ∷ []
unfolding calls cancel_found return_points refund_points refund_locked give_back close_order
    return_place
refused_after_cancel = refl

abbrev ticket : TravelOrder
ticket = record trip { fulfillment_status = Fulfillment.qr_issued; qr_token = codes "code" }

abbrev gate : TravelDb
gate = record office { orders = ticket ∷ [] }

check_in_order-Ends_example : Ends desk scan ticket gate (check_in_order desk 3 scan clerk gate)
check_in_order-Ends_example = check_in_order-Ends desk scan clerk gate 3 ticket refl

owner-IsSound : IsSound (points_session owner (numbered counter.shared))
owner-IsSound = record {
  lot_ids = (omega arith, tt);
  ledger_ids = tt;
  bookings = tt;
  balanced = tt;
  current = tt;
}

exchange_travel_route-Charges_example :
    Ensures
      (Answers 500 (codes "key-of-trip") owner (record route { stock = pos 1 }) counter counter)
      (exchange_travel_route 500 500 500 8 [] (codes " key-of-trip ") traveller counter counter)
exchange_travel_route-Charges_example =
    exchange_travel_route-Charges 500 500 500 8 [] (codes " key-of-trip ") traveller owner
      (record route { stock = pos 1 }) counter counter refl refl refl owner-IsSound refl
