-- ===== src/Travel/Tests.antt =====
-- A travel exchange that is cancelled, and the theorems about it.
use python_server.Base.{
  ◌∷◌, ◌≡◌, refl, none, some, [], codes, arith, true, false, err, Ensures, Returns,
  travel_order_not_cancellable, value_or, text_eq, decimal,
}
use python_server.Base.Int.{pos, ◌+ℤ◌}
use python_server.Points.Model.{expense, Ledger}
use python_server.Points.Rows.{ledger_row, flush_ledger, add_lot}
use python_server.Points.Credit.{credit, credit_locked, recover}
use python_server.Points.Refund.{restore, restore_all, give_back, refund_locked}
use python_server.Orders.Tests.{buyer, shop}
use python_server.Travel.Model.{
  Fulfillment, TravelStatus, ContractStatus, Contract, Pickup, TravelOrder, Route, Actor, TravelDb,
}
use python_server.Travel.Cancel.{
  refund_points, return_points, return_place, close_order, cancel_found, cancel_travel_order,
}
use python_server.Travel.Cancel.Points.{points_of}
use python_server.Travel.Cancel.Returned.{GivesBack, places_of, cancel_travel_order-GivesBack}
use python_server.Travel.Cancel.Succeeds.{cancel_travel_order-Returns}

abbrev pub unsigned_contract : Contract
unsigned_contract = record {
  status = ContractStatus.unsigned;
  signer_name = [];
  signer_phone = [];
  id_no = [];
  template_version = 0;
  template_snapshot_id = 0;
  signature_data = [];
  signature_url = [];
  signed_at = none;
  reviewed_at = none;
  reject_reason = [];
}

abbrev pub no_pickup : Pickup
no_pickup = record {
  address = [];
  detail = [];
  traveler_count = 1;
  emergency_contact = [];
  emergency_phone = [];
  luggage_count = 0;
  note = [];
  time = [];
  location = [];
  driver_name = [];
  driver_phone = [];
  vehicle_no = [];
  notice = [];
  confirmed_at = none;
}

abbrev pub trip : TravelOrder
trip = record {
  id = 3;
  order_no = codes "T3";
  user_id = 1;
  user_no = codes "U1";
  route_id = 8;
  order_type = codes "points_exchange";
  title = codes "lake";
  user_name = codes "traveller";
  phone = codes "555000";
  travel_date = [];
  agency = [];
  amount_text = codes "40";
  cover = [];
  idempotency_key = codes "key-of-trip";
  points_cost = pos 40;
  points_refunded = false;
  stock_restored = false;
  status = TravelStatus.created;
  fulfillment_status = Fulfillment.info_pending;
  qr_token = [];
  qr_issued_at = none;
  qr_expires_at = none;
  contract = record unsigned_contract { status = ContractStatus.approved };
  pickup = no_pickup;
  checked_in_at = none;
  completed_at = none;
  exception_reason = [];
  cancelled_at = none;
  cancel_reason = [];
}

abbrev pub route : Route
route = record {
  id = 8;
  stock = pos 0;
  name = codes "lake";
  price = 4000;
  agency = codes "agency";
  image = [];
  status = true;
  approved = true;
}

-- The row of the exchange.
abbrev exchanged : Ledger
exchanged = record {
  id = 1;
  transaction_no = codes "PL0";
  user_id = 1;
  user_no = codes "U1";
  direction = expense;
  amount = 40;
  balance_before = 40;
  balance_after = 0;
  biz_type = codes "travel_exchange";
  biz_id = 3;
  biz_no = codes "T3";
  idempotency_key = codes "travel-exchange:T3";
  remark = [];
}

abbrev pub office : TravelDb
office = record {
  shared = record shop { ledgers = exchanged ∷ []; next_ledger = 2; issued = 1 };
  orders = trip ∷ [];
  routes = route ∷ [];
  audits = [];
  verifications = [];
  next_order = 4;
}

abbrev pub traveller : Actor
traveller = record {
  id = 1;
  role = codes "user";
  nickname = codes "traveller";
  user_no = codes "U1";
  phone = codes "555000";
}

-- Opens the service for a run.
service : Unit {0}
unfolding cancel_travel_order cancel_found close_order return_place return_points refund_points
    refund_locked give_back restore_all restore credit_locked credit recover flush_ledger ledger_row
    add_lot text_eq decimal ◌+ℤ◌
service = tt

abbrev cancelled : TravelOrder × TravelDb
unfolding service
cancelled =
    value_or (trip, office)
      (cancel_travel_order 500 3 traveller (codes " ill ") false office office)

cancelled_points : points_of 1 cancelled.1.shared.users ≡ some 40
unfolding service
cancelled_points = refl

cancelled_places : places_of 8 cancelled.1.routes ≡ some (pos 1)
unfolding service
cancelled_places = refl

cancelled_reason : cancelled.0.cancel_reason ≡ codes "ill"
unfolding service
cancelled_reason = refl

-- A trip that has started is not cancelled, not even by an administrator.
abbrev under_way : TravelDb
under_way = record office { orders = record trip { fulfillment_status = Fulfillment.in_trip } ∷ [] }

started_trip :
    cancel_travel_order 500 3 traveller [] true under_way under_way
    ≡ err travel_order_not_cancellable
unfolding service
started_trip = refl

cancel_travel_order-GivesBack_example :
    Ensures
      (GivesBack trip buyer route office)
      (cancel_travel_order 500 3 traveller (codes " ill ") false office office)
unfolding service
cancel_travel_order-GivesBack_example =
    cancel_travel_order-GivesBack 500 3 traveller (codes " ill ") false trip buyer route office
      office refl refl refl refl (omega arith)

cancel_travel_order-Returns_example :
    Returns (cancel_travel_order 500 3 traveller (codes " ill ") false office office)
cancel_travel_order-Returns_example =
    cancel_travel_order-Returns 500 3 traveller (codes " ill ") false trip buyer office office refl
      refl (omega arith) refl
