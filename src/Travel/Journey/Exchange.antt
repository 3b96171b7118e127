-- ===== src/Travel/Journey/Exchange.antt =====
-- `exchange_travel_route` of app/api/travel_orders.py: a place on a route for points. `saved` is what
-- other sessions have committed when the session starts anew after a conflict.
use python_server.Base.{
  ℕ, ◌+◌, ◌/◌, ◌==◌, Bool, true, false, not, ◌&&◌, none, some, [], ◌∷◌, ◌++◌, Text, codes, text_eq,
  decimal, ltb, if◌then◌else◌, find, strip, Error, Result, ok, err, ◌>>=◌, not_found, bad_request,
  integrity_error, user_not_found,
}
use python_server.Base.Int.{pos, ◌-ℤ◌, ltb_ℤ}
use python_server.Points.Model.{User, Ledger, Session, Posting}
use python_server.Points.Debit.{debit_locked}
use python_server.Orders.Model.{Db, find_user, points_session, end_session}
use python_server.Travel.Model.{
  Fulfillment, TravelStatus, ContractStatus, Contract, Pickup, TravelOrder, Route, AuditStatus,
  Evidence, Actor, TravelDb, set_route,
}
use python_server.Travel.Journey.{audit_row}

-- The order of a user under an idempotency key.
abbrev pub exchanged_by : ℕ → Text → TravelOrder → Bool
exchanged_by user_id key o = (o.user_id == user_id) && text_eq o.idempotency_key key

abbrev pub open_route : ℕ → Route → Bool
open_route route_id r = (r.id == route_id) && (r.status && r.approved)

-- The columns' defaults.
abbrev pub new_contract : Contract
new_contract = record {
  status = ContractStatus.unsigned;
  signer_name = [];
  signer_phone = [];
  id_no = [];
  template_version = 0;
  template_snapshot_id = 0;
  signature_data = [];
  signature_url = [];
  signed_at = none;
  reviewed_at = none;
  reject_reason = [];
}

abbrev pub new_pickup : Pickup
new_pickup = record {
  address = [];
  detail = [];
  traveler_count = 1;
  emergency_contact = [];
  emergency_phone = [];
  luggage_count = 0;
  note = [];
  time = [];
  location = [];
  driver_name = [];
  driver_phone = [];
  vehicle_no = [];
  notice = [];
  confirmed_at = none;
}

-- `int(route.price or 0)`: whole points.
abbrev pub required_points : Route → ℕ
required_points r = r.price / 100

abbrev pub exchange_order : Actor → Text → Text → Route → TravelDb → TravelOrder
exchange_order actor travel_date key r db = record {
  id = db.next_order;
  order_no = codes "TR" ++ decimal db.shared.issued;
  user_id = actor.id;
  user_no = actor.user_no;
  route_id = r.id;
  order_type = codes "points_exchange";
  title = r.name;
  user_name = actor.nickname;
  phone = actor.phone;
  travel_date = strip travel_date;
  agency = r.agency;
  amount_text = decimal (required_points r) ++ codes " 积分";
  cover = r.image;
  idempotency_key = key;
  points_cost = pos (required_points r);
  points_refunded = false;
  stock_restored = false;
  status = TravelStatus.created;
  fulfillment_status = Fulfillment.contract_pending;
  qr_token = [];
  qr_issued_at = none;
  qr_expires_at = none;
  contract = new_contract;
  pickup = new_pickup;
  checked_in_at = none;
  completed_at = none;
  exception_reason = [];
  cancelled_at = none;
  cancel_reason = [];
}

abbrev pub exchange_posting : Route → TravelOrder → Posting
exchange_posting r o = record {
  biz_type = codes "travel_exchange";
  biz_id = o.id;
  biz_no = o.order_no;
  idempotency_key = codes "travel-exchange:" ++ o.order_no;
  remark = codes "兑换旅行路线：" ++ r.name;
}

-- The order number takes an id of the generator.
abbrev pub numbered : Db → Db
numbered db = record db { issued = db.issued + 1 }

-- The points of the route, at the three readings of the clock within the debit.
unfoldable pub pay_points : ℕ → ℕ → ℕ → User → Route → TravelOrder → Db → Result Db
pay_points now now' now'' u r o db =
    if ltb 0 (required_points r)
    then (debit_locked now now' now'' (pos (required_points r)) (exchange_posting r o)
          (points_session u db)
        >>= λ (p : Ledger × Session). ok (end_session p.1 db))
    else ok db

abbrev pub place_order : Actor → Route → TravelOrder → TravelDb → Db → TravelOrder × TravelDb
place_order actor r o db shared = (
  o,
  record db {
    shared = shared;
    orders = o ∷ db.orders;
    routes = set_route (record r { stock = r.stock -ℤ pos 1 }) db.routes;
    audits =
        audit_row o (codes "order_created") AuditStatus.unset
          (AuditStatus.of_order Fulfillment.contract_pending) actor []
          (Evidence.exchange r.id (required_points r))
        ∷ db.audits;
    next_order = db.next_order + 1;
  },
)

unfoldable pub exchange_open :
    ℕ → ℕ → ℕ → Text → Text → Actor → User → TravelDb → Route → Result (TravelOrder × TravelDb)
exchange_open now now' now'' travel_date key actor u db r =
    let o = exchange_order actor travel_date key r db in
    if not (ltb_ℤ (pos 0) r.stock)
    then err bad_request
    else (pay_points now now' now'' u r o (numbered db.shared) >>= λ shared.
        ok (place_order actor r o db shared))

abbrev pub is_conflict : Error → Bool
is_conflict integrity_error = true
is_conflict _ = false

-- A conflict is answered by the order that is there by then.
abbrev pub after_conflict :
    Actor → Text → TravelDb → Result (TravelOrder × TravelDb) → Result (TravelOrder × TravelDb)
after_conflict actor key saved (ok r) = ok r
after_conflict actor key saved (err e) =
    if is_conflict e
    then elim (find (exchanged_by actor.id key) saved.orders) [
      | some existing ↦ ok (existing, saved)
      | none ↦ err e
    ]
    else err e

unfoldable pub exchange_new :
    ℕ → ℕ → ℕ → ℕ → Text → Text → Actor → TravelDb → TravelDb → Result (TravelOrder × TravelDb)
exchange_new now now' now'' route_id travel_date key actor saved db =
    elim (find_user actor.id db.shared.users) [
      | none ↦ err user_not_found
      | some u ↦ elim (find (open_route route_id) db.routes) [
        | none ↦ err not_found
        | some r ↦
            after_conflict actor key saved
              (exchange_open now now' now'' travel_date key actor u db r)
      ]
    ]

-- `exchange_travel_route`. The second look for an order, under the lock, is the first one again in a
-- model where nothing happens between the two.
unfoldable pub exchange_travel_route :
    ℕ
    → ℕ
    → ℕ
    → (route_id : ℕ) → (travel_date idempotency_key : Text) → Actor
    → (saved db : TravelDb) → Result (TravelOrder × TravelDb)
exchange_travel_route now now' now'' route_id travel_date idempotency_key actor saved db =
    elim (find (exchanged_by actor.id (strip idempotency_key)) db.orders) [
      | some existing ↦ ok (existing, db)
      | none ↦
          exchange_new now now' now'' route_id travel_date (strip idempotency_key) actor saved db
    ]
