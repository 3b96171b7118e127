-- ===== src/Travel/Cancel.antt =====
-- `cancel_travel_order` of app/services/travel_order_service.py. The readings of the clock within a call
-- are one value, `now`; `saved` is the database as it was last committed.
pub mod Once
pub mod Points
pub mod Returned
pub mod Succeeds
use python_server.Base.{
  ℕ, ◌+◌, ◌*◌, max, Bool, true, false, not, ◌&&◌, Option, none, some, List, [], ◌∷◌, ◌++◌, Text,
  codes, ◌==◌, if◌then◌else◌, find, text_eq, strip, Result, ok, err, ◌>>=◌, user_not_found,
  travel_order_not_found, travel_order_not_cancellable, travel_order_requires_admin_cancel,
}
use python_server.Base.Int.{ℤ, pos, ◌+ℤ◌, ltb_ℤ}
use python_server.Points.Model.{User, Ledger, Session, Posting}
use python_server.Points.Credit.{credit_locked}
use python_server.Points.Refund.{took_points, refund_locked}
use python_server.Orders.Model.{Db, PointRule, day, find_user, points_session, end_session}
use python_server.Travel.Model.{
  Fulfillment, TravelStatus, TravelOrder, Route, AuditStatus, Evidence, AuditLog, Actor, TravelDb,
  find_travel, set_travel, find_route, set_route,
}

-- USER_CANCELLABLE_STATUSES and NON_CANCELLABLE_STATUSES.
abbrev pub user_cancellable : Fulfillment → Bool
user_cancellable Fulfillment.contract_pending = true
user_cancellable Fulfillment.contract_reviewing = true
user_cancellable Fulfillment.contract_rejected = true
user_cancellable Fulfillment.info_pending = true
user_cancellable Fulfillment.info_submitted = true
user_cancellable _ = false

abbrev pub non_cancellable : Fulfillment → Bool
non_cancellable Fulfillment.checked_in = true
non_cancellable Fulfillment.in_trip = true
non_cancellable Fulfillment.completed = true
non_cancellable _ = false

abbrev pub is_cancelled : Fulfillment → Bool
is_cancelled Fulfillment.cancelled = true
is_cancelled _ = false

-- `max(1, int(rule.valid_days if rule else 365))`
abbrev pub fallback_days : Option PointRule → ℕ
fallback_days none = 365
fallback_days (some rule) = max 1 rule.valid_days

abbrev pub refund_posting : Bool → TravelOrder → Posting
refund_posting historic o = record {
  biz_type = codes "travel_exchange_refund";
  biz_id = o.id;
  biz_no = o.order_no;
  idempotency_key = codes "travel-exchange-refund:" ++ o.order_no;
  remark = if historic then codes "取消历史旅行兑换，退回积分" else codes "取消旅行兑换，退回积分";
}

-- The points go back by the row that took them, or as a credit where there is none. The key is shorter
-- than its column, so the rollback inside `credit_locked` is not taken.
unfoldable pub refund_points : ℕ → TravelOrder → User → Db → Db → Result (Ledger × Session)
refund_points now o u saved db =
    let fallback = some (now + fallback_days db.rule * day) in
    elim (find (took_points u.id (codes "travel_exchange") o.order_no) db.ledgers) [
      | some original ↦
          refund_locked now (codes "travel_exchange") fallback (refund_posting false o)
            (points_session u db)
      | none ↦
          credit_locked (points_session u saved) o.points_cost (refund_posting true o) fallback
            (points_session u db)
    ]

abbrev pub owes_points : TravelOrder → Bool
owes_points o =
    text_eq o.order_type (codes "points_exchange")
    && (ltb_ℤ (pos 0) o.points_cost && not o.points_refunded)

unfoldable pub return_points : ℕ → TravelOrder → Db → Db → Result (TravelOrder × Db)
return_points now o saved db =
    if owes_points o
    then elim (find_user o.user_id db.users) [
      | none ↦ err user_not_found
      | some u ↦
          (refund_points now o u saved db >>= λ r.
          ok (record o { points_refunded = true }, end_session r.1 db))
    ]
    else ok (o, db)

abbrev pub owes_place : TravelOrder → Bool
owes_place o = not (o.route_id == 0) && not o.stock_restored

-- The place goes back to the route.
unfoldable pub return_place : TravelOrder → List Route → TravelOrder × List Route
return_place o routes =
    if owes_place o
    then (
      record o { stock_restored = true },
      elim (find_route o.route_id routes) [
        | none ↦ routes
        | some r ↦ set_route (record r { stock = r.stock +ℤ pos 1 }) routes
      ],
    )
    else (o, routes)

abbrev pub cancelled_order : ℕ → Text → TravelOrder → TravelOrder
cancelled_order now reason o = record o {
  fulfillment_status = Fulfillment.cancelled;
  status = TravelStatus.cancelled;
  cancelled_at = some now;
  cancel_reason = strip reason;
  qr_token = [];
  qr_expires_at = none;
}

-- `add_travel_audit` of a cancellation.
abbrev pub cancel_audit : Fulfillment → Actor → Text → TravelOrder → AuditLog
cancel_audit previous actor reason o = record {
  order_id = o.id;
  order_no = o.order_no;
  event_type = codes "order_cancelled";
  from_status = AuditStatus.of_order previous;
  to_status = AuditStatus.of_order Fulfillment.cancelled;
  actor_role = actor.role;
  actor_id = actor.id;
  actor_name = actor.nickname;
  reason = reason;
  evidence = Evidence.cancellation o.points_refunded o.stock_restored;
}

-- The order's changes once its points are back.
unfoldable pub close_order :
    ℕ → Actor → Text → Fulfillment → TravelDb → TravelOrder × Db → TravelOrder × TravelDb
close_order now actor reason previous db (o, shared) =
    let (o', routes) : TravelOrder × List Route = return_place o db.routes in
    let o'' = cancelled_order now reason o' in
    (
      o'',
      record db {
        shared = shared;
        orders = set_travel o'' db.orders;
        routes = routes;
        audits = cancel_audit previous actor reason o'' ∷ db.audits;
      },
    )

unfoldable pub cancel_found :
    ℕ → Actor → Text → Bool → TravelOrder → TravelDb → TravelDb → Result (TravelOrder × TravelDb)
cancel_found now actor reason admin_override o saved db =
    if not admin_override && not (o.user_id == actor.id)
    then err travel_order_not_found
    else if is_cancelled o.fulfillment_status
    then ok (o, db)
    else if non_cancellable o.fulfillment_status
    then err travel_order_not_cancellable
    else if not admin_override && not (user_cancellable o.fulfillment_status)
    then err travel_order_requires_admin_cancel
    else (return_points now o saved.shared db.shared >>= λ r.
        ok (close_order now actor reason o.fulfillment_status db r))

-- `cancel_travel_order`
unfoldable pub cancel_travel_order :
    ℕ → ℕ → Actor → Text → Bool → TravelDb → TravelDb → Result (TravelOrder × TravelDb)
cancel_travel_order now order_id actor reason admin_override saved db =
    elim (find_travel order_id db.orders) [
      | none ↦ err travel_order_not_found
      | some o ↦ cancel_found now actor reason admin_override o saved db
    ]
