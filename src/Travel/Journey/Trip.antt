-- ===== src/Travel/Journey/Trip.antt =====
-- The administrator's calls on a trip (app/api/admin.py): check-in by the code, start, end and exception.
use python_server.Base.{
  ℕ, Bool, true, false, not, ◌||◌, none, some, [], ◌∷◌, Text, codes, text_eq, if◌then◌else◌,
  is_empty, strip, Result, ok, err, ◌>>=◌, not_found, bad_request,
}
use python_server.Travel.Model.{
  Fulfillment, TravelStatus, TravelOrder, AuditStatus, Evidence, Actor, TravelDb, find_travel,
  set_travel,
}
use python_server.Travel.Journey.{Desk, audit_row, verification_row, commit_order}
use python_server.Travel.Journey.Office.{travel_order, may_check_in, expired_by}

-- What the scanner sends.
pub record Scan : Type 0 where
  pub token : Text
  pub device : Text
  pub location : Text

-- The record of a scan.
abbrev pub scanned :
    Desk → Actor → Scan → TravelOrder → (token result reason : Text) → TravelDb → TravelDb
scanned desk actor scan o token result reason db = record db {
  verifications =
      verification_row desk o (codes "verify") token result actor scan.device scan.location reason
      ∷ db.verifications;
}

abbrev pub checked_in_order : Desk → TravelOrder → TravelOrder
checked_in_order desk o = record o {
  checked_in_at = some desk.now;
  fulfillment_status = Fulfillment.checked_in;
  qr_token = [];
}

abbrev pub commit_check_in : Desk → Actor → Scan → TravelOrder → TravelDb → TravelOrder × TravelDb
commit_check_in desk actor scan o db =
    let o' = checked_in_order desk o in
    commit_order o'
      (audit_row o' (codes "travel_checked_in") (AuditStatus.of_order o.fulfillment_status)
        (AuditStatus.of_order Fulfillment.checked_in) actor [] Evidence.nothing)
      (scanned desk actor scan o o.qr_token (codes "success") [] db)

-- A refused scan is committed before the call raises, so a raise carries the state.
abbrev pub check_in_found :
    Desk → Scan → Actor → TravelDb → TravelOrder → TravelDb × Result TravelOrder
check_in_found desk scan actor db o =
    if not (may_check_in o.fulfillment_status)
    then (
      scanned desk actor scan o scan.token (codes "rejected") (codes "订单当前状态不可核销") db,
      err bad_request,
    )
    else if expired_by desk.now false o.qr_expires_at
    then (
      scanned desk actor scan o scan.token (codes "expired") (codes "核销码已过期")
          (record db { orders = set_travel (record o { qr_token = [] }) db.orders }),
      err bad_request,
    )
    else if is_empty o.qr_token || not (text_eq scan.token o.qr_token)
    then (scanned desk actor scan o scan.token (codes "failed") (codes "核销码无效") db, err bad_request)
    else ((commit_check_in desk actor scan o db).1, ok (checked_in_order desk o))

-- `check_in_order`
unfoldable pub check_in_order : Desk → ℕ → Scan → Actor → TravelDb → TravelDb × Result TravelOrder
check_in_order desk order_id scan actor db = elim (find_travel order_id db.orders) [
  | none ↦ (db, err not_found)
  | some o ↦ check_in_found desk scan actor db o
]

abbrev pub may_start : Fulfillment → Bool
may_start Fulfillment.checked_in = true
may_start Fulfillment.in_trip = true
may_start _ = false

abbrev pub start_found : Actor → TravelDb → TravelOrder → Result (TravelOrder × TravelDb)
start_found actor db o =
    if not (may_start o.fulfillment_status)
    then err bad_request
    else ok (
        commit_order (record o { fulfillment_status = Fulfillment.in_trip })
          (audit_row o (codes "trip_started") (AuditStatus.of_order o.fulfillment_status)
            (AuditStatus.of_order Fulfillment.in_trip) actor [] Evidence.nothing)
          db)

-- `start_order_trip`
unfoldable pub start_order_trip : ℕ → Actor → TravelDb → Result (TravelOrder × TravelDb)
start_order_trip order_id actor db = travel_order order_id db >>= start_found actor db

abbrev pub is_completed : Fulfillment → Bool
is_completed Fulfillment.completed = true
is_completed _ = false

abbrev pub completed_order : Desk → TravelOrder → TravelOrder
completed_order desk o = record o {
  fulfillment_status = Fulfillment.completed;
  completed_at = some desk.now;
  status = TravelStatus.completed;
}

abbrev pub complete_found : Desk → Actor → TravelDb → TravelOrder → Result (TravelOrder × TravelDb)
complete_found desk actor db o =
    if not (may_start o.fulfillment_status || is_completed o.fulfillment_status)
    then err bad_request
    else ok (
        commit_order (completed_order desk o)
          (audit_row o (codes "order_completed") (AuditStatus.of_order o.fulfillment_status)
            (AuditStatus.of_order Fulfillment.completed) actor [] Evidence.nothing)
          db)

-- `complete_order`
unfoldable pub complete_order : Desk → ℕ → Actor → TravelDb → Result (TravelOrder × TravelDb)
complete_order desk order_id actor db = travel_order order_id db >>= complete_found desk actor db

abbrev pub exception_order : Text → TravelOrder → TravelOrder
exception_order reason o = record o {
  fulfillment_status = Fulfillment.exception;
  exception_reason = strip reason;
}

abbrev pub exception_found : Text → Actor → TravelDb → TravelOrder → Result (TravelOrder × TravelDb)
exception_found reason actor db o =
    if is_completed o.fulfillment_status
    then err bad_request
    else ok (
        commit_order (exception_order reason o)
          (audit_row o (codes "order_exception") (AuditStatus.of_order o.fulfillment_status)
            (AuditStatus.of_order Fulfillment.exception) actor (strip reason) Evidence.nothing)
          db)

-- `mark_order_exception`
unfoldable pub mark_order_exception : ℕ → Text → Actor → TravelDb → Result (TravelOrder × TravelDb)
mark_order_exception order_id reason actor db =
    travel_order order_id db >>= exception_found reason actor db
