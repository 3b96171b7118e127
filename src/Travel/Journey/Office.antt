-- ===== src/Travel/Journey/Office.antt =====
-- The administrator's calls on an order (app/api/admin.py): review of the contract, the pickup's schedule,
-- the code, check-in, the trip, its end and the exception.
use python_server.Base.{
  ℕ, Bool, true, false, not, ◌||◌, Option, none, some, [], Text, codes, leb, if◌then◌else◌,
  is_empty, strip, Result, ok, err, ◌>>=◌, not_found, bad_request, unprocessable,
}
use python_server.Travel.Model.{
  Fulfillment, ContractStatus, TravelOrder, AuditStatus, Evidence, Actor, TravelDb, find_travel,
}
use python_server.Travel.Journey.{Desk, is_approved, audit_row, commit_order, issue_token}

-- `db.get(TravelOrder, order_id)`, and the answer 404.
abbrev pub travel_order : ℕ → TravelDb → Result TravelOrder
travel_order order_id db = elim (find_travel order_id db.orders) [
  | none ↦ err not_found
  | some o ↦ ok o
]

abbrev pub in_review : ContractStatus → Bool
in_review ContractStatus.pending = true
in_review ContractStatus.rejected = true
in_review _ = false

abbrev pub after_approval : Fulfillment → Fulfillment
after_approval Fulfillment.contract_pending = Fulfillment.info_pending
after_approval Fulfillment.contract_reviewing = Fulfillment.info_pending
after_approval Fulfillment.contract_rejected = Fulfillment.info_pending
after_approval f = f

abbrev pub approved_order : Desk → TravelOrder → TravelOrder
approved_order desk o = record o {
  fulfillment_status = after_approval o.fulfillment_status;
  contract = record o.contract {
    status = ContractStatus.approved;
    reject_reason = [];
    reviewed_at = some desk.now;
  };
}

abbrev pub rejected_order : Desk → Text → TravelOrder → TravelOrder
rejected_order desk reason o = record o {
  fulfillment_status = Fulfillment.contract_rejected;
  contract = record o.contract {
    status = ContractStatus.rejected;
    reject_reason = reason;
    reviewed_at = some desk.now;
  };
}

abbrev pub commit_review :
    Text → ContractStatus → Actor → TravelDb → TravelOrder → TravelOrder × TravelDb
commit_review event_type previous actor db o =
    commit_order o
      (audit_row o event_type (AuditStatus.of_contract previous)
        (AuditStatus.of_contract o.contract.status) actor o.contract.reject_reason
        (Evidence.template o.contract.template_version o.contract.template_snapshot_id))
      db

abbrev pub review_order :
    Desk → Bool → Text → Actor → TravelDb → TravelOrder → Result (TravelOrder × TravelDb)
review_order desk approved reject_reason actor db o =
    if not (in_review o.contract.status)
    then err bad_request
    else if approved
    then ok (
        commit_review (codes "contract_approved") o.contract.status actor db
          (approved_order desk o))
    else if is_empty (strip reject_reason)
    then err unprocessable
    else ok (
        commit_review (codes "contract_rejected") o.contract.status actor db
          (rejected_order desk (strip reject_reason) o))

-- `review_order_contract`
unfoldable pub review_order_contract :
    Desk → ℕ → Bool → Text → Actor → TravelDb → Result (TravelOrder × TravelDb)
review_order_contract desk order_id approved reject_reason actor db =
    travel_order order_id db >>= review_order desk approved reject_reason actor db

pub record SchedulePayload : Type 0 where
  pub pickup_time : Text
  pub pickup_location : Text
  pub driver_name : Text
  pub driver_phone : Text
  pub vehicle_no : Text
  pub pickup_notice : Text

abbrev pub past_schedule : Fulfillment → Bool
past_schedule Fulfillment.checked_in = true
past_schedule Fulfillment.in_trip = true
past_schedule Fulfillment.completed = true
past_schedule Fulfillment.cancelled = true
past_schedule _ = false

abbrev pub scheduled_order : SchedulePayload → TravelOrder → TravelOrder
scheduled_order p o = record o {
  fulfillment_status = Fulfillment.pickup_confirmed;
  pickup = record o.pickup {
    time = strip p.pickup_time;
    location = strip p.pickup_location;
    driver_name = strip p.driver_name;
    driver_phone = strip p.driver_phone;
    vehicle_no = strip p.vehicle_no;
    notice = strip p.pickup_notice;
    confirmed_at = none;
  };
  qr_token = [];
  qr_issued_at = none;
  qr_expires_at = none;
}

abbrev pub schedule_order :
    SchedulePayload → Actor → TravelDb → TravelOrder → Result (TravelOrder × TravelDb)
schedule_order p actor db o =
    if not (is_approved o.contract.status)
    then err bad_request
    else if is_empty o.pickup.address
    then err bad_request
    else if past_schedule o.fulfillment_status
    then err bad_request
    else ok (
        commit_order (scheduled_order p o)
          (audit_row o (codes "pickup_scheduled") (AuditStatus.of_order o.fulfillment_status)
            (AuditStatus.of_order Fulfillment.pickup_confirmed) actor []
            (Evidence.schedule (strip p.pickup_time) (strip p.pickup_location)
              (strip p.vehicle_no)))
          db)

-- `schedule_order_pickup`
unfoldable pub schedule_order_pickup :
    ℕ → SchedulePayload → Actor → TravelDb → Result (TravelOrder × TravelDb)
schedule_order_pickup order_id p actor db = travel_order order_id db >>= schedule_order p actor db

abbrev pub may_check_in : Fulfillment → Bool
may_check_in Fulfillment.user_confirmed = true
may_check_in Fulfillment.qr_issued = true
may_check_in _ = false

-- A code without an expiry, for `issue_order_qr`, and a code that has expired.
abbrev pub expired_by : ℕ → Bool → Option ℕ → Bool
expired_by now missing none = missing
expired_by now missing (some expires) = leb expires now

abbrev pub commit_issued : Actor → TravelOrder × TravelDb → TravelOrder × TravelDb
commit_issued actor (o, db) =
    let issued = record o { fulfillment_status = Fulfillment.qr_issued } in
    commit_order issued
      (audit_row issued (codes "qr_issued") (AuditStatus.of_order Fulfillment.user_confirmed)
        (AuditStatus.of_order Fulfillment.qr_issued) actor [] (Evidence.code o.qr_expires_at))
      db

abbrev pub issue_code : Desk → Actor → TravelDb → TravelOrder → Result (TravelOrder × TravelDb)
issue_code desk actor db o =
    if not (may_check_in o.fulfillment_status)
    then err bad_request
    else ok (
        commit_issued actor (
          if is_empty o.qr_token || expired_by desk.now true o.qr_expires_at
          then issue_token desk actor o db
          else (o, db)))

-- `issue_order_qr`
unfoldable pub issue_order_qr : Desk → ℕ → Actor → TravelDb → Result (TravelOrder × TravelDb)
issue_order_qr desk order_id actor db = travel_order order_id db >>= issue_code desk actor db
