-- ===== src/Travel/Journey/Traveller.antt =====
-- The traveller's calls on an order (app/api/travel_orders.py): the contract, the pickup information and
-- its confirmation. The details that are attached to an answer are not modelled.
use python_server.Base.{
  ℕ, ◌+◌, Bool, true, false, not, ◌||◌, none, some, [], map, Text, codes, ◌==◌, ltb, if◌then◌else◌,
  is_empty, strip, Result, ok, err, ◌>>=◌, bad_request, value_error,
}
use python_server.Travel.Model.{
  Fulfillment, ContractStatus, TravelOrder, AuditStatus, Evidence, Actor, TravelDb, find_route,
}
use python_server.Travel.Journey.{
  Desk, is_approved, my_travel_order, audit_row, commit_order, issue_token,
}

pub record SignPayload : Type 0 where
  pub signer_name : Text
  pub signer_phone : Text
  pub id_no : Text
  pub travel_date : Text
  pub signature_data : Text

abbrev pub may_sign : Fulfillment → Bool
may_sign Fulfillment.contract_pending = true
may_sign Fulfillment.contract_reviewing = true
may_sign Fulfillment.contract_rejected = true
may_sign _ = false

-- `value.replace("/", "-")`
abbrev pub dashed : Text → Text
dashed = map (λ c. if c == 47 then 45 else c)

abbrev pub max_date : Desk → ℕ
max_date desk =
    desk.today
    + (if desk.template.travel_date_days == 0 then 30 else desk.template.travel_date_days)

-- The route's name and agency, where the order has a route.
abbrev pub on_route : TravelDb → TravelOrder → TravelOrder
on_route db o = if o.route_id == 0 then o else elim (find_route o.route_id db.routes) [
  | none ↦ o
  | some r ↦ record o { title = r.name; agency = r.agency }
]

abbrev pub or_else : Text → Text → Text
or_else s t = if is_empty s then t else s

abbrev pub signed_order : Desk → SignPayload → Actor → Text → TravelOrder → TravelOrder
signed_order desk p actor url o = record o {
  user_id = actor.id;
  user_no = actor.user_no;
  user_name = or_else actor.nickname (strip p.signer_name);
  phone = or_else actor.phone (strip p.signer_phone);
  fulfillment_status = Fulfillment.contract_reviewing;
  travel_date = strip p.travel_date;
  contract = record {
    status = ContractStatus.pending;
    signer_name = strip p.signer_name;
    signer_phone = strip p.signer_phone;
    id_no = strip p.id_no;
    template_version = desk.template.version;
    template_snapshot_id = desk.template.snapshot_id;
    signature_data = [];
    signature_url = url;
    signed_at = some desk.now;
    reviewed_at = none;
    reject_reason = [];
  };
}

abbrev pub signature_evidence : TravelOrder → Evidence
signature_evidence o =
    Evidence.signature o.contract.template_version o.contract.template_snapshot_id
      o.contract.signature_url o.title o.agency

abbrev pub commit_signed :
    Desk → SignPayload → Actor → TravelOrder → TravelDb → Text → TravelOrder × TravelDb
commit_signed desk p actor o db url =
    let signed = signed_order desk p actor url (on_route db o) in
    commit_order signed
      (audit_row signed (codes "contract_signed") (AuditStatus.of_contract o.contract.status)
        (AuditStatus.of_contract ContractStatus.pending) actor [] (signature_evidence signed))
      db

abbrev pub sign_dated :
    Desk → SignPayload → Actor → TravelOrder → TravelDb → ℕ → Result (TravelOrder × TravelDb)
sign_dated desk p actor o db selected =
    if ltb selected desk.today || ltb (max_date desk) selected
    then err bad_request
    else (desk.save_signature p.signature_data o.order_no actor.id >>= λ url.
        ok (commit_signed desk p actor o db url))

abbrev pub sign_order :
    Desk → SignPayload → Actor → TravelDb → TravelOrder → Result (TravelOrder × TravelDb)
sign_order desk p actor db o =
    if is_approved o.contract.status
    then err bad_request
    else if not (may_sign o.fulfillment_status)
    then err bad_request
    else elim (desk.iso_date (dashed (strip p.travel_date))) [
      | none ↦ err value_error
      | some selected ↦ sign_dated desk p actor o db selected
    ]

-- `sign_travel_contract`
unfoldable pub sign_travel_contract :
    Desk → ℕ → SignPayload → Actor → TravelDb → Result (TravelOrder × TravelDb)
sign_travel_contract desk order_id p actor db =
    my_travel_order order_id actor db >>= sign_order desk p actor db

pub record PickupPayload : Type 0 where
  pub pickup_address : Text
  pub pickup_detail : Text
  pub traveler_count : ℕ
  pub emergency_contact : Text
  pub emergency_phone : Text
  pub luggage_count : ℕ
  pub pickup_note : Text

abbrev pub may_submit : Fulfillment → Bool
may_submit Fulfillment.info_pending = true
may_submit Fulfillment.info_submitted = true
may_submit Fulfillment.pickup_confirmed = true
may_submit _ = false

abbrev pub submitted_order : PickupPayload → TravelOrder → TravelOrder
submitted_order p o = record o {
  fulfillment_status = Fulfillment.info_submitted;
  pickup = record o.pickup {
    address = strip p.pickup_address;
    detail = strip p.pickup_detail;
    traveler_count = p.traveler_count;
    emergency_contact = strip p.emergency_contact;
    emergency_phone = strip p.emergency_phone;
    luggage_count = p.luggage_count;
    note = strip p.pickup_note;
    confirmed_at = none;
  };
  qr_token = [];
  qr_issued_at = none;
  qr_expires_at = none;
}

abbrev pub submit_order :
    PickupPayload → Actor → TravelDb → TravelOrder → Result (TravelOrder × TravelDb)
submit_order p actor db o =
    if not (is_approved o.contract.status)
    then err bad_request
    else if not (may_submit o.fulfillment_status)
    then err bad_request
    else ok (
        commit_order (submitted_order p o)
          (audit_row o (codes "pickup_info_submitted") (AuditStatus.of_order o.fulfillment_status)
            (AuditStatus.of_order Fulfillment.info_submitted) actor [] Evidence.nothing)
          db)

-- `submit_travel_pickup_info`
unfoldable pub submit_travel_pickup_info :
    ℕ → PickupPayload → Actor → TravelDb → Result (TravelOrder × TravelDb)
submit_travel_pickup_info order_id p actor db =
    my_travel_order order_id actor db >>= submit_order p actor db

abbrev pub is_pickup_confirmed : Fulfillment → Bool
is_pickup_confirmed Fulfillment.pickup_confirmed = true
is_pickup_confirmed _ = false

abbrev pub confirmed_order : Desk → TravelOrder → TravelOrder
confirmed_order desk o = record o {
  fulfillment_status = Fulfillment.user_confirmed;
  pickup = record o.pickup { confirmed_at = some desk.now };
}

abbrev pub commit_confirmed : Fulfillment → Actor → TravelOrder × TravelDb → TravelOrder × TravelDb
commit_confirmed previous actor (o, db) =
    commit_order o
      (audit_row o (codes "pickup_confirmed_by_user") (AuditStatus.of_order previous)
        (AuditStatus.of_order Fulfillment.user_confirmed) actor [] (Evidence.code o.qr_expires_at))
      db

abbrev pub confirm_order : Desk → Actor → TravelDb → TravelOrder → Result (TravelOrder × TravelDb)
confirm_order desk actor db o =
    let confirmed = confirmed_order desk o in
    if not (is_approved o.contract.status)
    then err bad_request
    else if not (is_pickup_confirmed o.fulfillment_status)
    then err bad_request
    else ok (
        commit_confirmed o.fulfillment_status actor (
          if is_empty confirmed.qr_token
          then issue_token desk actor confirmed db
          else (confirmed, db)))

-- `confirm_travel_pickup`
unfoldable pub confirm_travel_pickup : Desk → ℕ → Actor → TravelDb → Result (TravelOrder × TravelDb)
confirm_travel_pickup desk order_id actor db =
    my_travel_order order_id actor db >>= confirm_order desk actor db
