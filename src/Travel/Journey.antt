-- ===== src/Travel/Journey.antt =====
-- What the calls on a travel order share (app/api/travel_orders.py, app/services/travel_order_service.py).
-- What a call takes from outside is a `Desk`; the readings of the clock within a call are one value.
pub mod Traveller
pub mod Office
pub mod Trip
pub mod Exchange
pub mod Calls
pub mod Stages
pub mod Moves
pub mod Evolution
pub mod Refines
pub mod Lasting
pub mod CheckIn
pub mod Charged
pub mod Repeated
pub mod Tests
use python_server.Base.{
  ℕ, ◌+◌, ◌*◌, max, Bool, true, false, not, ◌&&◌, Option, none, some, [], ◌∷◌, Text, codes, take,
  ◌==◌, if◌then◌else◌, strip, Result, ok, err, not_found,
}
use python_server.Orders.Model.{day}
use python_server.Travel.Model.{
  Fulfillment, ContractStatus, TravelOrder, AuditStatus, Evidence, AuditLog, VerificationRecord,
  Actor, TravelDb, find_travel, set_travel,
}

-- `get_contract_template`, of the keys that are read.
pub record Template : Type 0 where
  pub version : ℕ
  pub snapshot_id : ℕ
  pub travel_date_days : ℕ

-- The clock in seconds and days, the token that `uuid4` draws, what `strptime` and `fromisoformat` read,
-- the hash, and the store of signatures (`_save_contract_signature`).
pub record Desk : Type 0 where
  pub now : ℕ
  pub today : ℕ
  pub fresh_token : Text
  pub departure : Text → Option ℕ
  pub iso_date : Text → Option ℕ
  pub sha256 : Text → Text
  pub template : Template
  pub save_signature : Text → Text → ℕ → Result Text

abbrev pub is_approved : ContractStatus → Bool
is_approved ContractStatus.approved = true
is_approved _ = false

abbrev pub awaits_contract : Fulfillment → Bool
awaits_contract Fulfillment.contract_pending = true
awaits_contract Fulfillment.contract_reviewing = true
awaits_contract _ = false

-- A status of an order is one of the enumeration; rows with an empty one are not modelled.
abbrev pub normalize_fulfillment_status : TravelOrder → TravelOrder
normalize_fulfillment_status o =
    if is_approved o.contract.status && awaits_contract o.fulfillment_status
    then record o { fulfillment_status = Fulfillment.info_pending }
    else o

-- `_travel_order_owned_by`
abbrev pub owned_by : TravelOrder → Actor → Bool
owned_by o actor = not (o.user_id == 0) && o.user_id == actor.id

-- `_get_my_travel_order`
abbrev pub my_travel_order : ℕ → Actor → TravelDb → Result TravelOrder
my_travel_order order_id actor db = elim (find_travel order_id db.orders) [
  | none ↦ err not_found
  | some o ↦ if owned_by o actor then ok (normalize_fulfillment_status o) else err not_found
]

-- `qr_expiry`: a day after departure, and three days where no date is read.
abbrev pub qr_expiry : Desk → Text → ℕ
qr_expiry desk travel_date = elim (desk.departure (strip travel_date)) [
  | some departure ↦ max (desk.now + day) (departure + day)
  | none ↦ desk.now + 3 * day
]

-- `add_travel_audit`
abbrev pub audit_row :
    TravelOrder → Text → AuditStatus → AuditStatus → Actor → Text → Evidence → AuditLog
audit_row o event_type from_status to_status actor reason evidence = record {
  order_id = o.id;
  order_no = o.order_no;
  event_type = event_type;
  from_status = from_status;
  to_status = to_status;
  actor_role = actor.role;
  actor_id = actor.id;
  actor_name = actor.nickname;
  reason = reason;
  evidence = evidence;
}

-- `add_verification_record`
abbrev pub verification_row :
    Desk
    → TravelOrder
    → (action token result : Text) → Actor
    → (device location reason : Text) → VerificationRecord
verification_row desk o action token result operator device location reason = record {
  order_id = o.id;
  order_no = o.order_no;
  action = action;
  token_hash = desk.sha256 token;
  result = result;
  operator_role = operator.role;
  operator_id = operator.id;
  operator_name = operator.nickname;
  device = take 255 device;
  location = take 255 location;
  reason = take 255 reason;
}

-- The commit of an order with its audit row.
abbrev pub commit_order : TravelOrder → AuditLog → TravelDb → TravelOrder × TravelDb
commit_order o row db = (o, record db { orders = set_travel o db.orders; audits = row ∷ db.audits })

-- A new code with its record.
abbrev pub issue_token : Desk → Actor → TravelOrder → TravelDb → TravelOrder × TravelDb
issue_token desk actor o db = (
  record o {
    qr_token = desk.fresh_token;
    qr_issued_at = some desk.now;
    qr_expires_at = some (qr_expiry desk o.travel_date);
  },
  record db {
    verifications =
        verification_row desk o (codes "issued") desk.fresh_token (codes "success") actor [] [] []
        ∷ db.verifications;
  },
)
