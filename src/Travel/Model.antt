-- ===== src/Travel/Model.antt =====
-- The rows of travel orders (app/models/entities.py) and their statuses (app/core/order_status.py).
use python_server.Base.{ℕ, Bool, Option, List, [], ◌∷◌, Text, ◌==◌, if◌then◌else◌, find}
use python_server.Base.Int.{ℤ}
use python_server.Orders.Model.{Db}

-- TravelFulfillmentStatus, and TravelOrderStatus.
pub data Fulfillment : Type 0 where
  contract_pending contract_reviewing contract_rejected info_pending info_submitted : Fulfillment
  pickup_confirmed user_confirmed qr_issued checked_in in_trip completed : Fulfillment
  exception cancelled : Fulfillment

pub data TravelStatus : Type 0 where
  created completed cancelled : TravelStatus

pub data ContractStatus : Type 0 where
  unsigned pending approved rejected : ContractStatus

-- The columns `contract_...` of an order. `contract_signature_data` holds the legacy form of the
-- signature and is emptied by a new one.
pub record Contract : Type 0 where
  pub status : ContractStatus
  pub signer_name : Text
  pub signer_phone : Text
  pub id_no : Text
  pub template_version : ℕ
  pub template_snapshot_id : ℕ
  pub signature_data : Text
  pub signature_url : Text
  pub signed_at : Option ℕ
  pub reviewed_at : Option ℕ
  pub reject_reason : Text

-- The traveller's columns `pickup_...`, and those of the schedule.
pub record Pickup : Type 0 where
  pub address : Text
  pub detail : Text
  pub traveler_count : ℕ
  pub emergency_contact : Text
  pub emergency_phone : Text
  pub luggage_count : ℕ
  pub note : Text
  pub time : Text
  pub location : Text
  pub driver_name : Text
  pub driver_phone : Text
  pub vehicle_no : Text
  pub notice : Text
  pub confirmed_at : Option ℕ

pub record TravelOrder : Type 0 where
  pub id : ℕ
  pub order_no : Text
  pub user_id : ℕ
  pub user_no : Text
  pub route_id : ℕ
  pub order_type : Text
  pub title : Text
  pub user_name : Text
  pub phone : Text
  pub travel_date : Text
  pub agency : Text
  pub amount_text : Text
  pub cover : Text
  pub idempotency_key : Text
  pub points_cost : ℤ
  pub points_refunded : Bool
  pub stock_restored : Bool
  pub status : TravelStatus
  pub fulfillment_status : Fulfillment
  pub qr_token : Text
  pub qr_issued_at : Option ℕ
  pub qr_expires_at : Option ℕ
  pub contract : Contract
  pub pickup : Pickup
  pub checked_in_at : Option ℕ
  pub completed_at : Option ℕ
  pub exception_reason : Text
  pub cancelled_at : Option ℕ
  pub cancel_reason : Text

pub record Route : Type 0 where
  pub id : ℕ
  pub stock : ℤ
  pub name : Text
  pub price : ℕ  -- hundredths of a point
  pub agency : Text
  pub image : Text
  pub status : Bool
  pub approved : Bool

-- What an audit row names as a status: nothing, a contract's, or an order's.
pub data AuditStatus : Type 0 where
  unset : AuditStatus
  of_contract : ContractStatus → AuditStatus
  of_order : Fulfillment → AuditStatus

-- The keys and values of an audit row's `evidence`, by the calls that record some.
pub data Evidence : Type 0 where
  nothing : Evidence
  exchange : (route_id points_cost : ℕ) → Evidence
  signature : (version snapshot_id : ℕ) (url title agency : Text) → Evidence
  template : (version snapshot_id : ℕ) → Evidence
  schedule : (time location vehicle_no : Text) → Evidence
  code : (expires_at : Option ℕ) → Evidence
  cancellation : (points_refunded stock_restored : Bool) → Evidence

pub record AuditLog : Type 0 where
  pub order_id : ℕ
  pub order_no : Text
  pub event_type : Text
  pub from_status : AuditStatus
  pub to_status : AuditStatus
  pub actor_role : Text
  pub actor_id : ℕ
  pub actor_name : Text
  pub reason : Text
  pub evidence : Evidence

pub record VerificationRecord : Type 0 where
  pub order_id : ℕ
  pub order_no : Text
  pub action : Text
  pub token_hash : Text
  pub result : Text
  pub operator_role : Text
  pub operator_id : ℕ
  pub operator_name : Text
  pub device : Text
  pub location : Text
  pub reason : Text

-- The signed-in user.
pub record Actor : Type 0 where
  pub id : ℕ
  pub role : Text
  pub nickname : Text
  pub user_no : Text
  pub phone : Text

-- The shared tables with those of travel, the two logs newest first.
pub record TravelDb : Type 0 where
  pub shared : Db
  pub orders : List TravelOrder
  pub routes : List Route
  pub audits : List AuditLog
  pub verifications : List VerificationRecord
  pub next_order : ℕ

abbrev pub find_travel : ℕ → List TravelOrder → Option TravelOrder
find_travel id = find (λ o. o.id == id)

abbrev pub set_travel : TravelOrder → List TravelOrder → List TravelOrder
set_travel new [] = []
set_travel new (o ∷ os) = if o.id == new.id then new ∷ os else o ∷ set_travel new os

abbrev pub find_route : ℕ → List Route → Option Route
find_route id = find (λ r. r.id == id)

abbrev pub set_route : Route → List Route → List Route
set_route new [] = []
set_route new (r ∷ rs) = if r.id == new.id then new ∷ rs else r ∷ set_route new rs
