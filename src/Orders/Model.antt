-- ===== src/Orders/Model.antt =====
-- The rows of the commerce tables (app/models/entities.py), the database and the Redis keys that the
-- service works on. Amounts are in fen, times in seconds.
use python_server.Base.{
  ℕ, ◌+◌, ◌*◌, Bool, true, false, Option, none, List, [], ◌∷◌, Text, ◌==◌, if◌then◌else◌, find,
  select, text_eq, codes,
}
use python_server.Base.Int.{ℤ, pos, negsuc, sub_ℕ}
use python_server.Points.Model.{User, Ledger, Lot, Allocation, Session}

-- CommercePaymentStatus and CommerceOrderStatus of app/core/order_status.py.
pub data PaymentStatus : Type 0 where
  pending paid canceled refunded : PaymentStatus

pub data OrderStatus : Type 0 where
  pending paid canceled : OrderStatus

abbrev pub is_paid : PaymentStatus → Bool
is_paid PaymentStatus.paid = true
is_paid _ = false

abbrev pub is_refunded : PaymentStatus → Bool
is_refunded PaymentStatus.refunded = true
is_refunded _ = false

abbrev pub order_pending : OrderStatus → Bool
order_pending OrderStatus.pending = true
order_pending _ = false

abbrev pub order_paid : OrderStatus → Bool
order_paid OrderStatus.paid = true
order_paid _ = false

pub record Order : Type 0 where
  pub id : ℕ
  pub order_no : Text
  pub user_id : ℕ
  pub school_id : ℕ
  pub total_amount : ℤ
  pub payable_amount : ℤ
  pub payment_method : Text
  pub payment_status : PaymentStatus
  pub status : OrderStatus
  pub idempotency_key : Text
  pub transaction_id : Text
  pub refund_no : Option Text
  pub refund_id : Text
  pub refund_status : Text
  pub refund_reason : Text
  pub refund_requested_at : Option ℕ
  pub paid_at : Option ℕ
  pub refunded_at : Option ℕ
  pub canceled_at : Option ℕ
  pub cancel_reason : Text

-- A VIP item has the negated id of its plan for a product id.
pub record Item : Type 0 where
  pub id : ℕ
  pub order_id : ℕ
  pub order_no : Text
  pub product_id : ℤ
  pub product_name : Text
  pub product_type : Text
  pub school_id : ℕ
  pub unit_price : ℤ
  pub quantity : ℕ
  pub total_amount : ℤ
  pub stock_deducted : Bool
  pub status : OrderStatus

-- A negative stock is unlimited.
pub record Product : Type 0 where
  pub id : ℕ
  pub school_id : ℕ
  pub name : Text
  pub product_type : Text
  pub price : ℤ
  pub billing_cycle : Text
  pub stock : ℤ
  pub sales : ℕ
  pub status : Bool
  pub approved : Bool

pub record Entitlement : Type 0 where
  pub user_id : ℕ
  pub product_id : ℤ
  pub order_id : ℕ
  pub entitlement_type : Text
  pub expires_at : Option ℕ
  pub expired : Bool

pub record WalletTransaction : Type 0 where
  pub user_id : ℕ
  pub user_no : Text
  pub transaction_no : Text
  pub is_income : Bool
  pub amount : ℕ
  pub balance_before : ℕ
  pub balance_after : ℕ
  pub biz_type : Text
  pub biz_id : ℕ
  pub biz_no : Text

pub record PointRule : Type 0 where
  pub enabled : Bool
  pub purchase_enabled : Bool
  pub vip_purchase_enabled : Bool
  pub purchase_score : ℕ
  pub vip_purchase_score : ℕ
  pub valid_days : ℕ

-- What `get_vip_plan` gives of a plan.
pub record Plan : Type 0 where
  pub id : ℕ
  pub vip_type : Text
  pub duration_days : ℕ

-- The tables. Orders, items and products stand by id, the points tables newest row first.
pub record Db : Type 0 where
  pub users : List User
  pub ledgers : List Ledger
  pub lots : List Lot
  pub allocations : List Allocation
  pub next_ledger : ℕ
  pub next_lot : ℕ
  pub next_allocation : ℕ
  pub issued : ℕ
  pub orders : List Order
  pub items : List Item
  pub products : List Product
  pub entitlements : List Entitlement
  pub wallet : List WalletTransaction
  pub profiles : List ℕ
  pub rule : Option PointRule
  pub plans : List Plan
  pub next_order : ℕ
  pub next_item : ℕ

abbrev pub day : ℕ
day = 86400

abbrev pub scale : ℤ → ℕ → ℤ
scale (pos n) q = pos (n * q)
scale (negsuc n) q = sub_ℕ 0 ((n + 1) * q)

abbrev pub find_user : ℕ → List User → Option User
find_user id = find (λ u. u.id == id)

abbrev pub set_user : User → List User → List User
set_user new [] = []
set_user new (u ∷ us) = if u.id == new.id then new ∷ us else u ∷ set_user new us

-- The session that PointService works on, and its end.
abbrev pub points_session : User → Db → Session
points_session u db = record {
  user = u;
  ledgers = db.ledgers;
  lots = db.lots;
  allocations = db.allocations;
  next_ledger = db.next_ledger;
  next_lot = db.next_lot;
  next_allocation = db.next_allocation;
  issued = db.issued;
}

abbrev pub end_session : Session → Db → Db
end_session s db = record db {
  users = set_user s.user db.users;
  ledgers = s.ledgers;
  lots = s.lots;
  allocations = s.allocations;
  next_ledger = s.next_ledger;
  next_lot = s.next_lot;
  next_allocation = s.next_allocation;
  issued = s.issued;
}

abbrev pub find_order : ℕ → List Order → Option Order
find_order id = find (λ o. o.id == id)

abbrev pub set_order : Order → List Order → List Order
set_order new [] = []
set_order new (o ∷ os) = if o.id == new.id then new ∷ os else o ∷ set_order new os

abbrev pub set_item : Item → List Item → List Item
set_item new [] = []
set_item new (i ∷ is) = if i.id == new.id then new ∷ is else i ∷ set_item new is

abbrev pub find_product : ℤ → List Product → Option Product
find_product (pos id) = find (λ p. p.id == id)
find_product (negsuc n) = λ ps. none

abbrev pub set_product : Product → List Product → List Product
set_product new [] = []
set_product new (p ∷ ps) = if p.id == new.id then new ∷ ps else p ∷ set_product new ps

-- `get_order_items`
abbrev pub order_items : ℕ → List Item → List Item
order_items order_id = select (λ i. i.order_id == order_id)

abbrev pub is_vip : Item → Bool
is_vip i = text_eq i.product_type (codes "vip")

-- `product.stock >= 0`
abbrev pub is_finite : ℤ → Bool
is_finite (pos n) = true
is_finite (negsuc n) = false
