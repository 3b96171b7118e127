-- ===== src/Orders/Cancel.antt =====
-- `cancel_unpaid_order` and `finalize_refund` of OrderService. Both restore stock in the database and
-- in Redis.
pub mod Kept
pub mod Refund
use python_server.Base.{
  ℕ, ◌+◌, ◌-◌, Bool, true, false, not, ◌&&◌, ◌||◌, Option, none, some, List, [], ◌∷◌, ◌++◌, map,
  Text, codes, decimal, ◌==◌, if◌then◌else◌, find, select, text_eq, is_empty, Result, ok, err,
  ◌>>=◌, order_not_found, order_not_refundable, user_not_found,
}
use python_server.Base.Int.{ℤ, pos, negsuc, ◌+ℤ◌, pos_part}
use python_server.Points.Model.{User, Ledger, Session, Posting}
use python_server.Points.Credit.{revoke_credit_locked}
use python_server.Orders.Model.{
  PaymentStatus, OrderStatus, is_paid, is_refunded, order_pending, order_paid, Order, Item, Product,
  Entitlement, WalletTransaction, Db, find_user, set_user, points_session, end_session, find_order,
  set_order, set_item, find_product, set_product, order_items, is_vip, is_finite,
}
use python_server.Orders.Redis.{Redis, incr_stock}

-- The database and Redis, as a request sees them.
pub record World : Type 0 where
  pub db : Db
  pub redis : Redis

abbrev pub item_canceled : Item → Item
item_canceled i = record i { stock_deducted = false; status = OrderStatus.canceled }

-- `redis.incr_stock` under `except RedisUnavailableError`.
abbrev pub try_incr : ℕ → ℕ → Redis → Redis
try_incr id q r = if r.available then incr_stock id q r else r

-- Stock goes back to a product that counts it, in both stores.
unfoldable pub restore_stock : Item → World → World
restore_stock i w = elim (find_product i.product_id w.db.products) [
  | none ↦ w
  | some p ↦
      if is_finite p.stock
      then record w {
        db = record (w.db) {
          products = set_product (record p { stock = p.stock +ℤ pos i.quantity }) w.db.products;
        };
        redis = try_incr p.id i.quantity w.redis;
      }
      else w
]

abbrev pub write_item : Item → World → World
write_item i w = record w { db = record (w.db) { items = set_item i w.db.items } }

-- One round of the loop over the items of a canceled order.
unfoldable pub cancel_item : Item → World → World
cancel_item i w =
    if i.stock_deducted
    then write_item (item_canceled i) (restore_stock i w)
    else write_item (item_canceled i) w

unfoldable pub cancel_items : List Item → World → World
cancel_items [] w = w
cancel_items (i ∷ is) w = cancel_items is (cancel_item i w)

abbrev pub canceled_order : ℕ → Text → Order → Order
canceled_order now reason o = record o {
  status = OrderStatus.canceled;
  payment_status = PaymentStatus.canceled;
  cancel_reason = reason;
  canceled_at = some now;
}

abbrev pub write_order : Order → World → World
write_order o w = record w { db = record (w.db) { orders = set_order o w.db.orders } }

-- `cancel_unpaid_order` of the order's row.
unfoldable pub cancel_unpaid_order : ℕ → Text → Order → World → Bool × World
cancel_unpaid_order now reason o w =
    if is_paid o.payment_status || not (order_pending o.status) then (false, w) else (
      true,
      write_order (canceled_order now reason o) (cancel_items (order_items o.id w.db.items) w),
    )

abbrev pub refund_of : Text → WalletTransaction → Bool
refund_of order_no t = text_eq t.biz_type (codes "refund") && text_eq t.biz_no order_no

-- For an amount of 0 or more: a balance below 0 is not represented.
abbrev pub with_refund : Order → User → User
with_refund o u = record u { balance = u.balance + pos_part o.payable_amount }

abbrev pub refund_row : Order → User → Db → WalletTransaction
refund_row o u db = record {
  user_id = u.id;
  user_no = u.user_no;
  transaction_no = codes "WT" ++ decimal db.issued;
  is_income = true;
  amount = pos_part o.payable_amount;
  balance_before = u.balance;
  balance_after = u.balance + pos_part o.payable_amount;
  biz_type = codes "refund";
  biz_id = o.id;
  biz_no = o.order_no;
}

abbrev pub refunded : Order → User → Db → Db
refunded o u db = record db {
  users = set_user (with_refund o u) db.users;
  issued = db.issued + 1;
  wallet = refund_row o u db ∷ db.wallet;
}

-- The refund to the wallet, unless one is booked for the order number.
unfoldable pub refund_wallet : Order → User → Db → User × Db
refund_wallet o u db = elim (find (refund_of o.order_no) db.wallet) [
  | some t ↦ (u, db)
  | none ↦ (with_refund o u, refunded o u db)
]

abbrev pub all_vip : List Item → Bool
all_vip [] = true
all_vip (i ∷ is) = is_vip i && all_vip is

-- `is_vip_order`: every item of the order is a VIP item, and there is one.
abbrev pub vip_order : List Item → Bool
vip_order is = not (is_empty is) && all_vip is

abbrev pub purchase_key : Bool → ℕ → Text
purchase_key vip id =
    (if vip then codes "vip-purchase:" else codes "standard-purchase:") ++ decimal id

abbrev pub reversal_posting : Bool → Order → Posting
reversal_posting vip o = record {
  biz_type = if vip then codes "vip_purchase_refund" else codes "study_purchase_refund";
  biz_id = o.id;
  biz_no = o.order_no;
  idempotency_key =
      (if vip then codes "vip-purchase-refund:" else codes "standard-purchase-refund:")
      ++ decimal o.id;
  remark = if vip then codes "VIP 订单退款撤销奖励积分" else codes "订单退款撤销购买奖励积分";
}

-- The reward that the payment credited is revoked.
unfoldable pub revoke_reward : Order → User → Db → Result Db
revoke_reward o u db =
    let vip = vip_order (order_items o.id db.items) in
    revoke_credit_locked (purchase_key vip o.id) (reversal_posting vip o) (points_session u db)
    >>= λ r. ok (end_session r.1 db)

abbrev pub expire_entitlements : ℕ → List Entitlement → List Entitlement
expire_entitlements order_id =
    map (λ e. if e.order_id == order_id then record e { expired = true } else e)

-- `max(0, int(product.sales or 0) - item.quantity)`, and the stock.
abbrev pub take_back_sales : Item → World → World
take_back_sales i w = elim (find_product i.product_id w.db.products) [
  | none ↦ w
  | some p ↦ record w {
    db = record (w.db) {
      products = set_product (record p { sales = p.sales - i.quantity }) w.db.products;
    };
  }
]

-- One round of the loop over the items of a refunded order.
unfoldable pub refund_item : Item → World → World
refund_item i w = cancel_item i (take_back_sales i w)

unfoldable pub refund_items : List Item → World → World
refund_items [] w = w
refund_items (i ∷ is) w = refund_items is (refund_item i w)

abbrev pub refunded_order : ℕ → Text → Text → Order → Order
refunded_order now refund_no refund_id o = record o {
  refund_no = some refund_no;
  refund_id = refund_id;
  refund_status = codes "success";
  refunded_at = some now;
  payment_status = PaymentStatus.refunded;
  status = OrderStatus.canceled;
  cancel_reason = codes "平台退款";
  canceled_at = some now;
}

-- The side effects of a refund on an order that is paid, its user's row locked.
unfoldable pub refund_user : ℕ → Text → Text → Bool → Order → World → User → Result (Order × World)
refund_user now refund_no refund_id to_wallet o w u =
    let (u', db) : User × Db = if to_wallet then refund_wallet o u w.db else (u, w.db) in
    revoke_reward o u' db >>= λ db'.
    let expired = record db' { entitlements = expire_entitlements o.id db'.entitlements } in
    ok (
      refunded_order now refund_no refund_id o,
      write_order (refunded_order now refund_no refund_id o)
          (refund_items (order_items o.id expired.items) (record w { db = expired })),
    )

unfoldable pub apply_refund : ℕ → Text → Text → Bool → Order → World → Result (Order × World)
apply_refund now refund_no refund_id to_wallet o w = elim (find_user o.user_id w.db.users) [
  | none ↦ err user_not_found
  | some u ↦ refund_user now refund_no refund_id to_wallet o w u
]

-- `finalize_refund`
unfoldable pub finalize_refund : ℕ → ℕ → Text → Text → Bool → World → Result (Order × World)
finalize_refund now order_id refund_no refund_id to_wallet w =
    elim (find_order order_id w.db.orders) [
      | none ↦ err order_not_found
      | some o ↦
          if is_refunded o.payment_status
          then ok (o, w)
          else if is_paid o.payment_status && order_paid o.status
          then apply_refund now refund_no refund_id to_wallet o w
          else err order_not_refundable
    ]
