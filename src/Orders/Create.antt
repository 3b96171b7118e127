-- ===== src/Orders/Create.antt =====
-- `create_order` of OrderService: idempotency keys and stock counters in Redis, then the rows. `rival` is
-- an order of the same user and key, if another session commits one between this call's first query
-- and its flush.
pub mod Rollback
pub mod Failed
pub mod Again
pub mod Released
use python_server.Orders.Basket.{
  Request, add_quantity, is_short, merge_items, only_school, school_ids, total_amount,
  validate_product, validate_products,
}
use python_server.Base.{
  ℕ, suc, ◌+◌, ◌-◌, Bool, true, false, not, ◌&&◌, ◌||◌, Option, none, some, List, [], ◌∷◌, ◌++◌,
  Text, codes, decimal, ◌==◌, if◌then◌else◌, find, text_eq, option_or, Result, ok, err, ◌>>=◌,
  Error, idempotency_conflict, insufficient_stock, redis_required, product_not_available,
  invalid_order_amount, integrity_error,
}
use python_server.Base.Int.{ℤ, pos, negsuc, ◌+ℤ◌, ◌-ℤ◌, ltb_ℤ}
use python_server.Orders.Model.{
  PaymentStatus, OrderStatus, Order, Item, Product, Db, scale, find_product, set_product, is_finite,
}
use python_server.Orders.Redis.{
  Redis, set_stock_if_absent, decr_stock, incr_stock, get_stock, has_text, drop_text, find_result,
}
use python_server.Orders.Cancel.{World}

-- `_rollback_redis_stock`; `deducted` is the list in reverse, newest entry first.
unfoldable pub rollback_redis_stock : List (ℕ × ℕ) → Redis → Redis
rollback_redis_stock [] r = r
rollback_redis_stock ((id, q) ∷ more) r = rollback_redis_stock more (incr_stock id q r)

-- `_pre_deduct_stock`: Redis, what has been deducted, and the error that it raises, if any. A counter
-- that falls below zero rolls everything back, and `deducted` is cleared.
unfoldable pub pre_deduct_stock :
    List Product → List (ℕ × ℕ) → List (ℕ × ℕ) → Redis → Option Error × (List (ℕ × ℕ) × Redis)
pre_deduct_stock ps [] deducted r = (none, (deducted, r))
pre_deduct_stock ps ((id, q) ∷ m) deducted r = elim (find_product (pos id) ps) [
  | none ↦ (some product_not_available, (deducted, r))
  | some p ↦
      let r' = decr_stock id q (set_stock_if_absent id p.stock r) in
      let rest = pre_deduct_stock ps m ((id, q) ∷ deducted) r' in
      let skipped = pre_deduct_stock ps m deducted r in
      if is_finite p.stock
      then (if ltb_ℤ (option_or (pos 0) (get_stock id r')) (pos 0)
          then (some insufficient_stock, ([], rollback_redis_stock ((id, q) ∷ deducted) r'))
          else rest)
      else skipped
]

-- The row of one product of the order, and the stock that it takes.
unfoldable pub add_item : Order → ℕ → ℕ → Db → Db
add_item o id q db = elim (find_product (pos id) db.products) [
  | none ↦ db
  | some p ↦ record db {
    products =
        if is_finite p.stock
        then set_product (record p { stock = p.stock -ℤ pos q }) db.products
        else db.products;
    next_item = db.next_item + 1;
    items =
        db.items
        ++ record {
          id = db.next_item;
          order_id = o.id;
          order_no = o.order_no;
          product_id = pos p.id;
          product_name = p.name;
          product_type = p.product_type;
          school_id = p.school_id;
          unit_price = p.price;
          quantity = q;
          total_amount = scale p.price q;
          stock_deducted = is_finite p.stock;
          status = OrderStatus.pending;
        }
          ∷ [];
  }
]

unfoldable pub add_items : Order → List (ℕ × ℕ) → Db → Db
add_items o [] db = db
add_items o ((id, q) ∷ m) db = add_items o m (add_item o id q db)

-- `get_order_by_idempotency_key`
abbrev pub placed : ℕ → Text → Order → Bool
placed user_id key o = (o.user_id == user_id) && text_eq o.idempotency_key key

abbrev pub new_order : ℕ → Request → List (ℕ × ℕ) → Db → Order
new_order user_id q m db = record {
  id = db.next_order;
  order_no = codes "XO" ++ decimal db.issued;
  user_id = user_id;
  school_id = only_school (school_ids db.products m);
  total_amount = total_amount db.products m;
  payable_amount = total_amount db.products m;
  payment_method = q.payment_method;
  payment_status = PaymentStatus.pending;
  status = OrderStatus.pending;
  idempotency_key = q.idempotency_key;
  transaction_id = [];
  refund_no = none;
  refund_id = [];
  refund_status = [];
  refund_reason = [];
  refund_requested_at = none;
  paid_at = none;
  refunded_at = none;
  canceled_at = none;
  cancel_reason = [];
}

abbrev pub inserted : Order → Db → Db
inserted o db = record db {
  issued = db.issued + 1;
  next_order = db.next_order + 1;
  orders = db.orders ++ o ∷ [];
}

-- `_persist_order`: the flush raises where a rival holds the key.
unfoldable pub persist_order : ℕ → Request → List (ℕ × ℕ) → Option Order → Db → Result (Order × Db)
persist_order user_id q m rival db =
    let o = new_order user_id q m db in
    if ltb_ℤ (total_amount db.products m) (pos 0) then err invalid_order_amount else elim rival [
      | some other ↦ err integrity_error
      | none ↦ ok (o, add_items o m (inserted o db))
    ]

abbrev pub idem_key : ℕ → Text → Text
idem_key user_id key = codes "idem:order:" ++ (decimal user_id ++ (codes ":" ++ key))

abbrev pub result_key : ℕ → Text → Text
result_key user_id key = idem_key user_id key ++ codes ":result"

abbrev pub lock : Text → Redis → Redis
lock k r = record r { locks = k ∷ r.locks }

abbrev pub unlock : Text → Redis → Redis
unlock k r = record r { locks = drop_text k r.locks }

-- What the table holds after a rollback: what was committed, the rival's order included.
abbrev pub rolled_back : Option Order → Db → Db
rolled_back none db = db
rolled_back (some o) db = record db { orders = db.orders ++ o ∷ [] }

abbrev pub is_integrity_error : Error → Bool
is_integrity_error integrity_error = true
is_integrity_error e = false

-- IntegrityError is answered with the rival's order; every other error is raised.
abbrev pub recovered : Error → Option Order → Result Order
recovered e none = err e
recovered e (some other) = if is_integrity_error e then ok other else err e

-- The order is cached where its rows are written; the reservation is undone where they are not.
abbrev pub after_persist :
    ℕ
    → Request
    → Option Order
    → List (ℕ × ℕ)
    → Redis
    → Db
    → Result (Order × Db)
    → Result Order × World
after_persist user_id q rival deducted r db (ok (o, db')) = (
  ok o,
  record {
    db = db';
    redis = record r { results = (result_key user_id q.idempotency_key, o.order_no) ∷ r.results };
  },
)
after_persist user_id q rival deducted r db (err e) = (
  recovered e rival,
  record {
    db = rolled_back rival db;
    redis = unlock (idem_key user_id q.idempotency_key) (rollback_redis_stock deducted r);
  },
)

-- After the reservation: the rows, or the way back.
unfoldable pub persist_reserved :
    ℕ → Request → List (ℕ × ℕ) → Option Order → List (ℕ × ℕ) → Redis → Db → Result Order × World
persist_reserved user_id q m rival deducted r db =
    after_persist user_id q rival deducted r db (persist_order user_id q m rival db)

-- `create_order` after the stock is taken from the counters, or is not.
abbrev pub after_reservation :
    ℕ
    → Request
    → List (ℕ × ℕ)
    → Option Order
    → Db
    → Option Error × (List (ℕ × ℕ) × Redis)
    → Result Order × World
after_reservation user_id q m rival db (some e, (deducted, r)) = (
  err e,
  record {
    db = db;
    redis = unlock (idem_key user_id q.idempotency_key) (rollback_redis_stock deducted r);
  },
)
after_reservation user_id q m rival db (none, (deducted, r)) =
    persist_reserved user_id q m rival deducted r db

-- `create_order` from the reserved key on.
unfoldable pub create_reserved : ℕ → Request → Option Order → Redis → Db → Result Order × World
create_reserved user_id q rival r db =
    let m = merge_items q.rows [] in
    let key = idem_key user_id q.idempotency_key in
    elim (validate_products db.products m) [
      | err e ↦ (err e, record { db = db; redis = unlock key r })
      | ok _ ↦ after_reservation user_id q m rival db (pre_deduct_stock db.products m [] r)
    ]

abbrev pub has_no : Text → Order → Bool
has_no order_no o = text_eq o.order_no order_no

-- The order that an earlier call has left in the cache.
abbrev pub cached_order : ℕ → Text → World → Option Order
cached_order user_id key w = elim (find_result (result_key user_id key) w.redis.results) [
  | none ↦ none
  | some order_no ↦ find (has_no order_no) w.db.orders
]

-- `create_order` where no order of the key is in the database.
unfoldable pub create_new : ℕ → Request → Option Order → World → Result Order × World
create_new user_id q rival w =
    let key = idem_key user_id q.idempotency_key in
    if w.redis.available
    then elim (cached_order user_id q.idempotency_key w) [
      | some o ↦ (ok o, w)
      | none ↦
          if has_text key w.redis.locks
          then (err idempotency_conflict, w)
          else create_reserved user_id q rival (lock key w.redis) w.db
    ]
    else (err redis_required, w)

-- `create_order` of the user `user_id`.
unfoldable pub create_order : ℕ → Request → Option Order → World → Result Order × World
create_order user_id q rival w = elim (find (placed user_id q.idempotency_key) w.db.orders) [
  | some o ↦ (ok o, w)
  | none ↦ create_new user_id q rival w
]
