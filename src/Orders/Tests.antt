-- ===== src/Orders/Tests.antt =====
-- Runs of the order service, and its theorems at concrete requests.
use python_server.Base.{
  ℕ, ◌∷◌, ◌==◌, ◌≡◌, refl, none, some, Option, [], codes, true, false, if◌then◌else◌, ok, err,
  Ensures, insufficient_stock, value_or, text_eq, decimal,
}
use python_server.Base.Int.{ℤ, pos, ◌+ℤ◌, ◌-ℤ◌}
use python_server.Points.Model.{User}
use python_server.Orders.Model.{Order, Product, Db}
use python_server.Orders.Pay.{granted, pay_with_balance}
use python_server.Orders.Pay.Once.{pay_with_balance-Once}
use python_server.Orders.Pay.Charged.{Settles, pay_with_balance-Settles}
use python_server.Base.{arith, Returns}
use python_server.Orders.Pay.Succeeds.{pay_with_balance-Returns}
use python_server.Orders.Returned.{Restored, pay_with_balance-Restored}
use python_server.Orders.Cancel.{World, cancel_unpaid_order, finalize_refund}
use python_server.Orders.Cancel.Refund.{GivesBack, finalize_refund-GivesBack}
use python_server.Points.Rows.{ledger_row, flush_ledger, add_lot}
use python_server.Points.Credit.{credit, credit_locked, recover, revoke_credit_locked, revoke_lot}
use python_server.Orders.Pay.{
  charge_order, charge, mark_order_paid, pay_locked, grant, grant_vips, deliver, deliver_all,
  credit_reward,
}
use python_server.Orders.Pay.Grant.{balance_of}
use python_server.Orders.Cancel.{
  cancel_items, cancel_item, restore_stock, apply_refund, refund_user, refund_wallet, revoke_reward,
  refund_items, refund_item,
}
use python_server.Orders.Basket.{Request, total_amount, school_ids, validate_products, merge_items}
use python_server.Orders.Create.{
  create_order, create_new, create_reserved, persist_reserved, persist_order, add_items, add_item,
  pre_deduct_stock, rollback_redis_stock, new_order,
}
use python_server.Orders.Create.Failed.{Spared, create_order-Spared}
use python_server.Orders.Create.Again.{Repeats, create_order-Repeats}
use python_server.Orders.Stock.{Aligned, cancel_unpaid_order-Aligned}
use python_server.Orders.Stock.Created.{create_order-Aligned}
use python_server.Orders.Stock.Refunded.{RefundAligned, finalize_refund-Aligned}

abbrev pub buyer : User
buyer = record {
  id = 1;
  user_no = codes "U1";
  points = 0;
  balance = 1000;
  vip_enabled = false;
  vip_type = [];
  vip_started_at = none;
  vip_expires_at = none;
}

abbrev course : Product
course = record {
  id = 7;
  school_id = 2;
  name = codes "course";
  product_type = codes "course";
  price = pos 300;
  billing_cycle = codes "month";
  stock = pos 5;
  sales = 0;
  status = true;
  approved = true;
}

abbrev pub shop : Db
shop = record {
  users = buyer ∷ [];
  ledgers = [];
  lots = [];
  allocations = [];
  next_ledger = 1;
  next_lot = 1;
  next_allocation = 1;
  issued = 0;
  orders = [];
  items = [];
  products = course ∷ [];
  entitlements = [];
  wallet = [];
  profiles = [];
  rule = none;
  plans = [];
  next_order = 1;
  next_item = 1;
}

-- The counter of the course.
abbrev counter : ℕ → Option ℤ
counter id = if id == 7 then some (pos 5) else none

abbrev start : World
start = record {
  db = shop;
  redis = record { available = true; stock = counter; locks = []; results = [] };
}

abbrev request : ℕ → Request
request n = record {
  rows = (7, 1) ∷ (7, n) ∷ [];
  payment_method = codes "balance";
  idempotency_key = codes "key-0001";
}

-- Opens the service for a run.
service : Unit {0}
unfolding granted create_order create_new create_reserved persist_reserved persist_order add_items
    add_item total_amount school_ids validate_products merge_items pre_deduct_stock
    rollback_redis_stock pay_with_balance charge_order charge mark_order_paid pay_locked grant
    grant_vips deliver deliver_all credit_reward credit_locked credit recover cancel_unpaid_order
    cancel_items cancel_item restore_stock finalize_refund apply_refund refund_user refund_wallet
    revoke_reward revoke_credit_locked revoke_lot flush_ledger ledger_row add_lot refund_items
    refund_item text_eq decimal ◌+ℤ◌ ◌-ℤ◌
service = tt

-- The world with an order of three courses, and the order.
abbrev ordered : World
unfolding service
ordered = (create_order 1 (request 2) none start).1

abbrev no_order : Order
no_order = new_order 0 (request 0) [] shop

abbrev order : Order
unfolding service
order = value_or no_order (create_order 1 (request 2) none start).0

-- The order is paid from the balance.
abbrev paid : Order × Db
unfolding service
paid = value_or (order, shop) (pay_with_balance 100 1 1 ordered.db ordered.db)

abbrev paid_world : World
paid_world = record { db = paid.1; redis = ordered.redis }

order_amount : order.payable_amount ≡ pos 900
unfolding service
order_amount = refl

order_counter : ordered.redis.stock 7 ≡ some (pos 2)
unfolding service
order_counter = refl

too_many : (create_order 1 (request 9) none start).0 ≡ err insufficient_stock
unfolding service
too_many = refl

paid_balance : balance_of 1 paid.1.users ≡ some 100
unfolding service
paid_balance = refl

course-Aligned : Aligned 7 start
course-Aligned = (pos 5, (refl, (refl, refl)))

ordered-Aligned : Aligned 7 ordered
unfolding service
ordered-Aligned = (pos 2, (refl, (refl, refl)))

create_order-Aligned_example : Aligned 7 (create_order 1 (request 2) none start).1
create_order-Aligned_example = create_order-Aligned 7 1 (request 2) none start course-Aligned

create_order-Spared_example : Spared 7 (pos 5) (create_order 1 (request 9) none start)
create_order-Spared_example = create_order-Spared 7 (pos 5) 1 (request 9) none start refl

create_order-Repeats_example : Repeats 1 (request 2) (create_order 1 (request 2) none start)
create_order-Repeats_example = create_order-Repeats 1 (request 2) none start tt

cancel_unpaid_order-Aligned_example :
    Aligned 7 (cancel_unpaid_order 200 (codes "timeout") order ordered).1
unfolding service
cancel_unpaid_order-Aligned_example =
    cancel_unpaid_order-Aligned 7 200 (codes "timeout") order ordered refl ordered-Aligned

pay_with_balance-Settles_example :
    Ensures (Settles 100 order buyer ordered.db) (pay_with_balance 100 1 1 ordered.db ordered.db)
unfolding service
pay_with_balance-Settles_example =
    pay_with_balance-Settles 100 1 1 order buyer ordered.db ordered.db refl refl

pay_with_balance-Once_example :
    Ensures
      (λ r. pay_with_balance 150 1 1 ordered.db r.1 ≡ ok r)
      (pay_with_balance 100 1 1 ordered.db ordered.db)
pay_with_balance-Once_example = pay_with_balance-Once 100 150 1 1 ordered.db ordered.db ordered.db

finalize_refund-Aligned_example :
    Ensures (RefundAligned 7) (finalize_refund 200 1 (codes "R1") [] true paid_world)
unfolding service
finalize_refund-Aligned_example =
    finalize_refund-Aligned 7 200 1 (codes "R1") [] true paid_world refl
      (pos 2, (refl, (refl, refl)))

finalize_refund-GivesBack_example :
    Ensures (GivesBack 1 1 1000) (finalize_refund 200 1 (codes "R1") [] true paid_world)
unfolding service
finalize_refund-GivesBack_example =
    finalize_refund-GivesBack 200 1 (codes "R1") [] true paid.0 (record buyer { balance = 100 })
      paid_world refl refl refl

pay_with_balance-Returns_example : Returns (pay_with_balance 100 1 1 ordered.db ordered.db)
unfolding service
pay_with_balance-Returns_example =
    pay_with_balance-Returns 100 1 1 900 order buyer ordered.db ordered.db refl refl refl refl refl
      (omega arith) (omega arith)

refunded_balance_back :
    Ensures (Restored 1 1000) (finalize_refund 200 1 (codes "R1") [] true paid_world)
unfolding service
refunded_balance_back = refl

pay_with_balance-Restored_example :
    Ensures
      (λ r.
        Ensures
          (Restored 1 1000)
          (finalize_refund 200 1 (codes "R1") [] true (record { db = r.1; redis = ordered.redis })))
      (pay_with_balance 100 1 1 ordered.db ordered.db)
unfolding service
pay_with_balance-Restored_example =
    pay_with_balance-Restored 100 200 1 1 (codes "R1") order buyer ordered.redis ordered.db
      ordered.db refl refl refl refl refl
