-- ===== src/Orders/Timeout/Tests.antt =====
-- An order that is swept: canceled, paid after all, or left alone.
use python_server.Base.{◌≡◌, refl, ◌∷◌, [], none, some, Option, true, false, codes, text_eq, Text}
use python_server.Base.Int.{pos, ◌+ℤ◌, ◌-ℤ◌}
use python_server.Orders.Model.{Order, PaymentStatus, OrderStatus, find_order}
use python_server.Orders.Pay.{
  mark_order_paid, pay_locked, grant, granted, grant_vips, deliver, deliver_all, credit_reward,
}
use python_server.Orders.Cancel.{
  World, cancel_unpaid_order, cancel_items, cancel_item, restore_stock,
}
use python_server.Orders.Tests.{shop}
use python_server.Orders.WeChat.{
  Merchant, Transaction, missing, total, validate_successful_transaction,
}
use python_server.Orders.Timeout.{
  Query, Gateway, TimeoutJob, cancel_unpaid_order_by_no, sweep, sweep_unscheduled_timeouts,
}

abbrev pub merchant : Merchant
merchant = record {
  mini_app_id = codes "app";
  mch_id = codes "mch";
  api_v3_key = codes "key";
  notify_url = codes "url";
  merchant_serial_no = codes "no";
  merchant_private_key_path = codes "path";
  pay_public_key_id = codes "id";
  pay_public_key_path = codes "path";
}

abbrev pub order : Order
order = record {
  id = 1;
  order_no = codes "XO1";
  user_id = 1;
  school_id = 0;
  total_amount = pos 300;
  payable_amount = pos 300;
  payment_method = codes "wechat";
  payment_status = PaymentStatus.pending;
  status = OrderStatus.pending;
  idempotency_key = [];
  transaction_id = [];
  refund_no = none;
  refund_id = [];
  refund_status = [];
  refund_reason = [];
  refund_requested_at = none;
  paid_at = none;
  refunded_at = none;
  canceled_at = none;
  cancel_reason = [];
}

abbrev pub world : World
world = record {
  db = record shop { orders = order ∷ [] };
  redis = record { available = true; stock = λ id. none; locks = []; results = [] };
}

abbrev pub report : Text → Transaction
report state = record {
  trade_state = some state;
  mchid = some (codes "mch");
  appid = some (codes "app");
  out_trade_no = codes "XO1";
  amount_total = total (pos 300);
  currency = none;
  transaction_id = codes "wx1";
}

abbrev pub gateway : Query → Gateway
gateway q = record {
  merchant = merchant;
  query_transaction = λ no. q;
  close_transaction = λ no. true;
}

abbrev job : TimeoutJob
job = record { order_no = codes "XO1"; scheduled = false; created_at = 100 }

-- Opens the task for a run.
unfoldable pub task : Unit {0}
unfolding cancel_unpaid_order_by_no sweep sweep_unscheduled_timeouts validate_successful_transaction
    text_eq mark_order_paid pay_locked grant granted grant_vips deliver deliver_all credit_reward
    cancel_unpaid_order cancel_items cancel_item restore_stock ◌+ℤ◌ ◌-ℤ◌
task = tt

abbrev status_after : Query → Option OrderStatus
unfolding task
status_after q =
    elim (find_order 1
      (sweep_unscheduled_timeouts 9999 15 (gateway q) (job ∷ []) world).1.db.orders) [
        | none ↦ none
        | some o ↦ some o.status
      ]

open_order : status_after (Query.transaction (report (codes "NOTPAY"))) ≡ some OrderStatus.canceled
unfolding task
open_order = refl

paying : status_after (Query.transaction (report (codes "USERPAYING"))) ≡ some OrderStatus.pending
unfolding task
paying = refl

paid_at_last : status_after (Query.transaction (report (codes "SUCCESS"))) ≡ some OrderStatus.paid
unfolding task
paid_at_last = refl

-- A report of another amount ends the sweep.
mismatch :
    (sweep_unscheduled_timeouts 9999 15
      (gateway (Query.transaction (record (report (codes "SUCCESS")) { amount_total = missing })))
      (job ∷ [])
      world).0
    ≡ (0, [])
unfolding task
mismatch = refl
