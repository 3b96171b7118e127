-- ===== src/Orders/Routes/Refines.antt =====
-- Every call follows the diagram, where ids name one order each.
use python_server.Base.{Result, ok, err, Ensures}
use python_server.Orders.Cancel.{World}
use python_server.Orders.Timeout.{cancel_unpaid_order_by_no}
use python_server.Orders.Routes.{
  request_standard_order_refund, balance_pay_standard_order, wechat_pay_standard_order,
  sync_wechat_standard_order, wechat_pay_notification, mock_pay_standard_order,
}
use python_server.Orders.Routes.Refund.{refund_commerce_order, wechat_refund_notification}
use python_server.Orders.Routes.Calls.{Call, committed, committed_with, run_call}
use python_server.Orders.Routes.Stages.{Advances, same}
use python_server.Orders.Routes.Payments.{
  Distinct, request_refund-Moved, pay_balance-Moved, pay_wechat-Moved, sync_wechat-Moved,
  pay_notice-Moved, pay_mock-Moved,
}
use python_server.Orders.Routes.Refunds.{refund-Moved, refund_notice-Moved, time_out-Moved}

committed-Advances :
    (w : World) (m : Result World)
    → Ensures (λ w'. Advances w.db.orders w'.db.orders) m
    → Advances w.db.orders (committed w m).db.orders
committed-Advances w (ok w') h = h
committed-Advances w (err e) h = same

committed_with-Advances :
    {A : Type 0} (w : World) (m : Result (A × World))
    → Ensures (λ r. Advances w.db.orders r.1.db.orders) m
    → Advances w.db.orders (committed_with w m).db.orders
committed_with-Advances w (ok r) h = h
committed_with-Advances w (err e) h = same

-- Whatever a call does to the table of orders is a number of rows written over themselves, each with the same id,
-- number, owner and amount, and with statuses that stay, or go from pending to paid or to canceled, or from paid to
-- refunded. It holds where each id is the id of one order.
pub run_call-Advances :
    (c : Call) (w : World) → Distinct w.db.orders → Advances w.db.orders (run_call c w).db.orders
unfolding run_call
run_call-Advances (Call.request_refund now reason order_no user_id) w d =
    committed_with-Advances w (request_standard_order_refund now reason order_no user_id w)
      (request_refund-Moved w d now reason order_no user_id)
run_call-Advances (Call.pay_balance now order_no user_id) w d =
    committed_with-Advances w (balance_pay_standard_order now order_no user_id w)
      (pay_balance-Moved w d now order_no user_id)
run_call-Advances (Call.pay_wechat create order_no user_id openid) w d =
    committed_with-Advances w (wechat_pay_standard_order create order_no user_id openid w)
      (pay_wechat-Moved w d create order_no user_id openid)
run_call-Advances (Call.sync_wechat now g order_no user_id) w d =
    committed_with-Advances w (sync_wechat_standard_order now g order_no user_id w)
      (sync_wechat-Moved w d now g order_no user_id)
run_call-Advances (Call.pay_notice now m notice) w d =
    committed-Advances w (wechat_pay_notification now m notice w)
      (pay_notice-Moved w d now m notice)
run_call-Advances (Call.pay_mock now environment id order_no user_id) w d =
    committed_with-Advances w (mock_pay_standard_order now environment id order_no user_id w)
      (pay_mock-Moved w d now environment id order_no user_id)
run_call-Advances (Call.refund now desk order_no) w d =
    committed_with-Advances w (refund_commerce_order now desk order_no w)
      (refund-Moved w d now desk order_no)
run_call-Advances (Call.refund_notice now m notice) w d =
    committed-Advances w (wechat_refund_notification now m notice w)
      (refund_notice-Moved w d now m notice)
run_call-Advances (Call.time_out now g order_no) w d =
    committed_with-Advances w (cancel_unpaid_order_by_no now g order_no w)
      (time_out-Moved w d now g order_no)
