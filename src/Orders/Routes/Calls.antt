-- ===== src/Orders/Routes/Calls.antt =====
-- Any call on the orders that are there, as the world after it: what is committed when the call returns, and the world
-- of before when it raises.
use python_server.Base.{ℕ, List, [], ◌∷◌, Text, Result, ok, err}
use python_server.Orders.Model.{Order}
use python_server.Orders.Cancel.{World}
use python_server.Orders.WeChat.{Merchant, Transaction}
use python_server.Orders.Timeout.{Gateway, cancel_unpaid_order_by_no}
use python_server.Orders.Routes.{
  request_standard_order_refund, balance_pay_standard_order, wechat_pay_standard_order,
  sync_wechat_standard_order, wechat_pay_notification, mock_pay_standard_order,
}
use python_server.Orders.Routes.Refund.{
  RefundDesk, Notice, refund_commerce_order, wechat_refund_notification,
}

pub data Call : Type 0 where
  request_refund : (now : ℕ) (reason order_no : Text) (user_id : ℕ) → Call
  pay_balance : (now : ℕ) (order_no : Text) (user_id : ℕ) → Call
  pay_wechat :
      (Order → Text → Text → Result Text) → (order_no : Text) (user_id : ℕ) (openid : Text) → Call
  sync_wechat : (now : ℕ) → Gateway → (order_no : Text) (user_id : ℕ) → Call
  pay_notice : (now : ℕ) → Merchant → Result Transaction → Call
  pay_mock : (now : ℕ) (environment transaction_id order_no : Text) (user_id : ℕ) → Call
  refund : (now : ℕ) → RefundDesk → (order_no : Text) → Call
  refund_notice : (now : ℕ) → Merchant → Result Notice → Call
  time_out : (now : ℕ) → Gateway → (order_no : Text) → Call

abbrev pub committed : World → Result World → World
committed w (ok w') = w'
committed w (err e) = w

-- The same, where the call returns a value too.
abbrev pub committed_with {ℓ} : {A : Type ℓ} → World → Result (A × World) → World
committed_with w (ok r) = r.1
committed_with w (err e) = w

unfoldable pub run_call : Call → World → World
run_call (Call.request_refund now reason order_no user_id) w =
    committed_with w (request_standard_order_refund now reason order_no user_id w)
run_call (Call.pay_balance now order_no user_id) w =
    committed_with w (balance_pay_standard_order now order_no user_id w)
run_call (Call.pay_wechat create order_no user_id openid) w =
    committed_with w (wechat_pay_standard_order create order_no user_id openid w)
run_call (Call.sync_wechat now g order_no user_id) w =
    committed_with w (sync_wechat_standard_order now g order_no user_id w)
run_call (Call.pay_notice now m notice) w = committed w (wechat_pay_notification now m notice w)
run_call (Call.pay_mock now environment id order_no user_id) w =
    committed_with w (mock_pay_standard_order now environment id order_no user_id w)
run_call (Call.refund now desk order_no) w =
    committed_with w (refund_commerce_order now desk order_no w)
run_call (Call.refund_notice now m notice) w =
    committed w (wechat_refund_notification now m notice w)
run_call (Call.time_out now g order_no) w =
    committed_with w (cancel_unpaid_order_by_no now g order_no w)

unfoldable pub run_calls : List Call → World → World
run_calls [] w = w
run_calls (c ∷ cs) w = run_calls cs (run_call c w)
