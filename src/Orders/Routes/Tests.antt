-- ===== src/Orders/Routes/Tests.antt =====
-- An order that is paid through the service and refunded, and one that is paid twice.
use python_server.Base.{
  ◌≡◌, refl, ◌∷◌, [], List, none, some, Option, true, codes, arith, Text, ok, err, Ensures, find,
  ◌&&◌, decimal, wechat_pay_order_mismatch,
}
use python_server.Base.Int.{pos}
use python_server.Orders.Model.{Order, PaymentStatus, find_order, is_paid, order_paid}
use python_server.Orders.Tests.{buyer}
use python_server.Orders.Routes.Pays.{apply_wechat_payment_result-Pays}
use python_server.Orders.Create.{has_no}
use python_server.Orders.Cancel.{
  World, finalize_refund, apply_refund, refund_user, refund_wallet, revoke_reward, refund_items,
  refund_item,
}
use python_server.Points.Credit.{revoke_credit_locked}
use python_server.Orders.WeChat.{
  RefundReport, total, validate_successful_transaction, validate_refund_result,
}
use python_server.Orders.Timeout.{Query, cancel_unpaid_order_by_no}
use python_server.Orders.Timeout.Tests.{task, merchant, order, world, report, gateway}
use python_server.Orders.Routes.{
  request_standard_order_refund, balance_pay_standard_order, wechat_pay_standard_order,
  apply_wechat_payment_result, sync_wechat_standard_order, wechat_pay_notification,
  mock_pay_standard_order,
}
use python_server.Orders.Routes.Refund.{
  RefundDesk, refund_commerce_order, wechat_refund_notification,
}
use python_server.Orders.Routes.Calls.{Call, run_call, run_calls}
use python_server.Orders.Routes.Stages.{Advances}
use python_server.Orders.Routes.Refines.{run_call-Advances}
use python_server.Orders.Routes.Lasting.{Later, run_calls-Later}
use python_server.Orders.Routes.Genuine.{Backed, refund_commerce_order-Backed}

-- Opens the routes for a run.
routes : Unit {0}
unfolding request_standard_order_refund balance_pay_standard_order wechat_pay_standard_order
    apply_wechat_payment_result sync_wechat_standard_order wechat_pay_notification
    mock_pay_standard_order refund_commerce_order wechat_refund_notification run_call run_calls
    cancel_unpaid_order_by_no validate_successful_transaction validate_refund_result finalize_refund
    apply_refund refund_user refund_wallet revoke_reward revoke_credit_locked refund_items
    refund_item decimal task
routes = tt

abbrev given_back : Text → RefundReport
given_back status = record {
  out_trade_no = codes "XO1";
  out_refund_no = codes "RF1";
  amount_refund = total (pos 300);
  refund_status = [];
  status = status;
  refund_id = codes "wr1";
}

abbrev desk : RefundDesk
desk = record {
  query_refund = λ refund_no. ok (given_back (codes "SUCCESS"));
  create_refund = λ o refund_no. ok (given_back (codes "PROCESSING"));
  fresh_refund_no = codes "RF1";
}

abbrev sync : Call
sync = Call.sync_wechat 50 (gateway (Query.transaction (report (codes "SUCCESS")))) (codes "XO1") 1

abbrev refund : Call
refund = Call.refund 60 desk (codes "XO1")

abbrev order_after : List Call → Option (PaymentStatus × Text)
unfolding routes
order_after cs = elim (find_order 1 (run_calls cs world).db.orders) [
  | none ↦ none
  | some o ↦ some (o.payment_status, o.refund_status)
]

paid : order_after (sync ∷ []) ≡ some (PaymentStatus.paid, [])
unfolding routes
paid = refl

begun : order_after (sync ∷ refund ∷ []) ≡ some (PaymentStatus.paid, codes "processing")
unfolding routes
begun = refl

returned :
    order_after (sync ∷ refund ∷ refund ∷ []) ≡ some (PaymentStatus.refunded, codes "success")
unfolding routes
returned = refl

asked :
    order_after (sync ∷ Call.request_refund 55 (codes " why ") (codes "XO1") 1 ∷ [])
    ≡ some (PaymentStatus.paid, codes "requested")
unfolding routes
asked = refl

-- An order that was paid otherwise in the meantime: the service's report of its payment is refused.
paid_twice :
    wechat_pay_notification 70 merchant
      (ok (report (codes "SUCCESS")))
      (run_calls (Call.pay_mock 50 (codes " TEST ") (codes "M1") (codes "XO1") 1 ∷ []) world)
    ≡ err wechat_pay_order_mismatch
unfolding routes
paid_twice = refl

canceled :
    order_after (
      Call.sync_wechat 50 (gateway (Query.transaction (report (codes "CLOSED")))) (codes "XO1") 1
      ∷ sync
      ∷ [])
    ≡ some (PaymentStatus.canceled, [])
unfolding routes
canceled = refl

run_call-Advances_example : Advances world.db.orders (run_call refund world).db.orders
run_call-Advances_example = run_call-Advances refund world (refl, tt)

run_calls-Later_example : Later 1 order (run_calls (sync ∷ refund ∷ refund ∷ []) world).db.orders
run_calls-Later_example =
    run_calls-Later (sync ∷ refund ∷ refund ∷ []) world 1 order (refl, tt) refl

-- The order is paid through the service and its refund is under way: the service is asked and has paid it back.
abbrev under_way : World
unfolding routes
under_way = run_calls (sync ∷ refund ∷ []) world

refunded_at_last :
    Ensures
      (λ r. (r.0.payment_status ≡ PaymentStatus.refunded) × (find_order 1 r.1.db.orders ≡ some r.0))
      (refund_commerce_order 60 desk (codes "XO1") under_way)
unfolding routes
refunded_at_last = (refl, refl)

refund_commerce_order-Backed_example :
    Ensures
      (λ r.
        (o : Order) × (find (has_no (codes "XO1")) under_way.db.orders ≡ some o)
        × (find_order o.id r.1.db.orders ≡ some r.0)
        × Backed desk o r.0)
      (refund_commerce_order 60 desk (codes "XO1") under_way)
unfolding routes
refund_commerce_order-Backed_example =
    refund_commerce_order-Backed 60 desk under_way (codes "XO1") (refl, tt)

apply_wechat_payment_result-Pays_example :
    (r : Order × World) × (apply_wechat_payment_result 50 merchant (report (codes "SUCCESS")) world
      ≡ ok r)
    × (find_order 1 r.1.db.orders ≡ some r.0)
    × (is_paid r.0.payment_status && order_paid r.0.status ≡ true)
unfolding routes
apply_wechat_payment_result-Pays_example =
    apply_wechat_payment_result-Pays 50 merchant (report (codes "SUCCESS")) (codes "wx1") order
      buyer world (refl, tt) refl refl refl refl
      (record {
        success = refl;
        merchant = refl;
        app = refl;
        order = refl;
        amount = refl;
        currency = refl;
        positive = refl;
        number = (refl, refl);
      })
      (omega arith)
