-- ===== src/Orders/Routes.antt =====
-- The routes of app/api/commerce.py on a standard order: its payment, what the payment service reports of it, and
-- the request of a refund. A route returns the order that its answer shows. A rejected signature and a body that
-- cannot be decrypted are an error in place of the notice.
pub mod Refund
pub mod Stages
pub mod Calls
pub mod Moves
pub mod Payments
pub mod Refunds
pub mod Refines
pub mod Lasting
pub mod Pays
pub mod Genuine
pub mod Tests
use python_server.Base.{
  ℕ, Bool, true, false, not, ◌&&◌, ◌||◌, Option, none, some, List, [], ◌∷◌, ◌++◌, map, Text, codes,
  text_eq, is_empty, strip, lower, option_or, ◌==◌, if◌then◌else◌, find, Result, ok, err, ◌>>=◌,
  not_found, forbidden, order_not_found, order_not_payable, order_not_refundable,
  order_already_paid, wechat_pay_order_mismatch, wechat_pay_order_not_exist, wechat_pay_unavailable,
}
use python_server.Orders.Model.{
  Order, Item, Db, is_paid, is_refunded, order_pending, order_paid, order_items, find_order,
}
use python_server.Orders.Create.{has_no}
use python_server.Orders.Pay.{mark_order_paid, pay_with_balance}
use python_server.Orders.Cancel.{World, write_order, cancel_unpaid_order}
use python_server.Orders.WeChat.{Merchant, Transaction, is_text, validate_successful_transaction}
use python_server.Orders.Timeout.{Query, Gateway}

-- The order of that number, where it is the user's.
abbrev pub order_of_user : Text → ℕ → List Order → Result Order
order_of_user order_no user_id os = elim (find (has_no order_no) os) [
  | none ↦ err not_found
  | some o ↦ if o.user_id == user_id then ok o else err not_found
]

-- `refund_status in {"requested", "processing"}`
abbrev pub in_refund : Order → Bool
in_refund o =
    text_eq o.refund_status (codes "requested") || text_eq o.refund_status (codes "processing")

abbrev pub requested : ℕ → Text → Order → Order
requested now reason o = record o {
  refund_status = codes "requested";
  refund_reason = strip reason;
  refund_requested_at = some now;
}

unfoldable pub request_standard_order_refund : ℕ → Text → Text → ℕ → World → Result (Order × World)
request_standard_order_refund now reason order_no user_id w =
    order_of_user order_no user_id w.db.orders >>= λ o.
    if is_refunded o.payment_status || in_refund o
    then ok (o, w)
    else if is_paid o.payment_status && order_paid o.status
    then ok (requested now reason o, write_order (requested now reason o) w)
    else err order_not_refundable

abbrev pub with_db : World → Order × Db → Order × World
with_db w r = (r.0, record w { db = r.1 })

unfoldable pub balance_pay_standard_order : ℕ → Text → ℕ → World → Result (Order × World)
balance_pay_standard_order now order_no user_id w =
    order_of_user order_no user_id w.db.orders >>= λ o.
    pay_with_balance now user_id o.id w.db w.db >>= λ r. ok (with_db w r)

-- `"、".join(names) or "学徒行学习服务"`
abbrev pub join : List Text → Text
join [] = []
join (s ∷ []) = s
join (s ∷ t ∷ ss) = s ++ codes "、" ++ join (t ∷ ss)

abbrev pub description : List Item → Text
description is =
    let names = join (map (λ i. i.product_name) is) in
    if is_empty names then codes "学徒行学习服务" else names

abbrev pub by_wechat : Order → World → World
by_wechat o w =
    if text_eq o.payment_method (codes "wechat")
    then w
    else write_order (record o { payment_method = codes "wechat" }) w

-- `create_jsapi_payment` gives the parameters of a payment, or raises.
unfoldable pub wechat_pay_standard_order :
    (Order → Text → Text → Result Text) → Text → ℕ → Text → World → Result (Text × World)
wechat_pay_standard_order create_jsapi_payment order_no user_id openid w =
    order_of_user order_no user_id w.db.orders >>= λ o.
    if is_paid o.payment_status
    then err order_already_paid
    else if not (order_pending o.status)
    then err order_not_payable
    else (create_jsapi_payment o (description (order_items o.id w.db.items)) openid >>= λ params.
        ok (params, by_wechat o w))

-- An order that was paid already, by this transaction or by one that is not named.
abbrev pub same_transaction : Order → Text → World → Result (Order × World)
same_transaction o id w =
    if not (is_empty o.transaction_id) && not (text_eq o.transaction_id id)
    then err wechat_pay_order_mismatch
    else ok (o, w)

unfoldable pub apply_wechat_payment_result :
    ℕ → Merchant → Transaction → World → Result (Order × World)
apply_wechat_payment_result now m t w = elim (find (has_no t.out_trade_no) w.db.orders) [
  | none ↦ err order_not_found
  | some o ↦
      (validate_successful_transaction m o t >>= λ id.
      if is_paid o.payment_status || is_refunded o.payment_status
      then same_transaction o id w
      else (mark_order_paid now o.id (codes "wechat") id w.db w.db >>= λ r. ok (with_db w r)))
]

-- `trade_state in {"CLOSED", "REVOKED", "PAYERROR"}`
abbrev pub payment_over : Option Text → Bool
payment_over s =
    is_text (codes "CLOSED") s || (is_text (codes "REVOKED") s || is_text (codes "PAYERROR") s)

-- The order's row after the cancellation.
abbrev pub cancel_over : ℕ → Option Text → Order → World → Order × World
cancel_over now state o w =
    let w' = (cancel_unpaid_order now (codes "微信支付状态：" ++ option_or [] state) o w).1 in
    (option_or o (find_order o.id w'.db.orders), w')

abbrev pub sync_answer : ℕ → Gateway → Order → World → Query → Result (Order × World)
sync_answer now g o w Query.order_not_exist = err wechat_pay_order_not_exist
sync_answer now g o w Query.query_failed = err wechat_pay_unavailable
sync_answer now g o w (Query.transaction t) =
    if is_text (codes "SUCCESS") t.trade_state
    then apply_wechat_payment_result now g.merchant t w
    else ok (if payment_over t.trade_state then cancel_over now t.trade_state o w else (o, w))

-- One step: the order does not change while the service is asked.
unfoldable pub sync_wechat_standard_order : ℕ → Gateway → Text → ℕ → World → Result (Order × World)
sync_wechat_standard_order now g order_no user_id w =
    order_of_user order_no user_id w.db.orders >>= λ o.
    if is_paid o.payment_status
    then ok (o, w)
    else if not (text_eq o.payment_method (codes "wechat")) || not (order_pending o.status)
    then err order_not_payable
    else sync_answer now g o w (g.query_transaction o.order_no)

unfoldable pub wechat_pay_notification : ℕ → Merchant → Result Transaction → World → Result World
wechat_pay_notification now m notice w = notice >>= λ t.
    if is_text (codes "SUCCESS") t.trade_state
    then (apply_wechat_payment_result now m t w >>= λ r. ok r.1)
    else ok w

-- `settings.environment.strip().lower() in {"development", "test"}`
abbrev pub is_test : Text → Bool
is_test environment =
    let e = lower (strip environment) in text_eq e (codes "development") || text_eq e (codes "test")

unfoldable pub mock_pay_standard_order : ℕ → Text → Text → Text → ℕ → World → Result (Order × World)
mock_pay_standard_order now environment transaction_id order_no user_id w =
    if is_test environment
    then (order_of_user order_no user_id w.db.orders >>= λ o.
        mark_order_paid now o.id (codes "mock") transaction_id w.db w.db >>= λ r. ok (with_db w r))
    else err forbidden
