-- ===== src/Orders/Routes/Refund.antt =====
-- The refund of a standard order: refund_commerce_order of app/api/admin.py, and the notification of app/api/commerce.py.
use python_server.Base.{
  ℕ, false, not, ◌&&◌, Option, none, some, [], Text, codes, text_eq, lower, if◌then◌else◌, find,
  option_or, Result, ok, err, ◌>>=◌, not_found, order_not_found, order_not_refundable,
  wechat_refund_order_mismatch,
}
use python_server.Orders.Model.{Order, is_paid, is_refunded, order_paid}
use python_server.Orders.Create.{has_no}
use python_server.Orders.Cancel.{World, write_order, finalize_refund}
use python_server.Orders.WeChat.{Merchant, RefundReport, is_text, or_text, validate_refund_result}

-- `query_refund` by a refund's number, `create_refund` of an order under one, which raise or report, and the number
-- that the generator gives next.
pub record RefundDesk : Type 0 where
  pub query_refund : Text → Result RefundReport
  pub create_refund : Order → Text → Result RefundReport
  pub fresh_refund_no : Text

-- `order.refund_no or ...`
abbrev pub refund_no_or : Text → Order → Text
refund_no_or default o = or_text (option_or [] o.refund_no) default

-- What a report other than success leaves on the order.
abbrev pub reported : Text × Text → Order → Order
reported r o = record o { refund_status = lower r.0; refund_id = r.1 }

-- The refund is under way: the service is asked how it stands.
abbrev pub ask_refund : ℕ → RefundDesk → Order → World → Result (Order × World)
ask_refund now desk o w = desk.query_refund (refund_no_or [] o) >>= λ report.
    validate_refund_result o report (refund_no_or [] o) >>= λ r.
    if text_eq r.0 (codes "SUCCESS")
    then finalize_refund now o.id (refund_no_or [] o) r.1 false w
    else ok (reported r o, write_order (reported r o) w)

abbrev pub with_refund_no : Text → Text × Text → Order → Order
with_refund_no refund_no r o = record (reported r o) { refund_no = some refund_no }

-- A refund through the service is begun.
abbrev pub begin_refund : ℕ → RefundDesk → Text → Order → World → Result (Order × World)
begin_refund now desk refund_no o w = desk.create_refund o refund_no >>= λ report.
    validate_refund_result o report refund_no >>= λ r.
    let o' = with_refund_no refund_no r o in
    if text_eq o'.refund_status (codes "success")
    then finalize_refund now o.id refund_no o'.refund_id false (write_order o' w)
    else ok (o', write_order o' w)

abbrev pub refund_found : ℕ → RefundDesk → Order → World → Result (Order × World)
refund_found now desk o w =
    let refund_no = refund_no_or desk.fresh_refund_no o in
    let wechat = text_eq o.payment_method (codes "wechat") in
    if is_refunded o.payment_status
    then ok (o, w)
    else if text_eq o.refund_status (codes "processing") && wechat
    then ask_refund now desk o w
    else if not (is_paid o.payment_status && order_paid o.status)
    then err order_not_refundable
    else if wechat
    then begin_refund now desk refund_no o w
    else finalize_refund now o.id refund_no [] (text_eq o.payment_method (codes "balance")) w

unfoldable pub refund_commerce_order : ℕ → RefundDesk → Text → World → Result (Order × World)
refund_commerce_order now desk order_no w = elim (find (has_no order_no) w.db.orders) [
  | none ↦ err not_found
  | some o ↦ refund_found now desk o w
]

-- A notice is the merchant's number in it and its report.
abbrev pub Notice : Type 0
Notice = Option Text × RefundReport

abbrev pub after_notice : ℕ → Order → RefundReport → World → Result World
after_notice now o report w =
    validate_refund_result o report (refund_no_or report.out_refund_no o) >>= λ r.
    if text_eq r.0 (codes "SUCCESS")
    then (finalize_refund now o.id report.out_refund_no r.1 false w >>= λ x. ok x.1)
    else ok (write_order (record o { refund_status = lower r.0 }) w)

unfoldable pub wechat_refund_notification : ℕ → Merchant → Result Notice → World → Result World
wechat_refund_notification now m notice w = notice >>= λ n.
    if is_text m.mch_id n.0
    then elim (find (has_no n.1.out_trade_no) w.db.orders) [
      | none ↦ err order_not_found
      | some o ↦ after_notice now o n.1 w
    ]
    else err wechat_refund_order_mismatch
