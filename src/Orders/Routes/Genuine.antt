-- ===== src/Orders/Routes/Genuine.antt =====
-- What stands behind a refund through the payment service.
use python_server.Base.{
  ℕ, ◌≡◌, refl, ap, ◌∙◌, lower, false, not, ◌&&◌, some, [], Text, codes, text_eq, text_eq→eq, arith,
  if◌then◌else◌, find, if_intro, if_cases, option_cases, Ensures, Ensures-bind, Ensures-map, Result,
  ok, err, ◌>>=◌, wechat_refund_amount_mismatch,
}
use python_server.Base.Int.{ℤ, pos, ltb_ℤ, eq_of_parts}
use python_server.Orders.Model.{Order, find_order, is_paid, is_refunded, order_paid}
use python_server.Orders.Create.{has_no}
use python_server.Orders.Cancel.{World, write_order, finalize_refund}
use python_server.Orders.WeChat.{
  RefundReport, or_text, eq_ℤ, read_total, upper, refund_outcome, validate_refund_result,
}
use python_server.Orders.Routes.Refund.{
  RefundDesk, refund_no_or, reported, with_refund_no, refund_found, refund_commerce_order,
}
use python_server.Orders.Pay.Once.{set_order-found}
use python_server.Orders.Cancel.Refund.{Refunded, finalize_refund-Refunded}
use python_server.Orders.Routes.Payments.{Distinct, found_by_id}

-- A report of the refund of an order, under a refund's number: for the order's own number where it names one, and for
-- all that was paid.
pub record Reports (o : Order) (report : RefundReport) (refund_no : Text) (r : Text × Text)
    : Type 0 where
  pub order : or_text report.out_trade_no o.order_no ≡ o.order_no
  pub number : report.out_refund_no ≡ refund_no
  pub amount : read_total report.amount_refund ≡ some o.payable_amount
  pub outcome : r ≡ (
    upper (or_text report.refund_status (or_text report.status (codes "PROCESSING"))),
    report.refund_id,
  )

validate_refund_result-Reports :
    (o : Order) (report : RefundReport) (refund_no : Text)
    → Ensures (Reports o report refund_no) (validate_refund_result o report refund_no)
unfolding validate_refund_result
validate_refund_result-Reports o report refund_no =
    let P = Ensures (Reports o report refund_no) in
    if_cases P (not (text_eq (or_text report.out_trade_no o.order_no) o.order_no)) (λ e. tt)
      (λ order.
        if_cases P (not (text_eq report.out_refund_no refund_no)) (λ e. tt)
          (λ number.
            option_cases P (read_total report.amount_refund) (λ e. tt)
              (λ n read.
                if_cases
                  (λ (m : Result ℤ). P (
                    m >>= λ fen.
                    if eq_ℤ n fen
                    then ok (refund_outcome report)
                    else err wechat_refund_amount_mismatch))
                  (ltb_ℤ o.payable_amount (pos 1)) (λ e. tt)
                  (λ positive.
                    if_cases P (eq_ℤ n o.payable_amount)
                      (λ full. record {
                        order =
                            text_eq→eq (or_text report.out_trade_no o.order_no) o.order_no
                              (ground arith);
                        number = text_eq→eq report.out_refund_no refund_no (ground arith);
                        amount =
                            read ∙ ap (λ x. some x) (eq_of_parts n o.payable_amount (ground arith));
                        outcome = refl;
                      })
                      (λ e. tt)))))

-- How the answer of a refund that returns is backed: the payment status is what it was; or the service has answered, to a query or to
-- a new refund, that the whole amount has gone back; or the order was not paid through it.
pub data Backed (desk : RefundDesk) (o : Order) : Order → Type 0 where
  unchanged : {o' : Order} → o'.payment_status ≡ o.payment_status → Backed desk o o'
  answered :
      {o' : Order} (report : RefundReport) (refund_no : Text) (r : Text × Text)
      → desk.query_refund refund_no ≡ ok report
      → Reports o report refund_no r
      → r.0 ≡ codes "SUCCESS"
      → Backed desk o o'
  begun :
      {o' : Order} (report : RefundReport) (refund_no : Text) (r : Text × Text)
      → desk.create_refund o refund_no ≡ ok report
      → Reports o report refund_no r
      → lower r.0 ≡ codes "success"
      → Backed desk o o'
  elsewhere : {o' : Order} → text_eq o.payment_method (codes "wechat") ≡ false → Backed desk o o'

module _ (now : ℕ) (desk : RefundDesk) (w : World) where
  -- The order is stored as it is answered.
  abbrev BackedBy : Order → Order × World → Type 0
  BackedBy o r = (find_order o.id r.1.db.orders ≡ some r.0) × Backed desk o r.0

  ask_refund-Backed :
      (o : Order) (m : Result RefundReport)
      → find_order o.id w.db.orders ≡ some o
      → desk.query_refund (refund_no_or [] o) ≡ m
      → Ensures (BackedBy o) (
          m >>= λ report. validate_refund_result o report (refund_no_or [] o) >>= λ r.
          if text_eq r.0 (codes "SUCCESS")
          then finalize_refund now o.id (refund_no_or [] o) r.1 false w
          else ok (reported r o, write_order (reported r o) w))
  ask_refund-Backed o (err e) found answer = tt
  ask_refund-Backed o (ok report) found answer =
      let refund_no = refund_no_or [] o in
      Ensures-bind (Reports o report refund_no) (BackedBy o)
        (validate_refund_result o report refund_no)
        (λ r.
          if text_eq r.0 (codes "SUCCESS")
          then finalize_refund now o.id refund_no r.1 false w
          else ok (reported r o, write_order (reported r o) w))
        (validate_refund_result-Reports o report refund_no)
        (λ r genuine.
          if_cases (Ensures (BackedBy o)) (text_eq r.0 (codes "SUCCESS"))
            (λ success.
              let m = finalize_refund now o.id refund_no r.1 false w in
              Ensures-map (Refunded o.id) (BackedBy o) m
                (λ x h. (
                  h.0,
                  Backed.answered report refund_no r answer genuine
                      (text_eq→eq r.0 (codes "SUCCESS") success),
                ))
                (finalize_refund-Refunded now o.id refund_no r.1 false w))
            (λ e. (
              set_order-found o.id (reported r o) w.db.orders o refl found,
              Backed.unchanged refl,
            )))

  begin_refund-Backed :
      (o : Order) (refund_no : Text) (m : Result RefundReport)
      → find_order o.id w.db.orders ≡ some o
      → desk.create_refund o refund_no ≡ m
      → Ensures (BackedBy o) (
          m >>= λ report. validate_refund_result o report refund_no >>= λ r.
          let o' = with_refund_no refund_no r o in
          if text_eq o'.refund_status (codes "success")
          then finalize_refund now o.id refund_no o'.refund_id false (write_order o' w)
          else ok (o', write_order o' w))
  begin_refund-Backed o refund_no (err e) found answer = tt
  begin_refund-Backed o refund_no (ok report) found answer =
      Ensures-bind (Reports o report refund_no) (BackedBy o)
        (validate_refund_result o report refund_no)
        (λ r.
          let o' = with_refund_no refund_no r o in
          if text_eq o'.refund_status (codes "success")
          then finalize_refund now o.id refund_no o'.refund_id false (write_order o' w)
          else ok (o', write_order o' w))
        (validate_refund_result-Reports o report refund_no)
        (λ r genuine.
          let o' = with_refund_no refund_no r o in
          if_cases (Ensures (BackedBy o)) (text_eq o'.refund_status (codes "success"))
            (λ success.
              let m = finalize_refund now o.id refund_no o'.refund_id false (write_order o' w) in
              Ensures-map (Refunded o.id) (BackedBy o) m
                (λ x h. (
                  h.0,
                  Backed.begun report refund_no r answer genuine
                      (text_eq→eq (lower r.0) (codes "success") success),
                ))
                (finalize_refund-Refunded now o.id refund_no o'.refund_id false (write_order o' w)))
            (λ e. (set_order-found o.id o' w.db.orders o refl found, Backed.unchanged refl)))

  -- A refund that returns has found the order and stores it as it is answered, where each id is the id of one order;
  -- and either that has the payment status that it had, or the service has answered, to a query or to a new refund,
  -- that the whole amount of that order has gone back, or the order was not paid through the service.
  pub refund_commerce_order-Backed :
      (order_no : Text)
      → Distinct w.db.orders
      → Ensures
          (λ r.
            (o : Order) × (find (has_no order_no) w.db.orders ≡ some o)
            × (find_order o.id r.1.db.orders ≡ some r.0)
            × Backed desk o r.0)
          (refund_commerce_order now desk order_no w)
  unfolding refund_commerce_order
  refund_commerce_order-Backed order_no distinct =
      let Q : Order × World → Type 0 = λ r.
        (o : Order) × (find (has_no order_no) w.db.orders ≡ some o)
        × (find_order o.id r.1.db.orders ≡ some r.0)
        × Backed desk o r.0 in
      option_cases (Ensures Q) (find (has_no order_no) w.db.orders) (λ e. tt)
        (λ o found.
          let P = Ensures (BackedBy o) in
          let at = found_by_id (has_no order_no) w.db.orders o found distinct in
          let refund_no = refund_no_or desk.fresh_refund_no o in
          let wechat = text_eq o.payment_method (codes "wechat") in
          Ensures-map (BackedBy o) Q (refund_found now desk o w)
            (λ r backed. (o, found, backed.0, backed.1))
            (if_intro P (is_refunded o.payment_status) (at, Backed.unchanged refl)
              (if_intro P (text_eq o.refund_status (codes "processing") && wechat)
                (ask_refund-Backed o (desk.query_refund (refund_no_or [] o)) at refl)
                (if_intro P (not (is_paid o.payment_status && order_paid o.status)) tt (
                  if_cases P wechat
                    (λ e. begin_refund-Backed o refund_no (desk.create_refund o refund_no) at refl)
                    (λ other.
                      let m =
                        finalize_refund now o.id refund_no []
                          (text_eq o.payment_method (codes "balance")) w in
                      Ensures-map (Refunded o.id) (BackedBy o) m
                        (λ x h. (h.0, Backed.elsewhere other))
                        (finalize_refund-Refunded now o.id refund_no []
                          (text_eq o.payment_method (codes "balance")) w)))))))
