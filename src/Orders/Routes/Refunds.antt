-- ===== src/Orders/Routes/Refunds.antt =====
-- The refund routes and the timeout follow the diagram.
use python_server.Base.{
  ℕ, Bool, ◌≡◌, refl, subst, false, not, ◌&&◌, some, [], Text, codes, text_eq, if◌then◌else◌, find,
  if_intro, option_cases, Ensures, Ensures-bind, Ensures-map, Result, ok, err, ◌>>=◌, lower,
}
use python_server.Orders.Model.{Order, is_paid, is_refunded, order_paid}
use python_server.Orders.Create.{has_no}
use python_server.Orders.Cancel.{World, write_order, finalize_refund}
use python_server.Orders.WeChat.{Merchant, RefundReport, is_text, validate_refund_result}
use python_server.Orders.Timeout.{Gateway, Summary, cancel_unpaid_order_by_no, timeout_reason}
use python_server.Orders.Timeout.Settled as Settled
use python_server.Orders.Routes.Refund.{
  RefundDesk, Notice, refund_no_or, reported, with_refund_no, ask_refund, begin_refund,
  refund_commerce_order, wechat_refund_notification,
}
use python_server.Orders.Routes.Stages.{Advances, same, Advances-trans}
use python_server.Orders.Routes.Moves.{
  Advanced, AdvancedWorld, anything, mark_order_paid-Advanced, cancel_unpaid_order-Advances,
  finalize_refund-Advanced,
}
use python_server.Orders.Routes.Payments.{Distinct, found_by_id, Moved, rewrites}

module _ (w : World) (distinct : Distinct w.db.orders) where
  ask_refund-Moved :
      (now : ℕ) (desk : RefundDesk) (order_no : Text) (o : Order)
      → find (has_no order_no) w.db.orders ≡ some o
      → Ensures (Moved w distinct) (ask_refund now desk o w)
  ask_refund-Moved now desk order_no o found =
      let P = Moved w distinct in
      let refund_no = refund_no_or [] o in
      Ensures-bind (λ (r : RefundReport). Unit {0}) P (desk.query_refund refund_no)
        (λ report. validate_refund_result o report refund_no >>= λ r. settle refund_no r)
        (anything (desk.query_refund refund_no))
        (λ report h.
          Ensures-bind (λ (r : Text × Text). Unit {0}) P (validate_refund_result o report refund_no)
            (settle refund_no) (anything (validate_refund_result o report refund_no))
            (λ r k.
              if_intro (Ensures P) (text_eq r.0 (codes "SUCCESS"))
                (finalize_refund-Advanced now o.id refund_no r.1 false w)
                (rewrites w distinct (has_no order_no) o (reported r o) found
                  (refl, refl, refl, refl) refl)))
    where
      settle : Text → Text × Text → Result (Order × World)
      settle refund_no r =
          if text_eq r.0 (codes "SUCCESS")
          then finalize_refund now o.id refund_no r.1 false w
          else ok (reported r o, write_order (reported r o) w)

  begin_refund-Moved :
      (now : ℕ) (desk : RefundDesk) (refund_no order_no : Text) (o : Order)
      → find (has_no order_no) w.db.orders ≡ some o
      → Ensures (Moved w distinct) (begin_refund now desk refund_no o w)
  begin_refund-Moved now desk refund_no order_no o found =
      let P = Moved w distinct in
      Ensures-bind (λ (r : RefundReport). Unit {0}) P (desk.create_refund o refund_no)
        (λ report. validate_refund_result o report refund_no >>= settle)
        (anything (desk.create_refund o refund_no))
        (λ report h.
          Ensures-bind (λ (r : Text × Text). Unit {0}) P (validate_refund_result o report refund_no)
            settle (anything (validate_refund_result o report refund_no))
            (λ r k.
              let o' = with_refund_no refund_no r o in
              let written =
                rewrites w distinct (has_no order_no) o o' found (refl, refl, refl, refl) refl in
              if_intro (Ensures P) (text_eq o'.refund_status (codes "success"))
                (Ensures-map (AdvancedWorld (write_order o' w).db.orders) P
                  (finalize_refund now o.id refund_no o'.refund_id false (write_order o' w))
                  (λ x moved. Advances-trans written moved)
                  (finalize_refund-Advanced now o.id refund_no o'.refund_id false
                    (write_order o' w)))
                written))
    where
      settle : Text × Text → Result (Order × World)
      settle r =
          let o' = with_refund_no refund_no r o in
          if text_eq o'.refund_status (codes "success")
          then finalize_refund now o.id refund_no o'.refund_id false (write_order o' w)
          else ok (o', write_order o' w)

  pub refund-Moved :
      (now : ℕ) (desk : RefundDesk) (order_no : Text)
      → Ensures (Moved w distinct) (refund_commerce_order now desk order_no w)
  unfolding refund_commerce_order
  refund-Moved now desk order_no =
      let P = Ensures (Moved w distinct) in
      option_cases P (find (has_no order_no) w.db.orders) (λ e. tt)
        (λ o found.
          let refund_no = refund_no_or desk.fresh_refund_no o in
          let wechat = text_eq o.payment_method (codes "wechat") in
          if_intro P (is_refunded o.payment_status) same (
            if_intro P (text_eq o.refund_status (codes "processing") && wechat)
              (ask_refund-Moved now desk order_no o found)
              (if_intro P (not (is_paid o.payment_status && order_paid o.status)) tt (
                if_intro P wechat (begin_refund-Moved now desk refund_no order_no o found) (
                  finalize_refund-Advanced now o.id refund_no []
                    (text_eq o.payment_method (codes "balance")) w)))))

  pub refund_notice-Moved :
      (now : ℕ) (m : Merchant) (notice : Result Notice)
      → Ensures
          (λ w'. Advances w.db.orders w'.db.orders)
          (wechat_refund_notification now m notice w)
  unfolding wechat_refund_notification
  refund_notice-Moved now m (err e) = tt
  refund_notice-Moved now m (ok n) =
      let Q : World → Type 0 = λ w'. Advances w.db.orders w'.db.orders in
      let P = Ensures Q in
      if_intro P (is_text m.mch_id n.0)
        (option_cases P (find (has_no n.1.out_trade_no) w.db.orders) (λ e. tt)
          (λ o found.
            let refund_no = refund_no_or n.1.out_refund_no o in
            Ensures-bind (λ (r : Text × Text). Unit {0}) Q (validate_refund_result o n.1 refund_no)
              (λ r.
                if text_eq r.0 (codes "SUCCESS")
                then (finalize_refund now o.id n.1.out_refund_no r.1 false w >>= λ x. ok x.1)
                else ok (write_order (record o { refund_status = lower r.0 }) w))
              (anything (validate_refund_result o n.1 refund_no))
              (λ r k.
                if_intro P (text_eq r.0 (codes "SUCCESS"))
                  (Ensures-bind (Moved w distinct) Q
                    (finalize_refund now o.id n.1.out_refund_no r.1 false w) (λ x. ok x.1)
                    (finalize_refund-Advanced now o.id n.1.out_refund_no r.1 false w) (λ x h. h))
                  (rewrites w distinct (has_no n.1.out_trade_no) o
                    (record o { refund_status = lower r.0 }) found (refl, refl, refl, refl) refl))))
        tt

  Ends-Moved :
      (now : ℕ) (g : Gateway) (order_no : Text) (r : Summary × World)
      → Settled.Ends now g order_no w r
      → Advances w.db.orders r.1.db.orders
  Ends-Moved now g order_no r (Settled.Ends.untouched e) = same
  Ends-Moved now g order_no r (Settled.Ends.paid {o = o} {id = id} found answer genuine returned) =
      subst (Ensures (Advanced w.db.orders)) returned
        (mark_order_paid-Advanced now o.id (codes "wechat") id w.db w.db)
  Ends-Moved now g order_no r (Settled.Ends.canceled {o = o} found may open_order done) =
      subst (λ (x : Bool × World). Advances w.db.orders x.1.db.orders) done.1
        (cancel_unpaid_order-Advances now timeout_reason o w
          (found_by_id (has_no order_no) w.db.orders o found distinct))

  pub time_out-Moved :
      (now : ℕ) (g : Gateway) (order_no : Text)
      → Ensures
          (λ r. Advances w.db.orders r.1.db.orders)
          (cancel_unpaid_order_by_no now g order_no w)
  time_out-Moved now g order_no =
      Ensures-map (Settled.Ends now g order_no w) (λ r. Advances w.db.orders r.1.db.orders)
        (cancel_unpaid_order_by_no now g order_no w) (Ends-Moved now g order_no)
        (Settled.cancel_unpaid_order_by_no-Ends now g order_no w)
