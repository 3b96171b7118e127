-- ===== src/Orders/Timeout/Settled.antt =====
-- What becomes of an order that was not paid in time.
use python_server.Base.{
  ℕ, ◌≡◌, refl, sym, ap, ◌∙◌, true, false, not, ◌&&◌, ◌||◌, [], Bool, ◌⊎◌, inl, inr, Option, none,
  some, arith, Text, codes, text_eq, text_eq→eq, if◌then◌else◌, if_cases, option_cases, find,
  is_empty, option_or, Result, ok, err, ◌>>=◌, Ensures, Ensures-bind, Ensures-map,
  wechat_pay_amount_mismatch, Error, subst,
}
use python_server.Base.Int.{ℤ, pos, eq_of_parts, ltb_ℤ}
use python_server.Orders.Model.{Order, Db, is_paid, order_pending, order_items}
use python_server.Orders.Pay.{mark_order_paid}
use python_server.Orders.Cancel.{
  World, write_order, canceled_order, cancel_items, cancel_unpaid_order,
}
use python_server.Orders.WeChat.{
  Merchant, is_wechat_pay_configured, Transaction, is_text, eq_ℤ, read_total, check_transaction_id,
  check_paid, validate_successful_transaction,
}
use python_server.Orders.Timeout.{
  Query, Gateway, Summary, timeout_reason, timed_out, paid_after_all, after_query, asks_wechat,
  cancel_unpaid_order_by_no,
}

-- A report of the very payment of an order: the merchant's own, for the order's number and its amount.
pub record Genuine (m : Merchant) (o : Order) (t : Transaction) (id : Text) : Type 0 where
  pub success : t.trade_state ≡ some (codes "SUCCESS")
  pub merchant : t.mchid ≡ some m.mch_id
  pub app : t.appid ≡ some m.mini_app_id
  pub order : t.out_trade_no ≡ o.order_no
  pub amount : read_total t.amount_total ≡ some o.payable_amount
  pub currency : option_or (codes "CNY") t.currency ≡ codes "CNY"
  pub positive : ltb_ℤ o.payable_amount (pos 1) ≡ false
  pub number : (id ≡ t.transaction_id) × (is_empty id ≡ false)

is_text→eq : (s : Text) (o : Option Text) → is_text s o ≡ true → o ≡ some s
is_text→eq s none h = absurd (ground arith)
is_text→eq s (some t) h = ap some (sym (text_eq→eq s t h))

eq_ℤ→eq : (a b : ℤ) → eq_ℤ a b ≡ true → a ≡ b
eq_ℤ→eq a b h = eq_of_parts a b (ground arith)

module _ (m : Merchant) (o : Order) (t : Transaction) where
  abbrev Amount : ℤ → Text → Type 0
  Amount n id =
      (n ≡ o.payable_amount)
      × (option_or (codes "CNY") t.currency ≡ codes "CNY")
      × (ltb_ℤ o.payable_amount (pos 1) ≡ false)
      × (id ≡ t.transaction_id)
      × (is_empty id ≡ false)

  check_paid-Amount : (n : ℤ) → Ensures (Amount n) (check_paid o t n)
  check_paid-Amount n =
      let P = Ensures (Amount n) in
      let currency = option_or (codes "CNY") t.currency in
      if_cases P (not (text_eq currency (codes "CNY"))) (λ e. tt)
        (λ cny.
          if_cases
            (λ (m : Result ℤ). P (
              m >>= λ fen.
              if eq_ℤ n fen
              then check_transaction_id t.transaction_id
              else err wechat_pay_amount_mismatch))
            (ltb_ℤ o.payable_amount (pos 1)) (λ e. tt)
            (λ positive.
              if_cases P (eq_ℤ n o.payable_amount)
                (λ same.
                  if_cases P (is_empty t.transaction_id) (λ e. tt)
                    (λ numbered. (
                      eq_ℤ→eq n o.payable_amount same,
                      text_eq→eq currency (codes "CNY") (ground arith),
                      positive,
                      refl,
                      numbered,
                    )))
                (λ e. tt)))

  pub validate_successful_transaction-Genuine :
      Ensures (Genuine m o t) (validate_successful_transaction m o t)
  unfolding validate_successful_transaction
  validate_successful_transaction-Genuine =
      let P = Ensures (Genuine m o t) in
      if_cases P (not (is_text (codes "SUCCESS") t.trade_state)) (λ e. tt)
        (λ success.
          if_cases P (not (is_text m.mch_id t.mchid)) (λ e. tt)
            (λ merchant.
              if_cases P (not (is_text m.mini_app_id t.appid)) (λ e. tt)
                (λ app.
                  if_cases P (not (text_eq t.out_trade_no o.order_no)) (λ e. tt)
                    (λ order.
                      option_cases P (read_total t.amount_total) (λ e. tt)
                        (λ n read.
                          Ensures-map (Amount n) (Genuine m o t) (check_paid o t n)
                            (λ id (same, cny, positive, number, full). record {
                              success = is_text→eq (codes "SUCCESS") t.trade_state (ground arith);
                              merchant = is_text→eq m.mch_id t.mchid (ground arith);
                              app = is_text→eq m.mini_app_id t.appid (ground arith);
                              order = text_eq→eq t.out_trade_no o.order_no (ground arith);
                              amount = read ∙ ap some same;
                              currency = cny;
                              positive = positive;
                              number = (number, full);
                            })
                            (check_paid-Amount n))))))

-- What lets an order be canceled: the service is not asked, since the order is not to be paid through it or its
-- settings are incomplete; or it has no transaction of the order; or it reports one that has not succeeded and is
-- not being paid, and that it has closed if it was open.
abbrev MayCancel : Gateway → Order → Type 0
MayCancel g o =
    ((text_eq o.payment_method (codes "wechat") ≡ false)
      ⊎ (is_wechat_pay_configured g.merchant ≡ false))
    ⊎ ((g.query_transaction o.order_no ≡ Query.order_not_exist)
        ⊎ ((t : Transaction) × (g.query_transaction o.order_no ≡ Query.transaction t)
            × (is_text (codes "SUCCESS") t.trade_state ≡ false)
            × (is_text (codes "USERPAYING") t.trade_state ≡ false)
            × (is_text (codes "NOTPAY") t.trade_state ≡ true
                → g.close_transaction o.order_no ≡ true)))

-- How a call that returns has ended: with nothing changed, and saying so; with the order paid by a genuine report of
-- the service; or with the cancellation of an order that was not paid.
pub data Ends (now : ℕ) (g : Gateway) (order_no : Text) (w : World) : Summary × World → Type 0 where
  untouched : {s : Summary} → s.changed ≡ false → Ends now g order_no w (s, w)
  paid :
      {o o' : Order} {t : Transaction} {id : Text} {db : Db} {s : Summary}
      → find (λ o. text_eq o.order_no order_no) w.db.orders ≡ some o
      → g.query_transaction o.order_no ≡ Query.transaction t
      → Genuine g.merchant o t id
      → mark_order_paid now o.id (codes "wechat") id w.db w.db ≡ ok (o', db)
      → Ends now g order_no w (s, record w { db = db })
  canceled :
      {o : Order} {s : Summary} {v : World}
      → find (λ o. text_eq o.order_no order_no) w.db.orders ≡ some o
      → MayCancel g o
      → (is_paid o.payment_status ≡ false) × (order_pending o.status ≡ true)
      → (s.changed ≡ true) × (cancel_unpaid_order now timeout_reason o w ≡ (true, v))
      → Ends now g order_no w (s, v)

not_asked_for : (a b : Bool) → a && b ≡ false → (a ≡ false) ⊎ (b ≡ false)
not_asked_for true b h = inr h
not_asked_for false b h = inl refl

-- A cancellation is refused, or carried out.
cancellation {ℓ} :
    (P : Bool × World → Type ℓ) (now : ℕ) (reason : Text) (o : Order) (w : World)
    → (is_paid o.payment_status || not (order_pending o.status) ≡ true → P (false, w))
    → (is_paid o.payment_status || not (order_pending o.status) ≡ false
        → P (
          true,
          write_order (canceled_order now reason o) (cancel_items (order_items o.id w.db.items) w),
        ))
    → P (cancel_unpaid_order now reason o w)
unfolding cancel_unpaid_order
cancellation P now reason o w refused done =
    if_cases P (is_paid o.payment_status || not (order_pending o.status)) refused done

result_cases :
    (m : Result (Order × Db)) → ((r : Order × Db) × (m ≡ ok r)) ⊎ ((e : Error) × (m ≡ err e))
result_cases (ok r) = inl (r, refl)
result_cases (err e) = inr (e, refl)

module _ (now : ℕ) (g : Gateway) (order_no : Text) (w : World) (o : Order)
    (found : find (λ o. text_eq o.order_no order_no) w.db.orders ≡ some o) where
  timed_out-Ends : MayCancel g o → Ensures (Ends now g order_no w) (timed_out now o w)
  timed_out-Ends may =
      let P : Bool × World → Type 0 = λ r.
        cancel_unpaid_order now timeout_reason o w ≡ r
        → Ensures (Ends now g order_no w)
            (ok (record { ok = true; changed = r.0; reason = []; order_no = o.order_no }, r.1)) in
      cancellation P now timeout_reason o w (λ paid same. Ends.untouched refl)
        (λ open_still same. Ends.canceled found may (ground arith, ground arith) (refl, same)) refl

  paid_after_all-Ends :
      (t : Transaction) (id : Text)
      → g.query_transaction o.order_no ≡ Query.transaction t
      → Genuine g.merchant o t id
      → Ensures (Ends now g order_no w) (paid_after_all now o id w)
  paid_after_all-Ends t id answer genuine =
      let m = mark_order_paid now o.id (codes "wechat") id w.db w.db in
      let P = Ensures (Ends now g order_no w) in
      let finish : Order × Db → Result (Summary × World) = λ r. ok (
        record { ok = true; changed = true; reason = codes "wechat_paid"; order_no = o.order_no },
        record w { db = r.1 },
      ) in
      elim (result_cases m) [
        | inl (r, returned) ↦
            subst (λ x. P (x >>= finish)) (sym returned) (Ends.paid found answer genuine returned)
        | inr (e, failed) ↦ subst (λ x. P (x >>= finish)) (sym failed) tt
      ]

  after_query-Ends :
      (q : Query)
      → g.query_transaction o.order_no ≡ q
      → Ensures (Ends now g order_no w) (after_query now g o w q)
  after_query-Ends Query.query_failed answer = Ends.untouched refl
  after_query-Ends Query.order_not_exist answer = timed_out-Ends (inr (inl answer))
  after_query-Ends (Query.transaction t) answer =
      let P = Ensures (Ends now g order_no w) in
      if_cases P (is_text (codes "SUCCESS") t.trade_state)
        (λ success.
          Ensures-bind (Genuine g.merchant o t) (Ends now g order_no w)
            (validate_successful_transaction g.merchant o t) (λ id. paid_after_all now o id w)
            (validate_successful_transaction-Genuine g.merchant o t)
            (λ id genuine. paid_after_all-Ends t id answer genuine))
        (λ unpaid.
          if_cases P (is_text (codes "USERPAYING") t.trade_state) (λ e. Ends.untouched refl)
            (λ idle.
              if_cases P
                (is_text (codes "NOTPAY") t.trade_state && not (g.close_transaction o.order_no))
                (λ e. Ends.untouched refl)
                (λ closed.
                  timed_out-Ends
                    (inr (inr (t, answer, unpaid, idle, λ open_still. ground arith))))))

pub cancel_unpaid_order_by_no-Ends :
    (now : ℕ) (g : Gateway) (order_no : Text) (w : World)
    → Ensures (Ends now g order_no w) (cancel_unpaid_order_by_no now g order_no w)
unfolding cancel_unpaid_order_by_no
cancel_unpaid_order_by_no-Ends now g order_no w =
    let P = Ensures (Ends now g order_no w) in
    option_cases P (find (λ o. text_eq o.order_no order_no) w.db.orders) (λ e. Ends.untouched refl)
      (λ o found.
        if_cases P (asks_wechat g o)
          (λ asks. after_query-Ends now g order_no w o found (g.query_transaction o.order_no) refl)
          (λ e. timed_out-Ends now g order_no w o found (
            inl (
              not_asked_for (text_eq o.payment_method (codes "wechat"))
                (is_wechat_pay_configured g.merchant) e))))
