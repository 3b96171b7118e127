-- ===== src/Orders/Routes/Payments.antt =====
-- The payment routes follow the diagram, where ids name one order each.
use python_server.Base.{
  ℕ, ◌≡◌, refl, subst, Bool, not, ◌&&◌, ◌||◌, Option, none, some, List, [], ◌∷◌, ◌++◌, Text, codes,
  text_eq, arith, ◌==◌, if◌then◌else◌, find, if_intro, option_cases, option_or, Bool-cases, inl,
  inr, Ensures, Ensures-bind, Result, ok, err, ◌>>=◌, is_empty, order_not_refundable,
  order_already_paid, order_not_payable, not_found,
}
use python_server.Orders.Model.{
  Order, is_paid, is_refunded, order_paid, order_pending, find_order, order_items,
}
use python_server.Orders.Create.{has_no}
use python_server.Orders.Pay.{mark_order_paid, pay_with_balance}
use python_server.Orders.Cancel.{World, write_order}
use python_server.Orders.WeChat.{Merchant, Transaction, is_text, validate_successful_transaction}
use python_server.Orders.Timeout.{Query, Gateway}
use python_server.Orders.Routes.{
  in_refund, requested, with_db, by_wechat, description, same_transaction, payment_over,
  sync_answer, is_test, request_standard_order_refund, balance_pay_standard_order,
  wechat_pay_standard_order, apply_wechat_payment_result, sync_wechat_standard_order,
  wechat_pay_notification, mock_pay_standard_order,
}
use python_server.Orders.Routes.Stages.{stage, ◌⟶◌, stays, SameOrder, Advances, same, writes}
use python_server.Orders.Routes.Moves.{
  Advanced, AdvancedWorld, anything, mark_order_paid-Advanced, pay_with_balance-Advanced,
  cancel_unpaid_order-Advances,
}

abbrev pub Distinct : List Order → Type 0
Distinct [] = Unit {0}
Distinct (o ∷ os) = (find_order o.id os ≡ none) × Distinct os

-- An order that a query finds is the one of its id.
pub found_by_id :
    (p : Order → Bool) (os : List Order) (o : Order)
    → find p os ≡ some o
    → Distinct os
    → find_order o.id os ≡ some o
found_by_id p [] o found h = absurd (ground arith)
found_by_id p (x ∷ os) o found h = elim (Bool-cases (p x)) [
  | inl e ↦ ground (arith)
  | inr e ↦ ground (arith, found_by_id p os o)
]

own_found :
    {A : Type 0} (P : A → Type 0) (m : Option Order) (user_id : ℕ) (f : Order → Result A)
    → ((o : Order) → m ≡ some o → Ensures P (f o))
    → Ensures P (
        (elim m as (λ _. Result Order) [
          | none ↦ err not_found
          | some o ↦ if o.user_id == user_id then ok o else err not_found
        ])
        >>= f)
own_found P none user_id f h = tt
own_found P (some o) user_id f h =
    if_intro (λ (m : Result Order). Ensures P (m >>= f)) (o.user_id == user_id) (h o refl) tt

module _ (w : World) (distinct : Distinct w.db.orders) where
  abbrev pub Moved : Order × World → Type 0
  Moved = AdvancedWorld w.db.orders

  -- A row written over itself with other columns than its statuses.
  pub rewrites :
      (p : Order → Bool) (o o' : Order)
      → find p w.db.orders ≡ some o
      → SameOrder o o'
      → stage o ≡ stage o'
      → Advances w.db.orders (write_order o' w).db.orders
  rewrites p o o' found s e =
      writes o o' same (found_by_id p w.db.orders o found distinct) s
        (subst (λ t. stage o ⟶ t) e stays)

  pub request_refund-Moved :
      (now : ℕ) (reason order_no : Text) (user_id : ℕ)
      → Ensures Moved (request_standard_order_refund now reason order_no user_id w)
  unfolding request_standard_order_refund
  request_refund-Moved now reason order_no user_id =
      own_found Moved (find (has_no order_no) w.db.orders) user_id
        (λ o.
          if is_refunded o.payment_status || in_refund o
          then ok (o, w)
          else if is_paid o.payment_status && order_paid o.status
          then ok (requested now reason o, write_order (requested now reason o) w)
          else err order_not_refundable)
        (λ o found. if_intro (Ensures Moved) (is_refunded o.payment_status || in_refund o) same (
          if_intro (Ensures Moved) (is_paid o.payment_status && order_paid o.status)
            (rewrites (has_no order_no) o (requested now reason o) found (refl, refl, refl, refl)
              refl)
            tt))

  pub pay_balance-Moved :
      (now : ℕ) (order_no : Text) (user_id : ℕ)
      → Ensures Moved (balance_pay_standard_order now order_no user_id w)
  unfolding balance_pay_standard_order
  pay_balance-Moved now order_no user_id =
      own_found Moved (find (has_no order_no) w.db.orders) user_id
        (λ o. pay_with_balance now user_id o.id w.db w.db >>= λ r. ok (with_db w r))
        (λ o found.
          Ensures-bind (Advanced w.db.orders) Moved (pay_with_balance now user_id o.id w.db w.db)
            (λ r. ok (with_db w r)) (pay_with_balance-Advanced now user_id o.id w.db w.db)
            (λ r h. h))

  marked-Moved :
      (now id : ℕ) (method transaction : Text)
      → Ensures Moved
          (mark_order_paid now id method transaction w.db w.db >>= λ r. ok (with_db w r))
  marked-Moved now id method transaction =
      Ensures-bind (Advanced w.db.orders) Moved
        (mark_order_paid now id method transaction w.db w.db) (λ r. ok (with_db w r))
        (mark_order_paid-Advanced now id method transaction w.db w.db) (λ r h. h)

  pub pay_mock-Moved :
      (now : ℕ) (environment id order_no : Text) (user_id : ℕ)
      → Ensures Moved (mock_pay_standard_order now environment id order_no user_id w)
  unfolding mock_pay_standard_order
  pay_mock-Moved now environment id order_no user_id =
      if_intro (Ensures Moved) (is_test environment)
        (own_found Moved (find (has_no order_no) w.db.orders) user_id
          (λ o. mark_order_paid now o.id (codes "mock") id w.db w.db >>= λ r. ok (with_db w r))
          (λ o found. marked-Moved now o.id (codes "mock") id))
        tt

  abbrev pub MovedWith : Text × World → Type 0
  MovedWith r = Advances w.db.orders r.1.db.orders

  by_wechat-Moved :
      (o : Order) (order_no : Text)
      → find (has_no order_no) w.db.orders ≡ some o
      → Advances w.db.orders (by_wechat o w).db.orders
  by_wechat-Moved o order_no found =
      if_intro (λ (w' : World). Advances w.db.orders w'.db.orders)
        (text_eq o.payment_method (codes "wechat")) same
        (rewrites (has_no order_no) o (record o { payment_method = codes "wechat" }) found
          (refl, refl, refl, refl) refl)

  pub pay_wechat-Moved :
      (create : Order → Text → Text → Result Text) (order_no : Text) (user_id : ℕ) (openid : Text)
      → Ensures MovedWith (wechat_pay_standard_order create order_no user_id openid w)
  unfolding wechat_pay_standard_order
  pay_wechat-Moved create order_no user_id openid =
      let prepay : Order → Result (Text × World) = λ o.
        create o (description (order_items o.id w.db.items)) openid >>= λ params.
        ok (params, by_wechat o w) in
      own_found MovedWith (find (has_no order_no) w.db.orders) user_id
        (λ o.
          if is_paid o.payment_status
          then err order_already_paid
          else if not (order_pending o.status)
          then err order_not_payable
          else prepay o)
        (λ o found. if_intro (Ensures MovedWith) (is_paid o.payment_status) tt (
          if_intro (Ensures MovedWith) (not (order_pending o.status)) tt (
            Ensures-bind (λ (t : Text). Unit {0}) MovedWith
              (create o (description (order_items o.id w.db.items)) openid)
              (λ params. ok (params, by_wechat o w))
              (anything (create o (description (order_items o.id w.db.items)) openid))
              (λ params h. by_wechat-Moved o order_no found))))

  apply-Moved :
      (now : ℕ) (m : Merchant) (t : Transaction)
      → Ensures Moved (apply_wechat_payment_result now m t w)
  unfolding apply_wechat_payment_result
  apply-Moved now m t =
      option_cases (Ensures Moved) (find (has_no t.out_trade_no) w.db.orders) (λ e. tt)
        (λ o found.
          Ensures-bind (λ (id : Text). Unit {0}) Moved (validate_successful_transaction m o t)
            (λ id.
              if is_paid o.payment_status || is_refunded o.payment_status
              then same_transaction o id w
              else (mark_order_paid now o.id (codes "wechat") id w.db w.db >>= λ r.
                  ok (with_db w r)))
            (anything (validate_successful_transaction m o t))
            (λ id h.
              if_intro (Ensures Moved) (is_paid o.payment_status || is_refunded o.payment_status)
                (if_intro (Ensures Moved)
                  (not (is_empty o.transaction_id) && not (text_eq o.transaction_id id)) tt same)
                (marked-Moved now o.id (codes "wechat") id)))

  sync_answer-Moved :
      (now : ℕ) (g : Gateway) (o : Order) (order_no : Text) (q : Query)
      → find (has_no order_no) w.db.orders ≡ some o
      → Ensures Moved (sync_answer now g o w q)
  sync_answer-Moved now g o order_no Query.order_not_exist found = tt
  sync_answer-Moved now g o order_no Query.query_failed found = tt
  sync_answer-Moved now g o order_no (Query.transaction t) found =
      if_intro (Ensures Moved) (is_text (codes "SUCCESS") t.trade_state)
        (apply-Moved now g.merchant t)
        (if_intro Moved (payment_over t.trade_state)
          (cancel_unpaid_order-Advances now (codes "微信支付状态：" ++ option_or [] t.trade_state) o w
            (found_by_id (has_no order_no) w.db.orders o found distinct))
          same)

  pub sync_wechat-Moved :
      (now : ℕ) (g : Gateway) (order_no : Text) (user_id : ℕ)
      → Ensures Moved (sync_wechat_standard_order now g order_no user_id w)
  unfolding sync_wechat_standard_order
  sync_wechat-Moved now g order_no user_id =
      own_found Moved (find (has_no order_no) w.db.orders) user_id
        (λ o.
          if is_paid o.payment_status
          then ok (o, w)
          else if not (text_eq o.payment_method (codes "wechat")) || not (order_pending o.status)
          then err order_not_payable
          else sync_answer now g o w (g.query_transaction o.order_no))
        (λ o found. if_intro (Ensures Moved) (is_paid o.payment_status) same (
          if_intro (Ensures Moved)
            (not (text_eq o.payment_method (codes "wechat")) || not (order_pending o.status)) tt
            (sync_answer-Moved now g o order_no (g.query_transaction o.order_no) found)))

  pub pay_notice-Moved :
      (now : ℕ) (m : Merchant) (notice : Result Transaction)
      → Ensures (λ w'. Advances w.db.orders w'.db.orders) (wechat_pay_notification now m notice w)
  unfolding wechat_pay_notification
  pay_notice-Moved now m (err e) = tt
  pay_notice-Moved now m (ok t) =
      let P = Ensures {A = World} (λ w'. Advances w.db.orders w'.db.orders) in
      if_intro P (is_text (codes "SUCCESS") t.trade_state)
        (Ensures-bind Moved (λ w'. Advances w.db.orders w'.db.orders)
          (apply_wechat_payment_result now m t w) (λ r. ok r.1) (apply-Moved now m t) (λ r h. h))
        same
