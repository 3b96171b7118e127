-- ===== src/Orders/Routes/Pays.antt =====
-- A genuine report of a payment goes through.
use python_server.Base.{
  ℕ, ◌≤◌, ◌≡◌, refl, sym, ap, ◌∙◌, true, false, ◌&&◌, ◌||◌, some, Text, codes, decimal, text_eq,
  text_eq_refl, length, arith, ==_iff, find, is_empty, option_or, ok, returned,
}
use python_server.Base.Int.{ℤ}
use python_server.Points.Model.{User}
use python_server.Orders.Model.{Order, Db, is_paid, is_refunded, order_paid, find_order, find_user}
use python_server.Orders.Create.{has_no}
use python_server.Orders.Pay.{pay_locked, mark_order_paid}
use python_server.Orders.Pay.Grant.{found_balance}
use python_server.Orders.Pay.Once.{Paid, pay_locked-Paid}
use python_server.Orders.Pay.Succeeds.{is_payable, pay_locked-Returns}
use python_server.Orders.Cancel.{World}
use python_server.Orders.WeChat.{
  Merchant, Transaction, is_text, eq_ℤ, validate_successful_transaction,
}
use python_server.Orders.Timeout.Settled.{Genuine}
use python_server.Orders.Routes.{with_db, apply_wechat_payment_result}
use python_server.Orders.Routes.Payments.{Distinct, found_by_id}

eq_ℤ_refl : (a : ℤ) → eq_ℤ a a ≡ true
eq_ℤ_refl a = ground arith

Genuine-validates :
    (m : Merchant) (o : Order) (t : Transaction) (id : Text)
    → Genuine m o t id
    → validate_successful_transaction m o t ≡ ok id
unfolding validate_successful_transaction
Genuine-validates m o t id g =
    let state : is_text (codes "SUCCESS") t.trade_state ≡ true =
      ap (is_text (codes "SUCCESS")) g.success ∙ text_eq_refl (codes "SUCCESS") in
    let merchant : is_text m.mch_id t.mchid ≡ true =
      ap (is_text m.mch_id) g.merchant ∙ text_eq_refl m.mch_id in
    let app : is_text m.mini_app_id t.appid ≡ true =
      ap (is_text m.mini_app_id) g.app ∙ text_eq_refl m.mini_app_id in
    let order : text_eq t.out_trade_no o.order_no ≡ true =
      ap (λ s. text_eq s o.order_no) g.order ∙ text_eq_refl o.order_no in
    let currency : text_eq (option_or (codes "CNY") t.currency) (codes "CNY") ≡ true =
      ap (λ s. text_eq s (codes "CNY")) g.currency ∙ text_eq_refl (codes "CNY") in
    let number : is_empty t.transaction_id ≡ false = ap is_empty (sym g.number.0) ∙ g.number.1 in
    rw (state, merchant, app, order)
      (rw g.amount (
        rw (currency, g.positive, eq_ℤ_refl o.payable_amount, number)
          (ap (λ s. ok s) (sym g.number.0))))

mark_order_paid-Pays :
    (now : ℕ) (transaction : Text) (o : Order) (u : User) (saved db : Db)
    → find_order o.id db.orders ≡ some o
    → find_user o.user_id db.users ≡ some u
    → is_payable o ≡ true
    → length (decimal o.id) ≤ 140
    → (r : Order × Db) × (mark_order_paid now o.id (codes "wechat") transaction saved db ≡ ok r)
      × Paid o.user_id o.id r
unfolding mark_order_paid
mark_order_paid-Pays now transaction o u saved db found has payable short =
    let m = pay_locked now (codes "wechat") transaction o saved db in
    let (r, e, p) =
      returned (Paid o.user_id o.id) m
        (pay_locked-Returns now (codes "wechat") transaction o saved db u.balance payable short
          (found_balance o.user_id db.users u has).1)
        (pay_locked-Paid now o.user_id o.id (codes "wechat") transaction o saved db found
          ((==_iff o.user_id o.user_id).1 refl)) in
    (r, rw (found, mark_order_paid) e, p)

applied :
    (now : ℕ) (m : Merchant) (t : Transaction) (id : Text) (o : Order) (w : World) (r : Order × Db)
    → find (has_no t.out_trade_no) w.db.orders ≡ some o
    → validate_successful_transaction m o t ≡ ok id
    → (is_paid o.payment_status || is_refunded o.payment_status) ≡ false
    → mark_order_paid now o.id (codes "wechat") id w.db w.db ≡ ok r
    → apply_wechat_payment_result now m t w ≡ ok (with_db w r)
unfolding apply_wechat_payment_result
applied now m t id o w r found valid open_order marked =
    rw (found, apply_wechat_payment_result) (rw valid (rw open_order (rw marked refl)))

-- Where the service's report of a payment is genuine, for an order that is pending, neither paid nor refunded, whose
-- user is there and whose id is no longer than 140 digits, the report is applied, and the order is in the table as paid.
-- Each id is the id of one order.
pub apply_wechat_payment_result-Pays :
    (now : ℕ) (m : Merchant) (t : Transaction) (id : Text) (o : Order) (u : User) (w : World)
    → Distinct w.db.orders
    → find (has_no t.out_trade_no) w.db.orders ≡ some o
    → find_user o.user_id w.db.users ≡ some u
    → is_payable o ≡ true
    → is_refunded o.payment_status ≡ false
    → Genuine m o t id
    → length (decimal o.id) ≤ 140
    → (r : Order × World) × (apply_wechat_payment_result now m t w ≡ ok r)
      × (find_order o.id r.1.db.orders ≡ some r.0)
      × (is_paid r.0.payment_status && order_paid r.0.status ≡ true)
apply_wechat_payment_result-Pays now m t id o u w distinct found has payable fresh genuine short =
    let here' = found_by_id (has_no t.out_trade_no) w.db.orders o found distinct in
    let (r, e, (row, (paid, own))) =
      mark_order_paid-Pays now id o u w.db w.db here' has payable short in
    let valid = Genuine-validates m o t id genuine in
    let open_order : (is_paid o.payment_status || is_refunded o.payment_status) ≡ false =
      ground arith in
    (with_db w r, applied now m t id o w r found valid open_order e, row, paid)
