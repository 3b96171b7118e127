-- ===== src/Orders/Timeout.antt =====
-- `cancel_unpaid_order_by_no` of OrderService and the tasks of app/tasks/order_tasks.py: orders that were not paid
-- in time. What the payment service answers is a Gateway.

pub mod Settled
pub mod Tests
use python_server.Base.{
  ℕ, ◌+◌, ◌*◌, Bool, true, false, not, ◌&&◌, Option, none, some, List, [], ◌∷◌, map, Text, codes,
  text_eq, ltb, if◌then◌else◌, find, select, length, Result, ok, err, ◌>>=◌,
}
use python_server.Orders.Model.{Order, Db, order_pending}
use python_server.Orders.Pay.{mark_order_paid}
use python_server.Orders.Cancel.{World, cancel_unpaid_order}
use python_server.Orders.WeChat.{
  Merchant, is_wechat_pay_configured, Transaction, is_text, validate_successful_transaction,
}

-- The answer to a query: a transaction, that there is none, or another failure.
pub data Query : Type 0 where
  transaction : Transaction → Query
  order_not_exist : Query
  query_failed : Query

-- `query_transaction`, and whether `close_transaction` goes through.
pub record Gateway : Type 0 where
  pub merchant : Merchant
  pub query_transaction : Text → Query
  pub close_transaction : Text → Bool

-- The answer's keys; `changed` is false where the key is missing.
pub record Summary : Type 0 where
  pub ok : Bool
  pub changed : Bool
  pub reason : Text
  pub order_no : Text

abbrev pub refusal : Text → Text → Summary
refusal reason order_no = record {
  ok = false;
  changed = false;
  reason = reason;
  order_no = order_no;
}

abbrev pub timeout_reason : Text
timeout_reason = codes "支付超时，系统自动取消"

abbrev pub timed_out : ℕ → Order → World → Result (Summary × World)
timed_out now o w =
    let r = cancel_unpaid_order now timeout_reason o w in
    ok (record { ok = true; changed = r.0; reason = []; order_no = o.order_no }, r.1)

abbrev pub paid_after_all : ℕ → Order → Text → World → Result (Summary × World)
paid_after_all now o transaction_id w =
    mark_order_paid now o.id (codes "wechat") transaction_id w.db w.db >>= λ r. ok (
      record { ok = true; changed = true; reason = codes "wechat_paid"; order_no = o.order_no },
      record w { db = r.1 },
    )

abbrev pub not_paid_yet : ℕ → Gateway → Order → Transaction → World → Result (Summary × World)
not_paid_yet now g o t w =
    if is_text (codes "USERPAYING") t.trade_state
    then ok (refusal (codes "wechat_user_paying") o.order_no, w)
    else if is_text (codes "NOTPAY") t.trade_state && not (g.close_transaction o.order_no)
    then ok (refusal (codes "wechat_close_failed") o.order_no, w)
    else timed_out now o w

abbrev pub after_query : ℕ → Gateway → Order → World → Query → Result (Summary × World)
after_query now g o w Query.query_failed = ok (refusal (codes "wechat_query_failed") o.order_no, w)
after_query now g o w Query.order_not_exist = timed_out now o w
after_query now g o w (Query.transaction t) =
    if is_text (codes "SUCCESS") t.trade_state
    then (validate_successful_transaction g.merchant o t >>= λ id. paid_after_all now o id w)
    else not_paid_yet now g o t w

abbrev pub asks_wechat : Gateway → Order → Bool
asks_wechat g o = text_eq o.payment_method (codes "wechat") && is_wechat_pay_configured g.merchant

unfoldable pub cancel_unpaid_order_by_no : ℕ → Gateway → Text → World → Result (Summary × World)
cancel_unpaid_order_by_no now g order_no w =
    elim (find (λ o. text_eq o.order_no order_no) w.db.orders) [
      | none ↦ ok (refusal (codes "not_found") order_no, w)
      | some o ↦
          if asks_wechat g o
          then after_query now g o w (g.query_transaction o.order_no)
          else timed_out now o w
    ]

-- The columns `timeout_job_scheduled` and `created_at` of an order's row.
pub record TimeoutJob : Type 0 where
  pub order_no : Text
  pub scheduled : Bool
  pub created_at : ℕ

abbrev pub is_pending : List Order → Text → Bool
is_pending os order_no = elim (find (λ o. text_eq o.order_no order_no) os) [
  | none ↦ false
  | some o ↦ order_pending o.status
]

-- The rows of the sweep; `minutes` is the payment window.
abbrev pub overdue : ℕ → ℕ → World → List TimeoutJob → List TimeoutJob
overdue now minutes w = select (λ j.
    not j.scheduled && (is_pending w.db.orders j.order_no && ltb (j.created_at + minutes * 60) now))

-- The loop of the sweep, each order in a session of its own: the orders canceled, and whether a call raised,
-- which ends it.
unfoldable pub sweep : ℕ → Gateway → List TimeoutJob → World → (Bool × List Text) × World
sweep now g [] w = ((true, []), w)
sweep now g (j ∷ js) w = elim (cancel_unpaid_order_by_no now g j.order_no w) [
  | err e ↦ ((false, []), w)
  | ok (s, w') ↦
      let r = sweep now g js w' in
      ((r.0.0, (if s.ok && s.changed then j.order_no ∷ r.0.1 else r.0.1)), r.1)
]

-- `sweep_unscheduled_timeouts`: how many were scanned, and which were canceled; nothing where a call raised.
unfoldable pub sweep_unscheduled_timeouts :
    ℕ → ℕ → Gateway → List TimeoutJob → World → (ℕ × List Text) × World
sweep_unscheduled_timeouts now minutes g jobs w =
    let rows = overdue now minutes w jobs in
    let r = sweep now g rows w in ((if r.0.0 then (length rows, r.0.1) else (0, [])), r.1)
