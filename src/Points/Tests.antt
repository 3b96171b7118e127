-- ===== src/Points/Tests.antt =====
-- Runs of the points service, and its theorems at concrete sessions.
use python_server.Base.{
  ◌≡◌, refl, none, some, List, [], ◌∷◌, codes, arith, false, ok, err, Ensures, value_or, option_or,
  integrity_error, text_eq, decimal, find,
}
use python_server.Base.Int.{pos}
use python_server.Points.Model.{User, income, Ledger, active, Lot, Session, Posting}
use python_server.Points.Lots.{remaining_sum}
use python_server.Points.Rows.{ledger_row, flush_ledger, add_lot}
use python_server.Points.Credit.{credit_locked}
use python_server.Points.Expire.{
  expire_lots, expire_booked, expire_found, expire_due_locked, due_lots, ensure_lot_coverage,
}
use python_server.Points.Debit.{consume, spend, debit, debit_locked}
use python_server.Points.Refund.{restore, restore_all, give_back, refund_locked}
use python_server.Points.Invariant.{IsSound}
use python_server.Points.Debit.Locked.{Debited, debit_locked-Debited, debit_locked_succeeds}
use python_server.Points.Debit.Order.{InSpendOrder, Gives, spend_in_order}
use python_server.Points.History.{
  Call, credits, revokes, debits, refunds, expires, run, run-IsSound,
}
use python_server.Points.Expire.Cleared.{Cleared, expire_due_locked-Cleared}
use python_server.Points.Expire.Again.{IsBlocked, expire_due_locked_again}
use python_server.Points.Refund.Restored.{GivenBack, refund_locked-GivenBack}

abbrev student : User
student = record {
  id = 1;
  user_no = codes "U1";
  points = 0;
  balance = 0;
  vip_enabled = false;
  vip_type = [];
  vip_started_at = none;
  vip_expires_at = none;
}

abbrev empty : Session
empty = record {
  user = student;
  ledgers = [];
  lots = [];
  allocations = [];
  next_ledger = 1;
  next_lot = 1;
  next_allocation = 1;
  issued = 0;
}

abbrev reward : Posting
reward = record {
  biz_type = codes "reward";
  biz_id = 4;
  biz_no = codes "R4";
  idempotency_key = codes "reward:4";
  remark = [];
}

abbrev exchange : Posting
exchange = record {
  biz_type = codes "travel_exchange";
  biz_id = 7;
  biz_no = codes "T7";
  idempotency_key = codes "travel-exchange:T7";
  remark = [];
}

abbrev exchange_refund : Posting
exchange_refund = record {
  biz_type = codes "travel_exchange_refund";
  biz_id = 7;
  biz_no = codes "T7";
  idempotency_key = codes "travel-exchange-refund:T7";
  remark = [];
}

abbrev no_row : Ledger
no_row = ledger_row empty income 0 0 0 reward

-- Opens the service for a run.
service : Unit {0}
unfolding credit_locked debit_locked debit expire_due_locked expire_found expire_booked expire_lots
    ensure_lot_coverage spend flush_ledger consume refund_locked give_back restore_all restore
    text_eq decimal
service = tt

-- Ten points that expire at 100.
abbrev credited : Ledger × Session
unfolding service
credited = value_or (no_row, empty) (credit_locked empty (pos 10) reward (some 100) empty)

-- Four of them are spent at 50.
abbrev debited : Ledger × Session
unfolding service
debited = value_or (no_row, empty) (debit_locked 50 50 50 (pos 4) exchange credited.1)

-- The other six expire.
abbrev lapsed : Session
unfolding service
lapsed = (value_or (none, empty) (expire_due_locked 120 debited.1)).1

-- The four come back, into the same lot, which is active until 200.
abbrev refunded : Ledger × Session
unfolding service
refunded =
    value_or (no_row, empty)
      (refund_locked 130 (codes "travel_exchange") (some 200) exchange_refund lapsed)

debited_points : debited.1.user.points ≡ 6
unfolding service
debited_points = refl

lapsed_points : lapsed.user.points ≡ 0
unfolding service
lapsed_points = refl

refunded_points : refunded.1.user.points ≡ 4
unfolding service
refunded_points = refl

refunded_due : remaining_sum (due_lots 210 refunded.1) ≡ 4
unfolding service
refunded_due = refl

credited-IsSound : IsSound credited.1
unfolding service
credited-IsSound = omega arith

debit_locked-Debited_example :
    Ensures
      (λ r. Debited 50 4 credited.1 r.0 r.1)
      (debit_locked 50 50 50 (pos 4) exchange credited.1)
unfolding service
debit_locked-Debited_example =
    debit_locked-Debited 50 50 50 4 exchange credited.1 credited-IsSound refl

debit_locked_succeeds_example :
    (row : Ledger) × (t : Session) × (debit_locked 50 50 50 (pos 4) exchange credited.1
      ≡ ok (row, t))
unfolding service
debit_locked_succeeds_example =
    debit_locked_succeeds 50 50 50 4 exchange credited.1 refl (omega arith) (omega arith)
      (omega arith) (omega arith) (omega arith) refl

expire_due_locked-Cleared_example :
    Ensures (λ r. Cleared 120 credited.1 r.1) (expire_due_locked 120 credited.1)
expire_due_locked-Cleared_example = expire_due_locked-Cleared 120 credited.1 credited-IsSound

refund_locked-GivenBack_example :
    Ensures
      (λ r. GivenBack debited.0 debited.1 r.0 r.1)
      (refund_locked 60 (codes "travel_exchange") none exchange_refund debited.1)
unfolding service
refund_locked-GivenBack_example =
    refund_locked-GivenBack 60 (codes "travel_exchange") none exchange_refund debited.1 debited.0
      refl refl

-- The row of the first expiry.
abbrev first_expiry : Ledger
unfolding service
first_expiry =
    option_or no_row
      (find (λ row. text_eq row.biz_type (codes "points_expired")) refunded.1.ledgers)

refunded-IsBlocked : IsBlocked 210 refunded.1 first_expiry
unfolding service
refunded-IsBlocked = record {
  has_points = omega arith;
  has_due = omega arith;
  booked_before = refl;
}

abbrev second_exchange : Posting
second_exchange = record exchange { idempotency_key = codes "travel-exchange:T8" }

expire_due_locked_again_example :
    (expire_due_locked 210 refunded.1 ≡ err integrity_error)
    × (debit_locked 210 210 210 (pos 1) second_exchange refunded.1 ≡ err integrity_error)
unfolding service
expire_due_locked_again_example =
    expire_due_locked_again 210 210 210 1 second_exchange refunded.1 first_expiry refunded-IsBlocked
      (omega arith) refl

abbrev history : List Call
history =
    credits (pos 10) reward (some 100)
    ∷ debits 50 50 50 (pos 4) exchange
    ∷ expires 120
    ∷ refunds 130 (codes "travel_exchange") (some 200) exchange_refund
    ∷ revokes (codes "reward:4") second_exchange
    ∷ []

empty-IsSound : IsSound empty
empty-IsSound = omega arith

run-IsSound_example : IsSound (run empty history)
run-IsSound_example = run-IsSound empty history empty-IsSound

-- A lot that expires at 100 stands before one that never does.
abbrev two_lots : Session
unfolding add_lot
two_lots = add_lot 2 5 none credited.1

abbrev kept_lot : Lot
kept_lot = record {
  id = 2;
  user_id = 1;
  source_ledger_id = 2;
  original_amount = 5;
  remaining_amount = 5;
  expires_at = none;
  status = active;
}

abbrev short_lot : Lot
short_lot = record kept_lot {
  id = 1;
  source_ledger_id = 1;
  original_amount = 10;
  remaining_amount = 10;
  expires_at = some 100;
}

abbrev spending : Posting
spending = record {
  biz_type = codes "exchange";
  biz_id = 9;
  biz_no = codes "E9";
  idempotency_key = codes "spend-9";
  remark = [];
}

spend_in_order_example :
    InSpendOrder (short_lot ∷ kept_lot ∷ [])
    × Ensures (Gives 10 12 kept_lot) (spend 50 12 spending two_lots)
unfolding service add_lot
spend_in_order_example =
    spend_in_order 50 12 spending two_lots (short_lot ∷ []) kept_lot [] (omega arith) refl
