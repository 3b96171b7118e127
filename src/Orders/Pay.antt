-- ===== src/Orders/Pay.antt =====
-- `mark_order_paid` and `pay_with_balance` of OrderService. The readings of the clock within a call are
-- one value, `now`; `saved` is the database as it was last committed.
pub mod Grant
pub mod Once
pub mod Charged
pub mod Succeeds
use python_server.Base.{
  ℕ, ◌+◌, ◌-◌, ◌*◌, max, Bool, true, false, not, ◌&&◌, ◌||◌, Option, none, some, List, [], ◌∷◌,
  ◌++◌, map, Text, codes, decimal, ltb, leb, ◌==◌, if◌then◌else◌, find, option_or, select, text_eq,
  replicate, is_empty, contains, Result, ok, err, ◌>>=◌, order_not_found, order_not_payable,
  user_not_found, invalid_order_amount, insufficient_balance,
}
use python_server.Base.Int.{ℤ, pos, negsuc, ltb_ℤ, pos_part, neg_part}
use python_server.Points.Model.{User, Ledger, Session, Posting}
use python_server.Points.Credit.{credit_locked}
use python_server.Orders.Model.{
  PaymentStatus, OrderStatus, is_paid, order_pending, order_paid, Order, Item, Product, Entitlement,
  WalletTransaction, PointRule, Plan, Db, day, find_user, set_user, points_session, end_session,
  find_order, set_order, set_item, find_product, set_product, order_items, is_vip,
}

-- `abs(int(item.product_id))`
abbrev pub magnitude : ℤ → ℕ
magnitude n = pos_part n + neg_part n

abbrev pub find_plan : ℕ → List Plan → Option Plan
find_plan id = find (λ p. p.id == id)

-- `current_end`
abbrev pub current_end : ℕ → Bool → Option ℕ → ℕ
current_end now true (some e) = if ltb now e then e else now
current_end now true none = now
current_end now false e = now

abbrev pub extended_user : ℕ → Plan → User → User
extended_user now plan u = record u {
  vip_enabled = true;
  vip_type = plan.vip_type;
  vip_started_at = some (option_or now u.vip_started_at);
  vip_expires_at = some (current_end now u.vip_enabled u.vip_expires_at + plan.duration_days * day);
}

abbrev pub item_paid : Item → Item
item_paid i = record i { status = OrderStatus.paid }

-- The loop over the VIP items.
unfoldable pub grant_vips : ℕ → List Item → User → Db → Db
grant_vips now [] u db = db
grant_vips now (i ∷ is) u db = elim (find_plan (magnitude i.product_id) db.plans) [
  | none ↦ grant_vips now is u db
  | some plan ↦ grant_vips now is (extended_user now plan u) (record db {
    users = set_user (extended_user now plan u) db.users;
    items = set_item (item_paid i) db.items;
  })
]

-- `_entitlement_expiry`
abbrev pub entitlement_expiry : ℕ → Product → Option ℕ
entitlement_expiry now p =
    if text_eq p.billing_cycle (codes "month")
    then some (now + 30 * day)
    else if text_eq p.billing_cycle (codes "year")
    then some (now + 365 * day)
    else none

-- One round of the loop over the other items.
unfoldable pub deliver : ℕ → Order → Item → Db → Db
deliver now order i db = elim (find_product i.product_id db.products) [
  | none ↦ db
  | some p ↦ record db {
    products = set_product (record p { sales = p.sales + i.quantity }) db.products;
    entitlements =
        db.entitlements
        ++ replicate i.quantity (record {
          user_id = order.user_id;
          product_id = i.product_id;
          order_id = order.id;
          entitlement_type = i.product_type;
          expires_at = entitlement_expiry now p;
          expired = false;
        });
    items = set_item (item_paid i) db.items;
  }
]

unfoldable pub deliver_all : ℕ → Order → List Item → Db → Db
deliver_all now order [] db = db
deliver_all now order (i ∷ is) db = deliver_all now order is (deliver now order i db)

abbrev pub paid_order : ℕ → Text → Text → Order → Order
paid_order now payment_method transaction_id o = record o {
  payment_status = PaymentStatus.paid;
  status = OrderStatus.paid;
  payment_method = payment_method;
  transaction_id = transaction_id;
  paid_at = some now;
}

-- `reward`, and which of the two rewards it is.
abbrev pub reward_points : Bool → Bool → Option PointRule → ℕ
reward_points has_vip has_study none = 0
reward_points has_vip has_study (some rule) =
    if has_vip && (not has_study && (rule.enabled && rule.vip_purchase_enabled))
    then rule.vip_purchase_score
    else if has_study && (rule.enabled && rule.purchase_enabled)
    then rule.purchase_score
    else 0

abbrev pub reward_posting : Bool → Order → Posting
reward_posting is_vip_order o = record {
  biz_type = if is_vip_order then codes "vip_purchase" else codes "study_purchase";
  biz_id = o.id;
  biz_no = o.order_no;
  idempotency_key =
      (if is_vip_order then codes "vip-purchase:" else codes "standard-purchase:") ++ decimal o.id;
  remark = if is_vip_order then codes "购买 VIP 会员奖励" else codes "购买学习产品奖励";
}

-- `max(1, int(rule.valid_days or 365))`
abbrev pub valid_days : Option PointRule → ℕ
valid_days none = 365
valid_days (some rule) = max 1 (if rule.valid_days == 0 then 365 else rule.valid_days)

-- The reward is credited to the locked user. Its key is shorter than the column, so the rollback
-- inside `credit_locked` is not taken.
unfoldable pub credit_reward : ℕ → ℕ → Bool → Order → Db → Db → Result Db
credit_reward now points is_vip_order o saved db =
    if points == 0 then ok db else elim (find_user o.user_id db.users) [
      | none ↦ err user_not_found
      | some u ↦
          (credit_locked (points_session u saved) (pos points) (reward_posting is_vip_order o)
              (some (now + valid_days db.rule * day)) (points_session u db)
            >>= λ r. ok (end_session r.1 db))
    ]

abbrev pub vip_items : Order → Db → List Item
vip_items o db = select is_vip (order_items o.id db.items)

abbrev pub study_items : Order → Db → List Item
study_items o db = select (λ i. not (is_vip i)) (order_items o.id db.items)

-- VIP time, entitlements and a learning profile.
unfoldable pub granted : ℕ → Order → Db → Db
granted now o db =
    let db' : Db = elim (find_user o.user_id db.users) [
      | none ↦ db
      | some u ↦ grant_vips now (vip_items o db) u db
    ] in
    let db'' = deliver_all now o (study_items o db) db' in
    record db'' {
      profiles =
          if not (is_empty (study_items o db)) && not (contains o.user_id db''.profiles)
          then o.user_id ∷ db''.profiles
          else db''.profiles;
    }

-- What a payment grants, the reward included.
unfoldable pub grant : ℕ → Order → Db → Db → Result Db
grant now o saved db =
    let has_study = not (is_empty (study_items o db)) in
    let has_vip = not (is_empty (vip_items o db)) in
    credit_reward now (reward_points has_vip has_study db.rule) (has_vip && not has_study) o saved
      (granted now o db)

abbrev pub marked : ℕ → Text → Text → Order → Db → Db
marked now payment_method transaction_id o db = record db {
  orders = set_order (paid_order now payment_method transaction_id o) db.orders;
}

-- The order once it is found and locked.
unfoldable pub pay_locked : ℕ → Text → Text → Order → Db → Db → Result (Order × Db)
pay_locked now payment_method transaction_id o saved db =
    if is_paid o.payment_status && order_paid o.status
    then ok (o, db)
    else if not (order_pending o.status) || is_paid o.payment_status
    then err order_not_payable
    else (grant now (paid_order now payment_method transaction_id o) saved
          (marked now payment_method transaction_id o db)
        >>= λ db'. ok (paid_order now payment_method transaction_id o, db'))

-- `mark_order_paid`
unfoldable pub mark_order_paid : ℕ → ℕ → Text → Text → Db → Db → Result (Order × Db)
mark_order_paid now order_id payment_method transaction_id saved db =
    elim (find_order order_id db.orders) [
      | none ↦ err order_not_found
      | some o ↦ pay_locked now payment_method transaction_id o saved db
    ]

-- The amount is taken from the balance, with a row in the wallet.
abbrev pub wallet_row : Order → User → ℕ → Db → WalletTransaction
wallet_row o u amount db = record {
  user_id = u.id;
  user_no = u.user_no;
  transaction_no = codes "WT" ++ decimal db.issued;
  is_income = false;
  amount = amount;
  balance_before = u.balance;
  balance_after = u.balance - amount;
  biz_type = codes "purchase";
  biz_id = o.id;
  biz_no = o.order_no;
}

abbrev pub charged : Order → User → ℕ → Db → Db
charged o u amount db = record db {
  users = set_user (record u { balance = u.balance - amount }) db.users;
  issued = db.issued + 1;
  wallet = wallet_row o u amount db ∷ db.wallet;
}

-- `pay_with_balance` from the locked user on.
unfoldable pub charge : ℕ → Order → User → ℕ → Db → Db → Result (Order × Db)
charge now o u amount saved db =
    if ltb u.balance amount
    then err insufficient_balance
    else mark_order_paid now o.id (codes "balance") (codes "WT" ++ decimal db.issued) saved
        (charged o u amount db)

unfoldable pub charge_order : ℕ → ℕ → Order → Db → Db → Result (Order × Db)
charge_order now user_id o saved db =
    if is_paid o.payment_status && order_paid o.status
    then ok (o, db)
    else if not (order_pending o.status) || is_paid o.payment_status
    then err order_not_payable
    else elim (find_user user_id db.users) [
      | none ↦ err user_not_found
      | some u ↦
          if ltb_ℤ o.payable_amount (pos 0)
          then err invalid_order_amount
          else charge now o u (pos_part o.payable_amount) saved db
    ]

-- `pay_with_balance` of the user `user_id`.
unfoldable pub pay_with_balance : ℕ → ℕ → ℕ → Db → Db → Result (Order × Db)
pay_with_balance now user_id order_id saved db = elim (find_order order_id db.orders) [
  | none ↦ err order_not_found
  | some o ↦
      if o.user_id == user_id then charge_order now user_id o saved db else err order_not_found
]
