-- ===== src/Orders/Pay/Succeeds.antt =====
-- When a payment from the balance returns.
use python_server.Base.{
  ℕ, ◌+◌, ◌*◌, ◌≤◌, ◌≡◌, refl, sym, ap, ◌∙◌, Bool, true, false, not, ◌&&◌, ◌||◌, some, List, [],
  ◌∷◌, ◌++◌, Text, codes, decimal, arith, length, length-append, ◌==◌, is_empty, if_cases,
  Bool-cases, inl, inr, le→ltb, ==_iff, ◌-◌, ok, Returns, Returns-bind,
}
use python_server.Base.Int.{pos, ltb_ℤ}
use python_server.Points.Model.{User}
use python_server.Points.Credit.{credit_locked}
use python_server.Points.Returns.{credit_locked-Returns}
use python_server.Orders.Model.{
  Order, Db, is_paid, order_paid, order_pending, day, find_user, find_order, points_session,
  end_session,
}
use python_server.Orders.Pay.{
  paid_order, marked, charged, granted, vip_items, study_items, reward_points, reward_posting,
  valid_days, credit_reward, grant, pay_locked, mark_order_paid, charge, charge_order,
  pay_with_balance,
}
use python_server.Orders.Pay.Grant.{balance_of, found_balance, set_user-own, granted-Kept}
use python_server.Orders.Pay.Once.{found_order}

pub balance_found :
    (id : ℕ) (us : List User) (b : ℕ)
    → balance_of id us ≡ some b
    → (u : User) × (find_user id us ≡ some u)
balance_found id [] b h = absurd (grind arith)
balance_found id (x ∷ us) b h = elim (Bool-cases (x.id == id)) [
  | inl e ↦ (x, rw e refl)
  | inr e ↦ let rest = balance_found id us b (ground arith) in (rest.0, rw e rest.1)
]

key_fits :
    (vip : Bool) (o : Order)
    → length (decimal o.id) ≤ 140
    → length (reward_posting vip o).idempotency_key ≤ 160
key_fits true o h = omega (arith, length-append (codes "vip-purchase:") (decimal o.id))
key_fits false o h = omega (arith, length-append (codes "standard-purchase:") (decimal o.id))

positive : (n : ℕ) → n == 0 ≡ false → ltb_ℤ (pos 0) (pos n) ≡ true
positive n h = ground arith

credit_reward-Returns :
    (now points : ℕ) (vip : Bool) (o : Order) (saved db : Db) (b : ℕ)
    → length (decimal o.id) ≤ 140
    → balance_of o.user_id db.users ≡ some b
    → Returns (credit_reward now points vip o saved db)
unfolding credit_reward
credit_reward-Returns now points vip o saved db b short has =
    let user = balance_found o.user_id db.users b has in
    if_cases Returns (points == 0) (λ e. tt)
      (λ e. rw user.1 (
        Returns-bind
          (credit_locked (points_session user.0 saved) (pos points) (reward_posting vip o)
            (some (now + valid_days db.rule * day)) (points_session user.0 db))
          (λ r. ok (end_session r.1 db))
          (credit_locked-Returns (points_session user.0 saved) (pos points) (reward_posting vip o)
            (some (now + valid_days db.rule * day)) (points_session user.0 db) (positive points e)
            (key_fits vip o short))
          (λ r. tt)))

grant-Returns :
    (now : ℕ) (o : Order) (saved db : Db) (b : ℕ)
    → length (decimal o.id) ≤ 140
    → balance_of o.user_id db.users ≡ some b
    → Returns (grant now o saved db)
unfolding grant
grant-Returns now o saved db b short has =
    let has_study = not (is_empty (study_items o db)) in
    let has_vip = not (is_empty (vip_items o db)) in
    credit_reward-Returns now (reward_points has_vip has_study db.rule) (has_vip && not has_study) o
      saved (granted now o db) b short ((granted-Kept now o db).1.1 o.user_id ∙ has)

-- The order may be paid: it is pending and not marked paid.
abbrev pub is_payable : Order → Bool
is_payable o = order_pending o.status && not (is_paid o.payment_status)

payable_paid :
    (o : Order) → is_payable o ≡ true → is_paid o.payment_status && order_paid o.status ≡ false
payable_paid o h = ground arith

payable_open :
    (o : Order)
    → is_payable o ≡ true
    → not (order_pending o.status) || is_paid o.payment_status ≡ false
payable_open o h = ground arith

pub pay_locked-Returns :
    (now : ℕ) (method transaction : Text) (o : Order) (saved db : Db) (b : ℕ)
    → is_payable o ≡ true
    → length (decimal o.id) ≤ 140
    → balance_of o.user_id db.users ≡ some b
    → Returns (pay_locked now method transaction o saved db)
unfolding pay_locked
pay_locked-Returns now method transaction o saved db b payable short has =
    rw (payable_paid o payable, payable_open o payable)
      (Returns-bind
        (grant now (paid_order now method transaction o) saved (marked now method transaction o db))
        (λ db'. ok (paid_order now method transaction o, db'))
        (grant-Returns now (paid_order now method transaction o) saved
          (marked now method transaction o db) b short has)
        (λ db'. tt))

not_negative : (n : ℕ) → ltb_ℤ (pos n) (pos 0) ≡ false
not_negative n = ground arith

-- A call of pay_with_balance returns where the order is the user's and payable, the user's row exists, and
-- the payable amount is not negative and no more than the balance.
pub pay_with_balance-Returns :
    (now user_id order_id n : ℕ) (o : Order) (u : User) (saved db : Db)
    → find_order order_id db.orders ≡ some o
    → find_user user_id db.users ≡ some u
    → o.user_id ≡ user_id
    → is_payable o ≡ true
    → o.payable_amount ≡ pos n
    → n ≤ u.balance
    → length (decimal o.id) ≤ 140
    → Returns (pay_with_balance now user_id order_id saved db)
unfolding pay_with_balance charge_order charge mark_order_paid
pay_with_balance-Returns now user_id order_id n o u saved db found has_user own payable amount
      enough short =
    let mine : o.user_id == user_id ≡ true = (==_iff o.user_id user_id).1 own in
    let here : find_order o.id db.orders ≡ some o =
      ap (λ m. find_order m db.orders) (found_order order_id db.orders o found) ∙ found in
    let row = found_balance user_id db.users u has_user in
    let has : balance_of u.id db.users ≡ some u.balance =
      ap (λ m. balance_of m db.users) row.0 ∙ row.1 in
    let left : balance_of o.user_id (charged o u n db).users ≡ some (u.balance - n) =
      ap (λ m. balance_of m (charged o u n db).users) (own ∙ sym row.0)
      ∙ set_user-own (record u { balance = u.balance - n }) db.users u.balance has in
    rw (found, pay_with_balance)
      (rw mine (
        rw (payable_paid o payable, payable_open o payable, has_user, charge_order)
          (rw (amount, not_negative n)
            (rw (le→ltb u.balance n enough, charge)
              (rw (here, mark_order_paid)
                (pay_locked-Returns now (codes "balance") (codes "WT" ++ decimal db.issued) o saved
                  (charged o u n db) (u.balance - n) payable short left))))))
