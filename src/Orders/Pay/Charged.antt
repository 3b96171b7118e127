-- ===== src/Orders/Pay/Charged.antt =====
-- What a payment from the balance takes, and what it writes down.
use python_server.Base.{
  ℕ, ◌+◌, ◌-◌, ◌≤◌, ◌≡◌, refl, sym, ap, subst, ◌∙◌, true, false, not, ◌&&◌, ◌||◌, none, some, ◌∷◌,
  ◌++◌, codes, decimal, arith, ◌==◌, if◌then◌else◌, ltb, if_intro, if_cases, ok, err, ◌>>=◌,
  Ensures, Ensures-bind, Ensures-map, order_not_found, order_not_payable, user_not_found,
  invalid_order_amount,
}
use python_server.Base.Int.{ℤ, pos, pos_part, ltb_ℤ}
use python_server.Points.Model.{User}
use python_server.Orders.Model.{
  PaymentStatus, OrderStatus, WalletTransaction, Order, Db, is_paid, order_paid, order_pending,
  find_user, find_order,
}
use python_server.Orders.Pay.{
  paid_order, marked, wallet_row, charged, grant, pay_locked, mark_order_paid, charge, charge_order,
  pay_with_balance,
}
use python_server.Orders.Pay.Grant.{balance_of, found_balance, set_user-own, Kept, grant-Kept}
use python_server.Orders.Pay.Once.{found_order, set_order-found}

-- A row of the wallet for a purchase of `n`.
pub record Books (n : ℕ) (o : Order) (u : User) (t : WalletTransaction) : Type 0 where
  pub owner : t.user_id ≡ u.id
  pub expense : t.is_income ≡ false
  pub amount : t.amount ≡ n
  pub before : t.balance_before ≡ u.balance
  pub after : t.balance_after + n ≡ u.balance
  pub purpose : t.biz_type ≡ codes "purchase"
  pub order : (t.biz_id ≡ o.id) × (t.biz_no ≡ o.order_no)

-- The order `o` as it is paid by a row of the wallet.
pub record PaidBy (now : ℕ) (t : WalletTransaction) (o o' : Order) : Type 0 where
  pub same : (o'.id ≡ o.id) × (o'.order_no ≡ o.order_no) × (o'.user_id ≡ o.user_id)
  pub price : o'.payable_amount ≡ o.payable_amount
  pub payment : o'.payment_status ≡ PaymentStatus.paid
  pub status : o'.status ≡ OrderStatus.paid
  pub method : o'.payment_method ≡ codes "balance"
  pub number : o'.transaction_id ≡ t.transaction_no
  pub time : o'.paid_at ≡ some now

-- The payment of `n` from the balance of `u`.
abbrev pub Takes : ℕ → ℕ → Order → User → Db → Order × Db → Type 0
Takes now n o u db r =
    (n ≤ u.balance)
    × (balance_of u.id r.1.users ≡ some (u.balance - n))
    × (find_order o.id r.1.orders ≡ some r.0)
    × ((t : WalletTransaction) × (r.1.wallet ≡ t ∷ db.wallet) × Books n o u t × PaidBy now t o r.0)

-- What `pay_with_balance` has done, for the user `u` before it: nothing if the order was paid, and else
-- the amount has left the balance, by one new row of the wallet.
abbrev pub Settles : ℕ → Order → User → Db → Order × Db → Type 0
Settles now o u db r =
    if is_paid o.payment_status && order_paid o.status
    then r ≡ (o, db)
    else ((n : ℕ) × ((o.payable_amount ≡ pos n) × Takes now n o u db r))

pay_locked-Takes :
    (now n : ℕ) (o : Order) (u : User) (saved db : Db)
    → is_paid o.payment_status && order_paid o.status ≡ false
    → n ≤ u.balance
    → balance_of u.id db.users ≡ some u.balance
    → find_order o.id db.orders ≡ some o
    → Ensures (Takes now n o u db) (
        pay_locked now
          (codes "balance")
          (codes "WT" ++ decimal db.issued)
          o
          saved
          (charged o u n db))
unfolding pay_locked
pay_locked-Takes now n o u saved db unpaid enough has found =
    let method = codes "balance" in
    let transaction = codes "WT" ++ decimal db.issued in
    let start = marked now method transaction o (charged o u n db) in
    subst
      (λ b. Ensures (Takes now n o u db) (
        if b
        then ok (o, charged o u n db)
        else (if not (order_pending o.status) || is_paid o.payment_status
            then err order_not_payable
            else (grant now (paid_order now method transaction o) saved start >>= λ db'.
                ok (paid_order now method transaction o, db')))))
      (sym unpaid)
      (if_intro (Ensures (Takes now n o u db))
        (not (order_pending o.status) || is_paid o.payment_status) tt
        (Ensures-bind (Kept start) (Takes now n o u db)
          (grant now (paid_order now method transaction o) saved start)
          (λ db'. ok (paid_order now method transaction o, db'))
          (grant-Kept now (paid_order now method transaction o) saved start)
          (λ later k. (
            enough,
            k.1.1 u.id ∙ set_user-own (record u { balance = u.balance - n }) db.users u.balance has,
            ap (find_order o.id) k.0
                ∙ set_order-found o.id (paid_order now method transaction o) db.orders o refl found,
            (
              wallet_row o u n db,
              k.1.0,
              record {
                owner = refl;
                expense = refl;
                amount = refl;
                before = refl;
                after = omega arith;
                purpose = refl;
                order = (refl, refl);
              },
              record {
                same = (refl, refl, refl);
                price = refl;
                payment = refl;
                status = refl;
                method = refl;
                number = refl;
                time = refl;
              },
            ),
          ))))

charge-Takes :
    (now order_id : ℕ) (n : ℕ) (o : Order) (u : User) (saved db : Db)
    → find_order order_id db.orders ≡ some o
    → is_paid o.payment_status && order_paid o.status ≡ false
    → balance_of u.id db.users ≡ some u.balance
    → Ensures (Takes now n o u db) (charge now o u n saved db)
unfolding charge mark_order_paid
charge-Takes now order_id n o u saved db found unpaid has =
    let here : find_order o.id db.orders ≡ some o =
      ap (λ n. find_order n db.orders) (found_order order_id db.orders o found) ∙ found in
    if_cases (Ensures (Takes now n o u db)) (ltb u.balance n) (λ short. tt)
      (λ enough.
        subst
          (λ x. Ensures (Takes now n o u db) (elim x [
            | none ↦ err order_not_found
            | some a ↦
                pay_locked now (codes "balance") (codes "WT" ++ decimal db.issued) a saved
                  (charged o u n db)
          ]))
          (sym here) (pay_locked-Takes now n o u saved db unpaid (ground arith) has here))

paid-Settles :
    (now : ℕ) (o : Order) (u : User) (db : Db)
    → is_paid o.payment_status && order_paid o.status ≡ true
    → Settles now o u db (o, db)
paid-Settles now o u db e =
    let r : Order × Db = (o, db) in
    subst
      (λ b.
        if b then r ≡ (o, db) else ((n : ℕ) × ((o.payable_amount ≡ pos n) × Takes now n o u db r)))
      (sym e) refl

unpaid-Settles :
    (now n : ℕ) (o : Order) (u : User) (db : Db) (r : Order × Db)
    → is_paid o.payment_status && order_paid o.status ≡ false
    → o.payable_amount ≡ pos n
    → Takes now n o u db r
    → Settles now o u db r
unpaid-Settles now n o u db r e amount taken =
    subst
      (λ b.
        if b then r ≡ (o, db) else ((m : ℕ) × ((o.payable_amount ≡ pos m) × Takes now m o u db r)))
      (sym e) (n, (amount, taken))

not_negative : (a : ℤ) → ltb_ℤ a (pos 0) ≡ false → a ≡ pos (pos_part a)
not_negative a h = ground arith

charge_order-Settles :
    (now user_id order_id : ℕ) (o : Order) (u : User) (saved db : Db)
    → find_order order_id db.orders ≡ some o
    → find_user user_id db.users ≡ some u
    → Ensures (Settles now o u db) (charge_order now user_id o saved db)
unfolding charge_order
charge_order-Settles now user_id order_id o u saved db found has_user =
    let n = pos_part o.payable_amount in
    let row = found_balance user_id db.users u has_user in
    let has : balance_of u.id db.users ≡ some u.balance =
      ap (λ m. balance_of m db.users) row.0 ∙ row.1 in
    if_cases (Ensures (Settles now o u db)) (is_paid o.payment_status && order_paid o.status)
      (λ e. paid-Settles now o u db e)
      (λ e.
        if_intro (Ensures (Settles now o u db))
          (not (order_pending o.status) || is_paid o.payment_status) tt
          (subst
            (λ x. Ensures (Settles now o u db) (elim x [
              | none ↦ err user_not_found
              | some a ↦
                  if ltb_ℤ o.payable_amount (pos 0)
                  then err invalid_order_amount
                  else charge now o a (pos_part o.payable_amount) saved db
            ]))
            (sym has_user)
            (if_cases (Ensures (Settles now o u db)) (ltb_ℤ o.payable_amount (pos 0))
              (λ negative. tt)
              (λ amount.
                Ensures-map (Takes now n o u db) (Settles now o u db) (charge now o u n saved db)
                  (λ r taken.
                    unpaid-Settles now n o u db r e (not_negative o.payable_amount amount) taken)
                  (charge-Takes now order_id n o u saved db found e has)))))

-- A call of pay_with_balance that returns, for an order that exists and a user row that exists, has done
-- nothing where the order was paid, and otherwise has taken exactly the payable amount, which the balance
-- covered, from the balance, added one row to the wallet with the balances before and after, and marked the
-- order paid with that row's number, in the table as in the answer.
pub pay_with_balance-Settles :
    (now user_id order_id : ℕ) (o : Order) (u : User) (saved db : Db)
    → find_order order_id db.orders ≡ some o
    → find_user user_id db.users ≡ some u
    → Ensures (Settles now o u db) (pay_with_balance now user_id order_id saved db)
unfolding pay_with_balance
pay_with_balance-Settles now user_id order_id o u saved db found has_user =
    subst
      (λ x. Ensures (Settles now o u db) (elim x [
        | none ↦ err order_not_found
        | some a ↦
            if a.user_id == user_id
            then charge_order now user_id a saved db
            else err order_not_found
      ]))
      (sym found)
      (if_intro (Ensures (Settles now o u db)) (o.user_id == user_id)
        (charge_order-Settles now user_id order_id o u saved db found has_user) tt)
