-- ===== src/Orders/Returned.antt =====
-- A payment from the balance and the refund to the wallet that follows it.
use python_server.Base.{
  ℕ, ◌+◌, ◌-◌, ◌≤◌, ◌≡◌, refl, sym, ap, subst, ◌∙◌, true, false, ◌&&◌, Option, none, some, List, [],
  ◌∷◌, codes, Text, arith, if◌then◌else◌, find, text_eq, Ensures, Ensures-map, both,
}
use python_server.Base.Int.{pos, pos_part}
use python_server.Points.Model.{User}
use python_server.Orders.Model.{
  Order, Db, WalletTransaction, is_paid, is_refunded, order_paid, find_user, find_order,
}
use python_server.Orders.Redis.{Redis}
use python_server.Orders.Pay.{pay_with_balance}
use python_server.Orders.Pay.Grant.{balance_of, found_balance}
use python_server.Orders.Pay.Once.{Paid, pay_with_balance-Paid}
use python_server.Orders.Pay.Charged.{Settles, Takes, pay_with_balance-Settles}
use python_server.Orders.Pay.Succeeds.{balance_found}
use python_server.Orders.Cancel.{World, refund_of, finalize_refund}
use python_server.Orders.Cancel.Refund.{GivesBack, refunded_balance, finalize_refund-GivesBack}

-- The balance of the user `id` is `b` after the refund.
abbrev pub Restored : ℕ → ℕ → Order × World → Type 0
Restored id b x = balance_of id x.1.db.users ≡ some b

-- The row of the payment is no refund.
unbooked_after :
    (order_no : Text) (t : WalletTransaction) (wallet : List WalletTransaction)
    → t.biz_type ≡ codes "purchase"
    → find (refund_of order_no) wallet ≡ none
    → find (refund_of order_no) (t ∷ wallet) ≡ none
unfolding text_eq
unbooked_after order_no t wallet e h = rw e h

same_balance : (a b : ℕ) → some a ≡ some b → a ≡ b
same_balance a b h = ground arith

booked_balance :
    (t : Option WalletTransaction) (o : Order) (u : User)
    → t ≡ none
    → elim t as (λ _. ℕ) [ none ↦ u.balance + pos_part o.payable_amount | some t ↦ u.balance ]
      ≡ u.balance + pos_part o.payable_amount
booked_balance none o u h = refl
booked_balance (some t) o u h = absurd (ground arith)

sum_back : (a c n b : ℕ) → a ≡ b - n → c ≡ n → n ≤ b → a + c ≡ b
sum_back a c n b h k le = omega arith

refund_restores :
    (now later user_id order_id n : ℕ) (refund_no : Text) (o : Order) (u : User) (redis : Redis)
    (db : Db) (r : Order × Db)
    → find (refund_of o.order_no) db.wallet ≡ none
    → u.id ≡ user_id
    → o.user_id ≡ user_id
    → o.payable_amount ≡ pos n
    → Paid user_id order_id r
    → Takes now n o u db r
    → Ensures
        (Restored user_id u.balance)
        (finalize_refund later order_id refund_no [] true (record { db = r.1; redis = redis }))
refund_restores now later user_id order_id n refund_no o u redis db r unbooked same own amount paid
      taken =
    let w : World = record { db = r.1; redis = redis } in
    let left = ap (λ m. balance_of m r.1.users) (sym same) ∙ taken.1 in
    let user = balance_found user_id r.1.users (u.balance - n) left in
    let (t, wallet, row, p) = taken.3 in
    let owner = p.same.2 ∙ own in
    let found_user = ap (λ m. find_user m r.1.users) owner ∙ user.1 in
    let fresh : is_refunded r.0.payment_status ≡ false = ap (λ s. is_refunded s) p.payment in
    let none_booked =
      ap (λ (t : Text). find (refund_of t) r.1.wallet) p.same.1
      ∙ ap (find (refund_of o.order_no)) wallet
      ∙ unbooked_after o.order_no t db.wallet row.purpose unbooked in
    let balance =
      same_balance user.0.balance (u.balance - n)
        (sym (found_balance user_id r.1.users user.0 user.1).1 ∙ left) in
    let cost = ap pos_part (p.price ∙ amount) in
    Ensures-map (GivesBack order_id r.0.user_id (refunded_balance true r.0 user.0 r.1))
      (Restored user_id u.balance) (finalize_refund later order_id refund_no [] true w)
      (λ x h.
        ap (λ m. balance_of m x.1.db.users) (sym owner)
        ∙ h.1
        ∙ ap some (
            booked_balance (find (refund_of r.0.order_no) r.1.wallet) r.0 user.0 none_booked
            ∙ sum_back user.0.balance (pos_part r.0.payable_amount) n u.balance balance cost
                taken.0))
      (finalize_refund-GivesBack later order_id refund_no [] true r.0 user.0 w paid.0 found_user
        fresh)

Settles-unpaid :
    (now : ℕ) (o : Order) (u : User) (db : Db) (r : Order × Db)
    → is_paid o.payment_status && order_paid o.status ≡ false
    → Settles now o u db r
    → (n : ℕ) × ((o.payable_amount ≡ pos n) × Takes now n o u db r)
Settles-unpaid now o u db r e h =
    subst
      (λ b.
        if b then r ≡ (o, db) else ((n : ℕ) × ((o.payable_amount ≡ pos n) × Takes now n o u db r)))
      e h

-- An order that was not paid and is paid from the balance and then refunded to the wallet, where both
-- calls return, leaves the balance that there was before the payment, if no refund was booked under its
-- number.
pub pay_with_balance-Restored :
    (now later user_id order_id : ℕ) (refund_no : Text) (o : Order) (u : User) (redis : Redis)
    (saved db : Db)
    → find_order order_id db.orders ≡ some o
    → find_user user_id db.users ≡ some u
    → o.user_id ≡ user_id
    → is_paid o.payment_status && order_paid o.status ≡ false
    → find (refund_of o.order_no) db.wallet ≡ none
    → Ensures
        (λ r.
          Ensures
            (Restored user_id u.balance)
            (finalize_refund later order_id refund_no [] true (record { db = r.1; redis = redis })))
        (pay_with_balance now user_id order_id saved db)
pay_with_balance-Restored now later user_id order_id refund_no o u redis saved db found has_user own
      unpaid unbooked =
    Ensures-map (λ r. Settles now o u db r × Paid user_id order_id r)
      (λ r.
        Ensures (Restored user_id u.balance)
          (finalize_refund later order_id refund_no [] true (record { db = r.1; redis = redis })))
      (pay_with_balance now user_id order_id saved db)
      (λ r h.
        let taken = Settles-unpaid now o u db r unpaid h.0 in
        refund_restores now later user_id order_id taken.0 refund_no o u redis db r unbooked
          (found_balance user_id db.users u has_user).0 own taken.1.0 h.1 taken.1.1)
      (both (Settles now o u db) (Paid user_id order_id)
        (pay_with_balance now user_id order_id saved db)
        (pay_with_balance-Settles now user_id order_id o u saved db found has_user)
        (pay_with_balance-Paid now user_id order_id saved db))
