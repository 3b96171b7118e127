-- ===== src/Orders/Pay/Once.antt =====
-- Payments from the balance that are made again.
use python_server.Base.{
  ℕ, ◌≡◌, refl, sym, ap, subst, ◌∙◌, true, not, ◌&&◌, ◌||◌, Option, none, some, List, [], ◌∷◌, ◌++◌,
  Text, codes, decimal, arith, ◌==◌, if◌then◌else◌, ltb, option_intro, if_intro, if_cases, if_true,
  ==_iff, passes_of_find, Result, ok, err, Ensures, Ensures-bind, Ensures-map, order_not_found,
}
use python_server.Base.Int.{pos, pos_part, ltb_ℤ}
use python_server.Orders.Model.{
  Order, Db, is_paid, order_paid, order_pending, find_user, find_order, set_order,
}
use python_server.Orders.Pay.{
  paid_order, marked, charged, grant, pay_locked, mark_order_paid, charge, charge_order,
  pay_with_balance,
}
use python_server.Orders.Pay.Grant.{Kept, grant-Kept}

pub set_order-find :
    (new : Order) (os : List Order) (o : Order)
    → find_order new.id os ≡ some o
    → find_order new.id (set_order new os) ≡ some new
set_order-find new [] o h = grind arith
set_order-find new (x ∷ os) o h = ground (arith, set_order-find new os o)

pub found_order : (id : ℕ) (os : List Order) (o : Order) → find_order id os ≡ some o → o.id ≡ id
found_order id os o h = (==_iff o.id id).0 (passes_of_find (λ x. x.id == id) os o h)

pub set_order-found :
    (id : ℕ) (new : Order) (os : List Order) (o : Order)
    → new.id ≡ o.id
    → find_order id os ≡ some o
    → find_order id (set_order new os) ≡ some new
set_order-found id new os o same found =
    let e : new.id ≡ id = same ∙ found_order id os o found in
    subst (λ n. find_order n (set_order new os) ≡ some new) e
      (set_order-find new os o (ap (λ n. find_order n os) e ∙ found))

-- The order is in the table as it is returned, paid, and it is the user's.
abbrev pub Paid : ℕ → ℕ → Order × Db → Type 0
Paid user_id order_id r =
    (find_order order_id r.1.orders ≡ some r.0)
    × ((is_paid r.0.payment_status && order_paid r.0.status ≡ true)
        × (r.0.user_id == user_id ≡ true))

pub pay_locked-Paid :
    (now user_id order_id : ℕ) (method transaction : Text) (o : Order) (saved db : Db)
    → find_order order_id db.orders ≡ some o
    → o.user_id == user_id ≡ true
    → Ensures (Paid user_id order_id) (pay_locked now method transaction o saved db)
unfolding pay_locked
pay_locked-Paid now user_id order_id method transaction o saved db found own =
    if_cases (Ensures (Paid user_id order_id)) (is_paid o.payment_status && order_paid o.status)
      (λ e. (found, (e, own)))
      (λ e.
        if_intro (Ensures (Paid user_id order_id))
          (not (order_pending o.status) || is_paid o.payment_status) tt
          (Ensures-bind (Kept (marked now method transaction o db)) (Paid user_id order_id)
            (grant now (paid_order now method transaction o) saved
              (marked now method transaction o db))
            (λ db'. ok (paid_order now method transaction o, db'))
            (grant-Kept now (paid_order now method transaction o) saved
              (marked now method transaction o db))
            (λ later k. (
              ap (find_order order_id) k.0
                  ∙ set_order-found order_id (paid_order now method transaction o) db.orders o refl
                      found,
              (refl, own),
            ))))

mark_order_paid-Paid :
    (now user_id order_id : ℕ) (method transaction : Text) (o : Order) (saved db : Db)
    → find_order order_id db.orders ≡ some o
    → o.user_id == user_id ≡ true
    → Ensures (Paid user_id order_id) (mark_order_paid now o.id method transaction saved db)
unfolding mark_order_paid
mark_order_paid-Paid now user_id order_id method transaction o saved db found own =
    let here : find_order o.id db.orders ≡ some o =
      ap (λ n. find_order n db.orders) (found_order order_id db.orders o found) ∙ found in
    subst
      (λ x. Ensures (Paid user_id order_id) (elim x [
        | none ↦ err order_not_found
        | some a ↦ pay_locked now method transaction a saved db
      ]))
      (sym here) (pay_locked-Paid now user_id order_id method transaction o saved db found own)

pub pay_with_balance-Paid :
    (now user_id order_id : ℕ) (saved db : Db)
    → Ensures (Paid user_id order_id) (pay_with_balance now user_id order_id saved db)
unfolding pay_with_balance charge_order charge
pay_with_balance-Paid now user_id order_id saved db =
    option_intro (Ensures (Paid user_id order_id)) (find_order order_id db.orders) tt (λ o found.
      if_cases (Ensures (Paid user_id order_id)) (o.user_id == user_id)
        (λ own.
          if_cases (Ensures (Paid user_id order_id))
            (is_paid o.payment_status && order_paid o.status) (λ e. (found, (e, own)))
            (λ e.
              if_intro (Ensures (Paid user_id order_id))
                (not (order_pending o.status) || is_paid o.payment_status) tt
                (option_intro (Ensures (Paid user_id order_id)) (find_user user_id db.users) tt
                  (λ u has_user.
                    if_intro (Ensures (Paid user_id order_id)) (ltb_ℤ o.payable_amount (pos 0)) tt (
                      if_intro (Ensures (Paid user_id order_id))
                        (ltb u.balance (pos_part o.payable_amount)) tt
                        (mark_order_paid-Paid now user_id order_id (codes "balance")
                          (codes "WT" ++ decimal db.issued) o saved
                          (charged o u (pos_part o.payable_amount) db) found own))))))
        (λ foreign. tt))

Paid-again :
    (now user_id order_id : ℕ) (saved : Db) (r : Order × Db)
    → Paid user_id order_id r
    → pay_with_balance now user_id order_id saved r.1 ≡ ok r
unfolding pay_with_balance charge_order
Paid-again now user_id order_id saved r (found, (paid, own)) =
    ap
      (λ (x : Option Order). elim x as (λ _. Result (Order × Db)) [
        | none ↦ err order_not_found
        | some o ↦
            if o.user_id == user_id
            then charge_order now user_id o saved r.1
            else err order_not_found
      ])
      found
    ∙ if_true (r.0.user_id == user_id) _ own
    ∙ if_true (is_paid r.0.payment_status && order_paid r.0.status) _ paid

-- Once pay_with_balance has returned, every later call for the same order by the same user returns the
-- same order and changes nothing, so nothing is charged or granted twice.
pub pay_with_balance-Once :
    (now later user_id order_id : ℕ) (saved saved' db : Db)
    → Ensures
        (λ r. pay_with_balance later user_id order_id saved' r.1 ≡ ok r)
        (pay_with_balance now user_id order_id saved db)
pay_with_balance-Once now later user_id order_id saved saved' db =
    Ensures-map (Paid user_id order_id)
      (λ r. pay_with_balance later user_id order_id saved' r.1 ≡ ok r)
      (pay_with_balance now user_id order_id saved db) (Paid-again later user_id order_id saved')
      (pay_with_balance-Paid now user_id order_id saved db)
