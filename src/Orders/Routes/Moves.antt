-- ===== src/Orders/Routes/Moves.antt =====
-- The methods of OrderService follow the diagram.
use python_server.Base.{
  ℕ, ◌≡◌, refl, sym, ap, subst, ◌∙◌, Bool, true, false, not, ◌&&◌, ◌||◌, some, List, [], ◌∷◌, ◌++◌,
  Text, codes, decimal, arith, ◌==◌, ltb, find, if_intro, if_cases, option_intro, Ensures,
  Ensures-bind, Result, ok, err, ◌>>=◌,
}
use python_server.Base.Int.{pos, pos_part, ltb_ℤ}
use python_server.Points.Model.{User}
use python_server.Points.Credit.{revoke_credit_locked}
use python_server.Orders.Model.{
  PaymentStatus, OrderStatus, is_paid, is_refunded, order_pending, order_paid, Order, Item, Db,
  find_order, find_user, set_order, points_session, end_session, order_items,
}
use python_server.Orders.Pay.{
  paid_order, marked, charged, grant, pay_locked, mark_order_paid, charge, charge_order,
  pay_with_balance,
}
use python_server.Orders.Pay.Grant.{Kept, grant-Kept}
use python_server.Orders.Pay.Once.{found_order}
use python_server.Orders.Cancel.{
  World, write_order, canceled_order, cancel_unpaid_order, cancel_item, cancel_items, purchase_key,
  reversal_posting, vip_order, refund_of, refunded_order, finalize_refund, apply_refund,
  refund_user, refund_items, refund_wallet, revoke_reward, expire_entitlements,
}
use python_server.Orders.Cancel.Kept.{Same, Same-trans, cancel_item-Same, refund_items-Same}
use python_server.Orders.Routes.Stages.{
  Stage, stage, ◌⟶◌, pays, cancels, refunds, Advances, same, writes,
}

paying :
    (s : Stage)
    → order_pending s.1 ≡ true
    → is_paid s.0 ≡ false
    → s ⟶ (PaymentStatus.paid, OrderStatus.paid)
paying (p, OrderStatus.pending) h unpaid = pays unpaid
paying (p, OrderStatus.paid) h unpaid = absurd (ground arith)
paying (p, OrderStatus.canceled) h unpaid = absurd (ground arith)

canceling :
    (s : Stage)
    → order_pending s.1 ≡ true
    → is_paid s.0 ≡ false
    → s ⟶ (PaymentStatus.canceled, OrderStatus.canceled)
canceling (p, OrderStatus.pending) h unpaid = cancels unpaid
canceling (p, OrderStatus.paid) h unpaid = absurd (ground arith)
canceling (p, OrderStatus.canceled) h unpaid = absurd (ground arith)

refunding :
    (s : Stage)
    → (is_paid s.0 && order_paid s.1) ≡ true
    → s ⟶ (PaymentStatus.refunded, OrderStatus.canceled)
refunding (PaymentStatus.paid, OrderStatus.paid) h = refunds
refunding (PaymentStatus.paid, OrderStatus.pending) h = absurd (ground arith)
refunding (PaymentStatus.paid, OrderStatus.canceled) h = absurd (ground arith)
refunding (PaymentStatus.pending, s) h = absurd (ground arith)
refunding (PaymentStatus.canceled, s) h = absurd (ground arith)
refunding (PaymentStatus.refunded, s) h = absurd (ground arith)

pub anything : {A : Type 0} (m : Result A) → Ensures (λ a. Unit {0}) m
anything (ok a) = tt
anything (err e) = tt

-- A result of a service with its database, or with its world.
abbrev pub Advanced : List Order → Order × Db → Type 0
Advanced os r = Advances os r.1.orders

abbrev pub AdvancedWorld : List Order → Order × World → Type 0
AdvancedWorld os r = Advances os r.1.db.orders

pay_locked-Advanced :
    (now : ℕ) (method transaction : Text) (o : Order) (saved db : Db)
    → find_order o.id db.orders ≡ some o
    → Ensures (Advanced db.orders) (pay_locked now method transaction o saved db)
unfolding pay_locked
pay_locked-Advanced now method transaction o saved db found =
    let P = Ensures (Advanced db.orders) in
    if_intro P (is_paid o.payment_status && order_paid o.status) same (
      if_cases P (not (order_pending o.status) || is_paid o.payment_status) (λ e. tt)
        (λ open_order.
          let new = paid_order now method transaction o in
          let start = marked now method transaction o db in
          Ensures-bind (Kept start) (Advanced db.orders) (grant now new saved start)
            (λ db'. ok (new, db')) (grant-Kept now new saved start)
            (λ db' kept. subst (Advances db.orders) (sym kept.0) (
              writes o new same found (refl, refl, refl, refl)
                (paying (stage o) (ground arith) (ground arith))))))

found_self :
    (id : ℕ) (os : List Order) (o : Order) → find_order id os ≡ some o → find_order o.id os ≡ some o
found_self id os o found = ap (λ n. find_order n os) (found_order id os o found) ∙ found

pub mark_order_paid-Advanced :
    (now id : ℕ) (method transaction : Text) (saved db : Db)
    → Ensures (Advanced db.orders) (mark_order_paid now id method transaction saved db)
unfolding mark_order_paid
mark_order_paid-Advanced now id method transaction saved db =
    option_intro (Ensures (Advanced db.orders)) (find_order id db.orders) tt (λ o found.
      pay_locked-Advanced now method transaction o saved db (found_self id db.orders o found))

charge-Advanced :
    (now : ℕ) (o : Order) (u : User) (amount : ℕ) (saved db : Db)
    → Ensures (Advanced db.orders) (charge now o u amount saved db)
unfolding charge
charge-Advanced now o u amount saved db =
    if_intro (Ensures (Advanced db.orders)) (ltb u.balance amount) tt (
      mark_order_paid-Advanced now o.id (codes "balance") (codes "WT" ++ decimal db.issued) saved
        (charged o u amount db))

pub pay_with_balance-Advanced :
    (now user_id id : ℕ) (saved db : Db)
    → Ensures (Advanced db.orders) (pay_with_balance now user_id id saved db)
unfolding pay_with_balance charge_order
pay_with_balance-Advanced now user_id id saved db =
    let P = Ensures (Advanced db.orders) in
    option_intro P (find_order id db.orders) tt (λ o found.
      if_intro P (o.user_id == user_id)
        (if_intro P (is_paid o.payment_status && order_paid o.status) same (
          if_intro P (not (order_pending o.status) || is_paid o.payment_status) tt (
            option_intro P (find_user user_id db.users) tt (λ u mine.
              if_intro P (ltb_ℤ o.payable_amount (pos 0)) tt
                (charge-Advanced now o u (pos_part o.payable_amount) saved db)))))
        tt)

cancel_items-Same : (is : List Item) (w : World) → Same w (cancel_items is w)
unfolding cancel_items
cancel_items-Same [] w = (refl, refl)
cancel_items-Same (i ∷ is) w =
    Same-trans w (cancel_item i w) (cancel_items is (cancel_item i w)) (cancel_item-Same i w)
      (cancel_items-Same is (cancel_item i w))

pub cancel_unpaid_order-Advances :
    (now : ℕ) (reason : Text) (o : Order) (w : World)
    → find_order o.id w.db.orders ≡ some o
    → Advances w.db.orders (cancel_unpaid_order now reason o w).1.db.orders
unfolding cancel_unpaid_order
cancel_unpaid_order-Advances now reason o w found =
    let P : Bool × World → Type 0 = λ r. Advances w.db.orders r.1.db.orders in
    if_cases P (is_paid o.payment_status || not (order_pending o.status)) (λ e. same)
      (λ open_order.
        let is = order_items o.id w.db.items in
        subst (λ os. Advances w.db.orders (set_order (canceled_order now reason o) os))
          (sym (cancel_items-Same is w).0)
          (writes o (canceled_order now reason o) same found (refl, refl, refl, refl)
            (canceling (stage o) (ground arith) (ground arith))))

refund_wallet-orders :
    (o : Order) (u : User) (db : Db) → (refund_wallet o u db).1.orders ≡ db.orders
unfolding refund_wallet
refund_wallet-orders o u db =
    option_intro (λ (x : User × Db). x.1.orders ≡ db.orders) (find (refund_of o.order_no) db.wallet)
      refl (λ t booked. refl)

revoke_reward-orders :
    (o : Order) (u : User) (db : Db)
    → Ensures (λ later. later.orders ≡ db.orders) (revoke_reward o u db)
unfolding revoke_reward
revoke_reward-orders o u db =
    let vip = vip_order (order_items o.id db.items) in
    let m =
      revoke_credit_locked (purchase_key vip o.id) (reversal_posting vip o) (points_session u db) in
    Ensures-bind (λ r. Unit {0}) (λ later. later.orders ≡ db.orders) m
      (λ r. ok (end_session r.1 db)) (anything m) (λ r h. refl)

refund_from :
    (now : ℕ) (refund_no refund_id : Text) (o : Order) (w : World) (u : User) (db : Db)
    → db.orders ≡ w.db.orders
    → find_order o.id w.db.orders ≡ some o
    → (is_paid o.payment_status && order_paid o.status) ≡ true
    → Ensures (AdvancedWorld w.db.orders) (
        revoke_reward o u db >>= λ db'.
        let expired = record db' { entitlements = expire_entitlements o.id db'.entitlements } in
        ok (
          refunded_order now refund_no refund_id o,
          write_order
              (refunded_order now refund_no refund_id o)
              (refund_items (order_items o.id expired.items) (record w { db = expired })),
        ))
refund_from now refund_no refund_id o w u db kept found is_due =
    let new = refunded_order now refund_no refund_id o in
    let after : Db → World = λ db'. record w {
      db = record db' { entitlements = expire_entitlements o.id db'.entitlements };
    } in
    Ensures-bind (λ later. later.orders ≡ db.orders) (AdvancedWorld w.db.orders)
      (revoke_reward o u db)
      (λ db'. ok (new, write_order new (refund_items (order_items o.id db'.items) (after db'))))
      (revoke_reward-orders o u db)
      (λ db' revoked.
        subst (λ os. Advances w.db.orders (set_order new os))
          (sym ((refund_items-Same (order_items o.id db'.items) (after db')).0 ∙ revoked ∙ kept))
          (writes o new same found (refl, refl, refl, refl) (refunding (stage o) is_due)))

refund_user-Advanced :
    (now : ℕ) (refund_no refund_id : Text) (to_wallet : Bool) (o : Order) (w : World) (u : User)
    → find_order o.id w.db.orders ≡ some o
    → (is_paid o.payment_status && order_paid o.status) ≡ true
    → Ensures (AdvancedWorld w.db.orders) (refund_user now refund_no refund_id to_wallet o w u)
unfolding refund_user
refund_user-Advanced now refund_no refund_id true o w u found is_due =
    let r = refund_wallet o u w.db in
    refund_from now refund_no refund_id o w r.0 r.1 (refund_wallet-orders o u w.db) found is_due
refund_user-Advanced now refund_no refund_id false o w u found is_due =
    refund_from now refund_no refund_id o w u w.db refl found is_due

pub finalize_refund-Advanced :
    (now order_id : ℕ) (refund_no refund_id : Text) (to_wallet : Bool) (w : World)
    → Ensures
        (AdvancedWorld w.db.orders)
        (finalize_refund now order_id refund_no refund_id to_wallet w)
unfolding finalize_refund apply_refund
finalize_refund-Advanced now order_id refund_no refund_id to_wallet w =
    let P = Ensures (AdvancedWorld w.db.orders) in
    option_intro P (find_order order_id w.db.orders) tt (λ o found.
      if_intro P (is_refunded o.payment_status) same (
        if_cases P (is_paid o.payment_status && order_paid o.status)
          (λ due. option_intro P (find_user o.user_id w.db.users) tt (λ u mine.
            refund_user-Advanced now refund_no refund_id to_wallet o w u
              (found_self order_id w.db.orders o found) due))
          (λ e. tt)))
