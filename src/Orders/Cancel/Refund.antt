-- ===== src/Orders/Cancel/Refund.antt =====
-- What a refund gives back, and refunds that are made again.
use python_server.Base.{
  ℕ, ◌+◌, ◌≡◌, refl, sym, ap, subst, ◌∙◌, Bool, true, false, ◌&&◌, Option, none, some, Text, arith,
  if◌then◌else◌, find, option_intro, if_intro, if_cases, if_true, Result, ok, err, Ensures,
  Ensures-bind, Ensures-map, order_not_found, order_not_refundable, user_not_found,
}
use python_server.Base.Int.{pos_part}
use python_server.Points.Model.{User}
use python_server.Orders.Model.{
  Order, Db, WalletTransaction, is_paid, is_refunded, order_paid, find_user, find_order,
  order_items,
}
use python_server.Orders.Pay.Grant.{balance_of, found_balance, set_user-own}
use python_server.Orders.Pay.Once.{set_order-found}
use python_server.Orders.Cancel.Kept.{refund_items-Same, revoke_reward-balance}
use python_server.Orders.Cancel.{
  World, refund_items, refund_of, with_refund, refunded, refund_wallet, revoke_reward,
  expire_entitlements, refunded_order, write_order, refund_user, apply_refund, finalize_refund,
}

-- The order stands refunded, as it is returned.
abbrev pub Refunded : ℕ → Order × World → Type 0
Refunded order_id r =
    (find_order order_id r.1.db.orders ≡ some r.0) × (is_refunded r.0.payment_status ≡ true)

-- What is on the user's balance after a refund.
abbrev pub refunded_balance : Bool → Order → User → Db → ℕ
refunded_balance to_wallet o u db =
    if to_wallet
    then elim (find (refund_of o.order_no) db.wallet) [
      | none ↦ u.balance + pos_part o.payable_amount
      | some t ↦ u.balance
    ]
    else u.balance

-- The user's row in hand and in the table, both with the balance `b`.
abbrev Holder : User → Db → ℕ → User × Db → Type 0
Holder u db b x =
    (x.0.id ≡ u.id)
    × ((x.0.balance ≡ b) × ((balance_of u.id x.1.users ≡ some b) × (x.1.orders ≡ db.orders)))

refund_wallet-Holder :
    (o : Order) (u : User) (db : Db)
    → balance_of u.id db.users ≡ some u.balance
    → Holder u db (refunded_balance true o u db) (refund_wallet o u db)
unfolding refund_wallet
refund_wallet-Holder o u db has = booked (find (refund_of o.order_no) db.wallet)
  where
    booked :
        (t : Option WalletTransaction)
        → Holder u db
            (elim t [ none ↦ u.balance + pos_part o.payable_amount | some t ↦ u.balance ])
            (elim t [ some t ↦ (u, db) | none ↦ (with_refund o u, refunded o u db) ])
    booked none = (refl, (refl, (set_user-own (with_refund o u) db.users u.balance has, refl)))
    booked (some t) = (refl, (refl, (has, refl)))

after_wallet-Holder :
    (to_wallet : Bool) (o : Order) (u : User) (db : Db)
    → balance_of u.id db.users ≡ some u.balance
    → Holder u db
        (refunded_balance to_wallet o u db)
        (if to_wallet then refund_wallet o u db else (u, db))
after_wallet-Holder true o u db has = refund_wallet-Holder o u db has
after_wallet-Holder false o u db has = (refl, (refl, (has, refl)))

-- What `finalize_refund` has done of an order that was paid.
abbrev pub GivesBack : ℕ → ℕ → ℕ → Order × World → Type 0
GivesBack order_id user_id b r = Refunded order_id r × (balance_of user_id r.1.db.users ≡ some b)

refund_user-GivesBack :
    (now order_id : ℕ) (refund_no refund_id : Text) (to_wallet : Bool) (o : Order) (u : User)
    (w : World)
    → find_order order_id w.db.orders ≡ some o
    → find_user o.user_id w.db.users ≡ some u
    → Ensures
        (GivesBack order_id o.user_id (refunded_balance to_wallet o u w.db))
        (refund_user now refund_no refund_id to_wallet o w u)
unfolding refund_user
refund_user-GivesBack now order_id refund_no refund_id to_wallet o u w found has_user =
    let b = refunded_balance to_wallet o u w.db in
    let row = found_balance o.user_id w.db.users u has_user in
    let has : balance_of u.id w.db.users ≡ some u.balance =
      ap (λ m. balance_of m w.db.users) row.0 ∙ row.1 in
    let x : User × Db = if to_wallet then refund_wallet o u w.db else (u, w.db) in
    let holder : Holder u w.db b x = after_wallet-Holder to_wallet o u w.db has in
    let ro = refunded_order now refund_no refund_id o in
    (Ensures-bind
      (λ later.
        (later.orders ≡ x.1.orders)
        × (balance_of o.user_id later.users ≡ balance_of o.user_id x.1.users))
      (GivesBack order_id o.user_id b) (revoke_reward o x.0 x.1)
      (λ db'.
        let expired = record db' { entitlements = expire_entitlements o.id db'.entitlements } in
        ok (
          ro,
          write_order ro
              (refund_items (order_items o.id expired.items) (record w { db = expired })),
        ))
      (revoke_reward-balance o.user_id o x.0 x.1
        (ap (λ n. balance_of n x.1.users) holder.0 ∙ holder.1.1.0 ∙ ap some (sym holder.1.0)))
      (λ db' k.
        let expired = record db' { entitlements = expire_entitlements o.id db'.entitlements } in
        let same = refund_items-Same (order_items o.id expired.items) (record w { db = expired }) in
        let orders = ap (find_order order_id) (same.0 ∙ k.0 ∙ holder.1.1.1) ∙ found in
        (
          (
            set_order-found order_id ro
                (refund_items (order_items o.id expired.items)
                  (record w { db = expired })).db.orders
                o refl orders,
            refl,
          ),
          ap (balance_of o.user_id) same.1
              ∙ k.1
              ∙ ap (λ m. balance_of m x.1.users) (sym row.0)
              ∙ holder.1.1.0,
        )))

apply_refund-GivesBack :
    (now order_id : ℕ) (refund_no refund_id : Text) (to_wallet : Bool) (o : Order) (u : User)
    (w : World)
    → find_order order_id w.db.orders ≡ some o
    → find_user o.user_id w.db.users ≡ some u
    → Ensures
        (GivesBack order_id o.user_id (refunded_balance to_wallet o u w.db))
        (apply_refund now refund_no refund_id to_wallet o w)
unfolding apply_refund
apply_refund-GivesBack now order_id refund_no refund_id to_wallet o u w found has_user =
    subst
      (λ x. Ensures (GivesBack order_id o.user_id (refunded_balance to_wallet o u w.db)) (elim x [
        | none ↦ err user_not_found
        | some a ↦ refund_user now refund_no refund_id to_wallet o w a
      ]))
      (sym has_user)
      (refund_user-GivesBack now order_id refund_no refund_id to_wallet o u w found has_user)

apply_refund-Refunded :
    (now order_id : ℕ) (refund_no refund_id : Text) (to_wallet : Bool) (o : Order) (w : World)
    → find_order order_id w.db.orders ≡ some o
    → Ensures (Refunded order_id) (apply_refund now refund_no refund_id to_wallet o w)
unfolding apply_refund
apply_refund-Refunded now order_id refund_no refund_id to_wallet o w found =
    option_intro (Ensures (Refunded order_id)) (find_user o.user_id w.db.users) tt (λ u has_user.
      Ensures-map (GivesBack order_id o.user_id (refunded_balance to_wallet o u w.db))
        (Refunded order_id) (refund_user now refund_no refund_id to_wallet o w u) (λ r h. h.0)
        (refund_user-GivesBack now order_id refund_no refund_id to_wallet o u w found has_user))

pub finalize_refund-Refunded :
    (now order_id : ℕ) (refund_no refund_id : Text) (to_wallet : Bool) (w : World)
    → Ensures (Refunded order_id) (finalize_refund now order_id refund_no refund_id to_wallet w)
unfolding finalize_refund
finalize_refund-Refunded now order_id refund_no refund_id to_wallet w =
    option_intro (Ensures (Refunded order_id)) (find_order order_id w.db.orders) tt (λ o found.
      if_cases (Ensures (Refunded order_id)) (is_refunded o.payment_status) (λ e. (found, e))
        (λ e.
          if_intro (Ensures (Refunded order_id)) (is_paid o.payment_status && order_paid o.status)
            (apply_refund-Refunded now order_id refund_no refund_id to_wallet o w found) tt))

Refunded-again :
    (now order_id : ℕ) (refund_no refund_id : Text) (to_wallet : Bool) (r : Order × World)
    → Refunded order_id r
    → finalize_refund now order_id refund_no refund_id to_wallet r.1 ≡ ok r
unfolding finalize_refund
Refunded-again now order_id refund_no refund_id to_wallet r (found, refunded) =
    ap
      (λ (x : Option Order). elim x as (λ _. Result (Order × World)) [
        | none ↦ err order_not_found
        | some o ↦
            if is_refunded o.payment_status
            then ok (o, r.1)
            else if is_paid o.payment_status && order_paid o.status
            then apply_refund now refund_no refund_id to_wallet o r.1
            else err order_not_refundable
      ])
      found
    ∙ if_true (is_refunded r.0.payment_status) _ refunded

-- Once finalize_refund has returned, a later call for the same order, with whatever arguments, returns the
-- same order and changes neither the database nor Redis.
pub finalize_refund-Once :
    (now later order_id : ℕ) (refund_no refund_id no' id' : Text) (to_wallet to_wallet' : Bool)
    (w : World)
    → Ensures
        (λ r. finalize_refund later order_id no' id' to_wallet' r.1 ≡ ok r)
        (finalize_refund now order_id refund_no refund_id to_wallet w)
finalize_refund-Once now later order_id refund_no refund_id no' id' to_wallet to_wallet' w =
    Ensures-map (Refunded order_id)
      (λ r. finalize_refund later order_id no' id' to_wallet' r.1 ≡ ok r)
      (finalize_refund now order_id refund_no refund_id to_wallet w)
      (Refunded-again later order_id no' id' to_wallet')
      (finalize_refund-Refunded now order_id refund_no refund_id to_wallet w)

-- A call of finalize_refund that returns, for an order that is paid, leaves on the user's balance what was
-- there and, if the refund goes to the wallet and none is booked under the order's number, the order's
-- payable amount; the order is stored refunded, as it is returned.
pub finalize_refund-GivesBack :
    (now order_id : ℕ) (refund_no refund_id : Text) (to_wallet : Bool) (o : Order) (u : User)
    (w : World)
    → find_order order_id w.db.orders ≡ some o
    → find_user o.user_id w.db.users ≡ some u
    → is_refunded o.payment_status ≡ false
    → Ensures
        (GivesBack order_id o.user_id (refunded_balance to_wallet o u w.db))
        (finalize_refund now order_id refund_no refund_id to_wallet w)
unfolding finalize_refund
finalize_refund-GivesBack now order_id refund_no refund_id to_wallet o u w found has_user fresh =
    let P = Ensures (GivesBack order_id o.user_id (refunded_balance to_wallet o u w.db)) in
    subst
      (λ x. P (elim x [
        | none ↦ err order_not_found
        | some o ↦
            if is_refunded o.payment_status
            then ok (o, w)
            else if is_paid o.payment_status && order_paid o.status
            then apply_refund now refund_no refund_id to_wallet o w
            else err order_not_refundable
      ]))
      (sym found)
      (if_cases P (is_refunded o.payment_status) (λ e. absurd (ground arith))
        (λ e.
          if_intro P (is_paid o.payment_status && order_paid o.status)
            (apply_refund-GivesBack now order_id refund_no refund_id to_wallet o u w found has_user)
            tt))
