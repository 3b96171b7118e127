-- ===== src/Orders/Cancel/Kept.antt =====
-- What the steps of a cancellation or a refund leave alone.
use python_server.Base.{
  ℕ, ◌-◌, min, ◌≡◌, refl, sym, ap, ◌∙◌, Option, some, List, [], ◌∷◌, Text, ◌==◌, if◌then◌else◌,
  find, option_intro, if_intro, ok, Ensures, Ensures-bind,
}
use python_server.Points.Model.{
  expense, revoked, User, Ledger, Lot, Session, Posting, find_ledger, is_income, is_revoked,
}
use python_server.Points.Rows.{is_duplicate, flush_ledger, ledger_row, write_lot}
use python_server.Points.Credit.{opened_by, revoke_lot, revoke_credit_locked}
use python_server.Orders.Model.{
  Order, Item, Db, is_finite, find_product, order_items, points_session, end_session,
}
use python_server.Orders.Pay.Grant.{balance_of, set_user-balance}
use python_server.Orders.Cancel.{
  World, restore_stock, cancel_item, take_back_sales, refund_item, refund_items, revoke_reward,
  purchase_key, reversal_posting, vip_order,
}

-- `later` has the orders and the users of `w`.
abbrev pub Same : World → World → Type 0
Same w later = (later.db.orders ≡ w.db.orders) × (later.db.users ≡ w.db.users)

pub Same-trans : (a b c : World) → Same a b → Same b c → Same a c
Same-trans a b c (p, q) (p', q') = (p' ∙ p, q' ∙ q)

restore_stock-Same : (i : Item) (w : World) → Same w (restore_stock i w)
unfolding restore_stock
restore_stock-Same i w =
    option_intro (Same w) (find_product i.product_id w.db.products) (refl, refl)
      (λ p found. if_intro (Same w) (is_finite p.stock) (refl, refl) (refl, refl))

pub cancel_item-Same : (i : Item) (w : World) → Same w (cancel_item i w)
unfolding cancel_item
cancel_item-Same i w = if_intro (Same w) i.stock_deducted (restore_stock-Same i w) (refl, refl)

pub refund_items-Same : (is : List Item) (w : World) → Same w (refund_items is w)
unfolding refund_items refund_item
refund_items-Same [] w = (refl, refl)
refund_items-Same (i ∷ is) w =
    let w' = take_back_sales i w in
    Same-trans w (cancel_item i w') (refund_items is (cancel_item i w'))
      (Same-trans w w' (cancel_item i w')
        (option_intro (Same w) (find_product i.product_id w.db.products) (refl, refl)
          (λ p found. (refl, refl)))
        (cancel_item-Same i w'))
      (refund_items-Same is (cancel_item i w'))

-- The revocation changes no more of the user's row than the points.
abbrev SameOwner : User → Option Ledger × Session → Type 0
SameOwner u r = (r.1.user.id ≡ u.id) × (r.1.user.balance ≡ u.balance)

abbrev Owned : User → Session → Type 0
Owned u s = (s.user.id ≡ u.id) × (s.user.balance ≡ u.balance)

flush_ledger-Owned : (s : Session) (row : Ledger) → Ensures (Owned s.user) (flush_ledger s row)
unfolding flush_ledger
flush_ledger-Owned s row = if_intro (Ensures (Owned s.user)) (is_duplicate s row) tt (refl, refl)

revoke_lot-SameOwner :
    (p : Posting) (l : Lot) (s : Session) → Ensures (SameOwner s.user) (revoke_lot p l s)
unfolding revoke_lot
revoke_lot-SameOwner p l s =
    let amount = min l.remaining_amount s.user.points in
    let left = l.remaining_amount - amount in
    let row = ledger_row s expense amount s.user.points (s.user.points - amount) p in
    let s' =
      write_lot
        (record l { remaining_amount = left; status = if left == 0 then revoked else l.status })
        s in
    if_intro (Ensures (SameOwner s.user)) (amount == 0) (refl, refl)
      (Ensures-bind (Owned s.user) (SameOwner s.user) (flush_ledger s' row)
        (λ s''. ok (some row, s'')) (flush_ledger-Owned s' row) (λ s'' h. h))

revoke_credit_locked-SameOwner :
    (key : Text) (p : Posting) (s : Session)
    → Ensures (SameOwner s.user) (revoke_credit_locked key p s)
unfolding revoke_credit_locked
revoke_credit_locked-SameOwner key p s =
    option_intro (Ensures (SameOwner s.user)) (find_ledger s.user.id p.idempotency_key s.ledgers)
      (option_intro (Ensures (SameOwner s.user)) (find_ledger s.user.id key s.ledgers) (refl, refl)
        (λ row found.
          if_intro (Ensures (SameOwner s.user)) (is_income row.direction)
            (option_intro (Ensures (SameOwner s.user)) (find (opened_by row.id) s.lots) (refl, refl)
              (λ l opened.
                if_intro (Ensures (SameOwner s.user)) (is_revoked l.status) (refl, refl)
                  (revoke_lot-SameOwner p l s)))
            (refl, refl)))
      (λ row found. (refl, refl))

pub revoke_reward-balance :
    (id : ℕ) (o : Order) (u : User) (db : Db)
    → balance_of u.id db.users ≡ some u.balance
    → Ensures
        (λ later. (later.orders ≡ db.orders) × (balance_of id later.users ≡ balance_of id db.users))
        (revoke_reward o u db)
unfolding revoke_reward
revoke_reward-balance id o u db has =
    let vip = vip_order (order_items o.id db.items) in
    let revoked =
      revoke_credit_locked (purchase_key vip o.id) (reversal_posting vip o) (points_session u db) in
    Ensures-bind (SameOwner u)
      (λ later. (later.orders ≡ db.orders) × (balance_of id later.users ≡ balance_of id db.users))
      revoked (λ r. ok (end_session r.1 db))
      (revoke_credit_locked-SameOwner (purchase_key vip o.id) (reversal_posting vip o)
        (points_session u db))
      (λ r h. (
        refl,
        set_user-balance id r.1.user db.users
            (ap (λ n. balance_of n db.users) h.0 ∙ has ∙ ap some (sym h.1)),
      ))
