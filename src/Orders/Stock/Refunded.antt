-- ===== src/Orders/Stock/Refunded.antt =====
-- A product's row and its counter under `finalize_refund`.
use python_server.Base.{
  ◌-◌, ℕ, ◌≡◌, refl, ap, ◌∙◌, Bool, true, List, [], ◌∷◌, Text, if◌then◌else◌, find, option_intro,
  if_intro, ok,
}
use python_server.Orders.Model.{is_paid, order_items, Order, Item, Db, find_product}
use python_server.Orders.Cancel.{World, cancel_item, take_back_sales, refund_item, refund_items}
use python_server.Base.{◌&&◌, Ensures-map, Ensures, Ensures-bind, returns_anything}
use python_server.Points.Model.{User}
use python_server.Points.Credit.{revoke_credit_locked}
use python_server.Orders.Model.{
  find_user, find_order, points_session, end_session, is_refunded, order_paid,
}
use python_server.Orders.Cancel.{
  expire_entitlements, refund_of, refund_wallet, revoke_reward, refund_user, apply_refund,
  finalize_refund, purchase_key, reversal_posting, vip_order,
}
use python_server.Orders.Stock.{
  stock_of, Aligned, set_product-Aligned, found_stock, cancel_item-Aligned, cancel_item-available,
}

take_back_sales-Aligned :
    (id : ℕ) (i : Item) (w : World) → Aligned id w → Aligned id (take_back_sales i w)
take_back_sales-Aligned id i w (v, (h, (s, fin))) =
    option_intro (Aligned id) (find_product i.product_id w.db.products) (v, (h, (s, fin)))
      (λ p found.
        set_product-Aligned id (record p { sales = p.sales - i.quantity }) v v w w.redis s
          (found_stock id i.product_id w.db.products p v found s) (λ e. refl) fin h)

take_back_sales-redis : (i : Item) (w : World) → (take_back_sales i w).redis ≡ w.redis
take_back_sales-redis i w =
    option_intro (λ (x : World). x.redis ≡ w.redis) (find_product i.product_id w.db.products) refl
      (λ p found. refl)

refund_items-Aligned :
    (id : ℕ) (is : List Item) (w : World)
    → w.redis.available ≡ true
    → Aligned id w
    → Aligned id (refund_items is w)
unfolding refund_items refund_item
refund_items-Aligned id [] w up h = h
refund_items-Aligned id (i ∷ is) w up h =
    let up' = ap (λ r. r.available) (take_back_sales-redis i w) ∙ up in
    refund_items-Aligned id is (cancel_item i (take_back_sales i w))
      (cancel_item-available i (take_back_sales i w) up')
      (cancel_item-Aligned id i (take_back_sales i w) up' (take_back_sales-Aligned id i w h))

refund_wallet-products :
    (o : Order) (u : User) (db : Db) → (refund_wallet o u db).1.products ≡ db.products
unfolding refund_wallet
refund_wallet-products o u db =
    option_intro (λ (x : User × Db). x.1.products ≡ db.products)
      (find (refund_of o.order_no) db.wallet) refl (λ t found. refl)

revoke_reward-products :
    (o : Order) (u : User) (db : Db)
    → Ensures (λ db'. db'.products ≡ db.products) (revoke_reward o u db)
unfolding revoke_reward
revoke_reward-products o u db =
    let vip = vip_order (order_items o.id db.items) in
    let revoked =
      revoke_credit_locked (purchase_key vip o.id) (reversal_posting vip o) (points_session u db) in
    Ensures-bind (λ _. Unit {0}) (λ db'. db'.products ≡ db.products) revoked
      (λ r. ok (end_session r.1 db)) (returns_anything revoked) (λ r _. refl)

abbrev pub RefundAligned : ℕ → Order × World → Type 0
RefundAligned id r = Aligned id r.1

apply_refund-Aligned :
    (id now : ℕ) (refund_no refund_id : Text) (to_wallet : Bool) (o : Order) (w : World)
    → w.redis.available ≡ true
    → Aligned id w
    → Ensures (RefundAligned id) (apply_refund now refund_no refund_id to_wallet o w)
unfolding apply_refund refund_user
apply_refund-Aligned id now refund_no refund_id to_wallet o w up (v, (h, (s, fin))) =
    let after : User → User × Db = λ u. if to_wallet then refund_wallet o u w.db else (u, w.db) in
    option_intro (Ensures (RefundAligned id)) (find_user o.user_id w.db.users) tt (λ u found.
      Ensures-bind (λ (db : Db). db.products ≡ w.db.products) (RefundAligned id)
        (revoke_reward o (after u).0 (after u).1) _
        (Ensures-map (λ (db : Db). db.products ≡ (after u).1.products)
          (λ (db : Db). db.products ≡ w.db.products) (revoke_reward o (after u).0 (after u).1)
          (λ db e.
            e
            ∙ if_intro (λ (x : User × Db). x.1.products ≡ w.db.products) to_wallet
                (refund_wallet-products o u w.db) refl)
          (revoke_reward-products o (after u).0 (after u).1))
        (λ db e.
          refund_items-Aligned id (order_items o.id db.items)
            (record w {
              db = record db { entitlements = expire_entitlements o.id db.entitlements };
            })
            up (v, (h, (ap (stock_of id) e ∙ s, fin)))))

-- A refund that goes through leaves the row of a product and its counter in agreement.
pub finalize_refund-Aligned :
    (id now order_id : ℕ) (refund_no refund_id : Text) (to_wallet : Bool) (w : World)
    → w.redis.available ≡ true
    → Aligned id w
    → Ensures (RefundAligned id) (finalize_refund now order_id refund_no refund_id to_wallet w)
unfolding finalize_refund
finalize_refund-Aligned id now order_id refund_no refund_id to_wallet w up h =
    option_intro (Ensures (RefundAligned id)) (find_order order_id w.db.orders) tt (λ o found.
      if_intro (Ensures (RefundAligned id)) (is_refunded o.payment_status) h (
        if_intro (Ensures (RefundAligned id)) (is_paid o.payment_status && order_paid o.status)
          (apply_refund-Aligned id now refund_no refund_id to_wallet o w up h) tt))
