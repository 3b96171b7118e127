-- ===== src/Orders/Stock/Created.antt =====
-- A product's row and its counter under `create_order`.
use python_server.Base.{
  option_cases, ℕ, ◌≡◌, refl, ap, ◌∙◌, true, Option, none, some, List, [], find, option_intro,
  if_intro, ==_iff, Result, Error, result_intro,
}
use python_server.Base.Int.{ℤ, pos, ltb_ℤ}
use python_server.Orders.Model.{Order, Db, is_finite}
use python_server.Orders.Redis.{Redis}
use python_server.Orders.Cancel.{World}
use python_server.Orders.Create.Rollback.{+ℤ_zero}
use python_server.Orders.Redis.{has_text}
use python_server.Orders.Basket.{Request, validate_products, merge_items, total_amount}
use python_server.Orders.Create.{
  idem_key, lock, placed, cached_order, rolled_back, after_reservation, new_order, add_items,
  inserted, after_persist, persist_order, rollback_redis_stock, pre_deduct_stock, persist_reserved,
  create_reserved, create_new, create_order,
}
use python_server.Orders.Create.Rollback.{
  Holds, HoldsOf, rolled_back-StandsAt, pre_deduct_stock-Holds,
}
use python_server.Orders.Stock.{stock_of, Aligned, found_stock, find_product-found}
use python_server.Orders.Stock.Placed.{Agrees, Counted, pre_deduct_stock-Agrees}

abbrev Settled : ℕ → Result Order × World → Type 0
Settled id x = Aligned id x.1

Aligned-Counted : (id : ℕ) (w : World) → Aligned id w → Counted id w.db.products
Aligned-Counted id w (v, (h, (s, fin))) p found =
    ap is_finite (
      found_stock id (pos id) w.db.products p v found s
        ((==_iff p.id id).1 (find_product-found id w.db.products p found).0))
    ∙ fin

rolled_back-stock :
    (id : ℕ) (rival : Option Order) (db : Db)
    → stock_of id (rolled_back rival db).products ≡ stock_of id db.products
rolled_back-stock id none db = refl
rolled_back-stock id (some o) db = refl

-- The reservation and the rows, or neither.
persist_reserved-Settled :
    (id : ℕ) (v : ℤ) (user_id : ℕ) (q : Request) (m : List (ℕ × ℕ)) (rival : Option Order)
    (ds : List (ℕ × ℕ)) (r : Redis) (db : Db)
    → stock_of id db.products ≡ some v
    → is_finite v ≡ true
    → Holds id v ds r
    → Aligned id (record {
      db = add_items (new_order user_id q m db) m (inserted (new_order user_id q m db) db);
      redis = r;
    })
    → Settled id (persist_reserved user_id q m rival ds r db)
unfolding persist_reserved persist_order
persist_reserved-Settled id v user_id q m rival ds r db s fin holds agrees =
    let undone : Aligned id
        (record { db = rolled_back rival db; redis = rollback_redis_stock ds r }) =
      (v, (rolled_back-StandsAt id v ds r holds, (rolled_back-stock id rival db ∙ s, fin))) in
    if_intro (λ x. Settled id (after_persist user_id q rival ds r db x))
      (ltb_ℤ (total_amount db.products m) (pos 0)) undone
      (option_cases (λ x. Settled id (after_persist user_id q rival ds r db x)) rival (λ e. agrees)
        (λ o e. undone))

after_reservation-Settled :
    (id : ℕ) (v : ℤ) (user_id : ℕ) (q : Request) (m : List (ℕ × ℕ)) (rival : Option Order) (db : Db)
    (x : Option Error × (List (ℕ × ℕ) × Redis))
    → stock_of id db.products ≡ some v
    → is_finite v ≡ true
    → HoldsOf id v x
    → Agrees id (new_order user_id q m db) m (inserted (new_order user_id q m db) db) x
    → Settled id (after_reservation user_id q m rival db x)
after_reservation-Settled id v user_id q m rival db (none, (ds, r)) s fin holds agrees =
    persist_reserved-Settled id v user_id q m rival ds r db s fin holds agrees
after_reservation-Settled id v user_id q m rival db (some e, (ds, r)) s fin holds agrees =
    (v, (rolled_back-StandsAt id v ds r holds, (s, fin)))

create_reserved-Settled :
    (id : ℕ) (user_id : ℕ) (q : Request) (rival : Option Order) (r : Redis) (db : Db)
    → Aligned id (record { db = db; redis = r })
    → Settled id (create_reserved user_id q rival r db)
unfolding create_reserved
create_reserved-Settled id user_id q rival r db (v, (h, (s, fin))) =
    let m = merge_items q.rows [] in
    let o = new_order user_id q m db in
    result_intro (Settled id) (validate_products db.products m)
      (λ a e.
        after_reservation-Settled id v user_id q m rival db (pre_deduct_stock db.products m [] r) s
          fin (pre_deduct_stock-Holds id v db.products m [] r (v, (h, +ℤ_zero v)))
          (pre_deduct_stock-Agrees id o db.products m [] r (inserted o db)
            (Aligned-Counted id (record { db = db; redis = r }) (v, (h, (s, fin))))
            (v, (h, (s, fin)))))
      (λ e raised. (v, (h, (s, fin))))

create_new-Settled :
    (id : ℕ) (user_id : ℕ) (q : Request) (rival : Option Order) (w : World)
    → Aligned id w
    → Settled id (create_new user_id q rival w)
unfolding create_new
create_new-Settled id user_id q rival w h =
    let key = idem_key user_id q.idempotency_key in
    if_intro (Settled id) w.redis.available
      (option_intro (Settled id) (cached_order user_id q.idempotency_key w)
        (if_intro (Settled id) (has_text key w.redis.locks) h
          (create_reserved-Settled id user_id q rival (lock key w.redis) w.db h))
        (λ o found. h))
      h

-- A call of create_order leaves the row of a product and its counter in agreement, whether it places
-- the order or raises.
pub create_order-Aligned :
    (id user_id : ℕ) (q : Request) (rival : Option Order) (w : World)
    → Aligned id w
    → Aligned id (create_order user_id q rival w).1
unfolding create_order
create_order-Aligned id user_id q rival w h =
    option_intro (Settled id) (find (placed user_id q.idempotency_key) w.db.orders)
      (create_new-Settled id user_id q rival w h) (λ o found. h)
