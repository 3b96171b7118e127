-- ===== src/Orders/Create/Failed.antt =====
-- The stock counters under a call of `create_order` that raises.
use python_server.Base.{
  ℕ, Option, none, some, List, [], find, option_intro, if_intro, Result, ok, err, Error,
  result_intro,
}
use python_server.Base.Int.{ℤ}
use python_server.Orders.Model.{Order, Db}
use python_server.Orders.Redis.{Redis, has_text}
use python_server.Orders.Cancel.{World}
use python_server.Orders.Basket.{Request, validate_products, merge_items}
use python_server.Orders.Create.{
  idem_key, lock, unlock, recovered, placed, cached_order, after_reservation, after_persist,
  is_integrity_error, rolled_back, persist_order, rollback_redis_stock, pre_deduct_stock,
  persist_reserved, create_reserved, create_new, create_order,
}
use python_server.Orders.Create.Rollback.{
  StandsAt, Holds, HoldsOf, +ℤ_zero, rolled_back-StandsAt, pre_deduct_stock-Holds,
}

-- The counter stands at `v` wherever the call has not succeeded.
abbrev pub Spared : ℕ → ℤ → Result Order × World → Type 0
Spared id v (ok o, w) = Unit
Spared id v (err e, w) = StandsAt id v w.redis

recovered-Spared :
    (id : ℕ) (v : ℤ) (e : Error) (rival : Option Order) (w : World)
    → StandsAt id v w.redis
    → Spared id v (recovered e rival, w)
recovered-Spared id v e none w h = h
recovered-Spared id v e (some o) w h =
    if_intro (λ x. Spared id v (x, w)) (is_integrity_error e) tt h

persist_reserved-Spared :
    (id : ℕ) (v : ℤ) (user_id : ℕ) (q : Request) (m : List (ℕ × ℕ)) (rival : Option Order)
    (ds : List (ℕ × ℕ)) (r : Redis) (db : Db)
    → Holds id v ds r
    → Spared id v (persist_reserved user_id q m rival ds r db)
unfolding persist_reserved
persist_reserved-Spared id v user_id q m rival ds r db h =
    settled (persist_order user_id q m rival db)
  where
    settled : (x : Result (Order × Db)) → Spared id v (after_persist user_id q rival ds r db x)
    settled (ok a) = tt
    settled (err e) =
        recovered-Spared id v e rival
          (record {
            db = rolled_back rival db;
            redis = unlock (idem_key user_id q.idempotency_key) (rollback_redis_stock ds r);
          })
          (rolled_back-StandsAt id v ds r h)

-- After a reservation that may have raised.
reserved-Spared :
    (id : ℕ) (v : ℤ) (user_id : ℕ) (q : Request) (m : List (ℕ × ℕ)) (rival : Option Order) (db : Db)
    (x : Option Error × (List (ℕ × ℕ) × Redis))
    → HoldsOf id v x
    → Spared id v (after_reservation user_id q m rival db x)
reserved-Spared id v user_id q m rival db (none, (ds, r)) h =
    persist_reserved-Spared id v user_id q m rival ds r db h
reserved-Spared id v user_id q m rival db (some e, (ds, r)) h = rolled_back-StandsAt id v ds r h

create_reserved-Spared :
    (id : ℕ) (v : ℤ) (user_id : ℕ) (q : Request) (rival : Option Order) (r : Redis) (db : Db)
    → StandsAt id v r
    → Spared id v (create_reserved user_id q rival r db)
unfolding create_reserved
create_reserved-Spared id v user_id q rival r db h =
    result_intro (Spared id v) (validate_products db.products (merge_items q.rows []))
      (λ a e.
        reserved-Spared id v user_id q (merge_items q.rows []) rival db
          (pre_deduct_stock db.products (merge_items q.rows []) [] r)
          (pre_deduct_stock-Holds id v db.products (merge_items q.rows []) [] r
            (v, (h, +ℤ_zero v))))
      (λ e raised. h)

create_new-Spared :
    (id : ℕ) (v : ℤ) (user_id : ℕ) (q : Request) (rival : Option Order) (w : World)
    → StandsAt id v w.redis
    → Spared id v (create_new user_id q rival w)
unfolding create_new
create_new-Spared id v user_id q rival w h =
    if_intro (Spared id v) w.redis.available
      (option_intro (Spared id v) (cached_order user_id q.idempotency_key w)
        (if_intro (Spared id v) (has_text (idem_key user_id q.idempotency_key) w.redis.locks) h (
          create_reserved-Spared id v user_id q rival
            (lock (idem_key user_id q.idempotency_key) w.redis) w.db h))
        (λ o found. tt))
      h

-- A call of create_order that raises leaves every stock counter that exists as it was.
pub create_order-Spared :
    (id : ℕ) (v : ℤ) (user_id : ℕ) (q : Request) (rival : Option Order) (w : World)
    → StandsAt id v w.redis
    → Spared id v (create_order user_id q rival w)
unfolding create_order
create_order-Spared id v user_id q rival w h =
    option_intro (Spared id v) (find (placed user_id q.idempotency_key) w.db.orders)
      (create_new-Spared id v user_id q rival w h) (λ o found. tt)
