-- ===== src/Orders/Create/Released.antt =====
-- Locks and rows after a request that fails.
use python_server.Base.{
  ℕ, ◌≡◌, refl, ap, ◌∙◌, Option, none, some, List, [], ◌∷◌, Text, find, option_or, option_intro,
  if_intro, inl, inr, Result, ok, err, Error, result_intro,
}
use python_server.Base.Int.{ℤ, pos}
use python_server.Orders.Model.{Order, Product, Db, find_product}
use python_server.Orders.Redis.{Redis, has_text}
use python_server.Orders.Cancel.{World}
use python_server.Orders.Basket.{Request, validate_products, merge_items}
use python_server.Orders.Create.{
  idem_key, lock, unlock, recovered, placed, cached_order, after_reservation, after_persist,
  is_integrity_error, rolled_back, persist_order, rollback_redis_stock, pre_deduct_stock,
  persist_reserved, create_reserved, create_new, create_order,
}
use python_server.Base.{subst, text_eq, text_eq_refl, ◌⊎◌, if_true}
use python_server.Base.Int.{ltb_ℤ}
use python_server.Orders.Model.{is_finite}
use python_server.Orders.Redis.{drop_text, set_stock_if_absent, decr_stock, incr_stock, get_stock}

rollback-locks : (ds : List (ℕ × ℕ)) (r : Redis) → (rollback_redis_stock ds r).locks ≡ r.locks
unfolding rollback_redis_stock
rollback-locks [] r = refl
rollback-locks ((id, q) ∷ ds) r = rollback-locks ds (incr_stock id q r)

set_if_absent-locks : (id : ℕ) (v : ℤ) (r : Redis) → (set_stock_if_absent id v r).locks ≡ r.locks
set_if_absent-locks id v r =
    option_intro (λ (x : Redis). x.locks ≡ r.locks) (r.stock id) refl (λ old e. refl)

abbrev HasLocks : List Text → Option Error × (List (ℕ × ℕ) × Redis) → Type 0
HasLocks ls (e, (ds, r)) = r.locks ≡ ls

pre_deduct_stock-locks :
    (ps : List Product) (m ds : List (ℕ × ℕ)) (r : Redis)
    → HasLocks r.locks (pre_deduct_stock ps m ds r)
unfolding pre_deduct_stock
pre_deduct_stock-locks ps [] ds r = refl
pre_deduct_stock-locks ps ((id, q) ∷ m) ds r =
    option_intro (HasLocks r.locks) (find_product (pos id) ps) refl (λ p found.
      let r' = decr_stock id q (set_stock_if_absent id p.stock r) in
      if_intro (HasLocks r.locks) (is_finite p.stock)
        (if_intro (HasLocks r.locks) (ltb_ℤ (option_or (pos 0) (get_stock id r')) (pos 0))
          (rollback-locks ((id, q) ∷ ds) r' ∙ set_if_absent-locks id p.stock r)
          (subst (λ ls. HasLocks ls (pre_deduct_stock ps m ((id, q) ∷ ds) r'))
            (set_if_absent-locks id p.stock r) (pre_deduct_stock-locks ps m ((id, q) ∷ ds) r')))
        (pre_deduct_stock-locks ps m ds r))

-- The locks and the rows as they were, but for what another session has committed.
abbrev pub Undone : Option Order → World → Result Order × World → Type 0
Undone rival w (ok o, w') = Unit
Undone rival w (err e, w') =
    (w'.redis.locks ≡ w.redis.locks) × ((w'.db ≡ w.db) ⊎ (w'.db ≡ rolled_back rival w.db))

-- The lock that this call has taken is dropped.
unlock-locks :
    (key : Text) (ls : List Text) (r : Redis) → r.locks ≡ key ∷ ls → (unlock key r).locks ≡ ls
unlock-locks key ls r h = ap (drop_text key) h ∙ if_true (text_eq key key) _ (text_eq_refl key)

recovered-Undone :
    (e : Error) (rival : Option Order) (w w' : World)
    → w'.redis.locks ≡ w.redis.locks
    → w'.db ≡ rolled_back rival w.db
    → Undone rival w (recovered e rival, w')
recovered-Undone e none w w' h k = (h, inr k)
recovered-Undone e (some o) w w' h k =
    if_intro (λ x. Undone (some o) w (x, w')) (is_integrity_error e) tt (h, inr k)

after_persist-Undone :
    (user_id : ℕ) (q : Request) (rival : Option Order) (ds : List (ℕ × ℕ)) (r : Redis) (w : World)
    (x : Result (Order × Db))
    → r.locks ≡ idem_key user_id q.idempotency_key ∷ w.redis.locks
    → Undone rival w (after_persist user_id q rival ds r w.db x)
after_persist-Undone user_id q rival ds r w (ok a) h = tt
after_persist-Undone user_id q rival ds r w (err e) h =
    let key = idem_key user_id q.idempotency_key in
    recovered-Undone e rival w
      (record { db = rolled_back rival w.db; redis = unlock key (rollback_redis_stock ds r) })
      (unlock-locks key w.redis.locks (rollback_redis_stock ds r) (rollback-locks ds r ∙ h)) refl

reserved-Undone :
    (user_id : ℕ) (q : Request) (m : List (ℕ × ℕ)) (rival : Option Order) (w : World)
    (x : Option Error × (List (ℕ × ℕ) × Redis))
    → HasLocks (idem_key user_id q.idempotency_key ∷ w.redis.locks) x
    → Undone rival w (after_reservation user_id q m rival w.db x)
unfolding persist_reserved
reserved-Undone user_id q m rival w (none, (ds, r)) h =
    after_persist-Undone user_id q rival ds r w (persist_order user_id q m rival w.db) h
reserved-Undone user_id q m rival w (some e, (ds, r)) h = (
  unlock-locks (idem_key user_id q.idempotency_key) w.redis.locks (rollback_redis_stock ds r)
      (rollback-locks ds r ∙ h),
  inl refl,
)

create_reserved-Undone :
    (user_id : ℕ) (q : Request) (rival : Option Order) (w : World)
    → Undone rival w
        (create_reserved user_id q rival (lock (idem_key user_id q.idempotency_key) w.redis) w.db)
unfolding create_reserved
create_reserved-Undone user_id q rival w =
    let m = merge_items q.rows [] in
    let key = idem_key user_id q.idempotency_key in
    result_intro (Undone rival w) (validate_products w.db.products m)
      (λ a e.
        reserved-Undone user_id q m rival w (pre_deduct_stock w.db.products m [] (lock key w.redis))
          (pre_deduct_stock-locks w.db.products m [] (lock key w.redis)))
      (λ e raised. (unlock-locks key w.redis.locks (lock key w.redis) refl, inl refl))

-- A call of create_order that raises leaves the locks in Redis as they were, so the same key can be used
-- again, and the database as it was, but for an order that another session has committed meanwhile.
pub create_order-Undone :
    (user_id : ℕ) (q : Request) (rival : Option Order) (w : World)
    → Undone rival w (create_order user_id q rival w)
unfolding create_order create_new
create_order-Undone user_id q rival w =
    option_intro (Undone rival w) (find (placed user_id q.idempotency_key) w.db.orders)
      (if_intro (Undone rival w) w.redis.available
        (option_intro (Undone rival w) (cached_order user_id q.idempotency_key w)
          (if_intro (Undone rival w) (has_text (idem_key user_id q.idempotency_key) w.redis.locks)
            (refl, inl refl) (create_reserved-Undone user_id q rival w))
          (λ o found. tt))
        (refl, inl refl))
      (λ o found. tt)
