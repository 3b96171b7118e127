-- ===== src/Orders/Create/Again.antt =====
-- Requests that are sent again.
use python_server.Base.{
  ℕ, ◌≡◌, refl, ap, ◌∙◌, Bool, true, Option, none, some, List, [], ◌∷◌, ◌++◌, Text, arith,
  if◌then◌else◌, find, option_intro, if_intro, Result, ok, err, Error, result_intro,
}
use python_server.Base.Int.{pos, ltb_ℤ}
use python_server.Orders.Model.{Order, Db, find_product}
use python_server.Orders.Redis.{Redis, has_text}
use python_server.Orders.Cancel.{World}
use python_server.Orders.Basket.{Request, validate_products, merge_items}
use python_server.Orders.Create.{
  idem_key, lock, unlock, recovered, placed, cached_order, after_reservation, after_persist,
  is_integrity_error, rolled_back, persist_order, rollback_redis_stock, pre_deduct_stock,
  persist_reserved, create_reserved, create_new, create_order,
}
use python_server.Base.{
  text_eq_refl, option_cases, if_true, if_cases, Ensures, idempotency_conflict,
}
use python_server.Orders.Basket.{total_amount}
use python_server.Orders.Create.{add_item, add_items, inserted, new_order}

add_items-orders : (o : Order) (m : List (ℕ × ℕ)) (db : Db) → (add_items o m db).orders ≡ db.orders
unfolding add_items add_item
add_items-orders o [] db = refl
add_items-orders o ((id, q) ∷ m) db =
    add_items-orders o m (add_item o id q db)
    ∙ option_intro (λ (x : Db). x.orders ≡ db.orders) (find_product (pos id) db.products) refl
        (λ p found. refl)

find-appended :
    (p : Order → Bool) (os : List Order) (o : Order)
    → find p os ≡ none
    → p o ≡ true
    → find p (os ++ o ∷ []) ≡ some o
find-appended p [] o h k = if_true (p o) none k
find-appended p (x ∷ os) o h k = ground (arith, find-appended p os o)

-- The order stands in the table under the user and the key.
abbrev Placed : ℕ → Text → Result Order × World → Type 0
Placed user_id key (ok o, w) = find (placed user_id key) w.db.orders ≡ some o
Placed user_id key (err e, w) = Unit

-- A rival holds the key that it has kept this call from using.
abbrev pub Rivals : ℕ → Text → Option Order → Type 0
Rivals user_id key none = Unit
Rivals user_id key (some o) = placed user_id key o ≡ true

recovered-Placed :
    (user_id : ℕ) (key : Text) (e : Error) (rival : Option Order) (w : World) (db : Db)
    → Rivals user_id key rival
    → find (placed user_id key) db.orders ≡ none
    → w.db.orders ≡ (rolled_back rival db).orders
    → Placed user_id key (recovered e rival, w)
recovered-Placed user_id key e none w db h k same = tt
recovered-Placed user_id key e (some o) w db h k same =
    if_intro (λ x. Placed user_id key (x, w)) (is_integrity_error e)
      (ap (find (placed user_id key)) same ∙ find-appended (placed user_id key) db.orders o k h) tt

new_order-placed :
    (user_id : ℕ) (q : Request) (m : List (ℕ × ℕ)) (db : Db)
    → placed user_id q.idempotency_key (new_order user_id q m db) ≡ true
new_order-placed user_id q m db = ground (arith, text_eq_refl q.idempotency_key)

persist_order-Placed :
    (user_id : ℕ) (q : Request) (m : List (ℕ × ℕ)) (rival : Option Order) (db : Db)
    → find (placed user_id q.idempotency_key) db.orders ≡ none
    → Ensures
        (λ (r : Order × Db). find (placed user_id q.idempotency_key) r.1.orders ≡ some r.0)
        (persist_order user_id q m rival db)
unfolding persist_order
persist_order-Placed user_id q m rival db h =
    let o = new_order user_id q m db in
    let P =
      Ensures (λ (r : Order × Db). find (placed user_id q.idempotency_key) r.1.orders ≡ some r.0) in
    if_intro P (ltb_ℤ (total_amount db.products m) (pos 0)) tt (
      option_cases P rival
        (λ e.
          ap (find (placed user_id q.idempotency_key)) (add_items-orders o m (inserted o db))
          ∙ find-appended (placed user_id q.idempotency_key) db.orders o h
              (new_order-placed user_id q m db))
        (λ other e. tt))

persist_reserved-Placed :
    (user_id : ℕ) (q : Request) (m : List (ℕ × ℕ)) (rival : Option Order) (ds : List (ℕ × ℕ))
    (r : Redis) (db : Db)
    → Rivals user_id q.idempotency_key rival
    → find (placed user_id q.idempotency_key) db.orders ≡ none
    → Placed user_id q.idempotency_key (persist_reserved user_id q m rival ds r db)
unfolding persist_reserved
persist_reserved-Placed user_id q m rival ds r db k h =
    settled (persist_order user_id q m rival db) (persist_order-Placed user_id q m rival db h)
  where
    settled :
        (x : Result (Order × Db))
        → Ensures
            (λ (r : Order × Db). find (placed user_id q.idempotency_key) r.1.orders ≡ some r.0)
            x
        → Placed user_id q.idempotency_key (after_persist user_id q rival ds r db x)
    settled (ok a) p = p
    settled (err e) p =
        recovered-Placed user_id q.idempotency_key e rival
          (record {
            db = rolled_back rival db;
            redis = unlock (idem_key user_id q.idempotency_key) (rollback_redis_stock ds r);
          })
          db k h refl

reserved-Placed :
    (user_id : ℕ) (q : Request) (m : List (ℕ × ℕ)) (rival : Option Order) (db : Db)
    (x : Option Error × (List (ℕ × ℕ) × Redis))
    → Rivals user_id q.idempotency_key rival
    → find (placed user_id q.idempotency_key) db.orders ≡ none
    → Placed user_id q.idempotency_key (after_reservation user_id q m rival db x)
reserved-Placed user_id q m rival db (none, (ds, r)) k h =
    persist_reserved-Placed user_id q m rival ds r db k h
reserved-Placed user_id q m rival db (some e, (ds, r)) k h = tt

create_reserved-Placed :
    (user_id : ℕ) (q : Request) (rival : Option Order) (r : Redis) (db : Db)
    → Rivals user_id q.idempotency_key rival
    → find (placed user_id q.idempotency_key) db.orders ≡ none
    → Placed user_id q.idempotency_key (create_reserved user_id q rival r db)
unfolding create_reserved
create_reserved-Placed user_id q rival r db k h =
    let m = merge_items q.rows [] in
    result_intro (Placed user_id q.idempotency_key) (validate_products db.products m)
      (λ a e. reserved-Placed user_id q m rival db (pre_deduct_stock db.products m [] r) k h)
      (λ e raised. tt)

-- The same request, sent again with whatever rival, gives the same order and changes nothing.
abbrev pub Repeats : ℕ → Request → Result Order × World → Type 0
Repeats user_id q (ok o, w) = (rival : Option Order) → create_order user_id q rival w ≡ (ok o, w)
Repeats user_id q (err e, w) = Unit

Placed-Repeats :
    (user_id : ℕ) (q : Request) (x : Result Order × World)
    → Placed user_id q.idempotency_key x
    → Repeats user_id q x
unfolding create_order
Placed-Repeats user_id q (ok o, w) h = λ rival.
    ap
      (λ (x : Option Order). elim x as (λ _. Result Order × World) [
        | some o ↦ (ok o, w)
        | none ↦ create_new user_id q rival w
      ])
      h
Placed-Repeats user_id q (err e, w) h = tt

cached_again :
    (user_id : ℕ) (q : Request) (rival : Option Order) (w : World) (o : Order)
    → find (placed user_id q.idempotency_key) w.db.orders ≡ none
    → w.redis.available ≡ true
    → cached_order user_id q.idempotency_key w ≡ some o
    → create_order user_id q rival w ≡ (ok o, w)
unfolding create_order create_new
cached_again user_id q rival w o h up cached =
    ap
      (λ (x : Option Order). elim x as (λ _. Result Order × World) [
        | some o ↦ (ok o, w)
        | none ↦ create_new user_id q rival w
      ])
      h
    ∙ if_true w.redis.available _ up
    ∙ ap
        (λ (x : Option Order). elim x as (λ _. Result Order × World) [
          | some o ↦ (ok o, w)
          | none ↦
              if has_text (idem_key user_id q.idempotency_key) w.redis.locks
              then (err idempotency_conflict, w)
              else create_reserved user_id q rival
                  (lock (idem_key user_id q.idempotency_key) w.redis) w.db
        ])
        cached

-- Once create_order has returned an order, whether it is a new one, an earlier one or a rival session's
-- under the same key, the same request sent again returns that order, and neither the database nor Redis
-- changes.
pub create_order-Repeats :
    (user_id : ℕ) (q : Request) (rival : Option Order) (w : World)
    → Rivals user_id q.idempotency_key rival
    → Repeats user_id q (create_order user_id q rival w)
unfolding create_order create_new
create_order-Repeats user_id q rival w k =
    let key = idem_key user_id q.idempotency_key in
    option_cases (Repeats user_id q) (find (placed user_id q.idempotency_key) w.db.orders)
      (λ absent.
        if_cases (Repeats user_id q) w.redis.available
          (λ up.
            option_cases (Repeats user_id q) (cached_order user_id q.idempotency_key w)
              (λ e. if_intro (Repeats user_id q) (has_text key w.redis.locks) tt (
                Placed-Repeats user_id q (create_reserved user_id q rival (lock key w.redis) w.db)
                  (create_reserved-Placed user_id q rival (lock key w.redis) w.db k absent)))
              (λ o cached r. cached_again user_id q r w o absent up cached))
          (λ down. tt))
      (λ o found. Placed-Repeats user_id q (ok o, w) found)
