-- ===== src/Orders/Stock.antt =====
-- The stock of a product in its row and its counter in Redis.
pub mod Placed
pub mod Refunded
pub mod Created
use python_server.Base.{
  subst, ◌||◌, not, ◌-◌, ℕ, ◌+◌, ◌≡◌, ◌≢◌, refl, sym, ap, ◌∙◌, Bool, true, false, Option, none,
  some, List, [], ◌∷◌, ◌++◌, Text, arith, ◌==◌, if◌then◌else◌, find, option_or, option_intro,
  if_intro, Bool-cases, inl, inr, ==_iff, Result, ok, err, Error, integrity_error, result_intro,
}
use python_server.Base.Int.{ℤ, pos, negsuc, ◌+ℤ◌, ◌-ℤ◌, ltb_ℤ, int_laws}
use python_server.Orders.Model.{
  is_paid, order_pending, order_items, Order, Item, Product, Db, find_product, set_product,
  is_finite,
}
use python_server.Orders.Redis.{Redis, incr_stock}
use python_server.Orders.Cancel.{
  World, restore_stock, try_incr, write_item, cancel_item, cancel_items, cancel_unpaid_order,
  take_back_sales, refund_item, refund_items,
}
use python_server.Orders.Create.Rollback.{taken, StandsAt, incr_stock-StandsAt, +ℤ_zero}

-- The stock in the row of the product `id`.
abbrev pub stock_of : ℕ → List Product → Option ℤ
stock_of id [] = none
stock_of id (p ∷ ps) = if p.id == id then some p.stock else stock_of id ps

-- The product has a row that counts its stock, and the counter in Redis agrees with it.
abbrev pub Aligned : ℕ → World → Type 0
Aligned id w =
    (v : ℤ) × (StandsAt id v w.redis
      × ((stock_of id w.db.products ≡ some v) × (is_finite v ≡ true)))

pub find_product-found :
    (id : ℕ) (ps : List Product) (p : Product)
    → find_product (pos id) ps ≡ some p
    → (p.id ≡ id) × (stock_of id ps ≡ some p.stock)
find_product-found id [] p h = grind arith
find_product-found id (x ∷ ps) p h = ground (arith, find_product-found id ps p)

pub set_product-stock :
    (id : ℕ) (new : Product) (ps : List Product) (v : ℤ)
    → stock_of id ps ≡ some v
    → stock_of id (set_product new ps) ≡ some (if new.id == id then new.stock else v)
set_product-stock id new [] v h = grind arith
set_product-stock id new (p ∷ ps) v h = ground (arith, set_product-stock id new ps v)

-- A write of a product's row and of counters, together.
pub set_product-Aligned :
    (id : ℕ) (new : Product) (v v' : ℤ) (w : World) (r : Redis)
    → stock_of id w.db.products ≡ some v
    → (new.id == id ≡ true → new.stock ≡ v')
    → (new.id == id ≡ false → v ≡ v')
    → is_finite v' ≡ true
    → StandsAt id v' r
    → Aligned id
        (record w { db = record (w.db) { products = set_product new w.db.products }; redis = r })
set_product-Aligned id new v v' w r s same other fin h = (
  v',
  (h, (set_product-stock id new w.db.products v s ∙ ap some (ifs (new.id == id) same other), fin)),
)
  where
    ifs :
        (b : Bool)
        → (b ≡ true → new.stock ≡ v')
        → (b ≡ false → v ≡ v')
        → (if b then new.stock else v) ≡ v'
    ifs true same other = same refl
    ifs false same other = other refl

-- The row of a product that is found has the aligned stock.
pub found_stock :
    (id : ℕ) (n : ℤ) (ps : List Product) (p : Product) (v : ℤ)
    → find_product n ps ≡ some p
    → stock_of id ps ≡ some v
    → p.id == id ≡ true
    → p.stock ≡ v
found_stock id (pos n) ps p v found s e =
    grind (arith, find_product-found n ps p found, ==_iff p.id id)
found_stock id (negsuc n) ps p v found s e = grind arith

finite_plus : (v : ℤ) (q : ℕ) → is_finite v ≡ true → is_finite (v +ℤ pos q) ≡ true
unfolding ◌+ℤ◌
finite_plus v q h = ground arith

moved_same :
    (a b q : ℕ) (x v : ℤ)
    → (a == b ≡ true → x ≡ v)
    → a == b ≡ true
    → x +ℤ pos q ≡ v +ℤ pos (if b == a then q else 0)
moved_same a b q x v f h = ap (λ y. y +ℤ pos q) (f h) ∙ ap (λ n. v +ℤ pos n) (ground arith)

moved_other : (a b q : ℕ) (v : ℤ) → a == b ≡ false → v ≡ v +ℤ pos (if b == a then q else 0)
moved_other a b q v h = sym (+ℤ_zero v) ∙ ap (λ n. v +ℤ pos n) (ground arith)

try_incr-StandsAt :
    (id j q : ℕ) (v : ℤ) (r : Redis)
    → r.available ≡ true
    → StandsAt id v r
    → StandsAt id (v +ℤ pos (if id == j then q else 0)) (try_incr j q r)
try_incr-StandsAt id j q v r up h =
    subst
      (λ b. StandsAt id (v +ℤ pos (if id == j then q else 0)) (if b then incr_stock j q r else r))
      (sym up) (incr_stock-StandsAt id j q v r h)

pub restore_stock-Aligned :
    (id : ℕ) (i : Item) (w : World)
    → w.redis.available ≡ true
    → Aligned id w
    → Aligned id (restore_stock i w)
unfolding restore_stock
restore_stock-Aligned id i w up (v, (h, (s, fin))) =
    option_intro (Aligned id) (find_product i.product_id w.db.products) (v, (h, (s, fin)))
      (λ p found.
        if_intro (Aligned id) (is_finite p.stock)
          (set_product-Aligned id (record p { stock = p.stock +ℤ pos i.quantity }) v
            (v +ℤ pos (if id == p.id then i.quantity else 0)) w (try_incr p.id i.quantity w.redis) s
            (moved_same p.id id i.quantity p.stock v
              (found_stock id i.product_id w.db.products p v found s))
            (moved_other p.id id i.quantity v)
            (finite_plus v (if id == p.id then i.quantity else 0) fin)
            (try_incr-StandsAt id p.id i.quantity v w.redis up h))
          (v, (h, (s, fin))))

-- A round of either loop keeps the two in step, and Redis up.
pub cancel_item-Aligned :
    (id : ℕ) (i : Item) (w : World)
    → w.redis.available ≡ true
    → Aligned id w
    → Aligned id (cancel_item i w)
unfolding cancel_item
cancel_item-Aligned id i w up h =
    if_intro (Aligned id) i.stock_deducted (restore_stock-Aligned id i w up h) h

restore_stock-available :
    (i : Item) (w : World) → w.redis.available ≡ true → (restore_stock i w).redis.available ≡ true
unfolding restore_stock
restore_stock-available i w up =
    option_intro (λ (x : World). x.redis.available ≡ true) (find_product i.product_id w.db.products)
      up
      (λ p found.
        if_intro (λ (x : World). x.redis.available ≡ true) (is_finite p.stock)
          (if_intro (λ (r : Redis). r.available ≡ true) w.redis.available up up) up)

pub cancel_item-available :
    (i : Item) (w : World) → w.redis.available ≡ true → (cancel_item i w).redis.available ≡ true
unfolding cancel_item
cancel_item-available i w up =
    if_intro (λ (x : World). x.redis.available ≡ true) i.stock_deducted
      (restore_stock-available i w up) up

pub cancel_items-Aligned :
    (id : ℕ) (is : List Item) (w : World)
    → w.redis.available ≡ true
    → Aligned id w
    → Aligned id (cancel_items is w)
unfolding cancel_items
cancel_items-Aligned id [] w up h = h
cancel_items-Aligned id (i ∷ is) w up h =
    cancel_items-Aligned id is (cancel_item i w) (cancel_item-available i w up)
      (cancel_item-Aligned id i w up h)

-- A cancellation, whatever it answers, leaves the row of a product and its counter in agreement.
pub cancel_unpaid_order-Aligned :
    (id now : ℕ) (reason : Text) (o : Order) (w : World)
    → w.redis.available ≡ true
    → Aligned id w
    → Aligned id (cancel_unpaid_order now reason o w).1
unfolding cancel_unpaid_order
cancel_unpaid_order-Aligned id now reason o w up h =
    if_intro (λ (x : Bool × World). Aligned id x.1)
      (is_paid o.payment_status || not (order_pending o.status)) h
      (cancel_items-Aligned id (order_items o.id w.db.items) w up h)
