-- ===== src/Orders/Stock/Placed.antt =====
-- A product's row and its counter under a reservation and the rows of the order.
use python_server.Base.{
  ℕ, ◌≡◌, refl, sym, ap, ◌∙◌, true, false, Option, none, some, List, [], ◌∷◌, arith, ◌==◌,
  if◌then◌else◌, option_or, option_intro, Bool-cases, inl, inr, ==_iff, Error,
}
use python_server.Base.Int.{ℤ, pos, ◌-ℤ◌, ltb_ℤ}
use python_server.Orders.Model.{Order, Product, Db, find_product, is_finite}
use python_server.Orders.Redis.{Redis}
use python_server.Orders.Create.Rollback.{StandsAt}
use python_server.Base.{if_cases, option_cases}
use python_server.Orders.Redis.{set_stock_if_absent, decr_stock, get_stock}
use python_server.Orders.Create.{pre_deduct_stock, add_item, add_items}
use python_server.Orders.Create.Rollback.{decr_stock-StandsAt, -ℤ_zero, set_if_absent-StandsAt}
use python_server.Orders.Stock.{
  stock_of, Aligned, set_product-Aligned, found_stock, find_product-found,
}

not_found : (id : ℕ) (ps : List Product) → find_product (pos id) ps ≡ none → stock_of id ps ≡ none
not_found id [] h = refl
not_found id (p ∷ ps) h = ground (arith, not_found id ps)

same_row :
    (id j : ℕ) (ps : List Product) (p : Product)
    → find_product (pos j) ps ≡ some p
    → id == j ≡ true
    → p.id == id ≡ true
same_row id j ps p found t = grind (arith, find_product-found j ps p found)

other_row :
    (id j : ℕ) (ps : List Product) (p : Product)
    → find_product (pos j) ps ≡ some p
    → p.id == id ≡ false
    → id == j ≡ false
other_row id j ps p found t = grind (arith, find_product-found j ps p found)

moved_row :
    (id j q : ℕ) (v v' : ℤ) (ps : List Product) (p : Product)
    → find_product (pos j) ps ≡ some p
    → stock_of id ps ≡ some v
    → (id == j ≡ true → v' ≡ v -ℤ pos q)
    → p.id == id ≡ true
    → p.stock -ℤ pos q ≡ v'
moved_row id j q v v' ps p found s same t =
    ap (λ x. x -ℤ pos q) (found_stock id (pos j) ps p v found s t)
    ∙ sym (same (grind (arith, find_product-found j ps p found)))

-- A row that is missing, or does not count its stock, is not the aligned product's.
unmoved_missing :
    (id j : ℕ) (v v' : ℤ) (ps : List Product)
    → stock_of id ps ≡ some v
    → (id == j ≡ false → v' ≡ v)
    → find_product (pos j) ps ≡ none
    → v' ≡ v
unmoved_missing id j v v' ps s other missing = other (grind (arith, not_found j ps missing))

unmoved_infinite :
    (id j : ℕ) (v v' : ℤ) (ps : List Product) (p : Product)
    → find_product (pos j) ps ≡ some p
    → stock_of id ps ≡ some v
    → is_finite v ≡ true
    → (id == j ≡ false → v' ≡ v)
    → is_finite p.stock ≡ false
    → v' ≡ v
unmoved_infinite id j v v' ps p found s fin other e =
    other (grind (arith, found_stock id (pos j) ps p v found s, same_row id j ps p found))

-- One row of an order, against a counter that has moved with it, or is another product's.
add_item-Aligned :
    (id j q : ℕ) (v v' : ℤ) (o : Order) (db : Db) (r : Redis)
    → stock_of id db.products ≡ some v
    → is_finite v ≡ true
    → (id == j ≡ true → v' ≡ v -ℤ pos q)
    → (id == j ≡ false → v' ≡ v)
    → is_finite v' ≡ true
    → StandsAt id v' r
    → Aligned id (record { db = add_item o j q db; redis = r })
unfolding add_item
add_item-Aligned id j q v v' o db r s fin same other fin' h =
    option_cases (λ (x : Db). Aligned id (record { db = x; redis = r }))
      (find_product (pos j) db.products)
      (λ missing. (
        v',
        (h, (s ∙ ap some (sym (unmoved_missing id j v v' db.products s other missing)), fin')),
      ))
      (λ p found.
        if_cases
          (λ (ps : List Product).
            Aligned id (record { db = record db { products = ps }; redis = r }))
          (is_finite p.stock)
          (λ e.
            set_product-Aligned id (record p { stock = p.stock -ℤ pos q }) v v'
              (record { db = db; redis = r }) r s
              (λ t. moved_row id j q v v' db.products p found s same t)
              (λ t. sym (other (other_row id j db.products p found t))) fin' h)
          (λ e. (
            v',
            (
              h,
              (
                s ∙ ap some (sym (unmoved_infinite id j v v' db.products p found s fin other e)),
                fin',
              ),
            ),
          )))

-- What a reservation and the rows of the order come to, where the reservation succeeds.
abbrev pub Agrees : ℕ → Order → List (ℕ × ℕ) → Db → Option Error × (List (ℕ × ℕ) × Redis) → Type 0
Agrees id o m db (none, (ds, r)) = Aligned id (record { db = add_items o m db; redis = r })
Agrees id o m db (some e, (ds, r)) = Unit

-- The product as the request has read it counts its stock.
abbrev pub Counted : ℕ → List Product → Type 0
Counted id ps = (p : Product) → find_product (pos id) ps ≡ some p → is_finite p.stock ≡ true

taken_same :
    (id j q : ℕ) (v : ℤ) → id == j ≡ true → v -ℤ pos (if id == j then q else 0) ≡ v -ℤ pos q
taken_same id j q v e = ap (λ n. v -ℤ pos n) (ground arith)

taken_other : (id j q : ℕ) (v : ℤ) → id == j ≡ false → v -ℤ pos (if id == j then q else 0) ≡ v
taken_other id j q v e = ap (λ n. v -ℤ pos n) (ground arith) ∙ -ℤ_zero v

not_short : (v : ℤ) → ltb_ℤ v (pos 0) ≡ false → is_finite v ≡ true
not_short v h = ground arith

-- A counter that has passed the test for a shortage is not negative.
finite_after :
    (id j q : ℕ) (v : ℤ) (r : Redis)
    → StandsAt id (v -ℤ pos (if id == j then q else 0)) r
    → is_finite v ≡ true
    → ltb_ℤ (option_or (pos 0) (get_stock j r)) (pos 0) ≡ false
    → is_finite (v -ℤ pos (if id == j then q else 0)) ≡ true
finite_after id j q v r h fin enough = elim (Bool-cases (id == j)) [
  | inl e ↦ not_short (v -ℤ pos (if id == j then q else 0)) (
      ap (λ x. ltb_ℤ (option_or (pos 0) x) (pos 0)) (sym h ∙ ap r.stock ((==_iff id j).0 e))
      ∙ enough)
  | inr e ↦ ap is_finite (taken_other id j q v e) ∙ fin
]

unlimited-Counted :
    (id j : ℕ) (ps : List Product) (p : Product)
    → Counted id ps
    → find_product (pos j) ps ≡ some p
    → is_finite p.stock ≡ false
    → id == j ≡ true
    → ⊥
unlimited-Counted id j ps p c found unlimited e =
    grind (arith, c p (ap (λ n. find_product (pos n) ps) ((==_iff id j).0 e) ∙ found))

pub pre_deduct_stock-Agrees :
    (id : ℕ) (o : Order) (ps : List Product) (m ds : List (ℕ × ℕ)) (r : Redis) (db : Db)
    → Counted id ps
    → Aligned id (record { db = db; redis = r })
    → Agrees id o m db (pre_deduct_stock ps m ds r)
unfolding pre_deduct_stock add_items
pre_deduct_stock-Agrees id o ps [] ds r db c h = h
pre_deduct_stock-Agrees id o ps ((j, q) ∷ m) ds r db c (v, (h, (s, fin))) =
    let stands : (p : Product)
        → StandsAt id (v -ℤ pos (if id == j then q else 0))
            (decr_stock j q (set_stock_if_absent j p.stock r)) =
      λ p.
        decr_stock-StandsAt id j q v (set_stock_if_absent j p.stock r)
          (set_if_absent-StandsAt id j v p.stock r h) in
    option_intro (Agrees id o ((j, q) ∷ m) db) (find_product (pos j) ps) tt (λ p found.
      if_cases (Agrees id o ((j, q) ∷ m) db) (is_finite p.stock)
        (λ counts.
          let r' = decr_stock j q (set_stock_if_absent j p.stock r) in
          if_cases (Agrees id o ((j, q) ∷ m) db)
            (ltb_ℤ (option_or (pos 0) (get_stock j r')) (pos 0)) (λ short. tt)
            (λ enough. pre_deduct_stock-Agrees id o ps m ((j, q) ∷ ds) r' (add_item o j q db) c (
              add_item-Aligned id j q v (v -ℤ pos (if id == j then q else 0)) o db r' s fin
                (taken_same id j q v) (taken_other id j q v)
                (finite_after id j q v r' (stands p) fin enough) (stands p))))
        (λ unlimited. pre_deduct_stock-Agrees id o ps m ds r (add_item o j q db) c (
          add_item-Aligned id j q v v o db r s fin
            (λ e. absurd (unlimited-Counted id j ps p c found unlimited e)) (λ e. refl) fin h)))
