-- ===== src/Orders/Basket.antt =====
-- The basket of an order request: `_merge_items`, `_validate_products` and the sums of `_persist_order`.
use python_server.Base.{
  ℕ, ◌+◌, Bool, ◌&&◌, Option, none, some, List, [], ◌∷◌, Text, ◌==◌, if◌then◌else◌, find, Result,
  ok, err, ◌>>=◌, insufficient_stock, product_not_available,
}
use python_server.Base.Int.{ℤ, pos, ◌+ℤ◌, ltb_ℤ}
use python_server.Orders.Model.{Product, scale, find_product, is_finite}

-- OrderCreateRequest: its rows name a product and a quantity.
pub record Request : Type 0 where
  pub rows : List (ℕ × ℕ)
  pub payment_method : Text
  pub idempotency_key : Text

-- `quantity_map[item.product_id] += item.quantity`
abbrev pub add_quantity : ℕ → ℕ → List (ℕ × ℕ) → List (ℕ × ℕ)
add_quantity id q [] = (id, q) ∷ []
add_quantity id q ((j, n) ∷ m) = if j == id then (j, n + q) ∷ m else (j, n) ∷ add_quantity id q m

-- `_merge_items`: a dict keeps the order of the first insertions.
unfoldable pub merge_items : List (ℕ × ℕ) → List (ℕ × ℕ) → List (ℕ × ℕ)
merge_items [] m = m
merge_items ((id, q) ∷ rows) m = merge_items rows (add_quantity id q m)

-- `product.stock >= 0 and product.stock < quantity`
abbrev pub is_short : ℤ → ℕ → Bool
is_short stock q = is_finite stock && ltb_ℤ stock (pos q)

abbrev pub validate_product : Option Product → ℕ → Result (Unit {0})
validate_product none q = err product_not_available
validate_product (some p) q =
    if p.status && p.approved
    then (if is_short p.stock q then err insufficient_stock else ok tt)
    else err product_not_available

-- `_validate_products`
unfoldable pub validate_products : List Product → List (ℕ × ℕ) → Result (Unit {0})
validate_products ps [] = ok tt
validate_products ps ((id, q) ∷ m) =
    validate_product (find_product (pos id) ps) q >>= λ _. validate_products ps m

-- `sum(Decimal(products[pid].price) * quantity ...)`
unfoldable pub total_amount : List Product → List (ℕ × ℕ) → ℤ
total_amount ps [] = pos 0
total_amount ps ((id, q) ∷ m) = elim (find_product (pos id) ps) [
  | none ↦ total_amount ps m
  | some p ↦ scale p.price q +ℤ total_amount ps m
]

-- `{products[pid].school_id for pid in quantity_map}`, as a list without duplicates, and its one
-- element if there is just one.
unfoldable pub school_ids : List Product → List (ℕ × ℕ) → List ℕ
school_ids ps [] = []
school_ids ps ((id, q) ∷ m) = elim (find_product (pos id) ps) [
  | none ↦ school_ids ps m
  | some p ↦
      let rest = school_ids ps m in
      elim (find (λ n. n == p.school_id) rest) [ none ↦ p.school_id ∷ rest | some n ↦ rest ]
]

abbrev pub only_school : List ℕ → ℕ
only_school (n ∷ []) = n
only_school _ = 0
