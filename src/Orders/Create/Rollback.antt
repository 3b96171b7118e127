-- ===== src/Orders/Create/Rollback.antt =====
-- The stock counters in Redis under a reservation that fails and is rolled back.
use python_server.Base.{
  ℕ, ◌+◌, ◌≡◌, refl, sym, ap, ◌∙◌, Bool, true, false, Option, none, some, List, [], ◌∷◌, arith,
  ◌==◌, if◌then◌else◌, option_or, option_intro, if_intro, ==_iff, Error,
}
use python_server.Base.Int.{ℤ, pos, ◌+ℤ◌, ◌-ℤ◌, ltb_ℤ, int_laws}
use python_server.Orders.Model.{Product, find_product, is_finite}
use python_server.Orders.Redis.{Redis, put, set_stock_if_absent, decr_stock, incr_stock, get_stock}
use python_server.Orders.Create.{rollback_redis_stock, pre_deduct_stock}

-- What a list of deductions has taken from a counter.
abbrev pub taken : ℕ → List (ℕ × ℕ) → ℕ
taken id [] = 0
taken id ((j, q) ∷ m) = (if id == j then q else 0) + taken id m

-- The counter of `id` stands at `v`.
abbrev pub StandsAt : ℕ → ℤ → Redis → Type 0
StandsAt id v r = r.stock id ≡ some v

pub +ℤ_zero : (v : ℤ) → v +ℤ pos 0 ≡ v
+ℤ_zero v = grind int_laws

+ℤ_pos : (v : ℤ) (a b : ℕ) → v +ℤ pos a +ℤ pos b ≡ v +ℤ pos (a + b)
+ℤ_pos v a b = grind int_laws

-ℤ_+ℤ : (v : ℤ) (a b : ℕ) → v -ℤ pos a +ℤ pos (a + b) ≡ v +ℤ pos b
-ℤ_+ℤ v a b = grind int_laws

-- A counter after `put`, whether it is the one written or not.
put_step :
    (b : Bool) (o o' : Option ℤ) (v : ℤ) (f : ℤ → ℤ)
    → o ≡ some v
    → (b ≡ true → o' ≡ o)
    → (if b then some (f (option_or (pos 0) o')) else o) ≡ some (if b then f v else v)
put_step true o o' v f h k = ap (λ p. some (f (option_or (pos 0) p))) (k refl ∙ h)
put_step false o o' v f h k = h

if_added :
    (b : Bool) (v : ℤ) (q : ℕ) → (if b then v +ℤ pos q else v) ≡ v +ℤ pos (if b then q else 0)
if_added true v q = refl
if_added false v q = sym (+ℤ_zero v)

pub incr_stock-StandsAt :
    (id j q : ℕ) (v : ℤ) (r : Redis)
    → StandsAt id v r
    → StandsAt id (v +ℤ pos (if id == j then q else 0)) (incr_stock j q r)
incr_stock-StandsAt id j q v r h =
    put_step (id == j) (r.stock id) (r.stock j) v (λ w. w +ℤ pos q) h
      (λ e. ap r.stock (sym ((==_iff id j).0 e)))
    ∙ ap some (if_added (id == j) v q)

pub rollback-StandsAt :
    (id : ℕ) (ds : List (ℕ × ℕ)) (v : ℤ) (r : Redis)
    → StandsAt id v r
    → StandsAt id (v +ℤ pos (taken id ds)) (rollback_redis_stock ds r)
unfolding rollback_redis_stock
rollback-StandsAt id [] v r h = h ∙ ap some (sym (+ℤ_zero v))
rollback-StandsAt id ((j, q) ∷ ds) v r h =
    rollback-StandsAt id ds (v +ℤ pos (if id == j then q else 0)) (incr_stock j q r)
      (incr_stock-StandsAt id j q v r h)
    ∙ ap some (+ℤ_pos v (if id == j then q else 0) (taken id ds))

pub -ℤ_zero : (v : ℤ) → v -ℤ pos 0 ≡ v
-ℤ_zero v = grind int_laws

if_taken :
    (b : Bool) (v : ℤ) (q : ℕ) → (if b then v -ℤ pos q else v) ≡ v -ℤ pos (if b then q else 0)
if_taken true v q = refl
if_taken false v q = sym (-ℤ_zero v)

pub decr_stock-StandsAt :
    (id j q : ℕ) (v : ℤ) (r : Redis)
    → StandsAt id v r
    → StandsAt id (v -ℤ pos (if id == j then q else 0)) (decr_stock j q r)
decr_stock-StandsAt id j q v r h =
    put_step (id == j) (r.stock id) (r.stock j) v (λ w. w -ℤ pos q) h
      (λ e. ap r.stock (sym ((==_iff id j).0 e)))
    ∙ ap some (if_taken (id == j) v q)

-- A counter that exists is not set again.
kept_step :
    (b : Bool) (o o' : Option ℤ) (v w : ℤ)
    → o ≡ some v
    → (b ≡ true → o' ≡ o)
    → o' ≡ none
    → (if b then some w else o) ≡ some v
kept_step true o o' v w h k a = grind arith
kept_step false o o' v w h k a = h

pub set_if_absent-StandsAt :
    (id j : ℕ) (v w : ℤ) (r : Redis) → StandsAt id v r → StandsAt id v (set_stock_if_absent j w r)
set_if_absent-StandsAt id j v w r h = set_kept (r.stock j) refl
  where
    set_kept :
        (o : Option ℤ)
        → r.stock j ≡ o
        → (let r' : Redis = elim o [ some old ↦ r | none ↦ record r { stock = put r.stock j w } ] in
            r'.stock id)
          ≡ some v
    set_kept (some old) e = h
    set_kept none e =
        kept_step (id == j) (r.stock id) (r.stock j) v w h
          (λ q. ap r.stock (sym ((==_iff id j).0 q))) e

-- The counter of `id` and what `deducted` has taken from it come to `total`.
abbrev pub Holds : ℕ → ℤ → List (ℕ × ℕ) → Redis → Type 0
Holds id total ds r = (v : ℤ) × (StandsAt id v r × (v +ℤ pos (taken id ds) ≡ total))

abbrev pub HoldsOf : ℕ → ℤ → Option Error × (List (ℕ × ℕ) × Redis) → Type 0
HoldsOf id total (e, (ds, r)) = Holds id total ds r

pub rolled_back-StandsAt :
    (id : ℕ) (total : ℤ) (ds : List (ℕ × ℕ)) (r : Redis)
    → Holds id total ds r
    → StandsAt id total (rollback_redis_stock ds r)
rolled_back-StandsAt id total ds r (v, (h, e)) = rollback-StandsAt id ds v r h ∙ ap some e

decr_stock-Holds :
    (id j q : ℕ) (w total : ℤ) (ds : List (ℕ × ℕ)) (r : Redis)
    → Holds id total ds r
    → Holds id total ((j, q) ∷ ds) (decr_stock j q (set_stock_if_absent j w r))
decr_stock-Holds id j q w total ds r (v, (h, e)) = (
  v -ℤ pos (if id == j then q else 0),
  (
    decr_stock-StandsAt id j q v (set_stock_if_absent j w r) (set_if_absent-StandsAt id j v w r h),
    -ℤ_+ℤ v (if id == j then q else 0) (taken id ds) ∙ e,
  ),
)

-- A rollback that clears the list.
cleared-Holds :
    (id : ℕ) (total : ℤ) (ds : List (ℕ × ℕ)) (r : Redis)
    → Holds id total ds r
    → Holds id total [] (rollback_redis_stock ds r)
cleared-Holds id total ds r h = (total, (rolled_back-StandsAt id total ds r h, +ℤ_zero total))

pub pre_deduct_stock-Holds :
    (id : ℕ) (total : ℤ) (ps : List Product) (m ds : List (ℕ × ℕ)) (r : Redis)
    → Holds id total ds r
    → HoldsOf id total (pre_deduct_stock ps m ds r)
unfolding pre_deduct_stock
pre_deduct_stock-Holds id total ps [] ds r h = h
pre_deduct_stock-Holds id total ps ((j, q) ∷ m) ds r h =
    option_intro (HoldsOf id total) (find_product (pos j) ps) h (λ p found.
      if_intro (HoldsOf id total) (is_finite p.stock)
        (if_intro (HoldsOf id total)
          (ltb_ℤ
            (option_or (pos 0) (get_stock j (decr_stock j q (set_stock_if_absent j p.stock r))))
            (pos 0))
          (cleared-Holds id total ((j, q) ∷ ds) (decr_stock j q (set_stock_if_absent j p.stock r))
            (decr_stock-Holds id j q p.stock total ds r h))
          (pre_deduct_stock-Holds id total ps m ((j, q) ∷ ds)
            (decr_stock j q (set_stock_if_absent j p.stock r))
            (decr_stock-Holds id j q p.stock total ds r h)))
        (pre_deduct_stock-Holds id total ps m ds r h))
