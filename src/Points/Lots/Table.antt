-- ===== src/Points/Lots/Table.antt =====
-- The lots table: what a write changes, and how the rows that a query returns stand in it.
use python_server.Base.{
  ℕ, ◌+◌, ◌≤◌, ◌<◌, ◌≡◌, ◌≢◌, refl, Bool, some, List, [], ◌∷◌, arith, select, sum_by, All,
  All-select,
}
use python_server.Points.Model.{Lot}
use python_server.Points.Lots.{insert, order_by, find_lot, set_lot}

-- Ids fall along the list, newest row first, and stay under the next one.
abbrev pub Below : ℕ → List Lot → Type 0
Below n [] = Unit {0}
Below n (l ∷ ls) = (l.id < n) × Below l.id ls

-- Each of the rows is the table's row of its id.
abbrev pub Listed : List Lot → List Lot → Type 0
Listed table = All (λ l. find_lot l.id table ≡ some l)

abbrev pub Differs : Lot → List Lot → Type 0
Differs l = All (λ m. l.id ≢ m.id)

abbrev pub Apart : List Lot → Type 0
Apart [] = Unit {0}
Apart (l ∷ ls) = Differs l ls × Apart ls

-- A write moves a sum over the table by the difference of the row.
pub sum_by-set_lot :
    (weight : Lot → ℕ) (new old : Lot) (ls : List Lot)
    → find_lot new.id ls ≡ some old
    → sum_by weight (set_lot new ls) + weight old ≡ sum_by weight ls + weight new
sum_by-set_lot weight new old [] h = absurd (ground arith)
sum_by-set_lot weight new old (l ∷ ls) h = ground (arith, sum_by-set_lot weight new old ls)

pub find_lot-id : (i : ℕ) (ls : List Lot) (l : Lot) → find_lot i ls ≡ some l → l.id ≡ i
find_lot-id i [] l h = absurd (ground arith)
find_lot-id i (m ∷ ms) l h = ground (arith, find_lot-id i ms l)

pub find_lot-set_lot_ne :
    (new : Lot) (i : ℕ) (ls : List Lot) → new.id ≢ i → find_lot i (set_lot new ls) ≡ find_lot i ls
find_lot-set_lot_ne new i [] h = refl
find_lot-set_lot_ne new i (l ∷ ls) h = ground (arith, find_lot-set_lot_ne new i ls)

pub Listed-set_lot :
    (new : Lot) (ls table : List Lot)
    → Differs new ls
    → Listed table ls
    → Listed (set_lot new table) ls
Listed-set_lot new [] table d h = tt
Listed-set_lot new (l ∷ ls) table d h =
    (ground (arith, find_lot-set_lot_ne new l.id table), Listed-set_lot new ls table d.1 h.1)

pub set_lot-Below : (new : Lot) (n : ℕ) (ls : List Lot) → Below n ls → Below n (set_lot new ls)
set_lot-Below new n [] b = tt
set_lot-Below new n (l ∷ ls) b = ground (arith, set_lot-Below new l.id ls b.1)

Below-Differs : (l : Lot) (n : ℕ) (ls : List Lot) → n ≤ l.id → Below n ls → Differs l ls
Below-Differs l n [] h b = tt
Below-Differs l n (m ∷ ls) h b = (omega arith, Below-Differs l m.id ls (omega arith) b.1)

Listed-cons :
    (l : Lot) (ls table : List Lot) → Differs l ls → Listed table ls → Listed (l ∷ table) ls
Listed-cons l [] table d h = tt
Listed-cons l (m ∷ ls) table d h = (ground arith, Listed-cons l ls table d.1 h.1)

-- All rows of a table are listed in it, with different ids.
pub Below-Listed : (n : ℕ) (table : List Lot) → Below n table → Listed table table
Below-Listed n [] b = tt
Below-Listed n (l ∷ ls) b = (
  ground arith,
  Listed-cons l ls ls (Below-Differs l l.id ls (omega arith) b.1) (Below-Listed l.id ls b.1),
)

pub Below-Apart : (n : ℕ) (table : List Lot) → Below n table → Apart table
Below-Apart n [] b = tt
Below-Apart n (l ∷ ls) b = (Below-Differs l l.id ls (omega arith) b.1, Below-Apart l.id ls b.1)

-- Filters and sorts keep such properties.
pub Apart-select : (p : Lot → Bool) (ls : List Lot) → Apart ls → Apart (select p ls)
Apart-select p [] a = tt
Apart-select p (l ∷ ls) a =
    ground (arith, Apart-select p ls a.1, All-select (λ m. l.id ≢ m.id) p ls a.0)

module _ (le : Lot → Lot → Bool) where
  All-insert {κ} :
      (P : Lot → Type κ) (l : Lot) (ls : List Lot) → P l → All P ls → All P (insert le l ls)
  All-insert P l [] p h = (p, tt)
  All-insert P l (m ∷ ms) p h = ground (arith, All-insert P l ms p h.1)

  pub All-order_by {κ} : (P : Lot → Type κ) (ls : List Lot) → All P ls → All P (order_by le ls)
  All-order_by P [] h = tt
  All-order_by P (l ∷ ls) h = All-insert P l (order_by le ls) h.0 (All-order_by P ls h.1)

  Apart-insert : (l : Lot) (ls : List Lot) → Differs l ls → Apart ls → Apart (insert le l ls)
  Apart-insert l [] d a = (tt, tt)
  Apart-insert l (m ∷ ms) d a =
      ground (arith, Apart-insert l ms d.1 a.1, All-insert (λ k. m.id ≢ k.id) l ms)

  pub Apart-order_by : (ls : List Lot) → Apart ls → Apart (order_by le ls)
  Apart-order_by [] a = tt
  Apart-order_by (l ∷ ls) a =
      Apart-insert l (order_by le ls) (All-order_by (λ m. l.id ≢ m.id) ls a.0)
        (Apart-order_by ls a.1)

  sum_by-insert :
      (weight : Lot → ℕ) (l : Lot) (ls : List Lot)
      → sum_by weight (insert le l ls) ≡ weight l + sum_by weight ls
  sum_by-insert weight l [] = refl
  sum_by-insert weight l (m ∷ ms) = ground (arith, sum_by-insert weight l ms)

  pub sum_by-order_by :
      (weight : Lot → ℕ) (ls : List Lot) → sum_by weight (order_by le ls) ≡ sum_by weight ls
  sum_by-order_by weight [] = refl
  sum_by-order_by weight (l ∷ ls) =
      omega (arith, sum_by-insert weight l (order_by le ls), sum_by-order_by weight ls)
