-- ===== src/Points/Lots.antt =====
-- The queries on point_lots, the order they ask for, and the write of one row.
pub mod Table
use python_server.Base.{
  ℕ, ◌+◌, Bool, true, false, ◌&&◌, ◌||◌, Option, none, some, List, [], ◌∷◌, ltb, leb, ◌==◌,
  if◌then◌else◌, select, sum_by, max,
}
use python_server.Points.Model.{Lot, is_active}

-- `or_(expires_at.is_(None), expires_at > now)`
abbrev pub unexpired : ℕ → Option ℕ → Bool
unexpired now none = true
unexpired now (some t) = ltb now t

-- `expires_at.is_not(None), expires_at <= now`
abbrev pub overdue : ℕ → Option ℕ → Bool
overdue now none = false
overdue now (some t) = leb t now

abbrev pub holds_points : ℕ → Lot → Bool
holds_points user_id l = (l.user_id == user_id) && (is_active l.status && ltb 0 l.remaining_amount)

abbrev pub usable : ℕ → ℕ → Lot → Bool
usable user_id now l = holds_points user_id l && unexpired now l.expires_at

abbrev pub due : ℕ → ℕ → Lot → Bool
due user_id now l = holds_points user_id l && overdue now l.expires_at

-- `case((expires_at.is_(None), 1), else_=0), expires_at, id`
abbrev pub expires_before : Lot → Lot → Option ℕ → Option ℕ → Bool
expires_before l m none none = leb l.id m.id
expires_before l m none (some u) = false
expires_before l m (some t) none = true
expires_before l m (some t) (some u) = ltb t u || ((t == u) && leb l.id m.id)

abbrev pub spend_order : Lot → Lot → Bool
spend_order l m = expires_before l m l.expires_at m.expires_at

abbrev pub id_order : Lot → Lot → Bool
id_order l m = leb l.id m.id

module _ (le : Lot → Lot → Bool) where
  abbrev pub insert : Lot → List Lot → List Lot
  insert l [] = l ∷ []
  insert l (m ∷ ms) = if le l m then l ∷ m ∷ ms else m ∷ insert l ms

  abbrev pub order_by : List Lot → List Lot
  order_by [] = []
  order_by (l ∷ ls) = insert l (order_by ls)

abbrev pub remaining_sum : List Lot → ℕ
remaining_sum = sum_by (λ l. l.remaining_amount)

abbrev pub max_id : List Lot → ℕ
max_id [] = 0
max_id (l ∷ ls) = max l.id (max_id ls)

-- A row by its primary key.
abbrev pub find_lot : ℕ → List Lot → Option Lot
find_lot id [] = none
find_lot id (l ∷ ls) = if l.id == id then some l else find_lot id ls

-- The write of a changed row.
abbrev pub set_lot : Lot → List Lot → List Lot
set_lot new [] = []
set_lot new (l ∷ ls) = if l.id == new.id then new ∷ ls else l ∷ set_lot new ls
