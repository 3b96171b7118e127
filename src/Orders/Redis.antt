-- ===== src/Orders/Redis.antt =====
-- The Redis keys that the order service uses (RedisClient of app/core/cache.py): stock counters,
-- idempotency locks and the cached order numbers. A server that is down raises on every command;
-- outages within one call are not modelled.
use python_server.Base.{
  ℕ, Bool, true, false, Option, none, some, List, [], ◌∷◌, Text, text_eq, ◌==◌, if◌then◌else◌,
  option_or,
}
use python_server.Base.Int.{ℤ, pos, ◌+ℤ◌, ◌-ℤ◌}

pub record Redis : Type 0 where
  pub available : Bool
  pub stock : ℕ → Option ℤ
  pub locks : List Text
  pub results : List (Text × Text)

abbrev pub put : (ℕ → Option ℤ) → ℕ → ℤ → ℕ → Option ℤ
put stock id v j = if j == id then some v else stock j

-- `set_stock_if_absent`
abbrev pub set_stock_if_absent : ℕ → ℤ → Redis → Redis
set_stock_if_absent id v r = elim (r.stock id) [
  | some old ↦ r
  | none ↦ record r { stock = put r.stock id v }
]

-- `sync_stock`: only a key that exists is set.
abbrev pub sync_stock : ℕ → ℤ → Redis → Redis
sync_stock id v r = elim (r.stock id) [
  | some old ↦ record r { stock = put r.stock id v }
  | none ↦ r
]

-- DECRBY and INCRBY take a missing key for 0.
abbrev pub decr_stock : ℕ → ℕ → Redis → Redis
decr_stock id q r = record r { stock = put r.stock id (option_or (pos 0) (r.stock id) -ℤ pos q) }

abbrev pub incr_stock : ℕ → ℕ → Redis → Redis
incr_stock id q r = record r { stock = put r.stock id (option_or (pos 0) (r.stock id) +ℤ pos q) }

-- `get_stock`
abbrev pub get_stock : ℕ → Redis → Option ℤ
get_stock id r = r.stock id

abbrev pub has_text : Text → List Text → Bool
has_text k [] = false
has_text k (j ∷ js) = if text_eq j k then true else has_text k js

abbrev pub drop_text : Text → List Text → List Text
drop_text k [] = []
drop_text k (j ∷ js) = if text_eq j k then js else j ∷ drop_text k js

abbrev pub find_result : Text → List (Text × Text) → Option Text
find_result k [] = none
find_result k ((j, v) ∷ m) = if text_eq j k then some v else find_result k m
