-- ===== src/Memory.antt =====
-- _MemoryRedis and _MemoryPipeline of app/core/cache.py, the substitute for Redis in local runs. Each call takes
-- the time in seconds. A value that is the text of a number is kept as the number.

pub mod Maps
pub mod Refines
pub mod Tests
use python_server.Base.{
  ℕ, zero, suc, ◌+◌, ◌-◌, max, Bool, true, false, not, ◌&&◌, Option, none, some, List, [], ◌∷◌,
  ◌++◌, Text, text_eq, leb, if◌then◌else◌, Result, ok, err, ◌>>=◌, value_error,
}
use python_server.Base.Int.{ℤ, pos, negsuc, ◌+ℤ◌, ◌-ℤ◌}

pub data Value : Type 0 where
  number : ℤ → Value
  text : Text → Value

pub record Entry : Type 0 where
  pub value : Value
  pub expires_at : Option ℕ

-- `_store`, keys and entries.
abbrev pub Store : Type 0
Store = List (Text × Entry)

abbrev pub lookup : Text → Store → Option Entry
lookup k [] = none
lookup k ((j, e) ∷ s) = if text_eq j k then some e else lookup k s

-- `_store.pop(key, None)`
abbrev pub pop : Text → Store → Store
pop k [] = []
pop k ((j, e) ∷ s) = if text_eq j k then pop k s else (j, e) ∷ pop k s

-- `_store[key] = entry`
abbrev pub put : Text → Entry → Store → Store
put k new [] = (k, new) ∷ []
put k new ((j, e) ∷ s) = if text_eq j k then (j, new) ∷ pop k s else (j, e) ∷ put k new s

abbrev pub is_over : ℕ → Option ℕ → Bool
is_over now none = false
is_over now (some t) = leb t now

abbrev pub live : ℕ → Option Entry → Option Entry
live now none = none
live now (some e) = if is_over now e.expires_at then none else some e

-- `_purge`
abbrev pub purge : ℕ → Text → Store → Store
purge now k s = elim (lookup k s) [
  | none ↦ s
  | some e ↦ if is_over now e.expires_at then pop k s else s
]

abbrev pub value_of : Option Entry → Option Value
value_of none = none
value_of (some e) = some e.value

abbrev pub get : ℕ → Text → Store → Option Value × Store
get now k s = let s' = purge now k s in (value_of (lookup k s'), s')

abbrev pub is_present : Option Entry → Bool
is_present none = false
is_present (some e) = true

-- `time.time() + ex if ex else None`
abbrev pub expiry : ℕ → Option ℕ → Option ℕ
expiry now none = none
expiry now (some zero) = none
expiry now (some (suc n)) = some (now + suc n)

abbrev pub set_unless : Bool → Text → Entry → Store → Bool × Store
set_unless kept k e s = if kept then (false, s) else (true, put k e s)

abbrev pub set : ℕ → Text → Value → Option ℕ → Bool → Store → Bool × Store
set now k v ex nx s =
    let s' = purge now k s in
    set_unless (nx && is_present (lookup k s')) k (record { value = v; expires_at = expiry now ex })
      s'

abbrev pub delete : List Text → Store → ℕ × Store
delete [] s = (0, s)
delete (k ∷ ks) s =
    let (count, s') = delete ks (pop k s) in
    ((if is_present (lookup k s) then suc count else count), s')

abbrev pub ttl_of : ℕ → Option Entry → ℤ
ttl_of now none = negsuc 1
ttl_of now (some e) = elim e.expires_at [ none ↦ negsuc 0 | some t ↦ pos (t - now) ]

abbrev pub ttl : ℕ → Text → Store → ℤ × Store
ttl now k s = let s' = purge now k s in (ttl_of now (lookup k s'), s')

abbrev pub expire_entry : ℕ → Text → Option Entry → Store → Bool × Store
expire_entry until k none s = (false, s)
expire_entry until k (some e) s =
    (true, put k (record { value = e.value; expires_at = some until }) s)

abbrev pub expire : ℕ → Text → ℕ → Store → Bool × Store
expire now k seconds s = let s' = purge now k s in expire_entry (now + seconds) k (lookup k s') s'

-- `int(value or 0)`
abbrev pub int_of : Option Value → Result ℤ
int_of none = ok (pos 0)
int_of (some (number n)) = ok n
int_of (some (text [])) = ok (pos 0)
int_of (some (text (c ∷ s))) = err value_error

-- The new entry has no expiry, also where the old one had.
abbrev pub incrby : ℕ → Text → ℤ → Store → Result (ℤ × Store)
incrby now k amount s =
    let s' = purge now k s in
    int_of (value_of (lookup k s')) >>= λ n.
    ok (n +ℤ amount, (set now k (number (n +ℤ amount)) none false s').1)

abbrev pub decrby : ℕ → Text → ℤ → Store → Result (ℤ × Store)
decrby now k amount = incrby now k (pos 0 -ℤ amount)

-- The operations that a pipeline collects.
pub data PipelineOp : Type 0 where
  op_incr : Text → PipelineOp
  op_expire : Text → ℕ → PipelineOp

pub data Answer : Type 0 where
  an_int : ℤ → Answer
  a_bool : Bool → Answer

-- `execute`
abbrev pub execute : ℕ → List PipelineOp → Store → Result (List Answer × Store)
execute now [] s = ok ([], s)
execute now (op_incr k ∷ ops) s =
    incrby now k (pos 1) s >>= λ r. execute now ops r.1 >>= λ q. ok (an_int r.0 ∷ q.0, q.1)
execute now (op_expire k seconds ∷ ops) s =
    let r = expire now k seconds s in execute now ops r.1 >>= λ q. ok (a_bool r.0 ∷ q.0, q.1)
