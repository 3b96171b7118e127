-- ===== src/Snowflake.antt =====
-- SnowflakeGenerator of app/core/snowflake.py. A call reads the clock once, and again while it waits for
-- the next millisecond: the readings to come are a list. The lock makes a call one step.
pub mod Increasing
pub mod Apart
pub mod Fits
pub mod Tests
use python_server.Base.{
  ℕ, zero, suc, ◌+◌, ◌*◌, ◌%◌, Bool, Option, none, some, List, [], ◌∷◌, ◌++◌, Text, decimal, ltb,
  leb, ◌==◌, if◌then◌else◌, Result, ok, err, value_error,
}
use python_server.Base.Int.{ℤ, pos, negsuc, pos_part, neg_part, sub_ℕ, ltb_ℤ}

pub record Generator : Type 0 where
  pub worker_id : ℕ
  pub datacenter_id : ℕ
  pub sequence : ℕ
  pub last_timestamp : ℤ

-- `__init__`; a negative id is not a natural number here.
abbrev pub new_generator : ℕ → ℕ → Result Generator
new_generator worker_id datacenter_id =
    if ltb 31 worker_id
    then err value_error
    else if ltb 31 datacenter_id
    then err value_error
    else ok (record {
      worker_id = worker_id;
      datacenter_id = datacenter_id;
      sequence = 0;
      last_timestamp = negsuc 0;
    })

abbrev pub epoch_ms : ℕ
epoch_ms = 1704067200000

-- The low 22 bits. Their parts do not overlap, nor does the timestamp, so `|` adds.
abbrev pub low_bits : Generator → ℕ
low_bits g = g.datacenter_id * 131072 + g.worker_id * 4096 + g.sequence

-- `((timestamp - epoch_ms) << 22) | ...`, also for a clock that is before the epoch.
abbrev pub id_of : Generator → ℤ
id_of g =
    sub_ℕ (pos_part g.last_timestamp * 4194304 + low_bits g)
      ((epoch_ms + neg_part g.last_timestamp) * 4194304)

-- A call waits for readings that do not come, raises, or issues an id.
pub data Next : Type 0 where
  waiting : Next
  raised : List ℕ → Next
  issued : ℤ → Generator → List ℕ → Next

-- `_wait_next_millis`
unfoldable pub wait_next_millis : ℕ → List ℕ → Option (ℕ × List ℕ)
wait_next_millis current [] = none
wait_next_millis current (t ∷ ts) =
    let later = wait_next_millis current ts in if leb t current then later else some (t, ts)

abbrev pub issue : Generator → ℕ → ℕ → List ℕ → Next
issue g timestamp sequence ts =
    let g' = record g { sequence = sequence; last_timestamp = pos timestamp } in
    Next.issued (id_of g') g' ts

-- The next number within the millisecond, or the first of a later one.
abbrev pub next_in_millis : Generator → ℕ → List ℕ → Next
next_in_millis g timestamp ts =
    let sequence = (g.sequence + 1) % 4096 in
    if sequence == 0
    then elim (wait_next_millis timestamp ts) [
      | none ↦ Next.waiting
      | some (t, ts') ↦ issue g t sequence ts'
    ]
    else issue g timestamp sequence ts

-- `next_id`
unfoldable pub next_id : List ℕ → Generator → Next
next_id [] g = Next.waiting
next_id (timestamp ∷ ts) g =
    if ltb_ℤ (pos timestamp) g.last_timestamp
    then Next.raised ts
    else if ltb_ℤ g.last_timestamp (pos timestamp)
    then issue g timestamp 0 ts
    else next_in_millis g timestamp ts

-- `next_order_no`, of an id that is not negative.
abbrev pub next_order_no : Text → ℤ → Text
next_order_no prefix id = prefix ++ decimal (pos_part id)

-- The ids of a number of calls, one after another.
unfoldable pub ids : ℕ → List ℕ → Generator → List ℤ
ids zero ts g = []
ids (suc n) ts g = elim (next_id ts g) [
  | Next.waiting ↦ []
  | Next.raised ts' ↦ ids n ts' g
  | Next.issued id g' ts' ↦ id ∷ ids n ts' g'
]
