-- ===== src/Snowflake/Increasing.antt =====
-- The ids of one generator.
use python_server.Base.{
  ℕ, zero, suc, ◌+◌, ◌*◌, ◌%◌, ◌≤◌, ◌<◌, ◌≡◌, refl, true, false, some, List, [], ◌∷◌, arith, ltb,
  ◌==◌, if_cases, option_cases, Ensures, All, All-map, subst, sym,
}
use python_server.Base.Int.{ℤ, pos, pos_part, neg_part, sub_ℕ, ltb_ℤ}
use python_server.Snowflake.{
  Generator, new_generator, low_bits, id_of, epoch_ms, Next, wait_next_millis, issue,
  next_in_millis, next_id, ids,
}

pub record IsValid (g : Generator) : Type 0 where
  pub worker : g.worker_id ≤ 31
  pub datacenter : g.datacenter_id ≤ 31
  pub sequence : g.sequence < 4096

infix 50 ◌<ℤ◌
abbrev pub ◌<ℤ◌ : ℤ → ℤ → Type 0
a <ℤ b = pos_part a + neg_part b < pos_part b + neg_part a

-- A later state of a generator: a later millisecond, or a later number within it.
pub record Later (g g' : Generator) : Type 0 where
  pub valid : IsValid g'
  pub worker : g'.worker_id ≡ g.worker_id
  pub datacenter : g'.datacenter_id ≡ g.datacenter_id
  pub above : id_of g <ℤ id_of g'

-- An issued id shows the generator's new state, which is a later one.
abbrev pub Advances : Generator → Next → Type 0
Advances g Next.waiting = Unit
Advances g (Next.raised ts) = Unit
Advances g (Next.issued id g' ts) = (id ≡ id_of g') × Later g g'

low_bits_capped : (g : Generator) → IsValid g → low_bits g < 4194304
low_bits_capped g h = omega (arith, h.worker, h.datacenter, h.sequence)

-- Ids by the millisecond, less the part below zero, and the low bits.
later_millis :
    (k l a b s t : ℕ)
    → k < 4194304
    → a + t < b + s
    → sub_ℕ (a * 4194304 + k) ((epoch_ms + s) * 4194304)
      <ℤ sub_ℕ (b * 4194304 + l) ((epoch_ms + t) * 4194304)
later_millis k l a b s t p h = ground arith

same_millis :
    (k l a b s t : ℕ)
    → k < l
    → a + t ≡ b + s
    → sub_ℕ (a * 4194304 + k) ((epoch_ms + s) * 4194304)
      <ℤ sub_ℕ (b * 4194304 + l) ((epoch_ms + t) * 4194304)
same_millis k l a b s t p h = ground arith

pub wait_next_millis-later :
    (current : ℕ) (ts : List ℕ) (x : ℕ × List ℕ)
    → wait_next_millis current ts ≡ some x
    → current < x.0
unfolding wait_next_millis
wait_next_millis-later current [] x h = absurd (ground arith)
wait_next_millis-later current (t ∷ ts) x h = ground (arith, wait_next_millis-later current ts x)

module _ (g : Generator) (h : IsValid g) where
  issue-Advances :
      (timestamp sequence : ℕ) (ts : List ℕ)
      → sequence < 4096
      → ltb_ℤ g.last_timestamp (pos timestamp) ≡ true
      → Advances g (issue g timestamp sequence ts)
  issue-Advances timestamp sequence ts small e = (
    refl,
    record {
      valid = record { worker = h.worker; datacenter = h.datacenter; sequence = small };
      worker = refl;
      datacenter = refl;
      above =
          later_millis (low_bits g) _ (pos_part g.last_timestamp) timestamp
            (neg_part g.last_timestamp) 0 (low_bits_capped g h) (ground arith);
    },
  )

  next_in_millis-Advances :
      (timestamp : ℕ) (ts : List ℕ)
      → ltb_ℤ (pos timestamp) g.last_timestamp ≡ false
      → ltb_ℤ g.last_timestamp (pos timestamp) ≡ false
      → Advances g (next_in_millis g timestamp ts)
  next_in_millis-Advances timestamp ts e f =
      let sequence = (g.sequence + 1) % 4096 in
      if_cases (Advances g) (sequence == 0)
        (λ full.
          option_cases (Advances g) (wait_next_millis timestamp ts) (λ w. tt)
            (λ x w.
              issue-Advances x.0 sequence x.1 (omega arith)
                (still_later x.0 (wait_next_millis-later timestamp ts x w))))
        (λ room. (
          refl,
          record {
            valid = record { worker = h.worker; datacenter = h.datacenter; sequence = omega arith };
            worker = refl;
            datacenter = refl;
            above =
                same_millis (low_bits g) _ (pos_part g.last_timestamp) timestamp
                  (neg_part g.last_timestamp) 0 (next_low room) (ground arith);
          },
        ))
    where
      still_later : (t : ℕ) → timestamp < t → ltb_ℤ g.last_timestamp (pos t) ≡ true
      still_later t w = ground arith

      next_low :
          ((g.sequence + 1) % 4096 == 0) ≡ false
          → low_bits g < g.datacenter_id * 131072 + g.worker_id * 4096 + (g.sequence + 1) % 4096
      next_low room = ground (arith, h.sequence)

  pub next_id-Advances : (ts : List ℕ) → Advances g (next_id ts g)
  unfolding next_id
  next_id-Advances [] = tt
  next_id-Advances (timestamp ∷ ts) =
      if_cases (Advances g) (ltb_ℤ (pos timestamp) g.last_timestamp) (λ e. tt)
        (λ e.
          if_cases (Advances g) (ltb_ℤ g.last_timestamp (pos timestamp))
            (λ f. issue-Advances timestamp 0 ts (omega arith) f)
            (λ f. next_in_millis-Advances timestamp ts e f))

-- Each id is below all that come after it.
abbrev pub Increasing : List ℤ → Type 0
Increasing [] = Unit
Increasing (i ∷ is) = All (λ j. i <ℤ j) is × Increasing is

<ℤ-trans : (a b c : ℤ) → a <ℤ b → b <ℤ c → a <ℤ c
<ℤ-trans a b c p q = omega (arith, p, q)

-- What one call adds to the ids that come after it.
after_next :
    (n : ℕ) (g : Generator) (x : Next)
    → Advances g x
    → ((ts : List ℕ) (g' : Generator)
        → IsValid g'
        → All (λ j. id_of g' <ℤ j) (ids n ts g') × Increasing (ids n ts g'))
    → IsValid g
    → let is = elim x as (λ _. List ℤ) [
      | Next.waiting ↦ []
      | Next.raised ts' ↦ ids n ts' g
      | Next.issued id g' ts' ↦ id ∷ ids n ts' g'
    ] in
      All (λ j. id_of g <ℤ j) is × Increasing is
after_next n g Next.waiting a k h = (tt, tt)
after_next n g (Next.raised ts') a k h = k ts' g h
after_next n g (Next.issued id g' ts') a k h =
    let (above, rest) = k ts' g' a.1.valid in
    let first : id_of g <ℤ id = subst (λ i. id_of g <ℤ i) (sym a.0) a.1.above in
    (
      (
        first,
        All-map (λ j. id_of g' <ℤ j) (ids n ts' g')
            (λ j p. <ℤ-trans (id_of g) (id_of g') j a.1.above p) above,
      ),
      (subst (λ i. All (λ j. i <ℤ j) (ids n ts' g')) (sym a.0) above, rest),
    )

ids-above :
    (n : ℕ) (ts : List ℕ) (g : Generator)
    → IsValid g
    → All (λ j. id_of g <ℤ j) (ids n ts g) × Increasing (ids n ts g)
unfolding ids
ids-above zero ts g h = (tt, tt)
ids-above (suc n) ts g h =
    after_next n g (next_id ts g) (next_id-Advances g h ts) (λ ts' g' h'. ids-above n ts' g' h') h

-- The ids that a generator issues strictly increase over any number of calls, however the clock reads: over a
-- step back, over a millisecond whose numbers run out, and for a clock before the epoch.
pub ids-Increasing : (n : ℕ) (ts : List ℕ) (g : Generator) → IsValid g → Increasing (ids n ts g)
ids-Increasing n ts g h = (ids-above n ts g h).1

pub new_generator-IsValid :
    (worker_id datacenter_id : ℕ) → Ensures IsValid (new_generator worker_id datacenter_id)
new_generator-IsValid worker_id datacenter_id =
    if_cases (Ensures IsValid) (ltb 31 worker_id) (λ e. tt)
      (λ e.
        if_cases (Ensures IsValid) (ltb 31 datacenter_id) (λ f. tt)
          (λ f. record {
            worker = ground arith;
            datacenter = ground arith;
            sequence = omega arith;
          }))
