-- ===== src/Snowflake/Fits.antt =====
-- The size of an id.
use python_server.Base.{
  ℕ, zero, suc, ◌+◌, ◌*◌, ◌%◌, ◌≤◌, ◌<◌, ◌≡◌, Option, some, List, [], ◌∷◌, arith, leb, ◌==◌,
  if_cases, if_intro, option_cases, All, subst,
}
use python_server.Base.Int.{ℤ, pos, pos_part, neg_part, sub_ℕ, ltb_ℤ}
use python_server.Snowflake.{Generator, epoch_ms, Next, wait_next_millis, issue, next_id, ids}
use python_server.Snowflake.Increasing.{IsValid, Advances, next_id-Advances}

-- A reading in the 2 ^ 41 milliseconds from the epoch on.
abbrev pub InSpan : ℕ → Type 0
InSpan t = (epoch_ms ≤ t) × (t < epoch_ms + 2199023255552)

abbrev pub Fits : ℤ → Type 0
Fits id = (neg_part id ≡ 0) × (pos_part id < 9223372036854775808)

fits :
    (t k : ℕ) → InSpan t → k < 4194304 → Fits (sub_ℕ (t * 4194304 + k) ((epoch_ms + 0) * 4194304))
fits t k s h = ground arith

wait_next_millis-InSpan :
    (current : ℕ) (ts : List ℕ) (x : ℕ × List ℕ)
    → All InSpan ts
    → wait_next_millis current ts ≡ some x
    → InSpan x.0 × All InSpan x.1
unfolding wait_next_millis
wait_next_millis-InSpan current [] x a h = absurd (ground arith)
wait_next_millis-InSpan current (t ∷ ts) x a h =
    let P = λ (y : ℕ × List ℕ). InSpan y.0 × All InSpan y.1 in
    if_cases (λ (o : Option (ℕ × List ℕ)). o ≡ some x → P x) (leb t current)
      (λ e. wait_next_millis-InSpan current ts x a.1)
      (λ e p. let same : (t, ts) ≡ x = ground arith in subst P same a) h

-- What a call leaves: an id that fits, and the readings that are still to come.
abbrev Within : Next → Type 0
Within Next.waiting = Unit
Within (Next.raised ts) = All InSpan ts
Within (Next.issued id g ts) = Fits id × All InSpan ts

module _ (g : Generator) (h : IsValid g) where
  issue-Within :
      (timestamp sequence : ℕ) (ts : List ℕ)
      → sequence < 4096
      → InSpan timestamp
      → All InSpan ts
      → Within (issue g timestamp sequence ts)
  issue-Within timestamp sequence ts small s rest =
      (fits timestamp _ s (omega (arith, h.worker, h.datacenter)), rest)

  next_id-Within : (ts : List ℕ) → All InSpan ts → Within (next_id ts g)
  unfolding next_id
  next_id-Within [] a = tt
  next_id-Within (t ∷ ts) a =
      let sequence = (g.sequence + 1) % 4096 in
      if_intro Within (ltb_ℤ (pos t) g.last_timestamp) a.1 (
        if_intro Within (ltb_ℤ g.last_timestamp (pos t)) (issue-Within t 0 ts (omega arith) a.0 a.1)
          (if_intro Within (sequence == 0)
            (option_cases Within (wait_next_millis t ts) (λ w. tt)
              (λ x w.
                let (s, rest) = wait_next_millis-InSpan t ts x a.1 w in
                issue-Within x.0 sequence x.1 (omega arith) s rest))
            (issue-Within t sequence ts (omega arith) a.0 a.1)))

step-Fits :
    (n : ℕ) (g : Generator) (x : Next)
    → Advances g x
    → Within x
    → ((ts : List ℕ) (g' : Generator) → IsValid g' → All InSpan ts → All Fits (ids n ts g'))
    → IsValid g
    → All Fits (elim x as (λ _. List ℤ) [
      | Next.waiting ↦ []
      | Next.raised ts' ↦ ids n ts' g
      | Next.issued id g' ts' ↦ id ∷ ids n ts' g'
    ])
step-Fits n g Next.waiting a w k h = tt
step-Fits n g (Next.raised ts') a w k h = k ts' g h w
step-Fits n g (Next.issued id g' ts') a w k h = (w.0, k ts' g' a.1.valid w.1)

-- While the clock reads a time in the 2 ^ 41 milliseconds from the epoch on, every id is a non-negative
-- number below 2 ^ 63, which a signed 64-bit column holds.
pub ids-Fits :
    (n : ℕ) (ts : List ℕ) (g : Generator) → IsValid g → All InSpan ts → All Fits (ids n ts g)
unfolding ids
ids-Fits zero ts g h a = tt
ids-Fits (suc n) ts g h a =
    step-Fits n g (next_id ts g) (next_id-Advances g h ts) (next_id-Within g h ts a)
      (λ ts' g' h' a'. ids-Fits n ts' g' h' a') h
