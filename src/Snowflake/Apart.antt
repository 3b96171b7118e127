-- ===== src/Snowflake/Apart.antt =====
-- The ids of different generators.
use python_server.Base.{
  ℕ, zero, suc, ◌+◌, ◌*◌, ◌<◌, ◌≡◌, ◌≢◌, ◌⊎◌, inl, inr, sym, ◌∙◌, List, [], ◌∷◌, arith, All,
  All-map,
}
use python_server.Base.Int.{ℤ, pos_part, neg_part, sub_ℕ}
use python_server.Snowflake.{Generator, low_bits, id_of, epoch_ms, Next, next_id, ids}
use python_server.Snowflake.Increasing.{IsValid, Later, next_id-Advances}

-- An id of the generator's worker.
abbrev Mine : Generator → ℤ → Type 0
Mine g id =
    (g' : Generator) × IsValid g'
    × (g'.worker_id ≡ g.worker_id)
    × (g'.datacenter_id ≡ g.datacenter_id)
    × (id ≡ id_of g')

low_of_eq :
    (k l a b s t : ℕ)
    → k < 4194304
    → l < 4194304
    → sub_ℕ (a * 4194304 + k) ((epoch_ms + s) * 4194304)
      ≡ sub_ℕ (b * 4194304 + l) ((epoch_ms + t) * 4194304)
    → k ≡ l
low_of_eq k l a b s t p q h = ground arith

same_worker :
    (g g' : Generator)
    → IsValid g
    → IsValid g'
    → id_of g ≡ id_of g'
    → (g.worker_id ≡ g'.worker_id) × (g.datacenter_id ≡ g'.datacenter_id)
same_worker g g' h h' e =
    let low : low_bits g ≡ low_bits g' =
      low_of_eq (low_bits g) (low_bits g') (pos_part g.last_timestamp) (pos_part g'.last_timestamp)
        (neg_part g.last_timestamp) (neg_part g'.last_timestamp)
        (omega (arith, h.worker, h.datacenter, h.sequence))
        (omega (arith, h'.worker, h'.datacenter, h'.sequence)) e in
    (
      omega (arith, low, h.worker, h'.worker, h.sequence, h'.sequence),
      omega (arith, low, h.worker, h'.worker, h.sequence, h'.sequence),
    )

step-Mine :
    (n : ℕ) (g : Generator) (x : Next)
    → elim x as (λ _. Type 0) [
      | Next.waiting ↦ Unit
      | Next.raised ts ↦ Unit
      | Next.issued id g' ts ↦ (id ≡ id_of g') × Later g g'
    ]
    → ((ts : List ℕ) (g' : Generator) → IsValid g' → All (Mine g') (ids n ts g'))
    → IsValid g
    → All (Mine g) (elim x as (λ _. List ℤ) [
      | Next.waiting ↦ []
      | Next.raised ts' ↦ ids n ts' g
      | Next.issued id g' ts' ↦ id ∷ ids n ts' g'
    ])
step-Mine n g Next.waiting a k h = tt
step-Mine n g (Next.raised ts') a k h = k ts' g h
step-Mine n g (Next.issued id g' ts') a k h = (
  (g', a.1.valid, a.1.worker, a.1.datacenter, a.0),
  All-map (Mine g') (ids n ts' g')
      (λ i (p, valid, worker, datacenter, e).
        (p, valid, worker ∙ a.1.worker, datacenter ∙ a.1.datacenter, e))
      (k ts' g' a.1.valid),
)

ids-Mine : (n : ℕ) (ts : List ℕ) (g : Generator) → IsValid g → All (Mine g) (ids n ts g)
unfolding ids
ids-Mine zero ts g h = tt
ids-Mine (suc n) ts g h =
    step-Mine n g (next_id ts g) (next_id-Advances g h ts) (λ ts' g' h'. ids-Mine n ts' g' h') h

-- Generators that differ in their worker or their datacenter never issue the same id, whatever their clocks
-- read.
pub ids-Apart :
    (m n : ℕ) (ts us : List ℕ) (g g' : Generator)
    → IsValid g
    → IsValid g'
    → (g.worker_id ≢ g'.worker_id) ⊎ (g.datacenter_id ≢ g'.datacenter_id)
    → All (λ i. All (λ j. i ≢ j) (ids n us g')) (ids m ts g)
ids-Apart m n ts us g g' h h' other =
    All-map (Mine g) (ids m ts g)
      (λ i mine.
        All-map (Mine g') (ids n us g') (λ j theirs e. differs i j mine theirs e)
          (ids-Mine n us g' h'))
      (ids-Mine m ts g h)
  where
    differs : (i j : ℤ) → Mine g i → Mine g' j → i ≡ j → ⊥
    differs i j (p, valid, worker, datacenter, shown) (q, valid', worker', datacenter', shown') e =
        let (w, d) = same_worker p q valid valid' (sym shown ∙ e ∙ shown') in
        elim other [
          | inl k ↦ k (sym worker ∙ w ∙ worker')
          | inr k ↦ k (sym datacenter ∙ d ∙ datacenter')
        ]
