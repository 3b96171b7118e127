-- ===== src/Points/Debit/Order.antt =====
-- The order in which a debit takes from the lots: the earliest expiry first, lots that never expire
-- last, and what each lot loses.
use python_server.Base.{
  ℕ, ◌+◌, ◌-◌, ◌≤◌, ◌<◌, min, ◌≡◌, ◌≢◌, refl, sym, ap, subst, select, All-select, ◌∙◌, List, [],
  ◌∷◌, ◌++◌, Option, none, some, arith, ◌==◌, inl, inr, All, true, false, Bool-cases, if_intro, ltb,
  Result, ok, ◌>>=◌, Ensures,
}
use python_server.Points.Model.{expense, Ledger, Posting, Lot, Session}
use python_server.Points.Lots.{
  usable, expires_before, spend_order, insert, order_by, remaining_sum, find_lot, set_lot,
}
use python_server.Points.Lots.Table.{
  Below, Below-Listed, Below-Apart, All-order_by, Apart-select, Apart-order_by, Listed, Differs,
  Apart, Listed-set_lot, find_lot-set_lot_ne,
}
use python_server.Points.Rows.{ledger_row, is_duplicate, post, flush_ledger, allocate, write_lot}
use python_server.Points.Debit.{spent_lot, consume, usable_lots, spend}

-- `now` and later expiries, and no expiry as the latest of all.
abbrev pub Precedes : Option ℕ → Option ℕ → Type 0
Precedes e none = Unit {0}
Precedes none (some u) = ⊥
Precedes (some t) (some u) = t ≤ u

abbrev pub InSpendOrder : List Lot → Type 0
InSpendOrder [] = Unit {0}
InSpendOrder (l ∷ ls) = All (λ m. Precedes l.expires_at m.expires_at) ls × InSpendOrder ls

Precedes-trans : (a b c : Option ℕ) → Precedes a b → Precedes b c → Precedes a c
Precedes-trans a b none h k = tt
Precedes-trans (some t) (some u) (some v) h k = omega arith
Precedes-trans none (some u) (some v) h k = h
Precedes-trans (some t) none (some v) h k = absurd k
Precedes-trans none none (some v) h k = k

spend_order-Precedes : (l m : Lot) (a b : Option ℕ) → expires_before l m a b ≡ true → Precedes a b
spend_order-Precedes l m none none h = tt
spend_order-Precedes l m (some t) none h = tt
spend_order-Precedes l m none (some u) h = ground arith
spend_order-Precedes l m (some t) (some u) h = ground arith

spend_order-total : (l m : Lot) (a b : Option ℕ) → expires_before l m a b ≡ false → Precedes b a
spend_order-total l m none none h = tt
spend_order-total l m (some t) none h = ground arith
spend_order-total l m none (some u) h = tt
spend_order-total l m (some t) (some u) h = ground arith

module _ (l : Lot) where
  All-Precedes-insert :
      (k : Option ℕ) (ls : List Lot)
      → Precedes k l.expires_at
      → All (λ m. Precedes k m.expires_at) ls
      → All (λ m. Precedes k m.expires_at) (insert spend_order l ls)
  All-Precedes-insert k [] h a = (h, tt)
  All-Precedes-insert k (m ∷ ms) h a = ground (arith, All-Precedes-insert k ms h a.1)

  All-Precedes-trans :
      (k : Option ℕ) (ls : List Lot)
      → Precedes l.expires_at k
      → All (λ m. Precedes k m.expires_at) ls
      → All (λ m. Precedes l.expires_at m.expires_at) ls
  All-Precedes-trans k [] h a = tt
  All-Precedes-trans k (m ∷ ms) h a =
      (Precedes-trans l.expires_at k m.expires_at h a.0, All-Precedes-trans k ms h a.1)

  insert-InSpendOrder : (ls : List Lot) → InSpendOrder ls → InSpendOrder (insert spend_order l ls)
  insert-InSpendOrder [] o = (tt, tt)
  insert-InSpendOrder (m ∷ ms) o = elim (Bool-cases (spend_order l m)) [
    | inl before ↦
        let h = spend_order-Precedes l m l.expires_at m.expires_at before in
        rw before ((h, All-Precedes-trans m.expires_at ms h o.0), o)
    | inr after ↦ rw after (
      All-Precedes-insert m.expires_at ms (spend_order-total l m l.expires_at m.expires_at after)
          o.0,
      insert-InSpendOrder ms o.1,
    )
  ]

-- The query returns the lots in that order.
pub order_by-InSpendOrder : (ls : List Lot) → InSpendOrder (order_by spend_order ls)
order_by-InSpendOrder [] = tt
order_by-InSpendOrder (l ∷ ls) =
    insert-InSpendOrder l (order_by spend_order ls) (order_by-InSpendOrder ls)

-- Lots that the loop does not meet keep their row.
consume-others :
    (ls : List Lot) (remaining ledger_id : ℕ) (s : Session) (i : ℕ)
    → All (λ m. m.id ≢ i) ls
    → find_lot i (consume ls remaining ledger_id s).lots ≡ find_lot i s.lots
unfolding consume
consume-others [] remaining ledger_id s i h = refl
consume-others (l ∷ ls) remaining ledger_id s i h =
    let amount = min l.remaining_amount remaining in
    ground (
      arith,
      find_lot-set_lot_ne (spent_lot l amount) i s.lots h.0,
      consume-others ls (remaining - amount) ledger_id
          (allocate ledger_id l.id amount (write_lot (spent_lot l amount) s)) i h.1,
    )

Differs-sym : (l : Lot) (ls : List Lot) → Differs l ls → All (λ m. m.id ≢ l.id) ls
Differs-sym l [] d = tt
Differs-sym l (m ∷ ms) d = ((λ e. d.0 (sym e)), Differs-sym l ms d.1)

find_lot-set_lot_self :
    (new old : Lot) (ls : List Lot)
    → find_lot new.id ls ≡ some old
    → find_lot new.id (set_lot new ls) ≡ some new
find_lot-set_lot_self new old [] h = absurd (ground arith)
find_lot-set_lot_self new old (l ∷ ls) h = ground (arith, find_lot-set_lot_self new old ls)

All-middle {κ} :
    (P : Lot → Type κ) (earlier : List Lot) (l : Lot) (later : List Lot)
    → All P (earlier ++ l ∷ later)
    → P l
All-middle P [] l later h = h.0
All-middle P (m ∷ ms) l later h = All-middle P ms l later h.1

spent_lot_zero : (l : Lot) (n : ℕ) → 0 < l.remaining_amount → n ≡ 0 → spent_lot l n ≡ l
spent_lot_zero l n p e = ground arith

-- A lot loses what the lots before it could not give, up to all that it holds.
pub consume-lot :
    (earlier : List Lot) (l : Lot) (later : List Lot) (remaining ledger_id : ℕ) (s : Session)
    → Listed s.lots (earlier ++ l ∷ later)
    → Apart (earlier ++ l ∷ later)
    → All (λ m. 0 < m.remaining_amount) (earlier ++ l ∷ later)
    → find_lot l.id (consume (earlier ++ l ∷ later) remaining ledger_id s).lots
      ≡ some (spent_lot l (min l.remaining_amount (remaining - remaining_sum earlier)))
unfolding consume
consume-lot [] l later remaining ledger_id s listed apart p =
    let amount = min l.remaining_amount remaining in
    let at_l = find_lot-set_lot_self (spent_lot l amount) l s.lots listed.0 in
    let rest =
      consume-others later (remaining - amount) ledger_id
        (allocate ledger_id l.id amount (write_lot (spent_lot l amount) s)) l.id
        (Differs-sym l later apart.0) in
    let same : remaining - 0 ≡ remaining = omega arith in
    elim (Bool-cases (remaining == 0)) [
      | inl done ↦
          rw (done, same) (listed.0 ∙ ap some (sym (spent_lot_zero l amount p.0 (ground arith))))
      | inr more ↦ rw (more, same) (rest ∙ at_l)
    ]
consume-lot (m ∷ ms) l later remaining ledger_id s listed apart p =
    let amount = min m.remaining_amount remaining in
    let rest =
      consume-lot ms l later (remaining - amount) ledger_id
        (allocate ledger_id m.id amount (write_lot (spent_lot m amount) s))
        (Listed-set_lot (spent_lot m amount) (ms ++ l ∷ later) s.lots apart.0 listed.1) apart.1
        p.1 in
    let same : remaining - amount - remaining_sum ms
        ≡ remaining - (m.remaining_amount + remaining_sum ms) =
      omega arith in
    elim (Bool-cases (remaining == 0)) [
      | inl done ↦ rw done (
          All-middle (λ k. find_lot k.id s.lots ≡ some k) ms l later listed.1
          ∙ ap some (
              sym (
                spent_lot_zero l _ (All-middle (λ k. 0 < k.remaining_amount) ms l later p.1)
                  (ground arith))))
      | inr more ↦ rw (more, ← same) rest
    ]

holding :
    (user_id now : ℕ) (ls : List Lot)
    → All (λ k. 0 < k.remaining_amount) (select (usable user_id now) ls)
holding user_id now [] = tt
holding user_id now (l ∷ ls) = ground (arith, holding user_id now ls)

module _ (now : ℕ) (s : Session) (earlier : List Lot) (l : Lot) (later : List Lot)
    (below : Below s.next_lot s.lots) (e : usable_lots now s ≡ earlier ++ l ∷ later) where
  -- A session with the same lots.
  consume-usable :
      (amount ledger_id : ℕ) (t : Session)
      → t.lots ≡ s.lots
      → find_lot l.id (consume (usable_lots now s) amount ledger_id t).lots
        ≡ some (spent_lot l (min l.remaining_amount (amount - remaining_sum earlier)))
  consume-usable amount ledger_id t same =
      let found = select (usable s.user.id now) s.lots in
      rw e (
        consume-lot earlier l later amount ledger_id t
          (subst (λ ls. Listed ls (earlier ++ l ∷ later)) (sym same)
            (subst (Listed s.lots) e (
              All-order_by spend_order (λ k. find_lot k.id s.lots ≡ some k) found
                (All-select (λ k. find_lot k.id s.lots ≡ some k) (usable s.user.id now) s.lots
                  (Below-Listed s.next_lot s.lots below)))))
          (subst Apart e (
            Apart-order_by spend_order found
              (Apart-select (usable s.user.id now) s.lots (Below-Apart s.next_lot s.lots below))))
          (subst (All (λ k. 0 < k.remaining_amount)) e (
            All-order_by spend_order (λ k. 0 < k.remaining_amount) found
              (holding s.user.id now s.lots))))

-- What a debit of `amount` has taken from a lot: what `before` could not give, up to all that it held.
abbrev pub Gives : ℕ → ℕ → Lot → Ledger × Session → Type 0
Gives before amount l r =
    (l' : Lot) × (find_lot l.id r.1.lots ≡ some l')
    × (l'.remaining_amount ≡ l.remaining_amount - min l.remaining_amount (amount - before))
    × (l'.expires_at ≡ l.expires_at)

-- The usable lots of a debit are in the order of their expiry, those without one last; and a debit that comes to
-- spend them and returns has taken from each lot `l` what those before it, `earlier`, could not give, up to all
-- that `l` held.
pub spend_in_order :
    (now amount : ℕ) (p : Posting) (s : Session) (earlier : List Lot) (l : Lot) (later : List Lot)
    → Below s.next_lot s.lots
    → usable_lots now s ≡ earlier ++ l ∷ later
    → InSpendOrder (earlier ++ l ∷ later)
      × Ensures (Gives (remaining_sum earlier) amount l) (spend now amount p s)
unfolding spend flush_ledger
spend_in_order now amount p s earlier l later below e =
    let P = Ensures (Gives (remaining_sum earlier) amount l) in
    let row = ledger_row s expense amount s.user.points (s.user.points - amount) p in
    (
      subst InSpendOrder e (order_by-InSpendOrder (select (usable s.user.id now) s.lots)),
      if_intro P (ltb (remaining_sum (usable_lots now s)) amount) tt (
          if_intro
            (λ (m : Result Session).
              P (m >>= λ s'. ok (row, consume (usable_lots now s) amount row.id s')))
            (is_duplicate s row) tt
            (
              spent_lot l (min l.remaining_amount (amount - remaining_sum earlier)),
              consume-usable now s earlier l later below e amount row.id (post s row) refl,
              refl,
              refl,
            )),
    )
