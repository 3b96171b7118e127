-- ===== src/Points/Debit/Consume.antt =====
-- The consuming loop of `debit_locked`: it takes from the lots what it was asked for, no more.
use python_server.Base.{
  ℕ, ◌+◌, ◌-◌, ◌≤◌, min, ◌≡◌, refl, true, List, [], ◌∷◌, arith, if◌then◌else◌, select, sum_by, All,
}
use python_server.Points.Model.{Lot, Allocation, Session}
use python_server.Points.Lots.{usable, remaining_sum}
use python_server.Points.Lots.Table.{Listed, Apart, sum_by-set_lot, Listed-set_lot}
use python_server.Points.Rows.{allocate, write_lot}
use python_server.Points.Debit.{spent_lot, consume}
use python_server.Points.Refund.{booked_on}

-- What a lot adds to the points that can be spent.
abbrev pub worth : ℕ → ℕ → Lot → ℕ
worth user_id now l = if usable user_id now l then l.remaining_amount else 0

pub remaining_sum-select :
    (user_id now : ℕ) (ls : List Lot)
    → remaining_sum (select (usable user_id now) ls) ≡ sum_by (worth user_id now) ls
remaining_sum-select user_id now [] = refl
remaining_sum-select user_id now (l ∷ ls) = ground (arith, remaining_sum-select user_id now ls)

-- The points booked on an expense row.
abbrev pub booked : ℕ → List Allocation → ℕ
booked ledger_id = sum_by (λ a. if booked_on ledger_id a then a.amount else 0)

worth-spent_lot :
    (user_id now amount : ℕ) (l : Lot)
    → usable user_id now l ≡ true
    → amount ≤ l.remaining_amount
    → worth user_id now (spent_lot l amount) + amount ≡ worth user_id now l
worth-spent_lot user_id now amount l u h = ground arith

module _ (user_id now ledger_id : ℕ) where
  pub consume-worth :
      (ls : List Lot) (remaining : ℕ) (s : Session)
      → Listed s.lots ls
      → Apart ls
      → All (λ l. usable user_id now l ≡ true) ls
      → remaining ≤ remaining_sum ls
      → sum_by (worth user_id now) (consume ls remaining ledger_id s).lots + remaining
        ≡ sum_by (worth user_id now) s.lots
  unfolding consume
  consume-worth [] remaining s listed apart u h = ground arith
  consume-worth (l ∷ ls) remaining s listed apart u h =
      let amount = min l.remaining_amount remaining in
      ground (
        arith,
        sum_by-set_lot (worth user_id now) (spent_lot l amount) l s.lots listed.0,
        worth-spent_lot user_id now amount l u.0 (omega arith),
        consume-worth ls (remaining - amount)
            (allocate ledger_id l.id amount (write_lot (spent_lot l amount) s))
            (Listed-set_lot (spent_lot l amount) ls s.lots apart.0 listed.1) apart.1 u.1
            (omega arith),
      )

  pub consume-booked :
      (ls : List Lot) (remaining : ℕ) (s : Session)
      → remaining ≤ remaining_sum ls
      → booked ledger_id (consume ls remaining ledger_id s).allocations
        ≡ booked ledger_id s.allocations + remaining
  unfolding consume
  consume-booked [] remaining s h = ground arith
  consume-booked (l ∷ ls) remaining s h = ground (
    arith,
    consume-booked ls (remaining - min l.remaining_amount remaining) (
        allocate ledger_id l.id (min l.remaining_amount remaining)
          (write_lot (spent_lot l (min l.remaining_amount remaining)) s)),
  )
