-- ===== src/Points/Debit/Spent.antt =====
-- What a debit does to the balance, the lots and the bookings, and when it goes through.
use python_server.Base.{
  ℕ, ◌+◌, ◌-◌, ◌≤◌, ◌<◌, min, ◌≡◌, refl, sym, ap, ◌∙◌, subst, some, List, [], ◌∷◌, arith, ltb, ◌==◌,
  select, sum_by, Bool, All, All-select, Bool-cases, inl, inr, true, if_intro, ok, Ensures,
}
use python_server.Points.Model.{User, expense, Ledger, Lot, Allocation, Session, Posting}
use python_server.Points.Lots.{usable, spend_order, remaining_sum, find_lot}
use python_server.Points.Lots.Table.{
  Listed, Below-Listed, Below-Apart, Apart-select, All-order_by, Apart-order_by, sum_by-order_by,
}
use python_server.Points.Rows.{ledger_row, post, allocate, write_lot}
use python_server.Points.Expire.{covered}
use python_server.Points.Debit.{spent_lot, consume, usable_lots, spend}
use python_server.Points.Debit.Consume.{
  worth, remaining_sum-select, booked, consume-worth, consume-booked,
}
use python_server.Points.Invariant.{IsSound}
use python_server.Points.Invariant.Methods.{after_flush}

pub consume-frame :
    (ls : List Lot) (remaining ledger_id : ℕ) (s : Session)
    → let t = consume ls remaining ledger_id s in (t.user ≡ s.user) × (t.ledgers ≡ s.ledgers)
unfolding consume
consume-frame [] remaining ledger_id s = (refl, refl)
consume-frame (l ∷ ls) remaining ledger_id s =
    let amount = min l.remaining_amount remaining in
    let rest =
      consume-frame ls (remaining - amount) ledger_id
        (allocate ledger_id l.id amount (write_lot (spent_lot l amount) s)) in
    if_intro (λ (t : Session). (t.user ≡ s.user) × (t.ledgers ≡ s.ledgers)) (remaining == 0)
      (refl, refl) rest

-- Nothing is booked on a row that is still to come.
booked_fresh :
    (n : ℕ) (as' : List Allocation) → All (λ a. a.expense_ledger_id < n) as' → booked n as' ≡ 0
booked_fresh n [] h = refl
booked_fresh n (a ∷ more) h = ground (arith, booked_fresh n more h.1)

select-usable :
    (user_id now : ℕ) (ls : List Lot)
    → All (λ l. usable user_id now l ≡ true) (select (usable user_id now) ls)
select-usable user_id now [] = tt
select-usable user_id now (l ∷ ls) = ground (arith, select-usable user_id now ls)

Listed-select :
    (p : Lot → Bool) (table ls : List Lot) → Listed table ls → Listed table (select p ls)
Listed-select p table ls h = All-select (λ l. find_lot l.id table ≡ some l) p ls h

-- How a successful debit leaves the session.
pub record Spent (now amount : ℕ) (s : Session) (row : Ledger) (t : Session) : Type 0 where
  pub same_user : t.user.id ≡ s.user.id
  pub paid : t.user.points + amount ≡ s.user.points
  pub taken : covered now t + amount ≡ covered now s
  pub accounted : booked row.id t.allocations ≡ amount
  pub recorded : t.ledgers ≡ row ∷ s.ledgers
  pub shown : row.balance_after ≡ t.user.points
  pub worth_of : row.amount ≡ amount

module _ (now amount : ℕ) (p : Posting) (s : Session) (h : IsSound s) where
  abbrev debit_row : Ledger
  unfolding ledger_row
  debit_row = ledger_row s expense amount s.user.points (s.user.points - amount) p

  abbrev debited : Session
  debited = consume (usable_lots now s) amount s.next_ledger (post s debit_row)

  usable_lots-worth : remaining_sum (usable_lots now s) ≡ sum_by (worth s.user.id now) s.lots
  usable_lots-worth =
      sum_by-order_by spend_order (λ l. l.remaining_amount) (select (usable s.user.id now) s.lots)
      ∙ remaining_sum-select s.user.id now s.lots

  debited-worth :
      amount ≤ remaining_sum (usable_lots now s)
      → sum_by (worth s.user.id now) debited.lots + amount ≡ sum_by (worth s.user.id now) s.lots
  debited-worth enough =
      consume-worth s.user.id now s.next_ledger (usable_lots now s) amount (post s debit_row)
        (All-order_by spend_order (λ l. find_lot l.id s.lots ≡ some l)
          (select (usable s.user.id now) s.lots)
          (Listed-select (usable s.user.id now) s.lots s.lots
            (Below-Listed s.next_lot s.lots h.lot_ids)))
        (Apart-order_by spend_order (select (usable s.user.id now) s.lots)
          (Apart-select (usable s.user.id now) s.lots (Below-Apart s.next_lot s.lots h.lot_ids)))
        (All-order_by spend_order (λ l. usable s.user.id now l ≡ true)
          (select (usable s.user.id now) s.lots) (select-usable s.user.id now s.lots))
        enough

  debited-covered :
      amount ≤ remaining_sum (usable_lots now s) → covered now debited + amount ≡ covered now s
  debited-covered enough =
      let frame = consume-frame (usable_lots now s) amount s.next_ledger (post s debit_row) in
      subst (λ i. remaining_sum (select (usable i now) debited.lots) + amount ≡ covered now s)
        (sym (ap (λ (u : User). u.id) frame.0))
        (omega (
          arith,
          debited-worth enough,
          remaining_sum-select s.user.id now debited.lots,
          remaining_sum-select s.user.id now s.lots,
        ))

  debited-Spent :
      amount ≤ s.user.points
      → amount ≤ remaining_sum (usable_lots now s)
      → Spent now amount s debit_row debited
  unfolding ledger_row
  debited-Spent a enough =
      let frame = consume-frame (usable_lots now s) amount s.next_ledger (post s debit_row) in
      let points = ap (λ (u : User). u.points) frame.0 in
      record {
        same_user = ap (λ (u : User). u.id) frame.0;
        paid = omega (arith, points);
        taken = debited-covered enough;
        accounted = omega (
          arith,
          consume-booked s.user.id now s.next_ledger (usable_lots now s) amount (post s debit_row)
              enough,
          booked_fresh s.next_ledger s.allocations h.bookings,
        );
        recorded = frame.1;
        shown = sym points;
        worth_of = refl;
      }

-- `spend` takes the amount from the balance, from the usable lots and onto its row, all alike.
pub spend-Spent :
    (now amount : ℕ) (p : Posting) (s : Session)
    → IsSound s
    → amount ≤ s.user.points
    → Ensures (λ r. Spent now amount s r.0 r.1) (spend now amount p s)
unfolding spend ledger_row
spend-Spent now amount p s h a =
    elim (Bool-cases (ltb (remaining_sum (usable_lots now s)) amount)) [
      | inl short ↦ rw (short, spend) tt
      | inr enough ↦
          rw (enough, spend)
            (after_flush (λ (r : Ledger × Session). Spent now amount s r.0 r.1) s
              (debit_row now amount p s h)
              (λ t.
                ok (debit_row now amount p s h, consume (usable_lots now s) amount s.next_ledger t))
              (debited-Spent now amount p s h a (ground arith)))
    ]
