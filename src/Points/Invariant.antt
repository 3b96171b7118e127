-- ===== src/Points/Invariant.antt =====
-- What every method keeps: ids below the counters, ledger rows whose balances add up, and a newest
-- row that shows the user's balance.
use python_server.Base.{
  ℕ, ◌+◌, ◌-◌, ◌<◌, min, ◌≡◌, Option, none, some, List, [], ◌∷◌, arith, ◌==◌, find, All, All-map,
  Bool, if_intro, option_intro, subst, sym,
}
use python_server.Points.Model.{Direction, income, expense, Ledger, Lot, Allocation, Session}
use python_server.Points.Lots.{find_lot}
use python_server.Points.Lots.Table.{Below, set_lot-Below}
use python_server.Points.Rows.{post, add_lot, allocate, write_lot}
use python_server.Points.Expire.{expired_lot, close_lots, expire_lots}
use python_server.Points.Debit.{spent_lot, consume}
use python_server.Points.Refund.{
  restorable, restored_lot, set_allocation, restore, restore_all, open_remainder,
}
pub mod Methods

abbrev pub BalancedAs : Direction → ℕ → ℕ → ℕ → Type 0
BalancedAs income amount before after = before + amount ≡ after
BalancedAs expense amount before after = after + amount ≡ before

abbrev pub IsBalanced : Ledger → Type 0
IsBalanced row = BalancedAs row.direction row.amount row.balance_before row.balance_after

abbrev pub owned_by : ℕ → Ledger → Bool
owned_by user_id row = row.user_id == user_id

abbrev pub Shows : Option Ledger → ℕ → Type 0
Shows none points = Unit
Shows (some row) points = row.balance_after ≡ points

pub record IsSound (s : Session) : Type 0 where
  pub lot_ids : Below s.next_lot s.lots
  pub ledger_ids : All (λ row. row.id < s.next_ledger) s.ledgers
  pub bookings : All (λ a. a.expense_ledger_id < s.next_ledger) s.allocations
  pub balanced : All IsBalanced s.ledgers
  pub current : Shows (find (owned_by s.user.id) s.ledgers) s.user.points

pub post-IsSound :
    (s : Session) (row : Ledger)
    → row.id ≡ s.next_ledger
    → row.user_id ≡ s.user.id
    → IsBalanced row
    → IsSound s
    → IsSound (post s row)
post-IsSound s row i u b h = record {
  lot_ids = h.lot_ids;
  ledger_ids = (
    omega arith,
    All-map (λ r. r.id < s.next_ledger) s.ledgers (λ r k. omega arith) h.ledger_ids,
  );
  bookings =
      All-map (λ a. a.expense_ledger_id < s.next_ledger) s.allocations (λ a k. omega arith)
        h.bookings;
  balanced = (b, h.balanced);
  current = ground arith;
}

pub add_lot-IsSound :
    (source amount : ℕ) (e : Option ℕ) (s : Session)
    → IsSound s
    → IsSound (add_lot source amount e s)
unfolding add_lot
add_lot-IsSound source amount e s h = record {
  lot_ids = (omega arith, h.lot_ids);
  ledger_ids = h.ledger_ids;
  bookings = h.bookings;
  balanced = h.balanced;
  current = h.current;
}

pub write_lot-IsSound : (l : Lot) (s : Session) → IsSound s → IsSound (write_lot l s)
write_lot-IsSound l s h = record {
  lot_ids = set_lot-Below l s.next_lot s.lots h.lot_ids;
  ledger_ids = h.ledger_ids;
  bookings = h.bookings;
  balanced = h.balanced;
  current = h.current;
}

pub allocate-IsSound :
    (ledger_id lot_id amount : ℕ) (s : Session)
    → ledger_id < s.next_ledger
    → IsSound s
    → IsSound (allocate ledger_id lot_id amount s)
allocate-IsSound ledger_id lot_id amount s i h = record {
  lot_ids = h.lot_ids;
  ledger_ids = h.ledger_ids;
  bookings = (i, h.bookings);
  balanced = h.balanced;
  current = h.current;
}

pub close_lots-IsSound : (ls : List Lot) (s : Session) → IsSound s → IsSound (close_lots ls s)
unfolding close_lots
close_lots-IsSound [] s h = h
close_lots-IsSound (l ∷ ls) s h = close_lots-IsSound ls _ (write_lot-IsSound (expired_lot l) s h)

pub expire_lots-IsSound :
    (ls : List Lot) (remaining ledger_id : ℕ) (s : Session)
    → ledger_id < s.next_ledger
    → IsSound s
    → IsSound (expire_lots ls remaining ledger_id s)
unfolding expire_lots
expire_lots-IsSound [] remaining ledger_id s i h = h
expire_lots-IsSound (l ∷ ls) remaining ledger_id s i h =
    expire_lots-IsSound ls _ ledger_id _
      (if_intro {A = Session} (λ t. ledger_id < t.next_ledger) (remaining == 0) i i)
      (if_intro IsSound (remaining == 0) w
        (allocate-IsSound ledger_id l.id (min l.remaining_amount remaining) _ i w))
  where
    w : IsSound (write_lot (expired_lot l) s)
    w = write_lot-IsSound (expired_lot l) s h

pub consume-IsSound :
    (ls : List Lot) (remaining ledger_id : ℕ) (s : Session)
    → ledger_id < s.next_ledger
    → IsSound s
    → IsSound (consume ls remaining ledger_id s)
unfolding consume
consume-IsSound [] remaining ledger_id s i h = h
consume-IsSound (l ∷ ls) remaining ledger_id s i h =
    let amount = min l.remaining_amount remaining in
    if_intro IsSound (remaining == 0) h (
      consume-IsSound ls (remaining - amount) ledger_id _ i
        (allocate-IsSound ledger_id l.id amount _ i (write_lot-IsSound (spent_lot l amount) s h)))

set_allocation-Booked :
    (n : ℕ) (new : Allocation) (as' : List Allocation)
    → new.expense_ledger_id < n
    → All (λ a. a.expense_ledger_id < n) as'
    → All (λ a. a.expense_ledger_id < n) (set_allocation new as')
set_allocation-Booked n new [] i h = tt
set_allocation-Booked n new (a ∷ more) i h = ground (arith, set_allocation-Booked n new more i h.1)

-- Restoring rounds, over allocations that are booked below the counter.
restore-IsSound :
    (now : ℕ) (fallback : Option ℕ) (a : Allocation) (acc : ℕ × Session)
    → a.expense_ledger_id < acc.1.next_ledger
    → IsSound acc.1
    → IsSound (restore now fallback a acc).1
unfolding restore
restore-IsSound now fallback a (restored, s) i h =
    if_intro (λ (acc : ℕ × Session). IsSound acc.1) (restorable a == 0) h
      (option_intro (λ (acc : ℕ × Session). IsSound acc.1) (find_lot a.lot_id s.lots) h
        λ l e.
          let w : IsSound (write_lot (restored_lot now fallback (restorable a) l) s) =
            write_lot-IsSound _ s h in
          record {
            lot_ids = w.lot_ids;
            ledger_ids = h.ledger_ids;
            bookings = set_allocation-Booked s.next_ledger _ s.allocations i h.bookings;
            balanced = h.balanced;
            current = h.current;
          })

restore-next_ledger :
    (now : ℕ) (fallback : Option ℕ) (a : Allocation) (acc : ℕ × Session)
    → (restore now fallback a acc).1.next_ledger ≡ acc.1.next_ledger
unfolding restore
restore-next_ledger now fallback a acc = ground arith

pub restore_all-IsSound :
    (now : ℕ) (fallback : Option ℕ) (as' : List Allocation) (acc : ℕ × Session)
    → All (λ a. a.expense_ledger_id < acc.1.next_ledger) as'
    → IsSound acc.1
    → IsSound (restore_all now fallback as' acc).1
unfolding restore_all
restore_all-IsSound now fallback [] acc i h = h
restore_all-IsSound now fallback (a ∷ more) acc i h =
    restore_all-IsSound now fallback more _
      (subst (λ n. All (λ b. b.expense_ledger_id < n) more)
        (sym (restore-next_ledger now fallback a acc)) i.1)
      (restore-IsSound now fallback a acc i.0 h)
