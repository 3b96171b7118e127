-- ===== src/Points/Refund/Restored.antt =====
-- What `refund_locked` gives back: to the balance, and to the lots.
use python_server.Base.{
  ℕ, ◌+◌, ◌≤◌, ◌≡◌, refl, sym, ap, ◌∙◌, subst, Option, none, some, List, [], ◌∷◌, arith, ltb, ◌==◌,
  select, sum_by, Text, find, Bool-cases, inl, inr, if_intro, option_intro, Ensures,
}
use python_server.Points.Model.{
  User, income, Ledger, Lot, Allocation, Session, Posting, find_ledger,
}
use python_server.Points.Lots.{remaining_sum, find_lot}
use python_server.Points.Lots.Table.{sum_by-set_lot, find_lot-id}
use python_server.Points.Rows.{ledger_row, post, add_lot}
use python_server.Points.Refund.{
  booked_on, oldest_first, restorable, restored_lot, restore, restore_all, open_remainder,
  give_back, took_points, refund_locked,
}
use python_server.Points.Invariant.Methods.{after_flush}

-- One round adds to the lots what it adds to the count, and no more than the allocation holds.
record Restores (a : Allocation) (before after : ℕ × Session) : Type 0 where
  moved : remaining_sum after.1.lots + before.0 ≡ remaining_sum before.1.lots + after.0
  bounded : after.0 ≤ before.0 + restorable a
  user : after.1.user ≡ before.1.user
  ledgers : after.1.ledgers ≡ before.1.ledgers

restore-Restores :
    (now : ℕ) (fallback : Option ℕ) (a : Allocation) (acc : ℕ × Session)
    → Restores a acc (restore now fallback a acc)
unfolding restore
restore-Restores now fallback a (restored, s) =
    if_intro (Restores a (restored, s)) (restorable a == 0) same (
      option_intro (Restores a (restored, s)) (find_lot a.lot_id s.lots) same λ l e. record {
        moved = omega (
          arith,
          sum_by-set_lot (λ (k : Lot). k.remaining_amount)
              (restored_lot now fallback (restorable a) l) l s.lots (found l e),
        );
        bounded = omega arith;
        user = refl;
        ledgers = refl;
      })
  where
    same : Restores a (restored, s) (restored, s)
    same = record { moved = refl; bounded = omega arith; user = refl; ledgers = refl }

    found : (l : Lot) → find_lot a.lot_id s.lots ≡ some l → find_lot l.id s.lots ≡ some l
    found l e = subst (λ i. find_lot i s.lots ≡ some l) (sym (find_lot-id a.lot_id s.lots l e)) e

-- The whole loop.
record RestoresAll (as' : List Allocation) (before after : ℕ × Session) : Type 0 where
  moved : remaining_sum after.1.lots + before.0 ≡ remaining_sum before.1.lots + after.0
  bounded : after.0 ≤ before.0 + sum_by restorable as'
  user : after.1.user ≡ before.1.user
  ledgers : after.1.ledgers ≡ before.1.ledgers

restore_all-RestoresAll :
    (now : ℕ) (fallback : Option ℕ) (as' : List Allocation) (acc : ℕ × Session)
    → RestoresAll as' acc (restore_all now fallback as' acc)
unfolding restore_all
restore_all-RestoresAll now fallback [] acc = record {
  moved = refl;
  bounded = omega arith;
  user = refl;
  ledgers = refl;
}
restore_all-RestoresAll now fallback (a ∷ more) acc =
    let first = restore-Restores now fallback a acc in
    let rest = restore_all-RestoresAll now fallback more (restore now fallback a acc) in
    record {
      moved = omega (arith, first.moved, rest.moved);
      bounded = omega (arith, first.bounded, rest.bounded);
      user = rest.user ∙ first.user;
      ledgers = rest.ledgers ∙ first.ledgers;
    }

sum_by-oldest_first :
    (weight : Allocation → ℕ) (as' done : List Allocation)
    → sum_by weight (oldest_first as' done) ≡ sum_by weight as' + sum_by weight done
sum_by-oldest_first weight [] done = omega arith
sum_by-oldest_first weight (a ∷ more) done =
    omega (arith, sum_by-oldest_first weight more (a ∷ done))

-- What can still be given back on an expense row.
abbrev pub returnable : ℕ → Session → ℕ
returnable ledger_id s = sum_by restorable (select (booked_on ledger_id) s.allocations)

pub record GivenBack (original : Ledger) (s : Session) (row : Ledger) (t : Session) : Type 0 where
  pub credited : t.user.points ≡ s.user.points + original.amount
  pub shown : row.balance_after ≡ t.user.points
  pub recorded : t.ledgers ≡ row ∷ s.ledgers
  pub same_user : t.user.id ≡ s.user.id
  pub lots_back :
      returnable original.id s ≤ original.amount
      → remaining_sum t.lots ≡ remaining_sum s.lots + original.amount

open_remainder-GivenBack :
    (fallback : Option ℕ) (original row : Ledger) (s : Session) (acc : ℕ × Session)
    → row.balance_after ≡ s.user.points + original.amount
    → RestoresAll
        (oldest_first (select (booked_on original.id) s.allocations) [])
        (0, post s row)
        acc
    → GivenBack original s row (open_remainder row.id original.amount fallback acc)
unfolding add_lot
open_remainder-GivenBack fallback original row s (restored, t) after r =
    elim (Bool-cases (ltb restored original.amount)) [
      | inl less ↦ rw less (record {
        credited = omega (arith, points);
        shown = sym points;
        recorded = r.ledgers;
        same_user = ap (λ (u : User). u.id) r.user;
        lots_back = λ h. ground (arith, r.moved);
      })
      | inr whole ↦ rw whole (record {
        credited = omega (arith, points);
        shown = sym points;
        recorded = r.ledgers;
        same_user = ap (λ (u : User). u.id) r.user;
        lots_back = λ h. ground (arith, r.moved, r.bounded, total);
      })
    ]
  where
    points : t.user.points ≡ row.balance_after
    points = ap (λ (u : User). u.points) r.user

    total :
        sum_by restorable (oldest_first (select (booked_on original.id) s.allocations) [])
        ≡ returnable original.id s + 0
    total = sum_by-oldest_first restorable (select (booked_on original.id) s.allocations) []

pub give_back-GivenBack :
    (now : ℕ) (fallback : Option ℕ) (original : Ledger) (p : Posting) (s : Session)
    → Ensures (λ r. GivenBack original s r.0 r.1) (give_back now fallback original p s)
unfolding give_back ledger_row
give_back-GivenBack now fallback original p s =
    let amount = original.amount in
    let row = ledger_row s income amount s.user.points (s.user.points + amount) p in
    after_flush (λ (r : Ledger × Session). GivenBack original s r.0 r.1) s row _
      (open_remainder-GivenBack fallback original row s _ refl (
        restore_all-RestoresAll now fallback
          (oldest_first (select (booked_on original.id) s.allocations) []) (0, post s row)))

-- A refund under a new key credits the balance with the amount of the expense row that it finds, and
-- the lots together gain exactly that amount where no more is returnable than the row took.
pub refund_locked-GivenBack :
    (now : ℕ) (biz_type : Text) (fallback : Option ℕ) (p : Posting) (s : Session)
    (original : Ledger)
    → find_ledger s.user.id p.idempotency_key s.ledgers ≡ none
    → find (took_points s.user.id biz_type p.biz_no) s.ledgers ≡ some original
    → Ensures (λ r. GivenBack original s r.0 r.1) (refund_locked now biz_type fallback p s)
unfolding refund_locked
refund_locked-GivenBack now biz_type fallback p s original new e =
    rw (new, e, refund_locked) (give_back-GivenBack now fallback original p s)
