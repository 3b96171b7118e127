-- ===== src/Points/Debit.antt =====
-- `debit_locked` of PointService. The clock is read three times: by the expiry, by the coverage
-- test and for the query of the usable lots.
pub mod Consume
pub mod Order
pub mod Spent
pub mod Locked
use python_server.Base.{
  ℕ, ◌-◌, min, Bool, true, false, Option, none, some, List, [], ◌∷◌, ltb, ◌==◌, if◌then◌else◌,
  select, Result, ok, err, invalid_point_amount, insufficient_points, point_ledger_mismatch, ◌>>=◌,
}
use python_server.Base.Int.{ℤ, pos, pos_part, neg_part, ltb_ℤ}
use python_server.Points.Model.{expense, Ledger, consumed, Lot, Session, Posting, find_ledger}
use python_server.Points.Lots.{usable, spend_order, order_by, remaining_sum}
use python_server.Points.Rows.{ledger_row, flush_ledger, allocate, write_lot}
use python_server.Points.Expire.{expire_due_locked, ensure_lot_coverage}

abbrev pub spent_lot : Lot → ℕ → Lot
spent_lot l amount = record l {
  remaining_amount = l.remaining_amount - amount;
  status = if l.remaining_amount - amount == 0 then consumed else l.status;
}

-- The loop over the lots; it ends when nothing is left to take.
unfoldable pub consume : List Lot → ℕ → ℕ → Session → Session
consume [] remaining ledger_id s = s
consume (l ∷ ls) remaining ledger_id s =
    let amount = min l.remaining_amount remaining in
    let rest =
      consume ls (remaining - amount) ledger_id
        (allocate ledger_id l.id amount (write_lot (spent_lot l amount) s)) in
    if remaining == 0 then s else rest

abbrev pub usable_lots : ℕ → Session → List Lot
usable_lots now s = order_by spend_order (select (usable s.user.id now) s.lots)

-- The part of `debit_locked` after the lots are known to cover the balance.
unfoldable pub spend : ℕ → ℕ → Posting → Session → Result (Ledger × Session)
unfolding ledger_row
spend now amount p s =
    let lots = usable_lots now s in
    let row = ledger_row s expense amount s.user.points (s.user.points - amount) p in
    if ltb (remaining_sum lots) amount
    then err point_ledger_mismatch
    else (flush_ledger s row >>= λ s'. ok (row, consume lots amount row.id s'))

unfoldable pub debit : ℕ → ℕ → ℕ → ℕ → Posting → Session → Result (Ledger × Session)
debit now now' now'' amount p s = do
  (_, s') ← expire_due_locked now s
  s'' ← (if ltb s'.user.points amount then err insufficient_points else ensure_lot_coverage now' s')
  spend now'' amount p s''

-- `debit_locked`
unfoldable pub debit_locked : ℕ → ℕ → ℕ → ℤ → Posting → Session → Result (Ledger × Session)
unfolding debit
debit_locked now now' now'' amount p s =
    if ltb_ℤ (pos 0) amount
    then elim (find_ledger s.user.id p.idempotency_key s.ledgers) [
      | some existing ↦ ok (existing, s)
      | none ↦ debit now now' now'' (pos_part amount) p s
    ]
    else err invalid_point_amount
