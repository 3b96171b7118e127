-- ===== src/Points/Refund.antt =====
-- `refund_locked` of PointService.
pub mod Restored
use python_server.Base.{
  ℕ, ◌+◌, ◌-◌, Bool, true, false, ◌&&◌, Option, none, some, List, [], ◌∷◌, Text, text_eq, ltb, leb,
  ◌==◌, if◌then◌else◌, find, select, Result, ok, err, point_debit_not_found, ◌>>=◌,
}
use python_server.Points.Model.{
  income, is_expense, Ledger, active, Lot, Allocation, Session, Posting, find_ledger,
}
use python_server.Points.Lots.{overdue, find_lot}
use python_server.Points.Rows.{ledger_row, flush_ledger, add_lot, write_lot}

-- The row that took the points: `biz_type`, `biz_no` and `direction == "expense"`.
abbrev pub took_points : ℕ → Text → Text → Ledger → Bool
took_points user_id biz_type biz_no row =
    (row.user_id == user_id)
    && (text_eq row.biz_type biz_type && (text_eq row.biz_no biz_no && is_expense row.direction))

abbrev pub booked_on : ℕ → Allocation → Bool
booked_on ledger_id a = a.expense_ledger_id == ledger_id

-- The table holds the newest row first and its ids rise, so its reverse is `order_by(id)`.
abbrev pub oldest_first : List Allocation → List Allocation → List Allocation
oldest_first [] done = done
oldest_first (a ∷ more) done = oldest_first more (a ∷ done)

abbrev pub set_allocation : Allocation → List Allocation → List Allocation
set_allocation new [] = []
set_allocation new (a ∷ more) = if a.id == new.id then new ∷ more else a ∷ set_allocation new more

abbrev pub restorable : Allocation → ℕ
restorable a = a.amount - a.restored_amount

abbrev pub restored_lot : ℕ → Option ℕ → ℕ → Lot → Lot
restored_lot now fallback amount l = record l {
  remaining_amount = l.remaining_amount + amount;
  status = active;
  expires_at = if overdue now l.expires_at then fallback else l.expires_at;
}

-- One round of the loop: the session, and what has been restored so far.
unfoldable pub restore : ℕ → Option ℕ → Allocation → ℕ × Session → ℕ × Session
restore now fallback a (restored, s) =
    if restorable a == 0 then (restored, s) else elim (find_lot a.lot_id s.lots) [
      | none ↦ (restored, s)
      | some l ↦ (
        restored + restorable a,
        record s {
          lots = (write_lot (restored_lot now fallback (restorable a) l) s).lots;
          allocations =
              set_allocation (record a { restored_amount = a.restored_amount + restorable a })
                s.allocations;
        },
      )
    ]

unfoldable pub restore_all : ℕ → Option ℕ → List Allocation → ℕ × Session → ℕ × Session
restore_all now fallback [] acc = acc
restore_all now fallback (a ∷ more) acc = restore_all now fallback more (restore now fallback a acc)

-- What could not go back to its lot opens a new one.
abbrev pub open_remainder : ℕ → ℕ → Option ℕ → ℕ × Session → Session
open_remainder ledger_id amount fallback (restored, s) =
    if ltb restored amount then add_lot ledger_id (amount - restored) fallback s else s

unfoldable pub give_back : ℕ → Option ℕ → Ledger → Posting → Session → Result (Ledger × Session)
unfolding ledger_row
give_back now fallback original p s =
    let amount = original.amount in
    let row = ledger_row s income amount s.user.points (s.user.points + amount) p in
    flush_ledger s row >>= λ s'. ok (
      row,
      open_remainder row.id amount fallback (
          restore_all now fallback (oldest_first (select (booked_on original.id) s'.allocations) [])
            (0, s')),
    )

-- `refund_locked`; `fallback` is `expired_lot_fallback`.
unfoldable pub refund_locked : ℕ → Text → Option ℕ → Posting → Session → Result (Ledger × Session)
refund_locked now original_biz_type fallback p s =
    elim (find_ledger s.user.id p.idempotency_key s.ledgers) [
      | some existing ↦ ok (existing, s)
      | none ↦ elim (find (took_points s.user.id original_biz_type p.biz_no) s.ledgers) [
        | none ↦ err point_debit_not_found
        | some original ↦ give_back now fallback original p s
      ]
    ]
