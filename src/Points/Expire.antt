-- ===== src/Points/Expire.antt =====
-- `expire_due_locked` and `_ensure_lot_coverage` of PointService. Each reads the clock once.
pub mod Laws
pub mod Cleared
pub mod Again
use python_server.Base.{
  ℕ, ◌+◌, ◌-◌, min, Bool, true, false, Option, none, some, List, [], ◌∷◌, ◌++◌, Text, codes,
  decimal, leb, ◌==◌, if◌then◌else◌, select, Result, ok, err, ◌>>=◌,
}
use python_server.Points.Model.{income, expense, Ledger, expired, Lot, Session, Posting}
use python_server.Points.Lots.{usable, due, id_order, order_by, remaining_sum, max_id}
use python_server.Points.Rows.{
  ledger_row, post, is_duplicate, flush_ledger, add_lot, allocate, write_lot,
}

abbrev pub expired_lot : Lot → Lot
expired_lot l = record l { remaining_amount = 0; status = expired }

-- The loop over the lots where nothing is left to take from the user.
unfoldable pub close_lots : List Lot → Session → Session
close_lots [] s = s
close_lots (l ∷ ls) s = close_lots ls (write_lot (expired_lot l) s)

-- The loop that books the lots on the expense row.
unfoldable pub expire_lots : List Lot → ℕ → ℕ → Session → Session
expire_lots [] remaining ledger_id s = s
expire_lots (l ∷ ls) remaining ledger_id s =
    let allocated = min l.remaining_amount remaining in
    let s' = write_lot (expired_lot l) s in
    expire_lots ls (remaining - allocated) ledger_id
      (if remaining == 0 then s' else allocate ledger_id l.id allocated s')

-- `points-expired:{user.id}:{max_lot_id}`
abbrev pub expired_key : ℕ → ℕ → Text
expired_key user_id lot_id =
    codes "points-expired:" ++ (decimal user_id ++ (codes ":" ++ decimal lot_id))

abbrev pub expired_posting : ℕ → ℕ → Posting
expired_posting user_id lot_id = record {
  biz_type = codes "points_expired";
  biz_id = lot_id;
  biz_no = decimal lot_id;
  idempotency_key = expired_key user_id lot_id;
  remark = codes "积分到期扣减";
}

abbrev pub due_lots : ℕ → Session → List Lot
due_lots now s = order_by id_order (select (due s.user.id now) s.lots)

unfoldable pub expire_booked : List Lot → ℕ → Session → Result (Option Ledger × Session)
unfolding ledger_row
expire_booked lots amount s =
    let row =
      ledger_row s expense amount s.user.points (s.user.points - amount)
        (expired_posting s.user.id (max_id lots)) in
    flush_ledger s row >>= λ s'. ok (some row, expire_lots lots amount row.id s')

unfoldable pub expire_found : List Lot → Session → Result (Option Ledger × Session)
expire_found [] s = ok (none, s)
expire_found (l ∷ ls) s =
    let amount = min (remaining_sum (l ∷ ls)) s.user.points in
    if amount == 0 then ok (none, close_lots (l ∷ ls) s) else expire_booked (l ∷ ls) amount s

-- `expire_due_locked`
unfoldable pub expire_due_locked : ℕ → Session → Result (Option Ledger × Session)
unfolding expire_found
expire_due_locked now s = expire_found (due_lots now s) s

-- The points in lots that can be spent.
abbrev pub covered : ℕ → Session → ℕ
covered now s = remaining_sum (select (usable s.user.id now) s.lots)

-- `legacy-opening:{user.id}`
abbrev pub opening_posting : Session → Posting
opening_posting s = record {
  biz_type = codes "legacy_opening";
  biz_id = s.user.id;
  biz_no = s.user.user_no;
  idempotency_key = codes "legacy-opening:" ++ decimal s.user.id;
  remark = codes "历史积分期初余额";
}

-- `_ensure_lot_coverage`
unfoldable pub ensure_lot_coverage : ℕ → Session → Result Session
unfolding ledger_row flush_ledger add_lot
ensure_lot_coverage now s =
    let missing = s.user.points - covered now s in
    let row = ledger_row s income missing (covered now s) s.user.points (opening_posting s) in
    if leb s.user.points (covered now s)
    then ok s
    else (flush_ledger s row >>= λ s'. ok (add_lot row.id missing none s'))
