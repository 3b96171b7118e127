-- ===== src/Points/Credit.antt =====
-- `credit_locked` and `revoke_credit_locked` of PointService. `saved` is the session as it was last
-- committed.
use python_server.Base.{
  ℕ, ◌+◌, ◌-◌, min, Bool, Option, none, some, Text, ◌==◌, if◌then◌else◌, find, Result, ok, err,
  integrity_error, invalid_point_amount, ◌>>=◌,
}
use python_server.Base.Int.{ℤ, pos, pos_part, ltb_ℤ}
use python_server.Points.Model.{
  income, expense, is_income, Ledger, revoked, is_revoked, Lot, Session, Posting, find_ledger,
}
use python_server.Points.Rows.{ledger_row, post, is_duplicate, flush_ledger, add_lot, write_lot}

-- After the rollback the session is what was last committed; the id that was issued is not reused.
unfoldable pub recover : Session → Session → Posting → Result (Ledger × Session)
recover saved s p = elim (find_ledger s.user.id p.idempotency_key saved.ledgers) [
  | none ↦ err integrity_error
  | some existing ↦ ok (existing, record saved { issued = s.issued + 1 })
]

unfoldable pub credit : Session → ℕ → Posting → Option ℕ → Session → Result (Ledger × Session)
unfolding ledger_row add_lot recover
credit saved amount p expires_at s =
    let row = ledger_row s income amount s.user.points (s.user.points + amount) p in
    elim (find_ledger s.user.id p.idempotency_key s.ledgers) [
      | some existing ↦ ok (existing, s)
      | none ↦
          if is_duplicate s row
          then recover saved s p
          else ok (row, add_lot row.id amount expires_at (post s row))
    ]

-- `credit_locked`
unfoldable pub credit_locked :
    Session → ℤ → Posting → Option ℕ → Session → Result (Ledger × Session)
unfolding credit
credit_locked saved amount p expires_at s =
    if ltb_ℤ (pos 0) amount
    then credit saved (pos_part amount) p expires_at s
    else err invalid_point_amount

-- `revoke_credit_locked`; `ledger` is None where nothing is taken back.
unfoldable pub revoke_lot : Posting → Lot → Session → Result (Option Ledger × Session)
unfolding ledger_row flush_ledger
revoke_lot p l s =
    let amount = min l.remaining_amount s.user.points in
    let left = l.remaining_amount - amount in
    let row = ledger_row s expense amount s.user.points (s.user.points - amount) p in
    let s' =
      write_lot
        (record l { remaining_amount = left; status = if left == 0 then revoked else l.status })
        s in
    if amount == 0
    then ok (none, write_lot (record l { remaining_amount = left; status = revoked }) s)
    else (flush_ledger s' row >>= λ s''. ok (some row, s''))

-- The lot that a ledger row opened.
abbrev pub opened_by : ℕ → Lot → Bool
opened_by ledger_id l = l.source_ledger_id == ledger_id

unfoldable pub revoke_credit_locked : Text → Posting → Session → Result (Option Ledger × Session)
unfolding revoke_lot
revoke_credit_locked credit_key p s = elim (find_ledger s.user.id p.idempotency_key s.ledgers) [
  | some existing ↦ ok (some existing, s)
  | none ↦ elim (find_ledger s.user.id credit_key s.ledgers) [
    | none ↦ ok (none, s)
    | some original ↦
        if is_income original.direction
        then elim (find (opened_by original.id) s.lots) [
          | none ↦ ok (none, s)
          | some l ↦ if is_revoked l.status then ok (none, s) else revoke_lot p l s
        ]
        else ok (none, s)
  ]
]
