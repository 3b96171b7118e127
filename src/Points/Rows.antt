-- ===== src/Points/Rows.antt =====
-- Writing rows: a ledger row with the balance that it leaves, a lot, an allocation.
use python_server.Base.{
  ℕ, ◌+◌, Bool, true, false, Option, none, some, ◌∷◌, ◌++◌, codes, decimal, if◌then◌else◌, take,
  Result, ok, err, integrity_error,
}
use python_server.Points.Model.{Direction, Ledger, active, Lot, Session, Posting, find_ledger}
use python_server.Points.Lots.{set_lot}

-- `_ledger`: the key and the remark are cut to their columns' widths.
unfoldable pub ledger_row : Session → Direction → ℕ → ℕ → ℕ → Posting → Ledger
ledger_row s direction amount before after p = record {
  id = s.next_ledger;
  transaction_no = codes "PL" ++ decimal s.issued;
  user_id = s.user.id;
  user_no = s.user.user_no;
  direction = direction;
  amount = amount;
  balance_before = before;
  balance_after = after;
  biz_type = p.biz_type;
  biz_id = p.biz_id;
  biz_no = p.biz_no;
  idempotency_key = take 160 p.idempotency_key;
  remark = take 255 p.remark;
}

-- `db.add(ledger)` with the new balance, before the flush.
abbrev pub post : Session → Ledger → Session
post s row = record s {
  user = record (s.user) { points = row.balance_after };
  ledgers = row ∷ s.ledgers;
  next_ledger = s.next_ledger + 1;
  issued = s.issued + 1;
}

-- Whether the row breaks uq_point_ledgers_user_idempotency.
abbrev pub is_duplicate : Session → Ledger → Bool
is_duplicate s row = elim (find_ledger row.user_id row.idempotency_key s.ledgers) [
  | none ↦ false
  | some _ ↦ true
]

-- The flush of a new ledger row.
unfoldable pub flush_ledger : Session → Ledger → Result Session
flush_ledger s row = if is_duplicate s row then err integrity_error else ok (post s row)

unfoldable pub add_lot : ℕ → ℕ → Option ℕ → Session → Session
add_lot source amount expires_at s = record s { lots = lot ∷ s.lots; next_lot = s.next_lot + 1 }
  where
    lot : Lot
    lot = record {
      id = s.next_lot;
      user_id = s.user.id;
      source_ledger_id = source;
      original_amount = amount;
      remaining_amount = amount;
      expires_at = expires_at;
      status = active;
    }

abbrev pub allocate : ℕ → ℕ → ℕ → Session → Session
allocate expense_ledger_id lot_id amount s = record s {
  allocations =
      record {
        id = s.next_allocation;
        expense_ledger_id = expense_ledger_id;
        lot_id = lot_id;
        amount = amount;
        restored_amount = 0;
      }
      ∷ s.allocations;
  next_allocation = s.next_allocation + 1;
}

abbrev pub write_lot : Lot → Session → Session
write_lot l s = record s { lots = set_lot l s.lots }
