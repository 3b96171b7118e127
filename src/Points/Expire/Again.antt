-- ===== src/Points/Expire/Again.antt =====
-- The key of an expiry names the user and the largest lot id, and no time: a lot that a refund has
-- made active again cannot expire a second time.
use python_server.Base.{
  ℕ, ◌<◌, min, ◌≡◌, none, some, List, [], ◌∷◌, arith, take, err, integrity_error,
}
use python_server.Base.Int.{pos, ltb_ℤ-pos}
use python_server.Points.Model.{Ledger, Lot, Session, Posting, find_ledger}
use python_server.Points.Lots.{remaining_sum, max_id}
use python_server.Points.Rows.{ledger_row, flush_ledger, is_duplicate}
use python_server.Points.Expire.{
  due_lots, expired_key, expire_booked, expire_found, expire_due_locked,
}
use python_server.Points.Debit.{debit, debit_locked}

-- Points are due, and a row of the user already has the key under which they would be booked.
pub record IsBlocked (now : ℕ) (s : Session) (row : Ledger) : Type 0 where
  pub has_points : 0 < s.user.points
  pub has_due : 0 < remaining_sum (due_lots now s)
  pub booked_before :
      find_ledger s.user.id (take 160 (expired_key s.user.id (max_id (due_lots now s)))) s.ledgers
      ≡ some row

expire_booked_again :
    (ls : List Lot) (amount : ℕ) (s : Session) (row : Ledger)
    → find_ledger s.user.id (take 160 (expired_key s.user.id (max_id ls))) s.ledgers ≡ some row
    → expire_booked ls amount s ≡ err integrity_error
unfolding expire_booked ledger_row flush_ledger
expire_booked_again ls amount s row e = rw (e, is_duplicate)

expire_found_again :
    (ls : List Lot) (s : Session) (row : Ledger)
    → 0 < s.user.points
    → 0 < remaining_sum ls
    → find_ledger s.user.id (take 160 (expired_key s.user.id (max_id ls))) s.ledgers ≡ some row
    → expire_found ls s ≡ err integrity_error
unfolding expire_found
expire_found_again [] s row p d e = absurd (omega arith)
expire_found_again (l ∷ ls) s row p d e =
    ground
      (arith, expire_booked_again (l ∷ ls) (min (remaining_sum (l ∷ ls)) s.user.points) s row e)

expire_due_again :
    (now : ℕ) (s : Session) (row : Ledger)
    → IsBlocked now s row
    → expire_due_locked now s ≡ err integrity_error
unfolding expire_due_locked
expire_due_again now s row b =
    expire_found_again (due_lots now s) s row b.has_points b.has_due b.booked_before

-- Where points are due and an earlier expiry has used their key, the expiry raises IntegrityError,
-- and so does every new debit of the user, whatever its amount.
pub expire_due_locked_again :
    (now now' now'' amount : ℕ) (p : Posting) (s : Session) (row : Ledger)
    → IsBlocked now s row
    → 0 < amount
    → find_ledger s.user.id p.idempotency_key s.ledgers ≡ none
    → (expire_due_locked now s ≡ err integrity_error)
      × (debit_locked now now' now'' (pos amount) p s ≡ err integrity_error)
unfolding debit_locked debit
expire_due_locked_again now now' now'' amount p s row b positive new = (
  expire_due_again now s row b,
  rw (ltb_ℤ-pos amount positive, new, debit_locked, expire_due_again now s row b),
)
