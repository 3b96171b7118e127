-- ===== src/Points/Invariant/Methods.antt =====
-- Every method of PointService keeps the invariant.
use python_server.Base.{
  ℕ, ◌+◌, ◌-◌, ◌≤◌, ◌<◌, min, ◌≡◌, refl, Option, none, some, List, [], ◌∷◌, arith, Text, leb, ltb,
  ◌==◌, if◌then◌else◌, find, select, All, All-select, Bool-cases, inl, inr, if_intro, option_intro,
  Result, ok, err, ◌>>=◌, Ensures, Ensures-bind, insufficient_points,
}
use python_server.Base.Int.{ℤ, pos, pos_part, ltb_ℤ}
use python_server.Points.Model.{
  Direction, income, expense, is_income, Ledger, revoked, is_revoked, Lot, Allocation, Session,
  Posting, find_ledger,
}
use python_server.Points.Lots.{remaining_sum, max_id}
use python_server.Points.Rows.{ledger_row, post, is_duplicate, flush_ledger, add_lot, write_lot}
use python_server.Points.Credit.{
  recover, credit, credit_locked, revoke_lot, opened_by, revoke_credit_locked,
}
use python_server.Points.Expire.{
  expire_booked, expire_found, expire_due_locked, due_lots, covered, ensure_lot_coverage,
  expired_posting, opening_posting,
}
use python_server.Points.Debit.{usable_lots, spend, debit, debit_locked}
use python_server.Points.Refund.{
  booked_on, oldest_first, open_remainder, took_points, give_back, refund_locked,
}
use python_server.Points.Invariant.{
  BalancedAs, IsSound, post-IsSound, add_lot-IsSound, write_lot-IsSound, close_lots-IsSound,
  expire_lots-IsSound, consume-IsSound, restore_all-IsSound,
}

abbrev pub Keeps : {A : Type 0} → Result (A × Session) → Type 0
Keeps = Ensures (λ r. IsSound r.1)

flush_ledger-post :
    (s : Session) (row : Ledger) → Ensures (λ t. t ≡ post s row) (flush_ledger s row)
unfolding flush_ledger
flush_ledger-post s row = ground arith

-- What follows a flush may assume that the row is posted.
pub after_flush {κ} :
    {B : Type 0} (Q : B → Type κ) (s : Session) (row : Ledger) (f : Session → Result B)
    → Ensures Q (f (post s row))
    → Ensures Q (flush_ledger s row >>= f)
after_flush Q s row f h =
    Ensures-bind (λ t. t ≡ post s row) Q (flush_ledger s row) f (flush_ledger-post s row)
      λ t e. rw e h

recover-Keeps : (saved s : Session) (p : Posting) → IsSound saved → Keeps (recover saved s p)
unfolding recover
recover-Keeps saved s p h =
    option_intro Keeps (find_ledger s.user.id p.idempotency_key saved.ledgers) tt λ row e. record {
      lot_ids = h.lot_ids;
      ledger_ids = h.ledger_ids;
      bookings = h.bookings;
      balanced = h.balanced;
      current = h.current;
    }

-- A row that the service has just made is posted soundly if its balances add up.
posted :
    (s : Session) (d : Direction) (amount before after : ℕ) (p : Posting)
    → BalancedAs d amount before after
    → IsSound s
    → IsSound (post s (ledger_row s d amount before after p))
unfolding ledger_row
posted s d amount before after p b h = post-IsSound s _ refl refl b h

-- `credit_locked` keeps the invariant, also where it rolls back to what was saved.
pub credit_locked-Keeps :
    (saved : Session) (amount : ℤ) (p : Posting) (e : Option ℕ) (s : Session)
    → IsSound saved
    → IsSound s
    → Keeps (credit_locked saved amount p e s)
unfolding credit_locked credit
credit_locked-Keeps saved amount p e s k h =
    if_intro Keeps (ltb_ℤ (pos 0) amount)
      (option_intro Keeps (find_ledger s.user.id p.idempotency_key s.ledgers)
        (if_intro Keeps
          (is_duplicate s (
            ledger_row s income (pos_part amount) s.user.points (s.user.points + pos_part amount)
              p))
          (recover-Keeps saved s p k)
          (add_lot-IsSound _ _ e _ (posted s income (pos_part amount) _ _ p refl h)))
        λ row found. h)
      tt

revoke_lot-Keeps : (p : Posting) (l : Lot) (s : Session) → IsSound s → Keeps (revoke_lot p l s)
unfolding revoke_lot
revoke_lot-Keeps p l s h =
    let amount = min l.remaining_amount s.user.points in
    let left = l.remaining_amount - amount in
    let t =
      write_lot
        (record l { remaining_amount = left; status = if left == 0 then revoked else l.status })
        s in
    let row = ledger_row t expense amount s.user.points (s.user.points - amount) p in
    if_intro Keeps (amount == 0) (write_lot-IsSound _ s h) (
      after_flush (λ (r : Option Ledger × Session). IsSound r.1) t row (λ t'. ok (some row, t'))
        (posted t expense amount s.user.points (s.user.points - amount) p (omega arith)
          (write_lot-IsSound _ s h)))

pub revoke_credit_locked-Keeps :
    (key : Text) (p : Posting) (s : Session) → IsSound s → Keeps (revoke_credit_locked key p s)
unfolding revoke_credit_locked
revoke_credit_locked-Keeps key p s h =
    option_intro Keeps (find_ledger s.user.id p.idempotency_key s.ledgers)
      (option_intro Keeps (find_ledger s.user.id key s.ledgers) h λ original e.
        if_intro Keeps (is_income original.direction)
          (option_intro Keeps (find (opened_by original.id) s.lots) h
            λ l e'. if_intro Keeps (is_revoked l.status) h (revoke_lot-Keeps p l s h))
          h)
      λ row e. h

expire_booked-Keeps :
    (ls : List Lot) (amount : ℕ) (s : Session)
    → amount ≤ s.user.points
    → IsSound s
    → Keeps (expire_booked ls amount s)
unfolding expire_booked
expire_booked-Keeps ls amount s a h =
    after_flush (λ (r : Option Ledger × Session). IsSound r.1) s _ _
      (expire_lots-IsSound ls amount s.next_ledger _ (omega arith) (
        posted s expense amount s.user.points (s.user.points - amount)
          (expired_posting s.user.id (max_id ls)) (omega arith) h))

expire_found-Keeps : (ls : List Lot) (s : Session) → IsSound s → Keeps (expire_found ls s)
unfolding expire_found
expire_found-Keeps [] s h = h
expire_found-Keeps (l ∷ ls) s h =
    let amount = min (remaining_sum (l ∷ ls)) s.user.points in
    if_intro Keeps (amount == 0) (close_lots-IsSound (l ∷ ls) s h)
      (expire_booked-Keeps (l ∷ ls) amount s (omega arith) h)

pub expire_due_locked-Keeps : (now : ℕ) (s : Session) → IsSound s → Keeps (expire_due_locked now s)
unfolding expire_due_locked
expire_due_locked-Keeps now s h = expire_found-Keeps (due_lots now s) s h

pub ensure_lot_coverage-Keeps :
    (now : ℕ) (s : Session)
    → IsSound s
    → Ensures (λ t. IsSound t × (t.user.points ≡ s.user.points)) (ensure_lot_coverage now s)
unfolding ensure_lot_coverage add_lot ledger_row
ensure_lot_coverage-Keeps now s h =
    let missing = s.user.points - covered now s in
    let row = ledger_row s income missing (covered now s) s.user.points (opening_posting s) in
    elim (Bool-cases (leb s.user.points (covered now s))) [
      | inl enough ↦ rw (enough, ensure_lot_coverage) (h, refl)
      | inr short ↦
          rw (short, ensure_lot_coverage)
            (after_flush (λ t. IsSound t × (t.user.points ≡ s.user.points)) s row
              (λ t. ok (add_lot row.id missing none t))
              (
                add_lot-IsSound row.id missing none (post s row) (
                    posted s income missing (covered now s) s.user.points (opening_posting s)
                      (ground arith) h),
                refl,
              ))
    ]

pub ensure_lot_coverage_user :
    (now : ℕ) (s : Session)
    → Ensures (λ (t : Session). t.user.id ≡ s.user.id) (ensure_lot_coverage now s)
unfolding ensure_lot_coverage add_lot ledger_row
ensure_lot_coverage_user now s =
    let missing = s.user.points - covered now s in
    let row = ledger_row s income missing (covered now s) s.user.points (opening_posting s) in
    if_intro (Ensures (λ (t : Session). t.user.id ≡ s.user.id)) (leb s.user.points (covered now s))
      refl
      (after_flush (λ (t : Session). t.user.id ≡ s.user.id) s row
        (λ t. ok (add_lot row.id missing none t)) refl)

spend-Keeps :
    (now amount : ℕ) (p : Posting) (s : Session)
    → amount ≤ s.user.points
    → IsSound s
    → Keeps (spend now amount p s)
unfolding spend
spend-Keeps now amount p s a h =
    if_intro Keeps (ltb (remaining_sum (usable_lots now s)) amount) tt (
      after_flush (λ (r : Ledger × Session). IsSound r.1) s _ _
        (consume-IsSound (usable_lots now s) amount s.next_ledger _ (omega arith)
          (posted s expense amount s.user.points (s.user.points - amount) p (omega arith) h)))

-- `debit_locked` once the lots that are due have been expired.
debit_rest :
    (now' now'' amount : ℕ) (p : Posting) (s : Session)
    → IsSound s
    → Keeps (
        (if ltb s.user.points amount then err insufficient_points else ensure_lot_coverage now' s)
        >>= spend now'' amount p)
debit_rest now' now'' amount p s h = elim (Bool-cases (ltb s.user.points amount)) [
  | inl short ↦ rw short tt
  | inr enough ↦ rw enough (
      Ensures-bind (λ t. IsSound t × (t.user.points ≡ s.user.points))
        (λ (r : Ledger × Session). IsSound r.1) (ensure_lot_coverage now' s) (spend now'' amount p)
        (ensure_lot_coverage-Keeps now' s h) λ t k. spend-Keeps now'' amount p t (ground arith) k.0)
]

pub debit_locked-Keeps :
    (now now' now'' : ℕ) (amount : ℤ) (p : Posting) (s : Session)
    → IsSound s
    → Keeps (debit_locked now now' now'' amount p s)
unfolding debit_locked debit
debit_locked-Keeps now now' now'' amount p s h =
    if_intro Keeps (ltb_ℤ (pos 0) amount)
      (option_intro Keeps (find_ledger s.user.id p.idempotency_key s.ledgers)
        (Ensures-bind (λ (r : Option Ledger × Session). IsSound r.1)
          (λ (r : Ledger × Session). IsSound r.1) (expire_due_locked now s) _
          (expire_due_locked-Keeps now s h) λ r k. debit_rest now' now'' (pos_part amount) p r.1 k)
        λ row found. h)
      tt

oldest_first-All {κ} :
    (P : Allocation → Type κ) (as' done : List Allocation)
    → All P as'
    → All P done
    → All P (oldest_first as' done)
oldest_first-All P [] done h k = k
oldest_first-All P (a ∷ more) done h k = oldest_first-All P more (a ∷ done) h.1 (h.0, k)

open_remainder-IsSound :
    (ledger_id amount : ℕ) (e : Option ℕ) (acc : ℕ × Session)
    → IsSound acc.1
    → IsSound (open_remainder ledger_id amount e acc)
open_remainder-IsSound ledger_id amount e (restored, s) h =
    if_intro IsSound (ltb restored amount) (add_lot-IsSound ledger_id (amount - restored) e s h) h

give_back-Keeps :
    (now : ℕ) (e : Option ℕ) (original : Ledger) (p : Posting) (s : Session)
    → IsSound s
    → Keeps (give_back now e original p s)
unfolding give_back
give_back-Keeps now e original p s h =
    let amount = original.amount in
    let row = ledger_row s income amount s.user.points (s.user.points + amount) p in
    let k = posted s income amount s.user.points (s.user.points + amount) p refl h in
    after_flush (λ (r : Ledger × Session). IsSound r.1) s row _
      (open_remainder-IsSound _ amount e _ (
        restore_all-IsSound now e _ (0, post s row)
          (oldest_first-All (λ a. a.expense_ledger_id < s.next_ledger + 1)
            (select (booked_on original.id) s.allocations) []
            (All-select (λ a. a.expense_ledger_id < s.next_ledger + 1) (booked_on original.id)
              s.allocations k.bookings)
            tt)
          k))

pub refund_locked-Keeps :
    (now : ℕ) (biz_type : Text) (e : Option ℕ) (p : Posting) (s : Session)
    → IsSound s
    → Keeps (refund_locked now biz_type e p s)
unfolding refund_locked
refund_locked-Keeps now biz_type e p s h =
    option_intro Keeps (find_ledger s.user.id p.idempotency_key s.ledgers)
      (option_intro Keeps (find (took_points s.user.id biz_type p.biz_no) s.ledgers) tt
        λ original f. give_back-Keeps now e original p s h)
      λ row found. h
