-- ===== src/Points/Expire/Cleared.antt =====
-- The effect of `expire_due_locked` as a whole.
use python_server.Base.{
  ℕ, ◌+◌, ◌-◌, min, ◌≡◌, refl, sym, ap, ◌∙◌, subst, Option, some, List, [], ◌∷◌, arith, ◌==◌,
  select, sum_by, ==_iff, Bool-cases, inl, inr, ok, Ensures,
}
use python_server.Points.Model.{User, expense, Ledger, Lot, Session}
use python_server.Points.Lots.{due, usable, id_order, remaining_sum, max_id, find_lot}
use python_server.Points.Lots.Table.{
  Listed, Apart, Below-Listed, Below-Apart, Apart-select, All-order_by, Apart-order_by,
  sum_by-order_by,
}
use python_server.Base.{All-select}
use python_server.Points.Rows.{ledger_row, post}
use python_server.Points.Expire.{
  close_lots, expire_lots, expired_posting, due_lots, expire_booked, expire_found,
  expire_due_locked, covered,
}
use python_server.Points.Expire.Laws.{
  Spares, close_lots-sum, expire_lots-sum, close_lots-user, expire_lots-user, due_weight, due_count,
  usable_weight, remaining_sum-usable, sum_by-due, usable-due,
}
use python_server.Points.Invariant.{IsSound}
use python_server.Points.Invariant.Methods.{after_flush}

pub record Cleared (now : ℕ) (s t : Session) : Type 0 where
  pub same_user : t.user.id ≡ s.user.id
  pub paid : t.user.points + min (remaining_sum (due_lots now s)) s.user.points ≡ s.user.points
  pub cleared : due_count now t ≡ 0
  pub kept : covered now t ≡ covered now s

due-Spares : (user_id now : ℕ) → Spares (due_weight user_id now)
due-Spares user_id now l = ground arith

usable-Spares : (user_id now : ℕ) → Spares (usable_weight user_id now)
usable-Spares user_id now l = ground arith

-- The rows that a loop over `ls` has to meet.
record IsDue (now : ℕ) (s : Session) (ls : List Lot) : Type 0 where
  listed : Listed s.lots ls
  apart : Apart ls
  all_due : sum_by (due_weight s.user.id now) ls ≡ due_count now s
  none_usable : sum_by (usable_weight s.user.id now) ls ≡ 0

due_lots-IsDue : (now : ℕ) (s : Session) → IsSound s → IsDue now s (due_lots now s)
due_lots-IsDue now s h =
    let found = select (due s.user.id now) s.lots in
    record {
      listed =
          All-order_by id_order (λ l. find_lot l.id s.lots ≡ some l) found
            (All-select (λ l. find_lot l.id s.lots ≡ some l) (due s.user.id now) s.lots
              (Below-Listed s.next_lot s.lots h.lot_ids));
      apart =
          Apart-order_by id_order found
            (Apart-select (due s.user.id now) s.lots (Below-Apart s.next_lot s.lots h.lot_ids));
      all_due =
          sum_by-order_by id_order (due_weight s.user.id now) found
          ∙ sum_by-due s.user.id now s.lots;
      none_usable =
          sum_by-order_by id_order (usable_weight s.user.id now) found
          ∙ usable-due s.user.id now s.lots;
    }

-- A session whose table has lost just the rows of the loop.
Cleared-of_sums :
    (now : ℕ) (s t : Session) (ls : List Lot)
    → IsDue now s ls
    → t.user.id ≡ s.user.id
    → t.user.points + min (remaining_sum (due_lots now s)) s.user.points ≡ s.user.points
    → sum_by (due_weight s.user.id now) t.lots + sum_by (due_weight s.user.id now) ls
      ≡ due_count now s
    → sum_by (usable_weight s.user.id now) t.lots + sum_by (usable_weight s.user.id now) ls
      ≡ sum_by (usable_weight s.user.id now) s.lots
    → Cleared now s t
Cleared-of_sums now s t ls d same paid e f = record {
  same_user = same;
  paid = paid;
  cleared = subst (λ i. sum_by (due_weight i now) t.lots ≡ 0) (sym same) (omega (arith, d.all_due));
  kept =
      subst (λ i. remaining_sum (select (usable i now) t.lots) ≡ covered now s) (sym same)
        (omega (
          arith,
          d.none_usable,
          remaining_sum-usable s.user.id now t.lots,
          remaining_sum-usable s.user.id now s.lots,
        ));
}

module _ (now : ℕ) (s : Session) where
  expire_booked-Cleared :
      (ls : List Lot) (amount : ℕ)
      → amount ≡ min (remaining_sum (due_lots now s)) s.user.points
      → IsDue now s ls
      → Ensures (λ r. Cleared now s r.1) (expire_booked ls amount s)
  unfolding expire_booked ledger_row
  expire_booked-Cleared ls amount a d =
      let row =
        ledger_row s expense amount s.user.points (s.user.points - amount)
          (expired_posting s.user.id (max_id ls)) in
      let user = expire_lots-user ls amount s.next_ledger (post s row) in
      after_flush (λ (r : Option Ledger × Session). Cleared now s r.1) s row
        (λ t. ok (some row, expire_lots ls amount s.next_ledger t))
        (Cleared-of_sums now s _ ls d (ap (λ (u : User). u.id) user)
          (omega (arith, ap (λ (u : User). u.points) user))
          (expire_lots-sum (due_weight s.user.id now) (due-Spares s.user.id now) ls amount
            s.next_ledger (post s row) d.listed d.apart)
          (expire_lots-sum (usable_weight s.user.id now) (usable-Spares s.user.id now) ls amount
            s.next_ledger (post s row) d.listed d.apart))

  expire_found-Cleared :
      (ls : List Lot)
      → due_lots now s ≡ ls
      → IsDue now s ls
      → Ensures (λ r. Cleared now s r.1) (expire_found ls s)
  unfolding expire_found
  expire_found-Cleared [] e d =
      Cleared-of_sums now s s [] d refl (omega (arith, ap remaining_sum e)) (omega arith)
        (omega arith)
  expire_found-Cleared (l ∷ ls) e d =
      let amount = min (remaining_sum (l ∷ ls)) s.user.points in
      let user = close_lots-user (l ∷ ls) s in
      let sums = ap remaining_sum e in
      elim (Bool-cases (amount == 0)) [
        | inl nothing ↦
            rw (nothing, expire_found)
              (Cleared-of_sums now s (close_lots (l ∷ ls) s) (l ∷ ls) d
                (ap (λ (u : User). u.id) user)
                (omega (arith, ap (λ (u : User). u.points) user, sums, (==_iff amount 0).0 nothing))
                (close_lots-sum (due_weight s.user.id now) (due-Spares s.user.id now) (l ∷ ls) s
                  d.listed d.apart)
                (close_lots-sum (usable_weight s.user.id now) (usable-Spares s.user.id now) (l ∷ ls)
                  s d.listed d.apart))
        | inr some_points ↦
            rw (some_points, expire_found)
              (expire_booked-Cleared (l ∷ ls) amount (omega (arith, sums)) d)
      ]

-- After the expiry no lot of the user is due, what can still be spent is as it was, and the balance
-- has lost the points that were due, as far as it had them.
pub expire_due_locked-Cleared :
    (now : ℕ) (s : Session) → IsSound s → Ensures (λ r. Cleared now s r.1) (expire_due_locked now s)
unfolding expire_due_locked
expire_due_locked-Cleared now s h =
    expire_found-Cleared now s (due_lots now s) refl (due_lots-IsDue now s h)
