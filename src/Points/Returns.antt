-- ===== src/Points/Returns.antt =====
-- When credits and refunds of points return.
use python_server.Base.{
  ℕ, ◌+◌, ◌≤◌, ◌≡◌, refl, sym, ap, subst, ◌∙◌, Bool, true, false, Option, none, some, Text,
  if◌then◌else◌, find, inl, inr, Option-cases, length, take, take_all, ok, Returns, Returns-bind,
}
use python_server.Base.Int.{ℤ, pos, pos_part, ltb_ℤ}
use python_server.Points.Model.{Ledger, Session, Posting, find_ledger, income}
use python_server.Points.Rows.{is_duplicate, ledger_row, add_lot, post, flush_ledger}
use python_server.Points.Credit.{credit, credit_locked, recover}
use python_server.Points.Refund.{took_points, refund_locked, give_back}

pub is_duplicate_new :
    (s : Session) (row : Ledger) (key : Text)
    → row.user_id ≡ s.user.id
    → row.idempotency_key ≡ take 160 key
    → length key ≤ 160
    → find_ledger s.user.id key s.ledgers ≡ none
    → is_duplicate s row ≡ false
is_duplicate_new s row key u k short new =
    ap (λ (x : Option Ledger). elim x as (λ _. Bool) [ none ↦ false | some _ ↦ true ])
      (ap (λ n. find_ledger n row.idempotency_key s.ledgers) u
        ∙ ap (λ t. find_ledger s.user.id t s.ledgers) (k ∙ take_all 160 key short)
        ∙ new)

pub credit_locked-Returns :
    (saved : Session) (amount : ℤ) (p : Posting) (e : Option ℕ) (s : Session)
    → ltb_ℤ (pos 0) amount ≡ true
    → length p.idempotency_key ≤ 160
    → Returns (credit_locked saved amount p e s)
unfolding credit_locked credit ledger_row
credit_locked-Returns saved amount p e s positive short =
    let n = pos_part amount in
    let row = ledger_row s income n s.user.points (s.user.points + n) p in
    elim (Option-cases (find_ledger s.user.id p.idempotency_key s.ledgers)) [
      | inr (existing, used) ↦ rw (positive, used, credit_locked, credit) tt
      | inl new ↦
          rw (positive, new, credit_locked, credit)
            (subst
              (λ b.
                Returns
                  (if b then recover saved s p else ok (row, add_lot row.id n e (post s row))))
              (sym (is_duplicate_new s row p.idempotency_key refl refl short new)) tt)
    ]

flush_ledger-Returns :
    (s : Session) (row : Ledger) → is_duplicate s row ≡ false → Returns (flush_ledger s row)
unfolding flush_ledger
flush_ledger-Returns s row h = rw (h, flush_ledger) tt

give_back-Returns :
    (now : ℕ) (fallback : Option ℕ) (original : Ledger) (p : Posting) (s : Session)
    → length p.idempotency_key ≤ 160
    → find_ledger s.user.id p.idempotency_key s.ledgers ≡ none
    → Returns (give_back now fallback original p s)
unfolding give_back ledger_row
give_back-Returns now fallback original p s short new =
    let row =
      ledger_row s income original.amount s.user.points (s.user.points + original.amount) p in
    Returns-bind (flush_ledger s row) _
      (flush_ledger-Returns s row (is_duplicate_new s row p.idempotency_key refl refl short new))
      (λ s'. tt)

pub refund_locked-Returns :
    (now : ℕ) (biz_type : Text) (fallback : Option ℕ) (p : Posting) (s : Session)
    (original : Ledger)
    → length p.idempotency_key ≤ 160
    → find (took_points s.user.id biz_type p.biz_no) s.ledgers ≡ some original
    → Returns (refund_locked now biz_type fallback p s)
unfolding refund_locked
refund_locked-Returns now biz_type fallback p s original short took =
    elim (Option-cases (find_ledger s.user.id p.idempotency_key s.ledgers)) [
      | inr (row, used) ↦ rw (used, refund_locked) tt
      | inl new ↦
          rw (new, took, refund_locked) (give_back-Returns now fallback original p s short new)
    ]
