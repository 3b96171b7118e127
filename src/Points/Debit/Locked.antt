-- ===== src/Points/Debit/Locked.antt =====
-- `debit_locked` as a whole: what a new debit does, and when it goes through.
use python_server.Base.{
  ℕ, ◌+◌, ◌-◌, ◌≤◌, ◌<◌, min, ◌≡◌, ◌≢◌, refl, ◌∙◌, subst, Option, none, [], arith, ltb,
  if◌then◌else◌, select, take, take_all, length, Text, Bool-cases, inl, inr, if_intro, ok, err,
  ◌>>=◌, Ensures, le→ltb, le→leb, Ensures-bind, Ensures-map, both, insufficient_points,
}
use python_server.Base.Int.{pos, ltb_ℤ, ltb_ℤ-pos}
use python_server.Points.Model.{expense, Ledger, Session, Posting, find_ledger}
use python_server.Points.Lots.{usable, spend_order, remaining_sum}
use python_server.Points.Lots.Table.{sum_by-order_by}
use python_server.Points.Rows.{ledger_row, post, flush_ledger}
use python_server.Points.Expire.{expire_due_locked, due_lots, covered, ensure_lot_coverage}
use python_server.Points.Expire.Cleared.{Cleared, expire_due_locked-Cleared}
use python_server.Points.Debit.{consume, usable_lots, spend, debit, debit_locked}
use python_server.Points.Debit.Consume.{booked}
use python_server.Points.Debit.Spent.{Spent, spend-Spent}
use python_server.Points.Invariant.{IsSound}
use python_server.Points.Invariant.Methods.{
  expire_due_locked-Keeps, ensure_lot_coverage-Keeps, ensure_lot_coverage_user,
}

pub record Debited (now amount : ℕ) (s : Session) (row : Ledger) (t : Session) : Type 0 where
  pub same_user : t.user.id ≡ s.user.id
  pub paid :
      t.user.points + amount + min (remaining_sum (due_lots now s)) s.user.points ≡ s.user.points
  pub accounted : booked row.id t.allocations ≡ amount
  pub shown : row.balance_after ≡ t.user.points
  pub worth_of : row.amount ≡ amount

module _ (now now' now'' amount : ℕ) (p : Posting) (s : Session) where
  spend-Debited :
      (t u : Session)
      → Cleared now s t
      → IsSound u
      → u.user.points ≡ t.user.points
      → u.user.id ≡ t.user.id
      → amount ≤ t.user.points
      → Ensures (λ r. Debited now amount s r.0 r.1) (spend now'' amount p u)
  spend-Debited t u c h same who a =
      Ensures-map (λ r. Spent now'' amount u r.0 r.1) _ (spend now'' amount p u)
        (λ r k. record {
          same_user = k.same_user ∙ who ∙ c.same_user;
          paid = omega (arith, k.paid, c.paid);
          accounted = k.accounted;
          shown = k.shown;
          worth_of = k.worth_of;
        })
        (spend-Spent now'' amount p u h (omega arith))

  rest-Debited :
      (t : Session)
      → IsSound t
      → Cleared now s t
      → Ensures
          (λ r. Debited now amount s r.0 r.1)
          ((if ltb t.user.points amount
              then err insufficient_points
              else ensure_lot_coverage now' t)
            >>= spend now'' amount p)
  rest-Debited t h c = elim (Bool-cases (ltb t.user.points amount)) [
    | inl short ↦ rw short tt
    | inr enough ↦ rw enough (
        Ensures-bind (λ u. (IsSound u × (u.user.points ≡ t.user.points)) × (u.user.id ≡ t.user.id))
          (λ r. Debited now amount s r.0 r.1) (ensure_lot_coverage now' t) (spend now'' amount p)
          (both (λ u. IsSound u × (u.user.points ≡ t.user.points)) (λ u. u.user.id ≡ t.user.id)
            (ensure_lot_coverage now' t) (ensure_lot_coverage-Keeps now' t h)
            (ensure_lot_coverage_user now' t))
          λ u k. spend-Debited t u c k.0.0 k.0.1 k.1 (ground arith))
  ]

  debit-Debited :
      IsSound s → Ensures (λ r. Debited now amount s r.0 r.1) (debit now now' now'' amount p s)
  unfolding debit
  debit-Debited h =
      Ensures-bind (λ (r : Option Ledger × Session). IsSound r.1 × Cleared now s r.1)
        (λ r. Debited now amount s r.0 r.1) (expire_due_locked now s) _
        (both (λ (r : Option Ledger × Session). IsSound r.1) (λ r. Cleared now s r.1)
          (expire_due_locked now s) (expire_due_locked-Keeps now s h)
          (expire_due_locked-Cleared now s h))
        λ r k. rest-Debited r.1 k.0 k.1

-- A debit under a new key takes its amount from the balance, once the points that were due are
-- gone, and books exactly the amount on its own row, which shows the new balance.
pub debit_locked-Debited :
    (now now' now'' amount : ℕ) (p : Posting) (s : Session)
    → IsSound s
    → find_ledger s.user.id p.idempotency_key s.ledgers ≡ none
    → Ensures (λ r. Debited now amount s r.0 r.1) (debit_locked now now' now'' (pos amount) p s)
unfolding debit_locked
debit_locked-Debited now now' now'' amount p s h new =
    if_intro (Ensures (λ r. Debited now amount s r.0 r.1)) (ltb_ℤ (pos 0) (pos amount))
      (rw new (debit-Debited now now' now'' amount p s h)) tt

expire_nothing :
    (now : ℕ) (s : Session) → due_lots now s ≡ [] → expire_due_locked now s ≡ ok (none, s)
unfolding expire_due_locked
expire_nothing now s e = rw e

cover_nothing :
    (now : ℕ) (s : Session) → s.user.points ≤ covered now s → ensure_lot_coverage now s ≡ ok s
unfolding ensure_lot_coverage
cover_nothing now s h = rw (le→leb s.user.points (covered now s) h)

-- A row under a key that is short enough and new breaks no constraint.
pub flush_new :
    (s : Session) (row : Ledger) (key : Text)
    → row.user_id ≡ s.user.id
    → row.idempotency_key ≡ take 160 key
    → length key ≤ 160
    → find_ledger s.user.id key s.ledgers ≡ none
    → flush_ledger s row ≡ ok (post s row)
unfolding flush_ledger
flush_new s row key u k short new =
    let absent : find_ledger row.user_id row.idempotency_key s.ledgers ≡ none =
      cc (u, k, take_all 160 key short, new) in
    ground (arith, absent)

debit-spend :
    (now now' now'' amount : ℕ) (p : Posting) (s : Session)
    → due_lots now s ≡ []
    → s.user.points ≤ covered now' s
    → amount ≤ s.user.points
    → debit now now' now'' amount p s ≡ spend now'' amount p s
unfolding debit
debit-spend now now' now'' amount p s none_due backed a =
    rw (expire_nothing now s none_due, le→ltb s.user.points amount a, cover_nothing now' s backed)

spend-ok :
    (now amount : ℕ) (p : Posting) (s : Session)
    → amount ≤ covered now s
    → length p.idempotency_key ≤ 160
    → find_ledger s.user.id p.idempotency_key s.ledgers ≡ none
    → (row : Ledger) × (t : Session) × (spend now amount p s ≡ ok (row, t))
unfolding spend
spend-ok now amount p s a short new =
    let row = ledger_row s expense amount s.user.points (s.user.points - amount) p in
    let enough : amount ≤ remaining_sum (usable_lots now s) = omega (
      arith,
      sum_by-order_by spend_order (λ l. l.remaining_amount) (select (usable s.user.id now) s.lots),
    ) in
    (
      row,
      consume (usable_lots now s) amount row.id (post s row),
      rw (
        le→ltb (remaining_sum (usable_lots now s)) amount enough,
        flush_new s row p.idempotency_key refl refl short new,
      ),
    )

-- A positive amount is debited wherever nothing is due, the lots cover the balance, the balance and
-- the usable lots cover the amount, and the key is new and fits its column.
pub debit_locked_succeeds :
    (now now' now'' amount : ℕ) (p : Posting) (s : Session)
    → due_lots now s ≡ []
    → s.user.points ≤ covered now' s
    → 0 < amount
    → amount ≤ s.user.points
    → amount ≤ covered now'' s
    → length p.idempotency_key ≤ 160
    → find_ledger s.user.id p.idempotency_key s.ledgers ≡ none
    → (row : Ledger) × (t : Session) × (debit_locked now now' now'' (pos amount) p s ≡ ok (row, t))
unfolding debit_locked
debit_locked_succeeds now now' now'' amount p s none_due backed positive a b short new =
    let (row, t, e) = spend-ok now'' amount p s b short new in
    (
      row,
      t,
      rw (ltb_ℤ-pos amount positive, new)
          (debit-spend now now' now'' amount p s none_due backed a ∙ e),
    )

-- A debit of more than the balance that the expiry leaves is refused.
pub debit_locked_overdraft :
    (now now' now'' amount : ℕ) (p : Posting) (s : Session)
    → IsSound s
    → find_ledger s.user.id p.idempotency_key s.ledgers ≡ none
    → s.user.points < amount + min (remaining_sum (due_lots now s)) s.user.points
    → (r : Ledger × Session) → debit_locked now now' now'' (pos amount) p s ≢ ok r
debit_locked_overdraft now now' now'' amount p s h new short r e =
    let k =
      subst (Ensures (λ q. Debited now amount s q.0 q.1)) e
        (debit_locked-Debited now now' now'' amount p s h new) in
    absurd (omega (arith, k.paid))
